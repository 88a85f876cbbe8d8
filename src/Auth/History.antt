-- ===== src/Auth/History.antt =====
-- Sequences of calls on the sessions: those of src/core/auth_gateway/session_manager.c and the calls
-- of src/core/auth_gateway/auth_client.c that change the list. A pointer that the caller holds is the
-- address of a node.
use mathlib.Core.Path.{subst}
use ps.Base.{
  ℕ, ◌≡◌, refl, sym, ap, ◌≢◌, ◌⊎◌, inl, inr, true, false, Option, none, some, List, [], ◌∷◌, arith,
  ◌==◌, ==_iff, CString, add64,
}
use ps.Chain.{find_first}
use ps.Chain.Search.{
  All, find_first-All, update_first-All, remove_first-All, remove_all-All, find_first_test,
}
use ps.Sessions.{
  Session, SessionState, invalid, expired, banned, is_node, is_open, is_expired_at, set_state,
  session_create, session_destroy, session_find, session_is_valid, session_ban, session_ban_by_id,
  session_invalidate, session_cleanup_expired,
}
use ps.Auth.{refresh_found, validate_found, auth_validate_session, auth_refresh_session}

pub data Call : Type 0 where
  create : Option ℕ → Option CString → Option CString → ℕ → ℕ → ℕ → ℕ → Call
  destroy : ℕ → Call
  check : ℕ → ℕ → Call
  validate : ℕ → Option CString → Call
  ban : ℕ → Call
  ban_by_id : Option CString → Call
  invalidate : ℕ → Call
  refresh : ℕ → Option CString → Call
  cleanup : ℕ → Call

-- The session that an address leads to.
abbrev pub at : ℕ → List Session → Option Session
at p sessions = find_first (is_node p) sessions

module _ (rand : ℕ → ℕ → ℕ) where
  pub step : Call → List Session → List Session
  step (create alloc user name timeout t1 t2 t3) l =
      (session_create rand alloc user name timeout t1 t2 t3 l).1
  step (destroy p) l = session_destroy (at p l) l
  step (check now p) l = (session_is_valid now (at p l) l).1
  step (validate now id) l = (auth_validate_session now id l).1
  step (ban p) l = session_ban (at p l) l
  step (ban_by_id id) l = session_ban_by_id id l
  step (invalidate p) l = session_invalidate (at p l) l
  step (refresh timeout id) l = (auth_refresh_session timeout id l).1
  step (cleanup now) l = (session_cleanup_expired now l).1

  pub run : List Call → List Session → List Session
  run [] l = l
  run (c ∷ cs) l = run cs (step c l)

-- malloc does not hand out the address while the caller holds it.
abbrev pub Keeps : ℕ → Call → Type 0
Keeps p (create alloc user name timeout t1 t2 t3) = alloc ≢ some p
Keeps p _ = Unit {0}

-- A session at the address is no longer open.
abbrev pub Closed : ℕ → Session → Type 0
Closed p s = (s.node == p) ≡ true → is_open s.state ≡ false

set_state-Closed :
    (p : ℕ) (st : SessionState) (s : Session) (l : List Session)
    → is_open st ≡ false
    → All (Closed p) l
    → All (Closed p) (set_state st s l)
set_state-Closed p st s l h a =
    update_first-All (Closed p) (is_node s.node) (λ x. record x { state = st }) (λ x k e. h) l a

session_is_valid-list :
    (now : ℕ) (s : Session) (l : List Session)
    → ((session_is_valid now (some s) l).1 ≡ l)
      ⊎ ((session_is_valid now (some s) l).1 ≡ set_state expired s l)
unfolding session_is_valid
session_is_valid-list now s l = ground arith

is_valid-Closed :
    (p now : ℕ) (o : Option Session) (l : List Session)
    → All (Closed p) l
    → All (Closed p) (session_is_valid now o l).1
unfolding session_is_valid
is_valid-Closed p now none l a = a
is_valid-Closed p now (some s) l a = elim (session_is_valid-list now s l) [
  | inl e ↦ subst (All (Closed p)) (sym e) a
  | inr e ↦ subst (All (Closed p)) (sym e) (set_state-Closed p expired s l refl a)
]

validate_found-Closed :
    (p now : ℕ) (o : Option Session) (l : List Session)
    → All (Closed p) l
    → All (Closed p) (validate_found now o l).1
unfolding validate_found
validate_found-Closed p now none l a = a
validate_found-Closed p now (some s) l a = is_valid-Closed p now (some s) l a

refresh_found-Closed :
    (p timeout : ℕ) (o : Option Session) (l : List Session)
    → All (Closed p) l
    → All (Closed p) (refresh_found timeout o l).1
unfolding refresh_found
refresh_found-Closed p timeout none l a = a
refresh_found-Closed p timeout (some s) l a =
    update_first-All (Closed p) (is_node s.node)
      (λ x. record x { expires_at = add64 x.created_at timeout }) (λ x k. k) l a

session_ban-Closed :
    (p : ℕ) (o : Option Session) (l : List Session)
    → All (Closed p) l
    → All (Closed p) (session_ban o l)
unfolding session_ban
session_ban-Closed p none l a = a
session_ban-Closed p (some s) l a = set_state-Closed p banned s l refl a

session_invalidate-Closed :
    (p : ℕ) (o : Option Session) (l : List Session)
    → All (Closed p) l
    → All (Closed p) (session_invalidate o l)
unfolding session_invalidate
session_invalidate-Closed p none l a = a
session_invalidate-Closed p (some s) l a = set_state-Closed p invalid s l refl a

session_destroy-Closed :
    (p : ℕ) (o : Option Session) (l : List Session)
    → All (Closed p) l
    → All (Closed p) (session_destroy o l)
unfolding session_destroy
session_destroy-Closed p none l a = a
session_destroy-Closed p (some s) l a = remove_first-All (Closed p) (is_node s.node) l a

module _ (rand : ℕ → ℕ → ℕ) (p : ℕ) where
  session_create-Closed :
      (alloc : Option ℕ) (user name : Option CString) (timeout t1 t2 t3 : ℕ) (l : List Session)
      → alloc ≢ some p
      → All (Closed p) l
      → All (Closed p) (session_create rand alloc user name timeout t1 t2 t3 l).1
  unfolding session_create
  session_create-Closed alloc none name timeout t1 t2 t3 l k a = a
  session_create-Closed none (some user) name timeout t1 t2 t3 l k a = a
  session_create-Closed (some q) (some user) name timeout t1 t2 t3 l k a =
      (λ e. absurd (k (ap some ((==_iff q p).0 e))), a)

  step-Closed :
      (c : Call) (l : List Session) → Keeps p c → All (Closed p) l → All (Closed p) (step rand c l)
  unfolding step session_ban_by_id session_cleanup_expired auth_validate_session
      auth_refresh_session
  step-Closed (create alloc user name timeout t1 t2 t3) l k a =
      session_create-Closed alloc user name timeout t1 t2 t3 l k a
  step-Closed (destroy q) l k a = session_destroy-Closed p (at q l) l a
  step-Closed (check now q) l k a = is_valid-Closed p now (at q l) l a
  step-Closed (validate now none) l k a = a
  step-Closed (validate now (some id)) l k a =
      validate_found-Closed p now (session_find (some id) l) l a
  step-Closed (ban q) l k a = session_ban-Closed p (at q l) l a
  step-Closed (ban_by_id id) l k a = session_ban-Closed p (session_find id l) l a
  step-Closed (invalidate q) l k a = session_invalidate-Closed p (at q l) l a
  step-Closed (refresh timeout none) l k a = a
  step-Closed (refresh timeout (some id)) l k a =
      refresh_found-Closed p timeout (session_find (some id) l) l a
  step-Closed (cleanup now) l k a = remove_all-All (Closed p) (is_expired_at now) l a

  run-Closed :
      (cs : List Call) (l : List Session)
      → All (Keeps p) cs
      → All (Closed p) l
      → All (Closed p) (run rand cs l)
  unfolding run
  run-Closed [] l k a = a
  run-Closed (c ∷ cs) l k a = run-Closed cs (step rand c l) k.1 (step-Closed c l k.0 a)

is_valid_never :
    (p now : ℕ) (o : Option Session) (l : List Session)
    → o ≡ at p l
    → All (Closed p) l
    → (session_is_valid now o l).0 ≡ false
unfolding session_is_valid
is_valid_never p now none l e a = refl
is_valid_never p now (some s) l e a = rw (
    find_first-All (Closed p) (is_node p) l {x = s} a (sym e)
      (find_first_test (is_node p) l {x = s} (sym e)))

-- Once the session at an address is banned, invalidated or expired it is never valid again: after
-- every sequence of calls that does not give the address to a new session, the validity check of that
-- address answers no at every time. Refreshing does not bring it back either.
pub never_valid_again :
    (rand : ℕ → ℕ → ℕ) (p : ℕ) (cs : List Call) (now : ℕ) (l : List Session)
    → All (Closed p) l
    → All (Keeps p) cs
    → (session_is_valid now (at p (run rand cs l)) (run rand cs l)).0 ≡ false
never_valid_again rand p cs now l a k =
    is_valid_never p now (at p (run rand cs l)) (run rand cs l) refl (run-Closed rand p cs l k a)
