-- ===== src/Sessions/Lifetime.antt =====
-- When a session of src/core/auth_gateway/session_manager.c is valid, and what the cleanup keeps.
use ps.Base.{
  refl, leb, ◌⊎◌, ℕ, ◌+◌, ◌^◌, ◌≤◌, ◌<◌, ◌≡◌, ◌↔◌, true, false, ◌&&◌, some, List, [], ◌∷◌, arith,
  ltb, if◌then◌else◌, length, CString, leb, ◌⊎◌,
}
use ps.Chain.{find_first, remove_all}
use ps.Chain.Search.{All, count_all-remove_all, remove_all_rejects, find_first-update_first}
use ps.Sessions.{
  Session, expired, session_find, session_is_valid, session_cleanup_expired, is_node, is_open,
  has_id, is_expired_at,
}

-- A session is reported as valid exactly when it is neither banned, invalidated nor expired and its
-- last second has not passed; the list changes only where an open session has run out: the node then
-- holds the same session, marked as expired.
pub session_is_valid_outcome :
    (now : ℕ) (s : Session) (sessions : List Session)
    → find_first (is_node s.node) sessions ≡ some s
    → let r = session_is_valid now (some s) sessions in
      ((r.0 ≡ true) ↔ ((is_open s.state ≡ true) × (now ≤ s.expires_at)))
      × (find_first (is_node s.node) r.1
          ≡ some
              (if is_open s.state && ltb s.expires_at now then record s { state = expired } else s))
      × ((r.0 ≡ false) ⊎ (r.1 ≡ sessions))
unfolding session_is_valid
session_is_valid_outcome now s sessions h = (
  ground arith,
  ground (
    arith,
    find_first-update_first (is_node s.node) (λ x. record x { state = expired }) sessions {x = s}
        (λ a e. e) h,
  ),
  ground arith,
)

-- The cleanup frees the sessions whose last second has passed, and only those: none of them is left,
-- a search by identifier finds the first session with the identifier that has not run out, and up to
-- 2^32 - 1 sessions the returned count is the number of sessions freed.
pub session_cleanup_expired_outcome :
    (now : ℕ) (id : CString) (sessions : List Session)
    → length sessions < 2 ^ 32
    → let r = session_cleanup_expired now sessions in
      All (λ s. now ≤ s.expires_at) r.1
      × (r.0 + length r.1 ≡ length sessions)
      × (session_find (some id) r.1
          ≡ find_first (λ s. has_id id s && leb now s.expires_at) sessions)
unfolding session_cleanup_expired session_find
session_cleanup_expired_outcome now id sessions small = (
  alive (remove_all (is_expired_at now) sessions) (remove_all_rejects (is_expired_at now) sessions),
  omega (arith, count_all-remove_all (is_expired_at now) sessions),
  kept sessions,
)
  where
    kept :
        (xs : List Session)
        → find_first (has_id id) (remove_all (is_expired_at now) xs)
          ≡ find_first (λ s. has_id id s && leb now s.expires_at) xs
    kept [] = unfold remove_all find_first in refl
    kept (x ∷ xs) = unfold remove_all find_first in ground (arith, kept xs)

    alive :
        (xs : List Session)
        → All (λ s. is_expired_at now s ≡ false) xs
        → All (λ s. now ≤ s.expires_at) xs
    alive [] a = tt
    alive (x ∷ xs) a = (ground arith, alive xs a.1)
