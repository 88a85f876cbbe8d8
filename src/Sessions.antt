-- ===== src/Sessions.antt =====
-- src/core/auth_gateway/session_manager.c: the list of sessions, from g_sessions on. A session is
-- known by the address of its node, `node`; a pointer argument is the session that it points to, or
-- `none` for NULL. Each value of time(NULL) and each result of malloc is an argument; `rand seed i`
-- is the i-th value of rand() after srand(seed).
pub mod Lifetime
pub mod Identity
use ps.Base.{
  ℕ, zero, suc, ◌+◌, ◌-◌, ◌%◌, ◌^◌, Bool, true, false, Option, none, some, List, [], ◌∷◌, ltb, ◌==◌,
  if◌then◌else◌, length, CString, max_name, strncpy, str_eq, add64,
}
use ps.Chain.{find_first, update_first, remove_first, remove_all, count_all}

pub data SessionState : Type 0 where
  invalid pending active expired banned : SessionState

pub record Session : Type 0 where
  pub node : ℕ
  pub session_id : CString
  pub user_id : CString
  pub username : CString
  pub created_at : ℕ
  pub expires_at : ℕ
  pub ip_address : CString
  pub hw_id : CString
  pub state : SessionState
  pub rights : ℕ

-- The 62 characters "a-zA-Z0-9" by their positions.
abbrev session_char : ℕ → ℕ
session_char k =
    if ltb k 26 then b'a' + k else if ltb k 52 then b'A' + (k - 26) else b'0' + (k - 52)

-- for (usize i = ...; n characters to go; i++)
unfoldable pub session_chars : (ℕ → ℕ) → ℕ → ℕ → CString
session_chars draw zero i = []
session_chars draw (suc n) i = session_char (draw i % 62) ∷ session_chars draw n (i + 1)

module _ (rand : ℕ → ℕ → ℕ) where
  -- The generator is seeded with the time in seconds, cut to 32 bits; the buffer has 64 bytes.
  unfoldable pub generate_session_id : ℕ → CString
  unfolding session_chars
  generate_session_id now = session_chars (rand (now % 2 ^ 32)) 63 0

  unfoldable pub generate_hw_id : ℕ → CString
  unfolding generate_session_id
  generate_hw_id now = generate_session_id now

  -- The session that ps14_session_create fills in at address p. The three times are those that the
  -- calls of time(NULL) give, in the order in which they are made.
  unfoldable pub new_session : ℕ → CString → Option CString → ℕ → ℕ → ℕ → ℕ → Session
  unfolding generate_session_id generate_hw_id
  new_session p user_id username timeout id_time now hw_time = record {
    node = p;
    session_id = generate_session_id id_time;
    user_id = strncpy 63 user_id;
    username = elim username [ none ↦ [] | some name ↦ strncpy max_name name ];
    created_at = now;
    expires_at = add64 now timeout;
    ip_address = [];
    hw_id = generate_hw_id hw_time;
    state = active;
    rights = 0xFFFFFFFF;
  }

  -- The new session, or NULL, and the list.
  unfoldable pub session_create :
      Option ℕ
      → Option CString
      → Option CString
      → ℕ
      → ℕ
      → ℕ
      → ℕ
      → List Session
      → Option Session × List Session
  unfolding new_session
  session_create alloc none username timeout id_time now hw_time sessions = (none, sessions)
  session_create none (some user_id) username timeout id_time now hw_time sessions =
      (none, sessions)
  session_create (some p) (some user_id) username timeout id_time now hw_time sessions =
      let session = new_session p user_id username timeout id_time now hw_time in
      (some session, session ∷ sessions)

abbrev pub is_node : ℕ → Session → Bool
is_node p s = s.node == p

abbrev pub has_id : CString → Session → Bool
has_id id s = str_eq s.session_id id

unfoldable pub session_destroy : Option Session → List Session → List Session
unfolding remove_first
session_destroy none sessions = sessions
session_destroy (some s) sessions = remove_first (is_node s.node) sessions

unfoldable pub session_find : Option CString → List Session → Option Session
unfolding find_first
session_find none sessions = none
session_find (some id) sessions = find_first (has_id id) sessions

unfoldable pub session_find_by_user : Option CString → List Session → Option Session
unfolding find_first
session_find_by_user none sessions = none
session_find_by_user (some id) sessions = find_first (λ s. str_eq s.user_id id) sessions

-- `session->state = st`.
abbrev pub set_state : SessionState → Session → List Session → List Session
set_state st s sessions = update_first (is_node s.node) (λ x. record x { state = st }) sessions

-- The two tests of the state that come before the clock is read.
abbrev pub is_open : SessionState → Bool
is_open banned = false
is_open invalid = false
is_open expired = false
is_open _ = true

unfoldable pub session_is_valid : ℕ → Option Session → List Session → Bool × List Session
unfolding update_first
session_is_valid now none sessions = (false, sessions)
session_is_valid now (some s) sessions =
    if is_open s.state
    then (if ltb s.expires_at now then (false, set_state expired s sessions) else (true, sessions))
    else (false, sessions)

-- A u32 counter over the list.
unfoldable pub session_count : List Session → ℕ
session_count sessions = length sessions % 2 ^ 32

unfoldable pub session_ban : Option Session → List Session → List Session
unfolding update_first
session_ban none sessions = sessions
session_ban (some s) sessions = set_state banned s sessions

unfoldable pub session_ban_by_id : Option CString → List Session → List Session
unfolding session_find session_ban
session_ban_by_id id sessions = session_ban (session_find id sessions) sessions

unfoldable pub session_invalidate : Option Session → List Session → List Session
unfolding update_first
session_invalidate none sessions = sessions
session_invalidate (some s) sessions = set_state invalid s sessions

abbrev pub is_expired_at : ℕ → Session → Bool
is_expired_at now s = ltb s.expires_at now

-- The number of sessions freed, in a u32, and the list.
unfoldable pub session_cleanup_expired : ℕ → List Session → ℕ × List Session
unfolding remove_all count_all
session_cleanup_expired now sessions =
    (count_all (is_expired_at now) sessions % 2 ^ 32, remove_all (is_expired_at now) sessions)

-- Every node is freed.
unfoldable pub session_manager_shutdown : List Session → List Session
session_manager_shutdown sessions = []
