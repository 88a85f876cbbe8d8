-- ===== src/Examples/Authenticating.antt =====
-- Runs of the authentication gateway, src/core/auth_gateway/.
use ps.Base.{
  ℕ, ◌+◌, ◌*◌, ◌≤◌, ◌≡◌, refl, ◌≢◌, ◌↔◌, ◌⊎◌, true, false, ◌&&◌, Option, none, some, List, [], ◌∷◌,
  arith, leb, length, success, CString, str_eq,
}
use ps.Chain.{find_first}
use ps.Sessions.{
  Session, active, banned, has_id, session_cleanup_expired, session_create, session_find,
  session_is_valid,
}
use ps.Auth.{Connection, Dial, auth_refresh_session}
use ps.StateSync.{
  Header, StateSync, state_receive_update, state_send_update, state_sync_ensure_connected,
}
use ps.Auth.History.{Call, at, never_valid_again, run, refresh, check, create, cleanup}
use ps.Auth.Validation.{auth_refresh_session_idle}
use ps.Sessions.Lifetime.{session_cleanup_expired_outcome}
use ps.Sessions.Identity.{session_create_same_second}
use ps.StateSync.Transfer.{state_receive_update_never, state_send_update_success}
use ps.Chain.Search.{All}

-- "ann" and "s1".
abbrev ann : CString
ann = 97 ∷ 110 ∷ 110 ∷ []

abbrev id1 : CString
id1 = 115 ∷ 49 ∷ []

abbrev open_session : Session
open_session = record {
  node = 16;
  session_id = id1;
  user_id = ann;
  username = ann;
  created_at = 100;
  expires_at = 3700;
  ip_address = [];
  hw_id = id1;
  state = active;
  rights = 0xFFFFFFFF;
}

abbrev closed_session : Session
closed_session = record open_session { state = banned }

abbrev draw : ℕ → ℕ → ℕ
draw seed i = seed + 3 * i

abbrev offline : Connection
offline = record {
  socket = none;
  server_address = ann;
  server_port = 8080;
  connected = false;
  net_init = true;
}

abbrev answered : Dial
answered = record { opened = some 5; accepted = true }

-- malloc without memory, and send() with a negative result.
abbrev no_memory : Option ℕ
no_memory = none

abbrev refused : Option ℕ
refused = none

abbrev seven : ℕ
seven = 7

abbrev sync : StateSync
sync = record {
  last_received_sequence = 0;
  last_sent_sequence = 4;
  sync_enabled = true;
  socket = some 5;
  server_address = ann;
  server_port = 8080;
}

abbrev header : Header
header = record { sequence = 9; data_size = 8 }

-- A refresh, a check, a new session elsewhere and a cleanup.
abbrev calls : List Call
calls =
    refresh 3600 (some id1)
    ∷ check 200 16
    ∷ create (some 32) (some ann) none 60 300 300 300
    ∷ cleanup 400
    ∷ []

never_valid_again_example :
    (session_is_valid 500
      (at 16 (run draw calls (closed_session ∷ [])))
      (run draw calls (closed_session ∷ []))).0
    ≡ false
never_valid_again_example =
    never_valid_again draw 16 calls 500 (closed_session ∷ []) (λ e. refl, tt)
      (tt, (tt, ((λ e. cc), (tt, tt))))

auth_refresh_session_idle_example :
    auth_refresh_session 3600 (some id1) (open_session ∷ []) ≡ (success, (open_session ∷ []))
unfolding session_find find_first str_eq
auth_refresh_session_idle_example =
    auth_refresh_session_idle 3600 id1 (open_session ∷ []) open_session refl refl refl

session_cleanup_expired_outcome_example :
    let r = session_cleanup_expired 3701 (open_session ∷ []) in
    All (λ s. 3701 ≤ s.expires_at) r.1
    × (r.0 + length r.1 ≡ length (open_session ∷ []))
    × (session_find (some id1) r.1
        ≡ find_first (λ s. has_id id1 s && leb 3701 s.expires_at) (open_session ∷ []))
session_cleanup_expired_outcome_example =
    session_cleanup_expired_outcome 3701 id1 (open_session ∷ []) (ground arith)

session_create_same_second_example :
    let first = session_create draw (some 32) (some ann) none 60 200 200 200 (open_session ∷ []) in
    let second = session_create draw (some 48) (some id1) (some ann) 90 200 200 200 first.1 in
    (s s' : Session) × (first.0 ≡ some s)
    × (second.0 ≡ some s')
    × (s.session_id ≡ s'.session_id)
    × (session_find (some s.session_id) second.1 ≡ some s')
    × (s'.node ≡ 48)
session_create_same_second_example =
    session_create_same_second draw 32 48 ann id1 none (some ann) 60 90 200 200 200
      (open_session ∷ [])

state_send_update_success_example :
    let r = state_send_update 5 true seven answered true refused sync in
    ((r.0 ≡ success) ↔ (
      (true ≡ true)
      × ((state_sync_ensure_connected answered sync).0 ≡ success)
      × (true ≡ true)
      × (refused ≡ none)
      × (seven ≡ 7)))
    × ((r.0 ≡ success) ⊎ (r.1.last_sent_sequence ≡ sync.last_sent_sequence))
state_send_update_success_example =
    state_send_update_success 5 true seven answered true refused sync

state_receive_update_never_example :
    let r = state_receive_update true header 64 answered (some 12) (some 8) sync in
    (r.status ≢ success)
    × (r.sequence ≡ none)
    × (r.data_size ≡ none)
    × (r.state.last_received_sequence ≡ sync.last_received_sequence)
state_receive_update_never_example =
    state_receive_update_never true header 64 answered (some 12) (some 8) sync
