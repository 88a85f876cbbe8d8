-- ===== src/Auth.antt =====
-- src/core/auth_gateway/auth_client.c: the connection to the authentication server, and the calls of
-- the game that go over it to the list of sessions. `none` is PS14_INVALID_SOCKET, and NULL.
pub mod Connecting
pub mod Validation
pub mod History
use ps.Base.{
  ℕ, Bool, true, false, Option, none, some, List, [], ◌∷◌, ◌++◌, if◌then◌else◌, take, Status,
  success, invalid_argument, not_found, not_initialized, authentication_failed, network_error, code,
  is_success, CString, max_path, strncpy, add64,
}
use ps.Chain.{update_first}
use ps.Network.{socket_create, socket_connect, network_init, network_shutdown}
use ps.Sessions.{Session, is_node, session_create, session_destroy, session_find, session_is_valid}

pub record Connection : Type 0 where
  pub socket : Option ℕ
  pub server_address : CString
  pub server_port : ℕ
  pub connected : Bool
  pub net_init : Bool

-- What the system answers to socket() and to connect() in one attempt.
pub record Dial : Type 0 where
  pub opened : Option ℕ
  pub accepted : Bool

unfoldable pub auth_init : Option CString → ℕ → Connection → Status × Connection
unfolding network_init
auth_init address port c = (
  success,
  record c {
    server_address = elim address [ none ↦ c.server_address | some a ↦ strncpy max_path a ];
    server_port = port;
    net_init = (network_init c.net_init).1;
  },
)

-- After the socket was created.
auth_dial : Option ℕ → Bool → Connection → Status × Connection
unfolding socket_connect
auth_dial none accepted c = (network_error, record c { socket = none })
auth_dial (some s) accepted c =
    if is_success (socket_connect accepted)
    then (success, record c { socket = some s; connected = true })
    else (network_error, record c { socket = none })

-- An old socket is closed and forgotten before a new one is made.
unfoldable pub auth_connect : Dial → Connection → Status × Connection
unfolding auth_dial socket_create
auth_connect dial c =
    if c.connected
    then (success, c)
    else auth_dial (socket_create dial.opened) dial.accepted (record c { socket = none })

unfoldable pub auth_disconnect : Connection → Connection
auth_disconnect c = record c { socket = none; connected = false }

unfoldable pub auth_shutdown : Connection → Connection
unfolding auth_disconnect network_shutdown
auth_shutdown c = record (auth_disconnect c) { net_init = network_shutdown c.net_init }

unfoldable pub auth_is_connected : Connection → Bool
auth_is_connected c = c.connected

pub record AuthResult : Type 0 where
  pub code : Status
  pub message : CString
  pub session : Option Session

-- "Login successful for: ".
abbrev pub login_message : CString
login_message =
    76 ∷ 111 ∷ 103 ∷ 105 ∷ 110 ∷ 32 ∷ 115 ∷ 117 ∷ 99 ∷ 99 ∷ 101 ∷ 115 ∷ 115 ∷ 102 ∷ 117 ∷ 108 ∷ 32
    ∷ 102 ∷ 111 ∷ 114 ∷ 58 ∷ 32 ∷ []

-- "temp_user_id".
abbrev pub temp_user_id : CString
temp_user_id = 116 ∷ 101 ∷ 109 ∷ 112 ∷ 95 ∷ 117 ∷ 115 ∷ 101 ∷ 114 ∷ 95 ∷ 105 ∷ 100 ∷ []

-- The call's status, what the callback is handed if it is called, the connection and the sessions.
pub record Login : Type 0 where
  pub status : Status
  pub reported : Option AuthResult
  pub connection : Connection
  pub sessions : List Session

module _ (rand : ℕ → ℕ → ℕ) where
  -- The simulated answer of the server, once connected.
  login_answer : CString → Option ℕ → ℕ → ℕ → ℕ → Connection → List Session → Login
  unfolding session_create
  login_answer username alloc id_time now hw_time c sessions =
      let (session, sessions') =
        session_create rand alloc (some temp_user_id) (some username) 3600 id_time now hw_time
          sessions in
      record {
        status = success;
        reported = some (record {
          code = success;
          message = take 255 (login_message ++ username);
          session = session;
        });
        connection = c;
        sessions = sessions';
      }

  -- After the connection attempt, with its status.
  login_after : Status → CString → Option ℕ → ℕ → ℕ → ℕ → Connection → List Session → Login
  unfolding login_answer
  login_after status username alloc id_time now hw_time c sessions =
      if is_success status
      then login_answer username alloc id_time now hw_time c sessions
      else record { status = network_error; reported = none; connection = c; sessions = sessions }

  -- `callback` tells whether a callback was given.
  unfoldable pub auth_login :
      Option CString
      → Option CString
      → Bool
      → Dial
      → Option ℕ
      → ℕ
      → ℕ
      → ℕ
      → Connection
      → List Session
      → Login
  unfolding auth_connect login_after
  auth_login none password callback dial alloc id_time now hw_time c sessions = record {
    status = invalid_argument;
    reported = none;
    connection = c;
    sessions = sessions;
  }
  auth_login (some username) none callback dial alloc id_time now hw_time c sessions = record {
    status = invalid_argument;
    reported = none;
    connection = c;
    sessions = sessions;
  }
  auth_login (some username) (some password) false dial alloc id_time now hw_time c sessions =
      record { status = not_initialized; reported = none; connection = c; sessions = sessions }
  auth_login (some username) (some password) true dial alloc id_time now hw_time c sessions =
      let (status, c') = auth_connect dial c in
      login_after status username alloc id_time now hw_time c' sessions

unfoldable pub auth_logout :
    Option CString → Dial → Connection → List Session → Status × Connection × List Session
unfolding auth_connect session_find session_destroy
auth_logout none dial c sessions = (invalid_argument, c, sessions)
auth_logout (some id) dial c sessions =
    let (status, c') = auth_connect dial c in
    if is_success status
    then (success, c', session_destroy (session_find (some id) sessions) sessions)
    else (network_error, c', sessions)

-- The branches of ps14_auth_validate_session after the search.
validate_found : ℕ → Option Session → List Session → Status × List Session
unfolding session_is_valid
validate_found now none sessions = (not_found, sessions)
validate_found now (some s) sessions =
    let (valid, sessions') = session_is_valid now (some s) sessions in
    (if valid then success else authentication_failed, sessions')

unfoldable pub auth_validate_session : ℕ → Option CString → List Session → Status × List Session
unfolding validate_found session_find
auth_validate_session now none sessions = (invalid_argument, sessions)
auth_validate_session now (some id) sessions =
    validate_found now (session_find (some id) sessions) sessions

-- The branches of ps14_auth_refresh_session after the search; `timeout` is the configured
-- auth.session_timeout_seconds (ps14_config_get never returns NULL).
refresh_found : ℕ → Option Session → List Session → Status × List Session
unfolding update_first
refresh_found timeout none sessions = (not_found, sessions)
refresh_found timeout (some s) sessions = (
  success,
  update_first (is_node s.node) (λ x. record x { expires_at = add64 x.created_at timeout })
      sessions,
)

unfoldable pub auth_refresh_session : ℕ → Option CString → List Session → Status × List Session
unfolding refresh_found session_find
auth_refresh_session timeout none sessions = (invalid_argument, sessions)
auth_refresh_session timeout (some id) sessions =
    refresh_found timeout (session_find (some id) sessions) sessions
