-- ===== src/StateSync.antt =====
-- src/core/auth_gateway/state_sync.c over src/shared/network.c: sending and receiving state packets.
-- The file ends inside ps14_state_sync_get_last_sequence, which is left out. `none` is
-- PS14_INVALID_SOCKET, and NULL.
pub mod Transfer
use ps.Base.{
  ℕ, ◌+◌, Bool, true, false, not, ◌||◌, Option, none, some, ltb, ◌==◌, if◌then◌else◌, Status,
  success, out_of_memory, invalid_argument, not_initialized, network_error, code, is_success,
  CString, max_path, strncpy,
}
use ps.Network.{socket_create, socket_connect, socket_send, socket_receive}
use ps.Auth.{Dial}

pub record StateSync : Type 0 where
  pub last_received_sequence : ℕ
  pub last_sent_sequence : ℕ
  pub sync_enabled : Bool
  pub socket : Option ℕ
  pub server_address : CString
  pub server_port : ℕ

-- The address and port come from the configuration (ps14_config_get never returns NULL).
unfoldable pub state_sync_init : CString → ℕ → Status × StateSync
state_sync_init address port = (
  success,
  record {
    last_received_sequence = 0;
    last_sent_sequence = 0;
    sync_enabled = true;
    socket = none;
    server_address = strncpy max_path address;
    server_port = port;
  },
)

unfoldable pub state_sync_shutdown : StateSync → StateSync
state_sync_shutdown s = record s { socket = none; sync_enabled = false }

-- After the socket was created.
sync_dial : Option ℕ → Bool → StateSync → Status × StateSync
unfolding socket_connect
sync_dial none accepted s = (network_error, record s { socket = none })
sync_dial (some k) accepted s =
    if is_success (socket_connect accepted)
    then (success, record s { socket = some k })
    else (network_error, record s { socket = none })

connect_from : Option ℕ → Dial → StateSync → Status × StateSync
unfolding sync_dial socket_create
connect_from (some k) dial s = (success, s)
connect_from none dial s = sync_dial (socket_create dial.opened) dial.accepted s

unfoldable pub state_sync_connect : Dial → StateSync → Status × StateSync
unfolding connect_from
state_sync_connect dial s = connect_from s.socket dial s

ensure_from : Option ℕ → Dial → StateSync → Status × StateSync
unfolding state_sync_connect
ensure_from (some k) dial s = (success, s)
ensure_from none dial s = state_sync_connect dial s

unfoldable pub state_sync_ensure_connected : Dial → StateSync → Status × StateSync
unfolding ensure_from
state_sync_ensure_connected dial s =
    if s.sync_enabled then ensure_from s.socket dial s else (not_initialized, s)

-- sizeof(Ps14StatePacket): the packed header before the data.
abbrev pub packet_header : ℕ
packet_header = 12

-- From the call of ps14_socket_send on; its last argument is a NULL count pointer. The returned status
-- is compared with the size of the packet.
sent_packet : ℕ → ℕ → Option ℕ → StateSync → Status × StateSync
unfolding socket_send code
sent_packet sequence size sent s =
    if code (socket_send sent).0 == packet_header + size
    then (success, record s { last_sent_sequence = sequence })
    else (network_error, s)

-- After the connection was ensured; `alloc` tells whether malloc gave memory for the packet.
send_connected : Status × StateSync → ℕ → ℕ → Bool → Option ℕ → Status × StateSync
unfolding sent_packet
send_connected (status, s) sequence size alloc sent =
    if is_success status
    then (if alloc then sent_packet sequence size sent s else (out_of_memory, s))
    else (status, s)

-- `has_data` tells whether the data pointer is not NULL, and `sent` is the answer of send().
unfoldable pub state_send_update :
    ℕ → Bool → ℕ → Dial → Bool → Option ℕ → StateSync → Status × StateSync
unfolding send_connected state_sync_ensure_connected
state_send_update sequence has_data size dial alloc sent s =
    if not has_data || size == 0 || ltb 65535 size
    then (invalid_argument, s)
    else send_connected (state_sync_ensure_connected dial s) sequence size alloc sent

-- The header that recv() filled in.
pub record Header : Type 0 where
  pub sequence : ℕ
  pub data_size : ℕ

-- What is handed back through the pointers, with the status and the state.
pub record Received : Type 0 where
  pub status : Status
  pub sequence : Option ℕ
  pub data_size : Option ℕ
  pub state : StateSync

refuse : Status → StateSync → Received
refuse status s = record { status = status; sequence = none; data_size = none; state = s }

-- The header is validated and the data are read.
receive_data : Header → ℕ → Option ℕ → StateSync → Received
unfolding refuse socket_receive code
receive_data h room second s =
    if h.data_size == 0 || ltb room h.data_size
    then refuse invalid_argument s
    else (if code (socket_receive second).0 == h.data_size
        then record {
          status = success;
          sequence = some h.sequence;
          data_size = some h.data_size;
          state = record s { last_received_sequence = h.sequence };
        }
        else refuse network_error s)

receive_connected : Status × StateSync → Header → ℕ → Option ℕ → Option ℕ → Received
unfolding receive_data refuse socket_receive code
receive_connected (status, s) h room first second =
    if is_success status
    then (if code (socket_receive first).0 == packet_header
        then receive_data h room second s
        else refuse network_error s)
    else refuse status s

-- `first` and `second` are the answers of recv() to the two reads.
unfoldable pub state_receive_update :
    Bool → Header → ℕ → Dial → Option ℕ → Option ℕ → StateSync → Received
unfolding receive_connected state_sync_ensure_connected refuse
state_receive_update has_pointers h room dial first second s =
    if not has_pointers || room == 0
    then refuse invalid_argument s
    else receive_connected (state_sync_ensure_connected dial s) h room first second

unfoldable pub state_resolve_conflict : StateSync → Status × StateSync
state_resolve_conflict s = (success, s)

connected_from : Option ℕ → Bool → Bool
connected_from none enabled = false
connected_from (some k) enabled = enabled

unfoldable pub state_sync_is_connected : StateSync → Bool
unfolding connected_from
state_sync_is_connected s = connected_from s.socket s.sync_enabled
