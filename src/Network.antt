-- ===== src/Network.antt =====
-- src/shared/network.c: the wrappers of the socket calls and the flag g_net_init, as built for a
-- POSIX system. What the operating system answers is an argument: a socket or `none` for INVALID, a
-- Boolean for "== 0", and for send and recv the byte count or `none` for a negative result. A
-- network address argument goes to the system only, and is left out.
use ps.Base.{
  ℕ, ◌+◌, ◌-◌, ◌*◌, ◌/◌, ◌%◌, ◌^◌, ◌<◌, ◌≡◌, arith, Bool, true, false, Option, none, some, ◌==◌,
  if◌then◌else◌, Status, success, unknown, network_error,
}

-- The flag g_net_init.
unfoldable pub network_init : Bool → Status × Bool
network_init started = (success, true)

unfoldable pub network_shutdown : Bool → Bool
network_shutdown started = false

unfoldable pub socket_create : Option ℕ → Option ℕ
socket_create none = none
socket_create (some s) = some s

unfoldable pub socket_close : Bool → Status
socket_close closed = if closed then success else unknown

unfoldable pub socket_bind : Bool → Status
socket_bind bound = if bound then success else unknown

unfoldable pub socket_listen : Bool → Status
socket_listen listening = if listening then success else unknown

unfoldable pub socket_connect : Bool → Status
socket_connect connected = if connected then success else network_error

-- The return value, and what is written through the count pointer where that is not NULL.
unfoldable pub socket_send : Option ℕ → Status × Option ℕ
socket_send none = (network_error, none)
socket_send (some sent) = (success, some sent)

unfoldable pub socket_receive : Option ℕ → Status × Option ℕ
socket_receive none = (network_error, none)
socket_receive (some received) = (if received == 0 then network_error else success, some received)

-- Whether bit k of a set of flags is set, and the set with it set or cleared.
abbrev pub has_bit : ℕ → ℕ → Bool
has_bit k flags = flags / 2 ^ k % 2 == 1

unfoldable pub with_bit : ℕ → Bool → ℕ → ℕ
with_bit k true flags = if has_bit k flags then flags else flags + 2 ^ k
with_bit k false flags = if has_bit k flags then flags - 2 ^ k else flags

-- `k` is the bit of O_NONBLOCK, `flags` what fcntl(F_GETFL) gives, `set` whether fcntl(F_SETFL) takes
-- flags.
unfoldable pub socket_set_non_blocking : ℕ → Option ℕ → (ℕ → Bool) → Bool → Status
unfolding with_bit
socket_set_non_blocking k none set non_blocking = unknown
socket_set_non_blocking k (some flags) set non_blocking =
    if set (with_bit k non_blocking flags) then success else unknown

unfoldable pub socket_get_error : ℕ → ℕ
socket_get_error errno = errno

-- Byte order on a machine that stores the least significant byte first.
unfoldable pub network_htons : ℕ → ℕ
network_htons v = v % 256 * 256 + v / 256 % 256

unfoldable pub network_ntohs : ℕ → ℕ
network_ntohs v = v % 256 * 256 + v / 256 % 256

unfoldable pub network_htonl : ℕ → ℕ
network_htonl v =
    v % 256 * 2 ^ 24 + v / 2 ^ 8 % 256 * 2 ^ 16 + v / 2 ^ 16 % 256 * 2 ^ 8 + v / 2 ^ 24 % 256

unfoldable pub network_ntohl : ℕ → ℕ
network_ntohl v =
    v % 256 * 2 ^ 24 + v / 2 ^ 8 % 256 * 2 ^ 16 + v / 2 ^ 16 % 256 * 2 ^ 8 + v / 2 ^ 24 % 256

-- A port and an address that are sent in the order of the network arrive as they were.
pub network_ntohs-htons : (v : ℕ) → v < 2 ^ 16 → network_ntohs (network_htons v) ≡ v
unfolding network_ntohs network_htons
network_ntohs-htons v h = omega arith

pub network_ntohl-htonl : (v : ℕ) → v < 2 ^ 32 → network_ntohl (network_htonl v) ≡ v
unfolding network_ntohl network_htonl
network_ntohl-htonl v h = omega arith
