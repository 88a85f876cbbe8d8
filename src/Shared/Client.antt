-- ===== src/Shared/Client.antt =====
-- src/client/network_client.c and src/client/api_hooks.c. INVALID_SOCKET and a NULL module are `none`. The
-- functions ps14_network_connect, ps14_network_send and ps14_network_receive, which the sources do not
-- define, and the calls of Windows are answers given as arguments.
use ps.Base.{
  ℕ, ◌≡◌, refl, Bool, true, false, not, ◌||◌, Option, none, some, List, [], ◌∷◌, ◌==◌,
  if◌then◌else◌, CString,
}

pub record Client : Type 0 where
  pub socket : Option ℕ
  pub connected : Bool

-- `dialled` is the socket that the connection attempt gives.
unfoldable pub client_connect : Option ℕ → Client → Bool × Client
client_connect none c = (false, record c { socket = none })
client_connect (some s) c = (true, record { socket = some s; connected = true })

unfoldable pub client_disconnect : Client → Client
client_disconnect c = record { socket = none; connected = false }

unfoldable pub client_is_connected : Client → Bool
client_is_connected c = c.connected

-- The guard that sending and receiving share; `answer` is that of the network for the socket.
unfoldable pub client_exchange : (Option ℕ → Bool) → Bool → ℕ → Client → Bool
client_exchange answer has_data size c =
    if not c.connected || (not has_data || (size == 0)) then false else answer c.socket

-- The value of g_game_module afterwards.
unfoldable pub hooks_init : Option ℕ → Bool × Option ℕ
hooks_init none = (false, none)
hooks_init (some game) = (true, some game)

unfoldable pub hooks_shutdown : Option ℕ → Option ℕ
hooks_shutdown game = none

-- `find` is GetProcAddress.
unfoldable pub get_function : (ℕ → CString → Option ℕ) → Option CString → Option ℕ → Option ℕ
get_function find none game = none
get_function find (some name) none = none
get_function find (some name) (some game) = find game name

-- The result, and what is written through the pointer for the original function.
unfoldable pub install_hook :
    (ℕ → CString → Option ℕ) → Option CString → Bool → Bool → Option ℕ → Bool × Option ℕ
unfolding get_function
install_hook find name has_hook has_original game =
    if not has_hook then (false, none) else elim (get_function find name game) [
      | none ↦ (false, none)
      | some original ↦ (true, if has_original then some original else none)
    ]

-- Connection attempts and what they gave, and disconnections.
pub data Attempt : Type 0 where
  dial : Option ℕ → Attempt
  hang_up : Attempt

unfoldable pub attempts : List Attempt → Client → Client
unfolding client_connect client_disconnect
attempts [] c = c
attempts (dial answer ∷ rest) c = attempts rest (client_connect answer c).1
attempts (hang_up ∷ rest) c = attempts rest (client_disconnect c)

-- Whether an attempt has succeeded since the last disconnection, or none has been and it was so before.
abbrev pub succeeded : Bool → List Attempt → Bool
succeeded before [] = before
succeeded before (dial none ∷ rest) = succeeded before rest
succeeded before (dial (some s) ∷ rest) = succeeded true rest
succeeded before (hang_up ∷ rest) = succeeded false rest

-- The client counts as connected exactly if an attempt has succeeded since the last disconnection.
pub client_is_connected-attempts :
    (rest : List Attempt) (c : Client)
    → client_is_connected (attempts rest c) ≡ succeeded c.connected rest
unfolding client_is_connected attempts
client_is_connected-attempts [] c = refl
client_is_connected-attempts (dial none ∷ rest) c =
    client_is_connected-attempts rest (record c { socket = none })
client_is_connected-attempts (dial (some s) ∷ rest) c =
    client_is_connected-attempts rest (record { socket = some s; connected = true })
client_is_connected-attempts (hang_up ∷ rest) c =
    client_is_connected-attempts rest (record { socket = none; connected = false })

-- So a connected client whose next attempt fails still counts as connected, and sends through no socket.
pub client_exchange-connect :
    (answer : Option ℕ → Bool) (size : ℕ) (c : Client)
    → c.connected ≡ true
    → (size == 0) ≡ false
    → client_exchange answer true size (client_connect none c).1 ≡ answer none
unfolding client_exchange client_connect
client_exchange-connect answer size c on nz = rw on (rw nz refl)
