-- ===== src/Auth/Connecting.antt =====
-- The connection of src/core/auth_gateway/auth_client.c, and what a login reports.
use ps.Base.{
  ℕ, ◌≡◌, refl, ◌≢◌, ◌↔◌, true, Option, none, some, List, arith, Status, success, network_error,
  CString, ◌⊎◌, false, inr, inl,
}
use ps.Sessions.{Session}
use ps.Auth.{Connection, Dial, AuthResult, auth_connect, login_after, auth_login}

-- A connection that counts as connected has a socket.
abbrev pub IsSound : Connection → Type 0
IsSound c = c.connected ≡ true → c.socket ≢ none

-- Connecting keeps a sound connection sound; it succeeds exactly if the client counts as connected
-- afterwards; a client that was connected stays as it was, with no attempt made; and a failure
-- leaves no socket behind.
pub auth_connect_outcome :
    (dial : Dial) (c : Connection)
    → IsSound c
    → let r = auth_connect dial c in
      IsSound r.1
      × ((r.0 ≡ success) ↔ (r.1.connected ≡ true))
      × ((c.connected ≡ false) ⊎ (r.1 ≡ c))
      × ((r.0 ≡ success) ⊎ ((r.0 ≡ network_error) × (r.1.socket ≡ none)))
      × (r.1.server_address ≡ c.server_address)
unfolding auth_connect
auth_connect_outcome dial c h =
    (ground arith, ground arith, ground arith, ground arith, ground arith)

login_after_cases :
    (rand : ℕ → ℕ → ℕ) (status : Status) (username : CString) (alloc : Option ℕ)
    (id_time now hw_time : ℕ) (c : Connection) (sessions : List Session)
    → let r = login_after rand status username alloc id_time now hw_time c sessions in
      (r.connection ≡ c)
      × ((r.status ≡ success) ↔ (status ≡ success))
      × ((r.status ≡ success) ↔ ((a : AuthResult) × (r.reported ≡ some a) × (a.code ≡ success)))
      × ((r.reported ≡ none)
          ⊎ ((a : AuthResult) × (r.reported ≡ some a) × ((a.session ≡ none) ↔ (alloc ≡ none))))
      × ((r.sessions ≡ sessions) ⊎ (alloc ≢ none))
unfolding login_after
login_after_cases rand success username none id_time now hw_time c sessions = (
  refl,
  (λ h. h, λ h. h),
  (λ h. (_, refl, refl), λ h. refl),
  inr (_, refl, (λ h. refl, λ h. refl)),
  inl refl,
)
login_after_cases rand success username (some p) id_time now hw_time c sessions = (
  refl,
  (λ h. h, λ h. h),
  (λ h. (_, refl, refl), λ h. refl),
  inr (_, refl, (λ h. cc, λ h. cc)),
  inr (λ h. cc),
)
login_after_cases rand _ username alloc id_time now hw_time c sessions =
    (refl, (λ h. cc, λ h. cc), (λ h. cc, λ (a, q, e). cc), inl refl, inl refl)

-- With a name, a password and a callback, a login succeeds exactly if the connection attempt does, and
-- exactly then the callback is called, with the code of a success. It is told of a success also when
-- memory ran out: the session that it is handed is NULL exactly if malloc failed, and then the list of
-- sessions is unchanged.
pub auth_login_outcome :
    (rand : ℕ → ℕ → ℕ) (username password : CString) (dial : Dial) (alloc : Option ℕ)
    (id_time now hw_time : ℕ) (c : Connection) (sessions : List Session)
    → let r =
        auth_login rand
          (some username)
          (some password)
          true
          dial
          alloc
          id_time
          now
          hw_time
          c
          sessions in
      (r.connection ≡ (auth_connect dial c).1)
      × ((r.status ≡ success) ↔ ((auth_connect dial c).0 ≡ success))
      × ((r.status ≡ success) ↔ ((a : AuthResult) × (r.reported ≡ some a) × (a.code ≡ success)))
      × ((r.reported ≡ none)
          ⊎ ((a : AuthResult) × (r.reported ≡ some a) × ((a.session ≡ none) ↔ (alloc ≡ none))))
      × ((r.sessions ≡ sessions) ⊎ (alloc ≢ none))
unfolding auth_login
auth_login_outcome rand username password dial alloc id_time now hw_time c sessions =
    login_after_cases rand (auth_connect dial c).0 username alloc id_time now hw_time
      (auth_connect dial c).1 sessions
