-- ===== src/Server/Accounts/Login.antt =====
-- Logging in to src/server/auth_server.c and the tokens that it gives.
use ps.Base.{ltb}
use ps.Base.{◌&&◌}
use ps.Base.{
  ℕ, zero, suc, ◌-◌, ◌≤◌, ◌<◌, ◌≡◌, refl, sym, ap, ◌∙◌, inl, inr, Bool, true, false, Option, none,
  some, List, [], ◌∷◌, ◌++◌, arith, lt→ltb, Bool-cases, length, drop, length-append, take-eq_self,
  CString, str_eq, str_eq_refl, str_eq_iff, add64, strncpy,
}
use ps.Chain.{find_first, update_first}
use ps.Hash.{hash_sha256}
use ps.Hash.Compare.{length-hash_sha256}
use ps.Server.Accounts.{
  AuthUser, c_string, credentials, logged_in, found_user, server_login, holds_token, validate_token,
}

-- No byte ends the string.
abbrev pub NoZero : List ℕ → Type 0
NoZero [] = Unit
NoZero (x ∷ l) = (0 < x) × NoZero l

c_string-full : (l k : List ℕ) → NoZero l → c_string (l ++ k) ≡ l ++ c_string k
unfolding c_string
c_string-full [] k h = refl
c_string-full (zero ∷ l) k h = absurd (omega (arith, h.0))
c_string-full (suc x ∷ l) k h = ap (◌∷◌ (suc x)) (c_string-full l k h.1)

-- The digest of 32 bytes as it is stored: bytes that follow it are zero.
abbrev pub AllStored : List AuthUser → Type 0
AllStored [] = Unit
AllStored (u ∷ users) = (length (c_string u.password_hash) ≤ 32) × AllStored users

runs_on :
    (d : List ℕ) (j : ℕ) (junk : List ℕ)
    → NoZero d
    → 0 < j
    → length d < length (c_string (d ++ j ∷ junk))
runs_on d zero junk h k = absurd (omega arith)
runs_on d (suc j) junk h k =
    unfold c_string in
    omega (
      arith,
      ap length (c_string-full d (suc j ∷ junk) h),
      length-append d (c_string (suc j ∷ junk)),
    )

rejected :
    (username password : CString) (j : ℕ) (junk : List ℕ) (users : List AuthUser)
    → NoZero (hash_sha256 password)
    → 0 < j
    → AllStored users
    → find_first (credentials username password (j ∷ junk)) users ≡ none
unfolding find_first
rejected username password j junk [] h k a = refl
rejected username password j junk (u ∷ users) h k a =
    let stored = c_string u.password_hash in
    let typed = c_string (hash_sha256 password ++ j ∷ junk) in
    let longer : 32 < length typed =
      omega (arith, runs_on (hash_sha256 password) j junk h k, length-hash_sha256 password) in
    elim (Bool-cases (credentials username password (j ∷ junk) u)) [
      | inl e ↦
          let same : str_eq stored typed ≡ true = ground (arith, e) in
          absurd (omega (arith, longer, a.0, ap length ((str_eq_iff stored typed).0 same)))
      | inr e ↦ rw e (rejected username password j junk users h k a.1)
    ]

-- A login is refused to every user, whatever the password, if the digest of the password has no zero
-- byte and the byte behind it on the stack is not zero: the comparison runs on into the uninitialised
-- rest of the buffer.
pub server_login_junk :
    (username password : CString) (j now : ℕ) (junk : List ℕ) (users : List AuthUser)
    → NoZero (hash_sha256 password)
    → 0 < j
    → AllStored users
    → server_login username password (j ∷ junk) now users ≡ (false, none, users)
unfolding server_login found_user
server_login_junk username password j now junk users h k a =
    rw (rejected username password j junk users h k a) refl

-- The token buffer of each user has its 64 bytes.
abbrev pub AllSized : List AuthUser → Type 0
AllSized [] = Unit
AllSized (u ∷ users) = (length u.session_token ≡ 64) × AllSized users

AllSized-find :
    (test : AuthUser → Bool) (users : List AuthUser) {u : AuthUser}
    → AllSized users
    → find_first test users ≡ some u
    → length u.session_token ≡ 64
unfolding find_first
AllSized-find test [] a h = cc
AllSized-find test (x ∷ users) {u} a h = elim (Bool-cases (test x)) [
  | inl e ↦ ground (arith, e, h, a.0)
  | inr e ↦ AllSized-find test users {u = u} a.1 (ground (arith, e, h))
]

validate-update :
    (test : AuthUser → Bool) (f : AuthUser → AuthUser) (token : CString) (later : ℕ)
    (users : List AuthUser) {u : AuthUser}
    → find_first test users ≡ some u
    → holds_token token later (f u) ≡ true
    → validate_token token later (update_first test f users) ≡ true
unfolding find_first update_first validate_token
validate-update test f token later [] h k = cc
validate-update test f token later (x ∷ users) {u} h k = elim (Bool-cases (test x)) [
  | inl e ↦
      let same : x ≡ u = ground (arith, e, h) in
      rw (e, ap (λ y. holds_token token later (f y)) same ∙ k) refl
  | inr e ↦
      rw e
        (ground (arith, validate-update test f token later users {u = u} (ground (arith, e, h)) k))
]

pub length-drop : (n : ℕ) (l : List ℕ) → length (drop n l) ≡ length l - n
length-drop zero l = omega arith
length-drop (suc n) [] = omega arith
length-drop (suc n) (x ∷ l) = omega (arith, length-drop n l)

length-c_string : (l : List ℕ) → length (c_string l) ≤ length l
unfolding c_string
length-c_string [] = omega arith
length-c_string (zero ∷ l) = omega arith
length-c_string (suc x ∷ l) = omega (arith, length-c_string l)

found-token :
    (o : Option AuthUser) (username password : CString) (junk : List ℕ) (now later : ℕ)
    (users : List AuthUser)
    → find_first (credentials username password junk) users ≡ o
    → AllSized users
    → later < add64 now 3600
    → (found_user o username password junk now users).0 ≡ true
    → let r = found_user o username password junk now users in
      (token : CString) × (r.1 ≡ some token) × (validate_token token later r.2 ≡ true)
unfolding found_user
found-token none username password junk now later users e a lt h = cc
found-token (some u) username password junk now later users e a lt h =
    let bytes = (logged_in username now u).session_token in
    let old = AllSized-find (credentials username password junk) users {u = u} a e in
    let size : length bytes ≤ 64 = omega (
      arith,
      old,
      length-hash_sha256 username,
      length-append (hash_sha256 username) (drop (length (hash_sha256 username)) u.session_token),
      length-drop (length (hash_sha256 username)) u.session_token,
    ) in
    let kept : length (c_string bytes) ≤ 64 = omega (arith, size, length-c_string bytes) in
    let same : c_string bytes ≡ strncpy 64 (c_string bytes) =
      sym (take-eq_self 64 (c_string bytes) kept) in
    (
      strncpy 64 (c_string bytes),
      refl,
      validate-update (credentials username password junk) (logged_in username now)
          (strncpy 64 (c_string bytes)) later users {u = u} e
          (ap (λ x. str_eq x (strncpy 64 (c_string bytes)) && ltb later (add64 now 3600)) same
            ∙ rw (str_eq_refl (strncpy 64 (c_string bytes))) (lt→ltb later (add64 now 3600) lt)),
    )

-- A login that succeeds writes a token to the caller's buffer, and that token validates: until an hour
-- after the login, in 64-bit arithmetic, the string in the buffer is accepted. (Token buffers of 64
-- bytes.)
pub server_login_token :
    (username password : CString) (junk : List ℕ) (now later : ℕ) (users : List AuthUser)
    → AllSized users
    → later < add64 now 3600
    → (server_login username password junk now users).0 ≡ true
    → let r = server_login username password junk now users in
      (token : CString) × (r.1 ≡ some token) × (validate_token token later r.2 ≡ true)
unfolding server_login found_user
server_login_token username password junk now later users a lt h =
    found-token (find_first (credentials username password junk) users) username password junk now
      later users refl a lt h
