-- ===== src/Server/Accounts.antt =====
-- src/server/auth_server.c. The array g_users only grows, so the list of the slots in use stands for it
-- and its count. A buffer of 64 characters is the list of its bytes, and strcmp reads it up to its
-- first zero byte. Times are the values of time(NULL), `junk` the bytes 32 to 63 of the buffer on the
-- stack that login puts the digest in.
pub mod Login
pub mod Invariant
use ps.Base.{
  ℕ, zero, suc, Bool, true, false, ◌&&◌, Option, none, some, List, [], ◌∷◌, ◌++◌, ltb, leb,
  if◌then◌else◌, length, replicate, CString, strncpy, str_eq, add64,
}
use ps.Chain.{find_first, update_first}
use ps.Hash.{hash_sha256, overlay}

pub record AuthUser : Type 0 where
  pub username : CString
  pub password_hash : List ℕ
  pub session_token : List ℕ
  pub expiry_time : ℕ

-- The characters that strcmp reads in a buffer.
unfoldable pub c_string : List ℕ → CString
c_string [] = []
c_string (zero ∷ bytes) = []
c_string (suc x ∷ bytes) = suc x ∷ c_string bytes

-- A new slot is all zeros before it is filled.
unfoldable pub register_user :
    Option CString → Option CString → List AuthUser → Bool × List AuthUser
unfolding hash_sha256
register_user none password users = (false, users)
register_user (some username) none users = (false, users)
register_user (some username) (some password) users =
    if leb 1024 (length users) then (false, users) else (
      true,
      users
          ++ record {
            username = strncpy 63 username;
            password_hash = overlay (hash_sha256 password) (replicate 64 0);
            session_token = replicate 64 0;
            expiry_time = 0;
          }
            ∷ [],
    )

abbrev pub credentials : CString → CString → List ℕ → AuthUser → Bool
credentials username password junk u =
    str_eq u.username username
    && str_eq (c_string u.password_hash) (c_string (hash_sha256 password ++ junk))

-- The user's slot after a login: the token is the digest of the name.
abbrev pub logged_in : CString → ℕ → AuthUser → AuthUser
logged_in username now u = record u {
  session_token = overlay (hash_sha256 username) u.session_token;
  expiry_time = add64 now 3600;
}

-- The answer, the characters that are written to the caller's token buffer (which is given), and the
-- users.
found_user :
    Option AuthUser
    → CString
    → CString
    → List ℕ
    → ℕ
    → List AuthUser
    → Bool × Option (List ℕ) × List AuthUser
unfolding update_first c_string hash_sha256
found_user none username password junk now users = (false, none, users)
found_user (some u) username password junk now users = (
  true,
  some (strncpy 64 (c_string (logged_in username now u).session_token)),
  update_first (credentials username password junk) (logged_in username now) users,
)

unfoldable pub server_login :
    CString → CString → List ℕ → ℕ → List AuthUser → Bool × Option (List ℕ) × List AuthUser
unfolding found_user find_first c_string hash_sha256
server_login username password junk now users =
    found_user (find_first (credentials username password junk) users) username password junk now
      users

abbrev pub holds_token : CString → ℕ → AuthUser → Bool
holds_token token now u = str_eq (c_string u.session_token) token && ltb now u.expiry_time

unfoldable pub validate_token : CString → ℕ → List AuthUser → Bool
unfolding c_string
validate_token token now [] = false
validate_token token now (u ∷ users) =
    let rest = validate_token token now users in if holds_token token now u then true else rest
