-- ===== src/Server/Accounts/Invariant.antt =====
-- What stays true of the buffers of the users in src/server/auth_server.c.
use ps.Base.{
  ℕ, zero, suc, ◌≤◌, ◌≡◌, refl, inl, inr, Bool, Option, none, some, List, [], ◌∷◌, ◌++◌, arith, leb,
  Bool-cases, length, drop, replicate, length-append, CString, strncpy,
}
use ps.Chain.{find_first, update_first}
use ps.Hash.{hash_sha256, overlay}
use ps.Hash.Compare.{length-hash_sha256}
use ps.Server.Accounts.{
  AuthUser, c_string, credentials, logged_in, found_user, server_login, register_user,
}
use ps.Server.Accounts.Login.{AllStored, AllSized, length-drop}

-- Both invariants of the users.
abbrev pub AreKept : List AuthUser → Type 0
AreKept users = AllSized users × AllStored users

cut_at_zero : (l k : List ℕ) → length (c_string (l ++ 0 ∷ k)) ≤ length l
unfolding c_string
cut_at_zero [] k = omega arith
cut_at_zero (zero ∷ l) k = omega arith
cut_at_zero (suc x ∷ l) k = omega (arith, cut_at_zero l k)

-- A digest in a buffer of zeros.
stored_digest :
    (d : List ℕ)
    → length (c_string (hash_sha256 d ++ drop (length (hash_sha256 d)) (replicate 64 0))) ≤ 32
stored_digest d =
    rw (length-hash_sha256 d)
      (omega (arith, cut_at_zero (hash_sha256 d) (replicate 31 0), length-hash_sha256 d))

snoc-AreKept :
    (u : AuthUser) (users : List AuthUser)
    → length u.session_token ≡ 64
    → length (c_string u.password_hash) ≤ 32
    → AreKept users
    → AreKept (users ++ u ∷ [])
snoc-AreKept u [] s p k = ((s, tt), (p, tt))
snoc-AreKept u (x ∷ users) s p k =
    let rest = snoc-AreKept u users s p (k.0.1, k.1.1) in ((k.0.0, rest.0), (k.1.0, rest.1))

update-AreKept :
    (test : AuthUser → Bool) (username : CString) (now : ℕ) (users : List AuthUser)
    → AreKept users
    → AreKept (update_first test (logged_in username now) users)
unfolding update_first
update-AreKept test username now [] k = k
update-AreKept test username now (x ∷ users) k = elim (Bool-cases (test x)) [
  | inl e ↦ rw e ((size, k.0.1), k.1)
  | inr e ↦
      let rest = update-AreKept test username now users (k.0.1, k.1.1) in
      rw e ((k.0.0, rest.0), (k.1.0, rest.1))
]
  where
    size : length (logged_in username now x).session_token ≡ 64
    size = omega (
      arith,
      k.0.0,
      length-hash_sha256 username,
      length-append (hash_sha256 username) (drop (length (hash_sha256 username)) x.session_token),
      length-drop (length (hash_sha256 username)) x.session_token,
    )

login-AreKept :
    (o : Option AuthUser) (username password : CString) (junk : List ℕ) (now : ℕ)
    (users : List AuthUser)
    → AreKept users
    → AreKept (found_user o username password junk now users).2
unfolding found_user
login-AreKept none username password junk now users k = k
login-AreKept (some u) username password junk now users k =
    update-AreKept (credentials username password junk) username now users k

-- Registering a user and logging in keep the buffers in shape: every token buffer has its 64 bytes, and
-- no stored digest is read beyond its 32 bytes. So this holds of every table that the server reaches
-- from the empty one.
pub register_login-AreKept :
    (name secret username password : CString) (junk : List ℕ) (now : ℕ) (users : List AuthUser)
    → AreKept users
    → AreKept (register_user (some name) (some secret) users).1
      × AreKept (server_login username password junk now users).2
      × AreKept []
unfolding register_user server_login
register_login-AreKept name secret username password junk now users k = (
  elim (Bool-cases (leb 1024 (length users))) [
    | inl e ↦ rw e k
    | inr e ↦ rw e (snoc-AreKept new users refl (stored_digest secret) k)
  ],
  login-AreKept (find_first (credentials username password junk) users) username password junk now
      users k,
  (tt, tt),
)
  where
    new : AuthUser
    new = record {
      username = strncpy 63 name;
      password_hash = overlay (hash_sha256 secret) (replicate 64 0);
      session_token = replicate 64 0;
      expiry_time = 0;
    }
