-- ===== src/Sessions/Identity.antt =====
-- How sessions are found: creation, the identifiers that src/core/auth_gateway/session_manager.c
-- generates, and removal.
use ps.Base.{ℕ, ◌≡◌, refl, Option, some, List, ◌∷◌, take, CString, str_eq_refl, add64}
use ps.Sessions.{Session, active, generate_session_id, new_session, session_create, session_find}

module _ (rand : ℕ → ℕ → ℕ) where
  -- With an address from malloc and a user, session_create puts an active session in front of the
  -- list, with all rights and the end of its life the timeout after the second time value in 64-bit
  -- arithmetic, and a search for the identifier that it generated gives this session.
  pub session_find-create :
      (p : ℕ) (user_id : CString) (username : Option CString) (timeout id_time now hw_time : ℕ)
      (sessions : List Session)
      → let r =
          session_create rand
            (some p)
            (some user_id)
            username
            timeout
            id_time
            now
            hw_time
            sessions in
        (s : Session) × (r.0 ≡ some s)
        × (r.1 ≡ s ∷ sessions)
        × (session_find (some (generate_session_id rand id_time)) r.1 ≡ some s)
        × (s.node ≡ p)
        × (s.state ≡ active)
        × (s.user_id ≡ take 63 user_id)
        × (s.created_at ≡ now)
        × (s.expires_at ≡ add64 now timeout)
        × (s.rights ≡ 0xFFFFFFFF)
  unfolding session_create session_find
  session_find-create p user_id username timeout id_time now hw_time sessions = (
    new_session rand p user_id username timeout id_time now hw_time,
    refl,
    refl,
    rw (str_eq_refl (generate_session_id rand id_time)) refl,
    refl,
    refl,
    refl,
    refl,
    refl,
    refl,
  )

  -- Two sessions created in the same second, at whatever addresses and for whichever users, have one
  -- identifier, and every search for it gives the later session: the earlier one can no longer be
  -- found by its identifier.
  pub session_create_same_second :
      (p q : ℕ) (user_id user_id' : CString) (username username' : Option CString)
      (timeout timeout' now hw_time hw_time' : ℕ) (sessions : List Session)
      → let first =
          session_create rand (some p) (some user_id) username timeout now now hw_time sessions in
        let second =
          session_create rand
            (some q)
            (some user_id')
            username'
            timeout'
            now
            now
            hw_time'
            first.1 in
        (s s' : Session) × (first.0 ≡ some s)
        × (second.0 ≡ some s')
        × (s.session_id ≡ s'.session_id)
        × (session_find (some s.session_id) second.1 ≡ some s')
        × (s'.node ≡ q)
  unfolding session_create session_find new_session
  session_create_same_second p q user_id user_id' username username' timeout timeout' now hw_time
        hw_time' sessions =
      (
        new_session rand p user_id username timeout now now hw_time,
        new_session rand q user_id' username' timeout' now now hw_time',
        refl,
        refl,
        refl,
        rw (str_eq_refl (generate_session_id rand now)) refl,
        refl,
      )
