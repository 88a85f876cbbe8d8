-- ===== src/Auth/Validation.antt =====
-- Validation, refreshing and logging out of sessions in src/core/auth_gateway/auth_client.c.
use ps.Base.{
  ℕ, ◌≤◌, ◌≡◌, refl, ap, ◌↔◌, ◌⊎◌, inl, inr, true, Option, none, some, List, arith, success,
  not_found, authentication_failed, CString, add64,
}
use ps.Chain.{find_first}
use ps.Chain.Search.{update_first_self}
use ps.Sessions.{Session, session_find, session_is_valid, is_node, is_open}
use ps.Auth.{validate_found, auth_validate_session, auth_refresh_session}

-- The cases of a search's result `o`.
validate_found_cases :
    (now : ℕ) (o : Option Session) (sessions : List Session)
    → let status = (validate_found now o sessions).0 in
      ((status ≡ success)
        ↔ ((s : Session) × (o ≡ some s) × (is_open s.state ≡ true) × (now ≤ s.expires_at)))
      × ((status ≡ not_found) ↔ (o ≡ none))
      × ((status ≡ success) ⊎ (status ≡ not_found) ⊎ (status ≡ authentication_failed))
unfolding validate_found
validate_found_cases now none sessions =
    ((λ h. cc, λ (s, q, a, b). cc), (λ h. refl, λ h. refl), inr (inl refl))
validate_found_cases now (some s) sessions = (
  (λ h. (s, refl, ground arith, ground arith), λ (x, q, a, b). ground arith),
  (λ h. ground arith, λ h. cc),
  ground arith,
)

-- Validation succeeds exactly when the search by identifier gives a session that is neither banned,
-- invalidated nor expired and whose last second has not passed; it fails with `not_found` exactly
-- when the search gives none, and in the remaining case with `authentication_failed`.
pub auth_validate_session_outcome :
    (now : ℕ) (id : CString) (sessions : List Session)
    → let status = (auth_validate_session now (some id) sessions).0 in
      ((status ≡ success) ↔ (
        (s : Session) × (session_find (some id) sessions ≡ some s)
        × (is_open s.state ≡ true)
        × (now ≤ s.expires_at)))
      × ((status ≡ not_found) ↔ (session_find (some id) sessions ≡ none))
      × ((status ≡ success) ⊎ (status ≡ not_found) ⊎ (status ≡ authentication_failed))
unfolding auth_validate_session session_is_valid
auth_validate_session_outcome now id sessions =
    validate_found_cases now (session_find (some id) sessions) sessions

-- A session whose life is the configured timeout, as it is from its creation on if that timeout was
-- given then, is not extended by a refresh: the call succeeds at any later time and changes no
-- session of the list.
pub auth_refresh_session_idle :
    (timeout : ℕ) (id : CString) (sessions : List Session) (s : Session)
    → session_find (some id) sessions ≡ some s
    → find_first (is_node s.node) sessions ≡ some s
    → s.expires_at ≡ add64 s.created_at timeout
    → auth_refresh_session timeout (some id) sessions ≡ (success, sessions)
unfolding auth_refresh_session
auth_refresh_session_idle timeout id sessions s h k e =
    rw (h, auth_refresh_session)
      (ap (λ xs. (success, xs))
        (update_first_self (is_node s.node)
          (λ x. record x { expires_at = add64 x.created_at timeout }) sessions {x = s} k
          (ground arith)))
