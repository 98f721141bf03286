-- ===== src/AdminAuth/Tests.antt =====
-- Runs of internal/adminauth and of internal/clientauth on small keys.
use codex_account_pool.Prelude.{
  ℕ, ◌+◌, ◌*◌, String, true, false, ◌≡◌, refl, ◌≢◌, ◌≤◌, ◌↔◌, none, some, List, [], ◌∷◌, codes,
  lookup, insert, erase, retain, same_codes, trim_space, reversed, drop_spaces, front_space,
  end_space, lower_bytes, lower_from,
}
use codex_account_pool.AccountPool.{minute}
use codex_account_pool.AdminAuth.{
  Session, matches_key, matches_bearer, is_expired, authenticate, login, logout, prune_locked,
  new_sessions, same_origin, of_host, valid_csrf,
}
use codex_account_pool.AdminAuth.History.{
  Operation, logged_in, logged_out, step, after, IsOpen, authenticate-IsOpen,
}

abbrev key : List ℕ
key = codes "gcr_admin_k"

abbrev session : String → ℕ → Session
session id issued = record { id = id; csrf_token = codes "c"; expires_at = issued + 60 * minute }

-- Two logins, one with a wrong key, and the logout of the first.
abbrev history : List Operation
history =
    logged_out "s_1"
    ∷ logged_in (codes " gcr_admin_k\n") "s_2" (codes "c") 6 7
    ∷ logged_in (codes "gcr_admin_x") "s_3" (codes "c") 5 5
    ∷ logged_in key "s_1" (codes "c") 4 4
    ∷ []

matches_bearer_folded : matches_bearer (codes "BEARER  gcr_1 ") (codes "gcr_1") ≡ true
unfolding matches_bearer matches_key lower_bytes lower_from same_codes trim_space reversed
    drop_spaces front_space end_space
matches_bearer_folded = refl

matches_bearer_bare : matches_bearer (codes "Bearer ") [] ≡ false
unfolding matches_bearer matches_key lower_bytes lower_from same_codes trim_space reversed
    drop_spaces front_space end_space
matches_bearer_bare = refl

second_asked : (authenticate (after key history) "s_2" 8).0 ≡ some (session "s_2" 6)
unfolding authenticate after step login logout prune_locked new_sessions is_expired lookup insert
    erase retain matches_key same_codes trim_space reversed drop_spaces front_space end_space
second_asked = refl

first_asked : (authenticate (after key history) "s_1" 8).0 ≡ none
unfolding authenticate after step login logout prune_locked new_sessions is_expired lookup insert
    erase retain matches_key same_codes trim_space reversed drop_spaces front_space end_space
first_asked = refl

third_asked : (authenticate (after key history) "s_3" 8).0 ≡ none
unfolding authenticate after step login logout prune_locked new_sessions is_expired lookup insert
    erase retain matches_key same_codes trim_space reversed drop_spaces front_space end_space
third_asked = refl

other_origin :
    same_origin
      (λ o. some (record { scheme = codes "https"; host = o }))
      (codes "EVIL")
      (codes "host")
    ≡ false
unfolding same_origin of_host lower_bytes lower_from same_codes trim_space reversed drop_spaces
    front_space end_space
other_origin = refl

-- A token of the request that is not the session's.
other_token :
    valid_csrf
      (λ o. some (record { scheme = codes "https"; host = o }))
      (codes "d")
      (codes "host")
      (codes "HOST")
      (session "s_2" 6)
    ≡ false
unfolding valid_csrf matches_key same_origin of_host lower_bytes lower_from same_codes trim_space
    reversed drop_spaces front_space end_space
other_token = refl

own_token :
    valid_csrf
      (λ o. some (record { scheme = codes "https"; host = o }))
      (codes "c")
      (codes "host")
      (codes "HOST")
      (session "s_2" 6)
    ≡ true
unfolding valid_csrf matches_key same_origin of_host lower_bytes lower_from same_codes trim_space
    reversed drop_spaces front_space end_space
own_token = refl

abbrev cookie : String
cookie = "s_2"

authenticate-IsOpen_example :
    ((authenticate (after key history) cookie 8).0 ≡ some (session cookie 6)) ↔ (
      (cookie ≢ "")
      × (8 + 1 ≤ (session cookie 6).expires_at)
      × IsOpen key cookie (session cookie 6) history)
authenticate-IsOpen_example = authenticate-IsOpen key cookie (session cookie 6) history 8
