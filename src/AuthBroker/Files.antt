-- ===== src/AuthBroker/Files.antt =====
-- The auth files of internal/authbroker/broker.go, and what a refresh is answered.
use codex_account_pool.Prelude.{
  ℕ, String, Bool, true, false, not, ◌||◌, Option, none, some, Result, ok, err, eqb, if◌then◌else◌,
  ◌==◌, is_blank, same_folded,
}
use codex_account_pool.Profile
use codex_account_pool.Profile.{Registry, Profile}
use codex_account_pool.AuthBroker.State.{
  Fault, Credentials, AuthTokens, AuthFile, Stored, RefreshResponse, Rejection, World,
  not_logged_in, reauth_required, coded, load_failed, not_found, unreadable, no_tokens,
  write_failed, missing, unreadable_file, malformed, decoded, unclear, text, object,
}

unfoldable pub load_profile : World → String → Result Fault AuthFile
load_profile w id = elim (w.files id) [
  | missing ↦ err (coded not_logged_in)
  | unreadable_file ↦ err unreadable
  | malformed ↦ err (coded reauth_required)
  | decoded doc ↦ if same_folded doc.auth_mode "chatgpt" then ok doc else err (coded not_logged_in)
]

unfoldable pub credentials_from : String → AuthFile → Result Fault Credentials
credentials_from id doc =
    if is_blank doc.tokens.access_token
    then err (coded not_logged_in)
    else if is_blank doc.tokens.account_id
    then err (coded not_logged_in)
    else ok (record {
      profile_id = id;
      access_token = doc.tokens.access_token;
      account_id = doc.tokens.account_id;
    })

unfoldable pub require_registered : World → String → Option Fault
require_registered w id = elim w.registry [
  | none ↦ some load_failed
  | some r ↦ elim (Profile.find r Profile.provider_codex id) [
    | none ↦ some not_found
    | some p ↦ none
  ]
]

unfoldable pub rejected_code : Rejection → String
rejected_code unclear = ""
rejected_code (text c) = c
rejected_code (object c type) = if c == "" then type else c

unfoldable pub is_definitive : String → Bool
is_definitive c =
    same_folded c "invalid_grant"
    || (same_folded c "invalid_refresh_token"
        || (same_folded c "refresh_token_expired" || same_folded c "refresh_token_reused"))

unfoldable pub definitive_refresh_rejection : ℕ → Rejection → Bool
definitive_refresh_rejection status body =
    if eqb status 401 || eqb status 403
    then true
    else if eqb status 400
    then is_definitive (rejected_code body)
    else false

-- The tokens of a file after a refresh; the authority may leave the refresh and id tokens as they are.
unfoldable pub merge_tokens : AuthTokens → RefreshResponse → AuthTokens
merge_tokens t r = record t {
  access_token = r.access_token;
  refresh_token = if r.refresh_token == "" then t.refresh_token else r.refresh_token;
  id_token = if r.id_token == "" then t.id_token else r.id_token;
}

unfoldable pub set_file : World → String → Stored → World
set_file w id file = record w { files = λ j. if id == j then file else w.files j }

-- The file is read again, and replaced whole or not at all. Its tokens must be an object.
unfoldable pub persist_refresh : World → String → RefreshResponse → Option Fault × World
persist_refresh w id r = elim (load_profile w id) [
  | err f ↦ (some f, w)
  | ok doc ↦
      if not doc.has_tokens
      then (some no_tokens, w)
      else if w.writable id
      then (none, set_file w id (decoded (record doc { tokens = merge_tokens doc.tokens r })))
      else (some write_failed, w)
]
