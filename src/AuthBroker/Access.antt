-- ===== src/AuthBroker/Access.antt =====
-- The refresh of credentials in internal/authbroker/broker.go.
use codex_account_pool.Prelude.{
  ℕ, ◌+◌, ◌*◌, String, Bool, false, not, ◌&&◌, ◌||◌, Option, none, some, Result, ok, err, leb,
  if◌then◌else◌, ◌==◌, is_blank, second_part,
}
use codex_account_pool.AuthBroker.State.{
  Fault, Credentials, AuthFile, RefreshResponse, Reply, Payload, World, second, refresh_window,
  reauth_required, temporarily_unavailable, coded, no_reply, refused, answered,
}
use codex_account_pool.AuthBroker.Files.{
  load_profile, credentials_from, require_registered, definitive_refresh_rejection, persist_refresh,
}

module _ (decode : String → Option Payload) where
  unfoldable pub jwt_payload : String → Option Payload
  jwt_payload token = elim (second_part token) [ none ↦ none | some part ↦ decode part ]

  unfoldable pub jwt_exp : String → Option ℕ
  jwt_exp token = elim (jwt_payload token) [ none ↦ none | some p ↦ p.exp ]

  unfoldable pub jwt_account : String → String
  jwt_account token = elim (jwt_payload token) [
    | none ↦ ""
    | some p ↦ if p.account == "" then p.auth_account else p.account
  ]

  unfoldable pub token_needs_refresh : String → ℕ → Bool
  token_needs_refresh token now = elim (jwt_exp token) [
    | none ↦ false
    | some exp ↦ leb (exp * second) (now + refresh_window)
  ]

  -- Whether a token names another account.
  unfoldable pub names_other : String → String → Bool
  names_other account token = not (jwt_account token == "") && not (jwt_account token == account)

  unfoldable pub accept_refresh : World → String → AuthFile → RefreshResponse → Option Fault × World
  accept_refresh w id doc r =
      if is_blank r.access_token
      then (some (coded temporarily_unavailable), w)
      else if names_other doc.tokens.account_id r.id_token
          || names_other doc.tokens.account_id r.access_token
      then (some (coded reauth_required), w)
      else persist_refresh w id r

  unfoldable pub read_reply : World → String → AuthFile → Reply → Option Fault × World
  read_reply w id doc no_reply = (some (coded temporarily_unavailable), w)
  read_reply w id doc (refused status body) =
      if definitive_refresh_rejection status body
      then (some (coded reauth_required), w)
      else (some (coded temporarily_unavailable), w)
  read_reply w id doc (answered none) = (some (coded temporarily_unavailable), w)
  read_reply w id doc (answered (some r)) = accept_refresh w id doc r

  unfoldable pub refresh : World → String → AuthFile → Option Fault × World
  refresh w id doc =
      if is_blank doc.tokens.refresh_token
      then (some (coded reauth_required), w)
      else read_reply (record w { asked = w.asked + 1 }) id doc (w.replies w.asked)

  -- Read the file once more and take its credentials, unless the refresh failed.
  unfoldable pub reload : String → Option Fault × World → Result Fault Credentials × World
  reload id (some f, w) = (err f, w)
  reload id (none, w) = elim (load_profile w id) [
    | err f ↦ (err f, w)
    | ok doc ↦ (credentials_from id doc, w)
  ]

  -- Under the profile's write lock.
  unfoldable pub refresh_locked : World → String → ℕ → Result Fault Credentials × World
  refresh_locked w id now = elim (load_profile w id) [
    | err f ↦ (err f, w)
    | ok doc ↦
        if token_needs_refresh doc.tokens.access_token now
        then reload id (refresh w id doc)
        else (credentials_from id doc, w)
  ]

  -- `waited` is what the lock brings: nothing if the wait fails, or else the change that other
  -- writers make to the world until the lock is ours.
  unfoldable pub with_lock :
      Option (World → World)
      → (World → Result Fault Credentials × World)
      → World
      → Result Fault Credentials × World
  with_lock none body w = (err (coded temporarily_unavailable), w)
  with_lock (some others) body w = body (others w)

  unfoldable pub credentials_for_profile :
      Option (World → World) → String → ℕ → World → Result Fault Credentials × World
  credentials_for_profile waited id now w = elim (require_registered w id) [
    | some f ↦ (err f, w)
    | none ↦ elim (load_profile w id) [
      | err f ↦ (err f, w)
      | ok doc ↦
          if token_needs_refresh doc.tokens.access_token now
          then with_lock waited (λ v. refresh_locked v id now) w
          else (credentials_from id doc, w)
    ]
  ]

  unfoldable pub force_locked : World → String → Result Fault Credentials × World
  force_locked w id = elim (load_profile w id) [
    | err f ↦ (err f, w)
    | ok doc ↦ reload id (refresh w id doc)
  ]

  unfoldable pub force_refresh :
      Option (World → World) → String → World → Result Fault Credentials × World
  force_refresh waited id w = elim (require_registered w id) [
    | some f ↦ (err f, w)
    | none ↦ with_lock waited (λ v. force_locked v id) w
  ]
