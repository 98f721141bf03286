-- ===== src/AuthBroker/Inspection.antt =====
-- InspectProfile, ValidateProfileAuth, ValidateActive and Credentials of
-- internal/authbroker/broker.go: what is told of a profile's auth file without a refresh.
use codex_account_pool.Prelude.{
  ℕ, String, Bool, true, false, not, ◌&&◌, ◌||◌, ◌≡◌, refl, ap, Option, none, some, List, [], arith,
  Result, ok, err, if◌then◌else◌, is_blank, trim_codes, codes, leb, ◌*◌,
}
use codex_account_pool.Profile
use codex_account_pool.Profile.{Registry, Profile}
use codex_account_pool.AuthBroker.{
  World, Fault, coded, load_failed, no_active, not_logged_in, reauth_required, code, AuthFile,
  Credentials, Payload, load_profile, credentials_from, require_registered, names_other, jwt_exp,
  credentials_for_profile, second,
}

pub record ProfileAuthInfo : Type 0 where
  pub profile_id : String
  pub account_id : List ℕ
  pub has_auth : Bool
  pub has_access_token : Bool
  pub has_refresh_token : Bool
  pub has_account_id : Bool
  pub access_expires_at : Option ℕ
  pub access_expired : Bool

unfoldable pub no_auth_info : String → ProfileAuthInfo
no_auth_info id = record {
  profile_id = id;
  account_id = [];
  has_auth = false;
  has_access_token = false;
  has_refresh_token = false;
  has_account_id = false;
  access_expires_at = none;
  access_expired = false;
}

unfoldable pub load_active_from : World → Option Profile → Result Fault (String × AuthFile)
load_active_from w none = err no_active
load_active_from w (some p) = elim (load_profile w p.id) [ err f ↦ err f | ok doc ↦ ok (p.id, doc) ]

unfoldable pub load_active : World → Result Fault (String × AuthFile)
load_active w = elim w.registry [
  | none ↦ err load_failed
  | some r ↦ load_active_from w (Profile.active_profile r Profile.provider_codex)
]

unfoldable pub validate_active : World → Result Fault String
validate_active w = elim (load_active w) [
  | err f ↦ err f
  | ok (id, doc) ↦ elim (credentials_from id doc) [ err f ↦ err f | ok c ↦ ok id ]
]

module _ (decode : String → Option Payload) where
  unfoldable pub credentials : Option (World → World) → ℕ → World → Result Fault Credentials × World
  credentials waited now w = elim (load_active w) [
    | err f ↦ (err f, w)
    | ok (id, doc) ↦ credentials_for_profile decode waited id now w
  ]

  unfoldable pub is_expired_at : Option ℕ → ℕ → Bool
  is_expired_at none now = false
  is_expired_at (some exp) now = leb (exp * second) now

  unfoldable pub info_of : String → AuthFile → ℕ → ProfileAuthInfo
  info_of id doc now = record {
    profile_id = id;
    account_id = trim_codes (codes doc.tokens.account_id);
    has_auth = true;
    has_access_token = not (is_blank doc.tokens.access_token);
    has_refresh_token = not (is_blank doc.tokens.refresh_token);
    has_account_id = not (is_blank doc.tokens.account_id);
    access_expires_at = jwt_exp decode doc.tokens.access_token;
    access_expired = is_expired_at (jwt_exp decode doc.tokens.access_token) now;
  }

  -- Some token of the file names another account than the file.
  unfoldable pub is_mismatched : AuthFile → Bool
  is_mismatched doc =
      names_other decode doc.tokens.account_id doc.tokens.id_token
      || names_other decode doc.tokens.account_id doc.tokens.access_token

  unfoldable pub inspect_loaded :
      String → ℕ → Result Fault AuthFile → ProfileAuthInfo × Option Fault
  inspect_loaded id now (err f) = (no_auth_info id, some f)
  inspect_loaded id now (ok doc) =
      let info = info_of id doc now in
      if info.has_account_id && is_mismatched doc
      then (info, some (coded reauth_required))
      else (info, none)

  unfoldable pub inspect_auth_file : World → String → ℕ → ProfileAuthInfo × Option Fault
  inspect_auth_file w id now = inspect_loaded id now (load_profile w id)

  unfoldable pub is_not_logged_in : Option Fault → Bool
  is_not_logged_in none = false
  is_not_logged_in (some f) = elim (code f) [ not_logged_in ↦ true | _ ↦ false ]

  unfoldable pub inspect_profile : World → String → ℕ → ProfileAuthInfo × Option Fault
  inspect_profile w id now = elim (require_registered w id) [
    | some f ↦ (no_auth_info id, some f)
    | none ↦
        let inspected = inspect_auth_file w id now in
        if is_not_logged_in inspected.1 then (no_auth_info id, none) else inspected
  ]

  unfoldable pub check_info : ProfileAuthInfo × Option Fault → ProfileAuthInfo × Option Fault
  check_info (info, some f) = (info, some f)
  check_info (info, none) =
      if not info.has_access_token || not info.has_account_id
      then (info, some (coded not_logged_in))
      else if not info.has_refresh_token
      then (info, some (coded reauth_required))
      else (info, none)

  unfoldable pub unless_invalid :
      Option Profile.Error
      → ProfileAuthInfo × Option Fault
      → Result Profile.Error (ProfileAuthInfo × Option Fault)
  unless_invalid (some e) x = err e
  unless_invalid none x = ok x

  -- The profile need not be registered; the fault for an invalid id is the registry's error.
  unfoldable pub validate_profile_auth :
      World → String → ℕ → Result Profile.Error (ProfileAuthInfo × Option Fault)
  validate_profile_auth w id now =
      unless_invalid
        (Profile.validate_profile
          (record { id = id; provider = Profile.provider_codex; isolation = "codex-home" }))
        (check_info (inspect_auth_file w id now))

  -- What a file holds that passes: credentials, a refresh token, and no token of another account.
  pub record IsValidated (w : World) (id : String) : Type 0 where
    pub file : AuthFile
    pub loaded : load_profile w id ≡ ok file
    pub usable : (c : Credentials) × (credentials_from id file ≡ ok c)
    pub refreshable : is_blank file.tokens.refresh_token ≡ false
    pub consistent : is_mismatched file ≡ false

  check_info-none :
      (i : ProfileAuthInfo) (b : Bool)
      → (check_info (if b then (i, some (coded reauth_required)) else (i, none))).1 ≡ none
      → (b ≡ false)
        × (i.has_access_token ≡ true)
        × (i.has_account_id ≡ true)
        × (i.has_refresh_token ≡ true)
  unfolding check_info
  check_info-none i true e = cc
  check_info-none i false e = (refl, ground arith, ground arith, ground arith)

  check_inspected :
      (w : World) (id : String) (now : ℕ) (r : Result Fault AuthFile)
      → load_profile w id ≡ r
      → (check_info (inspect_loaded id now r)).1 ≡ none
      → IsValidated w id
  unfolding inspect_loaded info_of credentials_from
  check_inspected w id now (err f) l e = unfold check_info in cc
  check_inspected w id now (ok doc) l e =
      let i = info_of id doc now in
      let (same, access, account, renew) =
        check_info-none i (i.has_account_id && is_mismatched doc) e in
      record {
        file = doc;
        loaded = l;
        usable = (
          record {
            profile_id = id;
            access_token = doc.tokens.access_token;
            account_id = doc.tokens.account_id;
          },
          ground arith,
        );
        refreshable = ground arith;
        consistent = ground arith;
      }

  unless_invalid-ok :
      (o : Option Profile.Error) (x : ProfileAuthInfo × Option Fault) (info : ProfileAuthInfo)
      → unless_invalid o x ≡ ok (info, none)
      → x ≡ (info, none)
  unfolding unless_invalid
  unless_invalid-ok none x info e = ground arith
  unless_invalid-ok (some f) x info e = cc

  -- An auth file that passes before its profile is registered can be used at once: it gives
  -- credentials, it can be refreshed, and no token in it names another account than the file does.
  pub validate_profile_auth-IsValidated :
      (w : World) (id : String) (now : ℕ) (info : ProfileAuthInfo)
      → validate_profile_auth w id now ≡ ok (info, none)
      → IsValidated w id
  unfolding validate_profile_auth inspect_auth_file
  validate_profile_auth-IsValidated w id now info e =
      let r = load_profile w id in
      check_inspected w id now r refl
        (ap (λ x. x.1) (unless_invalid-ok _ (check_info (inspect_loaded id now r)) info e))
