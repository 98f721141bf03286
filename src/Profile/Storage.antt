-- ===== src/Profile/Storage.antt =====
-- Load and Save of internal/profile/registry.go.
use Prim.Native.String.{◌++◌ as ◌<>◌}
use codex_account_pool.Prelude.{
  String, Bool, true, false, ◌&&◌, ◌≡◌, ◌≢◌, ◌⊎◌, ◌↔◌, Option, none, some, All, ok,
}
use codex_account_pool.Profile.{
  Profile, Registry, Stored, Json, Step, Directory, Error, contents, make_directory, create_temp,
  chmod_temp, write_temp, close_temp, rename_temp, load, validate_profile, registry_version,
}

-- Every call of the file system succeeds.
abbrev pub all_work : (Step → Bool) → Bool
all_work works =
    works make_directory
    && (works create_temp
        && (works chmod_temp && (works write_temp && (works close_temp && works rename_temp))))

-- The current version of a registry.
abbrev pub current : Registry → Registry
current r = record r { version = registry_version }

-- The registry's whole text is in place of the old file.
pub record IsReplaced (json : Json) (works : Step → Bool) (r : Registry) (o : Option Error)
    (d : Directory) : Type 0 where
  pub saved : o ≡ none
  pub worked : all_work works ≡ true
  pub text : String
  pub encoded : json.marshal (current r) ≡ some text
  pub replaced : d.registry ≡ contents (text <> "\n")
  pub loads :
      (load json d.registry ≡ ok (current r)) ↔ All (λ p. validate_profile p ≡ none) r.profiles

-- The old file is still there.
pub record IsUntouched (json : Json) (works : Step → Bool) (old : Stored) (r : Registry)
    (o : Option Error) (d : Directory) : Type 0 where
  pub failed : o ≢ none
  pub reason : (all_work works ≡ false) ⊎ (json.marshal (current r) ≡ none)
  pub kept : d.registry ≡ old
