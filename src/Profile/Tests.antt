-- ===== src/Profile/Tests.antt =====
-- Runs of internal/profile/registry.go on small inputs.
use Prim.Native.String.{◌++◌ as ◌<>◌}
use codex_account_pool.Prelude.{
  ℕ, String, Bool, ◌&&◌, eqb, ◌==◌, Dict, if◌then◌else◌, refl, Option, ◌≡◌, ◌↔◌, none, some, List,
  [], ◌∷◌, find_first, true, false,
}
use codex_account_pool.Profile.{
  Profile, Registry, provider_codex, new_registry, registry_version, missing, contents, Json, Step,
  Directory, Error, has_provider, active_profile, save, save_data, replace_file, remove_temp,
}
use codex_account_pool.Profile.Changes.{Change, adds, removes, changes, active_profile-changes}

abbrev work : Profile
work = record { id = "work"; provider = provider_codex; isolation = "codex-home" }

abbrev home : Profile
home = record { id = "home"; provider = provider_codex; isolation = "codex-home" }

-- Two are added, and the active one is removed.
abbrev session : List Change
session = adds work ∷ adds home ∷ removes provider_codex "work" ∷ []

active_profile-changes_example :
    (active_profile (changes new_registry session) provider_codex ≡ none)
    ↔ (find_first (has_provider provider_codex) (changes new_registry session).profiles ≡ none)
active_profile-changes_example = active_profile-changes session provider_codex

abbrev solo : Registry
solo = record { version = registry_version; profiles = work ∷ []; active = [] }

-- A codec that knows one registry.
abbrev is_solo : ℕ → List Profile → Dict String → Bool
is_solo v (p ∷ []) [] =
    (p.id == "work")
    && ((p.provider == provider_codex) && ((p.isolation == "codex-home") && eqb v registry_version))
is_solo v _ _ = false

abbrev codec : Json
codec = record {
  marshal = λ r. if is_solo r.version r.profiles r.active then some "work" else none;
  unmarshal = λ s. if s == "work\n" then some solo else none;
}

abbrev always : Step → Bool
always s = true

abbrev saved : Option Error × Directory
saved = save codec always missing solo

saved_text : saved.1.registry ≡ contents "work\n"
unfolding save save_data replace_file remove_temp
saved_text = refl
