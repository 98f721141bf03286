-- ===== src/Profile.antt =====
-- internal/profile/registry.go: the registry of profiles and the operations on it. A nil map of
-- active profiles is read as the empty map, and every write makes the map first.
pub mod Lookup
pub mod Active
pub mod Changes
pub mod Storage
pub mod Tests
use text.Mathlib.Text.{is_lt}
use Prim.Native.String.{compare, ◌++◌ as ◌<>◌}
use codex_account_pool.Prelude.{
  ℕ, suc, ◌+◌, String, Bool, true, false, not, ◌&&◌, ◌||◌, Option, none, some, List, [], ◌∷◌,
  Result, ok, err, Dict, lookup, insert, erase, leb, eqb, if◌then◌else◌, ◌==◌, codes, find_first,
  length,
}

pub record Profile : Type 0 where
  pub id : String
  pub provider : String
  pub isolation : String

pub record Registry : Type 0 where
  pub version : ℕ
  pub profiles : List Profile
  pub active : Dict String

pub data Error : Type 0 where
  bad_id bad_isolation bad_provider already_exists not_found bad_version unreadable undecodable
        no_directory unencodable no_temp_file insecure unwritable unclosed unreplaced :
      Error

abbrev pub provider_codex : String
provider_codex = "codex"

abbrev pub provider_google_antigravity : String
provider_google_antigravity = "google-antigravity"

abbrev pub registry_version : ℕ
registry_version = 1

abbrev pub new_registry : Registry
new_registry = record { version = registry_version; profiles = []; active = [] }

-- The pattern ^[A-Za-z0-9][A-Za-z0-9._-]{0,63}$.
abbrev pub is_alnum : ℕ → Bool
is_alnum c =
    (leb b'A' c && leb c b'Z') || ((leb b'a' c && leb c b'z') || (leb b'0' c && leb c b'9'))

abbrev pub is_id_char : ℕ → Bool
is_id_char c = is_alnum c || (eqb c b'.' || (eqb c b'_' || eqb c b'-'))

unfoldable pub all_id_chars : List ℕ → Bool
all_id_chars [] = true
all_id_chars (c ∷ cs) = is_id_char c && all_id_chars cs

unfoldable pub matches_id : List ℕ → Bool
matches_id [] = false
matches_id (c ∷ cs) = is_alnum c && (all_id_chars cs && leb (length cs) 63)

unfoldable pub validate_profile : Profile → Option Error
validate_profile p =
    if not (matches_id (codes p.id))
    then some bad_id
    else if p.provider == provider_codex
    then if p.isolation == "codex-home" then none else some bad_isolation
    else if p.provider == provider_google_antigravity
    then if p.isolation == "oauth-state" then none else some bad_isolation
    else some bad_provider

unfoldable pub is_profile : String → String → Profile → Bool
is_profile provider id p = (p.provider == provider) && (p.id == id)

unfoldable pub find : Registry → String → String → Option Profile
find r provider id = find_first (is_profile provider id) r.profiles

-- r.Active[provider], which is "" for a missing provider.
abbrev pub or_empty : Option String → String
or_empty none = ""
or_empty (some id) = id

unfoldable pub active_id : Registry → String → String
active_id r provider = or_empty (lookup provider r.active)

unfoldable pub append_profile : List Profile → Profile → List Profile
append_profile [] p = p ∷ []
append_profile (q ∷ qs) p = q ∷ append_profile qs p

unfoldable pub register : Registry → Profile → Registry
register r p = record r {
  profiles = append_profile r.profiles p;
  active = if active_id r p.provider == "" then insert p.provider p.id r.active else r.active;
}

unfoldable pub add : Registry → Profile → Result Error Registry
add r p = elim (validate_profile p) [
  | some e ↦ err e
  | none ↦ elim (find r p.provider p.id) [ some q ↦ err already_exists | none ↦ ok (register r p) ]
]

-- append(r.Profiles[:index], r.Profiles[index+1:]...) at the first match.
unfoldable pub remove_first : String → String → List Profile → List Profile
remove_first provider id [] = []
remove_first provider id (p ∷ ps) =
    if is_profile provider id p then ps else p ∷ remove_first provider id ps

unfoldable pub has_provider : String → Profile → Bool
has_provider provider p = p.provider == provider

-- The map of active profiles when the provider's active one has been removed: its next one.
unfoldable pub hand_over : String → Option Profile → Dict String → Dict String
hand_over provider none active = erase provider active
hand_over provider (some p) active = insert provider p.id (erase provider active)

unfoldable pub unregister : Registry → String → String → Registry
unregister r provider id =
    let left = remove_first provider id r.profiles in
    record r {
      profiles = left;
      active =
          if active_id r provider == id
          then hand_over provider (find_first (has_provider provider) left) r.active
          else r.active;
    }

unfoldable pub remove : Registry → String → String → Result Error Registry
remove r provider id = elim (find r provider id) [
  | none ↦ err not_found
  | some p ↦ ok (unregister r provider id)
]

unfoldable pub use_profile : Registry → String → String → Result Error Registry
use_profile r provider id = elim (find r provider id) [
  | none ↦ err not_found
  | some p ↦ ok (record r { active = insert provider id r.active })
]

unfoldable pub active_profile : Registry → String → Option Profile
active_profile r provider =
    if active_id r provider == "" then none else find r provider (active_id r provider)

-- The order of SortedProfiles, and a sort by it.
unfoldable pub precedes : Profile → Profile → Bool
precedes p q =
    if p.provider == q.provider
    then is_lt (compare p.id q.id)
    else is_lt (compare p.provider q.provider)

unfoldable pub insert_sorted : Profile → List Profile → List Profile
insert_sorted p [] = p ∷ []
insert_sorted p (q ∷ qs) = if precedes q p then q ∷ insert_sorted p qs else p ∷ q ∷ qs

unfoldable pub sort : List Profile → List Profile
sort [] = []
sort (p ∷ ps) = insert_sorted p (sort ps)

unfoldable pub sorted_profiles : Registry → List Profile
sorted_profiles r = sort r.profiles

-- json.Marshal with an indent, and json.Unmarshal, on registries.
pub record Json : Type 0 where
  pub marshal : Registry → Option String
  pub unmarshal : String → Option Registry

-- The file at the store's path.
pub data Stored : Type 0 where
  missing unreadable_file : Stored
  contents : String → Stored

unfoldable pub first_invalid : List Profile → Option Error
first_invalid [] = none
first_invalid (p ∷ ps) = elim (validate_profile p) [ some e ↦ some e | none ↦ first_invalid ps ]

unfoldable pub check_registry : Registry → Result Error Registry
check_registry r =
    if not (eqb r.version registry_version)
    then err bad_version
    else elim (first_invalid r.profiles) [ some e ↦ err e | none ↦ ok r ]

unfoldable pub load : Json → Stored → Result Error Registry
load json missing = ok new_registry
load json unreadable_file = err unreadable
load json (contents text) = elim (json.unmarshal text) [
  | none ↦ err undecodable
  | some r ↦ check_registry r
]

-- The calls of the file system that Save makes.
pub data Step : Type 0 where
  make_directory create_temp chmod_temp write_temp close_temp rename_temp : Step

-- The store's file, and Save's temp file if there is one.
pub record Directory : Type 0 where
  pub registry : Stored
  pub temp : Option String

abbrev pub directory : Stored → Option String → Directory
directory registry temp = record { registry = registry; temp = temp }

-- From Chmod to Rename, on a new temp file.
unfoldable pub replace_file : (Step → Bool) → String → Stored → Option Error × Directory
replace_file works text old =
    if not (works chmod_temp)
    then (some insecure, directory old (some ""))
    else if not (works write_temp)
    then (some unwritable, directory old (some ""))
    else if not (works close_temp)
    then (some unclosed, directory old (some text))
    else if not (works rename_temp)
    then (some unreplaced, directory old (some text))
    else (none, directory (contents text) none)

-- The deferred os.Remove.
unfoldable pub remove_temp : Option Error × Directory → Option Error × Directory
remove_temp (e, d) = (e, directory d.registry none)

unfoldable pub save_data : (Step → Bool) → Option String → Stored → Option Error × Directory
save_data works none old = (some unencodable, directory old none)
save_data works (some text) old =
    if not (works create_temp)
    then (some no_temp_file, directory old none)
    else remove_temp (replace_file works (text <> "\n") old)

unfoldable pub save : Json → (Step → Bool) → Stored → Registry → Option Error × Directory
save json works old r =
    if not (works make_directory)
    then (some no_directory, directory old none)
    else save_data works (json.marshal (record r { version = registry_version })) old
