-- ===== src/CodexMeta.antt =====
-- internal/codexmeta/version.go: the version of the Codex client. Texts are their codes, and
-- what the environment, the file and the directories hold are arguments.
pub mod Versions
pub mod Tests
use codex_account_pool.Prelude.{
  ℕ, Bool, true, false, not, ◌&&◌, ◌||◌, Option, none, some, List, [], ◌∷◌, ◌++◌, Result, ok, err,
  leb, ◌-◌, ltb, eqb, if◌then◌else◌, trim_codes, same_codes,
}

pub data Error : Type 0 where
  invalid_variable unreadable_profiles unavailable invalid_version not_written : Error

abbrev pub is_digit : ℕ → Bool
is_digit c = leb 48 c && leb c 57

-- [A-Za-z0-9.-]
abbrev pub is_suffix_code : ℕ → Bool
is_suffix_code c =
    is_digit c || ((leb 65 c && leb c 90) || ((leb 97 c && leb c 122) || (eqb c 46 || eqb c 45)))

unfoldable pub is_suffix : List ℕ → Bool
is_suffix [] = true
is_suffix (c ∷ s) = is_suffix_code c && is_suffix s

-- What follows the third number of clientVersionPattern.
unfoldable pub is_tail : List ℕ → Bool
is_tail [] = true
is_tail (c ∷ []) = false
is_tail (c ∷ d ∷ s) = (eqb c 45 || eqb c 43) && is_suffix (d ∷ s)

-- clientVersionPattern from inside a number: how many numbers are still to come, and whether a digit
-- of this one has been read.
unfoldable pub matches_from : ℕ → Bool → List ℕ → Bool
matches_from n started [] = started && eqb n 0
matches_from n started (c ∷ s) =
    let digit = matches_from n true s in
    let dot = matches_from (n - 1) false s in
    if is_digit c
    then digit
    else if eqb n 0
    then started && is_tail (c ∷ s)
    else started && (eqb c 46 && dot)

unfoldable pub matches_version : List ℕ → Bool
matches_version = matches_from 2 false

pub record VersionCandidate : Type 0 where
  pub version : List ℕ
  pub fetched_at : ℕ

unfoldable pub trimmed_version : List ℕ → Option (List ℕ)
trimmed_version text = let v = trim_codes text in if matches_version v then some v else none

-- readVersionFile; `none` is a file that cannot be read.
unfoldable pub read_version_file : Option (List ℕ) → Option (List ℕ)
read_version_file none = none
read_version_file (some text) = trimmed_version text

-- The candidates of the model caches that could be read and decoded.
unfoldable pub valid_candidates : List VersionCandidate → List VersionCandidate
valid_candidates [] = []
valid_candidates (c ∷ cs) =
    let v = trim_codes c.version in
    let rest = valid_candidates cs in
    if matches_version v then (record c { version = v }) ∷ rest else rest

-- The first candidate of the sorted list. Of several that were fetched last, sort.Slice may put any
-- first; the earliest is taken here.
unfoldable pub newest : VersionCandidate → List VersionCandidate → VersionCandidate
newest best [] = best
newest best (c ∷ cs) = newest (if ltb best.fetched_at c.fetched_at then c else best) cs

unfoldable pub from_candidates : List VersionCandidate → Result Error (List ℕ)
from_candidates [] = err unavailable
from_candidates (c ∷ cs) = ok (newest c cs).version

-- `none`: the directory of the profiles cannot be read.
unfoldable pub from_caches : Option (List VersionCandidate) → Result Error (List ℕ)
from_caches none = err unreadable_profiles
from_caches (some cs) = from_candidates (valid_candidates cs)

unfoldable pub from_file : Option (List ℕ) → Option (List VersionCandidate) → Result Error (List ℕ)
from_file (some v) caches = ok v
from_file none caches = from_caches caches

unfoldable pub resolve_client_version :
    List ℕ → Option (List ℕ) → Option (List VersionCandidate) → Result Error (List ℕ)
resolve_client_version variable file caches =
    let v = trim_codes variable in
    if not (same_codes v [])
    then if matches_version v then ok v else err invalid_variable
    else from_file (read_version_file file) caches

-- The file afterwards, which is replaced whole or stays.
unfoldable pub persist_client_version :
    Option (List ℕ) → List ℕ → Bool → Option Error × Option (List ℕ)
persist_client_version file version writable =
    let v = trim_codes version in
    if not (matches_version v)
    then (some invalid_version, file)
    else if writable
    then (none, some (v ++ 10 ∷ []))
    else (some not_written, file)
