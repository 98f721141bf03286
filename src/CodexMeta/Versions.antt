-- ===== src/CodexMeta/Versions.antt =====
-- The versions that internal/codexmeta/version.go resolves, and a version that it has written.
use codex_account_pool.Prelude.{
  ℕ, ◌-◌, Bool, true, false, not, ◌≡◌, refl, ap, ◌∙◌, inl, inr, Option, none, some, List, [], ◌∷◌,
  ◌++◌, arith, Bool-cases, either_branch, subst, some-injective, ok, trim_codes, trim_left,
  trim_right, is_space, same_codes, eqb, ltb, ◌&&◌, ◌||◌, if◌then◌else◌,
}
use codex_account_pool.CodexMeta.{
  is_digit, is_suffix_code, is_suffix, is_tail, matches_from, matches_version, VersionCandidate,
  trimmed_version, read_version_file, valid_candidates, newest, from_candidates, from_caches,
  from_file, resolve_client_version, persist_client_version,
}

-- No code of the text is a space.
unfoldable is_tight : List ℕ → Bool
is_tight [] = true
is_tight (c ∷ s) = not (is_space c) && is_tight s

both : (a b : Bool) → (a && b) ≡ true → (a ≡ true) × (b ≡ true)
both a b e = (ground (arith, e), ground (arith, e))

is_suffix_code-tight : (c : ℕ) → is_suffix_code c ≡ true → is_space c ≡ false
is_suffix_code-tight c e = ground (arith, e)

is_suffix-tight : (s : List ℕ) → is_suffix s ≡ true → is_tight s ≡ true
unfolding is_suffix is_tight
is_suffix-tight [] e = refl
is_suffix-tight (c ∷ s) e =
    let h = both (is_suffix_code c) (is_suffix s) e in
    rw (is_suffix_code-tight c h.0) (is_suffix-tight s h.1)

trim_left_tight : (c : ℕ) (s : List ℕ) → is_space c ≡ false → trim_left (c ∷ s) ≡ c ∷ s
unfolding trim_left
trim_left_tight c s e = rw e refl

abbrev joined : ℕ → List ℕ → List ℕ
joined c t = elim t [ [] ↦ if is_space c then [] else c ∷ [] | d ∷ u ↦ c ∷ d ∷ u ]

joined_tight : (c : ℕ) (t : List ℕ) → is_space c ≡ false → joined c t ≡ c ∷ t
joined_tight c [] e = rw e refl
joined_tight c (d ∷ t) e = refl

-- A code that is no space stays before what is left of the rest.
trim_right_cons : (c : ℕ) (s : List ℕ) → is_space c ≡ false → trim_right (c ∷ s) ≡ c ∷ trim_right s
unfolding trim_right
trim_right_cons c s e = joined_tight c (trim_right s) e

trim_right_tight : (s : List ℕ) → is_tight s ≡ true → trim_right s ≡ s
unfolding trim_right is_tight
trim_right_tight [] e = refl
trim_right_tight (c ∷ s) e =
    let h = both (not (is_space c)) (is_tight s) e in
    trim_right_cons c s (ground (arith, h.0)) ∙ ap (λ t. c ∷ t) (trim_right_tight s h.1)

trim_right_line : (s : List ℕ) → is_tight s ≡ true → trim_right (s ++ 10 ∷ []) ≡ s
unfolding trim_right is_tight
trim_right_line [] e = refl
trim_right_line (c ∷ s) e =
    let h = both (not (is_space c)) (is_tight s) e in
    trim_right_cons c (s ++ 10 ∷ []) (ground (arith, h.0)) ∙ ap (λ t. c ∷ t) (trim_right_line s h.1)

is_tail-tight : (s : List ℕ) → is_tail s ≡ true → is_tight s ≡ true
unfolding is_tail is_tight
is_tail-tight [] e = refl
is_tail-tight (c ∷ []) e = ground arith
is_tail-tight (c ∷ d ∷ s) e =
    let h = both ((eqb c 45 || eqb c 43)) (is_suffix (d ∷ s)) e in
    let k : is_space c ≡ false = ground (arith, h.0) in rw k (is_suffix-tight (d ∷ s) h.1)

matches_from-tight :
    (n : ℕ) (started : Bool) (s : List ℕ) → matches_from n started s ≡ true → is_tight s ≡ true
unfolding matches_from is_tight
matches_from-tight n started [] = λ e. refl
matches_from-tight n started (c ∷ s) =
    let more = matches_from-tight n true s in
    let next = matches_from-tight (n - 1) false s in
    elim (Bool-cases (is_digit c)) [
      | inl d ↦ let k : is_space c ≡ false = ground (arith, d) in rw (d, k) more
      | inr d ↦ elim (Bool-cases (eqb n 0)) [
        | inl z ↦ rw (d, z) (λ e. is_tail-tight (c ∷ s) (both started (is_tail (c ∷ s)) e).1)
        | inr z ↦
            rw (d, z)
              (λ e.
                let h = both (eqb c 46) (matches_from (n - 1) false s) (both started _ e).1 in
                let k : is_space c ≡ false = ground (arith, h.0) in rw k (next h.1))
      ]
    ]

version_line : (v : List ℕ) → matches_version v ≡ true → trim_codes (v ++ 10 ∷ []) ≡ v
unfolding matches_version trim_codes
version_line [] e = unfold matches_from in ground arith
version_line (c ∷ s) e =
    let t = matches_from-tight 2 false (c ∷ s) e in
    let h = both (not (is_space c)) (is_tight s) (unfold is_tight in t) in
    ap trim_right (trim_left_tight c (s ++ 10 ∷ []) (ground (arith, h.0)))
    ∙ trim_right_line (c ∷ s) t

newest_matches :
    (cs : List VersionCandidate) (best : VersionCandidate)
    → matches_version best.version ≡ true
    → matches_version (newest best (valid_candidates cs)).version ≡ true
unfolding newest valid_candidates
newest_matches [] best e = e
newest_matches (c ∷ cs) best e =
    let v = trim_codes c.version in
    let d : VersionCandidate = record c { version = v } in
    elim (Bool-cases (matches_version v)) [
      | inr m ↦ rw m (newest_matches cs best e)
      | inl m ↦ rw m (
          let later = ltb best.fetched_at c.fetched_at in
          newest_matches cs (if later then d else best)
            (either_branch (λ (x : VersionCandidate). matches_version x.version ≡ true) later m e))
    ]

from_candidates-matches :
    (cs : List VersionCandidate) (w : List ℕ)
    → from_candidates (valid_candidates cs) ≡ ok w
    → matches_version w ≡ true
unfolding valid_candidates from_candidates
from_candidates-matches [] w = λ e. ground arith
from_candidates-matches (c ∷ cs) w =
    let v = trim_codes c.version in
    let d : VersionCandidate = record c { version = v } in
    elim (Bool-cases (matches_version v)) [
      | inr m ↦ rw m (from_candidates-matches cs w)
      | inl m ↦ rw m (λ e. cc (newest_matches cs d m))
    ]

read_version_file-matches :
    (file : Option (List ℕ)) (w : List ℕ)
    → read_version_file file ≡ some w
    → matches_version w ≡ true
unfolding read_version_file trimmed_version
read_version_file-matches none w = λ e. ground arith
read_version_file-matches (some text) w = elim (Bool-cases (matches_version (trim_codes text))) [
  | inl m ↦ rw m (λ e. subst (λ v. matches_version v ≡ true) (some-injective e) m)
  | inr m ↦ rw m (λ e. ground arith)
]

from_file-matches :
    (o : Option (List ℕ)) (caches : Option (List VersionCandidate)) (w : List ℕ)
    → ((v : List ℕ) → o ≡ some v → matches_version v ≡ true)
    → from_file o caches ≡ ok w
    → matches_version w ≡ true
unfolding from_file from_caches
from_file-matches (some v) caches w h = λ e. h w (ground (arith, e))
from_file-matches none none w h = λ e. ground arith
from_file-matches none (some cs) w h = from_candidates-matches cs w

-- A version that ResolveClientVersion gives matches the pattern of versions, wherever it comes from.
pub resolve_client_version-matches :
    (variable : List ℕ) (file : Option (List ℕ)) (caches : Option (List VersionCandidate))
    (w : List ℕ)
    → resolve_client_version variable file caches ≡ ok w
    → matches_version w ≡ true
unfolding resolve_client_version
resolve_client_version-matches variable file caches w =
    let v = trim_codes variable in
    elim (Bool-cases (same_codes v [])) [
      | inl s ↦
          rw s
            (from_file-matches (read_version_file file) caches w (read_version_file-matches file))
      | inr s ↦ rw s (elim (Bool-cases (matches_version v)) [
        | inl m ↦ rw m (λ e. subst (λ x. matches_version x ≡ true) (ground (arith, e)) m)
        | inr m ↦ rw m (λ e. ground arith)
      ])
    ]

written :
    (v : List ℕ) (caches : Option (List VersionCandidate))
    → matches_version v ≡ true
    → resolve_client_version [] (some (v ++ 10 ∷ [])) caches ≡ ok v
unfolding resolve_client_version trim_codes trim_left trim_right same_codes read_version_file
    trimmed_version from_file
written v caches m = let h : trim_codes (v ++ 10 ∷ []) ≡ v = version_line v m in rw (h, m) refl

-- A version that PersistClientVersion has written is the one that ResolveClientVersion gives next,
-- where the environment names none.
pub resolve_client_version-persist :
    (file : Option (List ℕ)) (version : List ℕ) (writable : Bool)
    (caches : Option (List VersionCandidate))
    → (persist_client_version file version writable).0 ≡ none
    → resolve_client_version [] (persist_client_version file version writable).1 caches
      ≡ ok (trim_codes version)
unfolding persist_client_version
resolve_client_version-persist file version writable caches =
    let v = trim_codes version in
    elim (Bool-cases (matches_version v)) [
      | inr m ↦ rw m (λ e. ground arith)
      | inl m ↦ rw m (elim (Bool-cases writable) [
        | inr w ↦ rw w (λ e. ground arith)
        | inl w ↦ rw w (λ e. written v caches m)
      ])
    ]
