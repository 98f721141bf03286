-- ===== src/Prelude/Bytes.antt =====
-- The parts of Go's bytes package that the program uses, on lists of the bytes of a text in UTF-8.
use Prim.Native.Nat.{ℕ, zero, suc, ◌+◌}
use mathlib.Core.Path.{◌≡◌, refl}
use mathlib.Core.Bool.{Bool, ◌&&◌, ◌||◌}
use mathlib.Core.List.{List, [], ◌∷◌}
use mathlib.Core.Option.{Option, none, some}
use codex_account_pool.Prelude.Tests.{if◌then◌else◌, leb, eqb}

-- The spaces of unicode.IsSpace by the length of their encoding.
abbrev pub space_one : ℕ → Bool
space_one c = (leb 9 c && leb c 13) || eqb c 32

abbrev pub space_two : ℕ → ℕ → Bool
space_two c d = eqb c 0xc2 && (eqb d 0x85 || eqb d 0xa0)

abbrev pub space_three : ℕ → ℕ → ℕ → Bool
space_three c d e =
    (eqb c 0xe1 && (eqb d 0x9a && eqb e 0x80))
    || ((eqb c 0xe2
          && ((eqb d 0x80
                && ((leb 0x80 e && leb e 0x8a) || (eqb e 0xa8 || (eqb e 0xa9 || eqb e 0xaf))))
              || (eqb d 0x81 && eqb e 0x9f)))
        || (eqb c 0xe3 && (eqb d 0x80 && eqb e 0x80)))

-- How many bytes the space at the front has, or 0.
unfoldable pub front_space : List ℕ → ℕ
front_space [] = 0
front_space (c ∷ []) = if space_one c then 1 else 0
front_space (c ∷ d ∷ []) = if space_one c then 1 else if space_two c d then 2 else 0
front_space (c ∷ d ∷ e ∷ s) =
    if space_one c then 1 else if space_two c d then 2 else if space_three c d e then 3 else 0

-- The same for a text written from its end.
unfoldable pub end_space : List ℕ → ℕ
end_space [] = 0
end_space (c ∷ []) = if space_one c then 1 else 0
end_space (c ∷ d ∷ []) = if space_one c then 1 else if space_two d c then 2 else 0
end_space (c ∷ d ∷ e ∷ s) =
    if space_one c then 1 else if space_two d c then 2 else if space_three e d c then 3 else 0

-- Drops so many bytes, and then every space that `space` finds.
unfoldable pub drop_spaces : (List ℕ → ℕ) → ℕ → List ℕ → List ℕ
drop_spaces space n [] = []
drop_spaces space (suc n) (c ∷ s) = drop_spaces space n s
drop_spaces space zero (c ∷ s) = elim (space (c ∷ s)) [
  | zero ↦ c ∷ s
  | suc n ↦ drop_spaces space n s
]

unfoldable pub reversed : List ℕ → List ℕ → List ℕ
reversed [] out = out
reversed (c ∷ s) out = reversed s (c ∷ out)

-- bytes.TrimSpace
unfoldable pub trim_space : List ℕ → List ℕ
trim_space s = reversed (drop_spaces end_space 0 (reversed (drop_spaces front_space 0 s) [])) []

-- The first letter in lower case and how many bytes more it has, where the result is ASCII: beside the
-- letters, the two signs outside ASCII that have such a result. The texts that a lowered text is
-- compared with are ASCII.
abbrev pub lower_front : ℕ → List ℕ → ℕ × ℕ
lower_front c (d ∷ e ∷ s) =
    if eqb c 0xc4 && eqb d 0xb0
    then (b'i', 1)
    else if eqb c 0xe2 && (eqb d 0x84 && eqb e 0xaa)
    then (b'k', 2)
    else (if leb b'A' c && leb c b'Z' then c + 32 else c, 0)
lower_front c (d ∷ []) =
    if eqb c 0xc4 && eqb d 0xb0
    then (b'i', 1)
    else (if leb b'A' c && leb c b'Z' then c + 32 else c, 0)
lower_front c [] = (if leb b'A' c && leb c b'Z' then c + 32 else c, 0)

unfoldable pub lower_from : ℕ → List ℕ → List ℕ
lower_from n [] = []
lower_from (suc n) (c ∷ s) = lower_from n s
lower_from zero (c ∷ s) = let front = lower_front c s in front.0 ∷ lower_from front.1 s

-- strings.ToLower
unfoldable pub lower_bytes : List ℕ → List ℕ
lower_bytes = lower_from 0

-- bytes.CutPrefix: the rest of a text that starts with another one.
unfoldable pub cut_prefix : List ℕ → List ℕ → Option (List ℕ)
cut_prefix [] s = some s
cut_prefix (c ∷ p) [] = none
cut_prefix (c ∷ p) (d ∷ s) = let rest = cut_prefix p s in if eqb c d then rest else none

-- Up to a newline, and what follows it.
unfoldable pub cut_line : List ℕ → Option (List ℕ × List ℕ)
cut_line [] = none
cut_line (c ∷ s) =
    let rest = cut_line s in
    if eqb c 10
    then some ([], s)
    else elim rest [ none ↦ none | some (line, after) ↦ some (c ∷ line, after) ]

trimmed :
    trim_space (9 ∷ 0xc2 ∷ 0xa0 ∷ 65 ∷ 32 ∷ 66 ∷ 0xe2 ∷ 0x80 ∷ 0xa8 ∷ 13 ∷ []) ≡ 65 ∷ 32 ∷ 66 ∷ []
unfolding trim_space reversed drop_spaces front_space end_space
trimmed = refl

lowered : lower_bytes (b'A' ∷ 0xc4 ∷ 0xb0 ∷ b'z' ∷ []) ≡ b'a' ∷ b'i' ∷ b'z' ∷ []
unfolding lower_bytes lower_from
lowered = refl
