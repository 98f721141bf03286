-- ===== src/Prelude/Text.antt =====
-- The parts of Go's strings and unicode packages that the program uses, on the characters of a text.
use Prim.Native.Nat.{ℕ, ◌+◌}
use Prim.Native.Char.{code}
use Prim.Native.String.{String}
use mathlib.Core.Path.{◌≡◌, refl}
use mathlib.Core.Bool.{Bool, true, false, ◌&&◌, ◌||◌}
use mathlib.Core.List.{List, [], ◌∷◌, map}
use mathlib.Core.Option.{Option, none, some}
use codex_account_pool.Prelude.Lists.{length}
use codex_account_pool.Prelude.Tests.{if◌then◌else◌, leb, eqb}

abbrev pub codes : String → List ℕ
codes String.[] = []
codes (String.◌∷◌ c s) = code c ∷ codes s

-- unicode.IsSpace
abbrev pub is_space : ℕ → Bool
is_space c =
    (leb 9 c && leb c 13)
    || (eqb c 32
        || (eqb c 0x85
            || (eqb c 0xa0
                || (eqb c 0x1680
                    || ((leb 0x2000 c && leb c 0x200a)
                        || (eqb c 0x2028
                            || (eqb c 0x2029
                                || (eqb c 0x202f || (eqb c 0x205f || eqb c 0x3000)))))))))

-- strings.TrimSpace, at the left end and at the right end.
unfoldable pub trim_left : List ℕ → List ℕ
trim_left [] = []
trim_left (c ∷ s) = let rest = trim_left s in if is_space c then rest else c ∷ s

unfoldable pub trim_right : List ℕ → List ℕ
trim_right [] = []
trim_right (c ∷ s) = elim (trim_right s) [
  | [] ↦ if is_space c then [] else c ∷ []
  | d ∷ t ↦ c ∷ d ∷ t
]

unfoldable pub trim_codes : List ℕ → List ℕ
trim_codes s = trim_right (trim_left s)

-- unicode.ToLower where the result is ASCII: beside the letters, two signs outside ASCII have such a
-- result. The texts that a lowered text is compared with are ASCII.
abbrev pub lower : ℕ → ℕ
lower c =
    if leb b'A' c && leb c b'Z'
    then c + 32
    else if eqb c 0x130
    then b'i'
    else if eqb c 0x212a
    then b'k'
    else c

unfoldable pub same_codes : List ℕ → List ℕ → Bool
same_codes [] [] = true
same_codes (a ∷ s) (b ∷ t) = eqb a b && same_codes s t
same_codes _ _ = false

-- strings.HasPrefix and strings.HasSuffix, the other text first.
unfoldable pub starts : List ℕ → List ℕ → Bool
starts [] s = true
starts (p ∷ ps) [] = false
starts (p ∷ ps) (c ∷ s) = eqb p c && starts ps s

unfoldable pub ends : List ℕ → List ℕ → Bool
ends p [] = starts p []
ends p (c ∷ s) = (starts p (c ∷ s) && eqb (length p) (length (c ∷ s))) || ends p s

-- strings.TrimSpace(s) == ""
unfoldable pub is_blank : String → Bool
is_blank String.[] = true
is_blank (String.◌∷◌ c s) = is_space (code c) && is_blank s

-- strings.ToLower(strings.TrimSpace(s)) == t, and strings.EqualFold of the trimmed text with t.
unfoldable pub same_folded : String → String → Bool
same_folded s t = same_codes (map lower (trim_codes (codes s))) (codes t)

-- strings.Split(s, ".")[1], where there are two parts or more.
unfoldable pub until_dot : String → String
until_dot String.[] = ""
until_dot (String.◌∷◌ c s) =
    let rest = until_dot s in if eqb (code c) b'.' then "" else String.◌∷◌ c rest

unfoldable pub second_part : String → Option String
second_part String.[] = none
second_part (String.◌∷◌ c s) =
    let rest = second_part s in if eqb (code c) b'.' then some (until_dot s) else rest

folded : same_folded " ChatGPT\n" "chatgpt" ≡ true
unfolding same_folded same_codes trim_codes trim_left trim_right
folded = refl

parts : second_part "a.bc.d" ≡ some "bc"
unfolding second_part until_dot
parts = refl
