-- ===== src/Antigravity/Signature.antt =====
-- isLikelyRealThoughtSignature of internal/antigravity/replay.go. Its texts are read as characters:
-- a text with a character outside ASCII is refused by the alphabet, whatever its length in bytes.
use codex_account_pool.Prelude.{
  ℕ, String, Bool, true, false, ◌&&◌, ◌||◌, List, [], ◌∷◌, length, ltb, leb, eqb, codes, lower,
  trim_codes, same_codes, if◌then◌else◌,
}

-- [_-] at the head of a text
unfoldable pub at_separator : List ℕ → Bool
at_separator [] = false
at_separator (c ∷ s) = eqb c b'_' || eqb c b'-'

-- The word, whatever the case of its letters, and then a separator.
unfoldable pub after_word : List ℕ → List ℕ → Bool
after_word [] s = at_separator s
after_word (w ∷ ws) [] = false
after_word (w ∷ ws) (c ∷ s) = eqb (lower c) w && after_word ws s

abbrev pub foreign_words : List String
foreign_words =
    "fc" ∷ "ctc" ∷ "tsc" ∷ "call" ∷ "msg" ∷ "rs" ∷ "resp" ∷ "reasoning" ∷ "item" ∷ "ws" ∷ "toolu"
    ∷ "tool" ∷ "func" ∷ "function" ∷ []

unfoldable pub any_word : List String → List ℕ → Bool
any_word [] s = false
any_word (w ∷ ws) s = after_word (codes w) s || any_word ws s

unfoldable pub has_foreign_prefix : List ℕ → Bool
has_foreign_prefix s = any_word foreign_words s

unfoldable pub in_alphabet : ℕ → Bool
in_alphabet c =
    (leb b'A' c && leb c b'Z')
    || ((leb b'a' c && leb c b'z')
        || ((leb b'0' c && leb c b'9')
            || (eqb c b'+' || (eqb c b'/' || (eqb c b'_' || (eqb c b'=' || eqb c b'-'))))))

unfoldable pub all_in_alphabet : List ℕ → Bool
all_in_alphabet [] = true
all_in_alphabet (c ∷ s) = in_alphabet c && all_in_alphabet s

unfoldable pub is_likely_real : List ℕ → Bool
is_likely_real s =
    if ltb (length s) 16 || same_codes s (codes "skip_thought_signature_validator")
    then false
    else if has_foreign_prefix s
    then false
    else all_in_alphabet s

unfoldable pub is_likely_real_thought_signature : String → Bool
is_likely_real_thought_signature signature = is_likely_real (trim_codes (codes signature))
