-- ===== src/Gateway/Chunks.antt =====
-- The observer of internal/gateway/gateway.go does not depend on how a stream is cut into pieces.
use codex_account_pool.Prelude.{
  ℕ, zero, suc, ◌≤◌, ◌<◌, true, false, Option, none, some, List, [], ◌∷◌, ◌++◌, ◌≡◌, refl, sym, ap,
  ◌∙◌, length, eqb, if◌then◌else◌, arith, inl, inr, Bool-cases, Option-cases, length-append,
  cut_line,
}
use mathlib.Core.List.{append_assoc, append-nil}
use codex_account_pool.Gateway.{
  SseObserver, max_observed_sse_line, is_unobserved, take_chunk, end_line, observe_loop, observe,
}

-- The line that is kept has at most the observed length, and is empty in a line that is too long.
record IsObserver (o : SseObserver) : Type 0 where
  pub bounded : length o.line ≤ max_observed_sse_line

take_chunk-outcome : (o : SseObserver) (p : List ℕ) → (take_chunk o p).outcome ≡ o.outcome
unfolding take_chunk
take_chunk-outcome o p = ground arith

take_chunk-empty : (o : SseObserver) → IsObserver o → take_chunk o [] ≡ o
unfolding take_chunk
take_chunk-empty o h = ground (arith, append-nil o.line)

take_chunk-cons :
    (o : SseObserver) (b : ℕ) (p : List ℕ)
    → take_chunk o (b ∷ p) ≡ take_chunk (take_chunk o (b ∷ [])) p
unfolding take_chunk
take_chunk-cons o b p =
    ground (arith, append_assoc o.line (b ∷ []) p, length-append o.line (b ∷ []))

take_chunk-IsObserver : (o : SseObserver) (p : List ℕ) → IsObserver o → IsObserver (take_chunk o p)
unfolding take_chunk
take_chunk-IsObserver o p h = record { bounded = ground (arith, length-append o.line p) }

cut_line-none :
    (b : ℕ) (p : List ℕ) → eqb b 10 ≡ false → cut_line (b ∷ p) ≡ none → cut_line p ≡ none
unfolding cut_line
cut_line-none b p n e = elim (Option-cases (cut_line p)) [
  | inl q ↦ q
  | inr (x, q) ↦ absurd (ground arith)
]

-- A line starts at the byte before it.
cut_line-some :
    (b : ℕ) (p chunk rest : List ℕ)
    → eqb b 10 ≡ false
    → cut_line (b ∷ p) ≡ some (chunk, rest)
    → (part : List ℕ) × (chunk ≡ b ∷ part) × (cut_line p ≡ some (part, rest))
unfolding cut_line
cut_line-some b p chunk rest n e = elim (Option-cases (cut_line p)) [
  | inl q ↦ absurd (ground arith)
  | inr ((part, after), q) ↦ (part, ground arith, ground arith)
]

cut_line-newline :
    (b : ℕ) (p chunk rest : List ℕ)
    → eqb b 10 ≡ true
    → cut_line (b ∷ p) ≡ some (chunk, rest)
    → (chunk ≡ []) × (rest ≡ p)
unfolding cut_line
cut_line-newline b p chunk rest n e = ground arith

length-cut_line : (p chunk rest : List ℕ) → cut_line p ≡ some (chunk, rest) → length rest < length p
length-cut_line [] chunk rest e = unfold cut_line in cc
length-cut_line (b ∷ p) chunk rest e = elim (Bool-cases (eqb b 10)) [
  | inl n ↦ ground (arith, cut_line-newline b p chunk rest n e)
  | inr n ↦
      let (part, _, q) = cut_line-some b p chunk rest n e in
      omega (arith, length-cut_line p part rest q)
]

abbrev pub whole : List (List ℕ) → List ℕ
whole [] = []
whole (p ∷ ps) = p ++ whole ps

module _ (event_type : List ℕ → Option (List ℕ)) where
  -- One byte.
  unfoldable pub observe_byte : SseObserver → ℕ → SseObserver
  observe_byte o b =
      if is_unobserved o.outcome
      then (if eqb b 10 then end_line event_type o else take_chunk o (b ∷ []))
      else o

  -- One byte after another.
  unfoldable pub observe_bytes : SseObserver → List ℕ → SseObserver
  observe_bytes o [] = o
  observe_bytes o (b ∷ p) = observe_bytes (observe_byte o b) p

  observe_bytes-append :
      (p q : List ℕ) (o : SseObserver)
      → observe_bytes o (p ++ q) ≡ observe_bytes (observe_bytes o p) q
  unfolding observe_bytes
  observe_bytes-append [] q o = refl
  observe_bytes-append (b ∷ p) q o = observe_bytes-append p q (observe_byte o b)

  -- An observer that has seen the outcome is left as it is.
  observed_bytes :
      (p : List ℕ) (o : SseObserver) → is_unobserved o.outcome ≡ false → observe_bytes o p ≡ o
  unfolding observe_bytes observe_byte
  observed_bytes [] o h = refl
  observed_bytes (b ∷ p) o h = rw h (observed_bytes p o h)

  observe_byte-part :
      (o : SseObserver) (b : ℕ)
      → is_unobserved o.outcome ≡ true
      → eqb b 10 ≡ false
      → observe_byte o b ≡ take_chunk o (b ∷ [])
  unfolding observe_byte
  observe_byte-part o b u n = rw (u, n)

  -- A text without a newline is one part of a line.
  part_bytes :
      (p : List ℕ) (o : SseObserver)
      → IsObserver o
      → is_unobserved o.outcome ≡ true
      → cut_line p ≡ none
      → observe_bytes o p ≡ take_chunk o p
  unfolding observe_bytes cut_line
  part_bytes [] o h u e = sym (take_chunk-empty o h)
  part_bytes (b ∷ p) o h u e = elim (Bool-cases (eqb b 10)) [
    | inl n ↦ ground arith
    | inr n ↦
        let next = take_chunk o (b ∷ []) in
        rw (observe_byte-part o b u n, take_chunk-cons o b p)
          (part_bytes p next (take_chunk-IsObserver o (b ∷ []) h)
            (ap is_unobserved (take_chunk-outcome o (b ∷ [])) ∙ u) (cut_line-none b p n e))
  ]

  observe_bytes-part :
      (o : SseObserver) (b : ℕ) (p : List ℕ)
      → is_unobserved o.outcome ≡ true
      → eqb b 10 ≡ false
      → observe_bytes o (b ∷ p) ≡ observe_bytes (take_chunk o (b ∷ [])) p
  unfolding observe_bytes
  observe_bytes-part o b p u n =
      ap (λ (r : SseObserver). observe_bytes r p) (observe_byte-part o b u n)

  -- A line up to its newline is one part, and the end of the line.
  line_bytes :
      (p chunk rest : List ℕ) (o : SseObserver)
      → IsObserver o
      → is_unobserved o.outcome ≡ true
      → cut_line p ≡ some (chunk, rest)
      → observe_bytes o p ≡ observe_bytes (end_line event_type (take_chunk o chunk)) rest
  line_bytes [] chunk rest o h u e = unfold cut_line in cc
  line_bytes (b ∷ p) chunk rest o h u e = elim (Bool-cases (eqb b 10)) [
    | inl n ↦
        let (c, r) = cut_line-newline b p chunk rest n e in
        rw (c, r, take_chunk-empty o h) (unfold observe_bytes observe_byte in (rw (u, n) refl))
    | inr n ↦
        let (part, c, q) = cut_line-some b p chunk rest n e in
        let next = take_chunk o (b ∷ []) in
        let ih =
          line_bytes p part rest next (take_chunk-IsObserver o (b ∷ []) h)
            (ap is_unobserved (take_chunk-outcome o (b ∷ [])) ∙ u) q in
        rw (c, take_chunk-cons o b part) (observe_bytes-part o b p u n ∙ ih)
  ]

  end_line-IsObserver : (o : SseObserver) → IsObserver (end_line event_type o)
  unfolding end_line
  end_line-IsObserver o = record { bounded = omega arith }

  -- The loop, for at least as many rounds as there are bytes, reads them one after another.
  loop_bytes :
      (n : ℕ) (p : List ℕ) (o : SseObserver)
      → length p ≤ n
      → IsObserver o
      → is_unobserved o.outcome ≡ true
      → observe_loop event_type n p o ≡ observe_bytes o p
  unfolding observe_loop
  loop_bytes zero [] o h i u = unfold observe_bytes in refl
  loop_bytes zero (b ∷ p) o h i u = absurd (omega arith)
  loop_bytes (suc n) [] o h i u = unfold observe_bytes in refl
  loop_bytes (suc n) (b ∷ p) o h i u = elim (Option-cases (cut_line (b ∷ p))) [
    | inl e ↦ rw (e, observe_loop) (sym (part_bytes (b ∷ p) o i u e))
    | inr ((chunk, rest), e) ↦
        let ended = end_line event_type (take_chunk o chunk) in
        let short = length-cut_line (b ∷ p) chunk rest e in
        let j = end_line-IsObserver (take_chunk o chunk) in
        let whole = line_bytes (b ∷ p) chunk rest o i u e in
        elim (Bool-cases (is_unobserved ended.outcome)) [
          | inl t ↦ rw (e, observe_loop, t) (loop_bytes n rest ended (omega arith) j t ∙ sym whole)
          | inr t ↦ rw (e, observe_loop, t) (sym (whole ∙ observed_bytes rest ended t))
        ]
  ]

  -- Observe, which looks for the ends of lines, reads a stream as the byte-by-byte machine does, so
  -- its rounds are enough and it never keeps more of a line than the bound.
  observe-observe_bytes :
      (o : SseObserver) (p : List ℕ) → IsObserver o → observe event_type o p ≡ observe_bytes o p
  unfolding observe
  observe-observe_bytes o p h = elim (Bool-cases (is_unobserved o.outcome)) [
    | inl u ↦ rw u (loop_bytes (length p) p o (omega arith) h u)
    | inr u ↦ rw u (sym (observed_bytes p o u))
  ]

  observe_byte-IsObserver : (o : SseObserver) (b : ℕ) → IsObserver o → IsObserver (observe_byte o b)
  unfolding observe_byte
  observe_byte-IsObserver o b h = elim (Bool-cases (is_unobserved o.outcome)) [
    | inr u ↦ rw u h
    | inl u ↦ elim (Bool-cases (eqb b 10)) [
      | inl n ↦ rw (u, n) (end_line-IsObserver o)
      | inr n ↦ rw (u, n) (take_chunk-IsObserver o (b ∷ []) h)
    ]
  ]

  observe_bytes-IsObserver :
      (p : List ℕ) (o : SseObserver) → IsObserver o → IsObserver (observe_bytes o p)
  unfolding observe_bytes
  observe_bytes-IsObserver [] o h = h
  observe_bytes-IsObserver (b ∷ p) o h =
      observe_bytes-IsObserver p (observe_byte o b) (observe_byte-IsObserver o b h)

  -- The parts of a stream, one call of Observe for each.
  abbrev pub observe_parts : List (List ℕ) → SseObserver → SseObserver
  observe_parts [] o = o
  observe_parts (p ∷ ps) o = observe_parts ps (observe event_type o p)

  -- The gateway's observer ends in the same state however a stream is cut into the pieces that it is
  -- shown: as on the whole stream at once, from any state whose kept line is within the bound.
  pub observe-parts :
      (ps : List (List ℕ)) (o : SseObserver)
      → length o.line ≤ max_observed_sse_line
      → observe_parts ps o ≡ observe event_type o (whole ps)
  observe-parts ps o h = parts ps o (record { bounded = h })
    where
      bytes :
          (ps : List (List ℕ)) (o : SseObserver)
          → IsObserver o
          → observe_parts ps o ≡ observe_bytes o (whole ps)
      bytes [] o h = unfold observe_bytes in refl
      bytes (p ∷ ps) o h =
          rw (observe-observe_bytes o p h, observe_bytes-append p (whole ps) o)
            (bytes ps (observe_bytes o p) (observe_bytes-IsObserver p o h))

      parts :
          (ps : List (List ℕ)) (o : SseObserver)
          → IsObserver o
          → observe_parts ps o ≡ observe event_type o (whole ps)
      parts ps o h = bytes ps o h ∙ sym (observe-observe_bytes o (whole ps) h)
