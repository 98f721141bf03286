-- ===== src/ContextObs/Stream.antt =====
-- The reader of event streams of internal/contextobs/response.go reads whole lines.
use codex_account_pool.Prelude.{
  ℕ, String, true, false, Option, List, [], ◌∷◌, ◌++◌, ◌≡◌, refl, sym, ap, ◌∙◌, length, leb, eqb,
  if◌then◌else◌, All, arith, length-append,
}
use mathlib.Core.List.{append_assoc, append-nil}
use codex_account_pool.ContextObs.{
  Event, ResponseMetrics, ResponseObserver, read_line, read_byte, read, new_response_observer,
  no_metrics,
}

-- The lines of a stream, each with its newline.
abbrev pub written : List (List ℕ) → List ℕ
written [] = []
written (l ∷ ls) = l ++ (10 ∷ written ls)

abbrev pub IsLine : List ℕ → Type 0
IsLine = All (λ b. eqb b 10 ≡ false)

module _ (fingerprint : Option (String → String)) (decode : List ℕ → Option Event) where
  -- Every line within the bound is read, a longer one is passed over.
  abbrev pub read_lines : ℕ → List (List ℕ) → ResponseMetrics → ResponseMetrics
  read_lines max [] m = m
  read_lines max (l ∷ ls) m =
      read_lines max ls (if leb (length l) max then read_line fingerprint decode l m else m)

  read-append :
      (p q : List ℕ) (o : ResponseObserver)
      → read fingerprint decode o (p ++ q) ≡ read fingerprint decode (read fingerprint decode o p) q
  unfolding read
  read-append [] q o = refl
  read-append (b ∷ p) q o = read-append p q (read_byte fingerprint decode o b)

  -- A line whose start is too long, or is kept, before its newline comes.
  part : ResponseObserver → List ℕ → ResponseObserver
  part o l =
      if leb (length l) o.max_line
      then record o { line = l; discard = false }
      else record o { line = []; discard = true }

  read_byte-part :
      (o : ResponseObserver) (l : List ℕ) (b : ℕ)
      → eqb b 10 ≡ false
      → read_byte fingerprint decode (part o l) b ≡ part o (l ++ (b ∷ []))
  unfolding read_byte part
  read_byte-part o l b n = ground (arith, length-append l (b ∷ []))

  read-part :
      (o : ResponseObserver) (l m : List ℕ)
      → IsLine m
      → read fingerprint decode (part o l) m ≡ part o (l ++ m)
  unfolding read
  read-part o l [] h = rw (append-nil l) refl
  read-part o l (b ∷ m) h =
      rw (read_byte-part o l b h.0)
        (read-part o (l ++ (b ∷ [])) m h.1 ∙ ap (part o) (append_assoc l (b ∷ []) m))

  -- An observer between two lines.
  between : ResponseObserver → ResponseMetrics → ResponseObserver
  between o m = record o { line = []; discard = false; metrics = m }

  read_newline :
      (o : ResponseObserver) (m : ResponseMetrics) (l : List ℕ)
      → read_byte fingerprint decode (part (between o m) l) 10
        ≡ between o (if leb (length l) o.max_line then read_line fingerprint decode l m else m)
  unfolding read_byte part between
  read_newline o m l = ground arith

  part-empty : (o : ResponseObserver) (m : ResponseMetrics) → part (between o m) [] ≡ between o m
  unfolding part between
  part-empty o m = ground arith

  next_line :
      (o r s : ResponseObserver) (ls : List (List ℕ))
      → read_byte fingerprint decode o 10 ≡ r
      → read fingerprint decode r (written ls) ≡ s
      → read fingerprint decode o (10 ∷ written ls) ≡ s
  unfolding read
  next_line o r s ls e h =
      ap (λ (t : ResponseObserver). read fingerprint decode t (written ls)) e ∙ h

  read-written :
      (o : ResponseObserver) (m : ResponseMetrics) (ls : List (List ℕ))
      → All IsLine ls
      → read fingerprint decode (between o m) (written ls) ≡ between o (read_lines o.max_line ls m)
  unfolding read
  read-written o m [] h = refl
  read-written o m (l ∷ ls) h =
      let n = if leb (length l) o.max_line then read_line fingerprint decode l m else m in
      let start =
        ap (λ (r : ResponseObserver). read fingerprint decode r l) (sym (part-empty o m)) in
      let line = start ∙ read-part (between o m) [] l h.0 in
      rw (read-append l (10 ∷ written ls) (between o m), line)
        (next_line _ _ _ ls (read_newline o m l) (read-written o n ls h.1))

  -- A new observer that is shown a stream of lines, in two pieces cut at any byte, has read the lines
  -- one after another: each line within its bound, and none of the longer ones.
  pub read-lines :
      (max : ℕ) (ls : List (List ℕ)) (p q : List ℕ)
      → All IsLine ls
      → p ++ q ≡ written ls
      → let o = new_response_observer max in
        (read fingerprint decode (read fingerprint decode o p) q).metrics
        ≡ read_lines o.max_line ls no_metrics
  unfolding between
  read-lines max ls p q h e =
      let o = new_response_observer max in
      let fresh : between o no_metrics ≡ o = unfold between new_response_observer in refl in
      rw (← read-append p q o, e, ← fresh)
        (ap (λ (r : ResponseObserver). r.metrics) (read-written o no_metrics ls h))
