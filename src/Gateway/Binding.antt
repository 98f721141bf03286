-- ===== src/Gateway/Binding.antt =====
-- The binding of a request's context to a response in internal/gateway/gateway.go (requestTrace).
use codex_account_pool.Prelude.{
  ℕ, String, Bool, true, false, ◌≡◌, refl, ap, ◌∙◌, ◌≢◌, ◌⊎◌, inl, inr, Option, none, some, List,
  [], ◌∷◌, arith, eq_iff, subst, sym, Bool-cases, Option-cases,
}
use codex_account_pool.ContextObs.{RequestMetrics, Tracker, ResponseObserver, bind_response, Event}
use codex_account_pool.Gateway.Trace.{
  RequestTrace, ReadEnd, next_attempt, set_auth, set_profile_ref, set_status, set_error_category,
  enable_sse, set_context_request, note_downstream_write, note_hijacked, note_abort, bound_ref,
  bind_ref, note_body_eof, note_upstream_read_error, observe_upstream_bytes, read_body, more,
  at_end, failed,
}

-- What is done with the trace of a request.
pub data Operation : Type 0 where
  attempted : Operation
  authorized : String → Operation
  switched_to : String → Operation
  answered : ℕ → String → Operation
  categorized : String → Operation
  streamed : Bool → Operation
  analyzed_as : RequestMetrics → Bool → Bool → Operation
  wrote : ℕ → Bool → Operation
  hijacked : Operation
  aborted : Operation
  body_read : List ℕ → ReadEnd → ℕ → Operation

module _ (event_type : List ℕ → Option (List ℕ)) (fingerprint : Option (String → String))
    (decode : List ℕ → Option Event) where
  unfoldable pub step : RequestTrace → Tracker → Operation → RequestTrace × Tracker
  step t k attempted = ((next_attempt t).1, k)
  step t k (authorized ref) = (set_auth t ref, k)
  step t k (switched_to ref) = (set_profile_ref t ref, k)
  step t k (answered code origin) = (set_status t code origin, k)
  step t k (categorized category) = (set_error_category t category, k)
  step t k (streamed keyed) = (enable_sse t keyed, k)
  step t k (analyzed_as m a b) = (set_context_request t m a b, k)
  step t k (wrote n f) = (note_downstream_write t n f, k)
  step t k hijacked = (note_hijacked t, k)
  step t k aborted = (note_abort t, k)
  step t k (body_read p e now) = read_body event_type fingerprint decode t k p e now

  unfoldable pub run : RequestTrace → Tracker → List Operation → RequestTrace × Tracker
  run t k [] = (t, k)
  run t k (o ∷ os) = let r = step t k o in run r.0 r.1 os

-- The response that the trace knows when its body has ended, which its analyzed request can be bound
-- to.
abbrev pub IsReady : RequestTrace → String → Type 0
IsReady t ref =
    (o : ResponseObserver) × ((t.context_response ≡ some o)
      × (o.metrics.response_ref ≡ ref)
      × (ref ≢ "")
      × (t.tracked ≡ true)
      × (t.analyzed ≡ true))

-- There is no observer of the response, no reference, no tracker or no analysis.
abbrev pub IsUnready : RequestTrace → Type 0
IsUnready t =
    (t.context_response ≡ none)
    ⊎ (t.tracked ≡ false)
    ⊎ (t.analyzed ≡ false)
    ⊎ ((o : ResponseObserver) × ((t.context_response ≡ some o) × (o.metrics.response_ref ≡ "")))

module _ (event_type : List ℕ → Option (List ℕ)) (fingerprint : Option (String → String))
    (decode : List ℕ → Option Event) where
  -- The tracker after the operations on an unbound trace: at the first end of the body at which a
  -- response is known, the request that the trace has then is bound to it, and nothing else happens.
  abbrev pub IsBoundBy : RequestTrace → Tracker → List Operation → Tracker → Type 0
  IsBoundBy t k [] k' = k' ≡ k
  IsBoundBy t k (body_read p at_end now ∷ os) k' =
      let u = observe_upstream_bytes event_type fingerprint decode t p in
      ((ref : String) × (IsReady u ref × (k' ≡ bind_response k u.context_request ref now)))
      ⊎ (IsUnready u
          × IsBoundBy (step event_type fingerprint decode t k (body_read p at_end now)).0 k os k')
  IsBoundBy t k (body_read p more now ∷ os) k' =
      IsBoundBy (step event_type fingerprint decode t k (body_read p more now)).0 k os k'
  IsBoundBy t k (body_read p failed now ∷ os) k' =
      IsBoundBy (step event_type fingerprint decode t k (body_read p failed now)).0 k os k'
  IsBoundBy t k (attempted ∷ os) k' = IsBoundBy (next_attempt t).1 k os k'
  IsBoundBy t k (authorized ref ∷ os) k' = IsBoundBy (set_auth t ref) k os k'
  IsBoundBy t k (switched_to ref ∷ os) k' = IsBoundBy (set_profile_ref t ref) k os k'
  IsBoundBy t k (answered code origin ∷ os) k' = IsBoundBy (set_status t code origin) k os k'
  IsBoundBy t k (categorized category ∷ os) k' = IsBoundBy (set_error_category t category) k os k'
  IsBoundBy t k (streamed keyed ∷ os) k' = IsBoundBy (enable_sse t keyed) k os k'
  IsBoundBy t k (analyzed_as m a b ∷ os) k' = IsBoundBy (set_context_request t m a b) k os k'
  IsBoundBy t k (wrote n f ∷ os) k' = IsBoundBy (note_downstream_write t n f) k os k'
  IsBoundBy t k (hijacked ∷ os) k' = IsBoundBy (note_hijacked t) k os k'
  IsBoundBy t k (aborted ∷ os) k' = IsBoundBy (note_abort t) k os k'

bound_ref-IsReady :
    (t : RequestTrace) (o : Option ResponseObserver) (ref : String)
    → t.context_response ≡ o
    → bound_ref t o ≡ some ref
    → IsReady t ref
unfolding bound_ref
bound_ref-IsReady t none ref same e = ground arith
bound_ref-IsReady t (some o) ref same e = (
  o,
  (
    same,
    ground (arith, e),
    (λ z. ground (arith, eq_iff o.metrics.response_ref "", e)),
    ground (arith, e),
    ground (arith, e),
  ),
)

bound_ref-IsUnready :
    (t : RequestTrace) (o : Option ResponseObserver)
    → t.context_bound ≡ false
    → t.context_response ≡ o
    → bound_ref t o ≡ none
    → IsUnready t
unfolding bound_ref
bound_ref-IsUnready t none b same = λ e. inl same
bound_ref-IsUnready t (some o) b same = elim (Bool-cases t.tracked) [
  | inr n ↦ λ e. inr (inl n)
  | inl y ↦ elim (Bool-cases t.analyzed) [
    | inr n ↦ λ e. inr (inr (inl n))
    | inl z ↦ λ e. inr (inr (inr (o, (same, ground (arith, eq_iff o.metrics.response_ref "", e)))))
  ]
]

bound_ref-bound :
    (t : RequestTrace) (o : Option ResponseObserver) → t.context_bound ≡ true → bound_ref t o ≡ none
unfolding bound_ref
bound_ref-bound t none b = refl
bound_ref-bound t (some o) b = ground (arith, b)

-- What the end of the body leaves, by the reference that it binds to.
note_body_eof-bind_ref :
    (t : RequestTrace) (k : Tracker) (now : ℕ) (o : Option String)
    → bound_ref t t.context_response ≡ o
    → note_body_eof t k now ≡ bind_ref (record t { at_eof = true }) k now o
unfolding note_body_eof
note_body_eof-bind_ref t k now o e = ap (bind_ref (record t { at_eof = true }) k now) e

-- A bound trace binds nothing more.
note_body_eof-bound :
    (t : RequestTrace) (k : Tracker) (now : ℕ)
    → t.context_bound ≡ true
    → ((note_body_eof t k now).1 ≡ k) × ((note_body_eof t k now).0.context_bound ≡ true)
unfolding bind_ref
note_body_eof-bound t k now b =
    let e = note_body_eof-bind_ref t k now none (bound_ref-bound t t.context_response b) in
    (ap (λ x. x.1) e, ap (λ x. x.0.context_bound) e ∙ b)

module _ (event_type : List ℕ → Option (List ℕ)) (fingerprint : Option (String → String))
    (decode : List ℕ → Option Event) where
  step_bound :
      (t : RequestTrace) (k : Tracker) (o : Operation)
      → t.context_bound ≡ true
      → let r = step event_type fingerprint decode t k o in (r.1 ≡ k) × (r.0.context_bound ≡ true)
  unfolding step next_attempt set_auth set_profile_ref set_status set_error_category enable_sse
      set_context_request note_downstream_write note_hijacked note_abort read_body
      observe_upstream_bytes note_upstream_read_error
  step_bound t k attempted b = (refl, b)
  step_bound t k (authorized ref) b = (refl, ground (arith, b))
  step_bound t k (switched_to ref) b = (refl, b)
  step_bound t k (answered code origin) b = (refl, b)
  step_bound t k (categorized category) b = (refl, ground (arith, b))
  step_bound t k (streamed keyed) b = (refl, b)
  step_bound t k (analyzed_as m a c) b = (refl, b)
  step_bound t k (wrote n f) b = (refl, b)
  step_bound t k hijacked b = (refl, b)
  step_bound t k aborted b = (refl, ground (arith, b))
  step_bound t k (body_read p more now) b = (refl, b)
  step_bound t k (body_read p failed now) b = (refl, b)
  step_bound t k (body_read p at_end now) b =
      note_body_eof-bound (observe_upstream_bytes event_type fingerprint decode t p) k now b

  run_bound :
      (t : RequestTrace) (k : Tracker) (os : List Operation)
      → t.context_bound ≡ true
      → (run event_type fingerprint decode t k os).1 ≡ k
  unfolding run
  run_bound t k [] b = refl
  run_bound t k (o ∷ os) b =
      let r = step event_type fingerprint decode t k o in
      let h = step_bound t k o b in run_bound r.0 r.1 os h.1 ∙ h.0

  -- Whatever is done with the trace of a request, in any order: the first time that its body ends
  -- while the request has been analyzed, there is a tracker and the response has told a reference, the
  -- tracker binds the request that the trace has then to that reference. Nothing else, before or
  -- after, changes the tracker.
  pub run-IsBoundBy :
      (t : RequestTrace) (k : Tracker) (os : List Operation)
      → t.context_bound ≡ false
      → IsBoundBy event_type fingerprint decode t k os (run event_type fingerprint decode t k os).1
  unfolding run step next_attempt set_auth set_profile_ref set_status set_error_category enable_sse
      set_context_request note_downstream_write note_hijacked note_abort read_body
      observe_upstream_bytes note_upstream_read_error bind_ref
  run-IsBoundBy t k [] b = refl
  run-IsBoundBy t k (attempted ∷ os) b = run-IsBoundBy (next_attempt t).1 k os b
  run-IsBoundBy t k (authorized ref ∷ os) b =
      run-IsBoundBy (set_auth t ref) k os (ground (arith, b))
  run-IsBoundBy t k (switched_to ref ∷ os) b = run-IsBoundBy (set_profile_ref t ref) k os b
  run-IsBoundBy t k (answered code origin ∷ os) b = run-IsBoundBy (set_status t code origin) k os b
  run-IsBoundBy t k (categorized category ∷ os) b =
      run-IsBoundBy (set_error_category t category) k os (ground (arith, b))
  run-IsBoundBy t k (streamed keyed ∷ os) b = run-IsBoundBy (enable_sse t keyed) k os b
  run-IsBoundBy t k (analyzed_as m a c ∷ os) b = run-IsBoundBy (set_context_request t m a c) k os b
  run-IsBoundBy t k (wrote n f ∷ os) b = run-IsBoundBy (note_downstream_write t n f) k os b
  run-IsBoundBy t k (hijacked ∷ os) b = run-IsBoundBy (note_hijacked t) k os b
  run-IsBoundBy t k (aborted ∷ os) b = run-IsBoundBy (note_abort t) k os (ground (arith, b))
  run-IsBoundBy t k (body_read p more now ∷ os) b =
      run-IsBoundBy (observe_upstream_bytes event_type fingerprint decode t p) k os b
  run-IsBoundBy t k (body_read p failed now ∷ os) b =
      run-IsBoundBy
        (note_upstream_read_error (observe_upstream_bytes event_type fingerprint decode t p)) k os b
  run-IsBoundBy t k (body_read p at_end now ∷ os) b =
      let u = observe_upstream_bytes event_type fingerprint decode t p in
      let r = note_body_eof u k now in
      elim (Option-cases (bound_ref u u.context_response)) [
        | inr (ref, e) ↦
            let h = note_body_eof-bind_ref u k now (some ref) e in
            inl (
              ref,
              (
                bound_ref-IsReady u u.context_response ref refl e,
                run_bound r.0 r.1 os (ap (λ x. x.0.context_bound) h) ∙ ap (λ x. x.1) h,
              ),
            )
        | inl e ↦
            let h = note_body_eof-bind_ref u k now none e in
            inr (
              bound_ref-IsUnready u u.context_response b refl e,
              subst
                  (λ j.
                    IsBoundBy event_type fingerprint decode r.0 k os
                      (run event_type fingerprint decode r.0 j os).1)
                  (sym (ap (λ x. x.1) h))
                  (run-IsBoundBy r.0 k os (ap (λ x. x.0.context_bound) h ∙ b)),
            )
      ]
