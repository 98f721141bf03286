-- ===== src/Antigravity/Continuity/Routes.antt =====
-- The routes that resolveContinuity of internal/antigravity/session.go gives: the session and the
-- model of the calls of the current turn, and of what the request names itself.
use mathlib.Core.List.{reverse}
use mathlib.Core.Path.{subst₂}
use codex_account_pool.Prelude.{
  ℕ, suc, ◌+◌, ◌≤◌, String, true, ◌≡◌, refl, subst, ◌∙◌, inl, inr, Option, none, some, List, [],
  ◌∷◌, arith, eq_iff, Result, ok, All, Bool-cases, Option-cases, ltb, drop, take, same_codes,
}
use codex_account_pool.Antigravity.Arguments.{Encoding}
use codex_account_pool.Antigravity.Replay.{ReplayCache, CallRecord}
use codex_account_pool.Antigravity.Continuity.{
  Item, Payload, Route, Error, Agreed, is_router_call, current_calls, found, past_calls, past_route,
  same_continuity_model_family, continuity_model_family, resolve_continuity, turn_outcome,
  agreed_route, named_route, past_outcome, current_turn_start, has_tool_history,
  explicit_session_id, fresh_route,
}
use codex_account_pool.Antigravity.Continuity.Turns.{IsBacked, IsFor, Turn, current_calls-Turn}

same_codes_refl : (s : List ℕ) → same_codes s s ≡ true
unfolding same_codes
same_codes_refl [] = refl
same_codes_refl (c ∷ s) = ground (arith, same_codes_refl s)

same_family_refl : (model : String) → same_continuity_model_family model model ≡ true
unfolding same_continuity_model_family
same_family_refl model = same_codes_refl (continuity_model_family model)

-- A route is of the session that the request names, if it names one, and of the requested family.
abbrev pub IsAsked : String → String → Route → Type 0
IsAsked explicit requested r =
    IsFor explicit r.session × (same_continuity_model_family requested r.wire_model ≡ true)

-- Before the first call.
abbrev unset : String → Agreed
unset session = record { session = session; wire_model = ""; calls = 0 }

module _ (explicit requested : String) where
  past_route-IsAsked :
      (o : Option CallRecord) (r : Route)
      → past_route explicit requested o ≡ some (ok r)
      → IsAsked explicit requested r
  unfolding past_route
  past_route-IsAsked none r e = ground arith
  past_route-IsAsked (some s) r e = ground (arith, eq_iff explicit "", eq_iff s.session explicit)

  named_route-IsAsked :
      (o : Option (Result Error Route)) (r : Route)
      → ((t : Route) → o ≡ some (ok t) → IsAsked explicit requested t)
      → named_route explicit requested o ≡ ok r
      → IsAsked explicit requested r
  unfolding named_route
  named_route-IsAsked none r h e = ground (arith, eq_iff explicit "", same_family_refl requested)
  named_route-IsAsked (some s) r h e = h r (ground arith)

  agreed_route-IsAsked :
      (a : Agreed) (r : Route)
      → IsFor explicit a.session
      → agreed_route requested a ≡ ok r
      → IsAsked explicit requested r
  unfolding agreed_route
  agreed_route-IsAsked a r f e = ground (arith, f)

  agreed_route-agrees :
      (a : Agreed) (r : Route)
      → agreed_route requested a ≡ ok r
      → (a.session ≡ r.session) × (a.wire_model ≡ r.wire_model)
  unfolding agreed_route
  agreed_route-agrees a r e = (ground arith, ground arith)

  module _ (json : Encoding) (now : ℕ → ℕ) where
    past_calls-IsAsked :
        (c : ReplayCache) (i : ℕ) (xs : List Item) (r : Route)
        → (past_calls json now explicit requested c i xs).0 ≡ some (ok r)
        → IsAsked explicit requested r
    unfolding past_calls
    past_calls-IsAsked c i [] r = λ e. ground arith
    past_calls-IsAsked c i (x ∷ xs) r = elim (Bool-cases (is_router_call x)) [
      | inr t ↦ rw (t, past_calls) (past_calls-IsAsked c i xs r)
      | inl t ↦
          rw (t, past_calls)
            (elim (Option-cases (past_route explicit requested (found json now c i x).0)) [
              | inl g ↦ rw g (past_calls-IsAsked (found json now c i x).1 (suc i) xs r)
              | inr (s, g) ↦ rw g (λ e. past_route-IsAsked (found json now c i x).0 r (g ∙ e))
            ])
    ]

    past_outcome-IsAsked :
        (c : ReplayCache) (past : List Item) (r : Route)
        → (past_outcome json now explicit requested c past).0 ≡ ok r
        → IsAsked explicit requested r
    unfolding past_outcome
    past_outcome-IsAsked c past r e =
        named_route-IsAsked (past_calls json now explicit requested c 0 (reverse past)).0 r
          (past_calls-IsAsked c 0 (reverse past)) e

    turn_outcome-IsAsked :
        (c : ReplayCache) (past : List Item) (o : Option Agreed) (r : Route)
        → ((a : Agreed) → o ≡ some a → IsFor explicit a.session)
        → (turn_outcome json now explicit requested past o c).0 ≡ ok r
        → IsAsked explicit requested r
    unfolding turn_outcome
    turn_outcome-IsAsked c past none r h = λ e. ground arith
    turn_outcome-IsAsked c past (some a) r h = elim (Bool-cases (ltb 0 a.calls)) [
      | inl t ↦ rw t (agreed_route-IsAsked a r (h a refl))
      | inr t ↦ rw t (past_outcome-IsAsked c past r)
    ]

    none_counted :
        (c : ReplayCache) (s m : String) (k : ℕ) (xs : List Item)
        → k ≡ 0
        → All (λ x. is_router_call x ≡ true → 0 + 1 ≤ k) xs
        → All (IsBacked c s m) xs
    none_counted c s m k [] z h = tt
    none_counted c s m k (x ∷ xs) z h = (
      elim (Bool-cases (is_router_call x)) [ inl t ↦ ground (arith, z, h.0 t) | inr t ↦ inl t ],
      none_counted c s m k xs z h.1,
    )

    turn_outcome-Backed :
        (c d : ReplayCache) (past xs : List Item) (o : Option Agreed) (r : Route)
        → ((a : Agreed) → o ≡ some a → Turn c (unset explicit) a xs)
        → (turn_outcome json now explicit requested past o d).0 ≡ ok r
        → All (IsBacked c r.session r.wire_model) xs
    unfolding turn_outcome agreed_route
    turn_outcome-Backed c d past xs none r h = λ e. ground arith
    turn_outcome-Backed c d past xs (some a) r h = elim (Bool-cases (ltb 0 a.calls)) [
      | inl t ↦ rw t (λ e.
          let f = agreed_route-agrees a r e in
          subst₂ (λ s m. All (IsBacked c s m) xs) f.0 f.1 (h a refl).backed)
      | inr t ↦
          λ e. none_counted c r.session r.wire_model a.calls xs (ground arith) (h a refl).counted
    ]

module _ (json : Encoding) (now : ℕ → ℕ) (digest : String → ℕ) (p : Payload) (requested : String)
    (random : Option ℕ) (c : ReplayCache) (r : Route) where
  fresh_route-IsAsked :
      IsAsked (explicit_session_id digest p) requested (fresh_route digest p requested random)
  unfolding fresh_route
  fresh_route-IsAsked =
      let s = explicit_session_id digest p in
      ground (arith, eq_iff s "", same_family_refl requested)

  -- A route that a request is given is of the session that the request names, if it names one, and
  -- its model is of the family of the requested model.
  pub resolve_continuity-IsAsked :
      (resolve_continuity json now digest p requested random c).0 ≡ ok r
      → IsAsked (explicit_session_id digest p) requested r
  unfolding resolve_continuity
  resolve_continuity-IsAsked =
      let s = explicit_session_id digest p in
      let start = current_turn_start p.input in
      let turn = current_calls json now c 0 (unset s) (drop start p.input) in
      elim (Bool-cases (has_tool_history p.input)) [
        | inr t ↦ rw t (λ e. subst (IsAsked s requested) (ground (arith, e)) fresh_route-IsAsked)
        | inl t ↦ rw t (
            turn_outcome-IsAsked s requested json now turn.1 (take start p.input) turn.0 r (λ a e.
              (current_calls-Turn json now c 0 (unset s) a (drop start p.input) e).follows.session))
      ]

  -- A request with a history of calls is given a route only if each router call of its current turn
  -- is stored, with the session and the model of the route where the record has one.
  pub resolve_continuity-IsBacked :
      has_tool_history p.input ≡ true
      → (resolve_continuity json now digest p requested random c).0 ≡ ok r
      → All (IsBacked c r.session r.wire_model) (drop (current_turn_start p.input) p.input)
  unfolding resolve_continuity
  resolve_continuity-IsBacked t =
      let s = explicit_session_id digest p in
      let start = current_turn_start p.input in
      let turn = current_calls json now c 0 (unset s) (drop start p.input) in
      rw t (
        turn_outcome-Backed s requested json now c turn.1 (take start p.input) (drop start p.input)
          turn.0 r (λ a. current_calls-Turn json now c 0 (unset s) a (drop start p.input)))
