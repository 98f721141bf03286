-- ===== src/Antigravity/Continuity/Turns.antt =====
-- The loop of internal/antigravity/session.go over the calls of the current turn: the stored records
-- that they are found under.
use codex_account_pool.Prelude.{
  ℕ, suc, ◌+◌, ◌≤◌, String, true, false, ◌≡◌, refl, ◌⊎◌, inl, inr, Option, none, some, List, [],
  ◌∷◌, lookup, insert, lookup-insert, lookup-erase, arith, eq_iff, All, Bool-cases, Option-cases,
  subst, some-injective,
}
use codex_account_pool.Antigravity.Arguments.{Encoding, Args, text}
use codex_account_pool.Antigravity.Replay.{
  CallRecord, SessionRecord, ReplayCache, touched, replay_call, lookup_call_identity,
  touch_session_locked, touch_found, session_key,
}
use codex_account_pool.Antigravity.Continuity.{
  Item, Agreed, agree, is_router_call, current_calls, found,
}

unfoldable pub route_of : Option CallRecord → Option (String × String)
route_of none = none
route_of (some r) = some (r.session, r.model)

-- The session and the model of a stored call.
abbrev pub stored : String → ReplayCache → Option (String × String)
stored id c = route_of (lookup id c.calls)

abbrev pub IsKept : String → ReplayCache → ReplayCache → Type 0
IsKept id c d = (stored id d ≡ stored id c) ⊎ (stored id d ≡ none)

calls-touch :
    (c : ReplayCache) (key : String) (now : ℕ) (o : Option SessionRecord)
    → (touch_found c key now o).calls ≡ c.calls
unfolding touch_found
calls-touch c key now none = refl
calls-touch c key now (some r) = refl

module _ (json : Encoding) (c : ReplayCache) (id name : String) (args : Args json) (now : ℕ) where
  stored-replay_call :
      (j : String) (o : Option CallRecord)
      → lookup id c.calls ≡ o
      → IsKept j c (replay_call json c id name args now o).1
  unfolding replay_call route_of
  stored-replay_call j none e = inl refl
  stored-replay_call j (some r) e =
      let r' : CallRecord = record r { times = touched c now r.times } in
      let d : ReplayCache = record c { calls = insert id r' c.calls } in
      let k = session_key r.model r.session in
      let t = calls-touch d k now (lookup k c.sessions) in
      unfold touch_session_locked in
      ground (arith, t, e, lookup-insert id j r' c.calls, lookup-erase id j c.calls, eq_iff id j)

  found-replay_call :
      (o : Option CallRecord) (r : CallRecord)
      → (replay_call json c id name args now o).0 ≡ some r
      → route_of o ≡ some (r.session, r.model)
  unfolding replay_call route_of
  found-replay_call none r e = ground arith
  found-replay_call (some s) r e = ground arith

-- A text of a record is not set, or is the one of the route.
abbrev pub IsFor : String → String → Type 0
IsFor s t = (s ≡ "") ⊎ (s ≡ t)

-- What the loop has found holds of what it ends with.
pub record Follows (a b : Agreed) : Type 0 where
  pub session : IsFor a.session b.session
  pub model : IsFor a.wire_model b.wire_model
  pub calls : a.calls ≤ b.calls

Follows-refl : (a : Agreed) → Follows a a
Follows-refl a = record { session = inr refl; model = inr refl; calls = omega arith }

Follows-trans : {a b c : Agreed} → Follows a b → Follows b c → Follows a c
Follows-trans {a} {b} {c} f g = record {
  session = ground (arith, f.session, g.session);
  model = ground (arith, f.model, g.model);
  calls = omega (arith, f.calls, g.calls);
}

-- No router call, or one that is stored with the session and the model of the route.
abbrev pub IsBacked : ReplayCache → String → String → Item → Type 0
IsBacked c session model x =
    (is_router_call x ≡ false)
    ⊎ ((s : String) × (m : String) × ((stored x.call_id c ≡ some (s, m))
          × (IsFor s session × IsFor m model)))

record Agrees (a : Agreed) (r : CallRecord) (b : Agreed) : Type 0 where
  pub session : r.session ≡ b.session
  pub model : r.model ≡ b.wire_model
  pub follows : Follows a b
  pub counted : b.calls ≡ a.calls + 1

agree-Agrees :
    (a b : Agreed) (o : Option CallRecord)
    → agree a o ≡ some b
    → (r : CallRecord) × ((o ≡ some r) × Agrees a r b)
unfolding agree
agree-Agrees a b none e = ground arith
agree-Agrees a b (some r) e = (
  r,
  (
    refl,
    record {
      session = ground (arith, eq_iff a.session "", eq_iff r.session a.session);
      model = ground arith;
      follows = record {
        session = ground (arith, eq_iff a.session "", eq_iff r.session a.session);
        model = ground (arith, eq_iff a.wire_model "", eq_iff r.model a.wire_model);
        calls = ground arith;
      };
      counted = ground arith;
    },
  ),
)

IsFor-trans : {r s t : String} → IsFor r s → IsFor s t → IsFor r t
IsFor-trans f g = ground (arith, f, g)

-- The calls that a later state of the cache backs were backed before.
Backed_kept :
    (c d : ReplayCache) (s m : String) (x : Item)
    → IsKept x.call_id c d
    → IsBacked d s m x
    → IsBacked c s m x
Backed_kept c d s m x k (inl t) = inl t
Backed_kept c d s m x k (inr (s', m', (e, f))) = inr (s', m', (ground (arith, k, e), f))

every_kept :
    (c d : ReplayCache) (s m : String)
    → ((j : String) → IsKept j c d)
    → (xs : List Item) → All (IsBacked d s m) xs
    → All (IsBacked c s m) xs
every_kept c d s m k [] h = tt
every_kept c d s m k (x ∷ xs) h =
    (Backed_kept c d s m x (k x.call_id) h.0, every_kept c d s m k xs h.1)

-- What a loop over the current turn that ends has found.
pub record Turn (c : ReplayCache) (a f : Agreed) (xs : List Item) : Type 0 where
  pub follows : Follows a f
  pub backed : All (IsBacked c f.session f.wire_model) xs
  pub counted : All (λ x. is_router_call x ≡ true → a.calls + 1 ≤ f.calls) xs

Turn-skip :
    {c : ReplayCache} {a f : Agreed} {xs : List Item} (x : Item)
    → is_router_call x ≡ false
    → Turn c a f xs
    → Turn c a f (x ∷ xs)
Turn-skip x t h = record {
  follows = h.follows;
  backed = (inl t, h.backed);
  counted = (λ u. ground arith, h.counted);
}

Turn-earlier :
    (m n k : ℕ)
    → n ≡ m + 1
    → (xs : List Item) → All (λ x. is_router_call x ≡ true → n + 1 ≤ k) xs
    → All (λ x. is_router_call x ≡ true → m + 1 ≤ k) xs
Turn-earlier m n k e [] h = tt
Turn-earlier m n k e (x ∷ xs) h = (λ u. omega (arith, h.0 u, e), Turn-earlier m n k e xs h.1)

module _ (json : Encoding) (now : ℕ → ℕ) where
  found-IsKept :
      (c : ReplayCache) (i : ℕ) (x : Item) (j : String) → IsKept j c (found json now c i x).1
  unfolding lookup_call_identity
  found-IsKept c i x j =
      stored-replay_call json c x.call_id x.name (text x.arguments) (now i) j
        (lookup x.call_id c.calls) refl

  found-stored :
      (c : ReplayCache) (i : ℕ) (x : Item) (r : CallRecord)
      → (found json now c i x).0 ≡ some r
      → stored x.call_id c ≡ some (r.session, r.model)
  unfolding lookup_call_identity
  found-stored c i x r e =
      found-replay_call json c x.call_id x.name (text x.arguments) (now i)
        (lookup x.call_id c.calls) r e

  found-Backed :
      (c : ReplayCache) (i : ℕ) (x : Item) (a b f : Agreed)
      → agree a (found json now c i x).0 ≡ some b
      → Follows b f
      → Follows a f × ((a.calls + 1 ≤ f.calls) × IsBacked c f.session f.wire_model x)
  found-Backed c i x a b f e g =
      let (r, (o, h)) = agree-Agrees a b (found json now c i x).0 e in
      (
        Follows-trans h.follows g,
        (
          omega (arith, h.counted, g.calls),
          inr (
            r.session,
            r.model,
            (
              found-stored c i x r o,
              (IsFor-trans (inr h.session) g.session, IsFor-trans (inr h.model) g.model),
            ),
          ),
        ),
      )

  Turn-call :
      (c : ReplayCache) (i : ℕ) (x : Item) (a b f : Agreed) (xs : List Item)
      → agree a (found json now c i x).0 ≡ some b
      → Turn (found json now c i x).1 b f xs
      → Turn c a f (x ∷ xs)
  Turn-call c i x a b f xs e h =
      let (g, (n, k)) = found-Backed c i x a b f e h.follows in
      let (r, (o, q)) = agree-Agrees a b (found json now c i x).0 e in
      let d = (found json now c i x).1 in
      record {
        follows = g;
        backed = (k, every_kept c d f.session f.wire_model (found-IsKept c i x) xs h.backed);
        counted = (λ u. n, Turn-earlier a.calls b.calls f.calls q.counted xs h.counted);
      }

  pub current_calls-Turn :
      (c : ReplayCache) (i : ℕ) (a f : Agreed) (xs : List Item)
      → (current_calls json now c i a xs).0 ≡ some f
      → Turn c a f xs
  unfolding current_calls
  current_calls-Turn c i a f [] = λ e.
      subst (λ b. Turn c a b []) (some-injective e)
        (record { follows = Follows-refl a; backed = tt; counted = tt })
  current_calls-Turn c i a f (x ∷ xs) = elim (Bool-cases (is_router_call x)) [
    | inr t ↦ rw (t, current_calls) (λ e. Turn-skip x t (current_calls-Turn c i a f xs e))
    | inl t ↦
        rw (t, current_calls)
          (elim (Option-cases (agree a (found json now c i x).0)) [
            | inl g ↦ rw g (λ e. ground arith)
            | inr (b, g) ↦ rw g (λ e.
                Turn-call c i x a b f xs g
                  (current_calls-Turn (found json now c i x).1 (suc i) b f xs e))
          ])
  ]
