-- ===== src/Antigravity/Replay/Rebinding.antt =====
-- The one way to move a session to another account in internal/antigravity/replay.go: BindSession,
-- before the session has made a call.
use codex_account_pool.Prelude.{
  ℕ, String, Bool, false, not, ◌||◌, ◌≡◌, refl, ◌≢◌, ◌⊎◌, sym, ◌∙◌, inl, inr, Option, none, some,
  arith, eq_iff, eq_refl, Dict, lookup, insert, erase, lookup-insert, lookup-erase, ◌==◌,
  Bool-cases,
}
use codex_account_pool.Antigravity.Signature.{is_likely_real_thought_signature}
use codex_account_pool.Antigravity.Arguments.{Encoding, Args, matches_call_args}
use codex_account_pool.Antigravity.Replay.{
  ReplayEntry, CallRecord, SessionRecord, ReplayCache, is_live, session_key, bind_session_locked,
  bind_record, binds, persist_locked, sweep_locked, make_bindable, any_call, bind_made,
  ensure_capacity_locked, bind_session, session_profile, session_profile_of, invalidate_call,
  clear_session, clear_bound, touched, remember, lookup_signature, replay_signature, remember_call,
  replay_call, lookup_call_identity, replay_key, replay_entry, call_record,
}
use codex_account_pool.Antigravity.Replay.Sweep.{is_expired_session}
use codex_account_pool.Antigravity.Replay.Affinity.{
  Operation, remember_one_call, find_call, remember_signature, find_signature, bind, ask_profile,
  invalidate, clear, run, bound, profile_of, bound-persist, bound-touch, bound-bind, bound-sweep,
  bound-stored, bound-delete, bound-delete_self,
}

-- The account of the session under a key is kept or lost.
abbrev pub IsKept : String → ReplayCache → ReplayCache → Type 0
IsKept key c d = (bound key d ≡ bound key c) ⊎ (bound key d ≡ none)

module _ (key : String) (c : ReplayCache) (now : ℕ) where
  bound-replay_call :
      (json : Encoding) (id name : String) (args : Args json) (o : Option CallRecord)
      → bound key (replay_call json c id name args now o).1 ≡ bound key c
  unfolding replay_call bound
  bound-replay_call json id name args none = refl
  bound-replay_call json id name args (some r) =
      let r' : CallRecord = record r { times = touched c now r.times } in
      let h = bound-touch key (record c { calls = insert id r' c.calls }) r.model r.session now in
      let miss =
        not (r.name == name) || not (matches_call_args json r.args r.name r.original_args args) in
      elim (Bool-cases (is_live now r.times)) [
        | inl e ↦ rw e (elim (Bool-cases miss) [ inl t ↦ rw t refl | inr t ↦ rw t h ])
        | inr e ↦ rw e refl
      ]

  bound-replay_signature :
      (json : Encoding) (k m s : String) (o : Option ReplayEntry)
      → bound key (replay_signature json c k m s now o).1 ≡ bound key c
  unfolding replay_signature bound
  bound-replay_signature json k m s none = refl
  bound-replay_signature json k m s (some e) =
      let e' : ReplayEntry = record e { times = touched c now e.times } in
      let h = bound-touch key (record c { entries = insert k e' c.entries }) m s now in
      elim (Bool-cases (is_live now e.times)) [ inl t ↦ rw t h | inr t ↦ rw t refl ]

  bound-session_profile_of :
      (k : String) (o : Option SessionRecord) → IsKept key c (session_profile_of c k o now).1
  unfolding session_profile_of
  bound-session_profile_of k none = inl refl
  bound-session_profile_of k (some r) =
      ground (arith, eq_iff k key, bound-delete key k c, bound-delete_self key c)

clear_bound-kept :
    (key p k : String) (o : Option SessionRecord) (m : Dict SessionRecord)
    → (profile_of (lookup key (clear_bound p k o m)) ≡ profile_of (lookup key m))
      ⊎ (profile_of (lookup key (clear_bound p k o m)) ≡ none)
unfolding clear_bound
clear_bound-kept key p k none m = inl refl
clear_bound-kept key p k (some r) m =
    unfold profile_of in ground (arith, lookup-erase k key m, eq_iff k key)

bound-clear :
    (key : String) (c : ReplayCache) (p m s : String) (w : Bool)
    → IsKept key c (clear_session c p m s w)
unfolding clear_session bound
bound-clear key c p m s w =
    let k = session_key m s in
    let h = clear_bound-kept key p k (lookup k c.sessions) c.sessions in
    unfold persist_locked in ground arith

-- BindSession's session after the sweep.
abbrev pub IsMoved : String → ReplayCache → String → String → String → ReplayCache → Type 0
IsMoved key c q m s d =
    (session_key m s ≡ key) × (any_call m s c.calls ≡ false) × (bound key d ≡ some q)

bound-fresh :
    (key : String) (c : ReplayCache) (q m s : String) (now : ℕ)
    → session_key m s ≡ key
    → bound key c ≡ none
    → ((q == "") || ((m == "") || (s == ""))) ≡ false
    → bound key (bind_session_locked c q m s now) ≡ some q
unfolding bind_session_locked bound
bound-fresh key c q m s now same n g =
    let k = session_key m s in
    let r = bind_record c q m s now (lookup k c.sessions) in
    unfold profile_of binds bind_record in
    ground (arith, lookup-insert k key r c.sessions, eq_iff k key, eq_refl key)

bound-bind_made :
    (key : String) (c : ReplayCache) (q m s : String) (now : ℕ) (w : Bool)
    (o : Option SessionRecord)
    → bound key c ≢ none
    → ((q == "") || ((m == "") || (s == ""))) ≡ false
    → let d = (bind_made c q m s now w (make_bindable c q m s o)).1 in
      (bound key d ≡ bound key c) ⊎ IsMoved key c q m s d
unfolding bind_made make_bindable
bound-bind_made key c q m s now w none n g =
    inl (bound-persist key (bind_session_locked c q m s now) w ∙ bound-bind key c q m s now (inr n))
bound-bind_made key c q m s now w (some r) n g =
    let k = session_key m s in
    let d : ReplayCache = record c { sessions = erase k c.sessions } in
    elim (Bool-cases (r.profile == q)) [
      | inl t ↦ rw t (
          inl (
            bound-persist key (bind_session_locked c q m s now) w
            ∙ bound-bind key c q m s now (inr n)))
      | inr t ↦ rw t (elim (Bool-cases (any_call m s c.calls)) [
        | inl u ↦ rw u (inl refl)
        | inr u ↦ rw u (elim (Bool-cases (k == key)) [
          | inl x ↦
              let same : k ≡ key = (eq_iff k key).0 x in
              inr (
                same,
                refl,
                bound-persist key (bind_session_locked d q m s now) w
                    ∙ bound-fresh key d q m s now same
                        (unfold bound profile_of in ground (arith, lookup-erase k key c.sessions))
                        g,
              )
          | inr x ↦ inl (
              bound-persist key (bind_session_locked d q m s now) w
              ∙ bound-bind key d q m s now (inl (ground (arith, eq_iff k key)))
              ∙ unfold bound in ground (arith, lookup-erase k key c.sessions))
        ])
      ])
    ]

-- The operation is a BindSession that moves the session.
abbrev pub IsRebinding :
    {json : Encoding} → String → ReplayCache → Operation json → ReplayCache → Type 0
IsRebinding key swept (bind q m s) d = IsMoved key swept q m s d
IsRebinding key swept _ d = ⊥

bound-bind_session :
    (key : String) (c : ReplayCache) (q m s : String) (now : ℕ) (w : Bool)
    → bound key c ≢ none
    → is_expired_session now c.sessions key ≡ false
    → (bound key (bind_session c q m s now w).1 ≡ bound key c)
      ⊎ IsMoved key (sweep_locked c now) q m s (bind_session c q m s now w).1
unfolding bind_session
bound-bind_session key c q m s now w n e =
    let swept = sweep_locked c now in
    let keeps = bound-sweep key c now e in
    let blank = (q == "") || ((m == "") || (s == "")) in
    elim (Bool-cases blank) [
      | inl t ↦ rw t (inl refl)
      | inr t ↦
          rw t
            (elim (bound-bind_made key swept q m s now w (lookup (session_key m s) swept.sessions)
              (λ z. n (sym keeps ∙ z)) t) [ inl same ↦ inl (same ∙ keeps) | inr moved ↦ inr moved ])
    ]

bound-remember :
    (key : String) (json : Encoding) (c : ReplayCache) (p m s n : String) (args : Args json)
    (sig : String) (now : ℕ) (w : Bool)
    → bound key c ≢ none
    → is_expired_session now c.sessions key ≡ false
    → IsKept key c (remember json c p m s n args sig now w).1
unfolding remember
bound-remember key json c p m s n args sig now w b e =
    let room = ensure_capacity_locked (sweep_locked c now) (session_key m s) in
    let k = replay_key json p m s n args in
    let stored : ReplayCache = record room {
      entries = insert k (replay_entry json c p m s n args sig now) room.entries;
    } in
    elim (Bool-cases (is_likely_real_thought_signature sig)) [
      | inl t ↦ rw t (bound-stored key c stored p m s now w b e refl)
      | inr t ↦ rw t (inl refl)
    ]

-- While a session has not expired, an operation leaves it bound to its account, or drops it, or is a
-- BindSession of that session to the account that it is bound to afterwards. The last happens only
-- when no call of the session that has not been swept away is stored.
pub session_affinity :
    (json : Encoding) (c : ReplayCache) (o : Operation json) (key : String) (now : ℕ) (w : Bool)
    → bound key c ≢ none
    → is_expired_session now c.sessions key ≡ false
    → let d = run json c o now w in
      ((bound key d ≡ bound key c) ⊎ (bound key d ≡ none))
      ⊎ IsRebinding key (sweep_locked c now) o d
unfolding run
session_affinity json c (remember_one_call id wire p m s n args sig step position) key now w b e =
    unfold remember_call in
    let room = ensure_capacity_locked (sweep_locked c now) (session_key m s) in
    let r = call_record json c wire p m s n args sig step position now in
    inl (bound-stored key c (record room { calls = insert id r room.calls }) p m s now w b e refl)
session_affinity json c (find_call id n args) key now w b e =
    unfold lookup_call_identity in
    inl (inl (bound-replay_call key c now json id n args (lookup id c.calls)))
session_affinity json c (remember_signature p m s n args sig) key now w b e =
    inl (bound-remember key json c p m s n args sig now w b e)
session_affinity json c (find_signature p m s n args) key now w b e =
    unfold lookup_signature in
    inl (
      inl (
        bound-replay_signature key c now json (replay_key json p m s n args) m s
          (lookup (replay_key json p m s n args) c.entries)))
session_affinity json c (bind q m s) key now w b e =
    elim (bound-bind_session key c q m s now w b e) [
      | inl same ↦ inl (inl same)
      | inr moved ↦ inr moved
    ]
session_affinity json c (ask_profile m s) key now w b e =
    unfold session_profile in
    inl (bound-session_profile_of key c now (session_key m s) (lookup (session_key m s) c.sessions))
session_affinity json c (invalidate id) key now w b e =
    inl (inl (unfold invalidate_call persist_locked bound in ground arith))
session_affinity json c (clear p m s) key now w b e = inl (bound-clear key c p m s w)
