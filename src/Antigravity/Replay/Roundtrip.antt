-- ===== src/Antigravity/Replay/Roundtrip.antt =====
-- What Remember and RememberCall of internal/antigravity/replay.go store, Lookup and
-- LookupCallIdentity find again.
use codex_account_pool.Prelude.{
  ℕ, String, Bool, true, false, ◌&&◌, ◌≡◌, refl, ◌⊎◌, ap, ◌∙◌, inl, inr, none, some, arith, eq_refl,
  leb, Dict, lookup, insert, lookup-insert, if◌then◌else◌, ◌==◌, Bool-cases,
}
use codex_account_pool.Antigravity.Signature.{is_likely_real_thought_signature}
use codex_account_pool.Antigravity.Arguments.{Encoding, Args, args_digest, matches_call_args}
use codex_account_pool.Antigravity.Replay.{
  ReplayEntry, CallRecord, ReplayCache, is_live, session_key, bind_session_locked, persist_locked,
  created_now, touched, extend_expiry, ensure_capacity_locked, sweep_locked, replay_key,
  replay_entry, remember, lookup_signature, replay_signature, call_record, remember_call,
  replay_call, lookup_call_identity,
}

-- Binding a session and writing the file leave the records alone.
pub bind-keeps :
    (c : ReplayCache) (profile model session : String) (now : ℕ) (w : Bool)
    → let d = persist_locked (bind_session_locked c profile model session now) w in
      (d.entries ≡ c.entries) × (d.calls ≡ c.calls)
unfolding persist_locked bind_session_locked
bind-keeps c profile model session now w = (ground arith, ground arith)

lookup-same {ℓ} :
    {V : Type ℓ} (k : String) (v : V) (m n : Dict V) → n ≡ insert k v m → lookup k n ≡ some v
lookup-same k v m n e = ground (arith, lookup-insert k k v m, eq_refl k)

module _ (json : Encoding) (c : ReplayCache) (now : ℕ) where
  replay_signature-0 :
      (key model session : String) (e : ReplayEntry)
      → (replay_signature json c key model session now (some e)).0
        ≡ (if leb e.times.expires now then none else some e.signature)
  unfolding replay_signature is_live
  replay_signature-0 key model session e = ground arith

  replay_call-0 :
      (id name : String) (args : Args json) (r : CallRecord)
      → (replay_call json c id name args now (some r)).0 ≡ (
          if leb r.times.expires now
          then none
          else if (r.name == name) && matches_call_args json r.args r.name r.original_args args
          then some (record r { times = touched c now r.times })
          else none)
  unfolding replay_call is_live
  replay_call-0 id name args r = ground arith

module _ (json : Encoding) (c : ReplayCache) (profile model session name : String)
    (args : Args json) where
  -- A signature that Remember takes is found under the same account, model, session, name and
  -- arguments until it expires, and not from then on; any other signature is refused, and then the
  -- cache stays as it was.
  pub remember-lookup :
      (signature : String) (now later : ℕ) (w : Bool)
      → let r = remember json c profile model session name args signature now w in
        ((r.0 ≡ false) × (is_likely_real_thought_signature signature ≡ false) × (r.1 ≡ c))
        ⊎ ((r.0 ≡ true)
            × (is_likely_real_thought_signature signature ≡ true)
            × ((lookup_signature json r.1 profile model session name args later).0
                ≡ (if leb (extend_expiry c now now) later then none else some signature)))
  unfolding remember lookup_signature
  remember-lookup signature now later w =
      let key = replay_key json profile model session name args in
      let room = ensure_capacity_locked (sweep_locked c now) (session_key model session) in
      let e = replay_entry json c profile model session name args signature now in
      let stored : ReplayCache = record room { entries = insert key e room.entries } in
      let d = persist_locked (bind_session_locked stored profile model session now) w in
      let found =
        lookup-same key e room.entries d.entries
          (bind-keeps stored profile model session now w).0 in
      elim (Bool-cases (is_likely_real_thought_signature signature)) [
        | inl t ↦ rw t (
            inr (
              refl,
              refl,
              ap (λ o. (replay_signature json d key model session later o).0) found
                  ∙ replay_signature-0 json d later key model session e
                  ∙ unfold replay_entry created_now in refl,
            ))
        | inr t ↦ rw t (inl (refl, refl, refl))
      ]

  -- A call that RememberCall stores is found again under its id, with its name and its arguments,
  -- until it expires, and not from then on; the record names its account, model and session.
  pub remember_call-lookup :
      (id wire_id signature step : String) (position now later : ℕ) (w : Bool)
      → let d =
          remember_call json c id wire_id profile model session name args signature step position
            now w in
        let r =
          call_record json c wire_id profile model session name args signature step position now in
        (lookup_call_identity json d id name args later).0 ≡ (
          if leb (extend_expiry c now now) later
          then none
          else some (record r { times = touched d later r.times }))
  unfolding remember_call lookup_call_identity
  remember_call-lookup id wire_id signature step position now later w =
      let room = ensure_capacity_locked (sweep_locked c now) (session_key model session) in
      let r =
        call_record json c wire_id profile model session name args signature step position now in
      let stored : ReplayCache = record room { calls = insert id r room.calls } in
      let d = persist_locked (bind_session_locked stored profile model session now) w in
      let found =
        lookup-same id r room.calls d.calls (bind-keeps stored profile model session now w).1 in
      ap (λ o. (replay_call json d id name args later o).0) found
      ∙ replay_call-0 json d later id name args r
      ∙ unfold call_record created_now matches_call_args in
        rw (eq_refl name, eq_refl (args_digest json args)) refl
