-- ===== src/Antigravity/Replay/Records.antt =====
-- The operations of internal/antigravity/replay.go on calls and signatures.
use Prim.Native.String.{◌++◌ as ◌<>◌}
use codex_account_pool.Prelude.{
  ℕ, String, Bool, true, false, not, ◌||◌, Option, none, some, lookup, insert, erase, if◌then◌else◌,
  ◌==◌,
}
use codex_account_pool.Antigravity.Signature.{is_likely_real_thought_signature}
use codex_account_pool.Antigravity.Arguments.{
  Encoding, Args, canonical_args, args_digest, matches_call_args,
}
use codex_account_pool.Antigravity.Replay.State.{
  ReplayEntry, CallRecord, ReplayCache, touched, created_now, is_live, session_key,
}
use codex_account_pool.Antigravity.Replay.Sessions.{
  bind_session_locked, touch_session_locked, sweep_locked, ensure_capacity_locked, persist_locked,
}

module _ (json : Encoding) where
  unfoldable pub replay_key : String → String → String → String → Args json → String
  replay_key profile model session name args =
      ((((((((profile <> "\0") <> model) <> "\0") <> session) <> "\0") <> name) <> "\0")
        <> args_digest json args)

  unfoldable pub call_record :
      ReplayCache
      → String
      → String
      → String
      → String
      → String
      → Args json
      → String
      → String
      → ℕ
      → ℕ
      → CallRecord
  call_record c wire_id profile model session name args signature step position now = record {
    original_args = if name == "exit_plan_mode" then canonical_args json args else "";
    profile = profile;
    model = model;
    session = session;
    name = name;
    wire_id = wire_id;
    signature = if is_likely_real_thought_signature signature then signature else "";
    step = step;
    position = position;
    args = args_digest json args;
    times = created_now c now;
  }

  -- RememberCall
  unfoldable pub remember_call :
      ReplayCache
      → String
      → String
      → String
      → String
      → String
      → String
      → Args json
      → String
      → String
      → ℕ
      → ℕ
      → Bool
      → ReplayCache
  remember_call c id wire_id profile model session name args signature step position now writable =
      let room = ensure_capacity_locked (sweep_locked c now) (session_key model session) in
      let r = call_record c wire_id profile model session name args signature step position now in
      persist_locked
        (bind_session_locked (record room { calls = insert id r room.calls }) profile model session
          now)
        writable

  unfoldable pub replay_call :
      ReplayCache
      → String
      → String
      → Args json
      → ℕ
      → Option CallRecord
      → Option CallRecord × ReplayCache
  replay_call c id name args now none = (none, c)
  replay_call c id name args now (some r) =
      let r' : CallRecord = record r { times = touched c now r.times } in
      if not (is_live now r.times)
      then (none, record c { calls = erase id c.calls })
      else if not (r.name == name)
          || not (matches_call_args json r.args r.name r.original_args args)
      then (none, c)
      else (
        some r',
        touch_session_locked (record c { calls = insert id r' c.calls }) r.model r.session now,
      )

  -- LookupCallIdentity
  unfoldable pub lookup_call_identity :
      ReplayCache → String → String → Args json → ℕ → Option CallRecord × ReplayCache
  lookup_call_identity c id name args now = replay_call c id name args now (lookup id c.calls)

  unfoldable pub of_model : String → Option CallRecord → Option CallRecord
  of_model model none = none
  of_model model (some r) = if r.model == model then some r else none

  -- LookupCall
  unfoldable pub lookup_call :
      ReplayCache → String → String → String → Args json → ℕ → Option CallRecord × ReplayCache
  lookup_call c id model name args now =
      let (o, d) = lookup_call_identity c id name args now in (of_model model o, d)

  unfoldable pub replay_signature :
      ReplayCache → String → String → String → ℕ → Option ReplayEntry → Option String × ReplayCache
  replay_signature c key model session now none = (none, c)
  replay_signature c key model session now (some e) =
      let e' : ReplayEntry = record e { times = touched c now e.times } in
      if is_live now e.times
      then (
        some e.signature,
        touch_session_locked (record c { entries = insert key e' c.entries }) model session now,
      )
      else (none, record c { entries = erase key c.entries })

  -- Lookup
  unfoldable pub lookup_signature :
      ReplayCache → String → String → String → String → Args json → ℕ → Option String × ReplayCache
  lookup_signature c profile model session name args now =
      let key = replay_key profile model session name args in
      replay_signature c key model session now (lookup key c.entries)

  unfoldable pub replay_entry :
      ReplayCache → String → String → String → String → Args json → String → ℕ → ReplayEntry
  replay_entry c profile model session name args signature now = record {
    signature = signature;
    profile = profile;
    model = model;
    session = session;
    name = name;
    args = args_digest json args;
    times = created_now c now;
  }

  -- Remember
  unfoldable pub remember :
      ReplayCache
      → String
      → String
      → String
      → String
      → Args json
      → String
      → ℕ
      → Bool
      → Bool × ReplayCache
  remember c profile model session name args signature now writable =
      let key = replay_key profile model session name args in
      let room = ensure_capacity_locked (sweep_locked c now) (session_key model session) in
      let e = replay_entry c profile model session name args signature now in
      if is_likely_real_thought_signature signature
      then (
        true,
        persist_locked
            (bind_session_locked (record room { entries = insert key e room.entries }) profile model
              session now)
            writable,
      )
      else (false, c)
