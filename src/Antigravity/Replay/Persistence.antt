-- ===== src/Antigravity/Replay/Persistence.antt =====
-- Loading the file of internal/antigravity/replay.go.
use codex_account_pool.Prelude.{
  ℕ, String, Bool, true, not, ◌&&◌, ◌||◌, Option, none, some, List, [], ◌∷◌, Result, ok, err, Dict,
  insert, eqb, if◌then◌else◌, ◌==◌,
}
use codex_account_pool.Antigravity.Arguments.{Encoding, text, args_digest}
use codex_account_pool.Antigravity.Replay.State.{
  ReplayEntry, CallRecord, SessionRecord, PersistedState, File, Error, ReplayCache,
  continuity_state_version, new_replay_cache, session_key, absent, unreadable, malformed, decoded,
  read_failed, undecodable, unsupported_version, invalid_plan, not_written,
}
use codex_account_pool.Antigravity.Replay.Sessions.{sweep_locked, persist_locked}

module _ (json : Encoding) where
  unfoldable pub is_valid_call : CallRecord → Bool
  is_valid_call r =
      (r.original_args == "")
      || ((r.name == "exit_plan_mode") && (args_digest json (text r.original_args) == r.args))

  unfoldable pub load_entries : Dict ReplayEntry → Dict ReplayEntry → Dict ReplayEntry
  load_entries [] m = m
  load_entries ((k, e) ∷ es) m = load_entries es (insert k e m)

  unfoldable pub load_calls : Dict CallRecord → Dict CallRecord → Option (Dict CallRecord)
  load_calls [] m = some m
  load_calls ((k, r) ∷ rs) m = if is_valid_call r then load_calls rs (insert k r m) else none

  unfoldable pub load_sessions : List SessionRecord → Dict SessionRecord → Dict SessionRecord
  load_sessions [] m = m
  load_sessions (r ∷ rs) m = load_sessions rs (insert (session_key r.model r.session) r m)

  unfoldable pub load_state : ReplayCache → PersistedState → ℕ → Result Error ReplayCache
  load_state c p now =
      if not (eqb p.version continuity_state_version)
      then err unsupported_version
      else elim (load_calls p.calls c.calls) [
        | none ↦ err invalid_plan
        | some calls ↦ ok (
            sweep_locked
              (record c {
                entries = load_entries p.entries c.entries;
                calls = calls;
                sessions = load_sessions p.sessions c.sessions;
              })
              now)
      ]

  -- load
  unfoldable pub load : ReplayCache → File → ℕ → Result Error ReplayCache
  load c absent now = ok c
  load c unreadable now = err read_failed
  load c malformed now = err undecodable
  load c (decoded p) now = load_state c p now

  -- NewPersistentReplayCache, for a path that has been trimmed. It returns the error of its write.
  unfoldable pub new_persistent_replay_cache :
      ℕ → ℕ → ℕ → String → File → ℕ → Bool → Result Error ReplayCache
  new_persistent_replay_cache max ttl retention path file now writable =
      let c = new_replay_cache max ttl retention path file in
      if path == "" then ok c else elim (load c file now) [
        | err e ↦ err e
        | ok d ↦ if writable then ok (persist_locked d true) else err not_written
      ]
