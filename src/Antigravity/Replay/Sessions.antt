-- ===== src/Antigravity/Replay/Sessions.antt =====
-- The locked parts of internal/antigravity/replay.go: binding, deleting, sweeping and making room.
use codex_account_pool.Prelude.{
  ℕ, String, Bool, true, not, ◌||◌, Option, none, some, List, [], ◌∷◌, Dict, lookup, insert, erase,
  retain, length, ltb, if◌then◌else◌, ◌==◌,
}
use codex_account_pool.Antigravity.Replay.State.{
  ReplayEntry, CallRecord, SessionRecord, ReplayCache, continuity_state_version, touched,
  created_now, is_live, session_key, decoded,
}

unfoldable pub bind_record :
    ReplayCache → String → String → String → ℕ → Option SessionRecord → SessionRecord
bind_record c profile model session now none = record {
  profile = profile;
  model = model;
  session = session;
  times = created_now c now;
}
bind_record c profile model session now (some r) = record r { times = touched c now r.times }

unfoldable pub binds : String → Option SessionRecord → Bool
binds profile none = true
binds profile (some r) = r.profile == profile

-- bindSessionLocked
unfoldable pub bind_session_locked : ReplayCache → String → String → String → ℕ → ReplayCache
bind_session_locked c profile model session now =
    let key = session_key model session in
    let found = lookup key c.sessions in
    if (profile == "") || ((model == "") || (session == ""))
    then c
    else if binds profile found
    then record c {
      sessions = insert key (bind_record c profile model session now found) c.sessions;
    }
    else c

unfoldable pub touch_found : ReplayCache → String → ℕ → Option SessionRecord → ReplayCache
touch_found c key now none = c
touch_found c key now (some r) = record c {
  sessions = insert key (record r { times = touched c now r.times }) c.sessions;
}

-- touchSessionLocked
unfoldable pub touch_session_locked : ReplayCache → String → String → ℕ → ReplayCache
touch_session_locked c model session now =
    let key = session_key model session in touch_found c key now (lookup key c.sessions)

unfoldable pub is_of_session : String → CallRecord → Bool
is_of_session key r = session_key r.model r.session == key

unfoldable pub entry_of_session : String → ReplayEntry → Bool
entry_of_session key e = session_key e.model e.session == key

-- deleteSessionLocked
unfoldable pub delete_session_locked : ReplayCache → String → ReplayCache
delete_session_locked c key = record c {
  sessions = erase key c.sessions;
  calls = retain (λ k r. not (is_of_session key r)) c.calls;
  entries = retain (λ k e. not (entry_of_session key e)) c.entries;
}

-- The sessions that the last loop of sweepLocked meets are deleted one by one.
unfoldable pub delete_expired : ℕ → Dict SessionRecord → ReplayCache → ReplayCache
delete_expired now [] c = c
delete_expired now ((k, r) ∷ m) c =
    if is_live now r.times
    then delete_expired now m c
    else delete_expired now m (delete_session_locked c k)

unfoldable pub drop_expired : ReplayCache → ℕ → ReplayCache
drop_expired c now = record c {
  calls = retain (λ k (r : CallRecord). is_live now r.times) c.calls;
  entries = retain (λ k (e : ReplayEntry). is_live now e.times) c.entries;
}

-- sweepLocked
unfoldable pub sweep_locked : ReplayCache → ℕ → ReplayCache
sweep_locked c now = delete_expired now c.sessions (drop_expired c now)

unfoldable pub used_of : Dict SessionRecord → String → ℕ
used_of m k = elim (lookup k m) [ none ↦ 0 | some r ↦ r.times.used ]

-- The session that was used longest ago, the current one excepted; "" where there is none.
unfoldable pub oldest_session : Dict SessionRecord → String → String → Dict SessionRecord → String
oldest_session all current oldest [] = oldest
oldest_session all current oldest ((k, r) ∷ m) =
    let replaces = (oldest == "") || ltb r.times.used (used_of all oldest) in
    let next = if k == current then oldest else if replaces then k else oldest in
    oldest_session all current next m

-- ensureCapacityLocked
unfoldable pub ensure_capacity_locked : ReplayCache → String → ReplayCache
ensure_capacity_locked c current =
    let oldest = oldest_session c.sessions current "" c.sessions in
    if ltb (length c.calls) c.max
    then c
    else if oldest == ""
    then c
    else delete_session_locked c oldest

unfoldable pub session_values : Dict SessionRecord → List SessionRecord
session_values [] = []
session_values ((k, r) ∷ m) = r ∷ session_values m

-- persistLocked, whose error the operations drop: the file is replaced whole, or it stays.
unfoldable pub persist_locked : ReplayCache → Bool → ReplayCache
persist_locked c writable = if (c.path == "") || not writable then c else record c {
  file = decoded (record {
    version = continuity_state_version;
    entries = c.entries;
    calls = c.calls;
    sessions = session_values c.sessions;
  });
}
