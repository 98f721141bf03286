-- ===== src/Antigravity/Replay/Bindings.antt =====
-- The operations of internal/antigravity/replay.go on sessions, and those that forget.
use codex_account_pool.Prelude.{
  ℕ, String, Bool, true, false, not, ◌&&◌, ◌||◌, Option, none, some, [], ◌∷◌, Dict, lookup, erase,
  retain, if◌then◌else◌, ◌==◌,
}
use codex_account_pool.Antigravity.Replay.State.{
  ReplayEntry, CallRecord, SessionRecord, ReplayCache, is_live, session_key,
}
use codex_account_pool.Antigravity.Replay.Sessions.{
  bind_session_locked, delete_session_locked, sweep_locked, persist_locked,
}

unfoldable pub session_profile_of :
    ReplayCache → String → Option SessionRecord → ℕ → Option String × ReplayCache
session_profile_of c key none now = (none, c)
session_profile_of c key (some r) now =
    if is_live now r.times then (some r.profile, c) else (none, delete_session_locked c key)

-- SessionProfile
unfoldable pub session_profile : ReplayCache → String → String → ℕ → Option String × ReplayCache
session_profile c model session now =
    let key = session_key model session in session_profile_of c key (lookup key c.sessions) now

unfoldable pub any_call : String → String → Dict CallRecord → Bool
any_call model session [] = false
any_call model session ((k, r) ∷ m) =
    ((r.model == model) && (r.session == session)) || any_call model session m

-- The session as BindSession leaves it for bindSessionLocked, or none if it is refused.
unfoldable pub make_bindable :
    ReplayCache → String → String → String → Option SessionRecord → Option ReplayCache
make_bindable c profile model session none = some c
make_bindable c profile model session (some r) =
    if r.profile == profile
    then some c
    else if any_call model session c.calls
    then none
    else some (record c { sessions = erase (session_key model session) c.sessions })

unfoldable pub bind_made :
    ReplayCache → String → String → String → ℕ → Bool → Option ReplayCache → Bool × ReplayCache
bind_made c profile model session now writable none = (false, c)
bind_made c profile model session now writable (some d) =
    (true, persist_locked (bind_session_locked d profile model session now) writable)

-- BindSession
unfoldable pub bind_session : ReplayCache → String → String → String → ℕ → Bool → Bool × ReplayCache
bind_session c profile model session now writable =
    let swept = sweep_locked c now in
    let found = lookup (session_key model session) swept.sessions in
    if (profile == "") || ((model == "") || (session == ""))
    then (false, c)
    else bind_made swept profile model session now writable
        (make_bindable swept profile model session found)

-- InvalidateCall
unfoldable pub invalidate_call : ReplayCache → String → Bool → ReplayCache
invalidate_call c id writable =
    if id == "" then c else persist_locked (record c { calls = erase id c.calls }) writable

unfoldable pub is_call_for : String → String → String → CallRecord → Bool
is_call_for profile model session r =
    (r.profile == profile) && ((r.model == model) && (r.session == session))

unfoldable pub is_entry_for : String → String → String → ReplayEntry → Bool
is_entry_for profile model session e =
    (e.profile == profile) && ((e.model == model) && (e.session == session))

unfoldable pub clear_bound :
    String → String → Option SessionRecord → Dict SessionRecord → Dict SessionRecord
clear_bound profile key none m = m
clear_bound profile key (some r) m = if r.profile == profile then erase key m else m

-- ClearSession
unfoldable pub clear_session : ReplayCache → String → String → String → Bool → ReplayCache
clear_session c profile model session writable =
    let key = session_key model session in
    persist_locked
      (record c {
        entries = retain (λ k e. not (is_entry_for profile model session e)) c.entries;
        calls = retain (λ k r. not (is_call_for profile model session r)) c.calls;
        sessions = clear_bound profile key (lookup key c.sessions) c.sessions;
      })
      writable
