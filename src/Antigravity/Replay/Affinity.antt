-- ===== src/Antigravity/Replay/Affinity.antt =====
-- The binding of a session to an account in internal/antigravity/replay.go: what may change it.
use codex_account_pool.Prelude.{
  ℕ, String, Bool, false, ◌≡◌, refl, ◌≢◌, ◌⊎◌, sym, ap, ◌∙◌, inl, inr, Option, none, some, [], ◌∷◌,
  arith, eq_iff, eq_refl, Dict, lookup, lookup-insert, lookup-erase, ◌==◌, Bool-cases,
}
use codex_account_pool.Antigravity.Arguments.{Encoding, Args}
use codex_account_pool.Antigravity.Replay.{
  SessionRecord, ReplayCache, session_key, bind_session_locked, bind_record, binds, persist_locked,
  touch_session_locked, touch_found, touched, ensure_capacity_locked, oldest_session, sweep_locked,
  delete_session_locked, drop_expired, bind_session, session_profile, invalidate_call,
  clear_session, remember, lookup_signature, remember_call, lookup_call_identity,
}
use codex_account_pool.Antigravity.Replay.Sweep.{is_expired_session, lookup-delete_expired_sessions}

-- The operations on a cache, each of which is one critical section.
pub data Operation (json : Encoding) : Type 0 where
  remember_one_call :
      String
      → String
      → String
      → String
      → String
      → String
      → Args json
      → String
      → String
      → ℕ
      → Operation json
  find_call : String → String → Args json → Operation json
  remember_signature : String → String → String → String → Args json → String → Operation json
  find_signature : String → String → String → String → Args json → Operation json
  bind : String → String → String → Operation json
  ask_profile : String → String → Operation json
  invalidate : String → Operation json
  clear : String → String → String → Operation json

unfoldable pub run : (json : Encoding) → ReplayCache → Operation json → ℕ → Bool → ReplayCache
run json c (remember_one_call id wire p m s n args sig step position) now w =
    remember_call json c id wire p m s n args sig step position now w
run json c (find_call id n args) now w = (lookup_call_identity json c id n args now).1
run json c (remember_signature p m s n args sig) now w = (remember json c p m s n args sig now w).1
run json c (find_signature p m s n args) now w = (lookup_signature json c p m s n args now).1
run json c (bind p m s) now w = (bind_session c p m s now w).1
run json c (ask_profile m s) now w = (session_profile c m s now).1
run json c (invalidate id) now w = invalidate_call c id w
run json c (clear p m s) now w = clear_session c p m s w

unfoldable pub profile_of : Option SessionRecord → Option String
profile_of none = none
profile_of (some r) = some r.profile

-- The account that the session under a key is bound to.
unfoldable pub bound : String → ReplayCache → Option String
bound key c = profile_of (lookup key c.sessions)

pub bound-persist :
    (key : String) (c : ReplayCache) (w : Bool) → bound key (persist_locked c w) ≡ bound key c
unfolding persist_locked bound
bound-persist key c w = ground arith

pub bound-touch_found :
    (key k : String) (c : ReplayCache) (now : ℕ) (o : Option SessionRecord)
    → lookup k c.sessions ≡ o
    → bound key (touch_found c k now o) ≡ bound key c
unfolding touch_found bound
bound-touch_found key k c now none e = refl
bound-touch_found key k c now (some r) e =
    let r' : SessionRecord = record r { times = touched c now r.times } in
    unfold profile_of in ground (arith, lookup-insert k key r' c.sessions, eq_iff k key)

pub bound-touch :
    (key : String) (c : ReplayCache) (m s : String) (now : ℕ)
    → bound key (touch_session_locked c m s now) ≡ bound key c
unfolding touch_session_locked
bound-touch key c m s now =
    bound-touch_found key (session_key m s) c now (lookup (session_key m s) c.sessions) refl

-- A binding of another session, or of one that is bound already, changes no binding.
pub bound-bind :
    (key : String) (c : ReplayCache) (q m s : String) (now : ℕ)
    → (session_key m s ≢ key) ⊎ (bound key c ≢ none)
    → bound key (bind_session_locked c q m s now) ≡ bound key c
unfolding bind_session_locked bound
bound-bind key c q m s now a =
    let k = session_key m s in
    let r = bind_record c q m s now (lookup k c.sessions) in
    unfold profile_of binds bind_record in
    ground (arith, lookup-insert k key r c.sessions, eq_iff k key)

pub bound-sweep :
    (key : String) (c : ReplayCache) (now : ℕ)
    → is_expired_session now c.sessions key ≡ false
    → bound key (sweep_locked c now) ≡ bound key c
unfolding sweep_locked bound
bound-sweep key c now e =
    unfold drop_expired in
    ground (arith, lookup-delete_expired_sessions now c.sessions (drop_expired c now) key)

pub bound-delete :
    (key k : String) (c : ReplayCache)
    → k ≢ key
    → bound key (delete_session_locked c k) ≡ bound key c
unfolding delete_session_locked bound
bound-delete key k c n = ground (arith, lookup-erase k key c.sessions, eq_iff k key)

pub bound-delete_self :
    (key : String) (c : ReplayCache) → bound key (delete_session_locked c key) ≡ none
unfolding delete_session_locked bound profile_of
bound-delete_self key c = ground (arith, lookup-erase key key c.sessions, eq_refl key)

-- The loop for the oldest session passes over the current one.
oldest_session-ne :
    (all : Dict SessionRecord) (current : String) (m : Dict SessionRecord) (oldest : String)
    → oldest ≢ current
    → oldest_session all current oldest m ≢ current
unfolding oldest_session
oldest_session-ne all current [] oldest n = n
oldest_session-ne all current ((k, r) ∷ m) oldest n =
    oldest_session-ne all current m _ (ground (arith, eq_iff k current))

-- Making room drops no binding of the current session.
pub bound-room :
    (key : String) (c : ReplayCache) (current : String)
    → (bound key (ensure_capacity_locked c current) ≡ bound key c)
      ⊎ ((bound key (ensure_capacity_locked c current) ≡ none) × (current ≢ key))
unfolding ensure_capacity_locked
bound-room key c current =
    let oldest = oldest_session c.sessions current "" c.sessions in
    elim (Bool-cases (oldest == "")) [
      | inl e ↦ ground arith
      | inr e ↦
          let ne : oldest ≢ current = elim (Bool-cases (current == "")) [
            | inl t ↦ λ same. ground (arith, eq_iff oldest "", eq_iff current "")
            | inr t ↦
                oldest_session-ne c.sessions current c.sessions ""
                  (ground (arith, eq_iff current ""))
          ] in
          ground (arith, eq_iff oldest key, bound-delete key oldest c, bound-delete_self oldest c)
    ]

-- A record is stored, and then its session is bound.
pub bound-stored :
    (key : String) (c d : ReplayCache) (q m s : String) (now : ℕ) (w : Bool)
    → bound key c ≢ none
    → is_expired_session now c.sessions key ≡ false
    → d.sessions ≡ (ensure_capacity_locked (sweep_locked c now) (session_key m s)).sessions
    → (bound key (persist_locked (bind_session_locked d q m s now) w) ≡ bound key c)
      ⊎ (bound key (persist_locked (bind_session_locked d q m s now) w) ≡ none)
bound-stored key c d q m s now w n e same =
    let room = ensure_capacity_locked (sweep_locked c now) (session_key m s) in
    let at : bound key d ≡ bound key room =
      unfold bound in ap (λ x. profile_of (lookup key x)) same in
    let swept = bound-sweep key c now e in
    elim (bound-room key (sweep_locked c now) (session_key m s)) [
      | inl kept ↦ inl (
          bound-persist key (bind_session_locked d q m s now) w
          ∙ bound-bind key d q m s now (inr (λ z. n (sym swept ∙ sym kept ∙ sym at ∙ z)))
          ∙ at
          ∙ kept
          ∙ swept)
      | inr (gone, other) ↦ inr (
          bound-persist key (bind_session_locked d q m s now) w
          ∙ bound-bind key d q m s now (inl other)
          ∙ at
          ∙ gone)
    ]
