-- ===== src/Antigravity/Replay/Sweep.antt =====
-- sweepLocked and deleteSessionLocked of internal/antigravity/replay.go: what they leave.
use codex_account_pool.Prelude.{
  ℕ, String, Bool, true, false, not, ◌&&◌, ◌||◌, ◌≡◌, refl, ◌∙◌, inl, inr, Option, none, some, [],
  ◌∷◌, arith, eq_iff, Dict, lookup, lookup-erase, lookup-retain, keep_some, Distinct,
  retain-Distinct, erase-Distinct, if◌then◌else◌, ◌==◌, Bool-cases,
}
use codex_account_pool.Antigravity.Replay.{
  ReplayEntry, CallRecord, SessionRecord, ReplayCache, is_live, session_key, is_of_session,
  entry_of_session, delete_session_locked, delete_expired, drop_expired, sweep_locked,
}

-- The maps of a cache have distinct keys, as Go's have.
pub record IsMapped (c : ReplayCache) : Type 0 where
  pub calls : Distinct c.calls
  pub entries : Distinct c.entries
  pub sessions : Distinct c.sessions

pub delete_session_locked-IsMapped :
    (c : ReplayCache) (key : String) → IsMapped c → IsMapped (delete_session_locked c key)
unfolding delete_session_locked
delete_session_locked-IsMapped c key i = record {
  calls = retain-Distinct _ c.calls i.calls;
  entries = retain-Distinct _ c.entries i.entries;
  sessions = erase-Distinct key c.sessions i.sessions;
}

pub drop_expired-IsMapped : (c : ReplayCache) (now : ℕ) → IsMapped c → IsMapped (drop_expired c now)
unfolding drop_expired
drop_expired-IsMapped c now i = record {
  calls = retain-Distinct _ c.calls i.calls;
  entries = retain-Distinct _ c.entries i.entries;
  sessions = i.sessions;
}

-- The session under a key has expired.
unfoldable pub is_expired_session : ℕ → Dict SessionRecord → String → Bool
is_expired_session now [] key = false
is_expired_session now ((k, r) ∷ m) key =
    (not (is_live now r.times) && (k == key)) || is_expired_session now m key

module _ {ℓ} {V : Type ℓ} where
  keep_some-ext :
      (p q : V → Bool) (o : Option V) → ((v : V) → p v ≡ q v) → keep_some p o ≡ keep_some q o
  keep_some-ext p q none h = refl
  keep_some-ext p q (some v) h = ground (arith, h v)

  keep_some-all : (p : V → Bool) (o : Option V) → ((v : V) → p v ≡ true) → o ≡ keep_some p o
  keep_some-all p none h = refl
  keep_some-all p (some v) h = ground (arith, h v)

  keep_some-both :
      (p q r : V → Bool) (o : Option V)
      → ((v : V) → (p v && q v) ≡ r v)
      → keep_some q (keep_some p o) ≡ keep_some r o
  keep_some-both p q r none h = refl
  keep_some-both p q r (some v) h = ground (arith, h v)

-- A record of a session that has not expired.
abbrev pub survives : ℕ → Dict SessionRecord → String → Bool
survives now m key = not (is_expired_session now m key)

module _ (now : ℕ) (k : String) (r : SessionRecord) (m : Dict SessionRecord) (key : String) where
  survives-live : is_live now r.times ≡ true → survives now m key ≡ survives now ((k, r) ∷ m) key
  unfolding is_expired_session
  survives-live e = ground arith

  survives-expired :
      is_live now r.times ≡ false
      → (not (key == k) && survives now m key) ≡ survives now ((k, r) ∷ m) key
  unfolding is_expired_session
  survives-expired e = ground (arith, eq_iff key k, eq_iff k key)

module _ (now : ℕ) where
  abbrev call_survives : Dict SessionRecord → CallRecord → Bool
  call_survives m r = survives now m (session_key r.model r.session)

  abbrev entry_survives : Dict SessionRecord → ReplayEntry → Bool
  entry_survives m e = survives now m (session_key e.model e.session)

  lookup-delete_expired_calls :
      (m : Dict SessionRecord) (c : ReplayCache) (id : String)
      → IsMapped c
      → lookup id (delete_expired now m c).calls ≡ keep_some (call_survives m) (lookup id c.calls)
  unfolding delete_expired
  lookup-delete_expired_calls [] c id i =
      keep_some-all (call_survives []) (lookup id c.calls) (λ r. unfold is_expired_session in refl)
  lookup-delete_expired_calls ((k, r) ∷ m) c id i = elim (Bool-cases (is_live now r.times)) [
    | inl e ↦ rw e (
        lookup-delete_expired_calls m c id i
        ∙ keep_some-ext (call_survives m) (call_survives ((k, r) ∷ m)) (lookup id c.calls)
            (λ v. survives-live now k r m (session_key v.model v.session) e))
    | inr e ↦ rw e (
        lookup-delete_expired_calls m (delete_session_locked c k) id
          (delete_session_locked-IsMapped c k i)
        ∙ unfold delete_session_locked is_of_session in
          rw
            (lookup-retain (λ i (v : CallRecord). not (session_key v.model v.session == k)) id
              c.calls i.calls)
            (keep_some-both (λ v. not (session_key v.model v.session == k)) (call_survives m)
              (call_survives ((k, r) ∷ m)) (lookup id c.calls)
              (λ v. survives-expired now k r m (session_key v.model v.session) e)))
  ]

  lookup-delete_expired_entries :
      (m : Dict SessionRecord) (c : ReplayCache) (key : String)
      → IsMapped c
      → lookup key (delete_expired now m c).entries
        ≡ keep_some (entry_survives m) (lookup key c.entries)
  unfolding delete_expired
  lookup-delete_expired_entries [] c key i =
      keep_some-all (entry_survives []) (lookup key c.entries)
        (λ r. unfold is_expired_session in refl)
  lookup-delete_expired_entries ((k, r) ∷ m) c key i = elim (Bool-cases (is_live now r.times)) [
    | inl e ↦ rw e (
        lookup-delete_expired_entries m c key i
        ∙ keep_some-ext (entry_survives m) (entry_survives ((k, r) ∷ m)) (lookup key c.entries)
            (λ v. survives-live now k r m (session_key v.model v.session) e))
    | inr e ↦ rw e (
        lookup-delete_expired_entries m (delete_session_locked c k) key
          (delete_session_locked-IsMapped c k i)
        ∙ unfold delete_session_locked entry_of_session in
          rw
            (lookup-retain (λ i (v : ReplayEntry). not (session_key v.model v.session == k)) key
              c.entries i.entries)
            (keep_some-both (λ v. not (session_key v.model v.session == k)) (entry_survives m)
              (entry_survives ((k, r) ∷ m)) (lookup key c.entries)
              (λ v. survives-expired now k r m (session_key v.model v.session) e)))
  ]

  pub lookup-delete_expired_sessions :
      (m : Dict SessionRecord) (c : ReplayCache) (key : String)
      → lookup key (delete_expired now m c).sessions
        ≡ (if is_expired_session now m key then none else lookup key c.sessions)
  unfolding delete_expired is_expired_session
  lookup-delete_expired_sessions [] c key = refl
  lookup-delete_expired_sessions ((k, r) ∷ m) c key = elim (Bool-cases (is_live now r.times)) [
    | inl e ↦ rw e (lookup-delete_expired_sessions m c key)
    | inr e ↦ rw e (
        lookup-delete_expired_sessions m (delete_session_locked c k) key
        ∙ unfold delete_session_locked in
          ground (arith, lookup-erase k key c.sessions, eq_iff k key))
  ]

-- sweepLocked keeps exactly the calls and the signatures that have not expired and whose session has
-- not, and the sessions that have not. It changes no record that it keeps.
pub lookup-sweep_locked :
    (c : ReplayCache) (now : ℕ) (k : String)
    → IsMapped c
    → let d = sweep_locked c now in
      (lookup k d.calls
        ≡ keep_some
            (λ r.
              is_live now r.times
              && not (is_expired_session now c.sessions (session_key r.model r.session)))
            (lookup k c.calls))
      × (lookup k d.entries
          ≡ keep_some
              (λ e.
                is_live now e.times
                && not (is_expired_session now c.sessions (session_key e.model e.session)))
              (lookup k c.entries))
      × (lookup k d.sessions
          ≡ (if is_expired_session now c.sessions k then none else lookup k c.sessions))
unfolding sweep_locked
lookup-sweep_locked c now k i =
    let d = drop_expired c now in
    let j = drop_expired-IsMapped c now i in
    (
      lookup-delete_expired_calls now c.sessions d k j
          ∙ unfold drop_expired in
            rw (lookup-retain (λ k (r : CallRecord). is_live now r.times) k c.calls i.calls) (
              keep_some-both (λ (r : CallRecord). is_live now r.times)
                (call_survives now c.sessions) _ (lookup k c.calls) (λ r. refl)),
      lookup-delete_expired_entries now c.sessions d k j
          ∙ unfold drop_expired in
            rw (lookup-retain (λ k (e : ReplayEntry). is_live now e.times) k c.entries i.entries) (
              keep_some-both (λ (e : ReplayEntry). is_live now e.times)
                (entry_survives now c.sessions) _ (lookup k c.entries) (λ e. refl)),
      lookup-delete_expired_sessions now c.sessions d k ∙ unfold drop_expired in refl,
    )
