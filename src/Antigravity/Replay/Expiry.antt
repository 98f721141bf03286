-- ===== src/Antigravity/Replay/Expiry.antt =====
-- extendExpiry of internal/antigravity/replay.go: no record outlives its idle time or the retention.
use codex_account_pool.Prelude.{
  ℕ, ◌+◌, ◌≤◌, String, Bool, true, not, ◌||◌, ◌≡◌, refl, inl, inr, Option, none, some, [], ◌∷◌,
  arith, Dict, lookup, insert, Entries, Entries-lookup, insert-Entries, erase-Entries,
  retain-Entries, Bool-cases, ltb, length, ◌==◌,
}
use codex_account_pool.Antigravity.Replay.{
  Times, ReplayEntry, CallRecord, SessionRecord, ReplayCache, File, is_live, session_key,
  bind_session_locked, bind_record, binds, persist_locked, touch_session_locked, touch_found,
  touched, created_now, extend_expiry, ensure_capacity_locked, oldest_session, sweep_locked,
  delete_session_locked, delete_expired, drop_expired,
}

-- The times at which a record has been stored under a key, and the times of all operations.
pub record Stores : Type 0 where
  pub entry : String → ℕ → Bool
  pub call : String → ℕ → Bool
  pub session : String → ℕ → Bool
  pub any : ℕ → Bool

module _ (ttl retention : ℕ) (made : Stores) where
  -- A record expires its idle time after its last use, or the retention after its creation, whichever
  -- is earlier.
  abbrev pub IsTimely : Times → Type 0
  IsTimely t = (t.expires ≤ t.used + ttl) × (t.expires ≤ t.created + retention)

  -- A timely record whose creation and last use are times of operations.
  abbrev pub IsKept : (ℕ → Bool) → Times → Type 0
  IsKept stored t = IsTimely t × (stored t.created ≡ true) × (made.any t.used ≡ true)

  pub record IsTimelyCache (c : ReplayCache) : Type 0 where
    pub ttl_same : c.ttl ≡ ttl
    pub retention_same : c.retention ≡ retention
    pub entries : Entries (λ k e. IsKept (made.entry k) e.times) c.entries
    pub calls : Entries (λ k r. IsKept (made.call k) r.times) c.calls
    pub sessions : Entries (λ k r. IsKept (made.session k) r.times) c.sessions

  module _ {c : ReplayCache} (i : IsTimelyCache c) where
    touched-IsTimely : (now : ℕ) (t : Times) → IsTimely (touched c now t)
    unfolding touched extend_expiry
    touched-IsTimely now t = ground (arith, i.ttl_same, i.retention_same)

    pub touched-IsKept :
        (stored : ℕ → Bool) (now : ℕ) (t : Times)
        → made.any now ≡ true
        → stored t.created ≡ true
        → IsKept stored (touched c now t)
    touched-IsKept stored now t seen e =
        (touched-IsTimely now t, (unfold touched in e), (unfold touched in seen))

    created_now-IsTimely : (now : ℕ) → IsTimely (created_now c now)
    unfolding created_now extend_expiry
    created_now-IsTimely now = ground (arith, i.ttl_same, i.retention_same)

    pub created_now-IsKept :
        (stored : ℕ → Bool) (now : ℕ)
        → made.any now ≡ true
        → stored now ≡ true
        → IsKept stored (created_now c now)
    created_now-IsKept stored now seen e =
        (created_now-IsTimely now, (unfold created_now in e), (unfold created_now in seen))

    pub lookup_entry-stored :
        (k : String) (e : ReplayEntry)
        → lookup k c.entries ≡ some e
        → made.entry k e.times.created ≡ true
    lookup_entry-stored k e f =
        (Entries-lookup (λ k (e : ReplayEntry). IsKept (made.entry k) e.times) k e c.entries
          i.entries f).1

    pub lookup_call-stored :
        (k : String) (r : CallRecord)
        → lookup k c.calls ≡ some r
        → made.call k r.times.created ≡ true
    lookup_call-stored k r f =
        (Entries-lookup (λ k (r : CallRecord). IsKept (made.call k) r.times) k r c.calls i.calls
          f).1

    pub lookup_session-stored :
        (k : String) (r : SessionRecord)
        → lookup k c.sessions ≡ some r
        → made.session k r.times.created ≡ true
    lookup_session-stored k r f =
        (Entries-lookup (λ k (r : SessionRecord). IsKept (made.session k) r.times) k r c.sessions
          i.sessions f).1

    -- Other maps with timely records.
    pub IsTimely-maps :
        (es : Dict ReplayEntry) (rs : Dict CallRecord) (ss : Dict SessionRecord)
        → Entries (λ k e. IsKept (made.entry k) e.times) es
        → Entries (λ k r. IsKept (made.call k) r.times) rs
        → Entries (λ k r. IsKept (made.session k) r.times) ss
        → IsTimelyCache (record c { entries = es; calls = rs; sessions = ss })
    IsTimely-maps es rs ss e r s = record {
      ttl_same = i.ttl_same;
      retention_same = i.retention_same;
      entries = e;
      calls = r;
      sessions = s;
    }

    pub delete_session-IsTimely : (key : String) → IsTimelyCache (delete_session_locked c key)
    unfolding delete_session_locked
    delete_session-IsTimely key =
        IsTimely-maps _ _ _ (retain-Entries _ _ c.entries i.entries)
          (retain-Entries _ _ c.calls i.calls) (erase-Entries _ key c.sessions i.sessions)

    pub drop_expired-IsTimely : (now : ℕ) → IsTimelyCache (drop_expired c now)
    unfolding drop_expired
    drop_expired-IsTimely now =
        IsTimely-maps _ _ c.sessions (retain-Entries _ _ c.entries i.entries)
          (retain-Entries _ _ c.calls i.calls) i.sessions

    pub set_file-IsTimely : (f : File) → IsTimelyCache (record c { file = f })
    set_file-IsTimely f = record {
      ttl_same = i.ttl_same;
      retention_same = i.retention_same;
      entries = i.entries;
      calls = i.calls;
      sessions = i.sessions;
    }

    pub persist-IsTimely : (w : Bool) → IsTimelyCache (persist_locked c w)
    unfolding persist_locked
    persist-IsTimely w = elim (Bool-cases ((c.path == "") || not w)) [
      | inl e ↦ rw e i
      | inr e ↦ rw e (set_file-IsTimely _)
    ]

    pub bind_record-IsTimely :
        (q m s : String) (now : ℕ) (o : Option SessionRecord)
        → made.any now ≡ true
        → made.session (session_key m s) now ≡ true
        → lookup (session_key m s) c.sessions ≡ o
        → IsKept (made.session (session_key m s)) (bind_record c q m s now o).times
    unfolding bind_record
    bind_record-IsTimely q m s now none seen e f =
        created_now-IsKept (made.session (session_key m s)) now seen e
    bind_record-IsTimely q m s now (some r) seen e f =
        touched-IsKept (made.session (session_key m s)) now r.times seen
          (lookup_session-stored (session_key m s) r f)

    pub insert_entry-IsTimely :
        (k : String) (e : ReplayEntry)
        → IsKept (made.entry k) e.times
        → IsTimelyCache (record c { entries = insert k e c.entries })
    insert_entry-IsTimely k e t =
        IsTimely-maps _ c.calls c.sessions (insert-Entries _ k e c.entries t i.entries) i.calls
          i.sessions

    pub insert_call-IsTimely :
        (k : String) (r : CallRecord)
        → IsKept (made.call k) r.times
        → IsTimelyCache (record c { calls = insert k r c.calls })
    insert_call-IsTimely k r t =
        IsTimely-maps c.entries _ c.sessions i.entries (insert-Entries _ k r c.calls t i.calls)
          i.sessions

    pub insert_session-IsTimely :
        (k : String) (r : SessionRecord)
        → IsKept (made.session k) r.times
        → IsTimelyCache (record c { sessions = insert k r c.sessions })
    insert_session-IsTimely k r t =
        IsTimely-maps c.entries c.calls _ i.entries i.calls
          (insert-Entries _ k r c.sessions t i.sessions)

    pub bind_locked-IsTimely :
        (q m s : String) (now : ℕ)
        → made.any now ≡ true
        → made.session (session_key m s) now ≡ true
        → IsTimelyCache (bind_session_locked c q m s now)
    unfolding bind_session_locked
    bind_locked-IsTimely q m s now seen h =
        let key = session_key m s in
        let found = lookup key c.sessions in
        elim (Bool-cases ((q == "") || ((m == "") || (s == "")))) [
          | inl e ↦ rw e i
          | inr e ↦ rw e (elim (Bool-cases (binds q found)) [
            | inl t ↦ rw t (
                insert_session-IsTimely key (bind_record c q m s now found)
                  (bind_record-IsTimely q m s now found seen h refl))
            | inr t ↦ rw t i
          ])
        ]

    pub touch_found-IsTimely :
        (key : String) (now : ℕ) (o : Option SessionRecord)
        → made.any now ≡ true
        → lookup key c.sessions ≡ o
        → IsTimelyCache (touch_found c key now o)
    unfolding touch_found
    touch_found-IsTimely key now none seen e = i
    touch_found-IsTimely key now (some r) seen e =
        insert_session-IsTimely key (record r { times = touched c now r.times })
          (touched-IsKept (made.session key) now r.times seen (lookup_session-stored key r e))

    pub touch-IsTimely :
        (m s : String) (now : ℕ)
        → made.any now ≡ true
        → IsTimelyCache (touch_session_locked c m s now)
    unfolding touch_session_locked
    touch-IsTimely m s now seen =
        touch_found-IsTimely (session_key m s) now (lookup (session_key m s) c.sessions) seen refl

    pub room-IsTimely : (current : String) → IsTimelyCache (ensure_capacity_locked c current)
    unfolding ensure_capacity_locked
    room-IsTimely current =
        let oldest = oldest_session c.sessions current "" c.sessions in
        elim (Bool-cases (ltb (length c.calls) c.max)) [
          | inl e ↦ rw e i
          | inr e ↦ rw e (elim (Bool-cases (oldest == "")) [
            | inl t ↦ rw t i
            | inr t ↦ rw t (delete_session-IsTimely oldest)
          ])
        ]

  pub delete_expired-IsTimely :
      (now : ℕ) (m : Dict SessionRecord) (c : ReplayCache)
      → IsTimelyCache c
      → IsTimelyCache (delete_expired now m c)
  unfolding delete_expired
  delete_expired-IsTimely now [] c i = i
  delete_expired-IsTimely now ((k, r) ∷ m) c i = elim (Bool-cases (is_live now r.times)) [
    | inl e ↦ rw e (delete_expired-IsTimely now m c i)
    | inr e ↦
        rw e
          (delete_expired-IsTimely now m (delete_session_locked c k) (delete_session-IsTimely i k))
  ]

  pub sweep-IsTimely :
      (c : ReplayCache) (now : ℕ) → IsTimelyCache c → IsTimelyCache (sweep_locked c now)
  unfolding sweep_locked
  sweep-IsTimely c now i =
      delete_expired-IsTimely now c.sessions (drop_expired c now) (drop_expired-IsTimely i now)
