-- ===== src/Antigravity/Replay/Limits.antt =====
-- The limits on the records of internal/antigravity/replay.go, under every operation.
use codex_account_pool.Prelude.{
  ℕ, String, Bool, true, ◌≡◌, not, ◌||◌, inl, inr, Option, none, some, lookup, Entries,
  erase-Entries, retain-Entries, ◌==◌, Bool-cases,
}
use codex_account_pool.Antigravity.Signature.{is_likely_real_thought_signature}
use codex_account_pool.Antigravity.Arguments.{Encoding, Args, matches_call_args}
use codex_account_pool.Antigravity.Replay.{
  ReplayEntry, CallRecord, SessionRecord, ReplayCache, is_live, session_key, bind_session_locked,
  persist_locked, touched, ensure_capacity_locked, sweep_locked, make_bindable, any_call, bind_made,
  session_profile_of, invalidate_call, clear_session, clear_bound, remember, replay_signature,
  replay_entry, remember_call, replay_call, replay_key, call_record,
}
use codex_account_pool.Antigravity.Replay.Expiry.{
  Stores, IsKept, IsTimelyCache, IsTimely-maps, touched-IsKept, created_now-IsKept,
  lookup_entry-stored, lookup_call-stored, delete_session-IsTimely, persist-IsTimely,
  insert_entry-IsTimely, insert_call-IsTimely, bind_locked-IsTimely, touch-IsTimely, room-IsTimely,
  sweep-IsTimely,
}

module _ (ttl retention : ℕ) (made : Stores) (json : Encoding) {c : ReplayCache}
    (i : IsTimelyCache ttl retention made c) (now : ℕ) (seen : made.any now ≡ true) where
  abbrev pub Timely : ReplayCache → Type 0
  Timely = IsTimelyCache ttl retention made

  room : (m s : String) → Timely (ensure_capacity_locked (sweep_locked c now) (session_key m s))
  room m s =
      room-IsTimely ttl retention made (sweep-IsTimely ttl retention made c now i) (session_key m s)

  pub bound-Timely :
      {d : ReplayCache} (p m s : String) (w : Bool)
      → made.session (session_key m s) now ≡ true
      → Timely d
      → Timely (persist_locked (bind_session_locked d p m s now) w)
  bound-Timely p m s w h j =
      persist-IsTimely ttl retention made
        (bind_locked-IsTimely ttl retention made j p m s now seen h) w

  pub remember_call-Timely :
      (id wire p m s n : String) (args : Args json) (sig step : String) (position : ℕ) (w : Bool)
      → made.session (session_key m s) now ≡ true
      → made.call id now ≡ true
      → Timely (remember_call json c id wire p m s n args sig step position now w)
  unfolding remember_call
  remember_call-Timely id wire p m s n args sig step position w h k = bound-Timely p m s w h (
      insert_call-IsTimely ttl retention made (room m s) id
        (call_record json c wire p m s n args sig step position now)
        (unfold call_record in created_now-IsKept ttl retention made i (made.call id) now seen k))

  pub remember-Timely :
      (p m s n : String) (args : Args json) (sig : String) (w : Bool)
      → made.session (session_key m s) now ≡ true
      → made.entry (replay_key json p m s n args) now ≡ true
      → Timely (remember json c p m s n args sig now w).1
  unfolding remember
  remember-Timely p m s n args sig w h k =
      elim (Bool-cases (is_likely_real_thought_signature sig)) [
        | inl e ↦ rw e (
            bound-Timely p m s w h (
              insert_entry-IsTimely ttl retention made (room m s) (replay_key json p m s n args)
                (replay_entry json c p m s n args sig now)
                (unfold replay_entry in
                  created_now-IsKept ttl retention made i
                    (made.entry (replay_key json p m s n args)) now seen k)))
        | inr e ↦ rw e i
      ]

  pub replay_call-Timely :
      (id name : String) (args : Args json) (o : Option CallRecord)
      → lookup id c.calls ≡ o
      → Timely (replay_call json c id name args now o).1
  unfolding replay_call
  replay_call-Timely id name args none f = i
  replay_call-Timely id name args (some r) f =
      let r' : CallRecord = record r { times = touched c now r.times } in
      let miss =
        not (r.name == name) || not (matches_call_args json r.args r.name r.original_args args) in
      elim (Bool-cases (is_live now r.times)) [
        | inl e ↦ rw e (elim (Bool-cases miss) [
          | inl t ↦ rw t i
          | inr t ↦ rw t (
              touch-IsTimely ttl retention made
                (insert_call-IsTimely ttl retention made i id r' (
                  touched-IsKept ttl retention made i (made.call id) now r.times seen
                    (lookup_call-stored ttl retention made i id r f)))
                r.model r.session now seen)
        ])
        | inr e ↦ rw e (
            IsTimely-maps ttl retention made i c.entries _ c.sessions i.entries
              (erase-Entries _ id c.calls i.calls) i.sessions)
      ]

  pub replay_signature-Timely :
      (k m s : String) (o : Option ReplayEntry)
      → lookup k c.entries ≡ o
      → Timely (replay_signature json c k m s now o).1
  unfolding replay_signature
  replay_signature-Timely k m s none f = i
  replay_signature-Timely k m s (some e) f =
      let e' : ReplayEntry = record e { times = touched c now e.times } in
      elim (Bool-cases (is_live now e.times)) [
        | inl t ↦ rw t (
            touch-IsTimely ttl retention made
              (insert_entry-IsTimely ttl retention made i k e' (
                touched-IsKept ttl retention made i (made.entry k) now e.times seen
                  (lookup_entry-stored ttl retention made i k e f)))
              m s now seen)
        | inr t ↦ rw t (
            IsTimely-maps ttl retention made i _ c.calls c.sessions
              (erase-Entries _ k c.entries i.entries) i.calls i.sessions)
      ]

  pub session_profile_of-Timely :
      (k : String) (o : Option SessionRecord) → Timely (session_profile_of c k o now).1
  unfolding session_profile_of
  session_profile_of-Timely k none = i
  session_profile_of-Timely k (some r) = elim (Bool-cases (is_live now r.times)) [
    | inl e ↦ rw e i
    | inr e ↦ rw e (delete_session-IsTimely ttl retention made i k)
  ]

  pub bind_made-Timely :
      (p m s : String) (w : Bool) (o : Option SessionRecord)
      → made.session (session_key m s) now ≡ true
      → Timely (bind_made c p m s now w (make_bindable c p m s o)).1
  unfolding bind_made make_bindable
  bind_made-Timely p m s w none h = bound-Timely p m s w h i
  bind_made-Timely p m s w (some r) h = elim (Bool-cases (r.profile == p)) [
    | inl e ↦ rw e (bound-Timely p m s w h i)
    | inr e ↦ rw e (elim (Bool-cases (any_call m s c.calls)) [
      | inl t ↦ rw t i
      | inr t ↦ rw t (
          bound-Timely p m s w h (
            IsTimely-maps ttl retention made i c.entries c.calls _ i.entries i.calls
              (erase-Entries _ (session_key m s) c.sessions i.sessions)))
    ])
  ]

  pub clear_bound-Timely :
      (p k : String) (o : Option SessionRecord)
      → Entries
          (λ k (r : SessionRecord). IsKept ttl retention made (made.session k) r.times)
          (clear_bound p k o c.sessions)
  unfolding clear_bound
  clear_bound-Timely p k none = i.sessions
  clear_bound-Timely p k (some r) = elim (Bool-cases (r.profile == p)) [
    | inl e ↦ rw e (erase-Entries _ k c.sessions i.sessions)
    | inr e ↦ rw e i.sessions
  ]

  pub clear_session-Timely : (p m s : String) (w : Bool) → Timely (clear_session c p m s w)
  unfolding clear_session
  clear_session-Timely p m s w =
      persist-IsTimely ttl retention made
        (IsTimely-maps ttl retention made i _ _ _ (retain-Entries _ _ c.entries i.entries)
          (retain-Entries _ _ c.calls i.calls)
          (clear_bound-Timely p (session_key m s) (lookup (session_key m s) c.sessions)))
        w

  pub invalidate_call-Timely : (id : String) (w : Bool) → Timely (invalidate_call c id w)
  unfolding invalidate_call
  invalidate_call-Timely id w = elim (Bool-cases (id == "")) [
    | inl e ↦ rw e i
    | inr e ↦ rw e (
        persist-IsTimely ttl retention made
          (IsTimely-maps ttl retention made i c.entries _ c.sessions i.entries
            (erase-Entries _ id c.calls i.calls) i.sessions)
          w)
  ]
