-- ===== src/Antigravity/Replay/Tests.antt =====
-- Runs of internal/antigravity/replay.go on small inputs.
use codex_account_pool.Prelude.{
  ℕ, String, Bool, true, false, not, ◌&&◌, ◌≡◌, refl, ◌≢◌, ◌⊎◌, none, some, List, [], ◌∷◌, lookup,
  keep_some, leb, if◌then◌else◌,
}
use codex_account_pool.Antigravity.Signature.{is_likely_real_thought_signature}
use codex_account_pool.Antigravity.Arguments.{Encoding, Args, text}
use codex_account_pool.Antigravity.Replay.{
  ReplayCache, SessionRecord, absent, new_replay_cache, session_key, is_live, sweep_locked,
  extend_expiry, touched, call_record, remember, remember_call, lookup_signature,
  lookup_call_identity,
}
use codex_account_pool.Antigravity.Replay.Sweep.{IsMapped, is_expired_session, lookup-sweep_locked}
use codex_account_pool.Antigravity.Replay.Affinity.{
  Operation, bind, remember_one_call, find_call, run, bound, profile_of,
}
use codex_account_pool.Antigravity.Replay.Rebinding.{IsRebinding, session_affinity}
use codex_account_pool.Antigravity.Replay.Roundtrip.{remember-lookup, remember_call-lookup}

-- A JSON package that decodes nothing, and the text as its own hash.
abbrev pub plain : Encoding
plain = record {
  Value = String;
  decode = λ s. none;
  encode = λ v. some v;
  as_text = λ v. some v;
  as_object = λ v. none;
  object = λ m. "";
  sha256 = λ s. s;
}

abbrev pub arguments : Args plain
arguments = text "{}"

abbrev pub signature : String
signature = "QUJDREVGR0hJSktMTU5P"

abbrev pub empty_cache : ReplayCache
empty_cache = new_replay_cache 2 50 80 "" absent

abbrev operations : List (Operation plain × ℕ × Bool)
operations =
    (bind "work" "gemini" "s1", 10, true)
    ∷ (
      remember_one_call "call_1" "w1" "work" "gemini" "s1" "read" arguments signature "step" 0,
      20,
      true,
    )
    ∷ (find_call "call_1" "read" arguments, 60, false)
    ∷ []

remember-lookup_example :
    let r = remember plain empty_cache "work" "gemini" "s1" "read" arguments signature 10 true in
    ((r.0 ≡ false) × (is_likely_real_thought_signature signature ≡ false) × (r.1 ≡ empty_cache))
    ⊎ ((r.0 ≡ true)
        × (is_likely_real_thought_signature signature ≡ true)
        × ((lookup_signature plain r.1 "work" "gemini" "s1" "read" arguments 20).0
            ≡ (if leb (extend_expiry empty_cache 10 10) 20 then none else some signature)))
remember-lookup_example =
    remember-lookup plain empty_cache "work" "gemini" "s1" "read" arguments signature 10 20 true

remember_call-lookup_example :
    let d =
      remember_call plain empty_cache "call_1" "w1" "work" "gemini" "s1" "read" arguments signature
        "step" 0 10 true in
    let r =
      call_record plain empty_cache "w1" "work" "gemini" "s1" "read" arguments signature "step" 0
        10 in
    (lookup_call_identity plain d "call_1" "read" arguments 20).0 ≡ (
      if leb (extend_expiry empty_cache 10 10) 20
      then none
      else some (record r { times = touched d 20 r.times }))
remember_call-lookup_example =
    remember_call-lookup plain empty_cache "work" "gemini" "s1" "read" arguments "call_1" "w1"
      signature "step" 0 10 20 true

abbrev old_session : SessionRecord
old_session = record {
  profile = "work";
  model = "gemini";
  session = "s1";
  times = record { created = 10; expires = 60; used = 10 };
}

abbrev bound_cache : ReplayCache
bound_cache = record empty_cache { sessions = (session_key "gemini" "s1", old_session) ∷ [] }

bound_cache-IsMapped : IsMapped bound_cache
unfolding new_replay_cache lookup
bound_cache-IsMapped = record { calls = tt; entries = tt; sessions = (refl, tt) }

lookup-sweep_locked_example :
    let d = sweep_locked bound_cache 70 in
    (lookup "call_1" d.calls
      ≡ keep_some
          (λ r.
            is_live 70 r.times
            && not (is_expired_session 70 bound_cache.sessions (session_key r.model r.session)))
          (lookup "call_1" bound_cache.calls))
    × (lookup "call_1" d.entries
        ≡ keep_some
            (λ e.
              is_live 70 e.times
              && not (is_expired_session 70 bound_cache.sessions (session_key e.model e.session)))
            (lookup "call_1" bound_cache.entries))
    × (lookup "call_1" d.sessions ≡ (
        if is_expired_session 70 bound_cache.sessions "call_1"
        then none
        else lookup "call_1" bound_cache.sessions))
lookup-sweep_locked_example = lookup-sweep_locked bound_cache 70 "call_1" bound_cache-IsMapped

is_bound : bound (session_key "gemini" "s1") bound_cache ≢ none
unfolding bound profile_of lookup session_key
is_bound e = cc

unexpired : is_expired_session 20 bound_cache.sessions (session_key "gemini" "s1") ≡ false
unfolding is_expired_session is_live
unexpired = refl

abbrev rebind : Operation plain
rebind = bind "home" "gemini" "s1"

session_affinity_example :
    let d = run plain bound_cache rebind 20 true in
    let key = session_key "gemini" "s1" in
    ((bound key d ≡ bound key bound_cache) ⊎ (bound key d ≡ none))
    ⊎ IsRebinding key (sweep_locked bound_cache 20) rebind d
session_affinity_example =
    session_affinity plain bound_cache rebind (session_key "gemini" "s1") 20 true is_bound unexpired
