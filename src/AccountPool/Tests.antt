-- ===== src/AccountPool/Tests.antt =====
-- Runs of internal/accountpool/pool.go on small inputs.
use codex_account_pool.Prelude.{
  eqb, ℕ, ◌+◌, String, Bool, true, false, ◌≡◌, refl, ◌≢◌, ◌⊎◌, ◌↔◌, ◌≤◌, Option, none, some, List,
  [], ◌∷◌, arith, Result, ok, err, lookup, erase, length, contains, if◌then◌else◌, leb, insert,
  retain, ◌==◌, Entries,
}
use codex_account_pool.AccountPool.{
  Pool, Lease, Quota, Error, unavailable, continuity, capacity, usable, exhausted, unknown, new,
  session_key, acquire, release, begin, prune, expired_idle, admit, allocate, after_begin,
  wait_gate, enter_gate, leave_gate, unref, stamp, new_lease, select, set_profile, choose,
  first_choice, breaks_continuity, known_quota, read_quota, quota_key, is_exhausted, alternate,
  restore_profile, observe_quota, expires_of, minute,
}
use codex_account_pool.AccountPool.Protocol.{Ticket, System, start, Reach, here, holding}
use codex_account_pool.AccountPool.Exclusion.{
  holding_exclusive, acquire-Reach, release-Reach, Released,
}
use codex_account_pool.AccountPool.Capacity.{IsBounded, Reach-IsBounded}
use codex_account_pool.AccountPool.Refusal.{begin_refuses, begin_evicts}
use codex_account_pool.AccountPool.Oldest.{IsIdle}
use codex_account_pool.AccountPool.Selection.{
  select_pinned, select_history, select_result, IsTried, IsBroken,
}
use codex_account_pool.AccountPool.Alternates.{alternate_once, restore_profile_lem, Alternative}
use codex_account_pool.AccountPool.Quotas.{
  IsQuotaTable, observe_quota-IsQuotaTable, known_quota-observe,
}

abbrev second : String
second = "second"

abbrev no_selector : String
no_selector = ""

-- The lease and the pool of a successful Acquire.
abbrev pub granted : Option (Result Error Lease × Pool) → Lease × Pool
granted (some (ok l, q)) = (l, q)
granted (some (err e, q)) = (new_lease "" "" 0, q)
granted none = (new_lease "" "" 0, new 0 0)

abbrev held : Lease → Ticket
held l = record { key = l.key; entry = l.entry; phase = holding }

-- A pool for one session, and one for two.
abbrev narrow : Pool
narrow = new 1 100

abbrev alice_turn : Lease × Pool
alice_turn = granted (acquire narrow "codex" "alice" false 5)

abbrev alice_busy : System
alice_busy = record { pool = alice_turn.1; tickets = held alice_turn.0 ∷ [] }

abbrev alice_idle : System
alice_idle = record { pool = release alice_turn.1 alice_turn.0 10; tickets = [] }

abbrev wide : Pool
wide = new 2 100

abbrev one : Lease × Pool
one = granted (acquire wide "codex" "alice" false 5)

abbrev two : Lease × Pool
two = granted (acquire one.1 "codex" "bob" false 6)

abbrev after_one : System
after_one = record { pool = one.1; tickets = held one.0 ∷ [] }

abbrev both_busy : System
both_busy = record { pool = two.1; tickets = held two.0 ∷ held one.0 ∷ [] }

alice_acquired : acquire narrow "codex" "alice" false 5 ≡ some (ok alice_turn.0, alice_turn.1)
unfolding acquire begin prune retain lookup admit after_begin wait_gate allocate insert session_key
    new_lease new enter_gate
alice_acquired = refl

one_acquired : acquire wide "codex" "alice" false 5 ≡ some (ok one.0, one.1)
unfolding acquire begin prune retain lookup admit after_begin wait_gate allocate insert session_key
    new_lease new enter_gate
one_acquired = refl

two_acquired : acquire one.1 "codex" "bob" false 6 ≡ some (ok two.0, two.1)
unfolding acquire begin prune retain lookup admit after_begin wait_gate allocate insert session_key
    new_lease new enter_gate expired_idle
two_acquired = refl

acquire-Reach_example :
    (false ≡ false) × (alice_turn.0.key ≡ session_key "codex" "alice") × Reach 1 100 alice_busy
acquire-Reach_example =
    acquire-Reach (start 1 100) "codex" "alice" false 5 alice_turn.0 alice_turn.1 here
      alice_acquired

alice-Reach : Reach 1 100 alice_busy
alice-Reach =
    (acquire-Reach (start 1 100) "codex" "alice" false 5 alice_turn.0 alice_turn.1 here
      alice_acquired).2

idle-Reach : Reach 1 100 alice_idle
idle-Reach =
    (release-Reach alice_busy [] [] (held alice_turn.0) alice_turn.0 10 alice-Reach refl refl
      refl).0

one-Reach : Reach 2 100 after_one
one-Reach = (acquire-Reach (start 2 100) "codex" "alice" false 5 one.0 one.1 here one_acquired).2

both-Reach : Reach 2 100 both_busy
both-Reach = (acquire-Reach after_one "codex" "bob" false 6 two.0 two.1 one-Reach two_acquired).2

holding_exclusive_example : two.0.key ≢ one.0.key
holding_exclusive_example =
    holding_exclusive [] [] [] (held two.0) (held one.0) both-Reach refl refl refl

release-Reach_example :
    Reach 1 100 alice_idle
    × Released alice_busy alice_turn.0.key alice_turn.0.entry 10 [] alice_idle.pool
release-Reach_example =
    release-Reach alice_busy [] [] (held alice_turn.0) alice_turn.0 10 alice-Reach refl refl refl

Reach-IsBounded_example : IsBounded 1 alice_turn.1
Reach-IsBounded_example = Reach-IsBounded alice-Reach

begin_refuses_example : ((begin alice_turn.1 (session_key "codex" "bob") 7).0 ≡ err capacity) ↔ (
    (lookup (session_key "codex" "bob") (prune alice_turn.1 7).entries ≡ none)
    × (alice_turn.1.max ≤ length (prune alice_turn.1 7).entries)
    × Entries (λ k a. (alice_turn.1.heap a).refs ≢ 0) (prune alice_turn.1 7).entries)
begin_refuses_example = begin_refuses alice-Reach "codex" "bob" 7

abbrev idle_pool : Pool
idle_pool = alice_idle.pool

abbrev idle_left : List (String × ℕ)
idle_left = (prune idle_pool 20).entries

bob_absent : lookup (session_key "codex" "bob") idle_left ≡ none
unfolding prune retain expired_idle acquire begin lookup admit after_begin wait_gate allocate insert
    session_key new_lease new enter_gate release unref leave_gate stamp
bob_absent = refl

idle_full : idle_pool.max ≤ length idle_left
unfolding prune retain expired_idle acquire begin lookup admit after_begin wait_gate allocate insert
    session_key new_lease new enter_gate release unref leave_gate stamp
idle_full = omega arith

some_idle : ¬ Entries (λ k a. (idle_pool.heap a).refs ≢ 0) idle_left
unfolding prune retain expired_idle acquire begin lookup admit after_begin wait_gate allocate insert
    session_key new_lease new enter_gate release unref leave_gate stamp
some_idle h = h.0 refl

begin_evicts_example :
    (oldest : String) × IsIdle idle_pool.heap idle_left oldest
    × Entries
        (λ k a.
          (idle_pool.heap a).refs ≡ 0
          → expires_of idle_pool.heap idle_left oldest ≤ (idle_pool.heap a).expires)
        idle_left
    × (begin idle_pool (session_key "codex" "bob") 20 ≡ (
      ok idle_pool.next,
      allocate (record idle_pool { entries = erase oldest idle_left }) (session_key "codex" "bob"),
    ))
begin_evicts_example = begin_evicts idle-Reach "codex" "bob" 20 bob_absent idle_full some_idle

-- Alice's session, bound to an account.
abbrev bound_pool : Pool
bound_pool = set_profile alice_turn.1 alice_turn.0.entry "first"

alice_bound : (bound_pool.heap alice_turn.0.entry).profile ≢ ""
unfolding set_profile acquire begin prune retain lookup admit after_begin wait_gate allocate insert
    session_key new_lease new enter_gate
alice_bound e = cc

select_pinned_example :
    (select bound_pool alice_turn.0 "second" "" ("second" ∷ "first" ∷ []) false 7).0 ≡ (
      if contains ("second" ∷ "first" ∷ []) (bound_pool.heap alice_turn.0.entry).profile
      then ok (bound_pool.heap alice_turn.0.entry).profile
      else err unavailable)
select_pinned_example =
    select_pinned bound_pool alice_turn.0 "second" ("second" ∷ "first" ∷ []) 7 alice_bound false

abbrev chosen : Result Error String × Lease × Pool
chosen = select bound_pool alice_turn.0 "second" "" ("second" ∷ "first" ∷ []) true 7

first_chosen : chosen ≡ (ok "first", chosen.1, chosen.2)
unfolding select choose first_choice breaks_continuity is_exhausted known_quota read_quota quota_key
    contains set_profile acquire begin prune retain lookup admit after_begin wait_gate allocate
    insert session_key new_lease new enter_gate
first_chosen = refl

select_history_example :
    ("first" ≡ (bound_pool.heap alice_turn.0.entry).profile)
    × ((chosen.2.heap alice_turn.0.entry).profile ≡ (bound_pool.heap alice_turn.0.entry).profile)
select_history_example =
    select_history bound_pool alice_turn.0 "second" "" ("second" ∷ "first" ∷ []) 7 first_chosen

abbrev bound_name : String
bound_name = (bound_pool.heap alice_turn.0.entry).profile

select_result_example :
    (chosen.1 ≡ record alice_turn.0 { explicit = false })
    × ((id : String) × (IsTried bound_pool alice_turn.0 "second" "" ("second" ∷ "first" ∷ []) 7 id
          × ((IsBroken bound_name no_selector true
                × (chosen.0 ≡ err continuity)
                × (chosen.2 ≡ bound_pool))
              ⊎ (((true ≡ false)
                    ⊎ ((bound_name ≢ "") × ((no_selector ≡ "") ⊎ (no_selector ≡ bound_name))))
                  × ((((id ≡ "") ⊎ (contains ("second" ∷ "first" ∷ []) id ≡ false))
                        × (chosen.0 ≡ err unavailable)
                        × (chosen.2 ≡ bound_pool))
                      ⊎ ((id ≢ "")
                          × (contains ("second" ∷ "first" ∷ []) id ≡ true)
                          × (chosen.0 ≡ ok id)
                          × ((a : ℕ)
                              → chosen.2.heap a ≡ (
                                  if eqb alice_turn.0.entry a
                                  then record (bound_pool.heap a) { profile = id }
                                  else bound_pool.heap a))))))))
select_result_example =
    select_result bound_pool alice_turn.0 "second" "" ("second" ∷ "first" ∷ []) true 7

-- A probe that finds every account usable and counts its calls.
abbrev all_usable : String → ℕ → Quota × ℕ
all_usable id n = (usable, n + 1)

abbrev switched : String × Lease × ℕ
switched = alternate "first" alice_turn.0 exhausted ("first" ∷ "second" ∷ []) false all_usable 0

alternate_once_example :
    (((alice_turn.0.explicit ≡ true)
        ⊎ (alice_turn.0.attempted ≡ true)
        ⊎ (false ≡ true)
        ⊎ (exhausted ≢ exhausted))
      × (switched ≡ ("", alice_turn.0, 0)))
    ⊎ (Alternative "first" all_usable ("first" ∷ "second" ∷ []) switched.0
        × ((later : Quota) (others : List String) (again : Bool) (t : ℕ)
            → alternate "first" switched.1 later others again all_usable t ≡ ("", switched.1, t)))
alternate_once_example =
    alternate_once "first" alice_turn.0 exhausted ("first" ∷ "second" ∷ []) false all_usable 0

abbrev restored : Option Error × Pool
restored = restore_profile bound_pool alice_turn.0 "second"

restore_profile_example :
    ((second ≢ "")
      × ((bound_pool.heap alice_turn.0.entry).profile ≢ "")
      × ((bound_pool.heap alice_turn.0.entry).profile ≢ "second")
      × (restored.0 ≡ some continuity)
      × (restored.1 ≡ bound_pool))
    ⊎ (((second ≡ "")
          ⊎ ((bound_pool.heap alice_turn.0.entry).profile ≡ "")
          ⊎ ((bound_pool.heap alice_turn.0.entry).profile ≡ "second"))
        × (restored.0 ≡ none)
        × ((restored.1.heap alice_turn.0.entry).profile
            ≡ (if "second" == "" then (bound_pool.heap alice_turn.0.entry).profile else "second"))
        × ((a : ℕ) → a ≢ alice_turn.0.entry → restored.1.heap a ≡ bound_pool.heap a))
restore_profile_example = restore_profile_lem bound_pool alice_turn.0 "second"

narrow-IsQuotaTable : IsQuotaTable narrow
unfolding new
narrow-IsQuotaTable = record { positive = omega arith; distinct = tt; fits = omega arith }

observe_quota-IsQuotaTable_example :
    IsQuotaTable (observe_quota narrow alice_turn.0 "first" exhausted 7)
observe_quota-IsQuotaTable_example =
    observe_quota-IsQuotaTable narrow alice_turn.0 "first" exhausted 7 narrow-IsQuotaTable

abbrev observed : Pool
observed = observe_quota narrow alice_turn.0 "first" exhausted 7

known_quota-observe_example :
    ((exhausted ≡ unknown) × (observed ≡ narrow))
    ⊎ ((exhausted ≢ unknown)
        × (known_quota observed alice_turn.0 "first" 8
            ≡ (if leb (7 + minute) 8 then unknown else exhausted))
        × ((quota_key alice_turn.0 "second" ≡ quota_key alice_turn.0 "first")
            ⊎ (known_quota observed alice_turn.0 "second" 8
                ≡ known_quota narrow alice_turn.0 "second" 8)
            ⊎ (known_quota observed alice_turn.0 "second" 8 ≡ unknown)))
known_quota-observe_example =
    known_quota-observe narrow alice_turn.0 alice_turn.0 "first" "second" exhausted 7 8
      narrow-IsQuotaTable
