-- ===== src/AccountPool/Choice.antt =====
-- Select and RestoreProfile of internal/accountpool/pool.go.
use Prim.Native.String.{◌++◌ as ◌<>◌}
use codex_account_pool.Prelude.{
  ℕ, String, Bool, true, false, not, ◌&&◌, ◌||◌, Option, none, some, List, [], ◌∷◌, Result, ok, err,
  lookup, leb, if◌then◌else◌, ◌==◌, contains,
}
use codex_account_pool.AccountPool.State.{
  Error, Quota, QuotaObservation, Pool, Lease, unavailable, continuity, unknown, usable, exhausted,
}
use codex_account_pool.AccountPool.Acquisition.{set_profile}

unfoldable pub set_model : Lease → String → Lease
set_model l model = record l { model = model }

unfoldable pub quota_key : Lease → String → String
quota_key l profile = (((l.provider <> "\0") <> l.model) <> "\0") <> profile

-- A missing observation reads as the zero value, whose expiry is before any time.
unfoldable pub read_quota : Option QuotaObservation → ℕ → Quota
read_quota none now = unknown
read_quota (some q) now = if leb q.expires now then unknown else q.state

unfoldable pub known_quota : Pool → Lease → String → ℕ → Quota
known_quota p l profile now = read_quota (lookup (quota_key l profile) p.quota) now

unfoldable pub is_usable : Quota → Bool
is_usable usable = true
is_usable _ = false

unfoldable pub is_exhausted : Quota → Bool
is_exhausted exhausted = true
is_exhausted _ = false

-- The first candidate that the pool knows to be usable, or "".
unfoldable pub first_usable : Pool → Lease → ℕ → List String → String
first_usable p l now [] = ""
first_usable p l now (c ∷ cs) =
    if is_usable (known_quota p l c now) then c else first_usable p l now cs

abbrev pub head_or_empty : List String → String
head_or_empty [] = ""
head_or_empty (c ∷ cs) = c

-- The choice before quotas: the bound profile, overridden by the selector, or else the preferred
-- account, or else the first candidate.
unfoldable pub first_choice : String → String → String → List String → String
first_choice bound preferred selector candidates =
    let id = if not (selector == "") then selector else bound in
    let id' = if id == "" then preferred else id in
    if id' == "" then head_or_empty candidates else id'

unfoldable pub breaks_continuity : String → String → Bool → Bool
breaks_continuity bound selector history =
    history && ((bound == "") || (not (selector == "") && not (selector == bound)))

unfoldable pub choose : Pool → Lease → String → String → String → List String → ℕ → String
choose p l bound preferred selector candidates now =
    let id = first_choice bound preferred selector candidates in
    if (bound == "") && ((selector == "") && is_exhausted (known_quota p l id now))
    then first_usable p l now candidates
    else id

unfoldable pub select :
    Pool → Lease → String → String → List String → Bool → ℕ → Result Error String × Lease × Pool
select p l preferred selector candidates history now =
    let bound = (p.heap l.entry).profile in
    let l' : Lease = record l { explicit = not (selector == "") } in
    let id = choose p l bound preferred selector candidates now in
    if breaks_continuity bound selector history
    then (err continuity, l', p)
    else if (id == "") || not (contains candidates id)
    then (err unavailable, l', p)
    else (ok id, l', set_profile p l.entry id)

-- The error, if there is one, and the pool.
unfoldable pub restore_profile : Pool → Lease → String → Option Error × Pool
restore_profile p l profile =
    let bound = (p.heap l.entry).profile in
    if profile == ""
    then (none, p)
    else if not (bound == "") && not (bound == profile)
    then (some continuity, p)
    else (none, set_profile p l.entry profile)
