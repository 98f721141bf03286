-- ===== src/AuthBroker/Tests.antt =====
-- Runs of internal/authbroker/broker.go on a world of two profiles.
use codex_account_pool.Prelude.{
  take, drop, suc, ◌-◌, String, true, ◌≡◌, refl, Option, none, some, List, [], ◌∷◌, ◌++◌, arith, ok,
  err, length, ltb, if◌then◌else◌, same_folded, same_codes, trim_codes, trim_right, trim_left,
  is_blank, second_part,
}
use codex_account_pool.Profile
use codex_account_pool.Profile.{Registry, Profile}
use codex_account_pool.AuthBroker.{
  World, AuthFile, decoded, answered, Fault, no_alternate, Payload, RefreshResponse, refresh,
  credentials_for_profile, force_refresh, load_profile, names_other, jwt_account, jwt_payload,
}
use codex_account_pool.AuthBroker.Refresh.{Keeps, IsRefreshed, refresh_lem}
use codex_account_pool.AuthBroker.Identity.{
  IsBase, Outcome, credentials-Outcome, force_refresh-Outcome,
}
use codex_account_pool.AuthBroker.Inspection.{
  ProfileAuthInfo, IsValidated, validate_profile_auth, validate_profile_auth-IsValidated, info_of,
  inspect_auth_file, inspect_loaded, check_info, unless_invalid, is_mismatched,
}
use codex_account_pool.AuthBroker.Failover.{
  Source, mark_exhausted, is_blocked, failover, try_ring, codex_ids, start_of,
}
use codex_account_pool.AuthBroker.Failover.Ring.{visited, visited_ring}
use codex_account_pool.AuthBroker.Failover.Walk.{try_list, try_ring-list}
use codex_account_pool.AuthBroker.Failover.Outcome.{Routed, IsOther, failover-Routed}
use codex_account_pool.AuthBroker.Failover.Supply.{IsQuiet, broker_source}

-- No token has a readable payload, and no lock is waited for.
abbrev pub opaque : String → Option Payload
opaque part = none

abbrev pub no_waits : String → Option (World → World)
no_waits id = none

pub no_waits-IsQuiet : IsQuiet no_waits
no_waits-IsQuiet = record { marks = λ id others w e. cc; registry = λ id others w e. cc }

abbrev source : Source
source = broker_source opaque no_waits no_waits-IsQuiet 100

abbrev pub login_of : String → AuthFile
login_of id = record {
  auth_mode = "chatgpt";
  has_tokens = true;
  tokens = record { id_token = ""; access_token = "a.b.c"; refresh_token = "r"; account_id = id };
}

abbrev pub registry : Registry
registry = record {
  version = 1;
  profiles =
      record { id = "home"; provider = "codex"; isolation = "codex-home" }
      ∷ record { id = "work"; provider = "codex"; isolation = "codex-home" }
      ∷ [];
  active = ("codex", "work") ∷ [];
}

abbrev pub renewed : RefreshResponse
renewed = record { id_token = ""; access_token = "d.e.f"; refresh_token = "" }

abbrev pub world : World
world = record {
  files = λ id. decoded (login_of id);
  registry = some registry;
  savable = true;
  writable = λ id. true;
  replies = λ n. answered (some renewed);
  asked = 0;
  exhausted = [];
}

abbrev marked : World
marked = record world { exhausted = mark_exhausted [] "work" 500 100 }

failover-Routed_example :
    Routed marked 100 (failover source world "work" 500 100)
    × (is_blocked marked.exhausted "work" 100 ≡ true)
    × IsOther "work" (failover source world "work" 500 100).0
failover-Routed_example = failover-Routed source world "work" 500 100

try_ring-list_example : try_ring source registry "work" 100 marked ≡ (
    if ltb (length (codex_ids registry)) 2
    then (err no_alternate, marked)
    else try_list source registry 100
        (drop (suc (start_of "work" (codex_ids registry))) (codex_ids registry)
          ++ take (start_of "work" (codex_ids registry)) (codex_ids registry))
        none
        marked)
try_ring-list_example = try_ring-list source registry "work" 100 marked

abbrev ring : List String
ring = "home" ∷ "lab" ∷ "work" ∷ []

visited_ring_example : visited ring 1 (length ring - 1) 1 ≡ drop 2 ring ++ take 1 ring
visited_ring_example = visited_ring ring 1 (omega arith)

abbrev refreshed : Option Fault × World
refreshed = refresh opaque world "work" (login_of "work")

refresh_example :
    Keeps "work" world refreshed.1
    × IsRefreshed opaque "work" (login_of "work") world refreshed.0 refreshed.1
refresh_example = refresh_lem opaque world "work" (login_of "work")

credentials-Outcome_example :
    (base : World) × IsBase none world base
    × Outcome "work" base (credentials_for_profile opaque none "work" 100 world)
credentials-Outcome_example = credentials-Outcome opaque none "work" 100 world

abbrev no_others : World → World
no_others w = w

force_refresh-Outcome_example :
    (base : World) × IsBase (some no_others) world base
    × Outcome "work" base (force_refresh opaque (some no_others) "work" world)
force_refresh-Outcome_example = force_refresh-Outcome opaque (some no_others) "work" world

abbrev work_info : ProfileAuthInfo
work_info = info_of opaque "work" (login_of "work") 100

work_passes : validate_profile_auth opaque world "work" 100 ≡ ok (work_info, none)
unfolding validate_profile_auth inspect_auth_file load_profile inspect_loaded check_info
    unless_invalid is_mismatched info_of Profile.validate_profile Profile.matches_id
    Profile.all_id_chars same_folded same_codes trim_codes trim_right trim_left is_blank names_other
    jwt_account jwt_payload second_part
work_passes = refl

validate_profile_auth_example : IsValidated opaque world "work"
validate_profile_auth_example =
    validate_profile_auth-IsValidated opaque world "work" 100 work_info work_passes
