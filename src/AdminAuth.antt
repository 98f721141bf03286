-- ===== src/AdminAuth.antt =====
-- internal/adminauth: the sessions of the administration API (session.go), the comparison of keys
-- (key.go) and that of the clients' keys (internal/clientauth/key.go). Header values and keys are
-- their bytes, and a session's id a text. Random tokens and readings of the clock are arguments.
pub mod History
pub mod Tests
use codex_account_pool.Prelude.{
  ℕ, ◌+◌, ◌*◌, String, Bool, true, false, not, ◌&&◌, ◌||◌, Option, none, some, List, [], ◌∷◌, map,
  take, drop, Dict, lookup, insert, erase, retain, leb, ltb, eqb, if◌then◌else◌, ◌==◌, lower_bytes,
  trim_space, same_codes, codes, lower, starts, length,
}
use codex_account_pool.AccountPool.{minute}

-- subtle.ConstantTimeCompare says whether the bytes are the same.
unfoldable pub matches_key : List ℕ → List ℕ → Bool
matches_key candidate key =
    let c = trim_space candidate in
    if same_codes c [] || (same_codes key [] || not (eqb (length c) (length key)))
    then false
    else same_codes c key

-- Matches of clientauth
unfoldable pub matches_bearer : List ℕ → List ℕ → Bool
matches_bearer header key =
    if leb (length header) 7 || not (same_codes (lower_bytes (take 7 header)) (codes "bearer "))
    then false
    else matches_key (drop 7 header) key

pub record Session : Type 0 where
  pub id : String
  pub csrf_token : List ℕ
  pub expires_at : ℕ

pub record Sessions : Type 0 where
  pub key : List ℕ
  pub sessions : Dict Session
  pub ttl : ℕ

unfoldable pub new_sessions : List ℕ → Sessions
new_sessions key = record { key = key; sessions = []; ttl = 60 * minute }

unfoldable pub is_expired : ℕ → Session → Bool
is_expired now s = leb s.expires_at now

unfoldable pub prune_locked : Sessions → ℕ → Sessions
prune_locked s now = record s { sessions = retain (λ id x. not (is_expired now x)) s.sessions }

-- The two readings of the clock in Login stand for the expiry and for the pruning.
unfoldable pub login : Sessions → List ℕ → String → List ℕ → ℕ → ℕ → Option Session × Sessions
login s candidate id csrf issued now =
    let session : Session = record { id = id; csrf_token = csrf; expires_at = issued + s.ttl } in
    let pruned = prune_locked s now in
    if not (matches_key candidate s.key)
    then (none, s)
    else (some session, record pruned { sessions = insert id session pruned.sessions })

-- The value of the cookie, "" where there is none.
unfoldable pub logout : Sessions → String → Sessions
logout s cookie = if cookie == "" then s else record s { sessions = erase cookie s.sessions }

unfoldable pub authenticate : Sessions → String → ℕ → Option Session × Sessions
authenticate s cookie now =
    let pruned = prune_locked s now in
    if cookie == "" then (none, s) else (lookup cookie pruned.sessions, pruned)

-- What url.Parse reads of an origin.
pub record Url : Type 0 where
  pub scheme : List ℕ
  pub host : List ℕ

unfoldable pub of_host : List ℕ → Option Url → Bool
of_host host none = false
of_host host (some u) =
    (same_codes u.scheme (codes "http") || same_codes u.scheme (codes "https"))
    && same_codes (lower_bytes u.host) (lower_bytes host)

unfoldable pub same_origin : (List ℕ → Option Url) → List ℕ → List ℕ → Bool
same_origin parse origin host =
    let o = trim_space origin in if same_codes o [] then false else of_host host (parse o)

unfoldable pub valid_csrf : (List ℕ → Option Url) → List ℕ → List ℕ → List ℕ → Session → Bool
valid_csrf parse token origin host session =
    if same_codes session.csrf_token []
    then false
    else matches_key token session.csrf_token && same_origin parse origin host
