-- ===== src/Gateway/Requests.antt =====
-- How internal/gateway/gateway.go reads and rewrites requests and their headers, and the classes in
-- which it reports them.
use Prim.Native.String.{String, ◌++◌ as ◌<>◌}
use codex_account_pool.Prelude.{
  starts, ends, contains, lookup, Bool, true, ◌&&◌, ◌||◌, Option, none, some, List, [], ◌∷◌, Dict,
  Result, ok, err, insert, erase, if◌then◌else◌, ◌==◌, codes, same_folded,
}
use codex_account_pool.AuthBroker.{Credentials}
use codex_account_pool.Gateway.State.{
  Request, TransportError, TripError, body_unreadable, Body, no_body, broken_body, bytes,
}

abbrev pub responses_path : String
responses_path = "/backend-api/codex/responses"

abbrev pub has_prefix : String → String → Bool
has_prefix s p = starts (codes p) (codes s)

unfoldable pub is_websocket : Request → Bool
is_websocket r = same_folded r.upgrade "websocket"

unfoldable pub is_responses_websocket_upgrade : Request → Bool
is_responses_websocket_upgrade r = (r.path == responses_path) && is_websocket r

unfoldable pub request_transport : Request → String
request_transport r = if is_websocket r then "websocket" else "http"

unfoldable pub is_backend : Request → Bool
is_backend r = (r.path == "/backend-api") || has_prefix r.path "/backend-api/"

unfoldable pub route_template : String → String
route_template path =
    if (path == "/backend-api")
      || ((path == responses_path)
          || ((path == "/backend-api/codex/models") || (path == "/backend-api/models")))
    then path
    else if has_prefix path "/backend-api/codex/"
    then "/backend-api/codex/*"
    else if has_prefix path "/backend-api/wham/"
    then "/backend-api/wham/*"
    else if has_prefix path "/backend-api/"
    then "/backend-api/*"
    else "unknown"

unfoldable pub classify_operation : Option (Bool × String) → String
classify_operation none = "unknown"
classify_operation (some (timeout, op)) =
    if timeout then "upstream_timeout" else if op == "dial" then "connect" else "unknown"

unfoldable pub classify_transport_error : TransportError → String
classify_transport_error e =
    if e.canceled
    then "client_cancel"
    else if e.deadline_exceeded
    then "upstream_timeout"
    else if e.dns
    then "dns"
    else if e.unknown_authority || e.record_header
    then "tls"
    else classify_operation e.operation

unfoldable pub safe_auth_retry : Request → Bool
safe_auth_retry r =
    if (r.method == "GET") || ((r.method == "HEAD") || (r.method == "OPTIONS"))
    then true
    else (r.method == "POST") && (r.path == responses_path)

unfoldable pub sanitize_auth_headers : Dict (List String) → Dict (List String)
sanitize_auth_headers header =
    erase "Cookie"
      (erase "Proxy-Authorization" (erase "Chatgpt-Account-Id" (erase "Authorization" header)))

unfoldable pub apply_credentials : Dict (List String) → Credentials → Dict (List String)
apply_credentials header c =
    insert "Chatgpt-Account-Id" (c.account_id ∷ [])
      (insert "Authorization" (("Bearer " <> c.access_token) ∷ []) header)

-- A nil body is no slice.
unfoldable pub replayable : Body → Result TripError (Option String)
replayable no_body = ok none
replayable broken_body = err body_unreadable
replayable (bytes s) = ok (some s)

-- The body that a new attempt has: the buffered bytes again, or none at all.
abbrev pub body_of : Option String → Body
body_of none = no_body
body_of (some s) = bytes s

-- The request of another attempt: the same one with the account's credentials.
unfoldable pub clone_for_retry : Request → Option String → Credentials → Request
clone_for_retry r body c = record r {
  header = apply_credentials (sanitize_auth_headers r.header) c;
  body = body_of body;
  credentials = some c;
}

unfoldable pub erase_all : List String → Dict (List String) → Dict (List String)
erase_all [] header = header
erase_all (k ∷ ks) header = erase k (erase_all ks header)

-- hopHeaders of net/http/httputil, and the headers that it takes away for a Rewrite.
abbrev pub hop_headers : List String
hop_headers =
    "Connection" ∷ "Proxy-Connection" ∷ "Keep-Alive" ∷ "Proxy-Authenticate" ∷ "Proxy-Authorization"
    ∷ "Te" ∷ "Trailer" ∷ "Transfer-Encoding" ∷ "Upgrade" ∷ []

abbrev pub forwarded_headers : List String
forwarded_headers = "Forwarded" ∷ "X-Forwarded-For" ∷ "X-Forwarded-Host" ∷ "X-Forwarded-Proto" ∷ []

unfoldable pub upgrade_type : Request → String
upgrade_type r = if contains r.connection "Upgrade" then r.upgrade else ""

unfoldable pub keep_trailers : Bool → Dict (List String) → Dict (List String)
keep_trailers trailers header = if trailers then insert "Te" ("trailers" ∷ []) header else header

unfoldable pub keep_upgrade : String → Dict (List String) → Dict (List String)
keep_upgrade type header =
    if type == ""
    then header
    else insert "Upgrade" (type ∷ []) (insert "Connection" ("Upgrade" ∷ []) header)

-- The header of pr.Out when ReverseProxy calls Rewrite. A type of upgrade that is not printable, which
-- it refuses, is left out.
unfoldable pub proxied_header : Request → Dict (List String)
proxied_header r = erase_all forwarded_headers (
    keep_upgrade (upgrade_type r)
      (keep_trailers r.trailers (erase_all hop_headers (erase_all r.connection r.header))))

unfoldable pub default_agent : Option (List String) → Dict (List String) → Dict (List String)
default_agent none header = insert "User-Agent" ("" ∷ []) header
default_agent (some v) header = header

-- The URL of the upstream, with a path that has no escapes.
pub record Upstream : Type 0 where
  pub scheme : String
  pub host : String
  pub path : String

abbrev pub rest_of : String → String
rest_of String.[] = ""
rest_of (String.◌∷◌ c s) = s

-- The path that SetURL joins.
unfoldable pub joined_path : String → String → String
joined_path a b =
    let before = ends (codes "/") (codes a) in
    let after = has_prefix b "/" in
    if before && after then a <> rest_of b else if before || after then a <> b else (a <> "/") <> b

unfoldable pub rewrite_credentials : Option Credentials → Dict (List String) → Dict (List String)
rewrite_credentials none header = header
rewrite_credentials (some c) header = apply_credentials header c

-- Rewrite of New, on pr.Out.
unfoldable pub rewrite : Upstream → Request → Request
rewrite upstream r = record r {
  scheme = upstream.scheme;
  host = upstream.host;
  path = joined_path upstream.path r.path;
  header = rewrite_credentials r.credentials (sanitize_auth_headers r.header);
}

unfoldable pub with_agent : Request → Request
with_agent r = record r { header = default_agent (lookup "User-Agent" r.header) r.header }

-- The request that the reverse proxy gives to RoundTrip.
unfoldable pub outgoing : Upstream → Request → Request
outgoing upstream r = with_agent (rewrite upstream (record r { header = proxied_header r }))
