-- ===== src/Gateway/Headers.antt =====
-- The headers that a request of internal/gateway/gateway.go has after Rewrite and cloneForRetry, and
-- after the reverse proxy of net/http/httputil around them.
use Prim.Native.String.{◌++◌ as ◌<>◌}
use codex_account_pool.Prelude.{
  String, Bool, true, false, ◌||◌, Option, none, some, List, [], ◌∷◌, ◌≡◌, ◌≢◌, refl, ap, sym,
  subst, ◌∙◌, if◌then◌else◌, ◌==◌, Dict, lookup, insert, erase, lookup-insert, lookup-erase, arith,
  eq_iff, inl, inr, Bool-cases, contains, not, ◌&&◌,
}
use codex_account_pool.AuthBroker
use codex_account_pool.AuthBroker.{Fault}
use codex_account_pool.Gateway.{
  Request, clone_for_retry, sanitize_auth_headers, apply_credentials, rewrite, rewrite_credentials,
  body_of, with_credentials, Upstream, outgoing, with_agent, default_agent, proxied_header,
  erase_all, keep_trailers, keep_upgrade, upgrade_type, hop_headers, forwarded_headers, joined_path,
}

-- The headers that the gateway takes away.
abbrev pub is_guarded : String → Bool
is_guarded k =
    (k == "Authorization")
    || ((k == "Chatgpt-Account-Id") || ((k == "Proxy-Authorization") || (k == "Cookie")))

-- The values that a header of the gateway has, under a key that it takes away.
abbrev pub guarded_value : AuthBroker.Credentials → String → Option (List String)
guarded_value c k =
    if k == "Authorization"
    then some (("Bearer " <> c.access_token) ∷ [])
    else if k == "Chatgpt-Account-Id"
    then some (c.account_id ∷ [])
    else none

-- The values that the reverse proxy passes on under a key.
abbrev pub passed_value : Request → String → Option (List String)
passed_value r k =
    if contains forwarded_headers k
    then none
    else if not (upgrade_type r == "") && (k == "Upgrade")
    then some (upgrade_type r ∷ [])
    else if not (upgrade_type r == "") && (k == "Connection")
    then some ("Upgrade" ∷ [])
    else if r.trailers && (k == "Te")
    then some ("trailers" ∷ [])
    else if contains hop_headers k
    then none
    else if contains r.connection k
    then none
    else lookup k r.header

-- An agent that is missing.
abbrev pub agent_value : String → Option (List String) → Option (List String)
agent_value k none = if k == "User-Agent" then some ("" ∷ []) else none
agent_value k (some v) = some v

-- A request for the upstream, made from the client's request.
pub record IsSentFor (upstream : Upstream) (client : Request) (r : Request) : Type 0 where
  pub account : AuthBroker.Credentials
  pub given : r.credentials ≡ some account
  pub guarded : (k : String) → is_guarded k ≡ true → lookup k r.header ≡ guarded_value account k
  pub kept :
      (k : String)
      → is_guarded k ≡ false
      → lookup k r.header ≡ agent_value k (passed_value client k)
  pub method : r.method ≡ client.method
  pub path : r.path ≡ joined_path upstream.path client.path
  pub scheme : r.scheme ≡ upstream.scheme
  pub host : r.host ≡ upstream.host
  pub body : r.body ≡ client.body

other_names : ◌≢◌ {A = String} "Authorization" "Chatgpt-Account-Id"
other_names e = cc

lookup-applied :
    (k : String) (h : Dict (List String)) (c : AuthBroker.Credentials)
    → lookup k (apply_credentials (sanitize_auth_headers h) c)
      ≡ (if is_guarded k then guarded_value c k else lookup k h)
unfolding apply_credentials sanitize_auth_headers
lookup-applied k h c =
    let h1 = erase "Authorization" h in
    let h2 = erase "Chatgpt-Account-Id" h1 in
    let h3 = erase "Proxy-Authorization" h2 in
    let h4 = erase "Cookie" h3 in
    let v = ("Bearer " <> c.access_token) ∷ [] in
    ground (
      arith,
      lookup-insert "Chatgpt-Account-Id" k (c.account_id ∷ []) (insert "Authorization" v h4),
      lookup-insert "Authorization" k v h4,
      lookup-erase "Cookie" k h3,
      lookup-erase "Proxy-Authorization" k h2,
      lookup-erase "Chatgpt-Account-Id" k h1,
      lookup-erase "Authorization" k h,
      eq_iff "Authorization" k,
      eq_iff k "Authorization",
      eq_iff "Chatgpt-Account-Id" k,
      eq_iff k "Chatgpt-Account-Id",
      eq_iff "Cookie" k,
      eq_iff k "Cookie",
      eq_iff "Proxy-Authorization" k,
      eq_iff k "Proxy-Authorization",
      other_names,
    )

pub clone-IsSentFor :
    (upstream : Upstream) (client r : Request) (body : Option String) (c : AuthBroker.Credentials)
    → IsSentFor upstream client r
    → body_of body ≡ client.body
    → IsSentFor upstream client (clone_for_retry r body c)
unfolding clone_for_retry
clone-IsSentFor upstream client r body c h b = record {
  account = c;
  given = refl;
  guarded = λ k g. lookup-applied k r.header c ∙ ground (arith, g);
  kept = λ k g. lookup-applied k r.header c ∙ ground (arith, g, h.kept k g);
  method = h.method;
  path = h.path;
  scheme = h.scheme;
  host = h.host;
  body = b;
}

lookup-erase_all :
    (k : String) (ks : List String) (h : Dict (List String))
    → lookup k (erase_all ks h) ≡ (if contains ks k then none else lookup k h)
unfolding erase_all contains
lookup-erase_all k [] h = refl
lookup-erase_all k (x ∷ ks) h =
    ground
      (arith, lookup-erase x k (erase_all ks h), lookup-erase_all k ks h, eq_iff x k, eq_iff k x)

lookup-keep_trailers :
    (k : String) (b : Bool) (h : Dict (List String))
    → lookup k (keep_trailers b h)
      ≡ (if b && (k == "Te") then some ("trailers" ∷ []) else lookup k h)
unfolding keep_trailers
lookup-keep_trailers k b h =
    ground (arith, lookup-insert "Te" k ("trailers" ∷ []) h, eq_iff "Te" k, eq_iff k "Te")

upgrade_names : ◌≢◌ {A = String} "Upgrade" "Connection"
upgrade_names e = cc

lookup-keep_upgrade :
    (k type : String) (h : Dict (List String))
    → lookup k (keep_upgrade type h) ≡ (
        if not (type == "") && (k == "Upgrade")
        then some (type ∷ [])
        else if not (type == "") && (k == "Connection")
        then some ("Upgrade" ∷ [])
        else lookup k h)
unfolding keep_upgrade
lookup-keep_upgrade k type h = ground (
  arith,
  lookup-insert "Upgrade" k (type ∷ []) (insert "Connection" ("Upgrade" ∷ []) h),
  lookup-insert "Connection" k ("Upgrade" ∷ []) h,
  eq_iff "Upgrade" k,
  eq_iff k "Upgrade",
  eq_iff "Connection" k,
  eq_iff k "Connection",
  upgrade_names,
)

lookup-proxied_header : (k : String) (r : Request) → lookup k (proxied_header r) ≡ passed_value r k
unfolding proxied_header
lookup-proxied_header k r =
    let h1 = erase_all r.connection r.header in
    let h2 = erase_all hop_headers h1 in
    let h3 = keep_trailers r.trailers h2 in
    let h4 = keep_upgrade (upgrade_type r) h3 in
    rw
      (
        lookup-erase_all k forwarded_headers h4,
        lookup-keep_upgrade k (upgrade_type r) h3,
        lookup-keep_trailers k r.trailers h2,
        lookup-erase_all k hop_headers h1,
        lookup-erase_all k r.connection r.header,
      )
      refl

agent_value-other :
    (k : String) (o : Option (List String)) → (k == "User-Agent") ≡ false → agent_value k o ≡ o
agent_value-other k none n = rw n refl
agent_value-other k (some v) n = refl

false_first : {A : Type 0} → false ≡ true → A
false_first e = cc

guarded-other : (k : String) → is_guarded k ≡ true → (k == "User-Agent") ≡ false
guarded-other k g = elim (Bool-cases (k == "User-Agent")) [
  | inr e ↦ e
  | inl e ↦ false_first (subst (λ x. is_guarded x ≡ true) ((eq_iff k "User-Agent").0 e) g)
]

lookup-default_agent :
    (k : String) (h : Dict (List String)) (o : Option (List String))
    → lookup "User-Agent" h ≡ o
    → lookup k (default_agent o h) ≡ agent_value k (lookup k h)
unfolding default_agent
lookup-default_agent k h none e =
    lookup-insert "User-Agent" k ("" ∷ []) h ∙ elim (Bool-cases (k == "User-Agent")) [
      | inl n ↦
          let missing : lookup k h ≡ none =
            subst (λ x. lookup x h ≡ none) (sym ((eq_iff k "User-Agent").0 n)) e in
          rw missing (ground (arith, n, eq_iff "User-Agent" k, eq_iff k "User-Agent"))
      | inr n ↦
          ground (arith, n, eq_iff "User-Agent" k, eq_iff k "User-Agent")
          ∙ sym (agent_value-other k (lookup k h) n)
    ]
lookup-default_agent k h (some v) e = elim (Bool-cases (k == "User-Agent")) [
  | inl n ↦
      let given : lookup k h ≡ some v =
        subst (λ x. lookup x h ≡ some v) (sym ((eq_iff k "User-Agent").0 n)) e in
      rw given refl
  | inr n ↦ sym (agent_value-other k (lookup k h) n)
]

pub outgoing-IsSentFor :
    (upstream : Upstream) (r : Request) (id : String) (c : AuthBroker.Credentials)
    → IsSentFor upstream r (outgoing upstream (with_credentials r id c))
unfolding outgoing with_agent rewrite with_credentials rewrite_credentials proxied_header
    upgrade_type
outgoing-IsSentFor upstream r id c = record {
  account = c;
  given = refl;
  guarded = λ k g.
      lookup-default_agent k _ _ refl
      ∙ (agent_value-other k _ (guarded-other k g)
          ∙ (lookup-applied k (proxied_header r) c ∙ ground (arith, g)));
  kept = λ k g.
      lookup-default_agent k _ _ refl
      ∙ ap (agent_value k)
          (lookup-applied k (proxied_header r) c ∙ (rw g (lookup-proxied_header k r)));
  method = refl;
  path = refl;
  scheme = refl;
  host = refl;
  body = refl;
}
