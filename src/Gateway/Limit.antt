-- ===== src/Gateway/Limit.antt =====
-- The responses of internal/gateway/gateway.go that announce a used-up limit.
use codex_account_pool.Prelude.{
  ℕ, ◌+◌, ◌-◌, ◌*◌, ◌/◌, ◌^◌, String, Bool, ◌&&◌, ◌||◌, Option, none, some, List, [], ◌∷◌, leb, ltb,
  eqb, map, if◌then◌else◌, codes, lower, same_codes, trim_codes,
}
use codex_account_pool.Gateway.State.{Body, no_body, broken_body, bytes, Response}

-- The payload of a response as encoding/json reads it: the texts under "type" and the raw values
-- under "resets_at", at the top and under "error"; an absent value is empty.
pub record LimitPayload : Type 0 where
  pub kind : String
  pub resets_at : List ℕ
  pub error_kind : String
  pub error_resets_at : List ℕ

unfoldable pub is_digit : ℕ → Bool
is_digit c = leb b'0' c && leb c b'9'

-- A number in digits, with those before it.
unfoldable pub digits : ℕ → List ℕ → Option ℕ
digits n [] = some n
digits n (c ∷ s) = let rest = digits (n * 10 + (c - b'0')) s in if is_digit c then rest else none

unfoldable pub within : ℕ → Option ℕ → Option ℕ
within bound none = none
within bound (some n) = if leb n bound then some n else none

unfoldable pub unsigned : ℕ → List ℕ → Option ℕ
unsigned bound [] = none
unsigned bound (c ∷ s) = within bound (digits 0 (c ∷ s))

-- A number below 0 stands for 0: as a time it has passed, whichever it is.
abbrev pub below_zero : Option ℕ → Option ℕ
below_zero none = none
below_zero (some n) = some 0

-- strconv.ParseInt(s, 10, 64)
unfoldable pub parse_int : List ℕ → Option ℕ
parse_int [] = none
parse_int (c ∷ s) =
    if eqb c b'-'
    then below_zero (unsigned (2 ^ 63) s)
    else if eqb c b'+'
    then unsigned (2 ^ 63 - 1) s
    else unsigned (2 ^ 63 - 1) (c ∷ s)

-- strings.Trim(s, `"`)
unfoldable pub unquote_left : List ℕ → List ℕ
unquote_left [] = []
unquote_left (c ∷ s) = let rest = unquote_left s in if eqb c b'"' then rest else c ∷ s

unfoldable pub unquote_right : List ℕ → List ℕ
unquote_right [] = []
unquote_right (c ∷ s) = elim (unquote_right s) [
  | [] ↦ if eqb c b'"' then [] else c ∷ []
  | d ∷ t ↦ c ∷ d ∷ t
]

-- A number that is too large for seconds is in milliseconds.
unfoldable pub as_seconds : ℕ → ℕ
as_seconds n = if ltb 10000000000 n then n / 1000 else n

abbrev pub nanoseconds : ℕ
nanoseconds = 1000000000

abbrev pub or_else : Option ℕ → Option ℕ → Option ℕ
or_else none o = o
or_else (some t) o = some t

-- What usageLimitResponse finds: a body that cannot be read, or a limit, or none.
pub data Verdict : Type 0 where
  unreadable not_limited : Verdict
  limited : Option ℕ → Verdict

unfoldable pub verdict_of : Option (Option ℕ) → Verdict
verdict_of none = not_limited
verdict_of (some t) = limited t

unfoldable pub limit_kind : LimitPayload → List ℕ
limit_kind p =
    let kind = map lower (trim_codes (codes p.error_kind)) in
    if same_codes kind [] then map lower (trim_codes (codes p.kind)) else kind

-- `parse_time` is time.Parse for RFC 3339, in nanoseconds; `none` is the zero time.
module _ (parse_time : List ℕ → Option ℕ) where
  unfoldable pub reset_of : List ℕ → Option ℕ → Option ℕ
  reset_of value (some unix) = some (as_seconds unix * nanoseconds)
  reset_of value none = parse_time value

  unfoldable pub parse_reset_at : List ℕ → Option ℕ
  parse_reset_at raw =
      let value = unquote_right (unquote_left (trim_codes raw)) in
      if same_codes value [] || same_codes value (codes "null")
      then none
      else reset_of value (parse_int value)

  unfoldable pub reset_at : LimitPayload → Option ℕ
  reset_at p = or_else (parse_reset_at p.error_resets_at) (parse_reset_at p.resets_at)

  -- Not limited, or limited until a time.
  unfoldable pub limit_of : Option LimitPayload → Option (Option ℕ)
  limit_of none = none
  limit_of (some p) =
      if same_codes (limit_kind p) (codes "usage_limit_reached")
        || same_codes (limit_kind p) (codes "usage_limit_exceeded")
      then some (reset_at p)
      else none

  module _ (decode : String → Option LimitPayload) where
    unfoldable pub body_verdict : Body → Verdict
    body_verdict no_body = not_limited
    body_verdict broken_body = unreadable
    body_verdict (bytes s) = verdict_of (limit_of (decode s))

    unfoldable pub usage_limit_response : Response → Verdict
    usage_limit_response r = if eqb r.status 429 then body_verdict r.body else not_limited
