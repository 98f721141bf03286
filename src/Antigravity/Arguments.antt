-- ===== src/Antigravity/Arguments.antt =====
-- The arguments of a call in internal/antigravity: argsDigest and canonicalArgs of replay.go and
-- matchesCallArgs of plan_replay.go, over the JSON package and the hash.
use codex_account_pool.Prelude.{
  ℕ, ◌+◌, String, Bool, true, false, not, ◌&&◌, ◌||◌, Option, none, some, List, length, ltb, codes,
  starts, ends, Dict, lookup, insert, if◌then◌else◌, ◌==◌,
}

-- encoding/json and crypto/sha256: a decoded value is a text, an object or something else.
pub record Encoding : Type 1 where
  pub Value : Type 0
  pub decode : String → Option Value
  pub encode : Value → Option String
  pub as_text : Value → Option String
  pub as_object : Value → Option (Dict Value)
  pub object : Dict Value → Value
  pub sha256 : String → String

abbrev pub plan_prefix : String
plan_prefix = "[Plan approved and saved to "

abbrev pub plan_suffix : String
plan_suffix =
    ". The plan text was removed from the conversation after approval; read that file if you need to consult it again.]"

unfoldable pub is_replaced_plan : List ℕ → Bool
is_replaced_plan plan =
    starts (codes plan_prefix) plan
    && (ends (codes plan_suffix) plan
        && ltb (length (codes plan_prefix) + length (codes plan_suffix)) (length plan))

module _ (json : Encoding) where
  -- The argument of type `any`: a text, or a value.
  pub data Args : Type 0 where
    text : String → Args
    value : json.Value → Args

  unfoldable pub or_empty_text : Option String → String
  or_empty_text none = ""
  or_empty_text (some s) = s

  unfoldable pub encoded : json.Value → String
  encoded v = or_empty_text (json.encode v)

  unfoldable pub canonical_text : String → Option json.Value → String
  canonical_text s none = s
  canonical_text s (some v) = encoded v

  unfoldable pub canonical_args : Args → String
  canonical_args (text s) = canonical_text s (json.decode s)
  canonical_args (value v) = encoded v

  unfoldable pub args_digest : Args → String
  args_digest args = json.sha256 (canonical_args args)

  -- json.Unmarshal into a map, and not nil.
  unfoldable pub object_of : Option json.Value → Option (Dict json.Value)
  object_of none = none
  object_of (some v) = json.as_object v

  unfoldable pub text_under : String → Dict json.Value → Option String
  text_under k m = elim (lookup k m) [ none ↦ none | some v ↦ json.as_text v ]

  -- The received object with the plan of the original one.
  unfoldable pub with_plan : Dict json.Value → Option json.Value → Dict json.Value
  with_plan received none = received
  with_plan received (some plan) = insert "plan" plan received

  unfoldable pub matches_objects :
      String → Option (Dict json.Value) → Option (Dict json.Value) → Bool
  matches_objects digest (some received) (some original) = elim (text_under "plan" received) [
    | none ↦ false
    | some plan ↦ elim (text_under "plan" original) [
      | none ↦ false
      | some p ↦
          is_replaced_plan (codes plan)
          && (digest
              == args_digest (value (json.object (with_plan received (lookup "plan" original)))))
    ]
  ]
  matches_objects digest _ _ = false

  -- The record's digest, its name and its original arguments.
  unfoldable pub matches_call_args : String → String → String → Args → Bool
  matches_call_args digest name original_args args =
      if digest == args_digest args
      then true
      else if not (name == "exit_plan_mode") || (original_args == "")
      then false
      else matches_objects digest (object_of (json.decode (canonical_args args)))
          (object_of (json.decode original_args))
