-- ===== src/CodexMeta/Tests.antt =====
-- Runs of internal/codexmeta/version.go on small texts.
use codex_account_pool.Prelude.{
  true, false, ◌≡◌, refl, none, some, [], ◌∷◌, ok, codes, trim_codes, trim_left, trim_right,
  same_codes,
}
use codex_account_pool.CodexMeta.{
  matches_version, matches_from, is_tail, is_suffix, valid_candidates, newest, from_candidates,
  from_caches, from_file, read_version_file, resolve_client_version, persist_client_version,
}
use codex_account_pool.CodexMeta.Versions.{resolve_client_version-persist}

plain_version : matches_version (codes "0.21.3") ≡ true
unfolding matches_version matches_from
plain_version = refl

tagged_version : matches_version (codes "1.2.3-rc.1") ≡ true
unfolding matches_version matches_from is_tail is_suffix
tagged_version = refl

short_version : matches_version (codes "1.2") ≡ false
unfolding matches_version matches_from
short_version = refl

bare_tag : matches_version (codes "1.2.3-") ≡ false
unfolding matches_version matches_from is_tail
bare_tag = refl

later_cache :
    resolve_client_version (codes " ") none (
      some (
        record { version = codes "1.0.0"; fetched_at = 4 }
        ∷ record { version = codes "x"; fetched_at = 9 }
        ∷ record { version = codes "1.1.0 "; fetched_at = 5 }
        ∷ []))
    ≡ ok (codes "1.1.0")
unfolding resolve_client_version trim_codes trim_left trim_right same_codes read_version_file
    from_file from_caches from_candidates valid_candidates newest matches_version matches_from
later_cache = refl

is_written : (persist_client_version none (codes " 1.2.3") true).0 ≡ none
unfolding persist_client_version trim_codes trim_left trim_right matches_version matches_from
is_written = refl

resolve_client_version-persist_example :
    resolve_client_version [] (persist_client_version none (codes " 1.2.3") true).1 none
    ≡ ok (trim_codes (codes " 1.2.3"))
resolve_client_version-persist_example =
    resolve_client_version-persist none (codes " 1.2.3") true none is_written
