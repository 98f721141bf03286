-- ===== src/AuthBroker/Refresh.antt =====
-- What a refresh of internal/authbroker/broker.go does to the files, on every branch.
use codex_account_pool.Prelude.{
  ◌+◌, String, true, false, ◌||◌, ◌≡◌, refl, ◌≢◌, ap, inl, inr, Option, none, some, arith, eq_iff,
  ok, Result-cases, Bool-cases, is_blank, same_folded,
}
use codex_account_pool.AuthBroker.{
  World, AuthFile, Stored, decoded, missing, unreadable_file, malformed, Reply, no_reply, refused,
  answered, RefreshResponse, Fault, Payload, load_profile, merge_tokens, set_file, persist_refresh,
  names_other, accept_refresh, read_reply, refresh, definitive_refresh_rejection,
}

-- The account and the mode that a file names.
abbrev pub owner : Stored → Option (String × String)
owner (decoded doc) = some (doc.auth_mode, doc.tokens.account_id)
owner missing = none
owner unreadable_file = none
owner malformed = none

-- The world after work on one profile: its file still names the same account, and the other files,
-- the registry and the route are as before.
pub record Keeps (id : String) (w v : World) : Type 0 where
  pub others : (j : String) → j ≢ id → v.files j ≡ w.files j
  pub same_owner : owner (v.files id) ≡ owner (w.files id)
  pub registry : v.registry ≡ w.registry
  pub savable : v.savable ≡ w.savable
  pub exhausted : v.exhausted ≡ w.exhausted

pub Keeps-refl : (id : String) (w : World) → Keeps id w w
Keeps-refl id w = record {
  others = λ j n. refl;
  same_owner = refl;
  registry = refl;
  savable = refl;
  exhausted = refl;
}

module _ (w : World) (id : String) where
  load_profile_ok :
      (doc : AuthFile)
      → load_profile w id ≡ ok doc
      → (w.files id ≡ decoded doc) × (same_folded doc.auth_mode "chatgpt" ≡ true)
  unfolding load_profile
  load_profile_ok doc e = (ground arith, ground arith)

  persist_refresh-Keeps : (r : RefreshResponse) → Keeps id w (persist_refresh w id r).1
  unfolding persist_refresh load_profile set_file merge_tokens
  persist_refresh-Keeps r = record {
    others = λ j n. ground (arith, eq_iff id j);
    same_owner = ground (arith, eq_iff id id);
    registry = ground arith;
    savable = ground arith;
    exhausted = ground arith;
  }

  -- Success: the file is the old one with the new tokens.
  persist_refresh_ok :
      (r : RefreshResponse) (v : World)
      → persist_refresh w id r ≡ (none, v)
      → (doc : AuthFile) × (load_profile w id ≡ ok doc)
        × (v.files id ≡ decoded (record doc { tokens = merge_tokens doc.tokens r }))
  unfolding persist_refresh set_file
  persist_refresh_ok r v e = elim (Result-cases (load_profile w id)) [
    | inl (doc, l) ↦ (doc, l, ground (arith, eq_iff id id))
    | inr (f, l) ↦ absurd (ground arith)
  ]

  -- Failure: no file is written.
  persist_refresh_fault :
      (r : RefreshResponse) (f : Fault) (v : World) → persist_refresh w id r ≡ (some f, v) → v ≡ w
  unfolding persist_refresh
  persist_refresh_fault r f v e = ground arith

module _ (decode : String → Option Payload) (id : String) (doc : AuthFile) where
  -- What a reply must be to be accepted, and the file that it leaves.
  pub record Accepted (w : World) (v : World) (r : RefreshResponse) : Type 0 where
    pub has_token : is_blank r.access_token ≡ false
    pub id_token_ours : names_other decode doc.tokens.account_id r.id_token ≡ false
    pub access_token_ours : names_other decode doc.tokens.account_id r.access_token ≡ false
    pub current : AuthFile
    pub loaded : load_profile w id ≡ ok current
    pub stored : v.files id ≡ decoded (record current { tokens = merge_tokens current.tokens r })

  accept_refresh-Keeps :
      (w : World) (r : RefreshResponse) → Keeps id w (accept_refresh decode w id doc r).1
  unfolding accept_refresh
  accept_refresh-Keeps w r = elim (Bool-cases (is_blank r.access_token)) [
    | inl b ↦ rw b (Keeps-refl id w)
    | inr b ↦
        elim (Bool-cases (
          names_other decode doc.tokens.account_id r.id_token
          || names_other decode doc.tokens.account_id r.access_token)) [
            | inl n ↦ rw (b, n) (Keeps-refl id w)
            | inr n ↦ rw (b, n) (persist_refresh-Keeps w id r)
          ]
  ]

  accept_refresh_fault :
      (w : World) (r : RefreshResponse) (f : Fault) (v : World)
      → accept_refresh decode w id doc r ≡ (some f, v)
      → v ≡ w
  unfolding accept_refresh
  accept_refresh_fault w r f v e = ground (arith, persist_refresh_fault w id r f v)

  accept_refresh-Accepted :
      (w : World) (r : RefreshResponse) (v : World)
      → accept_refresh decode w id doc r ≡ (none, v)
      → Accepted w v r
  unfolding accept_refresh
  accept_refresh-Accepted w r v e =
      let (cur, l, st) = persist_refresh_ok w id r v (ground arith) in
      record {
        has_token = ground arith;
        id_token_ours = ground arith;
        access_token_ours = ground arith;
        current = cur;
        loaded = l;
        stored = st;
      }

  read_reply-Keeps : (w : World) (r : Reply) → Keeps id w (read_reply decode w id doc r).1
  unfolding read_reply
  read_reply-Keeps w no_reply = Keeps-refl id w
  read_reply-Keeps w (refused status body) =
      elim (Bool-cases (definitive_refresh_rejection status body)) [
        | inl b ↦ rw b (Keeps-refl id w)
        | inr b ↦ rw b (Keeps-refl id w)
      ]
  read_reply-Keeps w (answered none) = Keeps-refl id w
  read_reply-Keeps w (answered (some r)) = accept_refresh-Keeps w r

  read_reply_fault :
      (w : World) (r : Reply) (f : Fault) (v : World)
      → read_reply decode w id doc r ≡ (some f, v)
      → v.files ≡ w.files
  unfolding read_reply
  read_reply_fault w no_reply f v e = ground arith
  read_reply_fault w (refused status body) f v e = ground arith
  read_reply_fault w (answered none) f v e = ground arith
  read_reply_fault w (answered (some r)) f v e =
      ap (λ (u : World). u.files) (accept_refresh_fault w r f v e)

  read_reply-Accepted :
      (w : World) (r : Reply) (v : World)
      → read_reply decode w id doc r ≡ (none, v)
      → (a : RefreshResponse) × (r ≡ answered (some a)) × Accepted w v a
  unfolding read_reply
  read_reply-Accepted w no_reply v e = absurd (ground arith)
  read_reply-Accepted w (refused status body) v e = absurd (ground arith)
  read_reply-Accepted w (answered none) v e = absurd (ground arith)
  read_reply-Accepted w (answered (some r)) v e = (r, refl, accept_refresh-Accepted w r v e)

refresh_cases :
    (decode : String → Option Payload) (w : World) (id : String) (doc : AuthFile)
    → let (r, v) = refresh decode w id doc in
      Keeps id w v
      × ((f : Fault) → r ≡ some f → v.files ≡ w.files)
      × (r ≡ none
          → (a : RefreshResponse) × (w.replies w.asked ≡ answered (some a))
            × Accepted decode id doc w v a)
unfolding refresh load_profile
refresh_cases decode w id doc = elim (Bool-cases (is_blank doc.tokens.refresh_token)) [
  | inl b ↦ rw b (Keeps-refl id w, (λ f e. refl), (λ e. absurd (ground arith)))
  | inr b ↦
      let sent : World = record w { asked = w.asked + 1 } in
      let reply : Reply = w.replies w.asked in
      let v : World = (read_reply decode sent id doc reply).1 in
      let k = read_reply-Keeps decode id doc sent reply in
      rw b (
        record {
          others = k.others;
          same_owner = k.same_owner;
          registry = k.registry;
          savable = k.savable;
          exhausted = k.exhausted;
        },
        (λ f e. read_reply_fault decode id doc sent reply f v (ap (λ x. (x, v)) e)),
        λ e.
            let (a, same, ac) =
              read_reply-Accepted decode id doc sent reply v (ap (λ x. (x, v)) e) in
            (
              a,
              same,
              record {
                has_token = ac.has_token;
                id_token_ours = ac.id_token_ours;
                access_token_ours = ac.access_token_ours;
                current = ac.current;
                loaded = ac.loaded;
                stored = ac.stored;
              },
            ),
      )
]

-- No file is written where it fails; where it succeeds, the reply was accepted.
abbrev pub IsRefreshed :
    (String → Option Payload) → String → AuthFile → World → Option Fault → World → Type 0
IsRefreshed decode id doc w (some f) v = v.files ≡ w.files
IsRefreshed decode id doc w none v =
    (a : RefreshResponse) × (w.replies w.asked ≡ answered (some a)) × Accepted decode id doc w v a

refreshed :
    (decode : String → Option Payload) (w : World) (id : String) (doc : AuthFile) (o : Option Fault)
    (v : World)
    → ((f : Fault) → o ≡ some f → v.files ≡ w.files)
    → (o ≡ none
        → (a : RefreshResponse) × (w.replies w.asked ≡ answered (some a))
          × Accepted decode id doc w v a)
    → IsRefreshed decode id doc w o v
refreshed decode w id doc (some f) v fails succeeds = fails f refl
refreshed decode w id doc none v fails succeeds = succeeds refl

-- A refresh never changes whose account a profile's file names, nor another profile's file, the
-- registry or the route. When it fails, no file is written. It succeeds only with a reply that has an access
-- token and no token of another account, and then the file is the one that was there with the new
-- tokens merged in.
pub refresh_lem :
    (decode : String → Option Payload) (w : World) (id : String) (doc : AuthFile)
    → let (r, v) = refresh decode w id doc in Keeps id w v × IsRefreshed decode id doc w r v
refresh_lem decode w id doc =
    let (r, v) = refresh decode w id doc in
    let (keeps, fails, succeeds) = refresh_cases decode w id doc in
    (keeps, refreshed decode w id doc r v fails succeeds)
