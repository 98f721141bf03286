-- ===== src/Antigravity/Replay/Lifetimes.antt =====
-- How long the records of internal/antigravity/replay.go live: from a new cache, under any operations.
use codex_account_pool.Prelude.{
  ℕ, String, Bool, true, false, ◌&&◌, ◌||◌, eqb, ◌≡◌, List, [], ◌∷◌, ◌==◌,
}
use codex_account_pool.Antigravity.Arguments.{Encoding}
use codex_account_pool.Antigravity.Replay.{ReplayCache, session_key, replay_key}
use codex_account_pool.Antigravity.Replay.Affinity.{
  Operation, remember_one_call, remember_signature, bind, run,
}
use codex_account_pool.Antigravity.Replay.Expiry.{Stores}

-- The operations with their times and with whether the file can be written.
unfoldable pub run_all :
    (json : Encoding) → ReplayCache → List (Operation json × ℕ × Bool) → ReplayCache
run_all json c [] = c
run_all json c ((o, now, w) ∷ os) = run_all json (run json c o now w) os

-- Whether an operation stores a call, a signature or a session under a key, if it stores anything.
unfoldable pub stores_call : (json : Encoding) → String → Operation json → Bool
stores_call json k (remember_one_call id wire p m s n args sig step position) = id == k
stores_call json k _ = false

unfoldable pub stores_entry : (json : Encoding) → String → Operation json → Bool
stores_entry json k (remember_signature p m s n args sig) = replay_key json p m s n args == k
stores_entry json k _ = false

unfoldable pub stores_session : (json : Encoding) → String → Operation json → Bool
stores_session json k (remember_one_call id wire p m s n args sig step position) =
    session_key m s == k
stores_session json k (remember_signature p m s n args sig) = session_key m s == k
stores_session json k (bind p m s) = session_key m s == k
stores_session json k _ = false

-- Whether one of the operations of a kind was at a time.
unfoldable pub happened :
    {json : Encoding} → (Operation json → Bool) → List (Operation json × ℕ × Bool) → ℕ → Bool
happened f [] t = false
happened f ((o, now, w) ∷ os) t = (f o && eqb now t) || happened f os t

-- The times at which operations have stored records.
abbrev pub stores : {json : Encoding} → List (Operation json × ℕ × Bool) → Stores
stores {json} os = record {
  entry = λ k. happened (stores_entry json k) os;
  call = λ k. happened (stores_call json k) os;
  session = λ k. happened (stores_session json k) os;
  any = happened (λ o. true) os;
}

module _ (ttl retention : ℕ) (json : Encoding) (made : Stores) where
  -- What an operation stores is among the stores.
  record IsAllowed (o : Operation json) (now : ℕ) : Type 0 where
    pub entry : (k : String) → stores_entry json k o ≡ true → made.entry k now ≡ true
    pub call : (k : String) → stores_call json k o ≡ true → made.call k now ≡ true
    pub session : (k : String) → stores_session json k o ≡ true → made.session k now ≡ true
    pub any : made.any now ≡ true

  -- What later operations store is among the stores.
  record AreAllowed (os : List (Operation json × ℕ × Bool)) : Type 0 where
    pub entry : (k : String) (t : ℕ) → (stores os).entry k t ≡ true → made.entry k t ≡ true
    pub call : (k : String) (t : ℕ) → (stores os).call k t ≡ true → made.call k t ≡ true
    pub session : (k : String) (t : ℕ) → (stores os).session k t ≡ true → made.session k t ≡ true
    pub any : (t : ℕ) → (stores os).any t ≡ true → made.any t ≡ true
