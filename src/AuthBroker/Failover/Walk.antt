-- ===== src/AuthBroker/Failover/Walk.antt =====
-- The ring of Failover in internal/authbroker/broker.go as a walk over a list of candidates.
use codex_account_pool.Prelude.{
  take, drop, ℕ, zero, suc, ◌-◌, String, ◌≡◌, refl, fun_ext, inl, inr, Option, none, List, [], ◌∷◌,
  ◌++◌, arith, Result, err, Bool-cases, if◌then◌else◌, ltb, length,
}
use codex_account_pool.Profile.{Registry}
use codex_account_pool.AuthBroker.{World, Fault, Credentials, no_alternate}
use codex_account_pool.AuthBroker.Failover.{
  Source, is_blocked, codex_ids, start_of, settle, give_up, try_others, try_ring,
}
use codex_account_pool.AuthBroker.Failover.Ring.{visited, visited_ring, start_of-lt}

module _ (source : Source) where
  -- The walk over a list of candidates: the first unmarked one that gives credentials is committed.
  unfoldable pub try_list :
      Registry → ℕ → List String → Option Fault → World → Result Fault Credentials × World
  try_list r now [] last w = (err (give_up last), w)
  try_list r now (id ∷ ids) last w =
      let next = try_list r now ids in
      let asked = source.fetch id w in
      if is_blocked w.exhausted id now then next last w else settle r id next asked.0 asked.1

  try_others-list :
      (r : Registry) (ids : List String) (start now left offset : ℕ) (last : Option Fault)
      (w : World)
      → try_others source r ids start now left offset last w
        ≡ try_list r now (visited ids start left offset) last w
  unfolding try_others try_list
  try_others-list r ids start now zero offset last w = refl
  try_others-list r ids start now (suc left) offset last w =
      rw (fun_ext (λ l. fun_ext (λ v. try_others-list r ids start now left (suc offset) l v))) refl

  -- The loop over the offsets is the walk over the other profiles, from the one after the exhausted
  -- profile's position round to the one before it.
  pub try_ring-list :
      (r : Registry) (id : String) (now : ℕ) (w : World)
      → try_ring source r id now w ≡ (
          if ltb (length (codex_ids r)) 2
          then (err no_alternate, w)
          else try_list r now
              (drop (suc (start_of id (codex_ids r))) (codex_ids r)
                ++ take (start_of id (codex_ids r)) (codex_ids r))
              none
              w)
  unfolding try_ring
  try_ring-list r id now w = elim (Bool-cases (ltb (length (codex_ids r)) 2)) [
    | inl t ↦ rw t refl
    | inr t ↦
        rw
          (
            t,
            try_others-list r (codex_ids r) (start_of id (codex_ids r)) now
                (length (codex_ids r) - 1) 1 none w,
            visited_ring (codex_ids r) (start_of id (codex_ids r))
                (start_of-lt id (codex_ids r) (ground arith)),
          )
          refl
  ]
