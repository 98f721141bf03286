-- ===== src/AccountPool/Invariant.antt =====
-- The invariant of the protocol of internal/accountpool/pool.go: counters and tickets agree.
use codex_account_pool.Prelude.{
  ℕ, ◌+◌, ◌≤◌, ◌<◌, String, Bool, false, not, ◌≡◌, refl, ◌≢◌, ap, ◌∙◌, inl, inr, some, List, [],
  ◌∷◌, ◌++◌, arith, Dict, lookup, lookup-insert, eq_iff, eq_refl, count, count_middle, All,
  All_middle, All-remove, All-replace, All-map, Distinct, insert-Distinct, ok, eqb, Bool-cases,
  if◌then◌else◌, ◌==◌, ◌&&◌,
}
use codex_account_pool.AccountPool.{
  Pool, Lease, QuotaObservation, Quota, add_ref, allocate, begin, unref, new, unknown, usable,
  exhausted, store_quota, enter_gate, leave_gate, set_profile, stamp, select, restore_profile,
  observe_success, observe_quota, prune,
}
use codex_account_pool.AccountPool.Begin.{Keeps, begin-Begun, begin-err, prune-Keeps}
use codex_account_pool.AccountPool.Selection.{select_cases}
use codex_account_pool.AccountPool.Protocol.{
  waiting, holding, leaving, Ticket, System, is_holding, is_at, holds_at, with_phase, Step, start,
  Reach, here, next,
}

-- The counters of each entry are the tickets that are on it, and the tickets' entries are the
-- ones that the map has for their keys.
pub record Inv (s : System) : Type 0 where
  pub distinct : Distinct s.pool.entries
  pub below : (k : String) (a : ℕ) → lookup k s.pool.entries ≡ some a → a < s.pool.next
  pub mapped : All (λ t. lookup t.key s.pool.entries ≡ some t.entry) s.tickets
  pub refs : (a : ℕ) → (s.pool.heap a).refs ≡ count (is_at a) s.tickets
  pub gates : (a : ℕ) → (s.pool.heap a).gate ≡ count (holds_at a) s.tickets
  pub single : (a : ℕ) → (s.pool.heap a).gate ≤ 1

-- A ticket on an entry is counted.
counted : (ts : List Ticket) → All (λ t. 0 < count (is_at t.entry) ts) ts
counted [] = tt
counted (t ∷ ts) =
    (ground arith, All-map _ (λ u (h : 0 < count (is_at u.entry) ts). omega arith) ts (counted ts))

-- What a map keeps that has every entry in use.
kept_tickets :
    (p : Pool) (m : Dict ℕ) (ts : List Ticket)
    → Keeps p m
    → All (λ t. lookup t.key p.entries ≡ some t.entry) ts
    → All (λ t. (p.heap t.entry).refs ≢ 0) ts
    → All (λ t. lookup t.key m ≡ some t.entry) ts
kept_tickets p m [] h a r = tt
kept_tickets p m (t ∷ ts) h a r = (h.found t.key t.entry a.0 r.0, kept_tickets p m ts h a.1 r.1)

-- Tickets are on mapped entries, so they are below `next`, and nothing is counted above it.
count_above :
    (p : Pool) (ts : List Ticket) (a : ℕ)
    → ((k : String) (b : ℕ) → lookup k p.entries ≡ some b → b < p.next)
    → All (λ t. lookup t.key p.entries ≡ some t.entry) ts
    → p.next ≤ a
    → (count (is_at a) ts ≡ 0) × (count (holds_at a) ts ≡ 0)
count_above p [] a b m h = (refl, refl)
count_above p (t ∷ ts) a b m h =
    let rest = count_above p ts a b m.1 h in
    let lt = b t.key t.entry m.0 in (ground arith, ground arith)

module _ {s : System} (v : Inv s) where
  kept : (m : Dict ℕ) → Keeps s.pool m → All (λ t. lookup t.key m ≡ some t.entry) s.tickets
  kept m h = kept_tickets s.pool m s.tickets h v.mapped (
      All-map _ (λ t (c : 0 < count (is_at t.entry) s.tickets). omega (arith, v.refs t.entry))
        s.tickets (counted s.tickets))

  begins-Inv :
      (key : String) (now a : ℕ) (p : Pool)
      → begin s.pool key now ≡ (ok a, p)
      → Inv (record {
        pool = p;
        tickets = record { key = key; entry = a; phase = waiting } ∷ s.tickets;
      })
  unfolding add_ref allocate is_holding
  begins-Inv key now a p e =
      let b = begin-Begun s.pool v.distinct key now a p e in
      elim b.outcome [
        | inl (f, q) ↦ rw q (record {
          distinct = b.keeps.distinct;
          below = λ k c g. v.below k c (b.keeps.from k c g);
          mapped = (f, kept b.rest b.keeps);
          refs = λ c. ground (arith, v.refs c, v.refs a);
          gates = λ c. ground (arith, v.gates c, v.gates a);
          single = λ c. ground (arith, v.single c, v.single a);
        })
        | inr (f, n, q) ↦
            rw (q, n)
              (record {
                distinct = insert-Distinct key s.pool.next b.rest b.keeps.distinct;
                below = λ k c g.
                    ground (
                      arith,
                      lookup-insert key k s.pool.next b.rest,
                      b.keeps.from k c,
                      v.below k c,
                    );
                mapped = (
                  rw (lookup-insert key key s.pool.next b.rest, eq_refl key) refl,
                  All-map _
                      (λ t (g : lookup t.key b.rest ≡ some t.entry).
                        ground
                          (arith, lookup-insert key t.key s.pool.next b.rest, eq_iff key t.key))
                      s.tickets (kept b.rest b.keeps),
                );
                refs =
                    λ c. ground (arith, v.refs c, count_above s.pool s.tickets c v.below v.mapped);
                gates =
                    λ c. ground (arith, v.gates c, count_above s.pool s.tickets c v.below v.mapped);
                single = λ c. ground (arith, v.single c);
              })
      ]

  refuses-Inv : (now : ℕ) → Inv (record s { pool = prune s.pool now })
  unfolding prune
  refuses-Inv now =
      let k = prune-Keeps s.pool v.distinct now in
      record {
        distinct = k.distinct;
        below = λ j c g. v.below j c (k.from j c g);
        mapped = kept _ k;
        refs = v.refs;
        gates = v.gates;
        single = v.single;
      }

  module _ (pre post : List Ticket) (t : Ticket) (e : s.tickets ≡ pre ++ t ∷ post) where
    refs_split :
        (b : ℕ)
        → (s.pool.heap b).refs ≡ count (is_at b) (pre ++ post) + (if eqb t.entry b then 1 else 0)
    refs_split b = v.refs b ∙ ap (count (is_at b)) e ∙ count_middle (is_at b) pre post t

    gates_split :
        (b : ℕ)
        → (s.pool.heap b).gate ≡ count (holds_at b) (pre ++ post) + (if holds_at b t then 1 else 0)
    gates_split b = v.gates b ∙ ap (count (holds_at b)) e ∙ count_middle (holds_at b) pre post t

    unref-Inv :
        is_holding t.phase ≡ false
        → Inv (record { pool = unref s.pool t.entry; tickets = pre ++ post })
    unfolding unref
    unref-Inv n = record {
      distinct = v.distinct;
      below = v.below;
      mapped = All-remove _ pre post t (rw e at v.mapped);
      refs = λ b. ground (arith, refs_split b, refs_split t.entry);
      gates = λ b. ground (arith, gates_split b, gates_split t.entry);
      single = λ b. ground (arith, v.single b, v.single t.entry);
    }

    enters-Inv :
        t.phase ≡ waiting
        → (s.pool.heap t.entry).gate ≡ 0
        → Inv (record {
          pool = enter_gate s.pool t.entry;
          tickets = pre ++ with_phase t holding ∷ post;
        })
    unfolding enter_gate is_holding
    enters-Inv w g = record {
      distinct = v.distinct;
      below = v.below;
      mapped =
          All-replace _ pre post t _ (All_middle _ pre post t (rw e at v.mapped))
            (rw e at v.mapped);
      refs =
          λ b. ground (arith, refs_split b, count_middle (is_at b) pre post (with_phase t holding));
      gates = λ b. ground (
        arith,
        gates_split b,
        gates_split t.entry,
        count_middle (holds_at b) pre post (with_phase t holding),
      );
      single = λ b. ground (arith, v.single b);
    }

    leaves-Inv :
        t.phase ≡ holding
        → Inv (record {
          pool = leave_gate s.pool t.entry;
          tickets = pre ++ with_phase t leaving ∷ post;
        })
    unfolding leave_gate is_holding
    leaves-Inv w = record {
      distinct = v.distinct;
      below = v.below;
      mapped =
          All-replace _ pre post t _ (All_middle _ pre post t (rw e at v.mapped))
            (rw e at v.mapped);
      refs =
          λ b. ground (arith, refs_split b, count_middle (is_at b) pre post (with_phase t leaving));
      gates = λ b. ground (
        arith,
        gates_split b,
        gates_split t.entry,
        count_middle (holds_at b) pre post (with_phase t leaving),
      );
      single = λ b. ground (arith, v.single b, v.single t.entry);
    }

  set_profile-Inv : (a : ℕ) (id : String) → Inv (record s { pool = set_profile s.pool a id })
  unfolding set_profile
  set_profile-Inv a id = record {
    distinct = v.distinct;
    below = v.below;
    mapped = v.mapped;
    refs = λ b. ground (arith, v.refs b);
    gates = λ b. ground (arith, v.gates b);
    single = λ b. ground (arith, v.single b);
  }

  stamp-Inv : (a now : ℕ) → Inv (record s { pool = stamp s.pool a now })
  unfolding stamp
  stamp-Inv a now = record {
    distinct = v.distinct;
    below = v.below;
    mapped = v.mapped;
    refs = λ b. ground (arith, v.refs b);
    gates = λ b. ground (arith, v.gates b);
    single = λ b. ground (arith, v.single b);
  }

module _ {s : System} (v : Inv s) where
  quota-Inv : (q : Dict QuotaObservation) → Inv (record s { pool = record s.pool { quota = q } })
  quota-Inv q = record {
    distinct = v.distinct;
    below = v.below;
    mapped = v.mapped;
    refs = v.refs;
    gates = v.gates;
    single = v.single;
  }

  observes-Inv :
      (l : Lease) (profile : String) (state : Quota) (now : ℕ)
      → Inv (record s { pool = observe_quota s.pool l profile state now })
  unfolding observe_quota store_quota
  observes-Inv l profile unknown now = v
  observes-Inv l profile usable now = quota-Inv _
  observes-Inv l profile exhausted now = quota-Inv _

  restores-Inv :
      (l : Lease) (profile : String)
      → Inv (record s { pool = (restore_profile s.pool l profile).1 })
  unfolding restore_profile
  restores-Inv l profile = elim (Bool-cases (profile == "")) [
    | inl e ↦ rw e v
    | inr e ↦
        elim (Bool-cases (
          not ((s.pool.heap l.entry).profile == "")
          && not ((s.pool.heap l.entry).profile == profile))) [
            | inl c ↦ rw (e, c) v
            | inr c ↦ rw (e, c) (set_profile-Inv v l.entry profile)
          ]
  ]

  selects-Inv :
      (l : Lease) (preferred selector : String) (candidates : List String) (history : Bool)
      (now : ℕ)
      → Inv (record s { pool = (select s.pool l preferred selector candidates history now).2 })
  selects-Inv l preferred selector candidates history now =
      elim (select_cases s.pool l preferred selector candidates history now) [
        | inl c ↦ rw c.1 v
        | inr (inl c) ↦ rw c.2 v
        | inr (inr c) ↦ rw c.3 (set_profile-Inv v l.entry _)
      ]

-- Every step keeps the invariant.
pub Step-Inv : {s u : System} → Step s u → Inv s → Inv u
Step-Inv (Step.begins provider session now a p e) v = begins-Inv v _ now a p e
Step-Inv (Step.refuses provider session now er p e) v =
    rw (begin-err _ v.distinct _ now er p e) (refuses-Inv v now)
Step-Inv (Step.enters pre post t e w g) v = enters-Inv v pre post t e w g
Step-Inv (Step.cancels pre post t e w) v = unref-Inv v pre post t e (unfold is_holding in rw w refl)
Step-Inv (Step.selects pre post t l pr se ca hi now e w q) v = selects-Inv v l pr se ca hi now
Step-Inv (Step.restores pre post t l id e w q) v = restores-Inv v l id
Step-Inv (Step.succeeds pre post t l id e w q) v =
    unfold observe_success in set_profile-Inv v l.entry id
Step-Inv (Step.stamps pre post t now e w) v = stamp-Inv v t.entry now
Step-Inv (Step.leaves pre post t e w) v = leaves-Inv v pre post t e w
Step-Inv (Step.drops pre post t e w) v = unref-Inv v pre post t e (unfold is_holding in rw w refl)
Step-Inv (Step.observes l id st now) v = observes-Inv v l id st now

start-Inv : (max ttl : ℕ) → Inv (start max ttl)
unfolding new lookup
start-Inv max ttl = record {
  distinct = tt;
  below = λ k a e. cc;
  mapped = tt;
  refs = λ a. refl;
  gates = λ a. refl;
  single = λ a. omega arith;
}

pub Reach-Inv : {max ttl : ℕ} {s : System} → Reach max ttl s → Inv s
Reach-Inv {max} {ttl} here = start-Inv max ttl
Reach-Inv (next r st) = Step-Inv st (Reach-Inv r)
