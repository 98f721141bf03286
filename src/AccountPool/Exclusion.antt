-- ===== src/AccountPool/Exclusion.antt =====
-- Mutual exclusion by session in internal/accountpool/pool.go, and the calls Acquire and Release as
-- sequences of steps of the protocol.
use codex_account_pool.Prelude.{
  ℕ, ◌+◌, String, Bool, false, ◌≡◌, refl, ◌≢◌, ap, ◌∙◌, some, List, [], ◌∷◌, ◌++◌, arith, lookup,
  count, count_middle, count-append, All-suffix, All_middle, Result, ok, err,
}
use codex_account_pool.AccountPool.{
  Pool, Lease, Error, begin, session_key, acquire, release, enter_gate, new_lease, wait_gate,
  after_begin, stamp, leave_gate, unref,
}
use codex_account_pool.AccountPool.Protocol.{
  holding, leaving, Ticket, System, is_holding, is_at, holds_at, with_phase, Step, Reach, next,
}
use codex_account_pool.AccountPool.Invariant.{Reach-Inv}

-- In every reachable state no two requests hold leases of one session at the same time: whatever
-- the interleaving of acquisitions, cancellations and releases, the key of the second differs.
pub holding_exclusive :
    {max ttl : ℕ} {s : System} (xs ys zs : List Ticket) (t u : Ticket)
    → Reach max ttl s
    → s.tickets ≡ xs ++ t ∷ (ys ++ u ∷ zs)
    → t.phase ≡ holding
    → u.phase ≡ holding
    → t.key ≢ u.key
unfolding is_holding
holding_exclusive {max} {ttl} {s} xs ys zs t u r e ht hu same =
    let v = Reach-Inv r in
    let there =
      All-suffix (λ t. lookup t.key s.pool.entries ≡ some t.entry) xs (t ∷ (ys ++ u ∷ zs))
        (rw e at v.mapped) in
    let both = All_middle (λ t. lookup t.key s.pool.entries ≡ some t.entry) ys zs u there.1 in
    let one : t.entry ≡ u.entry = ground (arith, there.0, both) in
    let total = v.gates t.entry ∙ ap (count (holds_at t.entry)) e in
    ground (
      arith,
      v.single t.entry,
      total,
      count-append (holds_at t.entry) xs (t ∷ (ys ++ u ∷ zs)),
      count_middle (holds_at t.entry) ys zs u,
    )

wait_gate_ok :
    (provider session : String) (done : Bool) (p : Pool) (a : ℕ) (l : Lease) (q : Pool)
    → wait_gate provider session done p a ≡ some (ok l, q)
    → (done ≡ false)
      × ((p.heap a).gate ≡ 0)
      × (l ≡ new_lease provider session a)
      × (q ≡ enter_gate p a)
unfolding wait_gate
wait_gate_ok provider session done p a l q e =
    (ground arith, ground arith, ground arith, ground arith)

after_begin-Reach :
    {max ttl : ℕ} (s : System) (provider session : String) (done : Bool) (now : ℕ) (l : Lease)
    (q p : Pool) (r : Result Error ℕ)
    → Reach max ttl s
    → begin s.pool (session_key provider session) now ≡ (r, p)
    → after_begin provider session done p r ≡ some (ok l, q)
    → (done ≡ false)
      × (l.key ≡ session_key provider session)
      × Reach max ttl (record {
        pool = q;
        tickets = record { key = l.key; entry = l.entry; phase = holding } ∷ s.tickets;
      })
unfolding after_begin new_lease
after_begin-Reach s provider session done now l q p (err x) reach b e = cc
after_begin-Reach s provider session done now l q p (ok a) reach b e =
    let (d, g, i, j) = wait_gate_ok provider session done p a l q e in
    rw (i, j)
      (
        d,
        refl,
        next (next reach (Step.begins provider session now a p b))
            (Step.enters [] s.tickets _ refl refl g),
      )

-- A call of Acquire that returns a lease is a run of the protocol's steps: in the reached state the
-- caller holds the gate of the entry of its session's key.
pub acquire-Reach :
    {max ttl : ℕ} (s : System) (provider session : String) (done : Bool) (now : ℕ) (l : Lease)
    (q : Pool)
    → Reach max ttl s
    → acquire s.pool provider session done now ≡ some (ok l, q)
    → (done ≡ false)
      × (l.key ≡ session_key provider session)
      × Reach max ttl (record {
        pool = q;
        tickets = record { key = l.key; entry = l.entry; phase = holding } ∷ s.tickets;
      })
unfolding acquire
acquire-Reach s provider session done now l q r e =
    after_begin-Reach s provider session done now l q
      (begin s.pool (session_key provider session) now).1
      (begin s.pool (session_key provider session) now).0 r refl e

-- What Release leaves: the session's binding, with a free gate and its time from now on, and
-- everything else.
pub record Released (s : System) (key : String) (a now : ℕ) (left : List Ticket) (q : Pool)
    : Type 0 where
  pub remembered : lookup key q.entries ≡ some a
  pub free : (q.heap a).gate ≡ 0
  pub refs : (q.heap a).refs ≡ count (is_at a) left
  pub expires : (q.heap a).expires ≡ now + s.pool.ttl
  pub profile : (q.heap a).profile ≡ (s.pool.heap a).profile
  pub others : (b : ℕ) → b ≢ a → q.heap b ≡ s.pool.heap b
  pub entries : q.entries ≡ s.pool.entries
  pub quota : q.quota ≡ s.pool.quota

release_run :
    {max ttl : ℕ} (s : System) (pre post : List Ticket) (t : Ticket) (l : Lease) (now : ℕ)
    → Reach max ttl s
    → s.tickets ≡ pre ++ t ∷ post
    → t.phase ≡ holding
    → l.entry ≡ t.entry
    → Reach max ttl (record { pool = release s.pool l now; tickets = pre ++ post })
unfolding release
release_run s pre post t l now r e h q = rw q (
    next (next (next r (Step.stamps pre post t now e h)) (Step.leaves pre post t e h))
      (Step.drops pre post (with_phase t leaving) refl refl))

-- Release by the holder of an entry's gate is a run of the protocol's steps. Afterwards the session is
-- still remembered and bound as before, the gate is free, only the requests that wait for the entry or
-- leave it are counted, the binding expires its idle time after this release, and the other entries
-- and what is known of quotas are as they were.
pub release-Reach :
    {max ttl : ℕ} (s : System) (pre post : List Ticket) (t : Ticket) (l : Lease) (now : ℕ)
    → Reach max ttl s
    → s.tickets ≡ pre ++ t ∷ post
    → t.phase ≡ holding
    → l.entry ≡ t.entry
    → Reach max ttl (record { pool = release s.pool l now; tickets = pre ++ post })
      × Released s t.key t.entry now (pre ++ post) (release s.pool l now)
unfolding release stamp leave_gate unref
release-Reach s pre post t l now r e h q =
    let v = Reach-Inv r in
    let run = release_run s pre post t l now r e h q in
    let w = Reach-Inv run in
    let there =
      All_middle (λ t. lookup t.key s.pool.entries ≡ some t.entry) pre post t (rw e at v.mapped) in
    (
      run,
      record {
        remembered = there;
        free = ground (arith, q, v.single t.entry);
        refs = w.refs t.entry;
        expires = ground (arith, q);
        profile = ground (arith, q);
        others = λ b n. ground (arith, q, n);
        entries = refl;
        quota = refl;
      },
    )
