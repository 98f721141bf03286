-- ===== src/AccountPool/Protocol.antt =====
-- The concurrent protocol of internal/accountpool/pool.go: requests that wait for an entry's gate,
-- hold it, or have given it back. Each step is one critical section or one channel operation, so
-- any interleaving of Acquire, the methods of a lease, and Release is a sequence of steps.
use codex_account_pool.Prelude.{
  ℕ, String, Bool, true, false, ◌≡◌, ◌&&◌, List, [], ◌∷◌, ◌++◌, ok, err, eqb,
}
use codex_account_pool.AccountPool.{
  Pool, Error, Lease, Quota, new, session_key, begin, unref, enter_gate, leave_gate, stamp, select,
  restore_profile, observe_success, observe_quota,
}

pub data Phase : Type 0 where
  waiting holding leaving : Phase

pub record Ticket : Type 0 where
  pub key : String
  pub entry : ℕ
  pub phase : Phase

pub record System : Type 0 where
  pub pool : Pool
  pub tickets : List Ticket

unfoldable pub is_holding : Phase → Bool
is_holding holding = true
is_holding _ = false

-- Tickets on an entry, and those of them that hold its gate.
abbrev pub is_at : ℕ → Ticket → Bool
is_at a t = eqb t.entry a

abbrev pub holds_at : ℕ → Ticket → Bool
holds_at a t = eqb t.entry a && is_holding t.phase

abbrev pub with_phase : Ticket → Phase → Ticket
with_phase t ph = record t { phase = ph }

pub data Step (s : System) : System → Type 0 where
  -- Acquire's locked part; a refusal leaves the pruned pool.
  begins :
      (provider session : String) (now a : ℕ) (p : Pool)
      → begin s.pool (session_key provider session) now ≡ (ok a, p)
      → Step s (record {
        pool = p;
        tickets =
            record { key = session_key provider session; entry = a; phase = waiting } ∷ s.tickets;
      })
  refuses :
      (provider session : String) (now : ℕ) (e : Error) (p : Pool)
      → begin s.pool (session_key provider session) now ≡ (err e, p)
      → Step s (record s { pool = p })
  -- e.gate <- struct{}{} goes through when the channel is empty.
  enters :
      (pre post : List Ticket) (t : Ticket)
      → s.tickets ≡ pre ++ t ∷ post
      → t.phase ≡ waiting
      → (s.pool.heap t.entry).gate ≡ 0
      → Step s (record {
        pool = enter_gate s.pool t.entry;
        tickets = pre ++ with_phase t holding ∷ post;
      })
  -- ctx.Done() while the request waits.
  cancels :
      (pre post : List Ticket) (t : Ticket)
      → s.tickets ≡ pre ++ t ∷ post
      → t.phase ≡ waiting
      → Step s (record { pool = unref s.pool t.entry; tickets = pre ++ post })
  -- The methods of a lease by which its holder binds a profile.
  selects :
      (pre post : List Ticket) (t : Ticket) (l : Lease) (preferred selector : String)
      (candidates : List String) (history : Bool) (now : ℕ)
      → s.tickets ≡ pre ++ t ∷ post
      → t.phase ≡ holding
      → l.entry ≡ t.entry
      → Step s (record s { pool = (select s.pool l preferred selector candidates history now).2 })
  restores :
      (pre post : List Ticket) (t : Ticket) (l : Lease) (profile : String)
      → s.tickets ≡ pre ++ t ∷ post
      → t.phase ≡ holding
      → l.entry ≡ t.entry
      → Step s (record s { pool = (restore_profile s.pool l profile).1 })
  succeeds :
      (pre post : List Ticket) (t : Ticket) (l : Lease) (profile : String)
      → s.tickets ≡ pre ++ t ∷ post
      → t.phase ≡ holding
      → l.entry ≡ t.entry
      → Step s (record s { pool = observe_success s.pool l profile })
  -- The parts of Release; the last two are also those of an Acquire that was cancelled late.
  stamps :
      (pre post : List Ticket) (t : Ticket) (now : ℕ)
      → s.tickets ≡ pre ++ t ∷ post
      → t.phase ≡ holding
      → Step s (record s { pool = stamp s.pool t.entry now })
  leaves :
      (pre post : List Ticket) (t : Ticket)
      → s.tickets ≡ pre ++ t ∷ post
      → t.phase ≡ holding
      → Step s (record {
        pool = leave_gate s.pool t.entry;
        tickets = pre ++ with_phase t leaving ∷ post;
      })
  drops :
      (pre post : List Ticket) (t : Ticket)
      → s.tickets ≡ pre ++ t ∷ post
      → t.phase ≡ leaving
      → Step s (record { pool = unref s.pool t.entry; tickets = pre ++ post })
  observes :
      (l : Lease) (profile : String) (state : Quota) (now : ℕ)
      → Step s (record s { pool = observe_quota s.pool l profile state now })

abbrev pub start : ℕ → ℕ → System
start max ttl = record { pool = new max ttl; tickets = [] }

pub data Reach (max ttl : ℕ) : System → Type 0 where
  here : Reach max ttl (start max ttl)
  next : {s u : System} → Reach max ttl s → Step s u → Reach max ttl u
