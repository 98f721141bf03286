-- ===== src/AccountPool/Acquisition.antt =====
-- Acquire and Release of internal/accountpool/pool.go.
use codex_account_pool.Prelude.{
  ℕ, ◌+◌, ◌-◌, String, Bool, false, not, ◌&&◌, ◌||◌, Option, none, some, [], ◌∷◌, Result, ok, err,
  Dict, lookup, insert, erase, retain, length, ltb, leb, eqb, if◌then◌else◌, ◌==◌,
}
use codex_account_pool.AccountPool.State.{
  Error, Entry, Pool, Lease, fresh_entry, session_key, update, capacity, canceled,
}

unfoldable pub expired_idle : (ℕ → Entry) → ℕ → ℕ → Bool
expired_idle h now a = eqb (h a).refs 0 && leb (h a).expires now

-- A missing key is a nil dereference in the code; the loop below asks only for keys of the map.
unfoldable pub expires_of : (ℕ → Entry) → Dict ℕ → String → ℕ
expires_of h all k = elim (lookup k all) [ none ↦ 0 | some a ↦ (h a).expires ]

-- One round of the loop for the idle entry that expires first: the better of two keys.
unfoldable pub older_idle : (ℕ → Entry) → Dict ℕ → String → String → ℕ → String
older_idle h all oldest k a =
    if eqb (h a).refs 0 && ((oldest == "") || ltb (h a).expires (expires_of h all oldest))
    then k
    else oldest

-- The loop; "" says that no idle entry was met.
unfoldable pub oldest_idle : (ℕ → Entry) → Dict ℕ → String → Dict ℕ → String
oldest_idle h all oldest [] = oldest
oldest_idle h all oldest ((k, a) ∷ m) = oldest_idle h all (older_idle h all oldest k a) m

unfoldable pub prune : Pool → ℕ → Pool
prune p now = record p { entries = retain (λ k a. not (expired_idle p.heap now a)) p.entries }

unfoldable pub add_ref : Pool → ℕ → Pool
add_ref p a = record p { heap = update p.heap a (record (p.heap a) { refs = (p.heap a).refs + 1 }) }

-- e = &entry{…}; p.entries[key] = e; e.refs++
unfoldable pub allocate : Pool → String → Pool
allocate p key = record p {
  heap = update p.heap p.next (record fresh_entry { refs = 1 });
  next = p.next + 1;
  entries = insert key p.next p.entries;
}

unfoldable pub evict : Pool → String → String → Result Error ℕ × Pool
evict p key oldest =
    if oldest == ""
    then (err capacity, p)
    else (ok p.next, allocate (record p { entries = erase oldest p.entries }) key)

-- The locked part of Acquire for a key that the map does not hold.
unfoldable pub admit : Pool → String → Result Error ℕ × Pool
admit p key =
    if leb p.max (length p.entries)
    then evict p key (oldest_idle p.heap p.entries "" p.entries)
    else (ok p.next, allocate p key)

-- Acquire up to p.mu.Unlock(): the entry whose gate the caller waits for.
unfoldable pub begin : Pool → String → ℕ → Result Error ℕ × Pool
begin p key now =
    let q = prune p now in
    elim (lookup key q.entries) [ some a ↦ (ok a, add_ref q a) | none ↦ admit q key ]

-- The count cannot be 0 here: the protocol's invariant.
unfoldable pub unref : Pool → ℕ → Pool
unref p a = record p { heap = update p.heap a (record (p.heap a) { refs = (p.heap a).refs - 1 }) }

-- e.gate <- struct{}{} and <-e.gate, where they do not block.
unfoldable pub enter_gate : Pool → ℕ → Pool
enter_gate p a = record p {
  heap = update p.heap a (record (p.heap a) { gate = (p.heap a).gate + 1 });
}

unfoldable pub leave_gate : Pool → ℕ → Pool
leave_gate p a = record p {
  heap = update p.heap a (record (p.heap a) { gate = (p.heap a).gate - 1 });
}

unfoldable pub set_profile : Pool → ℕ → String → Pool
set_profile p a id = record p { heap = update p.heap a (record (p.heap a) { profile = id }) }

unfoldable pub stamp : Pool → ℕ → ℕ → Pool
stamp p a now = record p { heap = update p.heap a (record (p.heap a) { expires = now + p.ttl }) }

unfoldable pub new_lease : String → String → ℕ → Lease
new_lease provider session a = record {
  key = session_key provider session;
  entry = a;
  explicit = false;
  attempted = false;
  provider = provider;
  model = "";
}

-- The select statement of Acquire, with a context that may be done. `none`: the call blocks. Where
-- both cases are ready, Go may take either: the gate is taken and given back, or is left alone.
unfoldable pub wait_gate : String → String → Bool → Pool → ℕ → Option (Result Error Lease × Pool)
wait_gate provider session done q a =
    if eqb (q.heap a).gate 0
    then if done
      then some (err canceled, unref (leave_gate (enter_gate q a) a) a)
      else some (ok (new_lease provider session a), enter_gate q a)
    else if done
    then some (err canceled, unref q a)
    else none

unfoldable pub after_begin :
    String → String → Bool → Pool → Result Error ℕ → Option (Result Error Lease × Pool)
after_begin provider session done q (err e) = some (err e, q)
after_begin provider session done q (ok a) = wait_gate provider session done q a

unfoldable pub acquire : Pool → String → String → Bool → ℕ → Option (Result Error Lease × Pool)
acquire p provider session done now =
    let (r, q) = begin p (session_key provider session) now in after_begin provider session done q r

-- Release: stamp, give the gate back, drop the reference.
unfoldable pub release : Pool → Lease → ℕ → Pool
release p l now = unref (leave_gate (stamp p l.entry now) l.entry) l.entry
