-- ===== src/Gateway/Answers.antt =====
-- The answers of serveHTTP of internal/gateway/gateway.go that come from the upstream.
use codex_account_pool.Prelude.{Option, none, some, ◌≡◌, arith, Result}
use codex_account_pool.Gateway.{Response, TripError, Trip, proxied, answer_of}

pub answer_of-proxied :
    {S U : Type 0} (x : Option (Result TripError Response × Trip S U))
    (o : Result TripError Response) (t : Trip S U)
    → answer_of x ≡ some (proxied o t)
    → x ≡ some (o, t)
answer_of-proxied none o t e = cc
answer_of-proxied (some (p, v)) o t e = ground arith
