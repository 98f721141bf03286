-- ===== src/Lib.antt =====
-- codex-account-pool: a router that shares several provider accounts among the sessions of a
-- client. A request takes a lease on its session from the account pool (internal/accountpool),
-- which chooses an account and keeps the session on it. The credentials of Codex accounts come from
-- the broker (internal/authbroker), which reads and refreshes one auth file per profile of the
-- registry (internal/profile) and moves the active profile when an account has reached its limit.
-- The Antigravity provider keeps the calls, the signatures and the account of each session in a
-- replay cache (internal/antigravity). The gateway (internal/gateway) sends the requests of Codex to
-- the upstream with the credentials that the broker gives, and observes what they share with earlier
-- ones (internal/contextobs). The administration API (internal/adminapi) runs logins and checks as
-- jobs of a store. The pool and the cache both hold a session's account: the provider
-- restores it from the cache (SessionProfile) into the pool (RestoreProfile).
--
-- AccountPool models internal/accountpool/pool.go in State, Acquisition (Acquire and Release),
-- Choice (Select, RestoreProfile), Evidence (ObserveQuota) and Switching (Alternate). Entries are
-- shared by pointer, so a pool has a heap, and its map and the leases hold addresses.
-- AccountPool.Protocol is the step relation of the concurrent requests: begin is the locked part of
-- Acquire, and the gate's channel, the cancellation and the three parts of Release are steps of
-- their own, so every interleaving is a list of steps. acquire, select, restore_profile, alternate,
-- observe_quota and release are the methods as functions.
-- Profile models internal/profile/registry.go: Add, Remove, Use, Find, ActiveProfile,
-- SortedProfiles, ValidateProfile, Load and Save are add, remove, use_profile, find,
-- active_profile, sorted_profiles, validate_profile, load and save. Save's calls of the file system are
-- Steps, each of which may fail, and encoding/json is the parameter Json.
-- AuthBroker models internal/authbroker/broker.go and errors.go in State, Files (the auth files)
-- and Access: CredentialsForProfile, ForceRefresh and refresh are credentials_for_profile,
-- force_refresh and refresh. AuthBroker.Failover models Failover over an interface for the
-- credentials, which AuthBroker.Failover.Supply fills with CredentialsForProfile.
-- AuthBroker.Inspection models what is told of an auth file without a refresh.
-- Gateway models internal/gateway/gateway.go: State, Limit (usageLimitResponse, parseResetAt), Stream
-- (sseObserver), Requests (the headers, the routes and the classes of errors), Transport (RoundTrip)
-- and Handler (serveHTTP). The upstream is a function with a state of its own, the provider of
-- credentials is the record Provider, and Gateway.Supply is the contract that the theorems rely on,
-- which Gateway.Broker fills with the broker. Gateway.Loop is the rule for invariants of the loop.
-- What httputil.ReverseProxy does to a request around Rewrite is in Requests: the headers of the
-- connection and of forwarding, the upgrade, the trailers, the agent and the upstream's URL.
-- Gateway.Trace is requestTrace, and Gateway.Binding states which response it binds a request to.
-- ContextObs models internal/contextobs/tracker.go in Container (container/list), Types, Comparison
-- and Memory (the Tracker), and response.go in Response: an element of the list is a number, and the
-- map of the tracker holds such numbers.
-- AdminStore models internal/adminapi/store.go and the job of types.go in State, Saving, Opening,
-- Creation, Edits and Queries: each operation on a job is a function that decides an Edit, and
-- edit_job is the lookup, the write and the save around it.
-- AdminAuth models the sessions and keys of internal/adminauth/session.go and key.go and the keys of
-- internal/clientauth/key.go; History states who is let in by the history of logins and logouts.
-- CodexMeta models internal/codexmeta/version.go, its pattern of versions as a function.
-- Antigravity.Replay models internal/antigravity/replay.go in State, Sessions (the locked parts),
-- Bindings and Records (the operations) and Persistence, with Antigravity.Signature for
-- isLikelyRealThoughtSignature and Antigravity.Arguments for argsDigest and matchesCallArgs
-- (plan_replay.go). An operation is one critical section, so a sequence of operations is a list.
-- Antigravity.Continuity models resolveContinuity of internal/antigravity/session.go over that cache,
-- with currentTurnStart of request.go: Turns is its loop over the current turn, Routes its result. The
-- case of a model's name is that of ASCII there. Antigravity.Accounts models
-- internal/antigravity/accounts.go over the account pool and the replay cache: the lease of an account
-- for a request (Leases, Affinity) and the change to another account (Failover); what other requests
-- do to the pool between two of its critical sections is left out there. Antigravity.Quotas
-- models what internal/antigravity/quota.go reads of a quota, on decoded JSON.
--
-- Times are numbers of nanoseconds, and the reading of the clock is an argument of each operation;
-- a negative duration or expiry stands for 0. Random ids are arguments. Go's maps are association
-- lists, whose order stands for the order of a range loop. Whether a file can be written is an
-- argument: the code replaces files by a rename, so a file is replaced whole or stays. The loops
-- are structural recursion over lists, and Failover's loop counts the offsets that are left. Three
-- loops have fuel: RoundTrip's, which Gateway.Termination shows to end within two rounds for each
-- registered account and two more; the observer's of Gateway.Stream, for as many rounds as there are
-- bytes, which Gateway.Chunks shows to be enough; and the trimming of the tracker, for as many rounds
-- as there are entries, which ContextObs.Consistency shows to be enough. The ratios of the tracker
-- are quotients of two numbers, where the code has the nearest float64.
--
-- Parameters are the authority's replies and what other processes do to the files until a lock is
-- taken (AuthBroker), the decoding of a token's payload (AuthBroker), the upstream's answers
-- (Gateway), and the JSON package and the digests (Profile, Antigravity.Arguments, Gateway.Limit,
-- ContextObs.Response). Not modelled are the HTTP servers and clients, the command line, the child
-- processes, the files of keys and the log files, which are I/O, and the packages antigravityauth,
-- openaiapi and observability.
mod Prelude
pub mod AccountPool
pub mod Profile
pub mod AuthBroker
pub mod ContextObs
pub mod Gateway
pub mod AdminStore
pub mod AdminAuth
pub mod CodexMeta
pub mod Antigravity
