-- ===== src/Lib.antt =====
-- AMSFTP (awesome-sftp-cli): the rules that its background Jobs run under.
--
-- AMSFTP is a two-pane file manager for local files and SFTP servers. Its daemon runs copies, moves
-- and deletions as durable Jobs. A Job moves through the states of internal/job/state.go. While it
-- runs, it holds a lease on the resource ledger (internal/transfer/resource_ledger.go) and asks the
-- scheduler (internal/transfer/scheduler.go) for each packet; the scheduler admits a packet when
-- the global bucket and the buckets of its Job and its endpoints have the tokens. What Jobs record
-- goes to a SQLite store, whose write-ahead log is held within the budgets of
-- internal/state/wal/budget.go. The cache of file contents is held within its quota by plans of
-- evictions (internal/cache/quota.go). A connection that asks for a password does so through the
-- broker of internal/auth, and a client of the daemon answers. Clients reach the daemon over the
-- frames and the version negotiation of internal/ipc.
--
-- Files:
--   Base            Boolean tests, lists, results with errors, Go's maps as association lists
--   Job             internal/job/state.go: `State`, the table `transitions`, `can_transition`,
--                   `terminal`, `conservative_restart_state`; Job/Lifecycle has the proofs
--   Wal             internal/state/wal/budget.go: `Controller` and its methods; Wal/Reservations,
--                   Wal/Invariant and Wal/Transactions have the proofs
--   Transfer/Usage, Transfer/Resources
--                   internal/transfer/resource_ledger.go and the limits of scheduler.go: amounts by
--                   column, requests, the ledger, leases, Acquire as rounds. Resources/Columns,
--                   Charges, Accounts, Returns, Requests, Progress and Endpoints have the lemmas;
--                   Resources/Sessions runs any calls of any callers on one ledger
--   Transfer/Bucket internal/transfer/scheduler.go: the integer token bucket; Bucket/Refill, Waiting
--                   and Throughput have the proofs
--   Transfer/Scheduler
--                   internal/transfer/scheduler.go: TransferScheduler. Scheduler/Policy has
--                   `normalize_scheduler_policy` and `validate_request`; Buckets the state,
--                   `can_grant`, `consume_request` and `request_wait` (waitDurationLocked); Queues
--                   `selected`, `dequeue_selected`, `remove`, `rebuild_cycle` and `release_job`; Waits
--                   Wait as `enter_wait` and one `wait_round` for each turn of its loop, and Update as
--                   `update_policy`. Limits, Leaving, Arrival, Releasing, Keeping, Turns, Turning,
--                   Serving, Stranding, Running, Calls, Invariant and Fairness have the proofs
--   Transfer/Completion, Transfer/Streams
--                   internal/transfer/completion.go, stream_policy.go and stream_budget.go: the
--                   completion policy of a plan, and the resources that an execution asks for;
--                   Completion/Freezing and Streams/Budget have the proofs
--   Auth            internal/auth/broker.go: `Broker` with `begin_attempt`, `ask` (Prompt up to its
--                   select), `claim` (a turn of its loop), `resolve`, `detach`, `close_attempt` and
--                   `abandon_challenge`. Keys, Sound, Closing, Claiming, Asking, Invariant and Answers
--                   have the proofs
--   Cache           internal/cache/ids.go, records.go, quota.go, lease.go: the catalog of cached files.
--                   Cache/Records and Validation have the records and their Validate methods, Leases
--                   the lease manager, Accounting `account` and the limits, Protections what protects
--                   a record and `enumerate_candidates`, Evictions `apply_candidate` and the loops of
--                   PlanEvictions (`try_candidates`, `plan_loop`), Plans `plan_evictions`, its
--                   diagnostic and `plan_admission`. Marking, Candidates, Removing, Safety, Integrity,
--                   Applying, Trying, Planning, Totals, Rounds, Returns, Planned and Held have the
--                   proofs
--   Ipc             internal/ipc: Ipc/Version has `compare_cursor` and `highest_shared_version`, with
--                   its proofs in Version/Negotiation; Ipc/Stream `read_full` and `write_all`, Ipc/Frame
--                   the limits of a frame, `read_frame` and `write_frame`; Streaming, Returning and
--                   RoundTrip have the proofs
--
-- Conventions. A method on a pointer returns the new state with its result. A Go map is an
-- association list that replaces the value of a key in place; nothing modelled depends on its
-- order. Numbers are natural numbers, with the wrap-around of uint32 and uint64 written out where
-- the code computes; what the machine type bounds is a hypothesis where a theorem needs it. Nil
-- receivers and nil arguments, which the code answers with an error or a zero value, have no
-- counterpart, but for a nil lease manager, which is none. An error is a constructor for each
-- message, without the text's numbers. A channel that a broadcast closes and replaces is a counter.
-- Times are nanoseconds; the difference of two times stops at the longest duration, as in Go. The
-- clock of the scheduler, and that of the lease manager in a plan, is a function from the number of
-- a reading to its time; the classifier of processes is an argument. Sizes in the cache's catalog
-- are int64 patterns, and an identifier or a kind is a text. Four definitions run on fuel.
-- `plan_loop` of Cache/Evictions has as many rounds as the limit of candidates; a round that goes
-- on considers a candidate, so Cache/Rounds proves that it never stops for want of fuel.
-- `advance_to` of Scheduler/Waits, the turn of the cycle to a class, has the length of the cycle;
-- Scheduler/Turning proves that this is enough. `read_full` of Ipc/Stream has a hundred reads for
-- each byte and `write_all` a write for each byte; Ipc/Returning proves that no connection uses
-- them up. Reads and writes of a connection are parameters, with the contracts of io.Reader and
-- io.Writer as hypotheses. The other loops recur on their list or on a count.
--
-- Not modelled: the providers, the transport, the terminal interface, the stores' SQL, the daemon's
-- servers and the release tools, which do input and output or render; PROJECT.json lists each part.
pub mod Base
pub mod Auth
pub mod Cache
pub mod Ipc
pub mod Job
pub mod Wal
pub mod Transfer
