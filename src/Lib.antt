-- ===== src/Lib.antt =====
-- A model of AutoTrader, a bot that holds spot bought against perpetuals sold to earn funding.
--
-- One cycle (`run_cycle` of loop/cycle.py) runs for one venue and mode. Phase A compares rows with
-- the venue and recovers rows that hold one leg only; maintenance closes everything; phase B closes
-- open pairs by their profit, basis and forward yield; phase C scans the funding rates, sizes one
-- candidate, tests it against the profitability gate and places both legs. The cycle reads and
-- writes rows through state/repository.py and places orders through the gateway interface.
--
-- The runner (loop/runner.py) starts one thread for each mode and active venue. Each iteration of a
-- thread runs one cycle inside of a database scope, snapshots the balances, ingests the venue's
-- capital flows and waits. The diagnostics read the same tables.
--
-- Base holds texts, lists, dicts and the two monads: `Outcome` for pure code that may raise, and
-- `Action` for code that also changes state and keeps what it wrote before a raise. Number is the
-- interface of the arithmetic. Python's finite floats are one instance, whose laws are named
-- hypotheses of theorems (`IsOrdered`, and `IsRounded`, which adds those of quotients and integer
-- parts; rounding respects both); Number/Fixed is an instance that meets them.
--
-- Core/Types           core/types.py: the value types.
-- Core/Keyed           dicts whose keys are a mode and a venue.
-- Core/Settings        core/config.py: the environment and the registry of gateways.
-- Core/Lifecycle       core/lifecycle.py: `transitions`, `transition`, `initial_status`.
-- Core/Math            core/math.py: one function for each of the source's.
-- Core/Sizing          core/sizing.py: the loops are recursions over the levels of a book. Sides,
--                      Bounds, Accepts and Best hold proofs.
-- State/Models         state/models.py: a record for each table; Session is the database.
-- State/Repository     state/repository.py: the queries and inserts of the cycle; Queries holds those
--                      of the diagnostics.
-- State/Database       state/db.py: `session_scope`, over a state that no rollback reaches, and the
--                      seeding of the venues. What a commit or a flush comes to is a parameter.
-- Gateways/Venue       gateways/base.py: the calls that the cycle makes, as a record.
-- Gateways/Paper       gateways/paper.py: `InMemoryGateway`, an implementation of that record.
-- Gateways/Ccxt        gateways/_ccxt_helpers.py, and the calls of ccxt as a parameter (`Client`).
-- Gateways/Binance     gateways/binance.py: an implementation of Venue over that client. Orders, Fees,
--                      Transfers and Flows hold its calls, Answered, Listed, Converted and Reads proofs.
-- Loop/World           what a cycle changes: the session, the venue and the result object.
-- Loop/Executor        loop/executor.py: `LegTiming` fixes the order of the two threads and which
--                      answers are late. Outcomes, Raised and Answers hold proofs.
-- Loop/Idempotency     loop/idempotency.py.
-- Loop/Cycle           loop/cycle.py: Safety, Recover, Close, Exits, Scan, Entries, Fills and Run.
--                      Closed, Retried, Recorded and Unrecorded hold proofs about these.
-- Loop/Evolution       proofs about the session over a whole cycle.
-- Loop/Capacity        proofs about the rows that phase C adds.
-- Loop/Runner          loop/runner.py: Flows and Once are the body of an iteration, Thread the loop,
--                      Activate, Account and Start the boot and the shutdown (with the factory of
--                      gateways/__init__.py). Lasting, Ingested, Atomic, Thread/Beats,
--                      Activate/Twice, Account/Locked and Start/Tracked and Stopped hold proofs.
-- Diagnostics          diagnostics/anomalies.py and diagnostics/endpoint.py.
-- Demo                 fixtures, and the theorems on concrete inputs; `first_cycle` of
--                      Demo/Examples runs a whole cycle of the paper venue.
--
-- Each recursion is over a list, but for `worker_loop`, which has fuel: one unit for each
-- iteration, of which each takes half a second at least, so the time up to the stop event bounds
-- them. Time is the field `now` of a session, constant during a cycle, and points in time are
-- natural numbers of microseconds; a clock that runs backwards counts as one that stands still.
-- `Surroundings` says what each iteration of a thread meets. One thread is modelled at a time: what
-- other threads commit between the scopes of this one is left out. A row object that Python shares
-- between loops is looked up by its id whenever it is used. SHA-256, `str` of integers and `repr`
-- of exceptions are the fields of `Host`. The flush of a balance snapshot, of the event that a failed
-- cycle logs and of capital flows may raise; the other flushes go through, so that one which fails
-- inside of a phase of a cycle is left out. The quotient of two numbers after a test that the
-- divisor is above zero does not raise; elsewhere division by zero raises as in Python.
--
-- Not modelled: gateways/kucoin.py and gateways/hyperliquid.py; the log, and of the live gateways
-- the permission probes, transfers and dust conversion; the web pages; the set-up of the database
-- engine and its migrations; how the diagnostics write their snapshot as JSON; the interleaving of
-- threads; the archived version; scripts and tests.
pub mod Base
pub mod Number
pub mod Core
pub mod State
pub mod Gateways
pub mod Loop
pub mod Diagnostics
pub mod Demo
