-- ===== src/Lib.antt =====
-- ENISHI: personal agents that negotiate for their owners (services/local-core), and the Relay that
-- stores and forwards their messages (services/relay).
--
-- Prelude passes on library names and holds the lists, tables and tests that all parts share.
-- Errors is services/local-core/enishi_core/errors.py: an exception is a code.
--
-- Protocol is services/protocol_state.py of the local core: `validate_incoming` decides which message
-- a session accepts next. Protocol/Legal describes the same by arrows.
--
-- CostSplit is domains/cost_split_strategy.py (Strategy), the guards of domains/common.py (Guards) and
-- `run_cost_split_negotiation` of domains/cost_split.py (Driver). Amounts is the interface of the
-- numbers: what is used of finite floats, with the laws that the code relies on. Limits, Shapes, Rounds,
-- Settlement and Gate are the proofs. The loop runs three rounds, as in the source, on a count that is
-- used up: no fuel is chosen. Hooks is the rest of domains/cost_split.py, by which `CostSplitDomain`
-- negotiates with other nodes, an instance of Remote's `DecisionDomain`; Offers and Consent are about
-- it, Cents has the numbers of the tests. Texts that are passed on (titles, currencies, dates) stay texts, and
-- the wording of reasons is left out.
--
-- Relay is services/relay/relay. Memory and Sqlite are the two stores of store.py over the data of
-- Types; a statement of SQL is what it says of the list of rows. Boxes, Pages, Same and Agree
-- compare them call by call, Runs over histories of calls, Bounds keeps the capacities. Json and
-- Requests are `_validate_json_shape` and the handlers of main.py over the interface
-- `MailboxBackend`, Credentials is `authenticate` of config.py; Shape, Authentic and Posts describe
-- what these let through, and Delivery what a stored message lives through. Each call reads the
-- clock once, at microseconds; `uuid4` and the cursor's text are parameters;
-- that `uuid4` gives no identifier twice is taken as given, so a table's key refuses no row.
--
-- Tasks is services/approvals.py and services/tasks.py of the local core, and what an approval does to
-- a session of the node (services/negotiation.py). Types has the rows, Resolution and Sessions what an
-- answered approval does to a task and to a session, Approvals the service and its routes, Queue the
-- calls of the interface and of the worker, Worker what the worker holds between its steps and all
-- calls of one process, Create the making of a task. Permission, Lifecycle, Histories, Rows, Runs,
-- Stops and Answers are the proofs. One process with one worker runs at a time, as the source has it. A commit is the end of a call; the audit log is left
-- out, since nothing reads it, and so is what a provider prints. How approvals of sessions with other
-- nodes are answered is the interface `RemoteApprovals`, and what a task's making reads of other
-- tables and services is the record `Registry`.
--
-- Replay is security/replay.py of the local core, and Policies is services/policies.py.
--
-- Exec is the database session of SQLAlchemy: what is committed, what the open transaction shows, and
-- exceptions. Exec/Triples has the rules by which its methods are reasoned about.
--
-- Remote is services/remote_negotiation.py, the negotiation with other nodes, with what it calls of
-- services/agent_requests.py (Personal). Types has the rows and the envelope, Domain the interface
-- `DecisionDomain` of domains/base.py, the JSON values that the driver makes itself, and the node with
-- its cryptography. Guards, Messages, Writes and Receive have the helpers, Handle is
-- `_handle_envelope`, Inbox `process_inbox`, Outbox `flush_outbox`, Awaiting and Resolve
-- `resolve_remote_approval`, Start `start_remote_negotiation`. Machine is the abstract session; Locals,
-- Follows, Answered, Responded, Passed, Handled, Refinement, Resolved and Started show call by call
-- that the code takes its steps, Runs over histories. Invariants is about those steps, Sending about
-- the outbox, Guarded and Orphans about single messages. The rows of a table are in the order in which
-- they were made, also the outbox, which is sent by its times; a new identifier is given with the
-- call; topics, descriptions and the audit log's entries are left out, but the log's commits are not.
-- PublicReasons is services/public_reasons.py.
--
-- Scheduling is services/scheduling.py on local times in minutes. Overlaps says when its comparisons
-- return, Slots and Candidates what `candidate_slots` returns, Complete what it does not miss. `scan`
-- is its inner loop on fuel, one more than the range's end: each step adds thirty minutes, and
-- Complete finds every slot up to the end. Parsing and printing of dates are left out, and so is
-- `collect_busy`; the offsets of a time zone are a parameter.
--
-- Peers is services/peers.py: who is trusted, and the policies by which memories are told. Histories
-- and Disclosure are about any calls of it.
--
-- Not modelled: the signatures of envelopes, the domains of meetings and of task
-- requests, memories and context building, routes and schemas, providers, migrations, keys, and
-- the desktop application.
pub mod Prelude
pub mod Errors
pub mod Exec
pub mod Protocol
pub mod CostSplit
pub mod Relay
pub mod Tasks
pub mod Replay
pub mod Policies
pub mod PublicReasons
pub mod Remote
pub mod Scheduling
pub mod Peers
