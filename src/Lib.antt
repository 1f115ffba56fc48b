-- ===== src/Lib.antt =====
-- A verification library of the collision monitor (src/collision_monitor, paths from the
-- repository's root).
--
-- The monitor receives robot states, derives for each pair of robots which joint Pause and Resume
-- actions are safe, splits the fleet into components of conflicting robots, scores the robots,
-- decides each component by CP-SAT or by a deterministic search, checks the whole fleet again, and
-- keeps right-of-way grants and waiting ages from one tick to the next. A service ingests states
-- from a transport, runs the tick and publishes the actions; a simulator moves robots by them. This
-- library models the decision core, the service with the transport in memory, and the simulator.
--
-- Parts and files:
--   Base         shared types, tests, dictionaries, counting, sorting, and exceptions as results
--   Models       models.py: poses, states, snapshots, actions, the next pose
--   Config       config.py: the numeric settings and their checks
--   Conflicts    conflicts.py: compatibility of a pair and its no-goods (Pairs), the conflict model
--                (Model), build_adjacency and decompose_connected_components (Graph, with
--                proofs on a turn of the search in Turn, on a search in Search, on the components
--                in Components and on the graph that is built in Adjacency and Connected),
--                build_conflict_model over an interface for envelopes (Build)
--   Optimiser    optimiser.py: validate_component_decisions (Validate, with its theorem in
--                Validity), build_objective_encoding (Objective, Coverage), and
--                CpSatComponentOptimiser (Solver), with the CP-SAT library as a parameter
--   Priority     priority.py: scores and their bounds (Score), with theorems on the deadline
--                urgency (Urgency) and on throughput (Throughput)
--   Heuristic    heuristic.py: clauses (Clause, Clauses), _propagate (Propagate and its children),
--                _greedy_pass (Greedy), _repair_pass and solve (Solve); under Solve the proof goes
--                from the assignment (Complete, Seed, Ranking) over the repair pass (Repair) and
--                the stages (Verdict, Outcomes, Stages) to what solve promises (Ready, Passed,
--                Liveness)
--   StateStore   state_store.py: LatestStateStore, and what it keeps (Newest)
--   Grants       grants.py: the manager's state and one-grant operations (State),
--                _reconcile_lifecycle (Lifecycle), _grant_group_has_safe_completion and
--                _safe_relevant_grants (Group), _validate_or_repair_components (Repair),
--                _acquire_grants and _update_fairness (Acquire), the tick (Tick), and theorems
--                (Completion, Invariant, Protocol)
--   Engine       engine.py: the codes and the records of a tick (Codes), _normalise_snapshots,
--                _derive_staleness and validate_global_safety (Validation), _score_priorities,
--                _component_hard_assignments and _solve_components (Solving), decide in its stages
--                (Decide); proofs on the validator (Safety), the stages of a decided tick
--                (Decided), its commands (Commands, Override) and its manager (Transaction)
--   Transport    transport/base.py: the messages and the publisher's interface (Message);
--                transport/memory.py: deliveries, queue and publisher (Memory)
--   Service      service.py: _publish_with_retry (Publish, proofs in Retry and Retry/Counted),
--                ingest_payload and consume_states (Ingest, proofs in Settlement), run_tick (Tick,
--                proofs in Actions and its children)
--   Simulator    simulator/robot.py (Robot, proofs in Journey); simulator/scenario.py: run_scenario
--                over any transport (Scenario, proofs in Limits) and InMemorySimulatorTransport
--                (Memory), which joins the simulator to the service and the engine
--   Examples     the results below at concrete inputs
--
-- Representation. A robot identifier is a string that the program compares for equality and order;
-- it is a natural number in that order, 0 being the empty string. Durations in seconds are whole
-- microseconds, and a battery level is a whole number of millionths of a per cent, so checks for
-- finite and non-negative values hold by the representation. Products and quotients of durations
-- are exact, where the program rounds floats: the stale limit in ticks can differ by one where the
-- quotient of the two durations lies next to a whole number. Coordinates are a type parameter. A
-- dictionary is an association list of which lookups see the first entry; `insert` replaces. An
-- exception is a value of `Result`; an operation of the grant manager that may raise returns the
-- state that it leaves beside the result, and so do the service, the publishers and the transports.
-- The clocks' readings are arguments. A decoded payload is of any type, with pydantic's validation
-- of it as a parameter; in the simulator it is the state itself.
--
-- Termination. Every loop is a recursion on a list or, over a `range`, on the number of turns left,
-- but for two that run on fuel: the `while` of _propagate, with one more than twice the number of
-- clauses, as each round but the last fixes an open literal; and the breadth-first search, with as
-- many turns as robots, as each is queued once.
--
-- Not modelled: geometry (shapely) and the CP-SAT library, which are parameters; the endless loops
-- and the concurrent tasks of the service, which call the tick and the consumption; RabbitMQ, the
-- scenario files, tracing, logging and the command line, with the settings that are text or Booleans
-- and their reading from the environment.
pub mod Base
pub mod Models
pub mod Conflicts
pub mod Heuristic
pub mod Config
pub mod Engine
pub mod Transport
pub mod Service
pub mod Simulator
pub mod Optimiser
pub mod Priority
pub mod StateStore
pub mod Grants
pub mod Examples
