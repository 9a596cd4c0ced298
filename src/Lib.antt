-- ===== src/Lib.antt =====
-- A verification library for TelcoNet Sentinel, a service that follows link events of a carrier
-- network, analyses their impact and audits the network's resilience (src/telconet_sentinel/).
--
-- The parts and their files:
-- - Common, Errors: texts, lists, JSON values, sorted lists, dictionaries in the order of insertion and integers;
--   the exceptions of the package as values, one constructor for each `raise`, and their results.
-- - Models: the data of src/telconet_sentinel/models.py.
-- - Topology: src/telconet_sentinel/topology.py. Topology has the two dictionaries of the class, its
--   constructor (`new`), the lookups and `neighbors`; Topology/Path has `has_path` and
--   Topology/Distance the two shortest-distance methods. Topology/Walk gives their meaning: walks of
--   the graph without the excluded links and nodes, and the least cost of a walk to a target.
-- - Fault: src/telconet_sentinel/fault.py, the fault scenarios, their checks and generators.
-- - Audit: src/telconet_sentinel/audit.py, the audit of fault scenarios, on the distances.
-- - Resilience: src/telconet_sentinel/resilience.py, the audits of single links and of single nodes,
--   which call the generators of Fault and the audit of Audit.
-- - Impact: src/telconet_sentinel/impact.py, the analysis of one link event.
-- - Recovery: src/telconet_sentinel/recovery.py, the plan and its approval.
-- - Service: src/telconet_sentinel/service.py. The record has the fields of `IncidentService`; every
--   method takes the state and returns the next one. A method that raises leaves the state as it
--   was. `ingest` calls the analysis and the plan, as in the source.
-- - Convergence: src/telconet_sentinel/convergence.py, the events and runs of a measurement and the
--   store in memory, whose record has the fields of `ConvergenceStore`. Convergence/Runs is about the
--   events of one run, Convergence/Valid, Store and Append about the store. Convergence/Database is
--   `SQLiteConvergenceStore`, with the tables as lists of rows and the statements' effect on them,
--   and the relation in which it stands for the store in memory. Convergence/Metrics has the text of
--   the live metrics.
-- - Runtime: src/telconet_sentinel/runtime_resilience.py. Runtime has the models of the plan, of the
--   observation and of the published evidence, each with the checks of its class; Runtime/Lab reads
--   the links of the lab, Runtime/Plan makes a plan of a topology and those links, Runtime/Evidence
--   judges an observation, Runtime/Published checks published evidence against a topology and prints
--   its metrics, and Runtime/Commands has what is read from a router and what the commands print.
-- - FailureDomain: src/telconet_sentinel/failure_domain.py, the audit of shared-risk failures, which
--   runs the audit of Audit on composite faults.
-- - Intent: src/telconet_sentinel/intent.py, the declared networks and the catalog of designs. A
--   declared network becomes a topology by the constructor of Topology. The test for a canonical IP
--   network and the YAML reader are parameters.
-- - Telemetry: src/telconet_sentinel/telemetry_models.py, the observations and their checks.
--   Telemetry/Store is `TelemetryStore` of telemetry_store.py and Telemetry/Store/Database is
--   `SQLiteTelemetryStore`; Telemetry/Binding has the models and checks of telemetry_config.py,
--   Telemetry/Binding/Lab reads the document of a lab, of which, with a declared network,
--   Telemetry/Binding/Load makes a binding, and
--   Telemetry/Collector has the parsers and the snapshot of telemetry_collector.py.
-- - Tests: a sample network, with the theorems applied to it.
--
-- How the code is read:
-- - A method is a function into `Result`, whose errors are the code's exceptions.
-- - A set is a list in which no name is twice; a set of arguments is any list of names. The heap is a
--   list in order, of which the first entry is popped. The tuples of a heap compare by cost, then by
--   name, and names compare by their codes.
-- - A cost is a natural number: the constructor refuses a negative cost as it refuses 0. The code's
--   integers have no bound, so nothing wraps around.
-- - The loop of the distance search is on fuel, `links * nodes + 2` rounds. A node is settled once,
--   and each settled node pushes at most one entry for each link, so the heap is empty by then. That
--   of `has_path` is on `nodes + 2` rounds: a node is visited once. The theorems on the searches say
--   that they return, so the fuel is enough.
-- - The clock's reading, the time of creation and the random part of an identifier are arguments
--   (`Arrival`), and the digest is a parameter. Where a theorem needs the identifier to be new, it is
--   a hypothesis. Readings and the window are integers of one unit. Calls hold the lock from start to
--   end, so they follow one another.
-- - The plan of an incident is changed in place by `approve`: the stored incident shows the change.
-- - A transaction of the database is one step: the next one starts from its result, and one that
--   raises changes nothing. A time that is written to a table is read back as it was.
-- - A model whose class checks its fields is a record, with a function that raises the first error
--   of those checks. A document is the value that the JSON or YAML reader makes of it, and a command
--   of a router is known by the way it ends.
-- - A row of the table of snapshots keeps the time as an instant and the payload as the snapshot that
--   its text stands for.
--
-- Not modelled: reading files, digests, the processes that collect measurements, the web interface,
-- the report texts and the metric texts of metrics.py and telemetry_metrics.py, and the measurement,
-- live-collection and conformance parts.
pub mod Common
pub mod Errors
pub mod Models
pub mod Topology
pub mod Intent
pub mod Fault
pub mod Audit
pub mod Resilience
pub mod Impact
pub mod Recovery
pub mod Service
pub mod Convergence
pub mod Runtime
pub mod FailureDomain
pub mod Telemetry
pub mod Tests
