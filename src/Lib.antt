-- ===== src/Lib.antt =====
-- A verification library of repository-quality-guard, a quality gate for source repositories.
--
-- The parts of the program and the files that model them:
--
-- packages/rqgtest is the test executor. A Case (core/case.py) names an entry, its inputs and its
-- oracles; TestUnit (core/unit.py) runs the entry on each input and compares each observation with
-- its oracle; core/result.py keeps the ledger of samples; run.py executes the selected Cases, some
-- in the coordinator and some in a process pool, and turns the ledger into an exit status.
--   Testing/Value.antt     the Python values and exceptions that the executor tells apart
--   Testing/Runtime.antt   the interpreter and the code under test, as a record of operations on an
--                          outside state (calls, awaiting, attribute lookup, iterators, the event
--                          loop), and the results of the executor's own code
--   Testing/Case.antt      core/case.py: the class checks, the constructor, a Case as a record
--   Testing/Ledger.antt    core/result.py and `TestUnit.require_pass`
--   Testing/TestUnit/*     core/unit.py: Invoke (`_invoke`), Streams (the `while True` loops over two
--                          iterators), Multi (`TestUnit.run`), Stateful (`_stateful_sequence`)
--   Testing/Loader.antt    data/loader.py: the cache of preprocessed data files, on a store of files
--   Testing/Run.antt       run.py: `_execute` and `main` behind the selection of the Cases
--
-- runtime/src holds the gate itself. The rules that scan a repository yield findings; a scan report
-- holds them, with the baseline that the same scan of a Git revision gave; QG169 and QG179 compare
-- the two and add findings of their own; `code_status` turns the report into the verdict.
--   Gate/Findings, Interface, Report   model.py
--   Gate/Evidence          the values in the `evidence` of a finding
--   Gate/Gather            the dictionary of findings by fingerprint that both rules build
--   Gate/Docstrings        baseline_regression_rules.py: QG169
--   Gate/Regression        baseline_regression_rules.py: QG179
--   Gate/Baseline          cli.py: `_quality_baseline`, and how the rules' findings join the report
--   Gate/Status            gate_status.py
-- The external tools of a scan run as subprocesses that process_lifecycle.py supervises.
--   Process/Alive          `process_alive`, `_process_cpu_ticks`
--   Process/Tree           `terminate_process_tree`
--   Process/Watch          `wait_for_active_process`
--   Process/Command        `run_bounded_command`
-- A project's profile may suppress a rule in a file or in a definition (scoped_rule_policy.py).
--   Scoped/Syntax, Entries `parse_scoped_disables`
--   Scoped/Scopes          `_parse_scopes`, on the syntax tree of a file
--   Scoped/Matcher         `ScopedRuleMatcher`, with its cache as a state that is passed on
-- The scan records which symbols use which (topology_facts.py); rules ask it whether a helper is reused.
--   Topology.antt          `RepositoryTopology`: its edges, the two indices, `incoming`, `outgoing`
--   Topology/Helpers       topology_policy.py: the evidence, `ephemeral_helper_candidate`
--   Topology/Chain         call_chain_rules.py: `_maximal_chain`, `SingleUseChainRule.evaluate`
-- Reports on interfaces show the symbols that callers may rely on (interface_visibility.py).
--   Visibility.antt        `filter_interface_symbols`, `_symbol_exposure`, over the symbols of Gate
--   Visibility/Names       the methods of `str` that it uses
-- A profile sets the policy that the commit command of a report is checked against.
--   Commit.antt            commit_policy.py: `parse_commit_policy`, `validate_commit_command`
--   Commit/Lines           the methods of `str` that it uses
-- A scan is kept in a cache, and one process at a time scans a repository (scan_snapshot.py).
--   Snapshot.antt          the key, `_load_snapshot`, `_save_snapshot`, on a store of files
--   Snapshot/Flight        `scan_target_cached` and `_acquire_single_flight` as steps of processes
-- The cached graph of a scan is summarised for a reader (evidence_statistics.py).
--   Connectivity.antt      `graph_statistics`: union-find, `root`, the numbers of the report
--   Connectivity/*         where chains of parents end, the invariant of the forest, the components
-- Reads of a mapping by a literal key are accepted where a membership test guards them
-- (typed_guard_flow.py).
--   GuardFlow.antt         the syntax, `_literal_membership`, `_reads`, `_unknown_effect`
--   GuardFlow/Analysis     `presence_witnesses`: the state, the transfer, the join
--   GuardFlow/Semantics    which nodes may take a key from a receiver, and what a membership test says
--   GuardFlow/Execution    how a body may run, as a relation on the keys of the receivers
-- The scan of the Git baseline runs in a worker beside the current scan.
--   Worker.antt            baseline_parallel.py: `GitBaselineTask` and what it has allocated
--
-- State and effects: a Python call is a function of the outside state, of which nothing is
-- assumed. An exception is a value of the result type, so that each `except` clause is a case of a
-- function. The loop over two iterators runs on fuel; it gets one unit more than its limit on
-- samples, and this much is proved never to be used up, since each round adds one to the number of
-- rows. A search for a root runs on fuel for each callable, which is proved enough, since a chain
-- of parents is shorter than the component it is in. The walk along a chain of helpers gets one unit
-- more than there are helpers, which is proved enough, since the helpers of a chain differ.
-- Processes that share the snapshot cache are a step relation on one world, in any order of their
-- steps. A process pool is a function from a case's index to how its future ends. A supervised wait
-- runs on the sequence of what it observes, round by round, and each call on the way, also each of
-- those that terminate a process tree, may raise; times are natural numbers of one unit, and `None`
-- for a lookup stands for the KeyError that Python raises. `repr` and `str` of a value run code
-- under test, with its effects and exceptions. Texts are the native strings.
--
-- Parameters: the digest of a message in a fingerprint (SHA-256 and a regular expression), the
-- coverage in floating point, the classification of a path as a test path, the check of a rule's
-- code, the digest in the name of a snapshot, the scope of the rule on helper chains, the regular
-- expressions of a commit policy, the private names that other modules import, and the reading and
-- parsing of a Python file.
--
-- Not modelled: argument parsing, file selection and the text that is printed; the components that
-- visit C++ or TypeScript syntax trees, and most that visit Python syntax trees; rendering of
-- reports; installation and release.
pub mod Commit
pub mod Connectivity
pub mod Gate
pub mod GuardFlow
pub mod Prelude
pub mod Process
pub mod Scoped
pub mod Snapshot
pub mod Testing
pub mod Topology
pub mod Visibility
pub mod Worker
