-- ===== src/Lib.antt =====
-- A model of the parts of this repository that decide what runs, what may be spent and what may be
-- released: the verification of a project's flows and its evidence, the admission of paid
-- certification tasks, and the certification and promotion of a reviewed release.
--
-- The program's parts. `plugins/tugling/scripts/project_contract.py` reads a project's
-- verification map (flows with dependencies, requirements that name flows), computes the flows
-- that a project's requirements need, runs them as processes with bounded parallelism, writes
-- evidence of the run into a receipt, checks such evidence later, and prunes the stored receipts.
-- `scripts/certification_tasks.py` keeps receipts (admissions and results of attempts at the tasks
-- of an approved plan), accounts for the tokens they report, and admits or recovers attempts;
-- `scripts/certification_jobs.py` keeps the receipts of each serial lane in checkpoints.
-- `scripts/pstack_release.py` checks a human-reviewed report of attempts and certifies a candidate
-- on it; `scripts/release_controller.py` promotes the candidate with that certificate, which it
-- verifies by `verify_certificate` of pstack_release.py. `scripts/promote_release.py` calls it once
-- GitHub's protections, an approval and the attested evidence have been checked.
--
-- The files.
--   Prelude: the names all modules share, Python's `all`, `any`, `sum` and comparisons as
--     functions by clauses, lists of strings as sets, and `Except` for code that raises.
--   Project/Flows, Project/Map: the decoded map and `validate_verification_map`, in the source's
--     order of checks. Map/Accepted and Map/Refused say what its two answers mean.
--   Project/Cycles: the nested function `visit`; the sets are lists. Cycles/Sound and
--     Cycles/Complete.
--   Project/Required: `required_flow_ids`; the first set of names is an argument of
--     `required_from`, since Python does not fix a set's order.
--     Required/Closing, Required/Closure and Required/Named.
--   Project/Results: `execution_plan`, `performance_summary`, `validate_execution_timing`, with the
--     `round(..., 3)` of their times in Project/Rounding.
--     Timing and Summary have the proofs.
--   Project/Schedule: `execute_flow_plan` with `cancel_active` and `flow_result`. State has the
--     variables of the loop, Launch the launches and the cancellation, Schedule the polls and
--     the loop. Invariant, Keeps, Waits,
--     Outcomes, Progress, Evidence and Summaries have the proofs.
--   Project/Retention: `receipt_retention` and `prune_receipts`, over the directory entries with
--     what the locks and the second look at a file find; a name is its place in the order of
--     names. Bounds, Pruning and Total have the proofs.
--   Project/Runs: the evidence and the identity of a run, with `clean_revision` and
--     `execution_context`. Runs/Execute has `execute_flows`, as the checks before the run, the body
--     of the `try` and the `finally`, and Runs/Check has `check_flow_evidence`. Fresh, Passed,
--     Completed, Accepted, Roundtrip and Genuine have the proofs.
--   Certification/Receipts: the manifest, the receipts, `task_for` and `validate_record`.
--   Certification/Accounting: `accounting`. Its set and its dict of keys are lists of receipts.
--   Certification/Admission: `accepted`, `admit`, `recovery`. Admitted and Recovering are about
--     them.
--   Certification/Lanes: the checkpoints, and `History`, the sequences of `admit` and `finish`
--     commands of a lane. Keys, Spending, Histories and Overrun have the proofs.
--   Release/Patterns: the regular expressions. Release/Report and Release/Attempts:
--     `validate_report` and the policy. Reviewed, Coverage, Resolved and Accepted have the proofs.
--   Release/Certificate: `assemble_certificate`, `verify_certificate` and `validate_artifact` of
--     version 2, and the files that `certify` writes. Certified and Bound have the proofs.
--   Release/Gate: the certificates of version 1 in `scripts/release_gate.py`, assembled and verified.
--     Gate/Matrix has `validate_matrix`, `check_pairs` and `release_covered` of
--     `scripts/catalog_coverage.py`. Gate/Verified, Gate/Releasable and Gate/Pairs have the proofs.
--   Release/Authorize: `authorize` of `scripts/certify_release.py`, with its theorem.
--   Release/Controller: `promote`. Controller/Gates, Controller/Forward and
--     Controller/Again have the proofs.
--   Release/Delivery: `fetch_verified` of `scripts/release_evidence.py` and `verify_and_promote` of
--     `scripts/promote_release.py`. Delivery/Protection has `require_protections` and
--     `require_approval` of `scripts/release_protection.py`; Delivery/Fetched and Delivery/Approved
--     have the proofs.
--   The modules called Examples and what stands below them: tests, and each theorem applied to
--     concrete data.
--
-- How state and effects stand. A call of `execute_flows` takes a `Site`: the machine, Git before
-- and after the run, the clock, the receipt store at both times, the size of a receipt in JSON and
-- the scheduler's events; its result has the outcome and the receipts written. A call of `promote`
-- takes a `Site` with the objects that were fetched, the remote's refs when they are listed, when
-- the push arrives and when they are listed again, and the remote's answer to a push. `push_of`
-- has the arguments of the push, and `IsGitPush` says what Git documents of any push that is
-- taken. A call of `verify_and_promote` takes a `Delivery` with GitHub's answers, and makes the
-- promotion of the request and the file that was fetched. The loop of `execute_flow_plan` takes a
-- list of events: a round, with what the processes, `Popen`, `stop_process_groups` and the clock
-- say in it, or a KeyboardInterrupt between two rounds. A list that ends before the loop does
-- gives `unfinished`. The clock is a number of microseconds to which each reading adds a delay, so
-- that it never goes back. A raised error is a value.
--
-- Fuel. `visit` takes one more than the number of flows, as each nested call adds a flow to
-- `visiting`; `close` takes one more than the numbers of flows and first names, as each flow is
-- pushed at most once. `launch` takes the number of pending flows, as each of its rounds removes
-- one.
--
-- What is not modelled. JSON decoding and the tests of Python types: a decoded value is an element
-- of a data type. Numbers that Python reads as floats are in microseconds or thousandths;
-- `round(..., 3)` takes the nearest millisecond and of an exact half the even one, where the
-- binary form of such a half may differ. The times of a result are rounded where `in_order`
-- returns it, since the loop reads its id and failure only. The file system and Git:
-- `committed_file` and `str.strip` are parameters (`Checkout`), and so are the check names of the
-- graders, the re-projection of an installation's evidence and the shape of diagnostics
-- (`Grader`). `validate_manifest` is taken to have passed. The size limit of a written checkpoint
-- is left out of `emit_checkpoint`, and `assert_no_embedded_secrets` of
-- `validate_verification_map`, which only refuses more maps. Interrupts within a round are not
-- modelled, so also not one between the assignment to `active` and `pending.remove` of a launch;
-- nor is the environment that children get. The dicts `active` and `completed` are lists, which
-- agree with them where the selected flows are distinct. A receipt whose new file cannot be locked
-- is taken as one that was not made. Receipts and certificates are read back as the values that
-- were written. Of pstack_release.py, `authorize`, the reading of the report from Git,
-- `validate_sources` and the installation are not modelled; of release_controller.py, the fetch,
-- the writing of files and a push that is taken but whose answer is lost. `evidence_file` is a
-- test of the path that `check_flow_evidence` is given. Of promote_release.py, `authorize` and
-- `canary` are not modelled. Of the gate, the digest of a package and the commands are not
-- modelled. The evaluations and the workflows are not modelled.
pub mod Prelude
pub mod Project
pub mod Release
pub mod Certification
