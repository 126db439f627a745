-- ===== src/Lib.antt =====
-- The evidence and entitlement core of TORQ CLI (src/torq_cli).
--
-- A governed run writes receipts: records with a transition, a sequence number, a payload, the
-- role of the writer and the basis of the evidence. The verifier reads them back and refuses a
-- list that no governed run could have written. The library models that verifier, the ledger
-- of subscription windows which a run reserves its calls from, in memory and in signed journals on
-- disk, the execution graph, and the retry of a provider call.
--
-- The parts, and the files that model them:
--   Evidence/Rules: domain/evidence_transitions.py, the authority matrix (`transition_rules`) and
--     `transition_authority_finding`, current and legacy.
--   Evidence/Payload: domain/run_evidence.py, `validate_receipt_payload` and its helpers, with the
--     identities of domain/run_plan.py in Evidence/Payload/Plans. One module per kind of payload;
--     Shape holds the tests on single values, Floor the bound on every payload.
--   Evidence/Contract: the loop of `validate_v2_receipt_contract` in the same file. State holds the
--     loop's local variables; Commands, Attempts, Actions and Decisions hold one function for each
--     branch; Run holds the loop (`step`, `run`) and the tests after it (`at_end`,
--     `validate_lifecycle`).
--     Whole puts the task and decision contracts before it, on rows (`validate_v2_receipt_contract`).
--   Audit/Task: domain/task_evidence.py. Payload holds `validate_task_audit_payload`; Contract holds
--     `validate_task_receipt_contract`, its loop as `collect` and its tests as `rows_finding`.
--   Audit/Decision: domain/candidate_decision_evidence.py. Review and Apply hold the payload
--     validators; Contract holds `validate_decision_receipt_contract`: the loop (`find`), the
--     staged and written rows (Progress), the rows of a rollback (Rollback) and the order of an
--     application (Lifecycle).
--   Entitlements: safety/entitlements.py, `PlanWindow` and `InMemoryEntitlementLedger`.
--   Accounting/Journal: safety/accounting_registry.py, the file of signed rows, a JSON
--     text to a line, and its anchor (`_read_lines`, `_verify_journal`, `_append_locked`). A file is
--     the list of its code points. Record holds Python's dict operations on a row, Lines Python's
--     `splitlines`; Reading says what a line must be to read back as the row it was written from.
--   Accounting/Ledger: `PersistentEntitlementLedger` in the same file. Its store is two journals,
--     and `totals`, `reserve`, `cancel` and `reconcile` are the methods of these names. It shares
--     `PlanWindow` with Entitlements.
--   Accounting/Enrollment: `enroll`, `bind_run`, `set_root_trust`, `enroll_legacy` and `reanchor` of
--     the same class.
--   Engine: core/graph.py (`compile_graph`, `GraphExecutor.execute`) and the retry of
--     core/engine.py (`call_with_retry`).
--   Prelude, Dict and Json: the names the others share, Python's dict as an association list, and
--     decoded JSON values.
--
-- How the code corresponds: a validator's finding is an `Option Finding`, `none` where the source
-- returns None. A branch of the loop returns an `Outcome`: the state it goes on with, or the
-- finding it stops with. An exception that Python would raise in a validator is the finding
-- `raised`. A method of the ledger returns the ledger it leaves together with the error it raises,
-- since what it wrote before the raise stays. Regular expressions are tests on code points.
-- Every loop over data is a recursion on its list or on its JSON value. The loop of recompilations
-- recurs on what is left of the executor's limit and that of a retried call on what is left of its
-- range, the bounds the code itself has, so no other fuel is needed.
--
-- Integers are Python's, so they do not wrap; a negative one is a constructor of its own where the
-- code can meet it. Transitions, roles and bases are data types with one constructor for each name
-- the source mentions and one for any other text.
--
-- What runs outside the source is a parameter: the record Keys holds `json.dumps`, `json.loads`, the
-- digest, the signature and its test, the record Setting the clock's comparison and whether a run's
-- receipts verify, the record Root the digest and the hex text of a public key. The theorems on the
-- journals ask that the text of a new row reads back: it has no line break of `splitlines` in it,
-- and `json.loads` gives the same keys and values, in any order. The anchor's file holds one JSON
-- text, which is read whole, and is modelled as the mapping in it.
--
-- Not modelled: the ledger's constructor and `accounting_snapshot`; the file to which `reanchor` adds
-- a record of the old anchor; a write that is cut short; a reset time that does not parse, a
-- journal's file that is no UTF-8, a row whose `calls` are no number; the `legacy=True` side of
-- run_evidence.py; a floating point number or a key that is no text in a payload;
-- `PlanWindow.as_receipt` and `from_config`; the rest of core/engine.py, which counts in floats,
-- matches text or writes files. The digests of a JSON document and Python's `str` of a value that is
-- no text are the fields of the record World, which the definitions take as an argument. The
-- lifecycle's loop reads a receipt with its
-- `transition`, `writer_role` and `evidence_basis` decoded by `receipt_of`. A
-- `run_abandoned` whose `attempt_ids` is no list, which only a receipt without `evidence_basis` can
-- carry, is `raised`.
pub mod Accounting
pub mod Audit
pub mod Prelude
pub mod Dict
pub mod Json
pub mod Entitlements
pub mod Engine
pub mod Evidence
