-- ===== src/Lib.antt =====
-- Verification library of DevGate: the hub that watches a fleet of runners, and the decisions of the
-- spec-coherence engine.
--
-- The hub keeps a registry of runners. Spokes enroll and post heartbeats over HTTP; a monitor loop
-- reads the registry and the GitHub API and raises alerts, which a notifier logs and files as issues.
-- The coherence engine applies a repository's overlay, plans the assertions of the package and runs
-- their evaluators; an adoption ladder and an exit matrix turn the outcomes into a decision. Results are
-- cached under their complete identity, and inputs are retained under a capability. The evidence and the
-- decision of a run are sealed on disk with a detached attestation, which a promotion verifies. Work on a
-- requirement, and each decision, is tracked by a claim.
--
-- Files, and the code that each is about:
--   Common, Common/*   shared names: tests, dicts as association lists, JSON values, text, results
--   Claim              hub/coherence/verification.py: the fields of a claim's dict as a record, the
--                      state constants as `State`, and `can_transition`, `transition`, `bind`,
--                      `attach_evidence`, `staleness`, `revalidate`, `verify_independently`,
--                      `summarize` under their own names. A call gives the claim after it and what
--                      it raised (`Effect`).
--   Registry           hub/tokens.py `verify` and hub/registry.py: the class Registry as a record of
--                      tokens and rows; its methods are functions on it.
--   Server             hub/server.py: `HubState.with_registry`, the handlers of /enroll, /heartbeat
--                      and /revoke, and `do_POST`, on the registry in memory and in its file
--   ScanView           hub/scan_view.py: `scan_alerts`
--   Monitor/Watch      hub/monitor.py: alerts, the API's answers and the clock as a `World`, the
--                      runs of a check, and `parse_iso` of hub/github_client.py
--   Monitor/Local, Monitor/Fleet, Monitor/Workflows
--                      the seven checks of MonitorLoop, from `_check_image_readiness` to
--                      `_check_spec_coherence`
--   Monitor/Poll       `_poll_repo` and `poll_cycle`
--   Ledger             the rows and findings that the coherence modules pass on
--   Decision           hub/coherence/result.py: `decide` and `_summary`
--   Adoption/Sets, Adoption/Shelter, Adoption/Mirror, Adoption/Evaluate
--                      hub/coherence/adoption.py: the sets that `evaluate` builds, its loop over the
--                      findings, its loop over the ledger, and `evaluate`
--   Policy             hub/coherence/policy.py: `check_anti_rollback`
--   Overlay            hub/coherence/policy.py: `apply_overlay`, on assertions as JSON objects
--   Alerts             hub/alerts.py: `raise_alert` of the notifiers, with the requests that it sends
--   Plan               hub/coherence/plan.py: the checks and the order of `plan`
--   Evaluation         hub/coherence/evaluate.py: `run`, on an engine of evaluators and facts
--   Evaluators         hub/coherence/evaluators.py: the four built-in evaluators on a package, its
--                      assertions and the captured facts
--   Pipeline           hub/coherence/__main__.py: `run` from the plan on, composed of Plan,
--                      Evaluation, Adoption and Decision
--   Emission           hub/coherence/__main__.py: `_emit_decision_claim`, on Claim
--   Canon              hub/coherence/canon.py: the canonical profile and the digests of a role
--   Evidence           hub/coherence/evidence.py: `contained`, `redact_values`, `seal`, on the files of a
--                      run's directory
--   Evidence/Check     hub/coherence/evidence.py: `verify`
--   Attest             hub/coherence/attest.py: `required`, `sign`
--   Attest/Checks      hub/coherence/attest.py: `_check_signer`, `_check_signature`, `verify`,
--                      `verify_promotion`, `verify_attestation`
--   Attest/Sealing     hub/coherence/attest.py: `seal_run` and `emit_envelope`, on result.py's `emit`
--   ResultCache        hub/coherence/cache.py: `key`, `put`, `get`
--   Retention          hub/coherence/retention.py: `issue`, `retain`, `read`
--   GithubClient       hub/github_client.py: `get_with_backoff`
-- The modules below these hold the theorems on them, and Examples applies the theorems to small claims,
-- fleets and packages.
--
-- A run of a check collects its alerts and ends with a result or an exception; the alert sink is
-- taken to return. Times are microseconds since the epoch, and `datetime.fromisoformat` is an argument.
-- Times are taken to name their offset. A JSON value that a spoke or GitHub sends may have any shape, and code that would
-- raise on its shape raises in the model. Details of alerts and reasons are data that hold what the
-- sentences interpolate.
--
-- Fuel: `Plan.visit` bounds the depth of its stack by the number of assertions plus one, since every
-- level of the stack has an id of its own; `Common.Decimal.digits` has one more than the number.
--
-- Bytes stand as texts. SHA-256, HMAC, base64, hex, `json.dumps`, `json.loads`, Python's `int`, its `==`
-- of JSON values and the environment's key are arguments. Where a theorem needs that a document is read
-- back as it was written, or that certain texts do not collide under a hash, it says so as a hypothesis
-- on those texts.
-- Pipeline takes the loaded assertions, policy, context and sets as inputs, and whether the evidence is
-- sealed and the result signed; Overlay takes the package's assertions as objects with a text `id`.
--
-- Left out: the HTTP transport and the parsing of JSON text, the registry file's format, the text of
-- alerts and issues, start-up and configuration, the loading of a request with its package and context,
-- the rest of hub/coherence/policy.py, the JSON Schema checker (its verdicts are arguments), the scan of
-- source files for markers, containers, and the scripts. Recursion limits of the interpreter are not modelled. A save of the registry's file succeeds
-- or raises as the request says; the alert log can be written.
pub mod Common
pub mod Claim
pub mod Registry
pub mod Server
pub mod ScanView
pub mod Monitor
pub mod Ledger
pub mod Decision
pub mod Adoption
pub mod Plan
pub mod Evaluation
pub mod Evaluators
pub mod Canon
pub mod Evidence
pub mod Attest
pub mod Pipeline
pub mod Emission
pub mod ResultCache
pub mod Retention
pub mod GithubClient
pub mod Examples
pub mod Policy
pub mod Overlay
pub mod Alerts
