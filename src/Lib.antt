-- ===== src/Lib.antt =====
-- RazorTrust decides on holds of merchants' settlements: a hold is created, a risk model and a policy
-- decide on it, the merchant may send evidence once, and a human reviewer settles it. Every decision
-- goes to an audit ledger of linked hashes. This library models the Python package src/razortrust.
--
-- Common    lists, options, dictionaries, exceptions, and `Platform`: binary64 arithmetic and methods
--           of `str`, which come from the interpreter and are an argument of what uses them.
-- Domain    src/razortrust/domain.py: the enumerations and models, and `validate_human_action`,
--           `resolved_action` and `resolved_decision` of a review.
-- Repository  src/razortrust/repository.py: `InMemoryHoldRepository`, its dictionaries as a record and
--           a function per method. Calls has the sequences of calls and what they lead to; Invariant
--           the well-formedness of the dictionaries; Lifecycle, Authority and Idempotence what holds of
--           every hold and every repeated request.
-- Policy    src/razortrust/policy.py: `LocalHoldPolicy.check`, and the OPA client after its request.
-- Evidence, Security  src/razortrust/evidence.py and `verify_manifest` of src/razortrust/security.py.
-- Costs     src/razortrust/costs.py and `CostPolicy` of src/razortrust/risk.py.
-- Guidance  src/razortrust/merchant_guidance.py.
-- Authorization  src/razortrust/authorization.py.
-- Audit     src/razortrust/audit.py: `AuditLedger`, over the list of the lines of its file.
-- Features  src/razortrust/features.py: the window, the statistics and the feature vector.
-- Models    src/razortrust/risk.py: the development, human-only and unavailable risk models.
-- Workflow  src/razortrust/workflow.py: `HoldService` over a repository and a ledger. The risk model, the
--           policy and the evidence verifier are arguments, as they are of its constructor.
-- Processor  src/razortrust/razorpay_processor.py: JSON values (Json), the readers and normalizers (Read,
--           Keys, Extract, Normalize, Reconciliation), `InMemoryRazorpayReconstructionStore` (Store) and
--           `RazorpayPaymentReconstructor` (Engine, Sync). Outcome, Progress, Budget and Drain have what an
--           attempt, a run and a sweep over the waiting events do; Pages and Complete the pagination.
-- Timeline  src/razortrust/processor_timeline.py: the models (Observations), `_latest_as_of` (Latest),
--           `_quality_report` and `_feature_readiness` (Quality) and `build_point_in_time_snapshot`
--           (Snapshot); Knowledge and Firewall have what a snapshot depends on and what blocks it.
-- Webhook   src/razortrust/integrations/razorpay.py: `build_event_summary` and `_primary_entity` (Summary),
--           the event store and the signature (Ingest), and `RazorpayClient` around its requests
--           (RestClient). References and Once have what a summary keeps and that a delivery counts once.
-- Database  src/razortrust/database.py: the tables as lists of rows (Tables, Queries) and `SqlHoldRepository`
--           (Holds, Decisions, Evidence, Reviews). A session is a transaction, so a method that raises
--           writes nothing. Chain, Steps and Calls have what sequences of calls keep of the audit events
--           and the outbox, Races a creation while other sessions commit.
-- Checkout  src/razortrust/checkout_bridge.py: the tables and the rules of a session (Rows, Rules), and
--           `SqlCheckoutBridgeStore` (Store, Events, Reconcile, Stats). Agreement, Keeps and Calls have what
--           sequences of calls keep of the status of a session, Counts the counters of
--           `reconcile_open_orders`, Late the events of an order that is already paid.
-- PaymentCases  src/razortrust/payment_case_bridge.py, over the rows of the table of payments and
--           `HoldService`; Once has what a repeated call returns.
-- Automation  src/razortrust/automation.py: `run_once`, over the repository and the service as a record.
-- GroundTruth  `_classify_outcome` of src/razortrust/ground_truth.py.
-- Tests     concrete data and the theorems applied to it.
--
-- A UUID is a number, a datetime the microseconds of its UTC instant, a digest the list of its
-- characters. What `uuid4()` and `utc_now()` return stands among the arguments of a method. A method that
-- raises gives the exception beside the state that it leaves. The repository's lock is held to the end of
-- each method, so a use of the repository is a sequence of calls. Recursion is structural, but for the
-- loop of `process_event`, which has fuel: a round takes one, every round that is followed by another has
-- used one of `max_attempts` attempts, and so `max_attempts + 1` is enough. The delays between its rounds
-- are left out. RFC 8785, SHA-256, HMAC, Ed25519, base64, `datetime.fromtimestamp`, the reply of OPA and the
-- answers of the payment provider are parameters. So are the exceptions of the database in the
-- reconciliation of checkout sessions; elsewhere it refuses only what a unique column does.
--
-- Not modelled: the HTTP API, SQL below the queries, the SQL store of reconstructed payments, the
-- machine-learning pipelines, the HTTP requests to the payment provider, the live and shadow scoring
-- layers, scripts, the web console and the Rego policies.
pub mod Common
pub mod Domain
pub mod Repository
pub mod Audit
pub mod Policy
pub mod Security
pub mod Evidence
pub mod Costs
pub mod Guidance
pub mod Authorization
pub mod Features
pub mod Models
pub mod Workflow
pub mod Processor
pub mod Timeline
pub mod Webhook
pub mod Automation
pub mod Database
pub mod Checkout
pub mod PaymentCases
pub mod GroundTruth
mod Tests
