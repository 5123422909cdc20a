-- ===== src/Lib.antt =====
-- A model of the core of the Aegis AI gateway (apps/gateway/src): how it meters, prices, limits and
-- bills the requests that it passes on to AI providers, with the theorems that make this correct.
--
-- A request is authenticated (`Auth`), counted in the windows of its key and organisation
-- (`RateLimit`), and reserved against every budget that it touches (`Budget`, with the ceilings of
-- `Limits`). An exact repeat is answered from the cache (`Cache`). Otherwise a model is chosen for it
-- (`Routing`), by the rules of the organisation (`Policy`), the mode of the caller (`Types`) and the
-- prices (`Pricing`). It is then sent along a chain of models whose providers' circuits are closed
-- (`Fallback`, `Failover`), with the organisation's own key or one of a shared pool (`KeyPool`). What
-- it cost and saved (`Money`, `Savings`, `Pipeline`) goes into a usage event (`Usage`), whose count
-- corrects the reservation (`Pipeline.Chat`), and at the end of the month into an invoice
-- (`Invoice`). A worker moves the events into the database (`UsageWriter`), and another one compares
-- the counters with them (`Reconciliation`). Windows, counters and cached answers live in a
-- key/value store (`Store`).
--
-- The files, with the source in apps/gateway/src that each models:
--   Money        money.rs               MicroCents, cost_for_tokens, mul_basis_points, ...
--   Savings      metering/savings.rs    SavingsBreakdown, SavingsComponents, SavingsTotals
--   Invoice      billing/invoice.rs     build, fee_is_consistent, lines_sum_to_total
--   Error        error.rs               AegisError, status, Result
--   Store        store.rs               the trait KvStore as a record that clients take as an instance
--   Store.Memory store.rs               MemoryStore, with the clock as a field of its state
--   Usage        metering/usage.rs      the counters' keys, emit, the reads; Usage.Event: new, rejected
--   Auth         middleware/auth.rs     KeyContext, AuthContext and its permissions
--   Limits       middleware/budget.rs   BudgetLimits, from_rows, tighter
--   Budget       middleware/budget.rs   scopes, check_and_reserve, release, check, headroom_mc
--   KeyPool      providers/pool.rs      SharedKeyPool: next_credential, available_providers
--   Failover     routes/openai_compat.rs, providers/mod.rs  call_with_retries, resolve_credential,
--                execute_with_fallback, ProviderRegistry::for_model
--   Failover.Alternates  routes/openai_compat.rs  alternates_for
--   Cache        cache/fingerprint.rs, cache/exact.rs  cacheability, compute, ExactCache
--   Pipeline     routes/openai_compat.rs  clamp_max_tokens, resolve_usage, cache_hit_outcome, the end
--                of execute_with_headroom as settle, PipelineOutcome::usage_event
--   Pipeline.Inputs  routes/openai_compat.rs  conversation_affinity_key, load_policy,
--                get_configured_providers, plan_tier_ceiling, semantic_lookup_worth_it
--   Pipeline.Chat  routes/openai_compat.rs  reserve_budget, the end of handle_chat as finish_chat
--   RateLimit    middleware/rate_limit.rs  check, check_ip
--   Fallback     engine/fallback.rs     ProviderHealth, retry_delay, FallbackChain::build
--   Types        types.rs               TokenUsage, ModelTier, RoutingHint, target_tier, requests
--   Pricing      metering/pricing.rs    ModelPricing, cost_of, cache_discount_of, blended_per_mtok
--   Pricing.Names  metering/pricing.rs  PricingTable, insert, resolve, get
--   Pricing.Names.Candidates  metering/pricing.rs  cheaper_alternatives, cheapest_at_or_below
--   Policy       engine/policy.rs       Condition, Action, RoutingPolicy, evaluate
--   Routing      engine/router.rs       decisions, inputs, ceilings, budget pressure
--   Routing.Select, Routing.Decide  engine/router.rs  select_at_tier, passthrough_capped, route
--   Sse          providers/sse.rs       SseDecoder: push, finish
--   UsageWriter  workers/usage_writer.rs  process_batch, over a database that is an argument
--   Reconciliation  workers/reconciliation.rs  reconcile_org, repair_if_confirmed, run_once
--   Scheduler    workers/scheduler.rs   claim
--   SsrfGuard    middleware/ssrf_guard.rs  validate_base_url, is_disallowed
--   Governance   engine/governance.rs   ApprovalPolicy::evaluate, ChargebackReport::build
--   Residency    enterprise/residency.rs  enforce, is_eu
--   Features     billing/features.rs    PlanTier, Feature, plan_includes, plan_features
-- `Panic` is for calls that may panic, `Sorting` for `sort_by`, `min_by` and `max_by`.
-- `Int`, `Int.I64`, `Text`, `Text.Decimal` and `Table` are Rust's `i64`, strings and maps;
-- `Store.Counters` is what the counting modules rely on, and `Store.Memory.Counter` shows that
-- `MemoryStore` provides it.
--
-- State is passed explicitly: an operation on a store returns the store that it leaves. An `i64` is
-- an integer in range; `saturating_*` clamps and the plain operators wrap around, as in a release
-- build, since Cargo.toml leaves overflow checks off. Unsigned numbers are natural numbers with
-- their wrap-around written out where it can happen. Clock readings and `Utc::now()` are arguments
-- or a field. Each call is one step: two requests interleave as a sequence of calls, but a call
-- that takes several locks is not split. Uuids, dates and JSON come from other crates: a Uuid is the
-- text that it prints as, and `serde_json` is a function that `emit` takes.
--
-- Recursion is structural throughout, but for the digits of a number, where fuel `n + 1` is enough
-- for `n` (Text.Decimal.RoundTrip uses it); the loop of call_with_retries recurses on the tries that
-- are left, at most MAX_RETRIES = 2.
--
-- Not modelled: Redis, which is another program (theorems on `Store.Counters` hold of any store
-- that keeps counters this way); what uses floating point (latency, health scores, percentages for
-- the dashboard, prices read from dollars); database and HTTP I/O; the durable and semantic caches,
-- the compressor, the provider adapters, streaming, and the timers of the background workers. So
-- `execute_with_headroom` is not composed as a whole: `Cache`, `Pipeline.Inputs`, `Routing`,
-- `Failover` and `Pipeline` are its stages. Routing takes what rests on floats as a record of
-- functions (`Judgement`): the band of a request, the comparisons that order candidates and the
-- selection of the bandit. A decision leaves out the score, which is a float, and the explanation.
pub mod Prelude
pub mod Int
pub mod Text
pub mod Money
pub mod Savings
pub mod Invoice
pub mod Cache
pub mod Error
pub mod Table
pub mod Store
pub mod Usage
pub mod Auth
pub mod KeyPool
pub mod Limits
pub mod Budget
pub mod RateLimit
pub mod Features
pub mod Failover
pub mod Fallback
pub mod Governance
pub mod Types
pub mod Panic
pub mod Pipeline
pub mod Sorting
pub mod Pricing
pub mod Policy
pub mod Routing
pub mod Residency
pub mod Sse
pub mod UsageWriter
pub mod Reconciliation
pub mod Scheduler
pub mod SsrfGuard
