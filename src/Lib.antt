-- ===== src/Lib.antt =====
-- Verification library of aforo-nextgen-loadgen: the lifecycle agent, the check that judges
-- its log, the two controllers that protect the platform under load, the division of a run
-- between workers, the dunning driver, the language of scenarios with its validator and defaults, the rate
-- plans that the seeder sends, the billing model that invoices are compared with, the mixes of the seeder
-- and the guard of production hosts.
--
-- The agent (internal/lifecycle) fires plan changes, pauses, trials and payment retries on the
-- subscriptions of a seeded manifest, and writes each attempt to transitions.jsonl. The validator's
-- Check 10 (internal/validate/state_machine_invariants.go) reads that file back.
--
-- The files, each with the code that it is about:
--   Base               lists, association lists for Go's maps, Boolean tests
--   Lifecycle.State    scenario.SubscriptionState (internal/scenario/types.go)
--   Lifecycle.StateMachine   statemachine.go: CanFireFrom, ExpectedPostState, IsLegalTransition
--   Lifecycle.Wire     fromPlatformStatus (helpers.go), scenarioState (lifecycle_helpers.go), FormatError
--   Lifecycle.Picker   picker.go: the pool of subjects, and the view of their states
--   Lifecycle.TransitionLog  transition_log.go: Append, with the rollup that it keeps
--   Lifecycle.ResumeScheduler  pause_resume.go: the timers and their WaitGroup
--   Lifecycle.World    helpers.go: Deps, and the steps that every Fire function takes
--   Lifecycle.Fire     upgrade.go, downgrade.go, migrate.go, trial_conversion.go, trial_cancel.go,
--                      pause_resume.go, retry_payment.go
--   Lifecycle.DunningWalker  dunning_walker.go: Step
--   Lifecycle.Agent    agent.go: the tickers and the timers, as any sequence of actions
--   Validate.StateMachineInvariants  Check 10
--   Driver.Window      counterBucket, touchBucket and tally (internal/driver)
--   Driver.CircuitBreaker    circuit_breaker.go
--   Driver.Backpressure      backpressure.go
--   Driver.Fairness    fairness.go
--   Coord.Partition    partitionTenants (internal/coord/coordinator.go)
--   Coord.SplitTps     splitTPS
--   Coord.Dispatch     Dispatch, and WorkerClient.Assign (internal/coord/client.go)
--   Coord.Poll         heartbeatOne, pollOnce, allTerminal
--   Coord.Reports      AggregateReports, mergeReports
--   Payments.Dunning   dunning.go of internal/payments, which writes into the same log
--   Billing            the types of internal/validate/billing
--   Billing.Linear     per_unit.go, included_quota.go, percentage.go, flat_rate.go, roundCents
--   Billing.Tiers      graduated.go, volume_tiered.go, staircase.go
--   Billing.Outcomes   outcome_based.go
--   Billing.Stages     applyDiscount, route, and the checks of discount.go, router.go and tax.go
--   Billing.Calculator rate, finish, Calculate (billing.go), metrics.go
--   Seed.Distribution  the splits and draws of distribution.go (internal/seed)
--   Seed.Discounts     its discount labels, with convertDiscount (internal/validate/billing_match.go)
--   Wallet.Audit       balance_audit.go (internal/wallet)
--   Platform.Guard     production_guard.go (internal/aforo)
--   Scenario           internal/scenario: Rates and Sections are types.go, Report what is reported, Names the
--                      kinds that are known; Bands, Weights, Models, RateCards, Archetypes, Checks and
--                      Services the sections of validator.go and validator_outcomes.go; Validator run and
--                      Validate; Defaults defaults.go; Estimate the part of billing_match.go
--                      (internal/validate) that reads a scenario
--   Seed.RatePlans     rateplans.go (internal/seed): the body of a rate plan, its tiers and its metrics
--   Examples           numbers, a manifest, a log and a scenario, on which the definitions run
--
-- A Go map is an association list with a read of a missing key written out. A goroutine's work
-- between two locks is a step, and the order of the steps is an argument. What the code takes from
-- other libraries is a parameter: text functions, float64 arithmetic, the FNV-1a hash, sort.Slice,
-- math/rand, the SHA-256 key, and the platform's answer to each call. A panic is a value.
-- The order of float64 is a record of laws (Base.Floats.FloatOrder), stated so that float64 keeps them
-- with its infinities and NaN; Examples.Extended is a record with both.
-- One loop is on fuel: Seed.Distribution.hand_out gets n turns, and Residual shows that they are enough.
--
-- A scenario (internal/scenario) is loaded, filled in by applyDefaults and checked by Validate before
-- anything runs; the seeder (internal/seed) then sends its rates to the platform as rate plans, and the
-- billing check (internal/validate) converts the same rates for its own estimate. A check of the validator
-- is the list of what it reports, so a section passes where the list is empty. Go's int and int64 are the
-- integers of Base.Integers.
--
-- Driver.Window.Recent is about windows of a whole number of seconds, as the code's defaults are.
--
-- Not modelled: sockets, files, the durations in the log's rows, metrics, and the other packages.
pub mod Base
pub mod Billing
pub mod Coord
pub mod Driver
pub mod Examples
pub mod Lifecycle
pub mod Payments
pub mod Platform
pub mod Scenario
pub mod Seed
pub mod Validate
pub mod Wallet
