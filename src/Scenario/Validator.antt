-- ===== src/Scenario/Validator.antt =====
-- Validation as a whole: run and Validate of internal/scenario/validator.go. The place of a violation in the
-- file, and the sort by places, are not modelled.
use aforo_nextgen_loadgen.Base.{String, Option, none, some, List, [], ◌∷◌, ◌++◌}
use aforo_nextgen_loadgen.Base.Floats.{Floats}
use aforo_nextgen_loadgen.Scenario.Archetypes.{check_tenants}
use aforo_nextgen_loadgen.Scenario.Checks.{
  migrate, check_schema_version, check_identity, check_traffic, check_product_mix,
  check_ingestion_paths, check_payload_variation, check_negative_paths, check_lifecycle,
  check_assertions, check_cross_field,
}
use aforo_nextgen_loadgen.Scenario.Sections.{Scenario}
use aforo_nextgen_loadgen.Scenario.Report.{nil_document, Violation, Library, in_turn, report_if}
use aforo_nextgen_loadgen.Scenario.Services.{
  check_payments, check_tax, check_erp, check_credit_notes, check_wallet, check_fx, check_chaos,
}
use aforo_nextgen_loadgen.Scenario.Weights.{check_outcome_mixes}
use aforo_nextgen_loadgen.Base.{true}
pub mod Unique

module _ (fl : Floats) (lib : Library fl.Float) where
  unfoldable pub run : Scenario fl.Float → List Violation
  run s = in_turn (
      check_schema_version s.schema_version
      ∷ check_identity fl lib s.name
      ∷ check_traffic fl lib s
      ∷ check_tenants fl lib s.tenants
      ∷ check_product_mix fl lib s.product_mix
      ∷ check_ingestion_paths fl lib s.rest_batch s.ingestion_paths
      ∷ check_payload_variation fl lib s.payload_variation
      ∷ check_outcome_mixes fl lib s.outcome_mix s.outcome_mix_by_product
      ∷ check_negative_paths fl lib s.negative_paths
      ∷ check_lifecycle fl lib s.lifecycle
      ∷ check_payments fl lib s.payments
      ∷ check_tax fl lib s.tax
      ∷ check_erp fl lib s.erp
      ∷ check_credit_notes fl lib s.credit_notes
      ∷ check_wallet fl lib s.wallet
      ∷ check_fx fl lib s.fx
      ∷ check_chaos fl lib s.chaos
      ∷ check_assertions fl lib s.assertions
      ∷ check_cross_field fl lib s
      ∷ [])

  -- What Validate reports. `none` is a nil document, or one without a scenario.
  unfoldable pub validate : Option (Scenario fl.Float) → List Violation
  validate none = report_if true [] nil_document
  validate (some s) = run s

  -- The scenario that Validate leaves, with the version that Migrate has set.
  unfoldable pub migrated : Scenario fl.Float → Scenario fl.Float
  migrated s = record s { schema_version = (migrate s.schema_version).0 }
