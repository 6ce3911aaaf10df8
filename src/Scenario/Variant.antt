-- ===== src/Scenario/Variant.antt =====
-- `FogScenarioVariant::apply` of crates/crownline_core/src/scenario.rs. The errors carry what the
-- source formats into a text.
use crownline.Prelude.{
  ℕ, ◌≡◌, refl, nat_beq, ◌==◌, string_eq, String, some, List, Result, ok, ◌>>◌, ensure, map_err,
  map_err-eq-ok, Ensures, >>=-Ensures_any,
}
use crownline.Scenario.Types.{ScenarioMetadata, FogRules, ScenarioDefinition}
use crownline.Scenario.Errors.{ScenarioError}
use crownline.Scenario.Validate.{validate}
use crownline.Scenario.Sound.{Playable, validate-Playable}

abbrev pub scenario_variant_schema_version : ℕ
scenario_variant_schema_version = 1

pub record FogScenarioVariant : Type 0 where
  pub schema_version : ℕ
  pub base_scenario_id : String
  pub id : String
  pub metadata : ScenarioMetadata
  pub fog : FogRules

pub data VariantError : Type 0 where
  unsupported_variant : (found expected : ℕ) → VariantError
  wrong_base : (expected found : String) → VariantError
  invalid_variant : List ScenarioError → VariantError

unfoldable pub apply :
    FogScenarioVariant → ScenarioDefinition → Result ScenarioDefinition VariantError
apply variant base = do
  ensure (nat_beq variant.schema_version scenario_variant_schema_version)
      (unsupported_variant variant.schema_version scenario_variant_schema_version)
  ensure (variant.base_scenario_id == base.id) (wrong_base variant.base_scenario_id base.id)
  let scenario : ScenarioDefinition = record base {
    id = variant.id;
    metadata = variant.metadata;
    rules = record base.rules { fog = some variant.fog };
  }
  map_err (validate scenario) invalid_variant
  ok scenario

-- A variant that is applied is a playable scenario under the fog of the variant, whatever the base
-- is.
pub apply-Playable :
    (variant : FogScenarioVariant) (base : ScenarioDefinition)
    → Ensures
        (λ scenario. Playable scenario × (scenario.rules.fog ≡ some variant.fog))
        (apply variant base)
unfolding apply
apply-Playable variant base =
    let P : ScenarioDefinition → Type 0 =
      λ scenario. Playable scenario × (scenario.rules.fog ≡ some variant.fog) in
    >>=-Ensures_any P (ensure (nat_beq variant.schema_version scenario_variant_schema_version) _) _
      λ _ _. >>=-Ensures_any P (ensure (variant.base_scenario_id == base.id) _) _ λ _ _.
        >>=-Ensures_any P (map_err (validate _) invalid_variant) _
          λ _ valid. (validate-Playable _ (map_err-eq-ok _ invalid_variant valid), refl)
