-- ===== src/Repair/Plans.antt =====
-- What every plan of the repair planner satisfies.
use crucible_ai.Prelude.{All, List, Option, String, [], none, not, suc, ℕ, ◌∷◌, ◌≡◌, ◌≤◌, ◌≢◌, ◌⊎◌}
use crucible_ai.Repair.Planner.{RiskLevel, RepairStep, is_manual}

abbrev rank : RiskLevel → ℕ
rank RiskLevel.low = 0
rank RiskLevel.medium = 1
rank RiskLevel.high = 2
rank RiskLevel.critical = 3

-- Steps with an index that counts on and a risk that does not fall.
abbrev Climbs : ℕ → ℕ → List RepairStep → Type 0
Climbs i r [] = Unit
Climbs i r (s ∷ ss) =
    (s.step_index ≡ i) × (r ≤ rank s.risk_level) × Climbs (suc i) (rank s.risk_level) ss

-- A step that is carried out automatically is validated.
abbrev Validated : RepairStep → Type 0
Validated s = not (is_manual s.action_type) ≡ s.requires_validation

-- A step needs the checkpoint that was given, or none.
abbrev Uses : Option String → RepairStep → Type 0
Uses lkg s = (s.required_checkpoint ≡ none) ⊎ (s.required_checkpoint ≡ lkg)

pub record IsSound (root lkg : Option String) (steps : List RepairStep) : Type 0 where
  pub some_step : steps ≢ []
  pub climbs : Climbs 0 0 steps
  pub validated : All Validated steps
  pub uses : All (Uses lkg) steps
  pub targets : All (λ (s : RepairStep). s.target_node ≡ root) steps
