-- ===== src/Governance/Lifecycle.antt =====
-- `LifecycleState` and `TRANSITIONS` of app/api/core/decision_store.py.
use crucible_ai.Prelude.{Bool, List, Option, String, [], any, find?, ◌==◌, ◌∷◌}

pub data LifecycleState : Type 0 where
  draft simulated ready_for_review approved rejected : LifecycleState
  executing completed measured learned : LifecycleState

-- The value of a member of the enumeration.
unfoldable pub value : LifecycleState → String
value draft = "DRAFT"
value simulated = "SIMULATED"
value ready_for_review = "READY_FOR_REVIEW"
value approved = "APPROVED"
value rejected = "REJECTED"
value executing = "EXECUTING"
value completed = "COMPLETED"
value measured = "MEASURED"
value learned = "LEARNED"

abbrev all_states : List LifecycleState
all_states =
    draft
    ∷ (simulated
        ∷ (ready_for_review
            ∷ (approved ∷ (rejected ∷ (executing ∷ (completed ∷ (measured ∷ (learned ∷ []))))))))

-- `LifecycleState(text)`, which raises ValueError for an unknown text.
unfoldable pub parse : String → Option LifecycleState
unfolding value
parse text = find? (λ s. value s == text) all_states

-- `TRANSITIONS`
unfoldable pub transitions : LifecycleState → List LifecycleState
transitions draft = simulated ∷ (rejected ∷ [])
transitions simulated = ready_for_review ∷ (draft ∷ (rejected ∷ []))
transitions ready_for_review = approved ∷ (rejected ∷ (draft ∷ []))
transitions approved = executing ∷ (rejected ∷ [])
transitions rejected = draft ∷ []
transitions executing = completed ∷ []
transitions completed = measured ∷ []
transitions measured = learned ∷ []
transitions learned = []

-- `can_transition`; members of a `str` enumeration are equal where their values are.
unfoldable pub can_transition : LifecycleState → LifecycleState → Bool
unfolding transitions value
can_transition current target = any (λ s. value s == value target) (transitions current)
