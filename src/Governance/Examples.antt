-- ===== src/Governance/Examples.antt =====
-- The theorems on the decision store at concrete data.
use mathlib.Core.Bool.{false≢true}
use crucible_ai.Prelude.{[], false, refl, some, true, ℕ, ◌∷◌, ◌≡◌}
use crucible_ai.Governance.Lifecycle.{
  ready_for_review, can_transition, LifecycleState, approved, executing, parse, value,
}
use crucible_ai.Pipeline.Runtime.{Delivers}
use crucible_ai.Governance.Service.{Served, transition_plan-Served}
use crucible_ai.Governance.Store.{Plan, Database, Session}
use crucible_ai.Governance.Plans.{Order, transition_plan}
use crucible_ai.Governance.Creation.{Proposal, create_plan}
use crucible_ai.Governance.Effects.{Commits, Transitioned, transition_plan-Commits}
use crucible_ai.Governance.Approvals.{IsAuthorised}
use crucible_ai.Governance.Histories.{
  create_call, transition_call, Created, create_plan-Commits, run_calls, run_calls-IsAuthorised,
}

abbrev server : Database
server = record { succeeds = λ _. true; serial = λ n. n; reference = λ _. "RP-000007" }

abbrev reviewed : Plan
reviewed = record {
  id = 6;
  plan_ref = "RP-000006";
  lifecycle_state = "READY_FOR_REVIEW";
  incident_id = some 2;
}

abbrev session : Session
session = record {
  tables = record {
    plans = reviewed ∷ [];
    plan_actions = [];
    approvals = [];
    audit_log = [];
    incident_events = [];
  };
  statements = 0;
}

abbrev order : LifecycleState → Order
order target = record {
  plan_id = 6;
  target = target;
  actor_id = "u1";
  actor_role = "mine_planner";
  modified = false;
}

abbrev proposal : Proposal
proposal = record {
  incident_id = some 2;
  created_by = "u1";
  actor_role = "system";
  actions = some "add_shift" ∷ [];
}

transition_plan-Commits_example :
    Commits server session.tables
      (Transitioned server (order approved) session.tables)
      (transition_plan server (order approved) session)
transition_plan-Commits_example = transition_plan-Commits server (order approved) session

create_plan-Commits_example :
    Commits server session.tables
      (Created proposal session.tables)
      (create_plan server proposal session)
create_plan-Commits_example = create_plan-Commits server proposal session

session-IsAuthorised : IsAuthorised session.tables
unfolding parse value
session-IsAuthorised = ((λ g. absurd (false≢true g)), tt)

run_calls-IsAuthorised_example :
    IsAuthorised
      (run_calls server
        (create_call proposal
          ∷ (transition_call (order approved) ∷ (transition_call (order executing) ∷ [])))
        session).tables
run_calls-IsAuthorised_example =
    run_calls-IsAuthorised server
      (create_call proposal
        ∷ (transition_call (order approved) ∷ (transition_call (order executing) ∷ [])))
      session session-IsAuthorised

serves : (n : ℕ) → server.succeeds n ≡ true
serves n = refl

reviewed_parsed : parse reviewed.lifecycle_state ≡ some ready_for_review
unfolding parse value
reviewed_parsed = refl

approval_permitted : can_transition ready_for_review approved ≡ true
unfolding can_transition value
approval_permitted = refl

transition_plan-Served_example :
    Delivers
      (Served server serves (order approved) reviewed ready_for_review)
      (transition_plan server (order approved) session)
transition_plan-Served_example =
    transition_plan-Served server serves (order approved) reviewed [] ready_for_review session refl
      reviewed_parsed approval_permitted
