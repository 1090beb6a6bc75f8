-- ===== src/Pipeline/Examples.antt =====
-- The theorems on the pipeline at concrete data.
use crucible_ai.Fault.Localizer.{NodeEvent}
use crucible_ai.Fault.Upstream.{IsLocal, execute-localize}
use crucible_ai.Pipeline.Totality.{IsReadable, Ran, execute-Ran}
use crucible_ai.Pipeline.Steps.{input_metadata_of, metadata_from}
use crucible_ai.Prelude.{All, List, [], refl, ◌∷◌}
use crucible_ai.Pipeline.Coverage.{Traced, execute-Traced}
use crucible_ai.Pipeline.Runtime.{Delivers, Returns}
use crucible_ai.Pipeline.Executor.{execute}
use crucible_ai.Samples.{python, load_node, broken_node, start}

execute-Traced_example :
    Traced python
      (load_node ∷ broken_node ∷ [])
      []
      (execute python (load_node ∷ broken_node ∷ []) 1 start)
execute-Traced_example = execute-Traced python (load_node ∷ broken_node ∷ []) 1 start

abbrev quiet_events : List NodeEvent
quiet_events = record { node_id = "load"; event_type = "node_completed" } ∷ []

execute-localize_example :
    Returns (IsLocal python quiet_events) (execute python (load_node ∷ broken_node ∷ []) 1 start)
execute-localize_example =
    execute-localize python (load_node ∷ broken_node ∷ []) 1 quiet_events start (refl, tt)

readable : All (IsReadable python) (load_node ∷ broken_node ∷ [])
unfolding input_metadata_of metadata_from
readable = ((λ c s. tt), ((λ c s. tt), tt))

execute-Ran_example :
    Delivers (Ran python []) (execute python (load_node ∷ broken_node ∷ []) 1 start)
execute-Ran_example = execute-Ran python (load_node ∷ broken_node ∷ []) 1 start readable
