-- ===== src/Scenarios/Tasks.antt =====
-- Tasks and transactions at concrete inputs. The percentages are natural numbers here.
use linglong.Prelude.{ℕ, ◌+◌, ◌-◌, ◌≡◌, refl, none, List, [], ◌∷◌}
use linglong.Prelude.Text.{codes}
use linglong.Api.{succeed, failed}
use linglong.Utils.Transaction.{start, commit, destroy}
use linglong.Utils.Transaction.Undo.{Step, perform_all, destroy_restores}
use linglong.Task
use linglong.Task.{
  Double, Task, create_temporary_task, get_percentage, update_task, update_state, report_error,
}
use linglong.Task.Progress.{temporary_task_succeeds}
use linglong.Scenarios.Worlds.{plain_double}

temporary_task_succeeds_example :
    (update_state (create_temporary_task {d = plain_double}) failed (codes "no layer") none).state
    ≡ succeed
unfolding Task.is_part_completed
temporary_task_succeeds_example =
    temporary_task_succeeds plain_double failed (codes "no layer") none refl

abbrev count_up : Step ℕ
count_up = record { act = λ n. n + 1; undo = λ n. n - 1 }

abbrev steps : List (Step ℕ)
steps = count_up ∷ count_up ∷ []

destroy_restores_example :
    (destroy (perform_all steps (start, 5)).0 (perform_all steps (start, 5)).1 ≡ 5)
    × (destroy (commit (perform_all steps (start, 5)).0) (perform_all steps (start, 5)).1
        ≡ (perform_all steps (start, 5)).1)
destroy_restores_example = destroy_restores steps 5 (refl, (refl, tt))
