-- ===== src/Task/Percentage.antt =====
-- The percentage of a task.
use linglong.Prelude.{ℕ, ◌≤◌, ◌<◌, ◌≡◌, ◌⊎◌, true, none, some, [], ◌∷◌, ◌++◌, arith}
use linglong.Prelude.Text.{Text}
use linglong.Api.{State, failed}
use linglong.Task.{Double, Task, get_percentage, is_final, update_task, update_state, report_error}

module _ (d : Double) where
  open d use {of_ℕ}

  -- A report that the task was canceled, failed or succeeded, without another sub state, puts it at
  -- 100, sends 100 and keeps the message.
  final_percentage :
      (t : Task d) (new : State) (message : Text)
      → is_final new ≡ true
      → let t' = update_state t new message none in
        (get_percentage t' ≡ of_ℕ 100)
        × (t'.emitted ≡ t.emitted ++ (of_ℕ 100 ∷ []))
        × (t'.message ≡ message)
  unfolding update_state
  final_percentage t new message h = ground arith

  -- After a reported error the task has failed, is at 100, and has the error and its message.
  report_error_state :
      (t : Task d) (message : Text)
      → let t' = report_error t message in
        (t'.state ≡ failed)
        × (get_percentage t' ≡ of_ℕ 100)
        × (t'.error ≡ some message)
        × (t'.message ≡ message)
  unfolding report_error
  report_error_state t message = ground arith

  -- A report of progress with no whole, or with more than the whole, changes nothing. Any other
  -- sets the percentage within the stage, sends the new percentage and leaves the states and the
  -- total as they were.
  update_task_cases :
      (t : Task d) (part whole : ℕ) (message : Text)
      → let t' = update_task t part whole message in
        (((whole ≡ 0) ⊎ (whole < part)) × (t' ≡ t))
        ⊎ ((0 < whole)
            × (part ≤ whole)
            × (t'.cur_stage_percentage ≡ d.div (of_ℕ part) (of_ℕ whole))
            × (t'.total_percentage ≡ t.total_percentage)
            × (t'.emitted ≡ t.emitted ++ (get_percentage t' ∷ []))
            × (t'.state ≡ t.state)
            × (t'.sub_state ≡ t.sub_state))
  unfolding update_task
  update_task_cases t part whole message = ground arith
