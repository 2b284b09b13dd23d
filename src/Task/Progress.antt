-- ===== src/Task/Progress.antt =====
-- How `updateState` and `Cancel` move the state of a task.
use linglong.Prelude.{
  ℕ, zero, suc, ◌+◌, ◌%◌, ◌^◌, ◌≤◌, ◌<◌, ◌≡◌, refl, ◌∙◌, false, Option, none, List, length, arith,
  ◌==◌, if◌then◌else◌,
}
use linglong.Prelude.Text.{Text}
use linglong.Api.{State, SubState, part_completed, succeed}
use linglong.Task.{
  Double, Task, start, create_temporary_task, is_part_completed, update_state, cancel,
}

module _ (d : Double) where
  -- Where every part is done a task reports success, whatever state it is given: a failure or a
  -- cancellation that comes then is not kept.
  pub update_state-succeed :
      (t : Task d) (new : State) (message : Text) (opt_done : Option SubState)
      → is_part_completed new ≡ false
      → t.task_parts ≡ length t.refs
      → (update_state t new message opt_done).state ≡ succeed
  unfolding update_state
  update_state-succeed t new message opt_done h e = ground arith

  -- A task for no reference has no part left: it has succeeded after the report of any state but
  -- that a part is completed, also after that of a failure.
  pub temporary_task_succeeds :
      (new : State) (message : Text) (opt_done : Option SubState)
      → is_part_completed new ≡ false
      → (update_state (create_temporary_task {d = d}) new message opt_done).state ≡ succeed
  temporary_task_succeeds new message opt_done h =
      update_state-succeed create_temporary_task new message opt_done h
        (unfold create_temporary_task in refl)

  update_state-part :
      (t : Task d) (message : Text)
      → let t' = update_state t part_completed message none in
        (t'.task_parts ≡ (t.task_parts + 1) % 2 ^ 32)
        × (t'.refs ≡ t.refs)
        × (t'.state
            ≡ (if (t.task_parts + 1) % 2 ^ 32 == length t.refs then succeed else part_completed))
  unfolding update_state
  update_state-part t message = ground arith

  -- So many reports that a part is done.
  pub complete : ℕ → Task d → Text → Task d
  complete zero t message = t
  complete (suc k) t message = update_state (complete k t message) part_completed message none

  complete_counts :
      (k : ℕ) (refs : List Text) (message : Text)
      → k ≤ length refs
      → length refs < 2 ^ 32
      → let t = complete k (start {d = d} refs) message in (t.task_parts ≡ k) × (t.refs ≡ refs)
  unfolding complete start
  complete_counts zero refs message h fits = (refl, refl)
  complete_counts (suc k) refs message h fits =
      let (parts, same) = complete_counts k refs message (omega arith) fits in
      let (next, kept, _) = update_state-part (complete k (start refs) message) message in
      (next ∙ rw parts (omega arith), kept ∙ same)

  -- When the parts of a task are reported as completed one after the other, the task has succeeded
  -- after the report of its last part and is in part completed before; for fewer than 2^32
  -- references.
  complete_state :
      (k : ℕ) (refs : List Text) (message : Text)
      → k < length refs
      → length refs < 2 ^ 32
      → (complete (suc k) (start refs) message).state
        ≡ (if suc k == length refs then succeed else part_completed)
  unfolding complete
  complete_state k refs message h fits =
      let (parts, same) = complete_counts k refs message (omega arith) fits in
      let (_, _, state) = update_state-part (complete k (start refs) message) message in
      let count : ((complete k (start refs) message).task_parts + 1) % 2 ^ 32 ≡ suc k =
        rw parts (omega arith) in
      state ∙ rw (count, same)

  -- A cancelled task is not cancelled again.
  pub cancel_idem : (id : Text) (t : Task d) → cancel id (cancel id t) ≡ cancel id t
  unfolding cancel
  cancel_idem id t = ground arith
