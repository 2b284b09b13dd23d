-- ===== src/Task/Reports.antt =====
-- What the reports of an operation do to its task, as long as a part of the task is left.
use linglong.Prelude.{◌≡◌, ◌≢◌, none, length, arith}
use linglong.Prelude.Text.{Text}
use linglong.Api.{SubState, failed, succeed, processing, all_done}
use linglong.Task.{
  Double, Task, is_part_completed, is_final, done_or, update_state, update_sub_state,
}

module _ {d : Double} where
  -- A part of the task is left.
  abbrev pub IsOpen : Task d → Type 0
  IsOpen t = t.task_parts ≢ length t.refs

  -- The parts of a task are the same.
  pub record SameParts (t t' : Task d) : Type 0 where
    pub refs : t'.refs ≡ t.refs
    pub task_parts : t'.task_parts ≡ t.task_parts

  pub SameParts-IsOpen : (t t' : Task d) → SameParts t t' → IsOpen t → IsOpen t'
  SameParts-IsOpen t t' same left h = left (rw⁻¹ (same.refs, same.task_parts) h)

  pub sub_state_report :
      (t : Task d) (s : SubState) (message : Text)
      → let t' = update_sub_state t s message in
        SameParts t t' × (t'.state ≡ t.state) × (t'.sub_state ≡ s)
  unfolding update_sub_state
  sub_state_report t s message =
      (record { refs = ground arith; task_parts = ground arith }, ground arith, ground arith)

  pub failed_report :
      (t : Task d) (message : Text)
      → IsOpen t
      → let t' = update_state t failed message none in
        SameParts t t' × (t'.state ≡ failed) × (t'.sub_state ≡ all_done)
  unfolding update_state update_sub_state is_part_completed is_final done_or
  failed_report t message left =
      (record { refs = ground arith; task_parts = ground arith }, ground arith, ground arith)

  pub processing_report :
      (t : Task d) (message : Text)
      → IsOpen t
      → let t' = update_state t processing message none in
        SameParts t t' × (t'.state ≡ processing) × (t'.sub_state ≡ t.sub_state)
  unfolding update_state update_sub_state is_part_completed is_final done_or
  processing_report t message left =
      (record { refs = ground arith; task_parts = ground arith }, ground arith, ground arith)

  pub succeed_report :
      (t : Task d) (message : Text)
      → let t' = update_state t succeed message none in
        SameParts t t' × (t'.state ≡ succeed) × (t'.sub_state ≡ all_done)
  unfolding update_state update_sub_state is_part_completed is_final done_or
  succeed_report t message =
      (record { refs = ground arith; task_parts = ground arith }, ground arith, ground arith)
