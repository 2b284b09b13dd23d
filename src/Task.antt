-- ===== src/Task.antt =====
-- libs/linglong/src/linglong/package_manager/package_task.{h,cpp}: the state of one task of the
-- package manager. `double` is a parameter, with the operations that the task makes. Of the
-- signals only `PercentageChanged`, which the code emits itself, is kept, as the list of the values
-- that were sent.
pub mod Progress
pub mod Percentage
pub mod Reports
use linglong.Prelude.{
  ℕ, ◌+◌, ◌%◌, ◌^◌, Bool, true, false, ◌||◌, Option, none, some, List, [], ◌∷◌, ◌++◌, ltb, ◌==◌,
  if◌then◌else◌, String, length,
}
use linglong.Prelude.Text.{Text, codes}
use linglong.Api.{
  State, SubState, canceled, failed, part_completed, queued, succeed, all_done, install_application,
  install_base, install_runtime, package_manager_done, post_action, pre_action, uninstall,
}

-- The arithmetic of `double`.
pub record Double : Type 1 where
  pub D : Type 0
  pub of_ℕ : ℕ → D
  pub add : D → D → D
  pub mul : D → D → D
  pub div : D → D → D

abbrev pub task_done : ℕ
task_done = 100

-- `m_subStateMap[s]`, which is 0 for a state that the map does not list
unfoldable pub sub_state_weight : SubState → ℕ
sub_state_weight pre_action = 10
sub_state_weight install_base = 20
sub_state_weight install_runtime = 20
sub_state_weight install_application = 20
sub_state_weight uninstall = 80
sub_state_weight post_action = 5
sub_state_weight _ = 0

unfoldable pub is_part_completed : State → Bool
is_part_completed part_completed = true
is_part_completed _ = false

-- The states in which a task ends.
unfoldable pub is_final : State → Bool
is_final canceled = true
is_final failed = true
is_final succeed = true
is_final _ = false

-- The sub states in which the percentage is 100.
unfoldable pub is_done : SubState → Bool
is_done all_done = true
is_done package_manager_done = true
is_done _ = false

-- `optDone.value_or(AllDone)`
unfoldable pub done_or : Option SubState → SubState
done_or none = all_done
done_or (some s) = s

module _ (d : Double) where
  open d use {D, of_ℕ, add, mul, div}

  pub record Task : Type 0 where
    pub state : State
    pub sub_state : SubState
    pub error : Option Text
    pub total_percentage : D
    pub cur_stage_percentage : D
    pub message : Text
    pub refs : List Text
    pub task_parts : ℕ
    pub is_cancelled : Bool
    pub emitted : List D

module _ {d : Double} where
  open d use {D, of_ℕ, add, mul, div}

  -- A new task for these references.
  unfoldable pub start : List Text → Task d
  start refs = record {
    state = queued;
    sub_state = SubState.unknown;
    error = none;
    total_percentage = of_ℕ 0;
    cur_stage_percentage = of_ℕ 0;
    message = [];
    refs = refs;
    task_parts = 0;
    is_cancelled = false;
    emitted = [];
  }

  -- `createTemporaryTask`: a task for no reference.
  unfoldable pub create_temporary_task : Task d
  unfolding start
  create_temporary_task = start []

  unfoldable pub get_percentage : Task d → D
  unfolding is_done sub_state_weight
  get_percentage t =
      if is_done t.sub_state
      then of_ℕ 100
      else add t.total_percentage (mul t.cur_stage_percentage (of_ℕ (sub_state_weight t.sub_state)))

  -- `Q_EMIT PercentageChanged(value)`
  unfoldable pub emit : D → Task d → Task d
  emit value t = record t { emitted = t.emitted ++ (value ∷ []) }

  -- `part` and `whole` are `uint`s.
  unfoldable pub update_task : Task d → ℕ → ℕ → Text → Task d
  unfolding get_percentage emit
  update_task t part whole message =
      if whole == 0
      then t
      else if ltb whole part
      then t
      else let t' = record t {
        message = message;
        cur_stage_percentage = div (of_ℕ part) (of_ℕ whole);
      } in
        emit (get_percentage t') t'

  unfoldable pub update_sub_state : Task d → SubState → Text → Task d
  unfolding get_percentage emit is_done sub_state_weight
  update_sub_state t new message =
      let t' = record t { sub_state = new; message = message } in
      let t₁ = record t' { total_percentage = of_ℕ task_done } in
      let t₂ = record t' {
        total_percentage = add t'.total_percentage (of_ℕ (sub_state_weight new));
        cur_stage_percentage = of_ℕ 0;
      } in
      if is_done new then emit (get_percentage t₁) t₁ else emit (get_percentage t₂) t₂

  -- One more part is done: it is counted in a `uint`, and the percentage starts again.
  unfoldable pub count_part : Task d → Task d
  unfolding emit
  count_part t =
      let t' = emit (of_ℕ task_done) t in
      record t' {
        task_parts = (t.task_parts + 1) % 2 ^ 32;
        total_percentage = of_ℕ 0;
        cur_stage_percentage = of_ℕ 0;
      }

  unfoldable pub update_state : Task d → State → Text → Option SubState → Task d
  unfolding count_part update_sub_state is_part_completed is_final done_or
  update_state t new message opt_done =
      let t' = record t { state = new } in
      let counted = if is_part_completed new then count_part t' else t' in
      let t'' =
        if counted.task_parts == length counted.refs
        then record counted { state = succeed }
        else counted in
      if is_final t''.state
      then update_sub_state t'' (done_or opt_done) message
      else record t'' { message = message }

  unfoldable pub report_error : Task d → Text → Task d
  unfolding emit get_percentage
  report_error t message =
      let t' = record t { total_percentage = of_ℕ task_done; cur_stage_percentage = of_ℕ 0 } in
      let t'' = emit (get_percentage t') t' in
      record t'' { state = failed; sub_state = all_done; error = some message; message = message }

  -- The message holds the identifier of the task.
  unfoldable pub cancel : Text → Task d → Task d
  unfolding update_state
  cancel task_id t =
      if t.is_cancelled
      then t
      else update_state (record t { is_cancelled = true }) canceled
          (codes "task " ++ (task_id ++ codes " has been canceled by user")) none
