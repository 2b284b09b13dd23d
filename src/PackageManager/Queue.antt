-- ===== src/PackageManager/Queue.antt =====
-- package_manager/package_manager.cpp: the handler of the signal `TaskListChanged`, which runs the
-- first task that waits. A job is a step on a shared state and on its task; the signals that Qt
-- delivers later are a list. The event loops that a job runs, and the tasks that are added meanwhile,
-- are not modelled.
pub mod Drain
use linglong.Prelude.{
  Bool, true, false, not, ◌&&◌, ◌||◌, Option, none, some, List, [], ◌∷◌, ◌++◌, if◌then◌else◌, map,
}
use linglong.Prelude.Text.{Text, codes, text_eq, is_empty}
use linglong.Api.{State, SubState, queued}
use linglong.Task.{Double, Task, update_state}

module _ (d : Double) (S : Type 0) where
  pub record QueuedTask : Type 0 where
    pub path : Text
    pub job : Option (S × Task d → S × Task d)
    pub task : Task d

  pub record Queue : Type 0 where
    pub running : Text
    pub tasks : List QueuedTask
    pub state : S
    -- the tasks whose `TaskRemoved` was sent, the last one first
    pub removed : List QueuedTask
    -- the arguments of the signals `TaskListChanged` that are not delivered
    pub signals : List Text

unfoldable pub is_queued : State → Bool
is_queued queued = true
is_queued _ = false

module _ {d : Double} {S : Type 0} where
  unfoldable pub has_job : QueuedTask d S → Bool
  has_job t = elim t.job [ none ↦ false | some _ ↦ true ]

  -- A task that waits for another one is told so.
  unfoldable pub notify_waiting : Text → QueuedTask d S → QueuedTask d S
  unfolding has_job
  notify_waiting running t =
      if not (has_job t) || text_eq t.path running
      then t
      else record t { task = update_state t.task queued (codes "Waiting for the other tasks") none }

  -- Runs the job, takes the task from the list, and sends the signal again. `before` stands in front.
  unfoldable pub run_job :
      List (QueuedTask d S)
      → QueuedTask d S
      → (S × Task d → S × Task d)
      → List (QueuedTask d S)
      → Queue d S
      → Queue d S
  run_job before t job after q =
      let (s, done) = job (q.state, t.task) in
      record {
        running = [];
        tasks = before ++ after;
        state = s;
        removed = record t { task = done } ∷ q.removed;
        signals = q.signals ++ ([] ∷ []);
      }

  -- The loop for the first task that has a job and is queued.
  unfoldable pub run_next : List (QueuedTask d S) → List (QueuedTask d S) → Queue d S → Queue d S
  unfolding is_queued run_job
  run_next before [] q = q
  run_next before (t ∷ after) q = elim t.job [
    | none ↦ run_next (before ++ (t ∷ [])) after q
    | some job ↦ elim (is_queued t.task.state) [
      | true ↦ run_job before t job after q
      | false ↦ run_next (before ++ (t ∷ [])) after q
    ]
  ]

  unfoldable pub task_list_changed : Text → Queue d S → Queue d S
  unfolding notify_waiting run_next
  task_list_changed path q =
      if not (is_empty q.running)
      then record q { tasks = map (notify_waiting q.running) q.tasks }
      else run_next [] q.tasks (record q { running = path })

  -- Qt delivers the first signal.
  unfoldable pub deliver : Queue d S → Queue d S
  unfolding task_list_changed
  deliver q = elim q.signals [
    | [] ↦ q
    | path ∷ rest ↦ task_list_changed path (record q { signals = rest })
  ]
