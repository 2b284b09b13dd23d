-- ===== src/PackageManager/Queue/Drain.antt =====
-- How the handler of `TaskListChanged` works through the list of tasks.
use linglong.Prelude.{
  ℕ, zero, suc, ◌≡◌, refl, ap, ◌∙◌, none, some, List, [], ◌∷◌, ◌++◌, length, All,
}
use linglong.Prelude.Text.{Text, is_empty}
use linglong.Api.{queued}
use linglong.Task.{Double, Task}
use linglong.PackageManager.Queue.{QueuedTask, Queue, is_queued, deliver}

append-some :
    (texts : List Text) → (path : Text) × (rest : List Text) × (texts ++ ([] ∷ []) ≡ path ∷ rest)
append-some [] = ([], [], refl)
append-some (text ∷ texts) = (text, texts ++ ([] ∷ []), refl)

module _ {d : Double} {S : Type 0} where
  -- A task that has a job and waits for it.
  abbrev pub IsReady : QueuedTask d S → Type 0
  IsReady t = (job : S × Task d → S × Task d) × (t.job ≡ some job) × (t.task.state ≡ queued)

  -- What the jobs of these tasks do to the shared state, one after the other.
  unfoldable pub run_jobs : List (QueuedTask d S) → S → S
  run_jobs [] s = s
  run_jobs (t ∷ rest) s = elim t.job [
    | none ↦ run_jobs rest s
    | some job ↦ run_jobs rest (job (s, t.task)).0
  ]

  -- So many signals are delivered.
  unfoldable pub deliver_times : ℕ → Queue d S → Queue d S
  deliver_times zero q = q
  deliver_times (suc n) q = deliver_times n (deliver q)

  deliver-ready :
      (q : Queue d S) (t : QueuedTask d S) (ts : List (QueuedTask d S)) (path : Text)
      (rest : List Text) (job : S × Task d → S × Task d)
      → q.running ≡ []
      → q.signals ≡ path ∷ rest
      → q.tasks ≡ t ∷ ts
      → t.job ≡ some job
      → t.task.state ≡ queued
      → ((deliver q).running ≡ [])
        × ((deliver q).signals ≡ rest ++ ([] ∷ []))
        × ((deliver q).tasks ≡ ts)
        × ((deliver q).state ≡ (job (q.state, t.task)).0)
  unfolding deliver is_empty is_queued
  deliver-ready q t ts path rest job idle signals tasks has waits =
      rw (signals, idle, tasks, has, waits, deliver) (refl, refl, refl, refl)

  -- With no task running and a signal to come, as many signals as there are tasks run the jobs of
  -- all of them, in the order of the list, and leave the list empty; provided that every task has a
  -- job and is queued.
  pub deliver_drains :
      (ts : List (QueuedTask d S)) (q : Queue d S) (path : Text) (rest : List Text)
      → All IsReady ts
      → q.running ≡ []
      → q.signals ≡ path ∷ rest
      → q.tasks ≡ ts
      → let q' = deliver_times (length ts) q in
        (q'.tasks ≡ []) × (q'.running ≡ []) × (q'.state ≡ run_jobs ts q.state)
  unfolding deliver_times run_jobs
  deliver_drains [] q path rest ready idle signals tasks = (tasks, idle, refl)
  deliver_drains (t ∷ ts) q path rest ready idle signals tasks =
      let (job, has, waits) = ready.0 in
      let (idle', signals', tasks', state) =
        deliver-ready q t ts path rest job idle signals tasks has waits in
      let (path', rest', some_signal) = append-some rest in
      let (none_left, not_running, end) =
        deliver_drains ts (deliver q) path' rest' ready.1 idle' (signals' ∙ some_signal) tasks' in
      (none_left, not_running, end ∙ ap (run_jobs ts) state ∙ rw has refl)
