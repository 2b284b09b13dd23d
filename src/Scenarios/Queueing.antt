-- ===== src/Scenarios/Queueing.antt =====
-- The queue of tasks, at concrete inputs.
use linglong.Prelude.{ℕ, suc, ◌≡◌, refl, some, [], ◌∷◌}
use linglong.Prelude.Text.{Text, codes}
use linglong.Task
use linglong.Task.{Double, Task}
use linglong.PackageManager.Queue.{QueuedTask, Queue}
use linglong.PackageManager.Queue.Drain.{run_jobs, deliver_times, deliver_drains}
use linglong.Scenarios.Worlds.{plain_double, two_parts}

abbrev count_job : QueuedTask plain_double ℕ
count_job = record { path = codes "/task/1"; job = some (λ p. (suc p.0, p.1)); task = two_parts }

abbrev queue_of : Text → Queue plain_double ℕ
queue_of running = record {
  running = running;
  tasks = count_job ∷ count_job ∷ [];
  state = 0;
  removed = [];
  signals = codes "/task/1" ∷ [];
}

deliver_drains_example :
    let q' = deliver_times 2 (queue_of []) in
    (q'.tasks ≡ []) × (q'.running ≡ []) × (q'.state ≡ run_jobs (count_job ∷ count_job ∷ []) 0)
unfolding linglong.Task.start
deliver_drains_example =
    deliver_drains (count_job ∷ count_job ∷ []) (queue_of []) (codes "/task/1") []
      ((λ p. (suc p.0, p.1), refl, refl), ((λ p. (suc p.0, p.1), refl, refl), tt)) refl refl refl
