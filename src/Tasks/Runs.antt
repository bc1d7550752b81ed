-- ===== src/Tasks/Runs.antt =====
-- The worker of services/local-core/enishi_core/services/tasks.py beside the interface: what it relies
-- on, and what all calls together do to a task.
use enishi.Prelude.{
  ℕ, ◌≡◌, refl, Bool, true, false, some, Option-cases, Bool-cases, inl, inr, ==-refl, ◌∙◌,
}
use enishi.Prelude.Table.{Table, lookup, lookup-insert}
use enishi.Tasks.Types.{CodingTaskStatus, running, cancelling, CodingTask}
use enishi.Tasks.Approvals.{RemoteApprovals}
use enishi.Tasks.Queue.{
  is_finished, is_queued, RunEnd, provider_done, saw_cancelling, timed_out, raised,
  worker_cancelled, claimed, claim_row, claim_next_task, next_queued, finish_task,
  mark_task_finished, run_claimed_task,
}
use enishi.Tasks.Worker.{
  Worker, idle, holds, runs, Process, holding, begun, claim_by, claim_round, begin_run, end_by,
  end_run, start_process, Step, answers, reads, cancels, claims, begins, beats, ends, starts, Steps,
  done, step,
}
use enishi.Tasks.Lifecycle.{
  OwnerArrow, approve, refuse, lapse, withdraw, ask_to_stop, Arrow, Reach, stay, go, complete, fail,
  stop, complete_late, fail_late, Reach-trans, Reach-finished, Grows, Grows-by_owner, Grows-refl,
  Grows-trans, Grows-insert,
}
use enishi.Tasks.Histories.{KeepsTasks, answer_approval-Grows, get_task-Grows, cancel_task-Grows}
use enishi.Tasks.Rows.{claim_next_task-Grows, refresh_heartbeat-Grows, recover-Grows}

-- What the worker relies on: the task that it has claimed is running or asked to stop, and is asked
-- to stop if the worker saw that.
abbrev pub is_held : CodingTaskStatus → Bool
is_held running = true
is_held cancelling = true
is_held _ = false

abbrev TaskIn : ℕ → (CodingTaskStatus → Type 0) → Table CodingTask → Type 0
TaskIn i Q d = (t : CodingTask) × (lookup i d ≡ some t) × Q t.status

abbrev Follows : CodingTaskStatus → CodingTaskStatus → Type 0
Follows seen s = (is_held seen ≡ true) × Reach OwnerArrow seen s

abbrev pub Holds : Worker → Table CodingTask → Type 0
Holds idle d = Unit
Holds (holds i) d = TaskIn i (λ s. is_held s ≡ true) d
Holds (runs i seen) d = TaskIn i (Follows seen) d

held_stays : {s t : CodingTaskStatus} → Reach OwnerArrow s t → is_held s ≡ true → is_held t ≡ true
held_stays stay h = h
held_stays (go approve p) h = cc
held_stays (go refuse p) h = cc
held_stays (go lapse p) h = cc
held_stays (go withdraw p) h = cc
held_stays (go ask_to_stop p) h = held_stays p refl

Holds-Grows :
    (w : Worker) (d d' : Table CodingTask) → Grows OwnerArrow d d' → Holds w d → Holds w d'
Holds-Grows idle d d' g h = tt
Holds-Grows (holds i) d d' g (t, there, held) =
    let (t', there', r) = g i t there in (t', there', held_stays r held)
Holds-Grows (runs i seen) d d' g (t, there, (held, reach)) =
    let (t', there', r) = g i t there in (t', there', (held, Reach-trans reach r))

-- From a status that the worker saw, the row went nowhere but to being asked to stop.
data Met : CodingTaskStatus → CodingTaskStatus → Type 0 where
  still_running : Met running running
  asked_since : Met running cancelling
  asked_before : Met cancelling cancelling

Met-Follows :
    {seen s : CodingTaskStatus} → Reach OwnerArrow seen s → is_held seen ≡ true → Met seen s
Met-Follows {seen = running} stay h = still_running
Met-Follows {seen = cancelling} stay h = asked_before
Met-Follows stay h = cc
Met-Follows (go approve p) h = cc
Met-Follows (go refuse p) h = cc
Met-Follows (go lapse p) h = cc
Met-Follows (go withdraw p) h = cc
Met-Follows (go ask_to_stop stay) h = asked_since
Met-Follows (go ask_to_stop (go a p)) h = elim a [ ]

finished_from :
    (now : ℕ) (end : RunEnd) (t : CodingTask) {seen s : CodingTaskStatus}
    → t.status ≡ s
    → Met seen s
    → Reach Arrow s (finish_task now seen end t).status
unfolding finish_task mark_task_finished
finished_from now (provider_done true) t e still_running = go complete stay
finished_from now (provider_done false) t e still_running = go fail stay
finished_from now saw_cancelling t e still_running = go fail stay
finished_from now timed_out t e still_running = go fail stay
finished_from now raised t e still_running = go fail stay
finished_from now worker_cancelled t e still_running = rw e stay
finished_from now (provider_done true) t e asked_since = go complete_late stay
finished_from now (provider_done false) t e asked_since = go fail_late stay
finished_from now saw_cancelling t e asked_since = go fail_late stay
finished_from now timed_out t e asked_since = go fail_late stay
finished_from now raised t e asked_since = go fail_late stay
finished_from now worker_cancelled t e asked_since = rw e stay
finished_from now (provider_done b) t e asked_before = go stop stay
finished_from now saw_cancelling t e asked_before = go stop stay
finished_from now timed_out t e asked_before = go fail_late stay
finished_from now raised t e asked_before = go fail_late stay
finished_from now worker_cancelled t e asked_before = go stop stay

run_claimed_task-Grows :
    (now : ℕ) (seen : CodingTaskStatus) (end : RunEnd) (i : ℕ) (d : Table CodingTask)
    → TaskIn i (Follows seen) d
    → Grows Arrow d (run_claimed_task now seen end i d)
unfolding run_claimed_task
run_claimed_task-Grows now seen end i d (t, there, (held, reach)) =
    rw (there, run_claimed_task)
      (Grows-insert d i t (finish_task now seen end t) there
        (finished_from now end t refl (Met-Follows reach held)))

-- A claim that hits a row leaves it running.
claim_row-Holds :
    (now worker i : ℕ) (d : Table CodingTask)
    → Holds (holding (claim_row now worker i d).0) (claim_row now worker i d).1
claim_row-Holds now worker i d = elim (Option-cases (lookup i d)) [
  | inl gone ↦ rw (gone, claim_row) tt
  | inr (t, there) ↦ elim (Bool-cases (is_queued t.status)) [
    | inl q ↦
        rw (there, claim_row, q)
          (
            claimed now worker t,
            lookup-insert i i (claimed now worker t) d ∙ rw (==-refl i) refl,
            refl,
          )
    | inr other ↦ rw (there, claim_row, other) tt
  ]
]

claim_next_task-Holds :
    (now worker : ℕ) (d : Table CodingTask)
    → Holds (holding (claim_next_task now worker d).0) (claim_next_task now worker d).1
unfolding claim_next_task
claim_next_task-Holds now worker d = elim (Option-cases (next_queued d)) [
  | inl empty ↦ rw (empty, claim_next_task) tt
  | inr (it, found) ↦ rw (found, claim_next_task) (claim_row-Holds now worker it.0 d)
]

begun-Holds : (w : Worker) (d : Table CodingTask) → Holds w d → Holds (begun d w) d
begun-Holds idle d h = h
begun-Holds (holds i) d (t, there, held) = rw there (t, there, (held, stay))
begun-Holds (runs i seen) d h = h

owner-Goes :
    (w : Worker) (d d' : Table CodingTask)
    → Holds w d
    → Grows OwnerArrow d d'
    → Grows Arrow d d' × Holds w d'
owner-Goes w d d' h g = (Grows-by_owner d d' g, Holds-Grows w d d' g h)

module _ {P : Type 0} where
  -- The tasks moved along the arrows, and the worker can rely on what it relied on.
  abbrev Goes : Process P → Process P → Type 0
  Goes a b = Grows Arrow a.db.tasks b.db.tasks × Holds b.worker b.db.tasks

  claims-Goes :
      (now worker_id : ℕ) (w : Worker) (s : Process P)
      → s.worker ≡ w
      → Holds s.worker s.db.tasks
      → Goes s (claim_by now worker_id w s)
  claims-Goes now worker_id idle s e h = (
    claim_next_task-Grows now worker_id s.db.tasks,
    claim_next_task-Holds now worker_id s.db.tasks,
  )
  claims-Goes now worker_id (holds i) s e h = (Grows-refl s.db.tasks, h)
  claims-Goes now worker_id (runs i seen) s e h = (Grows-refl s.db.tasks, h)

  ends-Goes :
      (now : ℕ) (end : RunEnd) (w : Worker) (s : Process P)
      → s.worker ≡ w
      → Holds w s.db.tasks
      → Goes s (end_by now end w s)
  ends-Goes now end (runs i seen) s e h = (run_claimed_task-Grows now seen end i s.db.tasks h, tt)
  ends-Goes now end idle s e h = (Grows-refl s.db.tasks, rw e tt)
  ends-Goes now end (holds i) s e h = (Grows-refl s.db.tasks, rw e h)

module _ {P : Type 0} (remote : RemoteApprovals P) (keeps : KeepsTasks P remote) (ttl : ℕ) where
  Step-Goes : {a b : Process P} → Step remote ttl a b → Holds a.worker a.db.tasks → Goes a b
  unfolding claim_round begin_run end_run start_process
  Step-Goes (answers now i status s) h =
      owner-Goes s.worker s.db.tasks _ h (answer_approval-Grows remote keeps ttl now status i s.db)
  Step-Goes (reads now i s) h =
      owner-Goes s.worker s.db.tasks _ h (get_task-Grows remote keeps ttl now i s.db)
  Step-Goes (cancels now i s) h =
      owner-Goes s.worker s.db.tasks _ h (cancel_task-Grows remote keeps ttl now i s.db)
  Step-Goes (claims now worker_id s) h = claims-Goes now worker_id s.worker s refl h
  Step-Goes (begins s) h = (Grows-refl s.db.tasks, begun-Holds s.worker s.db.tasks h)
  Step-Goes (beats now i s) h =
      owner-Goes s.worker s.db.tasks _ h (refresh_heartbeat-Grows now i s.db.tasks)
  Step-Goes (ends now end s) h = ends-Goes now end s.worker s refl h
  Step-Goes (starts now s) h = (recover-Grows now s.db.tasks, tt)

  -- From a moment at which the worker's task, if it has one, is running or asked to stop, as when the
  -- process has just started: through any sequence of calls a task is never lost, and its status goes
  -- only along the arrows of its life: from waiting to queued, cancelled or expired; from queued to
  -- running or cancelled; from running to completed, failed or cancelling; from cancelling to
  -- completed, failed or cancelled. It is assumed that one process runs at a time, and that answering
  -- an approval of a remote session touches no task.
  pub task_life :
      {a b : Process P}
      → Steps remote ttl a b
      → Holds a.worker a.db.tasks
      → Grows Arrow a.db.tasks b.db.tasks
  task_life {a = a} done h = Grows-refl a.db.tasks
  task_life {a = a} (step {b = b} {c = c} s rest) h =
      let (grows, next) = Step-Goes s h in
      Grows-trans a.db.tasks b.db.tasks c.db.tasks grows (task_life rest next)

  -- A task that is completed, failed, cancelled or expired keeps that status through any sequence of
  -- calls, the end of a run included, which writes without asking, from a moment at which the worker's
  -- task, if it has one, is running or asked to stop. It is assumed that one process runs at a time,
  -- and that answering an approval of a remote session touches no task.
  pub finished_stays :
      {a b : Process P} (i : ℕ) (t : CodingTask)
      → Steps remote ttl a b
      → Holds a.worker a.db.tasks
      → lookup i a.db.tasks ≡ some t
      → is_finished t.status ≡ true
      → (t' : CodingTask) × (lookup i b.db.tasks ≡ some t') × (t.status ≡ t'.status)
  finished_stays i t steps h there over =
      let (t', there', reach) = task_life steps h i t there in
      (t', there', Reach-finished over reach)
