-- ===== src/Tasks/Stops.antt =====
-- What becomes of the owner's request to stop a task whose run has begun: `_run_claimed_task` of
-- services/local-core/enishi_core/services/tasks.py asks an object that it read before.
use enishi.Prelude.{
  ℕ, ◌≡◌, ◌≢◌, refl, sym, ap, subst, ◌∙◌, Bool, true, false, ◌&&◌, some, Option-cases, Bool-cases,
  inl, inr, arith, ◌==◌, ==_iff,
}
use enishi.Prelude.Table.{Table, lookup, insert, lookup-insert}
use enishi.Tasks.Types.{
  CodingTaskStatus, running, completed, failed, cancelling, cancelled, CodingTask,
}
use enishi.Tasks.Approvals.{RemoteApprovals}
use enishi.Tasks.Queue.{
  is_cancelling, is_queued, RunEnd, provider_done, saw_cancelling, timed_out, raised,
  worker_cancelled, claimed, claim_row, claim_next_task, next_queued, interrupted,
  recover_interrupted_tasks, finish_task, mark_task_finished, run_claimed_task,
}
use enishi.Tasks.Worker.{
  Worker, idle, holds, runs, Process, holding, begun, claim_by, claim_round, begin_run, end_by,
  end_run, start_process, Step, answers, reads, cancels, claims, begins, beats, ends, starts, Steps,
  done, step,
}
use enishi.Tasks.Lifecycle.{
  OwnerArrow, approve, refuse, lapse, withdraw, ask_to_stop, Reach, stay, go, Grows, some_injective,
}
use enishi.Tasks.Histories.{KeepsTasks, answer_approval-Grows, get_task-Grows, cancel_task-Grows}
use enishi.Tasks.Rows.{lookup-recovered, refresh_heartbeat-Grows}

abbrev pub is_begun : CodingTaskStatus → Bool
is_begun running = true
is_begun cancelling = true
is_begun completed = true
is_begun failed = true
is_begun _ = false

abbrev Begun : ℕ → Table CodingTask → Type 0
Begun i d = (t : CodingTask) × (lookup i d ≡ some t) × (is_begun t.status ≡ true)

-- The worker is not about to begin a run of the task, nor saw that it is asked to stop.
abbrev Unaware : ℕ → Worker → Type 0
Unaware i idle = Unit
Unaware i (holds j) = (j == i) ≡ false
Unaware i (runs j seen) = ((j == i) && is_cancelling seen) ≡ false

begun_stays :
    {s t : CodingTaskStatus} → Reach OwnerArrow s t → is_begun s ≡ true → is_begun t ≡ true
begun_stays stay h = h
begun_stays (go approve p) h = cc
begun_stays (go refuse p) h = cc
begun_stays (go lapse p) h = cc
begun_stays (go withdraw p) h = cc
begun_stays (go ask_to_stop p) h = begun_stays p refl

Begun-Grows : (i : ℕ) (d d' : Table CodingTask) → Grows OwnerArrow d d' → Begun i d → Begun i d'
Begun-Grows i d d' g (t, there, h) =
    let (t', there', r) = g i t there in (t', there', begun_stays r h)

interrupted_begun :
    (now : ℕ) (t : CodingTask)
    → is_begun t.status ≡ true
    → is_begun (interrupted now t).status ≡ true
interrupted_begun now t h = ground (arith, h)

same_row : (i j : ℕ) (d : Table CodingTask) → (j == i) ≡ true → lookup j d ≡ lookup i d
same_row i j d e = ap (λ k. lookup k d) ((==_iff j i).0 e)

-- A row is written; if it is this task's, the task has begun still.
Begun-insert :
    (i j : ℕ) (t : CodingTask) (d : Table CodingTask)
    → Begun i d
    → ((j == i) ≡ true → is_begun t.status ≡ true)
    → Begun i (insert j t d)
Begun-insert i j t d (u, there, h) k = elim (Bool-cases (j == i)) [
  | inl same ↦ (t, lookup-insert j i t d ∙ rw same refl, k same)
  | inr other ↦ (u, lookup-insert j i t d ∙ rw other there, h)
]

queued_not_begun : (s : CodingTaskStatus) → is_queued s ≡ true → is_begun s ≡ false
queued_not_begun s h = ground (arith, h)

claim_row-Begun :
    (now worker i j : ℕ) (d : Table CodingTask)
    → Begun i d
    → Begun i (claim_row now worker j d).1 × Unaware i (holding (claim_row now worker j d).0)
claim_row-Begun now worker i j d (u, here, h) = elim (Option-cases (lookup j d)) [
  | inl gone ↦ rw (gone, claim_row) ((u, here, h), tt)
  | inr (t, there) ↦ elim (Bool-cases (is_queued t.status)) [
    | inr other ↦ rw (there, claim_row, other) ((u, here, h), tt)
    | inl q ↦ elim (Bool-cases (j == i)) [
      | inr other ↦
          rw (there, claim_row, q)
            (Begun-insert i j (claimed now worker t) d (u, here, h) (λ same. refl), other)
      | inl same ↦
          let row : t ≡ u = some_injective (sym there ∙ (same_row i j d same ∙ here)) in
          let going = subst (λ (x : CodingTask). is_begun x.status ≡ true) (sym row) h in
          let clash = sym going ∙ queued_not_begun t.status q in cc
    ]
  ]
]

finish_task-begun :
    (now : ℕ) (seen : CodingTaskStatus) (end : RunEnd) (t : CodingTask)
    → is_cancelling seen ≡ false
    → is_begun t.status ≡ true
    → is_begun (finish_task now seen end t).status ≡ true
unfolding finish_task mark_task_finished
finish_task-begun now seen (provider_done true) t other h = rw other refl
finish_task-begun now seen (provider_done false) t other h = rw other refl
finish_task-begun now seen saw_cancelling t other h = rw other refl
finish_task-begun now seen timed_out t other h = refl
finish_task-begun now seen raised t other h = refl
finish_task-begun now seen worker_cancelled t other h = rw other h

claim_next_task-Begun :
    (now worker i : ℕ) (d : Table CodingTask)
    → Begun i d
    → Begun i (claim_next_task now worker d).1
      × Unaware i (holding (claim_next_task now worker d).0)
unfolding claim_next_task
claim_next_task-Begun now worker i d h = elim (Option-cases (next_queued d)) [
  | inl empty ↦ rw (empty, claim_next_task) (h, tt)
  | inr (it, found) ↦ rw (found, claim_next_task) (claim_row-Begun now worker i it.0 d h)
]

unaware_of :
    (j i : ℕ) (seen : CodingTaskStatus)
    → ((j == i) && is_cancelling seen) ≡ false
    → (j == i) ≡ true
    → is_cancelling seen ≡ false
unaware_of j i seen h same = ground arith

run_claimed_task-Begun :
    (now : ℕ) (seen : CodingTaskStatus) (end : RunEnd) (i j : ℕ) (d : Table CodingTask)
    → Begun i d
    → ((j == i) && is_cancelling seen) ≡ false
    → Begun i (run_claimed_task now seen end j d)
unfolding run_claimed_task
run_claimed_task-Begun now seen end i j d (u, here, h) far = elim (Option-cases (lookup j d)) [
  | inl gone ↦ rw (gone, run_claimed_task) (u, here, h)
  | inr (t, there) ↦
      rw (there, run_claimed_task)
        (Begun-insert i j (finish_task now seen end t) d (u, here, h)
          (λ same.
            let row : t ≡ u = some_injective (sym there ∙ (same_row i j d same ∙ here)) in
            finish_task-begun now seen end t (unaware_of j i seen far same)
              (subst (λ (x : CodingTask). is_begun x.status ≡ true) (sym row) h)))
]

begun-Unaware : (i : ℕ) (w : Worker) (d : Table CodingTask) → Unaware i w → Unaware i (begun d w)
begun-Unaware i idle d h = h
begun-Unaware i (runs j seen) d h = h
begun-Unaware i (holds j) d h = elim (Option-cases (lookup j d)) [
  | inl gone ↦ rw gone tt
  | inr (t, there) ↦ rw there (rw h refl)
]

recovered-Begun :
    (now i : ℕ) (d : Table CodingTask) → Begun i d → Begun i (recover_interrupted_tasks now d)
recovered-Begun now i d (t, there, h) =
    (interrupted now t, lookup-recovered now i d t there, interrupted_begun now t h)

module _ {P : Type 0} (i : ℕ) where
  abbrev GoesOn : Process P → Type 0
  GoesOn s = Begun i s.db.tasks × Unaware i s.worker

  claims-GoesOn :
      (now worker_id : ℕ) (w : Worker) (s : Process P)
      → s.worker ≡ w
      → GoesOn s
      → GoesOn (claim_by now worker_id w s)
  claims-GoesOn now worker_id idle s e (h, far) = claim_next_task-Begun now worker_id i s.db.tasks h
  claims-GoesOn now worker_id (holds j) s e h = h
  claims-GoesOn now worker_id (runs j seen) s e h = h

  ends-GoesOn :
      (now : ℕ) (end : RunEnd) (w : Worker) (s : Process P)
      → s.worker ≡ w
      → GoesOn s
      → GoesOn (end_by now end w s)
  ends-GoesOn now end (runs j seen) s e (h, far) =
      (run_claimed_task-Begun now seen end i j s.db.tasks h (rw e at far), tt)
  ends-GoesOn now end idle s e h = h
  ends-GoesOn now end (holds j) s e h = h

module _ {P : Type 0} (remote : RemoteApprovals P) (keeps : KeepsTasks P remote) (ttl i : ℕ) where
  Step-GoesOn : {a b : Process P} → Step remote ttl a b → GoesOn i a → GoesOn i b
  unfolding claim_round begin_run end_run start_process
  Step-GoesOn (answers now j status s) (h, far) =
      (Begun-Grows i s.db.tasks _ (answer_approval-Grows remote keeps ttl now status j s.db) h, far)
  Step-GoesOn (reads now j s) (h, far) =
      (Begun-Grows i s.db.tasks _ (get_task-Grows remote keeps ttl now j s.db) h, far)
  Step-GoesOn (cancels now j s) (h, far) =
      (Begun-Grows i s.db.tasks _ (cancel_task-Grows remote keeps ttl now j s.db) h, far)
  Step-GoesOn (claims now worker_id s) h = claims-GoesOn i now worker_id s.worker s refl h
  Step-GoesOn (begins s) (h, far) = (h, begun-Unaware i s.worker s.db.tasks far)
  Step-GoesOn (beats now j s) (h, far) =
      (Begun-Grows i s.db.tasks _ (refresh_heartbeat-Grows now j s.db.tasks) h, far)
  Step-GoesOn (ends now end s) h = ends-GoesOn i now end s.worker s refl h
  Step-GoesOn (starts now s) (h, far) = (recovered-Begun now i s.db.tasks h, tt)

  Steps-GoesOn : {a b : Process P} → Steps remote ttl a b → GoesOn i a → GoesOn i b
  Steps-GoesOn done h = h
  Steps-GoesOn (step s rest) h = Steps-GoesOn rest (Step-GoesOn s h)

  -- From a moment at which the worker runs a task that is running, and that its session saw as
  -- running: through any calls, the owner's requests to cancel the task, the ends of runs and new
  -- starts of the process included, the task is there and its status is not cancelled. It is assumed
  -- that one process runs at a time, and that answering an approval of a remote session touches no
  -- task.
  pub begun_never_cancelled :
      {a b : Process P} (t : CodingTask)
      → Steps remote ttl a b
      → a.worker ≡ runs i running
      → lookup i a.db.tasks ≡ some t
      → t.status ≡ running
      → (t' : CodingTask) × (lookup i b.db.tasks ≡ some t') × (t'.status ≢ cancelled)
  begun_never_cancelled t steps own there now_running =
      let ((t', there', h), far) =
        Steps-GoesOn steps ((t, there, rw now_running refl), rw own (ground arith)) in
      (t', there', λ e. let clash = sym h ∙ ap is_begun e in cc)
