-- ===== src/Tasks/Histories.antt =====
-- Every call of services/local-core/enishi_core/services/approvals.py and tasks.py that touches a
-- task, as a step of the database, and what any sequence of them does to a task.
use enishi.Prelude.{
  ℕ, ◌≡◌, refl, not, ◌&&◌, ◌||◌, Option, none, some, Option-cases, Bool-cases, inl, inr, arith, ltb,
  if-intro,
}
use enishi.Prelude.Table.{Table, lookup}
use enishi.Errors.{Result, ok, err, Done}
use enishi.Tasks.Types.{ApprovalStatus, CodingTask, Approval, Database, is_pending}
use enishi.Tasks.Sessions
use enishi.Tasks.Approvals
use enishi.Tasks.Approvals.{
  RemoteApprovals, expire_if_needed, get_approval, close_pending, answer_approval, is_decision,
  closed,
}
use enishi.Tasks.Queue
use enishi.Tasks.Queue.{is_finished, is_cancelling, get_task, cancel_task}
use enishi.Tasks.Lifecycle.{
  OwnerArrow, Grows, Grows-refl, Grows-trans, on_approval_resolved-Grows, expire_task-Grows,
  Grows-insert, cancelled_from,
}

-- Answering an approval of a remote session touches no task.
abbrev pub KeepsTasks : (P : Type 0) → RemoteApprovals P → Type 0
KeepsTasks P remote =
    (now i : ℕ) (status : ApprovalStatus) (db : Database P)
    → (remote.resolve now i status db).1.tasks ≡ db.tasks

module _ {P : Type 0} where
  session_keeps_tasks :
      (i : ℕ) (a : Approval P) (db : Database P)
      → (Sessions.on_approval_resolved i a db).tasks ≡ db.tasks
  unfolding Sessions.on_approval_resolved Sessions.settle_session
  session_keeps_tasks i a db = ground arith

module _ {P : Type 0} (remote : RemoteApprovals P) (keeps : KeepsTasks P remote) (ttl now : ℕ) where
  Same_tasks-Grows : (d d' : Table CodingTask) → d' ≡ d → Grows OwnerArrow d d'
  Same_tasks-Grows d d' e = rw e (Grows-refl d)

  expire_local-Grows :
      (i : ℕ) (a : Approval P) (db : Database P)
      → Grows OwnerArrow db.tasks (Approvals.expire_local remote ttl now i a db).tasks
  expire_local-Grows i a db =
      rw (session_keeps_tasks i a) (expire_task-Grows now a (Approvals.save remote ttl now i a db))

  expire_if_needed-Grows :
      (i : ℕ) (a : Approval P) (db : Database P)
      → Grows OwnerArrow db.tasks (expire_if_needed remote ttl now i a db).1.tasks
  unfolding expire_if_needed
  expire_if_needed-Grows i a db =
      let P' = λ (out : Result (Approval P) × Database P). Grows OwnerArrow db.tasks out.1.tasks in
      if-intro P' (not (is_pending a.status)) (λ _. Grows-refl db.tasks)
        (λ _.
          if-intro P' (ltb now a.expires_at) (λ _. Grows-refl db.tasks)
            (λ _.
              if-intro P' (is_decision a.action_type && a.payload.remote)
                (λ _. Same_tasks-Grows db.tasks _ (keeps now i ApprovalStatus.expired db))
                (λ _. expire_local-Grows i (closed remote ttl now ApprovalStatus.expired a) db)))

  get_approval-Grows :
      (i : ℕ) (db : Database P)
      → Grows OwnerArrow db.tasks (get_approval remote ttl now i db).1.tasks
  unfolding get_approval
  get_approval-Grows i db = elim (Option-cases (lookup i db.approvals)) [
    | inl gone ↦ rw (gone, get_approval) (Grows-refl db.tasks)
    | inr (a, there) ↦ rw (there, get_approval) (expire_if_needed-Grows i a db)
  ]

  if_pending-Grows :
      (d : Table CodingTask) (status : ApprovalStatus) (i : ℕ)
      (out : Result (Approval P) × Database P)
      → Grows OwnerArrow d out.1.tasks
      → Grows OwnerArrow d
          (Approvals.if_pending remote ttl now
            (λ a db'. (
              ok (closed remote ttl now status a),
              Approvals.save remote ttl now i (closed remote ttl now status a) db',
            ))
            out).1.tasks
  if_pending-Grows d status i (err c, db) h = h
  if_pending-Grows d status i (ok a, db) h =
      if-intro (λ (out : Result (Approval P) × Database P). Grows OwnerArrow d out.1.tasks)
        (is_pending a.status) (λ _. h) (λ _. h)

  then_tell-Grows :
      (d : Table CodingTask) (i : ℕ) (out : Result (Approval P) × Database P)
      → Grows OwnerArrow d out.1.tasks
      → Grows OwnerArrow d (Approvals.then_tell remote ttl now i out).1.tasks
  then_tell-Grows d i (err c, db) h = h
  then_tell-Grows d i (ok a, db) h =
      rw (session_keeps_tasks i a)
        (Grows-trans d db.tasks _ h (on_approval_resolved-Grows now a db))

  pub answer_approval-Grows :
      (status : ApprovalStatus) (i : ℕ) (db : Database P)
      → Grows OwnerArrow db.tasks (answer_approval remote ttl now status i db).1.tasks
  unfolding answer_approval close_pending
  answer_approval-Grows status i db =
      if-intro (λ (out : Result (Approval P) × Database P). Grows OwnerArrow db.tasks out.1.tasks)
        (Approvals.is_remote remote ttl now i db)
        (λ _. Same_tasks-Grows db.tasks _ (keeps now i status db))
        (λ _.
          then_tell-Grows db.tasks i _
            (if_pending-Grows db.tasks status i _ (get_approval-Grows i db)))

  tell_task-Grows :
      (d : Table CodingTask) (out : Result (Approval P) × Database P)
      → Grows OwnerArrow d out.1.tasks
      → Grows OwnerArrow d (Queue.tell_task remote ttl now out).1.tasks
  tell_task-Grows d (err c, db) h = h
  tell_task-Grows d (ok a, db) h = Grows-trans d db.tasks _ h (on_approval_resolved-Grows now a db)

  learned-Grows :
      (approval : Option ℕ) (db : Database P)
      → Grows OwnerArrow db.tasks (Queue.learned remote ttl now approval db).1.tasks
  learned-Grows none db = Grows-refl db.tasks
  learned-Grows (some i) db = tell_task-Grows db.tasks _ (get_approval-Grows i db)

  -- A task that is read is there, and what was there before has only moved along the arrows.
  abbrev ReadFrom : Table CodingTask → ℕ → Result CodingTask × Database P → Type 0
  ReadFrom d i (err c, db) = Grows OwnerArrow d db.tasks
  ReadFrom d i (ok t, db) = Grows OwnerArrow d db.tasks × (lookup i db.tasks ≡ some t)

  found-ReadFrom :
      (d : Table CodingTask) (i : ℕ) (out : Result Done × Database P)
      → Grows OwnerArrow d out.1.tasks
      → ReadFrom d i (Queue.found remote ttl now i out)
  found-ReadFrom d i (err c, db) h = h
  found-ReadFrom d i (ok u, db) h = elim (Option-cases (lookup i db.tasks)) [
    | inl gone ↦ rw (gone, Queue.found) h
    | inr (t, there) ↦ rw (there, Queue.found) (h, there)
  ]

  pub get_task-ReadFrom :
      (i : ℕ) (db : Database P) → ReadFrom db.tasks i (get_task remote ttl now i db)
  unfolding get_task
  get_task-ReadFrom i db = elim (Option-cases (lookup i db.tasks)) [
    | inl gone ↦ rw (gone, get_task) (Grows-refl db.tasks)
    | inr (t, there) ↦
        rw (there, get_task)
          (found-ReadFrom db.tasks i (Queue.learned remote ttl now t.approval_id db)
            (learned-Grows t.approval_id db))
  ]

  ReadFrom-Grows :
      (d : Table CodingTask) (i : ℕ) (out : Result CodingTask × Database P)
      → ReadFrom d i out
      → Grows OwnerArrow d out.1.tasks
  ReadFrom-Grows d i (err c, db) h = h
  ReadFrom-Grows d i (ok t, db) h = h.0

  pub get_task-Grows :
      (i : ℕ) (db : Database P) → Grows OwnerArrow db.tasks (get_task remote ttl now i db).1.tasks
  get_task-Grows i db = ReadFrom-Grows db.tasks i _ (get_task-ReadFrom i db)

  cancel_found-Grows :
      (d : Table CodingTask) (i : ℕ) (out : Result CodingTask × Database P)
      → ReadFrom d i out
      → Grows OwnerArrow d (Queue.cancel_found remote ttl now i out).1.tasks
  cancel_found-Grows d i (err c, db) h = h
  cancel_found-Grows d i (ok t, db) (h, there) =
      elim (Bool-cases (is_finished t.status || is_cancelling t.status)) [
        | inl over ↦ rw (over, Queue.cancel_found) h
        | inr goes ↦
            rw (goes, Queue.cancel_found)
              (Grows-trans d db.tasks _ h (
                Grows-insert db.tasks i t (Queue.cancelled_by_owner now t) there
                  (cancelled_from now t t.status refl goes)))
      ]

  pub cancel_task-Grows :
      (i : ℕ) (db : Database P)
      → Grows OwnerArrow db.tasks (cancel_task remote ttl now i db).1.tasks
  unfolding cancel_task
  cancel_task-Grows i db =
      cancel_found-Grows db.tasks i (get_task remote ttl now i db) (get_task-ReadFrom i db)
