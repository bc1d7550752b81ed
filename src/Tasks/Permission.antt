-- ===== src/Tasks/Permission.antt =====
-- What a coding task may do without its owner: `create_task` of
-- services/local-core/enishi_core/services/tasks.py.
use enishi.Prelude.{
  ℕ, ◌≡◌, refl, ap, ◌∙◌, Bool, true, false, not, ◌&&◌, Option, none, some, List, [], ◌∷◌, keep, any,
  arith, Bool-cases, inl, inr, ==-refl,
}
use enishi.Prelude.Table.{lookup, lookup-insert}
use enishi.Errors.{Code, Result, ok, ◌>>=◌, ◌>>◌, raise_if, >>=-returned}
use enishi.Tasks.Types.{
  ApprovalStatus, Operation, operations, waiting_approval, CodingTask, Approval, Database,
}
use enishi.Tasks.Approvals.{RemoteApprovals, create_approval}
use enishi.Tasks.Create.{
  Registry, TaskRequest, is_level2, is_level3, rule_action, guards, validate_operations,
  project_allows, level2_operations, stored, create_task, task_payload, validate_user_and_clone,
}

first_kept :
    {A : Type 0} (p : A → Bool) (xs : List A)
    → any p xs ≡ true
    → (y : A) × (ys : List A) × (keep p xs ≡ y ∷ ys)
first_kept p [] h = cc
first_kept p (x ∷ xs) h = elim (Bool-cases (p x)) [
  | inl first ↦ (x, keep p xs, rw first refl)
  | inr skipped ↦
      let later : any p xs ≡ true = rw skipped at h in
      let (y, ys, e) = first_kept p xs later in (y, ys, rw skipped e)
]

ok_injective : {A : Type 0} {x y : A} → Result.ok x ≡ ok y → x ≡ y
ok_injective h = cc

module _ (r : Registry) where
  project_allows_no_level3 :
      (project_id : Option ℕ) (ops : List Operation)
      → project_allows r project_id ops ≡ ok tt
      → any is_level3 ops ≡ false
  project_allows_no_level3 none ops h = ground (arith, h)
  project_allows_no_level3 (some p) ops h = ground (arith, h)

  -- The operations ask for the owner's consent.
  abbrev pub needs_consent : TaskRequest → Bool
  needs_consent q =
      any (λ o. is_level2 o && r.approval_required q.user_id (rule_action o)) q.requested_operations

  guards_no_level3 :
      (q : TaskRequest) → guards r q ≡ ok tt → any is_level3 q.requested_operations ≡ false
  unfolding validate_operations
  guards_no_level3 q h =
      let known = validate_user_and_clone r q.user_id q.clone_id in
      let delegated = raise_if (not (r.delegation_enabled q.user_id)) Code.task_permission_denied in
      let allowed = validate_operations r q.project_id q.requested_operations in
      let installed = raise_if (not (r.provider_known q.provider)) Code.provider_not_installed in
      let (_, e, _) = >>=-returned (known >> delegated >> allowed) (λ _. installed) h in
      let (_, _, v) = >>=-returned (known >> delegated) (λ _. allowed) e in
      project_allows_no_level3 q.project_id q.requested_operations v

  module _ {P : Type 0} (remote : RemoteApprovals P) (ttl now : ℕ) (no_proposal : P) where
    -- The task waits for an approval that is pending and names the task.
    abbrev pub Waits : ℕ → ℕ → CodingTask → Database P → Type 0
    Waits i j t db =
        (t.status ≡ waiting_approval)
        × (t.approval_id ≡ some j)
        × ((a : Approval P) × (lookup j db.approvals ≡ some a)
            × (a.status ≡ ApprovalStatus.pending)
            × (a.payload.task_id ≡ some i))

    stored-Waits :
        (i j : ℕ) (q : TaskRequest) (o : Operation) (os : List Operation) (db : Database P)
        → let out = stored r remote ttl now no_proposal i j q (o ∷ os) db in Waits i j out.0 out.1
    unfolding create_approval
    stored-Waits i j q o os db =
        let payload = task_payload r remote ttl now no_proposal i in
        let made =
          create_approval remote ttl now j q.user_id (operations (o ∷ os)) 2 payload
            q.approval_expires_at db in
        (
          refl,
          refl,
          (made.0, lookup-insert j j made.0 db.approvals ∙ rw (==-refl j) refl, refl, refl),
        )

    -- A task that is created asks for no operation of level 3; and if any of its operations is of
    -- level 2 and its owner's rules want approval for it, then the task waits, and the approval that
    -- it waits for is stored, is pending and names the task.
    pub create_task-Waits :
        (i j : ℕ) (q : TaskRequest) (db : Database P) (t : CodingTask) (db' : Database P)
        → create_task r remote ttl now no_proposal i j q db ≡ ok (t, db')
        → (any is_level3 q.requested_operations ≡ false)
          × (needs_consent q ≡ true → Waits i j t db')
    unfolding create_task level2_operations
    create_task-Waits i j q db t db' h =
        let level2 = level2_operations r q.user_id q.requested_operations in
        let out = stored r remote ttl now no_proposal i j q level2 db in
        let built = r.build_context q.clone_id q.project_id i in
        let (_, passed, rest) = >>=-returned (guards r q) (λ _. built >>= λ c. ok out) h in
        let (_, _, made) = >>=-returned built (λ c. ok out) rest in
        (
          guards_no_level3 q passed,
          λ consent.
              let (o, os, e) = first_kept _ q.requested_operations consent in
              let same = ok_injective made in
              let same_task : out.0 ≡ t = ap (λ (x : CodingTask × Database P). x.0) same in
              let same_rows : out.1 ≡ db' = ap (λ (x : CodingTask × Database P). x.1) same in
              rw (← same_task, ← same_rows, e) (stored-Waits i j q o os db),
        )
