-- ===== src/Tasks/Lifecycle.antt =====
-- The life of a coding task of services/local-core/enishi_core/services/tasks.py: along which arrows
-- its status goes, whoever calls what.
use enishi.Prelude.{
  ℕ, ◌≡◌, refl, sym, ap, ◌∙◌, true, false, ◌||◌, Option, none, some, Option-cases, Bool-cases, inl,
  inr, arith, ◌==◌, ==_iff,
}
use enishi.Prelude.Table.{Table, lookup, insert, lookup-insert}
use enishi.Tasks.Types.{
  ApprovalStatus, CodingTaskStatus, waiting_approval, queued, running, completed, failed,
  cancelling, cancelled, expired_task, CodingTask, Approval, Database, is_waiting,
}
use enishi.Tasks.Resolution.{if_waiting, lapsed, resolved_task, at_task}
use enishi.Tasks.Resolution
use enishi.Tasks.Queue.{is_finished, is_running, is_cancelling, interrupted, cancelled_by_owner}

-- The arrows that calls of the interface take, on the owner's behalf or because time is over.
pub data OwnerArrow : CodingTaskStatus → CodingTaskStatus → Type 0 where
  approve : OwnerArrow waiting_approval queued
  refuse : OwnerArrow waiting_approval cancelled
  lapse : OwnerArrow waiting_approval expired_task
  withdraw : OwnerArrow queued cancelled
  ask_to_stop : OwnerArrow running cancelling

-- All arrows: those, and the worker's own.
pub data Arrow : CodingTaskStatus → CodingTaskStatus → Type 0 where
  by_owner : {s t : CodingTaskStatus} → OwnerArrow s t → Arrow s t
  claim : Arrow queued running
  complete : Arrow running completed
  fail : Arrow running failed
  stop : Arrow cancelling cancelled
  complete_late : Arrow cancelling completed
  fail_late : Arrow cancelling failed

abbrev pub Arrows : Type 1
Arrows = CodingTaskStatus → CodingTaskStatus → Type 0

pub data Reach (R : Arrows) : CodingTaskStatus → CodingTaskStatus → Type 0 where
  stay : {s : CodingTaskStatus} → Reach R s s
  go : {s t u : CodingTaskStatus} → R s t → Reach R t u → Reach R s u

pub Reach-trans : {R : Arrows} {s t u : CodingTaskStatus} → Reach R s t → Reach R t u → Reach R s u
Reach-trans stay q = q
Reach-trans (go a p) q = go a (Reach-trans p q)

pub Reach-by_owner : {s t : CodingTaskStatus} → Reach OwnerArrow s t → Reach Arrow s t
Reach-by_owner stay = stay
Reach-by_owner (go a p) = go (by_owner a) (Reach-by_owner p)

-- A finished task stays as it is.
pub Reach-finished : {s t : CodingTaskStatus} → is_finished s ≡ true → Reach Arrow s t → s ≡ t
Reach-finished h stay = refl
Reach-finished h (go (by_owner approve) p) = cc
Reach-finished h (go (by_owner refuse) p) = cc
Reach-finished h (go (by_owner lapse) p) = cc
Reach-finished h (go (by_owner withdraw) p) = cc
Reach-finished h (go (by_owner ask_to_stop) p) = cc
Reach-finished h (go claim p) = cc
Reach-finished h (go complete p) = cc
Reach-finished h (go fail p) = cc
Reach-finished h (go stop p) = cc
Reach-finished h (go complete_late p) = cc
Reach-finished h (go fail_late p) = cc

-- Every task is still there, and its status went along the arrows.
abbrev pub Grows : Arrows → Table CodingTask → Table CodingTask → Type 0
Grows R d d' =
    (i : ℕ) (t : CodingTask)
    → lookup i d ≡ some t
    → (t' : CodingTask) × (lookup i d' ≡ some t') × Reach R t.status t'.status

pub Grows-by_owner : (d d' : Table CodingTask) → Grows OwnerArrow d d' → Grows Arrow d d'
Grows-by_owner d d' g i t h = let (t', h', r) = g i t h in (t', h', Reach-by_owner r)

pub Grows-refl : {R : Arrows} (d : Table CodingTask) → Grows R d d
Grows-refl d i t h = (t, h, stay)

pub Grows-trans : {R : Arrows} (a b c : Table CodingTask) → Grows R a b → Grows R b c → Grows R a c
Grows-trans a b c p q i t h =
    let (t', h', r) = p i t h in let (t'', h'', r') = q i t' h' in (t'', h'', Reach-trans r r')

pub some_injective : {t u : CodingTask} → Option.some t ≡ some u → t ≡ u
some_injective h = cc

-- One task is changed.
pub Grows-insert :
    {R : Arrows} (d : Table CodingTask) (i : ℕ) (t t' : CodingTask)
    → lookup i d ≡ some t
    → Reach R t.status t'.status
    → Grows R d (insert i t' d)
Grows-insert d i t t' h r j u g = elim (Bool-cases (i == j)) [
  | inl same ↦
      let there : t ≡ u = some_injective (sym h ∙ ap (λ k. lookup k d) ((==_iff i j).0 same) ∙ g) in
      (t', lookup-insert i j t' d ∙ rw same refl, rw (← there) r)
  | inr other ↦ (u, lookup-insert i j t' d ∙ rw other g, stay)
]

waiting_only : (s : CodingTaskStatus) → is_waiting s ≡ true → s ≡ waiting_approval
waiting_only s h = ground (arith, h)

pub running_only : (s : CodingTaskStatus) → is_running s ≡ true → s ≡ running
running_only s h = ground (arith, h)

Reach-resolved :
    (now : ℕ) (status : ApprovalStatus) (t : CodingTask)
    → t.status ≡ waiting_approval
    → Reach OwnerArrow t.status (resolved_task now status t).status
Reach-resolved now ApprovalStatus.pending t w = stay
Reach-resolved now ApprovalStatus.approved t w = rw w (go approve stay)
Reach-resolved now ApprovalStatus.rejected t w = rw w (go refuse stay)
Reach-resolved now ApprovalStatus.expired t w = rw w (go lapse stay)

Reach-if_waiting :
    (f : CodingTask → CodingTask) (t : CodingTask)
    → (t.status ≡ waiting_approval → Reach OwnerArrow t.status (f t).status)
    → Reach OwnerArrow t.status (if_waiting f t).status
Reach-if_waiting f t h = elim (Bool-cases (is_waiting t.status)) [
  | inl w ↦ rw (w, if_waiting) (h (waiting_only t.status w))
  | inr other ↦ rw (other, if_waiting) stay
]

pub cancelled_from :
    (now : ℕ) (t : CodingTask) (s : CodingTaskStatus)
    → t.status ≡ s
    → (is_finished s || is_cancelling s) ≡ false
    → Reach OwnerArrow s (cancelled_by_owner now t).status
cancelled_from now t waiting_approval e h = rw e (go refuse stay)
cancelled_from now t queued e h = rw e (go withdraw stay)
cancelled_from now t running e h = rw e (go ask_to_stop stay)
cancelled_from now t completed e h = cc
cancelled_from now t failed e h = cc
cancelled_from now t cancelling e h = cc
cancelled_from now t cancelled e h = cc
cancelled_from now t expired_task e h = cc

pub interrupted_from :
    (now : ℕ) (t : CodingTask) (s : CodingTaskStatus)
    → t.status ≡ s
    → Reach Arrow s (interrupted now t).status
interrupted_from now t waiting_approval e = rw e stay
interrupted_from now t queued e = rw e stay
interrupted_from now t running e = rw e (go fail stay)
interrupted_from now t completed e = rw e stay
interrupted_from now t failed e = rw e stay
interrupted_from now t cancelling e = rw e (go fail_late stay)
interrupted_from now t cancelled e = rw e stay
interrupted_from now t expired_task e = rw e stay

module _ {P : Type 0} (now : ℕ) where
  at_task-Grows :
      (f : CodingTask → CodingTask) (i : Option ℕ) (db : Database P)
      → ((t : CodingTask) → t.status ≡ waiting_approval → Reach OwnerArrow t.status (f t).status)
      → Grows OwnerArrow db.tasks (at_task now f i db).tasks
  at_task-Grows f none db h = Grows-refl db.tasks
  at_task-Grows f (some i) db h = elim (Option-cases (lookup i db.tasks)) [
    | inl gone ↦ rw (gone, at_task) (Grows-refl db.tasks)
    | inr (t, there) ↦
        rw (there, at_task)
          (Grows-insert db.tasks i t (if_waiting f t) there (Reach-if_waiting f t (h t)))
  ]

  pub on_approval_resolved-Grows :
      (a : Approval P) (db : Database P)
      → Grows OwnerArrow db.tasks (Resolution.on_approval_resolved now a db).tasks
  unfolding Resolution.on_approval_resolved
  on_approval_resolved-Grows a db =
      at_task-Grows (resolved_task now a.status) a.payload.task_id db (Reach-resolved now a.status)

  pub expire_task-Grows :
      (a : Approval P) (db : Database P)
      → Grows OwnerArrow db.tasks (Resolution.expire_task_for_approval now a db).tasks
  unfolding Resolution.expire_task_for_approval
  expire_task-Grows a db =
      at_task-Grows (lapsed now) a.payload.task_id db (Reach-resolved now ApprovalStatus.expired)
