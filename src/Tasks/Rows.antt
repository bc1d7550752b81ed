-- ===== src/Tasks/Rows.antt =====
-- What the calls of the worker in services/local-core/enishi_core/services/tasks.py do to the rows.
use enishi.Prelude.{
  ℕ, ◌≡◌, refl, ap, true, Option, none, some, [], ◌∷◌, Option-cases, Bool-cases, inl, inr, arith,
  ◌==◌, if-intro,
}
use enishi.Prelude.Table.{Table, lookup}
use enishi.Tasks.Types.{CodingTaskStatus, queued, CodingTask}
use enishi.Tasks.Queue.{
  is_running, is_queued, claimed, claim_row, claim_next_task, next_queued, refresh_heartbeat,
  interrupted, recover_interrupted_tasks,
}
use enishi.Tasks.Lifecycle.{
  OwnerArrow, Arrow, Reach, stay, go, claim, Grows, Grows-refl, Grows-insert, interrupted_from,
}

pub queued_only : (s : CodingTaskStatus) → is_queued s ≡ true → s ≡ queued
queued_only s h = ground (arith, h)

pub claim_row-Grows :
    (now worker i : ℕ) (d : Table CodingTask) → Grows Arrow d (claim_row now worker i d).1
claim_row-Grows now worker i d = elim (Option-cases (lookup i d)) [
  | inl gone ↦ rw (gone, claim_row) (Grows-refl d)
  | inr (t, there) ↦ elim (Bool-cases (is_queued t.status)) [
    | inl q ↦
        rw (there, claim_row, q)
          (Grows-insert d i t (claimed now worker t) there
            (rw (queued_only t.status q) (go claim stay)))
    | inr other ↦ rw (there, claim_row, other) (Grows-refl d)
  ]
]

pub claim_next_task-Grows :
    (now worker : ℕ) (d : Table CodingTask) → Grows Arrow d (claim_next_task now worker d).1
unfolding claim_next_task
claim_next_task-Grows now worker d = elim (Option-cases (next_queued d)) [
  | inl empty ↦ rw (empty, claim_next_task) (Grows-refl d)
  | inr (it, found) ↦ rw (found, claim_next_task) (claim_row-Grows now worker it.0 d)
]

pub refresh_heartbeat-Grows :
    (now i : ℕ) (d : Table CodingTask) → Grows OwnerArrow d (refresh_heartbeat now i d)
unfolding refresh_heartbeat
refresh_heartbeat-Grows now i d = elim (Option-cases (lookup i d)) [
  | inl gone ↦ rw (gone, refresh_heartbeat) (Grows-refl d)
  | inr (t, there) ↦
      rw (there, refresh_heartbeat)
        (Grows-insert d i t _ there (
          if-intro (λ (u : CodingTask). Reach OwnerArrow t.status u.status) (is_running t.status)
            (λ _. stay) (λ _. stay)))
]

pub recovered_too :
    (now : ℕ) {t u : CodingTask}
    → Option.some u ≡ some t
    → Option.some (interrupted now u) ≡ some (interrupted now t)
recovered_too now h = ap (λ o. elim o [ none ↦ none | some x ↦ some (interrupted now x) ]) h

pub lookup-recovered :
    (now i : ℕ) (d : Table CodingTask) (t : CodingTask)
    → lookup i d ≡ some t
    → lookup i (recover_interrupted_tasks now d) ≡ some (interrupted now t)
unfolding lookup recover_interrupted_tasks
lookup-recovered now i [] t h = cc
lookup-recovered now i ((j, u) ∷ d) t h = elim (Bool-cases (j == i)) [
  | inl same ↦ let here : Option.some u ≡ some t = rw same at h in rw same (recovered_too now here)
  | inr other ↦
      let later : lookup i d ≡ some t = rw other at h in rw other (lookup-recovered now i d t later)
]

pub recover-Grows :
    (now : ℕ) (d : Table CodingTask) → Grows Arrow d (recover_interrupted_tasks now d)
recover-Grows now d i t h =
    (interrupted now t, lookup-recovered now i d t h, interrupted_from now t t.status refl)
