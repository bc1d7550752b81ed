-- ===== src/Tasks/Answers.antt =====
-- What the owner's answer does: to a session by `on_approval_resolved` of
-- services/local-core/enishi_core/services/negotiation.py.
use enishi.Prelude.{
  ℕ, ◌≡◌, refl, sym, ◌∙◌, Option, none, some, Option-cases, Bool-cases, inl, inr, ◌⊎◌, ==-refl,
}
use enishi.Prelude.Table.{lookup, lookup-insert}
use enishi.Tasks.Types.{Approval, NegotiationSession, Database, is_waiting_session}
use enishi.Tasks.Sessions.{
  settle_session, resolve_session, on_approval_resolved, for_decision, same_id, settled,
}

module _ {P : Type 0} where
  lookup-settled :
      (approval_id : ℕ) (a : Approval P) (i : ℕ) (s : NegotiationSession P) (db : Database P)
      → lookup i (settle_session approval_id a i s db).sessions ≡ some (settled approval_id a s)
  unfolding settle_session
  lookup-settled approval_id a i s db =
      lookup-insert i i (settled approval_id a s) db.sessions ∙ rw (==-refl i) refl

  -- A session that waits for no approval is not resolved.
  resolve_settled :
      (approval_id : ℕ) (a : Approval P) (i : ℕ) (s : NegotiationSession P) (db : Database P)
      → resolve_session approval_id a i (some (settled approval_id a s)) db ≡ db
  resolve_settled approval_id a i s db = refl

  abbrev Resolves : ℕ → Approval P → ℕ → Option (NegotiationSession P) → Database P → Type 0
  Resolves approval_id a i o db =
      (resolve_session approval_id a i o db ≡ db)
      ⊎ ((s : NegotiationSession P) × (resolve_session approval_id a i o db
            ≡ settle_session approval_id a i s db))

  resolve_cases :
      (approval_id : ℕ) (a : Approval P) (i : ℕ) (o : Option (NegotiationSession P))
      (db : Database P)
      → Resolves approval_id a i o db
  resolve_cases approval_id a i none db = inl refl
  resolve_cases approval_id a i (some s) db =
      elim (Bool-cases (same_id s.pending_approval_id approval_id)) [
        | inr other ↦ inl (rw (other, resolve_session) refl)
        | inl own ↦ elim (Bool-cases (is_waiting_session s.status)) [
          | inr over ↦ inl (rw (own, over, resolve_session) refl)
          | inl waits ↦ inr (s, rw (own, waits, resolve_session) refl)
        ]
      ]

  resolve_twice :
      (approval_id : ℕ) (a : Approval P) (i : ℕ) (db once : Database P)
      → resolve_session approval_id a i (lookup i db.sessions) db ≡ once
      → resolve_session approval_id a i (lookup i once.sessions) once ≡ once
  resolve_twice approval_id a i db once h =
      elim (resolve_cases approval_id a i (lookup i db.sessions) db) [
        | inl same ↦ rw (← h, same, same) refl
        | inr (s, changed) ↦
            rw (← h, changed, lookup-settled approval_id a i s db)
              (resolve_settled approval_id a i s (settle_session approval_id a i s db))
      ]

  no_decision :
      (approval_id : ℕ) (a : Approval P) (db : Database P)
      → for_decision a.action_type a.payload.session_id ≡ none
      → on_approval_resolved approval_id a db ≡ db
  unfolding on_approval_resolved
  no_decision approval_id a db h = rw (h, on_approval_resolved) refl

  decision_for :
      (approval_id : ℕ) (a : Approval P) (i : ℕ) (db : Database P)
      → for_decision a.action_type a.payload.session_id ≡ some i
      → on_approval_resolved approval_id a db
        ≡ resolve_session approval_id a i (lookup i db.sessions) db
  unfolding on_approval_resolved
  decision_for approval_id a i db h = rw (h, on_approval_resolved) refl

  -- An approval that is resolved twice has been resolved once: the second time no session changes,
  -- no message is sent and no agreement is made.
  pub on_approval_resolved-twice :
      (approval_id : ℕ) (a : Approval P) (db : Database P)
      → on_approval_resolved approval_id a (on_approval_resolved approval_id a db)
        ≡ on_approval_resolved approval_id a db
  on_approval_resolved-twice approval_id a db =
      elim (Option-cases (for_decision a.action_type a.payload.session_id)) [
        | inl other ↦ no_decision approval_id a (on_approval_resolved approval_id a db) other
        | inr (i, decision) ↦
            let once = on_approval_resolved approval_id a db in
            decision_for approval_id a i once decision
            ∙ resolve_twice approval_id a i db once (sym (decision_for approval_id a i db decision))
      ]
