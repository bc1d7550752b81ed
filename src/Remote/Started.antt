-- ===== src/Remote/Started.antt =====
-- `start_remote_negotiation` of services/remote_negotiation.py: its session is opened and takes its
-- second step at once.
use enishi.Prelude.{
  ℕ, ◌≡◌, refl, sym, ap, subst, ◌∙◌, Bool, Option, none, some, List, [], ◌∷◌, ◌++◌, keep, is_some,
  arith, ◌==◌, if◌then◌else◌,
}
use enishi.Prelude.Table.{lookup}
use enishi.Errors.{ok, Done, raise_if, unhandled}
use enishi.Exec.Triples.{
  Ensures, Ensures-pure, Ensures-lift, Ensures-read, Ensures-bind, Ensures-modify, Ensures-commit,
  Ensures-option, Ensures-weaken,
}
use enishi.Protocol.{opened, is_terminal}
use enishi.Remote.Types.{Envelope, NegotiationSession, NegotiationMessage, Tables}
use enishi.Remote.Domain.{Node, Call}
use enishi.Remote.Messages.{of_session, with_sequence, save_message, enqueue_envelope}
use enishi.Remote.Personal.{store_personal, ensure_personal_agent}
use enishi.Remote.Start.{Start, opened_here, record_start, flush, start_remote_negotiation}
use enishi.Remote.Machine.{Base, Local, Steps, opens, says, then_step, local, Follows}
use enishi.Remote.Locals.{message_of, Wrote, Follows-Wrote_steps}
use enishi.Remote.Answered.{
  Kept, Fallback, Shows, delegation_enabled-Shows, ensure_device_node-Shows,
}
use enishi.Remote.Refinement.{flush_outbox-Kept}

fresh_only :
    {A : Type 0} (o : Option A) (a : Done) → raise_if (is_some o) unhandled ≡ ok a → o ≡ none
fresh_only none a h = refl
fresh_only (some x) a h = cc

module _ {J : Type 0} where
  append_two :
      (xs : List (NegotiationMessage J)) (m n : NegotiationMessage J)
      → (xs ++ m ∷ []) ++ n ∷ [] ≡ xs ++ m ∷ n ∷ []
  append_two [] m n = refl
  append_two (x ∷ xs) m n = ap (λ l. x ∷ l) (append_two xs m n)

  said_by_two :
      (s : ℕ) (m n : NegotiationMessage J) (t : ℕ)
      → m.session_id ≡ s
      → n.session_id ≡ s
      → keep (of_session t) (m ∷ n ∷ []) ≡ (if s == t then m ∷ n ∷ [] else [])
  said_by_two s m n t h k = ground (arith, h, k)

module _ {J C : Type 0} (base : Base J) (node : Node J C) (call : Call) (s : Start J) where
  started_local :
      (i : ℕ) (session : NegotiationSession J) (m n : NegotiationMessage J) (db : Tables J C)
      → n.sequence ≡ 2
      → session.last_sequence ≡ 2
      → ◌≡◌ {A = Local J}
          (record {
            session = some (with_sequence n.sequence (with_sequence 1 session));
            messages = (keep (of_session i) db.messages ++ m ∷ []) ++ n ∷ [];
            agreement = lookup i db.agreements;
          })
          (record {
            session = some session;
            messages = keep (of_session i) db.messages ++ m ∷ n ∷ [];
            agreement = lookup i db.agreements;
          })
  started_local i session m n db n2 two = rw (append_two (keep (of_session i) db.messages) m n) (
      ap
        (λ k. record {
          session = some (with_sequence k session);
          messages = keep (of_session i) db.messages ++ m ∷ n ∷ [];
          agreement = lookup i db.agreements;
        })
        (n2 ∙ sym two))

  record_start-Follows :
      (session : NegotiationSession J) (first second : Envelope J) (db : Tables J C)
      → lookup s.session_id db.sessions ≡ none
      → session.status ≡ opened
      → session.last_sequence ≡ 2
      → first.sequence ≡ 1
      → second.sequence ≡ 2
      → Follows base db
      → Follows base (record_start node call s session first second db)
  unfolding record_start save_message enqueue_envelope local
  record_start-Follows session first second db fresh opened_now two n1 n2 h =
      let i = s.session_id in
      let m = message_of i first in
      let n = message_of i second in
      let w : Wrote i session (m ∷ n ∷ []) (lookup i db.agreements) db
          (record_start node call s session first second db) =
        record {
          sessions = refl;
          messages = append_two db.messages m n;
          seen = refl;
          own = λ t. said_by_two i m n t refl refl;
          agreement_own = refl;
          agreement_other = λ t _. refl;
        } in
      Follows-Wrote_steps base i _ _ _ db _ h w (
        subst (Steps (base.sessions i)) (started_local i session m n db n2 two) (
          then_step
            (then_step
              (subst
                (λ (o : Option (NegotiationSession J)). Steps (base.sessions i) (record {
                  session = o;
                  messages = keep (of_session i) db.messages;
                  agreement = lookup i db.agreements;
                }))
                fresh (h.0 i))
              (opens (with_sequence 1 session) m opened_now refl n1))
            (says (with_sequence 1 session) n (ap is_terminal opened_now) n2)))

  flush-Kept :
      (accepts : Envelope J → Bool)
      → Ensures (Kept base) (flush {C = C} node call s accepts) (λ _. Kept base) (Fallback base)
  unfolding flush
  flush-Kept accepts = record { at = flush_outbox-Kept base node accepts call.now }

  ensure_personal_agent-Shows :
      (known : Option (NegotiationSession J)) (i user_id new_id : ℕ)
      → Ensures
          (Shows {C = C} base i known)
          (ensure_personal_agent user_id new_id)
          (λ _. Shows base i known)
          (Fallback base)
  unfolding ensure_personal_agent local
  ensure_personal_agent-Shows known i user_id new_id =
      Ensures-read _ (λ db p. p.0.0)
        λ _.
          Ensures-read _ (λ db p. p.0.0.0)
            λ clone_id.
              Ensures-read _ (λ db p. p.0.0.0.0)
                λ own.
                  Ensures-option own
                    (λ _.
                      Ensures-bind
                        (Ensures-modify {Q = λ _. Shows base i known} (store_personal new_id _)
                          (λ db p. p.0.0.0))
                        λ _. Ensures-pure _ (λ db p. p))
                    (λ (j, personal) _.
                      Ensures-bind
                        (Ensures-modify {Q = λ _. Shows base i known} (store_personal j _)
                          (λ db p. p.0.0.0))
                        λ _. Ensures-pure _ (λ db p. p))

  start-Shows :
      (known : Option (NegotiationSession J)) (accepts : Envelope J → Bool)
      → Ensures
          (Shows {C = C} base s.session_id known)
          (start_remote_negotiation node call s accepts)
          (λ _. Kept base)
          (Fallback base)
  unfolding start_remote_negotiation opened_here local
  start-Shows known accepts =
      Ensures-lift _ (λ db p. p.0.0)
        λ domain _.
          Ensures-lift _ (λ db p. p.0.0)
            λ _ _.
              Ensures-read _ (λ db p. p.0.0)
                λ peer.
                  Ensures-lift _ (λ db p. p.0.0.0)
                    λ _ _.
                      Ensures-bind
                        (Ensures-weaken (λ db p. p.0) (λ _ db p. p) (λ db p. p)
                          (delegation_enabled-Shows base s.session_id known s.user_id _))
                        λ delegated.
                          Ensures-lift _ (λ db p. p.0.0)
                            λ _ _.
                              Ensures-bind (ensure_personal_agent-Shows known s.session_id _ _)
                                λ personal.
                                  Ensures-read _ (λ db p. p.0.0)
                                    λ clone.
                                      Ensures-bind
                                        (Ensures-weaken (λ db p. p.0) (λ _ db p. p) (λ db p. p)
                                          (ensure_device_node-Shows base s.session_id node known
                                            personal.0))
                                        λ device.
                                          Ensures-read _ (λ db p. p.0.0)
                                            λ timezone.
                                              Ensures-lift _ (λ db p. p.0.0.0)
                                                λ payload _.
                                                  Ensures-lift _ (λ db p. p.0.0.0)
                                                    λ position _.
                                                      Ensures-lift _ (λ db p. p.0.0.0)
                                                        λ delta _.
                                                          Ensures-read _ (λ db p. p.0.0.0)
                                                            λ absent.
                                                            Ensures-bind
                                                            (Ensures-modify
                                                            {Q = λ _ db. Follows base db.working} _
                                                            (λ db p.
                                                            record_start-Follows _ _ _ db.working
                                                            (fresh_only _ absent p.1) refl refl refl
                                                            refl p.0.0.0.1))
                                                            λ _.
                                                            Ensures-bind {M = λ _. Kept base}
                                                            (Ensures-commit (λ db p. (p, p)))
                                                            λ _.
                                                            Ensures-bind (flush-Kept accepts) λ _.
                                                            Ensures-bind {M = λ _. Kept base}
                                                            (Ensures-commit (λ db p. (p.1, p.1)))
                                                            λ _. Ensures-pure _ (λ db p. p)

  pub start_remote_negotiation-Kept :
      (accepts : Envelope J → Bool)
      → Ensures
          (Kept {C = C} base)
          (start_remote_negotiation node call s accepts)
          (λ _. Kept base)
          (Fallback base)
  start_remote_negotiation-Kept accepts = record {
    at = λ db p. (start-Shows (lookup s.session_id db.working.sessions) accepts).at db (p, refl);
  }
