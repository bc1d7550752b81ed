-- ===== src/Remote/Locals.antt =====
-- What each write of services/remote_negotiation.py does to the session that it is about, and that it
-- does nothing to any other.
use enishi.Prelude.{
  ℕ, ◌≡◌, refl, sym, ap, subst, ◌∙◌, Bool, true, false, Option, some, List, [], ◌∷◌, ◌++◌, keep,
  keep-append, arith, ◌==◌, ==-refl, ==_iff, ++-nil, if◌then◌else◌, Bool-cases, inl, inr,
}
use enishi.Prelude.Table.{lookup, insert, lookup-insert}
use enishi.Remote.Types.{Envelope, NegotiationSession, NegotiationMessage, Agreement, Tables}
use enishi.Remote.Messages.{of_session, with_sequence, update_session}
use enishi.Remote.Machine.{Base, Step, Steps, then_step, local, Follows}

pub if_same : {A : Type 0} {x : A} (b : Bool) → x ≡ (if b then x else x)
if_same true = refl
if_same false = refl

module _ {J : Type 0} where
  abbrev pub message_of : ℕ → Envelope J → NegotiationMessage J
  message_of s e = record {
    session_id = s;
    sequence = e.sequence;
    sender_agent_id = e.sender_agent_id;
    receiver_agent_id = e.receiver_agent_id;
    message_type = e.message_type;
    intent = e.intent;
    payload = e.payload;
    delta = e.delta;
    requires_human_approval = e.requires_human_approval;
  }

  pub said_by :
      (s : ℕ) (m : NegotiationMessage J) (t : ℕ)
      → m.session_id ≡ s
      → keep (of_session t) (m ∷ []) ≡ (if s == t then m ∷ [] else [])
  said_by s m t h = ground (arith, h)

  told_own :
      (s : ℕ) (ms said : List (NegotiationMessage J))
      → keep (of_session s) said ≡ (if s == s then said else [])
      → keep (of_session s) (ms ++ said) ≡ keep (of_session s) ms ++ said
  told_own s ms said own =
      keep-append (of_session s) ms said
      ∙ ap (λ l. keep (of_session s) ms ++ l) (own ∙ rw (==-refl s) refl)

  told_other :
      (s t : ℕ) (ms said : List (NegotiationMessage J))
      → (s == t) ≡ false
      → keep (of_session t) said ≡ (if s == t then said else [])
      → keep (of_session t) (ms ++ said) ≡ keep (of_session t) ms
  told_other s t ms said e own =
      keep-append (of_session t) ms said
      ∙ ap (λ l. keep (of_session t) ms ++ l) (own ∙ rw e refl)
      ∙ ++-nil _

module _ {J C : Type 0} where
  -- A session that is found is changed in place.
  pub update_session_found :
      (s : ℕ) (f : NegotiationSession J → NegotiationSession J) (row : NegotiationSession J)
      (db : Tables J C)
      → lookup s db.sessions ≡ some row
      → update_session s f db ≡ record db { sessions = insert s (f row) db.sessions }
  unfolding update_session
  update_session_found s f row db h = rw (h, update_session) refl

  -- What a write of one session has changed: its row, the messages that were added, and perhaps its
  -- agreement.
  pub record Wrote (s : ℕ) (row : NegotiationSession J) (said : List (NegotiationMessage J))
      (agreement : Option (Agreement J)) (db db' : Tables J C) : Type 0 where
    pub sessions : db'.sessions ≡ insert s row db.sessions
    pub messages : db'.messages ≡ db.messages ++ said
    pub seen : db'.seen ≡ db.seen
    pub own : (t : ℕ) → keep (of_session t) said ≡ (if s == t then said else [])
    pub agreement_own : lookup s db'.agreements ≡ agreement
    pub agreement_other :
        (t : ℕ) → (s == t) ≡ false → lookup t db'.agreements ≡ lookup t db.agreements

  local-Wrote :
      (s : ℕ) (row : NegotiationSession J) (said : List (NegotiationMessage J))
      (agreement : Option (Agreement J)) (db db' : Tables J C)
      → Wrote s row said agreement db db'
      → local s db' ≡ record {
        session = some row;
        messages = keep (of_session s) db.messages ++ said;
        agreement = agreement;
      }
  unfolding local
  local-Wrote s row said agreement db db' w =
      rw
        (
          w.sessions,
          w.messages,
          w.agreement_own,
          lookup-insert s s row db.sessions,
          ==-refl s,
          told_own s db.messages said (w.own s),
        )
        refl

  local-Wrote_other :
      (s t : ℕ) (row : NegotiationSession J) (said : List (NegotiationMessage J))
      (agreement : Option (Agreement J)) (db db' : Tables J C)
      → (s == t) ≡ false
      → Wrote s row said agreement db db'
      → local t db' ≡ local t db
  unfolding local
  local-Wrote_other s t row said agreement db db' e w =
      rw
        (
          w.sessions,
          w.messages,
          w.agreement_other t e,
          lookup-insert s t row db.sessions,
          e,
          told_other s t db.messages said e (w.own t),
        )
        refl

  -- Steps of one session, where the others stay as they are.
  pub Follows-Wrote_steps :
      (base : Base J) (s : ℕ) (row : NegotiationSession J) (said : List (NegotiationMessage J))
      (agreement : Option (Agreement J)) (db db' : Tables J C)
      → Follows base db
      → Wrote s row said agreement db db'
      → Steps (base.sessions s) (record {
        session = some row;
        messages = keep (of_session s) db.messages ++ said;
        agreement = agreement;
      })
      → Follows base db'
  Follows-Wrote_steps base s row said agreement db db' h w steps = (
    λ t. elim (Bool-cases (s == t)) [
      | inl e ↦
          subst (λ i. Steps (base.sessions i) (local i db')) ((==_iff s t).0 e)
            (subst (λ l. Steps (base.sessions s) l)
              (sym (local-Wrote s row said agreement db db' w)) steps)
      | inr e ↦
          subst (λ l. Steps (base.sessions t) l)
            (sym (local-Wrote_other s t row said agreement db db' e w)) (h.0 t)
    ],
    subst base.seen (sym w.seen) h.1,
  )

  pub Follows-Wrote :
      (base : Base J) (s : ℕ) (row : NegotiationSession J) (said : List (NegotiationMessage J))
      (agreement : Option (Agreement J)) (db db' : Tables J C)
      → Follows base db
      → Wrote s row said agreement db db'
      → Step (local s db) (record {
        session = some row;
        messages = keep (of_session s) db.messages ++ said;
        agreement = agreement;
      })
      → Follows base db'
  Follows-Wrote base s row said agreement db db' h w step =
      Follows-Wrote_steps base s row said agreement db db' h w (then_step (h.0 s) step)

  -- A session that is changed, in tables that differ only in what no session shows.
  pub Wrote-update :
      (s : ℕ) (f : NegotiationSession J → NegotiationSession J) (row : NegotiationSession J)
      (db db1 : Tables J C)
      → lookup s db.sessions ≡ some row
      → db1.sessions ≡ db.sessions
      → db1.messages ≡ db.messages ++ []
      → db1.agreements ≡ db.agreements
      → db1.seen ≡ db.seen
      → Wrote s (f row) [] (lookup s db.agreements) db (update_session s f db1)
  Wrote-update s f row db db1 found same_sessions same_messages same_agreements same_seen =
      let e = update_session_found s f row db1 (ap (lookup s) same_sessions ∙ found) in
      record {
        sessions = ap (λ T. T.sessions) e ∙ ap (insert s (f row)) same_sessions;
        messages = ap (λ T. T.messages) e ∙ same_messages;
        seen = ap (λ T. T.seen) e ∙ same_seen;
        own = λ t. if_same (s == t);
        agreement_own = ap (λ T. lookup s T.agreements) e ∙ ap (lookup s) same_agreements;
        agreement_other = λ t _. ap (λ T. lookup t T.agreements) e ∙ ap (lookup t) same_agreements;
      }

  pub Wrote-message :
      (s : ℕ) (e : Envelope J) (row : NegotiationSession J) (db db1 : Tables J C)
      → lookup s db.sessions ≡ some row
      → db1.sessions ≡ db.sessions
      → db1.messages ≡ db.messages ++ message_of s e ∷ []
      → db1.agreements ≡ db.agreements
      → db1.seen ≡ db.seen
      → Wrote s
          (with_sequence e.sequence row)
          (message_of s e ∷ [])
          (lookup s db.agreements)
          db
          (update_session s (with_sequence e.sequence) db1)
  Wrote-message s m row db db1 found same_sessions added same_agreements same_seen =
      let f = with_sequence {J = J} m.sequence in
      let e = update_session_found s f row db1 (ap (lookup s) same_sessions ∙ found) in
      record {
        sessions = ap (λ T. T.sessions) e ∙ ap (insert s (f row)) same_sessions;
        messages = ap (λ T. T.messages) e ∙ added;
        seen = ap (λ T. T.seen) e ∙ same_seen;
        own = λ t. said_by s (message_of s m) t refl;
        agreement_own = ap (λ T. lookup s T.agreements) e ∙ ap (lookup s) same_agreements;
        agreement_other = λ t _. ap (λ T. lookup t T.agreements) e ∙ ap (lookup t) same_agreements;
      }

  pub lookup-update_session :
      (s : ℕ) (f : NegotiationSession J → NegotiationSession J) (row : NegotiationSession J)
      (db : Tables J C)
      → lookup s db.sessions ≡ some row
      → lookup s (update_session s f db).sessions ≡ some (f row)
  lookup-update_session s f row db h =
      ap (λ T. lookup s T.sessions) (update_session_found s f row db h)
      ∙ lookup-insert s s (f row) db.sessions
      ∙ rw (==-refl s) refl
