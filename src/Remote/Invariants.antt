-- ===== src/Remote/Invariants.antt =====
-- What holds of every session of services/remote_negotiation.py that has come by steps of the abstract
-- session: its messages are numbered without gaps, it has an agreement exactly when it is agreed, and
-- one that is over stays as it is.
use enishi.Prelude.{
  ℕ, zero, suc, ◌+◌, ◌≡◌, refl, sym, ap, ◌∙◌, Bool, true, false, Option, none, some, List, [], ◌∷◌,
  ◌++◌, is_some, arith,
}
use enishi.Protocol.{
  NegotiationStatus, opened, waiting_approval, agreed, failed, is_terminal, ◌is_status◌,
}
use enishi.Remote.Types.{NegotiationSession, NegotiationMessage}
use enishi.Remote.Machine.{Local, Step, opens, says, turns, agrees, Steps, stays, then_step}

-- 1, 2, ..., n
abbrev pub upto : ℕ → List ℕ
upto zero = []
upto (suc n) = upto n ++ suc n ∷ []

pub not_agreed :
    (status : NegotiationStatus) → is_terminal status ≡ false → (status is_status agreed) ≡ false
not_agreed opened h = refl
not_agreed waiting_approval h = refl
not_agreed agreed h = cc
not_agreed failed h = refl

module _ {J : Type 0} where
  abbrev pub numbers : List (NegotiationMessage J) → List ℕ
  numbers [] = []
  numbers (m ∷ ms) = m.sequence ∷ numbers ms

  abbrev pub last_of : Option (NegotiationSession J) → ℕ
  last_of none = 0
  last_of (some session) = session.last_sequence

  abbrev pub is_agreed : Option (NegotiationSession J) → Bool
  is_agreed none = false
  is_agreed (some session) = session.status is_status agreed

  abbrev pub is_over : Option (NegotiationSession J) → Bool
  is_over none = false
  is_over (some session) = is_terminal session.status

  -- A session in order.
  pub record InOrder (l : Local J) : Type 0 where
    pub numbered : numbers l.messages ≡ upto (last_of l.session)
    pub recorded : is_some l.agreement ≡ is_agreed l.session

  abbrev pub nothing : Local J
  nothing = record { session = none; messages = []; agreement = none }

  pub nothing-InOrder : InOrder nothing
  nothing-InOrder = record { numbered = refl; recorded = refl }

  numbers-append :
      (ms : List (NegotiationMessage J)) (m : NegotiationMessage J)
      → numbers (ms ++ m ∷ []) ≡ numbers ms ++ m.sequence ∷ []
  numbers-append [] m = refl
  numbers-append (n ∷ ms) m = ap (λ l. n.sequence ∷ l) (numbers-append ms m)

  -- The next number, after all that are there.
  numbers-next :
      (ms : List (NegotiationMessage J)) (m : NegotiationMessage J) (n : ℕ)
      → numbers ms ≡ upto n
      → m.sequence ≡ n + 1
      → numbers (ms ++ m ∷ []) ≡ upto m.sequence
  numbers-next ms m n h next =
      let ends : m.sequence ≡ suc n = next ∙ omega arith in
      numbers-append ms m
      ∙ ap (λ l. l ++ m.sequence ∷ []) h
      ∙ ap (λ k. upto n ++ k ∷ []) ends
      ∙ sym (ap upto ends)

  Step-InOrder : {l m : Local J} → Step l m → InOrder l → InOrder m
  Step-InOrder (opens row m status first number) k = record {
    numbered = numbers-next _ m 0 k.numbered number ∙ ap upto (number ∙ sym first);
    recorded = k.recorded ∙ ap (λ st. st is_status agreed) (sym status);
  }
  Step-InOrder (says row m open_yet number) k = record {
    numbered = numbers-next _ m row.last_sequence k.numbered number;
    recorded = k.recorded;
  }
  Step-InOrder (turns row next open_yet other same) k = record {
    numbered = k.numbered ∙ ap upto (sym same.sequence);
    recorded = k.recorded ∙ not_agreed row.status open_yet ∙ sym other;
  }
  Step-InOrder (agrees row next agreement open_yet done same) k = record {
    numbered = k.numbered ∙ ap upto (sym same.sequence);
    recorded = ap (λ st. st is_status agreed) (sym done);
  }

  pub Steps-InOrder : {l m : Local J} → Steps l m → InOrder l → InOrder m
  Steps-InOrder stays k = k
  Steps-InOrder (then_step steps step) k = Step-InOrder step (Steps-InOrder steps k)

  Step-over : {l m : Local J} → Step l m → is_over l.session ≡ false
  Step-over (opens row m status first number) = refl
  Step-over (says row m open_yet number) = open_yet
  Step-over (turns row next open_yet other same) = open_yet
  Step-over (agrees row next agreement open_yet done same) = open_yet

  -- No step leads on from a session that is over.
  pub Steps-over : {l m : Local J} → Steps l m → is_over l.session ≡ true → m ≡ l
  Steps-over stays h = refl
  Steps-over {l} (then_step steps step) h =
      let before = Steps-over steps h in
      let open_yet = Step-over step in
      let over = ap (λ (k : Local J). is_over k.session) before ∙ h in cc
