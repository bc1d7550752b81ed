-- ===== src/CostSplit/Settlement.antt =====
-- How `run_cost_split_negotiation` of domains/cost_split.py ends: always with a decision, and with
-- an agreed amount only inside what both owners allow.
use enishi.Prelude.{ℕ, ◌≡◌, true, some, ◌≤◌, length}
use enishi.Errors.{ok}
use enishi.CostSplit.Amounts.{Amounts}
use enishi.CostSplit.Types.{CloneAgent, CostSplitRequest, Negotiation}
use enishi.CostSplit.Strategy.{reservation, floor}
use enishi.CostSplit.Driver.{
  World, Parties, negotiate, require_active_clone, run_cost_split_negotiation,
}
use enishi.CostSplit.Rounds.{Settled, RunEnds-ok, negotiate-RunEnds}

module _ (num : Amounts) (w : World num.Amount) (request : CostSplitRequest num.Amount)
    (i r : CloneAgent num.Amount)
    (has_initiator : w.active_clone request.initiator_user_id ≡ some i)
    (has_responder : w.active_clone request.responder_user_id ≡ some r) where
  open num use {Amount, le, round2, decimal}

  abbrev pub parties : Parties Amount
  parties = record { initiator_clone = i; responder_clone = r; request = request }

  found_clone :
      (user_id : ℕ) {c : CloneAgent Amount}
      → w.active_clone user_id ≡ some c
      → require_active_clone w user_id ≡ ok c
  unfolding require_active_clone
  found_clone user_id h = rw (h, require_active_clone)

  pub run-negotiate : run_cost_split_negotiation num w request ≡ negotiate num w parties
  unfolding run_cost_split_negotiation
  run-negotiate = rw (found_clone _ has_initiator, found_clone _ has_responder)

  -- If both users have an active clone and the total is not negative, the negotiation returns, with
  -- no exception and with four messages at most, and the session is settled: agreed on an amount that
  -- is at least the initiator's floor and at most the responder's reservation; or waiting for an
  -- approval that has been created; or failed. An agreement is stored only in the first case and an
  -- approval only in the second; the session is never left open.
  pub run_cost_split_negotiation-Settled :
      le (decimal 0 0) request.total_amount ≡ true
      → (n : Negotiation Amount) × (run_cost_split_negotiation num w request ≡ ok n)
        × Settled le
            (floor num i request.total_amount (round2 request.proposed_share))
            (reservation num r request.total_amount)
            n
        × (length n.messages ≤ 4)
  run_cost_split_negotiation-Settled positive =
      rw run-negotiate
        (RunEnds-ok num w parties positive _ (negotiate-RunEnds num w parties positive))
