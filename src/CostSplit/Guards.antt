-- ===== src/CostSplit/Guards.antt =====
-- `evaluate_common_guards` of services/local-core/enishi_core/domains/common.py: delegation,
-- confidence and relationship, which every domain asks before it decides by itself.
use enishi.Prelude.{ℕ, Bool, false, Option, some, List, [], ◌∷◌, ◌++◌, if◌then◌else◌}
use enishi.CostSplit.Amounts
use enishi.CostSplit.Amounts.{Amounts}
use enishi.CostSplit.Types.{
  ReasonCode, clone_confidence_below_threshold, relationship_requires_approval, CloneAgent,
}

pub record CommonGuardResult (A : Type 0) : Type 0 where
  pub confidence : A
  pub pre_reason_codes : List ReasonCode
  pub post_reason_codes : List ReasonCode

module _ (num : Amounts) where
  open num use {Amount, le, decimal}

  abbrev pub confidence_threshold : Amount
  confidence_threshold = decimal 6 1

  -- `max(0.0, min(1.0, float(clone.confidence_score)))`
  abbrev pub clamped_confidence : CloneAgent Amount → Amount
  clamped_confidence clone =
      Amounts.max num (decimal 0 0) (Amounts.min num (decimal 1 0) clone.confidence_score)

  abbrev relationship_codes : Option Bool → List ReasonCode
  relationship_codes (some false) = relationship_requires_approval ∷ []
  relationship_codes _ = []

  unfoldable pub evaluate_common_guards :
      CloneAgent Amount → Bool → ℕ → ReasonCode → CommonGuardResult Amount
  evaluate_common_guards clone delegation_enabled peer_personal_agent_id not_delegated =
      let confidence = clamped_confidence clone in
      let undelegated : List ReasonCode = if delegation_enabled then [] else not_delegated ∷ [] in
      let unsure : List ReasonCode =
        if le confidence_threshold confidence then [] else clone_confidence_below_threshold ∷ [] in
      record {
        confidence = confidence;
        pre_reason_codes = undelegated ++ unsure;
        post_reason_codes = relationship_codes (clone.relationships peer_personal_agent_id);
      }

  -- `[*guard.pre_reason_codes, *guard.post_reason_codes]`
  abbrev pub guard_codes : CommonGuardResult Amount → List ReasonCode
  guard_codes guard = guard.pre_reason_codes ++ guard.post_reason_codes
