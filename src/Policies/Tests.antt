-- ===== src/Policies/Tests.antt =====
-- A policy of services/local-core/enishi_core/services/policies.py that is put and read.
use enishi.Prelude.{◌≡◌, true, false, [], ◌∷◌}
use enishi.Prelude.Table.{lookup}
use enishi.Policies.{Rules, put_policy, rule_holds, put_policy-rule_holds}

-- The first action is delegated by default, the second is not.
abbrev usual_rules : Rules
usual_rules = (1, true) ∷ (2, false) ∷ []

put_policy-rule_holds_example :
    (rule_holds usual_rules 5 1 true (put_policy usual_rules 5 ((2, true) ∷ []) []).1).0 ≡ true
unfolding lookup
put_policy-rule_holds_example = put_policy-rule_holds usual_rules 5 1 true ((2, true) ∷ []) []
