-- ===== src/Policies.antt =====
-- services/local-core/enishi_core/services/policies.py: what an owner has delegated, and what needs the
-- owner's approval. A rule is a numbered text and a Boolean; one of the two policies is read and
-- written by the same functions, over its defaults. Both are always enabled.
mod Tests
use enishi.Prelude.{
  ℕ, ◌≡◌, refl, ◌∙◌, ap, Bool, Option, none, some, List, [], ◌∷◌, arith, ◌==◌, ==-refl,
  if◌then◌else◌, Option-cases, inl, inr,
}
use enishi.Prelude.Table.{Table, lookup, insert, lookup-insert}

abbrev pub Rules : Type 0
Rules = Table Bool

-- `policy.rules` of each user for one policy name.
abbrev pub Policies : Type 0
Policies = Table Rules

-- `d.update(e)`; a dict has a key once, so the order of the entries does not matter.
unfoldable pub update : Rules → Rules → Rules
update d [] = d
update d ((k, v) ∷ e) = insert k v (update d e)

abbrev pub or_rule : Option Bool → Bool → Bool
or_rule none default = default
or_rule (some b) default = b

abbrev or_else : Option Bool → Option Bool → Option Bool
or_else none other = other
or_else (some b) other = some b

module _ (defaults : Rules) where
  -- A policy that is read is stored, with what its defaults add.
  unfoldable pub get_policy : ℕ → Policies → Rules × Policies
  unfolding update lookup
  get_policy user_id db = elim (lookup user_id db) [
    | none ↦ (defaults, insert user_id defaults db)
    | some rules ↦ let merged = update defaults rules in (merged, insert user_id merged db)
  ]

  unfoldable pub put_policy : ℕ → Rules → Policies → Rules × Policies
  unfolding get_policy
  put_policy user_id rules db =
      let (_, db') = get_policy user_id db in
      let next = update defaults rules in (next, insert user_id next db')

  -- `approval_required` and `delegation_enabled`: `bool(rules.get(action, default))`.
  unfoldable pub rule_holds : ℕ → ℕ → Bool → Policies → Bool × Policies
  unfolding get_policy lookup
  rule_holds user_id action default db =
      let (rules, db') = get_policy user_id db in (or_rule (lookup action rules) default, db')

  lookup-update : (k : ℕ) (d e : Rules) → lookup k (update d e) ≡ or_else (lookup k e) (lookup k d)
  unfolding update lookup
  lookup-update k d [] = refl
  lookup-update k d ((j, v) ∷ e) =
      lookup-insert j k v (update d e) ∙ ground (arith, lookup-update k d e)

  lookup-put :
      (user_id : ℕ) (rules : Rules) (db : Policies)
      → lookup user_id (put_policy user_id rules db).1 ≡ some (update defaults rules)
  unfolding put_policy
  lookup-put user_id rules db =
      lookup-insert user_id user_id (update defaults rules) (get_policy user_id db).1
      ∙ rw (==-refl user_id) refl

  merged_rules :
      (user_id : ℕ) (rules : Rules) (db : Policies)
      → lookup user_id db ≡ some rules
      → (get_policy user_id db).0 ≡ update defaults rules
  unfolding get_policy
  merged_rules user_id rules db h = rw (h, get_policy) refl

  read_stored :
      (user_id action : ℕ) (default : Bool) (rules : Rules) (db : Policies)
      → lookup user_id db ≡ some rules
      → (rule_holds user_id action default db).0
        ≡ or_rule (lookup action (update defaults rules)) default
  unfolding rule_holds
  read_stored user_id action default rules db h =
      ap (λ found. or_rule (lookup action found) default) (merged_rules user_id rules db h)

  twice : (o d : Option Bool) → or_else (or_else o d) d ≡ or_else o d
  twice none none = refl
  twice none (some b) = refl
  twice (some b) d = refl

  -- After a policy is put, a rule that was given holds as it was given, another one as the policy's
  -- defaults say, and one that is in neither as the caller's default says.
  pub put_policy-rule_holds :
      (user_id action : ℕ) (default : Bool) (rules : Rules) (db : Policies)
      → (rule_holds user_id action default (put_policy user_id rules db).1).0
        ≡ or_rule (lookup action rules) (or_rule (lookup action defaults) default)
  put_policy-rule_holds user_id action default rules db =
      let given = lookup action rules in
      let usual = lookup action defaults in
      read_stored user_id action default (update defaults rules) _ (lookup-put user_id rules db)
      ∙ ap (λ o. or_rule o default)
          (lookup-update action defaults (update defaults rules)
            ∙ ap (λ o. or_else o usual) (lookup-update action defaults rules)
            ∙ twice given usual)
      ∙ flat given usual
    where
      flat : (o d : Option Bool) → or_rule (or_else o d) default ≡ or_rule o (or_rule d default)
      flat none d = refl
      flat (some b) d = refl
