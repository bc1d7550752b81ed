-- ===== src/Remote/Personal.antt =====
-- `ensure_personal_agent` of services/agent_requests.py: the agent that stands for an owner, made when
-- it is first needed, and kept on the owner's active clone.
use enishi.Prelude.{ℕ, Option, none, some, [], ◌∷◌, ◌==◌, if◌then◌else◌}
use enishi.Prelude.Table.{Table, lookup, insert}
use enishi.Errors.{ok, user_not_found}
use enishi.Exec.{Exec, pure, read, modify, ◌>>=◌, ◌>>◌, found}
use enishi.Remote.Types.{PersonalAgent, CloneAgent, Tables}
use enishi.Remote.Guards.{latest_clone}

unfoldable pub personal_of : ℕ → Table PersonalAgent → Option (ℕ × PersonalAgent)
personal_of user_id [] = none
personal_of user_id ((i, personal) ∷ personals) =
    let rest = personal_of user_id personals in
    if personal.user_id == user_id then some (i, personal) else rest

abbrev pub clone_id_of : {C : Type 0} → Option (ℕ × CloneAgent C) → Option ℕ
clone_id_of none = none
clone_id_of (some (i, clone)) = some i

-- The agent with the active clone, if there is one.
abbrev pub with_clone : Option ℕ → PersonalAgent → PersonalAgent
with_clone none personal = personal
with_clone (some i) personal = record personal { active_clone_id = some i }

module _ {J C : Type 0} where
  abbrev pub store_personal : ℕ → PersonalAgent → Tables J C → Tables J C
  store_personal i personal db = record db { personals = insert i personal db.personals }

  unfoldable pub ensure_personal_agent : ℕ → ℕ → Exec (Tables J C) (ℕ × PersonalAgent)
  unfolding lookup insert latest_clone personal_of
  ensure_personal_agent user_id new_id = do
    _ ← read (λ db. found user_not_found (lookup user_id db.users))
    clone_id ← read (λ db. ok (clone_id_of (latest_clone (some user_id) db.clones)))
    known ← read (λ db. ok (personal_of user_id db.personals))
    elim known [
      | none ↦ do
        modify (store_personal new_id (record { user_id = user_id; active_clone_id = clone_id }))
        pure (new_id, record { user_id = user_id; active_clone_id = clone_id })
      | some (i, personal) ↦ do
        modify (store_personal i (with_clone clone_id personal))
        pure (i, with_clone clone_id personal)
    ]
