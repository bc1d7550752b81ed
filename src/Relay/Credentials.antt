-- ===== src/Relay/Credentials.antt =====
-- `RelaySettings.authenticate` and `known_agents` of services/relay/relay/config.py, and
-- `require_agent` of main.py. `sha256`, of a token to the digest's text, is a parameter, as a library's
-- function.
use Prim.Native.String.{String, len, slice}
use text.Mathlib.Text
use text.Mathlib.Text.{starts_with}
use enishi.Prelude.{ℕ, Option, none, some, List, [], ◌∷◌, ◌++◌, any, ◌==◌, Bool, if◌then◌else◌}
use enishi.Relay.Answers.{Answer, answered, refused, unauthorized}

-- `plaintext_credentials()` and `hashed_credentials()`: an agent and its token, or its hash.
pub record Credentials : Type 0 where
  pub plaintext : List (ℕ × String)
  pub hashed : List (ℕ × String)

-- `matches.add(agent_id)` on a set, in the order of the first additions.
abbrev pub add_match : ℕ → List ℕ → List ℕ
add_match a matches = if any (λ b. b == a) matches then matches else a ∷ matches

abbrev pub same_text : String → String → Bool
same_text s t = Text.◌==◌ s t

unfoldable pub matching : String → List (ℕ × String) → List ℕ → List ℕ
matching provided [] matches = matches
matching provided ((agent, token) ∷ rest) matches =
    let next = if same_text provided token then add_match agent matches else matches in
    matching provided rest next

abbrev pub only_one : List ℕ → Option ℕ
only_one (a ∷ []) = some a
only_one _ = none

abbrev pub bearer : String
bearer = "Bearer "

-- `authorization.startswith("Bearer ")` and `authorization.removeprefix("Bearer ")`; what has no token
-- gives the empty text.
abbrev pub provided_by : Option String → String
provided_by none = ""
provided_by (some authorization) =
    if starts_with authorization bearer
    then slice authorization (len bearer) (len authorization)
    else ""

module _ (sha256 : String → String) (c : Credentials) where
  unfoldable pub authenticate : String → Option ℕ
  unfolding matching
  authenticate provided =
      if same_text provided ""
      then none
      else only_one (matching (sha256 provided) c.hashed (matching provided c.plaintext []))

  unfoldable pub known_agents : List ℕ
  known_agents = agents (c.plaintext ++ c.hashed)
    where
      agents : List (ℕ × String) → List ℕ
      agents [] = []
      agents ((a, t) ∷ rest) = a ∷ agents rest

  -- The dependency of the routes, on the request's `Authorization` header.
  unfoldable pub require_agent : Option String → Answer ℕ
  unfolding authenticate
  require_agent authorization = elim (authenticate (provided_by authorization)) [
    | none ↦ refused unauthorized
    | some a ↦ answered a
  ]
