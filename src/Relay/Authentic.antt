-- ===== src/Relay/Authentic.antt =====
-- Whom `require_agent` of services/relay/relay/main.py takes a caller for.
use Prim.Native.String.{String, len, slice, ◌++◌}
use text.Mathlib.Text.{starts_with}
use text.Mathlib.TextEquality.{eq_iff, starts_with_iff}
use text.Mathlib.TextPositions.{len-append, starts_with-append, slice-append_right}
use enishi.Prelude.{
  ℕ, ◌≡◌, ◌↔◌, refl, sym, ap, subst, ◌≢◌, none, Bool, ◌∙◌, true, false, Option, some, List, [], ◌∷◌,
  any, arith, Bool-cases, inl, inr, ◌⊎◌, ◌==◌, ==_iff, ==-refl,
}
use enishi.Relay.Answers.{answered, refused, unauthorized}
use enishi.Relay.Credentials.{
  Credentials, add_match, matching, only_one, authenticate, require_agent, same_text, bearer,
  provided_by,
}
use enishi.Relay.Delivery.{Has}

any-Has : (a : ℕ) (xs : List ℕ) → any (λ b. b == a) xs ≡ true → Has a xs
any-Has a [] h = cc
any-Has a (x ∷ xs) h = elim (Bool-cases (x == a)) [
  | inl same ↦ inl (sym ((==_iff x a).0 same))
  | inr other ↦ inr (any-Has a xs (rw other at h))
]

Has-any : (a : ℕ) (xs : List ℕ) → Has a xs → any (λ b. b == a) xs ≡ true
Has-any a [] h = absurd h
Has-any a (x ∷ xs) (inl e) = rw (← e, ==-refl a) refl
Has-any a (x ∷ xs) (inr h) = ground (arith, Has-any a xs h)

add_match-from : (a x : ℕ) (m : List ℕ) → Has x (add_match a m) → (x ≡ a) ⊎ Has x m
add_match-from a x m h = elim (Bool-cases (any (λ b. b == a) m)) [
  | inl old ↦ inr (rw (old, add_match) at h)
  | inr new ↦ rw (new, add_match) at h
]

add_match-into : (a x : ℕ) (m : List ℕ) → (x ≡ a) ⊎ Has x m → Has x (add_match a m)
add_match-into a x m h = elim (Bool-cases (any (λ b. b == a) m)) [
  | inl old ↦ rw (old, add_match) (elim h [ inl e ↦ rw e (any-Has a m old) | inr there ↦ there ])
  | inr new ↦ rw (new, add_match) h
]

matching-from :
    (p : String) (x : ℕ) (l : List (ℕ × String)) (m : List ℕ)
    → Has x (matching p l m)
    → Has (x, p) l ⊎ Has x m
unfolding matching
matching-from p x [] m h = inr h
matching-from p x ((a, t) ∷ l) m h = elim (Bool-cases (same_text p t)) [
  | inl same ↦ elim (matching-from p x l (add_match a m) (rw same at h)) [
    | inl later ↦ inl (inr later)
    | inr found ↦ elim (add_match-from a x m found) [
      | inl e ↦ inl (inl (rw (e, (eq_iff p t).0 same) refl))
      | inr there ↦ inr there
    ]
  ]
  | inr other ↦ elim (matching-from p x l m (rw other at h)) [
    | inl later ↦ inl (inr later)
    | inr there ↦ inr there
  ]
]

matching-into :
    (p : String) (x : ℕ) (l : List (ℕ × String)) (m : List ℕ)
    → Has (x, p) l ⊎ Has x m
    → Has x (matching p l m)
unfolding matching
matching-into p x [] m (inl none_here) = absurd none_here
matching-into p x [] m (inr h) = h
matching-into p x ((a, t) ∷ l) m (inl (inl e)) =
    let agent : x ≡ a = ap (λ (q : ℕ × String). q.0) e in
    let token : p ≡ t = ap (λ (q : ℕ × String). q.1) e in
    rw ((eq_iff p t).1 token)
      (matching-into p x l (add_match a m) (inr (add_match-into a x m (inl agent))))
matching-into p x ((a, t) ∷ l) m (inl (inr h)) = elim (Bool-cases (same_text p t)) [
  | inl same ↦ rw same (matching-into p x l (add_match a m) (inl h))
  | inr other ↦ rw other (matching-into p x l m (inl h))
]
matching-into p x ((a, t) ∷ l) m (inr h) = elim (Bool-cases (same_text p t)) [
  | inl same ↦ rw same (matching-into p x l (add_match a m) (inr (add_match-into a x m (inr h))))
  | inr other ↦ rw other (matching-into p x l m (inr h))
]

abbrev Unrepeated : List ℕ → Type 0
Unrepeated [] = Unit
Unrepeated (x ∷ xs) = (any (λ b. b == x) xs ≡ false) × Unrepeated xs

matching-Unrepeated :
    (p : String) (l : List (ℕ × String)) (m : List ℕ) → Unrepeated m → Unrepeated (matching p l m)
unfolding matching
matching-Unrepeated p [] m h = h
matching-Unrepeated p ((a, t) ∷ l) m h = elim (Bool-cases (same_text p t)) [
  | inr other ↦ rw other (matching-Unrepeated p l m h)
  | inl same ↦ elim (Bool-cases (any (λ b. b == a) m)) [
    | inl old ↦ rw (same, old, add_match) (matching-Unrepeated p l m h)
    | inr new ↦ rw (same, new, add_match) (matching-Unrepeated p l (a ∷ m) (new, h))
  ]
]

some_number : {x a : ℕ} → Option.some x ≡ some a → x ≡ a
some_number h = cc

-- A list without repetition in which everything is one number has that number alone.
only_one_exact :
    (xs : List ℕ) (a : ℕ)
    → Unrepeated xs
    → (only_one xs ≡ some a) ↔ (Has a xs × ((b : ℕ) → Has b xs → b ≡ a))
only_one_exact [] a h = (λ e. cc, λ (there, _). absurd there)
only_one_exact (x ∷ []) a h = (
  λ e.
      let same : x ≡ a = some_number e in
      (inl (sym same), λ b h'. elim h' [ inl q ↦ q ∙ same | inr no_more ↦ absurd no_more ]),
  λ (there, all). ap some (all x (inl refl)),
)
only_one_exact (x ∷ y ∷ xs) a (new, h) = (
  λ e. cc,
  λ (there, all).
      let twice = all x (inl refl) ∙ sym (all y (inr (inl refl))) in
      let clash = sym (Has-any x (y ∷ xs) (inl twice)) ∙ new in cc clash,
)

slice-bearer :
    (token : String) → slice (bearer ++ token) (len bearer) (len (bearer ++ token)) ≡ token
slice-bearer token =
    ap (λ n. slice (bearer ++ token) (len bearer) n) (len-append bearer token)
    ∙ slice-append_right bearer token

provided_by-bearer : (token : String) → provided_by (some (bearer ++ token)) ≡ token
provided_by-bearer token = rw (starts_with-append bearer token) (slice-bearer token)

-- A header that gives a token is "Bearer " and that token.
provided_by_exact :
    (authorization : Option String)
    → same_text (provided_by authorization) "" ≡ false
    → authorization ≡ some (bearer ++ provided_by authorization)
provided_by_exact none h = cc
provided_by_exact (some text) h = elim (Bool-cases (starts_with text bearer)) [
  | inl starts ↦
      let (token, e) = (starts_with_iff text bearer).0 starts in
      let back : Option.some (bearer ++ token)
          ≡ some (bearer ++ provided_by (some (bearer ++ token))) =
        ap (λ t. some (bearer ++ t)) (sym (provided_by-bearer token)) in
      subst (λ t. Option.some t ≡ some (bearer ++ provided_by (some t))) e back
  | inr other ↦ let no : Bool.true ≡ false = rw other at h in cc
]

not_empty : (token : String) → same_text token "" ≡ false → token ≢ ""
not_empty token h e = let clash = sym h ∙ (eq_iff token "").1 e in cc

is_not_empty : (token : String) → token ≢ "" → same_text token "" ≡ false
is_not_empty token h = elim (Bool-cases (same_text token "")) [
  | inl e ↦ absurd (h ((eq_iff token "").0 e))
  | inr e ↦ e
]

module _ (sha256 : String → String) (c : Credentials) where
  -- The agent's credential is the token, in clear or by its hash.
  abbrev pub Owns : ℕ → String → Type 0
  Owns agent token = Has (agent, token) c.plaintext ⊎ Has (agent, sha256 token) c.hashed

  abbrev matches : String → List ℕ
  matches token = matching (sha256 token) c.hashed (matching token c.plaintext [])

  matches-from : (a : ℕ) (token : String) → Has a (matches token) → Owns a token
  matches-from a token h =
      elim (matching-from (sha256 token) a c.hashed (matching token c.plaintext []) h) [
        | inl hashed ↦ inr hashed
        | inr earlier ↦ elim (matching-from token a c.plaintext [] earlier) [
          | inl plain ↦ inl plain
          | inr none_here ↦ absurd none_here
        ]
      ]

  matches-into : (a : ℕ) (token : String) → Owns a token → Has a (matches token)
  matches-into a token (inl plain) =
      matching-into (sha256 token) a c.hashed _
        (inr (matching-into token a c.plaintext [] (inl plain)))
  matches-into a token (inr hashed) = matching-into (sha256 token) a c.hashed _ (inl hashed)

  abbrev Found : ℕ → String → Type 0
  Found a provided = (same_text provided "" ≡ false) × (only_one (matches provided) ≡ some a)

  authenticate-only_one :
      (provided : String) (a : ℕ)
      → ((elim (authenticate sha256 c provided) [
        | none ↦ refused unauthorized
        | some b ↦ answered b
      ])
          ≡ answered a)
        ↔ Found a provided
  unfolding authenticate
  authenticate-only_one provided a = ground arith

  -- The token is the agent's, and no other agent's.
  abbrev pub Proves : ℕ → String → Type 0
  Proves a token = Owns a token × ((b : ℕ) → Owns b token → b ≡ a)

  only_one-Proves : (a : ℕ) (token : String) → (only_one (matches token) ≡ some a) ↔ Proves a token
  only_one-Proves a token =
      let unrepeated =
        matching-Unrepeated (sha256 token) c.hashed (matching token c.plaintext [])
          (matching-Unrepeated token c.plaintext [] tt) in
      let one = only_one_exact (matches token) a unrepeated in
      (
        λ found.
            let (there, all) = one.0 found in
            (matches-from a token there, λ b own. all b (matches-into b token own)),
        λ (own, all).
            one.1 (matches-into a token own, λ b there. all b (matches-from b token there)),
      )

  -- A request is taken for an agent's exactly when it has an Authorization header, that header is
  -- "Bearer " and a token that is not empty, the token is that agent's in clear or by its hash, and it
  -- is no other agent's.
  pub require_agent_exact :
      (authorization : Option String) (a : ℕ)
      → (require_agent sha256 c authorization ≡ answered a) ↔ (
          (token : String) × (authorization ≡ some (bearer ++ token))
          × (token ≢ "")
          × Proves a token)
  unfolding require_agent
  require_agent_exact authorization a =
      let request = authenticate-only_one (provided_by authorization) a in
      (
        λ h.
            let (given, found) = request.0 h in
            (
              provided_by authorization,
              provided_by_exact authorization given,
              not_empty _ given,
              (only_one-Proves a (provided_by authorization)).0 found,
            ),
        λ (token, header, given, proved).
            let same = ap provided_by header ∙ provided_by-bearer token in
            request.1 (
              subst (Found a) (sym same)
                (is_not_empty token given, (only_one-Proves a token).1 proved)),
      )
