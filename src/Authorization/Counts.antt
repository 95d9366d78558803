-- ===== src/Authorization/Counts.antt =====
-- How many roles of a policy the visits of validate (packages/authorization/src/policy.ts) have seen.
use structure.Prelude.{
  String, ℕ, Bool, Option, Dict, List, [], ◌∷◌, some, none, true, false, ◌==◌, not, lookup, insert,
  has, includes, map, length, filter, ◌≡◌, ap, ◌∙◌, ◌<◌, ◌≤◌, arith, lookup-insert, text_equality,
  Bool-cases, inl, inr, lookup-insert_self,
}
use structure.Authorization.Policy.{PolicyDefinition, RoleDefinition}
use structure.Authorization.Validation.{Visit, visiting, done, role_names}

module _ {A : Type 0} (p q : A → Bool) (weaker : (a : A) → p a ≡ true → q a ≡ true) where
  filter-le : (xs : List A) → length (filter p xs) ≤ length (filter q xs)
  filter-le [] = omega arith
  filter-le (x ∷ xs) = ground (arith, filter-le xs, weaker x)

-- One name more passes the second test.
module _ (p q : String → Bool) (weaker : (a : String) → p a ≡ true → q a ≡ true) (name : String)
    (out : p name ≡ false) (in_ : q name ≡ true) where
  filter-lt :
      (xs : List String) → includes name xs ≡ true → length (filter p xs) < length (filter q xs)
  filter-lt [] h = absurd (ground arith)
  filter-lt (x ∷ xs) h = elim (Bool-cases (x == name)) [
    | inl same ↦
        let e : x ≡ name = (text_equality.same_iff x name).0 same in
        ground (arith, filter-le p q weaker xs, ap p e ∙ out, ap q e ∙ in_)
    | inr other ↦ ground (arith, filter-lt xs, weaker x)
  ]

abbrev pub is_done : Option Visit → Bool
is_done none = false
is_done (some visiting) = false
is_done (some done) = true

has-includes :
    (role : String) (roles : Dict String RoleDefinition)
    → has role roles ≡ true
    → includes role (map (λ r. r.0) roles) ≡ true
unfolding lookup
has-includes role [] h = absurd (ground arith)
has-includes role ((here, spec) ∷ roles) h = ground (arith, has-includes role roles)

module _ (definition : PolicyDefinition) where
  -- How many roles were not visited yet, and how many visits have ended.
  abbrev pub unvisited : Dict String Visit → ℕ
  unvisited state = length (filter (λ r. not (has r state)) (role_names definition))

  abbrev pub ended : Dict String Visit → ℕ
  ended state = length (filter (λ r. is_done (lookup r state)) (role_names definition))

  pub insert-unvisited :
      (role : String) (how : Visit) (state : Dict String Visit)
      → unvisited (insert role how state) ≤ unvisited state
  insert-unvisited role how state =
      filter-le (λ r. not (has r (insert role how state))) (λ r. not (has r state))
        (λ r h. ground (arith, lookup-insert role r how state)) (role_names definition)

  -- A role that is visited for the first time.
  module _ (role : String) (state : Dict String Visit) (fresh : lookup role state ≡ none) where
    pub begin-unvisited :
        has role definition.roles ≡ true → unvisited (insert role visiting state) < unvisited state
    begin-unvisited known =
        filter-lt (λ r. not (has r (insert role visiting state))) (λ r. not (has r state))
          (λ r h. ground (arith, lookup-insert role r visiting state)) role
          (ground (arith, lookup-insert_self role visiting state)) (ground arith)
          (role_names definition) (has-includes role definition.roles known)

    pub begin-done :
        (r : String) → is_done (lookup r (insert role visiting state)) ≡ is_done (lookup r state)
    begin-done r =
        ground (arith, lookup-insert role r visiting state, text_equality.same_iff role r)

    pub begin-ended : ended state ≤ ended (insert role visiting state)
    begin-ended =
        filter-le (λ r. is_done (lookup r state))
          (λ r. is_done (lookup r (insert role visiting state))) (λ r h. begin-done r ∙ h)
          (role_names definition)

    pub apart_from : (r : String) (how : Visit) → lookup r state ≡ some how → (role == r) ≡ false
    apart_from r how found = ground (arith, text_equality.same_iff role r)

  -- A visit that ends.
  module _ (role : String) (state : Dict String Visit)
      (open_ : lookup role state ≡ some visiting) where
    pub end-ended : has role definition.roles ≡ true → ended state < ended (insert role done state)
    end-ended known =
        filter-lt (λ r. is_done (lookup r state)) (λ r. is_done (lookup r (insert role done state)))
          (λ r h. ground (arith, lookup-insert role r done state)) role (ap is_done open_)
          (ap is_done (lookup-insert_self role done state)) (role_names definition)
          (has-includes role definition.roles known)
