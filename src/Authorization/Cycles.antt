-- ===== src/Authorization/Cycles.antt =====
-- A definition in which validate (packages/authorization/src/policy.ts) finds no cycle has none.
use structure.Prelude.{
  String, ℕ, Option, Dict, List, [], ◌∷◌, ◌++◌, some, none, true, false, ◌==◌, not, lookup, insert,
  has, includes, map, length, zero, suc, ◌≡◌, refl, sym, subst, ◌<◌, ◌≤◌, arith, lookup-insert,
  text_equality, Bool-cases, inl, inr, All, lookup-insert_self, same_refl, length-filter-le, ◌+◌,
}
use structure.Authorization.Policy.{PolicyDefinition, RoleDefinition, inherits_of}
use structure.Authorization.Validation.{
  Visit, visiting, done, Visits, cycle_of, settled, visit_parents, visit, visit_each, role_names,
  visit_known, cycles, no_visits,
}
use structure.Authorization.Counts.{
  unvisited, ended, begin-unvisited, begin-ended, end-ended, is_done,
}
use structure.Authorization.Visits.{
  Later, Later-same, Later-then, visit_known-Later, visit_parents-Later, visit-Later, begun,
  inner_of, appended-none,
}

All-weaker :
    (P Q : String → Type 0)
    → ((r : String) → P r → Q r)
    → (roles : List String) → All P roles
    → All Q roles
All-weaker P Q weaker [] h = tt
All-weaker P Q weaker (r ∷ roles) h = (weaker r h.0, All-weaker P Q weaker roles h.1)

includes-has :
    (role : String) (roles : Dict String RoleDefinition)
    → includes role (map (λ r. r.0) roles) ≡ true
    → has role roles ≡ true
unfolding lookup
includes-has role [] h = absurd (ground arith)
includes-has role ((here, spec) ∷ roles) h = ground (arith, includes-has role roles)

includes-All :
    (names : List String) (P : String → Type 0)
    → ((r : String) → includes r names ≡ true → P r)
    → All P names
includes-All [] P h = tt
includes-All (name ∷ names) P h = (
  h name (ground (arith, same_refl text_equality name)),
  includes-All names P (λ r inside. h r (ground (arith, inside))),
)

module _ (definition : PolicyDefinition) where
  -- No line of ancestors of the role is longer.
  unfoldable pub Deep : ℕ → String → Type 0
  Deep zero role = ⊥
  Deep (suc n) role = All (Deep n) (inherits_of definition role)

  Deep-mono : (n m : ℕ) (role : String) → n ≤ m → Deep n role → Deep m role
  unfolding Deep
  Deep-mono zero m role le deep = absurd deep
  Deep-mono (suc n) zero role le deep = absurd (omega arith)
  Deep-mono (suc n) (suc m) role le deep =
      All-weaker (Deep n) (Deep m) (λ r h. Deep-mono n m r omega arith h)
        (inherits_of definition role) deep

  -- Every visit that has ended definition was of a role with no line of ancestors longer than the number of
  -- those visits and one.
  abbrev Founded : Visits → Type 0
  Founded v = (r : String) → lookup r v.state ≡ some done → Deep (suc (ended definition v.state)) r

  Deep-unknown : (n : ℕ) (role : String) → has role definition.roles ≡ false → Deep (suc n) role
  unfolding Deep
  Deep-unknown n role unknown =
      let orphan : inherits_of definition role ≡ [] = ground (arith) in
      subst (λ roles. All (Deep n) roles) (sym orphan) tt

  abbrev Sound : ℕ → (String → List String → Visits → Visits) → Type 0
  Sound fuel one =
      (role : String) (path : List String) (v : Visits)
      → has role definition.roles ≡ true
      → unvisited definition v.state < fuel
      → Founded v
      → (one role path v).issues ≡ []
      → Founded (one role path v) × Deep (suc (ended definition (one role path v).state)) role

  module _ (fuel : ℕ) (sound : Sound fuel (visit fuel definition)) where
    abbrev step : String → List String → Visits → Visits
    step parent path v = visit_known (visit fuel definition) definition parent path v

    abbrev all : List String → List String → Visits → Visits
    all parents path v = visit_parents (visit fuel definition) definition parents path v

    visit_known-Founded :
        (parent : String) (path : List String) (v : Visits)
        → unvisited definition v.state < fuel
        → Founded v
        → (step parent path v).issues ≡ []
        → Founded (step parent path v)
          × Deep (suc (ended definition (step parent path v).state)) parent
    visit_known-Founded parent path v fits founded =
        elim (Bool-cases (has parent definition.roles)) [
          | inl known ↦ rw known (sound parent path v known fits founded)
          | inr unknown ↦
              rw unknown
                (λ none_found. (founded, Deep-unknown (ended definition v.state) parent unknown))
        ]

    visit_parents-Founded :
        (parents path : List String) (v : Visits)
        → unvisited definition v.state < fuel
        → Founded v
        → (all parents path v).issues ≡ []
        → Founded (all parents path v)
          × All (Deep (suc (ended definition (all parents path v).state))) parents
    unfolding visit_parents
    visit_parents-Founded [] path v fits founded none_found = (founded, tt)
    visit_parents-Founded (parent ∷ parents) path v fits founded none_found =
        let next = step parent path v in
        let first =
          visit_known-Later definition (visit fuel definition) (visit-Later definition fuel) parent
            path v in
        let rest =
          visit_parents-Later definition (visit fuel definition) (visit-Later definition fuel)
            parents path next in
        let (held, deep) =
          visit_known-Founded parent path v fits founded (rest.silent none_found) in
        let (later, all_deep) =
          visit_parents-Founded parents path next omega (arith, fits, first.fewer) held
            none_found in
        (
          later,
          (
            Deep-mono (suc (ended definition next.state))
                (suc (ended definition (all parents path next).state)) parent omega
                (arith, rest.more) deep,
            all_deep,
          ),
        )

  begun-Founded :
      (role : String) (v : Visits)
      → lookup role v.state ≡ none
      → Founded v
      → Founded (begun definition role v)
  begun-Founded role v fresh founded r found =
      Deep-mono (suc (ended definition v.state))
        (suc (ended definition (begun definition role v).state)) r omega
        (arith, begin-ended definition role v.state fresh)
        (founded r (ground (arith, lookup-insert role r visiting v.state, found)))

  -- A role whose parents are founded is founded once its visit ends.
  ended-Founded :
      (role : String) (inner : Visits)
      → ended definition inner.state < ended definition (insert role done inner.state)
      → Founded inner
      → All (Deep (suc (ended definition inner.state))) (inherits_of definition role)
      → Founded (record inner { state = insert role done inner.state })
        × Deep (suc (ended definition (insert role done inner.state))) role
  unfolding Deep
  ended-Founded role inner grown held deep =
      let count : ℕ = ended definition (insert role done inner.state) in
      let own : Deep (suc count) role =
        Deep-mono (suc (suc (ended definition inner.state))) (suc count) role omega (arith, grown)
          deep in
      (
        λ r found. elim (Bool-cases (role == r)) [
          | inl same ↦ subst (Deep (suc count)) ((text_equality.same_iff role r).0 same) own
          | inr other ↦
              Deep-mono (suc (ended definition inner.state)) (suc count) r omega (arith, grown)
                (held r (ground (arith, lookup-insert role r done inner.state, found)))
        ],
        own,
      )

  settled-Founded :
      (fuel : ℕ)
      → Sound fuel (visit fuel definition)
      → (role : String) (path : List String) (v : Visits) (status : Option Visit)
      → lookup role v.state ≡ status
      → has role definition.roles ≡ true
      → unvisited definition v.state < suc fuel
      → Founded v
      → (settled role path v (inner_of definition fuel role path v) status).issues ≡ []
      → Founded (settled role path v (inner_of definition fuel role path v) status)
        × Deep
            (suc (
              ended definition
                (settled role path v (inner_of definition fuel role path v) status).state))
            role
  settled-Founded fuel sound role path v (some done) found known fits founded none_found =
      (founded, founded role found)
  settled-Founded fuel sound role path v (some visiting) found known fits founded none_found =
      appended-none v.issues (cycle_of role path) none_found
  settled-Founded fuel sound role path v none found known fits founded none_found =
      let inner = inner_of definition fuel role path v in
      let parents = inherits_of definition role in
      let later =
        visit_parents-Later definition (visit fuel definition) (visit-Later definition fuel) parents
          (path ++ role ∷ []) (begun definition role v) in
      let (held, deep) =
        visit_parents-Founded fuel sound parents (path ++ role ∷ []) (begun definition role v) omega
          (arith, begin-unvisited definition role v.state found known, fits)
          (begun-Founded role v found founded) none_found in
      let grown =
        end-ended definition role inner.state
          (later.still role (lookup-insert_self role visiting v.state)) known in
      ended-Founded role inner grown held deep

  visit-Founded : (fuel : ℕ) → Sound fuel (visit fuel definition)
  unfolding visit
  visit-Founded zero role path v known fits founded none_found = absurd (omega (arith, fits))
  visit-Founded (suc fuel) role path v known fits founded none_found =
      settled-Founded fuel (visit-Founded fuel) role path v (lookup role v.state) refl known fits
        founded none_found

  visit_each-Later :
      (fuel : ℕ) (roles : List String) (v : Visits)
      → All (λ role. has role definition.roles ≡ true) roles
      → Later definition v (visit_each fuel definition roles v)
  unfolding visit_each
  visit_each-Later fuel [] v known = Later-same definition v
  visit_each-Later fuel (role ∷ roles) v known =
      let next = visit fuel definition role [] v in
      Later-then definition v next (visit_each fuel definition roles next)
        (visit-Later definition fuel role [] v known.0) (visit_each-Later fuel roles next known.1)

  visit_each-Founded :
      (fuel : ℕ) (roles : List String) (v : Visits)
      → All (λ role. has role definition.roles ≡ true) roles
      → unvisited definition v.state < fuel
      → Founded v
      → (visit_each fuel definition roles v).issues ≡ []
      → All (Deep (suc (length (role_names definition)))) roles
  unfolding visit_each
  visit_each-Founded fuel [] v known fits founded none_found = tt
  visit_each-Founded fuel (role ∷ roles) v known fits founded none_found =
      let next = visit fuel definition role [] v in
      let first = visit-Later definition fuel role [] v known.0 in
      let rest = visit_each-Later fuel roles next known.1 in
      let (held, deep) =
        visit-Founded fuel role [] v known.0 fits founded (rest.silent none_found) in
      (
        Deep-mono (suc (ended definition next.state)) (suc (length (role_names definition))) role
            omega
            (arith, length-filter-le (λ r. is_done (lookup r next.state)) (role_names definition))
            deep,
        visit_each-Founded fuel roles next known.1 omega (arith, fits, first.fewer) held none_found,
      )

  -- A definition in which no cycle is reported has no line of ancestors that is longer than there are
  -- roles.
  pub cycles-Deep :
      cycles definition ≡ []
      → All (Deep (suc (length (role_names definition)))) (role_names definition)
  unfolding lookup
  cycles-Deep none_found =
      visit_each-Founded (length (role_names definition) + 1) (role_names definition) no_visits
        (includes-All (role_names definition) (λ role. has role definition.roles ≡ true)
          (λ r inside. includes-has r definition.roles inside))
        omega (arith, length-filter-le (λ r. not (has r no_visits.state)) (role_names definition))
        (λ r found. absurd (ground arith)) none_found
