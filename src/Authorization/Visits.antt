-- ===== src/Authorization/Visits.antt =====
-- What the visits of validate (packages/authorization/src/policy.ts) leave as it was.
use structure.Prelude.{
  String, ℕ, Option, List, [], ◌∷◌, ◌++◌, some, none, true, lookup, insert, has, zero, suc, ◌≡◌,
  refl, ◌∙◌, ◌≤◌, arith, lookup-insert, text_equality, Bool-cases, inl, inr, lookup-insert_self,
}
use structure.Authorization.Policy.{PolicyDefinition, inherits_of}
use structure.Authorization.Validation.{
  Visit, visiting, done, Visits, Issue, cycle_of, settled, visit_parents, visit, visit_known,
}
use structure.Authorization.Counts.{
  unvisited, ended, insert-unvisited, begin-ended, apart_from, end-ended,
}

pub appended-none :
    {C : Type 0} (issues : List Issue) (issue : Issue) → issues ++ issue ∷ [] ≡ [] → C
appended-none [] issue h = absurd (ground arith)
appended-none (other ∷ issues) issue h = absurd (ground arith)

module _ (definition : PolicyDefinition) where
  -- What visits do, whatever they find.
  pub record Later (before after : Visits) : Type 0 where
    pub fewer : unvisited definition after.state ≤ unvisited definition before.state
    pub more : ended definition before.state ≤ ended definition after.state
    pub still :
        (r : String) → lookup r before.state ≡ some visiting → lookup r after.state ≡ some visiting
    pub silent : after.issues ≡ [] → before.issues ≡ []

  pub Later-same : (v : Visits) → Later v v
  Later-same v = record {
    fewer = omega arith;
    more = omega arith;
    still = λ r h. h;
    silent = λ h. h;
  }

  pub Later-then : (u v w : Visits) → Later u v → Later v w → Later u w
  Later-then u v w a b = record {
    fewer = omega (arith, a.fewer, b.fewer);
    more = omega (arith, a.more, b.more);
    still = λ r h. b.still r (a.still r h);
    silent = λ h. a.silent (b.silent h);
  }

  module _ (one : String → List String → Visits → Visits)
      (later : (role : String) (path : List String) (v : Visits)
        → has role definition.roles ≡ true
        → Later v (one role path v)) where
    pub visit_known-Later :
        (parent : String) (path : List String) (v : Visits)
        → Later v (visit_known one definition parent path v)
    visit_known-Later parent path v = elim (Bool-cases (has parent definition.roles)) [
      | inl known ↦ rw known (later parent path v known)
      | inr unknown ↦ rw unknown (Later-same v)
    ]

    pub visit_parents-Later :
        (parents path : List String) (v : Visits)
        → Later v (visit_parents one definition parents path v)
    unfolding visit_parents
    visit_parents-Later [] path v = Later-same v
    visit_parents-Later (parent ∷ parents) path v =
        let next = visit_known one definition parent path v in
        Later-then v next (visit_parents one definition parents path next)
          (visit_known-Later parent path v) (visit_parents-Later parents path next)

  abbrev pub begun : String → Visits → Visits
  begun role v = record v { state = insert role visiting v.state }

  abbrev pub inner_of : ℕ → String → List String → Visits → Visits
  inner_of fuel role path v =
      visit_parents (visit fuel definition) definition (inherits_of definition role)
        (path ++ role ∷ []) (begun role v)

  settled-Later :
      (role : String) (path : List String) (v inner : Visits) (status : Option Visit)
      → has role definition.roles ≡ true
      → lookup role v.state ≡ status
      → Later (begun role v) inner
      → Later v (settled role path v inner status)
  settled-Later role path v inner (some done) known found later = Later-same v
  settled-Later role path v inner (some visiting) known found later = record {
    fewer = omega arith;
    more = omega arith;
    still = λ r h. h;
    silent = λ h. appended-none v.issues (cycle_of role path) h;
  }
  settled-Later role path v inner none known found later = record {
    fewer = omega (
      arith,
      insert-unvisited definition role done inner.state,
      later.fewer,
      insert-unvisited definition role visiting v.state,
    );
    more = omega (
      arith,
      begin-ended definition role v.state found,
      later.more,
      end-ended definition role inner.state
          (later.still role (lookup-insert_self role visiting v.state)) known,
    );
    still = λ r h.
        lookup-insert role r done inner.state
        ∙ rw (apart_from definition role v.state found r visiting h) (
            later.still r (
              lookup-insert role r visiting v.state
              ∙ rw (apart_from definition role v.state found r visiting h) h));
    silent = later.silent;
  }

  pub visit-Later :
      (fuel : ℕ) (role : String) (path : List String) (v : Visits)
      → has role definition.roles ≡ true
      → Later v (visit fuel definition role path v)
  unfolding visit
  visit-Later zero role path v known = Later-same v
  visit-Later (suc fuel) role path v known =
      settled-Later role path v (inner_of fuel role path v) (lookup role v.state) known refl (
        visit_parents-Later (visit fuel definition) (visit-Later fuel) (inherits_of definition role)
          (path ++ role ∷ []) (begun role v))
