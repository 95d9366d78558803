-- ===== src/Authorization/Ending.antt =====
-- resolveRoles of packages/authorization/src/policy.ts ends for a policy that validate accepts.
use structure.Prelude.{
  String, ℕ, Dict, List, [], ◌∷◌, ◌++◌, zero, suc, ◌≡◌, refl, sym, ap, ◌∙◌, ◌≤◌, arith, All, length,
  lookup, text_equality, ◌+◌, some, insert, none, length-map,
}
use structure.Authorization.Policy.{
  PolicyDefinition, ResolvedRole, inherits_of, resolve, resolve_parents, resolve_each,
  resolve_roles, grant_each, grants_in,
}
use structure.Authorization.Validation.{validate, cycles, role_names, resource_issues, role_issues}
use structure.Authorization.Cycles.{Deep, cycles-Deep}
use structure.Authorization.Decision.{ConditionMap}

module _ (definition : PolicyDefinition) (everything : List String) where
  resolve_parents-same :
      (n m : ℕ)
      → ((role : String) (resolved : Dict String ResolvedRole)
          → Deep definition n role
          → resolve m definition everything role resolved
            ≡ resolve n definition everything role resolved)
      → (parents : List String) (own : ResolvedRole) (resolved : Dict String ResolvedRole)
      → All (Deep definition n) parents
      → resolve_parents (resolve m definition everything) parents own resolved
        ≡ resolve_parents (resolve n definition everything) parents own resolved
  unfolding resolve_parents
  resolve_parents-same n m same [] own resolved deep = refl
  resolve_parents-same n m same (parent ∷ parents) own resolved deep =
      rw (same parent resolved deep.0) (resolve_parents-same n m same parents _ _ deep.1)

  -- More fuel than a role is deep changes nothing.
  resolve-same :
      (n m : ℕ) (role : String) (resolved : Dict String ResolvedRole)
      → n ≤ m
      → Deep definition n role
      → resolve m definition everything role resolved
        ≡ resolve n definition everything role resolved
  unfolding resolve Deep
  resolve-same zero m role resolved le deep = absurd deep
  resolve-same (suc n) zero role resolved le deep = absurd (omega (arith, le))
  resolve-same (suc n) (suc m) role resolved le deep =
      ap
        (λ (inherited : ResolvedRole × Dict String ResolvedRole).
          let own = grant_each definition everything inherited.0 (grants_in definition role) in
          elim (lookup role resolved) as (λ cached. ResolvedRole × Dict String ResolvedRole) [
            | some cached ↦ (cached, resolved)
            | none ↦ (own, insert role own inherited.1)
          ])
        (resolve_parents-same n m
          (λ r held deep_role. resolve-same n m r held omega (arith, le) deep_role)
          (inherits_of definition role) [] resolved deep)

  resolve_each-same :
      (n m : ℕ) (roles : List String) (resolved : Dict String ResolvedRole)
      → n ≤ m
      → All (Deep definition n) roles
      → resolve_each m definition everything roles resolved
        ≡ resolve_each n definition everything roles resolved
  unfolding resolve_each
  resolve_each-same n m [] resolved le deep = refl
  resolve_each-same n m (role ∷ roles) resolved le deep =
      rw (resolve-same n m role resolved le deep.0) (resolve_each-same n m roles _ le deep.1)

nothing_after : {A : Type 0} (xs ys : List A) → xs ++ ys ≡ [] → ys ≡ []
nothing_after [] ys h = h
nothing_after (x ∷ xs) ys h = absurd (ground arith)

-- The roles of a policy in which validate finds no issue are resolved within the fuel that
-- resolveRoles is given, one more than there are roles: any more fuel gives the same table, so the
-- recursion over parents ends.
pub resolve_roles_ends :
    (definition : PolicyDefinition) (conditions : ConditionMap) (everything : List String)
    (fuel : ℕ)
    → validate definition conditions ≡ []
    → length definition.roles + 1 ≤ fuel
    → resolve_each fuel definition everything (role_names definition) []
      ≡ resolve_roles definition everything
unfolding validate resolve_roles
resolve_roles_ends definition conditions everything fuel accepted enough =
    let none_found : cycles definition ≡ [] =
      nothing_after
        (resource_issues definition.resources ++ role_issues definition conditions definition.roles)
        (cycles definition) accepted in
    let deep = cycles-Deep definition none_found in
    let names : List String = role_names definition in
    let count = length-map (λ r. r.0) definition.roles in
    resolve_each-same definition everything (suc (length names)) fuel names [] omega
      (arith, count, enough) deep
    ∙ sym (
        resolve_each-same definition everything (suc (length names)) (length definition.roles + 1)
          names [] omega (arith, count) deep)
