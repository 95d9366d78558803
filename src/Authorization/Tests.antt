-- ===== src/Authorization/Tests.antt =====
-- A policy, and instances of the theorems for it.
-- Opens what the runs below compute.
use structure.Prelude.{
  String, ◌∷◌, none, some, ◌≡◌, [], true, false, ◌&&◌, ℕ, some_of, ok, ◌⊎◌, err, strip_suffix,
  lookup, insert, refl, arith, trim, trim_start, trim_end, some_char, is_white, if◌then◌else◌, ◌+◌,
  ◌==◌, text_equality,
}
use structure.Authorization.Decision.{
  decide, Policy, can, is_permission, decide_each, build, no_options, is_role, first_met, require,
  cell, context_of, granted, denied_cell, ConditionMap, Effect, unauthenticated, DecisionReason,
  permission_denied,
}
use structure.Authorization.Policy.{
  PolicyDefinition, plain, conditional, resolve_roles, resolve_each, resolve, resolve_parents,
  inherit, merge, merge_all, merge_expanded, grant_each, expand_grant, permissions_of,
}
use structure.Authorization.Principal.{
  Principal, everywhere, owner, scoped, roles_in, has_role, roles_each, is_anonymous,
}
use structure.EventSourcing.Event.{text}
use structure.Authorization.Access.{admits, decide-allowed, require_guards, cell-decide}
use structure.Authorization.Validation.{
  validate, resource_issues, action_issues, malformed_name, role_issues, parent_issues,
  grant_issues, permission_issues, visit_each, visit, visit_parents, inheritance_cycle,
}
use structure.Authorization.Ending.{resolve_roles_ends}

run : Unit {0}
unfolding decide decide_each first_met roles_in roles_each build resolve_roles resolve_each resolve
    resolve_parents inherit merge merge_all merge_expanded grant_each expand_grant permissions_of
    strip_suffix lookup insert cell owner
run = tt

abbrev definition : PolicyDefinition
definition = record {
  resources = ("invoice", "read" ∷ "approve" ∷ []) ∷ [];
  roles =
      (
        "viewer",
        record { description = none; inherits = none; grants = some (plain "invoice:read" ∷ []) },
      )
      ∷ (
        "clerk",
        record {
          description = none;
          inherits = some ("viewer" ∷ []);
          grants = some (conditional "invoice:approve" "owner" ∷ []);
        },
      )
      ∷ (
        "admin",
        record { description = none; inherits = none; grants = some (plain "invoice:*" ∷ []) },
      )
      ∷ [];
}

abbrev conditions : ConditionMap
conditions name = if name == "owner" then some (owner "ownerId") else none

abbrev policy : Policy
policy = build definition conditions

abbrev principal : String → Principal
principal role = record {
  id = "p";
  roles = everywhere role ∷ scoped "admin" "tenant:1" ∷ [];
  kind = none;
  tenant_id = none;
  attributes = none;
}

inherited_read : can policy (principal "clerk") "invoice:read" no_options ≡ true
unfolding run
inherited_read = refl

approve_refused : can policy (principal "clerk") "invoice:approve" no_options ≡ false
unfolding run
approve_refused = refl

approve_own :
    can policy
      (principal "clerk")
      "invoice:approve"
      (record { scope = none; attributes = some (("ownerId", text "p") ∷ []) })
    ≡ true
unfolding run
approve_own = refl

approve_scoped :
    can policy
      (principal "clerk")
      "invoice:approve"
      (record { scope = some "tenant:1"; attributes = none })
    ≡ true
unfolding run
approve_scoped = refl

declared : is_permission policy "invoice:read" ≡ true
unfolding run
declared = refl

decide-allowed_example : (decide policy (principal "clerk") "invoice:read" no_options).allowed ≡ (
    is_permission policy "invoice:read"
    && some_of
        (admits policy (context_of (principal "clerk") no_options) "invoice:read")
        (principal "clerk").roles)
decide-allowed_example = decide-allowed policy (principal "clerk") "invoice:read" no_options

cell-decide_example :
    ((role : String)
      → is_role policy role ≡ true
      → has_role (principal "clerk") role none ≡ true
      → cell policy role "invoice:read" ≡ granted
      → can policy (principal "clerk") "invoice:read" no_options ≡ true)
    × (((role : String)
          → has_role (principal "clerk") role none ≡ true
          → cell policy role "invoice:read" ≡ denied_cell)
        → can policy (principal "clerk") "invoice:read" no_options ≡ false)
cell-decide_example = cell-decide policy (principal "clerk") "invoice:read" no_options declared

abbrev effect : Effect ℕ ℕ
effect w = (ok 7, w + 1)

require_guards_example :
    ((q : Principal) × ((some (principal "clerk") ≡ some q)
        × ((can policy q "invoice:read" no_options ≡ true)
            × (require policy "invoice:read" no_options (some (principal "clerk")) effect 4
                ≡ (ok 7, 5)))))
    ⊎ (((some (principal "clerk") ≡ none)
          × (require policy "invoice:read" no_options (some (principal "clerk")) effect 4
              ≡ (err (unauthenticated "invoice:read" none), 4)))
        ⊎ ((q : Principal) × ((some (principal "clerk") ≡ some q)
              × ((can policy q "invoice:read" no_options ≡ false)
                  × ((reason : DecisionReason) × (require policy "invoice:read" no_options
                          (some (principal "clerk"))
                          effect
                          4
                        ≡ (
                          err (
                              if is_anonymous q
                              then unauthenticated "invoice:read" (some reason)
                              else permission_denied "invoice:read" q.id (some reason) none),
                          4,
                        )))))))
require_guards_example =
    require_guards policy "invoice:read" no_options (some (principal "clerk")) effect 4

is_valid : validate definition conditions ≡ []
unfolding run validate resource_issues action_issues malformed_name role_issues parent_issues
    grant_issues permission_issues visit_each visit visit_parents trim trim_start trim_end some_char
    is_white
is_valid = refl

resolve_roles_ends_example :
    resolve_each 9 definition ("invoice:read" ∷ []) ("viewer" ∷ "clerk" ∷ "admin" ∷ []) []
    ≡ resolve_roles definition ("invoice:read" ∷ [])
resolve_roles_ends_example =
    resolve_roles_ends definition conditions ("invoice:read" ∷ []) 9 is_valid omega arith

-- A role that inherits itself through another is reported once, from its first role.
abbrev circular : PolicyDefinition
circular = record {
  resources = [];
  roles =
      ("a", record { description = none; inherits = some ("b" ∷ []); grants = none })
      ∷ ("b", record { description = none; inherits = some ("a" ∷ []); grants = none })
      ∷ [];
}

circle_found : validate circular conditions ≡ inheritance_cycle ("a" ∷ "b" ∷ "a" ∷ []) ∷ []
unfolding run validate resource_issues action_issues malformed_name role_issues parent_issues
    grant_issues permission_issues visit_each visit visit_parents trim trim_start trim_end some_char
    is_white
circle_found = refl
