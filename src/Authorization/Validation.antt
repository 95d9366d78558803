-- ===== src/Authorization/Validation.antt =====
-- validate of packages/authorization/src/policy.ts: what is wrong with a policy's definition. The
-- text of an issue is a value here, with the names that the text holds.
use structure.Prelude.{
  String, ℕ, Bool, Option, Dict, List, [], ◌∷◌, ◌++◌, some, none, if◌then◌else◌, ◌==◌, ◌||◌, not,
  lookup, insert, has, includes, map, length, or_else, strip_suffix, some_char, trim, nat_same,
  text_equality, nat_equality, zero, suc, ◌+◌, is_some,
}
use structure.Authorization.Policy.{
  Grant, plain, conditional, RoleDefinition, PolicyDefinition, permissions_of, inherits_of,
}
use structure.Authorization.Decision.{in_object, ConditionMap}

pub data Issue : Type 0 where
  malformed_resource : String → Issue
  no_action : String → Issue
  malformed_action : String → String → Issue
  duplicate_action : String → String → Issue
  malformed_role : String → Issue
  unknown_parent : String → String → Issue
  unknown_resource : String → String → Issue
  undeclared_permission : String → String → Issue
  unknown_condition : String → String → String → Issue
  inheritance_cycle : List String → Issue

abbrev report : Bool → Issue → List Issue
report found issue = if found then issue ∷ [] else []

unfoldable pub malformed_name : String → Bool
malformed_name name =
    name == ""
    || some_char (λ c. nat_same c 0x3a || nat_same c 0x2a) name
    || not (trim name == name)

unfoldable pub action_issues : String → List String → List String → List Issue
action_issues resource seen [] = []
action_issues resource seen (action ∷ actions) =
    report (malformed_name action) (malformed_action resource action)
    ++ report (includes action seen) (duplicate_action resource action)
    ++ action_issues resource (action ∷ seen) actions

unfoldable pub resource_issues : Dict String (List String) → List Issue
resource_issues [] = []
resource_issues ((resource, actions) ∷ resources) =
    report (malformed_name resource) (malformed_resource resource)
    ++ report (length actions == 0) (no_action resource)
    ++ action_issues resource [] actions
    ++ resource_issues resources

unfoldable pub permission_issues : PolicyDefinition → String → String → List Issue
permission_issues definition role permission =
    if permission == "*" then [] else elim (strip_suffix ":*" permission) [
      | some resource ↦
          report (not (in_object resource definition.resources)) (unknown_resource role permission)
      | none ↦
          report (not (includes permission (permissions_of definition.resources)))
            (undeclared_permission role permission)
    ]

unfoldable pub grant_issues : PolicyDefinition → ConditionMap → String → List Grant → List Issue
grant_issues definition conditions role [] = []
grant_issues definition conditions role (plain permission ∷ grants) =
    permission_issues definition role permission ++ grant_issues definition conditions role grants
grant_issues definition conditions role (conditional permission when ∷ grants) =
    permission_issues definition role permission
    ++ report (not (is_some (conditions when))) (unknown_condition role permission when)
    ++ grant_issues definition conditions role grants

unfoldable pub parent_issues : PolicyDefinition → String → List String → List Issue
parent_issues definition role [] = []
parent_issues definition role (parent ∷ parents) =
    report (not (has parent definition.roles)) (unknown_parent role parent)
    ++ parent_issues definition role parents

unfoldable pub role_issues :
    PolicyDefinition → ConditionMap → Dict String RoleDefinition → List Issue
role_issues definition conditions [] = []
role_issues definition conditions ((role, spec) ∷ roles) =
    report (role == "" || not (trim role == role)) (malformed_role role)
    ++ parent_issues definition role (or_else spec.inherits [])
    ++ grant_issues definition conditions role (or_else spec.grants [])
    ++ role_issues definition conditions roles

pub data Visit : Type 0 where
  visiting done : Visit

-- The map of the visits so far, and the cycles found.
pub record Visits : Type 0 where
  pub state : Dict String Visit
  pub issues : List Issue

-- The path from the first time the role stands on it.
abbrev from_first : String → List String → List String
from_first role [] = []
from_first role (here ∷ path) = if here == role then here ∷ path else from_first role path

abbrev pub cycle_of : String → List String → Issue
cycle_of role path = inheritance_cycle (from_first role path ++ role ∷ [])

-- A role by its status: `inner` is what the visit of its parents leaves.
abbrev pub settled : String → List String → Visits → Visits → Option Visit → Visits
settled role path v inner (some done) = v
settled role path v inner (some visiting) = record v {
  issues = v.issues ++ cycle_of role path ∷ [];
}
settled role path v inner none = record inner { state = insert role done inner.state }

-- A parent is visited if the policy defines it. The code also visits one whose name an object
-- inherits, which has no parents: nothing is reported for it here.
abbrev pub visit_known :
    (String → List String → Visits → Visits)
    → PolicyDefinition
    → String
    → List String
    → Visits
    → Visits
visit_known visit_one definition parent path v =
    if has parent definition.roles then visit_one parent path v else v

unfoldable pub visit_parents :
    (String → List String → Visits → Visits)
    → PolicyDefinition
    → List String
    → List String
    → Visits
    → Visits
visit_parents visit_one definition [] path v = v
visit_parents visit_one definition (parent ∷ parents) path v =
    visit_parents visit_one definition parents path (visit_known visit_one definition parent path v)

-- `visit`. A call inside a call is about one role more that is visited, which bounds the fuel.
unfoldable pub visit : ℕ → PolicyDefinition → String → List String → Visits → Visits
visit zero definition role path v = v
visit (suc fuel) definition role path v =
    let inner =
      visit_parents (visit fuel definition) definition (inherits_of definition role)
        (path ++ role ∷ []) (record v { state = insert role visiting v.state }) in
    settled role path v inner (lookup role v.state)

unfoldable pub visit_each : ℕ → PolicyDefinition → List String → Visits → Visits
visit_each fuel definition [] v = v
visit_each fuel definition (role ∷ roles) v =
    visit_each fuel definition roles (visit fuel definition role [] v)

abbrev pub role_names : PolicyDefinition → List String
role_names definition = map (λ r. r.0) definition.roles

abbrev pub no_visits : Visits
no_visits = record { state = []; issues = [] }

abbrev pub cycles : PolicyDefinition → List Issue
cycles definition =
    (visit_each (length (role_names definition) + 1) definition (role_names definition)
      no_visits).issues

unfoldable pub validate : PolicyDefinition → ConditionMap → List Issue
validate definition conditions =
    resource_issues definition.resources
    ++ role_issues definition conditions definition.roles
    ++ cycles definition
