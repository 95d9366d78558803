-- ===== src/Authorization/Principal.antt =====
-- packages/authorization/src/principal.ts and condition.ts: who acts, in which roles, and the
-- conditions of conditional grants. A fact of type `unknown` is a JSON value.
use structure.Prelude.{
  String, [], Option, Bool, Dict, List, not, some, false, if◌then◌else◌, includes, lookup, every,
  some_of, none, true, ◌++◌, text_equality, ◌==◌, ◌&&◌, ◌∷◌, option_equality,
}
use structure.EventSourcing.Event.{Json, boolean, number, text, array, object, null}

pub data RoleAssignment : Type 0 where
  everywhere : String → RoleAssignment
  scoped : String → String → RoleAssignment

pub data PrincipalKind : Type 0 where
  user : PrincipalKind
  service : PrincipalKind
  anonymous_kind : PrincipalKind

pub record Principal : Type 0 where
  pub id : String
  pub roles : List RoleAssignment
  pub kind : Option PrincipalKind
  pub tenant_id : Option String
  pub attributes : Option (Dict String Json)

abbrev pub anonymous : Principal
anonymous = record {
  id = "anonymous";
  roles = [];
  kind = some anonymous_kind;
  tenant_id = none;
  attributes = none;
}

abbrev is_anonymous_kind : Option PrincipalKind → Bool
is_anonymous_kind none = false
is_anonymous_kind (some user) = false
is_anonymous_kind (some service) = false
is_anonymous_kind (some anonymous_kind) = true

abbrev pub is_anonymous : Principal → Bool
is_anonymous principal = is_anonymous_kind principal.kind

-- The loop of `rolesIn` over the assignments that are left.
unfoldable pub roles_each : Option String → List RoleAssignment → List String → List String
roles_each scope [] out = out
roles_each scope (everywhere role ∷ assignments) out =
    roles_each scope assignments (if includes role out then out else out ++ role ∷ [])
roles_each scope (scoped role here ∷ assignments) out =
    roles_each scope assignments
      (if some here == scope && not (includes role out) then out ++ role ∷ [] else out)

unfoldable pub roles_in : Principal → Option String → List String
roles_in principal scope = roles_each scope principal.roles []

abbrev pub has_role : Principal → String → Option String → Bool
has_role principal role scope = includes role (roles_in principal scope)

pub record ConditionContext : Type 0 where
  pub principal : Principal
  pub attributes : Dict String Json
  pub scope : Option String

abbrev pub Condition : Type 0
Condition = ConditionContext → Bool

-- `===` of a fact, `none` for undefined, and a text
abbrev pub is_text : Option Json → String → Bool
is_text none s = false
is_text (some null) s = false
is_text (some (boolean b)) s = false
is_text (some (number n)) s = false
is_text (some (text t)) s = t == s
is_text (some (array a)) s = false
is_text (some (object o)) s = false

unfoldable pub owner : String → Condition
owner key context = is_text (lookup key context.attributes) context.principal.id

unfoldable pub same_tenant : String → Condition
same_tenant key context = elim context.principal.tenant_id [
  | none ↦ false
  | some tenant ↦ is_text (lookup key context.attributes) tenant
]

abbrev pub all_of : List Condition → Condition
all_of conditions context = every (λ condition. condition context) conditions

abbrev pub any_of : List Condition → Condition
any_of conditions context = some_of (λ condition. condition context) conditions

abbrev pub not_of : Condition → Condition
not_of condition context = not (condition context)
