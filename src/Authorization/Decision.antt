-- ===== src/Authorization/Decision.antt =====
-- The decisions of a built policy (`build` of packages/authorization/src/policy.ts), and the checks
-- of the principal that the fiber carries.
use structure.Prelude.{
  String, Option, none, Bool, List, Dict, includes, has, lookup, ◌∷◌, false, true, [], or_else,
  filter, Result, some, if◌then◌else◌, ◌++◌, err, not, ok, append_text, text_equality, leb, length,
  ◌||◌,
}
use structure.Authorization.Policy.{PolicyDefinition, ResolvedRole, permissions_of, resolve_roles}
use structure.Authorization.Principal.{
  ConditionContext, Principal, roles_in, Condition, is_anonymous, has_role,
}
use structure.EventSourcing.Event.{Json}

pub record CheckOptions : Type 0 where
  pub scope : Option String
  pub attributes : Option (Dict String Json)

abbrev pub no_options : CheckOptions
no_options = record { scope = none; attributes = none }

pub data DecisionReason : Type 0 where
  unknown_permission : String → DecisionReason
  no_role : Option String → DecisionReason
  undefined_roles : List String → DecisionReason
  granted_by : String → DecisionReason
  granted_under : String → String → DecisionReason
  unmet : List (String × List String) → DecisionReason
  no_grant : List String → String → DecisionReason

pub record Decision : Type 0 where
  pub allowed : Bool
  pub permission : String
  pub principal : String
  pub scope : Option String
  pub role : Option String
  pub condition : Option String
  pub reason : DecisionReason

pub data AuthorizationError : Type 0 where
  unauthenticated : String → Option DecisionReason → AuthorizationError
  permission_denied : String → String → Option DecisionReason → Option String → AuthorizationError

-- The conditions, as `conditions[name]` finds them: a property of the object, own or inherited. A
-- condition answers; what an inherited property answers or throws when it is called is its own.
abbrev pub ConditionMap : Type 0
ConditionMap = String → Option Condition

-- The inherited property names of an object that has no prototype of its own.
abbrev pub inherited_names : List String
inherited_names =
    "constructor" ∷ "__defineGetter__" ∷ "__defineSetter__" ∷ "hasOwnProperty" ∷ "__lookupGetter__"
    ∷ "__lookupSetter__" ∷ "isPrototypeOf" ∷ "propertyIsEnumerable" ∷ "toString" ∷ "valueOf"
    ∷ "__proto__" ∷ "toLocaleString" ∷ []

-- `name in object`
abbrev pub in_object : {V : Type 0} → String → Dict String V → Bool
in_object name object = has name object || includes name inherited_names

-- What `build` closes over: the definition, the permissions, the resolved roles, the conditions.
pub record Policy : Type 0 where
  pub definition : PolicyDefinition
  pub permissions : List String
  pub resolved : Dict String ResolvedRole
  pub conditions : ConditionMap

unfoldable pub build : PolicyDefinition → ConditionMap → Policy
build definition conditions =
    let permissions = permissions_of definition.resources in
    record {
      definition = definition;
      permissions = permissions;
      resolved = resolve_roles definition permissions;
      conditions = conditions;
    }

abbrev pub is_permission : Policy → String → Bool
is_permission p value = includes value p.permissions

abbrev pub is_role : Policy → String → Bool
is_role p value = in_object value p.definition.roles

-- `resolved.get(role)?.get(permission)`
abbrev pub entry_of : Policy → String → String → Option (Option (List String))
entry_of p permission role = elim (lookup role p.resolved) [
  | none ↦ none
  | some table ↦ lookup permission table
]

-- `conditions[name]?.(context)`
abbrev pub met : Policy → ConditionContext → String → Bool
met p context name = elim (p.conditions name) [ none ↦ false | some c ↦ c context ]

-- The loop over a conditional grant's conditions: the first that is met.
unfoldable pub first_met : Policy → ConditionContext → List String → Option String
first_met p context [] = none
first_met p context (name ∷ names) =
    if met p context name then some name else first_met p context names

abbrev refusal : String → Principal → Option String → DecisionReason → Decision
refusal permission principal scope reason = record {
  allowed = false;
  permission = permission;
  principal = principal.id;
  scope = scope;
  role = none;
  condition = none;
  reason = reason;
}

abbrev admission :
    String → Principal → Option String → String → Option String → DecisionReason → Decision
admission permission principal scope role condition reason = record {
  allowed = true;
  permission = permission;
  principal = principal.id;
  scope = scope;
  role = some role;
  condition = condition;
  reason = reason;
}

abbrev verdict_under :
    String
    → Principal
    → ConditionContext
    → String
    → List String
    → Option String
    → Option Decision × List (String × List String)
verdict_under permission principal context role names none = (none, (role, names) ∷ [])
verdict_under permission principal context role names (some name) = (
  some (admission permission principal context.scope role (some name) (granted_under role name)),
  [],
)

-- One role's say: none to go on to the next role, with what is to be noted as unmet.
abbrev pub verdict :
    Policy
    → String
    → Principal
    → ConditionContext
    → String
    → Option (Option (List String))
    → Option Decision × List (String × List String)
verdict p permission principal context role none = (none, [])
verdict p permission principal context role (some none) =
    (some (admission permission principal context.scope role none (granted_by role)), [])
verdict p permission principal context role (some (some names)) =
    verdict_under permission principal context role names (first_met p context names)

-- The verdict, or what the roles after it say.
abbrev pub chosen : Option Decision → Decision → Decision
chosen none rest = rest
chosen (some decision) rest = decision

abbrev last_reason : String → List String → List (String × List String) → DecisionReason
last_reason permission known [] = no_grant known permission
last_reason permission known (u ∷ us) = unmet (u ∷ us)

-- The loop of `decide` over the known roles that are left.
unfoldable pub decide_each :
    Policy
    → String
    → Principal
    → ConditionContext
    → List String
    → List String
    → List (String × List String)
    → Decision
decide_each p permission principal context known [] notes =
    refusal permission principal context.scope (last_reason permission known notes)
decide_each p permission principal context known (role ∷ roles) notes =
    let (found, noted) = verdict p permission principal context role (entry_of p permission role) in
    chosen found (decide_each p permission principal context known roles (notes ++ noted))

abbrev pub context_of : Principal → CheckOptions → ConditionContext
context_of principal options = record {
  principal = principal;
  attributes = or_else options.attributes [];
  scope = options.scope;
}

unfoldable pub decide : Policy → Principal → String → CheckOptions → Decision
decide p principal permission options =
    let held = roles_in principal options.scope in
    let known = filter (is_role p) held in
    if not (is_permission p permission)
    then refusal permission principal options.scope (unknown_permission permission)
    else if leb (length known) 0
    then refusal permission principal options.scope
        (if leb (length held) 0 then no_role options.scope else undefined_roles held)
    else decide_each p permission principal (context_of principal options) known known []

abbrev pub can : Policy → Principal → String → CheckOptions → Bool
can p principal permission options = (decide p principal permission options).allowed

abbrev pub allowed_permissions : Policy → Principal → CheckOptions → List String
allowed_permissions p principal options =
    filter (λ permission. can p principal permission options) p.permissions

-- `check`, for the principal that the fiber carries, if any
unfoldable pub check :
    Policy → String → CheckOptions → Option Principal → Result AuthorizationError Unit
check p permission options none = err (unauthenticated permission none)
check p permission options (some principal) =
    let decision = decide p principal permission options in
    if decision.allowed
    then ok tt
    else if is_anonymous principal
    then err (unauthenticated permission (some decision.reason))
    else err (permission_denied permission principal.id (some decision.reason) options.scope)

-- An effect of a program, which changes a world.
abbrev pub Effect : Type 0 → Type 0 → Type 0
Effect W A = W → Result AuthorizationError A × W

-- `Effect.zipRight`: the second effect runs once the first has succeeded.
abbrev after_check : {W A : Type 0} → Result AuthorizationError Unit → Effect W A → Effect W A
after_check (ok done) effect w = effect w
after_check (err e) effect w = (err e, w)

unfoldable pub require :
    {W A : Type 0} → Policy → String → CheckOptions → Option Principal → Effect W A → Effect W A
require p permission options current effect =
    after_check (check p permission options current) effect

unfoldable pub require_role :
    {W A : Type 0} → String → Option String → Option Principal → Effect W A → Effect W A
require_role role scope none effect w = (err (unauthenticated (append_text "role:" role) none), w)
require_role role scope (some principal) effect w =
    if has_role principal role scope
    then effect w
    else if is_anonymous principal
    then (err (unauthenticated (append_text "role:" role) none), w)
    else (err (permission_denied (append_text "role:" role) principal.id none scope), w)

pub data MatrixCell : Type 0 where
  granted : MatrixCell
  under_conditions : List String → MatrixCell
  denied_cell : MatrixCell

abbrev pub cell_of : Option (Option (List String)) → MatrixCell
cell_of none = denied_cell
cell_of (some none) = granted
cell_of (some (some names)) = under_conditions names

-- One cell of `matrix`. The conditions are not sorted here.
unfoldable pub cell : Policy → String → String → MatrixCell
cell p role permission = cell_of (entry_of p permission role)
