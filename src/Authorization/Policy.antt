-- ===== src/Authorization/Policy.antt =====
-- packages/authorization/src/policy.ts: the definition of a policy, the table it resolves to, and
-- its decisions. The text of a decision's reason is a value here.
use structure.Prelude.{
  String, ℕ, Option, Dict, List, ◌∷◌, append_text, map, if◌then◌else◌, some, insert, none, lookup,
  length, [], ◌++◌, ◌==◌, includes, or_else, ◌+◌, text_equality, strip_suffix, suc, zero,
}

pub data Grant : Type 0 where
  plain : String → Grant
  conditional : String → String → Grant

pub record RoleDefinition : Type 0 where
  pub description : Option String
  pub inherits : Option (List String)
  pub grants : Option (List Grant)

pub record PolicyDefinition : Type 0 where
  pub resources : Dict String (List String)
  pub roles : Dict String RoleDefinition

-- What a role holds: by permission, none for an unconditional grant, or the conditions, any of which
-- suffices.
abbrev pub ResolvedRole : Type 0
ResolvedRole = Dict String (Option (List String))

abbrev pub permission_of : String → String → String
permission_of resource action = append_text resource (append_text ":" action)

unfoldable pub permissions_of : Dict String (List String) → List String
permissions_of [] = []
permissions_of ((resource, actions) ∷ resources) =
    map (permission_of resource) actions ++ permissions_of resources

unfoldable pub expand_grant : String → PolicyDefinition → List String → List String
expand_grant permission definition everything =
    if permission == "*" then everything else elim (strip_suffix ":*" permission) [
      | none ↦ permission ∷ []
      | some resource ↦
          map (permission_of resource) (or_else (lookup resource definition.resources) [])
    ]

abbrev add_to_set : String → List String → List String
add_to_set condition existing =
    if includes condition existing then existing else existing ++ condition ∷ []

abbrev merged : Option (Option (List String)) → Option String → Option (List String)
merged (some none) condition = none
merged existing none = none
merged none (some condition) = some (condition ∷ [])
merged (some (some existing)) (some condition) = some (add_to_set condition existing)

unfoldable pub merge : ResolvedRole → String → Option String → ResolvedRole
merge into permission condition = insert permission (merged (lookup permission into) condition) into

unfoldable pub merge_all : ResolvedRole → String → List String → ResolvedRole
merge_all into permission [] = into
merge_all into permission (condition ∷ conditions) =
    merge_all (merge into permission (some condition)) permission conditions

-- What a parent holds, merged into the role's own table.
unfoldable pub inherit : ResolvedRole → ResolvedRole → ResolvedRole
inherit own [] = own
inherit own ((permission, none) ∷ parent) = inherit (merge own permission none) parent
inherit own ((permission, some conditions) ∷ parent) =
    inherit (merge_all own permission conditions) parent

unfoldable pub merge_expanded : ResolvedRole → List String → Option String → ResolvedRole
merge_expanded own [] condition = own
merge_expanded own (permission ∷ expanded) condition =
    merge_expanded (merge own permission condition) expanded condition

unfoldable pub grant_each :
    PolicyDefinition → List String → ResolvedRole → List Grant → ResolvedRole
grant_each definition everything own [] = own
grant_each definition everything own (plain permission ∷ grants) =
    grant_each definition everything
      (merge_expanded own (expand_grant permission definition everything) none) grants
grant_each definition everything own (conditional permission when ∷ grants) =
    grant_each definition everything
      (merge_expanded own (expand_grant permission definition everything) (some when)) grants

abbrev pub inherits_of : PolicyDefinition → String → List String
inherits_of definition role = elim (lookup role definition.roles) [
  | none ↦ []
  | some spec ↦ or_else spec.inherits []
]

abbrev pub grants_in : PolicyDefinition → String → List Grant
grants_in definition role = elim (lookup role definition.roles) [
  | none ↦ []
  | some spec ↦ or_else spec.grants []
]

-- The loop over a role's parents, with `resolve` for each.
unfoldable pub resolve_parents :
    (String → Dict String ResolvedRole → ResolvedRole × Dict String ResolvedRole)
    → List String
    → ResolvedRole
    → Dict String ResolvedRole
    → ResolvedRole × Dict String ResolvedRole
resolve_parents resolve_one [] own resolved = (own, resolved)
resolve_parents resolve_one (parent ∷ parents) own resolved =
    let (held, later) = resolve_one parent resolved in
    resolve_parents resolve_one parents (inherit own held) later

-- `resolve`, with the table of what is resolved so far. A role's depth bounds the fuel.
unfoldable pub resolve :
    ℕ
    → PolicyDefinition
    → List String
    → String
    → Dict String ResolvedRole
    → ResolvedRole × Dict String ResolvedRole
resolve zero definition everything role resolved = ([], resolved)
resolve (suc fuel) definition everything role resolved =
    let (inherited, later) =
      resolve_parents (resolve fuel definition everything) (inherits_of definition role) []
        resolved in
    let own = grant_each definition everything inherited (grants_in definition role) in
    elim (lookup role resolved) [
      | some cached ↦ (cached, resolved)
      | none ↦ (own, insert role own later)
    ]

unfoldable pub resolve_each :
    ℕ
    → PolicyDefinition
    → List String
    → List String
    → Dict String ResolvedRole
    → Dict String ResolvedRole
resolve_each fuel definition everything [] resolved = resolved
resolve_each fuel definition everything (role ∷ roles) resolved =
    resolve_each fuel definition everything roles
      (resolve fuel definition everything role resolved).1

-- No role has more ancestors in a line than there are roles.
unfoldable pub resolve_roles : PolicyDefinition → List String → Dict String ResolvedRole
resolve_roles definition everything =
    resolve_each (length definition.roles + 1) definition everything
      (map (λ r. r.0) definition.roles) []
