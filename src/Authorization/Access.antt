-- ===== src/Authorization/Access.antt =====
-- About whom a policy admits.
use structure.Prelude.{
  String, Option, Bool, List, true, ◌&&◌, false, some, is_some, ◌≡◌, some_of, includes, ◌==◌, ◌∷◌,
  filter, ◌++◌, ◌||◌, Bool-cases, arith, none, [], option_equality, inl, Option-cases, inr, refl,
  sym, ap, text_equality, ◌∙◌, leb, length, ◌⊎◌, err, same_refl, some_of-append, some_of-filter,
  if◌then◌else◌,
}
use structure.Authorization.Decision.{
  Policy, first_met, decide_each, decide, entry_of, CheckOptions, Decision, is_role, met, chosen,
  is_permission, verdict, context_of, cell, check, granted, can, denied_cell, require,
  unauthenticated, permission_denied, cell_of, Effect, DecisionReason,
}
use structure.Authorization.Principal.{
  RoleAssignment, roles_each, ConditionContext, everywhere, Principal, roles_in, scoped, has_role,
  is_anonymous, Condition,
}

-- Whether there is a condition of the name, and it holds of the facts.
abbrev pub is_met : Option Condition → ConditionContext → Bool
is_met none context = false
is_met (some condition) context = condition context

met_of-is_met :
    (o : Option Condition) (context : ConditionContext)
    → elim o [ none ↦ false | some c ↦ c context ] ≡ is_met o context
met_of-is_met none context = refl
met_of-is_met (some condition) context = refl

met-is_met :
    (p : Policy) (context : ConditionContext) (name : String)
    → met p context name ≡ is_met (p.conditions name) context
met-is_met p context name = met_of-is_met (p.conditions name) context

abbrev pub holds : Policy → ConditionContext → Option (Option (List String)) → Bool
holds p context none = false
holds p context (some none) = true
holds p context (some (some names)) = some_of (λ name. is_met (p.conditions name) context) names

abbrev pub grants : Policy → ConditionContext → String → String → Bool
grants p context permission role = holds p context (entry_of p permission role)

-- Whether an assignment is active in the scope, and its role.
abbrev pub active : Option String → RoleAssignment → Bool
active scope (everywhere role) = true
active scope (scoped role here) = some here == scope

abbrev pub role_of : RoleAssignment → String
role_of (everywhere role) = role
role_of (scoped role here) = role

first_met-some_of :
    (p : Policy) (context : ConditionContext) (names : List String)
    → is_some (first_met p context names)
      ≡ some_of (λ name. is_met (p.conditions name) context) names
unfolding first_met
first_met-some_of p context [] = refl
first_met-some_of p context (name ∷ names) = elim (Bool-cases (met p context name)) [
  | inl yes_met ↦ rw (yes_met, sym (met-is_met p context name) ∙ yes_met) refl
  | inr not_met ↦
      rw (not_met, sym (met-is_met p context name) ∙ not_met) (first_met-some_of p context names)
]

verdict-step :
    (p : Policy) (permission : String) (principal : Principal) (context : ConditionContext)
    (role : String) (o : Option (Option (List String)))
    (rest : List (String × List String) → Decision) (b : Bool)
    → ((notes : List (String × List String)) → (rest notes).allowed ≡ b)
    → (chosen
        (verdict p permission principal context role o).0
        (rest (verdict p permission principal context role o).1)).allowed
      ≡ (holds p context o || b)
verdict-step p permission principal context role none rest b h = h []
verdict-step p permission principal context role (some none) rest b h = refl
verdict-step p permission principal context role (some (some names)) rest b h =
    elim (Option-cases (first_met p context names)) [
      | inl unmet_all ↦
          rw (unmet_all, sym (first_met-some_of p context names) ∙ ap is_some unmet_all)
            (h ((role, names) ∷ []))
      | inr (name, hit) ↦ rw (hit, sym (first_met-some_of p context names) ∙ ap is_some hit) refl
    ]

decide_each-allowed :
    (p : Policy) (permission : String) (principal : Principal) (context : ConditionContext)
    (known roles : List String) (notes : List (String × List String))
    → (decide_each p permission principal context known roles notes).allowed
      ≡ some_of (grants p context permission) roles
unfolding decide_each
decide_each-allowed p permission principal context known [] notes = refl
decide_each-allowed p permission principal context known (role ∷ roles) notes =
    verdict-step p permission principal context role (entry_of p permission role)
      (λ noted. decide_each p permission principal context known roles (notes ++ noted))
      (some_of (grants p context permission) roles)
      (λ noted. decide_each-allowed p permission principal context known roles (notes ++ noted))

includes-some_of :
    (f : String → Bool) (x : String) (xs : List String)
    → includes x xs ≡ true
    → f x ≡ true
    → some_of f xs ≡ true
includes-some_of f x [] h k = absurd (cc)
includes-some_of f x (y ∷ ys) h k = elim (Bool-cases (y == x)) [
  | inl same ↦ rw (ap f ((text_equality.same_iff y x).0 same) ∙ k) refl
  | inr apart ↦ ground (arith, includes-some_of f x ys)
]

roles_each-some_of :
    (f : String → Bool) (scope : Option String) (assignments : List RoleAssignment)
    (out : List String)
    → some_of f (roles_each scope assignments out)
      ≡ (some_of f out || some_of (λ a. active scope a && f (role_of a)) assignments)
unfolding roles_each
roles_each-some_of f scope [] out = ground arith
roles_each-some_of f scope (everywhere role ∷ assignments) out =
    elim (Bool-cases (includes role out)) [
      | inl known ↦ rw known (
          ground
            (arith, roles_each-some_of f scope assignments out, includes-some_of f role out known))
      | inr new ↦ rw new (
          ground (
            arith,
            roles_each-some_of f scope assignments (out ++ role ∷ []),
            some_of-append f out (role ∷ []),
          ))
    ]
roles_each-some_of f scope (scoped role here ∷ assignments) out =
    elim (Bool-cases (some here == scope)) [
      | inr off ↦ rw off (roles_each-some_of f scope assignments out)
      | inl on ↦ elim (Bool-cases (includes role out)) [
        | inl known ↦
            rw (on, known)
              (ground (
                arith,
                roles_each-some_of f scope assignments out,
                includes-some_of f role out known,
              ))
        | inr new ↦
            rw (on, new)
              (ground (
                arith,
                roles_each-some_of f scope assignments (out ++ role ∷ []),
                some_of-append f out (role ∷ []),
              ))
      ]
    ]

none_of : (f : String → Bool) (xs : List String) → leb (length xs) 0 ≡ true → some_of f xs ≡ false
none_of f [] h = refl
none_of f (x ∷ xs) h = absurd (ground arith)

-- Whether an assignment of a principal makes a policy admit it.
abbrev pub admits : Policy → ConditionContext → String → RoleAssignment → Bool
admits p context permission assignment =
    active context.scope assignment
    && (is_role p (role_of assignment) && grants p context permission (role_of assignment))

-- A decision allows exactly when the policy declares the permission and some assignment of the
-- principal is active in the scope, names a role of the policy, and that role's entry for the
-- permission is unconditional or names a condition that is found under that name and that holds:
-- neither the order of the assignments, nor repeated ones, nor the other roles matter.
pub decide-allowed :
    (p : Policy) (principal : Principal) (permission : String) (options : CheckOptions)
    → (decide p principal permission options).allowed ≡ (
        is_permission p permission
        && some_of (admits p (context_of principal options) permission) principal.roles)
unfolding decide roles_in
decide-allowed p principal permission options = elim (Bool-cases (is_permission p permission)) [
  | inr unknown ↦ rw (unknown) refl
  | inl known_permission ↦ rw known_permission (elim (Bool-cases (leb (length known) 0)) [
    | inl empty ↦ rw empty (sym (sym held ∙ none_of (grants p context permission) known empty))
    | inr full ↦ rw full (decide_each-allowed p permission principal context known known [] ∙ held)
  ])
]
  where
    context : ConditionContext
    context = context_of principal options

    known : List String
    known = filter (is_role p) (roles_in principal options.scope)

    held :
        some_of (grants p context permission) known
        ≡ some_of (admits p context permission) principal.roles
    held =
        some_of-filter (grants p context permission) (is_role p) (roles_in principal options.scope)
        ∙ roles_each-some_of (λ r. is_role p r && grants p context permission r) options.scope
            principal.roles []

&&-false : (b : Bool) → (b && false) ≡ false
&&-false true = refl
&&-false false = refl

holds-granted :
    (p : Policy) (context : ConditionContext) (o : Option (Option (List String)))
    → cell_of o ≡ granted
    → holds p context o ≡ true
holds-granted p context none e = absurd (cc)
holds-granted p context (some none) e = refl
holds-granted p context (some (some names)) e = absurd (cc)

holds-denied :
    (p : Policy) (context : ConditionContext) (o : Option (Option (List String)))
    → cell_of o ≡ denied_cell
    → holds p context o ≡ false
holds-denied p context none e = refl
holds-denied p context (some none) e = absurd (cc)
holds-denied p context (some (some names)) e = absurd (cc)

some_of-none :
    (f : String → Bool) (xs : List String)
    → ((x : String) → includes x xs ≡ true → f x ≡ false)
    → some_of f xs ≡ false
some_of-none f [] h = refl
some_of-none f (x ∷ xs) h =
    rw (h x (rw (same_refl text_equality x) refl))
      (some_of-none f xs (λ y found. h y (ground (arith, found))))

-- A granted cell of the matrix is a promise: a principal that holds the role in the scope is allowed
-- the declared permission whatever its other roles and the facts. Denied cells are one too: where
-- the cell of every role that the principal holds is denied, the permission is refused.
pub cell-decide :
    (p : Policy) (principal : Principal) (permission : String) (options : CheckOptions)
    → is_permission p permission ≡ true
    → ((role : String)
        → is_role p role ≡ true
        → has_role principal role options.scope ≡ true
        → cell p role permission ≡ granted
        → can p principal permission options ≡ true)
      × (((role : String)
            → has_role principal role options.scope ≡ true
            → cell p role permission ≡ denied_cell)
          → can p principal permission options ≡ false)
unfolding cell roles_in
cell-decide p principal permission options declared = (
  λ role defined held full. allowed_by role held (rw (defined, grants_of role full) refl),
  λ nothing.
      table
      ∙ some_of-none f (roles_in principal options.scope) (λ role held.
        refuses role (holds-denied p context (entry_of p permission role) (nothing role held))),
)
  where
    context : ConditionContext
    context = context_of principal options

    f : String → Bool
    f r = is_role p r && grants p context permission r

    table :
        (decide p principal permission options).allowed
        ≡ some_of f (roles_in principal options.scope)
    table =
        decide-allowed p principal permission options
        ∙ rw declared (sym (roles_each-some_of f options.scope principal.roles []))

    grants_of :
        (role : String) → cell p role permission ≡ granted → grants p context permission role ≡ true
    grants_of role full = holds-granted p context (entry_of p permission role) full

    refuses : (role : String) → grants p context permission role ≡ false → f role ≡ false
    refuses role e = rw e (&&-false (is_role p role))

    allowed_by :
        (role : String)
        → has_role principal role options.scope ≡ true
        → f role ≡ true
        → can p principal permission options ≡ true
    allowed_by role held yes_f =
        table ∙ includes-some_of f role (roles_in principal options.scope) held yes_f

-- A guarded effect runs, in the world as it is, if the fiber carries a principal that the policy
-- allows. Otherwise it does not run, the world stays as it is, and the guard fails: for the want of a
-- principal if there is none or it is the anonymous one, else as denied to that principal.
pub require_guards :
    {W A : Type 0} (p : Policy) (permission : String) (options : CheckOptions)
    (current : Option Principal) (effect : Effect W A) (w : W)
    → ((principal : Principal) × ((current ≡ some principal)
          × ((can p principal permission options ≡ true)
              × (require p permission options current effect w ≡ effect w))))
      ⊎ (((current ≡ none)
            × (require p permission options current effect w
                ≡ (err (unauthenticated permission none), w)))
          ⊎ ((principal : Principal) × ((current ≡ some principal)
                × ((can p principal permission options ≡ false)
                    × ((reason : DecisionReason) × (require p permission options current effect w
                          ≡ (
                            err (
                                if is_anonymous principal
                                then unauthenticated permission (some reason)
                                else permission_denied permission principal.id
                                    (some reason)
                                    options.scope),
                            w,
                          )))))))
unfolding require check
require_guards p permission options none effect w = inr (inl (refl, refl))
require_guards p permission options (some principal) effect w =
    elim (Bool-cases (can p principal permission options)) [
      | inl fine ↦ inl (principal, (refl, (fine, rw fine refl)))
      | inr refused ↦ inr (
          inr (
            principal,
            (
              refl,
              (
                refused,
                (
                  (decide p principal permission options).reason,
                  elim (Bool-cases (is_anonymous principal)) [
                    | inl nobody ↦ rw (refused, nobody) refl
                    | inr known ↦ rw (refused, known) refl
                  ],
                ),
              ),
            ),
          ))
    ]
