-- ===== src/Prelude/Dictionary.antt =====
-- A JavaScript `Map`: its entries in insertion order. `set` on a known key keeps the key's place.
use mathlib.Core.Path.{◌≡◌, refl}
use mathlib.Core.Bool.{Bool, false, true}
use mathlib.Core.Option.{Option, none, some}
use mathlib.Core.List.{List, [], ◌∷◌}
use native.Mathlib.Omega.{arith}
use structure.Prelude.Tests.{same_refl, Equality, ◌==◌, if◌then◌else◌, is_some}
use structure.Prelude.Lists.{filter, length}
use Prim.Native.Nat.{suc, ◌≤◌, ◌<◌}

abbrev pub Dict {ℓ κ} : Type ℓ → Type κ → Type (ℓ ⊔ κ)
Dict K V = List (K × V)

module _ {ℓ κ} {K : Type ℓ} ⦃e : Equality K⦄ {V : Type κ} where
  -- `rest.get(key)`
  unfoldable pub lookup : K → Dict K V → Option V
  lookup key [] = none
  lookup key ((here, value) ∷ rest) = if here == key then some value else lookup key rest

  -- `rest.has(key)`
  abbrev pub has : K → Dict K V → Bool
  has key rest = is_some (lookup key rest)

  -- `rest.set(key, value)`
  unfoldable pub insert : K → V → Dict K V → Dict K V
  insert key value [] = (key, value) ∷ []
  insert key value ((here, old) ∷ rest) =
      if here == key then (here, value) ∷ rest else (here, old) ∷ insert key value rest

  -- `rest.delete(key)`
  unfoldable pub delete : K → Dict K V → Dict K V
  delete key [] = []
  delete key ((here, old) ∷ rest) =
      if here == key then delete key rest else (here, old) ∷ delete key rest

  pub lookup-empty : (key : K) → lookup key [] ≡ none
  unfolding lookup
  lookup-empty key = refl

  pub lookup-insert :
      (key here : K) (value : V) (rest : Dict K V)
      → lookup here (insert key value rest) ≡ (if key == here then some value else lookup here rest)
  unfolding lookup insert
  lookup-insert key here value [] = refl
  lookup-insert key here value ((there, old) ∷ rest) = ground (
    arith,
    e.same_iff key here,
    e.same_iff there key,
    e.same_iff there here,
    lookup-insert key here value rest,
  )

  pub lookup-delete :
      (key here : K) (rest : Dict K V)
      → lookup here (delete key rest) ≡ (if key == here then none else lookup here rest)
  unfolding lookup delete
  lookup-delete key here [] = ground arith
  lookup-delete key here ((there, old) ∷ rest) = ground (
    arith,
    e.same_iff key here,
    e.same_iff there key,
    e.same_iff there here,
    lookup-delete key here rest,
  )

  -- A key that is missing is not a key that is there.
  pub lookup_apart :
      (key here : K) {value : V} (rest : Dict K V)
      → lookup key rest ≡ none
      → lookup here rest ≡ some value
      → (key == here) ≡ false
  lookup_apart key here rest missing found = ground (arith, e.same_iff key here)

  pub lookup-insert_self :
      (key : K) (value : V) (rest : Dict K V) → lookup key (insert key value rest) ≡ some value
  lookup-insert_self key value rest = rw (lookup-insert, same_refl e key) refl

  -- No key stands twice.
  unfoldable pub IsMap : Dict K V → Type (ℓ ⊔ κ)
  IsMap [] = Unit
  IsMap ((here, value) ∷ rest) = (lookup here rest ≡ none) × IsMap rest

  pub insert-IsMap :
      (key : K) (value : V) (rest : Dict K V) → IsMap rest → IsMap (insert key value rest)
  unfolding IsMap insert lookup
  insert-IsMap key value [] h = (refl, tt)
  insert-IsMap key value ((here, old) ∷ rest) h = ground (
    arith,
    lookup-insert key here value rest,
    e.same_iff key here,
    e.same_iff here key,
    insert-IsMap key value rest h.1,
  )

  pub delete-IsMap : (key : K) (rest : Dict K V) → IsMap rest → IsMap (delete key rest)
  unfolding IsMap delete lookup
  delete-IsMap key [] h = tt
  delete-IsMap key ((here, old) ∷ rest) h =
      ground (arith, lookup-delete key here rest, delete-IsMap key rest h.1)

  pub lookup-filter_missing :
      (p : K × V → Bool) (key : K) (rest : Dict K V)
      → lookup key rest ≡ none
      → lookup key (filter p rest) ≡ none
  unfolding lookup
  lookup-filter_missing p key [] missing = refl
  lookup-filter_missing p key ((here, old) ∷ rest) missing =
      ground (arith, lookup-filter_missing p key rest)

  pub filter-IsMap : (p : K × V → Bool) (rest : Dict K V) → IsMap rest → IsMap (filter p rest)
  unfolding IsMap
  filter-IsMap p [] h = tt
  filter-IsMap p ((here, old) ∷ rest) h =
      ground (arith, lookup-filter_missing p here rest h.0, filter-IsMap p rest h.1)

  -- Where no key stands twice, a filter on the values keeps or drops each key's value.
  pub lookup-filter :
      (p : V → Bool) (key : K) (value : V) (rest : Dict K V)
      → IsMap rest
      → lookup key rest ≡ some value
      → lookup key (filter (λ x. p x.1) rest) ≡ (if p value then some value else none)
  unfolding IsMap lookup
  lookup-filter p key value [] h found = absurd (cc)
  lookup-filter p key value ((here, old) ∷ rest) h found = ground (
    arith,
    e.same_iff here key,
    lookup-filter_missing (λ x. p x.1) here rest h.0,
    lookup-filter_missing (λ x. p x.1) key rest,
    lookup-filter p key value rest h.1,
  )

  pub length-insert_le :
      (key : K) (value : V) (rest : Dict K V) → length (insert key value rest) ≤ suc (length rest)
  unfolding insert
  length-insert_le key value [] = omega arith
  length-insert_le key value ((here, old) ∷ rest) = ground (arith, length-insert_le key value rest)

  pub length-delete_le : (key : K) (rest : Dict K V) → length (delete key rest) ≤ length rest
  unfolding delete
  length-delete_le key [] = omega arith
  length-delete_le key ((here, old) ∷ rest) = ground (arith, length-delete_le key rest)

  pub length-delete_lt :
      (key : K) (rest : Dict K V) → has key rest ≡ true → length (delete key rest) < length rest
  unfolding delete lookup
  length-delete_lt key [] h = absurd (cc)
  length-delete_lt key ((here, old) ∷ rest) h =
      ground (arith, length-delete_le key rest, length-delete_lt key rest)
