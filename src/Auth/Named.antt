-- ===== src/Auth/Named.antt =====
-- Tables whose keys are made from their values, as every table of packages/auth/src/store.ts is.
use structure.Prelude.{
  lookup_apart, same_refl, Bool-cases, false, length, ◌≤◌, ap, String, Bool, Dict, ◌∷◌, [], some,
  none, true, lookup, insert, delete, filter, map, IsMap, insert-IsMap, delete-IsMap, filter-IsMap,
  lookup-insert, lookup-delete, lookup-filter, lookup-filter_missing, lookup-empty, ◌≡◌, refl,
  text_equality, arith, inl, inr, Option-cases,
}

module _ {V : Type 0} (name : V → String) where
  pub record IsNamed (table : Dict String V) : Type 0 where
    pub map : IsMap table
    pub named : (key : String) (value : V) → lookup key table ≡ some value → key ≡ name value

  pub empty-IsNamed : IsNamed []
  unfolding IsMap
  empty-IsNamed = record {
    map = tt;
    named = λ key value found. absurd (cc (lookup-empty {V = V} key));
  }

  insert-named :
      (key : String) (value : V) (table : Dict String V)
      → key ≡ name value
      → IsNamed table
      → (here : String) (found : V) → lookup here (insert key value table) ≡ some found
      → here ≡ name found
  insert-named key value table e h here found p = ground (
    arith,
    lookup-insert key here value table,
    text_equality.same_iff key here,
    h.named here found,
  )

  pub insert-IsNamed :
      (key : String) (value : V) (table : Dict String V)
      → key ≡ name value
      → IsNamed table
      → IsNamed (insert key value table)
  insert-IsNamed key value table e h = record {
    map = insert-IsMap key value table h.map;
    named = insert-named key value table e h;
  }

  delete-named :
      (key : String) (table : Dict String V)
      → IsNamed table
      → (here : String) (found : V) → lookup here (delete key table) ≡ some found
      → here ≡ name found
  delete-named key table h here found p =
      ground (arith, lookup-delete key here table, h.named here found)

  pub delete-IsNamed :
      (key : String) (table : Dict String V) → IsNamed table → IsNamed (delete key table)
  delete-IsNamed key table h = record {
    map = delete-IsMap key table h.map;
    named = delete-named key table h;
  }

  -- What a filter on the values leaves was there, and passes the test.
  pub lookup-filter-some :
      (p : V → Bool) (key : String) (found : V) (table : Dict String V)
      → IsMap table
      → lookup key (filter (λ e. p e.1) table) ≡ some found
      → (lookup key table ≡ some found) × (p found ≡ true)
  lookup-filter-some p key found table h e = elim (Option-cases (lookup key table)) [
    | inl missing ↦ absurd (cc (lookup-filter_missing (λ e. p e.1) key table missing))
    | inr (value, known) ↦ ground (arith, lookup-filter p key value table h known)
  ]

  pub filter-IsNamed :
      (p : V → Bool) (table : Dict String V) → IsNamed table → IsNamed (filter (λ e. p e.1) table)
  filter-IsNamed p table h = record {
    map = filter-IsMap (λ e. p e.1) table h.map;
    named = λ key found e. h.named key found (lookup-filter-some p key found table h.map e).0;
  }

-- How many values of a table pass a test.
module _ {V : Type 0} (p : V → Bool) where
  lookup_later :
      (here key : String) (value found : V) (table : Dict String V)
      → lookup here table ≡ none
      → lookup key table ≡ some found
      → lookup key ((here, value) ∷ table) ≡ some found
  unfolding lookup
  lookup_later here key value found table missing there =
      rw (lookup_apart here key table missing there) there

  lookup_here :
      (here : String) (value : V) (table : Dict String V)
      → lookup here ((here, value) ∷ table) ≡ some value
  unfolding lookup
  lookup_here here value table = rw (same_refl text_equality here) refl

  filter-none :
      (table : Dict String V)
      → IsMap table
      → ((key : String) (value : V) → lookup key table ≡ some value → p value ≡ false)
      → filter (λ e. p e.1) table ≡ []
  unfolding IsMap
  filter-none [] h none_there = refl
  filter-none ((here, value) ∷ table) (missing, h) none_there =
      rw (none_there here value (lookup_here here value table)) (
        filter-none table h λ key other there.
          none_there key other (lookup_later here key value other table missing there))

  rest_fails :
      (here : String) (value : V) (table : Dict String V)
      → lookup here table ≡ none
      → p value ≡ true
      → ((one other : String) (a b : V)
          → lookup one ((here, value) ∷ table) ≡ some a
          → lookup other ((here, value) ∷ table) ≡ some b
          → p a ≡ true
          → p b ≡ true
          → one ≡ other)
      → (key : String) (found : V) → lookup key table ≡ some found
      → p found ≡ false
  rest_fails here value table missing passed single key found there = elim (Bool-cases (p found)) [
    | inr failed ↦ failed
    | inl also ↦
        let same : here ≡ key =
          single here key value found (lookup_here here value table)
            (lookup_later here key value found table missing there) passed also in
        absurd (ground (arith, ap (λ k. lookup k table) same))
  ]

  -- Where two keys whose values pass the test are one key, one entry at most passes it.
  pub filter-single :
      (table : Dict String V)
      → IsMap table
      → ((one other : String) (a b : V)
          → lookup one table ≡ some a
          → lookup other table ≡ some b
          → p a ≡ true
          → p b ≡ true
          → one ≡ other)
      → length (filter (λ e. p e.1) table) ≤ 1
  unfolding IsMap
  filter-single [] h single = omega arith
  filter-single ((here, value) ∷ table) (missing, h) single = elim (Bool-cases (p value)) [
    | inr failed ↦ rw failed (
        filter-single table h λ one other a b left right pa pb.
          single one other a b (lookup_later here one value a table missing left)
            (lookup_later here other value b table missing right) pa pb)
    | inl passed ↦
        rw (passed, filter-none table h (rest_fails here value table missing passed single))
          (omega arith)
  ]

module _ {V : Type 0} (f : V → V) where
  abbrev pub map_values : Dict String V → Dict String V
  map_values = map (λ e. (e.0, f e.1))

  pub lookup-map_values :
      (key : String) (table : Dict String V)
      → lookup key (map_values table)
        ≡ elim (lookup key table) [ none ↦ none | some v ↦ some (f v) ]
  unfolding lookup
  lookup-map_values key [] = refl
  lookup-map_values key ((here, value) ∷ table) = ground (arith, lookup-map_values key table)

  pub map_values-IsMap : (table : Dict String V) → IsMap table → IsMap (map_values table)
  unfolding IsMap
  map_values-IsMap [] h = tt
  map_values-IsMap ((here, value) ∷ table) h =
      ground (arith, lookup-map_values here table, map_values-IsMap table h.1)

  map_values-named :
      (name : V → String)
      → ((v : V) → name (f v) ≡ name v)
      → (table : Dict String V) → IsNamed name table
      → (key : String) (found : V) → lookup key (map_values table) ≡ some found
      → key ≡ name found
  map_values-named name same table h key found e = elim (Option-cases (lookup key table)) [
    | inl missing ↦ absurd (ground (arith, lookup-map_values key table))
    | inr (value, known) ↦
        ground (arith, lookup-map_values key table, h.named key value, same value)
  ]

  pub map_values-IsNamed :
      (name : V → String)
      → ((v : V) → name (f v) ≡ name v)
      → (table : Dict String V) → IsNamed name table
      → IsNamed name (map_values table)
  map_values-IsNamed name same table h = record {
    map = map_values-IsMap table h.map;
    named = map_values-named name same table h;
  }
