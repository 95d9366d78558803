-- ===== src/Outbox/Invariant.antt =====
-- What every state of the in-memory outbox satisfies.
use structure.Prelude.{
  Dict, insert, lookup, IsMap, String, Bool, ◌≡◌, some_of, ℕ, some, none, filter, true, ◌<◌, false,
  ◌∷◌, arith, text_equality, [], refl, Bool-cases, insert-IsMap, ◌==◌, ap, if◌then◌else◌, inl, ◌∙◌,
  Option-cases, inr, lookup-delete, lookup-insert, some_of-take,
}
use structure.Outbox.Store.{
  OutboxState, OutboxEntry, ClaimState, is_pending, values, mem_token, pending, without_claim,
  deliverable,
}
use structure.Outbox.Claiming.{names}

-- Every entry stands under its message's id.
unfoldable pub Keyed : Dict String OutboxEntry → Type 0
Keyed [] = Unit
Keyed ((id, entry) ∷ m) = (entry.message.id ≡ id) × Keyed m

pub record IsConsistent (s : OutboxState) : Type 0 where
  pub distinct : IsMap s.entries
  pub keyed : Keyed s.entries
  pub live :
      (id : String) (c : ClaimState)
      → lookup id s.claims ≡ some c
      → (entry : OutboxEntry) × ((lookup id s.entries ≡ some entry)
          × (is_pending entry.status ≡ true))
  pub minted :
      (id : String) (c : ClaimState)
      → lookup id s.claims ≡ some c
      → (k : ℕ) × ((k < s.next_token) × (c.token ≡ mem_token k))

pub insert-Keyed :
    (id : String) (entry : OutboxEntry) (m : Dict String OutboxEntry)
    → entry.message.id ≡ id
    → Keyed m
    → Keyed (insert id entry m)
unfolding Keyed insert
insert-Keyed id entry [] e h = (e, tt)
insert-Keyed id entry ((j, w) ∷ m) e h =
    ground (arith, text_equality.same_iff j id, insert-Keyed id entry m e h.1)

pub lookup-Keyed :
    (id : String) (entry : OutboxEntry) (m : Dict String OutboxEntry)
    → Keyed m
    → lookup id m ≡ some entry
    → entry.message.id ≡ id
unfolding Keyed lookup
lookup-Keyed id entry [] h e = absurd (cc)
lookup-Keyed id entry ((j, w) ∷ m) h e =
    ground (arith, text_equality.same_iff j id, lookup-Keyed id entry m h.1)

some_of-missing :
    (p : OutboxEntry → Bool) (id : String) (m : Dict String OutboxEntry)
    → Keyed m
    → lookup id m ≡ none
    → some_of (names id) (filter p (values m)) ≡ false
unfolding Keyed lookup
some_of-missing p id [] h e = refl
some_of-missing p id ((j, w) ∷ m) h e = ground (
  arith,
  text_equality.same_iff j id,
  text_equality.same_iff w.message.id id,
  some_of-missing p id m h.1,
)

-- An entry with the id is in a part of the table when the table's entry of that id is in it.
some_of-values :
    (p : OutboxEntry → Bool) (id : String) (m : Dict String OutboxEntry)
    → IsMap m
    → Keyed m
    → some_of (names id) (filter p (values m)) ≡ true
    → (entry : OutboxEntry) × ((lookup id m ≡ some entry) × (p entry ≡ true))
unfolding IsMap Keyed lookup
some_of-values p id [] d h e = absurd (cc)
some_of-values p id ((j, w) ∷ m) d h e = elim (Bool-cases (j == id)) [
  | inl same ↦
      rw same (w, (refl, ground (arith, text_equality.same_iff j id, some_of-missing p id m h.1)))
  | inr apart ↦ rw apart (
      some_of-values p id m d.1 h.1
        (ground (arith, text_equality.same_iff j id, text_equality.same_iff w.message.id id)))
]

-- An entry that a claim hands out is the table's entry of its id.
pub pending-deliverable :
    (limit now : ℕ) (s : OutboxState) (id : String)
    → IsConsistent s
    → some_of (names id) (pending limit now s) ≡ true
    → (entry : OutboxEntry) × ((lookup id s.entries ≡ some entry)
        × (deliverable s now entry ≡ true))
pending-deliverable limit now s id c h =
    some_of-values (deliverable s now) id s.entries c.distinct c.keyed
      (some_of-take (names id) limit (filter (deliverable s now) (values s.entries)) h)

pub lookup-without_claim :
    (claims : Dict String ClaimState) (id j : String)
    → lookup j (without_claim claims id) ≡ (if id == j then none else lookup j claims)
lookup-without_claim claims id j = elim (Option-cases (lookup id claims)) [
  | inl missing ↦ rw missing (ground (arith, text_equality.same_iff id j))
  | inr (c, found) ↦ rw found (lookup-delete id j claims)
]

pub released :
    (claims : Dict String ClaimState) (id j : String) {held : ClaimState}
    → lookup j (without_claim claims id) ≡ some held
    → ((id == j) ≡ false) × (lookup j claims ≡ some held)
released claims id j h = ground (arith, lookup-without_claim claims id j)

lookup-other :
    (id j : String) (new : OutboxEntry) (m : Dict String OutboxEntry)
    → (id == j) ≡ false
    → lookup j (insert id new m) ≡ lookup j m
lookup-other id j new m apart = rw (lookup-insert, apart) refl

-- A write of one entry that keeps its message, and releases its claim.
pub release-IsConsistent :
    (s : OutboxState) (id : String) (entry new : OutboxEntry)
    → IsConsistent s
    → lookup id s.entries ≡ some entry
    → new.message ≡ entry.message
    → IsConsistent
        (record s { entries = insert id new s.entries; claims = without_claim s.claims id })
release-IsConsistent s id entry new c found same = record {
  distinct = insert-IsMap id new s.entries c.distinct;
  keyed =
      insert-Keyed id new s.entries
        (ap (λ m. m.id) same ∙ lookup-Keyed id entry s.entries c.keyed found) c.keyed;
  live = λ j held e.
      let (apart, kept) = released s.claims id j e in
      let (old, facts) = c.live j held kept in
      (old, (lookup-other id j new s.entries apart ∙ facts.0, facts.1));
  minted = λ j held e. c.minted j held (released s.claims id j e).1;
}

-- A write of one entry that keeps its message, its claim, and whether it is pending.
pub keep-IsConsistent :
    (s : OutboxState) (id : String) (entry new : OutboxEntry)
    → IsConsistent s
    → lookup id s.entries ≡ some entry
    → new.message ≡ entry.message
    → new.status ≡ entry.status
    → IsConsistent (record s { entries = insert id new s.entries })
keep-IsConsistent s id entry new c found same status = record {
  distinct = insert-IsMap id new s.entries c.distinct;
  keyed =
      insert-Keyed id new s.entries
        (ap (λ m. m.id) same ∙ lookup-Keyed id entry s.entries c.keyed found) c.keyed;
  live = λ j held e. elim (Bool-cases (id == j)) [
    | inl mine ↦ (
      new,
      (
        rw (lookup-insert, mine) refl,
        ground (arith, text_equality.same_iff id j, c.live j held e, found, status),
      ),
    )
    | inr apart ↦
        let (old, facts) = c.live j held e in
        (old, (lookup-other id j new s.entries apart ∙ facts.0, facts.1))
  ];
  minted = c.minted;
}
