-- ===== src/Outbox/Follows.antt =====
-- How one state of the outbox follows another: no message is lost or altered, and every claim is
-- either an earlier one or was made in between, under a token that was not used before.
use structure.Prelude.{
  String, arith, ◌∙◌, lookup, inl, inr, Dict, ◌≡◌, some, ◌≤◌, insert, Bool-cases, text_equality,
  ◌⊎◌, ◌==◌, ℕ, lookup-insert, ◌<◌, refl,
}
use structure.Outbox.Store.{OutboxState, OutboxEntry, ClaimState, without_claim, mem_token}
use structure.Outbox.Invariant.{IsConsistent, released}

pub record Follows (s t : OutboxState) : Type 0 where
  pub keeps :
      (id : String) (entry : OutboxEntry)
      → lookup id s.entries ≡ some entry
      → (now : OutboxEntry) × ((lookup id t.entries ≡ some now) × (now.message ≡ entry.message))
  pub counter : s.next_token ≤ t.next_token
  pub claims :
      (id : String) (c : ClaimState)
      → lookup id t.claims ≡ some c
      → (lookup id s.claims ≡ some c)
        ⊎ ((k : ℕ) × (((s.next_token ≤ k) × (k < t.next_token)) × (c.token ≡ mem_token k)))

pub Follows_refl : (s : OutboxState) → Follows s s
Follows_refl s = record {
  keeps = λ id entry e. (entry, (e, refl));
  counter = omega arith;
  claims = λ id c e. inl e;
}

pub Follows_trans : {s t u : OutboxState} → Follows s t → Follows t u → Follows s u
Follows_trans {s} {t} {u} f g = record {
  keeps = λ id entry e.
      let (mid, a) = f.keeps id entry e in
      let (end, b) = g.keeps id mid a.0 in (end, (b.0, b.1 ∙ a.1));
  counter = omega (arith, f.counter, g.counter);
  claims = λ id c e. elim (g.claims id c e) [
    | inr (k, made) ↦ inr (k, ((omega (arith, f.counter, made.0), made.0.1), made.1))
    | inl kept ↦ elim (f.claims id c kept) [
      | inl old ↦ inl old
      | inr (k, made) ↦ inr (k, ((made.0.0, omega (arith, g.counter, made.0)), made.1))
    ]
  ];
}

pub write-keeps :
    (id : String) (entry new : OutboxEntry) (m : Dict String OutboxEntry)
    → lookup id m ≡ some entry
    → new.message ≡ entry.message
    → (j : String) (old : OutboxEntry) → lookup j m ≡ some old
    → (now : OutboxEntry) × ((lookup j (insert id new m) ≡ some now) × (now.message ≡ old.message))
write-keeps id entry new m found same j old e = elim (Bool-cases (id == j)) [
  | inl mine ↦
      (new, (rw (lookup-insert, mine) refl, ground (arith, text_equality.same_iff id j, same)))
  | inr apart ↦ (old, (rw (lookup-insert, apart) e, refl))
]

pub release-Follows :
    (s : OutboxState) (id : String) (entry new : OutboxEntry)
    → lookup id s.entries ≡ some entry
    → new.message ≡ entry.message
    → Follows s (record s { entries = insert id new s.entries; claims = without_claim s.claims id })
release-Follows s id entry new found same = record {
  keeps = write-keeps id entry new s.entries found same;
  counter = omega arith;
  claims = λ j c e. inl (released s.claims id j e).1;
}

pub keep-Follows :
    (s : OutboxState) (id : String) (entry new : OutboxEntry)
    → lookup id s.entries ≡ some entry
    → new.message ≡ entry.message
    → Follows s (record s { entries = insert id new s.entries })
keep-Follows s id entry new found same = record {
  keeps = write-keeps id entry new s.entries found same;
  counter = omega arith;
  claims = λ j c e. inl e;
}

-- One operation, from a consistent state.
pub record IsSound (s t : OutboxState) : Type 0 where
  pub consistent : IsConsistent t
  pub follows : Follows s t
