-- ===== src/Outbox/Claiming.antt =====
-- About what `claim` hands out, and the claims it leaves.
use structure.Prelude.{
  String, Bool, ℕ, ◌==◌, List, text_equality, Dict, ◌≡◌, lookup, ◌++◌, if◌then◌else◌, take, some_of,
  ◌-◌, length, filter, arith, some, append-nil, ◌∷◌, length-append, [], append_assoc, lookup-insert,
  insert, take-nil, Bool-cases, leb, inl, take-full, inr, take-suc, ◌∙◌, refl, ◌+◌, ltb, subst,
  false, sym, true, ◌⊎◌,
}
use structure.Outbox.Store.{
  claim_each, OutboxEntry, OutboxState, ClaimState, deliverable, claim, pending, mem_token, values,
}

abbrev pub names : String → OutboxEntry → Bool
names id entry = entry.message.id == id

claim_each-entries :
    (s : OutboxState) (now limit : ℕ) (owner : ClaimState) (entries claimed : List OutboxEntry)
    (claims : Dict String ClaimState)
    → (claim_each s now limit owner entries claimed claims).0
      ≡ claimed ++ take (limit - length claimed) (filter (deliverable s now) entries)
unfolding claim_each
claim_each-entries s now limit owner [] claimed claims =
    ground (arith, append-nil claimed, take-nil {A = OutboxEntry} (limit - length claimed))
claim_each-entries s now limit owner (entry ∷ entries) claimed claims =
    elim (Bool-cases (leb limit (length claimed))) [
      | inl full ↦
          rw
            (
              full,
              take-full (limit - length claimed) (filter (deliverable s now) (entry ∷ entries))
                  (ground arith),
              append-nil,
            )
            refl
      | inr room ↦ elim (Bool-cases (deliverable s now entry)) [
        | inl fit ↦
            rw
              (
                room,
                fit,
                take-suc (limit - length claimed) (limit - length (claimed ++ entry ∷ [])) entry
                    (filter (deliverable s now) entries)
                    (ground (arith, length-append claimed (entry ∷ []))),
              )
              (claim_each-entries s now limit owner entries (claimed ++ entry ∷ [])
                  (insert entry.message.id owner claims)
                ∙ append_assoc claimed (entry ∷ []) (
                    take (limit - length (claimed ++ entry ∷ []))
                      (filter (deliverable s now) entries)))
        | inr unfit ↦ rw (room, unfit) (claim_each-entries s now limit owner entries claimed claims)
      ]
    ]

claim_each-claims :
    (s : OutboxState) (now limit : ℕ) (owner : ClaimState) (entries claimed : List OutboxEntry)
    (claims : Dict String ClaimState) (id : String)
    → lookup id (claim_each s now limit owner entries claimed claims).1 ≡ (
        if some_of (names id) (take (limit - length claimed) (filter (deliverable s now) entries))
        then some owner
        else lookup id claims)
unfolding claim_each
claim_each-claims s now limit owner [] claimed claims id =
    ground (arith, take-nil {A = OutboxEntry} (limit - length claimed))
claim_each-claims s now limit owner (entry ∷ entries) claimed claims id =
    elim (Bool-cases (leb limit (length claimed))) [
      | inl full ↦
          rw
            (
              full,
              take-full (limit - length claimed) (filter (deliverable s now) (entry ∷ entries))
                  (ground arith),
            )
            refl
      | inr room ↦ elim (Bool-cases (deliverable s now entry)) [
        | inl fit ↦
            rw
              (
                room,
                fit,
                take-suc (limit - length claimed) (limit - length (claimed ++ entry ∷ [])) entry
                    (filter (deliverable s now) entries)
                    (ground (arith, length-append claimed (entry ∷ []))),
              )
              (ground (
                arith,
                claim_each-claims s now limit owner entries (claimed ++ entry ∷ [])
                    (insert entry.message.id owner claims) id,
                lookup-insert entry.message.id id owner claims,
              ))
        | inr unfit ↦
            rw (room, unfit) (claim_each-claims s now limit owner entries claimed claims id)
      ]
    ]

sub_zero : (n : ℕ) → n - 0 ≡ n
sub_zero n = omega arith

empty_of_length : (xs : List OutboxEntry) → ltb 0 (length xs) ≡ false → xs ≡ []
empty_of_length [] e = refl
empty_of_length (x ∷ xs) e = absurd (ground arith)

-- The entries that a claim hands out are those that `pending` shows at that instant.
pub claim-eq-pending :
    (limit lease now : ℕ) (s : OutboxState)
    → (claim limit lease now s).0.entries ≡ pending limit now s
unfolding claim
claim-eq-pending limit lease now s =
    subst
      (λ n.
        (claim limit lease now s).0.entries
        ≡ take n (filter (deliverable s now) (values s.entries)))
      (sub_zero limit)
      (claim_each-entries s now limit
        (record { token = mem_token s.next_token; lease_until = now + lease }) (values s.entries) []
        s.claims)

-- After a claim, the claims are those of before, except that the entries handed out are now under
-- the claim's own token and lease.
pub claim-claims :
    (limit lease now : ℕ) (s : OutboxState) (id : String)
    → lookup id (claim limit lease now s).1.claims ≡ (
        if some_of (names id) (pending limit now s)
        then some (record { token = mem_token s.next_token; lease_until = now + lease })
        else lookup id s.claims)
unfolding claim
claim-claims limit lease now s id =
    elim (Bool-cases (ltb 0 (length (claim limit lease now s).0.entries))) [
      | inl full ↦ rw full (
          subst
            (λ n. lookup id (claim_each s now limit owner (values s.entries) [] s.claims).1 ≡ (
              if some_of (names id) (take n (filter (deliverable s now) (values s.entries)))
              then some owner
              else lookup id s.claims))
            (sub_zero limit)
            (claim_each-claims s now limit owner (values s.entries) [] s.claims id))
      | inr empty ↦
          rw
            (
              empty,
              sym (claim-eq-pending limit lease now s)
                  ∙ empty_of_length (claim limit lease now s).0.entries empty,
            )
            refl
    ]
  where
    owner : ClaimState
    owner = record { token = mem_token s.next_token; lease_until = now + lease }

pub claim-entries :
    (limit lease now : ℕ) (s : OutboxState) → (claim limit lease now s).1.entries ≡ s.entries
unfolding claim
claim-entries limit lease now s =
    elim (Bool-cases (ltb 0 (length (claim limit lease now s).0.entries))) [
      | inl full ↦ rw full refl
      | inr empty ↦ rw empty refl
    ]

claim-counter_own :
    (limit lease now : ℕ) (s : OutboxState)
    → (claim limit lease now s).1.next_token ≡ (
        if ltb 0 (length (claim limit lease now s).0.entries)
        then s.next_token + 1
        else s.next_token)
unfolding claim
claim-counter_own limit lease now s =
    elim (Bool-cases (ltb 0 (length (claim limit lease now s).0.entries))) [
      | inl full ↦ rw full refl
      | inr empty ↦ rw empty refl
    ]

pub claim-counter :
    (limit lease now : ℕ) (s : OutboxState)
    → (claim limit lease now s).1.next_token
      ≡ (if ltb 0 (length (pending limit now s)) then s.next_token + 1 else s.next_token)
claim-counter limit lease now s =
    subst
      (λ xs.
        (claim limit lease now s).1.next_token
        ≡ (if ltb 0 (length xs) then s.next_token + 1 else s.next_token))
      (claim-eq-pending limit lease now s) (claim-counter_own limit lease now s)

some_of-length :
    (p : OutboxEntry → Bool) (xs : List OutboxEntry)
    → some_of p xs ≡ true
    → ltb 0 (length xs) ≡ true
some_of-length p [] h = absurd (cc)
some_of-length p (x ∷ xs) h = ground arith

-- A claim that is there after `claim` is an old one, or the call's own.
pub claim-change :
    (limit lease now : ℕ) (s : OutboxState) (id : String) (held : ClaimState)
    → lookup id (claim limit lease now s).1.claims ≡ some held
    → (lookup id s.claims ≡ some held)
      ⊎ ((some_of (names id) (pending limit now s) ≡ true)
          × ((held.token ≡ mem_token s.next_token)
              × ((claim limit lease now s).1.next_token ≡ s.next_token + 1)))
claim-change limit lease now s id held e =
    elim (Bool-cases (some_of (names id) (pending limit now s))) [
      | inr out ↦
          inl (subst (λ b. (if b then some owner else lookup id s.claims) ≡ some held) out found)
      | inl taken ↦ inr (
        taken,
        (
          claimed taken,
          rw
              (
                claim-counter limit lease now s,
                some_of-length (names id) (pending limit now s) taken,
              )
              refl,
        ),
      )
    ]
  where
    owner : ClaimState
    owner = record { token = mem_token s.next_token; lease_until = now + lease }

    found :
        (if some_of (names id) (pending limit now s) then some owner else lookup id s.claims)
        ≡ some held
    found = sym (claim-claims limit lease now s id) ∙ e

    claimed : some_of (names id) (pending limit now s) ≡ true → held.token ≡ mem_token s.next_token
    claimed taken =
        ground (
          arith,
          subst (λ b. (if b then some owner else lookup id s.claims) ≡ some held) taken found,
        )
