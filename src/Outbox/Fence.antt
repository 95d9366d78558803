-- ===== src/Outbox/Fence.antt =====
-- About settlements under a claim token (`owns` of packages/eventsourcing/src/memory.ts).
use text.Mathlib.TextLemmas.{append_cancel_left}
use structure.Prelude.{
  String, ◌∷◌, ℕ, lookup, [], ◌≡◌, some, decimal_injective, ◌<◌, false, ◌≢◌, text_equality, Option,
  Option-cases, inl, inr, arith, refl, sym, ◌∙◌, decimal,
}
use structure.Outbox.Store.{
  mark_published, mem_token, OutboxState, ClaimState, publish_each, mark_failed, mark_dead, owns,
}
use structure.Outbox.Follows.{Follows}
use structure.Outbox.Invariant.{IsConsistent}
use structure.Outbox.Reach.{Reach, Reach-IsSound}

abbrev HoldsClaim : String → String → OutboxState → Type 0
HoldsClaim id token s = (c : ClaimState) × ((lookup id s.claims ≡ some c) × (c.token ≡ token))

-- Nothing that a relay does about the entry under the token has an effect.
pub record IsFenced (id token : String) (s : OutboxState) : Type 0 where
  pub published : mark_published (id ∷ []) (some token) s ≡ (false, s)
  pub failed :
      (error : String) (attempts : ℕ) (retry_at : Option ℕ)
      → mark_failed id error attempts retry_at (some token) s ≡ (false, s)
  pub dead : (error : String) → mark_dead id error (some token) s ≡ (false, s)

owns-lost :
    (id token : String) (s : OutboxState)
    → ((c : ClaimState) → lookup id s.claims ≡ some c → c.token ≢ token)
    → owns s id (some token) ≡ false
owns-lost id token s lost = elim (Option-cases (lookup id s.claims)) [
  | inl missing ↦ rw (owns, missing) refl
  | inr (c, found) ↦
      rw (owns, found) (ground (arith, text_equality.same_iff c.token token, lost c found))
]

IsFenced-of_lost :
    (id token : String) (s : OutboxState) → owns s id (some token) ≡ false → IsFenced id token s
unfolding mark_published publish_each mark_failed mark_dead
IsFenced-of_lost id token s lost = elim (Option-cases (lookup id s.entries)) [
  | inl missing ↦ record {
    published = rw (mark_published, publish_each, missing) refl;
    failed = λ error attempts retry_at. rw missing refl;
    dead = λ error. rw missing refl;
  }
  | inr (entry, found) ↦ record {
    published = rw (mark_published, publish_each, found, lost) refl;
    failed = λ error attempts retry_at. rw (found, lost) refl;
    dead = λ error. rw (found, lost) refl;
  }
]

mem_token_injective : (m n : ℕ) → mem_token m ≡ mem_token n → m ≡ n
unfolding mem_token
mem_token_injective m n e =
    decimal_injective m n (append_cancel_left "mem-" (decimal m) (decimal n) e)

lost_stays :
    {s t : OutboxState} (id : String) (k : ℕ)
    → Follows s t
    → k < s.next_token
    → ((c : ClaimState) → lookup id s.claims ≡ some c → c.token ≢ mem_token k)
    → (c : ClaimState) → lookup id t.claims ≡ some c
    → c.token ≢ mem_token k
lost_stays id k f issued lost c found same = elim (f.claims id c found) [
  | inl old ↦ lost c old same
  | inr (m, made) ↦
      absurd (omega (arith, issued, made.0, mem_token_injective m k (sym made.1 ∙ same)))
]

-- A token that was handed out and no longer claims an entry, because its lease was taken over or
-- because the entry was settled or replayed, never settles the entry again: whatever operations
-- follow, publishing, failing or dead-lettering it under the token answers false and changes nothing.
pub lost_claim-IsFenced :
    {s t : OutboxState} (id : String) (k : ℕ)
    → IsConsistent s
    → k < s.next_token
    → ((c : ClaimState) → lookup id s.claims ≡ some c → c.token ≢ mem_token k)
    → Reach s t
    → IsFenced id (mem_token k) t
lost_claim-IsFenced {s} {t} id k c issued lost r =
    IsFenced-of_lost id (mem_token k) t
      (owns-lost id (mem_token k) t (lost_stays id k (Reach-IsSound r c).follows issued lost))
