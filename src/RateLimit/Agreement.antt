-- ===== src/RateLimit/Agreement.antt =====
-- About `peek` and `consume`, and the sweep of the in-memory store.
use structure.RateLimit.Memory.{
  in_window, window_of, RateLimitRule, sweep, stale, MemoryStore, no_entry, MemoryEntry, charge,
  peek, MemoryOptions, consume, prepare, sweep_due,
}
use structure.Prelude.{
  ℕ, List, String, ◌≤◌, every, IsMap, leb, ◌≡◌, ◌+◌, ◌⊎◌, true, filter, [], ◌∷◌, Option-cases,
  arith, lookup, inl, refl, lookup-filter_missing, not, inr, Bool-cases, lookup-filter,
  text_equality, ltb, ◌∙◌, max, sym, length, ap, false, ◌-◌, ◌++◌, length-append,
}

outside :
    (rule : RateLimitRule) (timestamp longest : ℕ) (hits : List ℕ)
    → rule.window_millis ≤ longest
    → every (λ hit. leb (hit + longest) timestamp) hits ≡ true
    → filter (in_window rule timestamp) hits ≡ []
unfolding in_window
outside rule timestamp longest [] wide h = refl
outside rule timestamp longest (x ∷ hits) wide h =
    ground (arith, outside rule timestamp longest hits wide)

-- The sweep removes only entries with no hit in any window and no block.
pub window_of-sweep :
    (key : String) (rule : RateLimitRule) (timestamp : ℕ) (s : MemoryStore)
    → IsMap s.entries
    → rule.window_millis ≤ s.longest_window
    → (window_of key rule timestamp (sweep timestamp s).entries
        ≡ window_of key rule timestamp s.entries)
      ⊎ ((window_of key rule timestamp (sweep timestamp s).entries ≡ no_entry)
          × (((window_of key rule timestamp s.entries).hits ≡ [])
              × ((window_of key rule timestamp s.entries).blocked_until ≤ timestamp)))
unfolding window_of sweep stale
window_of-sweep key rule timestamp s d wide = elim (Option-cases (lookup key s.entries)) [
  | inl missing ↦ inl (
      rw (missing, lookup-filter_missing (λ x. not (stale s timestamp x.1)) key s.entries missing)
        refl)
  | inr (entry, found) ↦ elim (Bool-cases (stale s timestamp entry)) [
    | inr fresh ↦ inl (
        rw
          (found, lookup-filter (λ v. not (stale s timestamp v)) key entry s.entries d found, fresh)
          refl)
    | inl old ↦ inr (
        rw (found, lookup-filter (λ v. not (stale s timestamp v)) key entry s.entries d found, old)
          (
            refl,
            (outside rule timestamp s.longest_window entry.hits wide (ground arith), ground arith),
          ))
  ]
]

charge_alike :
    (rule : RateLimitRule) (timestamp : ℕ) (a b : MemoryEntry)
    → a.hits ≡ b.hits
    → a.blocked_until ≤ timestamp
    → b.blocked_until ≤ timestamp
    → charge rule timestamp a ≡ charge rule timestamp b
unfolding charge
charge_alike rule timestamp a b same ha hb = rw (free a ha, free b hb, same) refl
  where
    free : (c : MemoryEntry) → c.blocked_until ≤ timestamp → ltb timestamp c.blocked_until ≡ false
    free c h = ground arith

-- The sweep does not change what a charge does.
pub charge-prepare :
    (options : MemoryOptions) (key : String) (rule : RateLimitRule) (timestamp : ℕ)
    (s : MemoryStore)
    → IsMap s.entries
    → charge rule timestamp
        (window_of key rule timestamp (prepare options rule timestamp s).entries)
      ≡ charge rule timestamp (window_of key rule timestamp s.entries)
unfolding prepare
charge-prepare options key rule timestamp s d = elim (Bool-cases (sweep_due options timestamp s)) [
  | inr early ↦ rw early refl
  | inl due_now ↦
      rw due_now
        (elim (window_of-sweep key rule timestamp
          (record s { longest_window = max s.longest_window rule.window_millis }) d (omega arith)) [
            | inl same ↦ ap (charge rule timestamp) same
            | inr swept ↦
                charge_alike rule timestamp
                  (window_of key rule timestamp
                    (sweep timestamp (record s {
                      longest_window = max s.longest_window rule.window_millis;
                    })).entries)
                  (window_of key rule timestamp s.entries)
                  (ap (λ e. e.hits) swept.0 ∙ sym swept.1.0) (rw swept.0 (omega arith)) swept.1.1
          ])
]

-- Where no key stands twice, a look at a key says whether charging it at that instant is allowed,
-- under the same limit; if it is, neither asks to wait, and the charge leaves one less than the look
-- shows; if not, both leave nothing.
pub consume-eq-peek :
    (options : MemoryOptions) (key : String) (rule : RateLimitRule) (timestamp : ℕ)
    (s : MemoryStore)
    → IsMap s.entries
    → ((consume options key rule timestamp s).0.limit ≡ (peek key rule timestamp s).limit)
      × ((((peek key rule timestamp s).allowed ≡ true)
            × (((consume options key rule timestamp s).0.allowed ≡ true)
                × (((consume options key rule timestamp s).0.remaining + 1
                      ≡ (peek key rule timestamp s).remaining)
                    × (((consume options key rule timestamp s).0.retry_after_millis ≡ 0)
                        × ((peek key rule timestamp s).retry_after_millis ≡ 0)))))
          ⊎ (((peek key rule timestamp s).allowed ≡ false)
              × (((consume options key rule timestamp s).0.allowed ≡ false)
                  × (((consume options key rule timestamp s).0.remaining ≡ 0)
                      × ((peek key rule timestamp s).remaining ≡ 0)))))
unfolding consume charge peek
consume-eq-peek options key rule timestamp s d =
    let entry = window_of key rule timestamp s.entries in
    rw (charge-prepare options key rule timestamp s d)
      (elim (Bool-cases (ltb timestamp entry.blocked_until)) [
        | inl blocked ↦ rw blocked (refl, inr (refl, (refl, (refl, refl))))
        | inr unblocked ↦ elim (Bool-cases (leb rule.points (length entry.hits))) [
          | inl full ↦ rw (unblocked, full) (refl, inr (refl, (refl, (refl, refl))))
          | inr room ↦
              rw (unblocked, room) (refl, inl (refl, (refl, (one_less entry room, (refl, refl)))))
        ]
      ])
  where
    one_less :
        (entry : MemoryEntry)
        → leb rule.points (length entry.hits) ≡ false
        → rule.points - length (entry.hits ++ timestamp ∷ []) + 1 ≡ rule.points - length entry.hits
    one_less entry room = ground (arith, room, length-append entry.hits (timestamp ∷ []))
