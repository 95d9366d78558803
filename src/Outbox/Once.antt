-- ===== src/Outbox/Once.antt =====
-- About repeated deliveries to `dedupe`.
use structure.Prelude.{
  String, Result, Option, ◌≡◌, true, ok, Bool-cases, err, none, includes, inl, arith, inr,
  includes-append, refl, same_refl, text_equality, false, subst, sym, ap, ◌∙◌,
}
use structure.Outbox.Inbox.{mark_processed, dedupe, seen, InboxWorld, Keys, mark_after, inbox_key}

marked-seen :
    (consumer_id message_id : String) (keys : Keys)
    → seen consumer_id message_id (mark_processed consumer_id message_id keys) ≡ true
unfolding mark_processed seen
marked-seen consumer_id message_id keys =
    elim (Bool-cases (includes (inbox_key consumer_id message_id) keys)) [
      | inl old ↦ rw (old, old) refl
      | inr new ↦ rw (new, includes-append, new, same_refl text_equality) refl
    ]

after_mark :
    {W E A : Type 0} (consumer_id message_id : String) (answer : Result E A) (w : InboxWorld W)
    (result : Option A)
    → (mark_after consumer_id message_id answer w).0 ≡ ok result
    → seen consumer_id message_id (mark_after consumer_id message_id answer w).1.0 ≡ true
after_mark consumer_id message_id (err e) w result h = absurd (cc)
after_mark consumer_id message_id (ok a) w result h = marked-seen consumer_id message_id w.0

after_error :
    {W E A : Type 0} (consumer_id message_id : String) (answer : Result E A) (w : InboxWorld W)
    (e : E)
    → (mark_after consumer_id message_id answer w).0 ≡ err e
    → (mark_after consumer_id message_id answer w).1 ≡ w
after_error consumer_id message_id (err f) w e h = refl
after_error consumer_id message_id (ok a) w e h = absurd (cc)

module _ {W E A : Type 0} (consumer_id message_id : String)
    (effect : InboxWorld W → Result E A × InboxWorld W) (w : InboxWorld W) where
  dedupe-new :
      seen consumer_id message_id w.0 ≡ false
      → dedupe consumer_id message_id effect w
        ≡ mark_after consumer_id message_id (effect w).0 (effect w).1
  unfolding dedupe
  dedupe-new new = rw new refl

  dedupe-seen :
      seen consumer_id message_id w.0 ≡ true → dedupe consumer_id message_id effect w ≡ (ok none, w)
  unfolding dedupe
  dedupe-seen old = rw old refl

-- A message whose handling succeeded is not handled again: a later delivery to the consumer runs no
-- effect, whatever the effect, answers none and changes nothing. A handling that fails leaves the
-- inbox and the rest as the effect left them, so that a redelivery may run it again.
pub dedupe_once :
    {W E A : Type 0} (consumer_id message_id : String)
    (effect again : InboxWorld W → Result E A × InboxWorld W) (w : InboxWorld W)
    → ((result : Option A)
        → (dedupe consumer_id message_id effect w).0 ≡ ok result
        → dedupe consumer_id message_id again (dedupe consumer_id message_id effect w).1
          ≡ (ok none, (dedupe consumer_id message_id effect w).1))
      × ((e : E)
          → (dedupe consumer_id message_id effect w).0 ≡ err e
          → (dedupe consumer_id message_id effect w).1 ≡ (effect w).1)
unfolding dedupe
dedupe_once consumer_id message_id effect again w =
    elim (Bool-cases (seen consumer_id message_id w.0)) [
      | inl old ↦ (
        λ result h.
            dedupe-seen consumer_id message_id again (dedupe consumer_id message_id effect w).1 (
              subst (λ p. seen consumer_id message_id p.1.0 ≡ true)
                (sym (dedupe-seen consumer_id message_id effect w old)) old),
        λ e h. absurd (ground (arith, old, h)),
      )
      | inr new ↦ (
        λ result h.
            dedupe-seen consumer_id message_id again (dedupe consumer_id message_id effect w).1 (
              subst (λ p. seen consumer_id message_id p.1.0 ≡ true)
                (sym (dedupe-new consumer_id message_id effect w new))
                (after_mark consumer_id message_id (effect w).0 (effect w).1 result
                  (ap (λ p. p.0) (sym (dedupe-new consumer_id message_id effect w new)) ∙ h))),
        λ e h.
            ap (λ p. p.1) (dedupe-new consumer_id message_id effect w new)
            ∙ after_error consumer_id message_id (effect w).0 (effect w).1 e
                (ap (λ p. p.0) (sym (dedupe-new consumer_id message_id effect w new)) ∙ h),
      )
    ]
