-- ===== src/Outbox/Inbox.antt =====
-- InMemoryInbox of packages/eventsourcing/src/memory.ts, and `dedupe` of
-- packages/eventsourcing/src/Outbox.ts.
use structure.Prelude.{
  String, List, append_text, Bool, if◌then◌else◌, Result, includes, ◌++◌, Option, ◌∷◌, err, ok,
  text_equality, [], some, none,
}

abbrev pub Keys : Type 0
Keys = List String

unfoldable pub inbox_key : String → String → String
inbox_key consumer_id message_id = append_text consumer_id (append_text "\0" message_id)

unfoldable pub seen : String → String → Keys → Bool
seen consumer_id message_id keys = includes (inbox_key consumer_id message_id) keys

-- `new Set(keys).add(key)`
unfoldable pub mark_processed : String → String → Keys → Keys
mark_processed consumer_id message_id keys =
    if seen consumer_id message_id keys then keys else keys ++ inbox_key consumer_id message_id ∷ []

-- The world of an effect: the inbox, and the rest.
abbrev pub InboxWorld : Type 0 → Type 0
InboxWorld W = Keys × W

abbrev pub mark_after :
    {W E A : Type 0}
    → String
    → String
    → Result E A
    → InboxWorld W
    → Result E (Option A) × InboxWorld W
mark_after consumer_id message_id (err e) w = (err e, w)
mark_after consumer_id message_id (ok a) w =
    (ok (some a), (mark_processed consumer_id message_id w.0, w.1))

unfoldable pub dedupe :
    {W E A : Type 0}
    → String
    → String
    → (InboxWorld W → Result E A × InboxWorld W)
    → InboxWorld W
    → Result E (Option A) × InboxWorld W
dedupe consumer_id message_id effect w =
    if seen consumer_id message_id w.0
    then (ok none, w)
    else mark_after consumer_id message_id (effect w).0 (effect w).1
