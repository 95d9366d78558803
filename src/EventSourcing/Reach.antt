-- ===== src/EventSourcing/Reach.antt =====
-- The event store over time: any sequence of appends, history imports and erasures, each an atomic
-- step of the store's ref.
use structure.EventSourcing.Event.{AppendEvent, Json}
use structure.EventSourcing.Store.{init, append}
use structure.EventSourcing.Import.{Codec, HistoryImportBatch}
use structure.EventSourcing.Commit.{import_batch}
use structure.EventSourcing.Erasure.{World, StreamErasureRequest, erase_stream}
use structure.EventSourcing.Invariant.{IsWellFormed}
use structure.EventSourcing.Invariant.Append.{append-IsWellFormed}
use structure.EventSourcing.Invariant.Import.{import_batch-IsWellFormed}
use structure.EventSourcing.Invariant.Erase.{erase_stream-IsWellFormed}
use structure.Prelude.{ℕ, String, List, lookup, Option, Dict, refl}

pub data Step (c : Codec) : World → World → Type 0 where
  append_step :
      (u : World) (name : String) (expected : ℕ) (events : List AppendEvent)
      → Step c u (record u { store = (append name expected events u.store).1 })
  import_step :
      (u : World) (batch : HistoryImportBatch)
      → Step c u (record u { store = (import_batch c batch u.store).1 })
  erase_step :
      (u : World) (request : StreamErasureRequest) (erased_at : String)
      → Step c u (erase_stream request erased_at u).1

pub data Reach (c : Codec) (u : World) : World → Type 0 where
  here : Reach c u u
  next : {v w : World} → Reach c u v → Step c v w → Reach c u w

Step-IsWellFormed :
    {c : Codec} {u v : World} → Step c u v → IsWellFormed u.store → IsWellFormed v.store
Step-IsWellFormed (append_step u name expected events) w =
    append-IsWellFormed name expected events u.store w
Step-IsWellFormed {c} (import_step u batch) w = import_batch-IsWellFormed c batch u.store w
Step-IsWellFormed (erase_step u request erased_at) w =
    erase_stream-IsWellFormed request erased_at u w

pub Reach-IsWellFormed :
    {c : Codec} {u v : World} → Reach c u v → IsWellFormed u.store → IsWellFormed v.store
Reach-IsWellFormed here w = w
Reach-IsWellFormed (next r s) w = Step-IsWellFormed s (Reach-IsWellFormed r w)

pub init-IsWellFormed : IsWellFormed init
unfolding lookup
init-IsWellFormed = record {
  positions = tt;
  indexed = λ name. refl;
  versions = λ name. tt;
  pinned = λ name r e. absurd (cc);
}

-- From an empty store, whatever the appends, the imports and the erasures, and whatever they answer:
-- the global log is numbered 1, 2, … with no gap, every stream is the part of the log with its name
-- and is numbered 1, 2, …, and every erased stream holds tombstones only, as many as its ledger says.
pub reachable-IsWellFormed :
    (c : Codec) (snapshots : Option (Dict String Json)) {v : World}
    → Reach c (record { store = init; snapshots = snapshots }) v
    → IsWellFormed v.store
reachable-IsWellFormed c snapshots r = Reach-IsWellFormed r init-IsWellFormed
