-- ===== src/Http/Steps.antt =====
-- src/http.rs over src/store.rs: what one hold of the store's lock writes, in any order of requests.
use ahl_mirror.Prelude.{
  ℕ, Bytes, Text, some, List, ◌++◌, ◌≡◌, refl, inl, inr, arith, find_row-append, Option-cases,
}
use ahl_mirror.Error.{ok}
use ahl_mirror.Deps.{Deps, Hash}
use ahl_mirror.Store.Schema.{Connection, Checkpoint, EntryRow, empty}
use ahl_mirror.Store.Exec.{with_transaction}
use ahl_mirror.Store.Rows.{entry_by_id}
use ahl_mirror.Store.Entries.{get_entry_by_id}
use ahl_mirror.Ingest.{stage_entry, promote_entry}
use ahl_mirror.Ingest.History.{IsSound, IsSound-empty}
use ahl_mirror.Series.Admit.{PendingPromotion, Admission, commit_admission}
use ahl_mirror.Retrieval.{present, retrieve_by_id}
use ahl_mirror.Http.Ledger.{Advances, ledger_of}
use ahl_mirror.Http.Growth.{
  Extends, Keeps, Keeps-refl, Keeps-trans, stage_entry-Keeps, promote_entry-Keeps,
  commit_admission-Keeps,
}

module _ (d : Deps) where
  -- One hold of the lock that may write. What a handler read before it, under another hold, stands
  -- here as any checkpoint, any root and any admission.
  pub data Step (c : Connection) : Connection → Type 0 where
    stages :
        (id : Text) (bytes : Bytes) (metadata : d.Value)
        → Step c (stage_entry d id bytes metadata c).1
    promotes :
        (cp : Checkpoint) (id : Text) (index : ℕ) (path : List Text)
        → Step c (promote_entry d cp id index path c).1
    admits :
        (cp : Checkpoint) (pending : List PendingPromotion) (root : Hash) (admission : Admission)
        → Step c (with_transaction (commit_admission d cp pending root admission) c).1

  -- The stores that any number of such holds lead to, by any clients and in any order.
  pub data Reach (c : Connection) : Connection → Type 0 where
    here : Reach c c
    next : {b a : Connection} → Reach c b → Step b a → Reach c a

  Step-Keeps : {c after : Connection} → Step c after → IsSound d c → Keeps d c after
  Step-Keeps {c = c} (stages id bytes metadata) s = stage_entry-Keeps d c id bytes metadata s
  Step-Keeps {c = c} (promotes cp id index path) s = promote_entry-Keeps d c cp id index path s
  Step-Keeps {c = c} (admits cp pending root admission) s =
      commit_admission-Keeps d c cp pending root admission s

  pub Reach-Keeps : {c after : Connection} → Reach c after → IsSound d c → Keeps d c after
  Reach-Keeps {c = c} here s = Keeps-refl d c s
  Reach-Keeps {c = c} {after = after} (next {b = b} before step) s =
      let kept = Reach-Keeps before s in Keeps-trans d c b after kept (Step-Keeps step kept.sound)

  -- Whatever writes reach an empty store, in whatever order the holds of its lock interleave, and
  -- even when what was read before a hold is out of date by then, the store stays sound.
  pub Reach-IsSound : {c : Connection} → Reach empty c → IsSound d c
  Reach-IsSound reached = (Reach-Keeps reached (IsSound-empty d)).sound

  -- The tables implement the ledger: whatever a hold of the lock writes to a sound store, what the
  -- tables stand for goes on by submissions under their hashes and by appending waiting submissions,
  -- each once, or stays as it is.
  pub Step-Advances :
      {c after : Connection}
      → Step c after
      → IsSound d c
      → Advances d (ledger_of c) (ledger_of after)
  Step-Advances step s = (Step-Keeps step s).advances

  entry_by_id-append :
      (rows more : List EntryRow) (id : Text) (row : EntryRow)
      → entry_by_id rows id ≡ some row
      → entry_by_id (rows ++ more) id ≡ some row
  unfolding entry_by_id
  entry_by_id-append rows more id row found = rw (find_row-append, found) refl

  get_entry_by_id-Extends :
      (c after : Connection) (id : Text) (index : ℕ) (bytes : Bytes)
      → Extends c.entries after.entries
      → retrieve_by_id d c id ≡ ok (present index bytes)
      → retrieve_by_id d after id ≡ ok (present index bytes)
  unfolding retrieve_by_id get_entry_by_id entry_by_id
  get_entry_by_id-Extends c after id index bytes (more, e) h =
      elim (Option-cases (entry_by_id c.entries id)) [
        | inl absent ↦ absurd (ground (arith, absent))
        | inr (row, found) ↦
            let stays : entry_by_id after.entries id ≡ some row =
              rw e (entry_by_id-append c.entries more id row found) in
            ground (arith, found, stays)
      ]

  -- Bytes that a sound store serves under an id stay served under it, at the same index, whatever
  -- writes come after.
  pub Reach-retrieve_by_id :
      {c after : Connection} (id : Text) (index : ℕ) (bytes : Bytes)
      → IsSound d c
      → Reach c after
      → retrieve_by_id d c id ≡ ok (present index bytes)
      → retrieve_by_id d after id ≡ ok (present index bytes)
  Reach-retrieve_by_id {c = c} {after = after} id index bytes s reached =
      get_entry_by_id-Extends c after id index bytes (Reach-Keeps reached s).grows.entries
