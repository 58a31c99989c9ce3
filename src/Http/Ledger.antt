-- ===== src/Http/Ledger.antt =====
-- What a mirror is, apart from its tables: submissions that wait, and a log that they are appended to.
use ahl_mirror.Prelude.{
  Bytes, Text, none, some, List, [], ◌∷◌, ◌++◌, ◌≡◌, sym, ap, ap₂, subst, ◌∙◌, inl, inr, map, In,
  In-map, eq_bytes, eq_bytes→eq, find_row-In,
}
use mathlib.Core.List.{map-append}
use ahl_mirror.Deps.{Deps}
use ahl_mirror.Metadata.{sha256_id}
use ahl_mirror.Store.Schema.{Connection, StagedRow, EntryRow}
use ahl_mirror.Store.Rows.{staged_at, entry_by_id}
use ahl_mirror.Store.Tree.{IdFree}
use ahl_mirror.Store.Tree.Rows.{entry_by_id-IdFree}

-- Submissions and log entries, by id; an entry's index is its place.
pub record Ledger : Type 0 where
  pub waiting : List (Text × Bytes)
  pub log : List (Text × Bytes)

pub data Advance (d : Deps) (l : Ledger) : Ledger → Type 0 where
  -- Bytes are submitted under their hash.
  submits :
      (bytes : Bytes)
      → Advance d l (record l { waiting = l.waiting ++ (sha256_id d bytes, bytes) ∷ [] })
  -- A submission is appended, once.
  appends :
      (id : Text) (bytes : Bytes)
      → In (id, bytes) l.waiting
      → ((other : Bytes) → ¬ In (id, other) l.log)
      → Advance d l (record l { log = l.log ++ (id, bytes) ∷ [] })

-- Any number of them.
pub data Advances (d : Deps) (l : Ledger) : Ledger → Type 0 where
  stays : Advances d l l
  then : {k m : Ledger} → Advances d l k → Advance d k m → Advances d l m

pub Advances-trans : {d : Deps} {a b c : Ledger} → Advances d a b → Advances d b c → Advances d a c
Advances-trans h stays = h
Advances-trans h (then k last) = then (Advances-trans h k) last

abbrev staged_pair : StagedRow → Text × Bytes
staged_pair row = (row.entry_id, row.envelope)

abbrev entry_pair : EntryRow → Text × Bytes
entry_pair row = (row.entry_id, row.envelope)

-- The ledger that the tables stand for.
abbrev pub ledger_of : Connection → Ledger
ledger_of c = record { waiting = map staged_pair c.staged_entries; log = map entry_pair c.entries }

absent_from_log :
    (id : Text) (rows : List EntryRow) (other : Bytes)
    → IdFree id rows
    → ¬ In (id, other) (map entry_pair rows)
absent_from_log id [] other free here = here
absent_from_log id (row ∷ rows) other free (inl e) = free.0 (ap (λ p. p.0) e)
absent_from_log id (row ∷ rows) other free (inr there) = absent_from_log id rows other free.1 there

module _ (d : Deps) where
  pub ledger-staged :
      (c after : Connection) (bytes : Bytes)
      → after.staged_entries
        ≡ c.staged_entries ++ record { entry_id = sha256_id d bytes; envelope = bytes } ∷ []
      → after.entries ≡ c.entries
      → Advances d (ledger_of c) (ledger_of after)
  ledger-staged c after bytes e same =
      let row : StagedRow = record { entry_id = sha256_id d bytes; envelope = bytes } in
      let waiting : map staged_pair after.staged_entries
          ≡ map staged_pair c.staged_entries ++ (sha256_id d bytes, bytes) ∷ [] =
        ap (map staged_pair) e ∙ map-append staged_pair c.staged_entries (row ∷ []) in
      let to : record (ledger_of c) {
        waiting = map staged_pair c.staged_entries ++ (sha256_id d bytes, bytes) ∷ [];
      }
          ≡ ledger_of after =
        ap₂ (λ w l. record { waiting = w; log = l }) (sym waiting)
          (ap (map entry_pair) (sym same)) in
      subst (Advances d (ledger_of c)) to (then stays (submits bytes))

  pub ledger-appended :
      (c after : Connection) (id : Text) (row : StagedRow) (new : EntryRow)
      → staged_at c id ≡ some row
      → entry_by_id c.entries id ≡ none
      → new.entry_id ≡ id
      → new.envelope ≡ row.envelope
      → after.entries ≡ c.entries ++ new ∷ []
      → after.staged_entries ≡ c.staged_entries
      → Advances d (ledger_of c) (ledger_of after)
  unfolding staged_at
  ledger-appended c after id row new held free named carried e same =
      let (here, passes) =
        find_row-In (λ (r : StagedRow). eq_bytes r.entry_id id) row c.staged_entries held in
      let row_id = eq_bytes→eq row.entry_id id passes in
      let waits : In (id, row.envelope) (map staged_pair c.staged_entries) =
        subst (λ t. In (t, row.envelope) (map staged_pair c.staged_entries)) row_id
          (In-map staged_pair row c.staged_entries here) in
      let log : map entry_pair after.entries ≡ map entry_pair c.entries ++ (id, row.envelope) ∷ [] =
        ap (map entry_pair) e
        ∙ map-append entry_pair c.entries (new ∷ [])
        ∙ ap₂ (λ i b. map entry_pair c.entries ++ (i, b) ∷ []) named carried in
      let to : record (ledger_of c) { log = map entry_pair c.entries ++ (id, row.envelope) ∷ [] }
          ≡ ledger_of after =
        ap₂ (λ w l. record { waiting = w; log = l }) (ap (map staged_pair) (sym same)) (sym log) in
      subst (Advances d (ledger_of c)) to (
        then stays (
          appends id row.envelope waits
            (λ other. absent_from_log id c.entries other (entry_by_id-IdFree c.entries id free))))
