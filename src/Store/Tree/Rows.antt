-- ===== src/Store/Tree/Rows.antt =====
-- What the queries of the promotion path return on gap-free rows, and on the cache after a write.
use ahl_mirror.Prelude.{
  ℕ, zero, suc, ◌+◌, ◌^◌, ◌≤◌, none, some, List, [], ◌∷◌, ◌++◌, ◌≡◌, refl, sym, length, get_elem?,
  arith, Text, eq_bytes_iff, eq_bytes_refl, ◌==◌, ◌&&◌, if◌then◌else◌, find_row, select, not,
  find_row-append,
}
use ahl_mirror.Error.{ok}
use ahl_mirror.Deps.{Deps}
use ahl_mirror.Metadata.{log_leaf_hash}
use ahl_mirror.Store.Schema.{Connection, EntryRow, NodeRow}
use ahl_mirror.Store.Rows.{node_at, replace_node, entry_at, entry_by_id, max_index}
use ahl_mirror.Store.Entries.{next_index, index_after}
use ahl_mirror.Store.Tree.{Numbered, Hashed, IdFree, DistinctIds}

-- The row at an index of numbered rows is the row at that position.
entry_at-offset :
    (rows : List EntryRow) (start i k : ℕ)
    → Numbered start rows
    → k ≡ start + i
    → entry_at rows k ≡ get_elem? rows i
unfolding entry_at find_row
entry_at-offset [] start i k h e = refl
entry_at-offset (row ∷ rows) start zero k h e = ground (arith, h.0)
entry_at-offset (row ∷ rows) start (suc i) k h e =
    ground (arith, h.0, entry_at-offset rows (suc start) i k h.1)

pub entry_at-Numbered :
    (rows : List EntryRow) (i : ℕ) → Numbered 0 rows → entry_at rows i ≡ get_elem? rows i
entry_at-Numbered rows i h = entry_at-offset rows 0 i i h (omega arith)

max_index-Numbered :
    (row : EntryRow) (rows : List EntryRow) (start : ℕ)
    → Numbered start (row ∷ rows)
    → max_index (row ∷ rows) ≡ some (start + length rows)
unfolding max_index
max_index-Numbered row [] start h = ground (arith, h.0)
max_index-Numbered row (next ∷ rows) start h =
    ground (arith, h.0, max_index-Numbered next rows (suc start) h.1)

index_after-Numbered :
    (rows : List EntryRow)
    → Numbered 0 rows
    → length rows ≤ 2 ^ 63
    → index_after (max_index rows) ≡ ok (length rows)
unfolding max_index
index_after-Numbered [] h bound = refl
index_after-Numbered (row ∷ rows) h bound = ground (arith, max_index-Numbered row rows 0 h)

-- The next index of gap-free rows is their number.
pub next_index-Numbered :
    (c : Connection)
    → Numbered 0 c.entries
    → length c.entries ≤ 2 ^ 63
    → next_index c ≡ ok (length c.entries)
unfolding next_index
next_index-Numbered c h bound = index_after-Numbered c.entries h bound

pub Numbered-append :
    (rows : List EntryRow) (start : ℕ) (row : EntryRow)
    → Numbered start rows
    → row.entry_index ≡ start + length rows
    → Numbered start (rows ++ row ∷ [])
Numbered-append [] start row h e = (omega arith, tt)
Numbered-append (r ∷ rows) start row h e =
    (h.0, Numbered-append rows (suc start) row h.1 (omega arith))

pub Hashed-append :
    (d : Deps) (rows : List EntryRow) (row : EntryRow)
    → Hashed d rows
    → row.leaf_hash ≡ some (log_leaf_hash d row.envelope)
    → Hashed d (rows ++ row ∷ [])
Hashed-append d [] row h e = (e, tt)
Hashed-append d (r ∷ rows) row h e = (h.0, Hashed-append d rows row h.1 e)

pub Hashed-get_elem? :
    (d : Deps) (rows : List EntryRow) (i : ℕ) (row : EntryRow)
    → Hashed d rows
    → get_elem? rows i ≡ some row
    → row.leaf_hash ≡ some (log_leaf_hash d row.envelope)
Hashed-get_elem? d [] i row h e = cc
Hashed-get_elem? d (r ∷ rows) zero row h e = ground (arith, h.0)
Hashed-get_elem? d (r ∷ rows) (suc i) row h e = Hashed-get_elem? d rows i row h.1 e

-- A lookup by id fails exactly where the id is free.
pub entry_by_id-IdFree :
    (rows : List EntryRow) (id : Text) → entry_by_id rows id ≡ none → IdFree id rows
unfolding entry_by_id find_row
entry_by_id-IdFree [] id h = tt
entry_by_id-IdFree (row ∷ rows) id h =
    (λ e. ground (arith, eq_bytes_iff row.entry_id id), entry_by_id-IdFree rows id (ground arith))

-- An id that is free is found at the row appended for it.
pub entry_by_id-append :
    (rows : List EntryRow) (row : EntryRow)
    → entry_by_id rows row.entry_id ≡ none
    → entry_by_id (rows ++ row ∷ []) row.entry_id ≡ some row
unfolding entry_by_id
entry_by_id-append rows row h =
    rw (find_row-append, h) (unfold find_row in ground (arith, eq_bytes_refl row.entry_id))

IdFree-append :
    (rows : List EntryRow) (row : EntryRow) (id : Text)
    → IdFree id rows
    → ¬ (row.entry_id ≡ id)
    → IdFree id (rows ++ row ∷ [])
IdFree-append [] row id h e = (e, tt)
IdFree-append (r ∷ rows) row id h e = (h.0, IdFree-append rows row id h.1 e)

pub DistinctIds-append :
    (rows : List EntryRow) (row : EntryRow)
    → DistinctIds rows
    → IdFree row.entry_id rows
    → DistinctIds (rows ++ row ∷ [])
DistinctIds-append [] row h free = (tt, tt)
DistinctIds-append (r ∷ rows) row h free = (
  IdFree-append rows row r.entry_id h.0 (λ e. free.0 (sym e)),
  DistinctIds-append rows row h.1 free.1,
)

-- After a write the node written is there, and every other is as before.
find-select_other :
    (rows : List NodeRow) (level index l i : ℕ)
    → find_row
        (λ (row : NodeRow). row.level == l && row.node_index == i)
        (select (λ row. not (row.level == level && row.node_index == index)) rows)
      ≡ (if level == l && index == i
          then none
          else find_row (λ (row : NodeRow). row.level == l && row.node_index == i) rows)
unfolding find_row select
find-select_other [] level index l i = ground arith
find-select_other (row ∷ rows) level index l i =
    ground (arith, find-select_other rows level index l i)

pub node_at-replace_node :
    (new : NodeRow) (rows : List NodeRow) (level index : ℕ)
    → node_at (replace_node new rows) level index ≡ (
        if new.level == level && new.node_index == index
        then some new
        else node_at rows level index)
unfolding node_at replace_node find_row
node_at-replace_node new rows level index =
    rw (find_row-append, find-select_other rows new.level new.node_index level index) (ground arith)
