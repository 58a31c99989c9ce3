-- ===== src/Retrieval.antt =====
-- src/retrieval.rs: retrieval by entry id, with the stored bytes hashed again before they are served.
use ahl_mirror.Prelude.{ℕ, Bytes, Text, Option, none, some, not, eq_bytes}
use ahl_mirror.Error.{MirrorResult, ok, refuse_if, stored_entry_corrupt, ◌>>=◌, ◌>>◌}
use ahl_mirror.Deps.{Deps}
use ahl_mirror.Metadata.{sha256_id}
use ahl_mirror.Store.Schema.{Connection, StoredEntry}
use ahl_mirror.Store.Entries.{get_entry_by_id}

pub data Retrieved : Type 0 where
  present : (entry_index : ℕ) (envelope : Bytes) → Retrieved
  absent : Retrieved

module _ (d : Deps) where
  unfoldable pub serve : Text → Option StoredEntry → MirrorResult Retrieved
  serve entry_id none = ok absent
  serve entry_id (some stored) = do
    refuse_if (not (eq_bytes (sha256_id d stored.envelope) entry_id))
        (stored_entry_corrupt entry_id)
    ok (present stored.entry_index stored.envelope)

  unfoldable pub retrieve_by_id : Connection → Text → MirrorResult Retrieved
  unfolding serve
  retrieve_by_id c entry_id = do stored ← get_entry_by_id c entry_id; serve entry_id stored
