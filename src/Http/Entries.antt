-- ===== src/Http/Entries.antt =====
-- src/http.rs: staging, promotion and retrieval of entries.
use ahl_mirror.Prelude.{
  ℕ, Text, Option, none, some, List, String, Bool, true, false, eq_bytes, codes, ◌++◌,
}
use ahl_mirror.Error.{ok_or, unknown_checkpoint}
use ahl_mirror.Deps.{Deps}
use ahl_mirror.Store.Schema.{InsertOutcome, inserted, already_present}
use ahl_mirror.Store.Exec.{Exec, pure, lift, query, ◌>>=◌}
use ahl_mirror.Store.Checkpoints.{get_checkpoint}
use ahl_mirror.Ingest.{stage_entry, promote_entry}
use ahl_mirror.Range.{RangeProofs}
use ahl_mirror.Retrieval.{Retrieved, present, absent, retrieve_by_id}
use ahl_mirror.Http.Wire
use ahl_mirror.Http.Wire.{
  StatusCode, status_ok, status_created, status_not_found, Web, Response, b64_prefix,
  decode_base64_field,
}

pub record StageRequest (d : Deps) : Type 0 where
  pub entry_id : Text
  pub envelope_base64 : Text
  pub atl_metadata : d.Value

pub record PromoteRequest : Type 0 where
  pub entry_id : Text
  pub tree_size : ℕ
  pub leaf_index : ℕ
  pub inclusion_path : List Text

pub record RetrieveQuery : Type 0 where
  pub encoding : Option Text

abbrev pub status_of_outcome : InsertOutcome → StatusCode
status_of_outcome inserted = status_created
status_of_outcome already_present = status_ok

abbrev word_of_outcome : InsertOutcome → String
word_of_outcome inserted = "staged"
word_of_outcome already_present = "already_staged"

-- `query.encoding.as_deref() == Some("base64")`
abbrev pub wants_base64 : RetrieveQuery → Bool
wants_base64 q = elim q.encoding [
  | none ↦ false
  | some encoding ↦ eq_bytes encoding (codes "base64")
]

module _ (d : Deps) (proofs : RangeProofs) (web : Web d) where
  unfoldable pub stage_handler : StageRequest d → Exec (Response d proofs)
  stage_handler req = do
    bytes ←
        lift (decode_base64_field d web req.envelope_base64 "envelope_base64 must be `base64:...`")
    outcome ← stage_entry d req.entry_id bytes req.atl_metadata
    pure (record {
      status = status_of_outcome outcome;
      body = Wire.staged (word_of_outcome outcome) req.entry_id;
    })

  unfoldable pub promote_handler : PromoteRequest → Exec (Response d proofs)
  promote_handler req = do
    found ← query (λ c. get_checkpoint c req.tree_size)
    checkpoint ← lift (ok_or (unknown_checkpoint req.tree_size) found)
    outcome ← promote_entry d checkpoint req.entry_id req.leaf_index req.inclusion_path
    pure (record { status = status_of_outcome outcome; body = Wire.empty })

  -- `match retrieved`
  unfoldable pub retrieved_response : Text → RetrieveQuery → Retrieved → Response d proofs
  retrieved_response entry_id q absent = record {
    status = status_not_found;
    body = Wire.absent entry_id;
  }
  retrieved_response entry_id q (present entry_index envelope) = elim (wants_base64 q) [
    | true ↦ record {
      status = status_ok;
      body = Wire.envelope_base64 entry_id entry_index (b64_prefix ++ web.b64_encode envelope);
    }
    | false ↦ record { status = status_ok; body = Wire.envelope entry_index envelope }
  ]

  unfoldable pub retrieve_handler : Text → RetrieveQuery → Exec (Response d proofs)
  unfolding retrieved_response
  retrieve_handler entry_id q = do
    retrieved ← query (λ c. retrieve_by_id d c entry_id)
    pure (retrieved_response entry_id q retrieved)
