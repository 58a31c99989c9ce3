-- ===== src/Http/Router.antt =====
-- src/http.rs: the routes, from a request with its typed parts to the response and the store after it.
use ahl_mirror.Prelude.{ℕ, Text, List, [], ◌∷◌}
use ahl_mirror.Deps.{Deps}
use ahl_mirror.Config.{Config}
use ahl_mirror.Store.Schema.{Connection}
use ahl_mirror.Store.Exec.{Exec, pure}
use ahl_mirror.Range.{RangeProofs}
use ahl_mirror.Http.Wire
use ahl_mirror.Http.Wire.{status_ok, Web, Response, into_response}
use ahl_mirror.Http.Entries.{
  StageRequest, PromoteRequest, RetrieveQuery, stage_handler, promote_handler, retrieve_handler,
}
use ahl_mirror.Http.Series.{
  RangeRequest, CheckpointIngestRequest, range_handler, checkpoint_ingest_handler,
  list_checkpoints_handler, get_checkpoint_handler,
}
use ahl_mirror.Http.Proofs.{
  ConsistencyQuery, rotation_proof_handler, itub_handler, consistency_handler,
}

-- One constructor for each route of `router`.
pub data Request (d : Deps) : Type 0 where
  health : Request d
  stage : StageRequest d → Request d
  promote : PromoteRequest → Request d
  retrieve : (entry_id : Text) → RetrieveQuery → Request d
  range : RangeRequest → Request d
  ingest_checkpoint : CheckpointIngestRequest → Request d
  list_checkpoints : Request d
  get_checkpoint : (tree_size : ℕ) → Request d
  rotation_proof : (manifest_entry_index : ℕ) → Request d
  itub : (index : ℕ) → Request d
  consistency : ConsistencyQuery → Request d

module _ (d : Deps) (proofs : RangeProofs) (web : Web d) (config : Config d) where
  unfoldable pub handler : Request d → Exec (Response d proofs)
  handler health = pure (record { status = status_ok; body = Wire.health })
  handler (stage req) = stage_handler d proofs web req
  handler (promote req) = promote_handler d proofs web req
  handler (retrieve entry_id q) = retrieve_handler d proofs web entry_id q
  handler (range req) = range_handler d proofs web config req
  handler (ingest_checkpoint req) = checkpoint_ingest_handler d proofs web config req
  handler list_checkpoints = list_checkpoints_handler d proofs web config
  handler (get_checkpoint tree_size) = get_checkpoint_handler d proofs web config tree_size
  handler (rotation_proof index) = rotation_proof_handler d proofs config index
  handler (itub index) = itub_handler d proofs config index
  handler (consistency q) = consistency_handler d proofs config web q

  -- One request: its response, and the store that it leaves.
  unfoldable pub respond : Request d → Connection → Response d proofs × Connection
  respond request c = (into_response d proofs (handler request c).0, (handler request c).1)

  -- The store after a list of requests, one after the other.
  unfoldable pub serve_all : Connection → List (Request d) → Connection
  serve_all c [] = c
  serve_all c (request ∷ requests) = serve_all (respond request c).1 requests
