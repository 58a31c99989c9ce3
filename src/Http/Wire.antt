-- ===== src/Http/Wire.antt =====
-- src/http.rs: statuses, response bodies, and what the handlers take from the web crates. Reading a
-- request's path, query and JSON body is axum's and serde's: a request comes as the typed value.
use ahl_mirror.Prelude.{
  ℕ, Bytes, Text, Option, none, some, List, [], ◌∷◌, String, Bool, ◌==◌, if◌then◌else◌, ◌≡◌, codes,
}
use ahl_mirror.Error.{
  MirrorError, MirrorResult, ok, err, ok_or, unknown_checkpoint, unknown_rotation_proof, not_staged,
  incomplete_entries, checkpoint_not_series_usable, series_equivocated, stored_entry_corrupt,
  tree_material_missing, tree_material_corrupt, checkpoint_root_mismatch, index_overflow, atl,
  store, store_init, malformed_envelope, ◌>>=◌,
}
use ahl_mirror.Deps.{Deps, Hash}
use ahl_mirror.Store.Schema.{Checkpoint}
use ahl_mirror.Range.{RangeProofs, RangeResponse}
use ahl_mirror.Series.Frontier.{FrontierStop}
use ahl_mirror.Series.View.{ReportedCheckpoint}

-- `StatusCode`
abbrev pub StatusCode : Type 0
StatusCode = ℕ

abbrev pub status_ok : StatusCode
status_ok = 200

abbrev pub status_created : StatusCode
status_created = 201

abbrev pub status_bad_request : StatusCode
status_bad_request = 400

abbrev pub status_not_found : StatusCode
status_not_found = 404

abbrev pub status_conflict : StatusCode
status_conflict = 409

abbrev pub status_internal_server_error : StatusCode
status_internal_server_error = 500

-- The match of `into_response`.
unfoldable pub status_of : MirrorError → StatusCode
status_of (unknown_checkpoint size) = status_not_found
status_of (unknown_rotation_proof index) = status_not_found
status_of (not_staged id) = status_not_found
status_of (incomplete_entries have need) = status_conflict
status_of (checkpoint_not_series_usable size) = status_conflict
status_of (series_equivocated size floor) = status_conflict
status_of (stored_entry_corrupt id) = status_internal_server_error
status_of (tree_material_missing level index) = status_internal_server_error
status_of (tree_material_corrupt level index) = status_internal_server_error
status_of (checkpoint_root_mismatch size) = status_internal_server_error
status_of (index_overflow what) = status_internal_server_error
status_of (atl message) = status_internal_server_error
status_of (store message) = status_internal_server_error
status_of (store_init message) = status_internal_server_error
status_of _ = status_bad_request

-- The base64 crate, with what its documentation says of the two directions, and the public field
-- `path` of atl_core's `ConsistencyProof`.
pub record Web (d : Deps) : Type 0 where
  pub b64_encode : Bytes → Text
  pub b64_decode : Text → Option Bytes
  pub b64_decode-b64_encode : (bytes : Bytes) → b64_decode (b64_encode bytes) ≡ some bytes
  pub path : d.ConsistencyProof → List Hash

-- What follows `prefix`, `strip_prefix`.
unfoldable pub strip_prefix : (prefix value : Text) → Option Text
strip_prefix [] value = some value
strip_prefix (p ∷ prefix) [] = none
strip_prefix (p ∷ prefix) (v ∷ value) =
    let rest = strip_prefix prefix value in if p == v then rest else none

abbrev pub b64_prefix : Text
b64_prefix = codes "base64:"

module _ (d : Deps) (proofs : RangeProofs) where
  pub record RotationProofElement : Type 0 where
    pub manifest_entry_index : ℕ
    pub checkpoint : Checkpoint
    pub inclusion_path : List Text
    pub witnesses : List d.Value

  pub record AdmissionResponse : Type 0 where
    pub series_member : Bool
    pub rotation_anchors : List ℕ

  -- The bodies that the handlers send, by their shape; the constant texts in them are left out.
  pub data Body : Type 0 where
    failure : MirrorError → Body
    health : Body
    empty : Body
    staged : (status : String) (entry_id : Text) → Body
    absent : (entry_id : Text) → Body
    envelope_base64 : (entry_id : Text) (entry_index : ℕ) (envelope : Text) → Body
    -- the bytes themselves, with the header `x-ahl-entry-index`
    envelope : (entry_index : ℕ) → Bytes → Body
    range : RangeResponse d proofs → Body
    admission : AdmissionResponse → Body
    checkpoints : List ReportedCheckpoint → Body
    checkpoint : ReportedCheckpoint → Body
    rotation_proof : RotationProofElement → Body
    itub_undefined : (index : ℕ) (frontier_stop : Option FrontierStop) → Body
    itub : (index : ℕ) (itub : Text) → Checkpoint → Body
    consistency : (from to : ℕ) (consistency_path : List Text) → Body

  pub record Response : Type 0 where
    pub status : StatusCode
    pub body : Body

  -- A handler's result as axum sends it: `ApiError` becomes its status.
  unfoldable pub into_response : MirrorResult Response → Response
  into_response (ok response) = response
  into_response (err e) = record { status = status_of e; body = failure e }

module _ (d : Deps) (web : Web d) where
  unfoldable pub decode_base64_field : Text → String → MirrorResult Bytes
  decode_base64_field value reason = do
    stripped ← ok_or (malformed_envelope reason) (strip_prefix b64_prefix value)
    ok_or (malformed_envelope reason) (web.b64_decode stripped)
