-- ===== src/Http/Serving.antt =====
-- What the entry routes of src/http.rs serve: exact bytes, and for good.
use ahl_mirror.Prelude.{
  ℕ, Bytes, Text, none, some, List, [], ◌∷◌, ◌++◌, true, ◌≡◌, ◌≤◌, ◌⊎◌, refl, inl, inr, ap, ◌∙◌,
  arith, length, i64_max, codes, Option-cases, Bool-cases,
}
use ahl_mirror.Error.{ok, Result-cases}
use ahl_mirror.Deps.{Deps, Hash, from_ahl}
use ahl_mirror.Config.{Config}
use ahl_mirror.Store.Schema.{Connection, Checkpoint, inserted}
use ahl_mirror.Store.Rows.{staged_at, entry_by_id}
use ahl_mirror.Store.Checkpoints
use ahl_mirror.Ingest.{stage_entry, promote_entry}
use ahl_mirror.Ingest.Checks.{check_entry, verify_inclusion_for}
use ahl_mirror.Ingest.History.{IsSound, with_staged}
use ahl_mirror.Ingest.Serving.{promotable}
use ahl_mirror.Retrieval.{present, absent, retrieve_by_id}
use ahl_mirror.Range.{RangeProofs}
use ahl_mirror.Http.Wire
use ahl_mirror.Http.Wire.{
  Web, Response, b64_prefix, strip_prefix, decode_base64_field, into_response, status_ok,
  status_created, status_of,
}
use ahl_mirror.Http.Entries.{
  RetrieveQuery, StageRequest, PromoteRequest, retrieve_handler, retrieved_response, stage_handler,
  promote_handler,
}
use ahl_mirror.Http.Router.{Request, retrieve, stage, promote, handler, respond, serve_all}
use ahl_mirror.Http.Steps.{here, Reach-retrieve_by_id}
use ahl_mirror.Http.Responses.{serve_all-Reach}

strip_prefix-append : (prefix value : Text) → strip_prefix prefix (prefix ++ value) ≡ some value
unfolding strip_prefix
strip_prefix-append [] value = refl
strip_prefix-append (p ∷ prefix) value = ground (arith, strip_prefix-append prefix value)

abbrev pub plain : RetrieveQuery
plain = record { encoding = none }

abbrev pub base64 : RetrieveQuery
base64 = record { encoding = some (codes "base64") }

module _ (d : Deps) (web : Web d) where
  decode_base64_field-encode :
      (bytes : Bytes) (reason : _)
      → decode_base64_field d web (b64_prefix ++ web.b64_encode bytes) reason ≡ ok bytes
  unfolding decode_base64_field
  decode_base64_field-encode bytes reason =
      rw (strip_prefix-append b64_prefix (web.b64_encode bytes), web.b64_decode-b64_encode bytes)
        refl

module _ (d : Deps) (proofs : RangeProofs) (web : Web d) (config : Config d) where
  abbrev pub stage_request : Text → Bytes → d.Value → StageRequest d
  stage_request id bytes metadata = record {
    entry_id = id;
    envelope_base64 = b64_prefix ++ web.b64_encode bytes;
    atl_metadata = metadata;
  }

  abbrev pub promote_request : Text → (size index : ℕ) → List Text → PromoteRequest
  promote_request id size index path = record {
    entry_id = id;
    tree_size = size;
    leaf_index = index;
    inclusion_path = path;
  }

  -- Only what retrieval serves is a success.
  retrieve_served :
      (c : Connection) (id : Text) (q : RetrieveQuery)
      → (respond d proofs web config (retrieve id q) c).0.status ≡ status_ok
      → (index : ℕ) × (bytes : Bytes) × (retrieve_by_id d c id ≡ ok (present index bytes))
  unfolding respond handler retrieve_handler retrieved_response into_response status_of
  retrieve_served c id q h = elim (Result-cases (retrieve_by_id d c id)) [
    | inr (e, failed) ↦ absurd (ground (arith, failed))
    | inl (absent, got) ↦ absurd (ground (arith, got))
    | inl (present index bytes, got) ↦ (index, bytes, got)
  ]

  retrieve_serves :
      (c : Connection) (id : Text) (q : RetrieveQuery) (index : ℕ) (bytes : Bytes)
      → retrieve_by_id d c id ≡ ok (present index bytes)
      → (respond d proofs web config (retrieve id q) c).0
        ≡ retrieved_response d proofs web id q (present index bytes)
  unfolding respond handler retrieve_handler into_response
  retrieve_serves c id q index bytes h = ground (arith, h)

  -- What a sound mirror once served for an entry, in either encoding, it serves unchanged after any
  -- further requests on any routes.
  pub retrieve_permanent :
      (c : Connection) (id : Text) (q : RetrieveQuery) (requests : List (Request d))
      → IsSound d c
      → (respond d proofs web config (retrieve id q) c).0.status ≡ status_ok
      → (respond d proofs web config (retrieve id q) (serve_all d proofs web config c requests)).0
        ≡ (respond d proofs web config (retrieve id q) c).0
  retrieve_permanent c id q requests s h =
      let (index, bytes, got) = retrieve_served c id q h in
      let later = serve_all d proofs web config c requests in
      let stays =
        Reach-retrieve_by_id d id index bytes s
          (serve_all-Reach d proofs web config requests c c here) got in
      rw (retrieve_serves later id q index bytes stays, retrieve_serves c id q index bytes got) refl

  stage_serves :
      (c after : Connection) (id : Text) (bytes : Bytes) (metadata : d.Value)
      → stage_entry d id bytes metadata c ≡ (ok inserted, after)
      → respond d proofs web config (stage (stage_request id bytes metadata)) c
        ≡ (record { status = status_created; body = Wire.staged "staged" id }, after)
  unfolding respond handler stage_handler into_response
  stage_serves c after id bytes metadata h =
      let decoded = decode_base64_field-encode d web bytes "envelope_base64 must be `base64:...`" in
      ground (arith, decoded, h)

  promote_serves :
      (c : Connection) (cp : Checkpoint) (id : Text) (size index : ℕ) (path : List Text)
      → Checkpoints.get_checkpoint c size ≡ ok (some cp)
      → (promote_entry d cp id index path c).0 ≡ ok inserted
      → respond d proofs web config (promote (promote_request id size index path)) c ≡ (
        record { status = status_created; body = Wire.empty },
        (promote_entry d cp id index path c).1,
      )
  unfolding respond handler promote_handler into_response
  promote_serves c cp id size index path held h = ground (arith, held, h)

  get_checkpoint-with_staged :
      (c : Connection) (bytes : Bytes) (size : ℕ)
      → Checkpoints.get_checkpoint (with_staged d c bytes) size ≡ Checkpoints.get_checkpoint c size
  unfolding Checkpoints.get_checkpoint
  get_checkpoint-with_staged c bytes size = refl

  -- Bytes that pass the format checks under an id that is neither staged nor canonical, and whose log
  -- leaf a recorded checkpoint proves at the next index, go through the three routes of a sound mirror
  -- with room: staging them in base64 and promoting them both say 201, and retrieval then serves the
  -- bytes and that index, plain or in a base64 text that decodes to the bytes.
  pub stage_promote_retrieve :
      (c : Connection) (id : Text) (bytes : Bytes) (metadata : d.Value) (cp : Checkpoint) (size : ℕ)
      (path : List Text) (root : Hash)
      → IsSound d c
      → length c.entries ≤ i64_max
      → staged_at c id ≡ none
      → entry_by_id c.entries id ≡ none
      → check_entry d id bytes metadata ≡ ok tt
      → Checkpoints.get_checkpoint c size ≡ ok (some cp)
      → from_ahl (d.parse_hash_hex cp.root_hash) ≡ ok root
      → verify_inclusion_for d bytes (length c.entries) cp.tree_size path root ≡ ok true
      → let staging = respond d proofs web config (stage (stage_request id bytes metadata)) c in
        let promoting =
          respond d proofs web config
            (promote (promote_request id size (length c.entries) path))
            staging.1 in
        (staging.0.status ≡ status_created)
        × (promoting.0.status ≡ status_created)
        × ((respond d proofs web config (retrieve id plain) promoting.1).0
            ≡ record { status = status_ok; body = Wire.envelope (length c.entries) bytes })
        × (text : Text) × ((respond d proofs web config (retrieve id base64) promoting.1).0
            ≡ record { status = status_ok; body = Wire.envelope_base64 id (length c.entries) text })
        × (decode_base64_field d web text "" ≡ ok bytes)
  unfolding retrieved_response ahl_mirror.Prelude.eq_bytes
  stage_promote_retrieve c id bytes metadata cp size path root s room new free checks held parsed
        opens =
      let (staged, promoted, got) =
        promotable d c id bytes metadata cp path root s room new free checks parsed opens in
      let c' = with_staged d c bytes in
      let after = (promote_entry d cp id (length c.entries) path c').1 in
      let first = stage_serves c c' id bytes metadata staged in
      let second =
        promote_serves c' cp id size (length c.entries) path
          (get_checkpoint-with_staged c bytes size ∙ held) promoted in
      rw (first, second)
        (
          refl,
          refl,
          retrieve_serves after id plain (length c.entries) bytes got,
          b64_prefix ++ web.b64_encode bytes,
          retrieve_serves after id base64 (length c.entries) bytes got,
          decode_base64_field-encode d web bytes "",
        )
