-- ===== src/Http/Responses.antt =====
-- What a request of src/http.rs writes, by the response that it gets.
use ahl_mirror.Prelude.{
  ℕ, Bytes, Text, Option, List, [], ◌∷◌, ◌≡◌, ◌⊎◌, refl, inl, inr, arith, Option-cases,
}
use ahl_mirror.Error.{MirrorError, ok, err, Result-cases}
use ahl_mirror.Deps.{Deps, from_ahl}
use ahl_mirror.Config.{Config}
use ahl_mirror.Store.Schema.{Connection, Checkpoint, empty}
use ahl_mirror.Store.Exec.{with_transaction}
use ahl_mirror.Store.Checkpoints
use ahl_mirror.Store.Entries
use ahl_mirror.Ingest.{stage_entry, promote_entry}
use ahl_mirror.Ingest.History.{IsSound}
use ahl_mirror.Series.Admit
use ahl_mirror.Series.Admit.{PendingPromotion, Admission, decide_admission, commit_admission}
use ahl_mirror.Series.Admit.Outcome.{ingest_checkpoint_leaves_no_trace}
use ahl_mirror.Range.{RangeProofs}
use ahl_mirror.Http.Wire.{Web, decode_base64_field, into_response, status_ok, status_created}
use ahl_mirror.Http.Entries.{
  StageRequest, PromoteRequest, stage_handler, promote_handler, retrieve_handler,
}
use ahl_mirror.Http.Series.{
  CheckpointIngestRequest, raw_bytes, range_handler, checkpoint_ingest_handler,
  list_checkpoints_handler, get_checkpoint_handler,
}
use ahl_mirror.Http.Proofs.{rotation_proof_handler, itub_handler, consistency_handler}
use ahl_mirror.Http.Router
use ahl_mirror.Http.Router.{
  Request, health, stage, promote, retrieve, range, ingest_checkpoint, list_checkpoints,
  get_checkpoint, rotation_proof, itub, consistency, handler, respond, serve_all,
}
use ahl_mirror.Http.Steps.{Step, Reach, here, next, Reach-IsSound, stages, promotes, admits}

module _ (d : Deps) (proofs : RangeProofs) (web : Web d) (config : Config d) where
  -- Nothing is written, or one hold of the lock wrote and the response says 200 or 201.
  abbrev pub WritesOnce : Request d → Connection → Type 0
  WritesOnce request c =
      ((respond d proofs web config request c).1 ≡ c)
      ⊎ (Step d c (respond d proofs web config request c).1
          × (((respond d proofs web config request c).0.status ≡ status_ok)
              ⊎ ((respond d proofs web config request c).0.status ≡ status_created)))

  stage_entry_failed :
      (c : Connection) (id : Text) (bytes : Bytes) (metadata : d.Value) (e : MirrorError)
      → (stage_entry d id bytes metadata c).0 ≡ err e
      → (stage_entry d id bytes metadata c).1 ≡ c
  unfolding stage_entry Entries.stage_entry
  stage_entry_failed c id bytes metadata e failed = ground arith

  promote_entry_failed :
      (c : Connection) (cp : Checkpoint) (id : Text) (index : ℕ) (path : List Text)
      (e : MirrorError)
      → (promote_entry d cp id index path c).0 ≡ err e
      → (promote_entry d cp id index path c).1 ≡ c
  unfolding promote_entry with_transaction
  promote_entry_failed c cp id index path e failed = ground arith

  stage_writes : (req : StageRequest d) (c : Connection) → WritesOnce (Router.stage req) c
  unfolding respond handler stage_handler into_response
  stage_writes req c =
      elim (Result-cases
        (decode_base64_field d web req.envelope_base64 "envelope_base64 must be `base64:...`")) [
          | inr (e, failed) ↦ inl (ground (arith, failed))
          | inl (bytes, decoded) ↦
              let after = (stage_entry d req.entry_id bytes req.atl_metadata c).1 in
              elim (Result-cases (stage_entry d req.entry_id bytes req.atl_metadata c).0) [
                | inr (e, failed) ↦ inl (
                    ground (
                      arith,
                      decoded,
                      failed,
                      stage_entry_failed c req.entry_id bytes req.atl_metadata e failed,
                    ))
                | inl (o, staged) ↦
                    let same : (stage_handler d proofs web req c).1 ≡ after =
                      ground (arith, decoded, staged) in
                    inr (
                      rw same (stages req.entry_id bytes req.atl_metadata),
                      ground (arith, decoded, staged),
                    )
              ]
        ]

  promote_writes : (req : PromoteRequest) (c : Connection) → WritesOnce (Router.promote req) c
  unfolding respond handler promote_handler into_response
  promote_writes req c = elim (Result-cases (Checkpoints.get_checkpoint c req.tree_size)) [
    | inr (e, failed) ↦ inl (ground (arith, failed))
    | inl (held, got) ↦ elim (Option-cases held) [
      | inl none_held ↦ inl (ground (arith, got, none_held))
      | inr (cp, found) ↦
          let result = promote_entry d cp req.entry_id req.leaf_index req.inclusion_path c in
          elim (Result-cases result.0) [
            | inr (e, failed) ↦ inl (
                ground (
                  arith,
                  got,
                  found,
                  failed,
                  promote_entry_failed c cp req.entry_id req.leaf_index req.inclusion_path e failed,
                ))
            | inl (o, promoted) ↦
                let same : (promote_handler d proofs web req c).1 ≡ result.1 =
                  ground (arith, got, found, promoted) in
                inr (
                  rw same (promotes cp req.entry_id req.leaf_index req.inclusion_path),
                  ground (arith, got, found, promoted),
                )
          ]
    ]
  ]

  ingest_checkpoint_steps :
      (cp : Checkpoint) (raw : Option Bytes) (pending : List PendingPromotion) (named : Option ℕ)
      (c : Connection) (admission : Admission)
      → (Admit.ingest_checkpoint d config cp raw pending named c).0 ≡ ok admission
      → Step d c (Admit.ingest_checkpoint d config cp raw pending named c).1
  unfolding Admit.ingest_checkpoint
  ingest_checkpoint_steps cp raw pending named c admission h =
      elim (Result-cases (decide_admission d c config cp raw pending named)) [
        | inr (e, failed) ↦ absurd (ground (arith, failed))
        | inl (decision, decided) ↦ elim (Result-cases (from_ahl (d.parse_hash_hex cp.root_hash))) [
          | inr (e, failed) ↦ absurd (ground (arith, decided, failed))
          | inl (root, parsed) ↦
              let same : (Admit.ingest_checkpoint d config cp raw pending named c).1
                  ≡ (with_transaction (commit_admission d cp pending root decision) c).1 =
                ground (arith, decided, parsed) in
              rw same (admits cp pending root decision)
        ]
      ]

  ingest_writes :
      (req : CheckpointIngestRequest) (c : Connection) → WritesOnce (Router.ingest_checkpoint req) c
  unfolding respond handler checkpoint_ingest_handler into_response
  ingest_writes req c = elim (Result-cases (raw_bytes d proofs web config req.raw)) [
    | inr (e, failed) ↦ inl (ground (arith, failed))
    | inl (raw, decoded) ↦
        let result =
          Admit.ingest_checkpoint d config req.checkpoint raw req.entries_to_promote
            req.rotation_for c in
        elim (Result-cases result.0) [
          | inr (e, failed) ↦
              let untouched =
                ingest_checkpoint_leaves_no_trace d config req.checkpoint raw req.entries_to_promote
                  req.rotation_for c e failed in
              inl (ground (arith, decoded, failed, untouched))
          | inl (admission, admitted) ↦
              let same : (checkpoint_ingest_handler d proofs web config req c).1 ≡ result.1 =
                ground (arith, decoded, admitted) in
              let step =
                ingest_checkpoint_steps req.checkpoint raw req.entries_to_promote req.rotation_for c
                  admission admitted in
              inr (rw same step, ground (arith, decoded, admitted))
        ]
  ]

  -- A request, on any route and whatever its answer, leaves the store as it was, or its response says
  -- 200 or 201 and the store is what a single hold of the lock made of it.
  pub respond-WritesOnce : (request : Request d) (c : Connection) → WritesOnce request c
  unfolding respond handler retrieve_handler range_handler list_checkpoints_handler
      get_checkpoint_handler rotation_proof_handler itub_handler consistency_handler
  respond-WritesOnce health c = inl refl
  respond-WritesOnce (stage req) c = stage_writes req c
  respond-WritesOnce (promote req) c = promote_writes req c
  respond-WritesOnce (retrieve id q) c = inl (ground arith)
  respond-WritesOnce (range req) c = inl (ground arith)
  respond-WritesOnce (ingest_checkpoint req) c = ingest_writes req c
  respond-WritesOnce list_checkpoints c = inl (ground arith)
  respond-WritesOnce (get_checkpoint size) c = inl (ground arith)
  respond-WritesOnce (rotation_proof index) c = inl (ground arith)
  respond-WritesOnce (itub index) c = inl (ground arith)
  respond-WritesOnce (consistency q) c = inl (ground arith)

  respond-Reach :
      (request : Request d) (a c : Connection)
      → Reach d a c
      → Reach d a (respond d proofs web config request c).1
  respond-Reach request a c before = elim (respond-WritesOnce request c) [
    | inl same ↦ rw same before
    | inr (step, status) ↦ next before step
  ]

  pub serve_all-Reach :
      (requests : List (Request d)) (a c : Connection)
      → Reach d a c
      → Reach d a (serve_all d proofs web config c requests)
  unfolding serve_all
  serve_all-Reach [] a c before = before
  serve_all-Reach (request ∷ requests) a c before =
      serve_all-Reach requests a (respond d proofs web config request c).1
        (respond-Reach request a c before)

  -- Whatever requests an empty mirror has been sent, on all routes, with whatever answers, its store
  -- is sound.
  pub serve_all-IsSound :
      (requests : List (Request d)) → IsSound d (serve_all d proofs web config empty requests)
  serve_all-IsSound requests = Reach-IsSound d (serve_all-Reach requests empty empty here)
