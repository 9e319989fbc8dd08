-- ===== src/Route/Handlers/Beam.antt =====
-- src/route/handlers.go: the topics of Pulsar Beam, and `VerifyTenant`. Pulsar Beam's route and
-- database packages are the argument `Beam`; a body and a key of a topic are decoded by arguments.
pub mod Laws
use burnell.Prelude.{
  ℕ, Bool, true, false, List, [], ◌∷◌, Option, none, some, if◌then◌else◌, ltb, length,
}
use burnell.Text.{Text, codes, ◌==◌}
use burnell.Assoc.{lookup}
use burnell.Result.{Result, ok, err, panic}
use burnell.Route.Request.{Request, header_get}
use burnell.Route.Subject.{extract_eval_tenant, verify_subject}
use burnell.Route.Middleware.{injected_subs}

-- `PulsarBeamManager` over its state, `route.GetTopicKey`, `route.VerifySubjectBasedOnTopic` and
-- `model.ValidateTopicConfig`; `none` is an error.
pub record Beam (S Doc : Type 0) : Type 0 where
  pub get_topic_key : Request → Option Text
  pub decode_config : Request → Option Doc
  pub topic_full_name : Doc → Text
  pub validate_config : Doc → Bool
  pub verify_on_topic : Text → Text → (Text → Text → Bool) → Bool
  pub get_by_key : S → Text → Option Doc
  pub update : S → Doc → S × Option Text
  pub delete_by_key : S → Text → S × Option Text

-- A document or a deleted key as JSON with its status, or a status alone.
pub data BeamReply (Doc : Type 0) : Type 0 where
  doc_json : (status : ℕ) (doc : Doc) → BeamReply Doc
  key_json : (key : Text) → BeamReply Doc
  failed : (status : ℕ) → BeamReply Doc

module _ {S Doc : Type 0} (beam : Beam S Doc) where
  -- Whether the request's subject covers the topic of the document.
  unfoldable pub covers : Request → Doc → Bool
  covers r doc =
      beam.verify_on_topic (beam.topic_full_name doc) (header_get r injected_subs)
        extract_eval_tenant

  unfoldable pub pulsar_beam_get_topic_handler : S → Request → BeamReply Doc
  pulsar_beam_get_topic_handler s r = elim (beam.get_topic_key r) [
    | none ↦ failed 422
    | some topic_key ↦ elim (beam.get_by_key s topic_key) [
      | none ↦ failed 404
      | some doc ↦ if covers r doc then doc_json 200 doc else failed 403
    ]
  ]

  abbrev saved_doc : S → Option Doc → S × BeamReply Doc
  saved_doc s none = (s, failed 500)
  saved_doc s (some doc) = (s, doc_json 201 doc)

  -- An identifier of one byte is taken for a failure.
  abbrev by_update : S × Option Text → S × BeamReply Doc
  by_update (s, none) = (s, failed 409)
  by_update (s, some id) =
      if ltb 1 (length id) then saved_doc s (beam.get_by_key s id) else (s, failed 500)

  unfoldable pub update_topic : S → Request → Doc → S × BeamReply Doc
  update_topic s r doc =
      let updated = by_update (beam.update s doc) in
      if covers r doc
      then (if beam.validate_config doc then updated else (s, failed 422))
      else (s, failed 403)

  unfoldable pub pulsar_beam_update_topic_handler : S → Request → S × BeamReply Doc
  pulsar_beam_update_topic_handler s r =
      if header_get r injected_subs == []
      then (s, failed 401)
      else elim (beam.decode_config r) [ none ↦ (s, failed 422) | some doc ↦ update_topic s r doc ]

  abbrev by_deletion : S × Option Text → S × BeamReply Doc
  by_deletion (s, none) = (s, failed 404)
  by_deletion (s, some deleted_key) = (s, key_json deleted_key)

  unfoldable pub pulsar_beam_delete_topic_handler : S → Request → S × BeamReply Doc
  pulsar_beam_delete_topic_handler s r = elim (beam.get_topic_key r) [
    | none ↦ (s, failed 422)
    | some topic_key ↦ elim (beam.get_by_key s topic_key) [
      | none ↦ (s, failed 404)
      | some doc ↦
          if covers r doc then by_deletion (beam.delete_by_key s topic_key) else (s, failed 403)
    ]
  ]

-- `VerifyTenant`: the tenant, the subject, and whether it has passed.
unfoldable pub verify_tenant : List Text → Request → Text × Text × Bool
verify_tenant super_roles r =
    let sub = header_get r injected_subs in
    elim (lookup (codes "tenant") r.vars) [
      | none ↦ ([], sub, false)
      | some tenant_name ↦
          if verify_subject super_roles tenant_name sub
          then (tenant_name, sub, true)
          else ([], sub, false)
    ]
