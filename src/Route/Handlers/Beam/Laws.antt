-- ===== src/Route/Handlers/Beam/Laws.antt =====
-- Whose topics the handlers of Pulsar Beam show and change.
use burnell.Prelude.{◌≡◌, ◌⊎◌, inl, inr, true, [], some, arith, Option-cases, Bool-cases}
use burnell.Text.{Text, ◌==◌}
use burnell.Route.Request.{Request, header_get}
use burnell.Route.Middleware.{injected_subs}
use burnell.Route.Handlers.Beam.{
  Beam, BeamReply, doc_json, covers, pulsar_beam_get_topic_handler,
  pulsar_beam_update_topic_handler, pulsar_beam_delete_topic_handler, update_topic,
}

module _ {S Doc : Type 0} (beam : Beam S Doc) where
  -- The store is as it was, or what the update of a document made of it that the request's subject
  -- covers and that is valid.
  abbrev pub IsCoveredUpdate : S → Request → S → Type 0
  IsCoveredUpdate s r s' =
      (s' ≡ s)
      ⊎ ((doc : Doc) × (beam.decode_config r ≡ some doc)
          × (covers beam r doc ≡ true)
          × (beam.validate_config doc ≡ true)
          × (s' ≡ (beam.update s doc).0))

  -- The store is as it was, or what the deletion of a stored document made of it that the subject
  -- covers.
  abbrev pub IsCoveredDeletion : S → Request → S → Type 0
  IsCoveredDeletion s r s' =
      (s' ≡ s)
      ⊎ ((topic_key : Text) × (doc : Doc) × (beam.get_topic_key r ≡ some topic_key)
          × (beam.get_by_key s topic_key ≡ some doc)
          × (covers beam r doc ≡ true)
          × (s' ≡ (beam.delete_by_key s topic_key).0))

  update-covered :
      (s : S) (r : Request) → IsCoveredUpdate s r (pulsar_beam_update_topic_handler beam s r).0
  unfolding pulsar_beam_update_topic_handler update_topic
  update-covered s r = elim (Option-cases (beam.decode_config r)) [
    | inl e ↦ inl (ground (arith, e))
    | inr (doc, e) ↦ elim (Bool-cases (covers beam r doc)) [
      | inr c ↦ inl (ground (arith, e, c))
      | inl c ↦ elim (Bool-cases (beam.validate_config doc)) [
        | inr v ↦ inl (ground (arith, e, c, v))
        | inl v ↦ elim (Bool-cases (header_get r injected_subs == [])) [
          | inl h ↦ inl (ground (arith, h))
          | inr h ↦ inr (doc, e, c, v, ground (arith, e, c, v, h))
        ]
      ]
    ]
  ]

  delete-covered :
      (s : S) (r : Request) → IsCoveredDeletion s r (pulsar_beam_delete_topic_handler beam s r).0
  unfolding pulsar_beam_delete_topic_handler
  delete-covered s r = elim (Option-cases (beam.get_topic_key r)) [
    | inl k ↦ inl (ground (arith, k))
    | inr (topic_key, k) ↦ elim (Option-cases (beam.get_by_key s topic_key)) [
      | inl e ↦ inl (ground (arith, k, e))
      | inr (doc, e) ↦ elim (Bool-cases (covers beam r doc)) [
        | inr c ↦ inl (ground (arith, k, e, c))
        | inl c ↦ inr (topic_key, doc, k, e, c, ground (arith, k, e, c))
      ]
    ]
  ]

  -- What is shown is a stored document that the subject covers.
  abbrev pub IsCoveredView : S → Request → BeamReply Doc → Type 0
  IsCoveredView s r (doc_json status doc) =
      (topic_key : Text) × (beam.get_topic_key r ≡ some topic_key)
      × (beam.get_by_key s topic_key ≡ some doc)
      × (covers beam r doc ≡ true)
  IsCoveredView s r _ = Unit

  get-covered : (s : S) (r : Request) → IsCoveredView s r (pulsar_beam_get_topic_handler beam s r)
  unfolding pulsar_beam_get_topic_handler
  get-covered s r = elim (Option-cases (beam.get_topic_key r)) [
    | inl k ↦ rw (pulsar_beam_get_topic_handler, k) tt
    | inr (topic_key, k) ↦ elim (Option-cases (beam.get_by_key s topic_key)) [
      | inl e ↦ rw (pulsar_beam_get_topic_handler, k, e) tt
      | inr (doc, e) ↦ elim (Bool-cases (covers beam r doc)) [
        | inr c ↦ rw (pulsar_beam_get_topic_handler, k, e, c) tt
        | inl c ↦ rw (pulsar_beam_get_topic_handler, k, e, c) (topic_key, k, e, c)
      ]
    ]
  ]

  -- The handlers of Pulsar Beam's topics show, update and delete only documents whose topic is covered
  -- by the subject of the request, and leave the store as it is otherwise.
  pub beam_handlers-covered :
      (s : S) (r : Request)
      → IsCoveredView s r (pulsar_beam_get_topic_handler beam s r)
        × IsCoveredUpdate s r (pulsar_beam_update_topic_handler beam s r).0
        × IsCoveredDeletion s r (pulsar_beam_delete_topic_handler beam s r).0
  beam_handlers-covered s r = (get-covered s r, update-covered s r, delete-covered s r)
