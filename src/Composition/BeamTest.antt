-- ===== src/Composition/BeamTest.antt =====
-- src/e2etest/pulsar-beam/pulsar-beam-rest.go against the handlers of Pulsar Beam's topics in
-- src/route/handlers.go, behind `AuthVerifyJWT`. A request goes to the handler of its method.
use burnell.Prelude.{
  ℕ, ◌≡◌, refl, Bool, true, false, [], ◌++◌, Option, none, some, length, ltb, if◌then◌else◌,
  Bool-cases, inl, inr,
}
use burnell.Text.{Text, codes, ◌==◌, trim_space, replace_first}
use burnell.Assoc.{lookup}
use burnell.Result.{ok}
use burnell.Route.Request.{Request, header_get, header_set}
use burnell.Route.Subject.{extract_eval_tenant}
use burnell.Route.Middleware.{
  Auth, Verdict, pass, deny, crash, token_str, injected_subs, auth_verify_jwt,
}
use burnell.Route.Middleware.Laws.{header_get-header_set}
use burnell.Route.Handlers.Beam.{
  Beam, BeamReply, doc_json, key_json, failed, covers, update_topic, pulsar_beam_get_topic_handler,
  pulsar_beam_update_topic_handler, pulsar_beam_delete_topic_handler,
}
use burnell.E2e.{passed, panicked, Client, authorized, eval, do_or_panic, do_or_fatal}
use burnell.E2e.PulsarBeamRest.{
  Model, rest_url, pulsar_token, pulsar_url, webhook_topic, with_webhook, send_topic, post_topic,
  add_webhook_to_db, get_webhook, delete_webhook, main,
}

abbrev status_of : {Doc : Type 0} → BeamReply Doc → Option ℕ
status_of (doc_json status doc) = some status
status_of (key_json key) = some 200
status_of (failed status) = some status

abbrev with_status : {S Doc : Type 0} → S × BeamReply Doc → S × Option ℕ
with_status (s, reply) = (s, status_of reply)

module _ {S Doc : Type 0} (beam : Beam S Doc) (auth : Auth) where
  abbrev by_method : Request → S → S × Option ℕ
  by_method next s =
      if next.method == codes "POST"
      then with_status (pulsar_beam_update_topic_handler beam s next)
      else if next.method == codes "DELETE"
      then with_status (pulsar_beam_delete_topic_handler beam s next)
      else (s, status_of (pulsar_beam_get_topic_handler beam s next))

  abbrev by_verdict : Verdict → S → S × Option ℕ
  by_verdict (pass next) s = by_method next s
  by_verdict (deny message status) s = (s, some status)
  by_verdict crash s = (s, none)

  pub beam_answer : Client S
  beam_answer r s = by_verdict (auth_verify_jwt auth r) s

-- What the program and the server have in common: tokens are checked, the token has a subject that is
-- not empty, the document is valid for both and is read again from the body it was sent in, and its key
-- is read from the URL.
pub record Agrees {S Doc Webhook : Type 0} (model : Model Doc Webhook) (beam : Beam S Doc)
    (auth : Auth) (token subject : Text) (created : Doc) (body : Text) : Type 0 where
  pub on : auth.jwt_enabled ≡ true
  pub subject_of :
      auth.token_subject (trim_space (replace_first token (codes "Bearer") [])) ≡ ok subject
  pub has_subject : (subject == []) ≡ false
  pub creates : model.new_topic_config webhook_topic pulsar_url pulsar_token ≡ some created
  pub is_valid : model.is_valid (with_webhook model created) ≡ true
  pub marshals : model.marshal (with_webhook model created) ≡ some body
  pub decodes :
      (r : Request) → r.body ≡ body → beam.decode_config r ≡ some (with_webhook model created)
  pub validates : beam.validate_config (with_webhook model created) ≡ true
  pub key_of_url :
      (r : Request)
      → r.uri ≡ rest_url ++ (codes "/" ++ model.key (with_webhook model created))
      → beam.get_topic_key r ≡ some (model.key (with_webhook model created))

token_str-sent :
    (token method url body : Text)
    → token_str (authorized token method url body)
      ≡ trim_space (replace_first token (codes "Bearer") [])
unfolding token_str header_get lookup ◌==◌
token_str-sent token method url body = refl

module _ {S Doc Webhook : Type 0} (model : Model Doc Webhook) (beam : Beam S Doc) (auth : Auth)
    (token subject : Text) (created : Doc) (body : Text)
    (agrees : Agrees model beam auth token subject created body) where
  abbrev doc : Doc
  doc = with_webhook model created

  abbrev stamped : Text → Text → Text → Request
  stamped method url sent = header_set injected_subs subject (authorized token method url sent)

  guard :
      (method url sent : Text)
      → auth_verify_jwt auth (authorized token method url sent) ≡ pass (stamped method url sent)
  unfolding auth_verify_jwt
  guard method url sent =
      rw (auth_verify_jwt, agrees.on, token_str-sent token method url sent, agrees.subject_of) refl

  covers-stamped :
      (method url sent : Text) (shown : Doc)
      → covers beam (stamped method url sent) shown
        ≡ beam.verify_on_topic (beam.topic_full_name shown) subject extract_eval_tenant
  unfolding covers
  covers-stamped method url sent shown =
      rw (covers, header_get-header_set injected_subs subject (authorized token method url sent))
        refl

  -- The POST stores the document, where the subject covers its topic.
  posted :
      (s s1 : S) (stored : Doc) (id : Text)
      → beam.verify_on_topic (beam.topic_full_name doc) subject extract_eval_tenant ≡ true
      → beam.update s doc ≡ (s1, some id)
      → ltb 1 (length id) ≡ true
      → beam.get_by_key s1 id ≡ some stored
      → beam_answer beam auth (authorized token (codes "POST") rest_url body) s ≡ (s1, some 201)
  unfolding pulsar_beam_update_topic_handler update_topic ◌==◌ header_set beam_answer
  posted s s1 stored id covered updated long found =
      rw
        (
          guard (codes "POST") rest_url body,
          header_get-header_set injected_subs subject
              (authorized token (codes "POST") rest_url body),
          agrees.has_subject,
          agrees.decodes (stamped (codes "POST") rest_url body) refl,
          covers-stamped (codes "POST") rest_url body doc,
          covered,
          agrees.validates,
          updated,
          long,
          found,
        )
        refl

  refused :
      (s : S)
      → beam.verify_on_topic (beam.topic_full_name doc) subject extract_eval_tenant ≡ false
      → beam_answer beam auth (authorized token (codes "POST") rest_url body) s ≡ (s, some 403)
  unfolding pulsar_beam_update_topic_handler update_topic ◌==◌ header_set beam_answer
  refused s covered =
      rw
        (
          guard (codes "POST") rest_url body,
          header_get-header_set injected_subs subject
              (authorized token (codes "POST") rest_url body),
          agrees.has_subject,
          agrees.decodes (stamped (codes "POST") rest_url body) refl,
          covers-stamped (codes "POST") rest_url body doc,
          covered,
        )
        refl

  abbrev url : Text
  url = rest_url ++ (codes "/" ++ model.key doc)

  got :
      (s : S) (stored : Doc)
      → beam.verify_on_topic (beam.topic_full_name stored) subject extract_eval_tenant ≡ true
      → beam.get_by_key s (model.key doc) ≡ some stored
      → beam_answer beam auth (authorized token (codes "GET") url []) s ≡ (s, some 200)
  unfolding pulsar_beam_get_topic_handler ◌==◌ header_set beam_answer
  got s stored covered found =
      rw
        (
          guard (codes "GET") url [],
          pulsar_beam_get_topic_handler,
          agrees.key_of_url (stamped (codes "GET") url []) refl,
          found,
          covers-stamped (codes "GET") url [] stored,
          covered,
        )
        refl

  removed :
      (s s1 : S) (stored : Doc) (deleted_key : Text)
      → beam.verify_on_topic (beam.topic_full_name stored) subject extract_eval_tenant ≡ true
      → beam.get_by_key s (model.key doc) ≡ some stored
      → beam.delete_by_key s (model.key doc) ≡ (s1, some deleted_key)
      → beam_answer beam auth (authorized token (codes "DELETE") url []) s ≡ (s1, some 200)
  unfolding pulsar_beam_delete_topic_handler ◌==◌ header_set beam_answer
  removed s s1 stored deleted_key covered found deleted =
      rw
        (
          guard (codes "DELETE") url [],
          pulsar_beam_delete_topic_handler,
          agrees.key_of_url (stamped (codes "DELETE") url []) refl,
          found,
          covers-stamped (codes "DELETE") url [] stored,
          covered,
          deleted,
        )
        refl

  abbrev is_covered : Bool
  is_covered = beam.verify_on_topic (beam.topic_full_name doc) subject extract_eval_tenant

  main_refused :
      (s : S) → is_covered ≡ false → main model (beam_answer beam auth) token s ≡ (s, panicked)
  unfolding main add_webhook_to_db post_topic send_topic do_or_fatal eval
  main_refused s covered =
      rw
        (
          main,
          add_webhook_to_db,
          agrees.creates,
          post_topic,
          agrees.is_valid,
          agrees.marshals,
          send_topic,
          do_or_fatal,
          refused s covered,
        )
        refl

  main_passed :
      (s s1 s2 : S) (stored : Doc) (deleted_key : Text)
      → is_covered ≡ true
      → beam.update s doc ≡ (s1, some (model.key doc))
      → ltb 1 (length (model.key doc)) ≡ true
      → beam.get_by_key s1 (model.key doc) ≡ some stored
      → beam.topic_full_name stored ≡ beam.topic_full_name doc
      → beam.delete_by_key s1 (model.key doc) ≡ (s2, some deleted_key)
      → main model (beam_answer beam auth) token s ≡ (s2, passed tt)
  unfolding main add_webhook_to_db post_topic send_topic get_webhook delete_webhook do_or_fatal
      do_or_panic eval
  main_passed s s1 s2 stored deleted_key covered updated long found same deleted =
      let shown : beam.verify_on_topic (beam.topic_full_name stored) subject extract_eval_tenant
          ≡ true =
        rw same covered in
      rw
        (
          main,
          add_webhook_to_db,
          agrees.creates,
          post_topic,
          agrees.is_valid,
          agrees.marshals,
          send_topic,
          do_or_fatal,
          posted s s1 stored (model.key doc) covered updated long found,
          get_webhook,
          do_or_panic,
          got s1 stored shown found,
          delete_webhook,
          removed s1 s2 stored deleted_key shown found deleted,
        )
        refl

  -- Where the program and the server agree as above, and the store keeps the document under its key
  -- with the topic it had and deletes it there: the program of pulsar-beam-rest.go passes and leaves
  -- the state behind the deletion if the token's subject covers the topic of the document, and else
  -- panics and stores nothing.
  pub beam_rest_outcome :
      (s s1 s2 : S) (stored : Doc) (deleted_key : Text)
      → beam.update s doc ≡ (s1, some (model.key doc))
      → ltb 1 (length (model.key doc)) ≡ true
      → beam.get_by_key s1 (model.key doc) ≡ some stored
      → beam.topic_full_name stored ≡ beam.topic_full_name doc
      → beam.delete_by_key s1 (model.key doc) ≡ (s2, some deleted_key)
      → main model (beam_answer beam auth) token s
        ≡ (if is_covered then (s2, passed tt) else (s, panicked))
  beam_rest_outcome s s1 s2 stored deleted_key updated long found same deleted =
      elim (Bool-cases is_covered) [
        | inl e ↦ rw e (main_passed s s1 s2 stored deleted_key e updated long found same deleted)
        | inr e ↦ rw e (main_refused s e)
      ]
