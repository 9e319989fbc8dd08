-- ===== src/E2e/PulsarBeamRest.antt =====
-- src/e2etest/pulsar-beam/pulsar-beam-rest.go. Pulsar Beam's package model is the argument
-- `Model`, the constant `restAPIToken` the argument `rest_api_token`.
use burnell.Prelude.{Bool, Option, none, some, [], ◌++◌, nat_eq, if◌then◌else◌}
use burnell.Text.{Text, codes}
use burnell.E2e.{
  fatal, panicked, Program, Client, ◌>>=◌, ◌>>◌, pure, eval, do_or_panic, do_or_fatal, authorized,
}

-- `model.NewTopicConfig`, `model.NewWebhookConfig`, `model.ValidateTopicConfig` and `json.Marshal`;
-- `with_webhook` appends the webhook with its initial position and its subscription.
pub record Model (Doc Webhook : Type 0) : Type 0 where
  pub new_topic_config : Text → Text → Text → Option Doc
  pub new_webhook_config : Text → Webhook
  pub initial_position : Text → Webhook → Webhook
  pub subscription : Text → Webhook → Webhook
  pub append_webhook : Doc → Webhook → Doc
  pub is_valid : Doc → Bool
  pub marshal : Doc → Option Text
  pub key : Doc → Text

abbrev pub rest_url : Text
rest_url = codes "http://localhost:8964/pulsarbeam/v2/topic"

abbrev pub pulsar_token : Text
pulsar_token = codes "test-token"

abbrev pub pulsar_url : Text
pulsar_url = codes "pulsar://localhost:6650"

abbrev pub webhook_topic : Text
webhook_topic = codes "persistent://ming-luo/ns/topic2"

abbrev pub webhook_url : Text
webhook_url = codes "http://server.com/endpoint"

module _ {Doc Webhook : Type 0} (model : Model Doc Webhook) where
  unfoldable pub with_webhook : Doc → Doc
  with_webhook topic_config =
      let wh = model.new_webhook_config webhook_url in
      let earliest = model.initial_position (codes "earliest") wh in
      model.append_webhook topic_config (model.subscription (codes "my-subscription") earliest)

  module _ {W : Type 0} (client : Client W) (rest_api_token : Text) where
    unfoldable pub send_topic : Doc → Text → Program W Text
    unfolding eval do_or_fatal
    send_topic topic_config req_json = do
      status ← do_or_fatal client (authorized rest_api_token (codes "POST") rest_url req_json)
      eval (nat_eq status 201)
      pure (model.key topic_config)

    unfoldable pub post_topic : Doc → Program W Text
    post_topic topic_config s =
        if model.is_valid topic_config
        then elim (model.marshal topic_config) [
          | none ↦ (s, fatal)
          | some req_json ↦ send_topic topic_config req_json s
        ]
        else (s, fatal)

    unfoldable pub add_webhook_to_db : Program W Text
    unfolding with_webhook
    add_webhook_to_db s = elim (model.new_topic_config webhook_topic pulsar_url pulsar_token) [
      | none ↦ (s, panicked)
      | some topic_config ↦ post_topic (with_webhook topic_config) s
    ]

    unfoldable pub get_webhook : Text → Program W (Unit {0})
    unfolding eval do_or_panic
    get_webhook key =
        do_or_panic client
          (authorized rest_api_token (codes "GET") (rest_url ++ (codes "/" ++ key)) [])
        >>= λ status. eval (nat_eq status 200)

    unfoldable pub delete_webhook : Text → Program W (Unit {0})
    unfolding eval do_or_panic
    delete_webhook key =
        do_or_panic client
          (authorized rest_api_token (codes "DELETE") (rest_url ++ (codes "/" ++ key)) [])
        >>= λ status. eval (nat_eq status 200)

    unfoldable pub main : Program W (Unit {0})
    main = do key ← add_webhook_to_db; get_webhook key; delete_webhook key
