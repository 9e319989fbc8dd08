-- ===== src/Policy/Startup.antt =====
-- src/policy/pulsardb.go, `Setup`, src/policy/policy.go, `Initialize`, and src/logclient/reader.go, the
-- start of `ReaderLoop`: the options of the Pulsar clients, and what a proxy starts. The Pulsar
-- client is a library.
use burnell.Prelude.{◌≡◌, Bool, ◌&&◌, [], ◌∷◌, Option, none, some, if◌then◌else◌, arith}
use burnell.Text.{Text, codes, ◌==◌, has_prefix}
use burnell.Text.Laws.{eq_iff}
use burnell.Util.{assign_string}
use burnell.Result.{Result, ok, err, panic}
use burnell.Config.{Configuration}

-- The options that differ; both time-outs are 30 seconds.
pub record ClientOptions : Type 0 where
  pub url : Text
  pub token : Option Text
  pub tls_trust_certs_file_path : Text

abbrev token_of : Text → Option Text
token_of token_str = if token_str == [] then none else some token_str

abbrev pub is_ssl : Configuration → Bool
is_ssl config = has_prefix config.pulsar_url (codes "pulsar+ssl://")

-- `ReaderLoop`
unfoldable pub reader_options : Configuration → ClientOptions
reader_options config = record {
  url = config.pulsar_url;
  token = token_of config.pulsar_token;
  tls_trust_certs_file_path =
      if is_ssl config
      then assign_string (config.trust_store ∷ codes "/etc/ssl/certs/ca-bundle.crt" ∷ [])
      else [];
}

-- `Setup` up to the client: the topic and the options, or an error.
unfoldable pub setup_options : Configuration → Result (Text × ClientOptions)
setup_options config =
    let topic_name = assign_string (
      config.tenant_managment_topic
      ∷ codes "persistent://public/default/tenants-management"
      ∷ []) in
    if is_ssl config && config.trust_store == []
    then err (codes "missing trustStore")
    else ok (
      topic_name,
      record {
        url = config.pulsar_url;
        token = token_of config.pulsar_token;
        tls_trust_certs_file_path = if is_ssl config then config.trust_store else [];
      },
    )

abbrev or_panic : Result (Unit {0}) → Result (Unit {0})
or_panic (ok done) = ok tt
or_panic (err message) = panic
or_panic panic = panic

-- `Initialize` by the results of its three steps; `log.Fatal` and `panic` end the process.
unfoldable pub initialize :
    Configuration
    → (setup : Result (Unit {0})) → (beam_init : Result (Unit {0}))
    → (stats_init : Result (Unit {0})) → Result (Unit {0})
initialize config setup beam_init stats_init = elim setup [
  | err message ↦ panic
  | panic ↦ panic
  | ok done ↦
      if config.pulsar_beam_topic == []
      then or_panic stats_init
      else elim beam_init [ err message ↦ panic | panic ↦ panic | ok ready ↦ or_panic stats_init ]
]

-- The two clients of one configuration have the same options, but for TLS without a trust store: then
-- the tenants' table is not set up, and so the process ends, while the reader of functions takes the
-- system's certificates.
pub setup_options-reader :
    (config : Configuration) (topic_name : Text) (options : ClientOptions)
    → setup_options config ≡ ok (topic_name, options)
    → options ≡ reader_options config
unfolding setup_options reader_options assign_string
setup_options-reader config topic_name options h = ground (arith, eq_iff config.trust_store [], h)
