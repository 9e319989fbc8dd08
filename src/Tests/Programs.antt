-- ===== src/Tests/Programs.antt =====
-- Tests of the programs that test a server, of the export of keys and of the building of usages.
use burnell.Prelude.{
  ◌≡◌, refl, ap, ℕ, zero, suc, Bool, true, false, List, [], ◌∷◌, ◌++◌, Option, none, some, arith,
  if◌then◌else◌,
}
use burnell.Route.Middleware.{Auth}
use burnell.Route.Subject.{extract_eval_tenant}
use burnell.Route.Handlers.Beam.{Beam}
use burnell.E2e.{passed, panicked}
use burnell.E2e.PulsarBeamRest.{Model, with_webhook, webhook_topic, main}
use burnell.Composition.BeamTest.{Agrees, beam_answer, beam_rest_outcome}
use burnell.Prelude.Int.{pos}
use burnell.Text.{Text, codes, ◌==◌}
use burnell.Result.{Result, ok, err}
use burnell.Assoc.{lookup, insert, delete}
use burnell.Util.{str_contains}
use burnell.Util.Uuid.{IsUuid4, new_uuid, new_uuid-IsUuid4}
use burnell.Util.Files.{Memory, memory_disk, memory_disk-Writes, string_to_new_file}
use burnell.Icrypto.Keys.{KeyLibrary, Inverse, RsaKeyPair, make_rsa_key_pair, load_rsa_key_pair}
use burnell.Icrypto.Export.{
  EncodesPem, export_private, export_public, export_rsa_private_key_binary_file,
  export_rsa_public_key_as_pem, write_key_to_file, load-exported,
}
use burnell.Policy.Plan.{TenantPlan}
use burnell.Policy.TenantDb.{TenantDb}
use burnell.Route.Router.Management.{service_routes}
use burnell.E2e.TenantRest.{tenant_plan, tenant_key}
use burnell.Composition.Managed.{Deployed, Matches, IsSuper}
use burnell.Composition.TenantTest.{TestsWell, tenant_rest_outcome}
use burnell.Metrics.{TenantPromMetrics}
use burnell.Metrics.Federated.{Metric, binary}

abbrev count_up : ℕ → ℕ → List ℕ
count_up zero n = []
count_up (suc k) n = n ∷ count_up k (suc n)

new_uuid-IsUuid4_example :
    (text : Text) × (new_uuid (ok (count_up 16 200)) ≡ ok text) × IsUuid4 text
new_uuid-IsUuid4_example = new_uuid-IsUuid4 (count_up 16 200) refl (omega arith)

-- A library of keys that are numbers, with four bytes of DER before them.
abbrev fifth : Text → Result (Option ℕ)
fifth (a ∷ b ∷ c ∷ d ∷ n ∷ []) = ok (some n)
fifth _ = err (codes "no key")

abbrev without_dashes : Text → Option Text
without_dashes (a ∷ b ∷ c ∷ d ∷ bytes) = some bytes
without_dashes _ = none

abbrev der : KeyLibrary ℕ ℕ
der = record {
  generate_key = ok 7;
  validate = λ k. ok tt;
  public_of = λ k. k;
  marshal_private = λ k. ok (48 ∷ 130 ∷ 4 ∷ 189 ∷ k ∷ []);
  marshal_public = λ k. ok (48 ∷ 130 ∷ 1 ∷ 34 ∷ k ∷ []);
  parse_private = fifth;
  parse_public = fifth;
  pem_decode = without_dashes;
  signed_string = λ method claims k. ok [];
}

der-Inverse : Inverse der
der-Inverse = record {
  private_again = λ k bytes e. ground arith;
  public_again = λ k bytes e. ground arith;
}

abbrev pem_encode : Text → Text
pem_encode bytes = codes "----" ++ bytes

der-EncodesPem : EncodesPem der pem_encode
der-EncodesPem = record { dashes = λ bytes. (bytes, refl); decodes = λ bytes. refl }

abbrev seven : RsaKeyPair ℕ ℕ
seven = record {
  private_key = 7;
  public_key = 7;
  private_key_bytes = 48 ∷ 130 ∷ 4 ∷ 189 ∷ 7 ∷ [];
  public_key_bytes = 48 ∷ 130 ∷ 1 ∷ 34 ∷ 7 ∷ [];
}

abbrev private_stored : Memory
private_stored = (codes "private", seven.private_key_bytes) ∷ []

abbrev both_stored : Memory
both_stored = (codes "public", pem_encode seven.public_key_bytes) ∷ private_stored

private_written :
    export_private memory_disk pem_encode seven false (codes "private") [] ≡ (private_stored, ok tt)
unfolding export_rsa_private_key_binary_file string_to_new_file insert delete lookup ◌==◌
private_written = refl

public_written :
    export_public memory_disk pem_encode seven true (codes "public") private_stored
    ≡ (both_stored, ok tt)
unfolding export_rsa_public_key_as_pem write_key_to_file string_to_new_file insert delete lookup
    ◌==◌
public_written = refl

seven_made : make_rsa_key_pair der 7 7 ≡ ok seven
unfolding make_rsa_key_pair
seven_made = refl

load-exported_example :
    load_rsa_key_pair der
      (memory_disk.read both_stored (codes "private"))
      (memory_disk.read both_stored (codes "public"))
    ≡ ok seven
load-exported_example =
    load-exported der pem_encode der-EncodesPem memory_disk seven false true (codes "private")
      (codes "public") [] private_stored both_stored der-Inverse memory_disk-Writes seven_made
      (4, 189, 7 ∷ [], refl, omega arith, omega arith, omega arith)
      (1, 34, 7 ∷ [], refl, omega arith, omega arith, omega arith) (ground arith) private_written
      public_written

-- A server that knows the template of the tenants' routes alone, and the tenant of the test.
abbrev only : Bool → Text → Text → Option (List (Text × Text))
only is_prefix template uri =
    if template == codes "/k/tenant/{tenant}"
    then some ((codes "tenant", tenant_key) ∷ [])
    else none

abbrev deployed : Deployed
deployed = record {
  path_vars = only;
  auth = record {
    jwt_enabled = true;
    super_roles = codes "superuser" ∷ [];
    token_subject = λ t. ok (codes "superuser");
  };
  beam_topic = [];
  sends = true;
  now = 5;
  names = some (tenant_key ∷ []);
  decode = λ body. some tenant_plan;
  elsewhere = λ handler r. none;
}

deployed-Matches : Matches deployed
unfolding service_routes
deployed-Matches =
    (refl, (refl, (refl, (refl, (refl, (refl, (refl, (refl, (refl, (refl, tt))))))))))

deployed-IsSuper : IsSuper deployed (codes "token")
unfolding str_contains
deployed-IsSuper = record { on = refl; subject = refl; is_super = refl }

abbrev no_tenants : TenantDb
no_tenants = record { tenants = []; sent = [] }

abbrev encode : TenantPlan → Option Text
encode t = some (codes "{}")

tenant_rest_outcome_example : TestsWell deployed (codes "token") encode no_tenants (codes "ann")
tenant_rest_outcome_example =
    tenant_rest_outcome deployed (codes "token") deployed-Matches deployed-IsSuper encode
      (codes "{}") refl refl no_tenants (codes "ann")

-- Two topics of a tenant, each with its incoming bytes.
abbrev bytes_in_of : Text → ℕ → Metric
bytes_in_of topic n = record {
  labels = (codes "topic", topic) ∷ (codes "kubernetes_pod_name", codes "b-0") ∷ [];
  untyped = some (binary n (pos 0));
}

abbrev families : List (Text × List Metric)
families =
    (
      codes "pulsar_in_bytes_total",
      bytes_in_of (codes "persistent://t/n/a") 3 ∷ bytes_in_of (codes "persistent://t/n/c") 4 ∷ [],
    )
    ∷ []

abbrev no_cache : List (Text × TenantPromMetrics)
no_cache = []

abbrev scrape : Text → Result Text
scrape url = ok (codes "metrics")

-- A document is the name of its topic, and a webhook its URL.
abbrev topics_model : Model Text Text
topics_model = record {
  new_topic_config = λ topic url token. some topic;
  new_webhook_config = λ url. url;
  initial_position = λ position wh. wh;
  subscription = λ name wh. wh;
  append_webhook = λ doc wh. doc;
  is_valid = λ doc. true;
  marshal = λ doc. some doc;
  key = λ doc. codes "key";
}

abbrev latest_of : List Text → Option Text
latest_of [] = none
latest_of (doc ∷ docs) = some doc

abbrev topics_beam : Beam (List Text) Text
topics_beam = record {
  get_topic_key = λ r. some (codes "key");
  decode_config = λ r. some r.body;
  topic_full_name = λ doc. doc;
  validate_config = λ doc. true;
  verify_on_topic = λ topic sub eval. eval (codes "ming-luo") sub;
  get_by_key = λ docs key. latest_of docs;
  update = λ docs doc. (doc ∷ docs, some (codes "key"));
  delete_by_key = λ docs key. ([], some key);
}

abbrev beam_auth : Auth
beam_auth = record {
  jwt_enabled = true;
  super_roles = [];
  token_subject = λ token. ok (codes "ming-luo-1234");
}

topics_agree :
    Agrees topics_model topics_beam beam_auth
      (codes "x")
      (codes "ming-luo-1234")
      webhook_topic
      webhook_topic
unfolding ◌==◌ with_webhook
topics_agree = record {
  on = refl;
  subject_of = refl;
  has_subject = refl;
  creates = refl;
  is_valid = refl;
  marshals = refl;
  decodes = λ r e. ap some e;
  validates = refl;
  key_of_url = λ r e. refl;
}

abbrev no_docs : List Text
no_docs = []

stores_topic :
    topics_beam.update no_docs (with_webhook topics_model webhook_topic)
    ≡ (webhook_topic ∷ [], some (topics_model.key webhook_topic))
unfolding with_webhook
stores_topic = refl

stored_topic :
    topics_beam.topic_full_name webhook_topic
    ≡ topics_beam.topic_full_name (with_webhook topics_model webhook_topic)
unfolding with_webhook
stored_topic = refl

beam_rest_outcome_example :
    main topics_model (beam_answer topics_beam beam_auth) (codes "x") no_docs ≡ (
      if extract_eval_tenant (codes "ming-luo") (codes "ming-luo-1234")
      then (no_docs, passed tt)
      else (no_docs, panicked))
beam_rest_outcome_example =
    beam_rest_outcome topics_model topics_beam beam_auth (codes "x") (codes "ming-luo-1234")
      webhook_topic webhook_topic topics_agree no_docs (webhook_topic ∷ []) no_docs webhook_topic
      (codes "key") stores_topic refl refl stored_topic refl
