-- ===== src/Tests/Services.antt =====
-- Tests of Pulsar Beam's topics, the cache of metrics, the ciphers and the requests of logs.
use burnell.Prelude.{
  ℕ, ◌≡◌, refl, true, List, [], ◌∷◌, Option, none, some, arith, zero, suc, length,
}
use burnell.Prelude.Int.{pos}
use burnell.Text.{Text, codes}
use burnell.Assoc.{lookup}
use burnell.Result.{Result, ok}
use burnell.Icrypto.Cipher.{
  AesLibrary, Base64, encrypt_with_base64, decrypt_with_base64, encrypt, encrypt_with_default_key,
}
use burnell.Icrypto.Cipher.Laws.{Fills, decrypt_with_base64-encrypt}
use burnell.Route.Handlers.Beam.{
  Beam, pulsar_beam_get_topic_handler, pulsar_beam_update_topic_handler,
  pulsar_beam_delete_topic_handler,
}
use burnell.Route.Handlers.Beam.Laws.{
  IsCoveredView, IsCoveredUpdate, IsCoveredDeletion, beam_handlers-covered,
}
use burnell.LogClient.{FunctionMap}
use burnell.LogClient.Request.{LogConfig, FunctionLogRequest}
use burnell.Metrics.{TenantPromMetrics}
use burnell.Metrics.Federated.{get_tenant_prom_metrics}
use burnell.Metrics.Federated.Caching.{IsScraped, IsOwn, get_tenant_prom_metrics-IsScraped}
use burnell.Tests.Composition.{put}

abbrev first_of : List Text → Option Text
first_of [] = none
first_of (doc ∷ docs) = some doc

-- A store of one topic of the tenant `t`, where a topic's name is its owner's.
abbrev beam : Beam (List Text) Text
beam = record {
  get_topic_key = λ r. some (codes "k");
  decode_config = λ r. some r.body;
  topic_full_name = λ doc. doc;
  validate_config = λ doc. true;
  verify_on_topic = λ topic sub eval. eval topic sub;
  get_by_key = λ docs key. first_of docs;
  update = λ docs doc. (doc ∷ docs, some (codes "key"));
  delete_by_key = λ docs key. ([], some key);
}

beam_handlers-covered_example :
    IsCoveredView beam
      (codes "t" ∷ [])
      put
      (pulsar_beam_get_topic_handler beam (codes "t" ∷ []) put)
    × IsCoveredUpdate beam
        (codes "t" ∷ [])
        put
        (pulsar_beam_update_topic_handler beam (codes "t" ∷ []) put).0
    × IsCoveredDeletion beam
        (codes "t" ∷ [])
        put
        (pulsar_beam_delete_topic_handler beam (codes "t" ∷ []) put).0
beam_handlers-covered_example = beam_handlers-covered beam (codes "t" ∷ []) put

abbrev scraped : Text → Result Text
scraped url = ok url

abbrev no_cache : List (Text × TenantPromMetrics)
no_cache = []

empty-IsScraped : IsScraped (λ url answer. url ≡ answer) (codes "http://p") no_cache
unfolding lookup
empty-IsScraped tenant metrics h = cc

scraped_answers : (url answer : Text) → scraped url ≡ ok answer → url ≡ answer
scraped_answers url answer h = ground (arith, h)

get_tenant_prom_metrics-IsScraped_example :
    IsScraped
      (λ url answer. url ≡ answer)
      (codes "http://p")
      (get_tenant_prom_metrics scraped (codes "http://p") 0 (codes "t") no_cache).0
    × IsOwn
        (λ url answer. url ≡ answer)
        (codes "http://p")
        (codes "t")
        (get_tenant_prom_metrics scraped (codes "http://p") 0 (codes "t") no_cache).1
get_tenant_prom_metrics-IsScraped_example =
    get_tenant_prom_metrics-IsScraped (λ url answer. url ≡ answer) scraped (codes "http://p") 0
      (codes "t") no_cache empty-IsScraped scraped_answers

-- A cipher that leaves the text as it is, with a nonce of two bytes.
abbrev plain : AesLibrary ℕ
plain = record {
  new_gcm = λ key. ok 2;
  nonce_size = λ gcm. 2;
  seal = λ gcm nonce plaintext. plaintext;
  open_sealed = λ gcm nonce ciphertext. ok ciphertext;
}

abbrev zeros : ℕ → Text
zeros zero = []
zeros (suc n) = 0 ∷ zeros n

length-zeros : (n : ℕ) → length (zeros n) ≡ n
length-zeros zero = refl
length-zeros (suc n) = omega (arith, length-zeros n)

zeros-Fills : Fills (λ n. ok (zeros n))
zeros-Fills n nonce e = ground (arith, e, length-zeros n)

abbrev same_text : Base64
same_text = record { encode_to_string = λ text. text; decode_string = λ text. ok text }

decrypt_with_base64-encrypt_example :
    decrypt_with_base64 plain (λ n. ok (zeros n)) same_text (0 ∷ 0 ∷ codes "secret")
    ≡ ok (codes "secret")
unfolding encrypt_with_base64 encrypt_with_default_key encrypt
decrypt_with_base64-encrypt_example =
    decrypt_with_base64-encrypt plain (λ n. ok (zeros n)) same_text (codes "secret")
      (0 ∷ 0 ∷ codes "secret") (record { opens = λ gcm nonce plaintext l. refl }) zeros-Fills
      (λ text. refl) refl

abbrev config : LogConfig
config = record {
  function_worker_domain = codes ".workers";
  log_server_port = [];
  file_path = codes "/pulsar/logs/functions/";
}

abbrev from_start : FunctionLogRequest
from_start = record { bytes = pos 2400; backward_position = pos 0; forward_position = pos 0 }

abbrev no_functions : FunctionMap
no_functions = []
