-- ===== src/Util/Responses.antt =====
-- src/util/util.go: the answer of an error, and the headers of a request to Pulsar. `json.Marshal` of
-- a `ResponseErr` is the argument `marshal`.
use burnell.Prelude.{ℕ, Bool, ◌||◌, [], ◌∷◌, ◌++◌, Option, none, some}
use burnell.Text.{Text, codes, ◌==◌, trim_space, replace_first}
use burnell.Result.{Result, ok, err, panic}
use burnell.Route.Request.{Request, header_get}

-- `ResponseErr`
pub record ResponseErr : Type 0 where
  pub error : Text

pub record Response : Type 0 where
  pub status_code : ℕ
  pub content_type : Text
  pub body : Text

-- `http.Error`
abbrev http_error : Text → ℕ → Response
http_error message code = record {
  status_code = code;
  content_type = codes "text/plain; charset=utf-8";
  body = message ++ (10 ∷ []);
}

abbrev written : ℕ → Result Text → Result Response
written status_code (ok json_response) = ok (record {
  status_code = status_code;
  content_type = codes "application/json";
  body = json_response;
})
written status_code (err message) = ok (http_error message 500)
written status_code panic = panic

-- `none` is an error that is nil, whose text cannot be asked for.
unfoldable pub response_error_json : (ResponseErr → Result Text) → Option Text → ℕ → Result Response
response_error_json marshal none status_code = panic
response_error_json marshal (some e) status_code =
    written status_code (marshal (record { error = e }))

-- The token, the topic, the URL, and whether one of them is missing.
unfoldable pub receiver_header : Request → Text × Text × Text × Bool
unfolding ◌==◌
receiver_header r =
    let token =
      trim_space (replace_first (header_get r (codes "Authorization")) (codes "Bearer") []) in
    let topic_fn = header_get r (codes "TopicFn") in
    let pulsar_url = header_get r (codes "PulsarUrl") in
    (token, topic_fn, pulsar_url, token == [] || topic_fn == [] || pulsar_url == [])
