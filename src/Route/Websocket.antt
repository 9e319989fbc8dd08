-- ===== src/Route/Websocket.antt =====
-- src/route/websocket.go: where a websocket goes, and with which token. `parse` is `url.Parse`; the
-- proxying is websocketproxy's.
use burnell.Prelude.{ℕ, ◌≢◌, List, [], ◌∷◌, ◌++◌, Option, none, some, if◌then◌else◌, arith}
use burnell.Text.{Text, codes, ◌==◌}
use burnell.Assoc.{lookup, insert}
use burnell.Util.{assign_string}

pub record Url : Type 0 where
  pub origin : Text
  pub path : Text
  pub raw_query : Text
  pub fragment : Text

-- What is proxied with the headers of the outgoing request, or the status of an error.
pub data Proxied : Type 0 where
  proxied : (url : Url) (headers : List (Text × Text)) → Proxied
  refused : (status : ℕ) → Proxied

unfoldable pub backend : Url → Url → Url
backend proxy_url requested = record proxy_url {
  fragment = requested.fragment;
  path = requested.path;
  raw_query = requested.raw_query;
}

-- `params` are the first values of the query.
unfoldable pub director : List (Text × Text) → List (Text × Text) → List (Text × Text)
director params headers = elim (lookup (codes "token") params) [
  | none ↦ headers
  | some token_str ↦ insert (codes "Authorization") (codes "Bearer " ++ token_str) headers
]

abbrev to_proxy : Option Url → Url → List (Text × Text) → List (Text × Text) → Proxied
to_proxy none requested params headers = refused 500
to_proxy (some proxy_url) requested params headers =
    proxied (backend proxy_url requested) (director params headers)

unfoldable pub websocket_auth_proxy_handler :
    (Text → Option Url) → Text → Url → List (Text × Text) → List (Text × Text) → Proxied
websocket_auth_proxy_handler parse websocket_url requested params headers =
    let proxy_url_str = assign_string (websocket_url ∷ codes "ws://localhost:8000" ∷ []) in
    if proxy_url_str == []
    then refused 501
    else to_proxy (parse proxy_url_str) requested params headers

-- The handler never answers that the proxy is not configured: without an address of its own it
-- proxies to the default one.
pub websocket-ne-not_configured :
    (parse : Text → Option Url) (websocket_url : Text) (requested : Url)
    (params headers : List (Text × Text))
    → websocket_auth_proxy_handler parse websocket_url requested params headers ≢ refused 501
unfolding websocket_auth_proxy_handler assign_string
websocket-ne-not_configured parse websocket_url requested params headers e = ground arith
