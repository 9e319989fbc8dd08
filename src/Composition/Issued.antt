-- ===== src/Composition/Issued.antt =====
-- src/route/handlers.go with src/route/middleware.go: the token server's tokens, presented to the
-- middleware.
use burnell.Prelude.{
  ℕ, ◌≡◌, refl, inl, inr, Bool, true, ◌&&◌, List, Option, none, some, leb, ◌/◌, arith, Bool-cases,
}
use burnell.Prelude.Int.{ℤ, pos, ltb_ℤ}
use burnell.Text.{Text, codes}
use burnell.Result.{ok}
use burnell.Config.{Configuration, is_pulsar_jwt_enabled}
use burnell.Icrypto.Token.{Claims, str, generate_claims, decode_token, get_token_subject}
use burnell.Icrypto.Period.{SigningMethod, validate_claims}
use burnell.Icrypto.Keys.{KeyLibrary, RsaKeyPair, generate_token}
use burnell.Route.Request.{Request, header_set}
use burnell.Route.Middleware.{pass, injected_subs, token_str, auth_verify_jwt}
use burnell.Route.Handlers.Queries.{query_param_string}
use burnell.Route.Handlers.Tokens.{token_json, token_subject_handler}

-- The tests of `MapClaims.Valid`: a token is not used after its expiry, nor before it was issued,
-- where it has these claims.
abbrev not_after : ℕ → Option ℕ → Bool
not_after now none = true
not_after now (some exp) = leb (now / 1000000000) exp

abbrev not_before : ℕ → Option ℕ → Bool
not_before now none = true
not_before now (some iat) = leb iat (now / 1000000000)

abbrev pub is_alive : ℕ → Claims → Bool
is_alive now claims = not_after now claims.exp && not_before now claims.iat

-- `jwt.Parse` at the time `now` accepts what was signed with the pair's private key, while it is
-- alive: it has been issued and has not expired.
abbrev pub Accepts :
    {Priv Pub : Type 0}
    → KeyLibrary Priv Pub
    → (Text → Option (Claims × Bool))
    → RsaKeyPair Priv Pub
    → ℕ
    → Type 0
Accepts lib parse keys now =
    (method : SigningMethod) (claims : Claims) (token : Text)
    → lib.signed_string method claims keys.private_key ≡ ok token
    → is_alive now claims ≡ true
    → parse token ≡ some (claims, true)

generate_claims-sub :
    (subject : Text) (exp : ℤ) (now : ℕ)
    → (generate_claims subject exp now).sub ≡ some (str subject)
unfolding generate_claims
generate_claims-sub subject exp now = elim (Bool-cases (ltb_ℤ (pos 0) exp)) [
  | inl e ↦ rw (generate_claims, e) refl
  | inr e ↦ rw (generate_claims, e) refl
]

subject_of_token :
    (parse : Text → Option (Claims × Bool)) (token subject : Text) (claims : Claims)
    → parse token ≡ some (claims, true)
    → claims.sub ≡ some (str subject)
    → get_token_subject parse token ≡ ok subject
unfolding get_token_subject decode_token
subject_of_token parse token subject claims p s = rw (get_token_subject, decode_token, p, s) refl

issued_is_signed :
    {Priv Pub : Type 0} (lib : KeyLibrary Priv Pub) (parse_duration : Text → Option ℤ)
    (issued_at : ℕ) (config : Configuration) (keys : RsaKeyPair Priv Pub) (order : Request)
    (subject token : Text) (exp : ℤ) (alg : SigningMethod)
    → validate_claims parse_duration
        (query_param_string order.query (codes "exp") (codes "0m"))
        (query_param_string order.query (codes "alg") (codes "rs256"))
      ≡ some (exp, alg)
    → token_subject_handler lib parse_duration issued_at config keys order
      ≡ token_json subject token
    → (is_pulsar_jwt_enabled config ≡ true)
      × (lib.signed_string alg (generate_claims subject exp issued_at) keys.private_key ≡ ok token)
unfolding token_subject_handler generate_token
issued_is_signed lib parse_duration issued_at config keys order subject token exp alg valid issued =
    ground (arith, valid, issued)

-- A token that the token server has issued is, from the second of its issue to that of its expiry,
-- accepted by the middleware of the same keys, which takes the request that bears it for one of the subject the token was issued for.
pub issued_token_passes :
    {Priv Pub : Type 0} (lib : KeyLibrary Priv Pub) (parse_duration : Text → Option ℤ)
    (parse : Text → Option (Claims × Bool)) (issued_at now : ℕ) (config : Configuration)
    (keys : RsaKeyPair Priv Pub) (super_roles : List Text) (order r : Request)
    (subject token : Text) (exp : ℤ) (alg : SigningMethod)
    → Accepts lib parse keys now
    → validate_claims parse_duration
        (query_param_string order.query (codes "exp") (codes "0m"))
        (query_param_string order.query (codes "alg") (codes "rs256"))
      ≡ some (exp, alg)
    → is_alive now (generate_claims subject exp issued_at) ≡ true
    → token_subject_handler lib parse_duration issued_at config keys order
      ≡ token_json subject token
    → token_str r ≡ token
    → auth_verify_jwt
        (record {
          jwt_enabled = is_pulsar_jwt_enabled config;
          super_roles = super_roles;
          token_subject = get_token_subject parse;
        })
        r
      ≡ pass (header_set injected_subs subject r)
unfolding auth_verify_jwt
issued_token_passes lib parse_duration parse issued_at now config keys super_roles order r subject
      token exp alg accepts valid alive issued bears =
    let (on, signed) =
      issued_is_signed lib parse_duration issued_at config keys order subject token exp alg valid
        issued in
    rw
      (
        auth_verify_jwt,
        on,
        bears,
        subject_of_token parse token subject (generate_claims subject exp issued_at)
            (accepts alg (generate_claims subject exp issued_at) token signed alive)
            (generate_claims-sub subject exp issued_at),
      )
      refl
