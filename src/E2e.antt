-- ===== src/E2e.antt =====
-- src/e2etest: the programs that test a running server. A program sends requests to the server, whose
-- state is `W`; an answer is a status code, or nothing where the request fails.
pub mod TenantRest
pub mod PulsarBeamRest
use burnell.Prelude.{ℕ, Bool, Option, none, some, [], ◌∷◌, if◌then◌else◌}
use burnell.Text.{Text, codes}
use burnell.Route.Request.{Request}

-- A program goes on with a value, panics, or is ended by `log.Fatal`.
pub data Ending (A : Type 0) : Type 0 where
  passed : A → Ending A
  panicked : Ending A
  fatal : Ending A

abbrev pub Program : Type 0 → Type 0 → Type 0
Program W A = W → W × Ending A

abbrev pub Client : Type 0 → Type 0
Client W = Request → W → W × Option ℕ

module _ {W : Type 0} where
  abbrev go_on : {A B : Type 0} → (A → Program W B) → W × Ending A → W × Ending B
  go_on next (s, passed a) = next a s
  go_on next (s, panicked) = (s, panicked)
  go_on next (s, fatal) = (s, fatal)

  infixl 5 ◌>>=◌ ◌>>◌
  abbrev pub ◌>>=◌ : {A B : Type 0} → Program W A → (A → Program W B) → Program W B
  ◌>>=◌ program next s = go_on next (program s)

  abbrev pub ◌>>◌ : {B : Type 0} → Program W (Unit {0}) → Program W B → Program W B
  program >> next = program >>= λ _. next

  abbrev pub pure : {A : Type 0} → A → Program W A
  pure a s = (s, passed a)

  unfoldable pub eval : Bool → Program W (Unit {0})
  eval val s = if val then (s, passed tt) else (s, panicked)

  abbrev or_panic : W × Option ℕ → W × Ending ℕ
  or_panic (s, some status) = (s, passed status)
  or_panic (s, none) = (s, panicked)

  abbrev or_fatal : W × Option ℕ → W × Ending ℕ
  or_fatal (s, some status) = (s, passed status)
  or_fatal (s, none) = (s, fatal)

  -- `client.Do` with `errNil`, and with `log.Fatal`.
  unfoldable pub do_or_panic : Client W → Request → Program W ℕ
  do_or_panic client r s = or_panic (client r s)

  unfoldable pub do_or_fatal : Client W → Request → Program W ℕ
  do_or_fatal client r s = or_fatal (client r s)

-- A request with its one header.
abbrev pub authorized : Text → Text → Text → Text → Request
authorized token method url body = record {
  method = method;
  uri = url;
  headers = (codes "Authorization", token) ∷ [];
  vars = [];
  query = [];
  body = body;
}
