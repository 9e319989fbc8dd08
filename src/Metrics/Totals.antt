-- ===== src/Metrics/Totals.antt =====
-- The usage of a tenant is the sum of its rows.
use burnell.Prelude.{ℕ, ◌+◌, ◌%◌, ◌^◌, ◌≡◌, refl, List, [], ◌∷◌, arith}
use burnell.Text.{Text}
use burnell.Metrics.{Usage, TopicPerBrokerUsage, add_row, add_rows, no_usage, get_tenant_usage}

-- The sum of a counter over rows.
unfoldable pub sum_of : (TopicPerBrokerUsage → ℕ) → List TopicPerBrokerUsage → ℕ
sum_of counter [] = 0
sum_of counter (p ∷ rows) = counter p + sum_of counter rows

module _ (total : Usage → ℕ) (counter : TopicPerBrokerUsage → ℕ)
    (adds : (u : Usage) (p : TopicPerBrokerUsage)
      → total (add_row u p) ≡ (total u + counter p) % 2 ^ 64) where
  add_rows-total :
      (rows : List TopicPerBrokerUsage) (u : Usage) (k : ℕ)
      → total u ≡ k % 2 ^ 64
      → total (add_rows u rows) ≡ (k + sum_of counter rows) % 2 ^ 64
  unfolding add_rows sum_of
  add_rows-total [] u k e = omega (arith, e)
  add_rows-total (p ∷ rows) u k e =
      omega (arith, add_rows-total rows (add_row u p) (k + counter p) (omega (arith, e, adds u p)))

-- Each of the five counters of `GetTenantUsage` is the sum over the tenant's rows, modulo 2 ^ 64.
pub get_tenant_usage-total :
    (now : ℕ) (tenant : Text) (rows : List TopicPerBrokerUsage)
    → ((get_tenant_usage now tenant rows).total_bytes_in
        ≡ sum_of (λ p. p.total_bytes_in) rows % 2 ^ 64)
      × ((get_tenant_usage now tenant rows).total_messages_in
          ≡ sum_of (λ p. p.total_messages_in) rows % 2 ^ 64)
      × ((get_tenant_usage now tenant rows).total_bytes_out
          ≡ sum_of (λ p. p.total_bytes_out) rows % 2 ^ 64)
      × ((get_tenant_usage now tenant rows).total_messages_out
          ≡ sum_of (λ p. p.total_messages_out) rows % 2 ^ 64)
      × ((get_tenant_usage now tenant rows).msg_in_backlog
          ≡ sum_of (λ p. p.msg_in_backlog) rows % 2 ^ 64)
unfolding get_tenant_usage add_row
get_tenant_usage-total now tenant rows =
    let start = no_usage tenant now in
    (
      omega (
        arith,
        add_rows-total (λ u. u.total_bytes_in) (λ p. p.total_bytes_in) (λ u p. refl) rows start 0
            refl,
      ),
      omega (
        arith,
        add_rows-total (λ u. u.total_messages_in) (λ p. p.total_messages_in) (λ u p. refl) rows
            start 0 refl,
      ),
      omega (
        arith,
        add_rows-total (λ u. u.total_bytes_out) (λ p. p.total_bytes_out) (λ u p. refl) rows start 0
            refl,
      ),
      omega (
        arith,
        add_rows-total (λ u. u.total_messages_out) (λ p. p.total_messages_out) (λ u p. refl) rows
            start 0 refl,
      ),
      omega (
        arith,
        add_rows-total (λ u. u.msg_in_backlog) (λ p. p.msg_in_backlog) (λ u p. refl) rows start 0
            refl,
      ),
    )
