-- ===== src/Policy/TenantList.antt =====
-- src/policy/tenant.go: the list of the cluster's tenants. The GET request with the decoding of its
-- body is the argument `fetched`, by the URL: what it leaves in `Tenants`, whether it succeeds or not.
use burnell.Prelude.{◌≡◌, ◌↔◌, ◌⊎◌, Bool, true, false, List, [], ◌∷◌, if◌then◌else◌, arith}
use burnell.Text.{Text, codes, ◌==◌}
use burnell.Util.{single_join_slash}

-- `isTenant`
unfoldable pub is_known_tenant : Text → List Text → Bool
is_known_tenant tenant [] = false
is_known_tenant tenant (v ∷ tenants) =
    let later = is_known_tenant tenant tenants in if tenant == v then true else later

module _ (fetched : Text → List Text → List Text) (broker_proxy_url : Text) where
  unfoldable pub update_tenants : List Text → List Text
  update_tenants tenants =
      fetched (single_join_slash broker_proxy_url (codes "admin/v2/tenants")) tenants

  unfoldable pub is_tenant : Text → List Text → List Text × Bool
  is_tenant tenant tenants =
      let updated = update_tenants tenants in
      if is_known_tenant tenant tenants
      then (tenants, true)
      else (updated, is_known_tenant tenant updated)

  -- A tenant is one that the list has, or that the list has which the broker answers now; an old
  -- list answers without the broker.
  pub is_tenant_iff :
      (tenant : Text) (tenants : List Text)
      → ((is_tenant tenant tenants).1 ≡ true) ↔ (
          (is_known_tenant tenant tenants ≡ true)
          ⊎ (is_known_tenant tenant (update_tenants tenants) ≡ true))
  unfolding is_tenant
  is_tenant_iff tenant tenants = ground arith
