-- ===== src/Config/Laws.antt =====
-- When authentication is on, and who is a super role then.
use burnell.Prelude.{◌≡◌, ◌↔◌, false, arith}
use burnell.Text.Laws.{eq_iff}
use burnell.Config.{Configuration, is_pulsar_jwt_enabled}

-- Authentication is off exactly if the two keys and the list of super roles are one and the same
-- text, the empty one for instance.
pub is_pulsar_jwt_enabled-eq-false :
    (c : Configuration)
    → (is_pulsar_jwt_enabled c ≡ false)
      ↔ ((c.pulsar_public_key ≡ c.pulsar_private_key) × (c.pulsar_private_key ≡ c.super_roles))
unfolding is_pulsar_jwt_enabled
is_pulsar_jwt_enabled-eq-false c = ground (
  arith,
  eq_iff c.pulsar_public_key c.pulsar_private_key,
  eq_iff c.pulsar_private_key c.super_roles,
)
