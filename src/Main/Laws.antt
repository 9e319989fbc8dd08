-- ===== src/Main/Laws.antt =====
-- What a process serves, and when its start panics.
use burnell.Prelude.{◌≡◌, ◌≢◌, ◌↔◌, none, some, arith}
use burnell.Text.{Text, codes}
use burnell.Text.Laws.{eq_iff}
use burnell.Config.{Configuration, is_initializer, is_healer}
use burnell.Main.{healer_router, proxy_router, start_up}

init_not_healer : (mode : Text) → mode ≡ codes "init" → mode ≢ codes "healer"
init_not_healer mode e f = cc

-- A process of the mode init ends without serving, one of the mode healer serves the healer's routes
-- alone, and every other one serves the proxy's.
pub start_up_iff :
    (mode : Text) (config : Configuration)
    → (((start_up mode config).1 ≡ none) ↔ (mode ≡ codes "init"))
      × (((start_up mode config).1 ≡ some healer_router) ↔ (mode ≡ codes "healer"))
      × (((start_up mode config).1 ≡ some proxy_router)
          ↔ ((mode ≢ codes "init") × (mode ≢ codes "healer")))
unfolding start_up is_initializer is_healer
start_up_iff mode config =
    ground (arith, eq_iff mode (codes "init"), eq_iff mode (codes "healer"), init_not_healer mode)
