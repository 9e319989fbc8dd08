-- ===== src/Policy/AdminApi/Laws.antt =====
-- The aggregation of the brokers' statistics, from the choice of the brokers to the answer.
use burnell.Prelude.{List}
use burnell.Text.{Text}
