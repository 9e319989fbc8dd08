-- ===== src/Route/Semaphore.antt =====
-- src/route/semaphore.go: a semaphore on a buffered channel. `ch` is the number of values in the
-- channel, whose capacity is `size`.
use burnell.Prelude.{ℕ, ◌+◌, ◌-◌, Bool, true, false, if◌then◌else◌, ltb}

pub record Sema : Type 0 where
  pub size : ℕ
  pub ch : ℕ

unfoldable pub new_sema : ℕ → Sema
new_sema length = record { size = length; ch = 0 }

-- The new semaphore, and whether there was room.
unfoldable pub acquire : Sema → Sema × Bool
acquire s = if ltb s.ch s.size then (record s { ch = s.ch + 1 }, true) else (s, false)

-- The new semaphore, and whether there was a value to take.
unfoldable pub release : Sema → Sema × Bool
release s = if ltb 0 s.ch then (record s { ch = s.ch - 1 }, true) else (s, false)
