-- ===== src/Route/Limit.antt =====
-- src/route/middleware.go: `LimitRate`, the handler around all others. Requests are served at the
-- same time, so its statements are steps that interleave.
pub mod Overrun
use burnell.Prelude.{ℕ, suc, ◌+◌, ◌≤◌, ◌<◌, ◌≡◌, Bool, true, false}
use burnell.Route.Semaphore.{Sema, new_sema, acquire, release}

-- The semaphore `Rate`, and the number of requests between `Acquire` and `Release`: those whose
-- handler runs, and those that are answered with 429. `aborted` counts those whose handler has
-- panicked, which never come to `Release`.
pub record Server : Type 0 where
  pub rate : Sema
  pub serving : ℕ
  pub refusing : ℕ
  pub aborted : ℕ

-- `var Rate = NewSema(200)`, at any size.
unfoldable pub start : ℕ → Server
start size = record { rate = new_sema size; serving = 0; refusing = 0; aborted = 0 }

-- A request comes in, and is served or refused by the outcome of `Acquire`; the handler of a
-- served one returns; the answer of a refused one is written; both call `Release`. A handler that
-- panics leaves `LimitRate` without it, as it is not deferred, and net/http recovers.
pub data Step (s : Server) : Server → Type 0 where
  enter :
      (acquire s.rate).1 ≡ true
      → Step s (record s { rate = (acquire s.rate).0; serving = suc s.serving })
  refuse :
      (acquire s.rate).1 ≡ false
      → Step s (record s { rate = (acquire s.rate).0; refusing = suc s.refusing })
  finish :
      (n : ℕ) → s.serving ≡ suc n → Step s (record s { rate = (release s.rate).0; serving = n })
  abort : (n : ℕ) → s.serving ≡ suc n → Step s (record s { serving = n; aborted = suc s.aborted })
  answer :
      (n : ℕ) → s.refusing ≡ suc n → Step s (record s { rate = (release s.rate).0; refusing = n })

pub data Run (s : Server) : Server → Type 0 where
  here : Run s s
  next : {t u : Server} → Run s t → Step t u → Run s u
