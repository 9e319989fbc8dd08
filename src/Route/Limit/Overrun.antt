-- ===== src/Route/Limit/Overrun.antt =====
-- What the limit of requests holds back, and what it lets through.
use burnell.Prelude.{ℕ, zero, suc, ◌+◌, ◌≤◌, ◌<◌, ◌≡◌, refl, subst, true, arith}
use burnell.Route.Semaphore.{new_sema, acquire, release}
use burnell.Route.Limit.{Server, start, Step, enter, refuse, finish, abort, answer, Run, here, next}

-- The channel never holds more than its capacity, and never more than there are requests between
-- `Acquire` and `Release` and requests whose handler has panicked.
pub record Bounded (size : ℕ) (s : Server) : Type 0 where
  pub capacity : s.rate.size ≡ size
  pub full : s.rate.ch ≤ size
  pub owned : s.rate.ch ≤ s.serving + s.refusing + s.aborted

Step-Bounded : (size : ℕ) {s t : Server} → Step s t → Bounded size s → Bounded size t
unfolding acquire release
Step-Bounded size (enter e) b = ground arith
Step-Bounded size (refuse e) b = ground arith
Step-Bounded size (finish n e) b = ground arith
Step-Bounded size (abort n e) b = ground arith
Step-Bounded size (answer n e) b = ground arith

-- The channel stays within its capacity, and within the requests between `Acquire` and `Release` and
-- those whose handler has panicked, whatever requests come and end in whatever order.
pub Run-Bounded : (size : ℕ) {s : Server} → Run (start size) s → Bounded size s
unfolding start new_sema
Run-Bounded size here = omega arith
Run-Bounded size (next r st) = Step-Bounded size st (Run-Bounded size r)

abbrev state : ℕ → ℕ → ℕ → ℕ → Server
state size ch serving refusing = record {
  rate = record { size = size; ch = ch };
  serving = serving;
  refusing = refusing;
  aborted = 0;
}

enter_at : (size ch n : ℕ) → ch < size → Step (state size ch n 0) (state size (suc ch) (suc n) 0)
unfolding acquire
enter_at size ch n h = subst (Step (state size ch n 0)) (ground arith) (enter (ground arith))

refuse_at : (size n : ℕ) → Step (state size size n 0) (state size size n 1)
unfolding acquire
refuse_at size n = subst (Step (state size size n 0)) (ground arith) (refuse (ground arith))

answer_at : (ch n : ℕ) → Step (state (suc ch) (suc ch) n 1) (state (suc ch) ch n 0)
unfolding release
answer_at ch n = subst (Step (state (suc ch) (suc ch) n 1)) (ground arith) (answer 0 refl)

fill : (size n : ℕ) → n ≤ size → Run (start size) (state size n n 0)
unfolding start new_sema
fill size zero h = here
fill size (suc n) h = next (fill size n (omega arith)) (enter_at size n n h)

-- With the channel full a refused request gives a slot back that it never took, and the next
-- request takes it: one more handler runs.
squeeze :
    (size n : ℕ) {s : Server}
    → Run s (state (suc size) (suc size) n 0)
    → Run s (state (suc size) (suc size) (suc n) 0)
squeeze size n r =
    next (next (next r (refuse_at (suc size) n)) (answer_at size n))
      (enter_at (suc size) size n (omega arith))

overfill :
    (size extra : ℕ) → Run (start (suc size)) (state (suc size) (suc size) (extra + suc size) 0)
overfill size zero =
    subst (λ n. Run (start (suc size)) (state (suc size) (suc size) n 0)) (omega arith)
      (fill (suc size) (suc size) (omega arith))
overfill size (suc extra) =
    subst (λ n. Run (start (suc size)) (state (suc size) (suc size) n 0)) (omega arith)
      (squeeze size (extra + suc size) (overfill size extra))

-- At any limit above 0, and for any number beyond it, requests can come and end so that the limit
-- and that many more handlers run at once: a refused request returns a slot that it never took.
pub limit_overrun :
    (size extra : ℕ) → 0 < size → (s : Server) × Run (start size) s × (s.serving ≡ extra + size)
limit_overrun zero extra h = elim h [ ]
limit_overrun (suc size) extra h = (_, overfill size extra, refl)

-- A run in which no request has been refused so far, and no handler has panicked.
pub data CalmRun (s : Server) : Server → Type 0 where
  calm : CalmRun s s
  entered :
      {t : Server}
      → CalmRun s t
      → (acquire t.rate).1 ≡ true
      → CalmRun s (record t { rate = (acquire t.rate).0; serving = suc t.serving })
  finished :
      {t : Server} (n : ℕ)
      → CalmRun s t
      → t.serving ≡ suc n
      → CalmRun s (record t { rate = (release t.rate).0; serving = n })

record Exact (size : ℕ) (s : Server) : Type 0 where
  capacity : s.rate.size ≡ size
  full : s.rate.ch ≤ size
  counted : s.rate.ch ≡ s.serving

CalmRun-Exact : (size : ℕ) {s : Server} → CalmRun (start size) s → Exact size s
unfolding start new_sema acquire release
CalmRun-Exact size calm = omega arith
CalmRun-Exact size (entered r e) = let x = CalmRun-Exact size r in ground arith
CalmRun-Exact size (finished n r e) = let x = CalmRun-Exact size r in ground arith

-- As long as no request has been refused and no handler has panicked, no more handlers run at once than the limit says.
pub CalmRun-le : (size : ℕ) {s : Server} → CalmRun (start size) s → s.serving ≤ size
CalmRun-le size r = let x = CalmRun-Exact size r in omega arith
