-- ===== src/LogServer/Forward.antt =====
-- `ReadForward`: what it returns, and when it returns at all.
use burnell.Prelude.{
  ℕ, zero, suc, ◌+◌, ◌*◌, ◌≤◌, ◌<◌, ◌≡◌, refl, sym, ap, ◌∙◌, true, false, Option, none, some, [],
  ◌∷◌, ◌++◌, arith, length, take, drop, take-append-drop, length-drop, length-append, append_assoc,
}
use burnell.Prelude.Int.{ℤ, pos, negsuc}
use burnell.Text.{Text, contains_byte, last_index_byte}
use burnell.Text.Split.{Lacks}
use burnell.Text.Search.{
  last_index_byte-append, contains_byte-take, no_place, last_place, find_last,
}
use burnell.Result.{Result, ok}
use burnell.LogServer.{
  FileReader, newline, clip, read_step, read_at, read_bytes, accepted, truncate_post_line,
  forward_loop, read_forward,
}

-- `truncatePostLine` keeps the complete lines: what stands up to the last newline.
post_line-none :
    (buf : Text) → contains_byte buf newline ≡ false → accepted (truncate_post_line buf) ≡ none
unfolding truncate_post_line
post_line-none buf h = rw h refl

take-line :
    (a b buf : Text) → buf ≡ a ++ newline ∷ b → take (suc (length a)) buf ≡ a ++ newline ∷ []
take-line [] b buf e = rw e refl
take-line (x ∷ a) b buf e = rw (e, take-line a b (a ++ newline ∷ b) refl) refl

-- A buffer with a newline gives its lines.
pub post_line-some :
    (a b buf : Text)
    → buf ≡ a ++ newline ∷ b
    → last_index_byte buf newline ≡ some (length a)
    → contains_byte buf newline ≡ true
    → accepted (truncate_post_line buf) ≡ some (a ++ newline ∷ [], suc (length a))
unfolding truncate_post_line
post_line-some a b buf e i h = rw (h, i, take-line a b buf e) refl

unread : FileReader → Text
unread f = drop f.forward_pos f.file

read_at-unread :
    (f : FileReader) (n : ℕ)
    → n ≤ length (unread f)
    → f.forward_pos < length f.file
    → read_at f.file f.forward_pos n ≡ ok (take n (unread f))
unfolding read_at unread
read_at-unread f n h l = ground (arith, length-drop f.forward_pos f.file)

-- The lines that a call returns stand first among the bytes, and end with a newline.
abbrev pub CompleteLines : Text → Text → Type 0
CompleteLines logs bytes =
    ((rest : Text) × (bytes ≡ logs ++ rest)) × ((body : Text) × (logs ≡ body ++ newline ∷ []))

abbrev pub ReturnsLines : FileReader → Option (Result (Text × ℕ)) → Type 0
ReturnsLines f result =
    (logs : Text) × (result ≡ some (ok (logs, f.forward_pos + length logs)))
    × CompleteLines logs (drop f.forward_pos f.file)

contains_byte-middle : (a b : Text) (c : ℕ) → contains_byte (a ++ c ∷ b) c ≡ true
unfolding contains_byte
contains_byte-middle [] b c = ground arith
contains_byte-middle (d ∷ a) b c = ground (arith, contains_byte-middle a b c)

clip-le : (k n : ℕ) → clip k n ≤ k
unfolding clip
clip-le k n = ground arith

-- One turn of the loop.
forward_loop-turn :
    (fuel n : ℕ) (f : FileReader)
    → f.forward_pos < length f.file
    → forward_loop (suc fuel) f (length (unread f)) n
      ≡ elim (accepted (truncate_post_line (take (clip (length (unread f)) n) (unread f)))) [
        | some (logs, index) ↦ some (ok (logs, f.forward_pos + index))
        | none ↦ forward_loop fuel f (length (unread f)) (clip (length (unread f)) n + read_step)
      ]
unfolding forward_loop
forward_loop-turn fuel n f l =
    rw
      (
        forward_loop,
        read_at-unread f (clip (length (unread f)) n) (clip-le (length (unread f)) n) l,
      )
      refl

split-line :
    (n : ℕ) (s a b : Text)
    → take n s ≡ a ++ newline ∷ b
    → s ≡ (a ++ newline ∷ []) ++ (b ++ drop n s)
split-line n s a b t =
    sym (take-append-drop n s)
    ∙ rw (t, append_assoc a (newline ∷ b) (drop n s), append_assoc a (newline ∷ []) (b ++ drop n s))
        refl

forward_loop-found :
    (fuel n : ℕ) (f : FileReader) (a b : Text)
    → f.forward_pos < length f.file
    → take (clip (length (unread f)) n) (unread f) ≡ a ++ newline ∷ b
    → accepted (truncate_post_line (take (clip (length (unread f)) n) (unread f)))
      ≡ some (a ++ newline ∷ [], suc (length a))
    → ReturnsLines f (forward_loop (suc fuel) f (length (unread f)) n)
unfolding unread
forward_loop-found fuel n f a b l t h = (
  a ++ newline ∷ [],
  rw (forward_loop-turn fuel n f l, h, length-append a (newline ∷ [])) (ground arith),
  (
    (
      b ++ drop (clip (length (unread f)) n) (unread f),
      split-line (clip (length (unread f)) n) (unread f) a b t,
    ),
    (a, refl),
  ),
)

-- The whole of what is unread was read.
clip-all : (k n : ℕ) → k ≤ n → clip k n ≡ k
unfolding clip
clip-all k n h = ground arith

clip-part : (k n : ℕ) → n < k → clip k n ≡ n
unfolding clip
clip-part k n h = ground arith

take-all : (s : Text) → take (length s) s ≡ s
take-all [] = refl
take-all (c ∷ s) = ap (λ t. c ∷ t) (take-all s)

forward_loop-again :
    (fuel n : ℕ) (f : FileReader)
    → f.forward_pos < length f.file
    → accepted (truncate_post_line (take (clip (length (unread f)) n) (unread f))) ≡ none
    → forward_loop (suc fuel) f (length (unread f)) n
      ≡ forward_loop fuel f (length (unread f)) (clip (length (unread f)) n + read_step)
forward_loop-again fuel n f l h = rw (forward_loop-turn fuel n f l, h) refl

-- Bytes without a newline are not all that is unread, where that has one.
no_newline-part :
    (n : ℕ) (s : Text)
    → contains_byte s newline ≡ true
    → contains_byte (take (clip (length s) n) s) newline ≡ false
    → n < length s
unfolding clip
no_newline-part n s h c = ground (arith, take-all s)

too_few : (n k : ℕ) → n < k → ¬ (k ≤ n + 0 * read_step)
too_few n k h = omega (arith, h)

forward_loop-ReturnsLines :
    (fuel n : ℕ) (f : FileReader)
    → f.forward_pos < length f.file
    → contains_byte (unread f) newline ≡ true
    → length (unread f) ≤ n + fuel * read_step
    → ReturnsLines f (forward_loop (suc fuel) f (length (unread f)) n)
forward_loop-ReturnsLines zero n f l h enough =
    elim (find_last (take (clip (length (unread f)) n) (unread f)) newline) [
      | last_place a b e lacks i c ↦
          forward_loop-found zero n f a b l e
            (post_line-some a b (take (clip (length (unread f)) n) (unread f)) e i c)
      | no_place lacks i c ↦
          absurd (too_few n (length (unread f)) (no_newline-part n (unread f) h c) enough)
    ]
forward_loop-ReturnsLines (suc fuel) n f l h enough =
    elim (find_last (take (clip (length (unread f)) n) (unread f)) newline) [
      | last_place a b e lacks i c ↦
          forward_loop-found (suc fuel) n f a b l e
            (post_line-some a b (take (clip (length (unread f)) n) (unread f)) e i c)
      | no_place lacks i c ↦
          rw
            (
              forward_loop-again (suc fuel) n f l
                  (post_line-none (take (clip (length (unread f)) n) (unread f)) c),
              clip-part (length (unread f)) n (no_newline-part n (unread f) h c),
            )
            (forward_loop-ReturnsLines fuel (n + read_step) f l h (omega (arith, enough)))
    ]

pub read_bytes-ge : (step : ℤ) → read_step ≤ read_bytes step
unfolding read_bytes
read_bytes-ge (pos n) = ground arith
read_bytes-ge (negsuc n) = omega arith

-- `ReadForward` enters its loop where something is unread.
read_forward-loop :
    (fuel : ℕ) (f : FileReader) (step : ℤ)
    → f.forward_pos < length f.file
    → read_forward fuel f step ≡ forward_loop fuel f (length (unread f)) (read_bytes step)
unfolding read_forward unread
read_forward-loop fuel f step l = ground (arith, length-drop f.forward_pos f.file)

unread-le : (f : FileReader) → length (unread f) ≤ length f.file
unfolding unread
unread-le f = omega (arith, length-drop f.forward_pos f.file)

forward_loop-diverges :
    (fuel n : ℕ) (f : FileReader)
    → f.forward_pos < length f.file
    → contains_byte (unread f) newline ≡ false
    → forward_loop fuel f (length (unread f)) n ≡ none
unfolding forward_loop
forward_loop-diverges zero n f l h = refl
forward_loop-diverges (suc fuel) n f l h =
    rw
      (forward_loop-again fuel n f l (
        post_line-none (take (clip (length (unread f)) n) (unread f))
          (contains_byte-take (clip (length (unread f)) n) (unread f) newline h)))
      (forward_loop-diverges fuel (clip (length (unread f)) n + read_step) f l h)

-- Where a newline is unread, `ReadForward` returns, one turn for each 2400 unread bytes being
-- enough: it returns complete lines, which stand in the file from the forward position on, and the
-- position behind them.
pub read_forward-ReturnsLines :
    (fuel : ℕ) (f : FileReader) (step : ℤ)
    → f.forward_pos < length f.file
    → contains_byte (drop f.forward_pos f.file) newline ≡ true
    → length f.file ≤ suc fuel * read_step
    → ReturnsLines f (read_forward (suc fuel) f step)
unfolding unread
read_forward-ReturnsLines fuel f step l h enough = rw (read_forward-loop (suc fuel) f step l) (
    forward_loop-ReturnsLines fuel (read_bytes step) f l h
      (omega (arith, enough, unread-le f, read_bytes-ge step)))

-- Where at most 2400 bytes are unread, `ReadForward` returns all lines among them, in one turn.
pub read_forward-short :
    (fuel : ℕ) (f : FileReader) (step : ℤ) (a b : Text)
    → f.forward_pos < length f.file
    → drop f.forward_pos f.file ≡ a ++ newline ∷ b
    → Lacks newline b
    → length (drop f.forward_pos f.file) ≤ read_step
    → read_forward (suc fuel) f step
      ≡ some (ok (a ++ newline ∷ [], f.forward_pos + length (a ++ newline ∷ [])))
unfolding unread
read_forward-short fuel f step a b l e lacks small =
    let whole : clip (length (unread f)) (read_bytes step) ≡ length (unread f) =
      clip-all (length (unread f)) (read_bytes step) (omega (arith, small, read_bytes-ge step)) in
    let all : take (clip (length (unread f)) (read_bytes step)) (unread f) ≡ a ++ newline ∷ b =
      ap (λ n. take n (unread f)) whole ∙ take-all (unread f) ∙ e in
    rw
      (
        read_forward-loop (suc fuel) f step l,
        forward_loop-turn fuel (read_bytes step) f l,
        post_line-some a b (take (clip (length (unread f)) (read_bytes step)) (unread f)) all
            (ap (λ t. last_index_byte t newline) all ∙ last_index_byte-append a b newline lacks)
            (ap (λ t. contains_byte t newline) all ∙ contains_byte-middle a b newline),
        length-append a (newline ∷ []),
      )
      (ap (λ k. some (ok (a ++ newline ∷ [], f.forward_pos + k))) (omega arith))

-- Where no newline is unread, `ReadForward` does not return, whatever the fuel.
pub read_forward-diverges :
    (fuel : ℕ) (f : FileReader) (step : ℤ)
    → f.forward_pos < length f.file
    → contains_byte (drop f.forward_pos f.file) newline ≡ false
    → read_forward fuel f step ≡ none
unfolding unread
read_forward-diverges fuel f step l h =
    rw (read_forward-loop fuel f step l) (forward_loop-diverges fuel (read_bytes step) f l h)
