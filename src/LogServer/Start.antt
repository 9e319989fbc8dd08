-- ===== src/LogServer/Start.antt =====
-- `ReadBackward` near the start of a file.
use burnell.Prelude.{
  ℕ, suc, ◌-◌, ◌≤◌, ◌≡◌, refl, ap, true, false, some, [], ◌∷◌, ◌++◌, arith, length, take, leb,
  length-append,
}
use burnell.Prelude.Int.{ℤ, pos}
use burnell.Text.{Text, contains_byte}
use burnell.Text.Split.{Lacks}
use burnell.Text.Search.{last_index_byte-append}
use burnell.Result.{ok}
use burnell.LogServer.{
  FileReader, newline, clip, read_step, read_at, read_bytes, forward_loop, read_forward,
  read_backward,
}
use burnell.LogServer.Forward.{post_line-some, read_bytes-ge}

take-length : (s : Text) → take (length s) s ≡ s
take-length [] = refl
take-length (c ∷ s) = ap (λ l. c ∷ l) (take-length s)

contains_byte-append : (a b : Text) (c : ℕ) → contains_byte (a ++ c ∷ b) c ≡ true
unfolding contains_byte
contains_byte-append [] b c = ground arith
contains_byte-append (d ∷ a) b c = ground (arith, contains_byte-append a b c)

clip-whole : (k n : ℕ) → k ≤ n → clip k n ≡ k
unfolding clip
clip-whole k n h = ground arith

read_whole : (s : Text) → read_at s 0 (length s) ≡ ok s
unfolding read_at
read_whole s = ground (arith, take-length s)

forward_loop-whole :
    (fuel : ℕ) (f : FileReader) (n : ℕ) (a b : Text)
    → f.forward_pos ≡ 0
    → f.file ≡ a ++ newline ∷ b
    → Lacks newline b
    → length f.file ≤ n
    → forward_loop (suc fuel) f (length f.file) n ≡ some (ok (a ++ newline ∷ [], suc (length a)))
unfolding forward_loop
forward_loop-whole fuel f n a b start e l h =
    rw
      (
        forward_loop,
        clip-whole (length f.file) n h,
        start,
        read_whole f.file,
        post_line-some a b f.file e (rw e (last_index_byte-append a b newline l))
            (rw e (contains_byte-append a b newline)),
      )
      (ap (λ k. some (ok (a ++ newline ∷ [], k))) (omega (arith, start)))

not_empty : (a b : Text) (c : ℕ) → leb (length (a ++ c ∷ b)) 0 ≡ false
not_empty a b c = ground (arith, length-append a (c ∷ b))

file_not_empty :
    (f : FileReader) (a b : Text) → f.file ≡ a ++ newline ∷ b → leb (length f.file) 0 ≡ false
file_not_empty f a b e = rw e (not_empty a b newline)

sub_zero : (n : ℕ) → n - 0 ≡ n
sub_zero n = omega arith

le→leb : (m n : ℕ) → m ≤ n → leb m n ≡ true
le→leb m n h = ground arith

-- In a file of at most 2400 bytes that has a newline, and for a position before which it is asked to
-- read that is within the bytes asked for, `ReadBackward` returns every complete line
-- of the file: those at and behind the position too, which the caller already has.
pub read_backward-repeats :
    (fuel : ℕ) (f : FileReader) (step : ℤ) (a b : Text)
    → f.file ≡ a ++ newline ∷ b
    → Lacks newline b
    → length f.file ≤ read_step
    → f.backward_pos ≤ read_bytes step
    → read_backward (suc fuel) f step ≡ some (ok (a ++ newline ∷ [], 0))
unfolding read_backward read_forward
read_backward-repeats fuel f step a b e l small reaches =
    let f0 : FileReader = record f { forward_pos = 0 } in
    rw
      (
        read_backward,
        le→leb f.backward_pos (read_bytes step) reaches,
        read_forward,
        file_not_empty f a b e,
        sub_zero (length f.file),
        forward_loop-whole fuel f0 (read_bytes (pos f.backward_pos)) a b refl e l
            (omega (arith, small, read_bytes-ge (pos f.backward_pos))),
      )
      refl
