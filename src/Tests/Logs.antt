-- ===== src/Tests/Logs.antt =====
-- Tests of the log server.
use burnell.Prelude.{◌≡◌, refl, length, ◌++◌, arith, false, true, none, some, [], ◌∷◌, ℕ, zero, suc}
use burnell.Prelude.Int.{pos}
use burnell.Text.{Text, codes, contains_byte, last_index_byte}
use burnell.Result.{ok}
use burnell.LogServer.{
  FileReader, newline, read_at, read_bytes, truncate_post_line, clip, forward_loop, read_forward,
  read_backward,
}
use burnell.Text.Split.{Lacks}
use burnell.LogServer.Start.{read_backward-repeats}
use burnell.LogServer.Forward.{ReturnsLines, read_forward-ReturnsLines, read_forward-diverges}
use burnell.LogServer.Backward.{ReturnsLinesBefore, read_backward-Returns}

abbrev lines : Text
lines = codes "one" ++ (newline ∷ (codes "two" ++ (newline ∷ codes "thr")))

abbrev reader : FileReader
reader = record { forward_pos = 2; backward_pos = 11; file = lines }

log_tests :
    (read_forward 1 reader (pos 0)
      ≡ some (ok (codes "e" ++ (newline ∷ (codes "two" ++ newline ∷ [])), 8)))
    × (read_backward 1 reader (pos 0)
        ≡ some (ok (codes "one" ++ (newline ∷ (codes "two" ++ newline ∷ [])), 0)))
    × (read_forward 5 (record reader { forward_pos = 9 }) (pos 0) ≡ none)
    × (read_forward 5 (record reader { forward_pos = 11 }) (pos 0) ≡ some (ok ([], 0)))
unfolding read_forward read_backward forward_loop read_at read_bytes truncate_post_line clip
    contains_byte last_index_byte
log_tests = (refl, refl, refl, refl)

has_newline :
    contains_byte (codes "e" ++ (newline ∷ (codes "two" ++ (newline ∷ codes "thr")))) newline ≡ true
unfolding contains_byte
has_newline = refl

read_forward-ReturnsLines_example : ReturnsLines reader (read_forward 1 reader (pos 0))
read_forward-ReturnsLines_example =
    read_forward-ReturnsLines 0 reader (pos 0) (omega arith) has_newline (omega arith)

abbrev at_end : FileReader
at_end = record reader { forward_pos = 9 }

has_none : contains_byte (codes "hr") newline ≡ false
unfolding contains_byte
has_none = refl

read_forward-diverges_example : read_forward 1000 at_end (pos 0) ≡ none
read_forward-diverges_example = read_forward-diverges 1000 at_end (pos 0) (omega arith) has_none

repeat_line : ℕ → Text → Text
repeat_line zero s = []
repeat_line (suc n) s = s ++ repeat_line n s

abbrev long_file : FileReader
long_file = record {
  forward_pos = 0;
  backward_pos = 2500;
  file = repeat_line 50 (repeat_line 49 (codes "x") ++ newline ∷ []);
}

long_file-length : length long_file.file ≡ 2500
unfolding repeat_line
long_file-length = refl

read_backward-Returns_example : ReturnsLinesBefore long_file (read_backward 2 long_file (pos 0))
read_backward-Returns_example =
    read_backward-Returns 1 long_file (pos 0) (unfold read_bytes in omega arith)
      (omega (arith, long_file-length)) (omega arith)

-- Asked for what stands before the byte 3, the server returns the lines up to the byte 8.
abbrev at_three : FileReader
at_three = record reader { backward_pos = 3 }

behind_has_none : Lacks newline (codes "thr")
behind_has_none = ground arith

read_backward-repeats_example :
    read_backward 1 at_three (pos 0)
    ≡ some (ok ((codes "one" ++ (newline ∷ codes "two")) ++ newline ∷ [], 0))
unfolding read_bytes
read_backward-repeats_example =
    read_backward-repeats 0 at_three (pos 0) (codes "one" ++ (newline ∷ codes "two")) (codes "thr")
      refl behind_has_none (omega arith) (omega arith)
