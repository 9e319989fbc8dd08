-- ===== src/LogServer.antt =====
-- src/logserver/logserver.go: reading a log file forwards and backwards by complete lines.
pub mod Forward
pub mod Backward
pub mod Start
pub mod Settings
use burnell.Prelude.{
  ℕ, zero, suc, ◌+◌, ◌-◌, Bool, true, false, not, Option, none, some, ltb, leb, if◌then◌else◌,
  length, take, drop, [],
}
use burnell.Prelude.Int.{ℤ, pos, negsuc}
use burnell.Text.{Text, codes, split, contains_byte, index_byte, last_index_byte}
use burnell.Result.{Result, ok, err, panic}

abbrev pub newline : ℕ
newline = 10

abbrev pub read_step : ℕ
read_step = 2400

-- The positions are never negative: they are the size of the file or a positive request.
pub record FileReader : Type 0 where
  pub forward_pos : ℕ
  pub backward_pos : ℕ
  pub file : Text

abbrev init_pos : ℤ → ℕ → ℕ
init_pos (pos zero) size = size
init_pos (pos (suc n)) size = suc n
init_pos (negsuc n) size = size

unfoldable pub create_file_reader : Text → ℤ → ℤ → FileReader
create_file_reader file forward_init_pos backward_init_pos = record {
  forward_pos = init_pos forward_init_pos (length file);
  backward_pos = init_pos backward_init_pos (length file);
  file = file;
}

abbrev before_index : Option ℕ → Text → Text × ℤ
before_index none text = ([], negsuc 0)
before_index (some offset) text = (take (suc offset) text, pos (suc offset))

abbrev behind_index : Option ℕ → Text → Text × ℤ
behind_index none text = ([], negsuc 0)
behind_index (some offset) text = (drop (suc offset) text, pos (suc offset))

unfoldable pub truncate_post_line : Text → Text × ℤ
truncate_post_line text =
    if not (contains_byte text newline)
    then ([], negsuc 0)
    else before_index (last_index_byte text newline) text

unfoldable pub truncate_pre_line : Text → Text × ℤ
truncate_pre_line text =
    if ltb (length (split text newline)) 3
    then ([], negsuc 0)
    else behind_index (index_byte text newline) text

-- `os.File.ReadAt` into a buffer of `n` bytes fails where the file has fewer.
unfoldable pub read_at : Text → ℕ → ℕ → Result Text
read_at file offset n =
    if leb (offset + n) (length file) then ok (take n (drop offset file)) else err (codes "EOF")

-- A negative offset fails too.
unfoldable pub read_before : Text → ℕ → ℕ → Result Text
unfolding read_at
read_before file position n =
    if ltb position n then err (codes "negative offset") else read_at file (position - n) n

-- `readBytes` at the start of either function.
unfoldable pub read_bytes : ℤ → ℕ
read_bytes (pos step) = if ltb read_step step then step else read_step
read_bytes (negsuc n) = read_step

-- `index > 0`
abbrev pub accepted : Text × ℤ → Option (Text × ℕ)
accepted (logs, pos (suc index)) = some (logs, suc index)
accepted (logs, pos zero) = none
accepted (logs, negsuc n) = none

-- No more bytes than there are.
unfoldable pub clip : ℕ → ℕ → ℕ
clip unread n = if ltb unread n then unread else n

-- The loop of `ReadForward` with `n` bytes to read of the `unread` ones; `none` is out of fuel.
unfoldable pub forward_loop : ℕ → FileReader → ℕ → ℕ → Option (Result (Text × ℕ))
forward_loop zero f unread n = none
forward_loop (suc fuel) f unread n =
    let bytes = clip unread n in
    elim (read_at f.file f.forward_pos bytes) [
      | err e ↦ some (err e)
      | panic ↦ some panic
      | ok buf ↦ elim (accepted (truncate_post_line buf)) [
        | some (logs, index) ↦ some (ok (logs, f.forward_pos + index))
        | none ↦ forward_loop fuel f unread (bytes + read_step)
      ]
    ]

unfoldable pub read_forward : ℕ → FileReader → ℤ → Option (Result (Text × ℕ))
read_forward fuel f step =
    if leb (length f.file) f.forward_pos
    then some (ok ([], 0))
    else forward_loop fuel f (length f.file - f.forward_pos) (read_bytes step)

-- The loop of `ReadBackward`.
unfoldable pub backward_loop : ℕ → FileReader → ℕ → Option (Result (Text × ℕ))
backward_loop zero f n = none
backward_loop (suc fuel) f n = elim (read_before f.file f.backward_pos n) [
  | err e ↦ some (err e)
  | panic ↦ some panic
  | ok buf ↦ elim (accepted (truncate_pre_line buf)) [
    | some (logs, index) ↦ some (ok (logs, f.backward_pos - n + index))
    | none ↦ backward_loop fuel f (n + read_step)
  ]
]

-- What stands behind the start of the file is read by `ReadForward`, whose position is dropped.
abbrev from_start : Option (Result (Text × ℕ)) → Option (Result (Text × ℕ))
from_start none = none
from_start (some (ok (text, index))) = some (ok (text, 0))
from_start (some (err e)) = some (err e)
from_start (some panic) = some panic

unfoldable pub read_backward : ℕ → FileReader → ℤ → Option (Result (Text × ℕ))
read_backward fuel f step =
    if leb f.backward_pos (read_bytes step)
    then from_start (read_forward fuel (record f { forward_pos = 0 }) (pos f.backward_pos))
    else backward_loop fuel f (read_bytes step)

pub data Direction : Type 0 where
  forward : Direction
  backward : Direction

-- `LogLines`
pub record LogLines : Type 0 where
  pub logs : Text
  pub forward_index : ℕ
  pub backward_index : ℕ

abbrev lines_of : FileReader → Direction → Result (Text × ℕ) → Result LogLines
lines_of r forward (ok (txt, index)) =
    ok (record { logs = txt; forward_index = index; backward_index = r.backward_pos })
lines_of r backward (ok (txt, index)) =
    ok (record { logs = txt; forward_index = r.forward_pos; backward_index = index })
lines_of r d (err e) = err e
lines_of r d panic = panic

abbrev answer : FileReader → Direction → Option (Result (Text × ℕ)) → Option (Result LogLines)
answer r d none = none
answer r d (some result) = some (lines_of r d result)

-- `Read` of a file that opens and has the bytes `file`.
unfoldable pub read : ℕ → Text → Direction → ℤ → ℤ → ℤ → Option (Result LogLines)
read fuel file forward bytes forward_index backward_index =
    let r = create_file_reader file forward_index backward_index in
    answer r forward (read_forward fuel r bytes)
read fuel file backward bytes forward_index backward_index =
    let r = create_file_reader file forward_index backward_index in
    answer r backward (read_backward fuel r bytes)
