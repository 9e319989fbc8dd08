-- ===== src/LogServer/Backward.antt =====
-- `ReadBackward`: what its loop returns, and that it returns.
use burnell.Prelude.{
  true, false, ℕ, zero, suc, ◌+◌, ◌-◌, ◌*◌, ◌≤◌, ◌<◌, ◌≡◌, refl, sym, ◌∙◌, ap, ◌⊎◌, inl, inr,
  Option, none, some, [], ◌∷◌, ◌++◌, arith, length, take, drop, ltb, take-same, length-take,
  length-append, append_assoc, Bool-cases, le_or_lt,
}
use burnell.Prelude.Int.{ℤ}
use burnell.Text.{Text, codes, split, contains_byte}
use burnell.Text.Split.{Lacks, split-Lacks, split-append}
use burnell.Text.Search.{find_last, no_place, last_place, nowhere, first_place, find_first}
use burnell.Result.{Result, ok, err}
use burnell.LogServer.Forward.{read_bytes-ge}
use burnell.LogServer.{
  FileReader, newline, read_step, read_at, read_before, read_bytes, accepted, truncate_pre_line,
  backward_loop, read_backward,
}

-- Fewer than two newlines stand in the bytes.
abbrev pub FewLines : Text → Type 0
FewLines buf = ltb (length (split buf newline)) 3 ≡ true

-- What `truncatePreLine` makes of the bytes: too few lines, or the text behind the first newline,
-- which has a newline too.
data PreLine (buf : Text) : Type 0 where
  too_few_lines : FewLines buf → accepted (truncate_pre_line buf) ≡ none → PreLine buf
  lines :
      (a b : Text)
      → buf ≡ a ++ newline ∷ b
      → contains_byte b newline ≡ true
      → accepted (truncate_pre_line buf) ≡ some (b, suc (length a))
      → PreLine buf

drop-line : (a b : Text) → drop (suc (length a)) (a ++ newline ∷ b) ≡ b
drop-line [] b = refl
drop-line (x ∷ a) b = drop-line a b

one_piece : (buf : Text) → Lacks newline buf → FewLines buf
one_piece buf l = rw (split-Lacks buf newline l) refl

two_pieces : (a b : Text) → Lacks newline a → Lacks newline b → FewLines (a ++ newline ∷ b)
two_pieces a b l k =
    rw (split-append a b newline, split-Lacks a newline l, split-Lacks b newline k) refl

more_lines :
    (a b : Text)
    → Lacks newline a
    → ltb (length (split (a ++ newline ∷ b) newline)) 3 ≡ false
    → contains_byte b newline ≡ true
more_lines a b l e = elim (find_last b newline) [
  | last_place c d parts k i there ↦ there
  | no_place k i absent ↦ let few = two_pieces a b l k in cc
]

pre_line : (buf : Text) → PreLine buf
unfolding truncate_pre_line
pre_line buf = elim (Bool-cases (ltb (length (split buf newline)) 3)) [
  | inl few ↦ too_few_lines few (rw (few) refl)
  | inr e ↦ elim (find_first buf newline) [
    | nowhere l i ↦ let few = one_piece buf l in cc
    | first_place a b buf_is l i ↦
        lines a b buf_is (more_lines a b l (rw buf_is at e))
          (rw (e, i, ap (drop (suc (length a))) buf_is, drop-line a b) refl)
  ]
]

take-nil : (n : ℕ) (s : Text) → s ≡ [] → take n s ≡ []
take-nil zero s e = refl
take-nil (suc n) s e = rw e refl

take-add : (m n : ℕ) (s : Text) → take (m + n) s ≡ take m s ++ take n (drop m s)
take-add zero n s = ap (λ k. take k s) (omega arith)
take-add (suc m) n [] = take-nil (suc m + n) [] refl ∙ sym (take-nil n [] refl)
take-add (suc m) n (x ∷ s) =
    take-same (suc m + n) (suc (m + n)) (x ∷ s) (omega arith) ∙ ap (λ t. x ∷ t) (take-add m n s)

take-parts : (p n : ℕ) (s : Text) → n ≤ p → take p s ≡ take (p - n) s ++ take n (drop (p - n) s)
take-parts p n s h = take-same p (p - n + n) s (omega (arith, h)) ∙ take-add (p - n) n s

abbrev pub last_bytes : FileReader → ℕ → Text
last_bytes f n = take n (drop (f.backward_pos - n) f.file)

-- An error, where the bytes before the backward position, all but less than 2400 at the start of the
-- file, hold fewer than two newlines; or a text with a newline that stands behind some newline and up
-- to the backward position, with the position at which it starts.
abbrev pub ReturnsLinesBefore : FileReader → Option (Result (Text × ℕ)) → Type 0
ReturnsLinesBefore f result =
    ((message : Text) × (n : ℕ) × (result ≡ some (err message))
      × (n ≤ f.backward_pos)
      × (f.backward_pos < n + read_step)
      × FewLines (last_bytes f n))
    ⊎ ((start : Text) × (logs : Text) × (result ≡ some (ok (logs, length (start ++ newline ∷ []))))
        × (take f.backward_pos f.file ≡ (start ++ newline ∷ []) ++ logs)
        × (contains_byte logs newline ≡ true))

read_before-short : (s : Text) (p n : ℕ) → p < n → read_before s p n ≡ err (codes "negative offset")
unfolding read_before
read_before-short s p n h = ground arith

read_before-ok :
    (s : Text) (p n : ℕ) → n ≤ p → p ≤ length s → read_before s p n ≡ ok (take n (drop (p - n) s))
unfolding read_before read_at
read_before-ok s p n h l = ground arith

found_index :
    (s a : Text) (m : ℕ)
    → m ≤ length s
    → m + suc (length a) ≡ length ((take m s ++ a) ++ newline ∷ [])
found_index s a m h = omega (
  arith,
  h,
  length-append (take m s ++ a) (newline ∷ []),
  length-append (take m s) a,
  length-take m s,
)

backward_loop-found :
    (f : FileReader) (n : ℕ) (a b : Text)
    → n ≤ f.backward_pos
    → f.backward_pos ≤ length f.file
    → take n (drop (f.backward_pos - n) f.file) ≡ a ++ newline ∷ b
    → contains_byte b newline ≡ true
    → ReturnsLinesBefore f (some (ok (b, f.backward_pos - n + suc (length a))))
backward_loop-found f n a b h l e more = inr (
  take (f.backward_pos - n) f.file ++ a,
  b,
  ap (λ k. some (ok (b, k))) (found_index f.file a (f.backward_pos - n) (omega (arith, l))),
  take-parts f.backward_pos n f.file h ∙ simp (e, append_assoc),
  more,
)

backward_loop-overshoots :
    (fuel n : ℕ) (f : FileReader)
    → f.backward_pos < n
    → backward_loop (suc fuel) f n ≡ some (err (codes "negative offset"))
unfolding backward_loop
backward_loop-overshoots fuel n f h =
    rw (backward_loop, read_before-short f.file f.backward_pos n h) refl

backward_loop-turn :
    (fuel n : ℕ) (f : FileReader)
    → n ≤ f.backward_pos
    → f.backward_pos ≤ length f.file
    → backward_loop (suc fuel) f n
      ≡ elim (accepted (truncate_pre_line (take n (drop (f.backward_pos - n) f.file)))) [
        | some (logs, index) ↦ some (ok (logs, f.backward_pos - n + index))
        | none ↦ backward_loop fuel f (n + read_step)
      ]
unfolding backward_loop
backward_loop-turn fuel n f h l =
    rw (backward_loop, read_before-ok f.file f.backward_pos n h l) refl

backward_loop-Returns :
    (fuel n : ℕ) (f : FileReader)
    → n ≤ f.backward_pos
    → f.backward_pos ≤ length f.file
    → f.backward_pos < n + fuel * read_step
    → ReturnsLinesBefore f (backward_loop (suc fuel) f n)
backward_loop-Returns zero n f h l enough = absurd (omega (arith, h, enough))
backward_loop-Returns (suc fuel) n f h l enough = elim (pre_line (last_bytes f n)) [
  | lines a b parts more found ↦
      rw (backward_loop-turn (suc fuel) n f h l, found) (backward_loop-found f n a b h l parts more)
  | too_few_lines few none_yet ↦ elim (le_or_lt (n + read_step) f.backward_pos) [
    | inl h' ↦
        rw (backward_loop-turn (suc fuel) n f h l, none_yet)
          (backward_loop-Returns fuel (n + read_step) f h' l (omega (arith, enough)))
    | inr short ↦
        rw
          (
            backward_loop-turn (suc fuel) n f h l,
            none_yet,
            backward_loop-overshoots fuel (n + read_step) f short,
          )
          (inl (codes "negative offset", n, refl, h, short, few))
  ]
]

read_backward-loop :
    (fuel : ℕ) (f : FileReader) (step : ℤ)
    → read_bytes step < f.backward_pos
    → read_backward fuel f step ≡ backward_loop fuel f (read_bytes step)
unfolding read_backward
read_backward-loop fuel f step h = ground arith

-- Further from the start of the file than the bytes asked for, `ReadBackward` returns, one turn for
-- each 2400 bytes and one more being enough: a text with a newline that starts behind a newline and
-- goes up to the backward position, with the position at which it starts; or an error, and then the
-- bytes before the position, all but less than 2400 at the start of the file, hold fewer than two
-- newlines.
pub read_backward-Returns :
    (fuel : ℕ) (f : FileReader) (step : ℤ)
    → read_bytes step < f.backward_pos
    → f.backward_pos ≤ length f.file
    → f.backward_pos < suc fuel * read_step
    → ReturnsLinesBefore f (read_backward (suc fuel) f step)
read_backward-Returns fuel f step far l enough = rw (read_backward-loop (suc fuel) f step far) (
    backward_loop-Returns fuel (read_bytes step) f (omega (arith, far)) l
      (omega (arith, enough, read_bytes-ge step)))
