-- ===== src/Composition/Tailing.antt =====
-- src/logclient/reader.go with src/logserver/logserver.go: who reads a function's log again and again,
-- each time from the `ForwardPosition` of the last answer, as the README describes.
use burnell.Text.Split.{Lacks}
use burnell.Text.Search.{find_last, no_place, last_place}
use burnell.LogServer.Forward.{read_forward-short}
use burnell.Prelude.{
  ℕ, zero, suc, ◌+◌, ◌*◌, ◌≤◌, ◌<◌, ◌≡◌, refl, sym, ap, ◌∙◌, true, Option, none, some, List, [],
  ◌∷◌, ◌++◌, arith, length, drop, length-append, length-drop, append_assoc, append-nil, drop-append,
  ◌≢◌, if◌then◌else◌, All,
}
use burnell.Prelude.Int.{ℤ, pos}
use burnell.Text.{Text, codes, contains_byte}
use burnell.Result.{Result, ok, err, panic}
use burnell.LogServer.{
  FileReader, LogLines, forward, backward, newline, read_step, create_file_reader, read,
  read_forward,
}
use burnell.LogClient.{FunctionType, is_forward_request}
use burnell.LogClient.Request.{
  LogConfig, ReadRequest, read_request, FunctionLogRequest, FunctionLogResponse, LogReply,
  logs_read, no_log, server_error, server_panic, read_log,
}

abbrev response_of : LogLines → FunctionLogResponse
response_of l = record {
  logs = l.logs;
  backward_position = pos l.backward_index;
  forward_position = pos l.forward_index;
}

-- A server that does not return runs into the time-out of the call.
abbrev served : Option (Result LogLines) → Result FunctionLogResponse
served none = err (codes "context deadline exceeded")
served (some (ok l)) = ok (response_of l)
served (some (err message)) = err message
served (some panic) = panic

-- The log server of every worker, where the requested file has these bytes.
pub log_server : ℕ → Text → Text → ReadRequest → Result FunctionLogResponse
log_server fuel file address rq = served (
    read fuel file (if rq.is_forward then forward else backward) rq.bytes rq.forward_index
      rq.backward_index)

abbrev pub from_position : ℤ → ℕ → FunctionLogRequest
from_position bytes p = record {
  bytes = bytes;
  backward_position = pos 0;
  forward_position = pos p;
}

-- The logs so far, and the position to ask for next; `none` is an answer without logs.
abbrev pub Tail : Type 0
Tail = Option (Text × ℤ)

abbrev behind : Text → Tail → Tail
behind logs none = none
behind logs (some (later, p)) = some (logs ++ later, p)

module _ (fuel : ℕ) (config : LogConfig) (fn : FunctionType) (worker_id : Text)
    (instance_id bytes : ℤ) where
  pub ask : Text → ℕ → LogReply
  ask file p =
      read_log config (log_server fuel file) fn worker_id instance_id (from_position bytes p)

  -- Before each request the function appends to its log.
  pub tail_log : List Text → Text → ℕ → Tail
  tail_log [] file p = some ([], pos p)
  tail_log (a ∷ appended) file p = elim (ask (file ++ a) p) [
    | no_log reason ↦ none
    | server_error message ↦ none
    | server_panic ↦ none
    | logs_read answer ↦ elim answer.forward_position [
      | ℤ.negsuc n ↦ none
      | pos q ↦ behind answer.logs (tail_log appended (file ++ a) q)
    ]
  ]

abbrev pub whole_file : Text → List Text → Text
whole_file file [] = file
whole_file file (a ∷ appended) = whole_file (file ++ a) appended

reader_at : Text → ℕ → FileReader
reader_at file p = create_file_reader file (pos p) (pos 0)

is_forward : (p : ℕ) → is_forward_request (pos (suc p)) ≡ true
unfolding is_forward_request
is_forward p = ground arith

ask_forward :
    (fuel : ℕ) (config : LogConfig) (fn : FunctionType) (worker_id : Text) (instance_id bytes : ℤ)
    (file logs : Text) (p q : ℕ)
    → read_forward fuel (reader_at file (suc p)) bytes ≡ some (ok (logs, q))
    → ask fuel config fn worker_id instance_id bytes file (suc p)
      ≡ logs_read
          (record { logs = logs; backward_position = pos (length file); forward_position = pos q })
unfolding ask reader_at read_log log_server read create_file_reader read_request
ask_forward fuel config fn worker_id instance_id bytes file logs p q h =
    rw (ask, read_log, log_server, read_request, is_forward p, read, h) refl

drop-of_append : (n : ℕ) (s t : Text) → n ≤ length s → drop n (s ++ t) ≡ drop n s ++ t
drop-of_append zero s t h = refl
drop-of_append (suc n) [] t h = absurd (omega (arith, h))
drop-of_append (suc n) (c ∷ s) t h = drop-of_append n s t (omega (arith, h))

drop-nil : (n : ℕ) → drop {A = ℕ} n [] ≡ []
drop-nil zero = refl
drop-nil (suc n) = refl

drop-drop : (m n : ℕ) (s : Text) → drop n (drop m s) ≡ drop (m + n) s
drop-drop zero n s = ap (λ k. drop k s) (omega arith)
drop-drop (suc m) n [] = drop-nil n ∙ sym (drop-nil (suc m + n))
drop-drop (suc m) n (c ∷ s) =
    let e : suc (m + n) ≡ suc m + n = omega arith in drop-drop m n s ∙ ap (λ k. drop k (c ∷ s)) e

not_empty : (a : Text) → contains_byte a newline ≡ true → a ≢ []
unfolding contains_byte
not_empty [] h e = cc
not_empty (c ∷ a) h e = cc

whole_file-prefix :
    (file : Text) (appended : List Text) → (more : Text) × (whole_file file appended ≡ file ++ more)
whole_file-prefix file [] = ([], sym (append-nil file))
whole_file-prefix file (a ∷ appended) =
    let (more, e) = whole_file-prefix (file ++ a) appended in
    (a ++ more, e ∙ append_assoc file a more)

-- Logs that stand in the text behind the position, one answer right behind the other, with the
-- position behind them; what is left behind them is a line that is not complete.
abbrev pub TailsInto : Text → ℕ → Tail → Type 0
TailsInto text p result =
    (logs : Text) × (rest : Text) × (result ≡ some (logs, pos (p + length logs)))
    × (drop p text ≡ logs ++ rest)
    × Lacks newline rest

tail_log-step :
    (fuel : ℕ) (config : LogConfig) (fn : FunctionType) (worker_id : Text) (instance_id bytes : ℤ)
    (appended : List Text) (a file : Text) (p : ℕ) (logs : Text)
    → read_forward fuel (reader_at (file ++ a) (suc p)) bytes
      ≡ some (ok (logs, suc p + length logs))
    → tail_log fuel config fn worker_id instance_id bytes (a ∷ appended) file (suc p)
      ≡ behind logs (
          tail_log fuel config fn worker_id instance_id bytes appended
            (file ++ a)
            (suc p + length logs))
unfolding tail_log
tail_log-step fuel config fn worker_id instance_id bytes appended a file p logs h =
    rw
      (
        tail_log,
        ask_forward fuel config fn worker_id instance_id bytes (file ++ a) logs p
            (suc p + length logs) h,
      )
      refl

TailsInto-behind :
    (text logs rest : Text) (p : ℕ) (later : Tail)
    → drop p text ≡ logs ++ rest
    → TailsInto text (p + length logs) later
    → TailsInto text p (behind logs later)
TailsInto-behind text logs rest p later here (more, rest', e, there, lacks) = (
  logs ++ more,
  rest',
  rw e (ap (λ k. some (logs ++ more, pos k)) (omega (arith, length-append logs more))),
  here
      ∙ ap (λ t. logs ++ t)
          (sym (drop-append logs rest)
            ∙ ap (drop (length logs)) (sym here)
            ∙ drop-drop p (length logs) text
            ∙ there)
      ∙ sym (append_assoc logs more rest'),
  lacks,
)

-- The complete lines of what is unread are the answer.
read_new :
    (fuel : ℕ) (bytes : ℤ) (file a b c : Text) (p : ℕ)
    → suc p ≤ length file
    → a ≡ b ++ newline ∷ c
    → Lacks newline c
    → length (drop (suc p) file) + length a ≤ read_step
    → read_forward (suc fuel) (reader_at (file ++ a) (suc p)) bytes
      ≡ some (
          ok (
            (drop (suc p) file ++ b) ++ newline ∷ [],
            suc p + length ((drop (suc p) file ++ b) ++ newline ∷ []),
          ))
unfolding reader_at create_file_reader
read_new fuel bytes file a b c p l parts lacks small =
    let unread : drop (suc p) (file ++ a) ≡ (drop (suc p) file ++ b) ++ newline ∷ c =
      drop-of_append (suc p) file a l
      ∙ ap (λ t. drop (suc p) file ++ t) parts
      ∙ sym (append_assoc (drop (suc p) file) b (newline ∷ c)) in
    read_forward-short fuel (reader_at (file ++ a) (suc p)) bytes (drop (suc p) file ++ b) c
      (omega (arith, l, length-append file a, ap length parts, length-append b (newline ∷ c)))
      unread lacks
      (omega (
        arith,
        small,
        ap length (drop-of_append (suc p) file a l),
        length-append (drop (suc p) file) a,
      ))

length-parts : (s a b : Text) (n : ℕ) → n ≤ length s → drop n s ≡ a ++ b → n + length a ≤ length s
length-parts s a b n l e = omega (arith, l, ap length e, length-append a b, length-drop n s)

-- A piece of the log that holds a newline and is at most 1200 bytes long.
abbrev pub IsPiece : Text → Type 0
IsPiece a = (contains_byte a newline ≡ true) × (2 * length a ≤ read_step)

-- Whoever asks for a log that grows by at least a line and at most 1200 bytes before each request,
-- first from a position above 0 in its last, incomplete line and at most 1200 bytes before its end,
-- and then each time from the position of the last answer, gets every complete line behind the first position
-- once and in order: the answers together with an incomplete line are what stands there, and the
-- position is behind the answers. A turn of each read is fuel enough.
pub tail_log-TailsInto :
    (fuel : ℕ) (config : LogConfig) (fn : FunctionType) (worker_id : Text) (instance_id bytes : ℤ)
    (appended : List Text) (file : Text) (p : ℕ)
    → 0 < p
    → p ≤ length file
    → Lacks newline (drop p file)
    → 2 * length (drop p file) ≤ read_step
    → All IsPiece appended
    → TailsInto
        (whole_file file appended)
        p
        (tail_log (suc fuel) config fn worker_id instance_id bytes appended file p)
tail_log-TailsInto fuel config fn worker_id instance_id bytes [] file p pos_p l lacks few pieces =
    let e : p ≡ p + 0 = omega arith in
    ([], drop p file, unfold tail_log in ap (λ k. some ([], pos k)) e, refl, lacks)
tail_log-TailsInto fuel config fn worker_id instance_id bytes (a ∷ appended) file zero pos_p l lacks
      few pieces =
    absurd (omega (arith, pos_p))
tail_log-TailsInto fuel config fn worker_id instance_id bytes (a ∷ appended) file (suc p) pos_p l
      lacks few ((line, small), pieces) =
    elim (find_last a newline) [
      | no_place none_there index absent ↦ cc
      | last_place b c parts incomplete index there ↦
          let logs = (drop (suc p) file ++ b) ++ newline ∷ [] in
          let (more, whole) = whole_file-prefix (file ++ a) appended in
          let grown : suc p ≤ length (file ++ a) = omega (arith, l, length-append file a) in
          let unread : drop (suc p) (file ++ a) ≡ logs ++ c =
            drop-of_append (suc p) file a l
            ∙ ap (λ t. drop (suc p) file ++ t) parts
            ∙ sym (append_assoc (drop (suc p) file) b (newline ∷ c))
            ∙ sym (append_assoc (drop (suc p) file ++ b) (newline ∷ []) c) in
          let behind_logs : drop (suc p + length logs) (file ++ a) ≡ c =
            sym (drop-drop (suc p) (length logs) (file ++ a))
            ∙ ap (drop (length logs)) unread
            ∙ drop-append logs c in
          rw
            (tail_log-step (suc fuel) config fn worker_id instance_id bytes appended a file p logs
              (read_new fuel bytes file a b c p l parts incomplete (omega (arith, few, small))))
            (TailsInto-behind (whole_file (file ++ a) appended) logs (c ++ more) (suc p)
              (tail_log (suc fuel) config fn worker_id instance_id bytes appended (file ++ a)
                (suc p + length logs))
              (ap (drop (suc p)) whole
                ∙ drop-of_append (suc p) (file ++ a) more grown
                ∙ ap (λ t. t ++ more) unread
                ∙ append_assoc logs c more)
              (tail_log-TailsInto fuel config fn worker_id instance_id bytes appended (file ++ a)
                (suc p + length logs) (omega arith)
                (length-parts (file ++ a) logs c (suc p) grown unread) (rw behind_logs incomplete)
                (omega (
                  arith,
                  small,
                  ap length behind_logs,
                  ap length parts,
                  length-append b (newline ∷ c),
                ))
                pieces))
    ]
