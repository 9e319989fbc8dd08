-- ===== src/LogClient/Listener.antt =====
-- src/logclient/reader.go: `ReaderLoop` and `FunctionTopicWatchDog`. Pulsar's client and reader are
-- given by what they return. `details` is what `proto.Unmarshal` leaves of the message's function,
-- whose error is dropped: without metadata or details `ParseServiceRequest` reads through a nil
-- pointer, and the process ends.
use burnell.Prelude.{
  map-append, ◌≡◌, refl, sym, ap, subst, ◌∙◌, inl, inr, Bool, true, false, List, [], ◌∷◌, ◌++◌, map,
  Option, none, some, if◌then◌else◌, Option-cases, Bool-cases, All,
}
use burnell.Text.{Text, ◌==◌}
use burnell.Result.{Result, ok, panic, ◌>>=◌}
use burnell.LogClient.{
  FunctionMap, FunctionType, FunctionDetails, function_of, key_of, read_function_map,
  parse_service_request,
}
use burnell.LogClient.Laws.{or_first, lookup-parse_service_request}

-- What `reader.Next` returns.
pub data Next : Type 0 where
  message : (payload : Text) → Next
  next_error : Next

module _ (details : Text → Option FunctionDetails) where
  -- The loop: the map, and whether it has ended.
  unfoldable pub receive_loop : List Next → FunctionMap → Result (FunctionMap × Bool)
  receive_loop [] functions = ok (functions, false)
  receive_loop (next_error ∷ events) functions = ok (functions, true)
  receive_loop (message payload ∷ events) functions = elim (details payload) [
    | none ↦ panic
    | some fd ↦ receive_loop events (parse_service_request fd functions)
  ]

  -- `created` is whether there are a client and a reader.
  unfoldable pub reader_loop : Bool → List Next → FunctionMap → Result (FunctionMap × Bool)
  reader_loop created events functions =
      if created then receive_loop events functions else ok (functions, true)

  -- The next reader starts when the one before has signalled its end.
  unfoldable pub function_topic_watch_dog :
      List (Bool × List Next) → FunctionMap → Result FunctionMap
  function_topic_watch_dog [] functions = ok functions
  function_topic_watch_dog ((created, events) ∷ runs) functions =
      reader_loop created events functions >>= λ ended.
      let restarted = function_topic_watch_dog runs ended.0 in
      if ended.1 then restarted else ok ended.0

-- A reader that is not there, or that fails behind these messages.
abbrev pub failed_run : Option (List Text) → Bool × List Next
failed_run none = (false, [])
failed_run (some payloads) = (true, map message payloads ++ next_error ∷ [])

abbrev pub ReadsPrefix : List Text → Option (List Text) → Type 0
ReadsPrefix topic none = Unit {0}
ReadsPrefix topic (some payloads) = (later : List Text) × (topic ≡ payloads ++ later)

-- The specification: the first function that was known under the key.
abbrev pub first_known : Text → Option FunctionType → List FunctionDetails → Option FunctionType
first_known key old [] = old
first_known key old (fd ∷ log) =
    first_known key (if key_of fd == key then some (or_first old (function_of fd)) else old) log

first_known-stays :
    (key : Text) (f : FunctionType) (log : List FunctionDetails)
    → first_known key (some f) log ≡ some f
first_known-stays key f [] = refl
first_known-stays key f (fd ∷ log) = elim (Bool-cases (key_of fd == key)) [
  | inl e ↦ rw e (first_known-stays key f log)
  | inr e ↦ rw e (first_known-stays key f log)
]

first_known-append :
    (key : Text) (old : Option FunctionType) (log more : List FunctionDetails)
    → first_known key old (log ++ more) ≡ first_known key (first_known key old log) more
first_known-append key old [] more = refl
first_known-append key old (fd ∷ log) more =
    first_known-append key (if key_of fd == key then some (or_first old (function_of fd)) else old)
      log more

first_known-again :
    (key : Text) (old : Option FunctionType) (log more : List FunctionDetails)
    → first_known key (first_known key old log) (log ++ more) ≡ first_known key old (log ++ more)
first_known-again key none log more = elim (Option-cases (first_known key none log)) [
  | inl e ↦ rw e refl
  | inr (f, e) ↦
      ap (λ o. first_known key o (log ++ more)) e
      ∙ first_known-stays key f (log ++ more)
      ∙ sym (
          first_known-append key none log more
          ∙ ap (λ o. first_known key o more) e
          ∙ first_known-stays key f more)
]
first_known-again key (some f) log more = rw (first_known-stays key f log) refl

-- The map after these messages.
receive_all : List FunctionDetails → FunctionMap → FunctionMap
receive_all [] functions = functions
receive_all (fd ∷ log) functions = receive_all log (parse_service_request fd functions)

lookup-receive_all :
    (key : Text) (log : List FunctionDetails) (functions : FunctionMap)
    → read_function_map key (receive_all log functions)
      ≡ first_known key (read_function_map key functions) log
unfolding receive_all
lookup-receive_all key [] functions = refl
lookup-receive_all key (fd ∷ log) functions =
    rw
      (
        lookup-receive_all key log (parse_service_request fd functions),
        lookup-parse_service_request fd key functions,
      )
      refl

All-prefix : (P : Text → Type 0) (xs ys : List Text) → All P (xs ++ ys) → All P xs
All-prefix P [] ys h = tt
All-prefix P (x ∷ xs) ys (p, h) = (p, All-prefix P xs ys h)

-- Every message has its details.
abbrev pub Readable :
    (Text → Option FunctionDetails) → (Text → FunctionDetails) → List Text → Type 0
Readable details known topic = All (λ p. details p ≡ some (known p)) topic

module _ (details : Text → Option FunctionDetails) (known : Text → FunctionDetails) where
  receive_loop-messages :
      (payloads : List Text) (functions : FunctionMap)
      → Readable details known payloads
      → receive_loop details (map message payloads) functions
        ≡ ok (receive_all (map known payloads) functions, false)
  unfolding receive_loop receive_all
  receive_loop-messages [] functions h = refl
  receive_loop-messages (p ∷ payloads) functions (e, h) =
      rw (receive_loop, e)
        (receive_loop-messages payloads (parse_service_request (known p) functions) h)

  receive_loop-failed :
      (payloads : List Text) (functions : FunctionMap)
      → Readable details known payloads
      → receive_loop details (map message payloads ++ next_error ∷ []) functions
        ≡ ok (receive_all (map known payloads) functions, true)
  unfolding receive_loop receive_all
  receive_loop-failed [] functions h = refl
  receive_loop-failed (p ∷ payloads) functions (e, h) =
      rw (receive_loop, e)
        (receive_loop-failed payloads (parse_service_request (known p) functions) h)

  -- Where every message has its details, however often the reader fails and starts again from the
  -- first message of the topic, when the last one has read the whole topic each key finds the first
  -- function that had it: the one in the map at the start, or else the first in the topic.
  pub lookup-watch_dog :
      (key : Text) (topic : List Text) (runs : List (Option (List Text))) (functions : FunctionMap)
      → Readable details known topic
      → All (ReadsPrefix topic) runs
      → (after : FunctionMap) × (function_topic_watch_dog details
            (map failed_run runs ++ (true, map message topic) ∷ [])
            functions
          ≡ ok after)
        × (read_function_map key after
            ≡ first_known key (read_function_map key functions) (map known topic))
  unfolding function_topic_watch_dog reader_loop
  lookup-watch_dog key topic [] functions readable reads = (
    receive_all (map known topic) functions,
    rw (function_topic_watch_dog, receive_loop-messages topic functions readable) refl,
    lookup-receive_all key (map known topic) functions,
  )
  lookup-watch_dog key topic (none ∷ runs) functions readable (_, reads) =
      lookup-watch_dog key topic runs functions readable reads
  lookup-watch_dog key topic (some payloads ∷ runs) functions readable ((later, topic_is), reads) =
      let P : Text → Type 0 = λ p. details p ≡ some (known p) in
      let first : Readable details known payloads =
        All-prefix P payloads later (subst (All P) topic_is readable) in
      let (after, runs_to, found) =
        lookup-watch_dog key topic runs (receive_all (map known payloads) functions) readable
          reads in
      (
        after,
        rw (function_topic_watch_dog, receive_loop-failed payloads functions first) runs_to,
        found
            ∙ ap (λ o. first_known key o (map known topic))
                (lookup-receive_all key (map known payloads) functions)
            ∙ subst
                (λ log.
                  first_known key
                    (first_known key (read_function_map key functions) (map known payloads)) log
                  ≡ first_known key (read_function_map key functions) log)
                (sym (ap (map known) topic_is ∙ map-append known payloads later))
                (first_known-again key (read_function_map key functions) (map known payloads)
                  (map known later)),
      )

-- A message without details ends the process, whenever it is reached: behind readable messages, in
-- every reader that is started anew, and whatever stands behind it.
pub reader_loop-panics :
    (details : Text → Option FunctionDetails) (known : Text → FunctionDetails)
    (payloads : List Text) (bad : Text) (events : List Next) (functions : FunctionMap)
    → Readable details known payloads
    → details bad ≡ none
    → reader_loop details true (map message payloads ++ message bad ∷ events) functions ≡ panic
unfolding reader_loop receive_loop
reader_loop-panics details known [] bad events functions h e = rw (receive_loop, e) refl
reader_loop-panics details known (p ∷ payloads) bad events functions (k, h) e =
    rw (receive_loop, k)
      (reader_loop-panics details known payloads bad events
        (parse_service_request (known p) functions) h e)
