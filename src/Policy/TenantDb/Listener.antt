-- ===== src/Policy/TenantDb/Listener.antt =====
-- src/policy/pulsardb.go: `dbListener`, and the goroutine of `Setup` that starts it again when it has
-- terminated. Pulsar's `CreateReader` and `Next` are given by what they return. `unmarshal` is what
-- `json.Unmarshal` leaves in an empty plan: the error that it may return is only logged.
use burnell.Prelude.{
  map-append, ◌≡◌, refl, sym, ap, subst, ◌∙◌, inl, inr, Bool, true, false, List, [], ◌∷◌, ◌++◌, map,
  Option, none, some, if◌then◌else◌, All,
}
use burnell.Text.{Text, ◌==◌}
use burnell.Assoc.{lookup}
use burnell.Policy.Plan.{TenantPlan, empty_plan}
use burnell.Policy.TenantDb.{receive_into, replay}
use burnell.Policy.TenantDb.Replay.{latest, visible, lookup-replay}
use burnell.Policy.TenantDb.Restart.{latest-forgets}

-- What `reader.Next` returns.
pub data Next : Type 0 where
  message : (payload : Text) → Next
  next_error : Next

abbrev pub Tenants : Type 0
Tenants = List (Text × TenantPlan)

module _ (unmarshal : Text → TenantPlan) where
  -- The loop: the table, and whether it has ended.
  unfoldable pub receive_loop : List Next → Tenants → Tenants × Bool
  receive_loop [] tenants = (tenants, false)
  receive_loop (next_error ∷ events) tenants = (tenants, true)
  receive_loop (message payload ∷ events) tenants =
      receive_loop events (receive_into tenants (unmarshal payload))

  -- `created` is whether `CreateReader` has made a reader.
  unfoldable pub db_listener : Bool → List Next → Tenants → Tenants × Bool
  db_listener created events tenants =
      if created then receive_loop events tenants else (tenants, true)

  -- The goroutine of `Setup`: the next listener starts when the one before has signalled its end.
  unfoldable pub watch : List (Bool × List Next) → Tenants → Tenants
  watch [] tenants = tenants
  watch ((created, events) ∷ runs) tenants =
      let ended = db_listener created events tenants in
      let restarted = watch runs ended.0 in if ended.1 then restarted else ended.0

-- A listener that has no reader, or that fails behind these messages.
abbrev pub failed_run : Option (List Text) → Bool × List Next
failed_run none = (false, [])
failed_run (some payloads) = (true, map message payloads ++ next_error ∷ [])

-- The messages that a listener has read are the first ones of the topic.
abbrev pub ReadsPrefix : List Text → Option (List Text) → Type 0
ReadsPrefix topic none = Unit {0}
ReadsPrefix topic (some payloads) = (later : List Text) × (topic ≡ payloads ++ later)

latest-append :
    (name : Text) (old : Option TenantPlan) (log more : List TenantPlan)
    → latest name old (log ++ more) ≡ latest name (latest name old log) more
latest-append name old [] more = refl
latest-append name old (t ∷ log) more =
    latest-append name (if t.name == name then visible t else old) log more

-- Messages that are read again behind the first ones of them make no difference.
latest-again :
    (name : Text) (old : Option TenantPlan) (log more : List TenantPlan)
    → latest name (latest name old log) (log ++ more) ≡ latest name old (log ++ more)
latest-again name old log more = elim (latest-forgets name (log ++ more)) [
  | inr forgets ↦ forgets (latest name old log) old
  | inl keeps ↦ elim (latest-forgets name log) [
    | inl kept ↦ ap (λ o. latest name o (log ++ more)) (kept old)
    | inr forgets ↦ absurd (
        some_not_none (
          sym (keeps (some empty_plan))
          ∙ latest-append name (some empty_plan) log more
          ∙ ap (λ o. latest name o more) (forgets (some empty_plan) none)
          ∙ sym (latest-append name none log more)
          ∙ keeps none))
  ]
]
  where
    some_not_none : some empty_plan ≡ none → ⊥
    some_not_none e = cc

replay_prefix-latest :
    (name : Text) (tenants : Tenants) (log more : List TenantPlan)
    → latest name (lookup name (replay tenants log)) (log ++ more)
      ≡ latest name (lookup name tenants) (log ++ more)
replay_prefix-latest name tenants log more =
    rw (lookup-replay name tenants log) (latest-again name (lookup name tenants) log more)

module _ (unmarshal : Text → TenantPlan) where
  receive_loop-messages :
      (payloads : List Text) (tenants : Tenants)
      → receive_loop unmarshal (map message payloads) tenants
        ≡ (replay tenants (map unmarshal payloads), false)
  unfolding receive_loop replay
  receive_loop-messages [] tenants = refl
  receive_loop-messages (p ∷ payloads) tenants =
      receive_loop-messages payloads (receive_into tenants (unmarshal p))

  receive_loop-failed :
      (payloads : List Text) (tenants : Tenants)
      → receive_loop unmarshal (map message payloads ++ next_error ∷ []) tenants
        ≡ (replay tenants (map unmarshal payloads), true)
  unfolding receive_loop replay
  receive_loop-failed [] tenants = refl
  receive_loop-failed (p ∷ payloads) tenants =
      receive_loop-failed payloads (receive_into tenants (unmarshal p))

  -- However often the listener has no reader, or fails and starts again from the first message of
  -- the topic, when the last one has read the whole topic the table holds of each tenant the plan of
  -- the last message that names it, nothing if that message says deleted, and what it held at the
  -- start where no message names it.
  pub lookup-watch :
      (name : Text) (topic : List Text) (runs : List (Option (List Text))) (tenants : Tenants)
      → All (ReadsPrefix topic) runs
      → lookup name
          (watch unmarshal (map failed_run runs ++ (true, map message topic) ∷ []) tenants)
        ≡ latest name (lookup name tenants) (map unmarshal topic)
  unfolding watch db_listener
  lookup-watch name topic [] tenants reads =
      rw (watch, receive_loop-messages topic tenants)
        (lookup-replay name tenants (map unmarshal topic))
  lookup-watch name topic (none ∷ runs) tenants (_, reads) =
      lookup-watch name topic runs tenants reads
  lookup-watch name topic (some payloads ∷ runs) tenants ((later, topic_is), reads) =
      rw (watch, receive_loop-failed payloads tenants)
        (lookup-watch name topic runs (replay tenants (map unmarshal payloads)) reads
          ∙ subst
              (λ log.
                latest name (lookup name (replay tenants (map unmarshal payloads))) log
                ≡ latest name (lookup name tenants) log)
              (sym (ap (map unmarshal) topic_is ∙ map-append unmarshal payloads later))
              (replay_prefix-latest name tenants (map unmarshal payloads) (map unmarshal later)))
