-- ===== src/Policy/TopicStats/Brokers.antt =====
-- src/policy/topic-stats.go: `AggregateBrokersStats`.
use burnell.Prelude.{
  ℕ, zero, suc, not, ◌||◌, List, [], ◌∷◌, ◌++◌, Option, none, some, if◌then◌else◌, length, nat_eq,
}
use burnell.Prelude.Int.{ℤ, pos, wrap, ◌+ℤ◌, ltb_ℤ, eqb_ℤ}
use burnell.Text.{Text, codes, has_prefix}
use burnell.Util.{single_join_slash}
use burnell.Result.{Result, ok, err, panic, ◌>>=◌}
use burnell.Policy.TopicStats.Page.{slice}

abbrev asked_with : ℤ → Result (List Text) → Result (List Text × ℤ)
asked_with new_offset sliced = sliced >>= λ asked. ok (asked, new_offset)

-- Which brokers are asked, and the offset that the answer has: a refusal is the status 422.
unfoldable pub select_brokers : List Text → ℤ → ℤ → Result (List Text × ℤ)
select_brokers brokers offset limit =
    let total = pos (length brokers) in
    let new_offset = wrap (offset +ℤ limit) in
    if ltb_ℤ offset (pos 0) || ltb_ℤ limit (pos 0)
    then err (codes "offset or limit cannot be negative")
    else if not (ltb_ℤ offset total)
    then err (codes "offset cannot reconcile with the total number of brokers")
    else if eqb_ℤ new_offset (pos 0) || ltb_ℤ total new_offset
    then asked_with total (slice brokers offset total)
    else if eqb_ℤ limit (pos 0)
    then err (codes "limit must be greater than 0")
    else asked_with new_offset (slice brokers offset new_offset)

-- What the loop of `AggregateBrokersStats` receives: a broker's answer, or the end of the time.
pub data Event (S : Type 0) : Type 0 where
  result : S → Event S
  timeout : Event S

-- The answers and the status, where the loop has returned.
unfoldable pub collect : {S : Type 0} → ℕ → List S → List (Event S) → Option (List S × ℕ)
collect size broker_stats [] = none
collect size broker_stats (timeout ∷ events) = some (broker_stats, 500)
collect zero broker_stats (result r ∷ events) = collect zero (broker_stats ++ r ∷ []) events
collect (suc zero) broker_stats (result r ∷ events) = some (broker_stats ++ r ∷ [], 200)
collect (suc (suc n)) broker_stats (result r ∷ events) =
    collect (suc n) (broker_stats ++ r ∷ []) events

-- The URL of `brokerStatsQuery`.
unfoldable pub broker_stats_url : Text → Text → Text
broker_stats_url url_string sub_route =
    single_join_slash
      (if has_prefix url_string (codes "http") then url_string else codes "http://" ++ url_string)
      sub_route

-- `BrokersStats`
pub record BrokersStats (S : Type 0) : Type 0 where
  pub total : ℤ
  pub offset : ℤ
  pub answers : List S

-- The statistics, an error with its status, a panic, or nothing yet.
pub data AggregateReply (S : Type 0) : Type 0 where
  aggregated : BrokersStats S → AggregateReply S
  aggregate_error : (status : ℕ) → AggregateReply S
  aggregate_panic : AggregateReply S
  waiting : AggregateReply S

abbrev aggregate_of : {S : Type 0} → ℤ → ℤ → Option (List S × ℕ) → AggregateReply S
aggregate_of total new_offset none = waiting
aggregate_of total new_offset (some (answers, status)) =
    if nat_eq status 200
    then aggregated (record { total = total; offset = new_offset; answers = answers })
    else aggregate_error status

-- `AggregateBrokersStats` of the brokers that `GetBrokers` returns, with what the loop receives.
unfoldable pub aggregate_brokers_stats :
    {S : Type 0} → List Text → ℤ → ℤ → List (Event S) → AggregateReply S
aggregate_brokers_stats brokers offset limit events = elim (select_brokers brokers offset limit) [
  | err message ↦ aggregate_error 422
  | panic ↦ aggregate_panic
  | ok (asked, new_offset) ↦
      aggregate_of (pos (length brokers)) new_offset (collect (length asked) [] events)
]
