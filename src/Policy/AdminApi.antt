-- ===== src/Policy/AdminApi.antt =====
-- src/policy: the requests to the brokers' REST API. A GET request is the argument `get`, by its URL;
-- the decoding of a body is the argument `decode`, where `none` is an error.
pub mod Laws
use burnell.Prelude.{
  ℕ, Bool, true, false, List, [], ◌∷◌, ◌++◌, map, Option, none, some, if◌then◌else◌, nat_eq, length,
}
use burnell.Prelude.Int.{ℤ}
use burnell.Text.{Text, codes}
use burnell.Util.{single_join_slash}
use burnell.Policy.TopicStats.Brokers.{
  broker_stats_url, Event, result, AggregateReply, aggregate_brokers_stats, aggregate_error,
  aggregate_panic, select_brokers,
}
use burnell.Result.{Result, ok, err, panic}

-- `client.Do` with the reading of the body: an answer, or an error of either.
pub data Fetched : Type 0 where
  answered : (status : ℕ) (body : Text) → Fetched
  not_answered : Fetched

abbrev or_default : {A : Type 0} → A → Option A → A
or_default default none = default
or_default default (some value) = value

-- The body of an answer with the status 200.
abbrev pub accepted_body : Fetched → Option Text
accepted_body not_answered = none
accepted_body (answered status body) = if nat_eq status 200 then some body else none

abbrev decoded : {A : Type 0} → (Text → Option A) → Option Text → Option A
decoded decode none = none
decoded decode (some body) = decode body

module _ (get : Text → Fetched) (decode : Text → Option (List Text)) where
  -- `sort.StringSlice` only names the type of the list: nothing is sorted.
  unfoldable pub get_brokers : Text → Text → List Text
  get_brokers broker_proxy_url cluster_name = or_default [] (
      decoded decode (
        accepted_body
          (get (single_join_slash broker_proxy_url (codes "admin/v2/brokers/" ++ cluster_name)))))

  unfoldable pub get_topics_from_namespace : Text → Text → Bool → Option (List Text)
  get_topics_from_namespace broker_proxy_url path is_persistent =
      let paths =
        if is_persistent
        then codes "admin/v2/persistent/" ++ path
        else codes "admin/v2/non-persistent/" ++ path in
      decoded decode (accepted_body (get (single_join_slash broker_proxy_url paths)))

  abbrev any_body : Fetched → Option Text
  any_body not_answered = none
  any_body (answered status body) = some body

  -- `AdminAPIGETRespStringArray`, which reads an answer of any status.
  unfoldable pub admin_api_get_resp_string_array : Text → Text → Option (List Text)
  admin_api_get_resp_string_array broker_proxy_url subroute = decoded decode (
      any_body
        (get (single_join_slash (single_join_slash broker_proxy_url (codes "/admin/v2")) subroute)))

-- `BrokerStats`: the broker, and what it answered.
pub record BrokerStats (D : Type 0) : Type 0 where
  pub broker : Text
  pub answer : Option D

-- `brokerStatsQuery`: what it sends to the channel, on every branch.
unfoldable pub broker_stats_query :
    {D : Type 0} → (Text → Fetched) → (Text → Option D) → Text → Text → BrokerStats D
broker_stats_query get decode url_string sub_route = record {
  broker = url_string;
  answer = decoded decode (accepted_body (get (broker_stats_url url_string sub_route)));
}

abbrev to_event : {D : Type 0} → BrokerStats D → Event (BrokerStats D)
to_event answer = result answer

-- `AggregateBrokersStats` where every broker that is asked answers in time. Each is asked by a
-- goroutine of its own: `arrived` are these brokers in the order in which their answers come.
unfoldable pub aggregate_in_time :
    {D : Type 0}
    → (Text → Fetched)
    → (Text → Option D)
    → (brokers arrived : List Text) → Text
    → ℤ
    → ℤ
    → AggregateReply (BrokerStats D)
aggregate_in_time get decode brokers arrived sub_route offset limit =
    aggregate_brokers_stats brokers offset limit
      (map to_event (map (λ broker. broker_stats_query get decode broker sub_route) arrived))
