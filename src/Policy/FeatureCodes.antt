-- ===== src/Policy/FeatureCodes.antt =====
-- src/policy/feature-codes.go: the codes of features. The expression `^[a-z0-9-]+$` is written out
-- as a test.
pub mod Laws
use burnell.Prelude.{
  ℕ, Bool, true, false, not, ◌&&◌, ◌||◌, List, [], ◌∷◌, Option, none, some, if◌then◌else◌, all, leb,
  nat_eq,
}
use burnell.Text.{Text, codes, ◌==◌, to_lower, trim_space, split, is_digit}
use burnell.Assoc.{insert}

pub record FeatureCode : Type 0 where
  pub name : Text
  pub description : Text
  pub alias : Text

-- The constants `BrokerMetrics` and `InfiniteMessageRetention` of src/policy/policy.go.
abbrev pub broker_metrics : Text
broker_metrics = codes "broker-metrics"

abbrev pub infinite_message_retention : Text
infinite_message_retention = codes "infinite-message-retention"

abbrev pub kafkaesque_feature_codes : List FeatureCode
kafkaesque_feature_codes =
    record {
      name = broker_metrics;
      description = codes "exposes tenant broker metrics";
      alias = codes "broker-metrics,brokerMetrics";
    }
    ∷ record {
      name = infinite_message_retention;
      description = codes "message infinite retention";
      alias = codes "infiniteMessageRetention,imr";
    }
    ∷ record {
      name = codes "cluster-usage-tracking";
      description = codes "tracks cluster usage by hours";
      alias = codes "cut,clusterUsageTracking";
    }
    ∷ []

-- `possible_codes` are the keys of a map from texts to true.
pub record Feature : Type 0 where
  pub possible_codes : List (Text × Bool)
  pub feature_code : FeatureCode

abbrev pub is_code_byte : ℕ → Bool
is_code_byte c = (leb b'a' c && leb c b'z') || is_digit c || nat_eq c b'-'

unfoldable pub is_code : Text → Bool
is_code [] = false
is_code (c ∷ s) = all is_code_byte (c ∷ s)

unfoldable pub validate_feature_code : Text → Text × Bool
validate_feature_code name = let p = trim_space (to_lower name) in (p, is_code p)

abbrev if_valid : {A : Type 0} → Text × Bool → (Text → Option A) → Option A
if_valid (name, true) next = next name
if_valid (name, false) next = none

unfoldable pub add_aliases : List Text → List (Text × Bool) → Option (List (Text × Bool))
add_aliases [] possible = some possible
add_aliases (alias ∷ aliases) possible =
    if_valid (validate_feature_code (trim_space alias))
      (λ name. add_aliases aliases (insert name true possible))

abbrev feature_of : FeatureCode → Option (List (Text × Bool)) → Option Feature
feature_of v none = none
feature_of v (some possible) = some (record { possible_codes = possible; feature_code = v })

-- The feature of one round of the loop; `none` is an error.
unfoldable pub build_feature : FeatureCode → Option Feature
build_feature v =
    if_valid (validate_feature_code v.name)
      (λ name. feature_of v (add_aliases (split v.alias b',') ((name, true) ∷ [])))

unfoldable pub add_features :
    List FeatureCode → List (Text × Feature) → List (Text × Feature) × Bool
add_features [] feature_code_map = (feature_code_map, true)
add_features (v ∷ feature_codes) feature_code_map = elim (build_feature v) [
  | none ↦ (feature_code_map, false)
  | some feature ↦ add_features feature_codes (insert v.name feature feature_code_map)
]

-- `BuildFeatureCodeMap`: the map, and whether there was no error.
unfoldable pub build_feature_code_map : List FeatureCode → List (Text × Feature) × Bool
build_feature_code_map feature_codes = add_features feature_codes []
