-- ===== src/Tests/Texts.antt =====
-- Tests of src/util/util.go and of the periods of src/icrypto/pulsar-jwt.go.
use burnell.Prelude.{◌≡◌, refl, true, [], ◌∷◌, ◌++◌, none, some, arith}
use burnell.Prelude.Int.{ℤ, pos}
use burnell.Text.{codes, decimal, to_lower, trim_space}
use burnell.Text.Atoi.{atoi}
use burnell.Util.{
  parse_partition_topic_name, partition_prefix, single_join_slash, compute_delta,
  bytes_to_mega_bytes_floor, get_env_int,
}
use burnell.Util.Topics.{parse_partition-prefix}
use burnell.Icrypto.Period.{
  validate_duration_period, is_count, validate_claims, split_unit, sig_method, none_method,
}
use burnell.Icrypto.Period.Laws.{long_period_never_expires}
use burnell.Icrypto.Token.{generate_claims}

parse_partition-prefix_example :
    parse_partition_topic_name (partition_prefix ++ codes "persistent://t/n/x")
    ≡ (codes "persistent://t/n/x", true)
parse_partition-prefix_example = parse_partition-prefix (codes "persistent://t/n/x")

long_period_never_expires_example :
    (d : ℤ) × (validate_duration_period (codes "300" ++ b'y' ∷ []) ≡ some d)
    × ((generate_claims (codes "admin") d 0).exp ≡ none)
unfolding is_count decimal
long_period_never_expires_example =
    long_period_never_expires (codes "300") (codes "admin") 0 refl (omega arith) (omega arith)

util_tests :
    (single_join_slash (codes "http://b/") (codes "/admin") ≡ codes "http://b/admin")
    × (single_join_slash (codes "http://b") (codes "admin") ≡ codes "http://b/admin")
    × (compute_delta 5 5 9 ≡ 9)
    × (compute_delta 5 7 9 ≡ 2)
    × (bytes_to_mega_bytes_floor (pos 15900000) ≡ pos 15)
    × (bytes_to_mega_bytes_floor (pos 1) ≡ pos 1)
    × (get_env_int (codes "12x") (pos 9) ≡ pos 9)
unfolding single_join_slash compute_delta bytes_to_mega_bytes_floor get_env_int
util_tests = (refl, refl, refl, refl, refl, refl, refl)

claims_tests :
    (validate_claims (λ _. none) (codes " 1D ") (codes "NONE")
      ≡ some (pos 86400000000000, none_method))
    × (validate_claims (λ _. none) (codes "01d") (codes "rs256") ≡ none)
unfolding validate_claims validate_duration_period split_unit trim_space to_lower is_count atoi
    sig_method
claims_tests = (refl, refl)
