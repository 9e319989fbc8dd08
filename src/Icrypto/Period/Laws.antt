-- ===== src/Icrypto/Period/Laws.antt =====
-- Which periods are counted right, and which wrap around.
use burnell.Prelude.{
  ℕ, ap, ◌-◌, ◌^◌, ◌*◌, ◌≤◌, ◌<◌, ◌≡◌, refl, true, [], ◌∷◌, ◌++◌, none, some, arith,
}
use burnell.Prelude.Int.{ℤ, pos, negsuc, wrap, ◌*ℤ◌}
use burnell.Text.{Text, decimal}
use burnell.Text.Atoi.{atoi, atoi_small}
use burnell.Icrypto.Period.{validate_duration_period, split_unit, is_count, hours}
use burnell.Icrypto.Token.{generate_claims}

split_unit-concat : (s : Text) (unit : ℕ) → split_unit (s ++ unit ∷ []) ≡ some (s, unit)
unfolding split_unit
split_unit-concat [] unit = refl
split_unit-concat (c ∷ []) unit = refl
split_unit-concat (c ∷ d ∷ s) unit = rw (split_unit-concat (d ∷ s) unit)

hours_exact : (n : ℕ) → n ≤ 106751 → hours (pos n) 24 ≡ pos (n * 86400000000000)
hours_exact n h = ground arith

years_wrap :
    (n : ℕ)
    → 293 ≤ n
    → n ≤ 584
    → hours (wrap (pos n *ℤ pos 365)) 24 ≡ negsuc (2 ^ 64 - 1 - n * 31536000000000000)
years_wrap n low high = ground arith

atoi-count :
    (count : Text)
    → is_count count ≡ true
    → decimal 0 count < 2 ^ 63
    → atoi count ≡ some (pos (decimal 0 count))
unfolding is_count
atoi-count [] h small = cc
atoi-count (c ∷ s) h small = atoi_small c s (ground arith) small

-- A period of days is counted exactly up to 106751 days, the most that a `time.Duration` holds.
pub validate_duration_period-days :
    (count : Text)
    → is_count count ≡ true
    → decimal 0 count ≤ 106751
    → validate_duration_period (count ++ b'd' ∷ []) ≡ some (pos (decimal 0 count * 86400000000000))
unfolding validate_duration_period
validate_duration_period-days count h small =
    rw (split_unit-concat count b'd', h, atoi-count count h (omega arith))
      (ap some (hours_exact (decimal 0 count) small))

-- A period of 293 to 584 years wraps around to a negative duration, and the token that is issued
-- for it has no expiry.
pub long_period_never_expires :
    (count subject : Text) (now : ℕ)
    → is_count count ≡ true
    → 293 ≤ decimal 0 count
    → decimal 0 count ≤ 584
    → (d : ℤ) × (validate_duration_period (count ++ b'y' ∷ []) ≡ some d)
      × ((generate_claims subject d now).exp ≡ none)
unfolding validate_duration_period generate_claims
long_period_never_expires count subject now h low high = (
  negsuc (2 ^ 64 - 1 - decimal 0 count * 31536000000000000),
  rw (split_unit-concat count b'y', h, atoi-count count h (omega arith))
      (ap some (years_wrap (decimal 0 count) low high)),
  ground arith,
)
