-- ===== src/Tests/Metrics.antt =====
-- The metrics: instances. The floating-point type is a fraction here.
use cache_server_go.Base.{ℕ, ◌*◌, ◌≤◌, ◌<◌, ◌≡◌, arith}
use cache_server_go.Metrics.{Metrics, fresh}
use cache_server_go.Metrics.Snapshot.{Float, snapshot, IsRate, snapshot_rates}

-- Fractions of numbers below 2^63, a numerator and a denominator.
abbrev Fraction : Type 0
Fraction = ℕ × ℕ

abbrev fractions : Float
fractions = record {
  Carrier = Fraction;
  of_int64 = λ n. (n, 1);
  div = λ a b. (a.0 * b.1, a.1 * b.0);
  thousand = (1000, 1);
}

-- From 0 to 1.
abbrev InUnit : Fraction → Type 0
InUnit r = (r.0 ≤ r.1) × (0 < r.1)

fractions-IsRate : IsRate fractions InUnit
fractions-IsRate = record { within_zero = omega arith; within_div = λ a b h p _. omega arith }

abbrev counted : Metrics
counted = record fresh {
  l1_hits = 3;
  l1_misses = 4;
  l2_hits = 2;
  l2_misses = 1;
  origin_calls = 5;
  origin_errors = 6;
  coalesced_calls = 8;
  total_requests = 7;
}

snapshot_rates_example :
    let s = snapshot fractions counted in
    InUnit s.l1_hit_rate
    × InUnit s.l2_hit_rate
    × (s.l1_hit_rate ≡ (3, 7))
    × (s.l2_hit_rate ≡ (2, 3))
    × (s.l1_hits ≡ 3)
    × (s.l1_misses ≡ 4)
    × (s.l2_hits ≡ 2)
    × (s.l2_misses ≡ 1)
    × (s.origin_calls ≡ 5)
    × (s.origin_errors ≡ 6)
    × (s.coalesced_calls ≡ 8)
    × (s.total_requests ≡ 7)
snapshot_rates_example =
    snapshot_rates fractions InUnit counted fractions-IsRate (omega arith) (omega arith)
