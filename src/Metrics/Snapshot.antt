-- ===== src/Metrics/Snapshot.antt =====
-- `Snapshot` of internal/metrics/metrics.go. The floating-point type is a parameter with the three
-- operations that the code calls; `IsRate` holds the two facts of IEEE division that are relied on.
use cache_server_go.Base.{
  ℕ, zero, suc, true, ◌+◌, ◌^◌, ◌≤◌, ◌<◌, ◌≡◌, refl, arith, if◌then◌else◌, add64, is_positive64,
}
use cache_server_go.Metrics.Counters.{Metrics}

pub record Float : Type 1 where
  pub Carrier : Type 0
  pub of_int64 : ℕ → Carrier
  pub div : Carrier → Carrier → Carrier
  pub thousand : Carrier

pub record Snapshot (F : Type 0) : Type 0 where
  pub l1_hits : ℕ
  pub l1_misses : ℕ
  pub l1_hit_rate : F
  pub l2_hits : ℕ
  pub l2_misses : ℕ
  pub l2_hit_rate : F
  pub origin_calls : ℕ
  pub origin_errors : ℕ
  pub coalesced_calls : ℕ
  pub total_requests : ℕ
  pub avg_latency_us : F
  pub overall_hit_rate : F

module _ (f : Float) where
  open f use {Carrier, of_int64, div, thousand}

  -- `if total > 0 { rate = float64(hits) / float64(total) }` over a field that is 0 at first.
  rate : ℕ → ℕ → Carrier
  rate hits total = if is_positive64 total then div (of_int64 hits) (of_int64 total) else of_int64 0

  unfoldable pub snapshot : Metrics → Snapshot Carrier
  unfolding rate
  snapshot m = record {
    l1_hits = m.l1_hits;
    l1_misses = m.l1_misses;
    l1_hit_rate = rate m.l1_hits (add64 m.l1_hits m.l1_misses);
    l2_hits = m.l2_hits;
    l2_misses = m.l2_misses;
    l2_hit_rate = rate m.l2_hits (add64 m.l2_hits m.l2_misses);
    origin_calls = m.origin_calls;
    origin_errors = m.origin_errors;
    coalesced_calls = m.coalesced_calls;
    total_requests = m.total_requests;
    avg_latency_us =
        if is_positive64 m.total_requests
        then div (div (of_int64 m.total_latency_ns) (of_int64 m.total_requests)) thousand
        else of_int64 0;
    overall_hit_rate = rate (add64 m.l1_hits m.l2_hits) m.total_requests;
  }

  -- What is relied on of division: a share of a whole lies between 0 and 1.
  pub record IsRate (within : Carrier → Type 0) : Type 0 where
    pub within_zero : within (of_int64 0)
    pub within_div : (a b : ℕ) → a ≤ b → 0 < b → b < 2 ^ 63 → within (div (of_int64 a) (of_int64 b))

  rate_within : (within : Carrier → Type 0) → IsRate within → (a b : ℕ) → a ≤ b → within (rate a b)
  unfolding rate
  rate_within within laws a b h = grind (arith, laws.within_zero, laws.within_div a b)

  -- A share of a whole, 0 of nothing.
  abbrev pub share : ℕ → ℕ → Carrier
  share part zero = of_int64 0
  share part (suc n) = div (of_int64 part) (of_int64 (suc n))

  rate-share : (part whole n : ℕ) → whole ≡ n → n < 2 ^ 63 → rate part whole ≡ share part n
  unfolding rate
  rate-share part whole zero e h = rw e refl
  rate-share part whole (suc n) e h = rw (e, positive n h) refl
    where
      positive : (n : ℕ) → suc n < 2 ^ 63 → is_positive64 (suc n) ≡ true
      positive n h = ground arith

  -- While the two counters of a layer sum to less than 2^63, each layer's hit rate of a snapshot is
  -- its hits over its hits and misses, or 0 if there were none, and lies in the unit range. Each of
  -- the eight counters that the snapshot has is that of the metrics.
  pub snapshot_rates :
      (within : Carrier → Type 0) (m : Metrics)
      → IsRate within
      → m.l1_hits + m.l1_misses < 2 ^ 63
      → m.l2_hits + m.l2_misses < 2 ^ 63
      → let s = snapshot m in
        within s.l1_hit_rate
        × within s.l2_hit_rate
        × (s.l1_hit_rate ≡ share m.l1_hits (m.l1_hits + m.l1_misses))
        × (s.l2_hit_rate ≡ share m.l2_hits (m.l2_hits + m.l2_misses))
        × (s.l1_hits ≡ m.l1_hits)
        × (s.l1_misses ≡ m.l1_misses)
        × (s.l2_hits ≡ m.l2_hits)
        × (s.l2_misses ≡ m.l2_misses)
        × (s.origin_calls ≡ m.origin_calls)
        × (s.origin_errors ≡ m.origin_errors)
        × (s.coalesced_calls ≡ m.coalesced_calls)
        × (s.total_requests ≡ m.total_requests)
  unfolding snapshot
  snapshot_rates within m laws h k = (
    rate_within within laws m.l1_hits (add64 m.l1_hits m.l1_misses) (omega arith),
    rate_within within laws m.l2_hits (add64 m.l2_hits m.l2_misses) (omega arith),
    rate-share m.l1_hits (add64 m.l1_hits m.l1_misses) (m.l1_hits + m.l1_misses) (omega arith) h,
    rate-share m.l2_hits (add64 m.l2_hits m.l2_misses) (m.l2_hits + m.l2_misses) (omega arith) k,
    refl,
    refl,
    refl,
    refl,
    refl,
    refl,
    refl,
    refl,
  )
