-- ===== src/Origin.antt =====
-- internal/origin/origin.go: the simulated origin. The random numbers, the clock and the end of the
-- context are parameters. Durations are in nanoseconds.
use cache_server_go.Base.{
  ℕ, ◌+◌, ◌/◌, ◌≤◌, ◌<◌, ◌≡◌, refl, Bool, true, false, Option, none, some, ◌++◌, Bytes, codes, ltb,
  ◌==◌, if◌then◌else◌, arith,
}
use cache_server_go.Scripts.Decimal.{digits}

pub record SimulatedOrigin : Type 0 where
  pub base_latency : ℕ
  pub jitter : ℕ

-- `NewSimulated`
unfoldable pub new_simulated : ℕ → SimulatedOrigin
new_simulated base_latency = record { base_latency = base_latency; jitter = base_latency / 4 }

-- What a call of `Fetch` meets: the draw of `rand.Int63n`, that of `rand.Intn(1000000)` and the clock
-- in milliseconds when it makes the payload, the time after which the context ends, and whether
-- `select` takes the timer if both are ready.
pub record Circumstances : Type 0 where
  pub int63n : ℕ → ℕ
  pub number : ℕ
  pub unix_milli : ℕ
  pub ends_after : Option ℕ
  pub timer_first : Bool

-- `Fetch` panics, answers after a delay, or returns the error of the context.
pub data OriginReply : Type 0 where
  panicked : OriginReply
  answers : ℕ → Bytes → OriginReply
  gave_up : OriginReply

unfoldable pub payload : Bytes → ℕ → ℕ → Bytes
payload key number unix_milli =
    codes "{\"key\":\""
    ++ (key
        ++ (codes "\",\"data\":\"payload_"
            ++ (key
                ++ (codes "_"
                    ++ (digits number
                        ++ (codes "\",\"timestamp\":"
                            ++ (digits unix_milli
                                ++ codes ",\"source\":\"origin\",\"ttl\":300}")))))))

-- Whether the context ends before the timer of `select`.
unfoldable pub ends_before : ℕ → Circumstances → Bool
ends_before delay c = elim (c.ends_after) [
  | none ↦ false
  | some t ↦ if t == delay then (if c.timer_first then false else true) else ltb t delay
]

-- `Fetch`; `rand.Int63n` panics for 0.
unfoldable pub fetch : SimulatedOrigin → Circumstances → Bytes → OriginReply
fetch o c key =
    if o.jitter == 0
    then panicked
    else let delay = o.base_latency + c.int63n o.jitter in
      if ends_before delay c then gave_up else answers delay (payload key c.number c.unix_milli)

-- The call returns within its delay or gives up with the context.
abbrev Within : ℕ → ℕ → OriginReply → Type 0
Within low high panicked = ⊥
Within low high (answers delay v) = (low ≤ delay) × (delay < high)
Within low high gave_up = Unit

select-Within :
    (base j : ℕ) (c : Circumstances) (key : Bytes) (over : Bool)
    → c.int63n j < j
    → Within base
        (base + j)
        (if over then gave_up else answers (base + c.int63n j) (payload key c.number c.unix_milli))
select-Within base j c key true h = tt
select-Within base j c key false h = (omega arith, omega arith)

-- Where `rand.Int63n n` gives a number below `n`: with a base latency of less than 4 nanoseconds
-- `Fetch` panics; with more it answers after at least the base latency and less than a quarter
-- more, or gives up with the context.
pub fetch-delay :
    (base : ℕ) (c : Circumstances) (key : Bytes)
    → ((n : ℕ) → 0 < n → c.int63n n < n)
    → (base < 4 → fetch (new_simulated base) c key ≡ panicked)
      × (4 ≤ base → Within base (base + base / 4) (fetch (new_simulated base) c key))
unfolding fetch new_simulated
fetch-delay base c key draws = (
  λ small. rw (zero_test (base / 4) (omega arith)) refl,
  λ large.
      rw (positive_test (base / 4) (omega arith))
        (select-Within base (base / 4) c key _ (draws (base / 4) (omega arith))),
)
  where
    zero_test : (n : ℕ) → n ≡ 0 → n == 0 ≡ true
    zero_test n h = ground arith

    positive_test : (n : ℕ) → 0 < n → n == 0 ≡ false
    positive_test n h = ground arith
