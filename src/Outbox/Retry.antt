-- ===== src/Outbox/Retry.antt =====
-- internal/worker/retry.go: when a failed event is tried again. A duration is a signed 64-bit number
-- of nanoseconds; it is kept as its bits here, and the product wraps around.
use portal_backend.Prelude.{
  ℕ, ℤ, zero, suc, ◌+◌, ◌-◌, ◌*◌, ◌≡◌, refl, ◌≤◌, ◌<◌, ◌%◌, Bool, ◌&&◌, ltb, leb, arith,
  if◌then◌else◌, Bool-cases, inl, inr,
}
use portal_backend.World.{World, moment}

-- The operations of Go's float64, each number by its 64 bits; `random` is rand.Float64 at the number
-- of the effect, and the conversions are those of a time.Duration.
pub record Float64 : Type 0 where
  pub plus : ℕ → ℕ → ℕ
  pub minus : ℕ → ℕ → ℕ
  pub times : ℕ → ℕ → ℕ
  pub less : ℕ → ℕ → Bool
  pub at_most : ℕ → ℕ → Bool
  pub of_duration : ℕ → ℕ
  pub to_duration : ℕ → ℕ
  pub random : ℕ → ℕ

-- The configuration of the worker. Of a limit or a delay, 0 stands for every value that is not
-- positive.
pub record Config : Type 0 where
  pub batch_size : ℤ
  pub max_retry : ℕ
  pub retry_initial_backoff : ℕ
  pub retry_max_backoff : ℕ
  pub retry_jitter_ratio : ℕ
  pub floats : Float64

abbrev pub or_default : ℕ → ℕ → ℕ
or_default zero d = d
or_default (suc n) d = suc n

-- `delay *= 2` on 64 bits
unfoldable pub twice : ℕ → ℕ
twice d = (d * 2) % 0x10000000000000000

-- `delay > max` of signed numbers, the latter not negative
unfoldable pub exceeds : ℕ → ℕ → Bool
exceeds d max = ltb d 0x8000000000000000 && ltb max d

-- the loop, with the number of rounds that are left
unfoldable pub grown : ℕ → ℕ → ℕ → ℕ
grown zero max delay = delay
grown (suc k) max delay =
    let rest = grown k max (twice delay) in if exceeds (twice delay) max then max else rest

abbrev pub initial_of : Config → ℕ
initial_of c = or_default c.retry_initial_backoff 30000000000

abbrev pub max_of : Config → ℕ
max_of c = or_default c.retry_max_backoff 1800000000000

-- the delay of nextRetryAt before its jitter
unfoldable pub backoff : Config → ℕ → ℕ
backoff c count = grown (count - 1) (max_of c) (initial_of c)

abbrev float_one : ℕ
float_one = 0x3FF0000000000000

abbrev millisecond : ℕ
millisecond = 1000000

-- what applyJitter does with a ratio that is positive
unfoldable pub jittered : Float64 → ℕ → ℕ → ℕ → ℕ
jittered f step delay ratio =
    let exact = f.of_duration delay in
    let delta = f.times exact (if f.less float_one ratio then float_one else ratio) in
    let low = f.minus exact delta in
    let high = f.plus exact delta in
    let drawn = f.plus low (f.times (f.random step) (f.minus high low)) in
    if f.less drawn (f.of_duration millisecond) then millisecond else f.to_duration drawn

unfoldable pub apply_jitter : Float64 → ℕ → ℕ → ℕ → ℕ
apply_jitter f step delay ratio = if f.at_most ratio 0 then delay else jittered f step delay ratio

-- Time.Add, of a duration by its bits
unfoldable pub moved : ℕ → ℕ → ℕ
moved now d = if ltb d 0x8000000000000000 then now + d else now - (0x10000000000000000 - d)

-- nextRetryAt
unfoldable pub next_retry_at : Config → ℕ → World → ℕ
next_retry_at c count w =
    moved (moment w) (apply_jitter c.floats w.step (backoff c count) c.retry_jitter_ratio)

-- What the delay is to be: doubled with each attempt, and no larger than a maximum.
abbrev pub scaled : ℕ → ℕ → ℕ
scaled zero d = d
scaled (suc k) d = scaled k (d + d)

abbrev pub capped : ℕ → ℕ → ℕ
capped d max = if leb d max then d else max

scaled-le : (k d : ℕ) → d ≤ scaled k d
scaled-le zero d = omega arith
scaled-le (suc k) d = omega (arith, scaled-le k (d + d))

-- a duration that does not wrap around
twice_lem : (d : ℕ) → d < 0x4000000000000000 → twice d ≡ d + d
unfolding twice
twice_lem d h = omega arith

exceeds_lem : (d max : ℕ) → d < 0x8000000000000000 → exceeds d max ≡ ltb max d
unfolding exceeds
exceeds_lem d max h = ground arith

grown_lem :
    (k max d : ℕ) → max < 0x4000000000000000 → d ≤ max → grown k max d ≡ capped (scaled k d) max
unfolding grown
grown_lem zero max d h k = ground arith
grown_lem (suc k) max d h below =
    let e = twice_lem d (omega arith) in
    let f = exceeds_lem (d + d) max (omega arith) in
    rw (e, f) (ground (arith, grown_lem k max (d + d), scaled-le k (d + d)))

-- The delay before its jitter after a number of further attempts: the initial one after none, whatever
-- the maximum.
abbrev pub expected : Config → ℕ → ℕ
expected c zero = initial_of c
expected c (suc k) = capped (scaled (suc k) (initial_of c)) (max_of c)

-- a later attempt is cut off even where the initial delay is above the maximum
above :
    (k max d : ℕ)
    → max < 0x4000000000000000
    → d < 0x4000000000000000
    → max < d
    → grown (suc k) max d ≡ capped (scaled (suc k) d) max
unfolding grown
above k max d h small over =
    let e = twice_lem d small in
    let f = exceeds_lem (d + d) max (omega (arith, small)) in
    rw (e, f) (ground (arith, scaled-le k (d + d)))

grown-expected :
    (c : Config) (k : ℕ)
    → max_of c < 0x4000000000000000
    → initial_of c < 0x4000000000000000
    → grown k (max_of c) (initial_of c) ≡ expected c k
unfolding grown
grown-expected c zero h small = refl
grown-expected c (suc k) h small = elim (Bool-cases (leb (initial_of c) (max_of c))) [
  | inl below ↦ grown_lem (suc k) (max_of c) (initial_of c) h (ground (arith, below))
  | inr over ↦ above k (max_of c) (initial_of c) h small (ground (arith, over))
]

-- Where the initial delay and the maximum are less than 2 ^ 62 nanoseconds, the time of the next attempt
-- is the present time moved by what applyJitter makes of this delay: after the first attempt the
-- initial one, which may be above the maximum, and after each later one twice as long, cut off at the
-- maximum. The product does not wrap around.
pub next_retry_at_lem :
    (c : Config) (count : ℕ) (w : World)
    → max_of c < 0x4000000000000000
    → initial_of c < 0x4000000000000000
    → next_retry_at c count w
      ≡ moved
          (moment w)
          (apply_jitter c.floats w.step (expected c (count - 1)) c.retry_jitter_ratio)
unfolding next_retry_at backoff
next_retry_at_lem c count w h small = rw (grown-expected c (count - 1) h small) refl
