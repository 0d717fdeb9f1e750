-- ===== src/Core/Retry.antt =====
-- core/agent.go: `RetryDelay`, the delay before a capacity retry, in nanoseconds.
use gangline.Prelude.{ℕ, zero, suc, ◌*◌, ◌^◌, ◌≤◌, ◌<◌, ◌≡◌, min, arith, ltb, if◌then◌else◌}
use native.Mathlib.Nat.{pow-suc}
use native.Mathlib.Decide.{dec_le}

-- 100 * time.Millisecond
abbrev pub first_delay : ℕ
first_delay = 100_000_000

-- 30 * time.Second
abbrev pub longest_delay : ℕ
longest_delay = 30_000_000_000

-- the loop, over the attempts that are left
retry_loop : ℕ → ℕ → ℕ
retry_loop zero delay = delay
retry_loop (suc attempt) delay =
    let rest = retry_loop attempt (min (2 * delay) longest_delay) in
    if ltb delay longest_delay then rest else delay

unfoldable pub retry_delay : ℕ → ℕ
unfolding retry_loop
retry_delay attempt = retry_loop attempt first_delay

pow-pos : (n : ℕ) → 1 ≤ 2 ^ n
pow-pos zero = omega arith
pow-pos (suc n) = rw pow-suc (omega (arith, pow-pos n))

le_mul_of_pos : (a p : ℕ) → 1 ≤ p → a ≤ a * p
le_mul_of_pos a p h = grind arith

-- One doubling of a capped delay, where `p` is the power of two that the later rounds multiply by.
double_capped :
    (delay p : ℕ)
    → delay < longest_delay
    → 1 ≤ p
    → min (min (2 * delay) longest_delay * p) longest_delay ≡ min (delay * (p * 2)) longest_delay
double_capped delay p h k = elim (dec_le (2 * delay) longest_delay) [
  | yes le ↦ let e : min (2 * delay) longest_delay ≡ 2 * delay = omega arith in rw e (omega arith)
  | no gt ↦
      let e : min (2 * delay) longest_delay ≡ longest_delay = omega arith in
      let grown : 2 * delay ≤ 2 * delay * p = le_mul_of_pos (2 * delay) p k in rw e (omega arith)
]

capped : (p : ℕ) → 1 ≤ p → min (longest_delay * p) longest_delay ≡ longest_delay
capped p k = omega arith

retry_loop_lem :
    (n delay : ℕ) → delay ≤ longest_delay → retry_loop n delay ≡ min (delay * 2 ^ n) longest_delay
unfolding retry_loop
retry_loop_lem zero delay h = omega arith
retry_loop_lem (suc n) delay h = ground (
  arith,
  pow-pos n,
  pow-suc 2 n,
  capped (2 ^ n * 2),
  double_capped delay (2 ^ n),
  retry_loop_lem n (min (2 * delay) longest_delay),
)

-- The delay before attempt `n` is 100 ms doubled `n` times, and at most 30 s.
pub retry_delay_lem : (n : ℕ) → retry_delay n ≡ min (first_delay * 2 ^ n) longest_delay
unfolding retry_delay
retry_delay_lem n = retry_loop_lem n first_delay (omega arith)
