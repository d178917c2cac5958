-- ===== src/Maintenance/Backoff.antt =====
-- maintenance/runner.go: the capped exponential backoff, in the arithmetic of `time.Duration`.
-- A duration is a 64-bit pattern; patterns from 2 ^ 63 on stand for negative durations.
use native.Mathlib.Nat.{pow-suc, mul_assoc, mul_comm}
use anchorix.Prelude.{
  ℕ, zero, suc, ◌+◌, ◌-◌, ◌*◌, ◌%◌, ◌^◌, ◌≤◌, ◌<◌, min, ◌≡◌, Bool, true, false, not, ltb,
  if◌then◌else◌, arith, Bool-cases, inl, inr, ltb→lt, lt→ltb, ◌∙◌, ap, sym,
}

abbrev pub word : ℕ
word = 2 ^ 64

-- the signed order of two patterns
abbrev pub signed_lt : ℕ → ℕ → Bool
signed_lt a b = ltb ((a + 2 ^ 63) % word) ((b + 2 ^ 63) % word)

-- the rounds of the doubling loop that are left
unfoldable pub double_capped : ℕ → ℕ → ℕ → ℕ
double_capped retry_max zero d = if signed_lt retry_max d then retry_max else d
double_capped retry_max (suc rounds) d =
    let rest = double_capped retry_max rounds (d * 2 % word) in
    if not (signed_lt d retry_max) then retry_max else rest

-- `consecutiveFailures` below 1 counts as 1
unfoldable pub backoff_for : ℕ → ℕ → ℕ → ℕ
unfolding double_capped
backoff_for retry_base retry_max consecutive_failures =
    double_capped retry_max (consecutive_failures - 1) retry_base

-- the time `d` after `t`, or before it where `d` stands for a negative duration
abbrev pub add_duration : ℕ → ℕ → ℕ
add_duration t d = if ltb d (2 ^ 63) then t + d else t - (word - d)

signed_lt-eq : (a b : ℕ) → a < 2 ^ 63 → b < 2 ^ 63 → signed_lt a b ≡ ltb a b
signed_lt-eq a b p q =
    let ea : (a + 2 ^ 63) % word ≡ a + 2 ^ 63 = omega arith in
    let eb : (b + 2 ^ 63) % word ≡ b + 2 ^ 63 = omega arith in rw (ea, eb) (ground arith)

pow-pos : (n : ℕ) → 1 ≤ 2 ^ n
pow-pos zero = omega arith
pow-pos (suc n) = rw pow-suc (omega (arith, pow-pos n))

regroup : (d n : ℕ) → d * 2 * 2 ^ n ≡ d * 2 ^ suc n
regroup d n = mul_assoc d 2 (2 ^ n) ∙ ap (λ t. d * t) (mul_comm 2 (2 ^ n) ∙ sym (pow-suc 2 n))

le_mul : (d t : ℕ) → 1 ≤ t → d ≤ d * t
le_mul d t h = grind arith

grow : (d n : ℕ) → d ≤ d * 2 ^ suc n
grow d n = le_mul d (2 ^ suc n) (pow-pos (suc n))

ltb→le : (d m : ℕ) → ltb d m ≡ false → m ≤ d
ltb→le d m h = ground arith

min-eq : (m k : ℕ) → m ≤ k → m ≡ min m k
min-eq m k h = omega arith

-- doubling for `rounds` rounds, capped, where no doubling can overflow
double_capped-eq :
    (retry_max rounds d : ℕ)
    → retry_max ≤ 2 ^ 62
    → d < 2 ^ 63
    → double_capped retry_max rounds d ≡ min retry_max (d * 2 ^ rounds)
unfolding double_capped
double_capped-eq m zero d h q = rw (signed_lt-eq m d (omega arith) q) (ground arith)
double_capped-eq m (suc n) d h q = elim (Bool-cases (ltb d m)) [
  | inl less ↦
      rw (signed_lt-eq d m q (omega arith), less)
        (let small : d * 2 % word ≡ d * 2 = omega (arith, ltb→lt d m less) in
          rw small (
            double_capped-eq m n (d * 2) h (omega (arith, ltb→lt d m less))
            ∙ ap (min m) (regroup d n)))
  | inr more ↦
      rw (signed_lt-eq d m q (omega arith), more)
        (min-eq m (d * 2 ^ suc n) (omega (arith, grow d n, ltb→le d m more)))
]

-- With a cap of at most 2 ^ 62 ns and a base not above it, the backoff after `n` consecutive
-- failures is the base doubled n - 1 times, capped: no doubling overflows.
pub backoff_for-eq :
    (retry_base retry_max n : ℕ)
    → retry_base ≤ retry_max
    → retry_max ≤ 2 ^ 62
    → backoff_for retry_base retry_max n ≡ min retry_max (retry_base * 2 ^ (n - 1))
unfolding backoff_for
backoff_for-eq b m n p q = double_capped-eq m (n - 1) b q (omega arith)

-- Above that cap the doubling can overflow: with a base of 2 ^ 62 ns and any greater cap, the
-- backoff after the second failure is a negative duration.
pub backoff_for_overflows :
    (retry_max : ℕ)
    → 2 ^ 62 < retry_max
    → retry_max < 2 ^ 63
    → signed_lt (backoff_for (2 ^ 62) retry_max 2) 0 ≡ true
unfolding backoff_for
backoff_for_overflows m p q = rw (signed_lt-eq (2 ^ 62) m (omega arith) q) (
    let less : ltb (2 ^ 62) m ≡ true = lt→ltb (2 ^ 62) m p in
    let wrap : (m + 2 ^ 63) % word ≡ m + 2 ^ 63 = omega arith in rw (less, wrap) (ground arith))
