-- ===== src/Cache/Policy/Target.antt =====
-- The size that eviction comes down to, which the program computes in floats.
use s3xc.Prelude.{
  ℕ, zero, suc, ◌+◌, ◌-◌, ◌*◌, ◌/◌, ◌%◌, ◌^◌, ◌≤◌, ◌<◌, ◌≡◌, refl, ap, ◌⊎◌, inl, inr, Bool, true,
  false, ◌&&◌, ◌||◌, arith, ltb, ◌==◌, Bool-cases, if◌then◌else◌,
}
use native.Mathlib.Omega.{pow_step}
use native.Mathlib.Nat.{div-add-mod', mod-lt}
use s3xc.Cache.Policy.{extra_bits, round_shift, round_f64, target_of}

extra_bits_lem : (fuel n : ℕ) → (extra_bits fuel n ≡ 0) ⊎ (2 ^ 52 * 2 ^ extra_bits fuel n ≤ n)
unfolding extra_bits
extra_bits_lem zero n = inl refl
extra_bits_lem (suc fuel) n = elim (Bool-cases (ltb n (2 ^ 53))) [
  | inl small ↦ rw small (inl refl)
  | inr large ↦
      rw large (inr (double (extra_bits fuel (n / 2)) (extra_bits_lem fuel (n / 2)) (ground arith)))
]
  where
    double : (k : ℕ) → (k ≡ 0) ⊎ (2 ^ 52 * 2 ^ k ≤ n / 2) → 2 ^ 53 ≤ n → 2 ^ 52 * 2 ^ suc k ≤ n
    double k (inl e) large = rw e (omega arith)
    double k (inr h) large = omega (arith, pow_step 2 k)

-- A number is rounded up only from its half on, and down only to its half.
round_test :
    (p q r : ℕ)
    → let up = ltb p (2 * r) || (2 * r == p && q % 2 == 1) in
      (up ≡ true → p ≤ 2 * r) × (up ≡ false → 2 * r ≤ p)
round_test p q r = (λ h. ground arith, λ h. ground arith)

round_off :
    (up : Bool) (p q r n : ℕ)
    → q * p + r ≡ n
    → r < p
    → (up ≡ true → p ≤ 2 * r) × (up ≡ false → 2 * r ≤ p)
    → (2 * ((if up then q + 1 else q) * p) ≤ 2 * n + p)
      × (2 * n ≤ 2 * ((if up then q + 1 else q) * p) + p)
round_off true p q r n parts less halves =
    (omega (arith, halves.0 refl), omega (arith, halves.0 refl))
round_off false p q r n parts less halves =
    (omega (arith, halves.1 refl), omega (arith, halves.1 refl))

-- Rounding is off by at most half a unit.
round_shift_lem :
    (k n : ℕ)
    → (2 * (round_shift k n * 2 ^ k) ≤ 2 * n + 2 ^ k)
      × (2 * n ≤ 2 * (round_shift k n * 2 ^ k) + 2 ^ k)
unfolding round_shift
round_shift_lem k n =
    round_off _ (2 ^ k) (n / 2 ^ k) (n % 2 ^ k) n (div-add-mod' n (2 ^ k)) (mod-lt n (pow_pos k))
      (round_test (2 ^ k) (n / 2 ^ k) (n % 2 ^ k))
  where
    pow_pos : (k : ℕ) → 0 < 2 ^ k
    pow_pos zero = omega arith
    pow_pos (suc k) = omega (arith, pow_step 2 k, pow_pos k)

-- The nearest float is off by at most one part in 2 ^ 53.
round_f64_lem :
    (n : ℕ) → (round_f64 n * 2 ^ 53 ≤ n * (2 ^ 53 + 1)) × (n * (2 ^ 53 - 1) ≤ round_f64 n * 2 ^ 53)
unfolding round_f64
round_f64_lem n =
    let k = extra_bits 128 n in
    let (up, down) = round_shift_lem k n in
    elim (extra_bits_lem 128 n) [
      | inl e ↦ exact n k e up down
      | inr h ↦ (omega (arith, up, down, h), omega (arith, up, down, h))
    ]
  where
    exact :
        (n k : ℕ)
        → k ≡ 0
        → 2 * (round_shift k n * 2 ^ k) ≤ 2 * n + 2 ^ k
        → 2 * n ≤ 2 * (round_shift k n * 2 ^ k) + 2 ^ k
        → (round_shift k n * 2 ^ k * 2 ^ 53 ≤ n * (2 ^ 53 + 1))
          × (n * (2 ^ 53 - 1) ≤ round_shift k n * 2 ^ k * 2 ^ 53)
    exact n k e up down =
        let one : 2 ^ k ≡ 1 = ap (λ k. 2 ^ k) e in
        (omega (arith, up, down, one), omega (arith, up, down, one))

-- The target size is nine tenths of the limit, off by one part in 2 ^ 50 at most, and cut to an
-- integer; it never exceeds the limit.
pub target_of_lem :
    (n : ℕ)
    → n < 2 ^ 64
    → (10 * target_of n * 2 ^ 50 ≤ 9 * n * (2 ^ 50 + 1))
      × (9 * n * (2 ^ 50 - 1) ≤ 10 * (target_of n + 1) * 2 ^ 50)
      × (target_of n ≤ n)
unfolding target_of
target_of_lem n small =
    let (up, down) = round_f64_lem n in
    let (up', down') = round_f64_lem (round_f64 n * 8106479329266893) in
    (
      omega (arith, up, up', down, down'),
      omega (arith, up, up', down, down'),
      omega (arith, up, up', down, down'),
    )
