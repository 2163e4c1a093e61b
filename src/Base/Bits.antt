-- ===== src/Base/Bits.antt =====
-- The bit operations at variables: one binary digit at a time, then masks and disjoint fields.
use Prim.Native.Nat.{
  ℕ, zero, suc, ◌+◌, ◌-◌, ◌*◌, ◌/◌, ◌%◌, ◌^◌, ◌≤◌, ◌<◌, min, max, bit_and, bit_or, bit_xor, digits,
  bitwise, differ, bit_and-bitwise, bit_or-bitwise, bit_xor-bitwise,
}
use mathlib.Core.Path.{◌≡◌, refl, ap, subst, ◌∙◌}
use mathlib.Core.Logic.{◌⊎◌, inl, inr}
use native.Mathlib.Omega.{arith}
use native.Mathlib.Nat.{pow-suc, one-le-pow, div-add-mod', mod-lt, zero-add, div-lt_iff_lt-mul}

exact_or_less : (a n : ℕ) → a ≤ suc n → (a ≡ suc n) ⊎ (a ≤ n)
exact_or_less a n h = ground arith

module _ (z : ℕ → ℕ) (f : ℕ → ℕ → ℕ) where
  -- Fuel that covers the first operand settles the result.
  digits-suc : (lo hi fuel : ℕ) → lo ≤ fuel → digits z f (suc fuel) lo hi ≡ digits z f fuel lo hi
  digits-suc zero hi zero covers = refl
  digits-suc zero hi (suc fuel) covers = refl
  digits-suc (suc lo) hi zero covers = absurd (omega arith)
  digits-suc (suc lo) hi (suc fuel) covers =
      omega (arith, digits-suc (suc lo / 2) (hi / 2) fuel (omega arith))

  digits-bitwise : (fuel lo hi : ℕ) → lo ≤ fuel → digits z f fuel lo hi ≡ bitwise z f lo hi
  digits-bitwise zero zero hi covers = refl
  digits-bitwise zero (suc lo) hi covers = absurd (omega arith)
  digits-bitwise (suc fuel) lo hi covers = elim (exact_or_less lo fuel covers) [
    | inl exact ↦ subst (λ t. digits z f t lo hi ≡ bitwise z f lo hi) exact refl
    | inr less ↦ digits-suc lo hi fuel less ∙ digits-bitwise fuel lo hi less
  ]

  -- The lowest digit of a bitwise operation, and the rest.
  bitwise_step :
      ((b : ℕ) → z b ≡ z (b / 2) * 2 + f 0 (b % 2))
      → (a b : ℕ) → bitwise z f a b ≡ bitwise z f (a / 2) (b / 2) * 2 + f (a % 2) (b % 2)
  bitwise_step base zero b = base b
  bitwise_step base (suc a) b = omega (arith, digits-bitwise a (suc a / 2) (b / 2) (omega arith))

pub bit_and_step : (a b : ℕ) → bit_and a b ≡ bit_and (a / 2) (b / 2) * 2 + min (a % 2) (b % 2)
bit_and_step a b = simp bit_and-bitwise (bitwise_step (λ _. 0) min (λ b. omega arith) a b)

pub bit_or_step : (a b : ℕ) → bit_or a b ≡ bit_or (a / 2) (b / 2) * 2 + max (a % 2) (b % 2)
bit_or_step a b = simp bit_or-bitwise (bitwise_step (λ b. b) max (λ b. omega arith) a b)

pub bit_xor_step : (a b : ℕ) → bit_xor a b ≡ bit_xor (a / 2) (b / 2) * 2 + differ (a % 2) (b % 2)
bit_xor_step a b = simp bit_xor-bitwise (bitwise_step (λ b. b) differ (λ b. omega arith) a b)

-- An operation and a function that agree on 0 and take the same step agree everywhere.
agree_below :
    (op h : ℕ → ℕ)
    → op 0 ≡ h 0
    → ((a : ℕ) → op (suc a) + h (suc a / 2) * 2 ≡ op (suc a / 2) * 2 + h (suc a))
    → (bound a : ℕ) → a ≤ bound
    → op a ≡ h a
agree_below op h base step bound zero le = base
agree_below op h base step zero (suc a) le = absurd (omega arith)
agree_below op h base step (suc bound) (suc a) le =
    omega (arith, step a, agree_below op h base step bound (suc a / 2) (omega arith))

differ-zero : (x : ℕ) → differ x 0 ≡ x
differ-zero zero = refl
differ-zero (suc x) = refl

bit_and-zero : (a : ℕ) → bit_and a 0 ≡ 0
bit_and-zero a =
    agree_below (λ a. bit_and a 0) (λ _. 0) refl (λ b. omega (arith, bit_and_step (suc b) 0)) a a
      (omega arith)

bit_or-zero : (a : ℕ) → bit_or a 0 ≡ a
bit_or-zero a =
    agree_below (λ a. bit_or a 0) (λ a. a) refl (λ b. omega (arith, bit_or_step (suc b) 0)) a a
      (omega arith)

pub bit_xor-zero : (a : ℕ) → bit_xor a 0 ≡ a
bit_xor-zero a =
    agree_below (λ a. bit_xor a 0) (λ a. a) refl
      (λ b. omega (arith, bit_xor_step (suc b) 0, differ-zero (suc b % 2))) a a (omega arith)

pub double_pow : (q k : ℕ) → q * 2 ^ suc k ≡ q * 2 ^ k * 2
double_pow q k = omega (arith, ap (λ (t : ℕ). q * t) (pow-suc 2 k))

-- A field `q` above `k` low bits `r`: `|` adds them, `&` with a mask picks one of them.
pub bit_or_fields : (k q r : ℕ) → r < 2 ^ k → bit_or (q * 2 ^ k) r ≡ q * 2 ^ k + r
bit_or_fields zero q r h = ground (arith, bit_or-zero q)
bit_or_fields (suc k) q r h = ground (
  arith,
  double_pow q k,
  pow-suc 2 k,
  bit_or_step (q * 2 ^ suc k) r,
  bit_or_fields k q (r / 2) (omega (arith, pow-suc 2 k)),
)

pub bit_or_fields_low : (k q r : ℕ) → r < 2 ^ k → bit_or r (q * 2 ^ k) ≡ q * 2 ^ k + r
bit_or_fields_low zero q zero h = simp bit_or-bitwise (omega arith)
bit_or_fields_low zero q (suc r) h = absurd (omega arith)
bit_or_fields_low (suc k) q r h = ground (
  arith,
  double_pow q k,
  pow-suc 2 k,
  bit_or_step r (q * 2 ^ suc k),
  bit_or_fields_low k q (r / 2) (omega (arith, pow-suc 2 k)),
)

bit_and_low : (k q r : ℕ) → r < 2 ^ k → bit_and (q * 2 ^ k + r) (2 ^ k - 1) ≡ r
bit_and_low zero q r h = ground (arith, bit_and-zero (q * 1 + r))
bit_and_low (suc k) q r h = ground (
  arith,
  double_pow q k,
  pow-suc 2 k,
  one-le-pow k 2,
  bit_and_step (q * 2 ^ suc k + r) (2 ^ suc k - 1),
  bit_and_low k q (r / 2) (omega (arith, pow-suc 2 k)),
)

pub bit_and_mask : (k x : ℕ) → bit_and x (2 ^ k - 1) ≡ x % 2 ^ k
bit_and_mask k x = ground (
  arith,
  one-le-pow k 2,
  div-add-mod' x (2 ^ k),
  mod-lt x {m = 2 ^ k},
  bit_and_low k (x / 2 ^ k) (x % 2 ^ k),
)

bit_and_high :
    (k d q r : ℕ)
    → r < 2 ^ k
    → q < 2 ^ d
    → bit_and (q * 2 ^ k + r) (2 ^ (k + d) - 2 ^ k) ≡ q * 2 ^ k
bit_and_high zero d q r h hq = ground (arith, bit_and_low d 0 q hq)
bit_and_high (suc k) d q r h hq = ground (
  arith,
  double_pow q k,
  pow-suc 2 k,
  pow-suc 2 (k + d),
  bit_and_step (q * 2 ^ suc k + r) (2 ^ (suc k + d) - 2 ^ suc k),
  bit_and_high k d q (r / 2) (omega (arith, pow-suc 2 k)) hq,
)

pub bit_xor_masks : (k d : ℕ) → bit_xor (2 ^ (k + d) - 1) (2 ^ k - 1) ≡ 2 ^ (k + d) - 2 ^ k
bit_xor_masks zero d = ground (arith, bit_xor-zero (2 ^ d - 1))
bit_xor_masks (suc k) d = ground (
  arith,
  pow-suc 2 k,
  pow-suc 2 (k + d),
  one-le-pow k 2,
  one-le-pow (k + d) 2,
  bit_xor_step (2 ^ (suc k + d) - 1) (2 ^ suc k - 1),
  bit_xor_masks k d,
)

pub two-pow-add : (k d : ℕ) → 2 ^ (k + d) ≡ 2 ^ d * 2 ^ k
two-pow-add zero d = rw zero-add (omega arith)
two-pow-add (suc k) d = ground (arith, double_pow (2 ^ d) k, pow-suc 2 (k + d), two-pow-add k d)

-- The mask of the bits from `k` up to a word's end keeps the multiples of `2 ^ k`.
pub bit_and_top :
    (k d x : ℕ) → x < 2 ^ (k + d) → bit_and x (2 ^ (k + d) - 2 ^ k) ≡ x / 2 ^ k * 2 ^ k
bit_and_top k d x h =
    let pos : 0 < 2 ^ k = one-le-pow k 2 (omega arith) in
    let split =
      bit_and_high k d (x / 2 ^ k) (x % 2 ^ k) (mod-lt x pos)
        ((div-lt_iff_lt-mul pos).1 (rw (← two-pow-add k d) h)) in
    rw (div-add-mod' x (2 ^ k)) at split

pub bit_or-lt : (n a b : ℕ) → a < 2 ^ n → b < 2 ^ n → bit_or a b < 2 ^ n
bit_or-lt zero zero zero ha hb = omega arith
bit_or-lt zero zero (suc b) ha hb = absurd (omega arith)
bit_or-lt zero (suc a) b ha hb = absurd (omega arith)
bit_or-lt (suc n) a b ha hb = omega (
  arith,
  pow-suc 2 n,
  bit_or_step a b,
  bit_or-lt n (a / 2) (b / 2) (omega (arith, pow-suc 2 n)) (omega (arith, pow-suc 2 n)),
)

pub le-bit_or : (n a b : ℕ) → a ≤ n → a ≤ bit_or a b
le-bit_or n zero b h = omega arith
le-bit_or zero (suc a) b h = absurd (omega arith)
le-bit_or (suc n) (suc a) b h =
    omega (arith, bit_or_step (suc a) b, le-bit_or n (suc a / 2) (b / 2) (omega arith))

pub bit_and-le : (n a b : ℕ) → a ≤ n → bit_and a b ≤ a
bit_and-le n zero b h = simp bit_and-bitwise (omega arith)
bit_and-le zero (suc a) b h = absurd (omega arith)
bit_and-le (suc n) (suc a) b h =
    omega (arith, bit_and_step (suc a) b, bit_and-le n (suc a / 2) (b / 2) (omega arith))
