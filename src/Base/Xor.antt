-- ===== src/Base/Xor.antt =====
-- Exclusive or at variables: its digits, its laws, and fields of bits.
use Prim.Native.Nat.{
  ℕ, zero, suc, ◌+◌, ◌*◌, ◌/◌, ◌%◌, ◌^◌, ◌≤◌, ◌<◌, bit_xor, differ, bit_xor-bitwise,
}
use mathlib.Core.Path.{◌≡◌, refl, ap, ap₂, sym, ◌∙◌}
use native.Mathlib.Omega.{arith}
use native.Mathlib.Nat.{pow-suc}
use net_bsd_wii_joybus.Base.Bits.{bit_xor_step, bit_xor-zero, double_pow}

differ-bits : (a b : ℕ) → a < 2 → b < 2 → differ a b ≡ (a + b) % 2
differ-bits zero b ha hb = omega arith
differ-bits (suc zero) zero ha hb = refl
differ-bits (suc zero) (suc zero) ha hb = refl
differ-bits (suc zero) (suc (suc b)) ha hb = absurd (omega arith)
differ-bits (suc (suc a)) b ha hb = absurd (omega arith)

-- The lowest digit, and the rest.
pub bit_xor_digits : (a b : ℕ) → bit_xor a b ≡ bit_xor (a / 2) (b / 2) * 2 + (a + b) % 2
bit_xor_digits a b =
    omega (arith, bit_xor_step a b, differ-bits (a % 2) (b % 2) (omega arith) (omega arith))

pub bit_xor-half : (a b : ℕ) → bit_xor a b / 2 ≡ bit_xor (a / 2) (b / 2)
bit_xor-half a b = omega (arith, bit_xor_digits a b)

pub bit_xor-odd : (a b : ℕ) → bit_xor a b % 2 ≡ (a + b) % 2
bit_xor-odd a b = omega (arith, bit_xor_digits a b)

bit_xor_self_below : (n a : ℕ) → a ≤ n → bit_xor a a ≡ 0
bit_xor_self_below zero zero h = simp bit_xor-bitwise refl
bit_xor_self_below zero (suc a) h = absurd (omega arith)
bit_xor_self_below (suc n) a h =
    omega (arith, bit_xor_digits a a, bit_xor_self_below n (a / 2) (omega arith))

pub bit_xor_self : (a : ℕ) → bit_xor a a ≡ 0
bit_xor_self a = bit_xor_self_below a a (omega arith)

bit_xor_comm_below : (n a b : ℕ) → a + b ≤ n → bit_xor a b ≡ bit_xor b a
bit_xor_comm_below zero zero zero h = refl
bit_xor_comm_below zero zero (suc b) h = absurd (omega arith)
bit_xor_comm_below zero (suc a) b h = absurd (omega arith)
bit_xor_comm_below (suc n) a b h = omega (
  arith,
  bit_xor_digits a b,
  bit_xor_digits b a,
  bit_xor_comm_below n (a / 2) (b / 2) (omega arith),
)

pub bit_xor_comm : (a b : ℕ) → bit_xor a b ≡ bit_xor b a
bit_xor_comm a b = bit_xor_comm_below (a + b) a b (omega arith)

bit_xor_assoc_below :
    (n a b c : ℕ) → a + b + c ≤ n → bit_xor (bit_xor a b) c ≡ bit_xor a (bit_xor b c)
bit_xor_assoc_below zero zero zero zero h = refl
bit_xor_assoc_below zero zero zero (suc c) h = absurd (omega arith)
bit_xor_assoc_below zero zero (suc b) c h = absurd (omega arith)
bit_xor_assoc_below zero (suc a) b c h = absurd (omega arith)
bit_xor_assoc_below (suc n) a b c h = omega (
  arith,
  bit_xor_digits (bit_xor a b) c,
  bit_xor_digits a (bit_xor b c),
  bit_xor-odd a b,
  bit_xor-odd b c,
  ap (λ t. bit_xor t (c / 2)) (bit_xor-half a b),
  ap (λ t. bit_xor (a / 2) t) (bit_xor-half b c),
  bit_xor_assoc_below n (a / 2) (b / 2) (c / 2) (omega arith),
)

pub bit_xor_assoc : (a b c : ℕ) → bit_xor (bit_xor a b) c ≡ bit_xor a (bit_xor b c)
bit_xor_assoc a b c = bit_xor_assoc_below (a + b + c) a b c (omega arith)

-- A mask applied twice is gone.
pub bit_xor_twice : (a b : ℕ) → bit_xor (bit_xor a b) b ≡ a
bit_xor_twice a b = bit_xor_assoc a b b ∙ ap (bit_xor a) (bit_xor_self b) ∙ bit_xor-zero a

pub bit_xor_swap : (a b c : ℕ) → bit_xor (bit_xor a b) c ≡ bit_xor (bit_xor a c) b
bit_xor_swap a b c =
    bit_xor_assoc a b c ∙ ap (bit_xor a) (bit_xor_comm b c) ∙ sym (bit_xor_assoc a c b)

pub bit_xor-lt : (n a b : ℕ) → a < 2 ^ n → b < 2 ^ n → bit_xor a b < 2 ^ n
bit_xor-lt zero zero zero ha hb = omega arith
bit_xor-lt zero zero (suc b) ha hb = absurd (omega arith)
bit_xor-lt zero (suc a) b ha hb = absurd (omega arith)
bit_xor-lt (suc n) a b ha hb = omega (
  arith,
  pow-suc 2 n,
  bit_xor_digits a b,
  bit_xor-lt n (a / 2) (b / 2) (omega (arith, pow-suc 2 n)) (omega (arith, pow-suc 2 n)),
)

-- The fields of a word are combined one by one.
pub bit_xor_fields :
    (k p q r s : ℕ)
    → r < 2 ^ k
    → s < 2 ^ k
    → bit_xor (p * 2 ^ k + r) (q * 2 ^ k + s) ≡ bit_xor p q * 2 ^ k + bit_xor r s
bit_xor_fields zero p q zero zero hr hs =
    let left : p * 2 ^ 0 + 0 ≡ p = omega arith in
    let right : q * 2 ^ 0 + 0 ≡ q = omega arith in
    let back : bit_xor p q ≡ bit_xor p q * 2 ^ 0 + bit_xor 0 0 = omega arith in
    ap₂ bit_xor left right ∙ back
bit_xor_fields zero p q zero (suc s) hr hs = absurd (omega arith)
bit_xor_fields zero p q (suc r) s hr hs = absurd (omega arith)
bit_xor_fields (suc k) p q r s hr hs = ground (
  arith,
  pow-suc 2 k,
  double_pow p k,
  double_pow q k,
  double_pow (bit_xor p q) k,
  bit_xor_digits (p * 2 ^ suc k + r) (q * 2 ^ suc k + s),
  bit_xor_digits r s,
  bit_xor_fields k p q (r / 2) (s / 2) (omega (arith, pow-suc 2 k)) (omega (arith, pow-suc 2 k)),
)
