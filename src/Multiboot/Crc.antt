-- ===== src/Multiboot/Crc.antt =====
-- The checksum `docrc` of wiishared/lib/multiboot.h.
use net_bsd_wii_joybus.Base.{
  ℕ, zero, suc, ◌+◌, ◌*◌, ◌/◌, ◌%◌, ◌^◌, ◌≤◌, ◌<◌, ◌≡◌, sym, ap, ◌∙◌, arith, bit_and, bit_xor, ◌==◌,
  if◌then◌else◌, bit_and_mask, bit_xor-half, bit_xor_swap, bit_xor-zero, bit_xor-lt,
}
use native.Mathlib.Nat.{pow-suc, pow-le-pow_right}
use net_bsd_wii_joybus.Multiboot.{crc_round, crc_rounds, docrc}

-- A shift register with the polynomial 0xa1c1.
abbrev pub shift : ℕ → ℕ
shift x = if x % 2 == 0 then x / 2 else bit_xor (x / 2) 0xa1c1

abbrev pub shifts : ℕ → ℕ → ℕ
shifts zero x = x
shifts (suc n) x = shifts n (shift x)

bit_and_one : (x : ℕ) → bit_and x 1 ≡ x % 2
bit_and_one x = bit_and_mask 1 x

crc_round-shift : (crc val : ℕ) → bit_xor (crc_round crc val) (val / 2) ≡ shift (bit_xor crc val)
unfolding crc_round
crc_round-shift crc val = ground (
  arith,
  bit_and_one (bit_xor crc val),
  bit_xor-half crc val,
  bit_xor_swap (crc / 2) 0xa1c1 (val / 2),
)

crc_rounds-shifts :
    (n crc val : ℕ) → val < 2 ^ n → crc_rounds n crc val ≡ shifts n (bit_xor crc val)
unfolding crc_rounds
crc_rounds-shifts zero crc zero h = sym (bit_xor-zero crc)
crc_rounds-shifts zero crc (suc val) h = absurd (omega arith)
crc_rounds-shifts (suc n) crc val h =
    crc_rounds-shifts n (crc_round crc val) (val / 2) (omega (arith, pow-suc 2 n))
    ∙ ap (shifts n) (crc_round-shift crc val)

-- For a 32-bit value, `docrc` is 32 shifts of the register, into which the value has been mixed at
-- once.
pub docrc-shifts : (crc val : ℕ) → val < 2 ^ 32 → docrc crc val ≡ shifts 32 (bit_xor crc val)
unfolding docrc
docrc-shifts crc val h = crc_rounds-shifts 32 crc val h

shift-lt : (k x : ℕ) → 16 ≤ k → x < 2 ^ k * 2 → shift x < 2 ^ k
shift-lt k x h small =
    let room : 2 ^ 16 ≤ 2 ^ k = pow-le-pow_right (omega arith) h in
    let poly : 0xa1c1 < 2 ^ k = omega (arith, room) in
    ground (arith, bit_xor-lt k (x / 2) 0xa1c1 (omega arith) poly)

suc_room : (k : ℕ) → suc k + 16 ≡ suc (k + 16)
suc_room k = omega arith

shifts-lt : (n k x : ℕ) → k ≤ n → x < 2 ^ (k + 16) → shifts n x < 2 ^ 16
shifts-lt zero zero x h small = small
shifts-lt zero (suc k) x h small = absurd (omega arith)
shifts-lt (suc n) zero x h small =
    shifts-lt n zero (shift x) (omega arith) (shift-lt 16 x (omega arith) (omega arith))
shifts-lt (suc n) (suc k) x h small = shifts-lt n k (shift x) (omega arith) (
    shift-lt (k + 16) x (omega arith)
      (omega (arith, pow-suc 2 (k + 16), ap (λ (t : ℕ). 2 ^ t) (suc_room k))))

-- The checksum of 32-bit values has 16 bits.
pub docrc-lt : (crc val : ℕ) → crc < 2 ^ 32 → val < 2 ^ 32 → docrc crc val < 2 ^ 16
docrc-lt crc val h h' =
    rw (docrc-shifts crc val h')
      (shifts-lt 32 16 (bit_xor crc val) (omega arith) (bit_xor-lt 32 crc val h h'))
