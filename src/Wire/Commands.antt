-- ===== src/Wire/Commands.antt =====
-- `cmd_identify` and `cmd_reset` of wiishared/lib/gcport_ioctl.h: the byte that each sends, and the
-- word that it returns when the port writes three bytes into `in`; `junk` is what lay in the fourth.
use net_bsd_wii_joybus.Base.{
  ℕ, ◌+◌, ◌*◌, ◌/◌, ◌%◌, ◌^◌, ◌<◌, ◌≡◌, refl, ap, arith, bit_and, bit_and_step, bit_and_mask, List,
  [], ◌∷◌, take,
}
use net_bsd_wii_joybus.Wire.{wii, gba, load32, split32}

abbrev pub cmd_identify_word : ℕ
cmd_identify_word = 0x00000000

abbrev pub cmd_reset_word : ℕ
cmd_reset_word = 0xFF000000

-- One byte of `out`, which lies in the Wii's memory.
unfoldable pub first_byte : ℕ → List ℕ
first_byte word = take 1 (split32 gba word)

unfoldable pub cmd_identify : ℕ → ℕ → ℕ → ℕ → List ℕ × ℕ
cmd_identify junk b0 b1 b2 = (first_byte cmd_identify_word, load32 wii b0 b1 b2 junk)

unfoldable pub cmd_reset : ℕ → ℕ → ℕ → ℕ → List ℕ × ℕ
cmd_reset junk b0 b1 b2 = (first_byte cmd_reset_word, load32 wii b0 b1 b2 junk)

bit_and_half : (x m : ℕ) → bit_and x (m * 2) ≡ bit_and (x / 2) m * 2
bit_and_half x m =
    let half : m * 2 / 2 ≡ m = omega arith in
    omega (arith, bit_and_step x (m * 2), ap (bit_and (x / 2)) half)

bit_12 : (x : ℕ) → bit_and x 0x1000 ≡ x / 0x1000 % 2 * 0x1000
bit_12 x = omega (
  arith,
  bit_and_half x 0x800,
  bit_and_half (x / 2) 0x400,
  bit_and_half (x / 2 / 2) 0x200,
  bit_and_half (x / 2 / 2 / 2) 0x100,
  bit_and_half (x / 2 / 2 / 2 / 2) 0x80,
  bit_and_half (x / 2 / 2 / 2 / 2 / 2) 0x40,
  bit_and_half (x / 2 / 2 / 2 / 2 / 2 / 2) 0x20,
  bit_and_half (x / 2 / 2 / 2 / 2 / 2 / 2 / 2) 0x10,
  bit_and_half (x / 2 / 2 / 2 / 2 / 2 / 2 / 2 / 2) 0x8,
  bit_and_half (x / 2 / 2 / 2 / 2 / 2 / 2 / 2 / 2 / 2) 0x4,
  bit_and_half (x / 2 / 2 / 2 / 2 / 2 / 2 / 2 / 2 / 2 / 2) 0x2,
  bit_and_half (x / 2 / 2 / 2 / 2 / 2 / 2 / 2 / 2 / 2 / 2 / 2) 0x1,
  bit_and_mask 1 (x / 2 / 2 / 2 / 2 / 2 / 2 / 2 / 2 / 2 / 2 / 2 / 2),
)

-- `cmd_identify` and `cmd_reset` send the bytes 0x00 and 0xFF, and whether the word that
-- `cmd_identify` returns reports a GBA that is ready depends on the third byte received alone, not
-- on the byte of `in` that nothing has set.
pub cmd_identify-third :
    (junk b0 b1 b2 : ℕ)
    → junk < 256
    → b2 < 256
    → ((cmd_identify junk b0 b1 b2).0 ≡ 0x00 ∷ [])
      × ((cmd_reset junk b0 b1 b2).0 ≡ 0xFF ∷ [])
      × (bit_and (cmd_identify junk b0 b1 b2).1 0x1000 ≡ b2 / 16 % 2 * 0x1000)
unfolding cmd_identify cmd_reset first_byte split32 load32
cmd_identify-third junk b0 b1 b2 h h2 =
    (refl, refl, omega (arith, bit_12 (b0 * 2 ^ 24 + b1 * 2 ^ 16 + b2 * 2 ^ 8 + junk)))
