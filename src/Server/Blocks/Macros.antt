-- ===== src/Server/Blocks/Macros.antt =====
-- The macros on offsets as arithmetic, for blocks of 128 bytes.
use net_bsd_wii_joybus.Base.{
  ℕ, ◌+◌, ◌-◌, ◌*◌, ◌/◌, ◌%◌, ◌^◌, ◌<◌, ◌≡◌, arith, bit_and_mask, bit_and_top,
}
use net_bsd_wii_joybus.Server.Blocks.{roundup, blocknum, blockoff, blockleft}

pub roundup_lem : (a : ℕ) → roundup a ≡ a % 128
unfolding roundup
roundup_lem a = bit_and_mask 7 a

pub blockoff_lem : (a : ℕ) → blockoff a ≡ a % 128
unfolding blockoff
blockoff_lem a = bit_and_mask 7 a

pub blockleft_lem : (a : ℕ) → blockleft a ≡ 128 - a % 128
unfolding blockleft
blockleft_lem a = omega (arith, bit_and_mask 7 a)

pub blocknum-32 : (a : ℕ) → a < 2 ^ 32 → blocknum 32 a ≡ a / 128
unfolding blocknum
blocknum-32 a h = omega (arith, bit_and_top 7 25 a h)

pub blocknum-64 : (a : ℕ) → a < 2 ^ 64 → blocknum 64 a ≡ a / 128
unfolding blocknum
blocknum-64 a h = omega (arith, bit_and_top 7 57 a h)

-- An offset below 2 ^ 64 is 128 times `BLOCKNUM` plus `BLOCKOFF`.
pub blocknum-blockoff : (a : ℕ) → a < 2 ^ 64 → blocknum 64 a * 128 + blockoff a ≡ a
blocknum-blockoff a h = omega (arith, blocknum-64 a h, blockoff_lem a)
