-- ===== src/Multiboot/Key.antt =====
-- The key that `calckey` of wiishared/lib/multiboot.h makes of the size.
use net_bsd_wii_joybus.Base.{
  ℕ, ◌+◌, ◌*◌, ◌/◌, ◌%◌, ◌^◌, ◌<◌, ◌≡◌, sym, ap, ◌∙◌, arith, bit_and, bit_or, bit_xor, ◌==◌,
  if◌then◌else◌, bit_and_mask, bit_or_fields, bit_xor_fields, bit_xor-lt, Bool-cases, inl, inr,
}
use net_bsd_wii_joybus.Wire.{bswap32}
use net_bsd_wii_joybus.Multiboot.{key_seed, masked_key, calckey}

-- Four bytes as a word, the first one on top.
abbrev bytes4 : ℕ → ℕ → ℕ → ℕ → ℕ
bytes4 a b c d = ((a * 2 ^ 8 + b) * 2 ^ 8 + c) * 2 ^ 8 + d

bit_or-bytes4 :
    (a b c d : ℕ)
    → b < 2 ^ 8
    → c < 2 ^ 8
    → d < 2 ^ 8
    → bit_or (bit_or (bit_or (a * 2 ^ 24) (b * 2 ^ 16)) (c * 2 ^ 8)) d ≡ bytes4 a b c d
bit_or-bytes4 a b c d hb hc hd =
    let two : bit_or (a * 2 ^ 24) (b * 2 ^ 16) ≡ (a * 2 ^ 8 + b) * 2 ^ 16 =
      omega (arith, bit_or_fields 24 a (b * 2 ^ 16) (omega arith)) in
    let three : bit_or ((a * 2 ^ 8 + b) * 2 ^ 16) (c * 2 ^ 8)
        ≡ ((a * 2 ^ 8 + b) * 2 ^ 8 + c) * 2 ^ 8 =
      omega (arith, bit_or_fields 16 (a * 2 ^ 8 + b) (c * 2 ^ 8) (omega arith)) in
    ap (λ t. bit_or (bit_or t (c * 2 ^ 8)) d) two
    ∙ ap (λ t. bit_or t d) three
    ∙ bit_or_fields 8 ((a * 2 ^ 8 + b) * 2 ^ 8 + c) d hd

bit_xor-bytes4 :
    (a b c d w x y z : ℕ)
    → b < 2 ^ 8
    → c < 2 ^ 8
    → d < 2 ^ 8
    → x < 2 ^ 8
    → y < 2 ^ 8
    → z < 2 ^ 8
    → bit_xor (bytes4 a b c d) (bytes4 w x y z)
      ≡ bytes4 (bit_xor a w) (bit_xor b x) (bit_xor c y) (bit_xor d z)
bit_xor-bytes4 a b c d w x y z hb hc hd hx hy hz =
    let two = a * 2 ^ 8 + b in
    let two' = w * 2 ^ 8 + x in
    bit_xor_fields 8 (two * 2 ^ 8 + c) (two' * 2 ^ 8 + y) d z hd hz
    ∙ ap (λ (t : ℕ). t * 2 ^ 8 + bit_xor d z)
        (bit_xor_fields 8 two two' c y hc hy
          ∙ ap (λ (t : ℕ). t * 2 ^ 8 + bit_xor c y) (bit_xor_fields 8 a w b x hb hx))

bswap32-bytes4 :
    (v : ℕ)
    → bytes4 (v % 2 ^ 8) (v / 2 ^ 8 % 2 ^ 8) (v / 2 ^ 16 % 2 ^ 8) (v / 2 ^ 24 % 2 ^ 8) ≡ bswap32 v
unfolding bswap32
bswap32-bytes4 v = omega arith

masked_key-bytes4 :
    (v m0 m1 m2 m3 : ℕ)
    → m0 < 2 ^ 8
    → m1 < 2 ^ 8
    → m2 < 2 ^ 8
    → m3 < 2 ^ 8
    → masked_key v m0 m1 m2 m3 ≡ bit_xor (bswap32 v) (bytes4 m0 m1 m2 m3)
unfolding masked_key
masked_key-bytes4 v m0 m1 m2 m3 h0 h1 h2 h3 =
    rw
      (
        bit_and_mask 8 v,
        bit_and_mask 8 (v / 2 ^ 8),
        bit_and_mask 8 (v / 2 ^ 16),
        bit_and_mask 8 (v / 2 ^ 24),
      )
      (bit_or-bytes4 (bit_xor (v % 2 ^ 8) m0) (bit_xor (v / 2 ^ 8 % 2 ^ 8) m1)
          (bit_xor (v / 2 ^ 16 % 2 ^ 8) m2) (bit_xor (v / 2 ^ 24 % 2 ^ 8) m3)
          (bit_xor-lt 8 (v / 2 ^ 8 % 2 ^ 8) m1 (omega arith) h1)
          (bit_xor-lt 8 (v / 2 ^ 16 % 2 ^ 8) m2 (omega arith) h2)
          (bit_xor-lt 8 (v / 2 ^ 24 % 2 ^ 8) m3 (omega arith) h3)
        ∙ sym (
            bit_xor-bytes4 (v % 2 ^ 8) (v / 2 ^ 8 % 2 ^ 8) (v / 2 ^ 16 % 2 ^ 8) (v / 2 ^ 24 % 2 ^ 8)
              m0 m1 m2 m3 (omega arith) (omega arith) (omega arith) h1 h2 h3)
        ∙ ap (λ t. bit_xor t (bytes4 m0 m1 m2 m3)) (bswap32-bytes4 v))

-- The key is the seed with its bytes reversed under one of two masks, which bit 9 of the seed
-- chooses.
pub calckey-masks :
    (size : ℕ)
    → calckey size
      ≡ bit_xor
          (bswap32 (key_seed size))
          (if bit_and (key_seed size) 0x200 == 0 then 0x4B617761 else 0x7365646F)
unfolding calckey
calckey-masks size = elim (Bool-cases (bit_and (key_seed size) 0x200 == 0)) [
  | inl e ↦ rw e (
      masked_key-bytes4 (key_seed size) 0x4B 0x61 0x77 0x61 (omega arith) (omega arith)
        (omega arith) (omega arith))
  | inr e ↦ rw e (
      masked_key-bytes4 (key_seed size) 0x73 0x65 0x64 0x6F (omega arith) (omega arith)
        (omega arith) (omega arith))
]
