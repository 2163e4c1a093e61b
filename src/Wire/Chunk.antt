-- ===== src/Wire/Chunk.antt =====
-- The masks and packets of one round, as arithmetic. `k` bits of the word go into the packet, and
-- `c` bits of the word before it, with `k + c = 31`.
use native.Mathlib.Nat.{
  one-le-pow, pow-suc, div-add-mod', mod-lt, div-lt_iff_lt-mul, add_comm, add-mul-mod_self_right,
  mod-eq_of_lt, mul-add-div_right, div-eq_of_lt,
}
use net_bsd_wii_joybus.Base.{
  ℕ, suc, ◌+◌, ◌-◌, ◌*◌, ◌/◌, ◌%◌, ◌^◌, ◌<◌, bit_and, bit_or, ◌≡◌, ap, arith, bit_and_mask,
  bit_and_top, bit_or_fields, bit_or_fields_low, bit_xor_masks, two-pow-add, ◌∙◌,
}
use net_bsd_wii_joybus.Wire.{
  bits, bit_max, chunk_max, chunk_packet, chunk_remainder, remainder_packet,
}

pow_eq : (a b : ℕ) → a ≡ b → 2 ^ a ≡ 2 ^ b
pow_eq a b e = ap (λ (t : ℕ). 2 ^ t) e

bits_low : (j : ℕ) → bits 0 j ≡ 2 ^ (j + 1) - 1
unfolding bits
bits_low j = ground (arith, bit_xor_masks 0 (j + 1))

bits_high : (k c : ℕ) → k + c ≡ 31 → bits 31 k ≡ 2 ^ 32 - 2 ^ k
unfolding bits
bits_high k c e = ground (arith, bit_xor_masks k (c + 1), pow_eq (k + (c + 1)) 32)

-- `x & __BITS(0, CHUNK_MAX - c)`.
pub bit_and-bits_low : (k c x : ℕ) → 0 < k → k + c ≡ 31 → bit_and x (bits 0 (30 - c)) ≡ x % 2 ^ k
bit_and-bits_low k c x h e =
    ground (arith, bits_low (30 - c), pow_eq (30 - c + 1) k, bit_and_mask k x)

-- `x & __BITS(BIT_MAX, BIT_MAX - c)`.
pub bit_and-bits_high :
    (k c x : ℕ) → x < 2 ^ 32 → k + c ≡ 31 → bit_and x (bits 31 (31 - c)) ≡ x / 2 ^ k * 2 ^ k
bit_and-bits_high k c x h e =
    ground (arith, bits_high k c, pow_eq (k + (c + 1)) 32, bit_and_top k (c + 1) x)

pub two-pow-split : (k c : ℕ) → k + c ≡ 31 → 2 ^ 31 ≡ 2 ^ c * 2 ^ k
two-pow-split k c e = omega (arith, pow_eq (k + c) 31 e, two-pow-add k c)

-- What the packet holds besides its flag: `q` from the word before, `r` from this word.
module _ (k c q r : ℕ) (e : k + c ≡ 31) (hq : q < 2 ^ c) (hr : r < 2 ^ k) where
  pub payload-lt : q * 2 ^ k + r < 2 ^ 31
  payload-lt = grind (arith, two-pow-split k c e)

  pub packet_sum : bit_or (bit_or (2 ^ 31) (q * 2 ^ k)) r ≡ 2 ^ 31 + q * 2 ^ k + r
  packet_sum = ground (
    arith,
    payload-lt,
    two-pow-split k c e,
    bit_or_fields 31 1 (q * 2 ^ k),
    bit_or_fields k (2 ^ c + q) r hr,
    distrib,
  )
    where
      distrib : (2 ^ c + q) * 2 ^ k ≡ 2 ^ c * 2 ^ k + q * 2 ^ k
      distrib = omega arith

  pub packet_low : (2 ^ 31 + q * 2 ^ k + r) % 2 ^ k ≡ r
  packet_low =
      ap (λ (t : ℕ). t % 2 ^ k) (omega (arith, two-pow-split k c e)) ∙ low_of_fields (2 ^ c + q)
    where
      low_of_fields : (a : ℕ) → (a * 2 ^ k + r) % 2 ^ k ≡ r
      low_of_fields a = rw (add_comm, add-mul-mod_self_right) (mod-eq_of_lt hr)

  pub packet_high : (2 ^ 31 + q * 2 ^ k + r) * 2 % 2 ^ 32 / 2 ^ suc k * 2 ^ suc k ≡ q * 2 ^ suc k
  packet_high =
      ap (λ (t : ℕ). t / 2 ^ suc k * 2 ^ suc k) shifted ∙ ap (λ (t : ℕ). t * 2 ^ suc k) quotient
    where
      shifted : (2 ^ 31 + q * 2 ^ k + r) * 2 % 2 ^ 32 ≡ q * 2 ^ suc k + r * 2
      shifted = omega (arith, payload-lt, ap (λ (t : ℕ). q * t) (pow-suc 2 k))

      quotient : (q * 2 ^ suc k + r * 2) / 2 ^ suc k ≡ q
      quotient =
          mul-add-div_right (one-le-pow (suc k) 2 (omega arith)) q (r * 2)
          ∙ omega (arith, div-eq_of_lt {n = r * 2} {m = 2 ^ suc k} (omega (arith, pow-suc 2 k)))

-- The word before, `v`, with its high bits in the packet. `d` is the receiver's carry.
module _ (k d v : ℕ) (e : k + suc d ≡ 31) (hv : v < 2 ^ 32) where
  abbrev pub high : ℕ
  high = v / 2 ^ suc k

  pub high-lt : high < 2 ^ suc d
  high-lt =
      (div-lt_iff_lt-mul (one-le-pow (suc k) 2 (omega arith))).1
        (omega (arith, hv, two-pow-add (suc k) (suc d), pow_eq (suc k + suc d) 32 (omega arith)))

  pub chunk_packet_lem :
      (w : ℕ) → 0 < k → chunk_packet w (suc d) (high * 2 ^ k) ≡ 2 ^ 31 + high * 2 ^ k + w % 2 ^ k
  unfolding chunk_packet
  chunk_packet_lem w pos =
      rw (bit_and-bits_low k (suc d) w pos e)
        (packet_sum k (suc d) high (w % 2 ^ k) e high-lt (mod-lt w (one-le-pow k 2 (omega arith))))

  pub remainder_packet_lem : remainder_packet (high * 2 ^ k) ≡ 2 ^ 31 + high * 2 ^ k + 0
  unfolding remainder_packet
  remainder_packet_lem = ground (
    arith,
    payload-lt k (suc d) high 0 e high-lt (one-le-pow k 2 (omega arith)),
    bit_or_fields 31 1 (high * 2 ^ k),
  )

  -- The receiver puts `v` together again from its low bits and the packet.
  pub rebuild :
      (r : ℕ)
      → r < 2 ^ k
      → bit_or
          (v % 2 ^ suc k)
          (bit_and ((2 ^ 31 + high * 2 ^ k + r) * 2 % 2 ^ 32) (bits bit_max (bit_max - d)))
        ≡ v
  rebuild r hr =
      let recv = 2 ^ 31 + high * 2 ^ k + r in
      rw
        (
          bit_and-bits_high (suc k) d (recv * 2 % 2 ^ 32) (omega arith) (omega arith),
          packet_high k (suc d) high r e high-lt hr,
          bit_or_fields_low (suc k) high (v % 2 ^ suc k)
              (mod-lt v (one-le-pow (suc k) 2 (omega arith))),
        )
        (div-add-mod' v (2 ^ suc k))

  pub keep_low :
      (r : ℕ)
      → r < 2 ^ k
      → 0 < k
      → bit_and (2 ^ 31 + high * 2 ^ k + r) (bits 0 (chunk_max - suc d)) ≡ r
  keep_low r hr pos =
      bit_and-bits_low k (suc d) (2 ^ 31 + high * 2 ^ k + r) pos e
      ∙ packet_low k (suc d) high r e high-lt hr

-- The remainder of a word is its high bits, one place down.
pub chunk_remainder_lem :
    (k c w : ℕ) → suc k + c ≡ 31 → w < 2 ^ 32 → chunk_remainder w c ≡ w / 2 ^ suc k * 2 ^ k
unfolding chunk_remainder
chunk_remainder_lem k c w e hw =
    omega
      (arith, bit_and-bits_high (suc k) c w hw e, ap (λ (t : ℕ). w / 2 ^ suc k * t) (pow-suc 2 k))

-- The first packet of a chunk has no remainder.
pub first_packet : (w : ℕ) → chunk_packet w 0 0 ≡ 2 ^ 31 + w % 2 ^ 31
unfolding chunk_packet
first_packet w =
    ground (arith, bit_and-bits_low 31 0 w, bit_or_fields 31 1 0, bit_or_fields 31 1 (w % 2 ^ 31))

pub first_low : (r : ℕ) → r < 2 ^ 31 → bit_and (2 ^ 31 + r) (bits 0 chunk_max) ≡ r
first_low r h = ground (arith, bit_and-bits_low 31 0 (2 ^ 31 + r))
