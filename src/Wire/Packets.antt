-- ===== src/Wire/Packets.antt =====
-- The packets of a message: their form and their number.
use net_bsd_wii_joybus.Base.{
  ℕ, ◌+◌, ◌-◌, ◌*◌, ◌/◌, ◌^◌, ◌≤◌, ◌<◌, bit_and, bit_or, ◌≡◌, arith, All, List, [], ◌∷◌, length,
  ltb, ◌==◌, inl, inr, Bool-cases, bit_or-lt, le-bit_or, bit_and-le, ==_iff,
}
use net_bsd_wii_joybus.Wire.{
  Platform, bits, chunk_packet, chunk_remainder, remainder_packet, send_words, send_request,
  out_words,
}
use net_bsd_wii_joybus.Wire.Rounds.{IsWords}
use net_bsd_wii_joybus.Wire.Bytes.{IsBytes, out_words-IsWords, length-out_words}

abbrev pub IsPacket : ℕ → Type 0
IsPacket pkt = (2 ^ 31 ≤ pkt) × (pkt < 2 ^ 32)

remainder_packet-IsPacket : (rem : ℕ) → rem < 2 ^ 31 → IsPacket (remainder_packet rem)
unfolding remainder_packet
remainder_packet-IsPacket rem h = (
  le-bit_or (2 ^ 31) (2 ^ 31) rem (omega arith),
  bit_or-lt 32 (2 ^ 31) rem (omega arith) (omega arith),
)

chunk_packet-IsPacket :
    (cur carry rem : ℕ) → cur < 2 ^ 32 → rem < 2 ^ 31 → IsPacket (chunk_packet cur carry rem)
unfolding chunk_packet
chunk_packet-IsPacket cur carry rem hc hr =
    let top = bit_or (2 ^ 31) rem in
    let bound = bit_or-lt 32 (2 ^ 31) rem (omega arith) (omega arith) in
    let low = bit_and cur (bits 0 (30 - carry)) in
    let low_le = bit_and-le cur cur (bits 0 (30 - carry)) (omega arith) in
    (
      omega (arith, le-bit_or (2 ^ 31) (2 ^ 31) rem, le-bit_or top top low (omega arith)),
      bit_or-lt 32 top low bound (omega arith),
    )

chunk_remainder-lt : (cur carry : ℕ) → cur < 2 ^ 32 → chunk_remainder cur carry < 2 ^ 31
unfolding chunk_remainder
chunk_remainder-lt cur carry h =
    omega (arith, bit_and-le cur cur (bits 31 (31 - carry)) (omega arith))

send_words-IsPacket :
    (ws : List ℕ) (carry rem : ℕ)
    → IsWords ws
    → rem < 2 ^ 31
    → All IsPacket (send_words ws carry rem)
unfolding send_words
send_words-IsPacket [] carry rem h hr = elim (Bool-cases (ltb 0 carry)) [
  | inl more ↦ rw more (remainder_packet-IsPacket rem hr, tt)
  | inr none_left ↦ rw none_left tt
]
send_words-IsPacket (w ∷ ws) carry rem h hr =
    let first = chunk_packet-IsPacket w carry rem h.0 hr in
    let below = chunk_remainder-lt w carry h.0 in
    elim (Bool-cases (carry + 1 == 31)) [
      | inl full ↦
          rw full (
            first,
            (remainder_packet-IsPacket _ below, send_words-IsPacket ws 0 0 h.1 (omega arith)),
          )
      | inr partly ↦ rw partly (first, send_words-IsPacket ws (carry + 1) _ h.1 below)
    ]

-- Every packet is a 32-bit value with its top bit set, so the Wii, which skips the value 0, never
-- drops one.
pub send_request-IsPacket :
    (p : Platform) (req : List ℕ) → IsBytes req → All IsPacket (send_request p req)
unfolding send_request
send_request-IsPacket p req h =
    send_words-IsPacket (out_words p req) 0 0 (out_words-IsWords p req h) (omega arith)

length-send_words :
    (ws : List ℕ) (carry rem : ℕ)
    → carry < 31
    → length (send_words ws carry rem) ≡ (32 * length ws + carry + 30) / 31
unfolding send_words
length-send_words [] carry rem h = ground arith
length-send_words (w ∷ ws) carry rem h = elim (Bool-cases (carry + 1 == 31)) [
  | inl full ↦
      let at_30 = (==_iff (carry + 1) 31).0 full in
      rw full (omega (arith, length-send_words ws 0 0))
  | inr partly ↦
      let below : carry + 1 < 31 = ground arith in
      rw partly (omega (arith, length-send_words ws (carry + 1) (chunk_remainder w carry) below))
]

-- A message of `n` bytes is sent as (32 * ((n + 3) / 4) + 30) / 31 packets: one for every 31 bits of
-- its words, rounded up.
pub length-send_request :
    (p : Platform) (req : List ℕ)
    → length (send_request p req) ≡ (32 * ((length req + 3) / 4) + 30) / 31
unfolding send_request
length-send_request p req =
    omega (arith, length-send_words (out_words p req) 0 0, length-out_words p req)
