-- ===== src/Wire.antt =====
-- The packet protocol of puffboy_advance/shared/command.h: byte order, masks, `send_request`,
-- `receive_response`. Values of type uint32_t are numbers below 2 ^ 32.
pub mod Chunk
pub mod Rounds
pub mod Bytes
pub mod Packets
pub mod Link
pub mod Commands
use net_bsd_wii_joybus.Base.{
  ℕ, zero, suc, ◌+◌, ◌-◌, ◌*◌, ◌/◌, ◌%◌, ◌^◌, min, max, bit_and, bit_or, bit_xor, Bool, Option,
  none, some, List, [], ◌∷◌, ◌++◌, take, ltb, ◌==◌, if◌then◌else◌,
}

-- The Wii is the big-endian side, where `__powerpc__` is defined; the GBA is the little-endian one.
pub data Platform : Type 0 where
  wii gba : Platform

abbrev pub other : Platform → Platform
other wii = gba
other gba = wii

-- `BSWAP32`.
unfoldable pub bswap32 : ℕ → ℕ
bswap32 v =
    v % 256 * 2 ^ 24 + v / 2 ^ 8 % 256 * 2 ^ 16 + v / 2 ^ 16 % 256 * 2 ^ 8 + v / 2 ^ 24 % 256

-- `__BITS(m, n)`: the bits from m through n, in either order.
unfoldable pub bits : ℕ → ℕ → ℕ
bits m n = bit_xor (2 ^ (max m n + 1) - 1) (2 ^ min m n - 1)

abbrev pub bit_max : ℕ
bit_max = 31

abbrev pub chunk_max : ℕ
chunk_max = 30

-- `cur = *(uint32_t *)out`, in the order of the machine.
unfoldable pub load32 : Platform → ℕ → ℕ → ℕ → ℕ → ℕ
load32 wii b0 b1 b2 b3 = b0 * 2 ^ 24 + b1 * 2 ^ 16 + b2 * 2 ^ 8 + b3
load32 gba b0 b1 b2 b3 = b3 * 2 ^ 24 + b2 * 2 ^ 16 + b1 * 2 ^ 8 + b0

-- The words `cur` that the loop of `send_request` reads, the last one padded by `memset`.
unfoldable pub out_words : Platform → List ℕ → List ℕ
out_words p [] = []
out_words p (b0 ∷ []) = load32 p b0 0 0 0 ∷ []
out_words p (b0 ∷ b1 ∷ []) = load32 p b0 b1 0 0 ∷ []
out_words p (b0 ∷ b1 ∷ b2 ∷ []) = load32 p b0 b1 b2 0 ∷ []
out_words p (b0 ∷ b1 ∷ b2 ∷ b3 ∷ rest) = load32 p b0 b1 b2 b3 ∷ out_words p rest

-- The first packet of a round, `(1 << BIT_MAX) | remainder | (cur & __BITS(0, CHUNK_MAX - carry))`.
unfoldable pub chunk_packet : ℕ → ℕ → ℕ → ℕ
chunk_packet cur carry remainder =
    bit_or (bit_or (2 ^ bit_max) remainder) (bit_and cur (bits 0 (chunk_max - carry)))

-- The bits of the word that did not fit, `(cur & __BITS(BIT_MAX, BIT_MAX - carry)) >> 1`.
unfoldable pub chunk_remainder : ℕ → ℕ → ℕ
chunk_remainder cur carry = bit_and cur (bits bit_max (bit_max - carry)) / 2

-- `(1 << BIT_MAX) | remainder`.
unfoldable pub remainder_packet : ℕ → ℕ
remainder_packet remainder = bit_or (2 ^ bit_max) remainder

-- The loop of `send_request` and the flush behind it: the packets handed to `do_send`, in order.
unfoldable pub send_words : List ℕ → ℕ → ℕ → List ℕ
send_words [] carry remainder = if ltb 0 carry then remainder_packet remainder ∷ [] else []
send_words (cur ∷ rest) carry remainder =
    let pkt = chunk_packet cur carry remainder in
    let remainder' = chunk_remainder cur carry in
    let full = pkt ∷ remainder_packet remainder' ∷ send_words rest 0 0 in
    let partly = pkt ∷ send_words rest (carry + 1) remainder' in
    if carry + 1 == bit_max then full else partly

unfoldable pub send_request : Platform → List ℕ → List ℕ
send_request p req = send_words (out_words p req) 0 0

-- `do_receive`, on the values that the link yields one after another; both sides swap them. The
-- Wii polls until a value is not 0. `none`: the link yields no more, so the code waits on.
unfoldable pub do_receive : Platform → List ℕ → Option (ℕ × List ℕ)
do_receive p [] = none
do_receive gba (x ∷ xs) = some (bswap32 x, xs)
do_receive wii (x ∷ xs) =
    let again = do_receive wii xs in
    let recv = bswap32 x in if recv == 0 then again else some (recv, xs)

infixl 5 ◌>>=◌
abbrev pub ◌>>=◌ {ℓ κ} : {A : Type ℓ} {B : Type κ} → Option A → (A → Option B) → Option B
none >>= f = none
some a >>= f = f a

-- `in` before a round, the carry, and what the link still holds.
abbrev pub Cursor : Type 0
Cursor = ℕ × ℕ × List ℕ

-- The end of a round: a full carry starts a new chunk, if another word follows.
unfoldable pub next_chunk : Platform → Bool → ℕ → ℕ → ℕ → List ℕ → Option Cursor
next_chunk p more inn carry recv link =
    let fresh : Option Cursor =
      do_receive p link >>= λ (recv', link'). some (bit_and recv' (bits 0 chunk_max), 0, link') in
    if carry == bit_max
    then (if more then fresh else some (inn, 0, link))
    else some (bit_and recv (bits 0 (chunk_max - carry)), carry, link)

-- The loop of `receive_response`, with the rounds left: the words put together.
unfoldable pub receive_words : Platform → ℕ → ℕ → ℕ → List ℕ → Option (List ℕ × List ℕ)
receive_words p zero inn carry link = some ([], link)
receive_words p (suc rounds) inn carry link = do
  (recv, link') ← do_receive p link
  let remainder = bit_and (recv * 2 % 2 ^ 32) (bits bit_max (bit_max - carry))
  (inn', carry', link'') ← next_chunk p (ltb 0 rounds) inn (carry + 1) recv link'
  (words, rest) ← receive_words p rounds inn' carry' link''
  some (bit_or inn remainder ∷ words, rest)

-- `b[i]` to `b[i+3]`: the Wii stores the low byte first, the GBA the high byte first.
unfoldable pub split32 : Platform → ℕ → List ℕ
split32 wii w = w % 256 ∷ w / 2 ^ 8 % 256 ∷ w / 2 ^ 16 % 256 ∷ w / 2 ^ 24 % 256 ∷ []
split32 gba w = w / 2 ^ 24 % 256 ∷ w / 2 ^ 16 % 256 ∷ w / 2 ^ 8 % 256 ∷ w % 256 ∷ []

unfoldable pub split_words : Platform → List ℕ → List ℕ
split_words p [] = []
split_words p (w ∷ ws) = split32 p w ++ split_words p ws

-- `receive_response`: the `sz` bytes and what is left on the link.
unfoldable pub receive_response : Platform → ℕ → List ℕ → Option (List ℕ × List ℕ)
receive_response p sz link = do
  (recv, link') ← do_receive p link
  (words, rest) ← receive_words p ((sz + 3) / 4) (bit_and recv (bits 0 chunk_max)) 0 link'
  some (take sz (split_words p words), rest)
