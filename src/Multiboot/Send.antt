-- ===== src/Multiboot/Send.antt =====
-- The loops of `multiboot` in wiishared/lib/multiboot.h over the ROM, and what the receiver, who has
-- the same key, makes of the words.
use mathlib.Core.Path.{subst}
use net_bsd_wii_joybus.Base.{
  ℕ, zero, suc, ◌+◌, ◌*◌, ◌^◌, ◌<◌, ◌≡◌, refl, ap, ap₂, ◌∙◌, arith, List, [], ◌∷◌, ◌++◌, length,
  bit_xor, bit_xor_twice, bit_xor-lt, append-nil, ltb, lt→ltb, false,
}
use net_bsd_wii_joybus.Wire.{wii, gba, bswap32, load32, split32, split_words}
use net_bsd_wii_joybus.Wire.Bytes.{IsBytes, load32-lt, split32-load32}
use net_bsd_wii_joybus.Wire.Link.{bswap32_twice}
use net_bsd_wii_joybus.Multiboot.Crc.{docrc-lt}
use net_bsd_wii_joybus.Server.{done, fault}
use net_bsd_wii_joybus.Multiboot.{docrc, send_header, send_rom, address_mask, next_key, encrypt}

-- The masks taken off in the opposite order.
unfoldable pub decrypt : ℕ → ℕ → ℕ → ℕ
decrypt key i v = bit_xor (bit_xor (bit_xor (bswap32 v) 0x20796220) (address_mask i)) key

-- The bytes of the words for the addresses from `i` on.
unfoldable pub plain : ℕ → ℕ → List ℕ → List ℕ
plain key i [] = []
plain key i (v ∷ vs) = split32 wii (decrypt (next_key key) i v) ++ plain (next_key key) (i + 4) vs

-- The checksum over the words of a ROM.
abbrev pub crc_of : ℕ → List ℕ → ℕ
crc_of crc (b0 ∷ b1 ∷ b2 ∷ b3 ∷ rom) = crc_of (docrc crc (load32 gba b0 b1 b2 b3)) rom
crc_of crc _ = crc

ltb_self : (i : ℕ) → ltb i i ≡ false
ltb_self i = ground arith

next_key-lt : (key : ℕ) → next_key key < 2 ^ 32
unfolding next_key
next_key-lt key = omega arith

address_mask-lt : (i : ℕ) → address_mask i < 2 ^ 32
unfolding address_mask
address_mask-lt i = omega arith

decrypt-encrypt :
    (key i w : ℕ) → w < 2 ^ 32 → decrypt (next_key key) i (bswap32 (encrypt (next_key key) i w)) ≡ w
unfolding decrypt encrypt
decrypt-encrypt key i w h =
    let keyed = bit_xor w (next_key key) in
    let masked = bit_xor keyed (address_mask i) in
    let small =
      bit_xor-lt 32 masked 0x20796220
        (bit_xor-lt 32 keyed (address_mask i) (bit_xor-lt 32 w (next_key key) h (next_key-lt key))
          (address_mask-lt i))
        (omega arith) in
    rw
      (
        bswap32_twice (bit_xor masked 0x20796220) small,
        bit_xor_twice masked 0x20796220,
        bit_xor_twice keyed (address_mask i),
        bit_xor_twice w (next_key key),
      )
      refl

-- A ROM of `n` words.
pub data IsRom : ℕ → List ℕ → Type 0 where
  no_words : IsRom 0 []
  more_words :
      {n : ℕ} {rom : List ℕ} (b0 b1 b2 b3 : ℕ)
      → IsBytes (b0 ∷ b1 ∷ b2 ∷ b3 ∷ [])
      → IsRom n rom
      → IsRom (suc n) (b0 ∷ b1 ∷ b2 ∷ b3 ∷ rom)

pub IsBytes-IsRom : (n : ℕ) (rom : List ℕ) → length rom ≡ 4 * n → IsBytes rom → IsRom n rom
IsBytes-IsRom zero [] size h = no_words
IsBytes-IsRom zero (b ∷ rom) size h = absurd (omega arith)
IsBytes-IsRom (suc n) [] size h = absurd (omega arith)
IsBytes-IsRom (suc n) (b0 ∷ []) size h = absurd (omega arith)
IsBytes-IsRom (suc n) (b0 ∷ b1 ∷ []) size h = absurd (omega arith)
IsBytes-IsRom (suc n) (b0 ∷ b1 ∷ b2 ∷ []) size h = absurd (omega arith)
IsBytes-IsRom (suc n) (b0 ∷ b1 ∷ b2 ∷ b3 ∷ rom) size h =
    more_words b0 b1 b2 b3 (h.0, (h.1.0, (h.1.1.0, (h.1.1.1.0, tt))))
      (IsBytes-IsRom n rom (omega arith) h.1.1.1.1)

-- The loop from `i` on ends with the checksum over what it sent, and the receiver decrypts the words,
-- and one more word that is encrypted like them, to the bytes of the ROM and that word.
abbrev pub Sends : ℕ → ℕ → ℕ → List ℕ → ℕ → ℕ → ℕ → Type 0
Sends fuel sendsize i rom crc key n =
    (out : List ℕ) × (key' : ℕ) × (send_rom fuel sendsize i rom crc key
      ≡ done (out, crc_of crc rom, key', sendsize))
    × (length out ≡ n)
    × ((last : ℕ)
        → last < 2 ^ 32
        → plain key i (out ++ bswap32 (encrypt (next_key key') sendsize last) ∷ [])
          ≡ rom ++ split32 wii last)

plain-encrypt :
    (key i w : ℕ) (vs : List ℕ)
    → w < 2 ^ 32
    → plain key i (bswap32 (encrypt (next_key key) i w) ∷ vs)
      ≡ split32 wii w ++ plain (next_key key) (i + 4) vs
unfolding plain
plain-encrypt key i w vs h =
    ap (λ t. split32 wii t ++ plain (next_key key) (i + 4) vs) (decrypt-encrypt key i w h)

pub send_rom-Sends :
    {n : ℕ} (fuel sendsize i : ℕ) {rom : List ℕ} (crc key : ℕ)
    → n < fuel
    → sendsize ≡ i + 4 * n
    → IsRom n rom
    → Sends fuel sendsize i rom crc key n
unfolding send_rom plain
send_rom-Sends zero sendsize i crc key fueled end h = absurd (omega arith)
send_rom-Sends (suc fuel) sendsize i crc key fueled end no_words =
    let here : sendsize ≡ i = omega (arith, end) in
    (
      [],
      key,
      rw (here, ltb_self i) refl,
      refl,
      λ last small.
          ap (λ t. plain key i (bswap32 (encrypt (next_key key) t last) ∷ [])) here
          ∙ plain-encrypt key i last [] small
          ∙ append-nil (split32 wii last),
    )
send_rom-Sends (suc fuel) sendsize i crc key fueled end (more_words {n} {rom} b0 b1 b2 b3 h hs) =
    let enc = load32 gba b0 b1 b2 b3 in
    let (out, key', ran, count, decrypts) =
      send_rom-Sends fuel sendsize (i + 4) (docrc crc enc) (next_key key) (omega (arith, fueled))
        (omega (arith, end)) hs in
    (
      bswap32 (encrypt (next_key key) i enc) ∷ out,
      key',
      rw (lt→ltb i sendsize (omega (arith, end)), ran) refl,
      ap suc count,
      λ last small.
          plain-encrypt key i enc (out ++ bswap32 (encrypt (next_key key') sendsize last) ∷ [])
            (load32-lt gba b0 b1 b2 b3 h.0 h.1.0 h.1.1.0 h.1.1.1.0)
          ∙ ap₂ (λ (a b : List ℕ). a ++ b)
              (split32-load32 gba b0 b1 b2 b3 h.0 h.1.0 h.1.1.0 h.1.1.1.0) (decrypts last small),
    )

-- The header goes out as it lies in memory.
pub send_header-append :
    {n : ℕ} {header : List ℕ} (rom : List ℕ)
    → IsRom n header
    → (out : List ℕ) × (send_header n (header ++ rom) ≡ done (out, rom))
      × (split_words gba out ≡ header)
unfolding send_header split_words
send_header-append rom no_words = ([], refl, refl)
send_header-append rom (more_words b0 b1 b2 b3 h hs) =
    let (out, ran, same) = send_header-append rom hs in
    (
      load32 wii b0 b1 b2 b3 ∷ out,
      rw ran refl,
      ap₂ (λ (a b : List ℕ). a ++ b) (split32-load32 wii b0 b1 b2 b3 h.0 h.1.0 h.1.1.0 h.1.1.1.0)
          same,
    )

pub send_header-fault : (n : ℕ) (rom : List ℕ) → length rom < 4 * n → send_header n rom ≡ fault
unfolding send_header
send_header-fault zero rom short = absurd (omega arith)
send_header-fault (suc n) [] short = refl
send_header-fault (suc n) (b0 ∷ []) short = refl
send_header-fault (suc n) (b0 ∷ b1 ∷ []) short = refl
send_header-fault (suc n) (b0 ∷ b1 ∷ b2 ∷ []) short = refl
send_header-fault (suc n) (b0 ∷ b1 ∷ b2 ∷ b3 ∷ rom) short =
    rw (send_header-fault n rom (omega arith)) refl

pub length-IsRom : {n : ℕ} {rom : List ℕ} → IsRom n rom → length rom ≡ 4 * n
length-IsRom no_words = refl
length-IsRom (more_words b0 b1 b2 b3 h hs) = omega (arith, length-IsRom hs)

pub split-IsRom :
    (m n : ℕ) {t : ℕ} {rom : List ℕ}
    → t ≡ m + n
    → IsRom t rom
    → (header : List ℕ) × (body : List ℕ) × (rom ≡ header ++ body) × IsRom m header × IsRom n body
split-IsRom zero n {t} {rom} e h =
    let all : t ≡ n = omega (arith, e) in ([], rom, refl, no_words, subst (λ k. IsRom k rom) all h)
split-IsRom (suc m) n e no_words = absurd (omega (arith, e))
split-IsRom (suc m) n e (more_words b0 b1 b2 b3 h hs) =
    let (header, body, same, front, back) = split-IsRom m n (omega (arith, e)) hs in
    (
      b0 ∷ b1 ∷ b2 ∷ b3 ∷ header,
      body,
      ap (λ t. b0 ∷ b1 ∷ b2 ∷ b3 ∷ t) same,
      more_words b0 b1 b2 b3 h front,
      back,
    )

pub crc_of-lt :
    (crc : ℕ) {n : ℕ} {rom : List ℕ} → crc < 2 ^ 16 → IsRom n rom → crc_of crc rom < 2 ^ 16
crc_of-lt crc small no_words = small
crc_of-lt crc small (more_words b0 b1 b2 b3 h hs) =
    crc_of-lt (docrc crc (load32 gba b0 b1 b2 b3))
      (docrc-lt crc (load32 gba b0 b1 b2 b3) (omega (arith, small))
        (load32-lt gba b0 b1 b2 b3 h.0 h.1.0 h.1.1.0 h.1.1.1.0))
      hs
