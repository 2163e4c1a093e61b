-- ===== src/Message/Layout.antt =====
-- The structs of puffboy_advance/shared/command.h as bytes. Both compilers place a field at a
-- multiple of its size, and `padding` is what lies in the gaps; the order of the bytes of a number is
-- the machine's.
pub mod RoundTrip
use net_bsd_wii_joybus.Base.{
  ℕ, zero, suc, ◌+◌, ◌-◌, ◌*◌, ◌/◌, ◌%◌, ◌^◌, max, Bool, true, false, Option, none, some, List, [],
  ◌∷◌, ◌++◌, take, drop, length, ltb, if◌then◌else◌,
}
use net_bsd_wii_joybus.Wire.{Platform, wii, gba, other, load32, split32, bswap32}

-- `uint32_t`, `uint64_t`, and an array of bytes.
pub data Field : Type 0 where
  u32 : Field
  u64 : Field
  array : ℕ → Field

-- The contents of a field.
pub data Value : Type 0 where
  word : ℕ → Value
  dword : ℕ → Value
  chars : List ℕ → Value

abbrev pub align_of : Field → ℕ
align_of u32 = 4
align_of u64 = 8
align_of (array n) = 1

abbrev pub field_size : Field → ℕ
field_size u32 = 4
field_size u64 = 8
field_size (array n) = n

-- The bytes to skip at an offset for an alignment.
unfoldable pub gap : ℕ → ℕ → ℕ
gap a off = (a - off % a) % a

-- The alignment of a struct, and the offset behind its last field.
unfoldable pub struct_align : List Field → ℕ
struct_align [] = 1
struct_align (f ∷ fs) = max (align_of f) (struct_align fs)

unfoldable pub fields_end : ℕ → List Field → ℕ
fields_end off [] = off
fields_end off (f ∷ fs) = fields_end (off + gap (align_of f) off + field_size f) fs

-- `sizeof`.
unfoldable pub size_of : List Field → ℕ
size_of fs = fields_end 0 fs + gap (struct_align fs) (fields_end 0 fs)

-- A number in memory.
unfoldable pub store32 : Platform → ℕ → List ℕ
store32 p v = split32 (other p) v

unfoldable pub store64 : Platform → ℕ → List ℕ
unfolding store32
store64 wii v = store32 wii (v / 2 ^ 32) ++ store32 wii (v % 2 ^ 32)
store64 gba v = store32 gba (v % 2 ^ 32) ++ store32 gba (v / 2 ^ 32)

unfoldable pub store_value : Platform → Value → List ℕ
store_value p (word v) = store32 p v
store_value p (dword v) = store64 p v
store_value p (chars bs) = bs

-- The bytes in a gap.
unfoldable pub fill : (ℕ → ℕ) → ℕ → ℕ → List ℕ
fill padding off zero = []
fill padding off (suc n) = padding off ∷ fill padding (off + 1) n

-- The fields of a struct in memory, from an offset on.
unfoldable pub store_fields : Platform → (ℕ → ℕ) → ℕ → List Field → List Value → List ℕ
store_fields p padding off (f ∷ fs) (v ∷ vs) =
    fill padding off (gap (align_of f) off)
    ++ (store_value p v ++ store_fields p padding (off + gap (align_of f) off + field_size f) fs vs)
store_fields p padding off _ _ = []

unfoldable pub store : Platform → (ℕ → ℕ) → List Field → List Value → List ℕ
store p padding fs vs =
    store_fields p padding 0 fs vs
    ++ fill padding (fields_end 0 fs) (gap (struct_align fs) (fields_end 0 fs))

unfoldable pub load_word : Platform → List ℕ → ℕ
load_word p (b0 ∷ b1 ∷ b2 ∷ b3 ∷ rest) = load32 p b0 b1 b2 b3
load_word p _ = 0

unfoldable pub load_value : Platform → Field → List ℕ → Value
load_value p u32 bs = word (load_word p bs)
load_value wii u64 bs = dword (load_word wii bs * 2 ^ 32 + load_word wii (drop 4 bs))
load_value gba u64 bs = dword (load_word gba (drop 4 bs) * 2 ^ 32 + load_word gba bs)
load_value p (array n) bs = chars (take n bs)

-- The fields of a struct that lies in memory.
unfoldable pub load_fields : Platform → ℕ → List Field → List ℕ → List Value
load_fields p off [] bs = []
load_fields p off (f ∷ fs) bs =
    let here = drop (gap (align_of f) off) bs in
    load_value p f here
    ∷ load_fields p (off + gap (align_of f) off + field_size f) fs (drop (field_size f) here)

unfoldable pub load : Platform → List Field → List ℕ → List Value
load p fs bs = load_fields p 0 fs bs

unfoldable pub bswap64 : ℕ → ℕ
bswap64 v = bswap32 (v % 2 ^ 32) * 2 ^ 32 + bswap32 (v / 2 ^ 32)

unfoldable pub swap_value : Value → Value
swap_value (word v) = word (bswap32 v)
swap_value (dword v) = dword (bswap64 v)
swap_value (chars bs) = chars bs

-- `SSWAP32` and `SSWAP64` of the fields that are marked.
unfoldable pub sswap : List Bool → List Value → List Value
sswap (b ∷ bs) (v ∷ vs) = (if b then swap_value v else v) ∷ sswap bs vs
sswap _ vs = vs

-- The fields that hold numbers: the ones to swap.
abbrev pub numbers : List Field → List Bool
numbers [] = []
numbers (u32 ∷ fs) = true ∷ numbers fs
numbers (u64 ∷ fs) = true ∷ numbers fs
numbers (array n ∷ fs) = false ∷ numbers fs
