-- ===== src/Message/Layout/RoundTrip.antt =====
-- A struct that one side stores and the other side loads.
use net_bsd_wii_joybus.Base.{
  ℕ, zero, suc, ◌+◌, ◌*◌, ◌/◌, ◌%◌, ◌^◌, ◌<◌, ◌≡◌, refl, sym, ap, ap₂, ◌∙◌, arith, List, [], ◌∷◌,
  ◌++◌, map, drop, length, length-append, drop-append, take-append, append_assoc, All-append,
}
use net_bsd_wii_joybus.Wire.{Platform, wii, gba, other, load32, split32, bswap32}
use net_bsd_wii_joybus.Wire.Bytes.{IsBytes}
use net_bsd_wii_joybus.Message.Layout.{
  Field, u32, u64, array, Value, word, dword, chars, align_of, field_size, gap, struct_align,
  fields_end, size_of, store32, store64, store_value, fill, store_fields, store, load_word,
  load_value, load_fields, load, bswap64, swap_value, sswap, numbers,
}

-- A value of the field's type.
pub data IsValue : Field → Value → Type 0 where
  is_word : {v : ℕ} → v < 2 ^ 32 → IsValue u32 (word v)
  is_dword : {v : ℕ} → v < 2 ^ 64 → IsValue u64 (dword v)
  is_array : (bs : List ℕ) → IsBytes bs → IsValue (array (length bs)) (chars bs)

pub data AreValues : List Field → List Value → Type 0 where
  no_values : AreValues [] []
  more_values :
      {f : Field} {v : Value} {fs : List Field} {vs : List Value}
      → IsValue f v
      → AreValues fs vs
      → AreValues (f ∷ fs) (v ∷ vs)

length-fill : (padding : ℕ → ℕ) (off n : ℕ) → length (fill padding off n) ≡ n
unfolding fill
length-fill padding off zero = refl
length-fill padding off (suc n) = ap suc (length-fill padding (off + 1) n)

length-store_value :
    (p : Platform) {f : Field} {v : Value} → IsValue f v → length (store_value p v) ≡ field_size f
unfolding store_value store32 store64 split32
length-store_value wii (is_word h) = refl
length-store_value gba (is_word h) = refl
length-store_value wii (is_dword h) = refl
length-store_value gba (is_dword h) = refl
length-store_value wii (is_array bs h) = refl
length-store_value gba (is_array bs h) = refl

-- The other side reads a number with its bytes reversed.
load_word-store32 :
    (p : Platform) (v : ℕ) (rest : List ℕ) → load_word (other p) (store32 p v ++ rest) ≡ bswap32 v
unfolding load_word store32 split32 load32 bswap32
load_word-store32 wii v rest = omega arith
load_word-store32 gba v rest = omega arith

load_dword-store64 :
    (p : Platform) (v : ℕ) (rest : List ℕ)
    → load_value (other p) u64 (store64 p v ++ rest) ≡ dword (bswap64 v)
unfolding load_value store64 bswap64 store32 split32
load_dword-store64 wii v rest =
    ap₂ (λ (a b : ℕ). dword (a * 2 ^ 32 + b)) (load_word-store32 wii (v % 2 ^ 32) rest)
      (load_word-store32 wii (v / 2 ^ 32) (store32 wii (v % 2 ^ 32) ++ rest))
load_dword-store64 gba v rest =
    ap₂ (λ (a b : ℕ). dword (a * 2 ^ 32 + b))
      (load_word-store32 gba (v % 2 ^ 32) (store32 gba (v / 2 ^ 32) ++ rest))
      (load_word-store32 gba (v / 2 ^ 32) rest)

load_array :
    (p : Platform) (bs rest : List ℕ) → load_value p (array (length bs)) (bs ++ rest) ≡ chars bs
unfolding load_value
load_array wii bs rest = ap chars (take-append bs rest (length bs) refl)
load_array gba bs rest = ap chars (take-append bs rest (length bs) refl)

load_value-store_value :
    (p : Platform) {f : Field} {v : Value} (rest : List ℕ)
    → IsValue f v
    → load_value (other p) f (store_value p v ++ rest) ≡ swap_value v
unfolding load_value store_value swap_value
load_value-store_value p rest (is_word {v} h) = ap word (load_word-store32 p v rest)
load_value-store_value p rest (is_dword {v} h) = load_dword-store64 p v rest
load_value-store_value p rest (is_array bs h) = load_array (other p) bs rest

load_fields-store_fields :
    (p : Platform) (padding : ℕ → ℕ) (off : ℕ) {fs : List Field} {vs : List Value} (rest : List ℕ)
    → AreValues fs vs
    → load_fields (other p) off fs (store_fields p padding off fs vs ++ rest) ≡ map swap_value vs
unfolding load_fields store_fields
load_fields-store_fields p padding off rest no_values = refl
load_fields-store_fields p padding off rest (more_values {f} {v} {fs} {vs} h hs) =
    let skip = gap (align_of f) off in
    let off' = off + skip + field_size f in
    let later = store_fields p padding off' fs vs in
    let at_field : drop skip ((fill padding off skip ++ (store_value p v ++ later)) ++ rest)
        ≡ store_value p v ++ (later ++ rest) =
      ap (drop skip) (append_assoc (fill padding off skip) (store_value p v ++ later) rest)
      ∙ drop-append (fill padding off skip) ((store_value p v ++ later) ++ rest) skip
          (sym (length-fill padding off skip))
      ∙ append_assoc (store_value p v) later rest in
    let behind : drop (field_size f) (store_value p v ++ (later ++ rest)) ≡ later ++ rest =
      drop-append (store_value p v) (later ++ rest) (field_size f) (sym (length-store_value p h)) in
    rw at_field (
      ap₂ (λ (a : Value) (b : List Value). a ∷ b) (load_value-store_value p (later ++ rest) h)
        (ap (load_fields (other p) off' fs) behind
          ∙ load_fields-store_fields p padding off' rest hs))

-- What the other side finds in the fields of a struct that was stored: the values with the bytes of
-- each number reversed.
pub load-store :
    (p : Platform) (padding : ℕ → ℕ) {fs : List Field} {vs : List Value}
    → AreValues fs vs
    → load (other p) fs (store p padding fs vs) ≡ map swap_value vs
unfolding load store
load-store p padding {fs} {vs} h =
    load_fields-store_fields p padding 0
      (fill padding (fields_end 0 fs) (gap (struct_align fs) (fields_end 0 fs))) h

swap_value_twice : {f : Field} {v : Value} → IsValue f v → swap_value (swap_value v) ≡ v
unfolding swap_value bswap64 bswap32
swap_value_twice (is_word {v} h) = ap word (omega arith)
swap_value_twice (is_dword {v} h) = ap dword (omega arith)
swap_value_twice (is_array bs h) = refl

sswap-numbers :
    {fs : List Field} {vs : List Value}
    → AreValues fs vs
    → sswap (numbers fs) (map swap_value vs) ≡ vs
unfolding sswap swap_value
sswap-numbers no_values = refl
sswap-numbers (more_values (is_word {v} h) hs) =
    ap₂ (λ (a : Value) (b : List Value). a ∷ b) (swap_value_twice (is_word h)) (sswap-numbers hs)
sswap-numbers (more_values (is_dword {v} h) hs) =
    ap₂ (λ (a : Value) (b : List Value). a ∷ b) (swap_value_twice (is_dword h)) (sswap-numbers hs)
sswap-numbers (more_values (is_array bs h) hs) =
    ap₂ (λ (a : Value) (b : List Value). a ∷ b) (swap_value_twice (is_array bs h))
      (sswap-numbers hs)

-- A struct of values in range that one side stores, with whatever in its gaps, and the other side
-- loads and swaps in all its numbers has the values it had.
pub sswap-load :
    (p : Platform) (padding : ℕ → ℕ) {fs : List Field} {vs : List Value}
    → AreValues fs vs
    → sswap (numbers fs) (load (other p) fs (store p padding fs vs)) ≡ vs
sswap-load p padding h = rw (load-store p padding h) (sswap-numbers h)

-- A stored struct has the size of its type.
length-store_fields :
    (p : Platform) (padding : ℕ → ℕ) (off : ℕ) {fs : List Field} {vs : List Value}
    → AreValues fs vs
    → off + length (store_fields p padding off fs vs) ≡ fields_end off fs
unfolding store_fields fields_end
length-store_fields p padding off no_values = omega arith
length-store_fields p padding off (more_values {f} {v} {fs} {vs} h hs) =
    let skip = gap (align_of f) off in
    let off' = off + skip + field_size f in
    let later = store_fields p padding off' fs vs in
    omega (
      arith,
      length-append (fill padding off skip) (store_value p v ++ later),
      length-append (store_value p v) later,
      length-fill padding off skip,
      length-store_value p h,
      length-store_fields p padding off' hs,
    )

pub length-store :
    (p : Platform) (padding : ℕ → ℕ) {fs : List Field} {vs : List Value}
    → AreValues fs vs
    → length (store p padding fs vs) ≡ size_of fs
unfolding store size_of
length-store p padding {fs} {vs} h =
    let at_end = gap (struct_align fs) (fields_end 0 fs) in
    omega (
      arith,
      length-append (store_fields p padding 0 fs vs) (fill padding (fields_end 0 fs) at_end),
      length-fill padding (fields_end 0 fs) at_end,
      length-store_fields p padding 0 h,
    )

fill-IsBytes :
    (padding : ℕ → ℕ) (off n : ℕ) → ((k : ℕ) → padding k < 256) → IsBytes (fill padding off n)
unfolding fill
fill-IsBytes padding off zero h = tt
fill-IsBytes padding off (suc n) h = (h off, fill-IsBytes padding (off + 1) n h)

store32-IsBytes : (p : Platform) (v : ℕ) → IsBytes (store32 p v)
unfolding store32 split32
store32-IsBytes wii v = (omega arith, (omega arith, (omega arith, (omega arith, tt))))
store32-IsBytes gba v = (omega arith, (omega arith, (omega arith, (omega arith, tt))))

store_value-IsBytes :
    (p : Platform) {f : Field} {v : Value} → IsValue f v → IsBytes (store_value p v)
unfolding store_value store64
store_value-IsBytes p (is_word {v} h) = store32-IsBytes p v
store_value-IsBytes wii (is_dword {v} h) =
    All-append (λ b. b < 256) (store32 wii (v / 2 ^ 32)) (store32 wii (v % 2 ^ 32))
      (store32-IsBytes wii (v / 2 ^ 32)) (store32-IsBytes wii (v % 2 ^ 32))
store_value-IsBytes gba (is_dword {v} h) =
    All-append (λ b. b < 256) (store32 gba (v % 2 ^ 32)) (store32 gba (v / 2 ^ 32))
      (store32-IsBytes gba (v % 2 ^ 32)) (store32-IsBytes gba (v / 2 ^ 32))
store_value-IsBytes p (is_array bs h) = h

module _ (p : Platform) (padding : ℕ → ℕ) (bytes : (k : ℕ) → padding k < 256) where
  store_fields-IsBytes :
      (off : ℕ) {fs : List Field} {vs : List Value}
      → AreValues fs vs
      → IsBytes (store_fields p padding off fs vs)
  unfolding store_fields
  store_fields-IsBytes off no_values = tt
  store_fields-IsBytes off (more_values {f} {v} {fs} {vs} h hs) =
      let skip = gap (align_of f) off in
      let later = store_fields p padding (off + skip + field_size f) fs vs in
      All-append (λ b. b < 256) (fill padding off skip) (store_value p v ++ later)
        (fill-IsBytes padding off skip bytes)
        (All-append (λ b. b < 256) (store_value p v) later (store_value-IsBytes p h)
          (store_fields-IsBytes (off + skip + field_size f) hs))

  pub store-IsBytes :
      {fs : List Field} {vs : List Value} → AreValues fs vs → IsBytes (store p padding fs vs)
  unfolding store
  store-IsBytes {fs} {vs} h =
      All-append (λ b. b < 256) (store_fields p padding 0 fs vs)
        (fill padding (fields_end 0 fs) (gap (struct_align fs) (fields_end 0 fs)))
        (store_fields-IsBytes 0 h)
        (fill-IsBytes padding (fields_end 0 fs) (gap (struct_align fs) (fields_end 0 fs)) bytes)
