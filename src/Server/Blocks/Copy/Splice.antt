-- ===== src/Server/Blocks/Copy/Splice.antt =====
-- One `memcpy` of `handle_write_request` into a block, and what it does to the file's bytes.
use net_bsd_wii_joybus.Base.{
  ℕ, ◌+◌, ◌-◌, ◌/◌, ◌%◌, ◌≤◌, ◌≡◌, ◌≢◌, ◌∙◌, arith, true, Option, none, some, List, ◌++◌, inl, inr,
  ltb, leb, ◌&&◌, ◌==◌, All, if◌then◌else◌, Bool-cases, Option-cases, length, get_elem?, set, take,
  drop, length-take, length-drop, length-append, get_elem?-append_left, get_elem?-append_right,
  get_elem?-take, get_elem?-drop,
}
use net_bsd_wii_joybus.Server.{Block, done}
use net_bsd_wii_joybus.Server.Search.{
  find_index-some, find_index-none, count_if-set, first-set_ne, first-set_self, All-set,
  All-get_elem?,
}
use net_bsd_wii_joybus.Server.Blocks.{is_block, block_fetch, splice, write_block}
use net_bsd_wii_joybus.Server.Blocks.Take.{free_count, copies, stored, is_free}

pub length-splice :
    (dest : List ℕ) (off n : ℕ) (src : List ℕ)
    → off + n ≤ length dest
    → n ≤ length src
    → length (splice dest off n src) ≡ length dest
length-splice dest off n src h k = omega (
  arith,
  length-append (take off dest) (take n src ++ drop (off + n) dest),
  length-append (take n src) (drop (off + n) dest),
  length-take off dest,
  length-take n src,
  length-drop (off + n) dest,
)

pub get_elem?-splice :
    (dest : List ℕ) (off n : ℕ) (src : List ℕ) (j : ℕ)
    → off + n ≤ length dest
    → n ≤ length src
    → get_elem? (splice dest off n src) j
      ≡ (if leb off j && ltb j (off + n) then get_elem? src (j - off) else get_elem? dest j)
get_elem?-splice dest off n src j h k = ground (
  arith,
  get_elem?-append_left (take off dest) (take n src ++ drop (off + n) dest) j,
  get_elem?-append_right (take off dest) (take n src ++ drop (off + n) dest) (j - off),
  get_elem?-append_left (take n src) (drop (off + n) dest) (j - off),
  get_elem?-append_right (take n src) (drop (off + n) dest) (j - off - n),
  get_elem?-take off dest j,
  get_elem?-take n src (j - off),
  get_elem?-drop (off + n) dest (j - off - n),
  length-take off dest,
  length-take n src,
)

abbrev pub IsWhole : List Block → Type 0
IsWhole = All (λ b. length b.bytes ≡ 128)

abbrev pub byte_of : Option Block → ℕ → Option ℕ
byte_of none j = none
byte_of (some b) j = get_elem? b.bytes j

-- Byte `o` of a file.
abbrev pub file_byte : ℕ → ℕ → List Block → Option ℕ
file_byte id o bs = byte_of (stored id (o / 128) bs) (o % 128)

-- The `n` bytes of the file from `off` on are those of `buf` from `used` on, and nothing else is
-- different.
pub record Written (id off n used : ℕ) (buf : List ℕ) (bs bs' : List Block) : Type 0 where
  pub bytes :
      (o : ℕ)
      → file_byte id o bs' ≡ (
          if leb off o && ltb o (off + n)
          then get_elem? buf (used + (o - off))
          else file_byte id o bs)
  pub others : (id' j : ℕ) → id' ≢ id → stored id' j bs' ≡ stored id' j bs
  pub same_copies : (id' j : ℕ) → copies id' j bs' ≡ copies id' j bs
  pub same_free : free_count bs' ≡ free_count bs
  pub whole : IsWhole bs'

module _ (id off n used : ℕ) (buf : List ℕ) (bs : List Block) (whole : IsWhole bs)
    (in_block : off % 128 + n ≤ 128) (in_buf : used + n ≤ length buf) where
  written : Block → Block
  written b = record b { bytes = splice b.bytes (off % 128) n (drop used buf) }

  set-Written :
      (k : ℕ) (b : Block)
      → block_fetch id (off / 128) bs ≡ some k
      → get_elem? bs k ≡ some b
      → is_block id (off / 128) b ≡ true
      → stored id (off / 128) bs ≡ some b
      → Written id off n used buf bs (set bs k (written b))
  unfolding written block_fetch
  set-Written k b found got mine now = record {
    bytes = λ o. elim (Bool-cases (o / 128 == off / 128)) [
      | inl same ↦
          let at_off : o / 128 ≡ off / 128 = ground arith in
          rw (at_off, first-set_self (is_block id (off / 128)) bs (written b) found mine, now)
            (ground (
              arith,
              get_elem?-splice b.bytes (off % 128) n (drop used buf) (o % 128) here there,
              get_elem?-drop used buf (o % 128 - off % 128),
            ))
      | inr apart ↦ ground (arith, first-set_ne (is_block id (o / 128)) bs k b (written b) got)
    ];
    others = λ id' j apart. ground (arith, first-set_ne (is_block id' j) bs k b (written b) got);
    same_copies = λ id' j. ground (arith, count_if-set (is_block id' j) bs k b (written b) got);
    same_free = ground (arith, count_if-set is_free bs k b (written b) got);
    whole =
        All-set (λ b. length b.bytes ≡ 128) bs k (written b) whole
          (length-splice b.bytes (off % 128) n (drop used buf) here there ∙ size);
  }
    where
      size : length b.bytes ≡ 128
      size = All-get_elem? (λ b. length b.bytes ≡ 128) bs k whole got

      here : off % 128 + n ≤ length b.bytes
      here = omega (arith, size)

      there : n ≤ length (drop used buf)
      there = omega (arith, length-drop used buf)

  write_block-done :
      (k : ℕ) (b : Block)
      → get_elem? bs k ≡ some b
      → length buf ≤ 128
      → write_block bs (some k) (off % 128) n used buf ≡ done (set bs k (written b))
  unfolding write_block written
  write_block-done k b got short = ground (arith, got)

  pub write_block-Written :
      length buf ≤ 128
      → copies id (off / 128) bs ≢ 0
      → (bs' : List Block) × (write_block bs (block_fetch id (off / 128) bs) (off % 128) n used buf
          ≡ done bs')
        × Written id off n used buf bs bs'
  unfolding block_fetch
  write_block-Written short present = elim (Option-cases (block_fetch id (off / 128) bs)) [
    | inl e ↦ absurd (present (find_index-none (is_block id (off / 128)) bs e))
    | inr (k, e) ↦
        let (b, got, mine, now) = find_index-some (is_block id (off / 128)) bs e in
        (
          set bs k (written b),
          rw e (write_block-done k b got short),
          set-Written k b e got mine now,
        )
  ]
