-- ===== src/Server/Blocks/Copy.antt =====
-- The copying of `handle_write_request`: the loop over one message.
mod Splice
pub use Splice.{length-splice, get_elem?-splice, IsWhole, file_byte, Written, write_block-Written}
use mathlib.Core.Path.{subst}
use net_bsd_wii_joybus.Base.{
  ℕ, zero, suc, ◌+◌, ◌-◌, ◌/◌, ◌%◌, ◌^◌, ◌≤◌, ◌<◌, min, ◌≡◌, ◌≢◌, refl, ap, ◌∙◌, arith, true,
  Option, none, some, List, ◌++◌, inl, inr, ◌⊎◌, ltb, leb, ◌&&◌, ◌==◌, All, if◌then◌else◌,
  Bool-cases, Option-cases, length, get_elem?, set, take, drop, length-take, length-drop,
  length-append, get_elem?-append_left, get_elem?-append_right, get_elem?-take, get_elem?-drop,
  ==_ne,
}
use net_bsd_wii_joybus.Server.{Block, done}
use net_bsd_wii_joybus.Server.Search.{
  find_index-some, find_index-none, count_if-set, first-set_ne, first-set_self, All-set,
  All-get_elem?,
}
use net_bsd_wii_joybus.Server.Blocks.{is_block, block_fetch, splice, Cursor, write_block, copy_loop}
use net_bsd_wii_joybus.Server.Blocks.Macros.{blocknum-64, blockoff_lem, blockleft_lem}
use net_bsd_wii_joybus.Server.Blocks.Take.{free_count, copies, stored, is_free}

-- What is left of a message, and the write that it belongs to: nothing is left, or it is the rest
-- of the write, or it fills a whole block.
abbrev pub FitsWrite : ℕ → Cursor → Type 0
FitsWrite x c = (x ≡ 0) ⊎ ((x ≡ c.resid) ⊎ ((c.offset % 128 ≡ 0) × (x ≡ 128) × (128 ≤ c.resid)))

-- The blocks for the bytes from `lo` to `hi` are there.
abbrev pub Covers : ℕ → ℕ → ℕ → List Block → Type 0
Covers id lo hi bs = (o : ℕ) → lo ≤ o → o < hi → copies id (o / 128) bs ≢ 0

module _ (id : ℕ) where
  Covers-step :
      (lo lo' hi off n used : ℕ) (buf : List ℕ) (bs bs' : List Block)
      → lo ≤ lo'
      → Written id off n used buf bs bs'
      → Covers id lo hi bs
      → Covers id lo' hi bs'
  Covers-step lo lo' hi off n used buf bs bs' le w cov o h k =
      rw (w.same_copies id (o / 128)) (cov o (omega arith) k)

  Written-empty :
      (off used : ℕ) (buf : List ℕ) (bs : List Block) → IsWhole bs → Written id off 0 used buf bs bs
  Written-empty off used buf bs whole = record {
    bytes = λ o. ground arith;
    others = λ id' j apart. refl;
    same_copies = λ id' j. refl;
    same_free = refl;
    whole = whole;
  }

  -- Two writes, one behind the other.
  Written-join :
      (off n m used : ℕ) (buf : List ℕ) (bs bs' bs'' : List Block)
      → Written id off n used buf bs bs'
      → Written id (off + n) m (used + n) buf bs' bs''
      → Written id off (n + m) used buf bs bs''
  Written-join off n m used buf bs bs' bs'' w w' = record {
    bytes = λ o. ground (arith, w'.bytes o, w.bytes o, same_place o);
    others = λ id' j apart. w'.others id' j apart ∙ w.others id' j apart;
    same_copies = λ id' j. w'.same_copies id' j ∙ w.same_copies id' j;
    same_free = w'.same_free ∙ w.same_free;
    whole = w'.whole;
  }
    where
      same_place :
          (o : ℕ)
          → off + n ≤ o
          → get_elem? buf (used + n + (o - (off + n))) ≡ get_elem? buf (used + (o - off))
      same_place o h = ap (get_elem? buf) (omega arith)

  copy_loop-empty :
      (fuel : ℕ) (buf : List ℕ) (used : ℕ) (c : Cursor) → copy_loop fuel id buf 0 used c ≡ done c
  unfolding copy_loop
  copy_loop-empty zero buf used c = refl
  copy_loop-empty (suc fuel) buf used c = refl

  pub copy_loop-step :
      (fuel : ℕ) (buf : List ℕ) (x used n : ℕ) (c : Cursor) (bs' : List Block)
      → n ≡ min c.resid (128 - c.offset % 128)
      → n ≤ x
      → x ≢ 0
      → x < 2 ^ 32
      → c.offset + n < 2 ^ 39
      → write_block c.blocks (block_fetch id (c.offset / 128) c.blocks) (c.offset % 128) n used buf
        ≡ done bs'
      → copy_loop (suc fuel) id buf x used c
        ≡ copy_loop fuel id buf
            (x - n)
            (used + n)
            (record { offset = c.offset + n; resid = c.resid - n; blocks = bs' })
  unfolding copy_loop
  copy_loop-step fuel buf x used n c bs' is_n le more small room wrote =
      rw
        (
          ==_ne x 0 more,
          blocknum-64 c.offset (omega arith),
          low_block,
          blockoff_lem c.offset,
          blockleft_lem c.offset,
          ← is_n,
          wrote,
          wraps,
          in_range,
        )
        refl
    where
      low_block : c.offset / 128 % 2 ^ 32 ≡ c.offset / 128
      low_block = omega arith

      wraps : (x + 2 ^ 32 - n) % 2 ^ 32 ≡ x - n
      wraps = omega arith

      in_range : (c.offset + n) % 2 ^ 64 ≡ c.offset + n
      in_range = omega arith

  cursor_path :
      (c : Cursor)
      → done c ≡ done (record { offset = c.offset + 0; resid = c.resid - 0; blocks = c.blocks })
  cursor_path c = ground arith

  copy_loop-then :
      (fuel : ℕ) (buf : List ℕ) (x used n : ℕ) (c : Cursor) (bs' : List Block)
      → n ≡ min c.resid (128 - c.offset % 128)
      → n ≤ x
      → x ≢ 0
      → x < 2 ^ 32
      → c.offset + n < 2 ^ 39
      → write_block c.blocks (block_fetch id (c.offset / 128) c.blocks) (c.offset % 128) n used buf
        ≡ done bs'
      → Written id c.offset n used buf c.blocks bs'
      → (bs'' : List Block) × (copy_loop fuel id buf
            (x - n)
            (used + n)
            (record { offset = c.offset + n; resid = c.resid - n; blocks = bs' })
          ≡ done (record {
            offset = c.offset + n + (x - n);
            resid = c.resid - n - (x - n);
            blocks = bs'';
          }))
        × Written id (c.offset + n) (x - n) (used + n) buf bs' bs''
      → (bs'' : List Block) × (copy_loop (suc fuel) id buf x used c
          ≡ done (record { offset = c.offset + x; resid = c.resid - x; blocks = bs'' }))
        × Written id c.offset x used buf c.blocks bs''
  copy_loop-then fuel buf x used n c bs' is_n le more small room wrote w (bs'', ran, w') =
      let total : n + (x - n) ≡ x = omega arith in
      (
        bs'',
        copy_loop-step fuel buf x used n c bs' is_n le more small room wrote ∙ ran ∙ ground arith,
        subst (λ t. Written id c.offset t used buf c.blocks bs'') total
            (Written-join c.offset n (x - n) used buf c.blocks bs' bs'' w w'),
      )

  pub copy_loop-Written :
      (fuel : ℕ) (buf : List ℕ) (x used : ℕ) (c : Cursor)
      → x ≤ fuel
      → length buf ≡ 128
      → used + x ≤ 128
      → FitsWrite x c
      → c.offset + x < 2 ^ 39
      → IsWhole c.blocks
      → Covers id c.offset (c.offset + x) c.blocks
      → (bs' : List Block) × (copy_loop fuel id buf x used c
          ≡ done (record { offset = c.offset + x; resid = c.resid - x; blocks = bs' }))
        × Written id c.offset x used buf c.blocks bs'
  copy_loop-Written fuel buf zero used c le size room fits small whole cov = (
    c.blocks,
    copy_loop-empty fuel buf used c ∙ cursor_path c,
    Written-empty c.offset used buf c.blocks whole,
  )
  copy_loop-Written zero buf (suc x) used c le size room fits small whole cov = absurd (omega arith)
  copy_loop-Written (suc fuel) buf (suc x) used c le size room fits small whole cov =
      let n = min c.resid (128 - c.offset % 128) in
      let pos : 1 ≤ n = ground (arith, fits) in
      let le_x : n ≤ suc x = ground (arith, fits) in
      let (bs', wrote, w) =
        write_block-Written id c.offset n used buf c.blocks whole (omega arith)
          (omega (arith, size)) (omega (arith, size)) (cov c.offset (omega arith) (omega arith)) in
      let c' : Cursor = record { offset = c.offset + n; resid = c.resid - n; blocks = bs' } in
      let later =
        copy_loop-Written fuel buf (suc x - n) (used + n) c' (omega arith) size (omega arith)
          (ground (arith, fits)) (omega arith) w.whole
          (Covers-step c.offset (c.offset + n) (c.offset + n + (suc x - n)) c.offset n used buf
            c.blocks bs' (omega arith) w (λ o lo hi. cov o lo (omega arith))) in
      copy_loop-then fuel buf (suc x) used n c bs' refl le_x (omega arith) (omega arith)
        (omega arith) wrote w later
