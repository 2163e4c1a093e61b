-- ===== src/Server/Blocks/Setsize.antt =====
-- `entry_setsize` on a file in a good state.
use net_bsd_wii_joybus.Base.{
  ℕ, zero, suc, ◌+◌, ◌-◌, ◌/◌, ◌^◌, ◌≤◌, ◌<◌, ◌≡◌, ◌≢◌, refl, arith, List, of_bool, inl, inr, ◌⊎◌,
  ltb, some, sym, lt_or_eq_or_gt,
}
use net_bsd_wii_joybus.Server.{Entry, Block}
use net_bsd_wii_joybus.Server.Blocks.{
  blocknum, resize_blocks, take_blocks, release_blocks, with_size, entry_setsize,
}
use net_bsd_wii_joybus.Server.Blocks.Macros.{roundup_lem, blocknum-32}
use net_bsd_wii_joybus.Server.Blocks.Take.{
  free_count, copies, stored, taken, take_blocks-free, take_blocks-err, take_blocks-copies,
  take_blocks-stored_ne, take_blocks-stored_new,
}
use net_bsd_wii_joybus.Server.Blocks.Release.{
  HasEach, release_blocks-Frees, release_blocks-copies, release_blocks-stored_ne,
}

-- Exactly the blocks below `n` are there, each of them once.
abbrev pub Owns : ℕ → ℕ → List Block → Type 0
Owns id n bs = (j : ℕ) → copies id j bs ≡ of_bool (ltb j n)

-- A file in a good state: an id, a length known in two places, and the blocks for that length.
pub record IsFile (ent : Entry) (bs : List Block) : Type 0 where
  pub has_id : ent.va_fileid ≢ 0
  pub same_size : ent.va_size ≡ ent.file.datalen
  pub fits : ent.file.datalen < 2 ^ 32
  pub enough :
      ((ent.file.datalen ≡ 0) × (ent.file.numblocks ≡ 0))
      ⊎ (ent.file.numblocks ≡ ent.file.datalen / 128 + 1)
  pub owns : Owns ent.va_fileid ent.file.numblocks bs

-- The blocks for a length that was set.
abbrev pub blocks_for : ℕ → ℕ
blocks_for size = size / 128 + 1

-- The entry after a call that succeeds.
abbrev pub sized : Entry → ℕ → Entry
sized ent newsize =
    with_size ent newsize (record { numblocks = blocks_for newsize; datalen = newsize })

take_blocks-zero : (id left i : ℕ) (bs : List Block) → left ≡ 0 → take_blocks id left i bs ≡ (0, bs)
unfolding take_blocks
take_blocks-zero id zero i bs h = refl
take_blocks-zero id (suc left) i bs h = absurd (omega arith)

module _ (ent : Entry) (bs : List Block) (v : IsFile ent bs) (newsize : ℕ)
    (small : newsize < 2 ^ 32) where
  abbrev n : ℕ
  n = ent.file.numblocks

  abbrev grown : ℕ × List Block
  grown = take_blocks ent.va_fileid (blocks_for newsize - n) n bs

  abbrev shrunk : ℕ × List Block
  shrunk = release_blocks ent.va_fileid (n - blocks_for newsize) (blocks_for newsize) bs

  entry_setsize-grow :
      ent.va_size < newsize
      → blocks_for newsize - n ≤ free_count bs
      → entry_setsize ent newsize bs ≡ (0, sized ent newsize, grown.1)
  unfolding entry_setsize resize_blocks
  entry_setsize-grow more room = ground (
    arith,
    roundup_lem ent.file.datalen,
    blocknum-32 newsize small,
    v.same_size,
    take_blocks-err ent.va_fileid v.has_id (blocks_for newsize - n) n bs,
  )

  entry_setsize-shrink :
      newsize < ent.va_size
      → HasEach ent.va_fileid (n - blocks_for newsize) (blocks_for newsize) bs
      → entry_setsize ent newsize bs ≡ (0, sized ent newsize, shrunk.1)
  unfolding entry_setsize resize_blocks
  entry_setsize-shrink less has = ground (
    arith,
    blocknum-32 newsize small,
    release_blocks-Frees ent.va_fileid v.has_id (n - blocks_for newsize) (blocks_for newsize) bs,
  )

  -- The same length again: the entry's file and the blocks stay.
  entry_setsize-same :
      newsize ≡ ent.va_size
      → entry_setsize ent newsize bs
        ≡ (0, with_size ent newsize (record { numblocks = n; datalen = newsize }), bs)
  unfolding entry_setsize resize_blocks
  entry_setsize-same same = ground (
    arith,
    roundup_lem ent.file.datalen,
    blocknum-32 newsize small,
    v.same_size,
    v.enough,
    take_blocks-zero ent.va_fileid (blocks_for newsize - n) n bs,
  )

  -- Without room the call fails, and the entry is as before.
  entry_setsize-fail :
      ent.va_size < newsize
      → free_count bs < blocks_for newsize - n
      → entry_setsize ent newsize bs ≡ (2, ent, grown.1)
  unfolding entry_setsize resize_blocks
  entry_setsize-fail more full = ground (
    arith,
    roundup_lem ent.file.datalen,
    blocknum-32 newsize small,
    v.same_size,
    take_blocks-err ent.va_fileid v.has_id (blocks_for newsize - n) n bs,
  )

  shrunk-has :
      newsize < ent.va_size → HasEach ent.va_fileid (n - blocks_for newsize) (blocks_for newsize) bs
  shrunk-has less j lo hi = ground (arith, v.owns j)

  -- What a successful call gives: the file in a good state at its new length, and its blocks taken
  -- from the free ones or given back to them.
  abbrev pub Resized : ℕ × Entry × List Block → Type 0
  Resized r =
      (r.0 ≡ 0)
      × IsFile r.1 r.2
      × (r.1.va_size ≡ newsize)
      × (free_count r.2 + r.1.file.numblocks ≡ free_count bs + n)

  grow-Resized :
      ent.va_size < newsize
      → blocks_for newsize - n ≤ free_count bs
      → Resized (0, sized ent newsize, grown.1)
  grow-Resized more room = (
    refl,
    record {
      has_id = v.has_id;
      same_size = refl;
      fits = small;
      enough = inr refl;
      owns = λ j. ground (
        arith,
        v.owns j,
        v.enough,
        v.same_size,
        take_blocks-copies ent.va_fileid v.has_id j (blocks_for newsize - n) n bs,
      );
    },
    refl,
    ground (
      arith,
      v.enough,
      v.same_size,
      take_blocks-free ent.va_fileid v.has_id (blocks_for newsize - n) n bs,
    ),
  )

  shrink-Resized : newsize < ent.va_size → Resized (0, sized ent newsize, shrunk.1)
  shrink-Resized less = (
    refl,
    record {
      has_id = v.has_id;
      same_size = refl;
      fits = small;
      enough = inr refl;
      owns = λ j. ground (
        arith,
        v.owns j,
        v.enough,
        v.same_size,
        release_blocks-copies ent.va_fileid v.has_id j (n - blocks_for newsize) (blocks_for newsize)
            bs (shrunk-has less),
      );
    },
    refl,
    ground (
      arith,
      v.enough,
      v.same_size,
      release_blocks-Frees ent.va_fileid v.has_id (n - blocks_for newsize) (blocks_for newsize) bs
          (shrunk-has less),
    ),
  )

  same-Resized :
      newsize ≡ ent.va_size
      → Resized (0, with_size ent newsize (record { numblocks = n; datalen = newsize }), bs)
  same-Resized same = (
    refl,
    record {
      has_id = v.has_id;
      same_size = refl;
      fits = small;
      enough = ground (arith, v.enough, v.same_size);
      owns = v.owns;
    },
    refl,
    refl,
  )

  -- `entry_setsize` of a file in a good state to a length below 2 ^ 32, with enough free blocks
  -- where it grows: it succeeds, the file is in a good state again (its two lengths agree, and it
  -- has exactly the blocks for its length, each once), its length is the new one, and as many
  -- blocks are free as before, less those that it took, plus those that it gave back.
  pub entry_setsize-Resized :
      blocks_for newsize - n ≤ free_count bs → Resized (entry_setsize ent newsize bs)
  entry_setsize-Resized room = elim (lt_or_eq_or_gt ent.va_size newsize) [
    | inl more ↦ rw (entry_setsize-grow more room) (grow-Resized more room)
    | inr (inl same) ↦ rw (entry_setsize-same (sym same)) (same-Resized (sym same))
    | inr (inr less) ↦ rw (entry_setsize-shrink less (shrunk-has less)) (shrink-Resized less)
  ]

  -- `entry_setsize` of a file in a good state to a length below 2 ^ 32, whatever its outcome: the
  -- blocks of every other file stay as they are.
  pub entry_setsize-stored :
      (id' j : ℕ)
      → id' ≢ 0
      → id' ≢ ent.va_fileid
      → stored id' j (entry_setsize ent newsize bs).2 ≡ stored id' j bs
  unfolding entry_setsize resize_blocks
  entry_setsize-stored id' j pos' apart = ground (
    arith,
    take_blocks-stored_ne ent.va_fileid v.has_id id' j (blocknum 32 newsize + 1 - n) n bs pos'
        (inl apart),
    release_blocks-stored_ne ent.va_fileid v.has_id id' j (n - (blocknum 32 newsize + 1))
        (blocknum 32 newsize + 1) bs pos' (inl apart),
  )

  -- `entry_setsize` of a file in a good state to a greater length below 2 ^ 32, with enough free
  -- blocks: the blocks that the file had stay as they are, and its new ones are blank.
  pub entry_setsize-keeps :
      ent.va_size < newsize
      → blocks_for newsize - n ≤ free_count bs
      → ((j : ℕ)
          → j < n
          → stored ent.va_fileid j (entry_setsize ent newsize bs).2 ≡ stored ent.va_fileid j bs)
        × ((j : ℕ)
            → n ≤ j
            → j < blocks_for newsize
            → stored ent.va_fileid j (entry_setsize ent newsize bs).2
              ≡ some (taken ent.va_fileid j))
  entry_setsize-keeps more room = rw (entry_setsize-grow more room) (
    (λ j below.
        take_blocks-stored_ne ent.va_fileid v.has_id ent.va_fileid j (blocks_for newsize - n) n bs
          v.has_id (inr below)),
    λ j lo hi.
        take_blocks-stored_new ent.va_fileid v.has_id j (blocks_for newsize - n) n bs
          (ground (arith, v.owns j)) lo (omega arith) room,
  )

  -- `entry_setsize` of a file in a good state to a greater length below 2 ^ 32, for which too few
  -- blocks are free: it fails with `ENOBLOCKSFREE` and leaves the entry as it was, but every block
  -- that was free carries the file's id by then, and none is free any more.
  pub entry_setsize-leaks :
      ent.va_size < newsize
      → free_count bs < blocks_for newsize - n
      → ((entry_setsize ent newsize bs).0 ≡ 2)
        × ((entry_setsize ent newsize bs).1 ≡ ent)
        × (free_count (entry_setsize ent newsize bs).2 ≡ 0)
        × ((j : ℕ)
            → copies ent.va_fileid j (entry_setsize ent newsize bs).2
              ≡ of_bool (ltb j (n + free_count bs)))
  entry_setsize-leaks more full = rw (entry_setsize-fail more full) (
    refl,
    refl,
    omega (arith, take_blocks-free ent.va_fileid v.has_id (blocks_for newsize - n) n bs),
    λ j. ground (
      arith,
      v.owns j,
      take_blocks-copies ent.va_fileid v.has_id j (blocks_for newsize - n) n bs,
    ),
  )
