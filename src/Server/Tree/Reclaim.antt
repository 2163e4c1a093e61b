-- ===== src/Server/Tree/Reclaim.antt =====
-- `entry_reclaim`: the entries and the blocks that it clears.
use net_bsd_wii_joybus.Base.{
  ℕ, zero, suc, ◌+◌, ◌≡◌, ◌≢◌, refl, arith, some, List, [], ◌∷◌, get_elem?,
}
use net_bsd_wii_joybus.Server.{Entry, Block, State, done}
use net_bsd_wii_joybus.Server.Blocks.Take.{copies, free_count}
use net_bsd_wii_joybus.Server.Tree.{clear_entries, clear_blocks, entry_reclaim}

clear_entries-at :
    (i k m : ℕ) (es : List Entry) (ent : Entry)
    → k + m ≡ i
    → get_elem? es m ≡ some ent
    → get_elem? (clear_entries i k ent.va_fileid es) m ≡ some (record ent { va_fileid = 0 })
unfolding clear_entries
clear_entries-at i k m [] ent e got = absurd (ground arith)
clear_entries-at i k zero (x ∷ es) ent e got = ground arith
clear_entries-at i k (suc m) (x ∷ es) ent e got =
    ground (arith, clear_entries-at i (k + 1) m es ent)

clear_blocks-copies :
    (id j : ℕ) (bs : List Block) → id ≢ 0 → copies id j (clear_blocks 0 bs) ≡ copies id j bs
unfolding clear_blocks
clear_blocks-copies id j [] pos = refl
clear_blocks-copies id j (b ∷ bs) pos = ground (arith, clear_blocks-copies id j bs)

clear_blocks-free : (bs : List Block) → free_count (clear_blocks 0 bs) ≡ free_count bs
unfolding clear_blocks
clear_blocks-free [] = refl
clear_blocks-free (b ∷ bs) = ground (arith, clear_blocks-free bs)

-- Reclaiming an entry clears its id, but every file keeps its blocks, the reclaimed one too, and no
-- block becomes free: the loop over the blocks compares with the id that has just been cleared.
pub entry_reclaim-leaks :
    (i : ℕ) (s : State) (ent : Entry)
    → get_elem? s.entries i ≡ some ent
    → (s' : State) × (entry_reclaim i s ≡ done s')
      × (get_elem? s'.entries i ≡ some (record ent { va_fileid = 0 }))
      × ((id j : ℕ) → id ≢ 0 → copies id j s'.blocks ≡ copies id j s.blocks)
      × (free_count s'.blocks ≡ free_count s.blocks)
unfolding entry_reclaim
entry_reclaim-leaks i s ent got =
    let cleared = clear_entries-at i 0 i s.entries ent (omega arith) got in
    (
      record s {
        entries = clear_entries i 0 ent.va_fileid s.entries;
        blocks = clear_blocks 0 s.blocks;
      },
      ground (arith, got, cleared),
      cleared,
      (λ id j pos. clear_blocks-copies id j s.blocks pos),
      clear_blocks-free s.blocks,
    )
