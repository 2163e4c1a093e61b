-- ===== src/Server/Blocks/Take.antt =====
-- The loop of `entry_setsize` that takes free blocks.
use net_bsd_wii_joybus.Base.{
  ℕ, zero, suc, ◌+◌, ◌-◌, ◌≤◌, ◌<◌, min, ◌≡◌, ◌≢◌, refl, arith, Bool, Option, some, List,
  if◌then◌else◌, get_elem?, set, of_bool, Option-cases, inl, inr, ◌⊎◌, ltb, leb, ◌==◌, ◌&&◌, ==_iff,
}
use net_bsd_wii_joybus.Server.{Block, count_if}
use net_bsd_wii_joybus.Server.Search.{
  first, find_index-some, find_index-none, count_if-set, first-set_ne, first-set_new,
}
use net_bsd_wii_joybus.Server.Blocks.{is_block, block_free, take_blocks, blank}

abbrev pub is_free : Block → Bool
is_free b = b.va_fileid == 0

abbrev pub free_count : List Block → ℕ
free_count bs = count_if is_free bs

-- How many blocks are block `j` of a file.
abbrev pub copies : ℕ → ℕ → List Block → ℕ
copies id j bs = count_if (is_block id j) bs

-- The block that `BLOCKFETCH` finds.
abbrev pub stored : ℕ → ℕ → List Block → Option Block
stored id j bs = first (is_block id j) bs

abbrev pub taken : ℕ → ℕ → Block
taken id i = record { va_fileid = id; idx = i; bytes = blank }

-- What the loop does, round by round: it stops early when no block is free.
module _ {ℓ} (id : ℕ) (P : ℕ → ℕ → List Block → ℕ × List Block → Type ℓ) where
  pub take_blocks_induction :
      ((i : ℕ) (bs : List Block) → P 0 i bs (0, bs))
      → ((left i : ℕ) (bs : List Block) → free_count bs ≡ 0 → P (suc left) i bs (2, bs))
      → ((left i k : ℕ) (bs : List Block) (b : Block) (r : ℕ × List Block)
          → get_elem? bs k ≡ some b
          → b.va_fileid ≡ 0
          → P left (i + 1) (set bs k (taken id i)) r
          → P (suc left) i bs r)
      → (left i : ℕ) (bs : List Block) → P left i bs (take_blocks id left i bs)
  unfolding take_blocks block_free
  take_blocks_induction stop out step zero i bs = stop i bs
  take_blocks_induction stop out step (suc left) i bs = elim (Option-cases (block_free bs)) [
    | inl e ↦ rw (e, take_blocks) (out left i bs (find_index-none is_free bs e))
    | inr (k, e) ↦
        let (b, got, free, _) = find_index-some is_free bs e in
        rw (e, take_blocks)
          (step left i k bs b (take_blocks id left (i + 1) (set bs k (taken id i))) got
            ((==_iff b.va_fileid 0).0 free)
            (take_blocks_induction stop out step left (i + 1) (set bs k (taken id i))))
  ]

module _ (id : ℕ) (pos : id ≢ 0) where
  pub take_blocks-free :
      (left i : ℕ) (bs : List Block)
      → free_count (take_blocks id left i bs).1 ≡ free_count bs - left
  take_blocks-free =
      take_blocks_induction id (λ left i bs r. free_count r.1 ≡ free_count bs - left)
        (λ i bs. omega arith) (λ left i bs none_left. omega arith)
        (λ left i k bs b r got free ih.
          ground (arith, count_if-set is_free bs k b (taken id i) got))

  pub take_blocks-err :
      (left i : ℕ) (bs : List Block)
      → (take_blocks id left i bs).0 ≡ (if leb left (free_count bs) then 0 else 2)
  take_blocks-err =
      take_blocks_induction id (λ left i bs r. r.0 ≡ (if leb left (free_count bs) then 0 else 2))
        (λ i bs. ground arith) (λ left i bs none_left. ground arith)
        (λ left i k bs b r got free ih.
          ground (arith, count_if-set is_free bs k b (taken id i) got))

  pub take_blocks-copies :
      (j left i : ℕ) (bs : List Block)
      → copies id j (take_blocks id left i bs).1
        ≡ copies id j bs + of_bool (leb i j && ltb j (i + min left (free_count bs)))
  take_blocks-copies j =
      take_blocks_induction id
        (λ left i bs r.
          copies id j r.1
          ≡ copies id j bs + of_bool (leb i j && ltb j (i + min left (free_count bs))))
        (λ i bs. ground arith) (λ left i bs none_left. ground arith)
        (λ left i k bs b r got free ih. ground (
          arith,
          count_if-set is_free bs k b (taken id i) got,
          count_if-set (is_block id j) bs k b (taken id i) got,
        ))

  -- No other block of this file, and no block of another file, changes.
  pub take_blocks-stored_ne :
      (id' j left i : ℕ) (bs : List Block)
      → id' ≢ 0
      → (id' ≢ id) ⊎ (j < i)
      → stored id' j (take_blocks id left i bs).1 ≡ stored id' j bs
  take_blocks-stored_ne id' j left i bs pos' =
      take_blocks_induction id
        (λ left i bs r. (id' ≢ id) ⊎ (j < i) → stored id' j r.1 ≡ stored id' j bs)
        (λ i bs apart. refl) (λ left i bs none_left apart. refl)
        (λ left i k bs b r got free ih apart.
          ground (arith, ih, first-set_ne (is_block id' j) bs k b (taken id i) got))
        left i bs

  abbrev Fills : ℕ → ℕ → ℕ → List Block → ℕ × List Block → Type 0
  Fills j left i bs r =
      (copies id j bs ≡ 0
        → i ≤ j
        → j < i + left
        → left ≤ free_count bs
        → stored id j r.1 ≡ some (taken id j))
      × (j < i → stored id j r.1 ≡ stored id j bs)

  take_blocks-Fills :
      (j left i : ℕ) (bs : List Block) → Fills j left i bs (take_blocks id left i bs)
  take_blocks-Fills j =
      take_blocks_induction id (Fills j)
        (λ i bs. ((λ fresh lo hi room. absurd (omega arith)), λ below. refl))
        (λ left i bs none_left. ((λ fresh lo hi room. absurd (omega arith)), λ below. refl))
        (λ left i k bs b r got free ih. (
          (λ fresh lo hi room. ground (
            arith,
            ih.0,
            ih.1,
            count_if-set is_free bs k b (taken id i) got,
            count_if-set (is_block id j) bs k b (taken id i) got,
            first-set_new (is_block id j) bs k b (taken id i) got fresh,
          )),
          λ below. ground (arith, ih.1, first-set_ne (is_block id j) bs k b (taken id i) got),
        ))

  -- The blocks that the loop takes are blank.
  pub take_blocks-stored_new :
      (j left i : ℕ) (bs : List Block)
      → copies id j bs ≡ 0
      → i ≤ j
      → j < i + left
      → left ≤ free_count bs
      → stored id j (take_blocks id left i bs).1 ≡ some (taken id j)
  take_blocks-stored_new j left i bs = (take_blocks-Fills j left i bs).0
