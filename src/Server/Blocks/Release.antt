-- ===== src/Server/Blocks/Release.antt =====
-- The loop of `entry_setsize` that gives blocks back.
use net_bsd_wii_joybus.Base.{
  ℕ, zero, suc, ◌+◌, ◌≤◌, ◌<◌, ◌≡◌, ◌≢◌, refl, arith, Option-cases, List, get_elem?, set, of_bool,
  inl, inr, ◌⊎◌, ltb, leb, ◌&&◌, some, true,
}
use net_bsd_wii_joybus.Server.{Block}
use net_bsd_wii_joybus.Server.Search.{find_index-some, find_index-none, count_if-set, first-set_ne}
use net_bsd_wii_joybus.Server.Blocks.{is_block, block_fetch, release_blocks, blank}
use net_bsd_wii_joybus.Server.Blocks.Take.{is_free, free_count, copies, stored}

abbrev pub released : Block
released = record { va_fileid = 0; idx = 0; bytes = blank }

-- What the loop does, round by round: it stops early at a block that the file does not have.
module _ {ℓ} (id : ℕ) (P : ℕ → ℕ → List Block → ℕ × List Block → Type ℓ) where
  pub release_blocks_induction :
      ((i : ℕ) (bs : List Block) → P 0 i bs (0, bs))
      → ((left i : ℕ) (bs : List Block) → copies id i bs ≡ 0 → P (suc left) i bs (1, bs))
      → ((left i k : ℕ) (bs : List Block) (b : Block) (r : ℕ × List Block)
          → get_elem? bs k ≡ some b
          → is_block id i b ≡ true
          → P left (i + 1) (set bs k released) r
          → P (suc left) i bs r)
      → (left i : ℕ) (bs : List Block) → P left i bs (release_blocks id left i bs)
  unfolding release_blocks block_fetch
  release_blocks_induction stop out step zero i bs = stop i bs
  release_blocks_induction stop out step (suc left) i bs =
      elim (Option-cases (block_fetch id i bs)) [
        | inl e ↦ rw (e, release_blocks) (out left i bs (find_index-none (is_block id i) bs e))
        | inr (k, e) ↦
            let (b, got, mine, _) = find_index-some (is_block id i) bs e in
            rw (e, release_blocks)
              (step left i k bs b (release_blocks id left (i + 1) (set bs k released)) got mine
                (release_blocks_induction stop out step left (i + 1) (set bs k released)))
      ]

-- The file has exactly one of each block from `i` on, for `left` blocks.
abbrev pub HasEach : ℕ → ℕ → ℕ → List Block → Type 0
HasEach id left i bs = (j : ℕ) → i ≤ j → j < i + left → copies id j bs ≡ 1

module _ (id : ℕ) (pos : id ≢ 0) where
  HasEach-set :
      (left i k : ℕ) (bs : List Block) (b : Block)
      → get_elem? bs k ≡ some b
      → is_block id i b ≡ true
      → HasEach id (suc left) i bs
      → HasEach id left (i + 1) (set bs k released)
  HasEach-set left i k bs b got mine has j lo hi =
      ground (arith, has j, count_if-set (is_block id j) bs k b released got)

  -- With each of the blocks there, the loop runs to its end and frees them.
  abbrev Frees : ℕ → ℕ → List Block → ℕ × List Block → Type 0
  Frees left i bs r = HasEach id left i bs → (r.0 ≡ 0) × (free_count r.1 ≡ free_count bs + left)

  pub release_blocks-Frees :
      (left i : ℕ) (bs : List Block) → Frees left i bs (release_blocks id left i bs)
  release_blocks-Frees =
      release_blocks_induction id Frees (λ i bs has. (refl, omega arith))
        (λ left i bs missing has. absurd (omega (arith, has i (omega arith) (omega arith))))
        (λ left i k bs b r got mine ih has.
          let (ok, more) = ih (HasEach-set left i k bs b got mine has) in
          (ok, ground (arith, count_if-set is_free bs k b released got)))

  pub release_blocks-copies :
      (j left i : ℕ) (bs : List Block)
      → HasEach id left i bs
      → copies id j (release_blocks id left i bs).1 + of_bool (leb i j && ltb j (i + left))
        ≡ copies id j bs
  release_blocks-copies j =
      release_blocks_induction id
        (λ left i bs r.
          HasEach id left i bs
          → copies id j r.1 + of_bool (leb i j && ltb j (i + left)) ≡ copies id j bs)
        (λ i bs has. ground arith)
        (λ left i bs missing has. absurd (omega (arith, has i (omega arith) (omega arith))))
        (λ left i k bs b r got mine ih has. ground (
          arith,
          ih (HasEach-set left i k bs b got mine has),
          count_if-set (is_block id j) bs k b released got,
        ))

  -- No block before `i` of this file, and no block of another file, changes.
  pub release_blocks-stored_ne :
      (id' j left i : ℕ) (bs : List Block)
      → id' ≢ 0
      → (id' ≢ id) ⊎ (j < i)
      → stored id' j (release_blocks id left i bs).1 ≡ stored id' j bs
  release_blocks-stored_ne id' j left i bs pos' =
      release_blocks_induction id
        (λ left i bs r. (id' ≢ id) ⊎ (j < i) → stored id' j r.1 ≡ stored id' j bs)
        (λ i bs apart. refl) (λ left i bs missing apart. refl)
        (λ left i k bs b r got mine ih apart.
          ground (arith, ih, first-set_ne (is_block id' j) bs k b released got))
        left i bs
