-- ===== src/Server/Safe/Blocks.antt =====
-- The operations on the data blocks keep their number and the size of each.
use net_bsd_wii_joybus.Base.{
  ℕ, zero, suc, ◌+◌, ◌-◌, ◌%◌, ◌^◌, ◌≤◌, ◌≡◌, refl, ◌∙◌, arith, Bool, true, false, Option, none,
  some, List, [], ◌∷◌, ◌==◌, ◌||◌, ltb, if◌then◌else◌, Bool-cases, Option-cases, inl, inr, set,
  length, length-set, get_elem?, drop, length-drop, min, All,
}
use net_bsd_wii_joybus.Message.{WriteBufReq, WriteBufResp}
use net_bsd_wii_joybus.Server.{Entry, Block, done, fault, spins, waits}
use net_bsd_wii_joybus.Server.Search.{All-set, All-get_elem?}
use net_bsd_wii_joybus.Server.Blocks.{
  Cursor, resize_blocks, take_blocks, release_blocks, entry_setsize, splice, write_block, copy_loop,
  write_loop, blank, block_fetch, blocknum, blockoff, blockleft, roundup,
}
use net_bsd_wii_joybus.Server.Blocks.Macros.{blockoff_lem, blockleft_lem}
use net_bsd_wii_joybus.Server.Blocks.Take.{taken, take_blocks_induction}
use net_bsd_wii_joybus.Server.Blocks.Release.{released, release_blocks_induction}
use net_bsd_wii_joybus.Server.Blocks.Copy.{IsWhole, length-splice}
use net_bsd_wii_joybus.Server.Safe.{Keeps, Keeps-bind, if-Keeps}

-- `m` blocks of 128 bytes.
abbrev pub AreBlocks : ℕ → List Block → Type 0
AreBlocks m bs = (length bs ≡ m) × IsWhole bs

module _ (m : ℕ) where
  set-AreBlocks :
      (bs : List Block) (k : ℕ) (b : Block)
      → AreBlocks m bs
      → length b.bytes ≡ 128
      → AreBlocks m (set bs k b)
  set-AreBlocks bs k b h size =
      (length-set bs k b ∙ h.0, All-set (λ b. length b.bytes ≡ 128) bs k b h.1 size)

  taken-size : (id i : ℕ) → length (taken id i).bytes ≡ 128
  unfolding blank
  taken-size id i = refl

  take_blocks-AreBlocks :
      (id left i : ℕ) (bs : List Block) → AreBlocks m bs → AreBlocks m (take_blocks id left i bs).1
  take_blocks-AreBlocks id =
      take_blocks_induction id (λ left i bs r. AreBlocks m bs → AreBlocks m r.1) (λ i bs h. h)
        (λ left i bs full h. h)
        (λ left i k bs b r got free ih h. ih (set-AreBlocks bs k (taken id i) h (taken-size id i)))

  release_blocks-AreBlocks :
      (id left i : ℕ) (bs : List Block)
      → AreBlocks m bs
      → AreBlocks m (release_blocks id left i bs).1
  release_blocks-AreBlocks id =
      release_blocks_induction id (λ left i bs r. AreBlocks m bs → AreBlocks m r.1) (λ i bs h. h)
        (λ left i bs gone h. h)
        (λ left i k bs b r got mine ih h. ih (set-AreBlocks bs k released h (taken-size 0 0)))

  resize_blocks-AreBlocks :
      (shrinks : Bool) (ent : Entry) (newblocks : ℕ) (bs : List Block)
      → AreBlocks m bs
      → AreBlocks m (resize_blocks shrinks ent newblocks bs).1
  unfolding resize_blocks
  resize_blocks-AreBlocks true ent newblocks bs h =
      release_blocks-AreBlocks ent.va_fileid _ newblocks bs h
  resize_blocks-AreBlocks false ent newblocks bs h = take_blocks-AreBlocks ent.va_fileid _ _ bs h

  -- The entry that `entry_setsize` leaves has the same pointers and name.
  abbrev pub Resizes : Entry → ℕ × Entry × List Block → Type 0
  Resizes ent r =
      (r.1.next ≡ ent.next) × (r.1.child ≡ ent.child) × (r.1.name ≡ ent.name) × AreBlocks m r.2

  if-Resizes :
      (ent : Entry) (b : Bool) (r r' : ℕ × Entry × List Block)
      → Resizes ent r
      → Resizes ent r'
      → Resizes ent (if b then r else r')
  if-Resizes ent true r r' h h' = h
  if-Resizes ent false r r' h h' = h'

  pub entry_setsize-Resizes :
      (ent : Entry) (newsize : ℕ) (bs : List Block)
      → AreBlocks m bs
      → Resizes ent (entry_setsize ent newsize bs)
  unfolding entry_setsize
  entry_setsize-Resizes ent newsize bs h =
      let shrinks = ltb newsize ent.va_size in
      let newblocks = blocknum 32 newsize + 1 in
      let h' = resize_blocks-AreBlocks shrinks ent newblocks bs h in
      if-Resizes ent (ltb (roundup ent.file.datalen) newsize || shrinks) _ _
        (if-Resizes ent ((resize_blocks shrinks ent newblocks bs).0 == 0) _ _ (refl, refl, refl, h')
          (refl, refl, refl, h'))
        (refl, refl, refl, h)

  write_block-AreBlocks :
      (bs : List Block) (block : Option ℕ) (off n used : ℕ) (buf : List ℕ)
      → AreBlocks m bs
      → off + n ≤ 128
      → length buf ≡ 128
      → Keeps (AreBlocks m) (write_block bs block off n used buf)
  unfolding write_block
  write_block-AreBlocks bs none off n used buf h room size =
      if-Keeps (AreBlocks m) (n == 0) (done bs) fault h tt
  write_block-AreBlocks bs (some k) off n used buf h room size =
      elim (Option-cases (get_elem? bs k)) [
        | inl gone ↦ rw (gone, Keeps) tt
        | inr (b, got) ↦
            let full = All-get_elem? (λ b. length b.bytes ≡ 128) bs k h.1 got in
            elim (Bool-cases (ltb 128 (used + n))) [
              | inl past ↦ rw (got, past, Keeps) tt
              | inr fits ↦
                  rw (got, fits, Keeps)
                    (set-AreBlocks bs k (record b { bytes = splice b.bytes off n (drop used buf) })
                      h
                      (length-splice b.bytes off n (drop used buf) (omega (arith, full))
                          (ground (arith, length-drop used buf))
                        ∙ full))
            ]
      ]

  abbrev pub OnBlocks : Cursor → Type 0
  OnBlocks c = AreBlocks m c.blocks

  copy_loop-AreBlocks :
      (fuel id : ℕ) (buf : List ℕ) (x used : ℕ) (c : Cursor)
      → length buf ≡ 128
      → AreBlocks m c.blocks
      → Keeps OnBlocks (copy_loop fuel id buf x used c)
  unfolding copy_loop
  copy_loop-AreBlocks zero id buf x used c size h = if-Keeps OnBlocks (x == 0) (done c) spins h tt
  copy_loop-AreBlocks (suc fuel) id buf x used c size h =
      let n = min c.resid (blockleft c.offset) in
      let block = block_fetch id (blocknum 64 c.offset % 2 ^ 32) c.blocks in
      if-Keeps OnBlocks (x == 0) (done c) _ h (
        Keeps-bind (AreBlocks m) OnBlocks
          (write_block c.blocks block (blockoff c.offset) n used buf) _
          (write_block-AreBlocks c.blocks block (blockoff c.offset) n used buf h
            (omega (arith, blockoff_lem c.offset, blockleft_lem c.offset)) size)
          λ bs h'.
            copy_loop-AreBlocks fuel id buf ((x + 2 ^ 32 - n) % 2 ^ 32) (used + n)
              (record { offset = (c.offset + n) % 2 ^ 64; resid = c.resid - n; blocks = bs }) size
              h')

  pub write_loop-AreBlocks :
      (id : ℕ) (junk : WriteBufResp) (ms : List WriteBufReq) (c : Cursor)
      → All (λ msg. length msg.buf ≡ 128) ms
      → AreBlocks m c.blocks
      → Keeps (λ r. OnBlocks r.1) (write_loop id junk ms c)
  unfolding write_loop
  write_loop-AreBlocks id junk [] c sizes h =
      if-Keeps (λ r. OnBlocks r.1) (c.resid == 0) (done ([], c)) waits h tt
  write_loop-AreBlocks id junk (msg ∷ ms) c sizes h =
      if-Keeps (λ r. OnBlocks r.1) (c.resid == 0) (done ([], c)) _ h
        (Keeps-bind OnBlocks (λ r. OnBlocks r.1)
          (copy_loop (suc msg.buflen) id msg.buf msg.buflen 0 c) _
          (copy_loop-AreBlocks (suc msg.buflen) id msg.buf msg.buflen 0 c sizes.0 h)
          λ c' h'.
            Keeps-bind (λ r. OnBlocks r.1) (λ r. OnBlocks r.1) (write_loop id junk ms c') _
              (write_loop-AreBlocks id junk ms c' sizes.1 h') λ r h''. h'')
