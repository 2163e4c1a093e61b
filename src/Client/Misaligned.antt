-- ===== src/Client/Misaligned.antt =====
-- A write of several messages that starts inside a block.
use net_bsd_wii_joybus.Base.{
  ℕ, suc, ◌+◌, ◌-◌, ◌/◌, ◌%◌, ◌^◌, ◌<◌, min, ◌≡◌, ◌≢◌, refl, ◌∙◌, arith, List, inl, inr, ◌⊎◌,
  Option-cases, length, get_elem?, ==_ne,
}
use net_bsd_wii_joybus.Message.{WriteBufResp}
use net_bsd_wii_joybus.Server.{Block, done, fault}
use net_bsd_wii_joybus.Server.Search.{find_index-some}
use net_bsd_wii_joybus.Server.Blocks.{
  is_block, block_fetch, Cursor, write_block, copy_loop, write_loop,
}
use net_bsd_wii_joybus.Server.Blocks.Macros.{blocknum-64, blockoff_lem, blockleft_lem}
use net_bsd_wii_joybus.Server.Blocks.Copy.{copy_loop-step}
use net_bsd_wii_joybus.Client.{write_message, node_write_loop}
use net_bsd_wii_joybus.Client.Write.{first_message, node_write_loop-step}

module _ (id i : ℕ) (bs : List Block) (off n used : ℕ) (buf : List ℕ) where
  -- A copy past the end of the buffer goes wrong, whether the block is there or not.
  write_block-past :
      n ≢ 0 → 128 < used + n → write_block bs (block_fetch id i bs) off n used buf ≡ fault
  unfolding write_block block_fetch
  write_block-past more past = elim (Option-cases (block_fetch id i bs)) [
    | inl e ↦ rw e (ground arith)
    | inr (k, e) ↦
        let (b, got, mine, now) = find_index-some (is_block id i) bs e in rw e (ground (arith, got))
  ]

  write_block-cases :
      n ≢ 0
      → (write_block bs (block_fetch id i bs) off n used buf ≡ fault)
        ⊎ ((bs' : List Block) × (write_block bs (block_fetch id i bs) off n used buf ≡ done bs'))
  unfolding write_block
  write_block-cases more = elim (Option-cases (block_fetch id i bs)) [
    | inl e ↦ rw e (inl (ground arith))
    | inr (k, e) ↦ rw e (elim (Option-cases (get_elem? bs k)) [
      | inl gone ↦ inl (ground (arith, gone))
      | inr (b, got) ↦ ground (arith, got)
    ])
  ]

module _ (id : ℕ) where
  copy_loop-fault :
      (fuel : ℕ) (buf : List ℕ) (x used n : ℕ) (c : Cursor)
      → n ≡ min c.resid (128 - c.offset % 128)
      → x ≢ 0
      → c.offset < 2 ^ 39
      → write_block c.blocks (block_fetch id (c.offset / 128) c.blocks) (c.offset % 128) n used buf
        ≡ fault
      → copy_loop (suc fuel) id buf x used c ≡ fault
  unfolding copy_loop
  copy_loop-fault fuel buf x used n c is_n more small wrote =
      rw
        (
          ==_ne x 0 more,
          blocknum-64 c.offset (omega arith),
          low_block,
          blockoff_lem c.offset,
          blockleft_lem c.offset,
          ← is_n,
          wrote,
        )
        refl
    where
      low_block : c.offset / 128 % 2 ^ 32 ≡ c.offset / 128
      low_block = omega arith

  -- A message of 128 bytes for the middle of a block, with more than 128 bytes to write.
  copy_loop-past :
      (buf : List ℕ) (c : Cursor)
      → c.offset % 128 ≢ 0
      → 128 < c.resid
      → c.offset + 128 < 2 ^ 39
      → copy_loop 129 id buf 128 0 c ≡ fault
  copy_loop-past buf c inside long small =
      let n = 128 - c.offset % 128 in
      elim (write_block-cases id (c.offset / 128) c.blocks (c.offset % 128) n 0 buf (omega arith)) [
        | inl bad ↦ copy_loop-fault 128 buf 128 0 n c (omega arith) (omega arith) (omega arith) bad
        | inr (bs', wrote) ↦
            let m = min (c.resid - n) (128 - (c.offset + n) % 128) in
            copy_loop-step id 128 buf 128 0 n c bs' (omega arith) (omega arith) (omega arith)
              (omega arith) (omega arith) wrote
            ∙ copy_loop-fault 127 buf (128 - n) (0 + n) m
                (record { offset = c.offset + n; resid = c.resid - n; blocks = bs' }) refl
                (omega arith) (omega arith)
                (write_block-past id ((c.offset + n) / 128) bs' ((c.offset + n) % 128) m (0 + n) buf
                  (omega arith) (omega arith))
      ]

  -- A write of more than 128 bytes, below 2 ^ 39, that does not start at a block's start, while the
  -- GBA answers with `err = 0`: with the messages of `puffboy_node_write`, the loop of
  -- `handle_write_request` makes an undefined access, whatever blocks there are.
  pub node_write-fault :
      (reply : WriteBufResp) (fuel off : ℕ) (src : List ℕ) (bs : List Block)
      → reply.err ≡ 0
      → off % 128 ≢ 0
      → 128 < length src
      → off + length src < 2 ^ 39
      → write_loop id reply
          (node_write_loop (suc fuel) reply src).messages
          (record { offset = off; resid = length src; blocks = bs })
        ≡ fault
  unfolding write_loop
  node_write-fault reply fuel off src bs ok inside long small =
      let c : Cursor = record { offset = off; resid = length src; blocks = bs } in
      rw
        (
          node_write_loop-step id reply ok fuel 128 src (omega arith) (omega arith),
          ==_ne (length src) 0 (omega arith),
          first_message id reply ok 128 src c fault (omega arith)
              (copy_loop-past (write_message src).buf c inside long (omega arith)),
        )
        refl
