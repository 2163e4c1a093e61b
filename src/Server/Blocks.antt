-- ===== src/Server/Blocks.antt =====
-- The data blocks: the macros on offsets, `BLOCKFETCH`, `BLOCKFREE`, `entry_setsize`, and the
-- copying of `handle_read_request` and `handle_write_request`. A `size_t` and a `uint32_t` of the
-- GBA are below 2 ^ 32, a `uint64_t` below 2 ^ 64.
pub mod Macros
pub mod Take
pub mod Release
pub mod Setsize
pub mod Copy
use net_bsd_wii_joybus.Base.{
  ℕ, zero, suc, ◌+◌, ◌-◌, ◌/◌, ◌%◌, ◌^◌, min, bit_and, Bool, true, false, Option, none, some, List,
  [], ◌∷◌, ◌++◌, ◌==◌, ltb, ◌&&◌, ◌||◌, not, if◌then◌else◌, set, take, drop, replicate, length,
}
use net_bsd_wii_joybus.Message.{block_size, ReadReq, ReadResp, WriteReq, WriteBufReq, WriteBufResp}
use net_bsd_wii_joybus.Server.{
  GbaFile, Entry, Block, Run, done, fault, spins, waits, ◌>>=◌, deref, find_index,
}

-- `PBA_BLOCKSHIFT` and `PBA_BLOCKSIZE`.
abbrev pub block_shift : ℕ
block_shift = 7

abbrev pub pba_blocksize : ℕ
pba_blocksize = 128

-- `ROUNDUP(a, PBA_BLOCKSIZE)`, as the macro is written.
unfoldable pub roundup : ℕ → ℕ
roundup a = bit_and a (pba_blocksize - 1)

-- `BLOCKNUM(a, PBA_BLOCKSHIFT)` at a width: the complement of the low bits masks `a`.
unfoldable pub blocknum : ℕ → ℕ → ℕ
blocknum width a = bit_and a (2 ^ width - 2 ^ block_shift) / 2 ^ block_shift

-- `BLOCKOFF(a, PBA_BLOCKSIZE)` and `BLOCKLEFT(a, PBA_BLOCKSIZE)`.
unfoldable pub blockoff : ℕ → ℕ
blockoff a = bit_and a (pba_blocksize - 1)

unfoldable pub blockleft : ℕ → ℕ
unfolding blockoff
blockleft a = pba_blocksize - blockoff a

abbrev pub e_block_not_found : ℕ
e_block_not_found = 1

abbrev pub e_no_blocks_free : ℕ
e_no_blocks_free = 2

-- `memset(block->data, 0, BLOCKSIZE)`.
unfoldable pub blank : List ℕ
blank = replicate block_size 0

abbrev pub is_block : ℕ → ℕ → Block → Bool
is_block id i b = (b.va_fileid == id) && (b.idx == i)

-- `BLOCKFETCH` and `BLOCKFREE`.
unfoldable pub block_fetch : ℕ → ℕ → List Block → Option ℕ
block_fetch id i bs = find_index (is_block id i) bs

unfoldable pub block_free : List Block → Option ℕ
block_free bs = find_index (λ b. b.va_fileid == 0) bs

-- The loop that gives blocks back, from block `i` on with `left` rounds to go.
unfoldable pub release_blocks : ℕ → ℕ → ℕ → List Block → ℕ × List Block
release_blocks id zero i bs = (0, bs)
release_blocks id (suc left) i bs = elim (block_fetch id i bs) [
  | none ↦ (e_block_not_found, bs)
  | some k ↦
      release_blocks id left (i + 1) (set bs k (record { va_fileid = 0; idx = 0; bytes = blank }))
]

-- The loop that takes free blocks.
unfoldable pub take_blocks : ℕ → ℕ → ℕ → List Block → ℕ × List Block
take_blocks id zero i bs = (0, bs)
take_blocks id (suc left) i bs = elim (block_free bs) [
  | none ↦ (e_no_blocks_free, bs)
  | some k ↦
      take_blocks id left (i + 1) (set bs k (record { va_fileid = id; idx = i; bytes = blank }))
]

-- The two loops of `entry_setsize`: one of them runs.
unfoldable pub resize_blocks : Bool → Entry → ℕ → List Block → ℕ × List Block
resize_blocks true ent newblocks bs =
    release_blocks ent.va_fileid (ent.file.numblocks - newblocks) newblocks bs
resize_blocks false ent newblocks bs =
    take_blocks ent.va_fileid (newblocks - ent.file.numblocks) ent.file.numblocks bs

-- `ent->va_size` and `ent->va_bytes`, set at the end.
abbrev pub with_size : Entry → ℕ → GbaFile → Entry
with_size ent newsize f = record ent {
  va_size = newsize;
  va_bytes = blocknum 32 newsize / 2 ^ block_shift;
  file = f;
}

-- `entry_setsize`: the error, the entry and the blocks. A loop that returns early leaves the entry
-- as it was, and the blocks as far as it came.
unfoldable pub entry_setsize : Entry → ℕ → List Block → ℕ × Entry × List Block
entry_setsize ent newsize bs =
    let needalloc = ltb (roundup ent.file.datalen) newsize in
    let shrinks = ltb newsize ent.va_size in
    let newblocks = blocknum 32 newsize + 1 in
    let resized = resize_blocks shrinks ent newblocks bs in
    if needalloc || shrinks
    then (if resized.0 == 0
        then (
          0,
          with_size ent newsize (record { numblocks = newblocks; datalen = newsize }),
          resized.1,
        )
        else (resized.0, ent, resized.1))
    else (0, with_size ent newsize ent.file, bs)

-- `memcpy` of `n` bytes from `src` over the bytes of a block from `off` on.
abbrev pub splice : List ℕ → ℕ → ℕ → List ℕ → List ℕ
splice dest off n src = take off dest ++ (take n src ++ drop (off + n) dest)

-- `memcpy(resp.buf, src, n)` from byte `off` of block `k`: past the block it reads the memory of
-- the next one, which C leaves undefined.
unfoldable pub read_block : List Block → Option ℕ → ℕ → ℕ → List ℕ → Run (List ℕ)
read_block bs none off n buf = if n == 0 then done buf else fault
read_block bs (some k) off n buf = do
  b ← deref bs k
  if ltb block_size (off + n) then fault else done (splice buf 0 n (drop off b.bytes))

-- The copying of `handle_read_request` for an entry that was found.
unfoldable pub read_entry : Entry → ReadReq → ReadResp → List Block → Run ReadResp
read_entry ent req resp bs =
    let copylen = min (ent.file.datalen - req.offset) pba_blocksize in
    let block = block_fetch ent.va_fileid (blocknum 64 req.offset % 2 ^ 32) bs in
    if ltb ent.file.datalen req.offset then done (record resp { err = 2; copylen = 0 }) else do
      buf ← read_block bs block (blockoff req.offset) copylen resp.buf
      done (record resp { err = 0; copylen = copylen; buf = buf })

-- What the loops of `handle_write_request` change: `wreq.offset`, `wreq.resid`, the blocks.
pub record Cursor : Type 0 where
  pub offset : ℕ
  pub resid : ℕ
  pub blocks : List Block

-- `memcpy(dest, src, copylen)`: `src` is `used` bytes into the buffer of the message.
unfoldable pub write_block : List Block → Option ℕ → ℕ → ℕ → ℕ → List ℕ → Run (List Block)
write_block bs none off n used buf = if n == 0 then done bs else fault
write_block bs (some k) off n used buf = do
  b ← deref bs k
  let written : Run (List Block) =
      done (set bs k (record b { bytes = splice b.bytes off n (drop used buf) }))
  if ltb block_size (used + n) then fault else written

-- `while (x > 0)`, with fuel.
unfoldable pub copy_loop : ℕ → ℕ → List ℕ → ℕ → ℕ → Cursor → Run Cursor
copy_loop zero id buf x used c = if x == 0 then done c else spins
copy_loop (suc fuel) id buf x used c =
    let copylen = min c.resid (blockleft c.offset) in
    let block = block_fetch id (blocknum 64 c.offset % 2 ^ 32) c.blocks in
    let round : Run Cursor =
      write_block c.blocks block (blockoff c.offset) copylen used buf >>= λ bs.
      copy_loop fuel id buf ((x + 2 ^ 32 - copylen) % 2 ^ 32) (used + copylen) (record {
        offset = (c.offset + copylen) % 2 ^ 64;
        resid = c.resid - copylen;
        blocks = bs;
      }) in
    if x == 0 then done c else round

-- `while (wreq.resid > 0)`: one message is received in each round. `junk` is `bresp`, which the code never sets.
unfoldable pub write_loop :
    ℕ → WriteBufResp → List WriteBufReq → Cursor → Run (List WriteBufResp × Cursor)
write_loop id junk [] c = if c.resid == 0 then done ([], c) else waits
write_loop id junk (m ∷ ms) c =
    let round : Run (List WriteBufResp × Cursor) =
      copy_loop (suc m.buflen) id m.buf m.buflen 0 c >>= λ c'.
      write_loop id junk ms c' >>= λ (out, c''). done (junk ∷ out, c'') in
    if c.resid == 0 then done ([], c) else round
