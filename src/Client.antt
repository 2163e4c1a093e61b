-- ===== src/Client.antt =====
-- The Wii side of puffboy_advance: the loops of wii/node/write.c and wii/node/read.c.
pub mod Wait
pub mod Readdir
pub mod Write
pub mod WriteRead
pub mod Misaligned
pub mod Read
pub mod Nodes
pub mod Mount
pub mod Lookup
pub mod Resize
use net_bsd_wii_joybus.Base.{
  ℕ, zero, suc, ◌+◌, ◌-◌, ◌%◌, ◌^◌, min, ◌++◌, take, ◌||◌, List, [], ◌∷◌, if◌then◌else◌, ◌==◌, ltb,
  drop, length,
}
use net_bsd_wii_joybus.Message.{block_size, WriteBufReq, WriteBufResp, ReadReq, ReadResp}
use net_bsd_wii_joybus.Server.{Run, done, fault, spins, ◌>>=◌}
use net_bsd_wii_joybus.Server.Blocks.{blank, splice}

-- What the loop of `puffboy_node_write` leaves: the messages sent, `*resid`, the value returned.
pub record Sent : Type 0 where
  pub messages : List WriteBufReq
  pub resid : ℕ
  pub err : ℕ

-- `breq`: zeros, and the next bytes of the source over them.
unfoldable pub write_message : List ℕ → WriteBufReq
write_message src =
    let copylen = min (length src) block_size in
    record { buflen = copylen; buf = splice blank 0 copylen src }

-- The loop of `puffboy_node_write`, with fuel; `src` is what is left of the caller's `*resid` bytes,
-- and `reply` is what the GBA answers each message with.
unfoldable pub node_write_loop : ℕ → WriteBufResp → List ℕ → Sent
unfolding write_message
node_write_loop zero reply src = record { messages = []; resid = length src; err = 0 }
node_write_loop (suc fuel) reply src =
    let more = node_write_loop fuel reply (drop (min (length src) block_size) src) in
    if length src == 0
    then record { messages = []; resid = 0; err = 0 }
    else (if ltb 0 reply.err
        then record { messages = write_message src ∷ []; resid = length src; err = reply.err }
        else record more { messages = write_message src ∷ more.messages })

-- What `puffboy_node_read` leaves: the bytes copied to the caller's buffer, `*resid`, the value
-- returned.
pub record Got : Type 0 where
  pub bytes : List ℕ
  pub resid : ℕ
  pub err : ℕ

-- The loop of `puffboy_node_read`, with fuel; `gba` is `do_gba_read`. The caller's buffer has room
-- for `resid` more bytes, and `resp.buf` holds 128: a `memcpy` past either is undefined.
unfoldable pub node_read_loop : ℕ → (ReadReq → Run ReadResp) → ReadReq → ℕ → Run Got
node_read_loop zero gba req resid =
    if resid == 0 then done (record { bytes = []; resid = 0; err = 0 }) else spins
node_read_loop (suc fuel) gba req resid =
    let req' = record req { copylen = min resid block_size } in
    let copied : ReadResp → Run Got = λ resp.
      node_read_loop fuel gba (record req' { offset = (req.offset + resp.copylen) % 2 ^ 64 })
        (resid - resp.copylen)
      >>= λ got. done (record got { bytes = take resp.copylen resp.buf ++ got.bytes }) in
    let round : Run Got = gba req' >>= λ resp.
    if ltb 0 resp.err
    then done (record { bytes = []; resid = resid; err = resp.err })
    else (if resp.copylen == 0
        then done (record { bytes = []; resid = resid; err = 0 })
        else (if ltb resid resp.copylen || ltb block_size resp.copylen
            then fault
            else copied resp)) in
    if resid == 0 then done (record { bytes = []; resid = 0; err = 0 }) else round
