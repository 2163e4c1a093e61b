-- ===== src/Client/Read.antt =====
-- `puffboy_node_read` against `handle_read_request`.
mod Step
unfoldable pub use Step.{ask}
pub use Step.{HoldsFile}
use net_bsd_wii_joybus.Client.Read.Step.{read_block-HoldsFile, node_read_loop-step}
use net_bsd_wii_joybus.Base.{
  ℕ, zero, suc, ◌+◌, ◌-◌, ◌/◌, ◌%◌, ◌^◌, ◌≤◌, ◌<◌, min, ◌≡◌, ◌≢◌, refl, ◌∙◌, ap, arith, some, List,
  [], ◌++◌, inl, inr, ◌⊎◌, Option-cases, Bool-cases, length, get_elem?, ltb, ◌==◌, take, drop,
  length-take, length-drop, length-append, get_elem?-append_left, get_elem?-append_right,
  get_elem?-take, get_elem?-drop,
}
use net_bsd_wii_joybus.Message.{ReadReq, ReadResp}
use net_bsd_wii_joybus.Server.{Entry, Block, State, Run, done, fault, ◌>>=◌, find_by_id}
use net_bsd_wii_joybus.Server.Search.{find_index-some, find_index-none, All-get_elem?}
use net_bsd_wii_joybus.Server.Blocks.{is_block, block_fetch, read_block, read_entry, splice}
use net_bsd_wii_joybus.Server.Blocks.Macros.{blocknum-64, blockoff_lem}
use net_bsd_wii_joybus.Server.Blocks.Take.{copies}
use net_bsd_wii_joybus.Server.Blocks.Copy.{
  IsWhole, file_byte, Covers, length-splice, get_elem?-splice,
}
use net_bsd_wii_joybus.Server.Handlers.{read_at, handle_read}
use net_bsd_wii_joybus.Client.{Got, node_read_loop}

module _ (s : State) (i : ℕ) (ent : Entry) (junk : ReadResp)
    (by_id : find_by_id ent.va_fileid s.entries ≡ some i) (at_i : get_elem? s.entries i ≡ some ent)
    (small : ent.file.datalen < 2 ^ 32) (whole : IsWhole s.blocks) (size : length junk.buf ≡ 128)
    (cov : Covers ent.va_fileid 0 ent.file.datalen s.blocks) where
  abbrev id : ℕ
  id = ent.va_fileid

  abbrev end : ℕ
  end = ent.file.datalen

  ask-HoldsFile :
      (req : ReadReq) (n : ℕ)
      → req.fileid ≡ id
      → req.offset ≤ end
      → n ≡ min (end - req.offset) 128
      → req.offset % 128 + n ≤ 128
      → (buf : List ℕ) × (ask junk s req ≡ done (record { err = 0; copylen = n; buf = buf }))
        × (length buf ≡ 128)
        × HoldsFile id req.offset n s.blocks buf
  unfolding ask handle_read read_at read_entry
  ask-HoldsFile req n same le is_n in_block =
      let (buf, ran, len, holds) =
        read_block-HoldsFile id req.offset n s.blocks junk.buf whole size in_block
          (ground (arith, cov req.offset)) in
      let wide = blocknum-64 req.offset (omega arith) in
      let low : req.offset / 128 % 2 ^ 32 ≡ req.offset / 128 = omega arith in
      (
        buf,
        ground (arith, same, by_id, at_i, wide, low, blockoff_lem req.offset, is_n, ran),
        len,
        holds,
      )

  -- What is left to read at an offset: the loop copies this much.
  abbrev due : ℕ → ℕ → ℕ
  due off resid = min resid (end - off)

  abbrev pub ReadsFile : ℕ → ReadReq → ℕ → Type 0
  ReadsFile fuel req resid =
      (g : Got) × (node_read_loop fuel (ask junk s) req resid ≡ done g)
      × (g.err ≡ 0)
      × (g.resid ≡ resid - due req.offset resid)
      × (length g.bytes ≡ due req.offset resid)
      × HoldsFile id req.offset (due req.offset resid) s.blocks g.bytes

  read_nothing : (fuel : ℕ) (req : ReadReq) (resid : ℕ) → resid ≡ 0 → ReadsFile fuel req resid
  unfolding node_read_loop
  read_nothing zero req resid e = (
    record { bytes = []; resid = 0; err = 0 },
    ground arith,
    refl,
    omega arith,
    omega arith,
    (λ j h. absurd (omega arith)),
  )
  read_nothing (suc fuel) req resid e = (
    record { bytes = []; resid = 0; err = 0 },
    ground arith,
    refl,
    omega arith,
    omega arith,
    (λ j h. absurd (omega arith)),
  )

  read_at_end :
      (fuel : ℕ) (req : ReadReq) (resid : ℕ)
      → req.fileid ≡ id
      → req.offset ≡ end
      → ReadsFile (suc fuel) req resid
  unfolding node_read_loop
  read_at_end fuel req resid same e =
      let req' : ReadReq = record req { copylen = min resid 128 } in
      let (buf, answer, len, holds) =
        ask-HoldsFile req' 0 same (omega arith) (omega arith) (omega arith) in
      (
        record { bytes = []; resid = resid; err = 0 },
        ground (arith, answer),
        refl,
        omega arith,
        omega arith,
        (λ j h. absurd (omega arith)),
      )

  read_more :
      (fuel : ℕ) (req : ReadReq) (resid n : ℕ) (buf : List ℕ)
      → resid ≢ 0
      → n ≢ 0
      → n ≤ resid
      → n ≡ min (end - req.offset) 128
      → req.offset ≤ end
      → ask junk s (record req { copylen = min resid 128 })
        ≡ done (record { err = 0; copylen = n; buf = buf })
      → length buf ≡ 128
      → HoldsFile id req.offset n s.blocks buf
      → ReadsFile fuel (record req { copylen = min resid 128; offset = req.offset + n }) (resid - n)
      → ReadsFile (suc fuel) req resid
  read_more fuel req resid n buf left more le is_n in_file answer len holds
        (g, ran, ok, rest, got, later) =
      (
        record g { bytes = take n buf ++ g.bytes },
        node_read_loop-step fuel (ask junk s) req resid n buf g left more le (omega arith)
            (omega arith) answer ran,
        ok,
        omega arith,
        omega (arith, length-append (take n buf) g.bytes, length-take n buf),
        (λ j h. elim (Bool-cases (ltb j n)) [
          | inl first_part ↦ ground (
            arith,
            get_elem?-append_left (take n buf) g.bytes j,
            get_elem?-take n buf j,
            length-take n buf,
            holds j (ground arith),
          )
          | inr behind ↦
              ap (get_elem? (take n buf ++ g.bytes)) (behind_first j (ground arith))
              ∙ get_elem?-append_right (take n buf) g.bytes (j - n)
              ∙ later (j - n) (ground arith)
              ∙ same_place j (ground arith)
        ]),
      )
    where
      behind_first : (j : ℕ) → n ≤ j → j ≡ length (take n buf) + (j - n)
      behind_first j h = omega (arith, length-take n buf)

      same_place :
          (j : ℕ)
          → n ≤ j
          → file_byte id (req.offset + n + (j - n)) s.blocks
            ≡ file_byte id (req.offset + j) s.blocks
      same_place j h = ap (λ (t : ℕ). file_byte id t s.blocks) (omega arith)

  -- The offset starts a block or is the end of the file, and the buffer takes whole blocks or the
  -- rest of the file.
  abbrev CanRead : ℕ → ℕ → Type 0
  CanRead off resid =
      (((off % 128 ≡ 0) × (resid % 128 ≡ 0)) ⊎ ((off % 128 ≡ 0) × (end - off ≤ resid)))
      ⊎ (off ≡ end)

  node_read-any :
      (fuel : ℕ) (req : ReadReq) (resid : ℕ)
      → resid < fuel
      → req.fileid ≡ id
      → req.offset ≤ end
      → CanRead req.offset resid
      → ReadsFile fuel req resid
  node_read-any zero req resid le same in_file can = absurd (omega arith)
  node_read-any (suc fuel) req resid le same in_file can = elim (Bool-cases (resid == 0)) [
    | inl nothing ↦ read_nothing (suc fuel) req resid (ground arith)
    | inr left ↦ elim (Bool-cases (req.offset == end)) [
      | inl at_end ↦ read_at_end fuel req resid same (ground arith)
      | inr before ↦
          let n = min (end - req.offset) 128 in
          let req' : ReadReq = record req { copylen = min resid 128 } in
          let pos : n ≢ 0 = ground arith in
          let fits : n ≤ resid = ground (arith, can) in
          let starts : req.offset % 128 ≡ 0 = ground (arith, can) in
          let (buf, answer, len, holds) = ask-HoldsFile req' n same in_file refl (omega arith) in
          read_more fuel req resid n buf (ground arith) pos fits refl in_file answer len holds (
            node_read-any fuel (record req' { offset = req.offset + n }) (resid - n) (omega arith)
              same (omega arith) (ground (arith, can)))
    ]
  ]

  -- A read of a file that `find_by_id` finds and that has the blocks for its length (below 2 ^ 32),
  -- from an offset in it at a block's start, into a buffer of whole blocks or one for at least the
  -- rest of the file: the loop of `puffboy_node_read` ends without an error, having copied exactly
  -- the file's bytes from the offset on, up to the end of the buffer or of the file, and `*resid`
  -- is the room that is left.
  pub node_read-ReadsFile :
      (fuel : ℕ) (req : ReadReq) (resid : ℕ)
      → resid < fuel
      → req.fileid ≡ id
      → req.offset ≤ end
      → req.offset % 128 ≡ 0
      → (resid % 128 ≡ 0) ⊎ (end - req.offset ≤ resid)
      → ReadsFile fuel req resid
  node_read-ReadsFile fuel req resid le same in_file starts fits =
      node_read-any fuel req resid le same in_file (ground (arith, fits))

  -- A read of the same kind of file, at a block's start, into a buffer of less than a block that is
  -- smaller than the rest of the file: the answer, which does not depend on the `copylen` asked
  -- for, is longer than the buffer, and the client's copy is an undefined access.
  pub node_read-fault :
      (fuel : ℕ) (req : ReadReq) (resid : ℕ)
      → req.fileid ≡ id
      → req.offset % 128 ≡ 0
      → 0 < resid
      → resid < 128
      → req.offset + resid < end
      → node_read_loop (suc fuel) (ask junk s) req resid ≡ fault
  unfolding node_read_loop
  node_read-fault fuel req resid same starts some_left short more =
      let n = min (end - req.offset) 128 in
      let (buf, answer, len, holds) =
        ask-HoldsFile (record req { copylen = min resid 128 }) n same (omega arith) refl
          (omega arith) in
      ground (arith, answer)
