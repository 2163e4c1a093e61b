-- ===== src/Client/WriteRead.antt =====
-- A write through `handle_write_request`, and the read of the same bytes after it.
mod FirstHalf
use net_bsd_wii_joybus.Client.WriteRead.FirstHalf.{
  find_by_id-set_self, IsFile-Covers, length_after, Grown, grow_for-Grown,
}
use mathlib.Core.Path.{subst}
use net_bsd_wii_joybus.Base.{
  ℕ, map, suc, ◌+◌, ◌-◌, ◌/◌, ◌%◌, ◌^◌, ◌≤◌, ◌<◌, ◌≡◌, ◌≢◌, refl, sym, ◌∙◌, ap, list_ext, arith,
  some, List, inl, inr, ◌⊎◌, Bool-cases, ltb, ◌==◌, ==_iff, if◌then◌else◌, length, get_elem?, set,
  get_elem?-set_self, lt_of_get_elem?,
}
use net_bsd_wii_joybus.Message.{WriteReq, WriteBufResp, ReadReq, ReadResp}
use net_bsd_wii_joybus.Server.{Entry, Block, State, done, find_by_id}
use net_bsd_wii_joybus.Server.Search.{find_index-set_self}
use net_bsd_wii_joybus.Server.Blocks.{entry_setsize}
use net_bsd_wii_joybus.Server.Blocks.Take.{free_count, stored}
use net_bsd_wii_joybus.Server.Blocks.Setsize.{
  IsFile, blocks_for, entry_setsize-Resized, entry_setsize-stored,
}
use net_bsd_wii_joybus.Server.Blocks.Copy.{IsWhole, Covers, file_byte}
use net_bsd_wii_joybus.Server.Safe.Blocks.{entry_setsize-Resizes}
use net_bsd_wii_joybus.Server.Handlers.{grow_for, write_data, write_at, handle_write}
use net_bsd_wii_joybus.Client.{Got, node_write_loop, node_read_loop}
use net_bsd_wii_joybus.Client.Write.{Stores, node_write-Stores}
use net_bsd_wii_joybus.Client.Read.{ask, node_read-ReadsFile}

-- The state after a write to the file of entry `i`.
abbrev pub after : State → ℕ → Entry → List Block → State
after s i ent bs = record s { entries = set s.entries i ent; blocks = bs }

-- What a write leaves: a good file with the bytes in it, and the other files as they were.
abbrev pub Holds : State → Entry → ℕ → List ℕ → Entry → List Block → Type 0
Holds s ent off src ent' bs' =
    IsFile ent' bs'
    × (ent'.va_fileid ≡ ent.va_fileid)
    × (ent'.file.datalen ≡ length_after ent.file.datalen (off + length src))
    × IsWhole bs'
    × ((j : ℕ) → j < length src → file_byte ent.va_fileid (off + j) bs' ≡ get_elem? src j)
    × ((id j : ℕ) → id ≢ 0 → id ≢ ent.va_fileid → stored id j bs' ≡ stored id j s.blocks)

abbrev pub Written : State → ℕ → Entry → WriteBufResp → ℕ → List ℕ → WriteReq → Type 0
Written s i ent reply off src req =
    (out : List WriteBufResp) × (ent' : Entry) × (bs' : List Block) × (handle_write reply req
        (node_write_loop (length src) reply src).messages s
      ≡ done (record { exists = 1; err = 0 }, out, after s i ent' bs'))
    × (out ≡ map (λ m. reply) (node_write_loop (length src) reply src).messages)
    × ((node_write_loop (length src) reply src).resid ≡ 0)
    × ((node_write_loop (length src) reply src).err ≡ 0)
    × Holds s ent off src ent' bs'

-- The read of the bytes from the state that the write left.
abbrev pub ReadsBack : List ℕ → State → ReadResp → ReadReq → Type 0
ReadsBack src s' junk rreq =
    (g : Got) × (node_read_loop (suc (length src)) (ask junk s') rreq (length src) ≡ done g)
    × (g.bytes ≡ src)
    × (g.resid ≡ 0)
    × (g.err ≡ 0)

module _ (s : State) (i : ℕ) (ent : Entry) (reply : WriteBufResp) (ok : reply.err ≡ 0)
    (by_id : find_by_id ent.va_fileid s.entries ≡ some i) (at_i : get_elem? s.entries i ≡ some ent)
    (v : IsFile ent s.blocks) (whole : IsWhole s.blocks) (off : ℕ) (src : List ℕ)
    (starts : off % 128 ≡ 0) (small : off + length src < 2 ^ 32)
    (room : blocks_for (off + length src) - ent.file.numblocks ≤ free_count s.blocks) where
  Stores-Holds :
      (e : ℕ) (ent' : Entry) (bs bs' : List Block)
      → Grown ent (off + length src) s.blocks (e, ent', bs)
      → Stores ent'.va_fileid off src bs bs'
      → Holds s ent off src ent' bs'
  Stores-Holds e ent' bs bs' (zero_err, good, same, long, full, others) st = (
    record {
      has_id = good.has_id;
      same_size = good.same_size;
      fits = good.fits;
      enough = good.enough;
      owns = λ j. st.same_copies ent'.va_fileid j ∙ good.owns j;
    },
    same,
    long,
    st.whole,
    (λ j below.
        subst (λ t. file_byte t (off + j) bs' ≡ get_elem? src j) same
          (ground (arith, st.bytes (off + j), same_place j))),
    (λ id j pos apart. st.others id j (λ e. apart (e ∙ same)) ∙ others id j pos apart),
  )
    where
      same_place : (j : ℕ) → get_elem? src (off + j - off) ≡ get_elem? src j
      same_place j = ap (get_elem? src) (omega arith)

  grow_for-Written :
      (req : WriteReq) (r : ℕ × Entry × List Block)
      → req.fileid ≡ ent.va_fileid
      → req.offset ≡ off
      → req.resid ≡ length src
      → grow_for ent req s.blocks ≡ r
      → Grown ent (off + length src) s.blocks r
      → Written s i ent reply off src req
  unfolding handle_write write_at write_data
  grow_for-Written req (e, ent', bs) same at_off is_resid grew g =
      let (out, bs', ran, answers, left, err, st) =
        node_write-Stores ent'.va_fileid reply ok (length src) off src bs (omega arith) (inl starts)
          (omega arith) g.4
          (IsFile-Covers ent' bs off (off + length src) g.1 (ground (arith, g.3))) in
      (
        out,
        ent',
        bs',
        ground (arith, by_id, at_i, grew, ran, same, at_off, is_resid, g),
        answers,
        left,
        err,
        Stores-Holds e ent' bs bs' g st,
      )

  pub handle_write-Written :
      (req : WriteReq)
      → req.fileid ≡ ent.va_fileid
      → req.offset ≡ off
      → req.resid ≡ length src
      → Written s i ent reply off src req
  handle_write-Written req same at_off is_resid =
      grow_for-Written req (grow_for ent req s.blocks) same at_off is_resid refl (
        subst (λ (t : ℕ). Grown ent t s.blocks (grow_for ent req s.blocks)) (is_end)
          (grow_for-Grown ent s.blocks req v whole (omega (arith, is_end)) (
            subst (λ (t : ℕ). blocks_for t - ent.file.numblocks ≤ free_count s.blocks) (sym is_end)
              room)))
    where
      is_end : req.offset + req.resid ≡ off + length src
      is_end = omega (arith, at_off, is_resid)

  Holds-ReadsBack :
      (ent' : Entry) (bs' : List Block) (junk : ReadResp) (rreq : ReadReq)
      → Holds s ent off src ent' bs'
      → length junk.buf ≡ 128
      → rreq.fileid ≡ ent.va_fileid
      → rreq.offset ≡ off
      → (length src % 128 ≡ 0) ⊎ (ent.file.datalen ≤ off + length src)
      → ReadsBack src (after s i ent' bs') junk rreq
  Holds-ReadsBack ent' bs' junk rreq (good, same, long, full, bytes, others) size is_file at_off
        fits =
      let (g, ran, fine, left, len, holds) =
        node_read-ReadsFile (after s i ent' bs') i ent' junk found at_new good.fits full size
          (IsFile-Covers ent' bs' 0 ent'.file.datalen good (omega arith)) (suc (length src)) rreq
          (length src) (omega arith) (is_file ∙ sym same) (ground (arith, long, at_off))
          (ground (arith, at_off, starts)) (ground (arith, long, at_off, fits)) in
      (
        g,
        ran,
        list_ext g.bytes src (ground (arith, len, long, at_off)) (λ j below.
            holds j (ground (arith, long, at_off))
            ∙ same_place j
            ∙ bytes j (ground (arith, len, long, at_off))),
        ground (arith, left, long, at_off),
        fine,
      )
    where
      found : find_by_id ent'.va_fileid (set s.entries i ent') ≡ some i
      found = find_by_id-set_self s.entries ent.va_fileid i ent' by_id same

      same_place :
          (j : ℕ)
          → file_byte ent'.va_fileid (rreq.offset + j) bs' ≡ file_byte ent.va_fileid (off + j) bs'
      same_place j =
          ap (λ (t : ℕ). file_byte t (rreq.offset + j) bs') same
          ∙ ap (λ (t : ℕ). file_byte ent.va_fileid (t + j) bs') at_off

      at_new : get_elem? (set s.entries i ent') i ≡ some ent'
      at_new = get_elem?-set_self s.entries i ent' (lt_of_get_elem? s.entries i at_i)

  -- A write to a file that `find_by_id` finds and that is in a good state, with blocks of 128 bytes,
  -- from the start of a block to an end below 2 ^ 32, with enough free blocks where the file grows
  -- and with messages that are answered with `err = 0`, and a read of the same range after it, where
  -- it is whole blocks or reaches to the end of the file, into a response of 128 bytes. The write is
  -- answered with `err = 0`, the loop of `puffboy_node_write` returns 0 with nothing left to write,
  -- the file is in a good state at the greater of its old length and the end of the write, and the
  -- blocks of the other files are as they were. The loop of `puffboy_node_read` then returns 0 and
  -- has filled the buffer with exactly the bytes that were written.
  pub handle_write-read :
      (req : WriteReq) (junk : ReadResp) (rreq : ReadReq)
      → req.fileid ≡ ent.va_fileid
      → req.offset ≡ off
      → req.resid ≡ length src
      → length junk.buf ≡ 128
      → rreq.fileid ≡ ent.va_fileid
      → rreq.offset ≡ off
      → (length src % 128 ≡ 0) ⊎ (ent.file.datalen ≤ off + length src)
      → (w : Written s i ent reply off src req) × ReadsBack src (after s i w.1 w.2) junk rreq
  handle_write-read req junk rreq same at_off is_resid size is_file read_off fits =
      let w = handle_write-Written req same at_off is_resid in
      (w, Holds-ReadsBack w.1 w.2 junk rreq w.7 size is_file read_off fits)
