-- ===== src/Client/WriteRead/FirstHalf.antt =====
-- The first half of `handle_write_request`: the file grows to the end of the write.
use mathlib.Core.Path.{subst}
use net_bsd_wii_joybus.Base.{
  ℕ, ◌+◌, ◌-◌, ◌/◌, ◌%◌, ◌^◌, ◌≤◌, ◌<◌, ◌≡◌, ◌≢◌, refl, sym, arith, some, List, inl, inr,
  Bool-cases, ltb, ◌==◌, ==_iff, if◌then◌else◌, length, set,
}
use net_bsd_wii_joybus.Message.{WriteReq}
use net_bsd_wii_joybus.Server.{Entry, Block, find_by_id}
use net_bsd_wii_joybus.Server.Search.{find_index-set_self}
use net_bsd_wii_joybus.Server.Blocks.{entry_setsize}
use net_bsd_wii_joybus.Server.Blocks.Take.{free_count, stored}
use net_bsd_wii_joybus.Server.Blocks.Setsize.{
  IsFile, blocks_for, entry_setsize-Resized, entry_setsize-stored,
}
use net_bsd_wii_joybus.Server.Blocks.Copy.{IsWhole, Covers}
use net_bsd_wii_joybus.Server.Safe.Blocks.{entry_setsize-Resizes}
use net_bsd_wii_joybus.Server.Handlers.{grow_for}

entry_setsize-va_fileid :
    (ent : Entry) (n : ℕ) (bs : List Block) → (entry_setsize ent n bs).1.va_fileid ≡ ent.va_fileid
unfolding entry_setsize
entry_setsize-va_fileid ent n bs = ground arith

pub find_by_id-set_self :
    (es : List Entry) (id i : ℕ) (new : Entry)
    → find_by_id id es ≡ some i
    → new.va_fileid ≡ id
    → find_by_id new.va_fileid (set es i new) ≡ some i
unfolding find_by_id
find_by_id-set_self es id i new by_id same =
    subst (λ (t : ℕ). find_by_id t (set es i new) ≡ some i) (sym same)
      (find_index-set_self (λ e. e.va_fileid == id) es new by_id ((==_iff new.va_fileid id).1 same))

-- A good file has the blocks for its bytes.
pub IsFile-Covers :
    (ent : Entry) (bs : List Block) (lo hi : ℕ)
    → IsFile ent bs
    → hi ≤ ent.file.datalen
    → Covers ent.va_fileid lo hi bs
IsFile-Covers ent bs lo hi v le o above below = ground (arith, v.owns (o / 128), v.enough)

-- The length of a file after a write up to `end`.
abbrev pub length_after : ℕ → ℕ → ℕ
length_after datalen end = if ltb datalen end then end else datalen

-- What the first half of `handle_write_request` leaves: a good file, long enough for the write.
abbrev pub Grown : Entry → ℕ → List Block → ℕ × Entry × List Block → Type 0
Grown ent end bs r =
    (r.0 ≡ 0)
    × IsFile r.1 r.2
    × (r.1.va_fileid ≡ ent.va_fileid)
    × (r.1.file.datalen ≡ length_after ent.file.datalen end)
    × IsWhole r.2
    × ((id j : ℕ) → id ≢ 0 → id ≢ ent.va_fileid → stored id j r.2 ≡ stored id j bs)

pub grow_for-Grown :
    (ent : Entry) (bs : List Block) (req : WriteReq)
    → IsFile ent bs
    → IsWhole bs
    → req.offset + req.resid < 2 ^ 32
    → blocks_for (req.offset + req.resid) - ent.file.numblocks ≤ free_count bs
    → Grown ent (req.offset + req.resid) bs (grow_for ent req bs)
unfolding grow_for
grow_for-Grown ent bs req v whole small room =
    let end = req.offset + req.resid in
    let wide : end % 2 ^ 64 ≡ end = omega arith in
    let low : end % 2 ^ 32 ≡ end = omega arith in
    elim (Bool-cases (ltb ent.va_size end)) [
      | inl longer ↦
          let (ok, good, size, free) = entry_setsize-Resized ent bs v end small room in
          rw (wide, low, longer)
            (
              ok,
              good,
              entry_setsize-va_fileid ent end bs,
              ground (arith, good.same_size, size, v.same_size, longer),
              (entry_setsize-Resizes (length bs) ent end bs (refl, whole)).3.1,
              λ id j pos apart. entry_setsize-stored ent bs v end small id j pos apart,
            )
      | inr fits ↦
          rw (wide, fits)
            (refl, v, refl, ground (arith, v.same_size, fits), whole, (λ id j pos apart. refl))
    ]
