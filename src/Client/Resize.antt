-- ===== src/Client/Resize.antt =====
-- `puffboy_node_setattr` against `handle_setsize_request`.
use mathlib.Core.Path.{subst}
use net_bsd_wii_joybus.Base.{
  ℕ, ◌-◌, ◌^◌, ◌%◌, ◌<◌, ◌≤◌, ◌≡◌, ◌≢◌, ◌==◌, ==_ne, get_elem?-set_self, lt_of_get_elem?, arith,
  some, List, get_elem?, set,
}
use net_bsd_wii_joybus.Message.{SetattrResp}
use net_bsd_wii_joybus.Server.{Block, Entry, State, done, find_by_id, find_index, vreg}
use net_bsd_wii_joybus.Server.Blocks.{entry_setsize}
use net_bsd_wii_joybus.Server.Blocks.Take.{free_count}
use net_bsd_wii_joybus.Server.Blocks.Setsize.{
  IsFile, blocks_for, entry_setsize-leaks, entry_setsize-Resized,
}
use net_bsd_wii_joybus.Server.Handlers.{handle_setsize, setsize_at}
use net_bsd_wii_joybus.Client.Nodes.{Node, Vattr, pba_cmap, node_setattr}

-- A node after a change of its size.
abbrev pub resized : Node → ℕ → Node
resized pn size = record pn { pn_va = record pn.pn_va { va_size = size; va_bytes = size } }

module _ (s : State) (i : ℕ) (ent : Entry) (newsize : ℕ)
    (by_id : find_by_id ent.va_fileid s.entries ≡ some i) (at_i : get_elem? s.entries i ≡ some ent)
    (v : IsFile ent s.blocks) (small : newsize < 2 ^ 32) (blank : Vattr) (junk : SetattrResp)
    (ns : List Node) (k : ℕ) (pn : Node)
    (mapped : find_index (λ n. ent.va_fileid == n.id) ns ≡ some k) (at_k : get_elem? ns k ≡ some pn)
    (regular : pn.pn_va.va_type ≡ vreg) where
  abbrev r : ℕ × Entry × List Block
  r = entry_setsize ent newsize s.blocks

  handle_setsize-answer :
      handle_setsize junk (record { va_fileid = ent.va_fileid; va_size = newsize }) s
      ≡ done (
        record {
          err = 0;
          va_fileid = r.1.va_fileid;
          va_size = r.1.va_size;
          va_bytes = r.1.va_bytes;
        },
        record s { entries = set s.entries i r.1; blocks = r.2 },
      )
  unfolding handle_setsize setsize_at
  handle_setsize-answer =
      let low : newsize % 2 ^ 32 ≡ newsize = omega arith in ground (arith, by_id, at_i, low)

  node_setattr-answer :
      node_setattr (handle_setsize junk) blank ent.va_fileid newsize ns s
      ≡ done (
        (0, set ns k (resized pn r.1.va_size)),
        record s { entries = set s.entries i r.1; blocks = r.2 },
      )
  unfolding node_setattr pba_cmap
  node_setattr-answer =
      let in_range : newsize ≢ 2 ^ 64 - 1 = omega arith in
      ground
        (arith, mapped, at_k, ==_ne newsize (2 ^ 64 - 1) in_range, regular, handle_setsize-answer)

  -- `puffboy_node_setattr` of a regular file in a good state to a length below 2 ^ 32, with enough
  -- free blocks on the GBA where it grows: it returns 0, its node has the new length, and so has
  -- the file on the GBA, which is in a good state again.
  pub node_setattr-Resized :
      blocks_for newsize - ent.file.numblocks ≤ free_count s.blocks
      → (s' : State) × (node_setattr (handle_setsize junk) blank ent.va_fileid newsize ns s
          ≡ done ((0, set ns k (resized pn newsize)), s'))
        × (ent' : Entry) × (get_elem? s'.entries i ≡ some ent')
        × IsFile ent' s'.blocks
        × (ent'.va_size ≡ newsize)
  node_setattr-Resized room =
      let (ok, good, size, blocks) = entry_setsize-Resized ent s.blocks v newsize small room in
      (
        record s { entries = set s.entries i r.1; blocks = r.2 },
        subst
            (λ t.
              node_setattr (handle_setsize junk) blank ent.va_fileid newsize ns s
              ≡ done (
                (0, set ns k (resized pn t)),
                record s { entries = set s.entries i r.1; blocks = r.2 },
              ))
            size node_setattr-answer,
        r.1,
        get_elem?-set_self s.entries i r.1 (lt_of_get_elem? s.entries i at_i),
        good,
        size,
      )

  -- `puffboy_node_setattr` of a regular file in a good state to a greater length below 2 ^ 32, for
  -- which the GBA has too few blocks: it returns 0 all the same, with the old length in the node,
  -- and the GBA has no free block any more.
  pub node_setattr-unreported :
      ent.va_size < newsize
      → free_count s.blocks < blocks_for newsize - ent.file.numblocks
      → (s' : State) × (node_setattr (handle_setsize junk) blank ent.va_fileid newsize ns s
          ≡ done ((0, set ns k (resized pn ent.va_size)), s'))
        × (free_count s'.blocks ≡ 0)
  node_setattr-unreported more full =
      let (failed, same, none_free, owned) =
        entry_setsize-leaks ent s.blocks v newsize small more full in
      (
        record s { entries = set s.entries i r.1; blocks = r.2 },
        subst
            (λ t.
              node_setattr (handle_setsize junk) blank ent.va_fileid newsize ns s
              ≡ done (
                (0, set ns k (resized pn t.va_size)),
                record s { entries = set s.entries i r.1; blocks = r.2 },
              ))
            same node_setattr-answer,
        none_free,
      )
