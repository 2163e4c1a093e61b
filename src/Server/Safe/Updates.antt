-- ===== src/Server/Safe/Updates.antt =====
-- The handlers that change the tables, and the reads.
use net_bsd_wii_joybus.Base.{
  ℕ, ◌+◌, ◌%◌, ◌^◌, ◌<◌, ◌≡◌, refl, Option, none, some, List, ◌==◌, ltb, Bool-cases, inl, inr,
  is_some, set, length, All, true, false,
}
use net_bsd_wii_joybus.Message.{
  AttrResp, CreateReq, WriteReq, WriteResp, WriteBufReq, WriteBufResp, ReadReq, ReadResp, RmReq,
  RmResp, ReclaimReq, SetattrReq, SetattrResp,
}
use net_bsd_wii_joybus.Server.{
  Entry, Block, State, Run, done, fault, spins, waits, ◌>>=◌, deref, find_by_id, vdir,
}
use net_bsd_wii_joybus.Server.Blocks.{entry_setsize, write_loop}
use net_bsd_wii_joybus.Server.Tree.{
  find_name, entry_init, entry_append, entry_remove, entry_reclaim, print_name, format, name_size,
  is_string,
}
use net_bsd_wii_joybus.Server.Handlers.{
  enoent, enotdir, attr_resp, link_entry, create_in, handle_create, read_at, handle_read,
  setsize_at, handle_setsize, grow_for, write_data, write_at, handle_write, reclaim_at,
  handle_reclaim, rm_found, rm_refused, rm_in, handle_rm,
}
use net_bsd_wii_joybus.Server.Safe.{
  Safe, Safe-bind, Runs, Runs-bind, Safe-Runs, Runs-Safe, Runs-Keeps, Keeps, Keeps-bind, Safe-Keeps,
  if-Safe, if-Keeps, IsPtr, IsSound, IsTable, IsState, deref-Safe, set-IsTable,
}
use net_bsd_wii_joybus.Server.Tree.Names.{is_plain, format-is_plain, format-Runs, print_name-Runs}
use net_bsd_wii_joybus.Server.Safe.Walks.{find_name-Safe}
use net_bsd_wii_joybus.Server.Safe.Tree.{
  entry_append-IsTable, entry_remove-IsTable, entry_reclaim-IsState, Inits, entry_init-Inits,
}
use net_bsd_wii_joybus.Server.Safe.Blocks.{
  Resizes, entry_setsize-Resizes, write_loop-AreBlocks, AreBlocks, OnBlocks,
}
use net_bsd_wii_joybus.Server.Safe.Handlers.{
  found-IsPtr, at-Safe, attr_resp-Safe, with_entries-IsState,
}

module _ (n m : ℕ) where
  abbrev Good {ℓ} : {A : Type ℓ} → A × State → Type 0
  Good r = IsState n m r.1

  -- `X` stands for what an undefined `snprintf` gives.
  module _ (X : Type 0) (name : List ℕ) (prints : Runs X (λ _. Unit) (format false name)) where
    module _ (s : State) (v : IsState n m s) where
      link_entry-Runs :
          (fuel parent i : ℕ)
          → parent < n
          → i < n
          → Runs X (IsState n m) (link_entry fuel name parent i s)
      unfolding link_entry
      link_entry-Runs fuel parent i hp hi =
          Runs-bind X (IsTable n) (IsState n m) (entry_append fuel s.entries parent i) _
            (Safe-Runs X (IsTable n) _
              (entry_append-IsTable n fuel s.entries parent i v.table hp hi))
            λ es t.
              Runs-bind X (IsSound n) (IsState n m) (deref es i) _
                (Safe-Runs X (IsSound n) _ (deref-Safe n es i t hi))
                λ ent sound.
                  Runs-bind X (λ text. is_string name_size text ≡ true) (IsState n m)
                    (print_name ent.name name) _ (print_name-Runs X ent.name name prints)
                    λ text named.
                      with_entries-IsState n m s v _ (
                        set-IsTable n es i (record ent { name = text }) t (sound.0, sound.1, named))

    create_in-Runs :
        (fuel : ℕ) (junk : AttrResp) (parent : ℕ) (r : Option ℕ × State)
        → parent < n
        → (IsPtr n r.0 × IsState n m r.1)
        → Runs X Good (create_in fuel junk name parent r)
    unfolding create_in
    create_in-Runs fuel junk parent (none, s) hp h = h.1
    create_in-Runs fuel junk parent (some i, s) hp h =
        Runs-bind X (IsState n m) Good (link_entry fuel name parent i s) _
          (link_entry-Runs s h.1 fuel parent i hp h.0)
          λ s' v'.
            Runs-bind X (λ _. Unit) Good (attr_resp s'.entries junk (some i)) _
              (Safe-Runs X (λ _. Unit) _ (attr_resp-Safe n m s' v' junk (some i) h.0)) λ resp _. v'

    module _ (s : State) (v : IsState n m s) where
      create_at-Runs :
          (fuel gen vt : ℕ) (junk : AttrResp) (parent : Option ℕ)
          → IsPtr n parent
          → Runs X Good (elim parent [
            | none ↦ done (record junk { exists = 0 }, s)
            | some p ↦ entry_init vt gen s >>= create_in fuel junk name p
          ])
      create_at-Runs fuel gen vt junk none h = v
      create_at-Runs fuel gen vt junk (some p) h =
          Runs-bind X (Inits n m s v) Good (entry_init vt gen s) _
            (Safe-Runs X (Inits n m s v) _ (entry_init-Inits n m s v vt gen))
            λ r h'. create_in-Runs fuel junk p r h h'

      handle_create-Runs :
          (fuel gen vt : ℕ) (junk : AttrResp) (id : ℕ)
          → Runs X Good
              (handle_create fuel gen vt junk (record { parent_fileid = id; name = name }) s)
      unfolding handle_create
      handle_create-Runs fuel gen vt junk id =
          create_at-Runs fuel gen vt junk (find_by_id id s.entries) (found-IsPtr n m s v id)

  module _ (s : State) (v : IsState n m s) where
    pub handle_create-Safe :
        (fuel gen vt : ℕ) (junk : AttrResp) (req : CreateReq)
        → is_plain req.name ≡ true
        → Safe Good (handle_create fuel gen vt junk req s)
    handle_create-Safe fuel gen vt junk req plain = Runs-Safe Good _ (
        handle_create-Runs ⊥ req.name (rw (format-is_plain req.name plain) tt) s v fuel gen vt junk
          req.parent_fileid)

    pub handle_create-Keeps :
        (fuel gen vt : ℕ) (junk : AttrResp) (req : CreateReq)
        → Keeps Good (handle_create fuel gen vt junk req s)
    handle_create-Keeps fuel gen vt junk req = Runs-Keeps Good _ (
        handle_create-Runs Unit req.name (format-Runs req.name) s v fuel gen vt junk
          req.parent_fileid)

    pub handle_read-Keeps : (junk : ReadResp) (req : ReadReq) → Keeps Good (handle_read junk req s)
    unfolding handle_read
    handle_read-Keeps junk req =
        Keeps-bind (λ _. Unit) Good (read_at s req junk (find_by_id req.fileid s.entries)) _
          (anything (read_at s req junk (find_by_id req.fileid s.entries))) λ resp _. v
      where
        anything : (r : Run ReadResp) → Keeps (λ _. Unit) r
        anything (done a) = tt
        anything fault = tt
        anything spins = tt
        anything waits = tt

    resized-IsState :
        (i newsize : ℕ) (ent : Entry)
        → IsSound n ent
        → let r = entry_setsize ent newsize s.blocks in
          IsState n m (record s { entries = set s.entries i r.1; blocks = r.2 })
    resized-IsState i newsize ent links =
        let (same_next, same_child, same_name, (size, whole)) =
          entry_setsize-Resizes m ent newsize s.blocks (v.block_count, v.whole) in
        record {
          table =
              set-IsTable n s.entries i (entry_setsize ent newsize s.blocks).1 v.table
                (rw same_next links.0, rw same_child links.1, rw same_name links.2);
          block_count = size;
          whole = whole;
        }

    setsize_at-Safe :
        (req : SetattrReq) (junk : SetattrResp) (o : Option ℕ)
        → IsPtr n o
        → Safe Good (setsize_at s req junk o)
    unfolding setsize_at
    setsize_at-Safe req junk none h = v
    setsize_at-Safe req junk (some i) h =
        Safe-bind (IsSound n) Good (deref s.entries i) _ (at-Safe n m s v i h)
          λ ent links. resized-IsState i (req.va_size % 2 ^ 32) ent links

    pub handle_setsize-Safe :
        (junk : SetattrResp) (req : SetattrReq) → Safe Good (handle_setsize junk req s)
    unfolding handle_setsize
    handle_setsize-Safe junk req =
        setsize_at-Safe req junk (find_by_id req.va_fileid s.entries)
          (found-IsPtr n m s v req.va_fileid)

    reclaim_at-Safe : (junk : RmResp) (o : Option ℕ) → IsPtr n o → Safe Good (reclaim_at s junk o)
    unfolding reclaim_at
    reclaim_at-Safe junk none h = v
    reclaim_at-Safe junk (some i) h =
        Safe-bind (IsSound n) Good (deref s.entries i) _ (at-Safe n m s v i h) λ ent links.
          Safe-bind (IsState n m) Good (entry_reclaim i s) _ (entry_reclaim-IsState n m s v i h)
            λ s' v'.
              Safe-bind (IsSound n) Good (deref s'.entries i) _ (at-Safe n m s' v' i h)
                λ ent' links'. v'

    pub handle_reclaim-Safe :
        (junk : RmResp) (req : ReclaimReq) → Safe Good (handle_reclaim junk req s)
    unfolding handle_reclaim
    handle_reclaim-Safe junk req =
        reclaim_at-Safe junk (find_by_id req.va_fileid s.entries)
          (found-IsPtr n m s v req.va_fileid)

    rm_found-Safe :
        (fuel : ℕ) (junk : RmResp) (parent : ℕ) (o : Option ℕ)
        → parent < n
        → IsPtr n o
        → Safe Good (rm_found fuel junk parent s o)
    unfolding rm_found
    rm_found-Safe fuel junk parent none hp h = v
    rm_found-Safe fuel junk parent (some i) hp h =
        Safe-bind (IsSound n) Good (deref s.entries i) _ (at-Safe n m s v i h) λ res links.
          Safe-bind (IsTable n) Good (entry_remove fuel s.entries parent i) _
            (entry_remove-IsTable n fuel s.entries parent i v.table hp h)
            λ es t.
              Safe-bind (IsSound n) Good (deref es i) _ (deref-Safe n es i t h)
                λ res' links'. with_entries-IsState n m s v es t

    rm_in-Safe :
        (fuel : ℕ) (junk : RmResp) (name : List ℕ) (o : Option ℕ)
        → IsPtr n o
        → Safe Good (rm_in fuel junk name s o)
    unfolding rm_in rm_refused
    rm_in-Safe fuel junk name none h = v
    rm_in-Safe fuel junk name (some p) h =
        Safe-bind (IsSound n) Good (deref s.entries p) _ (at-Safe n m s v p h) λ parent links.
          if-Safe Good (is_some parent.child) _ (rm_refused enoent junk s)
            (if-Safe Good (parent.va_type == vdir) _ (rm_refused enotdir junk s)
              (Safe-bind (IsPtr n) Good (find_name fuel s.entries name parent.child) _
                (find_name-Safe n s.entries v.table fuel name parent.child links.1)
                λ o h'. rm_found-Safe fuel junk p o h h')
              v)
            v

    pub handle_rm-Safe :
        (fuel : ℕ) (junk : RmResp) (req : RmReq) → Safe Good (handle_rm fuel junk req s)
    unfolding handle_rm
    handle_rm-Safe fuel junk req =
        rm_in-Safe fuel junk req.name (find_by_id req.parent_fileid s.entries)
          (found-IsPtr n m s v req.parent_fileid)

    -- The state that a write leaves.
    abbrev Wrote : WriteResp × List WriteBufResp × State → Type 0
    Wrote r = IsState n m r.2

    write_data-Keeps :
        (junk : WriteBufResp) (req : WriteReq) (msgs : List WriteBufReq) (i err : ℕ) (ent : Entry)
        (bs : List Block)
        → All (λ msg. length msg.buf ≡ 128) msgs
        → IsSound n ent
        → AreBlocks m bs
        → Keeps Wrote (write_data junk req msgs i (err, ent, bs) s)
    unfolding write_data
    write_data-Keeps junk req msgs i err ent bs sizes links h =
        let t = set-IsTable n s.entries i ent v.table links in
        if-Keeps Wrote (ltb 0 err) _ _ (record { table = t; block_count = h.0; whole = h.1 })
          (Keeps-bind (λ r. OnBlocks m r.1) Wrote
            (write_loop ent.va_fileid junk msgs
              (record { offset = req.offset; resid = req.resid; blocks = bs }))
            _
            (write_loop-AreBlocks m ent.va_fileid junk msgs
              (record { offset = req.offset; resid = req.resid; blocks = bs }) sizes h)
            λ r h'. record { table = t; block_count = h'.0; whole = h'.1 })

    grow_for-Resizes : (ent : Entry) (req : WriteReq) → Resizes m ent (grow_for ent req s.blocks)
    unfolding grow_for
    grow_for-Resizes ent req =
        elim (Bool-cases (ltb ent.va_size ((req.offset + req.resid) % 2 ^ 64))) [
          | inl grows ↦ rw grows (
              entry_setsize-Resizes m ent ((req.offset + req.resid) % 2 ^ 64 % 2 ^ 32) s.blocks
                (v.block_count, v.whole))
          | inr fits ↦ rw fits (refl, refl, refl, (v.block_count, v.whole))
        ]

    write_at-Keeps :
        (junk : WriteBufResp) (req : WriteReq) (msgs : List WriteBufReq) (o : Option ℕ)
        → All (λ msg. length msg.buf ≡ 128) msgs
        → IsPtr n o
        → Keeps Wrote (write_at junk req msgs s o)
    unfolding write_at
    write_at-Keeps junk req msgs none sizes h = v
    write_at-Keeps junk req msgs (some i) sizes h =
        Keeps-bind (IsSound n) Wrote (deref s.entries i) _
          (Safe-Keeps (IsSound n) (deref s.entries i) (at-Safe n m s v i h))
          λ ent links.
            let g = grow_for-Resizes ent req in
            write_data-Keeps junk req msgs i (grow_for ent req s.blocks).0
              (grow_for ent req s.blocks).1 (grow_for ent req s.blocks).2 sizes
              (rw g.0 links.0, rw g.1 links.1, rw g.2 links.2) g.3

    pub handle_write-Keeps :
        (junk : WriteBufResp) (req : WriteReq) (msgs : List WriteBufReq)
        → All (λ msg. length msg.buf ≡ 128) msgs
        → Keeps Wrote (handle_write junk req msgs s)
    unfolding handle_write
    handle_write-Keeps junk req msgs sizes =
        write_at-Keeps junk req msgs (find_by_id req.fileid s.entries) sizes
          (found-IsPtr n m s v req.fileid)
