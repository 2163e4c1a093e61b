-- ===== src/Client/Nodes.antt =====
-- The other operations of puffboy_advance/wii/node and fs/statvfs.c. `gba` is the exchange of a
-- request for its response, with the state `σ` of the other side; what puffs is told is part of the
-- result. `blank` is the attributes of a node that `puffs_pn_new` makes.
mod Data
unfoldable pub use Data.{
  node_init, pba_cmap, request_name, looked_up, fill_vattr, new_dir_vattr, new_file_vattr, made,
  is_dataless,
}
pub use Data.{Vattr, Node, enodev, eisdir, eopnotsupp, estale, NewInfo, vsock, vnoval}
use net_bsd_wii_joybus.Base.{
  ℕ, ◌^◌, ◌-◌, Bool, false, Option, none, some, List, ◌∷◌, ◌==◌, ◌||◌, ltb, if◌then◌else◌, set,
  take,
}
use net_bsd_wii_joybus.Message.Layout.{bswap64}
use net_bsd_wii_joybus.Message.{
  StatvfsResp, LookupReq, LookupResp, GetattrReq, AttrResp, CreateReq, WriteReq, WriteResp, RmReq,
  RmResp, ReclaimReq, SetattrReq, SetattrResp,
}
use net_bsd_wii_joybus.Server.Handlers.{enoent}
use net_bsd_wii_joybus.Server.{Run, done, ◌>>=◌, deref, find_index, vreg, vdir}

module _ {σ : Type 0} where
  unfoldable pub node_lookup :
      (LookupReq → σ → Run (LookupResp × σ))
      → Bool
      → ℕ
      → List ℕ
      → σ
      → Run ((ℕ × Option NewInfo) × σ)
  node_lookup gba dotdot parent name s =
      if dotdot
      then done ((enoent, none), s)
      else (gba (record { parent_fileid = parent; name = request_name name }) s >>= λ (resp, s').
          done (looked_up resp, s'))

  unfoldable pub node_getattr :
      (GetattrReq → σ → Run (AttrResp × σ)) → ℕ → Vattr → σ → Run ((ℕ × Vattr) × σ)
  node_getattr gba id vap s = gba (record { fileid = id }) s >>= λ (resp, s').
      done ((if resp.exists == 0 then (estale, vap) else (0, fill_vattr vap resp)), s')

  unfoldable pub node_mkdir :
      (CreateReq → σ → Run (AttrResp × σ))
      → Vattr
      → ℕ
      → List ℕ
      → List Node
      → σ
      → Run ((ℕ × Option ℕ × List Node) × σ)
  node_mkdir gba blank parent name ns s =
      gba (record { parent_fileid = parent; name = request_name name }) s >>= λ (resp, s').
      done (made (new_dir_vattr blank) resp ns, s')

  -- `gba` answers `CMD_CREATE`; `type` is the type asked for.
  unfoldable pub node_create :
      (CreateReq → σ → Run (AttrResp × σ))
      → Vattr
      → ℕ
      → ℕ
      → List ℕ
      → List Node
      → σ
      → Run ((ℕ × Option ℕ × List Node) × σ)
  node_create gba blank type parent name ns s =
      let sent : Run ((ℕ × Option ℕ × List Node) × σ) =
        gba (record { parent_fileid = parent; name = request_name name }) s >>= λ (resp, s').
        done (made (new_file_vattr blank) resp ns, s') in
      if (type == vreg) || (type == vsock) then sent else done ((enodev, none, ns), s)

  -- `puffboy_node_reclaim`: the error, whether `puffs_pn_put` is called, the nodes. The entry stays
  -- in the list.
  unfoldable pub node_reclaim :
      (ReclaimReq → σ → Run (RmResp × σ))
      → Vattr
      → ℕ
      → List Node
      → σ
      → Run ((ℕ × Bool × List Node) × σ)
  node_reclaim gba blank id ns s =
      let (i, ns') = pba_cmap blank id ns in
      gba (record { va_fileid = id }) s >>= λ (resp, s'). deref ns' i >>= λ pn.
      if ltb 0 resp.err
      then done ((resp.err, false, ns'), s')
      else done (
        (
          0,
          resp.va_nlink == 0,
          set ns' i (record pn { pn_va = record pn.pn_va { va_nlink = resp.va_nlink } }),
        ),
        s',
      )

  -- `puffboy_node_remove`: the error, whether `PUFFS_SETBACK_NOREF_N2` is set, the nodes.
  unfoldable pub node_remove :
      (RmReq → σ → Run (RmResp × σ))
      → Vattr
      → ℕ
      → ℕ
      → List ℕ
      → List Node
      → σ
      → Run ((ℕ × Bool × List Node) × σ)
  node_remove gba blank parent targ name ns s =
      let (i, ns') = pba_cmap blank targ ns in
      gba (record { parent_fileid = parent; name = request_name name }) s >>= λ (resp, s').
      deref ns' i >>= λ pn.
      if ltb 0 resp.err
      then done ((resp.err, false, ns'), s')
      else done (
        (
          0,
          resp.va_nlink == 0,
          set ns' i (record pn { pn_va = record pn.pn_va { va_nlink = resp.va_nlink } }),
        ),
        s',
      )

  -- `puffboy_node_setattr`, for the size asked for; `va_bytes` becomes the size too.
  unfoldable pub node_setattr :
      (SetattrReq → σ → Run (SetattrResp × σ))
      → Vattr
      → ℕ
      → ℕ
      → List Node
      → σ
      → Run ((ℕ × List Node) × σ)
  node_setattr gba blank id size ns s =
      let (i, ns') = pba_cmap blank id ns in
      deref ns' i >>= λ pn.
      let resized : Run ((ℕ × List Node) × σ) =
        gba (record { va_fileid = id; va_size = size }) s >>= λ (resp, s').
        if ltb 0 resp.err
        then done ((resp.err, ns'), s')
        else done (
          (
            0,
            set ns' i (record pn {
              pn_va = record pn.pn_va { va_size = resp.va_size; va_bytes = resp.va_size };
            }),
          ),
          s',
        ) in
      let t = pn.pn_va.va_type in
      if size == vnoval
      then done ((0, ns'), s)
      else (if t == vreg
          then resized
          else (if is_dataless t
              then done ((0, ns'), s)
              else done (((if t == vdir then eisdir else eopnotsupp), ns'), s)))

  -- `puffboy_fs_statvfs`: the fields go over as they are.
  unfoldable pub fs_statvfs : (σ → StatvfsResp × σ) → σ → (ℕ × StatvfsResp) × σ
  fs_statvfs gba s = let (resp, s') = gba s in ((0, resp), s')

  -- `puffboy_node_write` up to its loop: the value it returns early, or none.
  unfoldable pub node_write_start :
      (WriteReq → σ → Run (WriteResp × σ)) → ℕ → Bool → ℕ → ℕ → σ → Run (Option ℕ × σ)
  node_write_start gba id append offset resid s =
      gba
        (record {
          fileid = id;
          io_append = if append then 1 else 0;
          offset = offset;
          resid = resid;
        })
        s
      >>= λ (resp, s'). done (
        (if resp.exists == 0
            then some enoent
            else (if ltb 0 resp.err then some resp.err else none)),
        s',
      )

-- `puffboy_node_inactive`: the error, whether `PUFFS_SETBACK_NOREF_N2` is set, the nodes.
unfoldable pub node_inactive : Vattr → ℕ → List Node → Run (ℕ × Bool × List Node)
node_inactive blank id ns =
    let (i, ns') = pba_cmap blank id ns in
    deref ns' i >>= λ pn. done (0, pn.pn_va.va_nlink == 0, ns')
