-- ===== src/Client/Nodes/Data.antt =====
-- The nodes of the Wii and their attributes: pba_ops.c, and what the operations of
-- puffboy_advance/wii/node make of a response. `blank` is the attributes of a node that
-- `puffs_pn_new` makes.
use net_bsd_wii_joybus.Base.{
  ℕ, ◌^◌, ◌-◌, Bool, Option, none, some, List, ◌∷◌, ◌==◌, ◌||◌, if◌then◌else◌, take,
}
use net_bsd_wii_joybus.Message.Layout.{bswap64}
use net_bsd_wii_joybus.Message.{LookupResp, AttrResp}
use net_bsd_wii_joybus.Server.Handlers.{enoent}
use net_bsd_wii_joybus.Server.{find_index}

-- `struct vattr`, the fields that the code sets.
pub record Vattr : Type 0 where
  pub va_type : ℕ
  pub va_mode : ℕ
  pub va_nlink : ℕ
  pub va_uid : ℕ
  pub va_gid : ℕ
  pub va_fsid : ℕ
  pub va_fileid : ℕ
  pub va_size : ℕ
  pub va_blocksize : ℕ
  pub va_gen : ℕ
  pub va_flags : ℕ
  pub va_rdev : ℕ
  pub va_bytes : ℕ
  pub va_filerev : ℕ
  pub va_vaflags : ℕ
  pub va_spare : ℕ

-- `struct entry` of pba.h: an id and its node.
pub record Node : Type 0 where
  pub id : ℕ
  pub pn_va : Vattr

-- `entry_init`: a new entry at the head of the list.
unfoldable pub node_init : Vattr → ℕ → List Node → List Node
node_init blank id ns = record { id = id; pn_va = blank } ∷ ns

-- `pba_cmap`: the place of the id's node, which is made where there is none.
unfoldable pub pba_cmap : Vattr → ℕ → List Node → ℕ × List Node
unfolding node_init
pba_cmap blank id ns = elim (find_index (λ n. id == n.id) ns) [
  | none ↦ (0, node_init blank id ns)
  | some i ↦ (i, ns)
]

-- `ENODEV`, `EISDIR`, `EOPNOTSUPP` and `ESTALE`.
abbrev pub enodev : ℕ
enodev = 19

abbrev pub eisdir : ℕ
eisdir = 21

abbrev pub eopnotsupp : ℕ
eopnotsupp = 45

abbrev pub estale : ℕ
estale = 70

-- `memcpy(req.name, pcn->pcn_name, sizeof(req.name))`.
unfoldable pub request_name : List ℕ → List ℕ
request_name name = take 32 name

-- What `puffs_newinfo_set*` are told.
pub record NewInfo : Type 0 where
  pub cookie : ℕ
  pub vtype : ℕ
  pub size : ℕ
  pub rdev : ℕ

-- The end of `puffboy_node_lookup`: `gba_lookup` swaps neither `va_size` nor `va_rdev`.
unfoldable pub looked_up : LookupResp → ℕ × Option NewInfo
looked_up resp = if resp.exists == 0 then (enoent, none) else (
  0,
  some (record {
    cookie = resp.va_fileid;
    vtype = resp.va_type;
    size = bswap64 resp.va_size;
    rdev = bswap64 resp.va_rdev;
  }),
)

-- The attributes that `puffboy_node_getattr` fills in.
unfoldable pub fill_vattr : Vattr → AttrResp → Vattr
fill_vattr vap resp = record vap {
  va_type = resp.va_type;
  va_mode = resp.va_mode;
  va_nlink = resp.va_nlink;
  va_uid = resp.va_uid;
  va_gid = resp.va_gid;
  va_fsid = resp.va_fsid;
  va_fileid = resp.va_fileid;
  va_size = resp.va_size;
  va_blocksize = resp.va_blocksize;
  va_flags = resp.va_flags;
  va_rdev = resp.va_rdev;
  va_bytes = resp.va_bytes;
  va_filerev = resp.va_filerev;
  va_vaflags = resp.va_vaflags;
  va_spare = resp.va_spare;
}

-- The attributes of a new node: those of `puffboy_node_mkdir`, to which `puffboy_node_create` adds
-- `va_nlink` and `va_type`.
unfoldable pub new_dir_vattr : Vattr → AttrResp → Vattr
new_dir_vattr blank resp = record blank {
  va_uid = resp.va_uid;
  va_gid = resp.va_gid;
  va_fileid = resp.va_fileid;
  va_size = resp.va_size;
  va_blocksize = resp.va_blocksize;
  va_gen = resp.va_gen;
  va_flags = resp.va_flags;
  va_rdev = resp.va_rdev;
  va_bytes = resp.va_bytes;
  va_filerev = resp.va_filerev;
  va_vaflags = resp.va_vaflags;
}

unfoldable pub new_file_vattr : Vattr → AttrResp → Vattr
new_file_vattr blank resp = record (new_dir_vattr blank resp) {
  va_nlink = resp.va_nlink;
  va_type = resp.va_type;
}

-- A new node for a response, if the entry was made: the error, the cookie, the nodes.
unfoldable pub made : (AttrResp → Vattr) → AttrResp → List Node → ℕ × Option ℕ × List Node
made attrs resp ns =
    if resp.exists == 0
    then (enodev, none, ns)
    else (0, some resp.va_fileid, node_init (attrs resp) resp.va_fileid ns)

-- `vsock` of `enum vtype`, and the types without data.
abbrev pub vsock : ℕ
vsock = 6

unfoldable pub is_dataless : ℕ → Bool
is_dataless t = (t == 3) || ((t == 4) || (t == 7))

-- `PUFFS_VNOVAL` as a `u_quad_t`.
abbrev pub vnoval : ℕ
vnoval = 2 ^ 64 - 1
