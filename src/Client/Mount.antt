-- ===== src/Client/Mount.antt =====
-- What is told about the file system as such: `puffboy_node_pathconf` of wii/node/pathconf.c,
-- `puffboy_baseattrs` of wii/pba_ops.c and `puffboy_domount` of wii/main.c.
use net_bsd_wii_joybus.Base.{ℕ, Option, none, some, List, [], ◌∷◌, ◌==◌, if◌then◌else◌}
use net_bsd_wii_joybus.Server.{vdir}
use net_bsd_wii_joybus.Client.Nodes.{Vattr, Node, vnoval}

-- The constants of the system's headers: the names that `pathconf` knows, and its limits.
pub record System : Type 0 where
  pub pc_link_max : ℕ
  pub pc_name_max : ℕ
  pub pc_path_max : ℕ
  pub pc_pipe_buf : ℕ
  pub pc_chown_restricted : ℕ
  pub pc_no_trunc : ℕ
  pub pc_sync_io : ℕ
  pub pc_filesizebits : ℕ
  pub pc_symlink_max : ℕ
  pub pc_2_symlinks : ℕ
  pub link_max : ℕ
  pub name_max : ℕ
  pub path_max : ℕ
  pub pipe_buf : ℕ
  pub maxpathlen : ℕ

abbrev pub einval : ℕ
einval = 22

-- The cases of `switch (name)` with their values.
abbrev pub limits : System → List (ℕ × ℕ)
limits c =
    (c.pc_link_max, c.link_max)
    ∷ (c.pc_name_max, c.name_max)
    ∷ (c.pc_path_max, c.path_max)
    ∷ (c.pc_pipe_buf, c.pipe_buf)
    ∷ (c.pc_chown_restricted, 1)
    ∷ (c.pc_no_trunc, 1)
    ∷ (c.pc_sync_io, 1)
    ∷ (c.pc_filesizebits, 43)
    ∷ (c.pc_symlink_max, c.maxpathlen)
    ∷ (c.pc_2_symlinks, 1)
    ∷ []

unfoldable pub limit_of : ℕ → List (ℕ × ℕ) → ℕ × Option ℕ
limit_of name [] = (einval, none)
limit_of name ((pc, value) ∷ cases) =
    let rest = limit_of name cases in if name == pc then (0, some value) else rest

-- `puffboy_node_pathconf`: the value returned, and `*retval` where it is set.
abbrev pub node_pathconf : System → ℕ → ℕ × Option ℕ
node_pathconf c name = limit_of name (limits c)

-- `puffboy_baseattrs`, but for the times: `page` is what `getpagesize` returns, `gen` what `random`
-- does.
unfoldable pub base_vattr : Vattr → ℕ → ℕ → ℕ → ℕ → Vattr
base_vattr vap type id page gen = record vap {
  va_type = type;
  va_mode = if type == vdir then 0o777 else 0o666;
  va_nlink = if type == vdir then 1 else 0;
  va_uid = 0;
  va_gid = 0;
  va_fileid = id;
  va_size = 0;
  va_blocksize = page;
  va_gen = gen;
  va_flags = 0;
  va_rdev = vnoval;
  va_bytes = 0;
  va_filerev = 1;
  va_vaflags = 0;
}

-- `puffboy_domount`: the nodes with that of the root, which `puffs_setroot` is told too.
unfoldable pub mount_root : Vattr → List Node → List Node
mount_root blank ns =
    record { id = 1; pn_va = record blank { va_type = vdir; va_mode = 0o755 } } ∷ ns
