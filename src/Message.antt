-- ===== src/Message.antt =====
-- The messages of puffboy_advance/shared/command.h, once their fields are in the reader's byte
-- order. Names and data are lists of bytes.
pub mod Layout
pub mod Structs
use net_bsd_wii_joybus.Base.{ℕ, List}

-- `CMD_STATVFS` to `CMD_SETSIZE`.
abbrev pub cmd_statvfs : ℕ
cmd_statvfs = 0x10

abbrev pub cmd_readdir : ℕ
cmd_readdir = 0x11

abbrev pub cmd_lookup : ℕ
cmd_lookup = 0x12

abbrev pub cmd_getattr : ℕ
cmd_getattr = 0x13

abbrev pub cmd_create : ℕ
cmd_create = 0x14

abbrev pub cmd_write : ℕ
cmd_write = 0x15

abbrev pub cmd_read : ℕ
cmd_read = 0x16

abbrev pub cmd_mkdir : ℕ
cmd_mkdir = 0x17

abbrev pub cmd_rm : ℕ
cmd_rm = 0x18

abbrev pub cmd_reclaim : ℕ
cmd_reclaim = 0x19

abbrev pub cmd_setsize : ℕ
cmd_setsize = 0x1a

-- `BLOCKSIZE`.
abbrev pub block_size : ℕ
block_size = 128

pub record StatvfsResp : Type 0 where
  pub f_bsize : ℕ
  pub f_frsize : ℕ
  pub f_blocks : ℕ
  pub f_bfree : ℕ
  pub f_bavail : ℕ
  pub f_bresvd : ℕ
  pub f_files : ℕ
  pub f_ffree : ℕ
  pub f_favail : ℕ
  pub f_fresvd : ℕ

pub record ReaddirReq : Type 0 where
  pub parent_fileid : ℕ
  pub n : ℕ

pub record ReaddirResp : Type 0 where
  pub exists : ℕ
  pub va_type : ℕ
  pub va_fileid : ℕ
  pub name : List ℕ

pub record LookupReq : Type 0 where
  pub parent_fileid : ℕ
  pub name : List ℕ

pub record LookupResp : Type 0 where
  pub exists : ℕ
  pub va_fileid : ℕ
  pub va_type : ℕ
  pub va_size : ℕ
  pub va_rdev : ℕ

pub record GetattrReq : Type 0 where
  pub fileid : ℕ

-- `getattr_resp` and `create_resp`, which have the same fields.
pub record AttrResp : Type 0 where
  pub exists : ℕ
  pub va_type : ℕ
  pub va_mode : ℕ
  pub va_nlink : ℕ
  pub va_uid : ℕ
  pub va_gid : ℕ
  pub va_gen : ℕ
  pub va_fsid : ℕ
  pub va_fileid : ℕ
  pub va_size : ℕ
  pub va_blocksize : ℕ
  pub va_flags : ℕ
  pub va_rdev : ℕ
  pub va_bytes : ℕ
  pub va_filerev : ℕ
  pub va_vaflags : ℕ
  pub va_spare : ℕ

-- `create_req`, for files and directories.
pub record CreateReq : Type 0 where
  pub parent_fileid : ℕ
  pub name : List ℕ

pub record WriteReq : Type 0 where
  pub fileid : ℕ
  pub io_append : ℕ
  pub offset : ℕ
  pub resid : ℕ

pub record WriteResp : Type 0 where
  pub exists : ℕ
  pub err : ℕ

pub record WriteBufReq : Type 0 where
  pub buflen : ℕ
  pub buf : List ℕ

pub record WriteBufResp : Type 0 where
  pub err : ℕ

pub record ReadReq : Type 0 where
  pub fileid : ℕ
  pub copylen : ℕ
  pub offset : ℕ

pub record ReadResp : Type 0 where
  pub err : ℕ
  pub copylen : ℕ
  pub buf : List ℕ

pub record RmReq : Type 0 where
  pub parent_fileid : ℕ
  pub name : List ℕ

-- `rm_resp` and `reclaim_resp`, which have the same fields.
pub record RmResp : Type 0 where
  pub err : ℕ
  pub va_fileid : ℕ
  pub va_nlink : ℕ

pub record ReclaimReq : Type 0 where
  pub va_fileid : ℕ

pub record SetattrReq : Type 0 where
  pub va_fileid : ℕ
  pub va_size : ℕ

pub record SetattrResp : Type 0 where
  pub err : ℕ
  pub va_fileid : ℕ
  pub va_bytes : ℕ
  pub va_size : ℕ
