-- ===== src/Message/Structs/Responses.antt =====
-- The structs that the GBA sends back.
use net_bsd_wii_joybus.Base.{refl, Option, none, some, List, [], ◌∷◌}
use net_bsd_wii_joybus.Message.{
  AttrResp, LookupResp, ReadResp, ReaddirResp, RmResp, SetattrResp, StatvfsResp, WriteBufResp,
  WriteResp, block_size,
}
use net_bsd_wii_joybus.Message.Layout.{u32, u64, array, Value, word, dword, chars}
use net_bsd_wii_joybus.Message.Structs.{Struct}

-- `struct statvfs_resp`.
abbrev pub statvfs_resp_of : List Value → Option StatvfsResp
statvfs_resp_of
      (word a
        ∷ word b
        ∷ word c
        ∷ word d
        ∷ word e
        ∷ word f
        ∷ word g
        ∷ word h
        ∷ word i
        ∷ word j
        ∷ []) =
    some (record {
      f_bsize = a;
      f_frsize = b;
      f_blocks = c;
      f_bfree = d;
      f_bavail = e;
      f_bresvd = f;
      f_files = g;
      f_ffree = h;
      f_favail = i;
      f_fresvd = j;
    })
statvfs_resp_of _ = none

abbrev pub statvfs_resp : Struct StatvfsResp
statvfs_resp = record {
  fields = u32 ∷ u32 ∷ u32 ∷ u32 ∷ u32 ∷ u32 ∷ u32 ∷ u32 ∷ u32 ∷ u32 ∷ [];
  values = λ r.
      word r.f_bsize
      ∷ word r.f_frsize
      ∷ word r.f_blocks
      ∷ word r.f_bfree
      ∷ word r.f_bavail
      ∷ word r.f_bresvd
      ∷ word r.f_files
      ∷ word r.f_ffree
      ∷ word r.f_favail
      ∷ word r.f_fresvd
      ∷ [];
  of_values = statvfs_resp_of;
  of_values_lem = λ r. refl;
}

-- `struct readdir_resp`.
abbrev pub readdir_resp_of : List Value → Option ReaddirResp
readdir_resp_of (word a ∷ word b ∷ word c ∷ chars d ∷ []) =
    some (record { exists = a; va_type = b; va_fileid = c; name = d })
readdir_resp_of _ = none

abbrev pub readdir_resp : Struct ReaddirResp
readdir_resp = record {
  fields = u32 ∷ u32 ∷ u32 ∷ array 32 ∷ [];
  values = λ r. word r.exists ∷ word r.va_type ∷ word r.va_fileid ∷ chars r.name ∷ [];
  of_values = readdir_resp_of;
  of_values_lem = λ r. refl;
}

-- `struct lookup_resp`.
abbrev pub lookup_resp_of : List Value → Option LookupResp
lookup_resp_of (word a ∷ word b ∷ word c ∷ dword d ∷ dword e ∷ []) =
    some (record { exists = a; va_fileid = b; va_type = c; va_size = d; va_rdev = e })
lookup_resp_of _ = none

abbrev pub lookup_resp : Struct LookupResp
lookup_resp = record {
  fields = u32 ∷ u32 ∷ u32 ∷ u64 ∷ u64 ∷ [];
  values = λ r.
      word r.exists ∷ word r.va_fileid ∷ word r.va_type ∷ dword r.va_size ∷ dword r.va_rdev ∷ [];
  of_values = lookup_resp_of;
  of_values_lem = λ r. refl;
}

-- `struct getattr_resp` and `struct create_resp`.
abbrev pub getattr_resp_of : List Value → Option AttrResp
getattr_resp_of
      (word a
        ∷ word b
        ∷ word c
        ∷ word d
        ∷ word e
        ∷ word f
        ∷ dword g
        ∷ dword h
        ∷ word i
        ∷ dword j
        ∷ word k
        ∷ dword l
        ∷ dword m
        ∷ dword n
        ∷ dword o
        ∷ dword p
        ∷ dword q
        ∷ []) =
    some (record {
      exists = a;
      va_type = b;
      va_mode = c;
      va_nlink = d;
      va_uid = e;
      va_gid = f;
      va_gen = g;
      va_fsid = h;
      va_fileid = i;
      va_size = j;
      va_blocksize = k;
      va_flags = l;
      va_rdev = m;
      va_bytes = n;
      va_filerev = o;
      va_vaflags = p;
      va_spare = q;
    })
getattr_resp_of _ = none

abbrev pub getattr_resp : Struct AttrResp
getattr_resp = record {
  fields =
      u32 ∷ u32 ∷ u32 ∷ u32 ∷ u32 ∷ u32 ∷ u64 ∷ u64 ∷ u32 ∷ u64 ∷ u32 ∷ u64 ∷ u64 ∷ u64 ∷ u64 ∷ u64
      ∷ u64 ∷ [];
  values = λ r.
      word r.exists
      ∷ word r.va_type
      ∷ word r.va_mode
      ∷ word r.va_nlink
      ∷ word r.va_uid
      ∷ word r.va_gid
      ∷ dword r.va_gen
      ∷ dword r.va_fsid
      ∷ word r.va_fileid
      ∷ dword r.va_size
      ∷ word r.va_blocksize
      ∷ dword r.va_flags
      ∷ dword r.va_rdev
      ∷ dword r.va_bytes
      ∷ dword r.va_filerev
      ∷ dword r.va_vaflags
      ∷ dword r.va_spare
      ∷ [];
  of_values = getattr_resp_of;
  of_values_lem = λ r. refl;
}

-- `struct write_resp`.
abbrev pub write_resp_of : List Value → Option WriteResp
write_resp_of (word a ∷ word b ∷ []) = some (record { exists = a; err = b })
write_resp_of _ = none

abbrev pub write_resp : Struct WriteResp
write_resp = record {
  fields = u32 ∷ u32 ∷ [];
  values = λ r. word r.exists ∷ word r.err ∷ [];
  of_values = write_resp_of;
  of_values_lem = λ r. refl;
}

-- `struct write_buf_resp`.
abbrev pub write_buf_resp_of : List Value → Option WriteBufResp
write_buf_resp_of (word a ∷ []) = some (record { err = a })
write_buf_resp_of _ = none

abbrev pub write_buf_resp : Struct WriteBufResp
write_buf_resp = record {
  fields = u32 ∷ [];
  values = λ r. word r.err ∷ [];
  of_values = write_buf_resp_of;
  of_values_lem = λ r. refl;
}

-- `struct read_resp`.
abbrev pub read_resp_of : List Value → Option ReadResp
read_resp_of (word a ∷ word b ∷ chars c ∷ []) = some (record { err = a; copylen = b; buf = c })
read_resp_of _ = none

abbrev pub read_resp : Struct ReadResp
read_resp = record {
  fields = u32 ∷ u32 ∷ array block_size ∷ [];
  values = λ r. word r.err ∷ word r.copylen ∷ chars r.buf ∷ [];
  of_values = read_resp_of;
  of_values_lem = λ r. refl;
}

-- `struct rm_resp` and `struct reclaim_resp`.
abbrev pub rm_resp_of : List Value → Option RmResp
rm_resp_of (word a ∷ word b ∷ word c ∷ []) = some (record { err = a; va_fileid = b; va_nlink = c })
rm_resp_of _ = none

abbrev pub rm_resp : Struct RmResp
rm_resp = record {
  fields = u32 ∷ u32 ∷ u32 ∷ [];
  values = λ r. word r.err ∷ word r.va_fileid ∷ word r.va_nlink ∷ [];
  of_values = rm_resp_of;
  of_values_lem = λ r. refl;
}

-- `struct setattr_resp`.
abbrev pub setattr_resp_of : List Value → Option SetattrResp
setattr_resp_of (word a ∷ word b ∷ dword c ∷ dword d ∷ []) =
    some (record { err = a; va_fileid = b; va_bytes = c; va_size = d })
setattr_resp_of _ = none

abbrev pub setattr_resp : Struct SetattrResp
setattr_resp = record {
  fields = u32 ∷ u32 ∷ u64 ∷ u64 ∷ [];
  values = λ r. word r.err ∷ word r.va_fileid ∷ dword r.va_bytes ∷ dword r.va_size ∷ [];
  of_values = setattr_resp_of;
  of_values_lem = λ r. refl;
}
