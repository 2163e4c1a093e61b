-- ===== src/Message/Structs/Requests.antt =====
-- The structs that the Wii sends.
use net_bsd_wii_joybus.Base.{refl, Option, none, some, List, [], ◌∷◌}
use net_bsd_wii_joybus.Message.{
  CreateReq, GetattrReq, LookupReq, ReadReq, ReaddirReq, ReclaimReq, RmReq, SetattrReq, WriteBufReq,
  WriteReq, block_size,
}
use net_bsd_wii_joybus.Message.Layout.{u32, u64, array, Value, word, dword, chars}
use net_bsd_wii_joybus.Message.Structs.{Struct}

-- `struct readdir_req`.
abbrev pub readdir_req_of : List Value → Option ReaddirReq
readdir_req_of (word a ∷ word b ∷ []) = some (record { parent_fileid = a; n = b })
readdir_req_of _ = none

abbrev pub readdir_req : Struct ReaddirReq
readdir_req = record {
  fields = u32 ∷ u32 ∷ [];
  values = λ r. word r.parent_fileid ∷ word r.n ∷ [];
  of_values = readdir_req_of;
  of_values_lem = λ r. refl;
}

-- `struct lookup_req`.
abbrev pub lookup_req_of : List Value → Option LookupReq
lookup_req_of (word a ∷ chars b ∷ []) = some (record { parent_fileid = a; name = b })
lookup_req_of _ = none

abbrev pub lookup_req : Struct LookupReq
lookup_req = record {
  fields = u32 ∷ array 32 ∷ [];
  values = λ r. word r.parent_fileid ∷ chars r.name ∷ [];
  of_values = lookup_req_of;
  of_values_lem = λ r. refl;
}

-- `struct getattr_req`.
abbrev pub getattr_req_of : List Value → Option GetattrReq
getattr_req_of (word a ∷ []) = some (record { fileid = a })
getattr_req_of _ = none

abbrev pub getattr_req : Struct GetattrReq
getattr_req = record {
  fields = u32 ∷ [];
  values = λ r. word r.fileid ∷ [];
  of_values = getattr_req_of;
  of_values_lem = λ r. refl;
}

-- `struct create_req`.
abbrev pub create_req_of : List Value → Option CreateReq
create_req_of (word a ∷ chars b ∷ []) = some (record { parent_fileid = a; name = b })
create_req_of _ = none

abbrev pub create_req : Struct CreateReq
create_req = record {
  fields = u32 ∷ array 32 ∷ [];
  values = λ r. word r.parent_fileid ∷ chars r.name ∷ [];
  of_values = create_req_of;
  of_values_lem = λ r. refl;
}

-- `struct write_req`.
abbrev pub write_req_of : List Value → Option WriteReq
write_req_of (word a ∷ word b ∷ dword c ∷ dword d ∷ []) =
    some (record { fileid = a; io_append = b; offset = c; resid = d })
write_req_of _ = none

abbrev pub write_req : Struct WriteReq
write_req = record {
  fields = u32 ∷ u32 ∷ u64 ∷ u64 ∷ [];
  values = λ r. word r.fileid ∷ word r.io_append ∷ dword r.offset ∷ dword r.resid ∷ [];
  of_values = write_req_of;
  of_values_lem = λ r. refl;
}

-- `struct write_buf_req`.
abbrev pub write_buf_req_of : List Value → Option WriteBufReq
write_buf_req_of (word a ∷ chars b ∷ []) = some (record { buflen = a; buf = b })
write_buf_req_of _ = none

abbrev pub write_buf_req : Struct WriteBufReq
write_buf_req = record {
  fields = u32 ∷ array block_size ∷ [];
  values = λ r. word r.buflen ∷ chars r.buf ∷ [];
  of_values = write_buf_req_of;
  of_values_lem = λ r. refl;
}

-- `struct read_req`.
abbrev pub read_req_of : List Value → Option ReadReq
read_req_of (word a ∷ word b ∷ dword c ∷ []) = some (record { fileid = a; copylen = b; offset = c })
read_req_of _ = none

abbrev pub read_req : Struct ReadReq
read_req = record {
  fields = u32 ∷ u32 ∷ u64 ∷ [];
  values = λ r. word r.fileid ∷ word r.copylen ∷ dword r.offset ∷ [];
  of_values = read_req_of;
  of_values_lem = λ r. refl;
}

-- `struct rm_req`.
abbrev pub rm_req_of : List Value → Option RmReq
rm_req_of (word a ∷ chars b ∷ []) = some (record { parent_fileid = a; name = b })
rm_req_of _ = none

abbrev pub rm_req : Struct RmReq
rm_req = record {
  fields = u32 ∷ array 32 ∷ [];
  values = λ r. word r.parent_fileid ∷ chars r.name ∷ [];
  of_values = rm_req_of;
  of_values_lem = λ r. refl;
}

-- `struct reclaim_req`.
abbrev pub reclaim_req_of : List Value → Option ReclaimReq
reclaim_req_of (word a ∷ []) = some (record { va_fileid = a })
reclaim_req_of _ = none

abbrev pub reclaim_req : Struct ReclaimReq
reclaim_req = record {
  fields = u32 ∷ [];
  values = λ r. word r.va_fileid ∷ [];
  of_values = reclaim_req_of;
  of_values_lem = λ r. refl;
}

-- `struct setattr_req`.
abbrev pub setattr_req_of : List Value → Option SetattrReq
setattr_req_of (word a ∷ dword b ∷ []) = some (record { va_fileid = a; va_size = b })
setattr_req_of _ = none

abbrev pub setattr_req : Struct SetattrReq
setattr_req = record {
  fields = u32 ∷ u64 ∷ [];
  values = λ r. word r.va_fileid ∷ dword r.va_size ∷ [];
  of_values = setattr_req_of;
  of_values_lem = λ r. refl;
}
