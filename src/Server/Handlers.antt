-- ===== src/Server/Handlers.antt =====
-- The request handlers of puffboy_advance/gba/src/main.cpp. A handler's request comes with its
-- fields in the GBA's order, and `junk` is the response as it lies on the stack: fields that the
-- code does not set keep it. `fuel` bounds the walks along a directory.
pub mod Lookup
pub mod Create
use net_bsd_wii_joybus.Base.{
  ℕ, zero, suc, ◌+◌, ◌-◌, ◌%◌, ◌^◌, Bool, true, false, Option, none, some, List, [], ◌∷◌, ◌==◌,
  ◌&&◌, ltb, if◌then◌else◌, set, is_some, of_bool, not,
}
use net_bsd_wii_joybus.Message.{
  StatvfsResp, ReaddirReq, ReaddirResp, LookupReq, LookupResp, GetattrReq, AttrResp, CreateReq,
  WriteReq, WriteResp, WriteBufReq, WriteBufResp, ReadReq, ReadResp, RmReq, RmResp, ReclaimReq,
  SetattrReq, SetattrResp, block_size,
}
use net_bsd_wii_joybus.Server.{
  Entry, Block, State, Run, done, fault, spins, waits, ◌>>=◌, deref, find_by_id, count_if, vdir,
  entries_max, block_max,
}
use net_bsd_wii_joybus.Server.Blocks.{entry_setsize, read_entry, Cursor, write_loop}
use net_bsd_wii_joybus.Server.Tree.{
  copy_name, string_of, write_string, print_name, find_name, find_nth, entry_init, entry_append,
  entry_remove, entry_reclaim,
}

-- `ENOENT` and `ENOTDIR`.
abbrev pub enoent : ℕ
enoent = 2

abbrev pub enotdir : ℕ
enotdir = 20

-- A search among the children of an entry that may be missing.
unfoldable pub find_in : ℕ → List Entry → List ℕ → Option ℕ → Run (Option ℕ)
find_in fuel es name none = done none
find_in fuel es name (some p) = do parent ← deref es p; find_name fuel es name parent.child

unfoldable pub lookup_resp : List Entry → LookupResp → Option ℕ → Run LookupResp
lookup_resp es junk none = done (record junk { exists = 0 })
lookup_resp es junk (some i) = do
  match ← deref es i
  done (record {
    exists = 1;
    va_fileid = match.va_fileid;
    va_type = match.va_type;
    va_size = match.va_size;
    va_rdev = match.va_rdev;
  })

unfoldable pub handle_lookup : ℕ → LookupResp → LookupReq → State → Run (LookupResp × State)
handle_lookup fuel junk req s = do
  match ← find_in fuel s.entries req.name (find_by_id req.parent_fileid s.entries)
  resp ← lookup_resp s.entries junk match
  done (resp, s)

-- The assignments of `handle_getattr_request` and `handle_create_request`: `va_blocksize` is not
-- among them.
unfoldable pub fill_attr : AttrResp → Entry → AttrResp
fill_attr junk ent = record junk {
  exists = 1;
  va_type = ent.va_type;
  va_mode = ent.va_mode;
  va_nlink = ent.va_nlink;
  va_uid = ent.va_uid;
  va_gid = ent.va_gid;
  va_gen = ent.va_gen;
  va_fsid = ent.va_fsid;
  va_fileid = ent.va_fileid;
  va_size = ent.va_size;
  va_flags = ent.va_flags;
  va_rdev = ent.va_rdev;
  va_bytes = ent.va_bytes;
  va_filerev = ent.va_filerev;
  va_vaflags = ent.va_vaflags;
  va_spare = ent.va_spare;
}

unfoldable pub attr_resp : List Entry → AttrResp → Option ℕ → Run AttrResp
attr_resp es junk none = done (record junk { exists = 0 })
attr_resp es junk (some i) = do ent ← deref es i; done (fill_attr junk ent)

unfoldable pub handle_getattr : AttrResp → GetattrReq → State → Run (AttrResp × State)
handle_getattr junk req s = do
  resp ← attr_resp s.entries junk (find_by_id req.fileid s.entries)
  done (resp, s)

-- What `handle_create_request` does with an entry that `entry_init` returned.
unfoldable pub link_entry : ℕ → List ℕ → ℕ → ℕ → State → Run State
link_entry fuel name parent i s = do
  es ← entry_append fuel s.entries parent i
  ent ← deref es i
  printed ← print_name ent.name name
  done (record s { entries = set es i (record ent { name = printed }) })

unfoldable pub create_in : ℕ → AttrResp → List ℕ → ℕ → Option ℕ × State → Run (AttrResp × State)
create_in fuel junk name parent (none, s) = done (record junk { exists = 0 }, s)
create_in fuel junk name parent (some i, s) = do
  s' ← link_entry fuel name parent i s
  resp ← attr_resp s'.entries junk (some i)
  done (resp, s')

-- `handle_create_request(vt)`, for files and directories.
unfoldable pub handle_create : ℕ → ℕ → ℕ → AttrResp → CreateReq → State → Run (AttrResp × State)
handle_create fuel gen vt junk req s = elim (find_by_id req.parent_fileid s.entries) [
  | none ↦ done (record junk { exists = 0 }, s)
  | some p ↦ entry_init vt gen s >>= create_in fuel junk req.name p
]

unfoldable pub handle_statvfs : State → StatvfsResp × State
handle_statvfs s =
    let bfree = count_if (λ b. b.va_fileid == 0) s.blocks in
    let ffree = count_if (λ e. e.va_fileid == 0) s.entries in
    (
      record {
        f_bsize = block_size;
        f_frsize = block_size;
        f_blocks = block_max;
        f_bfree = bfree;
        f_bavail = bfree;
        f_bresvd = 0;
        f_files = entries_max;
        f_ffree = ffree;
        f_favail = ffree;
        f_fresvd = 0;
      },
      s,
    )

unfoldable pub read_at : State → ReadReq → ReadResp → Option ℕ → Run ReadResp
read_at s req junk none = done (record junk { err = 1; copylen = 0 })
read_at s req junk (some i) = do ent ← deref s.entries i; read_entry ent req junk s.blocks

unfoldable pub handle_read : ReadResp → ReadReq → State → Run (ReadResp × State)
handle_read junk req s = do
  resp ← read_at s req junk (find_by_id req.fileid s.entries)
  done (resp, s)

-- `handle_setsize_request`: the error of `entry_setsize` is dropped. Its `size_t` parameter takes
-- the low 32 bits.
unfoldable pub setsize_at : State → SetattrReq → SetattrResp → Option ℕ → Run (SetattrResp × State)
setsize_at s req junk none = done (record junk { err = enoent }, s)
setsize_at s req junk (some i) = do
  ent ← deref s.entries i
  let r = entry_setsize ent (req.va_size % 2 ^ 32) s.blocks
  done (
    record { err = 0; va_fileid = r.1.va_fileid; va_size = r.1.va_size; va_bytes = r.1.va_bytes },
    record s { entries = set s.entries i r.1; blocks = r.2 },
  )

unfoldable pub handle_setsize : SetattrResp → SetattrReq → State → Run (SetattrResp × State)
handle_setsize junk req s = setsize_at s req junk (find_by_id req.va_fileid s.entries)

-- The first half of `handle_write_request`: the file grows to the end of the write.
unfoldable pub grow_for : Entry → WriteReq → List Block → ℕ × Entry × List Block
grow_for ent req bs =
    let end = (req.offset + req.resid) % 2 ^ 64 in
    if ltb ent.va_size end then entry_setsize ent (end % 2 ^ 32) bs else (0, ent, bs)

-- The second half: nothing more after an error, else the messages.
unfoldable pub write_data :
    WriteBufResp
    → WriteReq
    → List WriteBufReq
    → ℕ
    → ℕ × Entry × List Block
    → State
    → Run (WriteResp × List WriteBufResp × State)
write_data junk req msgs i (err, ent, bs) s =
    let s' = record s { entries = set s.entries i ent; blocks = bs } in
    let copied : Run (WriteResp × List WriteBufResp × State) =
      write_loop ent.va_fileid junk msgs
        (record { offset = req.offset; resid = req.resid; blocks = bs })
      >>= λ (out, c).
          done (record { exists = 1; err = err }, out, record s' { blocks = c.blocks }) in
    if ltb 0 err then done (record { exists = 1; err = err }, [], s') else copied

unfoldable pub write_at :
    WriteBufResp
    → WriteReq
    → List WriteBufReq
    → State
    → Option ℕ
    → Run (WriteResp × List WriteBufResp × State)
write_at junk req msgs s none = done (record { exists = 0; err = 1 }, [], s)
write_at junk req msgs s (some i) = do
  ent ← deref s.entries i
  write_data junk req msgs i (grow_for ent req s.blocks) s

-- `handle_write_request`, with the messages that follow the request.
unfoldable pub handle_write :
    WriteBufResp → WriteReq → List WriteBufReq → State → Run (WriteResp × List WriteBufResp × State)
handle_write junk req msgs s = write_at junk req msgs s (find_by_id req.fileid s.entries)

-- `(int)req.n`: the count of the loop, none for a negative number.
unfoldable pub steps_of : ℕ → ℕ
steps_of n = if ltb n (2 ^ 31) then n else 0

unfoldable pub readdir_resp : List Entry → ReaddirResp → Option ℕ → Run ReaddirResp
readdir_resp es junk none = done (record junk { exists = 0; va_fileid = 0; va_type = 0 })
readdir_resp es junk (some i) = do
  res ← deref es i
  copied ← copy_name junk.name res.name
  done (record { exists = 1; va_fileid = res.va_fileid; va_type = res.va_type; name = copied })

unfoldable pub nth_in : List Entry → ℕ → Option ℕ → Run (Option ℕ)
nth_in es n none = done none
nth_in es n (some p) = do parent ← deref es p; find_nth (steps_of n) es parent.child

unfoldable pub handle_readdir : ReaddirResp → ReaddirReq → State → Run (ReaddirResp × State)
handle_readdir junk req s = do
  res ← nth_in s.entries req.n (find_by_id req.parent_fileid s.entries)
  resp ← readdir_resp s.entries junk res
  done (resp, s)

unfoldable pub reclaim_at : State → RmResp → Option ℕ → Run (RmResp × State)
reclaim_at s junk none = done (record junk { err = enoent; va_fileid = 0 }, s)
reclaim_at s junk (some i) = do
  ent ← deref s.entries i
  s' ← entry_reclaim i s
  ent' ← deref s'.entries i
  done (record { err = 0; va_fileid = ent.va_fileid; va_nlink = ent'.va_nlink }, s')

unfoldable pub handle_reclaim : RmResp → ReclaimReq → State → Run (RmResp × State)
handle_reclaim junk req s = reclaim_at s junk (find_by_id req.va_fileid s.entries)

-- `handle_rm_request` behind its search for the name.
unfoldable pub rm_found : ℕ → RmResp → ℕ → State → Option ℕ → Run (RmResp × State)
rm_found fuel junk parent s none = done (record junk { err = enoent; va_fileid = 0 }, s)
rm_found fuel junk parent s (some i) = do
  res ← deref s.entries i
  es ← entry_remove fuel s.entries parent i
  res' ← deref es i
  done (
    record { err = 0; va_fileid = res.va_fileid; va_nlink = res'.va_nlink },
    record s { entries = es },
  )

unfoldable pub rm_refused : ℕ → RmResp → State → Run (RmResp × State)
rm_refused e junk s = done (record junk { err = e; va_fileid = 0 }, s)

unfoldable pub rm_in : ℕ → RmResp → List ℕ → State → Option ℕ → Run (RmResp × State)
rm_in fuel junk name s none = rm_refused enoent junk s
rm_in fuel junk name s (some p) = do
  parent ← deref s.entries p
  let search : Run (RmResp × State) =
      find_name fuel s.entries name parent.child >>= rm_found fuel junk p s
  if is_some parent.child
      then (if parent.va_type == vdir then search else rm_refused enotdir junk s)
      else rm_refused enoent junk s

unfoldable pub handle_rm : ℕ → RmResp → RmReq → State → Run (RmResp × State)
handle_rm fuel junk req s = rm_in fuel junk req.name s (find_by_id req.parent_fileid s.entries)
