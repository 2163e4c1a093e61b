-- ===== src/Tests/Files.antt =====
-- Files of a few blocks: sizes, writes and reads.
use net_bsd_wii_joybus.Base.{
  ℕ, ◌≤◌, ◌<◌, ◌≡◌, refl, arith, none, some, List, [], ◌∷◌, inl, inr, ltb, of_bool, get_elem?,
  replicate,
}
use net_bsd_wii_joybus.Message.{ReadReq, ReadResp, WriteReq, SetattrResp, WriteBufResp}
use net_bsd_wii_joybus.Server.{Entry, Block, State, fault, done, find_by_id}
use net_bsd_wii_joybus.Server.Blocks.{entry_setsize, write_loop}
use net_bsd_wii_joybus.Server.Blocks.Take.{copies, free_count, stored, taken}
use net_bsd_wii_joybus.Server.Blocks.Setsize.{
  IsFile, Resized, entry_setsize-Resized, entry_setsize-stored, entry_setsize-keeps,
  entry_setsize-leaks,
}
use net_bsd_wii_joybus.Server.Blocks.Copy.{IsWhole, Covers}
use net_bsd_wii_joybus.Client.{node_write_loop, node_read_loop}
use net_bsd_wii_joybus.Client.Write.{Outcome, node_write-Stores}
use net_bsd_wii_joybus.Client.WriteRead.{Written, ReadsBack, after, handle_write-read}
use net_bsd_wii_joybus.Client.Misaligned.{node_write-fault}
use net_bsd_wii_joybus.Client.Read.{ask, ReadsFile, node_read-ReadsFile, node_read-fault}
use net_bsd_wii_joybus.Server.Handlers.{handle_setsize}
use net_bsd_wii_joybus.Client.Nodes.{Vattr, Node, node_setattr}
use net_bsd_wii_joybus.Client.Resize.{resized, node_setattr-Resized, node_setattr-unreported}
use net_bsd_wii_joybus.Tests.Tree.{entry}

-- File 5 has 200 bytes in two blocks; one block is file 6's, one is free.
abbrev pub file : Entry
file = record (entry 5 1 [] none none) {
  va_size = 200;
  file = record { numblocks = 2; datalen = 200 };
}

abbrev pub block : ℕ → ℕ → ℕ → Block
block id i byte = record { va_fileid = id; idx = i; bytes = replicate 128 byte }

abbrev pub blocks : List Block
blocks = block 5 0 1 ∷ block 6 0 9 ∷ block 5 1 2 ∷ block 0 0 0 ∷ []

pub file-IsFile : IsFile file blocks
file-IsFile = record {
  has_id = omega arith;
  same_size = refl;
  fits = omega arith;
  enough = inr refl;
  owns = λ j. ground arith;
}

entry_setsize-Resized_example :
    Resized file blocks file-IsFile 300 (omega arith) (entry_setsize file 300 blocks)
entry_setsize-Resized_example =
    entry_setsize-Resized file blocks file-IsFile 300 (omega arith) (omega arith)

entry_setsize-stored_example : stored 6 0 (entry_setsize file 900 blocks).2 ≡ some (block 6 0 9)
entry_setsize-stored_example =
    entry_setsize-stored file blocks file-IsFile 900 (omega arith) 6 0 (omega arith) (omega arith)

entry_setsize-keeps_example :
    ((j : ℕ) → j < 2 → stored 5 j (entry_setsize file 300 blocks).2 ≡ stored 5 j blocks)
    × ((j : ℕ) → 2 ≤ j → j < 3 → stored 5 j (entry_setsize file 300 blocks).2 ≡ some (taken 5 j))
entry_setsize-keeps_example =
    entry_setsize-keeps file blocks file-IsFile 300 (omega arith) (omega arith) (omega arith)

entry_setsize-leaks_example :
    ((entry_setsize file 900 blocks).0 ≡ 2)
    × ((entry_setsize file 900 blocks).1 ≡ file)
    × (free_count (entry_setsize file 900 blocks).2 ≡ 0)
    × ((j : ℕ) → copies 5 j (entry_setsize file 900 blocks).2 ≡ of_bool (ltb j 3))
entry_setsize-leaks_example =
    entry_setsize-leaks file blocks file-IsFile 900 (omega arith) (omega arith) (omega arith)

pub blocks-IsWhole : IsWhole blocks
blocks-IsWhole = (refl, (refl, (refl, (refl, tt))))

blocks-Covers : (n : ℕ) → n ≤ 256 → Covers 5 0 n blocks
blocks-Covers n le o lo hi = ground arith

-- 130 bytes: two messages.
abbrev pub source : List ℕ
source = replicate 130 7

abbrev pub reply : WriteBufResp
reply = record { err = 0 }

node_write-Stores_example : Outcome 5 reply refl 130 0 source blocks
node_write-Stores_example =
    node_write-Stores 5 reply refl 130 0 source blocks (omega arith) (inl refl) (omega arith)
      blocks-IsWhole (blocks-Covers 130 (omega arith))

node_write-fault_example :
    write_loop 5 reply
      (node_write_loop 131 reply source).messages
      (record { offset = 10; resid = 130; blocks = blocks })
    ≡ fault
node_write-fault_example =
    node_write-fault 5 reply 130 10 source blocks refl (omega arith) (omega arith) (omega arith)

abbrev pub state : State
state = record { entries = file ∷ []; blocks = blocks; next_id = 7 }

abbrev junk : ReadResp
junk = record { err = 77; copylen = 77; buf = replicate 128 77 }

abbrev request : ReadReq
request = record { fileid = 5; copylen = 0; offset = 0 }

pub file-found : find_by_id 5 (file ∷ []) ≡ some 0
unfolding find_by_id
file-found = refl

node_read-ReadsFile_example :
    ReadsFile state 0 file junk file-found refl
      (omega arith)
      blocks-IsWhole
      refl
      (blocks-Covers 200 (omega arith))
      257
      request
      256
node_read-ReadsFile_example =
    node_read-ReadsFile state 0 file junk file-found refl (omega arith) blocks-IsWhole refl
      (blocks-Covers 200 (omega arith)) 257 request 256 (omega arith) refl (omega arith) refl
      (inl refl)

node_read-fault_example : node_read_loop 1 (ask junk state) request 100 ≡ fault
node_read-fault_example =
    node_read-fault state 0 file junk file-found refl (omega arith) blocks-IsWhole refl
      (blocks-Covers 200 (omega arith)) 0 request 100 refl refl (omega arith) (omega arith)
      (omega arith)

-- A write from the second block on, into a third one, and a read of it.
abbrev pub write_request : WriteReq
write_request = record { fileid = 5; io_append = 0; offset = 128; resid = 130 }

abbrev read_request : ReadReq
read_request = record { fileid = 5; copylen = 0; offset = 128 }

handle_write-read_example :
    (w : Written state 0 file reply 128 source write_request) × ReadsBack source
      (after state 0 w.1 w.2)
      junk
      read_request
handle_write-read_example =
    handle_write-read state 0 file reply refl file-found refl file-IsFile blocks-IsWhole 128 source
      refl (omega arith) (omega arith) write_request junk read_request refl refl refl refl refl refl
      (inr (omega arith))

-- The Wii's node for file 5.
abbrev vattr : Vattr
vattr = record {
  va_type = 1;
  va_mode = 0o666;
  va_nlink = 1;
  va_uid = 0;
  va_gid = 0;
  va_fsid = 0;
  va_fileid = 5;
  va_size = 200;
  va_blocksize = 128;
  va_gen = 0;
  va_flags = 0;
  va_rdev = 0;
  va_bytes = 200;
  va_filerev = 1;
  va_vaflags = 0;
  va_spare = 0;
}

abbrev node : Node
node = record { id = 5; pn_va = vattr }

abbrev setattr_junk : SetattrResp
setattr_junk = record { err = 77; va_fileid = 77; va_bytes = 77; va_size = 77 }

node_setattr-Resized_example :
    (s' : State) × (node_setattr (handle_setsize setattr_junk) vattr 5 300 (node ∷ []) state
      ≡ done ((0, resized node 300 ∷ []), s'))
    × (ent' : Entry) × (get_elem? s'.entries 0 ≡ some ent')
    × IsFile ent' s'.blocks
    × (ent'.va_size ≡ 300)
node_setattr-Resized_example =
    node_setattr-Resized state 0 file 300 file-found refl file-IsFile (omega arith) vattr
      setattr_junk (node ∷ []) 0 node refl refl refl (omega arith)

node_setattr-unreported_example :
    (s' : State) × (node_setattr (handle_setsize setattr_junk) vattr 5 900 (node ∷ []) state
      ≡ done ((0, resized node 200 ∷ []), s'))
    × (free_count s'.blocks ≡ 0)
node_setattr-unreported_example =
    node_setattr-unreported state 0 file 900 file-found refl file-IsFile (omega arith) vattr
      setattr_junk (node ∷ []) 0 node refl refl refl (omega arith) (omega arith)
