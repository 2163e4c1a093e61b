-- ===== src/Tests/Tree.antt =====
-- The directory walks on a table with a root and two files.
use net_bsd_wii_joybus.Base.{
  ℕ, ◌≡◌, ◌≢◌, refl, ap, length, arith, false, true, Option, none, some, List, [], ◌∷◌, get_elem?,
  replicate,
}
use net_bsd_wii_joybus.Message.{AttrResp, LookupReq, LookupResp, ReaddirResp}
use net_bsd_wii_joybus.Server.{Entry, Block, State, done, spins, find_by_id}
use net_bsd_wii_joybus.Server.Search.{first}
use net_bsd_wii_joybus.Server.Blocks.Take.{copies, free_count}
use net_bsd_wii_joybus.Server.Tree.{
  entry_append, entry_remove, entry_reclaim, find_name, free_entry, string_of, is_string, same_name,
}
use net_bsd_wii_joybus.Server.Tree.Names.{AreNamed, is_plain}
use net_bsd_wii_joybus.Server.Tree.Chain.{Chain, is_named}
use net_bsd_wii_joybus.Server.Tree.Append.{entry_append-Chain, append_last-spins}
use net_bsd_wii_joybus.Server.Tree.Remove.{
  IsOnly, uncounted, erase, entry_remove-Chain, entry_remove-first,
}
use net_bsd_wii_joybus.Server.Tree.Reclaim.{entry_reclaim-leaks}
use net_bsd_wii_joybus.Server.Boot.{boot, boot-Chain}
use net_bsd_wii_joybus.Client.Nodes.{NewInfo, node_lookup, request_name}
use net_bsd_wii_joybus.Client.Lookup.{Tells, node_lookup-Tells}
use net_bsd_wii_joybus.Server.Handlers.{handle_lookup, handle_readdir, handle_create}
use net_bsd_wii_joybus.Server.Handlers.Create.{handle_create-lookup}
use net_bsd_wii_joybus.Server.Handlers.Lookup.{
  IsLookup, IsReaddir, handle_lookup-first, handle_readdir-nth,
}

abbrev pub entry : ℕ → ℕ → List ℕ → Option ℕ → Option ℕ → Entry
entry id type name next child = record {
  va_type = type;
  va_mode = 0o666;
  va_nlink = 1;
  va_uid = 0;
  va_gid = 0;
  va_fsid = 0;
  va_fileid = id;
  va_size = 0;
  va_blocksize = 128;
  va_gen = 0;
  va_flags = 0;
  va_rdev = 0;
  va_bytes = 0;
  va_filerev = 1;
  va_vaflags = 0;
  va_spare = 0;
  name = name;
  next = next;
  child = child;
  file = record { numblocks = 0; datalen = 0 };
}

-- The root, a file `a`, a file `b`, and an entry that is in no directory.
abbrev pub root : Entry
root = entry 1 2 (0 ∷ []) none (some 1)

abbrev pub file_a : Entry
file_a = entry 2 1 (97 ∷ 0 ∷ []) (some 2) none

abbrev pub file_b : Entry
file_b = entry 3 1 (98 ∷ 0 ∷ []) none none

abbrev pub fresh : Entry
fresh = entry 4 1 (0 ∷ []) none none

abbrev pub table : List Entry
table = root ∷ file_a ∷ file_b ∷ fresh ∷ []

abbrev pub blocks : List Block
blocks = record { va_fileid = 2; idx = 0; bytes = replicate 128 7 } ∷ []

abbrev pub state : State
state = record { entries = table; blocks = blocks; next_id = 5 }

pub children : Chain table (some 1) (1 ∷ 2 ∷ [])
children = (refl, (file_a, refl, refl, (refl, (file_b, refl, refl, refl))))

entry_append-Chain_example :
    (es' : List Entry) × (entry_append 2 table 0 3 ≡ done es')
    × ((parent' : Entry) × (get_elem? es' 0 ≡ some parent')
        × Chain es' parent'.child (1 ∷ 2 ∷ 3 ∷ []))
entry_append-Chain_example =
    entry_append-Chain table 3 fresh refl refl 2 0 root (1 ∷ 2 ∷ []) refl (omega arith)
      (omega arith) refl refl children

append_last-spins_example :
    (es' : List Entry) × (entry_append 2 table 0 2 ≡ done es')
    × ((fuel' : ℕ) (name : List ℕ)
        → is_named table name 2 ≡ false
        → find_name fuel' es' name (some 2) ≡ spins)
append_last-spins_example =
    append_last-spins table 0 root 1 (2 ∷ []) refl refl children 2 (omega arith)

table-IsOnly_b : IsOnly table 2 file_b (2 ∷ [])
table-IsOnly_b j e h apart got = absurd (ground arith)

entry_remove-Chain_example :
    (es' : List Entry) × (entry_remove 2 table 0 2 ≡ done es')
    × ((p' : Entry) × (get_elem? es' 0 ≡ some p')
        × (p'.child ≡ some 1)
        × Chain es' p'.child (1 ∷ erase 2 (2 ∷ [])))
    × (get_elem? es' 2 ≡ some (uncounted file_b))
entry_remove-Chain_example =
    entry_remove-Chain table 2 file_b refl 2 0 1 root (2 ∷ []) refl refl refl refl table-IsOnly_b
      (omega arith) children

table-IsOnly_a : IsOnly table 1 file_a (2 ∷ [])
table-IsOnly_a j e h apart got = ground (arith, h, got)

entry_remove-first_example :
    (entry_remove 2 table 0 1 ≡ done (root ∷ uncounted file_a ∷ file_b ∷ fresh ∷ []))
    × Chain (root ∷ uncounted file_a ∷ file_b ∷ fresh ∷ []) (some 1) (1 ∷ 2 ∷ [])
entry_remove-first_example =
    entry_remove-first table 1 file_a refl 2 0 root (2 ∷ []) refl refl table-IsOnly_a (omega arith)
      children

entry_reclaim-leaks_example :
    (s' : State) × (entry_reclaim 1 state ≡ done s')
    × (get_elem? s'.entries 1 ≡ some (record file_a { va_fileid = 0 }))
    × ((id j : ℕ) → id ≢ 0 → copies id j s'.blocks ≡ copies id j blocks)
    × (free_count s'.blocks ≡ free_count blocks)
entry_reclaim-leaks_example = entry_reclaim-leaks 1 state file_a refl

abbrev pub lookup_junk : LookupResp
lookup_junk = record { exists = 77; va_fileid = 77; va_type = 77; va_size = 77; va_rdev = 77 }

abbrev lookup_b : LookupReq
lookup_b = record { parent_fileid = 1; name = 98 ∷ 0 ∷ 55 ∷ [] }

pub root-found : find_by_id 1 table ≡ some 0
unfolding find_by_id
root-found = refl

handle_lookup-first_example :
    (r : LookupResp) × (handle_lookup 2 lookup_junk lookup_b state ≡ done (r, state))
    × IsLookup table
        (98 ∷ 0 ∷ 55 ∷ [])
        lookup_junk
        (first (is_named table (98 ∷ 0 ∷ 55 ∷ [])) (1 ∷ 2 ∷ []))
        r
handle_lookup-first_example =
    handle_lookup-first 2 lookup_junk lookup_b state 0 root (1 ∷ 2 ∷ []) root-found refl children
      (omega arith)

abbrev pub readdir_junk : ReaddirResp
readdir_junk = record { exists = 77; va_type = 77; va_fileid = 77; name = replicate 32 77 }

pub table-AreNamed : AreNamed table
unfolding is_string
table-AreNamed = (refl, (refl, (refl, (refl, tt))))

handle_readdir-nth_example :
    (r : ReaddirResp) × (handle_readdir readdir_junk (record { parent_fileid = 1; n = 1 }) state
      ≡ done (r, state))
    × IsReaddir table readdir_junk (get_elem? (1 ∷ 2 ∷ []) 1) r
handle_readdir-nth_example =
    handle_readdir-nth readdir_junk (record { parent_fileid = 1; n = 1 }) state 0 root (1 ∷ 2 ∷ [])
      root-found refl children (omega arith) table-AreNamed

node_lookup-Tells_example :
    (r : ℕ × Option NewInfo) × (node_lookup
        (handle_lookup 2 lookup_junk)
        false
        1
        (98 ∷ 0 ∷ 55 ∷ [])
        state
      ≡ done (r, state))
    × Tells table
        (request_name (98 ∷ 0 ∷ 55 ∷ []))
        (first (is_named table (request_name (98 ∷ 0 ∷ 55 ∷ []))) (1 ∷ 2 ∷ []))
        r
node_lookup-Tells_example =
    node_lookup-Tells 2 lookup_junk 1 (98 ∷ 0 ∷ 55 ∷ []) state 0 root (1 ∷ 2 ∷ []) root-found refl
      children (omega arith)

boot-Chain_example :
    (s : State) × (boot 7 8
        (record { entries = file_a ∷ file_b ∷ root ∷ []; blocks = blocks; next_id = 1 })
      ≡ done s)
    × (r : Entry) × (get_elem? s.entries 0 ≡ some r)
    × (r.va_fileid ≡ 1)
    × Chain s.entries r.child (1 ∷ [])
    × (find_by_id 2 s.entries ≡ some 1)
    × (free_count s.blocks ≡ 1)
boot-Chain_example = boot-Chain 7 8 file_a file_b (root ∷ []) blocks

children_vacant :
    Chain
      (root ∷ file_a ∷ file_b ∷ entry 0 0 (replicate 32 55) none none ∷ [])
      (some 1)
      (1 ∷ 2 ∷ [])
children_vacant = (refl, (file_a, refl, refl, (refl, (file_b, refl, refl, refl))))

-- A state with a free entry.
abbrev vacant : Entry
vacant = entry 0 0 (replicate 32 55) none none

abbrev state_vacant : State
state_vacant = record {
  entries = root ∷ file_a ∷ file_b ∷ vacant ∷ [];
  blocks = blocks;
  next_id = 5;
}

abbrev pub attr_junk : AttrResp
attr_junk = record {
  exists = 77;
  va_type = 77;
  va_mode = 77;
  va_nlink = 77;
  va_uid = 77;
  va_gid = 77;
  va_gen = 77;
  va_fsid = 77;
  va_fileid = 77;
  va_size = 77;
  va_blocksize = 77;
  va_flags = 77;
  va_rdev = 77;
  va_bytes = 77;
  va_filerev = 77;
  va_vaflags = 77;
  va_spare = 77;
}

vacant-found :
    (find_by_id 1 state_vacant.entries ≡ some 0) × (free_entry state_vacant.entries ≡ some 3)
unfolding find_by_id free_entry
vacant-found = (refl, refl)

-- The name `c`, in a buffer with more behind it.
abbrev name_c : List ℕ
name_c = 99 ∷ 0 ∷ 55 ∷ []

c-string : string_of name_c ≡ 99 ∷ []
unfolding string_of
c-string = refl

c-plain : is_plain name_c ≡ true
unfolding is_plain
c-plain = refl

c-new : first (is_named state_vacant.entries name_c) (1 ∷ 2 ∷ []) ≡ none
unfolding same_name
c-new = refl

handle_create-lookup_example :
    (resp : AttrResp) × (s' : State) × (r : LookupResp) × (handle_create 2 9 1 attr_junk
        (record { parent_fileid = 1; name = name_c })
        state_vacant
      ≡ done (resp, s'))
    × (handle_lookup 3 lookup_junk (record { parent_fileid = 1; name = name_c }) s' ≡ done (r, s'))
    × (resp.va_fileid ≡ 5)
    × (r.exists ≡ 1)
    × (r.va_fileid ≡ 5)
    × (r.va_type ≡ 1)
handle_create-lookup_example =
    handle_create-lookup 2 9 1 attr_junk name_c state_vacant 0 3 root vacant (1 ∷ 2 ∷ []) refl refl
      (omega arith) (omega arith) refl refl children_vacant 1 lookup_junk vacant-found.0
      vacant-found.1 (omega arith) c-plain (omega (arith, ap length c-string)) c-new
