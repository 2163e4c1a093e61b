-- ===== src/Server/Tree.antt =====
-- The table of entries: names, `entry_init`, `entry_append`, `entry_remove`, `entry_reclaim`, and
-- the walks along `next` of the handlers. A walk takes fuel; `spins` says that it ran out.
pub mod Chain
pub mod Append
pub mod Remove
pub mod Reclaim
pub mod Looks
pub mod Names
use net_bsd_wii_joybus.Base.{
  ℕ, zero, suc, ◌+◌, ◌-◌, ◌%◌, ◌^◌, Bool, true, false, Option, none, some, List, [], ◌∷◌, ◌++◌,
  ◌==◌, ◌||◌, ◌&&◌, ltb, if◌then◌else◌, set, take, drop, length, min, not,
}
use net_bsd_wii_joybus.Message.{block_size}
use net_bsd_wii_joybus.Server.{
  Entry, Block, GbaFile, State, Run, done, fault, spins, ◌>>=◌, deref, find_index, vdir,
  entries_max,
}
use net_bsd_wii_joybus.Server.Blocks.{blank}

-- The byte `%`.
abbrev pub percent : ℕ
percent = 37

-- `sizeof(name)` of an entry and of the messages.
abbrev pub name_size : ℕ
name_size = 32

-- Whether one of the first `n` bytes is a 0, so that a string ends among them.
unfoldable pub is_string : ℕ → List ℕ → Bool
is_string zero xs = false
is_string (suc n) [] = false
is_string (suc n) (x ∷ xs) = let rest = is_string n xs in (x == 0) || rest

-- `strcmp(a, b) == 0` for arrays of one size. The comparison ends at the latest at the first 0 of
-- either array, so inside both where the stored name is a string; what an array's end counts as is
-- only seen where neither has a 0.
unfoldable pub same_name : List ℕ → List ℕ → Bool
same_name [] [] = true
same_name [] (y ∷ ys) = y == 0
same_name (x ∷ xs) [] = x == 0
same_name (x ∷ xs) (y ∷ ys) = let rest = same_name xs ys in (x == y) && ((x == 0) || rest)

-- The string in an array: the bytes before the first 0.
unfoldable pub string_of : List ℕ → List ℕ
string_of [] = []
string_of (x ∷ xs) = if x == 0 then [] else x ∷ string_of xs

-- The array with a text and its 0 in front.
unfoldable pub write_string : List ℕ → List ℕ → List ℕ
write_string old text = text ++ (0 ∷ drop (length text + 1) old)

-- The bytes that `snprintf` prints for a format without arguments, in an array that starts with
-- the given bytes: it copies them up to the first 0, and `%%` as one `%`. Any other conversion wants
-- an argument that is not there, and without a 0 it reads past the array: both are undefined.
-- `conversion` is true behind a `%` that begins a conversion.
unfoldable pub format : Bool → List ℕ → Run (List ℕ)
format conversion [] = fault
format conversion (x ∷ xs) =
    let rest = format ((x == percent) && not conversion) xs in
    let kept = rest >>= λ text. done (x ∷ text) in
    if conversion
    then if x == percent then kept else fault
    else if x == 0
    then done []
    else if x == percent
    then rest
    else kept

-- `strcpy(old, text)` between arrays of 32 bytes: a text without a 0 is read and written past them.
unfoldable pub copy_name : List ℕ → List ℕ → Run (List ℕ)
copy_name old text =
    if is_string name_size text then done (write_string old (string_of text)) else fault

-- `snprintf(old, sizeof(old), fmt)` for an array of 32 bytes: the name that was sent is the format.
unfoldable pub print_name : List ℕ → List ℕ → Run (List ℕ)
print_name old fmt = do text ← format false fmt; done (write_string old (take (name_size - 1) text))

-- The walk of `handle_lookup_request` and `handle_rm_request` along a directory's children.
unfoldable pub find_name : ℕ → List Entry → List ℕ → Option ℕ → Run (Option ℕ)
find_name fuel es name none = done none
find_name zero es name (some i) = spins
find_name (suc fuel) es name (some i) = do
  ent ← deref es i
  let rest = find_name fuel es name ent.next
  if same_name ent.name name then done (some i) else rest

-- The walk of `handle_readdir_request`: the child `n` places behind.
unfoldable pub find_nth : ℕ → List Entry → Option ℕ → Run (Option ℕ)
find_nth n es none = done none
find_nth zero es (some i) = done (some i)
find_nth (suc n) es (some i) = do ent ← deref es i; find_nth n es ent.next

-- The entry that `entry_init` writes over a free one: `va_fsid`, `va_flags`, `va_spare` and `name`
-- stay. `gen` is what `rand` returns.
unfoldable pub fresh_entry : Entry → ℕ → ℕ → ℕ → Entry
fresh_entry old id type gen = record old {
  va_fileid = id;
  va_type = type;
  next = none;
  child = none;
  file = record { numblocks = 0; datalen = 0 };
  va_mode = if type == vdir then 0o777 else 0o666;
  va_nlink = if type == vdir then 1 else 0;
  va_uid = 0;
  va_gid = 0;
  va_size = 0;
  va_blocksize = block_size;
  va_gen = gen;
  va_rdev = 0;
  va_bytes = 0;
  va_filerev = 1;
  va_vaflags = 0;
}

-- The first free entry.
unfoldable pub free_entry : List Entry → Option ℕ
free_entry es = find_index (λ e. e.va_fileid == 0) es

-- `entry_init`: the entry taken, if there is one.
unfoldable pub entry_init : ℕ → ℕ → State → Run (Option ℕ × State)
entry_init type gen s = elim (free_entry s.entries) [
  | none ↦ done (none, s)
  | some i ↦ deref s.entries i >>= λ old. done (
    some i,
    record s {
      entries = set s.entries i (fresh_entry old s.next_id type gen);
      next_id = (s.next_id + 1) % 2 ^ 32;
    },
  )
]

-- The walk of `entry_append` to the last child.
unfoldable pub last_child : ℕ → List Entry → ℕ → Run ℕ
last_child zero es i = spins
last_child (suc fuel) es i = do
  ent ← deref es i
  let rest : Run ℕ = elim ent.next [ none ↦ done i | some j ↦ last_child fuel es j ]
  rest

-- The end of `entry_append` for a directory that has a child `c`.
unfoldable pub append_behind : ℕ → List Entry → ℕ → ℕ → Run (List Entry)
append_behind fuel es c i = last_child fuel es c >>= λ l. deref es l >>= λ e.
    let es' = set es l (record e { next = some i }) in
    deref es' i >>= λ e'. done (set es' i (record e' { va_nlink = (e'.va_nlink + 1) % 2 ^ 32 }))

-- `entry_append(parent, ent)`. The first child of a directory is not counted in `va_nlink`.
unfoldable pub entry_append : ℕ → List Entry → ℕ → ℕ → Run (List Entry)
entry_append fuel es parent i = deref es parent >>= λ p. elim p.child [
  | none ↦ done (set es parent (record p { child = some i }))
  | some c ↦ append_behind fuel es c i
]

-- Whether an entry's `next` is the entry that `entry_remove` looks for.
unfoldable pub is_next : List Entry → ℕ → Option ℕ → Run Bool
is_next es id none = done false
is_next es id (some j) = do e ← deref es j; done (e.va_fileid == id)

-- The walk of `entry_remove`: it looks behind each child, and so never at the first one.
unfoldable pub unlink : ℕ → List Entry → Entry → Option ℕ → Run (List Entry)
unlink fuel es ent none = done es
unlink zero es ent (some i) = spins
unlink (suc fuel) es ent (some i) = do
  prev ← deref es i
  hit ← is_next es ent.va_fileid prev.next
  let rest = unlink fuel es ent prev.next
  if hit then done (set es i (record prev { next = ent.next })) else rest

-- `entry_remove(parent, ent)`; `va_nlink--` wraps.
unfoldable pub entry_remove : ℕ → List Entry → ℕ → ℕ → Run (List Entry)
entry_remove fuel es parent i = do
  p ← deref es parent
  ent ← deref es i
  es' ← unlink fuel es ent p.child
  e ← deref es' i
  done (set es' i (record e { va_nlink = (e.va_nlink + 2 ^ 32 - 1) % 2 ^ 32 }))

-- The first loop of `entry_reclaim` over the entries from index `k` on; `ent` points at entry `i`,
-- so the id that the loop compares with changes when it reaches `i`.
unfoldable pub clear_entries : ℕ → ℕ → ℕ → List Entry → List Entry
clear_entries i k id [] = []
clear_entries i k id (e ∷ es) =
    let e' = if e.va_fileid == id then record e { va_fileid = 0 } else e in
    e' ∷ clear_entries i (k + 1) (if k == i then e'.va_fileid else id) es

-- The second loop: the blocks of the entry's id, which is read again.
unfoldable pub clear_blocks : ℕ → List Block → List Block
clear_blocks id [] = []
clear_blocks id (b ∷ bs) =
    (if b.va_fileid == id then record { va_fileid = 0; idx = 0; bytes = blank } else b)
    ∷ clear_blocks id bs

-- `entry_reclaim(ent)`.
unfoldable pub entry_reclaim : ℕ → State → Run State
entry_reclaim i s = do
  ent ← deref s.entries i
  let es = clear_entries i 0 ent.va_fileid s.entries
  ent' ← deref es i
  done (record s { entries = es; blocks = clear_blocks ent'.va_fileid s.blocks })
