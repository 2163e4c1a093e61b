-- ===== src/Server.antt =====
-- The state of puffboy_advance/gba/src/main.cpp and how its code runs. A pointer to an entry is its
-- index in `ENTRIES`; `none` is NULL.
pub mod Search
pub mod Blocks
pub mod Tree
pub mod Handlers
pub mod Boot
pub mod Safe
pub mod Ends
pub mod Main
use net_bsd_wii_joybus.Base.{
  ℕ, suc, Bool, Option, none, some, List, [], ◌∷◌, if◌then◌else◌, get_elem?, ◌==◌,
}

abbrev pub entries_max : ℕ
entries_max = 20

abbrev pub block_max : ℕ
block_max = 1024

abbrev pub vreg : ℕ
vreg = 1

abbrev pub vdir : ℕ
vdir = 2

pub record GbaFile : Type 0 where
  pub numblocks : ℕ
  pub datalen : ℕ

pub record Entry : Type 0 where
  pub va_type : ℕ
  pub va_mode : ℕ
  pub va_nlink : ℕ
  pub va_uid : ℕ
  pub va_gid : ℕ
  pub va_fsid : ℕ
  pub va_fileid : ℕ
  pub va_size : ℕ
  pub va_blocksize : ℕ
  pub va_gen : ℕ
  pub va_flags : ℕ
  pub va_rdev : ℕ
  pub va_bytes : ℕ
  pub va_filerev : ℕ
  pub va_vaflags : ℕ
  pub va_spare : ℕ
  pub name : List ℕ
  pub next : Option ℕ
  pub child : Option ℕ
  pub file : GbaFile

pub record Block : Type 0 where
  pub va_fileid : ℕ
  pub idx : ℕ
  pub bytes : List ℕ

-- `ENTRIES`, `GBA_BLOCKS` and `ID`.
pub record State : Type 0 where
  pub entries : List Entry
  pub blocks : List Block
  pub next_id : ℕ

-- A run of the code: a result, an access that C leaves undefined, a loop that its fuel does not
-- bring to an end, or a wait for a message that is not among those given.
pub data Run {ℓ} (A : Type ℓ) : Type ℓ where
  done : A → Run A
  fault : Run A
  spins : Run A
  waits : Run A

infixl 5 ◌>>=◌
abbrev pub ◌>>=◌ {ℓ κ} : {A : Type ℓ} {B : Type κ} → Run A → (A → Run B) → Run B
done a >>= f = f a
fault >>= f = fault
spins >>= f = spins
waits >>= f = waits

-- `*p` for a pointer into an array.
abbrev pub deref {ℓ} : {A : Type ℓ} → List A → ℕ → Run A
deref xs i = elim (get_elem? xs i) [ none ↦ fault | some a ↦ done a ]

-- The first index at which a test holds: a loop over an array that returns at the first hit.
abbrev pub find_index {ℓ} : {A : Type ℓ} → (A → Bool) → List A → Option ℕ
find_index p [] = none
find_index p (x ∷ xs) =
    if p x then some 0 else elim (find_index p xs) [ none ↦ none | some i ↦ some (suc i) ]

-- The number of elements at which a test holds: a loop that counts.
abbrev pub count_if {ℓ} : {A : Type ℓ} → (A → Bool) → List A → ℕ
count_if p [] = 0
count_if p (x ∷ xs) = if p x then suc (count_if p xs) else count_if p xs

-- `find_by_id`.
unfoldable pub find_by_id : ℕ → List Entry → Option ℕ
find_by_id id es = find_index (λ e. e.va_fileid == id) es
