-- ===== src/Server/Safe.antt =====
-- What a run may do, and the invariant of the tables: pointers stay inside them, names end in their
-- arrays.
pub mod Walks
pub mod Tree
pub mod Blocks
pub mod Handlers
pub mod Updates
use net_bsd_wii_joybus.Base.{
  ℕ, zero, suc, ◌<◌, ◌≡◌, refl, arith, Bool, true, false, if◌then◌else◌, Option, none, some, List,
  [], ◌∷◌, All, Option-cases, inl, inr, length, get_elem?, set, length-set, lt_of_get_elem?,
}
use net_bsd_wii_joybus.Server.{
  Entry, Block, State, Run, done, fault, spins, waits, ◌>>=◌, deref, find_index,
}
use net_bsd_wii_joybus.Server.Search.{All-set, All-get_elem?, find_index-some}
use net_bsd_wii_joybus.Server.Blocks.Copy.{IsWhole}
use net_bsd_wii_joybus.Server.Tree.{name_size, is_string}

-- No undefined access, and a result with the property where there is one.
abbrev pub Safe {ℓ} : {A : Type ℓ} → (A → Type 0) → Run A → Type 0
Safe P (done a) = P a
Safe P fault = ⊥
Safe P spins = Unit
Safe P waits = Unit

pub Safe-bind {ℓ κ} :
    {A : Type ℓ} {B : Type κ} (P : A → Type 0) (Q : B → Type 0) (r : Run A) (f : A → Run B)
    → Safe P r
    → ((a : A) → P a → Safe Q (f a))
    → Safe Q (r >>= f)
Safe-bind P Q (done a) f h k = k a h
Safe-bind P Q fault f h k = h
Safe-bind P Q spins f h k = tt
Safe-bind P Q waits f h k = tt

-- The property of a result where there is one; an undefined access is not excluded.
abbrev pub Keeps {ℓ} : {A : Type ℓ} → (A → Type 0) → Run A → Type 0
Keeps P (done a) = P a
Keeps P fault = Unit
Keeps P spins = Unit
Keeps P waits = Unit

pub Keeps-bind {ℓ κ} :
    {A : Type ℓ} {B : Type κ} (P : A → Type 0) (Q : B → Type 0) (r : Run A) (f : A → Run B)
    → Keeps P r
    → ((a : A) → P a → Keeps Q (f a))
    → Keeps Q (r >>= f)
Keeps-bind P Q (done a) f h k = k a h
Keeps-bind P Q fault f h k = tt
Keeps-bind P Q spins f h k = tt
Keeps-bind P Q waits f h k = tt

pub Safe-Keeps {ℓ} : {A : Type ℓ} (P : A → Type 0) (r : Run A) → Safe P r → Keeps P r
Safe-Keeps P (done a) h = h
Safe-Keeps P fault h = tt
Safe-Keeps P spins h = tt
Safe-Keeps P waits h = tt

pub if-Safe {ℓ} :
    {A : Type ℓ} (P : A → Type 0) (b : Bool) (r r' : Run A)
    → Safe P r
    → Safe P r'
    → Safe P (if b then r else r')
if-Safe P true r r' h h' = h
if-Safe P false r r' h h' = h'

pub if-Keeps {ℓ} :
    {A : Type ℓ} (P : A → Type 0) (b : Bool) (r r' : Run A)
    → Keeps P r
    → Keeps P r'
    → Keeps P (if b then r else r')
if-Keeps P true r r' h h' = h
if-Keeps P false r r' h h' = h'

-- The property of a result where there is one, and `X` where an access is undefined.
abbrev pub Runs {ℓ} : {A : Type ℓ} → Type 0 → (A → Type 0) → Run A → Type 0
Runs X P (done a) = P a
Runs X P fault = X
Runs X P spins = Unit
Runs X P waits = Unit

pub Runs-bind {ℓ κ} :
    {A : Type ℓ} {B : Type κ} (X : Type 0) (P : A → Type 0) (Q : B → Type 0) (r : Run A)
    (f : A → Run B)
    → Runs X P r
    → ((a : A) → P a → Runs X Q (f a))
    → Runs X Q (r >>= f)
Runs-bind X P Q (done a) f h k = k a h
Runs-bind X P Q fault f h k = h
Runs-bind X P Q spins f h k = tt
Runs-bind X P Q waits f h k = tt

pub Safe-Runs {ℓ} : {A : Type ℓ} (X : Type 0) (P : A → Type 0) (r : Run A) → Safe P r → Runs X P r
Safe-Runs X P (done a) h = h
Safe-Runs X P fault h = absurd h
Safe-Runs X P spins h = tt
Safe-Runs X P waits h = tt

pub Runs-Safe {ℓ} : {A : Type ℓ} (P : A → Type 0) (r : Run A) → Runs ⊥ P r → Safe P r
Runs-Safe P (done a) h = h
Runs-Safe P fault h = h
Runs-Safe P spins h = tt
Runs-Safe P waits h = tt

pub Runs-Keeps {ℓ} : {A : Type ℓ} (P : A → Type 0) (r : Run A) → Runs Unit P r → Keeps P r
Runs-Keeps P (done a) h = h
Runs-Keeps P fault h = tt
Runs-Keeps P spins h = tt
Runs-Keeps P waits h = tt

-- NULL, or an index into a table of `n` entries.
abbrev pub IsPtr : ℕ → Option ℕ → Type 0
IsPtr n none = Unit
IsPtr n (some i) = i < n

-- An entry whose pointers lead into the table and whose name is a string of its array.
abbrev pub IsSound : ℕ → Entry → Type 0
IsSound n e = IsPtr n e.next × IsPtr n e.child × (is_string name_size e.name ≡ true)

-- A table of `n` entries whose pointers lead into it and whose names are strings.
abbrev pub IsTable : ℕ → List Entry → Type 0
IsTable n es = (length es ≡ n) × All (IsSound n) es

-- A state with tables of `n` entries and `m` blocks of 128 bytes, whose pointers lead into them and
-- whose entries' names are strings.
pub record IsState (n m : ℕ) (s : State) : Type 0 where
  pub table : IsTable n s.entries
  pub block_count : length s.blocks ≡ m
  pub whole : IsWhole s.blocks

get_elem?-lt {ℓ} :
    {A : Type ℓ} (xs : List A) (i : ℕ) → i < length xs → (a : A) × (get_elem? xs i ≡ some a)
get_elem?-lt [] i h = elim h [ ]
get_elem?-lt (x ∷ xs) zero h = (x, refl)
get_elem?-lt (x ∷ xs) (suc i) h = get_elem?-lt xs i (omega arith)

-- Following a pointer.
pub entry_at :
    (n : ℕ) (es : List Entry) (i : ℕ)
    → IsTable n es
    → i < n
    → (e : Entry) × (get_elem? es i ≡ some e) × IsSound n e
entry_at n es i t h =
    let (e, got) = get_elem?-lt es i (omega (arith, t.0)) in
    (e, got, All-get_elem? (IsSound n) es i t.1 got)

pub deref-Safe :
    (n : ℕ) (es : List Entry) (i : ℕ) → IsTable n es → i < n → Safe (IsSound n) (deref es i)
deref-Safe n es i t h = let (e, got, links) = entry_at n es i t h in rw (got, Safe) links

pub set-IsTable :
    (n : ℕ) (es : List Entry) (i : ℕ) (e : Entry)
    → IsTable n es
    → IsSound n e
    → IsTable n (set es i e)
set-IsTable n es i e t links =
    (omega (arith, length-set es i e, t.0), All-set (IsSound n) es i e t.1 links)

pub find_index-IsPtr {ℓ} :
    {A : Type ℓ} (n : ℕ) (p : A → Bool) (xs : List A) → length xs ≡ n → IsPtr n (find_index p xs)
find_index-IsPtr n p xs size = elim (Option-cases (find_index p xs)) [
  | inl e ↦ rw e tt
  | inr (k, e) ↦
      let (x, got, _, _) = find_index-some p xs e in
      rw e (omega (arith, size, lt_of_get_elem? xs k got))
]
