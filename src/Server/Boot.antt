-- ===== src/Server/Boot.antt =====
-- The set-up in `main` of puffboy_advance/gba/src/main.cpp, up to its loop.
use net_bsd_wii_joybus.Base.{
  ℕ, ◌≡◌, refl, arith, Option, none, some, List, [], ◌∷◌, map, set, length, get_elem?,
}
use net_bsd_wii_joybus.Server.{
  Entry, Block, State, Run, done, fault, ◌>>=◌, deref, find_by_id, vreg, vdir,
}
use net_bsd_wii_joybus.Server.Blocks.Take.{free_count}
use net_bsd_wii_joybus.Server.Tree.{entry_init, entry_append, write_string, free_entry, fresh_entry}
use net_bsd_wii_joybus.Server.Tree.Chain.{Chain}

-- "abcdefghijklmnopqrstuvwxyz12345".
abbrev pub test_name : List ℕ
test_name =
    97 ∷ 98 ∷ 99 ∷ 100 ∷ 101 ∷ 102 ∷ 103 ∷ 104 ∷ 105 ∷ 106 ∷ 107 ∷ 108 ∷ 109 ∷ 110 ∷ 111 ∷ 112 ∷ 113
    ∷ 114 ∷ 115 ∷ 116 ∷ 117 ∷ 118 ∷ 119 ∷ 120 ∷ 121 ∷ 122 ∷ 49 ∷ 50 ∷ 51 ∷ 52 ∷ 53 ∷ []

-- A pointer that must not be NULL.
unfoldable pub non_null : Option ℕ → Run ℕ
non_null none = fault
non_null (some i) = done i

abbrev pub clear_entry : Entry → Entry
clear_entry e = record e { va_fileid = 0 }

abbrev pub clear_block : Block → Block
clear_block b = record b { va_fileid = 0 }

-- The two loops that clear the tables.
unfoldable pub cleared : State → State
cleared s = record s { entries = map clear_entry s.entries; blocks = map clear_block s.blocks }

-- `main` up to `while (true)`; `gen` and `gen'` are what `rand` returns.
unfoldable pub boot : ℕ → ℕ → State → Run State
boot gen gen' s = entry_init vdir gen (cleared s) >>= λ (root, s').
    entry_init vreg gen' s' >>= λ (test, s''). non_null root >>= λ r. non_null test >>= λ t.
    entry_append 1 s''.entries r t >>= λ es. deref es t >>= λ e.
    done (record s'' { entries = set es t (record e { name = write_string e.name test_name }) })

free_count-cleared : (bs : List Block) → free_count (map clear_block bs) ≡ length bs
free_count-cleared [] = refl
free_count-cleared (b ∷ bs) = ground (arith, free_count-cleared bs)

-- The set-up, from tables of at least two entries with any contents and with `ID` at 1: it ends,
-- entry 0 has the id 1 and one child, entry 1, whose id is 2, and all blocks are free.
pub boot-Chain :
    (gen gen' : ℕ) (e0 e1 : Entry) (es : List Entry) (bs : List Block)
    → (s : State) × (boot gen gen' (record { entries = e0 ∷ e1 ∷ es; blocks = bs; next_id = 1 })
        ≡ done s)
      × (root : Entry) × (get_elem? s.entries 0 ≡ some root)
      × (root.va_fileid ≡ 1)
      × Chain s.entries root.child (1 ∷ [])
      × (find_by_id 2 s.entries ≡ some 1)
      × (free_count s.blocks ≡ length bs)
unfolding boot entry_init entry_append cleared free_entry fresh_entry non_null find_by_id
boot-Chain gen gen' e0 e1 es bs =
    let root = fresh_entry e0 1 vdir gen in
    let test = fresh_entry e1 2 vreg gen' in
    (
      record {
        entries =
            record root { child = some 1 }
            ∷ record test { name = write_string test.name test_name }
            ∷ map clear_entry es;
        blocks = map clear_block bs;
        next_id = 3;
      },
      refl,
      record root { child = some 1 },
      refl,
      refl,
      (refl, (record test { name = write_string test.name test_name }, refl, refl, refl)),
      refl,
      free_count-cleared bs,
    )
