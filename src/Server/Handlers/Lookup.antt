-- ===== src/Server/Handlers/Lookup.antt =====
-- `handle_lookup_request` and `handle_readdir_request` on a directory whose children form a chain.
use net_bsd_wii_joybus.Base.{
  ℕ, ◌≤◌, ◌<◌, ◌^◌, ◌≡◌, refl, arith, true, Option, none, some, List, get_elem?, length,
  Option-cases, inl, inr,
}
use net_bsd_wii_joybus.Message.{LookupReq, LookupResp, ReaddirReq, ReaddirResp}
use net_bsd_wii_joybus.Server.{Entry, State, done, find_by_id}
use net_bsd_wii_joybus.Server.Search.{first, first-holds, All-get_elem?}
use net_bsd_wii_joybus.Server.Tree.{name_size, is_string, same_name, string_of, write_string}
use net_bsd_wii_joybus.Server.Tree.Chain.{
  Chain, is_named, find_name-first, find_nth-get_elem?, Chain-entry, is_named-some, has-get_elem?,
}
use net_bsd_wii_joybus.Server.Tree.Names.{AreNamed, copy_name-done}
use net_bsd_wii_joybus.Server.Handlers.{
  handle_lookup, find_in, lookup_resp, handle_readdir, nth_in, steps_of, readdir_resp,
}

-- What a lookup answers about an entry.
abbrev pub found : Entry → LookupResp
found e = record {
  exists = 1;
  va_fileid = e.va_fileid;
  va_type = e.va_type;
  va_size = e.va_size;
  va_rdev = e.va_rdev;
}

-- The answer for the first of the children with the name, or that there is none.
abbrev pub IsLookup : List Entry → List ℕ → LookupResp → Option ℕ → LookupResp → Type 0
IsLookup es name junk none r = r ≡ record junk { exists = 0 }
IsLookup es name junk (some i) r =
    (e : Entry) × (get_elem? es i ≡ some e) × (same_name e.name name ≡ true) × (r ≡ found e)

first-named :
    (es : List Entry) (name : List ℕ) (is : List ℕ) (i : ℕ)
    → first (is_named es name) is ≡ some i
    → (e : Entry) × (get_elem? es i ≡ some e) × (same_name e.name name ≡ true)
first-named es name is i h = is_named-some es name i (first-holds (is_named es name) is i h)

-- A lookup in a directory whose children form a chain (a list that ends, without repetition), with
-- fuel for as many steps as there are children, ends and answers with the first child that has the
-- name, if there is one, and with `exists = 0` if there is none; it changes nothing.
pub handle_lookup-first :
    (fuel : ℕ) (junk : LookupResp) (req : LookupReq) (s : State) (p : ℕ) (parent : Entry)
    (is : List ℕ)
    → find_by_id req.parent_fileid s.entries ≡ some p
    → get_elem? s.entries p ≡ some parent
    → Chain s.entries parent.child is
    → length is ≤ fuel
    → (r : LookupResp) × (handle_lookup fuel junk req s ≡ done (r, s))
      × IsLookup s.entries req.name junk (first (is_named s.entries req.name) is) r
unfolding handle_lookup find_in lookup_resp
handle_lookup-first fuel junk req s p parent is by_id at_p ch le =
    let run = find_name-first fuel s.entries req.name parent.child is le ch in
    elim (Option-cases (first (is_named s.entries req.name) is)) [
      | inl none_named ↦
          rw none_named
            (record junk { exists = 0 }, ground (arith, by_id, at_p, run, none_named), refl)
      | inr (i, at_i) ↦
          let (e, got, named) = first-named s.entries req.name is i at_i in
          rw at_i (found e, ground (arith, by_id, at_p, run, at_i, got), (e, got, named, refl))
    ]

-- The answer of a readdir for the child at a place.
abbrev pub IsReaddir : List Entry → ReaddirResp → Option ℕ → ReaddirResp → Type 0
IsReaddir es junk none r = r ≡ record junk { exists = 0; va_fileid = 0; va_type = 0 }
IsReaddir es junk (some i) r =
    (e : Entry) × (get_elem? es i ≡ some e)
    × (r ≡ record {
      exists = 1;
      va_fileid = e.va_fileid;
      va_type = e.va_type;
      name = write_string junk.name (string_of e.name);
    })

-- In a directory whose children form a chain, in a table whose names are strings of their arrays, a
-- readdir with the number `n` (below 2 ^ 31) answers with the child `n` places behind the first
-- one, and with `exists = 0` behind the last one; it changes nothing.
pub handle_readdir-nth :
    (junk : ReaddirResp) (req : ReaddirReq) (s : State) (p : ℕ) (parent : Entry) (is : List ℕ)
    → find_by_id req.parent_fileid s.entries ≡ some p
    → get_elem? s.entries p ≡ some parent
    → Chain s.entries parent.child is
    → req.n < 2 ^ 31
    → AreNamed s.entries
    → (r : ReaddirResp) × (handle_readdir junk req s ≡ done (r, s))
      × IsReaddir s.entries junk (get_elem? is req.n) r
unfolding handle_readdir nth_in steps_of readdir_resp
handle_readdir-nth junk req s p parent is by_id at_p ch small strings =
    let run = find_nth-get_elem? req.n s.entries parent.child is ch in
    elim (Option-cases (get_elem? is req.n)) [
      | inl gone ↦ rw gone (
        record junk { exists = 0; va_fileid = 0; va_type = 0 },
        ground (arith, by_id, at_p, run, gone),
        refl,
      )
      | inr (i, at_i) ↦
          let (e, got) =
            Chain-entry s.entries parent.child is i (has-get_elem? req.n i is at_i) ch in
          let string =
            All-get_elem? (λ e. is_string name_size e.name ≡ true) s.entries i strings got in
          rw at_i (
            record {
              exists = 1;
              va_fileid = e.va_fileid;
              va_type = e.va_type;
              name = write_string junk.name (string_of e.name);
            },
            ground (arith, by_id, at_p, run, at_i, got, copy_name-done junk.name e.name string),
            (e, got, refl),
          )
    ]
