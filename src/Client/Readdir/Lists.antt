-- ===== src/Client/Readdir/Lists.antt =====
-- What a directory's listing contains.
use mathlib.Core.Path.{subst}
use net_bsd_wii_joybus.Base.{
  ℕ, length-drop, zero, suc, ◌+◌, ◌-◌, ◌%◌, ◌^◌, ◌≤◌, ◌<◌, ◌≡◌, refl, ap, ◌∙◌, arith, max, Bool,
  true, false, Option, none, some, List, [], ◌∷◌, get_elem?, drop, length, Option-cases, inl, inr,
}
use net_bsd_wii_joybus.Message.{ReaddirResp}
use net_bsd_wii_joybus.Server.{Entry, State, done, find_by_id}
use net_bsd_wii_joybus.Server.Tree.{string_of, write_string}
use net_bsd_wii_joybus.Server.Tree.Chain.{Chain}
use net_bsd_wii_joybus.Server.Tree.Names.{AreNamed}
use net_bsd_wii_joybus.Server.Handlers.{handle_readdir}
use net_bsd_wii_joybus.Server.Handlers.Lookup.{IsReaddir, handle_readdir-nth}
use net_bsd_wii_joybus.Client.Readdir.{
  Dirents, put_dot, put_dots, put_entry, put_entries, node_readdir,
}

-- The entries at the places of a list.
pub data AreEntries (es : List Entry) : List ℕ → List Entry → Type 0 where
  no_entries : AreEntries es [] []
  more_entries :
      {i : ℕ} {is : List ℕ} {e : Entry} {children : List Entry}
      → get_elem? es i ≡ some e
      → AreEntries es is children
      → AreEntries es (i ∷ is) (e ∷ children)

Chain-AreEntries :
    (es : List Entry) (head : Option ℕ) (is : List ℕ)
    → Chain es head is
    → (children : List Entry) × AreEntries es is children
Chain-AreEntries es head [] c = ([], no_entries)
Chain-AreEntries es head (i ∷ is) (at_i, (ent, got, out, more)) =
    let (children, are) = Chain-AreEntries es ent.next is more in
    (ent ∷ children, more_entries got are)

AreEntries-drop :
    (es : List Entry) (k : ℕ) {is : List ℕ} {children : List Entry}
    → AreEntries es is children
    → AreEntries es (drop k is) (drop k children)
AreEntries-drop es zero are = are
AreEntries-drop es (suc k) no_entries = no_entries
AreEntries-drop es (suc k) (more_entries got are) = AreEntries-drop es k are

get_elem?-drop : (k j : ℕ) (is : List ℕ) → get_elem? is (k + j) ≡ get_elem? (drop k is) j
get_elem?-drop zero j is = ap (get_elem? is) (omega arith)
get_elem?-drop (suc k) j [] = refl
get_elem?-drop (suc k) j (i ∷ is) =
    let behind : suc k + j ≡ suc (k + j) = omega arith in
    ap (get_elem? (i ∷ is)) behind ∙ get_elem?-drop k j is

module _ (d : Dirents) where
  -- The response for an entry.
  abbrev pub told : List ℕ → Entry → ReaddirResp
  told junk e = record {
    exists = 1;
    va_fileid = e.va_fileid;
    va_type = e.va_type;
    name = write_string junk (string_of e.name);
  }

  -- Entry after entry while there is room, each with the offset behind it as its cookie.
  abbrev pub listed : List ℕ → d.Out → ℕ → List Entry → Bool × d.Out × ℕ
  listed junk out off [] = (true, out, off)
  listed junk out off (e ∷ children) = elim (put_entry d out (told junk e)) [
    | none ↦ (false, out, off)
    | some out' ↦ listed junk (d.store_dcookie out' (off + 1)) (off + 1) children
  ]

  -- `.` and `..` for the offsets 0 and 1.
  abbrev pub dots : d.Out → ℕ → d.Out
  dots out zero = put_dot d (put_dot d out 0) 1
  dots out (suc zero) = put_dot d out 1
  dots out (suc (suc off)) = out

  put_dots-dots : (out : d.Out) (off : ℕ) → put_dots d 3 out off ≡ done (dots out off, max off 2)
  unfolding put_dots
  put_dots-dots out zero = rw (d.dent_dot_lem, d.dent_dotdot_lem) refl
  put_dots-dots out (suc zero) = rw (d.dent_dot_lem, d.dent_dotdot_lem) refl
  put_dots-dots out (suc (suc off)) = ground (arith, d.dent_dot_lem, d.dent_dotdot_lem)

  module _ (junk : ReaddirResp) (id : ℕ) (s : State) (p : ℕ) (parent : Entry) (is : List ℕ)
      (by_id : find_by_id id s.entries ≡ some p) (at_p : get_elem? s.entries p ≡ some parent)
      (ch : Chain s.entries parent.child is) (strings : AreNamed s.entries) where
    told-IsReaddir :
        (i : ℕ) (e : Entry) (r : ReaddirResp)
        → get_elem? s.entries i ≡ some e
        → IsReaddir s.entries junk (some i) r
        → r ≡ told junk.name e
    told-IsReaddir i e r got (e', got', is_told) =
        let same : e' ≡ e = ground (arith, got, got') in is_told ∙ ap (told junk.name) same

    -- The answers to the loop's requests.
    answered :
        (off k : ℕ) (o : Option ℕ)
        → off ≡ k + 2
        → get_elem? is (k + 0) ≡ o
        → k < 2 ^ 31
        → (r : ReaddirResp) × (handle_readdir junk
              (record { parent_fileid = id; n = d.dent_adj off % 2 ^ 32 })
              s
            ≡ done (r, s))
          × IsReaddir s.entries junk o r
    answered off k o at_off at_k small =
        let adjusted : d.dent_adj off ≡ k = ap d.dent_adj at_off ∙ d.dent_adj_lem k in
        let asked : k ≡ d.dent_adj off % 2 ^ 32 = omega (arith, adjusted, small) in
        let here : k ≡ k + 0 = omega arith in
        let (r, ran, is_r) =
          handle_readdir-nth junk (record { parent_fileid = id; n = k }) s p parent is by_id at_p ch
            small strings in
        (
          r,
          subst (λ t. handle_readdir junk (record { parent_fileid = id; n = t }) s ≡ done (r, s))
              asked ran,
          subst (λ t. IsReaddir s.entries junk t r) (ap (get_elem? is) here ∙ at_k) is_r,
        )

    next_same :
        (k i : ℕ) (more : List ℕ)
        → ((j : ℕ) → get_elem? is (k + j) ≡ get_elem? (i ∷ more) j)
        → (j : ℕ) → get_elem? is (k + 1 + j) ≡ get_elem? more j
    next_same k i more same j =
        let next : k + 1 + j ≡ k + suc j = omega arith in ap (get_elem? is) next ∙ same (suc j)

    put_entries-listed :
        (fuel off k : ℕ) (out : d.Out) {more : List ℕ} {children : List Entry}
        → off ≡ k + 2
        → ((j : ℕ) → get_elem? is (k + j) ≡ get_elem? more j)
        → AreEntries s.entries more children
        → length more < fuel
        → k + length more < 2 ^ 31
        → put_entries d (handle_readdir junk) fuel id out off s
          ≡ done (listed junk.name out off children, s)
    unfolding put_entries
    put_entries-listed zero off k out at_off same are fueled small = absurd (omega arith)
    put_entries-listed (suc fuel) off k out at_off same no_entries fueled small =
        let (r, ran, is_r) = answered off k none at_off (same 0) (omega arith) in
        rw (ran, is_r) refl
    put_entries-listed (suc fuel) off k out at_off same
          (more_entries {i} {is = more} {e} {children} got are) fueled small =
        let (r, ran, is_r) = answered off k (some i) at_off (same 0) (omega arith) in
        let is_told = told-IsReaddir i e r got is_r in
        elim (Option-cases (put_entry d out (told junk.name e))) [
          | inl full ↦ rw (ran, is_told, full, listed) refl
          | inr (out', room) ↦
              rw (ran, is_told, room, listed)
                (put_entries-listed fuel (off + 1) (k + 1) (d.store_dcookie out' (off + 1))
                  (omega (arith, at_off)) (next_same k i more same) are (omega arith) (omega arith))
        ]

    -- `puffboy_node_readdir` on a directory whose children form a chain, in a table whose
    -- names are strings of their arrays, with `handle_readdir_request` at the other end, enough fuel and fewer than 2 ^ 31 children: from
    -- any offset up to the one behind the last child it ends, it lists `.` and `..` where the offset
    -- is before them, then the children in their order from that offset on, each with its id, type
    -- and name, until there is no room; it sets the flag for the end when all are listed, and
    -- nothing changes on the GBA.
    pub node_readdir-listed :
        (fuel : ℕ) (out : d.Out) (off : ℕ)
        → length is < fuel
        → length is < 2 ^ 31
        → off ≤ length is + 2
        → (children : List Entry) × AreEntries s.entries is children
          × (node_readdir d (handle_readdir junk) fuel id out off s
              ≡ done (
                listed junk.name
                    (dots (d.no_cookies out) off)
                    (max off 2)
                    (drop (max off 2 - 2) children),
                s,
              ))
    unfolding node_readdir
    node_readdir-listed fuel out off fueled small in_range =
        let (children, are) = Chain-AreEntries s.entries parent.child is ch in
        let k = max off 2 - 2 in
        (
          children,
          are,
          rw (put_dots-dots (d.no_cookies out) off) (
              put_entries-listed fuel (max off 2) k (dots (d.no_cookies out) off) (omega arith)
                (λ j. get_elem?-drop k j is) (AreEntries-drop s.entries k are)
                (omega (arith, length-drop k is)) (omega (arith, length-drop k is))),
        )
