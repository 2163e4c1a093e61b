-- ===== src/Server/Handlers/Create.antt =====
-- `handle_create_request` followed by `handle_lookup_request`.
mod Names
use net_bsd_wii_joybus.Server.Handlers.Create.Names.{Created, deref-done}
use mathlib.Core.Path.{subst}
use net_bsd_wii_joybus.Base.{
  ℕ, zero, suc, ◌+◌, ◌%◌, ◌^◌, ◌≤◌, ◌≡◌, ◌≢◌, refl, sym, ap, ◌∙◌, arith, true, false, none, some,
  List, [], ◌∷◌, ◌++◌, map, get_elem?, set, take, length, length-append, get_elem?-set_ne,
  get_elem?-set_self, lt_of_get_elem?, some-injective,
}
use net_bsd_wii_joybus.Message.{AttrResp, LookupResp}
use net_bsd_wii_joybus.Server.{Entry, State, done, deref, find_by_id}
use net_bsd_wii_joybus.Server.Search.{first}
use net_bsd_wii_joybus.Server.Safe.{Keeps}
use net_bsd_wii_joybus.Server.Tree.{
  same_name, string_of, print_name, fresh_entry, free_entry, entry_init, entry_append,
}
use net_bsd_wii_joybus.Server.Tree.Chain.{
  has, Chain, Chain-set_ne, Chain-set_next, Chain-entry, is_named,
}
use net_bsd_wii_joybus.Server.Tree.Append.{entry_append-Chain}
use net_bsd_wii_joybus.Server.Tree.Looks.{
  look, map-set, set_twice, get_elem?-map, entry_append-looks, first-named_new, find_by_id-set_ne,
}
use net_bsd_wii_joybus.Server.Tree.Names.{is_plain, named, named-same, print_name-is_plain}
use net_bsd_wii_joybus.Server.Handlers.{
  handle_create, create_in, link_entry, attr_resp, fill_attr, handle_lookup,
}
use net_bsd_wii_joybus.Server.Handlers.Lookup.{IsLookup, handle_lookup-first}

module _ (fuel : ℕ) (gen vt : ℕ) (junk : AttrResp) (name : List ℕ) (s : State) (p i : ℕ)
    (parent old : Entry) (is : List ℕ) (at_p : get_elem? s.entries p ≡ some parent)
    (at_i : get_elem? s.entries i ≡ some old) (ne : p ≢ i) (fueled : length is ≤ fuel)
    (out : has i is ≡ false) (out_p : has p is ≡ false) (ch : Chain s.entries parent.child is) where
  -- The name is printed as it is.
  abbrev Prints : Type 0
  Prints = (old : List ℕ) → print_name old name ≡ done (named old name)

  abbrev fresh : Entry
  fresh = fresh_entry old s.next_id vt gen

  abbrev taken : List Entry
  taken = set s.entries i fresh

  has-append_last : (i : ℕ) (is : List ℕ) → has i (is ++ i ∷ []) ≡ true
  has-append_last i [] = ground arith
  has-append_last i (j ∷ is) = ground (arith, has-append_last i is)

  link-Created :
      (es' : List Entry) × (ent : Entry) × (entry_append fuel taken p i ≡ done es')
      × (get_elem? es' i ≡ some ent)
      × Created s.entries p i is
          (s.next_id, vt, named old.name name)
          (set es' i (record ent { name = named ent.name name }))
  unfolding fresh_entry
  link-Created =
      let fresh_at = get_elem?-set_self s.entries i fresh (lt_of_get_elem? s.entries i at_i) in
      let parent_at = get_elem?-set_ne s.entries i p fresh (λ e. ne (sym e)) ∙ at_p in
      let (es', ran, (parent', at_p', ch')) =
        entry_append-Chain taken i fresh fresh_at refl fuel p parent is parent_at ne fueled out
          out_p (Chain-set_ne s.entries i fresh parent.child is out ch) in
      let looks =
        subst (Keeps (λ t. map look t ≡ map look taken)) ran (entry_append-looks fuel taken p i) in
      let (ent, at_i') =
        Chain-entry es' parent'.child (is ++ i ∷ []) i (has-append_last i is) ch' in
      let ent_look : look ent ≡ look fresh = some-injective (
        sym (get_elem?-map look es' i at_i')
        ∙ ap (λ ls. get_elem? ls i) looks
        ∙ get_elem?-map look taken i fresh_at) in
      let new : Entry = record ent { name = named ent.name name } in
      let new_look : look new ≡ (s.next_id, vt, named old.name name) =
        ap (λ (u : ℕ × ℕ × List ℕ). (u.0, u.1, named u.2 name)) ent_look in
      (
        es',
        ent,
        ran,
        at_i',
        record {
          written =
              map-set look es' i new
              ∙ ap (λ ls. set ls i (look new)) (looks ∙ map-set look s.entries i fresh)
              ∙ set_twice (map look s.entries) i (look fresh) (look new)
              ∙ ap (set (map look s.entries) i) new_look;
          parent = parent';
          at_p = get_elem?-set_ne es' i p new (λ e. ne (sym e)) ∙ at_p';
          children = Chain-set_next es' i ent new parent'.child (is ++ i ∷ []) at_i' refl ch';
          new = new;
          at_i = get_elem?-set_self es' i new (lt_of_get_elem? es' i at_i');
          new_look = new_look;
        },
      )

  init-runs :
      free_entry s.entries ≡ some i
      → entry_init vt gen s
        ≡ done (some i, record s { entries = taken; next_id = (s.next_id + 1) % 2 ^ 32 })
  unfolding entry_init
  init-runs free = rw (free, deref-done s.entries i at_i, entry_init) refl

  link-runs :
      (es' : List Entry) (ent : Entry) (id' : ℕ)
      → entry_append fuel taken p i ≡ done es'
      → get_elem? es' i ≡ some ent
      → Prints
      → link_entry fuel name p i (record s { entries = taken; next_id = id' })
        ≡ done (record s {
          entries = set es' i (record ent { name = named ent.name name });
          next_id = id';
        })
  unfolding link_entry
  link-runs es' ent id' ran got prints = rw (ran, deref-done es' i got, prints ent.name) refl

  attr-runs :
      (es' : List Entry) (new : Entry)
      → get_elem? es' i ≡ some new
      → attr_resp es' junk (some i) ≡ done (fill_attr junk new)
  unfolding attr_resp
  attr-runs es' new got = rw (deref-done es' i got) refl

  create-run :
      (id : ℕ) (es' : List Entry) (ent : Entry)
      → find_by_id id s.entries ≡ some p
      → free_entry s.entries ≡ some i
      → entry_append fuel taken p i ≡ done es'
      → get_elem? es' i ≡ some ent
      → Prints
      → handle_create fuel gen vt junk (record { parent_fileid = id; name = name }) s
        ≡ done (
          fill_attr junk (record ent { name = named ent.name name }),
          record s {
            entries = set es' i (record ent { name = named ent.name name });
            next_id = (s.next_id + 1) % 2 ^ 32;
          },
        )
  unfolding handle_create create_in
  create-run id es' ent by_id free ran got prints =
      let new : Entry = record ent { name = named ent.name name } in
      let at_new = get_elem?-set_self es' i new (lt_of_get_elem? es' i got) in
      rw
        (
          by_id,
          init-runs free,
          link-runs es' ent ((s.next_id + 1) % 2 ^ 32) ran got prints,
          attr-runs (set es' i new) new at_new,
          handle_create,
        )
        refl

  -- The handler's run, for a directory that exists and an entry that is free.
  create-runs :
      (id : ℕ)
      → find_by_id id s.entries ≡ some p
      → free_entry s.entries ≡ some i
      → Prints
      → (resp : AttrResp) × (s' : State) × (handle_create fuel gen vt junk
            (record { parent_fileid = id; name = name })
            s
          ≡ done (resp, s'))
        × (resp.va_fileid ≡ s.next_id)
        × Created s.entries p i is (s.next_id, vt, named old.name name) s'.entries
  unfolding fill_attr
  create-runs id by_id free prints =
      let (es', ent, ran, got, created) = link-Created in
      let new : Entry = record ent { name = named ent.name name } in
      let at_new = get_elem?-set_self es' i new (lt_of_get_elem? es' i got) in
      let is_new : new ≡ created.new = some-injective (sym at_new ∙ created.at_i) in
      (
        fill_attr junk new,
        record s { entries = set es' i new; next_id = (s.next_id + 1) % 2 ^ 32 },
        create-run id es' ent by_id free ran got prints,
        ap (λ (e : Entry). e.va_fileid) is_new ∙ ap (λ (u : ℕ × ℕ × List ℕ). u.0) created.new_look,
        created,
      )

  -- A create in an existing directory whose children form a chain, none of them with the name, with
  -- a free entry that is neither the directory nor a child, and with enough fuel; the next id is not
  -- the directory's, and the name is a string of at most 31 bytes without `%`. The create
  -- ends and answers with the next id; a lookup of the name after it ends and finds an entry with
  -- this id and the type asked for, in the table that the create left.
  pub handle_create-lookup :
      (id : ℕ) (lookup_junk : LookupResp)
      → find_by_id id s.entries ≡ some p
      → free_entry s.entries ≡ some i
      → s.next_id ≢ id
      → is_plain name ≡ true
      → length (string_of name) ≤ 31
      → first (is_named s.entries name) is ≡ none
      → (resp : AttrResp) × (s' : State) × (r : LookupResp) × (handle_create fuel gen vt junk
            (record { parent_fileid = id; name = name })
            s
          ≡ done (resp, s'))
        × (handle_lookup (fuel + 1) lookup_junk (record { parent_fileid = id; name = name }) s'
            ≡ done (r, s'))
        × (resp.va_fileid ≡ s.next_id)
        × (r.exists ≡ 1)
        × (r.va_fileid ≡ s.next_id)
        × (r.va_type ≡ vt)
  handle_create-lookup id lookup_junk by_id free other plain short nobody =
      let prints : Prints = λ old'. print_name-is_plain old' name plain short in
      let (resp, s', ran, answered, created) = create-runs id by_id free prints in
      let new_named : is_named s'.entries name i ≡ true = ground (
        arith,
        created.at_i,
        ap (λ (u : ℕ × ℕ × List ℕ). same_name u.2 name) created.new_look,
        named-same old.name name,
      ) in
      let is_first =
        first-named_new s.entries s'.entries name i (s.next_id, vt, named old.name name)
          created.written is out nobody new_named in
      let by_id' =
        find_by_id-set_ne s.entries s'.entries name i (s.next_id, vt, named old.name name)
          created.written id p by_id ne other in
      let (r, looked, is_r) =
        handle_lookup-first (fuel + 1) lookup_junk (record { parent_fileid = id; name = name }) s' p
          created.parent (is ++ i ∷ []) by_id' created.at_p created.children
          (omega (arith, length-append is (i ∷ []), fueled)) in
      let (e, got, _, is_found) =
        subst (λ o. IsLookup s'.entries name lookup_junk o r) is_first is_r in
      let is_new : e ≡ created.new = some-injective (sym got ∙ created.at_i) in
      let seen = ap look is_new ∙ created.new_look in
      (
        resp,
        s',
        r,
        ran,
        looked,
        answered,
        ap (λ (t : LookupResp). t.exists) is_found,
        ap (λ (t : LookupResp). t.va_fileid) is_found ∙ ap (λ (u : ℕ × ℕ × List ℕ). u.0) seen,
        ap (λ (t : LookupResp). t.va_type) is_found ∙ ap (λ (u : ℕ × ℕ × List ℕ). u.1) seen,
      )
