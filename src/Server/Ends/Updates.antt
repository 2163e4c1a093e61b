-- ===== src/Server/Ends/Updates.antt =====
-- Every request but a read or a write is answered while the directories' lists end.
mod Links
use net_bsd_wii_joybus.Server.Ends.Updates.Links.{
  on_entry-Ends, taken-IsEnding, attr_resp-Ends, create_some-Ends,
}
use net_bsd_wii_joybus.Base.{
  ℕ, ◌+◌, ◌%◌, ◌^◌, ◌≤◌, ◌≡◌, refl, sym, ◌∙◌, ap, arith, Option, none, some, List, Option-cases,
  Bool-cases, inl, inr, get_elem?, set, get_elem?-set_self, get_elem?-set_ne, lt_of_get_elem?,
  length-set, is_some, some-injective, ◌==◌,
}
use mathlib.Core.Path.{subst}
use net_bsd_wii_joybus.Message.{
  ReaddirReq, ReaddirResp, LookupReq, LookupResp, GetattrReq, AttrResp, CreateReq, RmReq, RmResp,
  ReclaimReq, SetattrReq, SetattrResp,
}
use net_bsd_wii_joybus.Server.{Entry, State, Run, done, fault, ◌>>=◌, deref, find_by_id, vdir}
use net_bsd_wii_joybus.Server.Tree.{
  name_size, is_string, copy_name, find_name, last_child, append_behind, entry_append, unlink,
  entry_remove, clear_entries, entry_reclaim, entry_init, fresh_entry, free_entry,
}
use net_bsd_wii_joybus.Server.Handlers.{
  find_in, lookup_resp, handle_lookup, attr_resp, handle_getattr, link_entry, create_in,
  handle_create, setsize_at, handle_setsize, steps_of, readdir_resp, nth_in, handle_readdir,
  reclaim_at, handle_reclaim, rm_found, rm_refused, rm_in, handle_rm,
}
use net_bsd_wii_joybus.Server.Ends.{
  Ends, Ends-bind, if-Ends, deref-Ends, deref-got, Leads, ends, step, IsEnding, find_name-Ends,
  find_nth-Ends, last_child-Ends, unlink-Ends, Leads-set,
}

module _ {k : ℕ} (fuel : ℕ) (s : State) (le : k ≤ fuel) (h : IsEnding k s.entries) where
  init_at-Ends :
      (gen vt : ℕ) (junk : AttrResp) (name : List ℕ) (p : ℕ) (free : Option ℕ)
      → free_entry s.entries ≡ free
      → Ends (entry_init vt gen s >>= create_in fuel junk name p)
  unfolding entry_init create_in fresh_entry
  init_at-Ends gen vt junk name p none full = rw (full, Ends) tt
  init_at-Ends gen vt junk name p (some i) free = elim (Option-cases (get_elem? s.entries i)) [
    | inl gone ↦ rw (free, gone, Ends) tt
    | inr (old, got) ↦
        let new = fresh_entry old s.next_id vt gen in
        rw (free, got, Ends)
          (create_some-Ends fuel junk name p i
            (record s { entries = set s.entries i new; next_id = (s.next_id + 1) % 2 ^ 32 }) le
            (taken-IsEnding s.entries i new refl refl h))
  ]

  create_at-Ends :
      (gen vt : ℕ) (junk : AttrResp) (name : List ℕ) (parent : Option ℕ)
      → Ends (elim parent as (λ _. Run (AttrResp × State)) [
        | none ↦ done (record junk { exists = 0 }, s)
        | some p ↦ entry_init vt gen s >>= create_in fuel junk name p
      ])
  create_at-Ends gen vt junk name none = tt
  create_at-Ends gen vt junk name (some p) =
      init_at-Ends gen vt junk name p (free_entry s.entries) refl

  pub handle_create-Ends :
      (gen vt : ℕ) (junk : AttrResp) (req : CreateReq) → Ends (handle_create fuel gen vt junk req s)
  unfolding handle_create
  handle_create-Ends gen vt junk req =
      create_at-Ends gen vt junk req.name (find_by_id req.parent_fileid s.entries)

  find_in-Ends : (name : List ℕ) (parent : Option ℕ) → Ends (find_in fuel s.entries name parent)
  unfolding find_in
  find_in-Ends name none = tt
  find_in-Ends name (some p) =
      Ends-bind (deref s.entries p) _ (deref-Ends s.entries p)
        λ e ran. find_name-Ends s.entries fuel name le (h p e (deref-got s.entries p e ran))

  lookup_resp-Ends : (junk : LookupResp) (o : Option ℕ) → Ends (lookup_resp s.entries junk o)
  unfolding lookup_resp
  lookup_resp-Ends junk none = tt
  lookup_resp-Ends junk (some i) = on_entry-Ends s.entries i _ λ e. tt

  pub handle_lookup-Ends :
      (junk : LookupResp) (req : LookupReq) → Ends (handle_lookup fuel junk req s)
  unfolding handle_lookup
  handle_lookup-Ends junk req =
      Ends-bind (find_in fuel s.entries req.name (find_by_id req.parent_fileid s.entries)) _
        (find_in-Ends req.name (find_by_id req.parent_fileid s.entries))
        λ match ran.
          Ends-bind (lookup_resp s.entries junk match) _ (lookup_resp-Ends junk match)
            λ resp ran'. tt

  entry_remove-Ends : (p i : ℕ) → Ends (entry_remove fuel s.entries p i)
  unfolding entry_remove
  entry_remove-Ends p i = Ends-bind (deref s.entries p) _ (deref-Ends s.entries p) λ e ran.
      on_entry-Ends s.entries i _ λ ent.
        Ends-bind (unlink fuel s.entries ent e.child) _
          (unlink-Ends s.entries fuel ent le (h p e (deref-got s.entries p e ran)))
          λ es' ran'. on_entry-Ends es' i _ λ e'. tt

  rm_found-Ends : (junk : RmResp) (p : ℕ) (o : Option ℕ) → Ends (rm_found fuel junk p s o)
  unfolding rm_found
  rm_found-Ends junk p none = tt
  rm_found-Ends junk p (some i) = on_entry-Ends s.entries i _ λ res.
      Ends-bind (entry_remove fuel s.entries p i) _ (entry_remove-Ends p i)
        λ es ran. on_entry-Ends es i _ λ res'. tt

  rm_in-Ends : (junk : RmResp) (name : List ℕ) (o : Option ℕ) → Ends (rm_in fuel junk name s o)
  unfolding rm_in rm_refused
  rm_in-Ends junk name none = tt
  rm_in-Ends junk name (some p) = Ends-bind (deref s.entries p) _ (deref-Ends s.entries p) λ e ran.
      if-Ends (is_some e.child) _ _
        (if-Ends (e.va_type == vdir) _ _
          (Ends-bind (find_name fuel s.entries name e.child) _
            (find_name-Ends s.entries fuel name le (h p e (deref-got s.entries p e ran)))
            λ o ran'. rm_found-Ends junk p o)
          tt)
        tt

  pub handle_rm-Ends : (junk : RmResp) (req : RmReq) → Ends (handle_rm fuel junk req s)
  unfolding handle_rm
  handle_rm-Ends junk req = rm_in-Ends junk req.name (find_by_id req.parent_fileid s.entries)

copy_name-Ends : (old text : List ℕ) → Ends (copy_name old text)
unfolding copy_name
copy_name-Ends old text = if-Ends (is_string name_size text) _ fault tt tt

module _ (s : State) where
  pub handle_getattr-Ends : (junk : AttrResp) (req : GetattrReq) → Ends (handle_getattr junk req s)
  unfolding handle_getattr
  handle_getattr-Ends junk req =
      Ends-bind (attr_resp s.entries junk (find_by_id req.fileid s.entries)) _
        (attr_resp-Ends s.entries junk (find_by_id req.fileid s.entries)) λ resp ran. tt

  nth_in-Ends : (n : ℕ) (parent : Option ℕ) → Ends (nth_in s.entries n parent)
  unfolding nth_in
  nth_in-Ends n none = tt
  nth_in-Ends n (some p) =
      on_entry-Ends s.entries p _ λ e. find_nth-Ends s.entries (steps_of n) e.child

  readdir_resp-Ends : (junk : ReaddirResp) (o : Option ℕ) → Ends (readdir_resp s.entries junk o)
  unfolding readdir_resp
  readdir_resp-Ends junk none = tt
  readdir_resp-Ends junk (some i) =
      on_entry-Ends s.entries i _ λ e.
        Ends-bind (copy_name junk.name e.name) _ (copy_name-Ends junk.name e.name) λ name ran. tt

  pub handle_readdir-Ends :
      (junk : ReaddirResp) (req : ReaddirReq) → Ends (handle_readdir junk req s)
  unfolding handle_readdir
  handle_readdir-Ends junk req =
      Ends-bind (nth_in s.entries req.n (find_by_id req.parent_fileid s.entries)) _
        (nth_in-Ends req.n (find_by_id req.parent_fileid s.entries))
        λ res ran.
          Ends-bind (readdir_resp s.entries junk res) _ (readdir_resp-Ends junk res) λ resp ran'. tt

  reclaim_at-Ends : (junk : RmResp) (o : Option ℕ) → Ends (reclaim_at s junk o)
  unfolding reclaim_at entry_reclaim
  reclaim_at-Ends junk none = tt
  reclaim_at-Ends junk (some i) = on_entry-Ends s.entries i _ λ ent.
      Ends-bind (entry_reclaim i s) _
        (on_entry-Ends s.entries i _
          λ e. on_entry-Ends (clear_entries i 0 e.va_fileid s.entries) i _ λ e'. tt)
        λ s' ran. on_entry-Ends s'.entries i _ λ e'. tt

  pub handle_reclaim-Ends : (junk : RmResp) (req : ReclaimReq) → Ends (handle_reclaim junk req s)
  unfolding handle_reclaim
  handle_reclaim-Ends junk req = reclaim_at-Ends junk (find_by_id req.va_fileid s.entries)

  setsize_at-Ends :
      (req : SetattrReq) (junk : SetattrResp) (o : Option ℕ) → Ends (setsize_at s req junk o)
  unfolding setsize_at
  setsize_at-Ends req junk none = tt
  setsize_at-Ends req junk (some i) = on_entry-Ends s.entries i _ λ ent. tt

  pub handle_setsize-Ends :
      (junk : SetattrResp) (req : SetattrReq) → Ends (handle_setsize junk req s)
  unfolding handle_setsize
  handle_setsize-Ends junk req = setsize_at-Ends req junk (find_by_id req.va_fileid s.entries)
