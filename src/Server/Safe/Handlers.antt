-- ===== src/Server/Safe/Handlers.antt =====
-- The handlers that only look: lookup, readdir, getattr.
use net_bsd_wii_joybus.Base.{ℕ, ◌<◌, ◌≡◌, true, Option, none, some, List, ◌==◌}
use net_bsd_wii_joybus.Message.{
  ReaddirReq, ReaddirResp, LookupReq, LookupResp, GetattrReq, AttrResp,
}
use net_bsd_wii_joybus.Server.{Entry, State, deref, find_by_id}
use net_bsd_wii_joybus.Server.Tree.{name_size, is_string, copy_name}
use net_bsd_wii_joybus.Server.Handlers.{
  find_in, lookup_resp, handle_lookup, attr_resp, handle_getattr, steps_of, readdir_resp, nth_in,
  handle_readdir,
}
use net_bsd_wii_joybus.Server.Safe.{
  Safe, Safe-bind, IsPtr, IsSound, IsTable, IsState, deref-Safe, find_index-IsPtr,
}
use net_bsd_wii_joybus.Server.Safe.Walks.{find_name-Safe, find_nth-Safe}

copy_name-Safe :
    (old text : List ℕ) → is_string name_size text ≡ true → Safe (λ _. Unit) (copy_name old text)
unfolding copy_name
copy_name-Safe old text h = rw h tt

module _ (n m : ℕ) (s : State) (v : IsState n m s) where
  -- A result with a state that keeps the invariant.
  abbrev pub Then {ℓ} : {A : Type ℓ} → A × State → Type 0
  Then r = IsState n m r.1

  pub found-IsPtr : (id : ℕ) → IsPtr n (find_by_id id s.entries)
  unfolding find_by_id
  found-IsPtr id = find_index-IsPtr n (λ e. e.va_fileid == id) s.entries v.table.0

  pub at-Safe : (i : ℕ) → i < n → Safe (IsSound n) (deref s.entries i)
  at-Safe i h = deref-Safe n s.entries i v.table h

  find_in-Safe :
      (fuel : ℕ) (name : List ℕ) (parent : Option ℕ)
      → IsPtr n parent
      → Safe (IsPtr n) (find_in fuel s.entries name parent)
  unfolding find_in
  find_in-Safe fuel name none h = tt
  find_in-Safe fuel name (some p) h =
      Safe-bind (IsSound n) (IsPtr n) (deref s.entries p) _ (at-Safe p h)
        λ parent links. find_name-Safe n s.entries v.table fuel name parent.child links.1

  lookup_resp-Safe :
      (junk : LookupResp) (o : Option ℕ)
      → IsPtr n o
      → Safe (λ _. Unit) (lookup_resp s.entries junk o)
  unfolding lookup_resp
  lookup_resp-Safe junk none h = tt
  lookup_resp-Safe junk (some i) h =
      Safe-bind (IsSound n) (λ _. Unit) (deref s.entries i) _ (at-Safe i h) λ e links. tt

  pub handle_lookup-Safe :
      (fuel : ℕ) (junk : LookupResp) (req : LookupReq) → Safe Then (handle_lookup fuel junk req s)
  unfolding handle_lookup
  handle_lookup-Safe fuel junk req =
      Safe-bind (IsPtr n) Then
        (find_in fuel s.entries req.name (find_by_id req.parent_fileid s.entries)) _
        (find_in-Safe fuel req.name (find_by_id req.parent_fileid s.entries)
          (found-IsPtr req.parent_fileid))
        λ match h.
          Safe-bind (λ _. Unit) Then (lookup_resp s.entries junk match) _
            (lookup_resp-Safe junk match h) λ resp _. v

  nth_in-Safe :
      (k : ℕ) (parent : Option ℕ) → IsPtr n parent → Safe (IsPtr n) (nth_in s.entries k parent)
  unfolding nth_in
  nth_in-Safe k none h = tt
  nth_in-Safe k (some p) h =
      Safe-bind (IsSound n) (IsPtr n) (deref s.entries p) _ (at-Safe p h)
        λ parent links. find_nth-Safe n s.entries v.table (steps_of k) parent.child links.1

  readdir_resp-Safe :
      (junk : ReaddirResp) (o : Option ℕ)
      → IsPtr n o
      → Safe (λ _. Unit) (readdir_resp s.entries junk o)
  unfolding readdir_resp
  readdir_resp-Safe junk none h = tt
  readdir_resp-Safe junk (some i) h =
      Safe-bind (IsSound n) (λ _. Unit) (deref s.entries i) _ (at-Safe i h)
        λ e sound.
          Safe-bind (λ _. Unit) (λ _. Unit) (copy_name junk.name e.name) _
            (copy_name-Safe junk.name e.name sound.2) λ name _. tt

  pub handle_readdir-Safe :
      (junk : ReaddirResp) (req : ReaddirReq) → Safe Then (handle_readdir junk req s)
  unfolding handle_readdir
  handle_readdir-Safe junk req =
      Safe-bind (IsPtr n) Then (nth_in s.entries req.n (find_by_id req.parent_fileid s.entries)) _
        (nth_in-Safe req.n (find_by_id req.parent_fileid s.entries) (found-IsPtr req.parent_fileid))
        λ res h.
          Safe-bind (λ _. Unit) Then (readdir_resp s.entries junk res) _
            (readdir_resp-Safe junk res h) λ resp _. v

  pub attr_resp-Safe :
      (junk : AttrResp) (o : Option ℕ) → IsPtr n o → Safe (λ _. Unit) (attr_resp s.entries junk o)
  unfolding attr_resp
  attr_resp-Safe junk none h = tt
  attr_resp-Safe junk (some i) h =
      Safe-bind (IsSound n) (λ _. Unit) (deref s.entries i) _ (at-Safe i h) λ e links. tt

  pub handle_getattr-Safe :
      (junk : AttrResp) (req : GetattrReq) → Safe Then (handle_getattr junk req s)
  unfolding handle_getattr
  handle_getattr-Safe junk req =
      Safe-bind (λ _. Unit) Then (attr_resp s.entries junk (find_by_id req.fileid s.entries)) _
        (attr_resp-Safe junk (find_by_id req.fileid s.entries) (found-IsPtr req.fileid)) λ resp _. v

  pub with_entries-IsState :
      (es : List Entry) → IsTable n es → IsState n m (record s { entries = es })
  with_entries-IsState es t = record { table = t; block_count = v.block_count; whole = v.whole }
