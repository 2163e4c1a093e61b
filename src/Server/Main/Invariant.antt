-- ===== src/Server/Main/Invariant.antt =====
-- The states that the server reaches, whatever it is asked.
use mathlib.Core.Path.{subst}
use net_bsd_wii_joybus.Base.{
  length-map, ℕ, ◌<◌, ◌≡◌, ◌∙◌, Option, none, some, List, [], ◌∷◌, All, length, map, true, arith,
  ◌∙◌,
}
use net_bsd_wii_joybus.Server.{Entry, Block, State, Run, deref, done, vreg, vdir}
use net_bsd_wii_joybus.Server.Handlers.{handle_statvfs, handle_create, handle_write, handle_read}
use net_bsd_wii_joybus.Server.Main.{
  Request, Response, Stack, answer, dispatch, statvfs, readdir, lookup, getattr, create, write,
  read, mkdir, rm, reclaim, setsize, ignored, readdir_sent, lookup_sent, attr_sent, rm_sent,
  setattr_sent,
}
use net_bsd_wii_joybus.Server.Safe.{
  Safe, Safe-bind, Keeps, Keeps-bind, Safe-Keeps, IsState, IsPtr, IsSound, IsTable, deref-Safe,
  set-IsTable,
}
use net_bsd_wii_joybus.Server.Blocks.Copy.{IsWhole}
use net_bsd_wii_joybus.Server.Boot.{boot, cleared, clear_entry, clear_block, non_null, test_name}
use net_bsd_wii_joybus.Server.Tree.{name_size, is_string, entry_init, entry_append, write_string}
use net_bsd_wii_joybus.Server.Tree.Names.{is_plain, is_string-append}
use net_bsd_wii_joybus.Server.Safe.Tree.{entry_append-IsTable, Inits, entry_init-Inits}
use net_bsd_wii_joybus.Server.Safe.Handlers.{
  with_entries-IsState, handle_lookup-Safe, handle_readdir-Safe, handle_getattr-Safe,
}
use net_bsd_wii_joybus.Server.Safe.Updates.{
  handle_create-Safe, handle_create-Keeps, handle_read-Keeps, handle_setsize-Safe,
  handle_reclaim-Safe, handle_rm-Safe, handle_write-Keeps,
}

-- A message of a write brings an array of 128 bytes.
abbrev pub IsSized : Request → Type 0
IsSized (write req messages) = All (λ msg. length msg.buf ≡ 128) messages
IsSized _ = Unit

-- The requests that copy no file data.
abbrev pub CopiesNone : Request → Type 0
CopiesNone (write req messages) = ⊥
CopiesNone (read req) = ⊥
CopiesNone _ = Unit

-- The requests whose name, if they print one, is a string without `%`.
abbrev pub IsPrintable : Request → Type 0
IsPrintable (create req) = is_plain req.name ≡ true
IsPrintable (mkdir req) = is_plain req.name ≡ true
IsPrintable _ = Unit

module _ (fuel : ℕ) (gen : ℕ) (stack : Stack) (n m : ℕ) where
  abbrev pub Next {ℓ} : {A : Type ℓ} → A × State → Type 0
  Next r = IsState n m r.1

  answer-Safe :
      {A : Type 0} (f : A → Response) (r : Run (A × State)) → Safe Next r → Safe Next (answer f r)
  unfolding answer
  answer-Safe f r h = Safe-bind Next Next r _ h λ a h'. h'

  -- In a state whose pointers stay inside the tables and whose entries' names are strings, no request
  -- but a read, a write, or a create or mkdir of a name with a `%` or without a 0, makes an undefined
  -- access, and the state it leaves is such a state again, with tables of the same size.
  pub dispatch-Safe :
      (req : Request) (s : State)
      → CopiesNone req
      → IsPrintable req
      → IsState n m s
      → Safe Next (dispatch fuel gen stack req s)
  unfolding dispatch handle_statvfs
  dispatch-Safe statvfs s c p v = v
  dispatch-Safe (readdir req) s c p v =
      answer-Safe readdir_sent _ (handle_readdir-Safe n m s v stack.readdir_junk req)
  dispatch-Safe (lookup req) s c p v =
      answer-Safe lookup_sent _ (handle_lookup-Safe n m s v fuel stack.lookup_junk req)
  dispatch-Safe (getattr req) s c p v =
      answer-Safe attr_sent _ (handle_getattr-Safe n m s v stack.attr_junk req)
  dispatch-Safe (create req) s c p v =
      answer-Safe attr_sent _ (handle_create-Safe n m s v fuel gen vreg stack.attr_junk req p)
  dispatch-Safe (write req messages) s c p v = absurd c
  dispatch-Safe (read req) s c p v = absurd c
  dispatch-Safe (mkdir req) s c p v =
      answer-Safe attr_sent _ (handle_create-Safe n m s v fuel gen vdir stack.attr_junk req p)
  dispatch-Safe (rm req) s c p v =
      answer-Safe rm_sent _ (handle_rm-Safe n m s v fuel stack.rm_junk req)
  dispatch-Safe (reclaim req) s c p v =
      answer-Safe rm_sent _ (handle_reclaim-Safe n m s v stack.rm_junk req)
  dispatch-Safe (setsize req) s c p v =
      answer-Safe setattr_sent _ (handle_setsize-Safe n m s v stack.setattr_junk req)
  dispatch-Safe (ignored recv) s c p v = v

  -- The same for every request, but that some of them may make an undefined access.
  dispatch-Keeps :
      (req : Request) (s : State)
      → IsSized req
      → IsState n m s
      → Keeps Next (dispatch fuel gen stack req s)
  unfolding dispatch answer handle_statvfs
  dispatch-Keeps (write req messages) s sizes v =
      Keeps-bind (λ r. IsState n m r.2) Next (handle_write stack.write_junk req messages s) _
        (handle_write-Keeps n m s v stack.write_junk req messages sizes) λ r h. h
  dispatch-Keeps (read req) s sizes v =
      Keeps-bind Next Next (handle_read stack.read_junk req s) _
        (handle_read-Keeps n m s v stack.read_junk req) λ r h. h
  dispatch-Keeps statvfs s sizes v = v
  dispatch-Keeps (readdir req) s sizes v = Safe-Keeps Next _ (dispatch-Safe (readdir req) s tt tt v)
  dispatch-Keeps (lookup req) s sizes v = Safe-Keeps Next _ (dispatch-Safe (lookup req) s tt tt v)
  dispatch-Keeps (getattr req) s sizes v = Safe-Keeps Next _ (dispatch-Safe (getattr req) s tt tt v)
  dispatch-Keeps (create req) s sizes v =
      Keeps-bind Next Next (handle_create fuel gen vreg stack.attr_junk req s) _
        (handle_create-Keeps n m s v fuel gen vreg stack.attr_junk req) λ r h. h
  dispatch-Keeps (mkdir req) s sizes v =
      Keeps-bind Next Next (handle_create fuel gen vdir stack.attr_junk req s) _
        (handle_create-Keeps n m s v fuel gen vdir stack.attr_junk req) λ r h. h
  dispatch-Keeps (rm req) s sizes v = Safe-Keeps Next _ (dispatch-Safe (rm req) s tt tt v)
  dispatch-Keeps (reclaim req) s sizes v = Safe-Keeps Next _ (dispatch-Safe (reclaim req) s tt tt v)
  dispatch-Keeps (setsize req) s sizes v = Safe-Keeps Next _ (dispatch-Safe (setsize req) s tt tt v)
  dispatch-Keeps (ignored recv) s sizes v = v

-- One request served: the fuel, what `rand` gives and what lies on the stack are different each
-- time.
pub data Serves (s s' : State) : Type 0 where
  served :
      (fuel : ℕ) (gen : ℕ) (stack : Stack) (req : Request) (resp : Response)
      → IsSized req
      → dispatch fuel gen stack req s ≡ done (resp, s')
      → Serves s s'

-- The states after any number of requests.
pub data Reaches (s : State) : State → Type 0 where
  here : Reaches s s
  next : {t u : State} → Reaches s t → Serves t u → Reaches s u

Serves-IsState : (n m : ℕ) (s s' : State) → Serves s s' → IsState n m s → IsState n m s'
Serves-IsState n m s s' (served fuel gen stack req resp sizes ran) v =
    subst (Keeps (λ r. IsState n m r.1)) ran (dispatch-Keeps fuel gen stack n m req s sizes v)

Reaches-IsState : (n m : ℕ) {s t : State} → IsState n m s → Reaches s t → IsState n m t
Reaches-IsState n m v here = v
Reaches-IsState n m v (next r st) = Serves-IsState n m _ _ st (Reaches-IsState n m v r)

map-IsSound : (n : ℕ) (es : List Entry) → All (IsSound n) es → All (IsSound n) (map clear_entry es)
map-IsSound n [] h = tt
map-IsSound n (e ∷ es) h = (h.0, map-IsSound n es h.1)

map-IsWhole : (bs : List Block) → IsWhole bs → IsWhole (map clear_block bs)
map-IsWhole [] h = tt
map-IsWhole (b ∷ bs) h = (h.0, map-IsWhole bs h.1)

cleared-IsState : (n m : ℕ) (s : State) → IsState n m s → IsState n m (cleared s)
unfolding cleared
cleared-IsState n m s v = record {
  table = (length-map clear_entry s.entries ∙ v.table.0, map-IsSound n s.entries v.table.1);
  block_count = length-map clear_block s.blocks ∙ v.block_count;
  whole = map-IsWhole s.blocks v.whole;
}

test_name-string : (old : List ℕ) → is_string name_size (write_string old test_name) ≡ true
unfolding write_string
test_name-string old = is_string-append name_size test_name _ (omega arith)

module _ (n m : ℕ) where
  non_null-Keeps : (o : Option ℕ) → IsPtr n o → Keeps (λ i. i < n) (non_null o)
  unfolding non_null
  non_null-Keeps none h = tt
  non_null-Keeps (some i) h = h

  boot-Keeps : (gen gen' : ℕ) (s : State) → IsState n m s → Keeps (IsState n m) (boot gen gen' s)
  unfolding boot
  boot-Keeps gen gen' s v =
      let v₀ = cleared-IsState n m s v in
      Keeps-bind (Inits n m (cleared s) v₀) (IsState n m) (entry_init vdir gen (cleared s)) _
        (Safe-Keeps (Inits n m (cleared s) v₀) _ (entry_init-Inits n m (cleared s) v₀ vdir gen))
        λ (root, s₁) (hr, v₁).
          Keeps-bind (Inits n m s₁ v₁) (IsState n m) (entry_init vreg gen' s₁) _
            (Safe-Keeps (Inits n m s₁ v₁) _ (entry_init-Inits n m s₁ v₁ vreg gen'))
            λ (test, s₂) (ht, v₂).
              Keeps-bind (λ i. i < n) (IsState n m) (non_null root) _ (non_null-Keeps root hr)
                λ r r_in.
                  Keeps-bind (λ i. i < n) (IsState n m) (non_null test) _ (non_null-Keeps test ht)
                    λ t t_in.
                      Keeps-bind (IsTable n) (IsState n m) (entry_append 1 s₂.entries r t) _
                        (Safe-Keeps (IsTable n) _
                          (entry_append-IsTable n 1 s₂.entries r t v₂.table r_in t_in))
                        λ es tab.
                          Keeps-bind (IsSound n) (IsState n m) (deref es t) _
                            (Safe-Keeps (IsSound n) _ (deref-Safe n es t tab t_in))
                            λ e links. with_entries-IsState n m s₂ v₂ _ (
                              set-IsTable n es t (record e { name = write_string e.name test_name })
                                tab (links.0, links.1, test_name-string e.name))

  -- From tables of `n` entries and `m` blocks of 128 bytes whose pointers stay inside them and whose
  -- entries' names are strings (as in static memory, which starts with zeros), in every
  -- state that the server reaches after the set-up in `main` by serving requests (a write's
  -- messages having 128 bytes), the tables have these sizes, each block has 128 bytes, the
  -- pointers stay inside the table of entries, and the names are strings.
  pub boot-Reaches :
      (gen gen' : ℕ) (s₀ s t : State)
      → IsState n m s₀
      → boot gen gen' s₀ ≡ done s
      → Reaches s t
      → IsState n m t
  boot-Reaches gen gen' s₀ s t v ran r =
      Reaches-IsState n m (subst (Keeps (IsState n m)) ran (boot-Keeps gen gen' s₀ v)) r
