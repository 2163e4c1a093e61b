-- ===== src/Server/Tree/Append.antt =====
-- `entry_append` of a new child, and of one that is linked already.
use mathlib.Core.Path.{subst}
use net_bsd_wii_joybus.Base.{
  ℕ, zero, suc, ◌+◌, ◌%◌, ◌^◌, ◌≤◌, ◌<◌, ◌≡◌, ◌≢◌, refl, sym, ◌∙◌, arith, false, none, some, List,
  [], ◌∷◌, ◌++◌, length, get_elem?, set, get_elem?-set_self, get_elem?-set_ne, lt_of_get_elem?,
}
use net_bsd_wii_joybus.Server.{Entry, done, spins}
use net_bsd_wii_joybus.Server.Tree.{same_name, find_name, append_behind, entry_append}
use net_bsd_wii_joybus.Server.Tree.Chain.{
  has, Chain, is_named, last_of, last_child-last_of, last_of-has, has-ne, Chain-entry,
  Chain-set_next,
}

abbrev pub linked : Entry → ℕ → Entry
linked e i = record e { next = some i }

abbrev pub counted : Entry → Entry
counted e = record e { va_nlink = (e.va_nlink + 1) % 2 ^ 32 }

has-append : (k : ℕ) (is : List ℕ) (i : ℕ) → has k is ≡ false → k ≢ i → has k (is ++ i ∷ []) ≡ false
has-append k [] i h ne = ground arith
has-append k (j ∷ js) i h ne = ground (arith, has-append k js i)

module _ (es : List Entry) (i : ℕ) (new : Entry) (at_i : get_elem? es i ≡ some new)
    (ends : new.next ≡ none) where
  -- The last child's `next` is set to the new entry.
  Chain-link :
      (c : ℕ) (is : List ℕ) (l : ℕ) (last : Entry)
      → l ≡ last_of c is
      → get_elem? es l ≡ some last
      → has i (c ∷ is) ≡ false
      → Chain es (some c) (c ∷ is)
      → Chain (set es l (linked last i)) (some c) ((c ∷ is) ++ i ∷ [])
  Chain-link c [] l last is_l at_l out (same, (ent, got, fresh, more)) =
      subst (λ t. Chain (set es l (linked last i)) (some t) (t ∷ i ∷ [])) is_l
        (
          refl,
          (
            linked last i,
            get_elem?-set_self es l (linked last i) (lt_of_get_elem? es l at_l),
            ground (arith, out),
            (
              refl,
              (
                new,
                get_elem?-set_ne es l i (linked last i) (ground (arith, out)) ∙ at_i,
                refl,
                ends,
              ),
            ),
          ),
        )
  Chain-link c (d ∷ is) l last is_l at_l out (same, (ent, got, fresh, (to_d, rest))) = (
    refl,
    (
      ent,
      get_elem?-set_ne es l c (linked last i) apart ∙ got,
      has-append c (d ∷ is) i fresh (ground (arith, out)),
      subst (λ t. Chain (set es l (linked last i)) t ((d ∷ is) ++ i ∷ [])) (sym to_d)
          (Chain-link d is l last is_l at_l (ground (arith, out)) (refl, rest)),
    ),
  )
    where
      apart : l ≢ c
      apart e = has-ne c (last_of d is) (d ∷ is) fresh (last_of-has d is) (sym e ∙ is_l)

  -- `entry_append` of an entry without a successor that is not yet a child, to a parent that is
  -- neither that entry nor its own child and whose children form a chain (a list that ends, without
  -- repetition), with fuel for them: it ends, and the parent's children are those from
  -- before, in their order, and the new one behind them.
  pub entry_append-Chain :
      (fuel p : ℕ) (parent : Entry) (is : List ℕ)
      → get_elem? es p ≡ some parent
      → p ≢ i
      → length is ≤ fuel
      → has i is ≡ false
      → has p is ≡ false
      → Chain es parent.child is
      → (es' : List Entry) × (entry_append fuel es p i ≡ done es')
        × ((parent' : Entry) × (get_elem? es' p ≡ some parent')
            × Chain es' parent'.child (is ++ i ∷ []))
  unfolding entry_append append_behind
  entry_append-Chain fuel p parent [] at_p ne le out out_p empty = (
    set es p (record parent { child = some i }),
    ground (arith, at_p, empty),
    (
      record parent { child = some i },
      get_elem?-set_self es p (record parent { child = some i }) (lt_of_get_elem? es p at_p),
      (
        refl,
        (new, get_elem?-set_ne es p i (record parent { child = some i }) ne ∙ at_i, refl, ends),
      ),
    ),
  )
  entry_append-Chain fuel p parent (c ∷ is) at_p ne le out out_p (to_c, (ent, got, fresh, more)) =
      let l = last_of c is in
      let (last, at_l) = Chain-entry es (some c) (c ∷ is) l (last_of-has c is) chain in
      let at_l' = lt_of_get_elem? es l at_l in
      let l_ne_i = λ (e : l ≡ i). has-ne i l (c ∷ is) out (last_of-has c is) (sym e) in
      let l_ne_p = λ (e : l ≡ p). has-ne p l (c ∷ is) out_p (last_of-has c is) (sym e) in
      let es₁ = set es l (linked last i) in
      let new_at : get_elem? es₁ i ≡ some new =
        get_elem?-set_ne es l i (linked last i) l_ne_i ∙ at_i in
      let parent_at : get_elem? es₁ p ≡ some parent =
        get_elem?-set_ne es l p (linked last i) l_ne_p ∙ at_p in
      (
        set es₁ i (counted new),
        ground (arith, at_p, to_c, last_child-last_of fuel es c is le chain, at_l, new_at),
        (
          parent,
          get_elem?-set_ne es₁ i p (counted new) (λ e. ne (sym e)) ∙ parent_at,
          subst (λ t. Chain (set es₁ i (counted new)) t ((c ∷ is) ++ i ∷ [])) (sym to_c)
              (Chain-set_next es₁ i new (counted new) (some c) ((c ∷ is) ++ i ∷ []) new_at refl
                (Chain-link c is l last refl at_l out chain)),
        ),
      )
    where
      chain : Chain es (some c) (c ∷ is)
      chain = (refl, (ent, got, fresh, more))

-- Appending the entry that already is the last child makes it its own successor.
module _ (es : List Entry) (p : ℕ) (parent : Entry) (c : ℕ) (is : List ℕ)
    (at_p : get_elem? es p ≡ some parent) (to_c : parent.child ≡ some c)
    (chain : Chain es (some c) (c ∷ is)) where
  abbrev last_index : ℕ
  last_index = last_of c is

  -- A walk that comes to an entry which is its own successor, and has another name, never ends.
  self_loop-spins :
      (fuel i : ℕ) (es' : List Entry) (e : Entry) (name : List ℕ)
      → get_elem? es' i ≡ some e
      → e.next ≡ some i
      → same_name e.name name ≡ false
      → find_name fuel es' name (some i) ≡ spins
  unfolding find_name
  self_loop-spins zero i es' e name got loop other = refl
  self_loop-spins (suc fuel) i es' e name got loop other =
      ground (arith, got, loop, other, self_loop-spins fuel i es' e name got loop other)

  -- `entry_append` of the entry that is the parent's last child already: it ends, but from then on
  -- a search from that entry for any other name does not end, whatever its fuel.
  pub append_last-spins :
      (fuel : ℕ)
      → length is < fuel
      → (es' : List Entry) × (entry_append fuel es p last_index ≡ done es')
        × ((fuel' : ℕ) (name : List ℕ)
            → is_named es name last_index ≡ false
            → find_name fuel' es' name (some last_index) ≡ spins)
  unfolding entry_append append_behind
  append_last-spins fuel le =
      let (last, at_l) = Chain-entry es (some c) (c ∷ is) last_index (last_of-has c is) chain in
      let es₁ = set es last_index (linked last last_index) in
      let at₁ : get_elem? es₁ last_index ≡ some (linked last last_index) =
        get_elem?-set_self es last_index (linked last last_index)
          (lt_of_get_elem? es last_index at_l) in
      let es₂ = set es₁ last_index (counted (linked last last_index)) in
      let at₂ : get_elem? es₂ last_index ≡ some (counted (linked last last_index)) =
        get_elem?-set_self es₁ last_index (counted (linked last last_index))
          (lt_of_get_elem? es₁ last_index at₁) in
      (
        es₂,
        ground (arith, at_p, to_c, last_child-last_of fuel es c is le chain, at_l, at₁),
        λ fuel' name other.
            self_loop-spins fuel' last_index es₂ (counted (linked last last_index)) name at₂ refl
              (ground (arith, at_l, other)),
      )
