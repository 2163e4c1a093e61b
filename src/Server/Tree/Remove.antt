-- ===== src/Server/Tree/Remove.antt =====
-- `entry_remove` on the children of a directory.
use mathlib.Core.Path.{subst}
use net_bsd_wii_joybus.Base.{
  ℕ, zero, suc, ◌+◌, ◌-◌, ◌%◌, ◌^◌, ◌<◌, ◌≡◌, ◌≢◌, refl, sym, ap, ◌∙◌, arith, true, false, Option,
  some, List, [], ◌∷◌, ◌==◌, if◌then◌else◌, Bool-cases, inl, inr, length, get_elem?, set,
  get_elem?-set_self, get_elem?-set_ne, lt_of_get_elem?, map, none, Option-cases, some-injective,
}
use net_bsd_wii_joybus.Server.{Entry, done, deref}
use net_bsd_wii_joybus.Server.Safe.{Keeps, Keeps-bind, if-Keeps}
use net_bsd_wii_joybus.Server.Tree.Looks.{map-set, get_elem?-map, set_same, Keeps-any, deref-Keeps}
use net_bsd_wii_joybus.Server.Tree.{is_next, unlink, entry_remove}
use net_bsd_wii_joybus.Server.Tree.Chain.{has, Chain, Chain-set_ne, Chain-set_next}

abbrev pub erase : ℕ → List ℕ → List ℕ
erase i [] = []
erase i (d ∷ is) = if d == i then is else d ∷ erase i is

has-erase : (k i : ℕ) (is : List ℕ) → has k is ≡ false → has k (erase i is) ≡ false
has-erase k i [] h = refl
has-erase k i (d ∷ is) h = ground (arith, has-erase k i is)

has-erase_self :
    (es : List Entry) (head : Option ℕ) (i : ℕ) (is : List ℕ)
    → Chain es head is
    → has i (erase i is) ≡ false
has-erase_self es head i [] c = refl
has-erase_self es head i (d ∷ is) (at_d, (ent, got, fresh, more)) = elim (Bool-cases (d == i)) [
  | inl hit ↦ let eq : d ≡ i = ground arith in rw hit (subst (λ t. has t is ≡ false) eq fresh)
  | inr miss ↦ rw miss (ground (arith, has-erase_self es ent.next i is more))
]

abbrev pub uncounted : Entry → Entry
uncounted e = record e { va_nlink = (e.va_nlink + 2 ^ 32 - 1) % 2 ^ 32 }

-- No `child` is changed by the walk.
abbrev children_of : List Entry → List (Option ℕ)
children_of es = map (λ e. e.child) es

children-set :
    (es : List Entry) (k : ℕ) (old e : Entry)
    → get_elem? es k ≡ some old
    → e.child ≡ old.child
    → children_of (set es k e) ≡ children_of es
children-set es k old e got same =
    map-set (λ (t : Entry). t.child) es k e
    ∙ ap (set (children_of es) k) same
    ∙ set_same (children_of es) k (get_elem?-map (λ (t : Entry). t.child) es k got)

unlink-children :
    (fuel : ℕ) (es : List Entry) (ent : Entry) (o : Option ℕ)
    → Keeps (λ es'. children_of es' ≡ children_of es) (unlink fuel es ent o)
unfolding unlink
unlink-children fuel es ent none = refl
unlink-children zero es ent (some i) = tt
unlink-children (suc fuel) es ent (some i) =
    let Same = λ (es' : List Entry). children_of es' ≡ children_of es in
    Keeps-bind (λ e. get_elem? es i ≡ some e) Same (deref es i) _ (deref-Keeps es i)
      λ prev got.
        Keeps-bind (λ _. Unit) Same (is_next es ent.va_fileid prev.next) _ (Keeps-any _)
          λ hit _.
            if-Keeps Same hit (done (set es i (record prev { next = ent.next })))
              (unlink fuel es ent prev.next)
              (children-set es i prev (record prev { next = ent.next }) got refl)
              (unlink-children fuel es ent prev.next)

map-gone :
    (es : List Entry) (k : ℕ) (o : Option ℕ)
    → get_elem? es k ≡ none
    → get_elem? (children_of es) k ≢ some o
map-gone [] k o h e = absurd (ground (arith, e))
map-gone (x ∷ xs) zero o h e = absurd (ground (arith, h))
map-gone (x ∷ xs) (suc k) o h e = map-gone xs k o h e

children-at :
    (es es' : List Entry) (k : ℕ) (e : Entry)
    → children_of es' ≡ children_of es
    → get_elem? es k ≡ some e
    → (e' : Entry) × (get_elem? es' k ≡ some e') × (e'.child ≡ e.child)
children-at es es' k e same got =
    let mapped = ap (λ t. get_elem? t k) same ∙ get_elem?-map (λ (t : Entry). t.child) es k got in
    elim (Option-cases (get_elem? es' k)) [
      | inl gone ↦ absurd (map-gone es' k e.child gone mapped)
      | inr (e', got') ↦ (
        e',
        got',
        some-injective (sym (get_elem?-map (λ (t : Entry). t.child) es' k got') ∙ mapped),
      )
    ]

-- The id of entry `i` is no other entry's in the list.
abbrev pub IsOnly : List Entry → ℕ → Entry → List ℕ → Type 0
IsOnly es i ent is =
    (j : ℕ) (e : Entry)
    → has j is ≡ true
    → j ≢ i
    → get_elem? es j ≡ some e
    → e.va_fileid ≢ ent.va_fileid

module _ (es : List Entry) (i : ℕ) (ent : Entry) (at_i : get_elem? es i ≡ some ent) where
  IsOnly-tail : (c : ℕ) (is : List ℕ) → IsOnly es i ent (c ∷ is) → IsOnly es i ent is
  IsOnly-tail c is only j e h = only j e (ground arith)

  is_next-some :
      (d : ℕ) (e : Entry)
      → get_elem? es d ≡ some e
      → is_next es ent.va_fileid (some d) ≡ done (e.va_fileid == ent.va_fileid)
  unfolding is_next
  is_next-some d e got = ground (arith, got)

  -- The walk compares the entries behind the first one only.
  unlink-first :
      (fuel c : ℕ) (is : List ℕ)
      → length is < fuel
      → has i is ≡ false
      → IsOnly es i ent is
      → Chain es (some c) (c ∷ is)
      → unlink fuel es ent (some c) ≡ done es
  unfolding unlink is_next
  unlink-first zero c is le out only ch = absurd (omega arith)
  unlink-first (suc zero) c [] le out only (at_c, (e, got, fresh, more)) = ground (arith, got, more)
  unlink-first (suc (suc fuel)) c [] le out only (at_c, (e, got, fresh, more)) =
      ground (arith, got, more)
  unlink-first (suc fuel) c (d ∷ is) le out only
        (at_c, (e, got, fresh, (to_d, (e', got', apart, rest)))) =
      ground (
        arith,
        got,
        to_d,
        got',
        only d e' (ground arith) (ground arith) got',
        unlink-first fuel d is (omega arith) (ground arith) (IsOnly-tail d is only)
            (refl, (e', got', apart, rest)),
      )

  abbrev Unlinked : ℕ → List ℕ → List Entry → Type 0
  Unlinked c is es' =
      Chain es' (some c) (c ∷ erase i is)
      × ((j : ℕ) → has j (c ∷ is) ≡ false → get_elem? es' j ≡ get_elem? es j)
      × (get_elem? es' i ≡ some ent)

  unlink-hit :
      (c : ℕ) (is : List ℕ) (e : Entry)
      → get_elem? es c ≡ some e
      → has c (i ∷ is) ≡ false
      → has i is ≡ false
      → Chain es ent.next is
      → Unlinked c (i ∷ is) (set es c (record e { next = ent.next }))
  unlink-hit c is e got fresh out more = (
    subst (λ t. Chain (set es c (record e { next = ent.next })) (some c) (c ∷ t))
        (let e' : is ≡ erase i (i ∷ is) = ground arith in e')
        (
          refl,
          (
            record e { next = ent.next },
            get_elem?-set_self es c (record e { next = ent.next }) (lt_of_get_elem? es c got),
            ground arith,
            Chain-set_ne es c (record e { next = ent.next }) ent.next is (ground arith) more,
          ),
        ),
    (λ j h. get_elem?-set_ne es c j (record e { next = ent.next }) (ground arith)),
    get_elem?-set_ne es c i (record e { next = ent.next }) (ground arith) ∙ at_i,
  )

  unlink-Unlinked :
      (fuel c : ℕ) (is : List ℕ)
      → length is < fuel
      → has i is ≡ true
      → IsOnly es i ent is
      → Chain es (some c) (c ∷ is)
      → (es' : List Entry) × (unlink fuel es ent (some c) ≡ done es') × Unlinked c is es'
  unfolding unlink is_next
  unlink-Unlinked zero c is le here only ch = absurd (omega arith)
  unlink-Unlinked (suc fuel) c [] le here only ch = absurd (ground arith)
  unlink-Unlinked (suc fuel) c (d ∷ is) le here only
        (at_c, (e, got, fresh, (to_d, (e', got', apart, rest)))) =
      elim (Bool-cases (d == i)) [
        | inl hit ↦
            let eq : d ≡ i = ground arith in
            let is_ent : e' ≡ ent = ground (arith, at_i, got', ap (get_elem? es) eq) in
            let out : has i is ≡ false = subst (λ t. has t is ≡ false) eq apart in
            subst
              (λ t.
                (es' : List Entry) × (unlink (suc fuel) es ent (some c) ≡ done es')
                × Unlinked c (t ∷ is) es')
              (sym eq)
              (
                set es c (record e { next = ent.next }),
                ground (arith, got, to_d, got', is_ent),
                unlink-hit c is e got (subst (λ t. has c (t ∷ is) ≡ false) eq fresh) out
                    (subst (λ t. Chain es t.next is) is_ent rest),
              )
        | inr miss ↦
            let (es', run, (ch, same, at_i')) =
              unlink-Unlinked fuel d is (omega arith) (ground arith) (IsOnly-tail d is only)
                (refl, (e', got', apart, rest)) in
            (
              es',
              ground (arith, got, to_d, got', only d e' (ground arith) (ground arith) got', run),
              (
                (
                  refl,
                  (
                    e,
                    same c fresh ∙ got,
                    has-erase c i (d ∷ is) fresh,
                    subst (λ t. Chain es' t (erase i (d ∷ is))) (sym to_d) (rw miss ch),
                  ),
                ),
                (λ j h. same j (ground arith)),
                at_i',
              ),
            )
      ]

  -- `entry_remove` of a child behind the first one, whose id no other child has, from a parent whose
  -- children form a chain (a list that ends, without repetition), with fuel for them: it ends, the
  -- parent's `child` is the first one as before, from there the children are those from before
  -- without the entry, in their order, and the entry is as before but for its `va_nlink`, which went
  -- down by one (and wrapped at 0).
  pub entry_remove-Chain :
      (fuel parent c : ℕ) (p : Entry) (is : List ℕ)
      → get_elem? es parent ≡ some p
      → p.child ≡ some c
      → has i is ≡ true
      → has i (c ∷ erase i is) ≡ false
      → IsOnly es i ent is
      → length is < fuel
      → Chain es (some c) (c ∷ is)
      → (es' : List Entry) × (entry_remove fuel es parent i ≡ done es')
        × ((p' : Entry) × (get_elem? es' parent ≡ some p')
            × (p'.child ≡ some c)
            × Chain es' p'.child (c ∷ erase i is))
        × (get_elem? es' i ≡ some (uncounted ent))
  unfolding entry_remove
  entry_remove-Chain fuel parent c p is at_p to_c here gone only le ch =
      let (es', run, (ch', same, at_i')) = unlink-Unlinked fuel c is le here only ch in
      let kept : children_of es' ≡ children_of es =
        subst (Keeps (λ t. children_of t ≡ children_of es)) run
          (unlink-children fuel es ent (some c)) in
      let counted : children_of (set es' i (uncounted ent)) ≡ children_of es =
        children-set es' i ent (uncounted ent) at_i' refl ∙ kept in
      let (p', at_p', child') = children-at es (set es' i (uncounted ent)) parent p counted at_p in
      let to_c' : p'.child ≡ some c = child' ∙ to_c in
      let ch'' = Chain-set_ne es' i (uncounted ent) (some c) (c ∷ erase i is) gone ch' in
      (
        set es' i (uncounted ent),
        ground (arith, at_p, to_c, at_i, run, at_i'),
        (
          p',
          at_p',
          to_c',
          subst (λ t. Chain (set es' i (uncounted ent)) t (c ∷ erase i is)) (sym to_c') ch'',
        ),
        get_elem?-set_self es' i (uncounted ent) (lt_of_get_elem? es' i at_i'),
      )

  -- `entry_remove` of the first child, whose id no other child has, from a parent whose children form
  -- a chain (a list that ends, without repetition), with fuel for them: it ends, having changed
  -- nothing but the entry's `va_nlink`, so the parent's children are the same, the entry among them.
  pub entry_remove-first :
      (fuel parent : ℕ) (p : Entry) (is : List ℕ)
      → get_elem? es parent ≡ some p
      → p.child ≡ some i
      → IsOnly es i ent is
      → length is < fuel
      → Chain es (some i) (i ∷ is)
      → (entry_remove fuel es parent i ≡ done (set es i (uncounted ent)))
        × Chain (set es i (uncounted ent)) (some i) (i ∷ is)
  unfolding entry_remove
  entry_remove-first fuel parent p is at_p to_i only le (at_c, (e, got, fresh, more)) = (
    ground (
      arith,
      at_p,
      to_i,
      at_i,
      unlink-first fuel i is le fresh only (refl, (e, got, fresh, more)),
    ),
    Chain-set_next es i ent (uncounted ent) (some i) (i ∷ is) at_i refl
        (refl, (e, got, fresh, more)),
  )
