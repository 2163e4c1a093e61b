-- ===== src/Server/Tree/Looks.antt =====
-- What searches see of the entries: the id, the type and the name. `entry_append` keeps it.
use net_bsd_wii_joybus.Base.{
  ℕ, zero, suc, ◌+◌, ◌%◌, ◌^◌, ◌≡◌, ◌≢◌, refl, sym, ap, ◌∙◌, arith, Bool, true, false, Bool-cases,
  Option-cases, inl, inr, Option, none, some, List, [], ◌∷◌, ◌++◌, map, get_elem?, set,
  get_elem?-set_ne, ◌==◌, ==_ne,
}
use net_bsd_wii_joybus.Server.{Entry, Run, done, fault, spins, waits, deref, find_index, find_by_id}
use net_bsd_wii_joybus.Server.Search.{first}
use net_bsd_wii_joybus.Server.Safe.{Keeps, Keeps-bind}
use net_bsd_wii_joybus.Server.Tree.{same_name, last_child, append_behind, entry_append}
use net_bsd_wii_joybus.Server.Tree.Chain.{has, is_named}

abbrev pub look : Entry → ℕ × ℕ × List ℕ
look e = (e.va_fileid, e.va_type, e.name)

module _ {ℓ κ} {A : Type ℓ} {B : Type κ} (f : A → B) where
  pub map-set : (xs : List A) (k : ℕ) (v : A) → map f (set xs k v) ≡ set (map f xs) k (f v)
  map-set [] k v = refl
  map-set (x ∷ xs) zero v = refl
  map-set (x ∷ xs) (suc k) v = ap (λ t. f x ∷ t) (map-set xs k v)

  pub get_elem?-map :
      (xs : List A) (k : ℕ) {x : A} → get_elem? xs k ≡ some x → get_elem? (map f xs) k ≡ some (f x)
  get_elem?-map [] k h = absurd (ground arith)
  get_elem?-map (x ∷ xs) zero h = ap some (ap f (ground (arith, h)))
  get_elem?-map (x ∷ xs) (suc k) h = get_elem?-map xs k h

  pub find_index-map :
      (q : B → Bool) (xs : List A) → find_index (λ x. q (f x)) xs ≡ find_index q (map f xs)
  find_index-map q [] = refl
  find_index-map q (x ∷ xs) = ground (arith, find_index-map q xs)

module _ {ℓ} {A : Type ℓ} where
  pub set_same : (xs : List A) (k : ℕ) {v : A} → get_elem? xs k ≡ some v → set xs k v ≡ xs
  set_same [] k h = refl
  set_same (x ∷ xs) zero {v} h = let same : v ≡ x = ground (arith, h) in ap (λ t. t ∷ xs) same
  set_same (x ∷ xs) (suc k) h = ap (λ t. x ∷ t) (set_same xs k h)

  pub set_twice : (xs : List A) (k : ℕ) (v w : A) → set (set xs k v) k w ≡ set xs k w
  set_twice [] k v w = refl
  set_twice (x ∷ xs) zero v w = refl
  set_twice (x ∷ xs) (suc k) v w = ap (λ t. x ∷ t) (set_twice xs k v w)

  -- A write behind which the search does not stop.
  pub find_index-set_ne :
      (q : A → Bool) (xs : List A) (i p : ℕ) (v : A)
      → find_index q xs ≡ some p
      → p ≢ i
      → q v ≡ false
      → find_index q (set xs i v) ≡ some p
  find_index-set_ne q [] i p v h ne out = h
  find_index-set_ne q (x ∷ xs) zero p v h ne out = elim (Bool-cases (q x)) [
    | inl hit ↦ let first_one : p ≡ 0 = ground (arith, h, hit) in absurd (ne first_one)
    | inr miss ↦ ground (arith, h, miss, out)
  ]
  find_index-set_ne q (x ∷ xs) (suc i) p v h ne out = elim (Bool-cases (q x)) [
    | inl hit ↦ ground (arith, h, hit)
    | inr miss ↦ elim (Option-cases (find_index q xs)) [
      | inl gone ↦ absurd (ground (arith, h, miss, gone))
      | inr (p', e) ↦
          let behind : p ≡ suc p' = ground (arith, h, miss, e) in
          let later = find_index-set_ne q xs i p' v e (λ same. ne (behind ∙ ap suc same)) out in
          rw (miss, later, behind) refl
    ]
  ]

-- A write that the searches do not see.
looks-set :
    (es : List Entry) (k : ℕ) (old e : Entry)
    → get_elem? es k ≡ some old
    → look e ≡ look old
    → map look (set es k e) ≡ map look es
looks-set es k old e got same =
    map-set look es k e
    ∙ ap (set (map look es) k) same
    ∙ set_same (map look es) k (get_elem?-map look es k got)

pub Keeps-any {ℓ} : {A : Type ℓ} (r : Run A) → Keeps (λ a. Unit) r
Keeps-any (done a) = tt
Keeps-any fault = tt
Keeps-any spins = tt
Keeps-any waits = tt

pub deref-Keeps : (es : List Entry) (i : ℕ) → Keeps (λ e. get_elem? es i ≡ some e) (deref es i)
deref-Keeps es i = elim (Option-cases (get_elem? es i)) [
  | inl gone ↦ rw (gone, Keeps) tt
  | inr (e, got) ↦ rw (got, Keeps) got
]

-- The tables that searches see as they see `es`.
abbrev Alike : List Entry → List Entry → Type 0
Alike es es' = map look es' ≡ map look es

append_behind-looks :
    (fuel : ℕ) (es : List Entry) (c i : ℕ) → Keeps (Alike es) (append_behind fuel es c i)
unfolding append_behind
append_behind-looks fuel es c i =
    Keeps-bind (λ l. Unit) (Alike es) (last_child fuel es c) _ (Keeps-any (last_child fuel es c))
      λ l _.
        Keeps-bind (λ e. get_elem? es l ≡ some e) (Alike es) (deref es l) _ (deref-Keeps es l)
          λ e got.
            let es₁ = set es l (record e { next = some i }) in
            Keeps-bind (λ e'. get_elem? es₁ i ≡ some e') (Alike es) (deref es₁ i) _
              (deref-Keeps es₁ i)
              λ e' got'.
                looks-set es₁ i e' (record e' { va_nlink = (e'.va_nlink + 1) % 2 ^ 32 }) got' refl
                ∙ looks-set es l e (record e { next = some i }) got refl

append_to-looks :
    (fuel : ℕ) (es : List Entry) (p i : ℕ) (e : Entry) (o : Option ℕ)
    → get_elem? es p ≡ some e
    → Keeps (Alike es) (elim o [
      | none ↦ done (set es p (record e { child = some i }))
      | some c ↦ append_behind fuel es c i
    ])
append_to-looks fuel es p i e none got = looks-set es p e (record e { child = some i }) got refl
append_to-looks fuel es p i e (some c) got = append_behind-looks fuel es c i

pub entry_append-looks :
    (fuel : ℕ) (es : List Entry) (p i : ℕ) → Keeps (Alike es) (entry_append fuel es p i)
unfolding entry_append
entry_append-looks fuel es p i =
    Keeps-bind (λ e. get_elem? es p ≡ some e) (Alike es) (deref es p) _ (deref-Keeps es p)
      λ e got. append_to-looks fuel es p i e e.child got

-- The name of an entry as `looks` has it.
abbrev named_in : List (ℕ × ℕ × List ℕ) → List ℕ → ℕ → Bool
named_in ls name k = elim (get_elem? ls k) [ none ↦ false | some t ↦ same_name t.2 name ]

is_named-looks :
    (es : List Entry) (name : List ℕ) (k : ℕ) → is_named es name k ≡ named_in (map look es) name k
is_named-looks [] name k = refl
is_named-looks (e ∷ es) name zero = refl
is_named-looks (e ∷ es) name (suc k) = is_named-looks es name k

-- A chain with one more entry at its end, the only one that has the name.
module _ (es es' : List Entry) (name : List ℕ) (i : ℕ) (t : ℕ × ℕ × List ℕ)
    (written : map look es' ≡ set (map look es) i t) where
  is_named-set_ne : (j : ℕ) → j ≢ i → is_named es' name j ≡ is_named es name j
  is_named-set_ne j ne =
      is_named-looks es' name j
      ∙ ap (λ ls. named_in ls name j) written
      ∙ ap (λ (o : Option (ℕ × ℕ × List ℕ)). elim o [ none ↦ false | some u ↦ same_name u.2 name ])
          (get_elem?-set_ne (map look es) i j t (λ e. ne (sym e)))
      ∙ sym (is_named-looks es name j)

  pub first-named_new :
      (is : List ℕ)
      → has i is ≡ false
      → first (is_named es name) is ≡ none
      → is_named es' name i ≡ true
      → first (is_named es' name) (is ++ i ∷ []) ≡ some i
  first-named_new [] out nobody named = rw named refl
  first-named_new (j ∷ is) out nobody named =
      let ne : j ≢ i = λ (e : j ≡ i). absurd (ground (arith, out, e)) in
      let not_j : is_named es name j ≡ false = ground (arith, nobody) in
      let rest = first-named_new is (ground (arith, out)) (ground (arith, nobody)) named in
      rw (is_named-set_ne j ne, not_j) rest

  pub find_by_id-set_ne :
      (id p : ℕ) → find_by_id id es ≡ some p → p ≢ i → t.0 ≢ id → find_by_id id es' ≡ some p
  unfolding find_by_id
  find_by_id-set_ne id p by_id ne other =
      find_index-map look (λ u. u.0 == id) es'
      ∙ ap (find_index (λ u. u.0 == id)) written
      ∙ find_index-set_ne (λ u. u.0 == id) (map look es) i p t
          (sym (find_index-map look (λ u. u.0 == id) es) ∙ by_id) ne (==_ne t.0 id other)
