-- ===== src/Server/Tree/Chain.antt =====
-- The children of a directory as a list of entries: what the walks find.
use mathlib.Core.Path.{subst}
use net_bsd_wii_joybus.Base.{
  ℕ, zero, suc, ◌≤◌, ◌<◌, ◌≡◌, ◌≢◌, refl, sym, ap, ◌∙◌, arith, Bool, true, false, Option, none,
  some, List, [], ◌∷◌, ◌==◌, ◌||◌, Bool-cases, Option-cases, inl, inr, length, get_elem?, set,
  get_elem?-set_self, get_elem?-set_ne, lt_of_get_elem?,
}
use net_bsd_wii_joybus.Server.{Entry, done}
use net_bsd_wii_joybus.Server.Search.{first}
use net_bsd_wii_joybus.Server.Tree.{same_name, find_name, find_nth, last_child}

abbrev pub has : ℕ → List ℕ → Bool
has i [] = false
has i (j ∷ js) = (i == j) || has i js

-- From `head`, the `next` pointers lead through the distinct entries `is` to NULL.
abbrev pub Chain : List Entry → Option ℕ → List ℕ → Type 0
Chain es head [] = head ≡ none
Chain es head (i ∷ is) =
    (head ≡ some i)
    × ((ent : Entry) × (get_elem? es i ≡ some ent) × (has i is ≡ false) × Chain es ent.next is)

abbrev pub is_named : List Entry → List ℕ → ℕ → Bool
is_named es name i = elim (get_elem? es i) [ none ↦ false | some e ↦ same_name e.name name ]

-- The walk of lookups and removals finds the first child with the name, and ends.
pub find_name-first :
    (fuel : ℕ) (es : List Entry) (name : List ℕ) (head : Option ℕ) (is : List ℕ)
    → length is ≤ fuel
    → Chain es head is
    → find_name fuel es name head ≡ done (first (is_named es name) is)
unfolding find_name
find_name-first zero es name head [] le c = rw c refl
find_name-first (suc fuel) es name head [] le c = rw c refl
find_name-first zero es name head (i ∷ is) le c = absurd (omega arith)
find_name-first (suc fuel) es name head (i ∷ is) le (at_i, (ent, got, out, more)) =
    rw at_i (ground (arith, got, find_name-first fuel es name ent.next is (omega arith) more))

-- The walk of `handle_readdir_request` finds the child at its place.
pub find_nth-get_elem? :
    (n : ℕ) (es : List Entry) (head : Option ℕ) (is : List ℕ)
    → Chain es head is
    → find_nth n es head ≡ done (get_elem? is n)
unfolding find_nth
find_nth-get_elem? zero es head [] c = rw c refl
find_nth-get_elem? (suc n) es head [] c = rw c refl
find_nth-get_elem? zero es head (i ∷ is) (at_i, rest) = rw at_i refl
find_nth-get_elem? (suc n) es head (i ∷ is) (at_i, (ent, got, out, more)) =
    rw at_i (ground (arith, got, find_nth-get_elem? n es ent.next is more))

abbrev pub last_of : ℕ → List ℕ → ℕ
last_of c [] = c
last_of c (d ∷ is) = last_of d is

pub last_child-last_of :
    (fuel : ℕ) (es : List Entry) (c : ℕ) (is : List ℕ)
    → length is < fuel
    → Chain es (some c) (c ∷ is)
    → last_child fuel es c ≡ done (last_of c is)
unfolding last_child
last_child-last_of zero es c is le ch = absurd (omega arith)
last_child-last_of (suc fuel) es c [] le (at_c, (ent, got, out, more)) = ground (arith, got, more)
last_child-last_of (suc fuel) es c (d ∷ is) le (at_c, (ent, got, out, (at_d, rest))) =
    ground (arith, got, at_d, last_child-last_of fuel es d is (omega arith) (refl, rest))

pub last_of-has : (c : ℕ) (is : List ℕ) → has (last_of c is) (c ∷ is) ≡ true
last_of-has c [] = ground arith
last_of-has c (d ∷ is) = ground (arith, last_of-has d is)

pub has-ne : (i j : ℕ) (is : List ℕ) → has i is ≡ false → has j is ≡ true → i ≢ j
has-ne i j is a b e = cc (ap (λ (t : ℕ). has t is) e)

-- A write to an entry outside the chain.
pub Chain-set_ne :
    (es : List Entry) (k : ℕ) (e : Entry) (head : Option ℕ) (is : List ℕ)
    → has k is ≡ false
    → Chain es head is
    → Chain (set es k e) head is
Chain-set_ne es k e head [] out c = c
Chain-set_ne es k e head (i ∷ is) out (at_i, (ent, got, fresh, more)) = (
  at_i,
  (
    ent,
    get_elem?-set_ne es k i e (ground arith) ∙ got,
    fresh,
    Chain-set_ne es k e ent.next is (ground arith) more,
  ),
)

-- A write to an entry that keeps its `next`.
pub Chain-set_next :
    (es : List Entry) (k : ℕ) (old e : Entry) (head : Option ℕ) (is : List ℕ)
    → get_elem? es k ≡ some old
    → e.next ≡ old.next
    → Chain es head is
    → Chain (set es k e) head is
Chain-set_next es k old e head [] at_k same c = c
Chain-set_next es k old e head (i ∷ is) at_k same (at_i, (ent, got, fresh, more)) =
    elim (Bool-cases (k == i)) [
      | inl hit ↦
          let eq : k ≡ i = ground arith in
          let is_old : ent ≡ old = ground (arith, ap (get_elem? es) eq) in
          (
            at_i,
            (
              e,
              subst (λ t. get_elem? (set es k e) t ≡ some e) eq
                  (get_elem?-set_self es k e (lt_of_get_elem? es k at_k)),
              fresh,
              subst (λ t. Chain (set es k e) t is) (ap (λ (t : Entry). t.next) is_old ∙ sym same)
                  (Chain-set_next es k old e ent.next is at_k same more),
            ),
          )
      | inr miss ↦ (
        at_i,
        (
          ent,
          get_elem?-set_ne es k i e (ground arith) ∙ got,
          fresh,
          Chain-set_next es k old e ent.next is at_k same more,
        ),
      )
    ]

pub Chain-entry :
    (es : List Entry) (head : Option ℕ) (is : List ℕ) (k : ℕ)
    → has k is ≡ true
    → Chain es head is
    → (e : Entry) × (get_elem? es k ≡ some e)
Chain-entry es head [] k h c = cc
Chain-entry es head (i ∷ is) k h (at_i, (ent, got, fresh, more)) = elim (Bool-cases (k == i)) [
  | inl hit ↦ let eq : i ≡ k = ground arith in (ent, subst (λ t. get_elem? es t ≡ some ent) eq got)
  | inr miss ↦ Chain-entry es ent.next is k (ground arith) more
]

pub is_named-some :
    (es : List Entry) (name : List ℕ) (i : ℕ)
    → is_named es name i ≡ true
    → (e : Entry) × (get_elem? es i ≡ some e) × (same_name e.name name ≡ true)
is_named-some es name i h = elim (Option-cases (get_elem? es i)) [
  | inl gone ↦ absurd (ground (arith, h, gone))
  | inr (e, got) ↦ (e, got, ground (arith, h, got))
]

pub has-get_elem? : (n i : ℕ) (is : List ℕ) → get_elem? is n ≡ some i → has i is ≡ true
has-get_elem? n i [] h = absurd (ground arith)
has-get_elem? zero i (j ∷ is) h = ground arith
has-get_elem? (suc n) i (j ∷ is) h = ground (arith, has-get_elem? n i is)
