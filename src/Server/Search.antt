-- ===== src/Server/Search.antt =====
-- Searching, counting and updating an array: the laws behind the loops over `ENTRIES` and
-- `GBA_BLOCKS`.
use mathlib.Core.Path.{subst}
use net_bsd_wii_joybus.Base.{
  ℕ, zero, suc, ◌+◌, ◌≤◌, ◌≡◌, refl, arith, Bool, true, false, Option, none, some, List, [], ◌∷◌,
  if◌then◌else◌, get_elem?, set, of_bool, Bool-cases, Option-cases, inl, inr, length, All,
}
use net_bsd_wii_joybus.Server.{find_index, count_if}

-- The first element at which a test holds.
abbrev pub first {ℓ} : {A : Type ℓ} → (A → Bool) → List A → Option A
first p [] = none
first p (x ∷ xs) = if p x then some x else first p xs

module _ {ℓ} {A : Type ℓ} (p : A → Bool) where
  pub find_index-some :
      (xs : List A) {k : ℕ}
      → find_index p xs ≡ some k
      → (x : A) × (get_elem? xs k ≡ some x) × (p x ≡ true) × (first p xs ≡ some x)
  find_index-some [] h = absurd (ground arith)
  find_index-some (x ∷ xs) {k} h = elim (Bool-cases (p x)) [
    | inl hit ↦
        let at_zero : 0 ≡ k = ground arith in
        (x, subst (λ t. get_elem? (x ∷ xs) t ≡ some x) at_zero refl, hit, rw hit refl)
    | inr miss ↦ elim (Option-cases (find_index p xs)) [
      | inl e ↦ absurd (ground arith)
      | inr (i, e) ↦
          let (y, got, py, is_first) = find_index-some xs e in
          let behind : suc i ≡ k = ground arith in
          (y, subst (λ t. get_elem? (x ∷ xs) t ≡ some y) behind got, py, rw miss is_first)
    ]
  ]

  pub find_index-none : (xs : List A) → find_index p xs ≡ none → count_if p xs ≡ 0
  find_index-none [] h = refl
  find_index-none (x ∷ xs) h = ground (arith, find_index-none xs)

  pub find_index-none_of_count : (xs : List A) → count_if p xs ≡ 0 → find_index p xs ≡ none
  find_index-none_of_count [] h = refl
  find_index-none_of_count (x ∷ xs) h = ground (arith, find_index-none_of_count xs)

  pub count_if-set :
      (xs : List A) (k : ℕ) (x y : A)
      → get_elem? xs k ≡ some x
      → count_if p (set xs k y) + of_bool (p x) ≡ count_if p xs + of_bool (p y)
  count_if-set [] k x y h = absurd (ground arith)
  count_if-set (z ∷ xs) zero x y h = ground arith
  count_if-set (z ∷ xs) (suc k) x y h = ground (arith, count_if-set xs k x y)

  -- A write that the test does not see.
  pub first-set_ne :
      (xs : List A) (k : ℕ) (x y : A)
      → get_elem? xs k ≡ some x
      → p x ≡ false
      → p y ≡ false
      → first p (set xs k y) ≡ first p xs
  first-set_ne [] k x y h px py = refl
  first-set_ne (z ∷ xs) zero x y h px py = ground arith
  first-set_ne (z ∷ xs) (suc k) x y h px py = ground (arith, first-set_ne xs k x y)

  -- A write that makes the only element at which the test holds.
  pub first-set_new :
      (xs : List A) (k : ℕ) (x y : A)
      → get_elem? xs k ≡ some x
      → count_if p xs ≡ 0
      → p y ≡ true
      → first p (set xs k y) ≡ some y
  first-set_new [] k x y h none_yet py = absurd (ground arith)
  first-set_new (z ∷ xs) zero x y h none_yet py = ground arith
  first-set_new (z ∷ xs) (suc k) x y h none_yet py = ground (arith, first-set_new xs k x y)

  pub first-none_of_count : (xs : List A) → count_if p xs ≡ 0 → first p xs ≡ none
  first-none_of_count [] h = refl
  first-none_of_count (x ∷ xs) h = ground (arith, first-none_of_count xs)

  pub count_if-le : (xs : List A) → count_if p xs ≤ length xs
  count_if-le [] = omega arith
  count_if-le (x ∷ xs) = ground (arith, count_if-le xs)

  -- A write over the element that the search finds, which the test still accepts.
  pub first-set_self :
      (xs : List A) {k : ℕ} (y : A)
      → find_index p xs ≡ some k
      → p y ≡ true
      → first p (set xs k y) ≡ some y
  first-set_self [] y h py = absurd (ground arith)
  first-set_self (x ∷ xs) {k} y h py = elim (Bool-cases (p x)) [
    | inl hit ↦
        let at_zero : 0 ≡ k = ground arith in
        subst (λ t. first p (set (x ∷ xs) t y) ≡ some y) at_zero (rw py refl)
    | inr miss ↦ elim (Option-cases (find_index p xs)) [
      | inl e ↦ absurd (ground arith)
      | inr (i, e) ↦
          let behind : suc i ≡ k = ground arith in
          subst (λ t. first p (set (x ∷ xs) t y) ≡ some y) behind
            (rw miss (first-set_self xs y e py))
    ]
  ]

  pub find_index-set_self :
      (xs : List A) {k : ℕ} (y : A)
      → find_index p xs ≡ some k
      → p y ≡ true
      → find_index p (set xs k y) ≡ some k
  find_index-set_self [] y h py = absurd (ground (arith, h))
  find_index-set_self (x ∷ xs) {k} y h py = elim (Bool-cases (p x)) [
    | inl hit ↦
        let at_zero : 0 ≡ k = ground (arith, h, hit) in
        subst (λ t. find_index p (set (x ∷ xs) t y) ≡ some t) at_zero (rw py refl)
    | inr miss ↦ elim (Option-cases (find_index p xs)) [
      | inl e ↦ absurd (ground (arith, h, miss, e))
      | inr (i, e) ↦
          let behind : suc i ≡ k = ground (arith, h, miss, e) in
          subst (λ t. find_index p (set (x ∷ xs) t y) ≡ some t) behind
            (ground (arith, miss, find_index-set_self xs y e py))
    ]
  ]

pub All-set {ℓ κ} :
    {A : Type ℓ} (P : A → Type κ) (xs : List A) (k : ℕ) (y : A)
    → All P xs
    → P y
    → All P (set xs k y)
All-set P [] k y h hy = h
All-set P (x ∷ xs) zero y h hy = (hy, h.1)
All-set P (x ∷ xs) (suc k) y h hy = (h.0, All-set P xs k y h.1 hy)

pub All-get_elem? {ℓ κ} :
    {A : Type ℓ} (P : A → Type κ) (xs : List A) (k : ℕ) {x : A}
    → All P xs
    → get_elem? xs k ≡ some x
    → P x
All-get_elem? P [] k h got = absurd (ground arith)
All-get_elem? P (x ∷ xs) zero h got = subst P (ground arith) h.0
All-get_elem? P (x ∷ xs) (suc k) h got = All-get_elem? P xs k h.1 got

pub first-holds {ℓ} :
    {A : Type ℓ} (p : A → Bool) (xs : List A) (x : A) → first p xs ≡ some x → p x ≡ true
first-holds p [] x h = absurd (ground arith)
first-holds p (y ∷ xs) x h = elim (Bool-cases (p y)) [
  | inl hit ↦ subst (λ t. p t ≡ true) (ground (arith, h, hit)) hit
  | inr miss ↦ first-holds p xs x (ground (arith, h, miss))
]
