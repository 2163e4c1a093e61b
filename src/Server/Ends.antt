-- ===== src/Server/Ends.antt =====
-- Which loops of the server end: the walks along the children of a directory whose list ends.
pub mod Updates
use net_bsd_wii_joybus.Base.{
  ℕ, zero, suc, ◌≤◌, ◌≡◌, ◌≢◌, refl, sym, ◌∙◌, ap, arith, Bool, true, false, if◌then◌else◌, Option,
  none, some, List, Option-cases, Bool-cases, inl, inr, get_elem?, set, get_elem?-set_self,
  get_elem?-set_ne, lt_of_get_elem?, ◌==◌,
}
use mathlib.Core.Path.{subst}
use net_bsd_wii_joybus.Server.{Entry, State, Run, done, fault, spins, waits, ◌>>=◌, deref}
use net_bsd_wii_joybus.Server.Tree.{same_name, find_name, find_nth, last_child, is_next, unlink}
use net_bsd_wii_joybus.Server.Safe.{Safe}

-- No loop that goes on for ever or out of its fuel, and no wait for a message.
abbrev pub Ends {ℓ} : {A : Type ℓ} → Run A → Type 0
Ends (done a) = Unit
Ends fault = Unit
Ends spins = ⊥
Ends waits = ⊥

pub Ends-bind {ℓ κ} :
    {A : Type ℓ} {B : Type κ} (r : Run A) (f : A → Run B)
    → Ends r
    → ((a : A) → r ≡ done a → Ends (f a))
    → Ends (r >>= f)
Ends-bind (done a) f h k = k a refl
Ends-bind fault f h k = tt
Ends-bind spins f h k = h
Ends-bind waits f h k = h

pub if-Ends {ℓ} :
    {A : Type ℓ} (b : Bool) (r r' : Run A) → Ends r → Ends r' → Ends (if b then r else r')
if-Ends true r r' h h' = h
if-Ends false r r' h h' = h'

-- Without an undefined access either, there is a result.
pub Ends-Safe {ℓ} :
    {A : Type ℓ} (P : A → Type 0) (r : Run A) → Ends r → Safe P r → (a : A) × (r ≡ done a) × P a
Ends-Safe P (done a) h v = (a, refl, v)
Ends-Safe P fault h v = absurd v
Ends-Safe P spins h v = absurd h
Ends-Safe P waits h v = absurd h

pub deref-Ends {ℓ} : {A : Type ℓ} (xs : List A) (i : ℕ) → Ends (deref xs i)
deref-Ends xs i = elim (Option-cases (get_elem? xs i)) [
  | inl gone ↦ rw (gone, Ends) tt
  | inr (a, got) ↦ rw (got, Ends) tt
]

pub deref-got {ℓ} :
    {A : Type ℓ} (xs : List A) (i : ℕ) (a : A) → deref xs i ≡ done a → get_elem? xs i ≡ some a
deref-got xs i a ran = elim (Option-cases (get_elem? xs i)) [
  | inl gone ↦ absurd (ground (arith, ran, gone))
  | inr (b, got) ↦ ground (arith, ran, got)
]

-- From `head`, `next` leads to NULL in at most so many steps.
pub data Leads (es : List Entry) : ℕ → Option ℕ → Type 0 where
  ends : {k : ℕ} → Leads es k none
  step :
      {k i : ℕ} (e : Entry)
      → get_elem? es i ≡ some e
      → Leads es k e.next
      → Leads es (suc k) (some i)

-- Every directory's list of children does.
abbrev pub IsEnding : ℕ → List Entry → Type 0
IsEnding k es = (p : ℕ) (e : Entry) → get_elem? es p ≡ some e → Leads es k e.child

module _ (es : List Entry) where
  pub find_name-Ends :
      {k : ℕ} (fuel : ℕ) (name : List ℕ) {head : Option ℕ}
      → k ≤ fuel
      → Leads es k head
      → Ends (find_name fuel es name head)
  unfolding find_name
  find_name-Ends zero name le ends = tt
  find_name-Ends (suc fuel) name le ends = tt
  find_name-Ends zero name le (step e got more) = absurd (omega (arith, le))
  find_name-Ends (suc fuel) name le (step e got more) =
      rw (got, Ends)
        (if-Ends (same_name e.name name) _ _ tt (find_name-Ends fuel name (omega (arith, le)) more))

  pub find_nth-Ends : (n : ℕ) (head : Option ℕ) → Ends (find_nth n es head)
  unfolding find_nth
  find_nth-Ends zero none = tt
  find_nth-Ends (suc n) none = tt
  find_nth-Ends zero (some i) = tt
  find_nth-Ends (suc n) (some i) =
      Ends-bind (deref es i) _ (deref-Ends es i) λ e ran. find_nth-Ends n e.next

  after_next-Ends :
      {k : ℕ} (fuel i : ℕ) {next : Option ℕ}
      → k ≤ fuel
      → ((j : ℕ) → Leads es k (some j) → Ends (last_child fuel es j))
      → Leads es k next
      → Ends (elim next as (λ _. Run ℕ) [ none ↦ done i | some j ↦ last_child fuel es j ])
  after_next-Ends fuel i le more ends = tt
  after_next-Ends fuel i le more (step {i = j} e got rest) = more j (step e got rest)

  pub last_child-Ends :
      {k : ℕ} (fuel i : ℕ) → k ≤ fuel → Leads es k (some i) → Ends (last_child fuel es i)
  unfolding last_child
  last_child-Ends zero i le (step e got more) = absurd (omega (arith, le))
  last_child-Ends (suc fuel) i le (step {k} e got more) =
      rw (got, Ends)
        (after_next-Ends fuel i (omega (arith, le))
          (λ j h. last_child-Ends fuel j (omega (arith, le)) h) more)

  is_next-Ends : (id : ℕ) (next : Option ℕ) → Ends (is_next es id next)
  unfolding is_next
  is_next-Ends id none = tt
  is_next-Ends id (some j) = Ends-bind (deref es j) _ (deref-Ends es j) λ e ran. tt

  pub unlink-Ends :
      {k : ℕ} (fuel : ℕ) (ent : Entry) {head : Option ℕ}
      → k ≤ fuel
      → Leads es k head
      → Ends (unlink fuel es ent head)
  unfolding unlink
  unlink-Ends zero ent le ends = tt
  unlink-Ends (suc fuel) ent le ends = tt
  unlink-Ends zero ent le (step e got more) = absurd (omega (arith, le))
  unlink-Ends (suc fuel) ent le (step e got more) =
      let later = unlink-Ends fuel ent (omega (arith, le)) more in
      rw (got, Ends)
        (Ends-bind (is_next es ent.va_fileid e.next) _ (is_next-Ends ent.va_fileid e.next)
          λ hit ran. if-Ends hit _ _ tt later)

  -- A write of an entry at the end of its list cuts a list short, or leaves it.
  pub Leads-set :
      {k : ℕ} (i : ℕ) (new : Entry) {head : Option ℕ}
      → new.next ≡ none
      → Leads es k head
      → Leads (set es i new) k head
  Leads-set i new last ends = ends
  Leads-set i new last (step {k} {i = j} e got more) = elim (Bool-cases (j == i)) [
    | inl here ↦
        let same : i ≡ j = ground (arith, here) in
        step new
          (subst (λ t. get_elem? (set es t new) j ≡ some new) (sym same)
            (get_elem?-set_self es j new (lt_of_get_elem? es j got)))
          (subst (Leads (set es i new) k) (sym last) ends)
    | inr apart ↦
        step e (get_elem?-set_ne es i j new (ground (arith, apart)) ∙ got)
          (Leads-set i new last more)
  ]
