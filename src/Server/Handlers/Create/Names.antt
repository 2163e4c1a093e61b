-- ===== src/Server/Handlers/Create/Names.antt =====
-- What is known of the table that a new entry is linked into.
use net_bsd_wii_joybus.Base.{ℕ, ◌≡◌, refl, some, List, [], ◌∷◌, ◌++◌, map, get_elem?, set}
use net_bsd_wii_joybus.Server.{Entry, done, deref}
use net_bsd_wii_joybus.Server.Tree.Chain.{Chain}
use net_bsd_wii_joybus.Server.Tree.Looks.{look}

pub deref-done {ℓ} :
    {A : Type ℓ} (xs : List A) (i : ℕ) {a : A} → get_elem? xs i ≡ some a → deref xs i ≡ done a
deref-done xs i e = rw (e, deref) refl

-- The table after a create: the new entry is the last child, and searches see the other entries as
-- before.
pub record Created (es : List Entry) (p i : ℕ) (is : List ℕ) (t : ℕ × ℕ × List ℕ) (es' : List Entry)
    : Type 0 where
  pub written : map look es' ≡ set (map look es) i t
  pub parent : Entry
  pub at_p : get_elem? es' p ≡ some parent
  pub children : Chain es' parent.child (is ++ i ∷ [])
  pub new : Entry
  pub at_i : get_elem? es' i ≡ some new
  pub new_look : look new ≡ t
