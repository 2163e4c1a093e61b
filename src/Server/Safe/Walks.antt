-- ===== src/Server/Safe/Walks.antt =====
-- The walks along the children of a directory stay inside the table.
use net_bsd_wii_joybus.Base.{ℕ, zero, suc, ◌<◌, Option, none, some, List, set}
use net_bsd_wii_joybus.Server.{Entry, Run, done, deref}
use net_bsd_wii_joybus.Server.Tree.{same_name, find_name, find_nth, last_child, is_next, unlink}
use net_bsd_wii_joybus.Server.Safe.{
  Safe, Safe-bind, if-Safe, IsPtr, IsSound, IsTable, deref-Safe, set-IsTable,
}

module _ (n : ℕ) (es : List Entry) (t : IsTable n es) where
  pub find_name-Safe :
      (fuel : ℕ) (name : List ℕ) (head : Option ℕ)
      → IsPtr n head
      → Safe (IsPtr n) (find_name fuel es name head)
  unfolding find_name
  find_name-Safe zero name none h = tt
  find_name-Safe (suc fuel) name none h = tt
  find_name-Safe zero name (some i) h = tt
  find_name-Safe (suc fuel) name (some i) h =
      Safe-bind (IsSound n) (IsPtr n) (deref es i) _ (deref-Safe n es i t h) λ ent links.
        if-Safe (IsPtr n) (same_name ent.name name) (done (some i))
          (find_name fuel es name ent.next) h (find_name-Safe fuel name ent.next links.0)

  pub find_nth-Safe : (k : ℕ) (head : Option ℕ) → IsPtr n head → Safe (IsPtr n) (find_nth k es head)
  unfolding find_nth
  find_nth-Safe zero none h = tt
  find_nth-Safe (suc k) none h = tt
  find_nth-Safe zero (some i) h = h
  find_nth-Safe (suc k) (some i) h =
      Safe-bind (IsSound n) (IsPtr n) (deref es i) _ (deref-Safe n es i t h)
        λ ent links. find_nth-Safe k ent.next links.0

  after_next-Safe :
      (i : ℕ) (next : Option ℕ) (f : ℕ → Run ℕ)
      → i < n
      → IsPtr n next
      → ((j : ℕ) → j < n → Safe (λ l. l < n) (f j))
      → Safe (λ l. l < n) (elim next [ none ↦ done i | some j ↦ f j ])
  after_next-Safe i none f h links k = h
  after_next-Safe i (some j) f h links k = k j links

  pub last_child-Safe : (fuel i : ℕ) → i < n → Safe (λ l. l < n) (last_child fuel es i)
  unfolding last_child
  last_child-Safe zero i h = tt
  last_child-Safe (suc fuel) i h =
      Safe-bind (IsSound n) (λ l. l < n) (deref es i) _ (deref-Safe n es i t h)
        λ ent links.
          after_next-Safe i ent.next (last_child fuel es) h links.0 (last_child-Safe fuel)

  is_next-Safe : (id : ℕ) (next : Option ℕ) → IsPtr n next → Safe (λ _. Unit) (is_next es id next)
  unfolding is_next
  is_next-Safe id none h = tt
  is_next-Safe id (some j) h =
      Safe-bind (IsSound n) (λ _. Unit) (deref es j) _ (deref-Safe n es j t h) λ e links. tt

  pub unlink-Safe :
      (fuel : ℕ) (ent : Entry) (head : Option ℕ)
      → IsSound n ent
      → IsPtr n head
      → Safe (IsTable n) (unlink fuel es ent head)
  unfolding unlink
  unlink-Safe zero ent none links h = t
  unlink-Safe (suc fuel) ent none links h = t
  unlink-Safe zero ent (some i) links h = tt
  unlink-Safe (suc fuel) ent (some i) links h =
      Safe-bind (IsSound n) (IsTable n) (deref es i) _ (deref-Safe n es i t h) λ prev around.
        Safe-bind (λ _. Unit) (IsTable n) (is_next es ent.va_fileid prev.next) _
          (is_next-Safe ent.va_fileid prev.next around.0)
          λ hit _.
            if-Safe (IsTable n) hit (done (set es i (record prev { next = ent.next })))
              (unlink fuel es ent prev.next)
              (set-IsTable n es i (record prev { next = ent.next }) t (links.0, around.1, around.2))
              (unlink-Safe fuel ent prev.next links around.0)
