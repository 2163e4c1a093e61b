-- ===== src/Server/Safe/Tree.antt =====
-- The operations on the directory tree keep the pointers inside the table.
use net_bsd_wii_joybus.Base.{
  ℕ, suc, ◌+◌, ◌-◌, ◌%◌, ◌^◌, ◌<◌, ◌≡◌, refl, ap, ◌∙◌, Option, none, some, List, [], ◌∷◌,
  Bool-cases, inl, inr, set, length, All, ◌==◌,
}
use net_bsd_wii_joybus.Server.{Entry, Block, State, done, ◌>>=◌, deref}
use net_bsd_wii_joybus.Server.Tree.{
  free_entry, fresh_entry, entry_init, last_child, append_behind, entry_append, unlink,
  entry_remove, clear_entries, clear_blocks, entry_reclaim,
}
use net_bsd_wii_joybus.Server.Blocks.{blank}
use net_bsd_wii_joybus.Server.Blocks.Copy.{IsWhole}
use net_bsd_wii_joybus.Server.Safe.{
  Safe, Safe-bind, IsPtr, IsSound, IsTable, IsState, deref-Safe, set-IsTable, find_index-IsPtr,
}
use net_bsd_wii_joybus.Server.Safe.Walks.{last_child-Safe, unlink-Safe}

clear_blocks-IsWhole : (id : ℕ) (bs : List Block) → IsWhole bs → IsWhole (clear_blocks id bs)
unfolding clear_blocks blank
clear_blocks-IsWhole id [] h = tt
clear_blocks-IsWhole id (b ∷ bs) h = elim (Bool-cases (b.va_fileid == id)) [
  | inl hit ↦ rw hit (refl, clear_blocks-IsWhole id bs h.1)
  | inr miss ↦ rw miss (h.0, clear_blocks-IsWhole id bs h.1)
]

length-clear_blocks : (id : ℕ) (bs : List Block) → length (clear_blocks id bs) ≡ length bs
unfolding clear_blocks
length-clear_blocks id [] = refl
length-clear_blocks id (b ∷ bs) = ap suc (length-clear_blocks id bs)

module _ (n : ℕ) where
  append_behind-IsTable :
      (fuel : ℕ) (es : List Entry) (c i : ℕ)
      → IsTable n es
      → c < n
      → i < n
      → Safe (IsTable n) (append_behind fuel es c i)
  unfolding append_behind
  append_behind-IsTable fuel es c i t hc hi =
      Safe-bind (λ l. l < n) (IsTable n) (last_child fuel es c) _ (last_child-Safe n es t fuel c hc)
        λ l hl. Safe-bind (IsSound n) (IsTable n) (deref es l) _ (deref-Safe n es l t hl) λ e links.
          let es' = set es l (record e { next = some i }) in
          let t' = set-IsTable n es l (record e { next = some i }) t (hi, links.1, links.2) in
          Safe-bind (IsSound n) (IsTable n) (deref es' i) _ (deref-Safe n es' i t' hi) λ e' links'.
            set-IsTable n es' i (record e' { va_nlink = (e'.va_nlink + 1) % 2 ^ 32 }) t' links'

  append_to-IsTable :
      (fuel parent i : ℕ) (es : List Entry) (p : Entry) (child : Option ℕ)
      → IsTable n es
      → IsSound n p
      → IsPtr n child
      → i < n
      → Safe (IsTable n) (elim child [
        | none ↦ done (set es parent (record p { child = some i }))
        | some c ↦ append_behind fuel es c i
      ])
  append_to-IsTable fuel parent i es p none t links h hi =
      set-IsTable n es parent (record p { child = some i }) t (links.0, hi, links.2)
  append_to-IsTable fuel parent i es p (some c) t links h hi =
      append_behind-IsTable fuel es c i t h hi

  pub entry_append-IsTable :
      (fuel : ℕ) (es : List Entry) (parent i : ℕ)
      → IsTable n es
      → parent < n
      → i < n
      → Safe (IsTable n) (entry_append fuel es parent i)
  unfolding entry_append
  entry_append-IsTable fuel es parent i t hp hi =
      Safe-bind (IsSound n) (IsTable n) (deref es parent) _ (deref-Safe n es parent t hp)
        λ p links. append_to-IsTable fuel parent i es p p.child t links links.1 hi

  pub entry_remove-IsTable :
      (fuel : ℕ) (es : List Entry) (parent i : ℕ)
      → IsTable n es
      → parent < n
      → i < n
      → Safe (IsTable n) (entry_remove fuel es parent i)
  unfolding entry_remove
  entry_remove-IsTable fuel es parent i t hp hi =
      Safe-bind (IsSound n) (IsTable n) (deref es parent) _ (deref-Safe n es parent t hp)
        λ p around.
          Safe-bind (IsSound n) (IsTable n) (deref es i) _ (deref-Safe n es i t hi) λ ent links.
            Safe-bind (IsTable n) (IsTable n) (unlink fuel es ent p.child) _
              (unlink-Safe n es t fuel ent p.child links around.1)
              λ es' t'.
                Safe-bind (IsSound n) (IsTable n) (deref es' i) _ (deref-Safe n es' i t' hi)
                  λ e links'.
                    set-IsTable n es' i (record e { va_nlink = (e.va_nlink + 2 ^ 32 - 1) % 2 ^ 32 })
                      t' links'

  clear_entries-IsSound :
      (i k id : ℕ) (es : List Entry)
      → All (IsSound n) es
      → All (IsSound n) (clear_entries i k id es)
  unfolding clear_entries
  clear_entries-IsSound i k id [] h = tt
  clear_entries-IsSound i k id (e ∷ es) h = elim (Bool-cases (e.va_fileid == id)) [
    | inl hit ↦ rw hit (h.0, clear_entries-IsSound i (k + 1) _ es h.1)
    | inr miss ↦ rw miss (h.0, clear_entries-IsSound i (k + 1) _ es h.1)
  ]

length-clear_entries : (i k id : ℕ) (es : List Entry) → length (clear_entries i k id es) ≡ length es
unfolding clear_entries
length-clear_entries i k id [] = refl
length-clear_entries i k id (e ∷ es) = ap suc (length-clear_entries i (k + 1) _ es)

module _ (n m : ℕ) (s : State) (v : IsState n m s) where
  pub entry_reclaim-IsState : (i : ℕ) → i < n → Safe (IsState n m) (entry_reclaim i s)
  unfolding entry_reclaim
  entry_reclaim-IsState i h =
      Safe-bind (IsSound n) (IsState n m) (deref s.entries i) _ (deref-Safe n s.entries i v.table h)
        λ ent links.
          let es = clear_entries i 0 ent.va_fileid s.entries in
          let t : IsTable n es = (
            length-clear_entries i 0 ent.va_fileid s.entries ∙ v.table.0,
            clear_entries-IsSound n i 0 ent.va_fileid s.entries v.table.1,
          ) in
          Safe-bind (IsSound n) (IsState n m) (deref es i) _ (deref-Safe n es i t h) λ ent' links'.
            record {
              table = t;
              block_count = length-clear_blocks ent'.va_fileid s.blocks ∙ v.block_count;
              whole = clear_blocks-IsWhole ent'.va_fileid s.blocks v.whole;
            }

  -- What `entry_init` gives: a pointer or NULL, and a state.
  abbrev pub Inits : Option ℕ × State → Type 0
  Inits (o, s') = IsPtr n o × IsState n m s'

  init_at-Inits :
      (type gen : ℕ) (free : Option ℕ)
      → IsPtr n free
      → Safe Inits (elim free [
        | none ↦ done (none, s)
        | some i ↦ deref s.entries i >>= λ old. done (
          some i,
          record s {
            entries = set s.entries i (fresh_entry old s.next_id type gen);
            next_id = (s.next_id + 1) % 2 ^ 32;
          },
        )
      ])
  unfolding fresh_entry
  init_at-Inits type gen none h = (tt, v)
  init_at-Inits type gen (some i) h =
      Safe-bind (IsSound n) Inits (deref s.entries i) _ (deref-Safe n s.entries i v.table h)
        λ old links. (
          h,
          record {
            table =
                set-IsTable n s.entries i (fresh_entry old s.next_id type gen) v.table
                  (tt, tt, links.2);
            block_count = v.block_count;
            whole = v.whole;
          },
        )

  pub entry_init-Inits : (type gen : ℕ) → Safe Inits (entry_init type gen s)
  unfolding entry_init free_entry
  entry_init-Inits type gen =
      init_at-Inits type gen (free_entry s.entries)
        (find_index-IsPtr n (λ e. e.va_fileid == 0) s.entries v.table.0)
