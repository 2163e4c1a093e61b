-- ===== src/Server/Ends/Updates/Links.antt =====
-- Linking a new entry ends.
use net_bsd_wii_joybus.Base.{
  ℕ, ◌≤◌, ◌≡◌, sym, ◌∙◌, ap, arith, Option, none, some, List, Bool-cases, inl, inr, get_elem?, set,
  get_elem?-set_self, get_elem?-set_ne, lt_of_get_elem?, length-set, some-injective, ◌==◌, ◌&&◌,
  not, Bool, false, [], ◌∷◌, if◌then◌else◌,
}
use mathlib.Core.Path.{subst}
use net_bsd_wii_joybus.Message.{AttrResp}
use net_bsd_wii_joybus.Server.{Entry, State, Run, done, fault, ◌>>=◌, deref}
use net_bsd_wii_joybus.Server.Tree.{
  percent, format, print_name, last_child, append_behind, entry_append,
}
use net_bsd_wii_joybus.Server.Handlers.{attr_resp, link_entry, create_in}
use net_bsd_wii_joybus.Server.Ends.{
  Ends, Ends-bind, if-Ends, deref-Ends, deref-got, Leads, ends, step, IsEnding, last_child-Ends,
  Leads-set,
}

-- What a run does with one entry and no loop.
pub on_entry-Ends {ℓ} :
    {A : Type ℓ} (es : List Entry) (i : ℕ) (f : Entry → Run A)
    → ((e : Entry) → Ends (f e))
    → Ends (deref es i >>= f)
on_entry-Ends es i f h = Ends-bind (deref es i) f (deref-Ends es i) λ e ran. h e

append_behind-Ends :
    {k : ℕ} (fuel : ℕ) (es : List Entry) (c i : ℕ)
    → k ≤ fuel
    → Leads es k (some c)
    → Ends (append_behind fuel es c i)
unfolding append_behind
append_behind-Ends fuel es c i le h =
    Ends-bind (last_child fuel es c) _ (last_child-Ends es fuel c le h) λ l ran.
      on_entry-Ends es l _ λ e. on_entry-Ends (set es l (record e { next = some i })) i _ λ e'. tt

append_to-Ends :
    {k : ℕ} (fuel : ℕ) (es : List Entry) (p i : ℕ) (e : Entry) {child : Option ℕ}
    → k ≤ fuel
    → Leads es k child
    → Ends (elim child as (λ _. Run (List Entry)) [
      | none ↦ done (set es p (record e { child = some i }))
      | some c ↦ append_behind fuel es c i
    ])
append_to-Ends fuel es p i e le ends = tt
append_to-Ends fuel es p i e le (step {i = c} e' got more) =
    append_behind-Ends fuel es c i le (step e' got more)

entry_append-Ends :
    {k : ℕ} (fuel : ℕ) (es : List Entry) (p i : ℕ)
    → k ≤ fuel
    → IsEnding k es
    → Ends (entry_append fuel es p i)
unfolding entry_append
entry_append-Ends fuel es p i le h =
    Ends-bind (deref es p) _ (deref-Ends es p)
      λ e ran. append_to-Ends fuel es p i e le (h p e (deref-got es p e ran))

-- A new entry has no children, and ends the list it was in.
pub taken-IsEnding :
    {k : ℕ} (es : List Entry) (i : ℕ) (new : Entry)
    → new.next ≡ none
    → new.child ≡ none
    → IsEnding k es
    → IsEnding k (set es i new)
taken-IsEnding {k} es i new last childless h p e got = elim (Bool-cases (i == p)) [
  | inl here ↦
      let same : i ≡ p = ground (arith, here) in
      let inside = lt_of_get_elem? (set es i new) p got in
      let at_p = get_elem?-set_self es p new (omega (arith, inside, length-set es i new)) in
      let is_new : e ≡ new =
        some-injective (sym (subst (λ t. get_elem? (set es t new) p ≡ some e) same got) ∙ at_p) in
      subst (Leads (set es i new) k) (sym (ap (λ (t : Entry). t.child) is_new ∙ childless)) ends
  | inr apart ↦
      Leads-set es i new last
        (h p e (sym (get_elem?-set_ne es i p new (ground (arith, apart))) ∙ got))
]

pub attr_resp-Ends : (es : List Entry) (junk : AttrResp) (o : Option ℕ) → Ends (attr_resp es junk o)
unfolding attr_resp
attr_resp-Ends es junk none = tt
attr_resp-Ends es junk (some i) = on_entry-Ends es i _ λ e. tt

kept-Ends : (x : ℕ) (r : Run (List ℕ)) → Ends r → Ends (r >>= λ text. done (x ∷ text))
kept-Ends x r h = Ends-bind r _ h λ text ran. tt

format-Ends : (conversion : Bool) (fmt : List ℕ) → Ends (format conversion fmt)
unfolding format
format-Ends conversion [] = tt
format-Ends conversion (x ∷ xs) =
    let rest = format ((x == percent) && not conversion) xs in
    let h = format-Ends ((x == percent) && not conversion) xs in
    let kept = rest >>= λ text. done (x ∷ text) in
    if-Ends conversion (if x == percent then kept else fault)
      (if x == 0 then done [] else if x == percent then rest else kept)
      (if-Ends (x == percent) kept fault (kept-Ends x rest h) tt)
      (if-Ends (x == 0) (done []) (if x == percent then rest else kept) tt
        (if-Ends (x == percent) rest kept h (kept-Ends x rest h)))

print_name-Ends : (old fmt : List ℕ) → Ends (print_name old fmt)
unfolding print_name
print_name-Ends old fmt = Ends-bind (format false fmt) _ (format-Ends false fmt) λ text ran. tt

link_entry-Ends :
    {k : ℕ} (fuel : ℕ) (name : List ℕ) (p i : ℕ) (s : State)
    → k ≤ fuel
    → IsEnding k s.entries
    → Ends (link_entry fuel name p i s)
unfolding link_entry
link_entry-Ends fuel name p i s le h =
    Ends-bind (entry_append fuel s.entries p i) _ (entry_append-Ends fuel s.entries p i le h)
      λ es ran.
        on_entry-Ends es i _
          λ e. Ends-bind (print_name e.name name) _ (print_name-Ends e.name name) λ text ran'. tt

pub create_some-Ends :
    {k : ℕ} (fuel : ℕ) (junk : AttrResp) (name : List ℕ) (p i : ℕ) (s : State)
    → k ≤ fuel
    → IsEnding k s.entries
    → Ends (create_in fuel junk name p (some i, s))
unfolding create_in
create_some-Ends fuel junk name p i s le h =
    Ends-bind (link_entry fuel name p i s) _ (link_entry-Ends fuel name p i s le h) λ s' ran.
      Ends-bind (attr_resp s'.entries junk (some i)) _ (attr_resp-Ends s'.entries junk (some i))
        λ resp ran'. tt
