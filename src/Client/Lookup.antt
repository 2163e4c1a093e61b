-- ===== src/Client/Lookup.antt =====
-- `puffboy_node_lookup` against `handle_lookup_request`.
use net_bsd_wii_joybus.Base.{
  ℕ, ◌≤◌, ◌≡◌, refl, true, false, Option, none, some, List, get_elem?, length,
}
use net_bsd_wii_joybus.Message.{LookupReq, LookupResp}
use net_bsd_wii_joybus.Server.{Entry, State, done, find_by_id}
use net_bsd_wii_joybus.Server.Search.{first}
use net_bsd_wii_joybus.Server.Tree.{same_name}
use net_bsd_wii_joybus.Server.Tree.Chain.{Chain, is_named}
use net_bsd_wii_joybus.Server.Handlers.{enoent, handle_lookup}
use net_bsd_wii_joybus.Server.Handlers.Lookup.{IsLookup, handle_lookup-first}
use net_bsd_wii_joybus.Message.Layout.{bswap64}
use net_bsd_wii_joybus.Client.Nodes.{NewInfo, looked_up, node_lookup, request_name}

-- What puffs is told for the first of the children with the name, or `ENOENT`.
abbrev pub Tells : List Entry → List ℕ → Option ℕ → ℕ × Option NewInfo → Type 0
Tells es name none r = r ≡ (enoent, none)
Tells es name (some i) r =
    (e : Entry) × (get_elem? es i ≡ some e)
    × (same_name e.name name ≡ true)
    × (r ≡ (
      0,
      some (record {
        cookie = e.va_fileid;
        vtype = e.va_type;
        size = bswap64 e.va_size;
        rdev = bswap64 e.va_rdev;
      }),
    ))

looked_up-Tells :
    (es : List Entry) (name : List ℕ) (junk : LookupResp) (o : Option ℕ) (r : LookupResp)
    → IsLookup es name junk o r
    → Tells es name o (looked_up r)
unfolding looked_up
looked_up-Tells es name junk none r is = rw is refl
looked_up-Tells es name junk (some i) r (e, got, named, is) = rw is (e, got, named, refl)

-- `puffboy_node_lookup`, for a name other than `..` and a directory whose children form a chain,
-- with `handle_lookup_request` at the other end: `ENOENT` if no child has the first 32 bytes of the
-- name as its name, else 0 with the id and the type of the first such child, but with its size and
-- device number in reversed byte order; nothing changes on the GBA.
pub node_lookup-Tells :
    (fuel : ℕ) (junk : LookupResp) (parent_id : ℕ) (name : List ℕ) (s : State) (p : ℕ)
    (parent : Entry) (is : List ℕ)
    → find_by_id parent_id s.entries ≡ some p
    → get_elem? s.entries p ≡ some parent
    → Chain s.entries parent.child is
    → length is ≤ fuel
    → (r : ℕ × Option NewInfo) × (node_lookup (handle_lookup fuel junk) false parent_id name s
        ≡ done (r, s))
      × Tells s.entries (request_name name) (first (is_named s.entries (request_name name)) is) r
unfolding node_lookup
node_lookup-Tells fuel junk parent_id name s p parent is by_id at_p ch le =
    let req : LookupReq = record { parent_fileid = parent_id; name = request_name name } in
    let (resp, ran, is_resp) = handle_lookup-first fuel junk req s p parent is by_id at_p ch le in
    (
      looked_up resp,
      rw ran refl,
      looked_up-Tells s.entries (request_name name) junk
          (first (is_named s.entries (request_name name)) is) resp is_resp,
    )
