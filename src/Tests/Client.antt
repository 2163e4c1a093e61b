-- ===== src/Tests/Client.antt =====
-- A listing with room for three entries.
use net_bsd_wii_joybus.Base.{
  ℕ, ◌-◌, ◌≡◌, refl, arith, none, some, List, [], ◌∷◌, drop, length, ltb, if◌then◌else◌,
}
use net_bsd_wii_joybus.Server.{Entry, done}
use net_bsd_wii_joybus.Client.Readdir.{Dirents, node_readdir}
use net_bsd_wii_joybus.Client.Readdir.Lists.{AreEntries, listed, dots, node_readdir-listed}
use net_bsd_wii_joybus.Server.Handlers.{handle_readdir}
use net_bsd_wii_joybus.Tests.Tree.{
  state, table, root, children, root-found, readdir_junk, table-AreNamed,
}

-- The ids of the entries and the cookies, the last one first.
abbrev three : Dirents
three = record {
  Out = List ℕ × List ℕ;
  dent_dot = 0;
  dent_dotdot = 1;
  dent_adj = λ off. off - 2;
  no_cookies = λ out. (out.0, []);
  gendotdent = λ out id off. (id ∷ out.0, out.1);
  nextdent = λ out name id type. if ltb (length out.0) 3 then some (id ∷ out.0, out.1) else none;
  vtype2dt = λ type. type;
  store_dcookie = λ out cookie. (out.0, cookie ∷ out.1);
  dent_dot_lem = refl;
  dent_dotdot_lem = refl;
  dent_adj_lem = λ n. omega arith;
}

node_readdir-listed_example :
    (children : List Entry) × AreEntries table (1 ∷ 2 ∷ []) children
    × (node_readdir three (handle_readdir readdir_junk) 3 1 ([], []) 0 state
        ≡ done (listed three readdir_junk.name (dots three ([], []) 0) 2 (drop 0 children), state))
node_readdir-listed_example =
    node_readdir-listed three readdir_junk 1 state 0 root (1 ∷ 2 ∷ []) root-found refl children
      table-AreNamed 3 ([], []) 0 (omega arith) (omega arith) (omega arith)
