-- ===== src/Tests/Remote.antt =====
-- A request over the link, the loop of `main` and the layout of a struct, on small tables.
use net_bsd_wii_joybus.Base.{
  ℕ, zero, suc, ◌≡◌, refl, arith, some-injective, true, false, some, List, [], ◌∷◌, ◌++◌, map,
  replicate,
}
use net_bsd_wii_joybus.Wire.{wii, gba}
use net_bsd_wii_joybus.Wire.Link.{gba_read, to_gba, Polls, finished, fetched}
use net_bsd_wii_joybus.Message.{ReclaimReq, RmResp, cmd_reclaim}
use net_bsd_wii_joybus.Message.Layout.{
  u32, u64, array, Value, word, dword, chars, store, load, sswap, size_of, fields_end,
}
use net_bsd_wii_joybus.Message.Layout.RoundTrip.{
  no_values, more_values, is_word, is_dword, is_array, sswap-load,
}
use net_bsd_wii_joybus.Message.Structs.Requests.{reclaim_req}
use net_bsd_wii_joybus.Message.Structs.Responses.{rm_resp}
use net_bsd_wii_joybus.Server.{State, done, vdir, vreg, find_by_id}
use net_bsd_wii_joybus.Server.Tree.{
  entry_init, entry_append, entry_reclaim, fresh_entry, free_entry, write_string, clear_entries,
  clear_blocks, is_string,
}
use net_bsd_wii_joybus.Server.Tree.Names.{is_plain}
use net_bsd_wii_joybus.Server.Blocks.{blank}
use net_bsd_wii_joybus.Server.Handlers.{handle_reclaim, reclaim_at}
use net_bsd_wii_joybus.Server.Main.{Stack, Response, answer, dispatch, create, reclaim}
use net_bsd_wii_joybus.Server.Main.Invariant.{
  dispatch-Safe, boot-Reaches, Next, Reaches, here, next, served,
}
use net_bsd_wii_joybus.Server.Safe.{Safe, IsState}
use net_bsd_wii_joybus.Server.Ends.{Leads, IsEnding, ends, step}
use net_bsd_wii_joybus.Server.Main.Answers.{dispatch-answers}
use mathlib.Core.Path.{subst}
use net_bsd_wii_joybus.Server.Boot.{boot, cleared, clear_block, non_null, test_name}
use net_bsd_wii_joybus.Exchange.{send, exchange, serve_next, action, reclaim_service}
use net_bsd_wii_joybus.Exchange.Remote.{gba_call-serve}
use net_bsd_wii_joybus.Exchange.Call.{gba_call}
use net_bsd_wii_joybus.Tests.Wire.{link}
use net_bsd_wii_joybus.Tests.Tree.{
  attr_junk, state, file_a, file_b, root, blocks, lookup_junk, readdir_junk, fresh,
}

abbrev numbers_and_name : List Value
numbers_and_name = word 7 ∷ dword 4294967297 ∷ chars (97 ∷ 0 ∷ []) ∷ []

sswap-load_example :
    sswap (true ∷ true ∷ false ∷ []) (
      load gba
        (u32 ∷ u64 ∷ array 2 ∷ [])
        (store wii (λ k. 170) (u32 ∷ u64 ∷ array 2 ∷ []) numbers_and_name))
    ≡ numbers_and_name
sswap-load_example =
    sswap-load wii (λ k. 170)
      (more_values (is_word (omega arith)) (
        more_values (is_dword (omega arith))
          (more_values (is_array (97 ∷ 0 ∷ []) (omega arith, (omega arith, tt))) no_values)))

abbrev pub rm_junk : RmResp
rm_junk = record { err = 77; va_fileid = 77; va_nlink = 77 }

abbrev pub stack : Stack
stack = record {
  readdir_junk = readdir_junk;
  lookup_junk = lookup_junk;
  attr_junk = attr_junk;
  write_junk = record { err = 77 };
  read_junk = record { err = 77; copylen = 77; buf = replicate 128 77 };
  rm_junk = rm_junk;
  setattr_junk = record { err = 77; va_fileid = 77; va_bytes = 77; va_size = 77 };
}

state-IsState : IsState 4 1 state
unfolding is_string
state-IsState = record {
  table = (
    refl,
    ((tt, omega arith, refl), ((omega arith, tt, refl), ((tt, tt, refl), ((tt, tt, refl), tt)))),
  );
  block_count = refl;
  whole = (refl, tt);
}

name-plain : is_plain (99 ∷ 0 ∷ []) ≡ true
unfolding is_plain
name-plain = refl

dispatch-Safe_example :
    Safe
      (Next 2 9 stack 4 1)
      (dispatch 2 9 stack (create (record { parent_fileid = 1; name = 99 ∷ 0 ∷ [] })) state)
dispatch-Safe_example =
    dispatch-Safe 2 9 stack 4 1 (create (record { parent_fileid = 1; name = 99 ∷ 0 ∷ [] })) state tt
      name-plain state-IsState

state-IsEnding : IsEnding 2 state.entries
state-IsEnding zero e got =
    subst (λ t. Leads state.entries 2 t.child) (some-injective got)
      (step file_a refl (step file_b refl ends))
state-IsEnding (suc zero) e got =
    subst (λ t. Leads state.entries 2 t.child) (some-injective got) ends
state-IsEnding (suc (suc zero)) e got =
    subst (λ t. Leads state.entries 2 t.child) (some-injective got) ends
state-IsEnding (suc (suc (suc zero))) e got =
    subst (λ t. Leads state.entries 2 t.child) (some-injective got) ends
state-IsEnding (suc (suc (suc (suc p)))) e got = absurd (ground (arith, got))

dispatch-answers_example :
    (r : Response × State) × (dispatch 2 9 stack
        (create (record { parent_fileid = 1; name = 99 ∷ 0 ∷ [] }))
        state
      ≡ done r)
    × IsState 4 1 r.1
dispatch-answers_example =
    dispatch-answers 2 9 stack state (omega arith) state-IsEnding 4 1
      (create (record { parent_fileid = 1; name = 99 ∷ 0 ∷ [] })) tt name-plain state-IsState

garbage-IsState : IsState 2 1 (record { entries = root ∷ fresh ∷ []; blocks = blocks; next_id = 1 })
unfolding is_string
garbage-IsState = record {
  table = (refl, ((tt, omega arith, refl), ((tt, tt, refl), tt)));
  block_count = refl;
  whole = (refl, tt);
}

abbrev booted : State
booted = record {
  entries =
      record (fresh_entry root 1 vdir 9) { child = some 1 }
      ∷ record (fresh_entry fresh 2 vreg 8) {
        name = write_string (fresh_entry fresh 2 vreg 8).name test_name;
      }
      ∷ [];
  blocks = map clear_block blocks;
  next_id = 3;
}

boot-ran :
    boot 9 8 (record { entries = root ∷ fresh ∷ []; blocks = blocks; next_id = 1 }) ≡ done booted
unfolding boot entry_init entry_append cleared free_entry fresh_entry non_null write_string
boot-ran = refl

abbrev reclaim_test : ReclaimReq
reclaim_test = record { va_fileid = 2 }

abbrev booted_reclaimed : State
booted_reclaimed = record booted {
  entries =
      record (fresh_entry root 1 vdir 9) { child = some 1 }
      ∷ record (fresh_entry fresh 2 vreg 8) {
        va_fileid = 0;
        name = write_string (fresh_entry fresh 2 vreg 8).name test_name;
      }
      ∷ [];
  blocks = clear_blocks 0 (map clear_block blocks);
}

booted-Reaches : Reaches booted booted_reclaimed
unfolding dispatch handle_reclaim answer reclaim_at entry_reclaim fresh_entry find_by_id
    clear_entries clear_blocks blank
booted-Reaches = next here (served 0 9 stack (reclaim reclaim_test) _ tt refl)

boot-Reaches_example : IsState 2 1 booted_reclaimed
boot-Reaches_example = boot-Reaches 2 1 9 8 _ booted _ garbage-IsState boot-ran booted-Reaches

-- Every poll finds a packet.
pub fetched_all : (pkts : List ℕ) → Polls link pkts (map (λ pkt. gba_read (link.answer pkt)) pkts)
fetched_all [] = finished
fetched_all (pkt ∷ pkts) = fetched pkt (fetched_all pkts)

abbrev reclaimed : RmResp
reclaimed = record { err = 0; va_fileid = 3; va_nlink = 1 }

abbrev reclaim_b : ReclaimReq
reclaim_b = record { va_fileid = 3 }

abbrev state_reclaimed : State
state_reclaimed = record state {
  entries = root ∷ file_a ∷ record file_b { va_fileid = 0 } ∷ fresh ∷ [];
}

reclaim-ran : handle_reclaim rm_junk reclaim_b state ≡ done (reclaimed, state_reclaimed)
unfolding handle_reclaim reclaim_at entry_reclaim find_by_id clear_entries clear_blocks
reclaim-ran = refl

reclaim-action : action 2 9 stack cmd_reclaim ≡ exchange (reclaim_service 2 9 stack)
unfolding action
reclaim-action = refl

-- One value is left over before the call.
gba_call-serve_example :
    (pkts : List ℕ) × (gba_call
        (λ k. 0)
        cmd_reclaim
        reclaim_req
        rm_resp
        (true ∷ true ∷ true ∷ [])
        reclaim_b
        ((9 ∷ [])
          ++ 0
            ∷ (map (λ pkt. gba_read (link.answer pkt)) (send gba (λ k. 0) rm_resp reclaimed)
                ++ 6 ∷ []))
      ≡ done (some (pkts, reclaimed, 6 ∷ [])))
    × (serve_next 2 9 stack (λ k. 0) (to_gba link pkts ++ 5 ∷ []) state
        ≡ done (send gba (λ k. 0) rm_resp reclaimed, state_reclaimed, 5 ∷ []))
unfolding fields_end
gba_call-serve_example =
    gba_call-serve link (λ k. 0) (λ k. 0) (λ k. omega arith) (λ k. omega arith) 2 9 stack
      cmd_reclaim (reclaim_service 2 9 stack) reclaim_b reclaimed state state_reclaimed (9 ∷ []) _
      (5 ∷ []) (6 ∷ []) (omega arith) reclaim-action (more_values (is_word (omega arith)) no_values)
      (more_values (is_word (omega arith))
        (more_values (is_word (omega arith)) (more_values (is_word (omega arith)) no_values)))
      (unfold size_of in omega arith) (unfold size_of in omega arith) reclaim-ran
      ((λ e. absurd (omega (arith, e))), tt) (omega arith)
      (fetched_all (send gba (λ k. 0) rm_resp reclaimed))
