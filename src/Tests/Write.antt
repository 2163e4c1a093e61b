-- ===== src/Tests/Write.antt =====
-- A write over the link to the file of Tests.Files.
use net_bsd_wii_joybus.Base.{ℕ, ◌≡◌, refl, arith, some, List, [], ◌∷◌, ◌++◌, map}
use net_bsd_wii_joybus.Wire.{gba}
use net_bsd_wii_joybus.Wire.Bytes.{IsBytes}
use net_bsd_wii_joybus.Wire.Link.{to_gba, gba_read}
use net_bsd_wii_joybus.Message.{WriteBufReq, WriteBufResp, WriteResp}
use net_bsd_wii_joybus.Message.Structs.Responses.{write_resp, write_buf_resp}
use net_bsd_wii_joybus.Server.{Entry, Block, done}
use net_bsd_wii_joybus.Server.Main.{Stack}
use net_bsd_wii_joybus.Client.{node_write_loop}
use net_bsd_wii_joybus.Client.WriteRead.{Holds, after}
use net_bsd_wii_joybus.Exchange.{send, send_all, serve_next}
use net_bsd_wii_joybus.Exchange.Write.{Ended, node_write}
use net_bsd_wii_joybus.Exchange.RemoteWrite.{Arrives, node_write-serve}
use net_bsd_wii_joybus.Tests.Wire.{link}
use net_bsd_wii_joybus.Tests.Files.{
  file, state, source, reply, write_request, file-IsFile, blocks-IsWhole, file-found,
}
use net_bsd_wii_joybus.Tests.Remote.{stack, fetched_all}

-- The memory in which the GBA builds its answers holds 0 where `bresp` lies.
abbrev zero_stack : Stack
zero_stack = record stack { write_junk = reply }

abbrev messages : List WriteBufReq
messages = (node_write_loop 130 reply source).messages

abbrev packet_polls : List ℕ → List ℕ
packet_polls pkts = map (λ pkt. gba_read (link.answer pkt)) pkts

abbrev accepted : WriteResp
accepted = record { exists = 1; err = 0 }

-- Every poll finds a packet of an answer.
abbrev polls_for : List WriteBufResp → List ℕ
polls_for [] = []
polls_for (r ∷ rs) = packet_polls (send gba (λ k. 0) write_buf_resp r) ++ polls_for rs

polls_for-Arrives : (rs : List WriteBufResp) → Arrives link (λ k. 0) rs (polls_for rs)
polls_for-Arrives [] = refl
polls_for-Arrives (r ∷ rs) = (
  packet_polls (send gba (λ k. 0) write_buf_resp r),
  polls_for rs,
  refl,
  fetched_all (send gba (λ k. 0) write_buf_resp r),
  polls_for-Arrives rs,
)

source-IsBytes : IsBytes source
source-IsBytes = omega arith

-- One value is left over before the call, and one more packet comes behind it.
node_write-serve_example :
    (e : Ended) × (ent' : Entry) × (bs' : List Block) × (node_write
        (λ k. 0)
        130
        write_request
        source
        ((9 ∷ [])
          ++ 0
            ∷ (packet_polls (send gba (λ k. 0) write_resp accepted)
                ++ (polls_for (map (λ m. reply) messages) ++ 6 ∷ [])))
      ≡ done (some e))
    × (e.err ≡ 0)
    × (e.resid ≡ 0)
    × (e.polls ≡ 6 ∷ [])
    × (serve_next 2 9 zero_stack (λ k. 0) (to_gba link e.packets ++ 5 ∷ []) state
        ≡ done (
          send gba (λ k. 0) write_resp accepted ++ send_all (λ k. 0) (map (λ m. reply) messages),
          after state 0 ent' bs',
          5 ∷ [],
        ))
    × Holds state file 128 source ent' bs'
node_write-serve_example =
    node_write-serve link (λ k. 0) (λ k. 0) (λ k. omega arith) (λ k. omega arith) state 0 file 2 9
      zero_stack refl file-found refl file-IsFile blocks-IsWhole 128 source refl (omega arith)
      (omega arith) write_request refl refl refl (omega arith) (omega arith) source-IsBytes (9 ∷ [])
      (packet_polls (send gba (λ k. 0) write_resp accepted)) (polls_for (map (λ m. reply) messages))
      (5 ∷ []) (6 ∷ []) ((λ e. absurd (omega (arith, e))), tt) (omega arith)
      (fetched_all (send gba (λ k. 0) write_resp accepted))
      (polls_for-Arrives (map (λ m. reply) messages))
