-- ===== src/Exchange/RemoteWrite.antt =====
-- A write over the link: `puffboy_node_write` on the one side, `handle_write_request` in the loop of
-- `main` on the other.
mod Served
mod Loop
pub use Loop.{Arrives}
use net_bsd_wii_joybus.Exchange.RemoteWrite.Served.{serve_write-sent, serve_next-write}
use net_bsd_wii_joybus.Exchange.RemoteWrite.Loop.{write_rest-ends}
use mathlib.Core.Path.{subst}
use net_bsd_wii_joybus.Base.{
  ℕ, zero, suc, ◌+◌, ◌-◌, ◌%◌, ◌^◌, ◌<◌, ◌≤◌, ◌≡◌, ◌≢◌, refl, sym, ap, ◌∙◌, arith, true, false,
  Bool-cases, inl, inr, All, Option, none, some, List, [], ◌∷◌, ◌++◌, ◌==◌, ltb, length,
  length-append, append_assoc, length-map, map, min, drop, get_elem?, replicate, take, length-drop,
  ==_ne, ==_self,
}
use net_bsd_wii_joybus.Wire.{wii, gba, bswap32}
use net_bsd_wii_joybus.Wire.Bytes.{IsBytes}
use net_bsd_wii_joybus.Wire.Link.{Link, Polls, to_gba, bswap32_twice, received-gba_write}
use net_bsd_wii_joybus.Message.{
  block_size, cmd_write, WriteReq, WriteResp, WriteBufReq, WriteBufResp,
}
use net_bsd_wii_joybus.Message.Layout.{size_of, fields_end}
use net_bsd_wii_joybus.Message.Layout.RoundTrip.{
  is_word, is_dword, is_array, no_values, more_values,
}
use net_bsd_wii_joybus.Message.Structs.Requests.{write_req, write_buf_req}
use net_bsd_wii_joybus.Message.Structs.Responses.{write_resp, write_buf_resp}
use net_bsd_wii_joybus.Server.{State, Entry, Block, Run, done, ◌>>=◌, find_by_id}
use net_bsd_wii_joybus.Server.Blocks.{blank, splice}
use net_bsd_wii_joybus.Server.Blocks.Take.{free_count}
use net_bsd_wii_joybus.Server.Blocks.Setsize.{IsFile, blocks_for}
use net_bsd_wii_joybus.Server.Blocks.Copy.{IsWhole}
use net_bsd_wii_joybus.Server.Main.{Stack}
use net_bsd_wii_joybus.Server.Handlers.{handle_write}
use net_bsd_wii_joybus.Client.{Sent, write_message, node_write_loop}
use net_bsd_wii_joybus.Client.Write.{message-size, node_write_loop-empty, node_write_loop-step}
use net_bsd_wii_joybus.Client.WriteRead.{Holds, Written, after, handle_write-Written}
use net_bsd_wii_joybus.Client.Wait.{msg_timeout, wait_clear-passes}
use net_bsd_wii_joybus.Exchange.{
  send, receive, receive_messages, send_all, serve_write, action, transfer, perform, serve_next,
}
use net_bsd_wii_joybus.Exchange.Call.{gba_call}
use net_bsd_wii_joybus.Exchange.Remote.{Fits, receive-send, receive-send_idle, gba_call-received}
use net_bsd_wii_joybus.Exchange.Messages.{
  send_messages, to_gba-append, handle_write-more, receive_messages-sent, length-send_messages,
}
use net_bsd_wii_joybus.Exchange.MessageFits.{messages-Fits}
use net_bsd_wii_joybus.Exchange.Write.{Ended, gba_write_buf, write_rest, write_prepared, node_write}

module _ (l : Link) (padding padding' : ℕ → ℕ) (bytes : (k : ℕ) → padding k < 256)
    (bytes' : (k : ℕ) → padding' k < 256) where
  node_write-run :
      (fuel : ℕ) (req : WriteReq) (src polls left rest : List ℕ) (resp : WriteResp) (e : Ended)
      → gba_call padding cmd_write write_req write_resp (true ∷ true ∷ []) req polls
        ≡ done (some (cmd_write ∷ send wii padding write_req req, resp, left))
      → resp.exists ≡ 1
      → resp.err ≡ 0
      → write_rest padding fuel src left ≡ done e
      → node_write padding fuel req src polls
        ≡ done (
            some (record e { packets = cmd_write ∷ (send wii padding write_req req ++ e.packets) }))
  unfolding node_write write_prepared
  node_write-run fuel req src polls left rest resp e called is_there fine ended =
      rw (called, is_there, fine, ended) refl

  module _ (s : State) (i : ℕ) (ent : Entry) (fuel : ℕ) (gen : ℕ) (stack : Stack)
      (ok : stack.write_junk.err ≡ 0) (by_id : find_by_id ent.va_fileid s.entries ≡ some i)
      (at_i : get_elem? s.entries i ≡ some ent) (v : IsFile ent s.blocks) (whole : IsWhole s.blocks)
      (off : ℕ) (src : List ℕ) (starts : off % 128 ≡ 0) (small : off + length src < 2 ^ 32)
      (room : blocks_for (off + length src) - ent.file.numblocks ≤ free_count s.blocks)
      (req : WriteReq) (same : req.fileid ≡ ent.va_fileid) (at_off : req.offset ≡ off)
      (is_resid : req.resid ≡ length src) (low_id : ent.va_fileid < 2 ^ 32)
      (low_append : req.io_append < 2 ^ 32) (data_bytes : IsBytes src) where
    abbrev reply : WriteBufResp
    reply = stack.write_junk

    abbrev messages : List WriteBufReq
    messages = (node_write_loop (length src) reply src).messages

    req-Fits : Fits write_req req
    req-Fits = more_values (is_word (omega (arith, same))) (
        more_values (is_word low_append) (
          more_values (is_dword (omega (arith, at_off)))
            (more_values (is_dword (omega (arith, is_resid))) no_values)))

    served :
        (rest : List ℕ) (out : List WriteBufResp) (ent' : Entry) (bs' : List Block)
        → handle_write reply req messages s
          ≡ done (record { exists = 1; err = 0 }, out, after s i ent' bs')
        → out ≡ map (λ m. reply) messages
        → serve_next fuel gen stack padding'
            (to_gba l
                (cmd_write ∷ (send wii padding write_req req ++ send_messages padding messages))
              ++ rest)
            s
          ≡ done (
            send gba padding' write_resp (record { exists = 1; err = 0 })
                ++ send_all padding' (map (λ m. reply) messages),
            after s i ent' bs',
            rest,
          )
    served rest out ent' bs' ran answers =
        let all = map (λ m. reply) messages in
        serve_next-write l padding padding' bytes bytes' fuel gen stack
          (send wii padding write_req req ++ send_messages padding messages) rest s _
          (serve_write-sent l padding padding' bytes bytes' reply req messages s
            (after s i ent' bs') (record { exists = 1; err = 0 }) all rest req-Fits
            (messages-Fits ent.va_fileid reply ok (length src) src data_bytes)
            (subst
              (λ t.
                handle_write reply req messages s
                ≡ done (record { exists = 1; err = 0 }, t, after s i ent' bs'))
              answers ran)
            (length-map (λ m. reply) messages))

    -- A write over the link to a file on the GBA that `find_by_id` finds and that is in a good state,
    -- with blocks of 128 bytes, from the start of a block to an end below 2 ^ 32, with enough free
    -- blocks where the file grows; the answers to the messages, which the GBA does not set, happen
    -- to be `err = 0`, and the numbers of the request fit their fields. `puffboy_node_write` first
    -- finds at most 5001 left-over values before an idle poll, and then the answers that the GBA
    -- sends, with any number of idle polls between their packets: it ends with 0, nothing is left to
    -- write, and it takes no further value. The GBA's loop, on the packets that it wrote, takes these
    -- off the link and no more and sends just those answers; the file is then in a good state, at
    -- the greater of its old length and the end of the write, with exactly the caller's bytes at the
    -- offset, and the blocks of the other files are as they were.
    pub node_write-serve :
        (stale p polls rest rest' : List ℕ)
        → All (λ x. x ≢ 0) stale
        → length stale ≤ msg_timeout + 1
        → Polls l (send gba padding' write_resp (record { exists = 1; err = 0 })) p
        → Arrives l padding' (map (λ m. reply) messages) polls
        → (e : Ended) × (ent' : Entry) × (bs' : List Block) × (node_write padding
              (length src)
              req
              src
              (stale ++ 0 ∷ (p ++ (polls ++ rest')))
            ≡ done (some e))
          × (e.err ≡ 0)
          × (e.resid ≡ 0)
          × (e.polls ≡ rest')
          × (serve_next fuel gen stack padding' (to_gba l e.packets ++ rest) s
              ≡ done (
                send gba padding' write_resp (record { exists = 1; err = 0 })
                    ++ send_all padding' (map (λ m. reply) messages),
                after s i ent' bs',
                rest,
              ))
          × Holds s ent off src ent' bs'
    node_write-serve stale p polls rest rest' others few accepts arrive =
        let (out, ent', bs', ran, answers, left, err, holds) =
          handle_write-Written s i ent reply ok by_id at_i v whole off src starts small room req
            same at_off is_resid in
        let resp : WriteResp = record { exists = 1; err = 0 } in
        let called =
          gba_call-received padding cmd_write write_req write_resp (true ∷ true ∷ []) req
            (stale ++ 0 ∷ (p ++ (polls ++ rest'))) (p ++ (polls ++ rest')) resp (polls ++ rest')
            (wait_clear-passes msg_timeout stale (p ++ (polls ++ rest')) others few)
            (receive-send_idle write_resp resp
              (more_values (is_word (omega arith)) (more_values (is_word (omega arith)) no_values))
              padding' l bytes' (unfold size_of fields_end in omega arith) p (polls ++ rest')
              accepts) in
        (
          record {
            packets =
                cmd_write ∷ (send wii padding write_req req ++ send_messages padding messages);
            err = 0;
            resid = 0;
            polls = rest';
          },
          ent',
          bs',
          node_write-run (length src) req src (stale ++ 0 ∷ (p ++ (polls ++ rest')))
              (polls ++ rest') rest' resp _ called refl refl
              (write_rest-ends l padding padding' bytes bytes' ent.va_fileid reply ok (length src)
                src polls rest' (omega arith) arrive),
          refl,
          refl,
          refl,
          served rest out ent' bs' ran answers,
          holds,
        )
