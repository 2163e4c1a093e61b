-- ===== src/Exchange/RemoteWrite/Served.antt =====
-- `handle_write_request` on the packets of a write.
use net_bsd_wii_joybus.Base.{
  ℕ, ◌+◌, ◌-◌, ◌<◌, ◌≡◌, refl, ap, ◌∙◌, arith, true, All, some, List, [], ◌∷◌, ◌++◌, length,
  length-append, append_assoc,
}
use net_bsd_wii_joybus.Wire.{wii, gba}
use net_bsd_wii_joybus.Wire.Link.{Link, to_gba, bswap32_twice, received-gba_write}
use net_bsd_wii_joybus.Message.{cmd_write, WriteReq, WriteResp, WriteBufReq, WriteBufResp}
use net_bsd_wii_joybus.Message.Layout.{size_of, fields_end}
use net_bsd_wii_joybus.Message.Structs.Requests.{write_req, write_buf_req}
use net_bsd_wii_joybus.Message.Structs.Responses.{write_resp}
use net_bsd_wii_joybus.Server.{State, done}
use net_bsd_wii_joybus.Server.Main.{Stack}
use net_bsd_wii_joybus.Server.Handlers.{handle_write}
use net_bsd_wii_joybus.Exchange.{
  send, receive, receive_messages, send_all, serve_write, action, perform, serve_next,
}
use net_bsd_wii_joybus.Exchange.Remote.{Fits, receive-send}
use net_bsd_wii_joybus.Exchange.Messages.{
  send_messages, to_gba-append, handle_write-more, receive_messages-sent, length-send_messages,
}

module _ (l : Link) (padding padding' : ℕ → ℕ) (bytes : (k : ℕ) → padding k < 256)
    (bytes' : (k : ℕ) → padding' k < 256) where
  serve_write-step :
      (junk : WriteBufResp) (req : WriteReq) (link rest left : List ℕ) (ms : List WriteBufReq)
      (s s' : State) (resp : WriteResp) (out : List WriteBufResp)
      → receive gba write_req (true ∷ true ∷ true ∷ true ∷ []) link ≡ some (req, rest)
      → (receive_messages (length rest) rest).0 ≡ ms
      → handle_write junk req ms s ≡ done (resp, out, s')
      → (receive_messages (length out) rest).1 ≡ left
      → serve_write padding' junk link s
        ≡ done (send gba padding' write_resp resp ++ send_all padding' out, s', left)
  unfolding serve_write
  serve_write-step junk req link rest left ms s s' resp out got all ran behind =
      rw (got, all, ran, behind, serve_write) refl

  pub serve_write-sent :
      (junk : WriteBufResp) (req : WriteReq) (ms : List WriteBufReq) (s s' : State)
      (resp : WriteResp) (out : List WriteBufResp) (rest : List ℕ)
      → Fits write_req req
      → All (Fits write_buf_req) ms
      → handle_write junk req ms s ≡ done (resp, out, s')
      → length out ≡ length ms
      → serve_write padding' junk
          (to_gba l (send wii padding write_req req ++ send_messages padding ms) ++ rest)
          s
        ≡ done (send gba padding' write_resp resp ++ send_all padding' out, s', rest)
  serve_write-sent junk req ms s s' resp out rest fits fits' ran each =
      let sent = to_gba l (send_messages padding ms) in
      let link = sent ++ rest in
      let k = length link - length ms in
      let size : length link ≡ length ms + k =
        omega (arith, length-append sent rest, length-send_messages l padding bytes ms fits') in
      let front =
        ap (λ (t : List ℕ). t ++ rest)
          (to_gba-append l (send wii padding write_req req) (send_messages padding ms))
        ∙ append_assoc (to_gba l (send wii padding write_req req)) sent rest in
      serve_write-step junk req _ link rest (ms ++ (receive_messages k rest).0) s s' resp out
        (ap (receive gba write_req (true ∷ true ∷ true ∷ true ∷ [])) front
          ∙ receive-send write_req req fits padding l bytes
              (unfold size_of fields_end in omega arith) link)
        (ap (λ (t : ℕ). (receive_messages t link).0) size
          ∙ ap (λ (t : List WriteBufReq × List ℕ). t.0)
              (receive_messages-sent l padding bytes ms k rest fits'))
        (handle_write-more junk req ms (receive_messages k rest).0 s (resp, out, s') ran)
        (ap (λ (t : ℕ). (receive_messages t link).1)
            (each ∙ (let e : length ms ≡ length ms + 0 = omega arith in e))
          ∙ ap (λ (t : List WriteBufReq × List ℕ). t.1)
              (receive_messages-sent l padding bytes ms 0 rest fits')
          ∙ (unfold receive_messages in refl))

  pub serve_next-write :
      (fuel : ℕ) (gen : ℕ) (stack : Stack) (pkts rest : List ℕ) (s : State)
      (r : List ℕ × State × List ℕ)
      → serve_write padding' stack.write_junk (to_gba l pkts ++ rest) s ≡ done r
      → serve_next fuel gen stack padding' (to_gba l (cmd_write ∷ pkts) ++ rest) s ≡ done r
  unfolding serve_next perform to_gba action
  serve_next-write fuel gen stack pkts rest s r ran =
      rw (received-gba_write l cmd_write, bswap32_twice cmd_write (omega arith)) ran
