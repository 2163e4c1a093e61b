-- ===== src/Exchange/RemoteWrite/Loop.antt =====
-- The loop of `puffboy_node_write` on the answers to its messages.
use mathlib.Core.Path.{subst}
use net_bsd_wii_joybus.Base.{
  ℕ, zero, suc, ◌<◌, ◌≤◌, ◌≡◌, ◌≢◌, refl, sym, ap, ◌∙◌, arith, true, Bool-cases, inl, inr, some,
  List, [], ◌∷◌, ◌++◌, ◌==◌, length, append_assoc, map, min, drop, length-drop, ==_ne,
}
use net_bsd_wii_joybus.Wire.{wii, gba}
use net_bsd_wii_joybus.Wire.Link.{Link, Polls}
use net_bsd_wii_joybus.Message.{WriteBufReq, WriteBufResp}
use net_bsd_wii_joybus.Message.Layout.{size_of, fields_end}
use net_bsd_wii_joybus.Message.Layout.RoundTrip.{is_word, no_values, more_values}
use net_bsd_wii_joybus.Message.Structs.Requests.{write_buf_req}
use net_bsd_wii_joybus.Message.Structs.Responses.{write_buf_resp}
use net_bsd_wii_joybus.Server.{done}
use net_bsd_wii_joybus.Client.{Sent, write_message, node_write_loop}
use net_bsd_wii_joybus.Client.Write.{node_write_loop-empty, node_write_loop-step}
use net_bsd_wii_joybus.Exchange.{send, receive}
use net_bsd_wii_joybus.Exchange.Remote.{Fits, receive-send_idle}
use net_bsd_wii_joybus.Exchange.Messages.{send_messages}
use net_bsd_wii_joybus.Exchange.Write.{Ended, gba_write_buf, write_rest}

-- The values that `gba_read` yields for the answers to the messages, idle polls among them.
abbrev pub Arrives : Link → (ℕ → ℕ) → List WriteBufResp → List ℕ → Type 0
Arrives l padding [] polls = polls ≡ []
Arrives l padding (r ∷ rs) polls =
    (p : List ℕ) × (ps : List ℕ) × (polls ≡ p ++ ps)
    × Polls l (send gba padding write_buf_resp r) p
    × Arrives l padding rs ps

module _ (l : Link) (padding padding' : ℕ → ℕ) (bytes : (k : ℕ) → padding k < 256)
    (bytes' : (k : ℕ) → padding' k < 256) where
  -- The loop of `puffboy_node_write`, while the answers carry no error.
  module _ (id : ℕ) (reply : WriteBufResp) (ok : reply.err ≡ 0) where
    abbrev pub sent_for : ℕ → List ℕ → List WriteBufReq
    sent_for fuel src = (node_write_loop fuel reply src).messages

    reply-Fits : Fits write_buf_resp reply
    reply-Fits = more_values (is_word (omega (arith, ok))) no_values

    write_rest-end :
        (fuel : ℕ) (src polls : List ℕ)
        → length src ≡ 0
        → write_rest padding fuel src polls
          ≡ done (record { packets = []; err = 0; resid = 0; polls = polls })
    unfolding write_rest
    write_rest-end zero src polls e = ground (arith, e)
    write_rest-end (suc fuel) src polls e = ground (arith, e)

    gba_write_buf-reply :
        (polls rest : List ℕ)
        → receive wii write_buf_resp (true ∷ []) polls ≡ some (reply, rest)
        → gba_write_buf padding polls ≡ done (reply, rest)
    unfolding gba_write_buf
    gba_write_buf-reply polls rest got = rw (got, gba_write_buf) refl

    write_rest-step :
        (fuel n : ℕ) (src polls rest : List ℕ) (e : Ended)
        → length src ≢ 0
        → n ≡ min (length src) 128
        → receive wii write_buf_resp (true ∷ []) polls ≡ some (reply, rest)
        → write_rest padding fuel (drop n src) rest ≡ done e
        → write_rest padding (suc fuel) src polls
          ≡ done (record e {
            packets = send wii padding write_buf_req (write_message src) ++ e.packets;
          })
    unfolding write_rest
    write_rest-step fuel n src polls rest e left is_n got later =
        rw (==_ne (length src) 0 left, gba_write_buf-reply polls rest got, ok, ← is_n, later) refl

    abbrev Takes : ℕ → List ℕ → List ℕ → List ℕ → Type 0
    Takes fuel src polls rest =
        write_rest padding fuel src (polls ++ rest)
        ≡ done (record {
          packets = send_messages padding (sent_for fuel src);
          err = 0;
          resid = 0;
          polls = rest;
        })

    write_rest-empty :
        (fuel : ℕ) (src polls rest : List ℕ)
        → length src ≡ 0
        → Arrives l padding' (map (λ m. reply) (sent_for fuel src)) polls
        → Takes fuel src polls rest
    write_rest-empty fuel src polls rest e arrive =
        let ended = node_write_loop-empty id reply ok fuel src e in
        let nothing : polls ≡ [] =
          subst (λ (t : Sent). Arrives l padding' (map (λ m. reply) t.messages) polls) ended
            arrive in
        subst
          (λ (t : Sent).
            write_rest padding fuel src (polls ++ rest)
            ≡ done (record {
              packets = send_messages padding t.messages;
              err = 0;
              resid = 0;
              polls = rest;
            }))
          (sym ended)
          (subst
            (λ t.
              write_rest padding fuel src (t ++ rest)
              ≡ done (record { packets = []; err = 0; resid = 0; polls = rest }))
            (sym nothing) (write_rest-end fuel src rest e))

    write_rest-more :
        (fuel n : ℕ) (src polls rest : List ℕ)
        → length src ≢ 0
        → n ≡ min (length src) 128
        → ((ps : List ℕ)
            → Arrives l padding' (map (λ m. reply) (sent_for fuel (drop n src))) ps
            → Takes fuel (drop n src) ps rest)
        → Arrives l padding' (map (λ m. reply) (sent_for (suc fuel) src)) polls
        → Takes (suc fuel) src polls rest
    write_rest-more fuel n src polls rest left is_n later arrive =
        let round = node_write_loop-step id reply ok fuel n src left is_n in
        let (p, ps, parts, first_one, others) =
          subst (λ (t : Sent). Arrives l padding' (map (λ m. reply) t.messages) polls) round
            arrive in
        let got =
          ap (λ (t : List ℕ). receive wii write_buf_resp (true ∷ []) (t ++ rest)) parts
          ∙ ap (receive wii write_buf_resp (true ∷ [])) (append_assoc p ps rest)
          ∙ receive-send_idle write_buf_resp reply reply-Fits padding' l bytes'
              (unfold size_of fields_end in omega arith) p (ps ++ rest) first_one in
        subst
          (λ (t : Sent).
            write_rest padding (suc fuel) src (polls ++ rest)
            ≡ done (record {
              packets = send_messages padding t.messages;
              err = 0;
              resid = 0;
              polls = rest;
            }))
          (sym round)
          (write_rest-step fuel n src (polls ++ rest) (ps ++ rest) _ left is_n got
            (later ps others))

    pub write_rest-ends :
        (fuel : ℕ) (src polls rest : List ℕ)
        → length src ≤ fuel
        → Arrives l padding' (map (λ m. reply) (sent_for fuel src)) polls
        → Takes fuel src polls rest
    write_rest-ends zero src polls rest le arrive =
        write_rest-empty zero src polls rest (omega (arith, le)) arrive
    write_rest-ends (suc fuel) src polls rest le arrive = elim (Bool-cases (length src == 0)) [
      | inl nothing ↦ write_rest-empty (suc fuel) src polls rest (ground (arith, nothing)) arrive
      | inr left ↦
          let n = min (length src) 128 in
          write_rest-more fuel n src polls rest (ground (arith, left)) refl
            (λ ps others.
              write_rest-ends fuel (drop n src) ps rest
                (ground (arith, le, left, length-drop n src)) others)
            arrive
    ]
