-- ===== src/Tests/Wire.antt =====
-- The packet protocol on short messages.
use mathlib.Core.Path.{subst}
use net_bsd_wii_joybus.Base.{
  ℕ, ◌+◌, ◌*◌, ◌/◌, ◌≡◌, refl, sym, arith, some, List, [], ◌∷◌, ◌++◌, length,
}
use net_bsd_wii_joybus.Wire.{
  wii, gba, bits, load32, split32, out_words, send_words, chunk_packet, chunk_remainder,
  remainder_packet, send_request, receive_response,
}
use net_bsd_wii_joybus.Wire.Bytes.{IsBytes}
use net_bsd_wii_joybus.Wire.Packets.{length-send_request}
use net_bsd_wii_joybus.Wire.Link.{
  Link, gba_write_cmd, gba_read, to_gba, Polls, finished, idle, fetched,
  receive_response-send_request, receive_response-send_request_idle,
}

-- A driver and a library that move the bytes and leave the status at 0.
unfoldable pub received_bytes : List ℕ → ℕ
received_bytes (cmd ∷ b0 ∷ b1 ∷ b2 ∷ b3 ∷ rest) = load32 gba b0 b1 b2 b3
received_bytes _ = 0

pub received_bytes_lem :
    (b0 b1 b2 b3 : ℕ)
    → received_bytes (gba_write_cmd ∷ b0 ∷ b1 ∷ b2 ∷ b3 ∷ []) ≡ load32 gba b0 b1 b2 b3
unfolding received_bytes
received_bytes_lem b0 b1 b2 b3 = refl

abbrev pub link : Link
link = record {
  received = received_bytes;
  answer = λ v. split32 wii v ++ 0 ∷ [];
  received_lem = received_bytes_lem;
  status = λ v. 0;
  answer_lem = λ v. refl;
}

abbrev message : List ℕ
message = 1 ∷ 2 ∷ 3 ∷ 254 ∷ 255 ∷ []

message-IsBytes : IsBytes message
message-IsBytes = (omega arith, (omega arith, (omega arith, (omega arith, (omega arith, tt)))))

receive_response-send_request_example :
    receive_response gba 5 (to_gba link (send_request wii message) ++ 7 ∷ [])
    ≡ some (message, 7 ∷ [])
receive_response-send_request_example =
    receive_response-send_request link message (7 ∷ []) message-IsBytes (omega arith)

-- The packets of a message of one byte, the second one after an idle poll.
abbrev packets : List ℕ
packets = 2147483653 ∷ 2147483648 ∷ []

one_byte-packets : send_request gba (5 ∷ []) ≡ packets
unfolding send_request send_words out_words load32 chunk_packet chunk_remainder remainder_packet
    bits
one_byte-packets = refl

one_byte-Polls : Polls link (send_request gba (5 ∷ [])) (
    gba_read (link.answer 2147483653)
    ∷ gba_read (link.answer 0)
    ∷ gba_read (link.answer 2147483648)
    ∷ [])
one_byte-Polls =
    subst
      (λ t. Polls link t (
        gba_read (link.answer 2147483653)
        ∷ gba_read (link.answer 0)
        ∷ gba_read (link.answer 2147483648)
        ∷ []))
      (sym one_byte-packets) (fetched 2147483653 (idle (fetched 2147483648 finished)))

receive_response-send_request_idle_example :
    receive_response wii 1 (
      (gba_read (link.answer 2147483653)
        ∷ gba_read (link.answer 0)
        ∷ gba_read (link.answer 2147483648)
        ∷ [])
      ++ 9 ∷ [])
    ≡ some (5 ∷ [], 9 ∷ [])
receive_response-send_request_idle_example =
    receive_response-send_request_idle link (5 ∷ []) _ (9 ∷ []) (omega arith, tt) (omega arith)
      one_byte-Polls

length-send_request_example : length (send_request wii message) ≡ (32 * ((5 + 3) / 4) + 30) / 31
length-send_request_example = length-send_request wii message
