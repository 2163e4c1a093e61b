-- ===== src/Exchange/MessageFits.antt =====
-- The messages of `puffboy_node_write`: their fields hold what the structs can.
use mathlib.Core.Path.{subst}
use net_bsd_wii_joybus.Base.{
  ℕ, zero, suc, ◌+◌, ◌^◌, ◌<◌, ◌≡◌, refl, sym, arith, Bool-cases, inl, inr, All, All-append, List,
  [], ◌∷◌, ◌==◌, length, min, drop, take, replicate,
}
use net_bsd_wii_joybus.Wire.Bytes.{IsBytes}
use net_bsd_wii_joybus.Message.{WriteBufResp}
use net_bsd_wii_joybus.Message.Layout.{array, chars}
use net_bsd_wii_joybus.Message.Layout.RoundTrip.{IsValue, is_word, is_array, no_values, more_values}
use net_bsd_wii_joybus.Message.Structs.Requests.{write_buf_req}
use net_bsd_wii_joybus.Server.Blocks.{blank}
use net_bsd_wii_joybus.Client.{Sent, write_message, node_write_loop}
use net_bsd_wii_joybus.Client.Write.{message-size, node_write_loop-empty, node_write_loop-step}
use net_bsd_wii_joybus.Exchange.Remote.{Fits}

-- The messages of the client carry bytes.
drop-IsBytes : (n : ℕ) (xs : List ℕ) → IsBytes xs → IsBytes (drop n xs)
drop-IsBytes zero xs h = h
drop-IsBytes (suc n) [] h = tt
drop-IsBytes (suc n) (x ∷ xs) h = drop-IsBytes n xs h.1

take-IsBytes : (n : ℕ) (xs : List ℕ) → IsBytes xs → IsBytes (take n xs)
take-IsBytes zero xs h = tt
take-IsBytes (suc n) [] h = tt
take-IsBytes (suc n) (x ∷ xs) h = (h.0, take-IsBytes n xs h.1)

replicate-IsBytes : (n : ℕ) → IsBytes (replicate n 0)
replicate-IsBytes zero = tt
replicate-IsBytes (suc n) = (omega arith, replicate-IsBytes n)

message-Fits : (src : List ℕ) → IsBytes src → Fits write_buf_req (write_message src)
message-Fits src h = more_values (is_word small) (
    more_values
      (subst (λ n. IsValue (array n) (chars (write_message src).buf)) (message-size src)
        (is_array (write_message src).buf whole))
      no_values)
  where
    small : (write_message src).buflen < 2 ^ 32
    small = unfold write_message in omega arith

    whole : IsBytes (write_message src).buf
    whole =
        unfold write_message blank in
        All-append (λ b. b < 256) [] _ tt
          (All-append (λ b. b < 256) (take (min (length src) 128) src)
            (drop (0 + min (length src) 128) (replicate 128 0))
            (take-IsBytes (min (length src) 128) src h)
            (drop-IsBytes (0 + min (length src) 128) (replicate 128 0) (replicate-IsBytes 128)))

module _ (id : ℕ) (reply : WriteBufResp) (ok : reply.err ≡ 0) where
  pub messages-Fits :
      (fuel : ℕ) (src : List ℕ)
      → IsBytes src
      → All (Fits write_buf_req) (node_write_loop fuel reply src).messages
  unfolding node_write_loop
  messages-Fits zero src h = tt
  messages-Fits (suc fuel) src h = elim (Bool-cases (length src == 0)) [
    | inl nothing ↦
        subst (λ (t : Sent). All (Fits write_buf_req) t.messages)
          (sym (node_write_loop-empty id reply ok (suc fuel) src (ground (arith, nothing)))) tt
    | inr left ↦
        let n = min (length src) 128 in
        subst (λ (t : Sent). All (Fits write_buf_req) t.messages)
          (sym (node_write_loop-step id reply ok fuel n src (ground (arith, left)) refl))
          (message-Fits src h, messages-Fits fuel (drop n src) (drop-IsBytes n src h))
  ]
