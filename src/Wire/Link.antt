-- ===== src/Wire/Link.antt =====
-- The serial transfer under the packets: `gba_write` and `gba_read` of
-- wiishared/lib/gcport_ioctl.h, and what the port's driver and the LinkCube library do with the
-- bytes. Those two are not part of the model: they are a parameter with their documented laws.
use mathlib.Core.Path.{subst}
use net_bsd_wii_joybus.Base.{
  ℕ, suc, ◌+◌, ◌/◌, ◌%◌, ◌^◌, ◌<◌, ◌≡◌, refl, sym, ◌∙◌, ap, arith, All, some, List, [], ◌∷◌, ◌++◌,
  length, take, map, bit_and, ==_ne,
}
use net_bsd_wii_joybus.Wire.{
  Platform, wii, gba, other, bswap32, bits, chunk_max, load32, split32, out_words, split_words,
  send_words, send_request, do_receive, receive_words, receive_response,
}
use net_bsd_wii_joybus.Wire.Rounds.{IsWords, Delivers, receive_words-send_words}
use net_bsd_wii_joybus.Wire.Bytes.{IsBytes, out_words-IsWords, length-out_words, take-split_words}
use net_bsd_wii_joybus.Wire.Packets.{IsPacket, send_request-IsPacket}

abbrev pub gba_write_cmd : ℕ
gba_write_cmd = 0x15

-- `gba_write`: the five bytes `out`, the value in the order of the Wii's memory.
unfoldable pub gba_write : ℕ → List ℕ
unfolding split32
gba_write val = gba_write_cmd ∷ split32 gba val

-- `gba_read`: the value in the first four of the bytes `in`.
unfoldable pub gba_read : List ℕ → ℕ
gba_read (i0 ∷ i1 ∷ i2 ∷ i3 ∷ rest) = load32 wii i0 i1 i2 i3
gba_read _ = 0

-- `received` is what `LinkCube::read` returns for the bytes of a write; `answer` is what a read
-- command fetches after `LinkCube::send`, and 0 when nothing is pending. Both transfer the bytes
-- of the GBA's 32-bit register, low byte first; a status byte follows.
pub record Link : Type 0 where
  pub received : List ℕ → ℕ
  pub answer : ℕ → List ℕ
  pub received_lem :
      (b0 b1 b2 b3 : ℕ) → received (gba_write_cmd ∷ b0 ∷ b1 ∷ b2 ∷ b3 ∷ []) ≡ load32 gba b0 b1 b2 b3
  pub status : ℕ → ℕ
  pub answer_lem : (v : ℕ) → answer v ≡ split32 wii v ++ status v ∷ []

pub bswap32_twice : (v : ℕ) → v < 2 ^ 32 → bswap32 (bswap32 v) ≡ v
unfolding bswap32
bswap32_twice v h = omega arith

-- `receive_response` on a link that yields exactly the packets of a request, and `rest` after them.
module _ (p : Platform) (req link rest : List ℕ) (h : IsBytes req) where
  receive_words_of :
      (w : ℕ) (ws : List ℕ)
      → out_words p req ≡ w ∷ ws
      → Delivers (other p) rest (send_request p req) link
      → receive_response (other p) (length req) link ≡ some (req, rest)
  unfolding receive_response send_request
  receive_words_of w ws words del = close parts
    where
      parts :
          (link' : List ℕ) × (recv : ℕ) × (do_receive (other p) link ≡ some (recv, link'))
          × (receive_words (other p) (suc (length ws)) (bit_and recv (bits 0 chunk_max)) 0 link'
              ≡ some (w ∷ ws, rest))
      parts =
          receive_words-send_words (other p) rest w ws link
            (subst IsWords words (out_words-IsWords p req h))
            (subst (λ t. Delivers (other p) rest (send_words t 0 0) link) words del)

      rounds : (length req + 3) / 4 ≡ suc (length ws)
      rounds = sym (length-out_words p req) ∙ ap length words

      bytes : take (length req) (split_words (other p) (w ∷ ws)) ≡ req
      bytes =
          subst (λ t. take (length req) (split_words (other p) t) ≡ req) words
            (take-split_words p req h)

      close :
          (link' : List ℕ) × (recv : ℕ) × (do_receive (other p) link ≡ some (recv, link'))
            × (receive_words (other p) (suc (length ws)) (bit_and recv (bits 0 chunk_max)) 0 link'
                ≡ some (w ∷ ws, rest))
          → receive_response (other p) (length req) link ≡ some (req, rest)
      close (link', recv, got, more) =
          rw (got, rounds, more) (ap (λ (t : List ℕ). some (t, rest)) bytes)

  pub receive_request :
      0 < length req
      → Delivers (other p) rest (send_request p req) link
      → receive_response (other p) (length req) link ≡ some (req, rest)
  receive_request pos del = go (out_words p req) refl
    where
      go :
          (words : List ℕ)
          → out_words p req ≡ words
          → receive_response (other p) (length req) link ≡ some (req, rest)
      go [] e = absurd (omega (arith, length-out_words p req, ap length e))
      go (w ∷ ws) e = receive_words_of w ws e del

module _ (l : Link) where
  -- What `LinkCube::read` yields on the GBA for the packets that the Wii writes. Its queue has room
  -- for 120 values, more than the 35 packets of the longest request, before the GBA reads them.
  unfoldable pub to_gba : List ℕ → List ℕ
  to_gba pkts = map (λ pkt. l.received (gba_write pkt)) pkts

  -- What `gba_read` yields on the Wii, poll by poll: a packet that the GBA has queued, or 0 where
  -- it has none yet.
  pub data Polls : List ℕ → List ℕ → Type 0 where
    finished : Polls [] []
    idle :
        {pkt : ℕ} {pkts polls : List ℕ}
        → Polls (pkt ∷ pkts) polls
        → Polls (pkt ∷ pkts) (gba_read (l.answer 0) ∷ polls)
    fetched :
        (pkt : ℕ) {pkts polls : List ℕ}
        → Polls pkts polls
        → Polls (pkt ∷ pkts) (gba_read (l.answer pkt) ∷ polls)

  pub received-gba_write : (pkt : ℕ) → l.received (gba_write pkt) ≡ bswap32 pkt
  unfolding gba_write bswap32 load32 split32
  received-gba_write pkt =
      l.received_lem (pkt / 2 ^ 24 % 256) (pkt / 2 ^ 16 % 256) (pkt / 2 ^ 8 % 256) (pkt % 256)

  pub gba_read-answer : (v : ℕ) → gba_read (l.answer v) ≡ bswap32 v
  unfolding gba_read bswap32 load32 split32
  gba_read-answer v = rw l.answer_lem refl

  gba-Delivers :
      (pkts rest : List ℕ) → All IsPacket pkts → Delivers gba rest pkts (to_gba pkts ++ rest)
  unfolding to_gba do_receive
  gba-Delivers [] rest h = refl
  gba-Delivers (pkt ∷ pkts) rest h = (
    to_gba pkts ++ rest,
    rw (received-gba_write pkt, bswap32_twice pkt h.0.1) refl,
    gba-Delivers pkts rest h.1,
  )

  wii-Delivers :
      {pkts polls : List ℕ} (rest : List ℕ)
      → Polls pkts polls
      → All IsPacket pkts
      → Delivers wii rest pkts (polls ++ rest)
  unfolding do_receive
  wii-Delivers rest finished h = refl
  wii-Delivers rest (idle {polls} more) h =
      let (link', got, later) = wii-Delivers rest more h in
      (link', skip (polls ++ rest) ∙ got, later)
    where
      skip : (xs : List ℕ) → do_receive wii (gba_read (l.answer 0) ∷ xs) ≡ do_receive wii xs
      skip xs = rw (gba_read-answer 0) (unfold bswap32 in refl)
  wii-Delivers rest (fetched pkt {polls} more) h =
      (polls ++ rest, take_it, wii-Delivers rest more h.1)
    where
      take_it :
          do_receive wii (gba_read (l.answer pkt) ∷ (polls ++ rest)) ≡ some (pkt, polls ++ rest)
      take_it =
          rw (gba_read-answer pkt, bswap32_twice pkt h.0.1, ==_ne pkt 0 (omega (arith, h.0.0))) refl

  -- A message of at least one byte that the Wii sends arrives on the GBA byte for byte, and what
  -- the queue holds behind it is left for the next call.
  pub receive_response-send_request :
      (req rest : List ℕ)
      → IsBytes req
      → 0 < length req
      → receive_response gba (length req) (to_gba (send_request wii req) ++ rest) ≡ some (req, rest)
  receive_response-send_request req rest h pos =
      receive_request wii req (to_gba (send_request wii req) ++ rest) rest h pos
        (gba-Delivers (send_request wii req) rest (send_request-IsPacket wii req h))

  -- A message of at least one byte that the GBA sends arrives on the Wii byte for byte, however
  -- many polls find the link idle before each of its packets.
  pub receive_response-send_request_idle :
      (resp polls rest : List ℕ)
      → IsBytes resp
      → 0 < length resp
      → Polls (send_request gba resp) polls
      → receive_response wii (length resp) (polls ++ rest) ≡ some (resp, rest)
  receive_response-send_request_idle resp polls rest h pos arrive =
      receive_request gba resp (polls ++ rest) rest h pos
        (wii-Delivers rest arrive (send_request-IsPacket gba resp h))
