-- ===== src/Wire/Rounds/Step.antt =====
-- One round of the loops of `send_request` and `receive_response`.
use native.Mathlib.Numerals.{add-one}
use net_bsd_wii_joybus.Base.{
  ℕ, suc, ◌+◌, ◌-◌, ◌*◌, ◌%◌, ◌^◌, ◌<◌, bit_and, bit_or, ◌≡◌, refl, arith, All, Bool, true, false,
  some, List, [], ◌∷◌, ltb, ==_ne,
}
use net_bsd_wii_joybus.Wire.{
  Platform, bits, bit_max, chunk_max, chunk_packet, chunk_remainder, remainder_packet, send_words,
  do_receive, next_chunk, receive_words,
}

-- The link yields the packets in turn to `do_receive`, and then holds `rest`.
abbrev pub Delivers : Platform → List ℕ → List ℕ → List ℕ → Type 0
Delivers q rest [] link = link ≡ rest
Delivers q rest (pkt ∷ pkts) link =
    (link' : List ℕ) × (do_receive q link ≡ some (pkt, link')) × Delivers q rest pkts link'

abbrev pub IsWords : List ℕ → Type 0
IsWords = All (λ w. w < 2 ^ 32)

pub send_words_partly :
    (w : ℕ) (ws : List ℕ) (carry rem : ℕ)
    → carry < 30
    → send_words (w ∷ ws) carry rem
      ≡ chunk_packet w carry rem ∷ send_words ws (suc carry) (chunk_remainder w carry)
unfolding send_words
send_words_partly w ws carry rem h = rw (==_ne (carry + 1) 31 (omega arith), add-one)

pub send_words_full :
    (w : ℕ) (ws : List ℕ) (rem : ℕ)
    → send_words (w ∷ ws) 30 rem
      ≡ chunk_packet w 30 rem ∷ remainder_packet (chunk_remainder w 30) ∷ send_words ws 0 0
unfolding send_words
send_words_full w ws rem = refl

pub ltb-suc : (n : ℕ) → ltb 0 (suc n) ≡ true
ltb-suc n = ground arith

module _ (q : Platform) where
  pub next_chunk_partly :
      (more : Bool) (inn carry recv : ℕ) (link : List ℕ)
      → carry < 31
      → next_chunk q more inn carry recv link
        ≡ some (bit_and recv (bits 0 (chunk_max - carry)), carry, link)
  unfolding next_chunk
  next_chunk_partly more inn carry recv link h = rw (==_ne carry 31 (omega arith))

  pub next_chunk_fresh :
      (inn recv : ℕ) (link : List ℕ) {recv' : ℕ} {link' : List ℕ}
      → do_receive q link ≡ some (recv', link')
      → next_chunk q true inn 31 recv link ≡ some (bit_and recv' (bits 0 chunk_max), 0, link')
  unfolding next_chunk
  next_chunk_fresh inn recv link got = rw got

  pub next_chunk_last :
      (inn recv : ℕ) (link : List ℕ) → next_chunk q false inn 31 recv link ≡ some (inn, 0, link)
  unfolding next_chunk
  next_chunk_last inn recv link = refl

  -- One round of the loop of `receive_response`.
  pub round :
      (more : Bool) (rounds inn d : ℕ) (link : List ℕ) {recv inn' carry' v : ℕ}
      {link' link'' rest ws : List ℕ}
      → ltb 0 rounds ≡ more
      → do_receive q link ≡ some (recv, link')
      → bit_or inn (bit_and (recv * 2 % 2 ^ 32) (bits bit_max (bit_max - d))) ≡ v
      → next_chunk q more inn (suc d) recv link' ≡ some (inn', carry', link'')
      → receive_words q rounds inn' carry' link'' ≡ some (ws, rest)
      → receive_words q (suc rounds) inn d link ≡ some (v ∷ ws, rest)
  unfolding receive_words
  round more rounds inn d link left got word chunk later =
      rw (got, add-one, left, chunk, later, word)
