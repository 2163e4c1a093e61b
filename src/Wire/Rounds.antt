-- ===== src/Wire/Rounds.antt =====
-- `receive_response` on the packets of `send_request`, word by word.
mod Step
pub use Step.{Delivers, IsWords}
use native.Mathlib.Nat.{one-le-pow, mod-lt}
use native.Mathlib.Numerals.{add-one}
use mathlib.Core.Path.{subst}
use net_bsd_wii_joybus.Base.{
  ℕ, zero, suc, ◌+◌, ◌-◌, ◌*◌, ◌/◌, ◌%◌, ◌^◌, ◌<◌, bit_and, bit_or, ◌≡◌, refl, arith, All, Bool,
  true, false, some, List, [], ◌∷◌, length, ltb, ==_ne, ap, ◌∙◌,
}
use net_bsd_wii_joybus.Wire.{
  Platform, bits, bit_max, chunk_max, chunk_packet, chunk_remainder, remainder_packet, send_words,
  do_receive, next_chunk, receive_words,
}
use net_bsd_wii_joybus.Wire.Chunk.{
  chunk_packet_lem, chunk_remainder_lem, remainder_packet_lem, rebuild, keep_low, first_packet,
  first_low,
}
use net_bsd_wii_joybus.Wire.Rounds.Step.{
  send_words_partly, send_words_full, ltb-suc, next_chunk_partly, next_chunk_fresh, next_chunk_last,
  round,
}

module _ (q : Platform) (rest : List ℕ) where
  abbrev Arrives : List ℕ → List ℕ → Type 0
  Arrives = Delivers q rest

  -- The packets still to come, `v` being the word whose high bits were left over.
  abbrev Pending : (k d v : ℕ) → List ℕ → List ℕ → Type 0
  Pending k d v ws link = Arrives (send_words ws (suc d) (v / 2 ^ suc k * 2 ^ k)) link

  abbrev Rebuilds : (k d v : ℕ) → List ℕ → List ℕ → Type 0
  Rebuilds k d v ws link =
      receive_words q (suc (length ws)) (v % 2 ^ suc k) d link ≡ some (v ∷ ws, rest)

  -- The last word: its high bits come in the flushed packet.
  last_word_got :
      (k d v : ℕ) (link : List ℕ)
      → suc k + suc d ≡ 31
      → v < 2 ^ 32
      → do_receive q link ≡ some (2 ^ 31 + v / 2 ^ suc (suc k) * 2 ^ suc k + 0, rest)
      → Rebuilds (suc k) d v [] link
  unfolding receive_words
  last_word_got k d v link e hv got =
      round q false 0 (v % 2 ^ suc (suc k)) d link refl got
        (rebuild (suc k) d v e hv 0 (one-le-pow (suc k) 2 (omega arith)))
        (next_chunk_partly q false (v % 2 ^ suc (suc k)) (suc d) _ rest (omega arith)) refl

  last_word :
      (k d v : ℕ) (link : List ℕ)
      → suc k + suc d ≡ 31
      → v < 2 ^ 32
      → Pending (suc k) d v [] link
      → Rebuilds (suc k) d v [] link
  last_word k d v link e hv del = last_word_got k d v link e hv (rw got.2 at got.1)
    where
      sent :
          send_words [] (suc d) (v / 2 ^ suc (suc k) * 2 ^ suc k)
          ≡ (2 ^ 31 + v / 2 ^ suc (suc k) * 2 ^ suc k + 0) ∷ []
      sent = unfold send_words in rw (ltb-suc d, remainder_packet_lem (suc k) d v e hv)

      got : Arrives ((2 ^ 31 + v / 2 ^ suc (suc k) * 2 ^ suc k + 0) ∷ []) link
      got = subst (λ t. Arrives t link) sent del

  -- A word that leaves at least two bits of room in its packet.
  next_word_got :
      (k d v w : ℕ) (ws link link' : List ℕ)
      → suc (suc k) + suc d ≡ 31
      → v < 2 ^ 32
      → do_receive q link
        ≡ some (2 ^ 31 + v / 2 ^ suc (suc (suc k)) * 2 ^ suc (suc k) + w % 2 ^ suc (suc k), link')
      → Rebuilds (suc k) (suc d) w ws link'
      → Rebuilds (suc (suc k)) d v (w ∷ ws) link
  next_word_got k d v w ws link link' e hv got later =
      round q true (suc (length ws)) (v % 2 ^ suc (suc (suc k))) d link (ltb-suc (length ws)) got
        (rebuild (suc (suc k)) d v e hv (w % 2 ^ suc (suc k)) below)
        (next_chunk_partly q true (v % 2 ^ suc (suc (suc k))) (suc d) _ link' (omega arith)
          ∙ ap (λ (t : ℕ). some (t, suc d, link'))
              (keep_low (suc (suc k)) d v e hv (w % 2 ^ suc (suc k)) below (omega arith)))
        later
    where
      below : w % 2 ^ suc (suc k) < 2 ^ suc (suc k)
      below = mod-lt w (one-le-pow (suc (suc k)) 2 (omega arith))

  next_word_sent :
      (k d v w : ℕ) (ws : List ℕ)
      → suc (suc k) + suc d ≡ 31
      → v < 2 ^ 32
      → w < 2 ^ 32
      → send_words (w ∷ ws) (suc d) (v / 2 ^ suc (suc (suc k)) * 2 ^ suc (suc k))
        ≡ (2 ^ 31 + v / 2 ^ suc (suc (suc k)) * 2 ^ suc (suc k) + w % 2 ^ suc (suc k))
          ∷ send_words ws (suc (suc d)) (w / 2 ^ suc (suc k) * 2 ^ suc k)
  next_word_sent k d v w ws e hv hw =
      send_words_partly w ws (suc d) _ (omega arith)
      ∙ rw (
        chunk_packet_lem (suc (suc k)) d v e hv w (omega arith),
        chunk_remainder_lem (suc k) (suc d) w e hw,
      )

  -- A word that leaves one bit of room: its other bits fill a packet.
  full_word_sent :
      (v w : ℕ) (ws : List ℕ)
      → v < 2 ^ 32
      → w < 2 ^ 32
      → send_words (w ∷ ws) 30 (v / 2 ^ 2 * 2 ^ 1)
        ≡ (2 ^ 31 + v / 2 ^ 2 * 2 ^ 1 + w % 2 ^ 1)
          ∷ (2 ^ 31 + w / 2 ^ 1 * 2 ^ 0 + 0)
          ∷ send_words ws 0 0
  full_word_sent v w ws hv hw =
      send_words_full w ws _
      ∙ rw (
        chunk_packet_lem 1 29 v refl hv w (omega arith),
        chunk_remainder_lem 0 30 w refl hw,
        remainder_packet_lem 0 30 w refl hw,
      )

  full_word_got :
      (v w rounds : ℕ) (more : Bool) (link link' link'' : List ℕ) {inn' carry' : ℕ}
      {link₃ ws : List ℕ}
      → v < 2 ^ 32
      → w < 2 ^ 32
      → ltb 0 rounds ≡ more
      → do_receive q link ≡ some (2 ^ 31 + v / 2 ^ 2 * 2 ^ 1 + w % 2 ^ 1, link')
      → do_receive q link' ≡ some (2 ^ 31 + w / 2 ^ 1 * 2 ^ 0 + 0, link'')
      → next_chunk q more (w % 2 ^ 1) 31 (2 ^ 31 + w / 2 ^ 1 * 2 ^ 0 + 0) link''
        ≡ some (inn', carry', link₃)
      → receive_words q rounds inn' carry' link₃ ≡ some (ws, rest)
      → receive_words q (suc (suc rounds)) (v % 2 ^ 2) 29 link ≡ some (v ∷ w ∷ ws, rest)
  full_word_got v w rounds more link link' link'' hv hw left got got' chunk later =
      round q true (suc rounds) (v % 2 ^ 2) 29 link (ltb-suc rounds) got
        (rebuild 1 29 v refl hv (w % 2 ^ 1) (omega arith))
        (next_chunk_partly q true (v % 2 ^ 2) 30 _ link' (omega arith)
          ∙ ap (λ (t : ℕ). some (t, 30, link'))
              (keep_low 1 29 v refl hv (w % 2 ^ 1) (omega arith) (omega arith)))
        (round q more rounds (w % 2 ^ 1) 30 link' left got' (rebuild 0 30 w refl hw 0 (omega arith))
          chunk later)

  full_last :
      (v w : ℕ) (link : List ℕ)
      → v < 2 ^ 32
      → w < 2 ^ 32
      → Arrives
          ((2 ^ 31 + v / 2 ^ 2 * 2 ^ 1 + w % 2 ^ 1) ∷ (2 ^ 31 + w / 2 ^ 1 * 2 ^ 0 + 0) ∷ [])
          link
      → Rebuilds 1 29 v (w ∷ []) link
  unfolding receive_words
  full_last v w link hv hw (link', got, (link'', got', ends)) =
      full_word_got v w 0 false link link' link'' hv hw refl got got'
        (next_chunk_last q (w % 2 ^ 1) _ link'') (ap (λ (t : List ℕ). some ([], t)) ends)

  -- The packet after a full chunk starts a new one.
  fresh_sent :
      (w : ℕ) (ws : List ℕ)
      → w < 2 ^ 32
      → send_words (w ∷ ws) 0 0 ≡ (2 ^ 31 + w % 2 ^ 31) ∷ send_words ws 1 (w / 2 ^ 31 * 2 ^ 30)
  fresh_sent w ws hw =
      send_words_partly w ws 0 0 (omega arith)
      ∙ rw (first_packet w, chunk_remainder_lem 30 0 w refl hw)

  full_then :
      (v w w' : ℕ) (ws link : List ℕ)
      → v < 2 ^ 32
      → w < 2 ^ 32
      → ((link₃ : List ℕ) → Pending 30 0 w' ws link₃ → Rebuilds 30 0 w' ws link₃)
      → Arrives
          ((2 ^ 31 + v / 2 ^ 2 * 2 ^ 1 + w % 2 ^ 1)
            ∷ (2 ^ 31 + w / 2 ^ 1 * 2 ^ 0 + 0)
            ∷ (2 ^ 31 + w' % 2 ^ 31)
            ∷ send_words ws 1 (w' / 2 ^ 31 * 2 ^ 30))
          link
      → Rebuilds 1 29 v (w ∷ w' ∷ ws) link
  full_then v w w' ws link hv hw later (link', got, (link'', got', (link₃, got₃, more))) =
      full_word_got v w (suc (length ws)) true link link' link'' hv hw (ltb-suc (length ws)) got
        got'
        (next_chunk_fresh q (w % 2 ^ 1) _ link'' got₃
          ∙ ap (λ (t : ℕ). some (t, 0, link₃)) (first_low (w' % 2 ^ 31) (omega arith)))
        (later link₃ more)

  rebuilds :
      (ws : List ℕ) (k d v : ℕ) (link : List ℕ)
      → suc k + suc d ≡ 31
      → v < 2 ^ 32
      → IsWords ws
      → Pending (suc k) d v ws link
      → Rebuilds (suc k) d v ws link
  unfolding send_words
  rebuilds [] k d v link e hv h del = last_word k d v link e hv del
  rebuilds (w ∷ ws) (suc k) d v link e hv h del =
      let (link', got, more) = step in
      next_word_got k d v w ws link link' e hv got
        (rebuilds ws k (suc d) w link' (omega arith) h.0 h.1 more)
    where
      step :
          Arrives
            ((2 ^ 31 + v / 2 ^ suc (suc (suc k)) * 2 ^ suc (suc k) + w % 2 ^ suc (suc k))
              ∷ send_words ws (suc (suc d)) (w / 2 ^ suc (suc k) * 2 ^ suc k))
            link
      step = subst (λ t. Arrives t link) (next_word_sent k d v w ws e hv h.0) del
  rebuilds (w ∷ []) zero d v link e hv h del =
      let at_29 : 29 ≡ d = omega arith in
      subst (λ t. Pending 1 t v (w ∷ []) link → Rebuilds 1 t v (w ∷ []) link) at_29
        (λ del'.
          full_last v w link hv h.0
            (subst (λ t. Arrives t link) (full_word_sent v w [] hv h.0) del'))
        del
  rebuilds (w ∷ w' ∷ ws) zero d v link e hv h del =
      let at_29 : 29 ≡ d = omega arith in
      let later = λ (link₃ : List ℕ). rebuilds ws 29 0 w' link₃ refl h.1.0 h.1.1 in
      subst (λ t. Pending 1 t v (w ∷ w' ∷ ws) link → Rebuilds 1 t v (w ∷ w' ∷ ws) link) at_29
        (λ del'. full_then v w w' ws link hv h.0 later (arrives h.1.0 del')) del
    where
      arrives :
          w' < 2 ^ 32
          → Pending 1 29 v (w ∷ w' ∷ ws) link
          → Arrives
              ((2 ^ 31 + v / 2 ^ 2 * 2 ^ 1 + w % 2 ^ 1)
                ∷ (2 ^ 31 + w / 2 ^ 1 * 2 ^ 0 + 0)
                ∷ (2 ^ 31 + w' % 2 ^ 31)
                ∷ send_words ws 1 (w' / 2 ^ 31 * 2 ^ 30))
              link
      arrives hw' del' =
          subst (λ t. Arrives t link)
            (full_word_sent v w (w' ∷ ws) hv h.0
              ∙ ap
                  (λ (t : List ℕ).
                    (2 ^ 31 + v / 2 ^ 2 * 2 ^ 1 + w % 2 ^ 1) ∷ (2 ^ 31 + w / 2 ^ 1 * 2 ^ 0 + 0) ∷ t)
                  (fresh_sent w' ws hw'))
            del'

  -- From the first packet on.
  pub receive_words-send_words :
      (w : ℕ) (ws : List ℕ) (link : List ℕ)
      → IsWords (w ∷ ws)
      → Arrives (send_words (w ∷ ws) 0 0) link
      → (link' : List ℕ) × (recv : ℕ) × (do_receive q link ≡ some (recv, link'))
        × (receive_words q (suc (length ws)) (bit_and recv (bits 0 chunk_max)) 0 link'
            ≡ some (w ∷ ws, rest))
  receive_words-send_words w ws link h del =
      begin (subst (λ t. Arrives t link) (fresh_sent w ws h.0) del)
    where
      begin :
          Arrives ((2 ^ 31 + w % 2 ^ 31) ∷ send_words ws 1 (w / 2 ^ 31 * 2 ^ 30)) link
          → (link' : List ℕ) × (recv : ℕ) × (do_receive q link ≡ some (recv, link'))
            × (receive_words q (suc (length ws)) (bit_and recv (bits 0 chunk_max)) 0 link'
                ≡ some (w ∷ ws, rest))
      begin (link', got, more) = (
        link',
        2 ^ 31 + w % 2 ^ 31,
        got,
        rw (first_low (w % 2 ^ 31) (omega arith)) (rebuilds ws 29 0 w link' refl h.0 h.1 more),
      )
