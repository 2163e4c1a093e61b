-- ===== src/Echo/Overrun.antt =====
-- The echo program on lines that its buffers do not hold.
use net_bsd_wii_joybus.Base.{
  ℕ, zero, suc, ◌+◌, ◌-◌, ◌<◌, ◌≤◌, ◌≡◌, ◌≢◌, refl, arith, All, List, [], ◌∷◌, ◌++◌, length,
  length-append, length-drop, length-replicate, replicate, drop, Bool-cases, inl, inr, ltb,
}
use net_bsd_wii_joybus.Server.{done, fault}
use net_bsd_wii_joybus.Client.Wait.{msg_timeout, wait_clear-passes}
use net_bsd_wii_joybus.Echo.{filled, sendsize, send_loop, load_word, exchange_words, echo_round}
use net_bsd_wii_joybus.Echo.Words.{sendsize_lem}
use net_bsd_wii_joybus.Echo.Round.{strlen-filled}

load_word-short : (xs : List ℕ) → length xs < 4 → load_word xs ≡ fault
unfolding load_word
load_word-short [] h = refl
load_word-short (a ∷ []) h = refl
load_word-short (a ∷ b ∷ []) h = refl
load_word-short (a ∷ b ∷ c ∷ []) h = refl
load_word-short (a ∷ b ∷ c ∷ d ∷ rest) h = absurd (omega (arith, h))

load_word-long : (xs : List ℕ) → 4 ≤ length xs → (w : ℕ) × (load_word xs ≡ done w)
unfolding load_word
load_word-long [] h = absurd (omega (arith, h))
load_word-long (a ∷ []) h = absurd (omega (arith, h))
load_word-long (a ∷ b ∷ []) h = absurd (omega (arith, h))
load_word-long (a ∷ b ∷ c ∷ []) h = absurd (omega (arith, h))
load_word-long (a ∷ b ∷ c ∷ d ∷ rest) h = (_, refl)

-- The loop runs off a buffer that is shorter than what it has to send.
send_loop-fault :
    (msg : List ℕ) (fuel i size : ℕ)
    → length msg < size
    → i < size
    → size ≤ i + fuel
    → send_loop fuel msg i size ≡ fault
unfolding send_loop
send_loop-fault msg zero i size short more le = absurd (omega arith)
send_loop-fault msg (suc fuel) i size short more le =
    elim (Bool-cases (ltb (length (drop i msg)) 4)) [
      | inl cut ↦ ground (arith, more, load_word-short (drop i msg), cut)
      | inr whole ↦
          let (w, got) = load_word-long (drop i msg) (ground (arith, whole)) in
          let later =
            send_loop-fault msg fuel (i + 4) size short (ground (arith, whole, length-drop i msg))
              (omega arith) in
          ground (arith, more, got, later)
    ]

-- A text of 125 or 126 characters in `msg`: once `wait_clear` has seen the 0, the loop that writes
-- loads a word that reaches past the end of the buffer, an undefined access.
pub echo_round-fault :
    (text before rest : List ℕ)
    → All (λ c. c ≢ 0) text
    → 125 ≤ length text
    → length text ≤ 126
    → All (λ v. v ≢ 0) before
    → length before ≤ msg_timeout + 1
    → echo_round (filled text) (before ++ 0 ∷ rest) ≡ fault
unfolding echo_round exchange_words
echo_round-fault text before rest chars long le others few =
    rw
      (
        strlen-filled text le chars,
        wait_clear-passes msg_timeout before rest others few,
        send_loop-fault (filled text) (sendsize (length text)) 0 (sendsize (length text)) short
            (omega (arith, sendsize_lem (length text) (omega arith))) (omega arith),
      )
      refl
  where
    short : length (filled text) < sendsize (length text)
    short = omega (
      arith,
      length-append text (replicate (127 - length text) 0),
      length-replicate {A = ℕ} (127 - length text) 0,
      sendsize_lem (length text) (omega arith),
    )
