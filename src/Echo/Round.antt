-- ===== src/Echo/Round.antt =====
-- A round of the echo program over the link.
use mathlib.Core.Path.{subst}
use net_bsd_wii_joybus.Base.{
  ℕ, zero, suc, ◌+◌, ◌-◌, ◌<◌, ◌≤◌, ◌≡◌, ◌≢◌, refl, sym, ap, ◌∙◌, arith, All, All-append, some,
  List, [], ◌∷◌, ◌++◌, map, length, length-append, replicate,
}
use net_bsd_wii_joybus.Wire.{bswap32, out_words, wii}
use net_bsd_wii_joybus.Wire.Bytes.{IsBytes, length-out_words}
use net_bsd_wii_joybus.Wire.Link.{Link, Polls, to_gba, received-gba_write, bswap32_twice}
use net_bsd_wii_joybus.Server.{Run, done, ◌>>=◌}
use net_bsd_wii_joybus.Client.Wait.{msg_timeout, wait_clear-passes}
use net_bsd_wii_joybus.Echo.{
  put, newline, filled, strlen, sendsize, send_loop, read_loop, exchange_words, echo_round,
  echo_words,
}
use net_bsd_wii_joybus.Echo.Words.{strlen_lem, sendsize_lem, send_loop-words}
use net_bsd_wii_joybus.Echo.Stores.{IsEchoed, store_words, read_loop-store_words, store_words-text}
use net_bsd_wii_joybus.Echo.Shows.{IsTyped, echo_words-sent, echo_words-shown, out_words-IsEchoed}

-- The values written for a line.
abbrev pub words_written : List ℕ → List ℕ
words_written text = map bswap32 (out_words wii text)

replicate-text :
    (text : List ℕ) (n : ℕ)
    → length text ≤ n
    → replicate {A = ℕ} n 0 ≡ map (λ c. 0) text ++ replicate (n - length text) 0
replicate-text [] n le = ap (λ (t : ℕ). replicate {A = ℕ} t 0) (omega arith)
replicate-text (c ∷ text) zero le = absurd (omega arith)
replicate-text (c ∷ text) (suc n) le =
    ap (λ t. 0 ∷ t)
      (replicate-text text n (omega arith)
        ∙ ap (λ (t : ℕ). map (λ c. 0) text ++ replicate {A = ℕ} t 0) (omega arith))

to_gba-map : (l : Link) (ws : List ℕ) → All IsEchoed ws → to_gba l (map bswap32 ws) ≡ ws
unfolding to_gba
to_gba-map l [] h = refl
to_gba-map l (w ∷ ws) h =
    rw (received-gba_write l (bswap32 w), bswap32_twice w h.0.1)
      (ap (λ t. w ∷ t) (to_gba-map l ws h.1))

pub strlen-filled :
    (text : List ℕ)
    → length text ≤ 126
    → All (λ c. c ≢ 0) text
    → strlen (filled text) ≡ done (length text)
strlen-filled text le chars =
    ap (λ (t : List ℕ). strlen (text ++ t)) ends_in_zero
    ∙ strlen_lem text (replicate (126 - length text) 0) chars
  where
    ends_in_zero : replicate {A = ℕ} (127 - length text) 0 ≡ 0 ∷ replicate (126 - length text) 0
    ends_in_zero =
        ap (λ (t : ℕ). replicate {A = ℕ} t 0)
          (let e : 127 - length text ≡ suc (126 - length text) = omega arith in e)

-- Three zeros at least behind a line that fits, which ends the string and fills up the last word.
module _ (text : List ℕ) (fits : length text ≤ 124) where
  abbrev pad : List ℕ
  pad = replicate (124 - length text) 0

  zeros_behind : replicate (127 - length text) 0 ≡ 0 ∷ 0 ∷ 0 ∷ pad
  zeros_behind =
      ap (λ (t : ℕ). replicate t 0)
        (let e : 127 - length text ≡ suc (suc (suc (124 - length text))) = omega arith in e)

  filled-pad : filled text ≡ text ++ 0 ∷ 0 ∷ 0 ∷ pad
  filled-pad = ap (λ t. text ++ t) zeros_behind

  cleared-pad : replicate 127 0 ≡ map (λ c. 0) text ++ 0 ∷ 0 ∷ 0 ∷ pad
  cleared-pad =
      replicate-text text 127 (omega arith) ∙ ap (λ t. map (λ c. 0) text ++ t) zeros_behind

  module _ (l : Link) (chars : All (λ c. c ≢ 0) text) (bytes : IsBytes text) where
    sent_back : (echo_words (to_gba l (words_written text))).0 ≡ out_words wii text
    sent_back =
        echo_words-sent (to_gba l (words_written text))
        ∙ to_gba-map l (out_words wii text) (out_words-IsEchoed text chars bytes)

    sends :
        send_loop (sendsize (length text)) (filled text) 0 (sendsize (length text))
        ≡ done (words_written text)
    sends =
        send_loop-words text pad (filled text) (sendsize (length text)) 0 (sendsize (length text))
          filled-pad (omega (arith, sendsize_lem (length text) (omega arith)))
          (omega (arith, sendsize_lem (length text) (omega arith)))

    reads :
        (polls rest : List ℕ)
        → Polls l (out_words wii text) polls
        → read_loop (polls ++ rest) 0 (sendsize (length text)) (replicate 127 0)
          ≡ done (filled text, rest)
    reads polls rest arrive =
        read_loop-store_words l rest (replicate 127 0) 0 (sendsize (length text)) arrive
          (out_words-IsEchoed text chars bytes)
          (omega (arith, sendsize_lem (length text) (omega arith), length-out_words wii text))
        ∙ ap (λ (t : Run (List ℕ)). t >>= λ out. done (out, rest)) stores
      where
        stores : store_words (out_words wii text) 0 (replicate 127 0) ≡ done (filled text)
        stores =
            ap (store_words (out_words wii text) 0) cleared-pad
            ∙ store_words-text text [] pad 0 bytes refl
            ∙ ap (λ (t : List ℕ). done t) (sym filled-pad)

    echo_round-text :
        (before polls rest : List ℕ)
        → All (λ v. v ≢ 0) before
        → length before ≤ msg_timeout + 1
        → Polls l (out_words wii text) polls
        → echo_round (filled text) (before ++ 0 ∷ (polls ++ rest))
          ≡ done (some (words_written text, filled text, rest))
    unfolding echo_round exchange_words
    echo_round-text before polls rest others few arrive =
        rw
          (
            strlen-filled text (omega arith) chars,
            wait_clear-passes msg_timeout before (polls ++ rest) others few,
            sends,
            reads polls rest arrive,
          )
          refl

All-weaken : (line : List ℕ) → All IsTyped line → All (λ c. c ≢ 0) line × IsBytes line
All-weaken [] h = (tt, tt)
All-weaken (c ∷ line) h =
    let (chars, bytes) = All-weaken line h.1 in ((h.0.0, chars), (h.0.2, bytes))

-- A line of at most 123 characters, none of them 0, and its newline in `msg`, on a link that yields
-- at most 5001 other values before the 0 that `wait_clear` waits for, and then what the GBA sends
-- for what the round writes, each word after any number of idle polls: the round ends, having
-- written the line's words in order, each with its bytes swapped; `inmsg` is then the same as `msg`;
-- no further value is taken off the link; and the GBA has shown the line and its newline.
pub echo_round-echoes :
    (l : Link) (line before polls rest : List ℕ)
    → All IsTyped line
    → length line ≤ 123
    → All (λ v. v ≢ 0) before
    → length before ≤ msg_timeout + 1
    → Polls l (echo_words (to_gba l (words_written (line ++ 10 ∷ [])))).0 polls
    → (echo_round (filled (line ++ 10 ∷ [])) (before ++ 0 ∷ (polls ++ rest))
        ≡ done (some (words_written (line ++ 10 ∷ []), filled (line ++ 10 ∷ []), rest)))
      × ((echo_words (to_gba l (words_written (line ++ 10 ∷ [])))).1 ≡ map put line ++ newline ∷ [])
echo_round-echoes l line before polls rest typed few_chars others few arrive =
    let text = line ++ 10 ∷ [] in
    let (chars, bytes) = All-weaken line typed in
    let chars' = All-append (λ c. c ≢ 0) line (10 ∷ []) chars (omega arith, tt) in
    let bytes' = All-append (λ c. c < 256) line (10 ∷ []) bytes (omega arith, tt) in
    let fits : length text ≤ 124 = omega (arith, length-append line (10 ∷ [])) in
    (
      echo_round-text text fits l chars' bytes' before polls rest others few
          (subst (λ t. Polls l t polls) (sent_back text fits l chars' bytes') arrive),
      ap (λ (t : List ℕ). (echo_words t).1)
            (to_gba-map l (out_words wii text) (out_words-IsEchoed text chars' bytes'))
          ∙ echo_words-shown line typed,
    )
