-- ===== src/Echo/Words.antt =====
-- The words of a line: what the Wii writes for it, and what it stores for the answers.
use net_bsd_wii_joybus.Base.{
  ℕ, zero, suc, ◌+◌, ◌*◌, ◌/◌, ◌^◌, ◌<◌, ◌≤◌, ◌≡◌, ◌≢◌, refl, ap, ◌∙◌, sym, arith, All, List, [],
  ◌∷◌, ◌++◌, map, ==_ne, drop, length, bit_and_top,
}
use net_bsd_wii_joybus.Wire.{bswap32, load32, out_words, wii}
use net_bsd_wii_joybus.Server.{done}
use net_bsd_wii_joybus.Echo.{strlen, sendsize, load_word, send_loop}

pub strlen_lem :
    (text pad : List ℕ) → All (λ c. c ≢ 0) text → strlen (text ++ 0 ∷ pad) ≡ done (length text)
unfolding strlen
strlen_lem [] pad h = refl
strlen_lem (c ∷ text) pad h = rw (==_ne c 0 h.0, strlen_lem text pad h.1) refl

pub sendsize_lem : (n : ℕ) → n < 2 ^ 16 → sendsize n ≡ (n + 3) / 4 * 4
unfolding sendsize
sendsize_lem n h = omega (arith, bit_and_top 2 30 (n + 3) (omega arith))

drop-nil : (n : ℕ) → drop {A = ℕ} n [] ≡ []
drop-nil zero = refl
drop-nil (suc n) = refl

drop-drop : (xs : List ℕ) (n m : ℕ) → drop (n + m) xs ≡ drop m (drop n xs)
drop-drop xs zero m = ap (λ (t : ℕ). drop t xs) (omega arith)
drop-drop [] (suc n) m = drop-nil (suc n + m) ∙ sym (drop-nil m)
drop-drop (x ∷ xs) (suc n) m =
    ap (λ (t : ℕ). drop t (x ∷ xs)) (let e : suc n + m ≡ suc (n + m) = omega arith in e)
    ∙ drop-drop xs n m

-- The pointer moves on by a word.
pub behind_word :
    (b0 b1 b2 b3 i : ℕ) (xs rest : List ℕ)
    → drop i xs ≡ b0 ∷ b1 ∷ b2 ∷ b3 ∷ rest
    → drop (i + 4) xs ≡ rest
behind_word b0 b1 b2 b3 i xs rest e = drop-drop xs i 4 ∙ ap (λ (t : List ℕ). drop 4 t) e

-- A round of the loop that loads a word of four bytes.
send_loop-step :
    (fuel i size b0 b1 b2 b3 : ℕ) (msg rest out : List ℕ)
    → i < size
    → drop i msg ≡ b0 ∷ b1 ∷ b2 ∷ b3 ∷ rest
    → send_loop fuel msg (i + 4) size ≡ done out
    → send_loop (suc fuel) msg i size ≡ done (bswap32 (load32 wii b0 b1 b2 b3) ∷ out)
unfolding send_loop load_word
send_loop-step fuel i size b0 b1 b2 b3 msg rest out more at_i later =
    ground (arith, more, at_i, later)

send_loop-end : (fuel i size : ℕ) (msg : List ℕ) → size ≤ i → send_loop fuel msg i size ≡ done []
unfolding send_loop
send_loop-end zero i size msg le = ground arith
send_loop-end (suc fuel) i size msg le = ground arith

-- The loop writes the words of the text, the last one filled up with zeros from behind it.
pub send_loop-words :
    (text pad msg : List ℕ) (fuel i size : ℕ)
    → drop i msg ≡ text ++ 0 ∷ 0 ∷ 0 ∷ pad
    → size ≡ i + (length text + 3) / 4 * 4
    → length text ≤ fuel
    → send_loop fuel msg i size ≡ done (map bswap32 (out_words wii text))
unfolding out_words
send_loop-words [] pad msg fuel i size at_i is_size le = send_loop-end fuel i size msg (omega arith)
send_loop-words (a ∷ text) pad msg zero i size at_i is_size le = absurd (omega arith)
send_loop-words (a ∷ []) pad msg (suc fuel) i size at_i is_size le =
    send_loop-step fuel i size a 0 0 0 msg pad [] (omega arith) at_i
      (send_loop-end fuel (i + 4) size msg (omega arith))
send_loop-words (a ∷ b ∷ []) pad msg (suc fuel) i size at_i is_size le =
    send_loop-step fuel i size a b 0 0 msg (0 ∷ pad) [] (omega arith) at_i
      (send_loop-end fuel (i + 4) size msg (omega arith))
send_loop-words (a ∷ b ∷ c ∷ []) pad msg (suc fuel) i size at_i is_size le =
    send_loop-step fuel i size a b c 0 msg (0 ∷ 0 ∷ pad) [] (omega arith) at_i
      (send_loop-end fuel (i + 4) size msg (omega arith))
send_loop-words (a ∷ b ∷ c ∷ d ∷ text) pad msg (suc fuel) i size at_i is_size le =
    send_loop-step fuel i size a b c d msg (text ++ 0 ∷ 0 ∷ 0 ∷ pad) _ (omega arith) at_i (
      send_loop-words text pad msg fuel (i + 4) size
        (behind_word a b c d i msg (text ++ 0 ∷ 0 ∷ 0 ∷ pad) at_i) (omega arith) (omega arith))
