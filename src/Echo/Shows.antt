-- ===== src/Echo/Shows.antt =====
-- What the GBA sends back and shows of a line.
use net_bsd_wii_joybus.Base.{
  ℕ, ◌<◌, ◌≡◌, ◌≢◌, refl, ap, arith, All, List, [], ◌∷◌, ◌++◌, map, ◌==◌, ==_ne, if◌then◌else◌,
}
use net_bsd_wii_joybus.Wire.{load32, out_words, wii}
use net_bsd_wii_joybus.Wire.Bytes.{IsBytes}
use net_bsd_wii_joybus.Echo.{Shown, put, newline, show_chars, show_word, char_at, echo_words}
use net_bsd_wii_joybus.Echo.Stores.{IsEchoed}

-- A character of a line, before the newline.
abbrev pub IsTyped : ℕ → Type 0
IsTyped c = (c ≢ 0) × (c ≢ 10) × (c < 256)

pub echo_words-sent : (queue : List ℕ) → (echo_words queue).0 ≡ queue
unfolding echo_words
echo_words-sent [] = refl
echo_words-sent (recv ∷ queue) = ap (λ t. recv ∷ t) (echo_words-sent queue)

-- Characters up to a newline.
abbrev show_bytes : List ℕ → List Shown
show_bytes [] = []
show_bytes (c ∷ cs) = let rest = show_bytes cs in if c == 10 then newline ∷ [] else put c ∷ rest

module _ (a b c d : ℕ) (ha : a < 256) (hb : b < 256) (hc : c < 256) (hd : d < 256) where
  chars :
      (char_at (load32 wii a b c d) 24 ≡ a)
      × (char_at (load32 wii a b c d) 16 ≡ b)
      × (char_at (load32 wii a b c d) 8 ≡ c)
      × (char_at (load32 wii a b c d) 0 ≡ d)
  unfolding load32
  chars = (omega arith, omega arith, omega arith, omega arith)

  show_word-bytes : show_word (load32 wii a b c d) ≡ show_bytes (a ∷ b ∷ c ∷ d ∷ [])
  unfolding show_chars
  show_word-bytes = rw (chars.0, chars.1, chars.2, chars.3) refl

-- A line and its newline are shown as they are.
pub echo_words-shown :
    (line : List ℕ)
    → All IsTyped line
    → (echo_words (out_words wii (line ++ 10 ∷ []))).1 ≡ map put line ++ newline ∷ []
unfolding echo_words out_words
echo_words-shown [] h =
    rw (show_word-bytes 10 0 0 0 (omega arith) (omega arith) (omega arith) (omega arith)) refl
echo_words-shown (a ∷ []) h =
    rw (show_word-bytes a 10 0 0 h.0.2 (omega arith) (omega arith) (omega arith), ==_ne a 10 h.0.1)
      refl
echo_words-shown (a ∷ b ∷ []) h =
    rw
      (
        show_word-bytes a b 10 0 h.0.2 h.1.0.2 (omega arith) (omega arith),
        ==_ne a 10 h.0.1,
        ==_ne b 10 h.1.0.1,
      )
      refl
echo_words-shown (a ∷ b ∷ c ∷ []) h =
    rw
      (
        show_word-bytes a b c 10 h.0.2 h.1.0.2 h.1.1.0.2 (omega arith),
        ==_ne a 10 h.0.1,
        ==_ne b 10 h.1.0.1,
        ==_ne c 10 h.1.1.0.1,
      )
      refl
echo_words-shown (a ∷ b ∷ c ∷ d ∷ line) h =
    rw
      (
        show_word-bytes a b c d h.0.2 h.1.0.2 h.1.1.0.2 h.1.1.1.0.2,
        ==_ne a 10 h.0.1,
        ==_ne b 10 h.1.0.1,
        ==_ne c 10 h.1.1.0.1,
        ==_ne d 10 h.1.1.1.0.1,
      )
      (ap (λ t. put a ∷ put b ∷ put c ∷ put d ∷ t) (echo_words-shown line h.1.1.1.1))

word-IsEchoed :
    (a b c d : ℕ) → a ≢ 0 → a < 256 → b < 256 → c < 256 → d < 256 → IsEchoed (load32 wii a b c d)
unfolding load32
word-IsEchoed a b c d some_bit ha hb hc hd = (omega arith, omega arith)

-- No word of a line looks like an idle link.
pub out_words-IsEchoed :
    (text : List ℕ) → All (λ c. c ≢ 0) text → IsBytes text → All IsEchoed (out_words wii text)
unfolding out_words
out_words-IsEchoed [] h small = tt
out_words-IsEchoed (a ∷ []) h small =
    (word-IsEchoed a 0 0 0 h.0 small.0 (omega arith) (omega arith) (omega arith), tt)
out_words-IsEchoed (a ∷ b ∷ []) h small =
    (word-IsEchoed a b 0 0 h.0 small.0 small.1.0 (omega arith) (omega arith), tt)
out_words-IsEchoed (a ∷ b ∷ c ∷ []) h small =
    (word-IsEchoed a b c 0 h.0 small.0 small.1.0 small.1.1.0 (omega arith), tt)
out_words-IsEchoed (a ∷ b ∷ c ∷ d ∷ text) h small = (
  word-IsEchoed a b c d h.0 small.0 small.1.0 small.1.1.0 small.1.1.1.0,
  out_words-IsEchoed text h.1.1.1.1 small.1.1.1.1,
)
