-- ===== src/Wire/Bytes.antt =====
-- Bytes to words and back: the sender's order and the other side's stores.
use net_bsd_wii_joybus.Base.{
  ℕ, ◌+◌, ◌/◌, ◌^◌, ◌<◌, ◌≡◌, refl, arith, All, List, [], ◌∷◌, length, take, ap,
}
use net_bsd_wii_joybus.Wire.{Platform, wii, gba, other, load32, out_words, split32, split_words}
use net_bsd_wii_joybus.Wire.Rounds.{IsWords}

abbrev pub IsBytes : List ℕ → Type 0
IsBytes = All (λ b. b < 256)

pub load32-lt :
    (p : Platform) (a b c d : ℕ) → a < 256 → b < 256 → c < 256 → d < 256 → load32 p a b c d < 2 ^ 32
unfolding load32
load32-lt wii a b c d ha hb hc hd = omega arith
load32-lt gba a b c d ha hb hc hd = omega arith

-- What one side loads as a word the other side stores as the same four bytes.
pub split32-load32 :
    (p : Platform) (a b c d : ℕ)
    → a < 256
    → b < 256
    → c < 256
    → d < 256
    → split32 (other p) (load32 p a b c d) ≡ a ∷ b ∷ c ∷ d ∷ []
unfolding load32 split32
split32-load32 wii a b c d ha hb hc hd = ground arith
split32-load32 gba a b c d ha hb hc hd = ground arith

pub out_words-IsWords : (p : Platform) (req : List ℕ) → IsBytes req → IsWords (out_words p req)
unfolding out_words
out_words-IsWords p [] h = tt
out_words-IsWords p (a ∷ []) h =
    (load32-lt p a 0 0 0 h.0 (omega arith) (omega arith) (omega arith), tt)
out_words-IsWords p (a ∷ b ∷ []) h = (load32-lt p a b 0 0 h.0 h.1.0 (omega arith) (omega arith), tt)
out_words-IsWords p (a ∷ b ∷ c ∷ []) h = (load32-lt p a b c 0 h.0 h.1.0 h.1.1.0 (omega arith), tt)
out_words-IsWords p (a ∷ b ∷ c ∷ d ∷ rest) h =
    (load32-lt p a b c d h.0 h.1.0 h.1.1.0 h.1.1.1.0, out_words-IsWords p rest h.1.1.1.1)

pub length-out_words :
    (p : Platform) (req : List ℕ) → length (out_words p req) ≡ (length req + 3) / 4
unfolding out_words
length-out_words p [] = omega arith
length-out_words p (a ∷ []) = omega arith
length-out_words p (a ∷ b ∷ []) = omega arith
length-out_words p (a ∷ b ∷ c ∷ []) = omega arith
length-out_words p (a ∷ b ∷ c ∷ d ∷ rest) = omega (arith, length-out_words p rest)

pub take-split_words :
    (p : Platform) (req : List ℕ)
    → IsBytes req
    → take (length req) (split_words (other p) (out_words p req)) ≡ req
unfolding out_words split_words
take-split_words p [] h = refl
take-split_words p (a ∷ []) h =
    rw (split32-load32 p a 0 0 0 h.0 (omega arith) (omega arith) (omega arith)) refl
take-split_words p (a ∷ b ∷ []) h =
    rw (split32-load32 p a b 0 0 h.0 h.1.0 (omega arith) (omega arith)) refl
take-split_words p (a ∷ b ∷ c ∷ []) h =
    rw (split32-load32 p a b c 0 h.0 h.1.0 h.1.1.0 (omega arith)) refl
take-split_words p (a ∷ b ∷ c ∷ d ∷ rest) h =
    rw (split32-load32 p a b c d h.0 h.1.0 h.1.1.0 h.1.1.1.0)
      (ap (λ (t : List ℕ). a ∷ b ∷ c ∷ d ∷ t) (take-split_words p rest h.1.1.1.1))
