-- ===== src/Echo/Stores.antt =====
-- What the loop of echo.c stores in `inmsg` for the words that come back.
use net_bsd_wii_joybus.Base.{
  ℕ, ◌+◌, ◌*◌, ◌^◌, ◌<◌, ◌≤◌, ◌≡◌, ◌≢◌, refl, ap, ◌∙◌, sym, arith, All, List, [], ◌∷◌, ◌++◌, map,
  ltb, drop, take, length, length-append, take-append, drop-append, append_assoc, false,
}
use net_bsd_wii_joybus.Wire.{bswap32, load32, split32, out_words, wii, gba}
use net_bsd_wii_joybus.Wire.Bytes.{IsBytes, split32-load32}
use net_bsd_wii_joybus.Wire.Link.{
  Link, Polls, finished, idle, fetched, gba_read, gba_read-answer, bswap32_twice,
}
use net_bsd_wii_joybus.Server.{Run, done, fault, spins, waits, ◌>>=◌}
use net_bsd_wii_joybus.Echo.{store_word, read_loop}
use net_bsd_wii_joybus.Echo.Words.{behind_word}

-- The words one after the other, from byte `i` on.
abbrev pub store_words : List ℕ → ℕ → List ℕ → Run (List ℕ)
store_words [] i buf = done buf
store_words (w ∷ ws) i buf = store_word buf i w >>= λ buf'. store_words ws (i + 4) buf'

-- A word that is not taken for an idle link.
abbrev pub IsEchoed : ℕ → Type 0
IsEchoed w = (w ≢ 0) × (w < 2 ^ 32)

pub bswap32-ne : (w : ℕ) → IsEchoed w → bswap32 w ≢ 0
bswap32-ne w (some_bit, small) e =
    some_bit (sym (bswap32_twice w small) ∙ ap bswap32 e ∙ (unfold bswap32 in refl))

read_loop-end :
    (polls inmsg : List ℕ) (i size : ℕ)
    → size ≤ i
    → read_loop polls i size inmsg ≡ done (inmsg, polls)
unfolding read_loop
read_loop-end [] inmsg i size le = ground arith
read_loop-end (v ∷ polls) inmsg i size le = ground arith

read_loop-idle :
    (v i size : ℕ) (polls inmsg : List ℕ)
    → v ≡ 0
    → i < size
    → read_loop (v ∷ polls) i size inmsg ≡ read_loop polls i size inmsg
unfolding read_loop
read_loop-idle v i size polls inmsg e more = ground (arith, e, more)

read_loop-word :
    (v w i size : ℕ) (polls inmsg : List ℕ)
    → v ≢ 0
    → bswap32 v ≡ w
    → i < size
    → read_loop (v ∷ polls) i size inmsg
      ≡ (store_word inmsg i w >>= λ inmsg'. read_loop polls (i + 4) size inmsg')
unfolding read_loop
read_loop-word v w i size polls inmsg ne e more = ground (arith, ne, e, more)

store-bind :
    (r : Run (List ℕ)) (f : List ℕ → Run (List ℕ)) (g : List ℕ → Run (List ℕ × List ℕ))
    (rest : List ℕ)
    → ((buf : List ℕ) → g buf ≡ (f buf >>= λ out. done (out, rest)))
    → (r >>= g) ≡ (r >>= f >>= λ out. done (out, rest))
store-bind (done a) f g rest h = h a
store-bind fault f g rest h = refl
store-bind spins f g rest h = refl
store-bind waits f g rest h = refl

-- The loop stores the words, however many polls find the link idle before each of them.
pub read_loop-store_words :
    (l : Link) {ws polls : List ℕ} (rest inmsg : List ℕ) (i size : ℕ)
    → Polls l ws polls
    → All IsEchoed ws
    → size ≡ i + length ws * 4
    → read_loop (polls ++ rest) i size inmsg ≡ (store_words ws i inmsg >>= λ out. done (out, rest))
read_loop-store_words l rest inmsg i size finished h is_size =
    read_loop-end rest inmsg i size (omega arith)
read_loop-store_words l rest inmsg i size (idle {polls} more) h is_size =
    read_loop-idle (gba_read (l.answer 0)) i size (polls ++ rest) inmsg
      (gba_read-answer l 0 ∙ (unfold bswap32 in refl)) (omega arith)
    ∙ read_loop-store_words l rest inmsg i size more h is_size
read_loop-store_words l rest inmsg i size (fetched w {pkts} {polls} more) h is_size =
    read_loop-word (gba_read (l.answer w)) w i size (polls ++ rest) inmsg
      (λ e. bswap32-ne w h.0 (sym (gba_read-answer l w) ∙ e))
      (ap bswap32 (gba_read-answer l w) ∙ bswap32_twice w h.0.1) (omega arith)
    ∙ store-bind (store_word inmsg i w) (λ buf. store_words pkts (i + 4) buf)
        (λ buf. read_loop (polls ++ rest) (i + 4) size buf) rest
        λ buf. read_loop-store_words l rest buf (i + 4) size more h.1 (omega arith)

-- A word over four bytes behind the first `i`.
store_word-step :
    (pre z : List ℕ) (i w a b c d : ℕ)
    → i ≡ length pre
    → split32 gba w ≡ a ∷ b ∷ c ∷ d ∷ []
    → store_word (pre ++ 0 ∷ 0 ∷ 0 ∷ 0 ∷ z) i w ≡ done (pre ++ a ∷ b ∷ c ∷ d ∷ z)
unfolding store_word
store_word-step pre z i w a b c d at_i bytes =
    let buf = pre ++ 0 ∷ 0 ∷ 0 ∷ 0 ∷ z in
    let front : take i buf ≡ pre = take-append pre (0 ∷ 0 ∷ 0 ∷ 0 ∷ z) i at_i in
    let behind : drop (i + 4) buf ≡ z =
      behind_word 0 0 0 0 i buf z (drop-append pre (0 ∷ 0 ∷ 0 ∷ 0 ∷ z) i at_i) in
    let fits : ltb (length buf) (i + 4) ≡ false =
      ground (arith, length-append pre (0 ∷ 0 ∷ 0 ∷ 0 ∷ z), at_i) in
    rw (fits, front, behind, bytes) refl

-- A line's words over zeros: the line is there, with the zeros behind it.
pub store_words-text :
    (text pre pad : List ℕ) (i : ℕ)
    → IsBytes text
    → i ≡ length pre
    → store_words (out_words wii text) i (pre ++ (map (λ c. 0) text ++ 0 ∷ 0 ∷ 0 ∷ pad))
      ≡ done (pre ++ (text ++ 0 ∷ 0 ∷ 0 ∷ pad))
unfolding out_words
store_words-text [] pre pad i h at_i = refl
store_words-text (a ∷ []) pre pad i h at_i =
    rw
      (store_word-step pre pad i (load32 wii a 0 0 0) a 0 0 0 at_i
        (split32-load32 wii a 0 0 0 h.0 (omega arith) (omega arith) (omega arith)))
      refl
store_words-text (a ∷ b ∷ []) pre pad i h at_i =
    rw
      (store_word-step pre (0 ∷ pad) i (load32 wii a b 0 0) a b 0 0 at_i
        (split32-load32 wii a b 0 0 h.0 h.1.0 (omega arith) (omega arith)))
      refl
store_words-text (a ∷ b ∷ c ∷ []) pre pad i h at_i =
    rw
      (store_word-step pre (0 ∷ 0 ∷ pad) i (load32 wii a b c 0) a b c 0 at_i
        (split32-load32 wii a b c 0 h.0 h.1.0 h.1.1.0 (omega arith)))
      refl
store_words-text (a ∷ b ∷ c ∷ d ∷ text) pre pad i h at_i =
    let z = map (λ c. 0) text ++ 0 ∷ 0 ∷ 0 ∷ pad in
    let four : List ℕ = a ∷ b ∷ c ∷ d ∷ [] in
    let later =
      store_words-text text (pre ++ four) pad (i + 4) h.1.1.1.1
        (omega (arith, length-append pre four, at_i)) in
    rw
      (store_word-step pre z i (load32 wii a b c d) a b c d at_i
        (split32-load32 wii a b c d h.0 h.1.0 h.1.1.0 h.1.1.1.0))
      (ap (λ t. store_words (out_words wii text) (i + 4) t) (sym (append_assoc pre four z))
        ∙ later
        ∙ ap (λ (t : List ℕ). done t) (append_assoc pre four (text ++ 0 ∷ 0 ∷ 0 ∷ pad)))
