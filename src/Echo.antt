-- ===== src/Echo.antt =====
-- The echo program: the Wii's loop in echo/wii/echo.c (performance_test/echo.c is the same text) and
-- the GBA's in echo/gba/src/main.cpp. `wait_clear` is that of Client.Wait, which echo.c has word for
-- word. `fgets`, the terminal, the LinkCube library and the sound are not part of the model: a line
-- is what `fgets` stored, and a received word is what `LinkCube::read` returned.
pub mod Words
pub mod Stores
pub mod Shows
pub mod Round
pub mod Overrun
use net_bsd_wii_joybus.Base.{
  ℕ, zero, suc, ◌+◌, ◌-◌, ◌/◌, ◌%◌, ◌^◌, bit_and, List, [], ◌∷◌, ◌++◌, none, some, Option,
  if◌then◌else◌, ltb, ◌==◌, drop, length, replicate,
}
use net_bsd_wii_joybus.Wire.{bswap32, load32, split32, wii, gba}
use net_bsd_wii_joybus.Server.{Run, done, fault, spins, waits, ◌>>=◌}
use net_bsd_wii_joybus.Server.Blocks.{splice}
use net_bsd_wii_joybus.Client.Wait.{wait_clear, msg_timeout}

-- `sizeof(msg)`, and of `inmsg`.
abbrev pub msg_size : ℕ
msg_size = 127

-- `msg` after `memset` and an `fgets` that stored `text`.
abbrev pub filled : List ℕ → List ℕ
filled text = text ++ replicate (msg_size - length text) 0

-- `strlen`: without a zero it reads past the buffer.
unfoldable pub strlen : List ℕ → Run ℕ
strlen [] = fault
strlen (c ∷ cs) = let rest = strlen cs in if c == 0 then done 0 else rest >>= λ n. done (suc n)

-- `(msg_len+3)&~3`.
unfoldable pub sendsize : ℕ → ℕ
sendsize msg_len = bit_and (msg_len + 3) (2 ^ 32 - 4)

-- `*(uint32_t *)p`, for a `p` with these bytes of its buffer behind it.
unfoldable pub load_word : List ℕ → Run ℕ
load_word (b0 ∷ b1 ∷ b2 ∷ b3 ∷ rest) = done (load32 wii b0 b1 b2 b3)
load_word _ = fault

-- The loop that writes, from `i` on and with fuel: the values handed to `gba_write`.
unfoldable pub send_loop : ℕ → List ℕ → ℕ → ℕ → Run (List ℕ)
send_loop zero msg i size = if ltb i size then spins else done []
send_loop (suc fuel) msg i size =
    let rest = send_loop fuel msg (i + 4) size in
    let round : Run (List ℕ) =
      load_word (drop i msg) >>= λ w. rest >>= λ out. done (bswap32 w ∷ out) in
    if ltb i size then round else done []

-- `((uint32_t *)p)[0] = v` at byte `i` of a buffer.
unfoldable pub store_word : List ℕ → ℕ → ℕ → Run (List ℕ)
store_word buf i v =
    if ltb (length buf) (i + 4) then fault else done (splice buf i 4 (split32 gba v))

-- The loop that reads, on the values that `gba_read` yields: `inmsg`, and the values that are left.
unfoldable pub read_loop : List ℕ → ℕ → ℕ → List ℕ → Run (List ℕ × List ℕ)
read_loop [] i size inmsg = if ltb i size then waits else done (inmsg, [])
read_loop (v ∷ polls) i size inmsg =
    let again = read_loop polls i size inmsg in
    let stored : Run (List ℕ × List ℕ) =
      store_word inmsg i (bswap32 v) >>= λ inmsg'. read_loop polls (i + 4) size inmsg' in
    if ltb i size then (if v == 0 then again else stored) else done (inmsg, v ∷ polls)

-- What follows `wait_clear`: the values written, `inmsg`, and the values of `gba_read` that are left.
unfoldable pub exchange_words :
    List ℕ → ℕ → Option (List ℕ) → Run (Option (List ℕ × List ℕ × List ℕ))
exchange_words msg size none = done none
exchange_words msg size (some polls) = do
  out ← send_loop size msg 0 size
  (inmsg, rest) ← read_loop polls 0 size (replicate msg_size 0)
  done (some (out, inmsg, rest))

-- One round of `for(;;)`, for a line in `msg`; `none` where `errx` ends the program.
unfoldable pub echo_round : List ℕ → List ℕ → Run (Option (List ℕ × List ℕ × List ℕ))
echo_round msg polls = do
  msg_len ← strlen msg
  cleared ← wait_clear msg_timeout polls
  exchange_words msg (sendsize msg_len) cleared

-- What the GBA's screen is told: `tte_putc`, or `tte_write("\n")` with the sound.
pub data Shown : Type 0 where
  put : ℕ → Shown
  newline : Shown

-- `(u8)(recv >> (32 - (i+1)*8) & 0xFF)`.
abbrev pub char_at : ℕ → ℕ → ℕ
char_at recv shift = recv / 2 ^ shift % 256

-- The loop over the characters of a word: it ends at a newline. The list is of the shifts to come.
unfoldable pub show_chars : ℕ → List ℕ → List Shown
show_chars recv [] = []
show_chars recv (shift ∷ shifts) =
    let rest = show_chars recv shifts in
    if char_at recv shift == 10 then newline ∷ [] else put (char_at recv shift) ∷ rest

abbrev pub show_word : ℕ → List Shown
show_word recv = show_chars recv (24 ∷ 16 ∷ 8 ∷ 0 ∷ [])

-- `while (linkCube->canRead())`: what is handed to `LinkCube::send`, and what is shown.
unfoldable pub echo_words : List ℕ → List ℕ × List Shown
echo_words [] = ([], [])
echo_words (recv ∷ queue) =
    let (sent, shown) = echo_words queue in (recv ∷ sent, show_word recv ++ shown)
