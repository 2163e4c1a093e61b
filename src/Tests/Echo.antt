-- ===== src/Tests/Echo.antt =====
-- A line of the echo program, and one that is too long.
use mathlib.Core.Path.{subst}
use net_bsd_wii_joybus.Wire.{out_words, bswap32, split32, load32}
use net_bsd_wii_joybus.Base.{
  ℕ, ◌≡◌, ◌≢◌, refl, sym, arith, All, some, List, [], ◌∷◌, ◌++◌, map, replicate,
}
use net_bsd_wii_joybus.Wire.Link.{Polls, finished, idle, fetched, gba_read, gba_write, to_gba}
use net_bsd_wii_joybus.Server.{done, fault}
use net_bsd_wii_joybus.Echo.{put, newline, filled, echo_round, echo_words}
use net_bsd_wii_joybus.Echo.Round.{words_written, echo_round-echoes}
use net_bsd_wii_joybus.Echo.Overrun.{echo_round-fault}
use net_bsd_wii_joybus.Tests.Wire.{link, received_bytes}

-- "hello" and a newline.
abbrev line : List ℕ
line = 104 ∷ 101 ∷ 108 ∷ 108 ∷ 111 ∷ []

abbrev text : List ℕ
text = line ++ 10 ∷ []

-- The first poll finds nothing.
abbrev polls : List ℕ
polls =
    gba_read (link.answer 0)
    ∷ gba_read (link.answer 1751477356)
    ∷ gba_read (link.answer 1862926336)
    ∷ []

sent_back : (echo_words (to_gba link (words_written text))).0 ≡ 1751477356 ∷ 1862926336 ∷ []
unfolding echo_words to_gba out_words bswap32 gba_write split32 load32 received_bytes
sent_back = refl

echo_round-echoes_example :
    (echo_round (filled text) ((7 ∷ []) ++ 0 ∷ (polls ++ 5 ∷ []))
      ≡ done (some (words_written text, filled text, 5 ∷ [])))
    × ((echo_words (to_gba link (words_written text))).1 ≡ map put line ++ newline ∷ [])
echo_round-echoes_example =
    echo_round-echoes link line (7 ∷ []) polls (5 ∷ []) (omega arith) (omega arith) (omega arith)
      (omega arith)
      (subst (λ t. Polls link t polls) (sym sent_back)
        (idle (fetched 1751477356 (fetched 1862926336 finished))))

too_long : All (λ (c : ℕ). c ≢ 0) (replicate 125 97)
too_long = omega arith

echo_round-fault_example : echo_round (filled (replicate 125 97)) ((7 ∷ []) ++ 0 ∷ 5 ∷ []) ≡ fault
echo_round-fault_example =
    echo_round-fault (replicate 125 97) (7 ∷ []) (5 ∷ []) too_long (omega arith) (omega arith)
      (omega arith) (omega arith)
