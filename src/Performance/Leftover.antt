-- ===== src/Performance/Leftover.antt =====
-- How much of an answer the Wii takes.
use mathlib.Core.Path.{subst}
use net_bsd_wii_joybus.Base.{
  append-nil, ℕ, zero, suc, ◌+◌, ◌*◌, ◌^◌, ◌<◌, ◌≤◌, ◌≡◌, ◌≢◌, refl, sym, ap, ◌∙◌, arith, All, List,
  [], ◌∷◌, ◌++◌, length,
}
use net_bsd_wii_joybus.Wire.{bswap32}
use net_bsd_wii_joybus.Wire.Link.{
  Link, Polls, finished, idle, fetched, gba_read, gba_read-answer, bswap32_twice, to_gba,
  received-gba_write,
}
use net_bsd_wii_joybus.Server.{done}
use net_bsd_wii_joybus.Echo.Stores.{IsEchoed, bswap32-ne}
use net_bsd_wii_joybus.Performance.{measure_loop, send_numbers, send_all_numbers}

measure_loop-end : (polls : List ℕ) (i : ℕ) → 1024 ≤ i → measure_loop polls i ≡ done polls
unfolding measure_loop
measure_loop-end [] i le = ground (arith, le)
measure_loop-end (v ∷ polls) i le = ground (arith, le)

measure_loop-idle :
    (v : ℕ) (polls : List ℕ) (i : ℕ)
    → v ≡ 0
    → i < 1024
    → measure_loop (v ∷ polls) i ≡ measure_loop polls i
unfolding measure_loop
measure_loop-idle v polls i e more = ground (arith, e, more)

measure_loop-counted :
    (v : ℕ) (polls : List ℕ) (i : ℕ)
    → v ≢ 0
    → i < 1024
    → measure_loop (v ∷ polls) i ≡ measure_loop polls (i + 4)
unfolding measure_loop
measure_loop-counted v polls i ne more = ground (arith, ne, more)

module _ (l : Link) where
  no_value : gba_read (l.answer 0) ≡ 0
  no_value = gba_read-answer l 0 ∙ (unfold bswap32 in refl)

  measure_loop-values :
      {ws polls : List ℕ} (rest : List ℕ) (i : ℕ)
      → Polls l ws polls
      → All IsEchoed ws
      → i + length ws * 4 ≡ 1024
      → measure_loop (polls ++ rest) i ≡ done rest
  measure_loop-values rest i finished h e = measure_loop-end rest i (omega (arith, e))
  measure_loop-values rest i (idle {polls} more) h e =
      measure_loop-idle (gba_read (l.answer 0)) (polls ++ rest) i no_value (omega (arith, e))
      ∙ measure_loop-values rest i more h e
  measure_loop-values rest i (fetched w {polls} more) h e =
      measure_loop-counted (gba_read (l.answer w)) (polls ++ rest) i
        (λ z. bswap32-ne w h.0 (sym (gba_read-answer l w) ∙ z)) (omega (arith, e))
      ∙ measure_loop-values rest (i + 4) more h.1 (omega (arith, e))

  -- The first number is 0, which looks like an idle link.
  measure_loop-numbers :
      {ws polls : List ℕ} (rest : List ℕ)
      → Polls l (0 ∷ ws) polls
      → All IsEchoed ws
      → length ws * 4 ≡ 1024
      → measure_loop (polls ++ rest) 0 ≡ done rest
  measure_loop-numbers rest (idle {polls} more) h e =
      measure_loop-idle (gba_read (l.answer 0)) (polls ++ rest) 0 no_value (omega arith)
      ∙ measure_loop-numbers rest more h e
  measure_loop-numbers rest (fetched w {polls} more) h e =
      measure_loop-idle (gba_read (l.answer 0)) (polls ++ rest) 0 no_value (omega arith)
      ∙ measure_loop-values rest 0 more h (omega (arith, e))

send_numbers-IsEchoed :
    (left i : ℕ) → 0 < i → i + left < 2 ^ 32 → All IsEchoed (send_numbers i left)
unfolding send_numbers
send_numbers-IsEchoed zero i pos small = tt
send_numbers-IsEchoed (suc left) i pos small = (
  (omega (arith, pos), omega (arith, small)),
  send_numbers-IsEchoed left (i + 1) (omega arith) (omega (arith, small)),
)

length-send_numbers : (left i : ℕ) → length (send_numbers i left) ≡ left
unfolding send_numbers
length-send_numbers zero i = refl
length-send_numbers (suc left) i = ap suc (length-send_numbers left (i + 1))

send_numbers-split :
    (n m i j : ℕ) → j ≡ i + n → send_numbers i (n + m) ≡ send_numbers i n ++ send_numbers j m
unfolding send_numbers
send_numbers-split zero m i j e =
    ap (λ (t : ℕ). send_numbers i t) (let z : 0 + m ≡ m = omega arith in z)
    ∙ ap (λ (t : ℕ). send_numbers t m) (omega (arith, e))
send_numbers-split (suc n) m i j e =
    ap (λ (t : ℕ). send_numbers i t) (let z : suc n + m ≡ suc (n + m) = omega arith in z)
    ∙ ap (λ t. i ∷ t) (send_numbers-split n m (i + 1) j (omega (arith, e)))

send_all_numbers-answer :
    (l : Link) → send_all_numbers (to_gba l (bswap32 1 ∷ [])) ≡ send_numbers 0 1024
unfolding send_all_numbers to_gba
send_all_numbers-answer l =
    rw (received-gba_write l (bswap32 1), bswap32_twice 1 (omega arith))
      (append-nil (send_numbers 0 1024))

-- One measurement on a link that yields the first 257 numbers of the GBA's answer, each after any
-- number of idle polls: the GBA sends these and 767 more for the word that the Wii writes, and the
-- Wii's loop ends behind the 257, so that the others are left on the link.
pub measure_loop-leaves :
    (l : Link) (polls rest : List ℕ)
    → Polls l (send_numbers 0 257) polls
    → (send_all_numbers (to_gba l (bswap32 1 ∷ [])) ≡ send_numbers 0 257 ++ send_numbers 257 767)
      × (measure_loop (polls ++ rest) 0 ≡ done rest)
measure_loop-leaves l polls rest arrive = (
  send_all_numbers-answer l ∙ send_numbers-split 257 767 0 257 (omega arith),
  measure_loop-numbers l rest (subst (λ t. Polls l t polls) first_number arrive)
      (send_numbers-IsEchoed 256 1 (omega arith) (omega arith))
      (omega (arith, length-send_numbers 256 1)),
)
  where
    first_number : send_numbers 0 257 ≡ 0 ∷ send_numbers 1 256
    first_number = send_numbers-split 1 256 0 1 (omega arith) ∙ (unfold send_numbers in refl)
