-- ===== src/Multiboot/Ready.antt =====
-- The loop of `multiboot` in wiishared/lib/multiboot.h that resets the GBA until it is ready.
use net_bsd_wii_joybus.Base.{
  ℕ, zero, suc, ◌+◌, ◌≤◌, ◌<◌, ◌≡◌, ◌≢◌, refl, arith, Bool-cases, inl, inr, bit_and, Option, none,
  some, ◌==◌, ltb, lt_or_eq_or_gt,
}
use net_bsd_wii_joybus.Server.{done}
use net_bsd_wii_joybus.Multiboot.{mb_max_retry, wait_ready}

-- Whether `cmd_identify` reports a GBA that is ready.
abbrev pub IsReady : ℕ → Type 0
IsReady res = bit_and res 0x1000 ≢ 0

-- The first of the rounds in which the GBA is ready, or none of them.
pub data IsWait (res : ℕ → ℕ) : Option ℕ → Type 0 where
  ready_at :
      (k : ℕ)
      → k ≤ mb_max_retry + 1
      → IsReady (res k)
      → ((j : ℕ) → j < k → bit_and (res j) 0x1000 ≡ 0)
      → IsWait res (some k)
  never_ready : ((j : ℕ) → j ≤ mb_max_retry + 1 → bit_and (res j) 0x1000 ≡ 0) → IsWait res none

module _ (res : ℕ → ℕ) where
  abbrev NotBefore : ℕ → Type 0
  NotBefore count = (j : ℕ) → j < count → bit_and (res j) 0x1000 ≡ 0

  NotBefore-suc :
      (count : ℕ) → NotBefore count → bit_and (res count) 0x1000 ≡ 0 → NotBefore (count + 1)
  NotBefore-suc count h now j less = elim (lt_or_eq_or_gt j count) [
    | inl lt ↦ h j lt
    | inr (inl e) ↦ rw e now
    | inr (inr gt) ↦ absurd (omega arith)
  ]

  wait_ready-IsWait :
      (fuel count : ℕ)
      → count + fuel ≡ mb_max_retry + 2
      → count < mb_max_retry + 2
      → NotBefore count
      → (o : Option ℕ) × (wait_ready fuel res count ≡ done o) × IsWait res o
  unfolding wait_ready
  wait_ready-IsWait zero count total more h = absurd (omega arith)
  wait_ready-IsWait (suc fuel) count total more h =
      elim (Bool-cases (bit_and (res count) 0x1000 == 0)) [
        | inl e ↦
            let now : bit_and (res count) 0x1000 ≡ 0 = ground (arith, e) in
            elim (Bool-cases (ltb mb_max_retry count)) [
              | inl last ↦ (
                none,
                rw (e, last) refl,
                never_ready λ j le. NotBefore-suc count h now j (ground (arith, last, le)),
              )
              | inr early ↦
                  let (o, ran, waited) =
                    wait_ready-IsWait fuel (count + 1) (omega arith) (ground (arith, early))
                      (NotBefore-suc count h now) in
                  (o, rw (e, early) ran, waited)
            ]
        | inr e ↦ (
          some count,
          rw e refl,
          ready_at count (omega arith) (λ zero_bit. absurd (ground (arith, e, zero_bit))) h,
        )
      ]

  -- Whatever the GBA answers, the loop ends: with the first round in which it is ready, one of the
  -- first 10002, or by giving up when it is ready in none of these.
  pub wait_ready-ends :
      (o : Option ℕ) × (wait_ready (mb_max_retry + 2) res 0 ≡ done o) × IsWait res o
  wait_ready-ends =
      wait_ready-IsWait (mb_max_retry + 2) 0 (omega arith) (omega arith)
        λ j less. absurd (omega arith)
