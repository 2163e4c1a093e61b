-- ===== src/Client/Wait.antt =====
-- `wait_for` and `wait_clear` of puffboy_advance/wii/pba_ops.c, on the values that `gba_read` yields
-- one after the other.
use net_bsd_wii_joybus.Base.{
  ℕ, ◌+◌, ◌≤◌, ◌≡◌, ◌≢◌, refl, arith, All, Option, none, some, List, [], ◌∷◌, ◌++◌, ltb, ◌==◌,
  Bool-cases, inl, inr, ==_self, ==_ne, if◌then◌else◌, length,
}
use net_bsd_wii_joybus.Server.{Run, done, waits}

abbrev pub ready_timeout : ℕ
ready_timeout = 100000

abbrev pub msg_timeout : ℕ
msg_timeout = 5000

-- What is left of the values, or `none` where `errx` ends the program.
unfoldable pub wait_for : ℕ → ℕ → ℕ → List ℕ → Run (Option (List ℕ))
wait_for val timeout count [] = waits
wait_for val timeout count (v ∷ polls) =
    let rest = wait_for val timeout (count + 1) polls in
    if v == val then done (some polls) else (if ltb timeout count then done none else rest)

unfoldable pub wait_clear : ℕ → List ℕ → Run (Option (List ℕ))
wait_clear timeout polls = wait_for 0 timeout 0 polls

module _ (val timeout : ℕ) where
  wait_for-passes :
      (count : ℕ) (before rest : List ℕ)
      → All (λ v. v ≢ val) before
      → count + length before ≤ timeout + 1
      → wait_for val timeout count (before ++ val ∷ rest) ≡ done (some rest)
  unfolding wait_for
  wait_for-passes count [] rest others few = rw (==_self val) refl
  wait_for-passes count (v ∷ before) rest others few =
      let later = wait_for-passes (count + 1) before rest others.1 (omega arith) in
      rw (==_ne v val others.0) (ground (arith, later))

  wait_for-ends :
      (count : ℕ) (before rest : List ℕ)
      → All (λ v. v ≢ val) before
      → timeout + 2 ≤ count + length before
      → count ≤ timeout + 1
      → wait_for val timeout count (before ++ rest) ≡ done none
  unfolding wait_for
  wait_for-ends count [] rest others many so_far = absurd (omega arith)
  wait_for-ends count (v ∷ before) rest others many so_far = elim (Bool-cases (ltb timeout count)) [
    | inl late ↦ rw (==_ne v val others.0, late) refl
    | inr early ↦
        rw (==_ne v val others.0, early)
          (wait_for-ends (count + 1) before rest others.1 (omega arith) (ground (arith, early)))
  ]

-- `wait_clear` takes values off the link up to the first 0 and no more, if at most `timeout + 1`
-- other values come before it.
pub wait_clear-passes :
    (timeout : ℕ) (before rest : List ℕ)
    → All (λ v. v ≢ 0) before
    → length before ≤ timeout + 1
    → wait_clear timeout (before ++ 0 ∷ rest) ≡ done (some rest)
unfolding wait_clear
wait_clear-passes timeout before rest others few =
    wait_for-passes 0 timeout 0 before rest others (omega arith)

-- `wait_clear` ends the program when the link yields `timeout + 2` values other than 0 first.
pub wait_clear-ends :
    (timeout : ℕ) (before rest : List ℕ)
    → All (λ v. v ≢ 0) before
    → timeout + 2 ≤ length before
    → wait_clear timeout (before ++ rest) ≡ done none
unfolding wait_clear
wait_clear-ends timeout before rest others many =
    wait_for-ends 0 timeout 0 before rest others (omega arith) (omega arith)
