-- ===== src/Performance.antt =====
-- The program that measures the transfer: the Wii's loop in performance_test/wii/main.c and the GBA's
-- in performance_test/gba/src/main.cpp. The clock and the console are not part of the model.
pub mod Leftover
use net_bsd_wii_joybus.Base.{ℕ, zero, suc, ◌+◌, List, [], ◌∷◌, ◌++◌, ◌==◌, ltb, if◌then◌else◌}
use net_bsd_wii_joybus.Server.{Run, done, waits}

-- `while (i < 1024)`, on the values that `gba_read` yields: those that are left.
unfoldable pub measure_loop : List ℕ → ℕ → Run (List ℕ)
measure_loop [] i = if ltb i 1024 then waits else done []
measure_loop (read_in ∷ polls) i =
    let again = measure_loop polls i in
    let counted = measure_loop polls (i + 4) in
    if ltb i 1024 then (if read_in == 0 then again else counted) else done (read_in ∷ polls)

-- The loop that hands `i` and the numbers behind it to `LinkCube::send`, with `left` rounds to go.
unfoldable pub send_numbers : ℕ → ℕ → List ℕ
send_numbers i zero = []
send_numbers i (suc left) = i ∷ send_numbers (i + 1) left

-- What the GBA sends for the words it receives.
unfoldable pub send_all_numbers : List ℕ → List ℕ
send_all_numbers [] = []
send_all_numbers (recv ∷ queue) =
    let rest = send_all_numbers queue in if ltb 0 recv then send_numbers 0 1024 ++ rest else rest
