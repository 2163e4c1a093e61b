-- ===== src/Tests/Multiboot.antt =====
-- The upload of small programs.
use net_bsd_wii_joybus.Base.{
  ℕ, zero, suc, ◌+◌, ◌-◌, ◌*◌, ◌/◌, ◌≡◌, ◌==◌, if◌then◌else◌, arith, true, Option, some, List, [],
  ◌∷◌, ◌++◌, length, replicate, bit_and, bit_xor,
}
use net_bsd_wii_joybus.Wire.{bswap32}
use net_bsd_wii_joybus.Wire.Bytes.{IsBytes}
use net_bsd_wii_joybus.Server.{done, fault}
use net_bsd_wii_joybus.Multiboot.{
  Rom, mb_max_retry, read_rom, key_seed, calckey, docrc, wait_ready, multiboot,
}
use net_bsd_wii_joybus.Multiboot.Crc.{shifts, docrc-shifts}
use net_bsd_wii_joybus.Multiboot.Key.{calckey-masks}
use net_bsd_wii_joybus.Multiboot.Ready.{IsReady, IsWait, wait_ready-ends}
use net_bsd_wii_joybus.Multiboot.Upload.{IsUpload, multiboot-IsUpload, multiboot-short}

docrc-shifts_example : docrc 0x15A0 0xEA00002E ≡ shifts 32 (bit_xor 0x15A0 0xEA00002E)
docrc-shifts_example = docrc-shifts 0x15A0 0xEA00002E (omega arith)

calckey-masks_example :
    calckey 0x1000
    ≡ bit_xor
        (bswap32 (key_seed 0x1000))
        (if bit_and (key_seed 0x1000) 0x200 == 0 then 0x4B617761 else 0x7365646F)
calckey-masks_example = calckey-masks 0x1000

-- A GBA that is ready in the fourth round.
abbrev identified : ℕ → ℕ
identified n = if n == 3 then 0x00041000 else 0

wait_ready-ends_example :
    (o : Option ℕ) × (wait_ready (mb_max_retry + 2) identified 0 ≡ done o) × IsWait identified o
wait_ready-ends_example = wait_ready-ends identified

identified-IsReady : IsReady (identified 3)
identified-IsReady e = absurd (omega (arith, e))

abbrev program : List ℕ
program = replicate 197 7

sevens-IsBytes : (n : ℕ) → IsBytes (replicate n 7)
sevens-IsBytes zero = tt
sevens-IsBytes (suc n) = (omega arith, sevens-IsBytes n)

multiboot-IsUpload_example :
    (r : Rom) × (out : List ℕ) × (read_rom (some program) true ≡ some r)
    × (r.buf ≡ program ++ replicate (r.size - length program) 0)
    × (r.size ≡ (length program + 7) / 8 * 8)
    × (multiboot identified 0x12345678 r ≡ done (0, out))
    × IsUpload 0x12345678 r.buf r.size out
multiboot-IsUpload_example =
    multiboot-IsUpload identified 0x12345678 program 3 (sevens-IsBytes 197) (omega arith)
      (omega arith) (omega arith) identified-IsReady

multiboot-short_example :
    (r : Rom) × (read_rom (some (1 ∷ 2 ∷ [])) true ≡ some r) × (multiboot identified 0 r ≡ fault)
multiboot-short_example =
    multiboot-short identified 0 (1 ∷ 2 ∷ []) 3 (omega arith) (omega arith) identified-IsReady
