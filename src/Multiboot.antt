-- ===== src/Multiboot.antt =====
-- The upload of a program to the GBA: wiishared/lib/multiboot.h. `gba_write`, `gba_read`,
-- `cmd_reset` and `cmd_identify` are calls of the port: what they read is an argument, what they
-- write is part of the result. The Wii is the big-endian side.
pub mod Crc
pub mod Key
pub mod Ready
pub mod Send
pub mod Upload
use net_bsd_wii_joybus.Base.{
  ℕ, zero, suc, ◌+◌, ◌-◌, ◌*◌, ◌/◌, ◌%◌, ◌^◌, bit_and, bit_or, bit_xor, Bool, Option, none, some,
  List, [], ◌∷◌, ◌++◌, ltb, ◌==◌, if◌then◌else◌, length, replicate,
}
use net_bsd_wii_joybus.Wire.{wii, gba, bswap32, load32}
use net_bsd_wii_joybus.Server.{Run, done, fault, spins, ◌>>=◌}

abbrev pub mb_max_retry : ℕ
mb_max_retry = 10000

pub record Rom : Type 0 where
  pub buf : List ℕ
  pub size : ℕ

-- `(n+7) & ~7` on 32 bits.
unfoldable pub round8 : ℕ → ℕ
round8 n = bit_and (n + 7) (2 ^ 32 - 8)

-- `read_rom`: the bytes of the file, if it opens, and whether `calloc` succeeds.
unfoldable pub read_rom : Option (List ℕ) → Bool → Option Rom
read_rom none allocates = none
read_rom (some bytes) allocates =
    let size = round8 (length bytes) in
    if allocates
    then some (record { buf = bytes ++ replicate (size - length bytes) 0; size = size })
    else none

-- `res3` of `calckey`, as it is after the last `|=`.
unfoldable pub key_seed : ℕ → ℕ
key_seed bytes =
    let size = (bytes + 2 ^ 32 - 0x200) % 2 ^ 32 / 2 ^ 3 in
    let low = bit_or (bit_and size 0x3F80 * 2) (bit_and size 0x4000 * 2 ^ 2) in
    let res2 = bit_or (bit_or low (bit_and size 0x7F)) 0x380000 in
    let res3 = (res2 / 2 ^ 8 + res2 / 2 ^ 0x10 + res2) * 2 ^ 24 % 2 ^ 32 in
    bit_or (bit_or res3 res2) 0x80808080

-- The four bytes of a seed, each with its mask, the lowest one on top.
unfoldable pub masked_key : ℕ → ℕ → ℕ → ℕ → ℕ → ℕ
masked_key res3 m0 m1 m2 m3 =
    let b0 = bit_xor (bit_and res3 0xFF) m0 * 2 ^ 24 in
    let b1 = bit_xor (bit_and (res3 / 2 ^ 8) 0xFF) m1 * 2 ^ 16 in
    let b2 = bit_xor (bit_and (res3 / 2 ^ 16) 0xFF) m2 * 2 ^ 8 in
    let b3 = bit_xor (bit_and (res3 / 2 ^ 24) 0xFF) m3 in bit_or (bit_or (bit_or b0 b1) b2) b3

unfoldable pub calckey : ℕ → ℕ
calckey size =
    if bit_and (key_seed size) 0x200 == 0
    then masked_key (key_seed size) 0x4B 0x61 0x77 0x61
    else masked_key (key_seed size) 0x73 0x65 0x64 0x6F

-- One round of the loop of `docrc`, on `crc`.
unfoldable pub crc_round : ℕ → ℕ → ℕ
crc_round crc val = if bit_and (bit_xor crc val) 1 == 0 then crc / 2 else bit_xor (crc / 2) 0xa1c1

unfoldable pub crc_rounds : ℕ → ℕ → ℕ → ℕ
crc_rounds zero crc val = crc
crc_rounds (suc n) crc val = crc_rounds n (crc_round crc val) (val / 2)

unfoldable pub docrc : ℕ → ℕ → ℕ
docrc crc val = crc_rounds 0x20 crc val

-- The first loop of `multiboot`: `res n` is what `cmd_identify` returns in round `n`. The round that
-- finds the GBA ready, or `none` where the code returns 1.
unfoldable pub wait_ready : ℕ → (ℕ → ℕ) → ℕ → Run (Option ℕ)
wait_ready zero res count = spins
wait_ready (suc fuel) res count =
    let rest = wait_ready fuel res (count + 1) in
    if bit_and (res count) 0x1000 == 0
    then (if ltb mb_max_retry count then done none else rest)
    else done (some count)

-- The loop over the header, `left` rounds of it: the words written and what is behind the header.
unfoldable pub send_header : ℕ → List ℕ → Run (List ℕ × List ℕ)
send_header zero rom = done ([], rom)
send_header (suc left) (b0 ∷ b1 ∷ b2 ∷ b3 ∷ rom) =
    send_header left rom >>= λ (out, rest). done (load32 wii b0 b1 b2 b3 ∷ out, rest)
send_header (suc left) rom = fault

-- `(~(i+(0x20<<20)))+1`.
unfoldable pub address_mask : ℕ → ℕ
address_mask i = (2 ^ 32 - 1 - (i + 0x20 * 2 ^ 20) % 2 ^ 32 + 1) % 2 ^ 32

unfoldable pub next_key : ℕ → ℕ
next_key key = (key * 0x6177614B + 1) % 2 ^ 32

-- The three masks of a word.
unfoldable pub encrypt : ℕ → ℕ → ℕ → ℕ
encrypt key i enc = bit_xor (bit_xor (bit_xor enc key) (address_mask i)) 0x20796220

-- The loop over the rest of the ROM, `rom` being its bytes from `i` on: the words written, `fcrc`,
-- `sessionkey` and `i` at its end.
unfoldable pub send_rom : ℕ → ℕ → ℕ → List ℕ → ℕ → ℕ → Run (List ℕ × ℕ × ℕ × ℕ)
send_rom zero sendsize i rom crc key = spins
send_rom (suc fuel) sendsize i (b0 ∷ b1 ∷ b2 ∷ b3 ∷ rom) crc key =
    let enc = load32 gba b0 b1 b2 b3 in
    let key' = next_key key in
    let rest = send_rom fuel sendsize (i + 4) rom (docrc crc enc) key' in
    let sent = rest >>= λ (out, crc', key'', end).
    done (bswap32 (encrypt key' i enc) ∷ out, crc', key'', end) in
    if ltb i sendsize then sent else done ([], crc, key, i)
send_rom (suc fuel) sendsize i rom crc key =
    if ltb i sendsize then fault else done ([], crc, key, i)

-- `multiboot` from the key on, `raw` being what `gba_read` returns: the words written.
unfoldable pub upload : ℕ → Rom → Run (List ℕ)
upload raw r =
    let sendsize = round8 r.size in
    let key = bswap32 (bit_xor raw 0x7365646F) in
    send_header 48 r.buf >>= λ (header, rom).
    send_rom (sendsize + 1) sendsize 0xC0 rom 0x15A0 key >>= λ (out, crc, key', i).
    let fcrc = encrypt (next_key key') i (bit_or crc (sendsize * 2 ^ 16 % 2 ^ 32)) in
    done (calckey sendsize ∷ (header ++ (out ++ bswap32 fcrc ∷ [])))

-- `multiboot`: what it returns, and the words written.
unfoldable pub multiboot : (ℕ → ℕ) → ℕ → Rom → Run (ℕ × List ℕ)
multiboot res raw r = wait_ready (mb_max_retry + 2) res 0 >>= λ ready. elim ready [
  | none ↦ done (1, [])
  | some k ↦ upload raw r >>= λ out. done (0, out)
]
