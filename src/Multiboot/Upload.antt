-- ===== src/Multiboot/Upload.antt =====
-- A whole upload: `read_rom` and `multiboot` of wiishared/lib/multiboot.h.
use mathlib.Core.Path.{subst}
use net_bsd_wii_joybus.Base.{
  ℕ, length-replicate, zero, suc, ◌+◌, ◌-◌, ◌*◌, ◌/◌, ◌%◌, ◌^◌, ◌≤◌, ◌<◌, ◌≡◌, refl, sym, ◌∙◌,
  arith, true, Option, none, some, List, [], ◌∷◌, ◌++◌, length, take, drop, replicate, bit_or,
  bit_xor, bit_or-lt, bit_and_top, length-append, All-append, take-append, drop-append,
}
use net_bsd_wii_joybus.Wire.{gba, wii, bswap32, split32, split_words}
use net_bsd_wii_joybus.Wire.Bytes.{IsBytes}
use net_bsd_wii_joybus.Server.{done, fault}
use net_bsd_wii_joybus.Multiboot.{
  Rom, mb_max_retry, round8, read_rom, calckey, send_rom, upload, multiboot, wait_ready,
  send_header, next_key, encrypt,
}
use net_bsd_wii_joybus.Multiboot.Ready.{IsReady, IsWait, ready_at, never_ready, wait_ready-ends}
use net_bsd_wii_joybus.Multiboot.Send.{
  IsRom, IsBytes-IsRom, send_rom-Sends, send_header-append, send_header-fault, split-IsRom,
  length-IsRom, plain, crc_of, crc_of-lt,
}

round8-eq : (n : ℕ) → n + 7 < 2 ^ 32 → round8 n ≡ (n + 7) / 8 * 8
unfolding round8
round8-eq n h = bit_and_top 3 29 (n + 7) h

-- The key that both sides start from.
abbrev pub session_key : ℕ → ℕ
session_key raw = bswap32 (bit_xor raw 0x7365646F)

-- The words behind the key, for the ROM `buf`: its header as it is, then its other bytes and the
-- checksum with the size, encrypted.
abbrev pub IsUpload : ℕ → List ℕ → ℕ → List ℕ → Type 0
IsUpload raw buf size out =
    (header : List ℕ) × (words : List ℕ) × (out ≡ calckey size ∷ (header ++ words))
    × (split_words gba header ≡ take 0xC0 buf)
    × (plain (session_key raw) 0xC0 words
        ≡ drop 0xC0 buf
          ++ split32 wii (bit_or (crc_of 0x15A0 (drop 0xC0 buf)) (size * 2 ^ 16 % 2 ^ 32)))

upload-loops :
    (raw size : ℕ) (rom body hs out : List ℕ) (crc key' i : ℕ)
    → round8 size ≡ size
    → send_header 48 rom ≡ done (hs, body)
    → send_rom (size + 1) size 0xC0 body 0x15A0 (session_key raw) ≡ done (out, crc, key', i)
    → upload raw (record { buf = rom; size = size })
      ≡ done (
          calckey size
          ∷ (hs
              ++ (out
                  ++ bswap32 (encrypt (next_key key') i (bit_or crc (size * 2 ^ 16 % 2 ^ 32)))
                    ∷ [])))
unfolding upload
upload-loops raw size rom body hs out crc key' i round ran sent = rw (round, ran, sent) refl

upload-IsUpload :
    (raw n size : ℕ) (header body : List ℕ)
    → IsRom 48 header
    → IsRom n body
    → size ≡ 0xC0 + 4 * n
    → round8 size ≡ size
    → (out : List ℕ) × (upload raw (record { buf = header ++ body; size = size }) ≡ done out)
      × IsUpload raw (header ++ body) size out
upload-IsUpload raw n size header body front back e round =
    let (hs, ran, same) = send_header-append body front in
    let (out, key', sent, count, decrypts) =
      send_rom-Sends (size + 1) size 0xC0 0x15A0 (session_key raw) (omega (arith, e)) e back in
    let last = bit_or (crc_of 0x15A0 body) (size * 2 ^ 16 % 2 ^ 32) in
    let small =
      bit_or-lt 32 (crc_of 0x15A0 body) (size * 2 ^ 16 % 2 ^ 32)
        (omega (arith, crc_of-lt 0x15A0 (omega arith) back)) (omega arith) in
    let words = out ++ bswap32 (encrypt (next_key key') size last) ∷ [] in
    let front_of = take-append header body 0xC0 (omega (arith, length-IsRom front)) in
    let back_of = drop-append header body 0xC0 (omega (arith, length-IsRom front)) in
    (
      calckey size ∷ (hs ++ words),
      upload-loops raw size (header ++ body) body hs out (crc_of 0x15A0 body) key' size round ran
          sent,
      (hs, words, refl, same ∙ sym front_of, rw back_of (decrypts last small)),
    )

replicate-IsBytes : (n : ℕ) → IsBytes (replicate n 0)
replicate-IsBytes zero = tt
replicate-IsBytes (suc n) = (omega arith, replicate-IsBytes n)

-- What `read_rom` makes of a file: its bytes, and zeros up to a multiple of 8.
abbrev pub loaded : List ℕ → Rom
loaded bytes =
    let size = (length bytes + 7) / 8 * 8 in
    record { buf = bytes ++ replicate (size - length bytes) 0; size = size }

read_rom-loaded :
    (bytes : List ℕ) → length bytes + 7 < 2 ^ 32 → read_rom (some bytes) true ≡ some (loaded bytes)
unfolding read_rom
read_rom-loaded bytes h = rw (round8-eq (length bytes) h) refl

loaded-upload :
    (raw : ℕ) (bytes : List ℕ)
    → IsBytes bytes
    → 0xC0 ≤ length bytes
    → length bytes + 7 < 2 ^ 32
    → (out : List ℕ) × (upload raw (loaded bytes) ≡ done out)
      × IsUpload raw (loaded bytes).buf (loaded bytes).size out
loaded-upload raw bytes h long short =
    let size = (length bytes + 7) / 8 * 8 in
    let pad = size - length bytes in
    let n = (size - 0xC0) / 4 in
    let whole : length (bytes ++ replicate pad 0) ≡ size =
      omega (arith, length-append bytes (replicate pad 0), length-replicate {A = ℕ} pad 0) in
    let all =
      IsBytes-IsRom (48 + n) (bytes ++ replicate pad 0) (omega (arith, whole, long))
        (All-append (λ b. b < 256) bytes (replicate pad 0) h (replicate-IsBytes pad)) in
    let (header, body, same, front, back) = split-IsRom 48 n refl all in
    let round = round8-eq size (omega (arith, short)) in
    let (out, ran, is_upload) =
      upload-IsUpload raw n size header body front back (omega (arith, long))
        (omega (arith, round)) in
    (
      out,
      subst (λ t. upload raw (record { buf = t; size = size }) ≡ done out) (sym same) ran,
      subst (λ t. IsUpload raw t size out) (sym same) is_upload,
    )

multiboot_when :
    (res : ℕ → ℕ) (raw : ℕ) (r : Rom) (k : ℕ) (o : Option ℕ)
    → k ≤ mb_max_retry + 1
    → IsReady (res k)
    → wait_ready (mb_max_retry + 2) res 0 ≡ done o
    → IsWait res o
    → (out : List ℕ) → upload raw r ≡ done out
    → multiboot res raw r ≡ done (0, out)
unfolding multiboot
multiboot_when res raw r k (some _) le ready waited (ready_at j le' is not_before) out ran =
    rw (waited, ran) refl
multiboot_when res raw r k none le ready waited (never_ready never) out ran =
    absurd (ready (never k le))

upload-fault : (raw : ℕ) (r : Rom) → send_header 48 r.buf ≡ fault → upload raw r ≡ fault
unfolding upload
upload-fault raw r e = rw (e, upload) refl

multiboot-fault :
    (res : ℕ → ℕ) (raw : ℕ) (r : Rom) (k : ℕ) (o : Option ℕ)
    → k ≤ mb_max_retry + 1
    → IsReady (res k)
    → wait_ready (mb_max_retry + 2) res 0 ≡ done o
    → IsWait res o
    → upload raw r ≡ fault
    → multiboot res raw r ≡ fault
unfolding multiboot
multiboot-fault res raw r k (some _) le ready waited (ready_at j le' is not_before) ran =
    rw (waited, ran) refl
multiboot-fault res raw r k none le ready waited (never_ready never) ran =
    absurd (ready (never k le))

-- A file that `read_rom` accepts and that has at most 184 bytes makes `multiboot`, once the GBA is
-- ready in one of the first 10002 rounds, read behind the end of the buffer.
pub multiboot-short :
    (res : ℕ → ℕ) (raw : ℕ) (bytes : List ℕ) (k : ℕ)
    → length bytes ≤ 184
    → k ≤ mb_max_retry + 1
    → IsReady (res k)
    → (r : Rom) × (read_rom (some bytes) true ≡ some r) × (multiboot res raw r ≡ fault)
multiboot-short res raw bytes k small le ready =
    let size = (length bytes + 7) / 8 * 8 in
    let pad = size - length bytes in
    let (o, waited, is_wait) = wait_ready-ends res in
    let short : length (bytes ++ replicate pad 0) < 4 * 48 =
      omega (arith, length-append bytes (replicate pad 0), length-replicate {A = ℕ} pad 0) in
    (
      loaded bytes,
      read_rom-loaded bytes (omega (arith, small)),
      multiboot-fault res raw (loaded bytes) k o le ready waited is_wait
          (upload-fault raw (loaded bytes) (send_header-fault 48 (bytes ++ replicate pad 0) short)),
    )

-- For a file of at least 192 bytes (the header) whose bytes are in range and whose size does not
-- overflow, and a GBA that is ready in one of the first 10002 rounds: `read_rom` and `multiboot`
-- succeed, the words written are the key, the header as it lies in memory, and words from which the
-- receiver, with the key of the session, decrypts the rest of the file, padded with zeros to a
-- multiple of 8, and last the checksum over that rest joined with the size.
pub multiboot-IsUpload :
    (res : ℕ → ℕ) (raw : ℕ) (bytes : List ℕ) (k : ℕ)
    → IsBytes bytes
    → 0xC0 ≤ length bytes
    → length bytes + 7 < 2 ^ 32
    → k ≤ mb_max_retry + 1
    → IsReady (res k)
    → (r : Rom) × (out : List ℕ) × (read_rom (some bytes) true ≡ some r)
      × (r.buf ≡ bytes ++ replicate (r.size - length bytes) 0)
      × (r.size ≡ (length bytes + 7) / 8 * 8)
      × (multiboot res raw r ≡ done (0, out))
      × IsUpload raw r.buf r.size out
multiboot-IsUpload res raw bytes k h long short le ready =
    let (o, waited, is_wait) = wait_ready-ends res in
    let (out, ran, is_upload) = loaded-upload raw bytes h long short in
    (
      loaded bytes,
      out,
      read_rom-loaded bytes short,
      refl,
      refl,
      multiboot_when res raw (loaded bytes) k o le ready waited is_wait out ran,
      is_upload,
    )
