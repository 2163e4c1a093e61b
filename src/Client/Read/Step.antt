-- ===== src/Client/Read/Step.antt =====
-- One answer of `handle_read_request`, and one round of the loop of `puffboy_node_read`.
use net_bsd_wii_joybus.Base.{
  ℕ, suc, ◌+◌, ◌-◌, ◌/◌, ◌%◌, ◌^◌, ◌≤◌, ◌<◌, min, ◌≡◌, ◌≢◌, refl, ◌∙◌, arith, List, ◌++◌, inl, inr,
  ◌⊎◌, Option-cases, length, get_elem?, take, drop, length-drop, get_elem?-drop,
}
use net_bsd_wii_joybus.Message.{ReadReq, ReadResp}
use net_bsd_wii_joybus.Server.{Block, State, Run, done, ◌>>=◌}
use net_bsd_wii_joybus.Server.Search.{find_index-some, find_index-none, All-get_elem?}
use net_bsd_wii_joybus.Server.Blocks.{is_block, block_fetch, read_block, splice}
use net_bsd_wii_joybus.Server.Blocks.Take.{copies}
use net_bsd_wii_joybus.Server.Blocks.Copy.{IsWhole, file_byte, length-splice, get_elem?-splice}
use net_bsd_wii_joybus.Server.Handlers.{handle_read}
use net_bsd_wii_joybus.Client.{Got, node_read_loop}

-- The read request as the client's loop sees it.
unfoldable pub ask : ReadResp → State → ReadReq → Run ReadResp
ask junk s req = do (resp, s') ← handle_read junk req s; done resp

-- `buf` starts with the `n` bytes of the file from `off` on.
abbrev pub HoldsFile : ℕ → ℕ → ℕ → List Block → List ℕ → Type 0
HoldsFile id off n bs buf = (j : ℕ) → j < n → get_elem? buf j ≡ file_byte id (off + j) bs

module _ (id off n : ℕ) (bs : List Block) (buf : List ℕ) (whole : IsWhole bs)
    (size : length buf ≡ 128) (in_block : off % 128 + n ≤ 128) where
  pub read_block-HoldsFile :
      (n ≡ 0) ⊎ (copies id (off / 128) bs ≢ 0)
      → (buf' : List ℕ) × (read_block bs (block_fetch id (off / 128) bs) (off % 128) n buf
          ≡ done buf')
        × (length buf' ≡ 128)
        × HoldsFile id off n bs buf'
  unfolding read_block block_fetch
  read_block-HoldsFile present = elim (Option-cases (block_fetch id (off / 128) bs)) [
    | inl e ↦
        let none_here = find_index-none (is_block id (off / 128)) bs e in
        let nothing : n ≡ 0 = elim present [ inl z ↦ z | inr p ↦ absurd (p none_here) ] in
        (buf, rw (e, nothing) refl, size, (λ j h. absurd (omega (arith, nothing))))
    | inr (k, e) ↦
        let (b, got, mine, now) = find_index-some (is_block id (off / 128)) bs e in
        let len = length-drop (off % 128) b.bytes in
        let full : length b.bytes ≡ 128 =
          All-get_elem? (λ b. length b.bytes ≡ 128) bs k whole got in
        (
          splice buf 0 n (drop (off % 128) b.bytes),
          rw e (ground (arith, got)),
          length-splice buf 0 n (drop (off % 128) b.bytes) (omega (arith, size))
                (omega (arith, len, full))
              ∙ size,
          (λ j h. ground (
            arith,
            get_elem?-splice buf 0 n (drop (off % 128) b.bytes) j (omega (arith, size))
                (omega (arith, len, full)),
            get_elem?-drop (off % 128) b.bytes j,
            now,
            same_block j h,
            same_place j h,
          )),
        )
  ]
    where
      same_block : (j : ℕ) → j < n → (off + j) / 128 ≡ off / 128
      same_block j h = omega arith

      same_place : (j : ℕ) → j < n → (off + j) % 128 ≡ off % 128 + j
      same_place j h = omega arith

-- One round of the loop that goes on.
pub node_read_loop-step :
    (fuel : ℕ) (gba : ReadReq → Run ReadResp) (req : ReadReq) (resid n : ℕ) (buf : List ℕ) (g : Got)
    → resid ≢ 0
    → n ≢ 0
    → n ≤ resid
    → n ≤ 128
    → req.offset + n < 2 ^ 64
    → gba (record req { copylen = min resid 128 })
      ≡ done (record { err = 0; copylen = n; buf = buf })
    → node_read_loop fuel gba
        (record req { copylen = min resid 128; offset = req.offset + n })
        (resid - n)
      ≡ done g
    → node_read_loop (suc fuel) gba req resid ≡ done (record g { bytes = take n buf ++ g.bytes })
unfolding node_read_loop
node_read_loop-step fuel gba req resid n buf g left more le le' room answer later =
    let in_range : (req.offset + n) % 2 ^ 64 ≡ req.offset + n = omega arith in
    ground (arith, answer, in_range, later)
