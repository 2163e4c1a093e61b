-- ===== src/Exchange/Write.antt =====
-- `puffboy_node_write` of puffboy_advance/wii/node/write.c on the link, on what `gba_read` yields.
use net_bsd_wii_joybus.Base.{
  ℕ, zero, suc, true, Option, none, some, List, [], ◌∷◌, ◌++◌, ◌==◌, ltb, if◌then◌else◌, length,
  min, drop,
}
use net_bsd_wii_joybus.Wire.{wii}
use net_bsd_wii_joybus.Message.{block_size, cmd_write, WriteReq, WriteResp, WriteBufResp}
use net_bsd_wii_joybus.Message.Structs.Requests.{write_req, write_buf_req}
use net_bsd_wii_joybus.Message.Structs.Responses.{write_resp, write_buf_resp}
use net_bsd_wii_joybus.Server.{Run, done, spins, waits, ◌>>=◌}
use net_bsd_wii_joybus.Server.Handlers.{enoent}
use net_bsd_wii_joybus.Client.{write_message}
use net_bsd_wii_joybus.Exchange.{send, receive}
use net_bsd_wii_joybus.Exchange.Call.{gba_call}

-- What a write leaves: the packets written, the value returned, `*resid`, and what `gba_read` yields
-- next.
pub record Ended : Type 0 where
  pub packets : List ℕ
  pub err : ℕ
  pub resid : ℕ
  pub polls : List ℕ

module _ (padding : ℕ → ℕ) where
  -- `do_gba_write`: the answer, and what `gba_read` yields next.
  unfoldable pub gba_write_buf : List ℕ → Run (WriteBufResp × List ℕ)
  gba_write_buf polls = elim (receive wii write_buf_resp (true ∷ []) polls) [
    | none ↦ waits
    | some answer ↦ done answer
  ]

  -- The loop of `puffboy_node_write`, with fuel; `src` is what is left of the caller's bytes.
  unfoldable pub write_rest : ℕ → List ℕ → List ℕ → Run Ended
  write_rest zero src polls =
      if length src == 0
      then done (record { packets = []; err = 0; resid = 0; polls = polls })
      else spins
  write_rest (suc fuel) src polls =
      let pkts = send wii padding write_buf_req (write_message src) in
      let round : Run Ended = gba_write_buf polls >>= λ (resp, polls').
      let more : Run Ended =
        write_rest fuel (drop (min (length src) block_size) src) polls' >>= λ e.
        done (record e { packets = pkts ++ e.packets }) in
      if ltb 0 resp.err
      then done (record { packets = pkts; err = resp.err; resid = length src; polls = polls' })
      else more in
      if length src == 0
      then done (record { packets = []; err = 0; resid = 0; polls = polls })
      else round

  -- What follows `prepare_gba_write`; `none` where `errx` ended the program.
  unfoldable pub write_prepared :
      ℕ → List ℕ → Option (List ℕ × WriteResp × List ℕ) → Run (Option Ended)
  write_prepared fuel src none = done none
  write_prepared fuel src (some (pkts, resp, polls)) =
      let refused : ℕ → Run (Option Ended) =
        λ e. done (some (record { packets = pkts; err = e; resid = length src; polls = polls })) in
      let more : Run (Option Ended) =
        write_rest fuel src polls >>= λ e. done (some (record e { packets = pkts ++ e.packets })) in
      if resp.exists == 0
      then refused enoent
      else (if ltb 0 resp.err then refused resp.err else more)

  unfoldable pub node_write : ℕ → WriteReq → List ℕ → List ℕ → Run (Option Ended)
  node_write fuel req src polls =
      gba_call padding cmd_write write_req write_resp (true ∷ true ∷ []) req polls
      >>= write_prepared fuel src
