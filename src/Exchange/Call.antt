-- ===== src/Exchange/Call.antt =====
-- The Wii's side of a request: `gba_readdir` of puffboy_advance/wii/node/readdir.c and its like in the
-- other files there, each with the command, the structs and the fields to swap.
use net_bsd_wii_joybus.Base.{ℕ, Bool, Option, none, some, List, ◌∷◌}
use net_bsd_wii_joybus.Wire.{wii}
use net_bsd_wii_joybus.Message.Structs.{Struct}
use net_bsd_wii_joybus.Server.{Run, done, waits, ◌>>=◌}
use net_bsd_wii_joybus.Client.Wait.{msg_timeout, wait_clear}
use net_bsd_wii_joybus.Exchange.{send, receive}

module _ {Req Resp : Type 0} (padding : ℕ → ℕ) (cmd : ℕ) (request : Struct Req)
    (response : Struct Resp) (swaps : List Bool) (req : Req) where
  -- `gba_write` of the command, and `send_request`. `htonl` leaves the command as it is.
  unfoldable pub written : List ℕ
  written = cmd ∷ send wii padding request req

  -- The end of a call, on what `gba_read` yields: the packets written, the response, and what it
  -- yields next.
  unfoldable pub answered : Option (List ℕ) → Run (Option (List ℕ × Resp × List ℕ))
  answered none = done none
  answered (some polls) = elim (receive wii response swaps polls) [
    | none ↦ waits
    | some (resp, rest) ↦ done (some (written, resp, rest))
  ]

  -- A call; `none` where `errx` ends the program.
  unfoldable pub gba_call : List ℕ → Run (Option (List ℕ × Resp × List ℕ))
  gba_call polls = wait_clear msg_timeout polls >>= answered
