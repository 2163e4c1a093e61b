-- ===== src/Client/Readdir.antt =====
-- `puffboy_node_readdir` of puffboy_advance/wii/node/readdir.c. What puffs does with the entries is
-- the record `Dirents`, with the values that its offsets have.
pub mod Lists
use net_bsd_wii_joybus.Base.{
  ℕ, zero, suc, ◌+◌, ◌%◌, ◌^◌, ◌≡◌, Bool, true, false, ◌||◌, Option, none, some, List, ◌==◌,
  if◌then◌else◌,
}
use net_bsd_wii_joybus.Message.{ReaddirReq, ReaddirResp}
use net_bsd_wii_joybus.Server.{Run, done, spins, ◌>>=◌}

-- `Out` is what the caller is given: the entries, the room left, the cookies and their number.
pub record Dirents : Type 1 where
  pub Out : Type 0
  pub dent_dot : ℕ
  pub dent_dotdot : ℕ
  pub dent_adj : ℕ → ℕ
  pub no_cookies : Out → Out
  pub gendotdent : Out → ℕ → ℕ → Out
  pub nextdent : Out → List ℕ → ℕ → ℕ → Option Out
  pub vtype2dt : ℕ → ℕ
  pub store_dcookie : Out → ℕ → Out
  pub dent_dot_lem : dent_dot ≡ 0
  pub dent_dotdot_lem : dent_dotdot ≡ 1
  pub dent_adj_lem : (n : ℕ) → dent_adj (n + 2) ≡ n

module _ (d : Dirents) where
  -- One round of the jumps to `again`.
  unfoldable pub put_dot : d.Out → ℕ → d.Out
  put_dot out off = d.store_dcookie (d.gendotdent out 1 off) (off + 1)

  unfoldable pub put_dots : ℕ → d.Out → ℕ → Run (d.Out × ℕ)
  put_dots zero out off = spins
  put_dots (suc fuel) out off =
      let more = put_dots fuel (put_dot out off) (off + 1) in
      if (off == d.dent_dot) || (off == d.dent_dotdot) then more else done (out, off)

  -- `puffs_nextdent` on a response.
  unfoldable pub put_entry : d.Out → ReaddirResp → Option d.Out
  put_entry out resp = d.nextdent out resp.name resp.va_fileid (d.vtype2dt resp.va_type % 2 ^ 8)

  module _ {σ : Type 0} (gba : ReaddirReq → σ → Run (ReaddirResp × σ)) where
    -- The loop: whether it sets `eofflag`, the output, `readoff`.
    unfoldable pub put_entries : ℕ → ℕ → d.Out → ℕ → σ → Run ((Bool × d.Out × ℕ) × σ)
    put_entries zero id out off s = spins
    put_entries (suc fuel) id out off s =
        gba (record { parent_fileid = id; n = d.dent_adj off % 2 ^ 32 }) s >>= λ (resp, s').
        if resp.exists == 0 then done ((true, out, off), s') else elim (put_entry out resp) [
          | none ↦ done ((false, out, off), s')
          | some out' ↦ put_entries fuel id (d.store_dcookie out' (off + 1)) (off + 1) s'
        ]

    unfoldable pub node_readdir : ℕ → ℕ → d.Out → ℕ → σ → Run ((Bool × d.Out × ℕ) × σ)
    node_readdir fuel id out off s =
        put_dots 3 (d.no_cookies out) off >>= λ (out', off'). put_entries fuel id out' off' s
