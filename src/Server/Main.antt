-- ===== src/Server/Main.antt =====
-- The loop in `main` of puffboy_advance/gba/src/main.cpp: the switch over the commands, on decoded
-- requests, and the states that the server comes to.
pub mod Invariant
pub mod Answers
use net_bsd_wii_joybus.Base.{ℕ, List, map}
use net_bsd_wii_joybus.Message.{
  StatvfsResp, ReaddirReq, ReaddirResp, LookupReq, LookupResp, GetattrReq, AttrResp, CreateReq,
  WriteReq, WriteResp, WriteBufReq, WriteBufResp, ReadReq, ReadResp, RmReq, RmResp, ReclaimReq,
  SetattrReq, SetattrResp,
}
use net_bsd_wii_joybus.Server.{State, Run, done, ◌>>=◌, vreg, vdir}
use net_bsd_wii_joybus.Server.Handlers.{
  handle_statvfs, handle_readdir, handle_lookup, handle_getattr, handle_create, handle_write,
  handle_read, handle_rm, handle_reclaim, handle_setsize,
}

-- A command with its request; a write comes with the messages that follow it. `ignored` is a value
-- that is no command.
pub data Request : Type 0 where
  statvfs : Request
  readdir : ReaddirReq → Request
  lookup : LookupReq → Request
  getattr : GetattrReq → Request
  create : CreateReq → Request
  write : WriteReq → List WriteBufReq → Request
  read : ReadReq → Request
  mkdir : CreateReq → Request
  rm : RmReq → Request
  reclaim : ReclaimReq → Request
  setsize : SetattrReq → Request
  ignored : ℕ → Request

-- What is sent back.
pub data Response : Type 0 where
  statvfs_sent : StatvfsResp → Response
  readdir_sent : ReaddirResp → Response
  lookup_sent : LookupResp → Response
  attr_sent : AttrResp → Response
  write_sent : WriteResp → List WriteBufResp → Response
  read_sent : ReadResp → Response
  rm_sent : RmResp → Response
  setattr_sent : SetattrResp → Response
  nothing_sent : Response

-- The responses as they lie on the stack before a handler fills them in.
pub record Stack : Type 0 where
  pub readdir_junk : ReaddirResp
  pub lookup_junk : LookupResp
  pub attr_junk : AttrResp
  pub write_junk : WriteBufResp
  pub read_junk : ReadResp
  pub rm_junk : RmResp
  pub setattr_junk : SetattrResp

unfoldable pub answer {ℓ} : {A : Type ℓ} → (A → Response) → Run (A × State) → Run (Response × State)
answer f r = r >>= λ (resp, s). done (f resp, s)

module _ (fuel : ℕ) (gen : ℕ) (stack : Stack) where
  -- `switch (recv)`.
  unfoldable pub dispatch : Request → State → Run (Response × State)
  dispatch statvfs s = let (resp, s') = handle_statvfs s in done (statvfs_sent resp, s')
  dispatch (readdir req) s = answer readdir_sent (handle_readdir stack.readdir_junk req s)
  dispatch (lookup req) s = answer lookup_sent (handle_lookup fuel stack.lookup_junk req s)
  dispatch (getattr req) s = answer attr_sent (handle_getattr stack.attr_junk req s)
  dispatch (create req) s = answer attr_sent (handle_create fuel gen vreg stack.attr_junk req s)
  dispatch (write req messages) s =
      handle_write stack.write_junk req messages s >>= λ (resp, out, s').
      done (write_sent resp out, s')
  dispatch (read req) s = answer read_sent (handle_read stack.read_junk req s)
  dispatch (mkdir req) s = answer attr_sent (handle_create fuel gen vdir stack.attr_junk req s)
  dispatch (rm req) s = answer rm_sent (handle_rm fuel stack.rm_junk req s)
  dispatch (reclaim req) s = answer rm_sent (handle_reclaim stack.rm_junk req s)
  dispatch (setsize req) s = answer setattr_sent (handle_setsize stack.setattr_junk req s)
  dispatch (ignored recv) s = done (nothing_sent, s)
