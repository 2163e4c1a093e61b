-- ===== src/Exchange.antt =====
-- Requests and responses over the link: the structs of Message as the packets of Wire, and the loop
-- of `main` in puffboy_advance/gba/src/main.cpp on what the link yields.
pub mod Call
pub mod Remote
pub mod Write
pub mod Messages
pub mod MessageFits
pub mod RemoteWrite
pub mod Fits
pub mod Getattr
use net_bsd_wii_joybus.Base.{
  ℕ, zero, suc, ◌≡◌, refl, Bool, true, false, Option, none, some, List, [], ◌∷◌, ◌++◌, ◌==◌, length,
  if◌then◌else◌,
}
use net_bsd_wii_joybus.Wire.{Platform, wii, gba, bswap32, send_request, receive_response}
use net_bsd_wii_joybus.Message.{
  cmd_statvfs, cmd_readdir, cmd_lookup, cmd_getattr, cmd_create, cmd_write, cmd_read, cmd_mkdir,
  cmd_rm, cmd_reclaim, cmd_setsize, ReaddirReq, ReaddirResp, LookupReq, LookupResp, GetattrReq,
  AttrResp, CreateReq, WriteReq, WriteResp, WriteBufReq, WriteBufResp, ReadReq, ReadResp, RmReq,
  RmResp, ReclaimReq, SetattrReq, SetattrResp,
}
use net_bsd_wii_joybus.Message.Layout.{size_of, store, load, sswap, numbers}
use net_bsd_wii_joybus.Message.Structs.{Struct}
use net_bsd_wii_joybus.Message.Structs.Requests.{
  readdir_req, lookup_req, getattr_req, create_req, write_req, write_buf_req, read_req, rm_req,
  reclaim_req, setattr_req,
}
use net_bsd_wii_joybus.Message.Structs.Responses.{
  statvfs_resp, readdir_resp, lookup_resp, getattr_resp, write_resp, write_buf_resp, read_resp,
  rm_resp, setattr_resp,
}
use net_bsd_wii_joybus.Server.{State, Run, done, fault, spins, waits, ◌>>=◌, vreg, vdir}
use net_bsd_wii_joybus.Server.Handlers.{
  handle_statvfs, handle_readdir, handle_lookup, handle_getattr, handle_create, handle_write,
  handle_read, handle_rm, handle_reclaim, handle_setsize,
}
use net_bsd_wii_joybus.Server.Main.{Stack}

-- `send_request(ctx, &a, sizeof(a))`; `padding` is what lies in the struct's gaps.
unfoldable pub send : {A : Type 0} → Platform → (ℕ → ℕ) → Struct A → A → List ℕ
send p padding st a = send_request p (store p padding st.fields (st.values a))

-- The bytes of a struct, with the fields that are marked swapped.
unfoldable pub unpack :
    {A : Type 0} → Platform → Struct A → List Bool → List ℕ × List ℕ → Option (A × List ℕ)
unpack p st swaps (bytes, rest) = elim (st.of_values (sswap swaps (load p st.fields bytes))) [
  | none ↦ none
  | some a ↦ some (a, rest)
]

-- `receive_response(ctx, &a, sizeof(a))` and the `SSWAP`s behind it.
unfoldable pub receive :
    {A : Type 0} → Platform → Struct A → List Bool → List ℕ → Option (A × List ℕ)
receive p st swaps link = elim (receive_response p (size_of st.fields) link) [
  | none ↦ none
  | some got ↦ unpack p st swaps got
]

-- A handler that receives one request and sends one response; `swaps` are its `SSWAP`s.
pub record Service : Type 1 where
  pub Req : Type 0
  pub Resp : Type 0
  pub request : Struct Req
  pub response : Struct Resp
  pub swaps : List Bool
  pub swaps_lem : swaps ≡ numbers request.fields
  pub handler : Req → State → Run (Resp × State)

-- What a command makes the loop do.
pub data Action : Type 1 where
  exchange : Service → Action
  report : Action
  transfer : Action
  nothing : Action

-- The handler on the link: the packets sent, the state, what is left on the link.
unfoldable pub serve : (ℕ → ℕ) → Service → List ℕ → State → Run (List ℕ × State × List ℕ)
serve padding svc link s = elim (receive gba svc.request svc.swaps link) [
  | none ↦ waits
  | some (req, rest) ↦
      svc.handler req s >>= λ (resp, s'). done (send gba padding svc.response resp, s', rest)
]

-- The messages of a write that the link yields, at most `k`, and what is behind them.
unfoldable pub receive_messages : ℕ → List ℕ → List WriteBufReq × List ℕ
receive_messages zero link = ([], link)
receive_messages (suc k) link = elim (receive gba write_buf_req (true ∷ false ∷ []) link) [
  | none ↦ ([], link)
  | some (m, rest) ↦ let (ms, rest') = receive_messages k rest in (m ∷ ms, rest')
]

unfoldable pub send_all : (ℕ → ℕ) → List WriteBufResp → List ℕ
send_all padding [] = []
send_all padding (r ∷ rs) = send gba padding write_buf_resp r ++ send_all padding rs

-- `handle_write_request` on the link: it takes as many messages as it sends answers to.
unfoldable pub serve_write : (ℕ → ℕ) → WriteBufResp → List ℕ → State → Run (List ℕ × State × List ℕ)
serve_write padding junk link s =
    elim (receive gba write_req (true ∷ true ∷ true ∷ true ∷ []) link) [
      | none ↦ waits
      | some (req, rest) ↦
          handle_write junk req (receive_messages (length rest) rest).0 s >>= λ (resp, out, s').
          done (
            send gba padding write_resp resp ++ send_all padding out,
            s',
            (receive_messages (length out) rest).1,
          )
    ]

module _ (fuel : ℕ) (gen : ℕ) (stack : Stack) where
  abbrev pub readdir_service : Service
  readdir_service = record {
    Req = ReaddirReq;
    Resp = ReaddirResp;
    request = readdir_req;
    response = readdir_resp;
    swaps = true ∷ true ∷ [];
    swaps_lem = refl;
    handler = handle_readdir stack.readdir_junk;
  }

  abbrev pub lookup_service : Service
  lookup_service = record {
    Req = LookupReq;
    Resp = LookupResp;
    request = lookup_req;
    response = lookup_resp;
    swaps = true ∷ false ∷ [];
    swaps_lem = refl;
    handler = handle_lookup fuel stack.lookup_junk;
  }

  abbrev pub getattr_service : Service
  getattr_service = record {
    Req = GetattrReq;
    Resp = AttrResp;
    request = getattr_req;
    response = getattr_resp;
    swaps = true ∷ [];
    swaps_lem = refl;
    handler = handle_getattr stack.attr_junk;
  }

  abbrev pub create_service : Service
  create_service = record {
    Req = CreateReq;
    Resp = AttrResp;
    request = create_req;
    response = getattr_resp;
    swaps = true ∷ false ∷ [];
    swaps_lem = refl;
    handler = handle_create fuel gen vreg stack.attr_junk;
  }

  abbrev pub read_service : Service
  read_service = record {
    Req = ReadReq;
    Resp = ReadResp;
    request = read_req;
    response = read_resp;
    swaps = true ∷ true ∷ true ∷ [];
    swaps_lem = refl;
    handler = handle_read stack.read_junk;
  }

  abbrev pub mkdir_service : Service
  mkdir_service = record {
    Req = CreateReq;
    Resp = AttrResp;
    request = create_req;
    response = getattr_resp;
    swaps = true ∷ false ∷ [];
    swaps_lem = refl;
    handler = handle_create fuel gen vdir stack.attr_junk;
  }

  abbrev pub rm_service : Service
  rm_service = record {
    Req = RmReq;
    Resp = RmResp;
    request = rm_req;
    response = rm_resp;
    swaps = true ∷ false ∷ [];
    swaps_lem = refl;
    handler = handle_rm fuel stack.rm_junk;
  }

  abbrev pub reclaim_service : Service
  reclaim_service = record {
    Req = ReclaimReq;
    Resp = RmResp;
    request = reclaim_req;
    response = rm_resp;
    swaps = true ∷ [];
    swaps_lem = refl;
    handler = handle_reclaim stack.rm_junk;
  }

  abbrev pub setsize_service : Service
  setsize_service = record {
    Req = SetattrReq;
    Resp = SetattrResp;
    request = setattr_req;
    response = setattr_resp;
    swaps = true ∷ true ∷ [];
    swaps_lem = refl;
    handler = handle_setsize stack.setattr_junk;
  }

  -- `switch (recv)`.
  unfoldable pub action : ℕ → Action
  action recv =
      if recv == cmd_statvfs
      then report
      else (if recv == cmd_readdir
          then exchange readdir_service
          else (if recv == cmd_lookup
              then exchange lookup_service
              else (if recv == cmd_getattr
                  then exchange getattr_service
                  else (if recv == cmd_create
                      then exchange create_service
                      else (if recv == cmd_write
                          then transfer
                          else (if recv == cmd_read
                              then exchange read_service
                              else (if recv == cmd_mkdir
                                  then exchange mkdir_service
                                  else (if recv == cmd_rm
                                      then exchange rm_service
                                      else (if recv == cmd_reclaim
                                          then exchange reclaim_service
                                          else (if recv == cmd_setsize
                                              then exchange setsize_service
                                              else nothing))))))))))

  unfoldable pub perform : (ℕ → ℕ) → Action → List ℕ → State → Run (List ℕ × State × List ℕ)
  perform padding (exchange svc) link s = serve padding svc link s
  perform padding report link s =
      let (resp, s') = handle_statvfs s in done (send gba padding statvfs_resp resp, s', link)
  perform padding transfer link s = serve_write padding stack.write_junk link s
  perform padding nothing link s = done ([], s, link)

  -- One round of `while (linkCube->canRead())`.
  unfoldable pub serve_next : (ℕ → ℕ) → List ℕ → State → Run (List ℕ × State × List ℕ)
  serve_next padding [] s = waits
  serve_next padding (x ∷ link) s = perform padding (action (bswap32 x)) link s
