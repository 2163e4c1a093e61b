-- ===== src/Exchange/Remote.antt =====
-- A request that the Wii sends is served on the GBA as a call of its handler.
use mathlib.Core.Path.{subst}
use net_bsd_wii_joybus.Base.{
  ◌≤◌, ◌+◌, ◌≢◌, All, length, ℕ, ◌<◌, ◌^◌, ◌≡◌, refl, ◌∙◌, arith, Bool, some, List, ◌∷◌, ◌++◌,
}
use net_bsd_wii_joybus.Wire.{Platform, wii, gba, other, send_request, receive_response}
use net_bsd_wii_joybus.Wire.Link.{
  Link, to_gba, Polls, bswap32_twice, received-gba_write, receive_response-send_request,
  receive_response-send_request_idle,
}
use net_bsd_wii_joybus.Message.Layout.{size_of, store, numbers}
use net_bsd_wii_joybus.Message.Layout.RoundTrip.{AreValues, sswap-load, length-store, store-IsBytes}
use net_bsd_wii_joybus.Message.Structs.{Struct}
use net_bsd_wii_joybus.Server.{State, done}
use net_bsd_wii_joybus.Server.Main.{Stack}
use net_bsd_wii_joybus.Client.Wait.{msg_timeout, wait_clear, wait_clear-passes}
use net_bsd_wii_joybus.Exchange.Call.{gba_call, answered, written}
use net_bsd_wii_joybus.Exchange.{
  send, unpack, receive, Service, exchange, serve, action, perform, serve_next,
}

-- A message whose values fit their fields.
abbrev pub Fits : {A : Type 0} → Struct A → A → Type 0
Fits st a = AreValues st.fields (st.values a)

received-unpack :
    {A : Type 0} (p : Platform) (st : Struct A) (swaps : List Bool) (link : List ℕ)
    (got : List ℕ × List ℕ)
    → receive_response p (size_of st.fields) link ≡ some got
    → receive p st swaps link ≡ unpack p st swaps got
unfolding receive
received-unpack p st swaps link got e = rw (e, receive) refl

pub gba_call-received :
    {Req Resp : Type 0} (padding : ℕ → ℕ) (cmd : ℕ) (request : Struct Req) (response : Struct Resp)
    (swaps : List Bool) (req : Req) (polls left : List ℕ) (resp : Resp) (rest : List ℕ)
    → wait_clear msg_timeout polls ≡ done (some left)
    → receive wii response swaps left ≡ some (resp, rest)
    → gba_call padding cmd request response swaps req polls
      ≡ done (some (cmd ∷ send wii padding request req, resp, rest))
unfolding gba_call answered written
gba_call-received padding cmd request response swaps req polls left resp rest waited got =
    rw (waited, got, answered) refl

module _ {A : Type 0} (st : Struct A) (a : A) (fits : Fits st a) (padding : ℕ → ℕ) where
  unpack-store :
      (p : Platform) (rest : List ℕ)
      → unpack (other p) st (numbers st.fields) (store p padding st.fields (st.values a), rest)
        ≡ some (a, rest)
  unfolding unpack
  unpack-store p rest = rw (sswap-load p padding fits, st.of_values_lem a, unpack) refl

  module _ (l : Link) (bytes : (k : ℕ) → padding k < 256) (some_size : 0 < size_of st.fields) where
    got_on_gba :
        (rest : List ℕ)
        → receive_response gba (size_of st.fields) (to_gba l (send wii padding st a) ++ rest)
          ≡ some (store wii padding st.fields (st.values a), rest)
    unfolding send
    got_on_gba rest =
        let req = store wii padding st.fields (st.values a) in
        let size = length-store wii padding fits in
        subst
          (λ n. receive_response gba n (to_gba l (send_request wii req) ++ rest) ≡ some (req, rest))
          size
          (receive_response-send_request l req rest (store-IsBytes wii padding bytes fits)
            (omega (arith, size)))

    got_on_wii :
        (polls rest : List ℕ)
        → Polls l (send gba padding st a) polls
        → receive_response wii (size_of st.fields) (polls ++ rest)
          ≡ some (store gba padding st.fields (st.values a), rest)
    unfolding send
    got_on_wii polls rest arrive =
        let resp = store gba padding st.fields (st.values a) in
        let size = length-store gba padding fits in
        subst (λ n. receive_response wii n (polls ++ rest) ≡ some (resp, rest)) size
          (receive_response-send_request_idle l resp polls rest
            (store-IsBytes gba padding bytes fits) (omega (arith, size)) arrive)

    pub receive-send :
        (rest : List ℕ)
        → receive gba st (numbers st.fields) (to_gba l (send wii padding st a) ++ rest)
          ≡ some (a, rest)
    receive-send rest =
        received-unpack gba st (numbers st.fields) (to_gba l (send wii padding st a) ++ rest)
          (store wii padding st.fields (st.values a), rest) (got_on_gba rest)
        ∙ unpack-store wii rest

    pub receive-send_idle :
        (polls rest : List ℕ)
        → Polls l (send gba padding st a) polls
        → receive wii st (numbers st.fields) (polls ++ rest) ≡ some (a, rest)
    receive-send_idle polls rest arrive =
        received-unpack wii st (numbers st.fields) (polls ++ rest)
          (store gba padding st.fields (st.values a), rest) (got_on_wii polls rest arrive)
        ∙ unpack-store gba rest

module _ (l : Link) (padding padding' : ℕ → ℕ) (bytes : (k : ℕ) → padding k < 256)
    (bytes' : (k : ℕ) → padding' k < 256) where
  serve-answer :
      (svc : Service) (req : svc.Req) (resp : svc.Resp) (s s' : State) (rest : List ℕ)
      → Fits svc.request req
      → 0 < size_of svc.request.fields
      → svc.handler req s ≡ done (resp, s')
      → serve padding' svc (to_gba l (send wii padding svc.request req) ++ rest) s
        ≡ done (send gba padding' svc.response resp, s', rest)
  unfolding serve
  serve-answer svc req resp s s' rest fits size ran =
      rw (svc.swaps_lem, receive-send svc.request req fits padding l bytes size rest, ran) refl

  call-serve :
      (fuel : ℕ) (gen : ℕ) (stack : Stack) (cmd : ℕ) (svc : Service) (req : svc.Req)
      (resp : svc.Resp) (s s' : State) (rest polls rest' : List ℕ)
      → cmd < 2 ^ 32
      → action fuel gen stack cmd ≡ exchange svc
      → Fits svc.request req
      → Fits svc.response resp
      → 0 < size_of svc.request.fields
      → 0 < size_of svc.response.fields
      → svc.handler req s ≡ done (resp, s')
      → Polls l (send gba padding' svc.response resp) polls
      → (serve_next fuel gen stack padding'
            (to_gba l (cmd ∷ send wii padding svc.request req) ++ rest)
            s
          ≡ done (send gba padding' svc.response resp, s', rest))
        × (receive wii svc.response (numbers svc.response.fields) (polls ++ rest')
            ≡ some (resp, rest'))
  unfolding serve_next perform to_gba
  call-serve fuel gen stack cmd svc req resp s s' rest polls rest' small switch fits fits' size
        size' ran arrive =
      (
        rw (received-gba_write l cmd, bswap32_twice cmd small, switch)
            (serve-answer svc req resp s s' rest fits size ran),
        receive-send_idle svc.response resp fits' padding' l bytes' size' polls rest' arrive,
      )

  -- A remote call, for a command that the switch takes to a handler of one request and one response
  -- and a request on which the handler ends with a response, the values of both in the range of
  -- their fields and neither message empty. The Wii's call, which swaps all numbers of the response,
  -- first finds at most 5001 left-over values before an idle poll; then the GBA's loop, on the
  -- packets that the call writes, takes these off the link and no more and leaves the handler's
  -- state, and from the packets that it sends, with any number of idle polls between them, the call
  -- ends with the handler's response and takes no more either.
  pub gba_call-serve :
      (fuel : ℕ) (gen : ℕ) (stack : Stack) (cmd : ℕ) (svc : Service) (req : svc.Req)
      (resp : svc.Resp) (s s' : State) (stale polls rest rest' : List ℕ)
      → cmd < 2 ^ 32
      → action fuel gen stack cmd ≡ exchange svc
      → Fits svc.request req
      → Fits svc.response resp
      → 0 < size_of svc.request.fields
      → 0 < size_of svc.response.fields
      → svc.handler req s ≡ done (resp, s')
      → All (λ v. v ≢ 0) stale
      → length stale ≤ msg_timeout + 1
      → Polls l (send gba padding' svc.response resp) polls
      → (pkts : List ℕ) × (gba_call padding cmd svc.request svc.response
            (numbers svc.response.fields)
            req
            (stale ++ 0 ∷ (polls ++ rest'))
          ≡ done (some (pkts, resp, rest')))
        × (serve_next fuel gen stack padding' (to_gba l pkts ++ rest) s
            ≡ done (send gba padding' svc.response resp, s', rest))
  gba_call-serve fuel gen stack cmd svc req resp s s' stale polls rest rest' small switch fits fits'
        size size' ran others few arrive =
      let (round, got) =
        call-serve fuel gen stack cmd svc req resp s s' rest polls rest' small switch fits fits'
          size size' ran arrive in
      (
        cmd ∷ send wii padding svc.request req,
        gba_call-received padding cmd svc.request svc.response (numbers svc.response.fields) req
            (stale ++ 0 ∷ (polls ++ rest')) (polls ++ rest') resp rest'
            (wait_clear-passes msg_timeout stale (polls ++ rest') others few) got,
        round,
      )
