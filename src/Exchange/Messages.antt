-- ===== src/Exchange/Messages.antt =====
-- The messages of a write on the GBA: as many as the link yields, of which the handler takes what it
-- needs.
use net_bsd_wii_joybus.Base.{
  ℕ, suc, ◌+◌, ◌<◌, ◌≤◌, ◌≡◌, refl, ap, ◌∙◌, arith, Bool, true, false, Option, none, some, All,
  List, [], ◌∷◌, ◌++◌, ◌==◌, ltb, if◌then◌else◌, length, length-append, append_assoc, Bool-cases,
  inl, inr,
}
use net_bsd_wii_joybus.Wire.{wii, gba}
use net_bsd_wii_joybus.Wire.Packets.{length-send_request}
use net_bsd_wii_joybus.Wire.Link.{Link, to_gba, gba_write}
use net_bsd_wii_joybus.Message.{WriteReq, WriteBufReq, WriteBufResp}
use net_bsd_wii_joybus.Message.Layout.{store, size_of, fields_end}
use net_bsd_wii_joybus.Message.Layout.RoundTrip.{length-store}
use net_bsd_wii_joybus.Message.Structs.Requests.{write_buf_req}
use net_bsd_wii_joybus.Server.{
  State, Block, Entry, Run, done, fault, spins, waits, ◌>>=◌, deref, find_by_id,
}
use net_bsd_wii_joybus.Server.Blocks.{Cursor, write_loop, copy_loop}
use net_bsd_wii_joybus.Server.Handlers.{grow_for, write_data, write_at, handle_write}
use net_bsd_wii_joybus.Exchange.{send, receive, receive_messages}
use net_bsd_wii_joybus.Exchange.Remote.{Fits, receive-send}

-- The second run ends as the first does, where that ends.
abbrev Extends {ℓ} : {A : Type ℓ} → Run A → Run A → Type ℓ
Extends {A} r r' = (a : A) → r ≡ done a → r' ≡ done a

bind-Extends {ℓ κ} :
    {A : Type ℓ} {B : Type κ} (r : Run A) (f g : A → Run B)
    → ((a : A) → Extends (f a) (g a))
    → Extends (r >>= f) (r >>= g)
bind-Extends (done a) f g h b e = h a b e
bind-Extends fault f g h b e = e
bind-Extends spins f g h b e = e
bind-Extends waits f g h b e = e

Extends-bind {ℓ κ} :
    {A : Type ℓ} {B : Type κ} (r r' : Run A) (f : A → Run B)
    → Extends r r'
    → Extends (r >>= f) (r' >>= f)
Extends-bind (done a) r' f h b e = rw (h a refl) e
Extends-bind fault r' f h b e = absurd (ground (arith, e))
Extends-bind spins r' f h b e = absurd (ground (arith, e))
Extends-bind waits r' f h b e = absurd (ground (arith, e))

if-Extends {ℓ} :
    {A : Type ℓ} (b : Bool) (r r' t : Run A)
    → Extends t r'
    → Extends (if b then r else t) (if b then r else r')
if-Extends true r r' t h a e = e
if-Extends false r r' t h a e = h a e

-- A loop that has ended takes no further message.
write_loop-more :
    (id : ℕ) (junk : WriteBufResp) (ms extra : List WriteBufReq) (c : Cursor)
    → Extends (write_loop id junk ms c) (write_loop id junk (ms ++ extra) c)
unfolding write_loop
write_loop-more id junk [] [] c r ran = ran
write_loop-more id junk [] (m ∷ extra) c r ran = elim (Bool-cases (c.resid == 0)) [
  | inl full ↦ rw full (ground (arith, ran, full))
  | inr left ↦ absurd (ground (arith, ran, left))
]
write_loop-more id junk (m ∷ ms) extra c r ran =
    if-Extends (c.resid == 0) (done ([], c)) _ _
      (bind-Extends (copy_loop (suc m.buflen) id m.buf m.buflen 0 c) _ _ λ c'.
        Extends-bind (write_loop id junk ms c') (write_loop id junk (ms ++ extra) c') _
          (write_loop-more id junk ms extra c'))
      r ran

write_data-more :
    (junk : WriteBufResp) (req : WriteReq) (ms extra : List WriteBufReq) (i : ℕ)
    (r : ℕ × Entry × List Block) (s : State)
    → Extends (write_data junk req ms i r s) (write_data junk req (ms ++ extra) i r s)
unfolding write_data
write_data-more junk req ms extra i (err, ent, bs) s = if-Extends (ltb 0 err) _ _ _ (
    Extends-bind
      (write_loop ent.va_fileid junk ms
        (record { offset = req.offset; resid = req.resid; blocks = bs }))
      (write_loop ent.va_fileid junk (ms ++ extra)
        (record { offset = req.offset; resid = req.resid; blocks = bs }))
      _
      (write_loop-more ent.va_fileid junk ms extra
        (record { offset = req.offset; resid = req.resid; blocks = bs })))

write_at-more :
    (junk : WriteBufResp) (req : WriteReq) (ms extra : List WriteBufReq) (s : State) (i : Option ℕ)
    → Extends (write_at junk req ms s i) (write_at junk req (ms ++ extra) s i)
unfolding write_at
write_at-more junk req ms extra s none r ran = ran
write_at-more junk req ms extra s (some i) r ran =
    bind-Extends (deref s.entries i) _ _
      (λ ent. write_data-more junk req ms extra i (grow_for ent req s.blocks) s) r ran

pub handle_write-more :
    (junk : WriteBufResp) (req : WriteReq) (ms extra : List WriteBufReq) (s : State)
    → Extends (handle_write junk req ms s) (handle_write junk req (ms ++ extra) s)
unfolding handle_write
handle_write-more junk req ms extra s =
    write_at-more junk req ms extra s (find_by_id req.fileid s.entries)

-- The messages of a write, one after the other.
abbrev pub send_messages : (ℕ → ℕ) → List WriteBufReq → List ℕ
send_messages padding [] = []
send_messages padding (m ∷ ms) = send wii padding write_buf_req m ++ send_messages padding ms

pub to_gba-append : (l : Link) (xs ys : List ℕ) → to_gba l (xs ++ ys) ≡ to_gba l xs ++ to_gba l ys
unfolding to_gba
to_gba-append l [] ys = refl
to_gba-append l (x ∷ xs) ys = ap (λ t. l.received (gba_write x) ∷ t) (to_gba-append l xs ys)

length-to_gba : (l : Link) (xs : List ℕ) → length (to_gba l xs) ≡ length xs
unfolding to_gba
length-to_gba l [] = refl
length-to_gba l (x ∷ xs) = ap suc (length-to_gba l xs)

length-send_message :
    (padding : ℕ → ℕ) (m : WriteBufReq)
    → Fits write_buf_req m
    → 0 < length (send wii padding write_buf_req m)
unfolding send size_of fields_end
length-send_message padding m fits =
    let req = store wii padding write_buf_req.fields (write_buf_req.values m) in
    omega (arith, length-send_request wii req, length-store wii padding fits)

module _ (l : Link) (padding : ℕ → ℕ) (bytes : (k : ℕ) → padding k < 256) where
  receive_messages-step :
      (k : ℕ) (m : WriteBufReq) (link rest : List ℕ) (r : List WriteBufReq × List ℕ)
      → receive gba write_buf_req (true ∷ false ∷ []) link ≡ some (m, rest)
      → receive_messages k rest ≡ r
      → receive_messages (suc k) link ≡ (m ∷ r.0, r.1)
  unfolding receive_messages
  receive_messages-step k m link rest r got later = rw (got, later, receive_messages) refl

  -- The messages come first, and then what the link yields behind them.
  pub receive_messages-sent :
      (ms : List WriteBufReq) (k : ℕ) (rest : List ℕ)
      → All (Fits write_buf_req) ms
      → receive_messages (length ms + k) (to_gba l (send_messages padding ms) ++ rest)
        ≡ (ms ++ (receive_messages k rest).0, (receive_messages k rest).1)
  unfolding to_gba receive_messages
  receive_messages-sent [] k rest fits =
      ap (λ (t : ℕ). receive_messages t rest) (let e : 0 + k ≡ k = omega arith in e)
  receive_messages-sent (m ∷ ms) k rest fits =
      let link = to_gba l (send_messages padding ms) ++ rest in
      let got =
        receive-send write_buf_req m fits.0 padding l bytes
          (unfold size_of fields_end in omega arith) link in
      ap (λ (t : List ℕ). receive_messages (length (m ∷ ms) + k) (t ++ rest))
        (to_gba-append l (send wii padding write_buf_req m) (send_messages padding ms))
      ∙ ap (receive_messages (length (m ∷ ms) + k)) (
          append_assoc (to_gba l (send wii padding write_buf_req m))
            (to_gba l (send_messages padding ms)) rest)
      ∙ ap (λ (t : ℕ). receive_messages t (to_gba l (send wii padding write_buf_req m) ++ link))
          (let e : suc (length ms) + k ≡ suc (length ms + k) = omega arith in e)
      ∙ receive_messages-step (length ms + k) m
          (to_gba l (send wii padding write_buf_req m) ++ link) link _ got
          (receive_messages-sent ms k rest fits.1)

  -- Each message is a packet at least.
  pub length-send_messages :
      (ms : List WriteBufReq)
      → All (Fits write_buf_req) ms
      → length ms ≤ length (to_gba l (send_messages padding ms))
  length-send_messages [] fits = omega arith
  length-send_messages (m ∷ ms) fits =
      let first_one = send wii padding write_buf_req m in
      omega (
        arith,
        length-to_gba l (first_one ++ send_messages padding ms),
        length-append first_one (send_messages padding ms),
        length-to_gba l (send_messages padding ms),
        length-send_message padding m fits.0,
        length-send_messages ms fits.1,
      )
