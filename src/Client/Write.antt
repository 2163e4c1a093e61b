-- ===== src/Client/Write.antt =====
-- A write, from the loop of `puffboy_node_write` through that of `handle_write_request`.
use mathlib.Core.Path.{subst}
use net_bsd_wii_joybus.Base.{
  ℕ, map, zero, suc, ◌+◌, ◌-◌, ◌/◌, ◌%◌, ◌^◌, ◌≤◌, ◌<◌, min, ◌≡◌, ◌≢◌, refl, ap, ◌∙◌, arith, List,
  [], ◌∷◌, inl, inr, ◌⊎◌, ltb, leb, ◌&&◌, ◌==◌, ==_ne, if◌then◌else◌, length, get_elem?, drop,
  length-drop, get_elem?-drop, Bool-cases,
}
use net_bsd_wii_joybus.Message.{WriteBufReq, WriteBufResp}
use net_bsd_wii_joybus.Server.{Block, Run, done}
use net_bsd_wii_joybus.Server.Blocks.{blank, Cursor, copy_loop, write_loop}
use net_bsd_wii_joybus.Server.Blocks.Take.{free_count, copies, stored}
use net_bsd_wii_joybus.Server.Blocks.Copy.{
  IsWhole, file_byte, Written, Covers, copy_loop-Written, length-splice, get_elem?-splice,
}
use net_bsd_wii_joybus.Client.{write_message, node_write_loop}

-- The bytes of the file from `off` on are `src`, and nothing else is different.
pub record Stores (id off : ℕ) (src : List ℕ) (bs bs' : List Block) : Type 0 where
  pub bytes :
      (o : ℕ)
      → file_byte id o bs' ≡ (
          if leb off o && ltb o (off + length src)
          then get_elem? src (o - off)
          else file_byte id o bs)
  pub others : (id' j : ℕ) → id' ≢ id → stored id' j bs' ≡ stored id' j bs
  pub same_copies : (id' j : ℕ) → copies id' j bs' ≡ copies id' j bs
  pub same_free : free_count bs' ≡ free_count bs
  pub whole : IsWhole bs'

-- A write that the protocol can carry: it starts a block, or one message is enough for it.
abbrev pub IsAligned : ℕ → List ℕ → Type 0
IsAligned off src = (off % 128 ≡ 0) ⊎ (length src ≤ 128)

length-blank : length blank ≡ 128
unfolding blank
length-blank = refl

pub message-size : (src : List ℕ) → length (write_message src).buf ≡ 128
unfolding write_message
message-size src = omega (
  arith,
  length-blank,
  length-splice blank 0 (min (length src) 128) src (omega (arith, length-blank)) (omega arith),
)

message-bytes :
    (src : List ℕ) (j : ℕ)
    → j < min (length src) 128
    → get_elem? (write_message src).buf j ≡ get_elem? src j
unfolding write_message
message-bytes src j h = ground (
  arith,
  get_elem?-splice blank 0 (min (length src) 128) src j (omega (arith, length-blank)) (omega arith),
)

module _ (id : ℕ) (reply : WriteBufResp) (ok : reply.err ≡ 0) where
  write_loop-step :
      (m : WriteBufReq) (ms : List WriteBufReq) (c c' c'' : Cursor) (out : List WriteBufResp)
      → c.resid ≢ 0
      → copy_loop (suc m.buflen) id m.buf m.buflen 0 c ≡ done c'
      → write_loop id reply ms c' ≡ done (out, c'')
      → write_loop id reply (m ∷ ms) c ≡ done (reply ∷ out, c'')
  unfolding write_loop
  write_loop-step m ms c c' c'' out more one later = rw (==_ne c.resid 0 more, one, later) refl

  Stores-join :
      (off n : ℕ) (src : List ℕ) (bs bs' bs'' : List Block)
      → n ≡ min (length src) 128
      → Written id off n 0 (write_message src).buf bs bs'
      → Stores id (off + n) (drop n src) bs' bs''
      → Stores id off src bs bs''
  Stores-join off n src bs bs' bs'' is_n w s = record {
    bytes = λ o. ground (
      arith,
      s.bytes o,
      w.bytes o,
      length-drop n src,
      get_elem?-drop n src (o - (off + n)),
      message-bytes src (o - off),
      same_place o,
      from_start o,
    );
    others = λ id' j apart. s.others id' j apart ∙ w.others id' j apart;
    same_copies = λ id' j. s.same_copies id' j ∙ w.same_copies id' j;
    same_free = s.same_free ∙ w.same_free;
    whole = s.whole;
  }
    where
      same_place :
          (o : ℕ) → off + n ≤ o → get_elem? src (n + (o - (off + n))) ≡ get_elem? src (o - off)
      same_place o h = ap (get_elem? src) (omega arith)

      from_start :
          (o : ℕ)
          → get_elem? (write_message src).buf (0 + (o - off))
            ≡ get_elem? (write_message src).buf (o - off)
      from_start o = ap (get_elem? (write_message src).buf) (omega arith)

  Stores-empty :
      (off : ℕ) (src : List ℕ) (bs : List Block)
      → length src ≡ 0
      → IsWhole bs
      → Stores id off src bs bs
  Stores-empty off src bs e whole = record {
    bytes = λ o. ground arith;
    others = λ id' j apart. refl;
    same_copies = λ id' j. refl;
    same_free = refl;
    whole = whole;
  }

  pub node_write_loop-step :
      (fuel n : ℕ) (src : List ℕ)
      → length src ≢ 0
      → n ≡ min (length src) 128
      → node_write_loop (suc fuel) reply src ≡ record (node_write_loop fuel reply (drop n src)) {
        messages = write_message src ∷ (node_write_loop fuel reply (drop n src)).messages;
      }
  unfolding node_write_loop
  node_write_loop-step fuel n src more is_n = rw (==_ne (length src) 0 more, ok, ← is_n) refl

  -- The message that takes the next `n` bytes of the source.
  pub first_message :
      (n : ℕ) (src : List ℕ) (c : Cursor) (r : Run Cursor)
      → n ≡ min (length src) 128
      → copy_loop (suc n) id (write_message src).buf n 0 c ≡ r
      → copy_loop
          (suc (write_message src).buflen)
          id
          (write_message src).buf
          (write_message src).buflen
          0
          c
        ≡ r
  unfolding write_message
  first_message n src c r is_n ran =
      subst (λ t. copy_loop (suc t) id (write_message src).buf t 0 c ≡ r) is_n ran

  pub node_write_loop-empty :
      (fuel : ℕ) (src : List ℕ)
      → length src ≡ 0
      → node_write_loop fuel reply src ≡ record { messages = []; resid = 0; err = 0 }
  unfolding node_write_loop
  node_write_loop-empty zero src e = ground arith
  node_write_loop-empty (suc fuel) src e = rw e refl

  abbrev pub Outcome : ℕ → ℕ → List ℕ → List Block → Type 0
  Outcome fuel off src bs =
      (out : List WriteBufResp) × (bs' : List Block) × (write_loop id reply
          (node_write_loop fuel reply src).messages
          (record { offset = off; resid = length src; blocks = bs })
        ≡ done (out, record { offset = off + length src; resid = 0; blocks = bs' }))
      × (out ≡ map (λ m. reply) (node_write_loop fuel reply src).messages)
      × ((node_write_loop fuel reply src).resid ≡ 0)
      × ((node_write_loop fuel reply src).err ≡ 0)
      × Stores id off src bs bs'

  write_empty :
      (fuel off : ℕ) (src : List ℕ) (bs : List Block)
      → length src ≡ 0
      → IsWhole bs
      → Outcome fuel off src bs
  unfolding write_loop
  write_empty fuel off src bs e whole =
      rw (node_write_loop-empty fuel src e)
        ([], bs, ground arith, refl, refl, refl, Stores-empty off src bs e whole)

  write_more :
      (fuel off n : ℕ) (src : List ℕ) (bs bs' : List Block)
      → length src ≢ 0
      → n ≡ min (length src) 128
      → copy_loop
          (suc n)
          id
          (write_message src).buf
          n
          0
          (record { offset = off; resid = length src; blocks = bs })
        ≡ done (record { offset = off + n; resid = length src - n; blocks = bs' })
      → Written id off n 0 (write_message src).buf bs bs'
      → Outcome fuel (off + n) (drop n src) bs'
      → Outcome (suc fuel) off src bs
  write_more fuel off n src bs bs' more is_n ran w (out, bs'', later, answers, left, err, s) =
      rw (node_write_loop-step fuel n src more is_n) (
        reply ∷ out,
        bs'',
        write_loop-step (write_message src) _ _ _ _ out more (first_message n src _ _ is_n ran) (
            subst
              (λ t.
                write_loop id reply (node_write_loop fuel reply (drop n src)).messages
                  (record { offset = off + n; resid = t; blocks = bs' })
                ≡ done (out, record { offset = off + length src; resid = 0; blocks = bs'' }))
              (length-drop n src)
              (later
                ∙ ap (λ (t : ℕ). done (out, record { offset = t; resid = 0; blocks = bs'' }))
                    ends)),
        ap (λ t. reply ∷ t) answers,
        left,
        err,
        Stores-join off n src bs bs' bs'' is_n w s,
      )
    where
      ends : off + n + length (drop n src) ≡ off + length src
      ends = omega (arith, length-drop n src)

  -- A write below 2 ^ 39 that starts at a block's start, or needs one message only, and whose
  -- blocks the file has, while the GBA answers with `err = 0`: the loop of `puffboy_node_write` sends
  -- everything and returns 0, the loop of `handle_write_request` takes all its messages, with one
  -- answer to each, and ends, and afterwards the file holds exactly the caller's bytes at the offset, with its other bytes,
  -- the blocks of all other ids and the number of free blocks as before.
  pub node_write-Stores :
      (fuel off : ℕ) (src : List ℕ) (bs : List Block)
      → length src ≤ fuel
      → IsAligned off src
      → off + length src < 2 ^ 39
      → IsWhole bs
      → Covers id off (off + length src) bs
      → Outcome fuel off src bs
  node_write-Stores zero off src bs le aligned small whole cov =
      write_empty zero off src bs (omega arith) whole
  node_write-Stores (suc fuel) off src bs le aligned small whole cov =
      elim (Bool-cases (length src == 0)) [
        | inl nothing ↦ write_empty (suc fuel) off src bs (ground arith) whole
        | inr some_left ↦
            let n = min (length src) 128 in
            let (bs', ran, w) =
              copy_loop-Written id (suc n) (write_message src).buf n 0
                (record { offset = off; resid = length src; blocks = bs }) (omega arith)
                (message-size src) (omega arith) (ground (arith, aligned)) (omega arith) whole
                (λ o lo hi. cov o lo (omega arith)) in
            let left = length-drop n src in
            write_more fuel off n src bs bs' (ground arith) refl ran w (
              node_write-Stores fuel (off + n) (drop n src) bs' (ground (arith, left))
                (ground (arith, left, aligned)) (omega (arith, left)) w.whole
                (λ o lo hi.
                  rw (w.same_copies id (o / 128)) (cov o (omega arith) (omega (arith, left)))))
      ]
