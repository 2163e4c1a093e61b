-- ===== src/Server/Main/Answers.antt =====
-- The requests that are answered.
use net_bsd_wii_joybus.Base.{ℕ, ◌≡◌, ◌≤◌}
use net_bsd_wii_joybus.Server.{State, Run, done, vreg, vdir}
use net_bsd_wii_joybus.Server.Handlers.{handle_statvfs}
use net_bsd_wii_joybus.Server.Main.{
  Request, Response, Stack, answer, dispatch, statvfs, readdir, lookup, getattr, create, write,
  read, mkdir, rm, reclaim, setsize, ignored, readdir_sent, lookup_sent, attr_sent, rm_sent,
  setattr_sent,
}
use net_bsd_wii_joybus.Server.Main.Invariant.{CopiesNone, IsPrintable, dispatch-Safe}
use net_bsd_wii_joybus.Server.Safe.{IsState}
use net_bsd_wii_joybus.Server.Ends.{Ends, Ends-bind, Ends-Safe, IsEnding}
use net_bsd_wii_joybus.Server.Ends.Updates.{
  handle_create-Ends, handle_lookup-Ends, handle_rm-Ends, handle_getattr-Ends, handle_readdir-Ends,
  handle_reclaim-Ends, handle_setsize-Ends,
}

answer-Ends : {A : Type 0} (f : A → Response) (r : Run (A × State)) → Ends r → Ends (answer f r)
unfolding answer
answer-Ends f r h = Ends-bind r _ h λ a ran. tt

module _ (fuel : ℕ) (gen : ℕ) (stack : Stack) (s : State) {k : ℕ} (le : k ≤ fuel)
    (h : IsEnding k s.entries) where
  dispatch-Ends : (req : Request) → CopiesNone req → Ends (dispatch fuel gen stack req s)
  unfolding dispatch handle_statvfs
  dispatch-Ends statvfs c = tt
  dispatch-Ends (readdir req) c =
      answer-Ends readdir_sent _ (handle_readdir-Ends s stack.readdir_junk req)
  dispatch-Ends (lookup req) c =
      answer-Ends lookup_sent _ (handle_lookup-Ends fuel s le h stack.lookup_junk req)
  dispatch-Ends (getattr req) c =
      answer-Ends attr_sent _ (handle_getattr-Ends s stack.attr_junk req)
  dispatch-Ends (create req) c =
      answer-Ends attr_sent _ (handle_create-Ends fuel s le h gen vreg stack.attr_junk req)
  dispatch-Ends (write req messages) c = absurd c
  dispatch-Ends (read req) c = absurd c
  dispatch-Ends (mkdir req) c =
      answer-Ends attr_sent _ (handle_create-Ends fuel s le h gen vdir stack.attr_junk req)
  dispatch-Ends (rm req) c = answer-Ends rm_sent _ (handle_rm-Ends fuel s le h stack.rm_junk req)
  dispatch-Ends (reclaim req) c = answer-Ends rm_sent _ (handle_reclaim-Ends s stack.rm_junk req)
  dispatch-Ends (setsize req) c =
      answer-Ends setattr_sent _ (handle_setsize-Ends s stack.setattr_junk req)
  dispatch-Ends (ignored recv) c = tt

  -- In a state whose pointers stay inside the tables, whose entries' names are strings, and in which
  -- the list of children of every entry ends within the fuel, each request is answered but a read, a
  -- write, and a create or mkdir of a name with a `%` or without a 0: the handler ends, with a
  -- response and a state whose pointers stay inside the tables and whose entries' names are strings.
  pub dispatch-answers :
      (n m : ℕ) (req : Request)
      → CopiesNone req
      → IsPrintable req
      → IsState n m s
      → (r : Response × State) × (dispatch fuel gen stack req s ≡ done r) × IsState n m r.1
  dispatch-answers n m req c p v =
      Ends-Safe (λ r. IsState n m r.1) (dispatch fuel gen stack req s) (dispatch-Ends req c)
        (dispatch-Safe fuel gen stack n m req s c p v)
