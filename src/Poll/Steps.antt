-- ===== src/Poll/Steps.antt =====
-- One event of a batch: a new connection, a connection that has gone, or a request.
use sculpt.Base.{
  ◌+◌, ℤ, if◌then◌else◌, ℕ, ◌≡◌, refl, true, false, none, some, List, [], ◌∷◌, ◌++◌, ◌==ℤ◌, set,
  has, All, arith, inl, inr, ◌∙◌, ap, sym, subst,
}
use sculpt.Machine.{Conn, Kernel, World, Event, Trace, close, Mgr}
use sculpt.Machine.Reads.{count_reads}
use sculpt.Machine.Since.{Since, now, later, Since-more}
use sculpt.Machine.Lost.{Lost, Lost-none}
use sculpt.Poll.Memory.{Leaves-Lost}
use sculpt.Machine.Returns.{Returns, returns, and_then-Returns, Returns-mono}
use sculpt.Machine.Frame.{Framed, Returns-Ends}
use sculpt.Code.{Code, ok_code}
use sculpt.Pool.Valid.{Valid}
use sculpt.Pool.Frame.{Framed-of_pool}
use sculpt.Machine.Occurs.{Occurs}
use sculpt.Accept.{create_new_connection}
use sculpt.Accept.Outcome.{Outcome, create_new_connection-Outcome}
use sculpt.Accept.Frame.{create_new_connection-Ends}
use sculpt.Endpoints.Dispatch.{Safe, reply}
use sculpt.Poll.{handle_event, existing_conn}
use sculpt.Poll.Ending.{Ending-Valid}
use sculpt.Poll.Close.{hang_up-Closed}
use sculpt.Request.Arrives.{Arrives}
use sculpt.Poll.Paused.{serve-Arrives}
use sculpt.Poll.Batch.{
  Incoming, Peer, slots_of, Leaving, Asking, Active, Settled, Steady, Steady-Framed, Steady-Since,
  Active-set, not-Active-head,
}

-- The history has grown.
abbrev pub Grown : Trace → Trace → Type 0
Grown s t = (more : Trace) × (t ≡ more ++ s)

module _ (w : World) where
  -- What `create_new_connection` leaves, in any of its outcomes.
  Outcome-Steady :
      (k : Kernel) (v u : World) (ps : List Peer) (cs : List Conn) (free : List ℕ) (r : Code)
      → Steady w ps v
      → Valid v.mgr.pool cs free
      → All (Active cs) ps
      → Outcome k v cs free r u
      → Framed v u
      → Steady w ps u
  Outcome-Steady k v u ps cs [] r st valid all (_, same, _) f =
      Steady-Framed w v u ps ps st cs [] (subst (λ (m : Mgr). Valid m.pool cs []) (sym same) valid)
        all st.quiet f
  Outcome-Steady k v u ps cs (j ∷ free) r st valid all (inl a) f =
      Steady-Framed w v u ps ps st _ free a.valid
        (Active-set cs j a.slot ps (not-Active-head v cs j free ps valid all) all) st.quiet f
  Outcome-Steady k v u ps cs (j ∷ free) r st valid all (inr a) f =
      Steady-Framed w v u ps ps st _ (j ∷ free) a.valid
        (Active-set cs j a.slot ps (not-Active-head v cs j free ps valid all) all) st.quiet f

module _ (k : Kernel) (fuel : ℕ) (w : World) where
  -- What the event of a connection leads to: it is settled, and the others wait.
  abbrev pub Handled : Peer → List Peer → World → Code → World → Type 0
  Handled p ps v r u =
      (r ≡ ok_code)
      × Steady w ps u
      × Settled p.asks p.fd u.trace
      × Grown v.trace u.trace
      × Lost v (if p.asks then 2 + p.left else 0) u

  same_fd : (v : World) (ps : List Peer) → Steady w ps v → v.mgr.fd ≡ w.mgr.fd
  same_fd v ps st = ap (λ (m : Mgr). m.fd) st.mgr

  pub Leaving-Handled :
      (v : World) (p : Peer) (ps : List Peer) (e : Event)
      → p.asks ≡ false
      → Leaving k w.mgr.fd p.slot e
      → Steady w (p ∷ ps) v
      → has p.slot (slots_of ps) ≡ false
      → Returns (Handled p ps v) (handle_event k fuel e v)
  unfolding handle_event existing_conn
  Leaving-Handled v p ps e quits l st out =
      let ((c, at_i, on, same), all) = st.actives in
      let other : (k.low_bits p.slot ==ℤ v.mgr.fd) ≡ false =
        ap (λ n. k.low_bits p.slot ==ℤ n) (same_fd v (p ∷ ps) st) ∙ l.other in
      rw (l.err, l.payload, other, l.gone)
        (and_then-Returns (hang_up-Closed k v st.slots st.free p.slot c st.valid at_i on) λ _ u x.
          let since =
            subst (Since none v.trace) (sym x.trace) (later tt (later tt (later tt now))) in
          let closed =
            subst (Occurs (close p.fd)) (sym x.trace) (inr (inl (ap close (sym same)))) in
          returns (
            refl,
            Steady-Framed w v u (p ∷ ps) ps st (set st.slots p.slot x.slot) (p.slot ∷ st.free)
                x.valid (Active-set st.slots p.slot x.slot ps out all) st.quiet.1
                (Framed-of_pool v u x.frame since),
            subst (λ b. Settled b p.fd u.trace) (sym quits) closed,
            Since-more since,
            subst (λ b. Lost v (if b then 2 + p.left else 0) u) (sym quits)
                (Lost-none v u (ap (λ x. x.live) x.frame)),
          ))

  pub Asking-Handled :
      (v : World) (p : Peer) (ps : List Peer) (e : Event)
      → p.asks ≡ true
      → Asking k fuel w p e
      → Steady w (p ∷ ps) v
      → has p.slot (slots_of ps) ≡ false
      → All (λ (q : Peer). (q.fd ==ℤ p.fd) ≡ false) ps
      → Returns (Handled p ps v) (handle_event k fuel e v)
  unfolding handle_event existing_conn
  Asking-Handled v p ps e asks a st out apart =
      let ((c, at_i, on, same), all) = st.actives in
      let other : (k.low_bits p.slot ==ℤ v.mgr.fd) ≡ false =
        ap (λ n. k.low_bits p.slot ==ℤ n) (same_fd v (p ∷ ps) st) ∙ a.other in
      let routes =
        subst (λ (m : Mgr). All (Safe k p.left a.uri) m.endpoints) (sym st.mgr) a.routes in
      let Sent =
        λ (n : ℤ) (m : ℕ). Arrives k fuel n m a.method a.spaces a.uri a.rest a.lines a.pause in
      let arrives : Sent c.fd (count_reads c.fd v.trace) =
        subst (λ n. Sent n (count_reads n v.trace)) (sym same)
          (subst (λ m. Sent p.fd m) (sym st.quiet.0) a.arrives) in
      rw (a.err, a.payload, other, a.stays, a.readable)
        (and_then-Returns
          (serve-Arrives k v st.slots st.free p.slot c st.valid at_i on a.method a.uri a.bytes
            p.left routes a.spaces a.rest a.lines a.pause fuel a.generous (st.fresh a.fresh)
            a.is_request arrives)
          λ _ u x.
            let (slot, (free, valid)) =
              Ending-Valid k v.mgr.epoll_fd st.slots st.free p.slot c.fd _ u x.ending in
            let since = subst (λ n. Since (some n) v.trace u.trace) same x.since in
            let answer : Settled true p.fd u.trace = (
              x.msg,
              (
                x.headers,
                (
                  x.found,
                  subst (λ n. Occurs (reply n x.msg x.headers x.found) u.trace) same x.replied,
                ),
              ),
            ) in
            returns (
              refl,
              Steady-Since w v u (p ∷ ps) ps st (set st.slots p.slot slot) free valid
                  (Active-set st.slots p.slot slot ps out all) st.quiet.1 p.fd apart x.rest x.fresh
                  since,
              subst (λ b. Settled b p.fd u.trace) (sym asks) answer,
              Since-more since,
              subst (λ b. Lost v (if b then 2 + p.left else 0) u) (sym asks)
                  (Leaves-Lost p.left v x.found x.uri_block x.method_block u x.unused x.memory),
            ))

  pub Incoming-Steady :
      (v : World) (ps : List Peer) (e : Event)
      → Incoming w.mgr.fd e
      → Steady w ps v
      → Returns
          (λ r u. Steady w ps u × Grown v.trace u.trace × Lost v 0 u)
          (handle_event k fuel e v)
  unfolding handle_event
  Incoming-Steady v ps e i st =
      let run = create_new_connection k v in
      let test : (w.mgr.fd ==ℤ v.mgr.fd) ≡ true = ground (arith, same_fd v ps st) in
      rw (i.err, i.payload, test)
        (Returns-mono
          (Returns-Ends v run (create_new_connection-Outcome k v st.slots st.free st.valid)
            (create_new_connection-Ends k v))
          λ r u (done, f). (
            Outcome-Steady w k v u ps st.slots st.free r st st.valid st.actives done f,
            Since-more f.since,
            Lost-none v u f.live,
          ))
