-- ===== src/Poll/Batch.antt =====
-- A batch of events, and what is known of the connections in it while it is handled.
use sculpt.Base.{
  ◌+◌, if◌then◌else◌, ℕ, ◌≡◌, refl, Bool, true, false, ◌||◌, Option, none, some, List, [], ◌∷◌,
  Bytes, ℤ, ◌==ℤ◌, get_elem?, set, has, All, arith, ◌∙◌, ap, sym, get_elem?-set_ne,
}
use sculpt.Machine.{
  Conn, Kernel, World, Event, HttpMsg, Header, Endpoint, Mgr, Trace, close, fd, ptr,
}
use sculpt.Machine.Reads.{count_reads}
use sculpt.Machine.Since.{Since, Since-none, Since-quiet}
use sculpt.Machine.Holding.{Fresh}
use sculpt.Machine.Frame.{Framed, Framed-Fresh}
use sculpt.Pool.{is_active}
use sculpt.Pool.Valid.{Valid}
use sculpt.Pool.Slots.{not-has_of_active}
use sculpt.Machine.Occurs.{Occurs}
use sculpt.Str.Order.{IsByte}
use sculpt.Headers.Append.{Generous}
use sculpt.Endpoints.Dispatch.{Safe, reply}
use sculpt.Request.Arrives.{Arrives}
use sculpt.Request.Received.{IsRequest}

-- A new connection on the socket `sfd`.
pub record Incoming (sfd : ℤ) (e : Event) : Type 0 where
  pub err : e.err ≡ false
  pub payload : e.payload ≡ fd sfd

-- A connection: its slot and its descriptor, whether it sends a request or has gone, and how many blocks the handler of its request may lose.
pub record Peer : Type 0 where
  pub slot : ℕ
  pub fd : ℤ
  pub asks : Bool
  pub left : ℕ

abbrev pub slots_of : List Peer → List ℕ
slots_of [] = []
slots_of (p ∷ ps) = p.slot ∷ slots_of ps

-- The blocks that their requests can leave behind.
abbrev pub strings_of : List Peer → ℕ
strings_of [] = 0
strings_of (p ∷ ps) = (if p.asks then 2 + p.left else 0) + strings_of ps

-- Their descriptors differ.
abbrev pub ApartFds : List Peer → Type 0
ApartFds [] = Unit
ApartFds (p ∷ ps) = All (λ (q : Peer). (q.fd ==ℤ p.fd) ≡ false) ps × ApartFds ps

-- The peer of the connection in slot `i` has gone. The low half of the slot's address is not the socket's descriptor.
pub record Leaving (k : Kernel) (sfd : ℤ) (i : ℕ) (e : Event) : Type 0 where
  pub err : e.err ≡ false
  pub payload : e.payload ≡ ptr (some i)
  pub other : (k.low_bits i ==ℤ sfd) ≡ false
  pub gone : (e.hup || e.rdhup) ≡ true

-- From the world `w` on, the connection sends a well-formed request, whole or up to a pause, there is memory for it, and the endpoints have paths.
pub record Asking (k : Kernel) (fuel : ℕ) (w : World) (p : Peer) (e : Event) : Type 0 where
  pub err : e.err ≡ false
  pub payload : e.payload ≡ ptr (some p.slot)
  pub other : (k.low_bits p.slot ==ℤ w.mgr.fd) ≡ false
  pub stays : (e.hup || e.rdhup) ≡ false
  pub readable : e.readable ≡ true
  pub method : Bytes
  pub spaces : ℕ
  pub uri : Bytes
  pub rest : Bytes
  pub lines : List Bytes
  pub bytes : All IsByte uri
  pub is_request : IsRequest method spaces uri rest lines
  pub pause : Option Bytes
  pub arrives : Arrives k fuel p.fd (count_reads p.fd w.trace) method spaces uri rest lines pause
  pub generous : Generous k
  pub fresh : Fresh w
  pub routes : All (Safe k p.left uri) w.mgr.endpoints

-- The events that epoll gives in the world `w`, with the connections among them, in order.
pub data Batch (k : Kernel) (fuel : ℕ) (w : World) : List Peer → List Event → Type 0 where
  end : Batch k fuel w [] []
  incoming :
      {ps : List Peer} {es : List Event} (e : Event)
      → Incoming w.mgr.fd e
      → Batch k fuel w ps es
      → Batch k fuel w ps (e ∷ es)
  leaving :
      {ps : List Peer} {es : List Event} (p : Peer) (e : Event)
      → p.asks ≡ false
      → Leaving k w.mgr.fd p.slot e
      → Batch k fuel w ps es
      → Batch k fuel w (p ∷ ps) (e ∷ es)
  asking :
      {ps : List Peer} {es : List Event} (p : Peer) (e : Event)
      → p.asks ≡ true
      → Asking k fuel w p e
      → Batch k fuel w ps es
      → Batch k fuel w (p ∷ ps) (e ∷ es)

-- A connection that has gone was closed; one that asked was answered.
abbrev pub Settled : Bool → ℤ → Trace → Type 0
Settled false n t = Occurs (close n) t
Settled true n t =
    (msg : HttpMsg) × ((headers : List Header) × ((found : Option Endpoint) × Occurs
          (reply n msg headers found) t))

-- The slot holds this connection, and it is active.
abbrev pub Active : List Conn → Peer → Type 0
Active cs p =
    (c : Conn) × (get_elem? cs p.slot ≡ some c) × (is_active c.state ≡ true) × (c.fd ≡ p.fd)

-- Nothing was read from these.
abbrev pub Quiet : World → List Peer → World → Type 0
Quiet w ps v = All (λ (p : Peer). count_reads p.fd v.trace ≡ count_reads p.fd w.trace) ps

-- In the midst of a batch that began in `w`: a valid pool, in which the connections that are left are still active and have
-- not been read from, and the rest of the manager is as it was.
pub record Steady (w : World) (ps : List Peer) (v : World) : Type 0 where
  pub slots : List Conn
  pub free : List ℕ
  pub valid : Valid v.mgr.pool slots free
  pub actives : All (Active slots) ps
  pub mgr : v.mgr ≡ record (w.mgr) { pool = v.mgr.pool; addr_info = v.mgr.addr_info }
  pub fresh : Fresh w → Fresh v
  pub quiet : Quiet w ps v

Quiet-trans : (w v u : World) (ps : List Peer) → Quiet w ps v → Quiet v ps u → Quiet w ps u
Quiet-trans w v u [] q r = tt
Quiet-trans w v u (p ∷ ps) (e, q) (f, r) = (f ∙ e, Quiet-trans w v u ps q r)

pub Quiet-none : (w v : World) (ps : List Peer) → Since none w.trace v.trace → Quiet w ps v
Quiet-none w v [] s = tt
Quiet-none w v (p ∷ ps) s = (Since-none p.fd s, Quiet-none w v ps s)

Quiet-some :
    (w v : World) (n : ℤ) (ps : List Peer)
    → All (λ (q : Peer). (q.fd ==ℤ n) ≡ false) ps
    → Since (some n) w.trace v.trace
    → Quiet w ps v
Quiet-some w v n [] apart s = tt
Quiet-some w v n (p ∷ ps) (ne, apart) s = (Since-quiet n p.fd ne s, Quiet-some w v n ps apart s)

module _ (w v u : World) (ps qs : List Peer) (st : Steady w ps v) (slots : List Conn)
    (free : List ℕ) (valid : Valid u.mgr.pool slots free) (actives : All (Active slots) qs)
    (quiet : Quiet w qs v) where
  -- One more step, that leaves the memory alone and reads nothing.
  pub Steady-Framed : Framed v u → Steady w qs u
  Steady-Framed f = record {
    slots = slots;
    free = free;
    valid = valid;
    actives = actives;
    mgr =
        f.mgr
        ∙ ap (λ (m : Mgr). record m { pool = u.mgr.pool; addr_info = u.mgr.addr_info }) st.mgr;
    fresh = λ h. Framed-Fresh v u f (st.fresh h);
    quiet = Quiet-trans w v u qs quiet (Quiet-none v u qs f.since);
  }

  -- One more step, that reads from one descriptor.
  pub Steady-Since :
      (n : ℤ)
      → All (λ (q : Peer). (q.fd ==ℤ n) ≡ false) qs
      → u.mgr ≡ record (v.mgr) { pool = u.mgr.pool }
      → Fresh u
      → Since (some n) v.trace u.trace
      → Steady w qs u
  Steady-Since n apart mgr fresh since = record {
    slots = slots;
    free = free;
    valid = valid;
    actives = actives;
    mgr =
        mgr
        ∙ ap {B = Mgr} (λ a. record (v.mgr) { pool = u.mgr.pool; addr_info = a })
            (sym (ap (λ (m : Mgr). m.addr_info) mgr))
        ∙ ap (λ (m : Mgr). record m { pool = u.mgr.pool; addr_info = u.mgr.addr_info }) st.mgr;
    fresh = λ h. fresh;
    quiet = Quiet-trans w v u qs quiet (Quiet-some v u n qs apart since);
  }

-- A write to a slot that none of them has.
pub Active-set :
    (cs : List Conn) (j : ℕ) (d : Conn) (ps : List Peer)
    → has j (slots_of ps) ≡ false
    → All (Active cs) ps
    → All (Active (set cs j d)) ps
Active-set cs j d [] out all = tt
Active-set cs j d (p ∷ ps) out ((c, at_i, on, same), all) = (
  (c, get_elem?-set_ne cs j p.slot d (λ e. ground (arith, out, e)) ∙ at_i, on, same),
  Active-set cs j d ps (ground (arith, out)) all,
)

-- The head of a valid pool's free list is not active.
pub not-Active-head :
    (w : World) (cs : List Conn) (i : ℕ) (free : List ℕ) (ps : List Peer)
    → Valid w.mgr.pool cs (i ∷ free)
    → All (Active cs) ps
    → has i (slots_of ps) ≡ false
not-Active-head w cs i free [] valid all = refl
not-Active-head w cs i free (p ∷ ps) valid ((c, at_j, on, _), all) =
    let out = not-has_of_active cs _ (i ∷ free) p.slot c valid.chain at_j on in
    ground (arith, out, not-Active-head w cs i free ps valid all)
