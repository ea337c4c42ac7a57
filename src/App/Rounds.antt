-- ===== src/App/Rounds.antt =====
-- The loop of `main`: round after round of `sc_mgr_poll`, until the signal comes.
use sculpt.Base.{ap, arith, ℕ, suc, ◌+◌, ◌≡◌, refl, true, none, some, List, pos, Distinct, All, ◌∙◌}
use sculpt.Machine.{Mgr, Conn, Kernel, World, Event, ok}
use sculpt.Machine.Lost.{Lost, Lost-none, Lost-le, Lost-trans}
use sculpt.Machine.Returns.{Returns, returns, Returns-ok, Returns-mono}
use sculpt.Code.{Code}
use sculpt.Pool.{conns_cleanup}
use sculpt.Pool.Valid.{Valid}
use sculpt.Poll.{poll}
use sculpt.Poll.Batch.{strings_of, Batch, Active, ApartFds, slots_of, Peer}
use sculpt.Poll.Round.{waiting, poll-Served, poll_unready, swept-Framed}
use sculpt.App.{poll_rounds}

-- In the world `v`, after the sweep, epoll gives a batch that poll-Served allows.
pub record Round (k : Kernel) (fuel : ℕ) (v : World) (ps : List Peer) : Type 0 where
  pub events : List Event
  pub ready : k.ready (waiting (pos 1000) v).trace ≡ some events
  pub batch : Batch k fuel (waiting (pos 1000) v) ps events
  pub actives : (ds : List Conn) → v.mgr.pool.conns ≡ some ds → All (Active ds) ps
  pub slots : Distinct (slots_of ps)
  pub fds : ApartFds ps

-- From the world `w` on, the loop runs for a number of rounds until the signal comes, in which at most so many strings of requests can be
-- left behind. In each round epoll gives a batch, or `epoll_wait` fails; what comes next depends on how the round ends.
pub data Calm (k : Kernel) (fuel : ℕ) : (rounds strings : ℕ) → World → Type 0 where
  signal : {w : World} → Calm k fuel 0 0 w
  served :
      {n m : ℕ} {w v : World} (ps : List Peer)
      → conns_cleanup k w ≡ ok tt v
      → Round k fuel v ps
      → ((r : Code) (u : World) → poll k fuel true (pos 1000) w ≡ ok r u → Calm k fuel n m u)
      → Calm k fuel (suc n) (strings_of ps + m) w
  failed :
      {n m : ℕ} {w v : World}
      → conns_cleanup k w ≡ ok tt v
      → k.ready (waiting (pos 1000) v).trace ≡ none
      → ((r : Code) (u : World) → poll k fuel true (pos 1000) w ≡ ok r u → Calm k fuel n m u)
      → Calm k fuel (suc n) m w

-- From `w` on the manager was kept, but for its pool, which is valid, and its address, and at most `n` blocks were lost.
pub record Kept (w : World) (n : ℕ) (v : World) : Type 0 where
  pub slots : List Conn
  pub free : List ℕ
  pub valid : Valid v.mgr.pool slots free
  pub mgr : v.mgr ≡ record (w.mgr) { pool = v.mgr.pool; addr_info = v.mgr.addr_info }
  pub lost : Lost w n v

Kept-trans : (w v u : World) (n m l : ℕ) → n + m ≡ l → Kept w n v → Kept v m u → Kept w l u
Kept-trans w v u n m l e a b = record {
  slots = b.slots;
  free = b.free;
  valid = b.valid;
  mgr = b.mgr ∙ ap (λ (g : Mgr). record g { pool = u.mgr.pool; addr_info = u.mgr.addr_info }) a.mgr;
  lost = Lost-le w u (n + m) l (omega (arith, e)) (Lost-trans w v u n m a.lost b.lost);
}

module _ (k : Kernel) (fuel : ℕ) (w v : World) (cs : List Conn) (free : List ℕ)
    (valid : Valid w.mgr.pool cs free) (swept : conns_cleanup k w ≡ ok tt v) where
  served-Kept :
      (ps : List Peer)
      → Round k fuel v ps
      → Returns (λ _ u. Kept w (strings_of ps) u) (poll k fuel true (pos 1000) w)
  served-Kept ps r =
      let (_, u, e, ((ds, (free', valid')), mgr, _, lost, _)) = Returns-ok (
        poll-Served k fuel (pos 1000) w v cs free valid swept ps r.events r.ready r.batch r.actives
          r.slots r.fds) in
      rw e (returns (record { slots = ds; free = free'; valid = valid'; mgr = mgr; lost = lost }))

  -- A wait that fails.
  failed-Kept :
      k.ready (waiting (pos 1000) v).trace ≡ none
      → Returns (λ _ u. Kept w 0 u) (poll k fuel true (pos 1000) w)
  failed-Kept unready =
      let ((ds, (free', valid'), _, _), frame) =
        swept-Framed k fuel (pos 1000) w v cs free valid swept in
      Returns-mono (poll_unready k fuel (pos 1000) w v cs free valid swept unready) λ r u e.
        rw e (record {
          slots = ds;
          free = free';
          valid = valid';
          mgr = frame.mgr;
          lost = Lost-none w (waiting (pos 1000) v) frame.live;
        })

-- The loop ends without a fault.
pub poll_rounds-Kept :
    {k : Kernel} {fuel rounds m : ℕ} (w : World) (cs : List Conn) (free : List ℕ)
    → Valid w.mgr.pool cs free
    → Calm k fuel rounds m w
    → Returns (λ _ u. Kept w m u) (poll_rounds k fuel rounds w)
unfolding poll_rounds
poll_rounds-Kept w cs free valid signal =
    returns
      (record { slots = cs; free = free; valid = valid; mgr = refl; lost = Lost-none w w refl })
poll_rounds-Kept {k = k} {fuel = fuel} w cs free valid (served ps swept round next) =
    let (r, u, e, kept) = Returns-ok (served-Kept k fuel w _ cs free valid swept ps round) in
    let (_, x, f, rest) =
      Returns-ok (poll_rounds-Kept u kept.slots kept.free kept.valid (next r u e)) in
    rw (e, f) (returns (Kept-trans w u x (strings_of ps) _ _ refl kept rest))
poll_rounds-Kept {k = k} {fuel = fuel} w cs free valid (failed swept ready next) =
    let (r, u, e, kept) = Returns-ok (failed-Kept k fuel w _ cs free valid swept ready) in
    let (_, x, f, rest) =
      Returns-ok (poll_rounds-Kept u kept.slots kept.free kept.valid (next r u e)) in
    rw (e, f) (returns (Kept-trans w u x 0 _ _ (omega arith) kept rest))
