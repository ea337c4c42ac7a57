-- ===== src/Poll/Events.antt =====
-- The loop of `sc_mgr_poll` over a batch of new connections, of connections that have gone, and of requests.
use sculpt.Base.{
  arith, ℕ, ◌≡◌, ◌≢◌, refl, Bool, true, false, List, [], ◌∷◌, ◌++◌, ℤ, Distinct, All, ◌⊎◌, inl, inr,
  ◌∙◌, ap, sym, append_assoc,
}
use sculpt.Machine.{Kernel, World, Event, Trace, ok, Cmd}
use sculpt.Machine.Lost.{Lost, Lost-none, Lost-le, Lost-trans}
use sculpt.Machine.Returns.{Returns, returns, and_then-Returns, Returns-mono}
use sculpt.Code.{Code, ok_code, continue_code}
use sculpt.Machine.Occurs.{Occurs-later}
use sculpt.Poll.{go_on, handle_events}
use sculpt.Poll.Batch.{
  strings_of, Peer, slots_of, ApartFds, Batch, end, incoming, leaving, asking, Settled, Steady,
}
use sculpt.Poll.Steps.{Grown, Handled, Leaving-Handled, Asking-Handled, Incoming-Steady}

-- The loop goes on, or ends with the event's code.
go_on-cases :
    (rest : Cmd Code) (r : Code) → (go_on rest r ≡ rest) ⊎ ((go_on rest r ≡ ok r) × (r ≢ ok_code))
unfolding go_on
go_on-cases rest ok_code = inl refl
go_on-cases rest continue_code = inl refl
go_on-cases rest _ = inr (refl, λ e. cc)

Grown-trans : (r s t : Trace) → Grown r s → Grown s t → Grown r t
Grown-trans r s t (a, e) (b, f) = (b ++ a, f ∙ ap (λ x. b ++ x) e ∙ sym (append_assoc b a r))

Settled-later :
    (asks : Bool) (n : ℤ) (s t : Trace) → Grown s t → Settled asks n s → Settled asks n t
Settled-later false n s t (more, e) o = Occurs-later _ t more s e o
Settled-later true n s t (more, e) (msg, (headers, (found, o))) =
    (msg, (headers, (found, Occurs-later _ t more s e o)))

-- All of these were closed or answered.
abbrev pub AllSettled : List Peer → Trace → Type 0
AllSettled ps t = All (λ (p : Peer). Settled p.asks p.fd t) ps

module _ (k : Kernel) (fuel : ℕ) (w : World) where
  -- After the events: the pool is valid, at most two strings of each request are left, and if the loop was not cut short, all the connections were settled.
  abbrev pub Through : List Peer → World → Code → World → Type 0
  Through ps v r u =
      Steady w [] u
      × Grown v.trace u.trace
      × (r ≡ ok_code → AllSettled ps u.trace)
      × Lost v (strings_of ps) u

  Handled-then :
      (v x : World) (p : Peer) (ps : List Peer) (r : Code) (rest : Cmd Code)
      → Handled k fuel w p ps v r x
      → Returns (Through ps x) (rest x)
      → Returns (Through (p ∷ ps) v) (go_on rest r x)
  unfolding go_on
  Handled-then v x p ps r rest (good, st, settled, more, lost) then_rest = rw good (
      Returns-mono then_rest λ q u (fin, more', done, lost'). (
        fin,
        Grown-trans v.trace x.trace u.trace more more',
        λ h. (Settled-later p.asks p.fd x.trace u.trace more' settled, done h),
        Lost-trans v x u _ (strings_of ps) lost lost',
      ))

  -- Where the events of a batch are handled from a valid pool on, each connection in the batch is active, and no two have a
  -- slot or a descriptor in common, the loop of `sc_mgr_poll` ends without a fault in a valid pool, with the manager as it
  -- was but for the pool and the address. If it returns SC_OK, each connection whose peer had gone was closed, and each one that sent
  -- a request was answered, by a handler or with 404.
  pub handle_events-Through :
      {ps : List Peer} {es : List Event} (v : World)
      → Batch k fuel w ps es
      → Steady w ps v
      → Distinct (slots_of ps)
      → ApartFds ps
      → Returns (Through ps v) (handle_events k fuel es v)
  unfolding handle_events go_on
  handle_events-Through v end st apart fds = returns (st, ([], refl), (λ _. tt), Lost-none v v refl)
  handle_events-Through {ps} v (incoming {es = es} e i b) st apart fds =
      and_then-Returns (Incoming-Steady k fuel w v ps e i st) λ r x (st', more, lost).
        elim (go_on-cases (handle_events k fuel es) r) [
          | inl c ↦ rw c (
              Returns-mono (handle_events-Through x b st' apart fds) λ q u (fin, rest, done, lost').
                (
                  fin,
                  Grown-trans v.trace x.trace u.trace more rest,
                  done,
                  Lost-le v u _ (strings_of ps) (omega arith)
                      (Lost-trans v x u 0 (strings_of ps) lost lost'),
                ))
          | inr (c, bad) ↦ rw c (
              returns (
                cut x ps st',
                more,
                (λ good. absurd (bad good)),
                Lost-le v x 0 (strings_of ps) (omega arith) lost,
              ))
        ]
    where
      cut : (x : World) (ps : List Peer) → Steady w ps x → Steady w [] x
      cut x ps st = record {
        slots = st.slots;
        free = st.free;
        valid = st.valid;
        actives = tt;
        mgr = st.mgr;
        fresh = st.fresh;
        quiet = tt;
      }
  handle_events-Through v (leaving {ps} {es} p e quits l b) st apart fds =
      and_then-Returns (Leaving-Handled k fuel w v p ps e quits l st apart.0) λ r x h.
        Handled-then v x p ps r (handle_events k fuel es) h
          (handle_events-Through x b h.1 apart.1 fds.1)
  handle_events-Through v (asking {ps} {es} p e asks a b) st apart fds =
      and_then-Returns (Asking-Handled k fuel w v p ps e asks a st apart.0 fds.0) λ r x h.
        Handled-then v x p ps r (handle_events k fuel es) h
          (handle_events-Through x b h.1 apart.1 fds.1)
