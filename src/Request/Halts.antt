-- ===== src/Request/Halts.antt =====
-- `parse_all_headers` ends, whatever the client sends, if it stops some time.
use sculpt.Base.{
  ℕ, zero, suc, ◌+◌, ◌≡◌, ◌≢◌, ◌≤◌, ◌<◌, false, none, some, List, [], ◌∷◌, ◌++◌, Bytes, ℤ,
  get_elem?, arith, leb, Bool-cases, ap, sym, subst, ◌∙◌, eq_of_some, inl, inr,
}
use sculpt.Machine.{Kernel, World, Conn, at, out_of_fuel}
use sculpt.Machine.Reads.{count_reads}
use sculpt.Machine.Halts.{
  Any, Halts, halts, Past, and_then-Halts, need-Halts, option_cases, not_out_of_fuel,
}
use sculpt.Pool.Halts.{load_conn-Loaded}
use sculpt.Accept.Halts.{cleanup_after_error-Halts}
use sculpt.Headers.Halts.{header_append-Halts}
use sculpt.Message.Halts.{get_http_msg-Halts}
use sculpt.Reader.Halts.{Finite, next_header-Halts}
use sculpt.Text.{c_string}
use sculpt.Request.{
  Request, keep_line, header_loop, give_up, parse_line, parse_all_headers, max_header_error_count,
}

module _ (k : Kernel) (fd : ℤ) where
  keep_line-Halts :
      (m : ℕ) (line : Bytes) (q : Request) (w : World)
      → m ≤ count_reads fd w.trace
      → Halts (Past fd m) (keep_line k line q w)
  unfolding keep_line
  keep_line-Halts m line q w h =
      and_then-Halts (need-Halts {P = Past fd m} (c_string (line ++ 0 ∷ [])) w (λ s. h)) λ s v g.
        and_then-Halts (header_append-Halts k fd m (at none (line ++ 0 ∷ [])) q.headers v g)
          λ hs u f. halts f

  -- The fuel is enough for a read in each round until the client stops, and for the errors that may follow.
  abbrev Enough : ℕ → ℕ → ℕ → World → Type 0
  Enough n fuel errors w =
      (errors ≤ max_header_error_count)
      × (count_reads fd w.trace < n → n + 13 ≤ fuel + count_reads fd w.trace)
      × (n ≤ count_reads fd w.trace → 13 ≤ fuel + errors)

  Enough-error :
      (n fuel errors : ℕ) (w v : World)
      → Enough n (suc fuel) errors w
      → leb max_header_error_count errors ≡ false
      → count_reads fd w.trace < count_reads fd v.trace
      → Enough n fuel (suc errors) v
  Enough-error n fuel errors w v (few, before, past) test more = (
    ground (arith, test),
    λ b. omega (arith, before (omega (arith, b, more)), more),
    λ p. elim (Bool-cases (leb n (count_reads fd w.trace))) [
      | inl e ↦ omega (arith, past (ground (arith, e)))
      | inr e ↦
          (let b : count_reads fd w.trace < n = ground (arith, e) in omega (arith, b, before b))
    ],
  )

  header_loop-Halts :
      (n : ℕ)
      → Finite k fd n
      → (fuel errors : ℕ) (q : Request) (w : World) → Enough n fuel errors w
      → Halts Any (header_loop k fd fuel errors q w)
  unfolding header_loop
  header_loop-Halts n finite zero errors q w (few, before, past) =
      elim (Bool-cases (leb n (count_reads fd w.trace))) [
        | inl e ↦ absurd (omega (arith, few, past (ground (arith, e))))
        | inr e ↦
            absurd
              (let b : count_reads fd w.trace < n = ground (arith, e) in omega (arith, b, before b))
      ]
  header_loop-Halts n finite (suc fuel) errors q w (few, before, past) =
      elim (Bool-cases (leb max_header_error_count errors)) [
        | inl e ↦ rw e (halts tt)
        | inr e ↦ rw e (
            and_then-Halts (next_header-Halts k fd n 1022 w finite) λ r v (told, more). elim told [
              | inl f ↦ rw f (halts tt)
              | inr (inl (f, start)) ↦ rw f (
                  and_then-Halts
                    (keep_line-Halts (suc (count_reads fd w.trace)) r.1 q v (omega (arith, more)))
                    λ q' u later. header_loop-Halts n finite fuel 0 q' u (
                      omega arith,
                      (λ b. omega (arith, before start, later)),
                      λ p. omega (arith, before start, start),
                    ))
              | inr (inr (inl (f, start))) ↦ rw f (
                  header_loop-Halts n finite fuel (suc errors) q v
                    (Enough-error n fuel errors w v (few, before, past) e more))
              | inr (inr (inr f)) ↦ rw f (
                  header_loop-Halts n finite fuel (suc errors) q v
                    (Enough-error n fuel errors w v (few, before, past) e more))
            ])
      ]

module _ (k : Kernel) (i : ℕ) (fuel m : ℕ) where
  give_up-Halts : (q : Request) (v : World) → Halts Any (give_up k i q v)
  unfolding give_up
  give_up-Halts q v = and_then-Halts (cleanup_after_error-Halts k (some i) v) λ _ u h. halts tt

  parse_line-Halts :
      (fd : ℤ) (line : Bytes) (q : Request) (v : World)
      → Finite k fd m
      → 13 ≤ fuel
      → m + 13 ≤ fuel + count_reads fd v.trace
      → Halts Any (parse_line k fuel i fd line q v)
  unfolding parse_line
  parse_line-Halts fd line q v finite some_fuel enough =
      and_then-Halts
        (get_http_msg-Halts k fd (count_reads fd v.trace) (at none (line ++ 0 ∷ [])) v
          (omega arith))
        λ r u g. elim (option_cases r.1) [
          | inl e ↦ rw e (give_up-Halts q u)
          | inr (msg, e) ↦ rw e (
              header_loop-Halts k fd m finite fuel 0 _ u
                (omega arith, (λ b. omega (arith, enough, g)), λ p. omega (arith, some_fuel)))
        ]

  pub parse_all_headers-Halts :
      (q : Request) (w : World)
      → ((cs : List Conn) (c : Conn)
          → w.mgr.pool.conns ≡ some cs
          → get_elem? cs i ≡ some c
          → Finite k c.fd m × (m + 13 ≤ fuel + count_reads c.fd w.trace))
      → 13 ≤ fuel
      → Halts Any (parse_all_headers k fuel i q w)
  unfolding parse_all_headers
  parse_all_headers-Halts q w known some_fuel =
      and_then-Halts (load_conn-Loaded i w) λ c u (same, (cs, array, at_i)).
        let (finite, enough) = known cs c array at_i in
        let start : count_reads c.fd u.trace ≡ count_reads c.fd w.trace =
          ap (λ (x : World). count_reads c.fd x.trace) same in
        and_then-Halts (next_header-Halts k c.fd m 1022 u finite) λ r v (told, more).
          let go_on =
            parse_line-Halts c.fd r.1 q v finite some_fuel (omega (arith, enough, start, more)) in
          elim told [
            | inl f ↦ rw f go_on
            | inr (inl (f, _)) ↦ rw f go_on
            | inr (inr (inl (f, _))) ↦ rw f (give_up-Halts q v)
            | inr (inr (inr f)) ↦ rw f (give_up-Halts q v)
          ]

-- Where the connection in a slot sends at most `n` more bytes, whatever they are, and then ends, fails or would
-- block, `parse_all_headers` does not run for ever: `n + 13` rounds of the loop over the headers are enough for it to end.
parse_all_headers-Finite :
    (k : Kernel) (w : World) (cs : List Conn) (i : ℕ) (c : Conn) (fuel n : ℕ) (q : Request)
    → w.mgr.pool.conns ≡ some cs
    → get_elem? cs i ≡ some c
    → Finite k c.fd (count_reads c.fd w.trace + n)
    → n + 13 ≤ fuel
    → parse_all_headers k fuel i q w ≢ out_of_fuel
parse_all_headers-Finite k w cs i c fuel n q array at_i finite enough =
    not_out_of_fuel {P = Any} _ (
      parse_all_headers-Halts k i fuel (count_reads c.fd w.trace + n) q w
        (λ ds d array' at_i'.
          let same : cs ≡ ds = eq_of_some (sym array ∙ array') in
          let conn : c ≡ d = eq_of_some (sym at_i ∙ ap (λ l. get_elem? l i) same ∙ at_i') in
          subst
            (λ e.
              Finite k e.fd (count_reads c.fd w.trace + n)
              × (count_reads c.fd w.trace + n + 13 ≤ fuel + count_reads e.fd w.trace))
            conn (finite, omega (arith, enough)))
        (omega (arith, enough)))
