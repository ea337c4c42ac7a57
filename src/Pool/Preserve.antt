-- ===== src/Pool/Preserve.antt =====
-- The three writes to a slot that the pool's functions make, and the invariant after each.
use sculpt.Base.{
  ℕ, ◌≡◌, refl, true, false, some, List, ◌∷◌, sym, get_elem?, set, arith, length-set,
  get_elem?-set_self, lt_of_get_elem?, pos, ◌+ℤ◌, ◌-ℤ◌, succ_ℤ-pos, pred_ℤ-pos, ap, ◌∙◌,
}
use sculpt.Machine.{Conn, Pool}
use sculpt.Pool.{is_active}
use sculpt.Pool.Valid.{actives, Chain, Valid}
use sculpt.Pool.Slots.{
  actives-set_claim, actives-set_give, actives-set_still, Complete-claim, Complete-give,
  Complete-still, Chain-set, not-has_of_active,
}

module _ (p : Pool) (cs : List Conn) (i : ℕ) (c v : Conn) (at_i : get_elem? cs i ≡ some c) where
  -- The first free slot becomes active and leaves the list.
  pub claim-Valid :
      (free : List ℕ)
      → Valid p cs (i ∷ free)
      → is_active c.state ≡ false
      → is_active v.state ≡ true
      → Chain cs c.next free
      → Valid
          (record p {
            conns = some (set cs i v);
            free_conns = c.next;
            conn_count = p.conn_count +ℤ pos 1;
          })
          (set cs i v)
          free
  claim-Valid free valid off on rest =
      let more = actives-set_claim cs i c v at_i off on in
      record {
        array = refl;
        chain = Chain-set cs c.next free i v valid.distinct.0 rest;
        distinct = valid.distinct.1;
        complete = Complete-claim cs i c v free at_i on valid.complete;
        size = valid.size ∙ ap pos (sym (length-set cs i v));
        count = ap (λ n. n +ℤ pos 1) valid.count ∙ succ_ℤ-pos (actives cs) ∙ ap pos (sym more);
        total = omega (arith, length-set cs i v, more, valid.total);
      }

  -- An active slot becomes the head of the list.
  pub give-Valid :
      (free : List ℕ)
      → Valid p cs free
      → is_active c.state ≡ true
      → is_active v.state ≡ false
      → v.next ≡ p.free_conns
      → Valid
          (record p {
            conns = some (set cs i v);
            free_conns = some i;
            conn_count = p.conn_count -ℤ pos 1;
          })
          (set cs i v)
          (i ∷ free)
  give-Valid free valid on off link =
      let fewer = actives-set_give cs i c v at_i on off in
      let out = not-has_of_active cs p.free_conns free i c valid.chain at_i on in
      record {
        array = refl;
        chain = (
          refl,
          (
            v,
            get_elem?-set_self cs i v (lt_of_get_elem? cs i at_i),
            off,
            rw link (Chain-set cs p.free_conns free i v out valid.chain),
          ),
        );
        distinct = (out, valid.distinct);
        complete = Complete-give cs i c v free at_i valid.complete;
        size = valid.size ∙ ap pos (sym (length-set cs i v));
        count =
            ap (λ n. n -ℤ pos 1) (valid.count ∙ ap pos fewer) ∙ pred_ℤ-pos (actives (set cs i v));
        total = omega (arith, length-set cs i v, fewer, valid.total);
      }

  -- An active slot stays active.
  pub keep-Valid :
      (free : List ℕ)
      → Valid p cs free
      → is_active c.state ≡ true
      → is_active v.state ≡ true
      → Valid (record p { conns = some (set cs i v) }) (set cs i v) free
  keep-Valid free valid on on' =
      let still = actives-set_still cs i c v at_i (on' ∙ sym on) in
      let out = not-has_of_active cs p.free_conns free i c valid.chain at_i on in
      record {
        array = refl;
        chain = Chain-set cs p.free_conns free i v out valid.chain;
        distinct = valid.distinct;
        complete = Complete-still cs i c v free at_i (on' ∙ sym on) valid.complete;
        size = valid.size ∙ ap pos (sym (length-set cs i v));
        count = valid.count ∙ ap pos (sym still);
        total = omega (arith, length-set cs i v, still, valid.total);
      }
