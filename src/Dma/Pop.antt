-- ===== src/Dma/Pop.antt =====
-- The oldest entry leaves a transmit ring, and an empty ring starts over.
use native.Mathlib.Nat.{mod-lt, mod-eq_of_lt, add-mod_right}
use native.Mathlib.Decide.{dec_lt}
use mt.Common.{ℕ, suc, ◌+◌, ◌-◌, ◌%◌, ◌≤◌, ◌<◌, ◌≡◌, sym, ◌∙◌, ap, arith, ◌∷◌}
use mt.Common.Ring.{
  at, at-onto, at-ne, at-step, at-zero, update, update-ne, update_self, span, span-update,
}
use mt.Dma.{clear, Queue}
use mt.Dma.Pending.{pending, QInv}

-- The ring without its oldest entry.
abbrev pub popped : Queue → Queue
popped q = record q {
  entry = update q.entry q.tail clear;
  tail = (q.tail + 1) % q.ndesc;
  queued = q.queued - 1;
}

pub popped-pending :
    (q : Queue) → QInv q → 0 < q.queued → pending q ≡ q.entry q.tail ∷ pending (popped q)
popped-pending q v h =
    let m = q.queued - 1 in
    let more : q.queued ≡ suc m = omega arith in
    ap (span q.entry q.ndesc q.tail) more
    ∙ ap (λ x. q.entry q.tail ∷ x)
        (sym (
          span-update q.entry q.ndesc ((q.tail + 1) % q.ndesc) m q.tail clear
            (λ i l eq.
              at-ne q.ndesc q.tail (i + 1) 0 v.tail_in (omega (arith, v.fits))
                (omega (arith, v.tail_in)) (omega arith)
                (sym (at-step q.ndesc q.tail i) ∙ (eq ∙ sym (at-zero q.ndesc q.tail v.tail_in))))
            (mod-lt (q.tail + 1) (omega (arith, v.tail_in)))))

popped-free :
    (q : Queue) (i : ℕ)
    → QInv q
    → 0 < q.queued
    → q.queued - 1 ≤ i
    → i < q.ndesc
    → update q.entry q.tail clear (at q.ndesc ((q.tail + 1) % q.ndesc) i) ≡ clear
popped-free q i v h l u = rw (at-step q.ndesc q.tail i) (elim (dec_lt (i + 1) q.ndesc) [
  | yes p ↦
      update-ne q.entry q.tail (at q.ndesc q.tail (i + 1)) clear (λ eq.
        at-ne q.ndesc q.tail (i + 1) 0 v.tail_in p (omega arith) (omega arith)
          (eq ∙ sym (at-zero q.ndesc q.tail v.tail_in)))
      ∙ v.free (i + 1) (omega arith) p
  | no p ↦
      let round : at q.ndesc q.tail (i + 1) ≡ q.tail =
        ap (λ x. (q.tail + x) % q.ndesc) (omega arith)
        ∙ (add-mod_right q.tail q.ndesc ∙ mod-eq_of_lt v.tail_in) in
      ap (update q.entry q.tail clear) round ∙ update_self q.entry q.tail clear
])

pub popped-QInv : (q : Queue) → QInv q → 0 < q.queued → QInv (popped q)
popped-QInv q v h = record {
  tail_in = mod-lt (q.tail + 1) (omega (arith, v.tail_in));
  head_lem =
      v.head_lem
      ∙ (ap (at q.ndesc q.tail) (omega arith) ∙ sym (at-step q.ndesc q.tail (q.queued - 1)));
  fits = omega (arith, v.fits);
  index_fits = v.index_fits;
  free = λ i l u. popped-free q i v h l u;
}

-- An empty ring may start over at any cell.
all_clear : (q : Queue) → QInv q → q.queued ≡ 0 → (x : ℕ) → x < q.ndesc → q.entry x ≡ clear
all_clear q v z x h =
    let (i, small, here) = at-onto q.ndesc q.tail x v.tail_in h in
    ap q.entry (sym here) ∙ v.free i (omega arith) small

pub started_over :
    (q : Queue) (i : ℕ)
    → QInv q
    → q.queued ≡ 0
    → i < q.ndesc
    → QInv (record q { head = i; tail = i; cpu_idx = i })
started_over q i v z h = record {
  tail_in = h;
  head_lem = sym (ap (at q.ndesc i) z ∙ at-zero q.ndesc i h);
  fits = v.fits;
  index_fits = v.index_fits;
  free = λ j l u. all_clear q v z (at q.ndesc i j) (mod-lt (i + j) (omega arith));
}
