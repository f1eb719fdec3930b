-- ===== src/Dma/Rx/Drain.antt =====
-- mt76_dma_rx_cleanup and mt76_dma_rx_reset: a receive ring gives all of its pages back.
use native.Mathlib.Nat.{mod-eq_of_lt}
use mt.Common.{
  ℕ, zero, suc, ◌+◌, ◌-◌, ◌%◌, ◌^◌, ◌<◌, ◌≡◌, refl, sym, ◌∙◌, ap, arith, true, false, Option, none,
  List, [], ◌∷◌, ◌++◌, append-nil, append_assoc, ◌==◌, length, ◌⊎◌, inl, inr,
}
use mt.Common.Ring.{at-zero}
use mt.Dma.{Desc}
use mt.Dma.Rx.{
  RxSkb, RxQueue, Rx, Env, opt_free, popped, mark_done, dequeue, put_page, drain_step, drain_loop,
  rx_cleanup, rx_reset,
}
use mt.Dma.Rx.Pages.{Holds, popped_lem}
use mt.Dma.Rx.Fill.{rx_fill_lem}

-- An empty ring, with the pages `ps` and the frame `o` handed back.
pub record Drained (s : Rx) (ps : List ℕ) (o : Option RxSkb) (t : Rx) : Type 0 where
  pub holds : Holds t.q []
  pub same_ndesc : t.q.ndesc ≡ s.q.ndesc
  pub put_lem : t.put ≡ s.put ++ ps
  pub freed_lem : t.freed ≡ s.freed ++ opt_free o
  pub same_got : t.got ≡ s.got
  pub same_passed : t.passed ≡ s.passed

desc_free :
    (q : RxQueue) (d : ℕ → Desc) (ps : List ℕ) → Holds q ps → Holds (record q { desc = d }) ps
desc_free q d ps v = record {
  tail_in = v.tail_in;
  count_lem = v.count_lem;
  head_lem = v.head_lem;
  fits = v.fits;
  index_fits = v.index_fits;
  cells = v.cells;
}

module _ (env : Env) where
  drain_loop_lem :
      (n : ℕ) (s : Rx) (ps : List ℕ)
      → Holds s.q ps
      → length ps < n
      → Drained s ps none (drain_loop env n s) × ((drain_loop env n s).q.rx_head ≡ s.q.rx_head)
  unfolding drain_loop drain_step dequeue
  drain_loop_lem zero s ps v h = absurd (omega arith)
  drain_loop_lem (suc n) s [] v h =
      let z : (s.q.queued == 0) ≡ true = ground (arith, v.count_lem) in
      rw z (
        record {
          holds = v;
          same_ndesc = refl;
          put_lem = sym (append-nil s.put);
          freed_lem = sym (append-nil s.freed);
          same_got = refl;
          same_passed = refl;
        },
        refl,
      )
  drain_loop_lem (suc n) s (p ∷ ps) v h =
      let nz : (s.q.queued == 0) ≡ false = ground (arith, v.count_lem) in
      let q = mark_done env s.q in
      let (here, rest) = popped_lem env q p ps (desc_free s.q q.desc (p ∷ ps) v) in
      let s' : Rx = put_page env (record s { q = popped env q }) p in
      let (d, e) = drain_loop_lem n s' ps rest (omega arith) in
      rw (nz, here)
        (
          record {
            holds = d.holds;
            same_ndesc = d.same_ndesc;
            put_lem = d.put_lem ∙ append_assoc s.put (p ∷ []) ps;
            freed_lem = d.freed_lem;
            same_got = d.same_got;
            same_passed = d.same_passed;
          },
          e,
        )

  -- mt76_dma_rx_cleanup puts every page of the ring back, once and in order, frees the frame that was
  -- being received, and leaves the ring empty.
  pub rx_cleanup_lem :
      (s : Rx) (ps : List ℕ)
      → Holds s.q ps
      → let t = rx_cleanup env s in Drained s ps s.q.rx_head t × (t.q.rx_head ≡ none)
  unfolding rx_cleanup
  rx_cleanup_lem s ps v =
      let nz : (s.q.ndesc == 0) ≡ false = ground (arith, v.tail_in) in
      let (d, e) = drain_loop_lem (s.q.queued + 1) s ps v (omega (arith, v.count_lem)) in
      let w = d.holds in
      rw nz (
        record {
          holds = record {
            tail_in = w.tail_in;
            count_lem = w.count_lem;
            head_lem = w.head_lem;
            fits = w.fits;
            index_fits = w.index_fits;
            cells = w.cells;
          };
          same_ndesc = d.same_ndesc;
          put_lem = d.put_lem;
          freed_lem =
              ap (λ l. l ++ opt_free (drain_loop env (s.q.queued + 1) s).q.rx_head)
                (d.freed_lem ∙ append-nil s.freed)
              ∙ ap (λ o. s.freed ++ opt_free o) e;
          same_got = d.same_got;
          same_passed = d.same_passed;
        },
        refl,
      )

  started_over :
      (q : RxQueue) (i : ℕ) → Holds q [] → i < q.ndesc → Holds (record q { head = i; tail = i }) []
  started_over q i v h = record {
    tail_in = h;
    count_lem = v.count_lem;
    head_lem = sym (at-zero q.ndesc i h);
    fits = omega arith;
    index_fits = v.index_fits;
    cells = refl;
  }

  -- mt76_dma_rx_reset, where the register gives an index of the ring: all pages are put back and the
  -- frame that was being received is freed; then the ring holds the new pages of the pool and no
  -- others, for all cells but one or as far as the pool goes.
  pub rx_reset_lem :
      (s : Rx) (ps : List ℕ) (dma_idx : ℕ)
      → Holds s.q ps
      → dma_idx < s.q.ndesc
      → let t = rx_reset env s dma_idx in
        (new : List ℕ) × Holds t.q new
        × (t.got ≡ s.got ++ new)
        × (t.put ≡ s.put ++ ps)
        × (t.freed ≡ s.freed ++ opt_free s.q.rx_head)
        × (t.passed ≡ s.passed)
        × (t.q.rx_head ≡ none)
        × ((length new ≡ s.q.ndesc - 1) ⊎ ((n : ℕ) × (env.pool n ≡ none)))
  unfolding rx_reset
  rx_reset_lem s ps dma_idx v h =
      let nz : (s.q.ndesc == 0) ≡ false = ground (arith, v.tail_in) in
      let all_done = λ (i : ℕ). let d = s.q.desc i in record d { ctrl = 2 ^ 31 } in
      let s' : Rx = record s { q = record (s.q) { desc = all_done } } in
      let (d, e) = rx_cleanup_lem s' ps (desc_free s.q all_done ps v) in
      let t = rx_cleanup env s' in
      let small : dma_idx % 2 ^ 16 ≡ dma_idx = mod-eq_of_lt (omega (arith, v.index_fits)) in
      let i = dma_idx % 2 ^ 16 in
      let r : Rx = record t { q = record (t.q) { head = i; tail = i } } in
      let w = started_over t.q i d.holds (omega (arith, small, d.same_ndesc)) in
      let (f, k) = rx_fill_lem env r [] w in
      rw nz (
        f.new,
        f.holds,
        f.got_lem ∙ ap (λ l. l ++ f.new) d.same_got,
        f.same_put ∙ d.put_lem,
        f.same_freed ∙ d.freed_lem,
        f.same_passed ∙ d.same_passed,
        f.same_head ∙ e,
        elim f.full [
          | inl g ↦ inl (omega (arith, g, d.same_ndesc, d.holds.count_lem))
          | inr g ↦ inr (g.0, g.1)
        ],
      )
