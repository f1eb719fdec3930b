-- ===== src/Dma/Rx/Fill.antt =====
-- mt76_dma_rx_fill_buf: the ring is filled with pages of the pool.
use mt.Common.{
  ℕ, zero, suc, ◌+◌, ◌-◌, ◌≤◌, ◌≡◌, refl, sym, ◌∙◌, ap, arith, false, Option, none, List, [], ◌∷◌,
  ◌++◌, append-nil, append_assoc, ◌==◌, length, length-append, Bool-cases, Option-cases, inl, inr,
  ◌⊎◌, subst, ==→eq,
}
use mt.Dma.Rx.{Rx, Env, rx_kick, add_rx_buf, fill_with, fill_step, fill_loop, rx_fill}
use mt.Dma.Rx.Pages.{Holds, add_rx_buf_lem}

-- The ring with the pages `new` behind those that it held; nothing else has changed. `room` is the
-- number of pages that there was room for, or the pool had no more when it was last asked.
pub record Filled (pool : ℕ → Option ℕ) (s : Rx) (ps : List ℕ) (room : ℕ) (t : Rx) : Type 0 where
  pub new : List ℕ
  pub holds : Holds t.q (ps ++ new)
  pub got_lem : t.got ≡ s.got ++ new
  pub same_ndesc : t.q.ndesc ≡ s.q.ndesc
  pub same_head : t.q.rx_head ≡ s.q.rx_head
  pub same_passed : t.passed ≡ s.passed
  pub same_freed : t.freed ≡ s.freed
  pub same_put : t.put ≡ s.put
  pub full : (length new ≡ room) ⊎ ((n : ℕ) × (pool n ≡ none) × (t.asked ≡ suc n))

module _ (env : Env) where
  nothing :
      (s : Rx) (ps : List ℕ) (room asked : ℕ)
      → Holds s.q ps
      → (0 ≡ room) ⊎ ((n : ℕ) × (env.pool n ≡ none) × (asked ≡ suc n))
      → Filled env.pool s ps room (record s { asked = asked })
  nothing s ps room asked v why = record {
    new = [];
    holds = subst (Holds s.q) (sym (append-nil ps)) v;
    got_lem = sym (append-nil s.got);
    same_ndesc = refl;
    same_head = refl;
    same_passed = refl;
    same_freed = refl;
    same_put = refl;
    full = why;
  }

  one_more :
      (s : Rx) (ps : List ℕ) (room d : ℕ) (t : Rx)
      → Filled env.pool (fill_with env s d) (ps ++ (d ∷ [])) room t
      → Filled env.pool s ps (suc room) t
  unfolding fill_with add_rx_buf
  one_more s ps room d t f = record {
    new = d ∷ f.new;
    holds = subst (Holds t.q) (append_assoc ps (d ∷ []) f.new) f.holds;
    got_lem = f.got_lem ∙ append_assoc s.got (d ∷ []) f.new;
    same_ndesc = f.same_ndesc;
    same_head = f.same_head;
    same_passed = f.same_passed;
    same_freed = f.same_freed;
    same_put = f.same_put;
    full = elim f.full [ inl e ↦ inl (ap suc e) | inr e ↦ inr e ];
  }

  fill_loop_lem :
      (room : ℕ) (s : Rx) (ps : List ℕ)
      → Holds s.q ps
      → length ps + room ≤ s.q.ndesc
      → Filled env.pool s ps room (fill_loop env room s)
  unfolding fill_loop fill_step fill_with add_rx_buf
  fill_loop_lem zero s ps v h = nothing s ps 0 s.asked v (inl refl)
  fill_loop_lem (suc room) s ps v h = elim (Option-cases (env.pool s.asked)) [
    | inl e ↦ rw e (nothing s ps (suc room) (s.asked + 1) v (inr (s.asked, e, omega arith)))
    | inr (d, e) ↦ rw e (
        one_more s ps room d (fill_loop env room (fill_with env s d)) (
          fill_loop_lem room (fill_with env s d) (ps ++ (d ∷ []))
            (add_rx_buf_lem env s.q ps _ _ d v (omega arith))
            (omega (arith, length-append ps (d ∷ []), h))))
  ]

  kicked :
      (s : Rx) (ps : List ℕ) (room : ℕ) (t : Rx)
      → Filled env.pool s ps room t
      → Filled env.pool s ps room (record t { q = rx_kick env t.q })
  kicked s ps room t f =
      let v = f.holds in
      record {
        new = f.new;
        holds = record {
          tail_in = v.tail_in;
          count_lem = v.count_lem;
          head_lem = v.head_lem;
          fits = v.fits;
          index_fits = v.index_fits;
          cells = v.cells;
        };
        got_lem = f.got_lem;
        same_ndesc = f.same_ndesc;
        same_head = f.same_head;
        same_passed = f.same_passed;
        same_freed = f.same_freed;
        same_put = f.same_put;
        full = f.full;
      }

  -- mt76_dma_rx_fill puts new pages behind those of the ring, in the order in which the pool gives
  -- them, until all cells but one hold a page or the pool has none, changes nothing else, and tells
  -- the hardware the new head if a page was added.
  pub rx_fill_lem :
      (s : Rx) (ps : List ℕ)
      → Holds s.q ps
      → let t = rx_fill env s in
        Filled env.pool s ps (s.q.ndesc - 1 - s.q.queued) t
        × ((t.q.queued ≡ s.q.queued) ⊎ (t.q.cpu_idx ≡ t.q.head))
  unfolding rx_fill
  rx_fill_lem s ps v =
      let nz : (s.q.ndesc == 0) ≡ false = ground (arith, v.tail_in) in
      let f =
        fill_loop_lem (s.q.ndesc - 1 - s.q.queued) s ps v
          (omega (arith, v.fits, v.tail_in, v.count_lem)) in
      let t = fill_loop env (s.q.ndesc - 1 - s.q.queued) s in
      elim (Bool-cases (t.q.queued == s.q.queued)) [
        | inl e ↦ rw (nz, e) (f, inl (==→eq _ _ e))
        | inr e ↦ rw (nz, e) (kicked s ps (s.q.ndesc - 1 - s.q.queued) t f, inr refl)
      ]
