-- ===== src/Dma/Rx/Process.antt =====
-- mt76_dma_rx_process: where each page of the ring goes.
use mt.Common.{
  ℕ, suc, ◌+◌, ◌≤◌, ◌<◌, ◌≡◌, refl, sym, ◌∙◌, ap, subst, arith, true, false, List, [], ◌∷◌, ◌++◌,
  append_assoc, length-append, none, if◌then◌else◌, ◌==◌, length, while, while_inv, Bool-cases, inl,
  inr, ◌⊎◌,
}
use mt.Dma.{Desc}
use mt.Dma.Rx.{
  Rx, Env, Poll, bit, opt_free, popped, dequeue, take_page, count_page, got_page, rx_round, rx_more,
  rx_process,
}
use mt.Dma.Rx.Fill.{rx_fill_lem}
use mt.Dma.Rx.Pages.{Holds, popped_lem, uses, uses-append, skb_uses, outside}
use mt.Dma.Rx.Take.{AllWithin, Bounded, take_page_lem}

List-cases : (xs : List ℕ) → (xs ≡ []) ⊎ ((x : ℕ) × (rest : List ℕ) × (xs ≡ x ∷ rest))
List-cases [] = inl refl
List-cases (x ∷ xs) = inr (x, xs, refl)

module _ (env : Env) where
  -- The loop after some rounds: the pages `taken` have left the ring, in its order, and are elsewhere.
  record Polling (s : Rx) (ps : List ℕ) (budget : ℕ) (p : Poll env) : Type 0 where
    taken : List ℕ
    left : List ℕ
    split : taken ++ left ≡ ps
    holds : Holds p.rx.q left
    moved : (a : ℕ) → outside a p.rx ≡ outside a s + uses a taken
    same_got : p.rx.got ≡ s.got
    bounded : Bounded env.max_frags s → Bounded env.max_frags p.rx
    within : p.done ≤ budget
    why : p.stopped ≡ true → (left ≡ []) ⊎ ((n : ℕ) × (bit (env.shows n).ctrl 31 ≡ false))

  -- A round that takes the page `d`.
  taken_lem :
      (s : Rx) (ps : List ℕ) (budget : ℕ) (p : Poll env) (i : Polling s ps budget p) (d : ℕ)
      (rest : List ℕ) (x : Desc)
      → i.left ≡ d ∷ rest
      → p.done < budget
      → p.stopped ≡ false
      → let r =
          count_page env p
            (take_page env (record (p.rx) { q = popped env p.rx.q; reads = p.rx.reads + 1 }) d x) in
        Polling s ps budget r × (r.rx.q.queued ≡ length rest) × (r.stopped ≡ false)
  unfolding count_page
  taken_lem s ps budget p i d rest x e h go =
      let s' : Rx = record (p.rx) { q = popped env p.rx.q; reads = p.rx.reads + 1 } in
      let t = take_page_lem env s' d x in
      let here = (popped_lem env p.rx.q d rest (subst (Holds p.rx.q) e i.holds)).1 in
      (
        record {
          taken = i.taken ++ (d ∷ []);
          left = rest;
          split = append_assoc i.taken (d ∷ []) rest ∙ (ap (λ l. i.taken ++ l) (sym e) ∙ i.split);
          holds = t.holds rest here;
          moved = λ a. omega (arith, t.moved a, i.moved a, uses-append a i.taken (d ∷ []));
          same_got = t.same_got ∙ i.same_got;
          bounded = λ b.
              let c = i.bounded b in
              t.bounded (record { head_within = c.head_within; passed_within = c.passed_within });
          within = ground arith;
          why = λ f. cc;
        },
        (t.holds rest here).count_lem,
        go,
      )

  abbrev size : Poll env → ℕ
  size p = p.rx.q.queued + (if p.stopped then 0 else 1)

  more_left :
      (budget : ℕ) (p : Poll env)
      → rx_more env budget p ≡ true
      → (p.done < budget) × (p.stopped ≡ false)
  more_left budget p h = ground arith

  -- A round that takes nothing is the last.
  stopped_lem :
      (s : Rx) (ps : List ℕ) (budget : ℕ) (p : Poll env) (i : Polling s ps budget p)
      → p.stopped ≡ false
      → (i.left ≡ []) ⊎ ((n : ℕ) × (bit (env.shows n).ctrl 31 ≡ false))
      → let r : Poll env = record p {
        rx = record (p.rx) { q = p.rx.q; reads = p.rx.reads + 1 };
        stopped = true;
      } in
        Polling s ps budget r × (size r < size p)
  stopped_lem s ps budget p i go why = (
    record {
      taken = i.taken;
      left = i.left;
      split = i.split;
      holds = i.holds;
      moved = i.moved;
      same_got = i.same_got;
      bounded = λ b.
          let c = i.bounded b in
          record { head_within = c.head_within; passed_within = c.passed_within };
      within = i.within;
      why = λ f. why;
    },
    ground arith,
  )

  round_lem :
      (s : Rx) (ps : List ℕ) (budget : ℕ) (p : Poll env)
      → Polling s ps budget p
      → rx_more env budget p ≡ true
      → Polling s ps budget (rx_round env p) × (size (rx_round env p) < size p)
  unfolding rx_round got_page dequeue
  round_lem s ps budget p i h =
      let d = env.shows p.rx.reads in
      let (room, go) = more_left budget p h in
      elim (List-cases i.left) [
        | inl e ↦
            let none_queued : p.rx.q.queued ≡ 0 = i.holds.count_lem ∙ ap length e in
            let z : (p.rx.q.queued == 0) ≡ true = ground arith in
            rw z (stopped_lem s ps budget p i go (inl e))
        | inr (x, rest, e) ↦
            let some_queued : p.rx.q.queued ≡ suc (length rest) = i.holds.count_lem ∙ ap length e in
            let nz : (p.rx.q.queued == 0) ≡ false = ground arith in
            elim (Bool-cases (bit d.ctrl 31)) [
              | inl f ↦
                  let page = (popped_lem env p.rx.q x rest (subst (Holds p.rx.q) e i.holds)).0 in
                  let (next, fewer, on) = taken_lem s ps budget p i x rest d e room go in
                  rw (nz, f, page) (next, ground (arith, fewer, on, some_queued))
              | inr f ↦ rw (nz, f) (stopped_lem s ps budget p i go (inr (p.rx.reads, f)))
            ]
      ]

  rx_loop_lem :
      (s : Rx) (ps : List ℕ) (budget : ℕ)
      → Holds s.q ps
      → let p =
          while
            (s.q.queued + 2)
            (rx_more env budget)
            (rx_round env)
            (record { rx = s; done = 0; stopped = false }) in
        Polling s ps budget p × (rx_more env budget p ≡ false)
  rx_loop_lem s ps budget v =
      while_inv (Polling s ps budget) size (rx_more env budget) (rx_round env)
        (λ p i h. round_lem s ps budget p i h) (s.q.queued + 2)
        (record { rx = s; done = 0; stopped = false }) (omega arith)
        (record {
          taken = [];
          left = ps;
          split = refl;
          holds = v;
          moved = λ a. omega arith;
          same_got = refl;
          bounded = λ b. b;
          within = omega arith;
          why = λ f. cc;
        })

  -- Where the pages are after a poll: `taken` left the ring in its order, `left` and then `new` are
  -- on it.
  pub record Processed (s : Rx) (ps : List ℕ) (budget : ℕ) (r : Rx × ℕ) : Type 0 where
    pub taken : List ℕ
    pub left : List ℕ
    pub new : List ℕ
    pub split : taken ++ left ≡ ps
    pub holds : Holds r.0.q (left ++ new)
    pub got_lem : r.0.got ≡ s.got ++ new
    pub moved : (a : ℕ) → outside a r.0 ≡ outside a s + uses a taken
    pub full :
        (r.0.q.ndesc ≤ length (left ++ new) + 1)
        ⊎ ((n : ℕ) × (env.pool n ≡ none) × (r.0.asked ≡ suc n))
    pub bounded : Bounded env.max_frags s → Bounded env.max_frags r.0
    pub within : r.1 ≤ budget
    pub why : (r.1 ≡ budget) ⊎ ((left ≡ []) ⊎ ((n : ℕ) × (bit (env.shows n).ctrl 31 ≡ false)))

  ended :
      (budget : ℕ) (p : Poll env)
      → rx_more env budget p ≡ false
      → p.done ≤ budget
      → (p.done ≡ budget) ⊎ (p.stopped ≡ true)
  ended budget p h l = ground arith

  -- mt76_dma_rx_process takes pages off the ring in order, until the budget is used up, the ring is
  -- empty or the hardware is not done with a page, and then fills the ring, all cells but one, or until
  -- the pool has no page when it is asked. Each page taken ends up
  -- once in an sk_buff passed on, freed or still being received, or is put back; nothing else does. No
  -- sk_buff gets more fragments than it has room for, and the count of frames keeps to the budget.
  pub rx_process_lem :
      (s : Rx) (ps : List ℕ) (budget : ℕ)
      → Holds s.q ps
      → Processed s ps budget (rx_process env s budget)
  unfolding rx_process
  rx_process_lem s ps budget v =
      let (i, stop) = rx_loop_lem s ps budget v in
      let p =
        while (s.q.queued + 2) (rx_more env budget) (rx_round env)
          (record { rx = s; done = 0; stopped = false }) in
      let (f, k) = rx_fill_lem env p.rx i.left i.holds in
      record {
        taken = i.taken;
        left = i.left;
        new = f.new;
        split = i.split;
        holds = f.holds;
        got_lem = f.got_lem ∙ ap (λ l. l ++ f.new) i.same_got;
        moved = λ a. omega (
          arith,
          i.moved a,
          ap (λ o. skb_uses a (opt_free o)) f.same_head,
          ap (skb_uses a) f.same_passed,
          ap (skb_uses a) f.same_freed,
          ap (uses a) f.same_put,
        );
        full = elim f.full [
          | inl e ↦
              let h = i.holds in
              inl (
                omega (
                  arith,
                  e,
                  length-append i.left f.new,
                  f.same_ndesc,
                  h.count_lem,
                  h.fits,
                  h.tail_in,
                ))
          | inr e ↦ inr e
        ];
        bounded = λ b.
            let c = i.bounded b in
            record {
              head_within =
                  subst (λ o. AllWithin env.max_frags (opt_free o)) (sym f.same_head) c.head_within;
              passed_within = subst (AllWithin env.max_frags) (sym f.same_passed) c.passed_within;
            };
        within = i.within;
        why = elim (ended budget p stop i.within) [ inl e ↦ inl e | inr e ↦ inr (i.why e) ];
      }
