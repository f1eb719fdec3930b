-- ===== src/Dma/Cleanup.antt =====
-- mt76_dma_tx_cleanup takes entries off the ring in the order in which they were put on it.
use native.Mathlib.Nat.{mod-eq_of_lt}
use mt.Common.{
  ◌^◌, subst, ℕ, ◌+◌, ◌%◌, ◌<◌, ◌≡◌, ◌≢◌, zero, suc, refl, sym, ◌∙◌, ap, arith, Bool, true, false,
  Option, none, some, List, [], ◌∷◌, ◌++◌, append_assoc, append-nil, ◌==◌, while_inv, Bool-cases,
  ==→eq, some_inj, inl, inr, ◌⊎◌,
}
use mt.Common.Ring.{span}
use mt.Dma.{
  kick, Entry, Queue, Clean, Unmap, opt_list, put_txwi, handed_on, unmaps, clean_more, clean_entry,
  clean_round, clean_from, clean_loop, reread, sync_idx, after_loop, tx_cleanup,
}
use mt.Dma.Pop.{popped, popped-pending, popped-QInv, started_over}
use mt.Dma.Pending.{advance_lem, pending, QInv}

-- What the entries of a list come to when they are cleaned up.
abbrev pub skbs : List Entry → List ℕ
skbs [] = []
skbs (e ∷ es) = opt_list e.skb ++ skbs es

abbrev pub buffers : List Entry → List Unmap
buffers [] = []
buffers (e ∷ es) = unmaps e ++ buffers es

abbrev pub txwis : Bool → List Entry → List ℕ
txwis no_free [] = []
txwis no_free (e ∷ es) = put_txwi no_free (handed_on e).txwi ++ txwis no_free es

-- Where the tail is when `k` entries have been taken.
abbrev pub tail_at : Queue → ℕ → ℕ
tail_at q zero = q.tail
tail_at q (suc k) = (tail_at q k + 1) % q.ndesc

module _ (dma_idx : ℕ → ℕ) where
  -- The ways to take entries of `q` by what the register gives: `Passed n k` has taken `k` of them
  -- when the last read was the `n`-th, counted from 0. An entry is taken only if the last read found
  -- the hardware elsewhere; and the register is read again only where the last read found it.
  pub data Passed (q : Queue) : ℕ → ℕ → Type 0 where
    asked : Passed q 0 0
    took : {n k : ℕ} → Passed q n k → tail_at q k ≢ dma_idx n → Passed q n (suc k)
    again : {n k : ℕ} → Passed q n k → tail_at q k ≡ dma_idx n → Passed q (suc n) k

module _ (dma_idx : ℕ → ℕ) (no_free : Bool) where
  -- What has been taken off and what is still there make up what the ring held.
  pub record Cleaning (q : Queue) (c : Clean) : Type 0 where
    pub valid : QInv c.q
    pub same_ndesc : c.q.ndesc ≡ q.ndesc
    pub in_order : c.completed ++ skbs (pending c.q) ≡ skbs (pending q)
    pub unmapped_once : c.unmapped ++ buffers (pending c.q) ≡ buffers (pending q)
    pub put_once : c.put ++ txwis no_free (pending c.q) ≡ txwis no_free (pending q)

  entry_lem :
      (q : Queue) (c : Clean)
      → Cleaning q c
      → 0 < c.q.queued
      → Cleaning q (clean_entry dma_idx no_free c)
        × ((clean_entry dma_idx no_free c).q.queued < c.q.queued)
  unfolding clean_entry
  entry_lem q c p h =
      let e = c.q.entry c.q.tail in
      let more = popped-pending c.q p.valid h in
      rw (advance_lem c.q c.q.tail (omega (arith, p.valid.tail_in)) p.valid.index_fits) (
        record {
          valid = popped-QInv c.q p.valid h;
          same_ndesc = p.same_ndesc;
          in_order =
              append_assoc c.completed (opt_list e.skb) (skbs (pending (popped c.q)))
              ∙ (ap (λ x. c.completed ++ skbs x) (sym more) ∙ p.in_order);
          unmapped_once =
              append_assoc c.unmapped (unmaps e) (buffers (pending (popped c.q)))
              ∙ (ap (λ x. c.unmapped ++ buffers x) (sym more) ∙ p.unmapped_once);
          put_once =
              append_assoc c.put (put_txwi no_free (handed_on e).txwi)
                (txwis no_free (pending (popped c.q)))
              ∙ (ap (λ x. c.put ++ txwis no_free x) (sym more) ∙ p.put_once);
        },
        omega arith,
      )

  reread_lem :
      (q : Queue) (c : Clean) (o : Option ℕ)
      → Cleaning q c
      → Cleaning q (reread dma_idx no_free c o) × ((reread dma_idx no_free c o).q ≡ c.q)
  unfolding reread
  reread_lem q c none p = (p, refl)
  reread_lem q c (some l) p = elim (Bool-cases (c.q.tail == l)) [
    | inl there ↦ rw there (
      record {
        valid = p.valid;
        same_ndesc = p.same_ndesc;
        in_order = p.in_order;
        unmapped_once = p.unmapped_once;
        put_once = p.put_once;
      },
      refl,
    )
    | inr not_yet ↦ rw not_yet (p, refl)
  ]

  more_queued : (c : Clean) → clean_more c ≡ true → 0 < c.q.queued
  more_queued c h = ground arith

  round_lem :
      (q : Queue) (c : Clean)
      → Cleaning q c
      → clean_more c ≡ true
      → Cleaning q (clean_round dma_idx no_free c)
        × ((clean_round dma_idx no_free c).q.queued < c.q.queued)
  unfolding clean_round
  round_lem q c p h =
      let d = clean_entry dma_idx no_free c in
      let one = entry_lem q c p (more_queued c h) in
      let two = reread_lem q d d.last one.0 in
      (two.0, omega (arith, one.1, ap (λ (x : Queue). x.queued) two.1))

  no_last_round : (c : Clean) → c.last ≡ none → (clean_round dma_idx no_free c).last ≡ none
  unfolding clean_round clean_entry reread
  no_last_round c h = rw h

  -- A flush never comes to a last index, and does not ask the hardware.
  no_read_round : (c : Clean) → c.last ≡ none → (clean_round dma_idx no_free c).reads ≡ c.reads
  unfolding clean_round clean_entry reread
  no_read_round c h = rw h

  -- What the loop has asked and taken: `r` is the index that the last read gave.
  record Asked (q : Queue) (c : Clean) : Type 0 where
    taken : ℕ
    reads : ℕ
    counted : c.reads ≡ suc reads
    passed : Passed dma_idx q reads taken
    at_tail : c.q.tail ≡ tail_at q taken
    left : c.q.queued + taken ≡ q.queued
    last_seen : c.last ≡ some (dma_idx reads)

  elsewhere : (c : Clean) (l : ℕ) → c.last ≡ some l → clean_more c ≡ true → c.q.tail ≢ l
  elsewhere c l e h = ground (arith, e, h)

  take_lem :
      (q : Queue) (c : Clean)
      → Cleaning q c
      → Asked q c
      → clean_more c ≡ true
      → Asked q (clean_entry dma_idx no_free c)
  unfolding clean_entry
  take_lem q c p a more = record {
    taken = suc a.taken;
    reads = a.reads;
    counted = a.counted;
    passed = took a.passed (λ e. elsewhere c (dma_idx a.reads) a.last_seen more (a.at_tail ∙ e));
    at_tail =
        advance_lem c.q c.q.tail (omega (arith, p.valid.tail_in)) p.valid.index_fits
        ∙ (ap (λ n. (c.q.tail + 1) % n) p.same_ndesc ∙ ap (λ t. (t + 1) % q.ndesc) a.at_tail);
    left = omega (arith, a.left, more_queued c more);
    last_seen = a.last_seen;
  }

  ask_lem :
      (q : Queue) (c : Clean) (o : Option ℕ)
      → o ≡ c.last
      → Asked q c
      → Asked q (reread dma_idx no_free c o)
  unfolding reread
  ask_lem q c none e a = a
  ask_lem q c (some l) e a = elim (Bool-cases (c.q.tail == l)) [
    | inl there ↦ rw there (record {
      taken = a.taken;
      reads = suc a.reads;
      counted = omega (arith, a.counted);
      passed = again a.passed (sym a.at_tail ∙ (==→eq _ _ there ∙ some_inj (e ∙ a.last_seen)));
      at_tail = a.at_tail;
      left = a.left;
      last_seen = ap (λ n. some (dma_idx n)) a.counted;
    })
    | inr not_yet ↦ rw not_yet a
  ]

  abbrev Round : Queue → Bool → Clean → Type 0
  Round q true c = Cleaning q c × (c.last ≡ none) × (c.reads ≡ 0)
  Round q false c = Cleaning q c × Asked q c

  Round-Cleaning : (q : Queue) (flush : Bool) (c : Clean) → Round q flush c → Cleaning q c
  Round-Cleaning q true c r = r.0
  Round-Cleaning q false c r = r.0

  clean_round-Round :
      (q : Queue) (flush : Bool) (c : Clean)
      → Round q flush c
      → clean_more c ≡ true
      → Round q flush (clean_round dma_idx no_free c)
  unfolding clean_round
  clean_round-Round q true c r more =
      ((round_lem q c r.0 more).0, no_last_round c r.1, no_read_round c r.1 ∙ r.2)
  clean_round-Round q false c r more =
      let d = clean_entry dma_idx no_free c in
      ((round_lem q c r.0 more).0, ask_lem q d d.last refl (take_lem q c r.0 r.1 more))

  clean_from-Round :
      (q : Queue) (flush : Bool) → QInv q → Round q flush (clean_from dma_idx no_free q flush)
  unfolding clean_from
  clean_from-Round q true v = (
    record { valid = v; same_ndesc = refl; in_order = refl; unmapped_once = refl; put_once = refl },
    refl,
    refl,
  )
  clean_from-Round q false v = (
    record { valid = v; same_ndesc = refl; in_order = refl; unmapped_once = refl; put_once = refl },
    record {
      taken = 0;
      reads = 0;
      counted = refl;
      passed = asked;
      at_tail = refl;
      left = omega arith;
      last_seen = refl;
    },
  )

  -- The loop ends by its own condition.
  clean_loop_lem :
      (q : Queue) (flush : Bool)
      → QInv q
      → Round q flush (clean_loop dma_idx no_free q flush)
        × (clean_more (clean_loop dma_idx no_free q flush) ≡ false)
  unfolding clean_loop clean_from
  clean_loop_lem q flush v =
      while_inv (Round q flush) (λ c. c.q.queued) clean_more (clean_round dma_idx no_free)
        (λ c p more.
          (clean_round-Round q flush c p more, (round_lem q c (Round-Cleaning q flush c p) more).1))
        (q.queued + 1) (clean_from dma_idx no_free q flush) (omega arith)
        (clean_from-Round q flush v)

  none_queued : (c : Clean) → c.last ≡ none → clean_more c ≡ false → c.q.queued ≡ 0
  none_queued c l h = ground arith

  -- Where a cleanup ends: `reads` counts the reads of the register behind the first.
  pub record Stopped (q : Queue) (c : Clean) : Type 0 where
    pub taken : ℕ
    pub reads : ℕ
    pub passed : Passed dma_idx q reads taken
    pub at_tail : c.q.tail ≡ tail_at q taken
    pub left : c.q.queued + taken ≡ q.queued
    pub why : (c.q.queued ≡ 0) ⊎ (dma_idx reads ≡ c.q.tail)

  ndesc-ne-zero : (q : Queue) → QInv q → (q.ndesc == 0) ≡ false
  ndesc-ne-zero q v = ground (arith, v.tail_in)

  -- A flush completes all that the ring holds, in order, unmaps and puts back everything once, and
  -- leaves the ring empty with head and tail at what the one read of the register gives, where the
  -- hardware is in the ring, with that index kicked and the waiters woken.
  pub tx_flush_lem :
      (q : Queue)
      → QInv q
      → ((n : ℕ) → dma_idx n < q.ndesc)
      → let (c, woken) = tx_cleanup dma_idx no_free q true in
        QInv c.q
        × (c.q.queued ≡ 0)
        × (c.q.head ≡ dma_idx 0)
        × (c.q.tail ≡ dma_idx 0)
        × (c.reads ≡ 1)
        × (c.q.cpu_idx ≡ c.q.head)
        × (c.completed ≡ skbs (pending q))
        × (c.unmapped ≡ buffers (pending q))
        × (c.put ≡ txwis no_free (pending q))
        × (woken ≡ true)
  unfolding tx_cleanup after_loop sync_idx kick
  tx_flush_lem q v hw =
      let (p, stop) = clean_loop_lem q true v in
      let c = clean_loop dma_idx no_free q true in
      let z = none_queued c p.1 stop in
      let read_small : dma_idx c.reads % 2 ^ 16 < c.q.ndesc =
        subst (λ x. x < c.q.ndesc)
          (sym (mod-eq_of_lt (omega (arith, hw c.reads, p.0.same_ndesc, p.0.valid.index_fits))))
          (omega (arith, hw c.reads, p.0.same_ndesc)) in
      let here : dma_idx c.reads % 2 ^ 16 ≡ dma_idx 0 =
        mod-eq_of_lt (omega (arith, hw c.reads, p.0.same_ndesc, p.0.valid.index_fits))
        ∙ ap dma_idx p.2 in
      let gone : pending c.q ≡ [] = ap (span c.q.entry c.q.ndesc c.q.tail) z in
      rw (ndesc-ne-zero q v) (
        started_over c.q (dma_idx c.reads % 2 ^ 16) p.0.valid z (omega (arith, read_small)),
        z,
        here,
        here,
        omega (arith, p.2),
        refl,
        sym (append-nil c.completed) ∙ (ap (λ x. c.completed ++ skbs x) (sym gone) ∙ p.0.in_order),
        sym (append-nil c.unmapped)
            ∙ (ap (λ x. c.unmapped ++ buffers x) (sym gone) ∙ p.0.unmapped_once),
        sym (append-nil c.put) ∙ (ap (λ x. c.put ++ txwis no_free x) (sym gone) ∙ p.0.put_once),
        rw z,
      )
