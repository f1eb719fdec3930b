-- ===== src/Dma/Tests.antt =====
-- Runs and examples of the transmit ring.
use mt.Common.{ℕ, ◌+◌, ◌-◌, ◌<◌, ◌≡◌, refl, arith, true, false, some, List, [], ◌∷◌, ◌++◌, while}
use mt.Common.Ring.{at}
use mt.Dma.{
  QBuf, Queue, cache, clear, add_buf, set_last, place_all, place, mark_first, finish_entry,
  fill_entry, tx_cleanup, clean_loop, clean_from, clean_round, reread, clean_entry, handed_on,
  undummy, after_loop,
}
use mt.Dma.Pending.{pending, QInv, on_last}
use mt.Dma.Add.{descs, entries, first_entry, add_buf_lem}
use mt.Dma.Cleanup.{skbs, buffers, txwis, tx_flush_lem}

-- A ring of four cells that starts at the last one.
abbrev empty_ring : Queue
empty_ring = record {
  head = 3;
  tail = 3;
  ndesc = 4;
  queued = 0;
  cpu_idx = 3;
  entry = λ i. clear;
  desc = λ i. record { buf0 = 0; ctrl = 0; buf1 = 0; info = 0 };
}

empty_ring-QInv : QInv empty_ring
empty_ring-QInv = record {
  tail_in = omega arith;
  head_lem = refl;
  fits = omega arith;
  index_fits = omega arith;
  free = λ i l u. refl;
}

abbrev bufs : List QBuf
bufs =
    record { addr = 4096; len = 32; skip_unmap = false }
    ∷ record { addr = 8192; len = 100; skip_unmap = false }
    ∷ record { addr = 12288; len = 60; skip_unmap = false }
    ∷ []

add_buf_lem_example :
    let r = add_buf true empty_ring bufs 0 (some 7) (cache 9) in
    QInv r.0
    × (pending r.0
        ≡ pending empty_ring
          ++ on_last (finish_entry (some 7) (cache 9)) (entries (first_entry (cache 9)) bufs))
    × (r.0.queued ≡ empty_ring.queued + descs bufs)
    × (r.1 ≡ some (at r.0.ndesc r.0.tail (r.0.queued - 1)))
add_buf_lem_example =
    add_buf_lem true empty_ring bufs 0 (some 7) (cache 9) empty_ring-QInv (omega arith)
      (omega arith)

-- The ring with that frame on it.
abbrev busy : Queue
busy = (add_buf true empty_ring bufs 0 (some 7) (cache 9)).0

busy-QInv : QInv busy
busy-QInv =
    (add_buf_lem true empty_ring bufs 0 (some 7) (cache 9) empty_ring-QInv (omega arith)
      (omega arith)).0

in_busy : 1 < busy.ndesc
unfolding add_buf set_last place_all place mark_first
in_busy = omega arith

-- The hardware is done with the first of its two descriptors.
one_done : skbs (pending (tx_cleanup (λ n. 0) false busy false).0.q) ≡ 7 ∷ []
unfolding add_buf set_last place_all place mark_first tx_cleanup clean_loop clean_from clean_round
    reread clean_entry finish_entry handed_on undummy fill_entry after_loop while
one_done = refl

all_done : (tx_cleanup (λ n. 1) false busy false).0.put ≡ 9 ∷ []
unfolding add_buf set_last place_all place mark_first finish_entry tx_cleanup clean_loop clean_from
    clean_round reread clean_entry handed_on undummy fill_entry after_loop while
all_done = refl

abbrev hw : ℕ → ℕ
hw n = 1

tx_flush_lem_example :
    let (c, woken) = tx_cleanup hw false busy true in
    QInv c.q
    × (c.q.queued ≡ 0)
    × (c.q.head ≡ hw 0)
    × (c.q.tail ≡ hw 0)
    × (c.reads ≡ 1)
    × (c.q.cpu_idx ≡ c.q.head)
    × (c.completed ≡ skbs (pending busy))
    × (c.unmapped ≡ buffers (pending busy))
    × (c.put ≡ txwis false (pending busy))
    × (woken ≡ true)
tx_flush_lem_example = tx_flush_lem hw false busy busy-QInv (λ n. in_busy)
