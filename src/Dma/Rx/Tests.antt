-- ===== src/Dma/Rx/Tests.antt =====
-- Runs and examples of a receive ring.
use mt.Common.{
  ℕ, ◌+◌, ◌-◌, ◌*◌, ◌^◌, ◌≡◌, ◌⊎◌, refl, arith, true, false, none, some, List, [], ◌∷◌, ◌++◌, ltb,
  leb, if◌then◌else◌, length, while,
}
use mt.Common.Ring.{update}
use mt.Dma.Rx.{
  RxQueue, Rx, Env, opt_free, should_drop_buf, add_rx_buf, fill_with, fill_step, fill_loop, rx_fill,
  dequeue, grown, add_fragment, first_page, on_head, take_page, count_page, got_page, rx_round,
  rx_process, rx_cleanup, rx_reset,
}
use mt.Dma.Rx.Pages.{Holds}
use mt.Dma.Rx.Fill.{Filled, rx_fill_lem}
use mt.Dma.Rx.Process.{Processed, rx_process_lem}
use mt.Dma.Rx.Drain.{Drained, rx_cleanup_lem, rx_reset_lem}

-- The first page that is shown begins a frame of two, the second ends it; then the hardware is busy.
abbrev env : Env
env = record {
  pool = λ n. if ltb n 10 then some (100 + n) else none;
  page_addr = λ p. p;
  shows = λ n. record {
    buf0 = 0;
    buf1 = 0;
    info = 0;
    ctrl =
        if leb 2 n
        then 0
        else if leb 1 n
        then 2 ^ 31 + 2 ^ 30 + 100 * 2 ^ 16
        else 2 ^ 31 + 100 * 2 ^ 16;
  };
  rx_check = λ p l. true;
  builds = λ p. true;
  with_overhead = λ n. n - 320;
  max_frags = 17;
  dma64 = false;
}

-- Three pages on a ring of eight, from the last cell on.
abbrev ring : RxQueue
ring = record {
  head = 2;
  tail = 7;
  ndesc = 8;
  queued = 3;
  buf_size = 2048;
  buf_offset = 64;
  cpu_idx = 2;
  page = update (update (update (λ i. none) 7 (some 1)) 0 (some 2)) 1 (some 3);
  desc = λ i. record { buf0 = 0; ctrl = 0; buf1 = 0; info = 0 };
  rx_head = none;
}

abbrev pages : List ℕ
pages = 1 ∷ 2 ∷ 3 ∷ []

ring-Holds : Holds ring pages
ring-Holds = record {
  tail_in = omega arith;
  count_lem = refl;
  head_lem = refl;
  fits = omega arith;
  index_fits = omega arith;
  cells = refl;
}

abbrev begin : Rx
begin = record { q = ring; got = []; passed = []; freed = []; put = []; asked = 0; reads = 0 }

one_frame : (rx_process env begin 64).0.passed ≡ record { first = 1; frags = 2 ∷ [] } ∷ []
unfolding rx_process rx_fill fill_loop fill_step fill_with add_rx_buf rx_round got_page count_page
    dequeue take_page should_drop_buf on_head first_page add_fragment grown while
one_frame = refl

rx_fill_lem_example :
    let t = rx_fill env begin in
    Filled env.pool begin pages 4 t × ((t.q.queued ≡ 3) ⊎ (t.q.cpu_idx ≡ t.q.head))
rx_fill_lem_example = rx_fill_lem env begin pages ring-Holds

rx_process_lem_example : Processed env begin pages 64 (rx_process env begin 64)
rx_process_lem_example = rx_process_lem env begin pages 64 ring-Holds

rx_cleanup_lem_example :
    let t = rx_cleanup env begin in Drained begin pages none t × (t.q.rx_head ≡ none)
rx_cleanup_lem_example = rx_cleanup_lem env begin pages ring-Holds

rx_reset_lem_example :
    let t = rx_reset env begin 5 in
    (new : List ℕ) × Holds t.q new
    × (t.got ≡ begin.got ++ new)
    × (t.put ≡ begin.put ++ pages)
    × (t.freed ≡ begin.freed ++ opt_free begin.q.rx_head)
    × (t.passed ≡ begin.passed)
    × (t.q.rx_head ≡ none)
    × ((length new ≡ begin.q.ndesc - 1) ⊎ ((n : ℕ) × (env.pool n ≡ none)))
rx_reset_lem_example = rx_reset_lem env begin pages 5 ring-Holds (omega arith)
