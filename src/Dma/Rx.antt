-- ===== src/Dma/Rx.antt =====
-- dma.c: a receive ring of an ordinary queue (no WED), from the pages that are put on it to the
-- frames that are passed on.
pub mod Pages
pub mod Fill
pub mod Take
pub mod Process
pub mod Drain
mod Tests
use Prim.Native.Nat.{bit_or}
use mt.Common.{
  ℕ, zero, suc, ◌+◌, ◌-◌, ◌*◌, ◌/◌, ◌%◌, ◌^◌, Bool, true, false, not, ◌&&◌, ◌||◌, Option, none,
  some, List, [], ◌∷◌, ◌++◌, if◌then◌else◌, ltb, leb, ◌==◌, length, while,
}
use mt.Common.Ring.{update}
use mt.Dma.{Desc, field}

-- Bit k of a word, and the field of `width` bits from bit `lo` on.
abbrev pub bit : ℕ → ℕ → Bool
bit w k = w / 2 ^ k % 2 == 1

abbrev pub get_field : ℕ → ℕ → ℕ → ℕ
get_field w lo width = w / 2 ^ lo % 2 ^ width

-- An sk_buff that is being received: its first page and its fragments.
pub record RxSkb : Type 0 where
  pub first : ℕ
  pub frags : List ℕ

-- The part of struct mt76_queue that receiving uses; `page i` is entry i's `buf`.
pub record RxQueue : Type 0 where
  pub head : ℕ
  pub tail : ℕ
  pub ndesc : ℕ
  pub queued : ℕ
  pub buf_size : ℕ
  pub buf_offset : ℕ
  pub cpu_idx : ℕ
  pub page : ℕ → Option ℕ
  pub desc : ℕ → Desc
  pub rx_head : Option RxSkb

-- What the code asks of the kernel, the hardware and the driver: the n-th page of the pool and its
-- DMA address, what the tail's descriptor shows in the n-th round, rx_check on a page and a length
-- (true without one), whether napi_build_skb succeeds on a page, SKB_WITH_OVERHEAD and
-- MAX_SKB_FRAGS.
pub record Env : Type 0 where
  pub pool : ℕ → Option ℕ
  pub page_addr : ℕ → ℕ
  pub shows : ℕ → Desc
  pub rx_check : ℕ → ℕ → Bool
  pub builds : ℕ → Bool
  pub with_overhead : ℕ → ℕ
  pub max_frags : ℕ
  pub dma64 : Bool

-- The ring, the pages taken from the pool, what was passed to the driver, the sk_buffs freed, the
-- pages put back, how often the pool was asked, and the rounds of the
-- receiving loop.
pub record Rx : Type 0 where
  pub q : RxQueue
  pub got : List ℕ
  pub passed : List RxSkb
  pub freed : List RxSkb
  pub put : List ℕ
  pub asked : ℕ
  pub reads : ℕ

-- MT_DMA_WED_IND_REASON_REPEAT and MT_DMA_WED_IND_REASON_OLDPKT
abbrev pub reason_repeat : ℕ
reason_repeat = 1

abbrev pub reason_oldpkt : ℕ
reason_oldpkt = 2

-- mt76_dma_should_drop_buf
pub should_drop_buf : ℕ → ℕ → ℕ → Bool
should_drop_buf ctrl buf1 info =
    if not (bit ctrl 7)
    then bit ctrl 12 || bit ctrl 14
    else if get_field buf1 12 4 == reason_repeat
    then true
    else if get_field buf1 12 4 == reason_oldpkt
    then not (bit info 9)
    else bit ctrl 13

abbrev pub opt_free : Option RxSkb → List RxSkb
opt_free none = []
opt_free (some s) = s ∷ []

-- The index behind `i`, in a u16.
abbrev pub next_idx : RxQueue → ℕ → ℕ
next_idx q i = (i + 1) % q.ndesc % 2 ^ 16

module _ (env : Env) where
  -- mt76_dma_add_rx_buf
  pub add_rx_buf : RxQueue → ℕ → ℕ → ℕ → RxQueue
  add_rx_buf q addr len buf = record q {
    head = next_idx q q.head;
    queued = q.queued + 1;
    page = update q.page q.head (some buf);
    desc = update q.desc q.head (record {
      buf0 = addr % 2 ^ 32;
      buf1 = if env.dma64 then field 0 4 (addr / 2 ^ 32) else 0;
      ctrl = field 16 14 len;
      info = 0;
    });
  }

  abbrev pub rx_kick : RxQueue → RxQueue
  rx_kick q = record q { cpu_idx = q.head }

  -- mt76_dma_rx_fill_buf: a round with the page that the pool gives, the loop on the cells that may be
  -- filled, and the kick if a page has been added.
  pub fill_with : Rx → ℕ → Rx
  fill_with s buf =
      let q = s.q in
      let len = (env.with_overhead q.buf_size + (2 ^ 32 - q.buf_offset)) % 2 ^ 32 in
      record s {
        q = add_rx_buf q ((env.page_addr buf + q.buf_offset) % 2 ^ 64) (len % 2 ^ 15) buf;
        got = s.got ++ (buf ∷ []);
        asked = s.asked + 1;
      }

  pub fill_step : (Rx → Rx) → Rx → Option ℕ → Rx
  fill_step rest s none = record s { asked = s.asked + 1 }
  fill_step rest s (some buf) = rest (fill_with s buf)

  pub fill_loop : ℕ → Rx → Rx
  fill_loop zero s = s
  fill_loop (suc room) s = fill_step (fill_loop room) s (env.pool s.asked)

  pub rx_fill : Rx → Rx
  rx_fill s =
      if s.q.ndesc == 0
      then s
      else let t = fill_loop (s.q.ndesc - 1 - s.q.queued) s in
        if t.q.queued == s.q.queued then t else record t { q = rx_kick t.q }

  -- mt76_dma_dequeue with mt76_dma_get_buf: the ring without its oldest page, once the hardware is
  -- done with it or on a flush, and that page.
  abbrev pub popped : RxQueue → RxQueue
  popped q = record q {
    tail = next_idx q q.tail;
    queued = q.queued - 1;
    page = update q.page q.tail none;
  }

  abbrev pub mark_done : RxQueue → RxQueue
  mark_done q =
      let d = q.desc q.tail in
      record q { desc = update q.desc q.tail (record d { ctrl = bit_or d.ctrl (2 ^ 31) }) }

  pub dequeue : RxQueue → Bool → Desc → RxQueue × Option ℕ
  dequeue q flush d =
      if q.queued == 0
      then (q, none)
      else if flush
      then (popped (mark_done q), q.page q.tail)
      else if bit d.ctrl 31
      then (popped q, q.page q.tail)
      else (q, none)

  -- mt76_add_fragment
  pub grown : RxSkb → ℕ → RxSkb
  grown skb buf = record skb { frags = skb.frags ++ (buf ∷ []) }

  pub add_fragment : Rx → RxSkb → ℕ → Bool → Rx
  add_fragment s skb buf more =
      if ltb (length skb.frags) env.max_frags
      then if more
        then record s { q = record (s.q) { rx_head = some (grown skb buf) } }
        else record s {
          q = record (s.q) { rx_head = none };
          passed = s.passed ++ (grown skb buf ∷ []);
        }
      else if more
      then record s { put = s.put ++ (buf ∷ []) }
      else record s {
        q = record (s.q) { rx_head = none };
        put = s.put ++ (buf ∷ []);
        freed = s.freed ++ (skb ∷ []);
      }

  abbrev pub put_page : Rx → ℕ → Rx
  put_page s buf = record s { put = s.put ++ (buf ∷ []) }

  -- A page that begins a frame; the result says whether it is counted.
  pub first_page : Rx → ℕ → ℕ → Bool → Rx × Bool
  first_page s buf len more =
      let skb : RxSkb = record { first = buf; frags = [] } in
      if not more && not (env.rx_check buf len)
      then (put_page s buf, false)
      else if not (env.builds buf)
      then (put_page s buf, false)
      else if more
      then (record s { q = record (s.q) { rx_head = some skb } }, true)
      else (record s { passed = s.passed ++ (skb ∷ []) }, true)

  abbrev pub page_space : RxQueue → ℕ
  page_space q = elim q.rx_head [ none ↦ env.with_overhead q.buf_size | some skb ↦ q.buf_size ]

  pub on_head : Rx → Option RxSkb → ℕ → ℕ → Bool → Rx × Bool
  on_head s none buf len more = first_page s buf len more
  on_head s (some skb) buf len more = (add_fragment s skb buf more, false)

  -- The page that a round of mt76_dma_rx_process has dequeued.
  pub take_page : Rx → ℕ → Desc → Rx × Bool
  take_page s buf d =
      let len = get_field d.ctrl 16 14 in
      let more = not (bit d.ctrl 30) in
      if should_drop_buf d.ctrl d.buf1 d.info
      then (put_page s buf, false)
      else if ltb (page_space s.q) (len + s.q.buf_offset)
      then (
        record s {
          q = record (s.q) { rx_head = none };
          freed = s.freed ++ opt_free s.q.rx_head;
          put = s.put ++ (buf ∷ []);
        },
        false,
      )
      else on_head s s.q.rx_head buf len more

  -- The variables of the loop of mt76_dma_rx_process.
  pub record Poll : Type 0 where
    pub rx : Rx
    pub done : ℕ
    pub stopped : Bool

  pub count_page : Poll → Rx × Bool → Poll
  count_page p (s, counted) = record p { rx = s; done = if counted then p.done + 1 else p.done }

  pub got_page : Poll → RxQueue × Option ℕ → Desc → Poll
  got_page p (q, none) d = record p {
    rx = record (p.rx) { q = q; reads = p.rx.reads + 1 };
    stopped = true;
  }
  got_page p (q, some buf) d =
      count_page p (take_page (record (p.rx) { q = q; reads = p.rx.reads + 1 }) buf d)

  pub rx_round : Poll → Poll
  rx_round p = let d = env.shows p.rx.reads in got_page p (dequeue p.rx.q false d) d

  abbrev pub rx_more : ℕ → Poll → Bool
  rx_more budget p = ltb p.done budget && not p.stopped

  pub rx_process : Rx → ℕ → Rx × ℕ
  rx_process s budget =
      let p =
        while (s.q.queued + 2) (rx_more budget) rx_round
          (record { rx = s; done = 0; stopped = false }) in
      (rx_fill p.rx, p.done)

  -- mt76_dma_rx_cleanup: the loop on the pages that the ring holds.
  pub drain_step : (Rx → Rx) → Rx → RxQueue × Option ℕ → Rx
  drain_step rest s (q, none) = record s { q = q }
  drain_step rest s (q, some buf) = rest (put_page (record s { q = q }) buf)

  pub drain_loop : ℕ → Rx → Rx
  drain_loop zero s = s
  drain_loop (suc n) s = drain_step (drain_loop n) s (dequeue s.q true (s.q.desc s.q.tail))

  pub rx_cleanup : Rx → Rx
  rx_cleanup s =
      if s.q.ndesc == 0
      then s
      else let t = drain_loop (s.q.queued + 1) s in
        record t { q = record (t.q) { rx_head = none }; freed = t.freed ++ opt_free t.q.rx_head }

  -- mt76_dma_rx_reset; `dma_idx` is what the register gives after it.
  pub rx_reset : Rx → ℕ → Rx
  rx_reset s dma_idx =
      if s.q.ndesc == 0
      then s
      else let all_done = λ (i : ℕ). let d = s.q.desc i in record d { ctrl = 2 ^ 31 } in
        let t = rx_cleanup (record s { q = record (s.q) { desc = all_done } }) in
        rx_fill (record t { q = record (t.q) { head = dma_idx % 2 ^ 16; tail = dma_idx % 2 ^ 16 } })
