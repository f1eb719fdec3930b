-- ===== src/Dma.antt =====
-- dma.c: a transmit ring, from the buffers that are put on it to the frames that are completed.
-- The hardware's side of the ring is the register dma_idx, read when the code reads it.
pub mod Pending
pub mod Add
pub mod Pop
pub mod Cleanup
pub mod Enqueue
pub mod Send
pub mod Rx
mod Tests
use Prim.Native.Nat.{bit_or}
use mt.Common.{
  ℕ, zero, suc, ◌+◌, ◌-◌, ◌*◌, ◌/◌, ◌%◌, ◌^◌, Bool, true, false, not, ◌&&◌, ◌||◌, Option, none,
  some, List, [], ◌∷◌, ◌++◌, if◌then◌else◌, ltb, leb, ◌==◌, length, while,
}
use mt.Common.Ring.{update}

-- struct mt76_queue_buf
pub record QBuf : Type 0 where
  pub addr : ℕ
  pub len : ℕ
  pub skip_unmap : Bool

-- The pointer `txwi` of an entry: NULL, DMA_DUMMY_DATA or a cache entry.
pub data Txwi : Type 0 where
  null dummy : Txwi
  cache : ℕ → Txwi

-- struct mt76_queue_entry on a transmit ring; two buffers each.
pub record Entry : Type 0 where
  pub skb : Option ℕ
  pub txwi : Txwi
  pub addr0 : ℕ
  pub addr1 : ℕ
  pub len0 : ℕ
  pub len1 : ℕ
  pub wcid : ℕ
  pub skip_buf0 : Bool
  pub skip_buf1 : Bool

-- An entry that memset has cleared.
abbrev pub clear : Entry
clear = record {
  skb = none;
  txwi = null;
  addr0 = 0;
  addr1 = 0;
  len0 = 0;
  len1 = 0;
  wcid = 0;
  skip_buf0 = false;
  skip_buf1 = false;
}

-- struct mt76_desc
pub record Desc : Type 0 where
  pub buf0 : ℕ
  pub ctrl : ℕ
  pub buf1 : ℕ
  pub info : ℕ

-- struct mt76_queue: `cpu_idx` is the register (or the EMI word) that the driver kicks.
pub record Queue : Type 0 where
  pub head : ℕ
  pub tail : ℕ
  pub ndesc : ℕ
  pub queued : ℕ
  pub cpu_idx : ℕ
  pub entry : ℕ → Entry
  pub desc : ℕ → Desc

-- FIELD_PREP for a field of `width` bits from bit `lo` on.
abbrev pub field : ℕ → ℕ → ℕ → ℕ
field lo width v = v % 2 ^ width * 2 ^ lo

-- MT_DMA_CTL_LAST_SEC0 and MT_DMA_CTL_LAST_SEC1
abbrev pub last_sec0 : ℕ
last_sec0 = 2 ^ 30

abbrev pub last_sec1 : ℕ
last_sec1 = 2 ^ 14

-- What the loop of mt76_dma_add_buf makes of the entry `e` for one or two buffers.
pub fill_entry : Entry → QBuf → Option QBuf → Entry
fill_entry e b none = record e {
  skip_buf0 = e.skip_buf0 || b.skip_unmap;
  skip_buf1 = true;
  addr0 = b.addr;
  len0 = b.len;
}
fill_entry e b (some c) = record e {
  skip_buf0 = e.skip_buf0 || b.skip_unmap;
  skip_buf1 = c.skip_unmap;
  addr0 = b.addr;
  len0 = b.len;
  addr1 = c.addr;
  len1 = c.len;
}

abbrev pub is_more : List QBuf → Bool
is_more [] = false
is_more _ = true

-- A frame with a txwi: its first entry is marked, and its first buffer is not unmapped.
pub mark_first : Queue → Txwi → Queue
mark_first q null = q
mark_first q _ = record q {
  entry = update q.entry q.head (record (q.entry q.head) { txwi = dummy; skip_buf0 = true });
}

pub finish_entry : Option ℕ → Txwi → Entry → Entry
finish_entry skb txwi e = record e { txwi = txwi; skb = skb; wcid = 65535 }

pub set_last : Queue × Option ℕ → Option ℕ → Txwi → Queue × Option ℕ
set_last (q, none) skb txwi = (q, none)
set_last (q, some idx) skb txwi =
    (record q { entry = update q.entry idx (finish_entry skb txwi (q.entry idx)) }, some idx)

-- The index behind `i`, in a u16.
abbrev pub advance : Queue → ℕ → ℕ
advance q i = (i + 1) % q.ndesc % 2 ^ 16

module _ (dma64 : Bool) where
  -- The upper address bits go into `info`, which the descriptors of one frame share.
  pub add_info : ℕ → QBuf → Option QBuf → ℕ
  add_info info b none = if dma64 then bit_or info (field 0 4 (b.addr / 2 ^ 32)) else info
  add_info info b (some c) =
      if dma64
      then bit_or (bit_or info (field 0 4 (b.addr / 2 ^ 32))) (field 16 4 (c.addr / 2 ^ 32))
      else info

  -- `more`: buffers are left for another descriptor.
  pub make_desc : ℕ → QBuf → Option QBuf → Bool → Desc
  make_desc info b none more = record {
    buf0 = b.addr % 2 ^ 32;
    buf1 = 0;
    ctrl = bit_or (field 16 14 b.len) last_sec0;
    info = info;
  }
  make_desc info b (some c) more =
      let lens = bit_or (field 16 14 b.len) (field 0 14 c.len) in
      record {
        buf0 = b.addr % 2 ^ 32;
        buf1 = c.addr % 2 ^ 32;
        ctrl = if more then lens else bit_or lens last_sec1;
        info = info;
      }

  -- One round of the loop.
  pub place : Queue → ℕ → QBuf → Option QBuf → Bool → Queue
  place q info b c more = record q {
    head = advance q q.head;
    queued = q.queued + 1;
    entry = update q.entry q.head (fill_entry (q.entry q.head) b c);
    desc = update q.desc q.head (make_desc (add_info info b c) b c more);
  }

  -- The loop, with the index of the last descriptor (-1, here `none`, if there was no buffer).
  pub place_all : Queue → ℕ → List QBuf → Option ℕ → Queue × Option ℕ
  place_all q info [] idx = (q, idx)
  place_all q info (b ∷ []) idx = (place q info b none false, some q.head)
  place_all q info (b ∷ c ∷ bs) idx =
      place_all (place q info b (some c) (is_more bs)) (add_info info b (some c)) bs (some q.head)

  -- mt76_dma_add_buf, with the index that it returns
  pub add_buf : Queue → List QBuf → ℕ → Option ℕ → Txwi → Queue × Option ℕ
  add_buf q bufs info skb txwi = set_last (place_all (mark_first q txwi) info bufs none) skb txwi

-- mt76_dma_kick_queue
pub kick : Queue → Queue
kick q = record q { cpu_idx = q.head }

-- A buffer that is unmapped: its address and length.
abbrev pub Unmap : Type 0
Unmap = ℕ × ℕ

-- mt76_dma_tx_cleanup_idx: what it unmaps, the entry that it hands on, and the ring with its own
-- entry cleared.
pub unmaps : Entry → List Unmap
unmaps e =
    (if e.skip_buf0 then [] else (e.addr0, e.len0) ∷ [])
    ++ (if e.skip_buf1 then [] else (e.addr1, e.len1) ∷ [])

pub undummy : Txwi → Txwi
undummy dummy = null
undummy t = t

pub handed_on : Entry → Entry
unfolding undummy
handed_on e = record e { txwi = undummy e.txwi }

-- What a cleanup has done: the ring, the buffers unmapped, the frames completed (through the driver's
-- tx_complete_skb), the txwi entries put back, and how often dma_idx was read.
pub record Clean : Type 0 where
  pub q : Queue
  pub unmapped : List Unmap
  pub completed : List ℕ
  pub put : List ℕ
  pub reads : ℕ
  pub last : Option ℕ

abbrev pub opt_list : Option ℕ → List ℕ
opt_list none = []
opt_list (some x) = x ∷ []

abbrev pub put_txwi : Bool → Txwi → List ℕ
put_txwi no_free (cache t) = if no_free then [] else t ∷ []
put_txwi no_free _ = []

-- The loop's condition; `last` is none for -1, which no tail is equal to.
abbrev pub at_last : ℕ → Option ℕ → Bool
at_last tail none = false
at_last tail (some l) = tail == l

abbrev pub clean_more : Clean → Bool
clean_more c = ltb 0 c.q.queued && not (at_last c.q.tail c.last)

-- `dma_idx n` is what the n-th read of the register gives; `no_free` is MT_DRV_TXWI_NO_FREE.
module _ (dma_idx : ℕ → ℕ) (no_free : Bool) where
  -- One entry: mt76_dma_tx_cleanup_idx, mt76_queue_tx_complete and the txwi.
  pub clean_entry : Clean → Clean
  clean_entry c =
      let q = c.q in
      let e = q.entry q.tail in
      record c {
        q = record q {
          entry = update q.entry q.tail clear;
          tail = advance q q.tail;
          queued = q.queued - 1;
        };
        unmapped = c.unmapped ++ unmaps e;
        completed = c.completed ++ opt_list e.skb;
        put = c.put ++ put_txwi no_free (handed_on e).txwi;
      }

  -- Once the tail has come to `last`, the register is read again.
  pub reread : Clean → Option ℕ → Clean
  reread c none = c
  reread c (some l) =
      if c.q.tail == l then record c { last = some (dma_idx c.reads); reads = c.reads + 1 } else c

  pub clean_round : Clean → Clean
  clean_round c = let d = clean_entry c in reread d d.last

  pub clean_from : Queue → Bool → Clean
  clean_from q flush = record {
    q = q;
    unmapped = [];
    completed = [];
    put = [];
    reads = if flush then 0 else 1;
    last = if flush then none else some (dma_idx 0);
  }

  pub clean_loop : Queue → Bool → Clean
  clean_loop q flush = while (q.queued + 1) clean_more clean_round (clean_from q flush)

  -- mt76_dma_sync_idx: head and tail start over where the hardware is.
  pub sync_idx : Clean → Clean
  sync_idx c = record c {
    q = record (c.q) { head = dma_idx c.reads % 2 ^ 16; tail = dma_idx c.reads % 2 ^ 16 };
    reads = c.reads + 1;
  }

  pub after_loop : Bool → Clean → Clean
  after_loop false c = c
  after_loop true c = let d = sync_idx c in record d { q = kick d.q }

  -- mt76_dma_tx_cleanup, with whether it wakes dev->tx_wait
  pub tx_cleanup : Queue → Bool → Clean × Bool
  tx_cleanup q flush =
      if q.ndesc == 0
      then (clean_from q true, false)
      else let c = after_loop flush (clean_loop q flush) in (c, c.q.queued == 0)

-- mt76_dma_tx_queue_skb_raw: `reset` is MT76_MCU_RESET, `mapped` the address that dma_map_single gives.
-- The result is the ring, whether the frame is queued (0) or not (-ENOMEM), and what is freed.
pub record Raw : Type 0 where
  pub q : Queue
  pub queued_ok : Bool
  pub freed : List ℕ

pub map_raw : Bool → Queue → ℕ → ℕ → ℕ → Option ℕ → Raw
map_raw dma64 q skb len info none = record { q = q; queued_ok = false; freed = skb ∷ [] }
map_raw dma64 q skb len info (some addr) =
    let buf : QBuf = record { addr = addr; len = len % 2 ^ 15; skip_unmap = false } in
    record {
      q = kick (add_buf dma64 q (buf ∷ []) info (some skb) null).0;
      queued_ok = true;
      freed = [];
    }

pub tx_queue_skb_raw : Bool → Bool → Queue → ℕ → ℕ → ℕ → Option ℕ → Raw
tx_queue_skb_raw dma64 reset q skb len info mapped =
    if reset
    then record { q = q; queued_ok = false; freed = skb ∷ [] }
    else if leb q.ndesc (q.queued + 2)
    then record { q = q; queued_ok = false; freed = skb ∷ [] }
    else map_raw dma64 q skb len info mapped
