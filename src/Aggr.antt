-- ===== src/Aggr.antt =====
-- agg-rx.c: the receive reordering of a block-ack session (struct mt76_rx_tid).
-- A function that changes a session returns the new one with what it has passed up.
pub mod Circle
pub mod Inv
pub mod Passed
pub mod Release
pub mod Room
pub mod Reorder
pub mod Stop
mod Tests
pub mod Timeout
pub mod Dev
use mt.Common.{
  ℕ, ◌+◌, ◌-◌, ◌/◌, ◌%◌, Bool, true, false, not, ◌&&◌, Option, none, some, List, [], ◌∷◌, ◌++◌, ltb,
  leb, ◌==◌, if◌then◌else◌, length, set, replicate, while,
}
use mt.Common.Slots.{slot}
use mt.Kernel.Seq.{SeqOps}

-- An sk_buff: its identity, what agg-rx.c reads of struct mt76_rx_status in `skb->cb`, and the
-- header fields of a block-ack request.
pub record Skb : Type 0 where
  pub id : ℕ
  pub wcid : Option ℕ
  pub reorder_time : ℕ
  pub aggr : Bool
  pub qos_ctl : ℕ
  pub seqno : ℕ
  -- RX_FLAG_8023 and RX_FLAG_DUP_VALIDATED of `flag`
  pub is_8023 : Bool
  pub dup_validated : Bool
  pub frame_control : ℕ
  pub bar_control : ℕ
  pub bar_start_seq : ℕ

-- struct mt76_rx_tid; `reorder_buf` has one slot for each of `size` frames.
pub record Tid : Type 0 where
  pub head : ℕ
  pub size : ℕ
  pub nframes : ℕ
  pub num : ℕ
  pub started : Bool
  pub stopped : Bool
  pub reorder_buf : List (Option Skb)

-- A session and the list of frames that go up the stack.
pub record Rx : Type 0 where
  pub tid : Tid
  pub frames : List Skb

-- `tid->nframes--` on a u16
abbrev pub dec_u16 : ℕ → ℕ
dec_u16 n = (n + 65535) % 65536

-- mt76_aggr_tid_to_timeo
pub tid_to_timeo : SeqOps → ℕ → ℕ
tid_to_timeo k tidno = k.hz / (if leb 4 tidno then 25 else 10)

-- The rest of mt76_aggr_release, after the head has moved, on what the slot holds.
take_slot : Tid → List Skb → ℕ → Option Skb → Rx
take_slot t frames idx none = record { tid = t; frames = frames }
take_slot t frames idx (some skb) = record {
  tid = record t { reorder_buf = set t.reorder_buf idx none; nframes = dec_u16 t.nframes };
  frames = frames ++ (skb ∷ []);
}

abbrev pub head_idx : Tid → ℕ
head_idx t = t.head % t.size

abbrev pub is_some : Option Skb → Bool
is_some none = false
is_some (some _) = true

-- The variables of the loop of mt76_rx_aggr_check_release.
pub record Scan : Type 0 where
  pub rx : Rx
  pub idx : ℕ
  pub left : ℕ

abbrev pub scan_more : ℕ → Scan → Bool
scan_more start s = not (s.idx == start) && not (s.left == 0)

abbrev pub head_present : Rx → Bool
head_present r = is_some (slot r.tid.reorder_buf (head_idx r.tid))

-- A session's head reaches any sequence number in fewer rounds than this.
abbrev pub seq_fuel : ℕ
seq_fuel = 4096

module _ (k : SeqOps) where
  -- mt76_aggr_release
  pub release : Rx → ℕ → Rx
  unfolding take_slot
  release r idx =
      take_slot (record tid { head = k.sn_inc tid.head }) r.frames idx (slot tid.reorder_buf idx)
    where
      open r use {tid}

  abbrev pub head_before : ℕ → Rx → Bool
  head_before head r = k.sn_less r.tid.head head

  abbrev pub release_next : Rx → Rx
  release_next r = release r (head_idx r.tid)

  -- The loop of mt76_rx_aggr_release_frames.
  pub release_frames_loop : ℕ → Rx → ℕ → Rx
  unfolding while
  release_frames_loop fuel r head = while fuel (head_before head) release_next r

  pub release_frames : Rx → ℕ → Rx
  release_frames r head = release_frames_loop seq_fuel r head

  -- mt76_rx_aggr_release_head. Each round empties a slot, so there are at most as many rounds as
  -- slots.
  pub release_head : Rx → Rx
  unfolding while
  release_head r = while (length r.tid.reorder_buf + 1) head_present release_next r

  -- One round: a frame that has waited for longer than the timeout releases all before it.
  pub scan_slot : ℕ → Scan → Option Skb → Scan
  scan_slot jiffies s none = record s { idx = (s.idx + 1) % s.rx.tid.size }
  scan_slot jiffies s (some skb) =
      let late = k.time_after32 jiffies (skb.reorder_time + tid_to_timeo k s.rx.tid.num) in
      let rx' = (if late then release_frames s.rx skb.seqno else s.rx) in
      record { rx = rx'; idx = (s.idx + 1) % s.rx.tid.size; left = s.left - 1 }

  pub scan_round : ℕ → Scan → Scan
  scan_round jiffies s = scan_slot jiffies s (slot s.rx.tid.reorder_buf s.idx)

  pub scan_loop : ℕ → ℕ → ℕ → Scan → Scan
  scan_loop jiffies start fuel s = while fuel (scan_more start) (scan_round jiffies) s

  -- The scan goes once round the `size` slots, from behind the head.
  pub scan_from : ℕ → Rx → Scan
  scan_from jiffies r =
      scan_loop jiffies (head_idx r.tid) r.tid.size
        (record { rx = r; idx = (r.tid.head + 1) % r.tid.size; left = r.tid.nframes })

  -- mt76_rx_aggr_check_release
  pub check_release : ℕ → Rx → Rx
  check_release jiffies r =
      if r.tid.nframes == 0 then r else release_head (scan_from jiffies (release_head r)).rx

-- What a call leaves: the session, the frames that go up, the frames freed, and the delay with which
-- the session's delayed work is queued, if it is.
pub record Out : Type 0 where
  pub rx : Rx
  pub freed : List Skb
  pub work : Option ℕ

abbrev pub untouched : Rx → Out
untouched r = record { rx = r; freed = []; work = none }

-- __skb_unlink: an sk_buff is taken out of the list that it is on.
abbrev pub unlink : ℕ → List Skb → List Skb
unlink i [] = []
unlink i (x ∷ xs) = if x.id == i then xs else x ∷ unlink i xs

-- The lists hold pointers: a write through `skb` is seen in the list that it is on.
abbrev pub modify : ℕ → (Skb → Skb) → List Skb → List Skb
modify i f [] = []
modify i f (x ∷ xs) = (if x.id == i then f x else x) ∷ modify i f xs

module _ (k : SeqOps) where
  -- mt76_rx_aggr_reorder_work, under the lock
  pub reorder_work : ℕ → Rx → Out
  reorder_work jiffies r =
      let r' = check_release k jiffies r in
      record {
        rx = r';
        freed = [];
        work = if r'.tid.nframes == 0 then none else some (tid_to_timeo k r'.tid.num);
      }

  -- The end of mt76_rx_aggr_reorder: the frame goes into its slot, unless that is in use.
  pub store_frame : ℕ → Rx → Skb → Option Skb → Out
  store_frame jiffies r skb (some _) = record { rx = r; freed = skb ∷ []; work = none }
  store_frame jiffies r skb none =
      let t = r.tid in
      let stored = record skb { reorder_time = jiffies % 4294967296 } in
      let t' = record t {
        reorder_buf = set t.reorder_buf (skb.seqno % t.size) (some stored);
        nframes = (t.nframes + 1) % 65536;
      } in
      record {
        rx = release_head k (record r { tid = t' });
        freed = [];
        work = some (tid_to_timeo k t.num);
      }

  -- A frame behind the window's end moves the window first.
  pub make_room : Rx → ℕ → Rx
  make_room r seqno =
      if k.sn_less seqno ((r.tid.head + r.tid.size) % 65536)
      then r
      else release_frames k r (k.sn_inc (k.sn_sub seqno r.tid.size))

  pub buffer_frame : ℕ → Rx → Skb → Out
  buffer_frame jiffies r skb =
      let r' = make_room r skb.seqno in
      store_frame jiffies r' skb (slot r'.tid.reorder_buf (skb.seqno % r'.tid.size))

  -- The frame that the session waits for.
  pub in_sequence : Rx → Rx
  in_sequence r =
      let t = r.tid in
      let r' = record r { tid = record t { head = k.sn_inc t.head } } in
      if t.nframes == 0 then r' else release_head k r'

  -- mt76_rx_aggr_reorder between spin_lock_bh and spin_unlock_bh; `skb` is the last of `r.frames`.
  pub reorder_locked : ℕ → Rx → Skb → Out
  reorder_locked jiffies r skb =
      let t = r.tid in
      let behind = k.sn_less skb.seqno t.head in
      let begun = record r { tid = record t { started = true } } in
      let without = record begun { frames = unlink skb.id r.frames } in
      if t.stopped
      then untouched r
      else if not t.started && behind
      then untouched r
      else if behind
      then record { rx = without; freed = skb ∷ []; work = none }
      else if skb.seqno == t.head
      then untouched (in_sequence begun)
      else buffer_frame jiffies without skb

  -- mt76_rx_aggr_check_ctl, under the lock
  pub bar_locked : Rx → ℕ → Rx
  bar_locked r seqno = if r.tid.stopped then r else release_head k (release_frames k r seqno)

-- The variables of the loop of mt76_rx_aggr_shutdown.
pub record Drain : Type 0 where
  pub tid : Tid
  pub freed : List Skb
  pub i : ℕ

abbrev pub drain_more : Drain → Bool
drain_more d = not (d.tid.nframes == 0) && ltb d.i d.tid.size

pub drain_slot : Drain → Option Skb → Drain
drain_slot d none = record d { i = d.i + 1 }
drain_slot d (some skb) =
    let t = d.tid in
    record {
      tid = record t { reorder_buf = set t.reorder_buf d.i none; nframes = dec_u16 t.nframes };
      freed = d.freed ++ (skb ∷ []);
      i = d.i + 1;
    }

abbrev pub drain_round : Drain → Drain
unfolding drain_slot
drain_round d = drain_slot d (slot d.tid.reorder_buf d.i)

-- mt76_rx_aggr_shutdown, with the frames that it frees
pub shutdown : Tid → Drain
unfolding while drain_slot
shutdown t =
    while (t.size + 1) drain_more drain_round
      (record { tid = record t { stopped = true }; freed = []; i = 0 })

-- mt76_rx_aggr_start after the allocation (kzalloc clears the flags, the count and the slots)
pub new_tid : ℕ → ℕ → ℕ → Tid
new_tid tidno ssn size = record {
  head = ssn;
  size = size;
  nframes = 0;
  num = tidno;
  started = false;
  stopped = false;
  reorder_buf = replicate size none;
}
