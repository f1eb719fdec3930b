-- ===== src/Aggr/Room.antt =====
-- The reorder window of mt76_rx_aggr_reorder: making room for a frame, and putting it into its slot.
use native.Mathlib.Nat.{mod-lt}
use mt.Common.{
  ℕ, ◌+◌, ◌%◌, ◌≤◌, ◌<◌, ◌≡◌, ◌≢◌, ◌∙◌, ap, arith, true, false, none, some, lt→ltb, length, set,
  length-set, Bool-cases, inl, inr,
}
use mt.Common.Slots.{slot, occupied, occupied-le-length, occupied-set, get_or-set}
use mt.Kernel.Seq.{SeqOps, IsSeqArith, ahead}
use mt.Aggr.{Skb, Tid, Rx, release_frames, make_room}
use mt.Aggr.Circle.{same_slot_in_window}
use mt.Aggr.Inv.{Inv, IsPlaced, Ready}
use mt.Aggr.Passed.{Passed, Passed-refl}
use mt.Aggr.Release.{release_frames_lem, before_lt, not_before_le}

-- The tid once the frame is in its slot.
abbrev pub stored_tid : ℕ → Tid → Skb → Tid
stored_tid jiffies t skb = record t {
  reorder_buf =
      set t.reorder_buf (skb.seqno % t.size)
        (some (record skb { reorder_time = jiffies % 4294967296 }));
  nframes = (t.nframes + 1) % 65536;
}

pub slot_room : {t : Tid} → Inv t → (seqno : ℕ) → seqno % t.size < length t.reorder_buf
slot_room {t} v seqno = omega (
  arith,
  v.room,
  v.size_ok.more_than_one,
  mod-lt seqno {m = t.size} (omega (arith, v.size_ok.more_than_one)),
)

module _ (k : SeqOps) (laws : IsSeqArith k) where
  -- The head is moved to where the window ends with the frame.
  abbrev window_start : ℕ → ℕ → ℕ
  window_start size seqno = (ahead size seqno + 1) % 4096

  make_room_beyond :
      (r : Rx) (seqno : ℕ)
      → Inv r.tid
      → seqno < 4096
      → seqno ≢ r.tid.head
      → k.sn_less seqno r.tid.head ≡ false
      → k.sn_less seqno ((r.tid.head + r.tid.size) % 65536) ≡ false
      → let r' = release_frames k r (k.sn_inc (k.sn_sub seqno r.tid.size)) in
        Passed r.tid.head r r'
        × (ahead r'.tid.head seqno < r.tid.size)
        × (ahead r.tid.head r'.tid.head + r.tid.size ≤ 2049)
  make_room_beyond r seqno v hs ne nb beyond =
      let size = r.tid.size in
      let head = r.tid.head in
      let target_lem : k.sn_inc (k.sn_sub seqno size) ≡ window_start size seqno =
        laws.inc_lem (k.sn_sub seqno size) ∙ ap (λ x. (x + 1) % 4096) (laws.sub_lem seqno size) in
      let far : size ≤ ahead head seqno = omega (
        arith,
        not_before_le k laws seqno ((head + size) % 65536) beyond,
        v.head_small,
        v.size_ok.at_most,
      ) in
      let near = not_before_le k laws seqno head nb in
      let moves : k.sn_less head (window_start size seqno) ≡ true =
        laws.less_lem head (window_start size seqno)
        ∙ lt→ltb 2048 _ (omega (arith, far, near, v.head_small, v.size_ok.more_than_one)) in
      rw target_lem (
        let done = release_frames_lem k laws r (window_start size seqno) v (omega arith) moves in
        (
          done.0,
          omega
              (arith, done.1, far, near, v.head_small, v.size_ok.more_than_one, v.size_ok.at_most),
          omega
              (arith, done.1, far, near, v.head_small, v.size_ok.more_than_one, v.size_ok.at_most),
        ))

  -- Once there is room, the frame lies inside the window.
  pub make_room_lem :
      (r : Rx) (seqno : ℕ)
      → Inv r.tid
      → seqno < 4096
      → seqno ≢ r.tid.head
      → k.sn_less seqno r.tid.head ≡ false
      → Passed r.tid.head r (make_room k r seqno)
        × (ahead (make_room k r seqno).tid.head seqno < r.tid.size)
        × (ahead r.tid.head (make_room k r seqno).tid.head + r.tid.size ≤ 2049)
  unfolding make_room
  make_room_lem r seqno v hs ne nb =
      elim (Bool-cases (k.sn_less seqno ((r.tid.head + r.tid.size) % 65536))) [
        | inl inside ↦ rw inside (
          Passed-refl r.tid.head r v,
          omega (
            arith,
            v.head_small,
            v.size_ok.at_most,
            not_before_le k laws seqno r.tid.head nb,
            before_lt k laws seqno ((r.tid.head + r.tid.size) % 65536) inside,
          ),
          omega (arith, v.head_small, v.size_ok.at_most),
        )
        | inr beyond ↦ rw beyond (make_room_beyond r seqno v hs ne nb beyond)
      ]

  pub stored-Inv :
      (jiffies : ℕ) (t : Tid) (skb : Skb)
      → Inv t
      → IsPlaced t.head t.size (skb.seqno % t.size) skb
      → slot t.reorder_buf (skb.seqno % t.size) ≡ none
      → Inv (stored_tid jiffies t skb)
  stored-Inv jiffies t skb v p e = record {
    size_ok = v.size_ok;
    room = length-set t.reorder_buf idx (some stored) ∙ v.room;
    head_small = v.head_small;
    counted =
        omega (arith, full, v.counted, v.size_ok.at_most, v.room, occupied-le-length t.reorder_buf);
    placed = λ i f h.
        ground
          (arith, v.placed i f, p, get_or-set t.reorder_buf idx i (some stored) none in_bounds);
  }
    where
      idx : ℕ
      idx = skb.seqno % t.size

      stored : Skb
      stored = record skb { reorder_time = jiffies % 4294967296 }

      in_bounds : skb.seqno % t.size < length t.reorder_buf
      in_bounds = omega (
        arith,
        v.room,
        v.size_ok.more_than_one,
        mod-lt skb.seqno {m = t.size} (omega (arith, v.size_ok.more_than_one)),
      )

      full :
          occupied (set t.reorder_buf (skb.seqno % t.size) (some stored))
          ≡ occupied t.reorder_buf + 1
      full =
          ground (arith, e, occupied-set t.reorder_buf (skb.seqno % t.size) (some stored) in_bounds)

  -- A frame from beyond the window finds no frame in its slot.
  beyond_free :
      (r r' : Rx) (seqno : ℕ) (old : Skb)
      → Inv r.tid
      → Passed r.tid.head r r'
      → seqno < 4096
      → ahead r'.tid.head seqno < r.tid.size
      → r.tid.size ≤ ahead r.tid.head seqno
      → slot r'.tid.reorder_buf (seqno % r'.tid.size) ≡ some old
      → ⊥
  beyond_free r r' seqno old v p hs near far used =
      let now = p.valid.placed (seqno % r'.tid.size) old used in
      let before = v.placed (seqno % r'.tid.size) old (p.kept (seqno % r'.tid.size) old used) in
      let z = p.valid.size_ok in
      let same : old.seqno ≡ seqno =
        same_slot_in_window r'.tid.size r'.tid.head old.seqno seqno z.divides
          (omega (arith, z.more_than_one)) (omega (arith, z.at_most)) now.small hs now.in_window
          (omega (arith, near, p.size_lem)) now.at_slot in
      omega (arith, before.in_window, far, ap (ahead r.tid.head) same)

  -- If the slot of a frame is in use once there is room, then the window has not moved.
  pub make_room_used :
      (r : Rx) (seqno : ℕ) (old : Skb)
      → Ready r.tid
      → seqno < 4096
      → seqno ≢ r.tid.head
      → k.sn_less seqno r.tid.head ≡ false
      → slot (make_room k r seqno).tid.reorder_buf (seqno % (make_room k r seqno).tid.size)
        ≡ some old
      → make_room k r seqno ≡ r
  unfolding make_room
  make_room_used r seqno old v hs ne nb used =
      elim (Bool-cases (k.sn_less seqno ((r.tid.head + r.tid.size) % 65536))) [
        | inl inside ↦ rw inside
        | inr beyond ↦ absurd (
            let v' = v.inv in
            let room = make_room_beyond r seqno v' hs ne nb beyond in
            beyond_free r (release_frames k r (k.sn_inc (k.sn_sub seqno r.tid.size))) seqno old v'
              room.0 hs room.1
              (omega (
                arith,
                not_before_le k laws seqno ((r.tid.head + r.tid.size) % 65536) beyond,
                v'.head_small,
                v'.size_ok.at_most,
              ))
              (rw beyond at used))
      ]
