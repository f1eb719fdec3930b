-- ===== src/Aggr/Release.antt =====
-- mt76_rx_aggr_release_frames and mt76_rx_aggr_release_head: where they stop, and what they pass up.
use native.Mathlib.Numerals.{add-one}
use mt.Common.{
  ℕ, zero, suc, ◌+◌, ◌≤◌, ◌<◌, ◌≡◌, arith, true, false, none, length, Bool-cases, inl, inr,
  while-true, while-false, while_inv,
}
use mt.Common.Slots.{slot, occupied, occupied-le-length, occupied-set}
use mt.Kernel.Seq.{SeqOps, IsSeqArith, ahead}
use mt.Aggr.{
  Rx, release, head_idx, release_frames_loop, release_frames, release_head, head_before,
  release_next, seq_fuel, head_present,
}
use mt.Aggr.Inv.{Inv, release-Inv, head_idx_in_bounds}
use mt.Aggr.Passed.{Passed, Passed-refl, Passed-trans, release-Passed, head-release}

module _ (k : SeqOps) (laws : IsSeqArith k) where
  pub before_lt : (a b : ℕ) → k.sn_less a b ≡ true → 2048 < ahead b a
  before_lt a b h = ground (arith, laws.less_lem a b)

  pub not_before_le : (a b : ℕ) → k.sn_less a b ≡ false → ahead b a ≤ 2048
  not_before_le a b h = ground (arith, laws.less_lem a b)

  -- With enough fuel the head reaches the sequence number.
  release_frames_loop_lem :
      (h target fuel : ℕ) (r : Rx)
      → Inv r.tid
      → target < 4096
      → ahead r.tid.head target < 2048
      → ahead r.tid.head target < fuel
      → ahead h r.tid.head + ahead r.tid.head target < 4096
      → Passed h r (release_frames_loop k fuel r target)
        × ((release_frames_loop k fuel r target).tid.head ≡ target)
  unfolding release_frames_loop
  release_frames_loop_lem h target zero r v ht hn hf hb = absurd (omega arith)
  release_frames_loop_lem h target (suc fuel) r v ht hn hf hb =
      elim (Bool-cases (head_before k target r)) [
        | inl more ↦ rw (while-true (head_before k target) (release_next k) fuel r more) (
            let near : 2048 < ahead target r.tid.head = before_lt r.tid.head target more in
            let moved = head-release k laws r in
            let rest =
              release_frames_loop_lem h target fuel (release_next k r) (release-Inv k laws r v) ht
                (omega (arith, moved, v.head_small)) (omega (arith, moved, v.head_small))
                (omega (arith, moved, v.head_small)) in
            (
              Passed-trans (release-Passed k laws h r v (omega (arith, v.head_small))) rest.0,
              rest.1,
            ))
        | inr done ↦
            rw (while-false (head_before k target) (release_next k) fuel r done)
              (Passed-refl h r v, omega (arith, v.head_small, not_before_le r.tid.head target done))
      ]

  -- mt76_rx_aggr_release_frames ends with the head at the sequence number, if that is ahead of it.
  pub release_frames_lem :
      (r : Rx) (target : ℕ)
      → Inv r.tid
      → target < 4096
      → k.sn_less r.tid.head target ≡ true
      → Passed r.tid.head r (release_frames k r target)
        × ((release_frames k r target).tid.head ≡ target)
  unfolding release_frames
  release_frames_lem r target v ht b =
      release_frames_loop_lem r.tid.head target seq_fuel r v ht
        (omega (arith, before_lt r.tid.head target b, v.head_small))
        (omega (arith, before_lt r.tid.head target b, v.head_small))
        (omega (arith, before_lt r.tid.head target b, v.head_small))

  -- The same, seen from an earlier head.
  pub release_frames_from :
      (h : ℕ) (r : Rx) (target : ℕ)
      → Inv r.tid
      → target < 4096
      → ahead r.tid.head target < 2048
      → ahead h r.tid.head + ahead r.tid.head target < 4096
      → Passed h r (release_frames k r target) × ((release_frames k r target).tid.head ≡ target)
  unfolding release_frames
  release_frames_from h r target v ht hn hb =
      release_frames_loop_lem h target seq_fuel r v ht hn (omega arith) hb

  -- and changes nothing otherwise.
  pub release_frames_idle :
      (r : Rx) (target : ℕ) → k.sn_less r.tid.head target ≡ false → release_frames k r target ≡ r
  unfolding release_frames release_frames_loop
  release_frames_idle r target e = while-false (head_before k target) (release_next k) 4095 r e

  release_shrinks :
      (r : Rx)
      → Inv r.tid
      → head_present r ≡ true
      → occupied (release_next k r).tid.reorder_buf + 1 ≡ occupied r.tid.reorder_buf
  unfolding release
  release_shrinks r v e =
      ground (arith, occupied-set r.tid.reorder_buf (head_idx r.tid) none (head_idx_in_bounds v))

  -- What holds in each round of mt76_rx_aggr_release_head.
  abbrev Heads : ℕ → Rx → Rx → Type 0
  Heads h r s = Passed h r s × (ahead h s.tid.head + s.tid.nframes < 4096)

  Heads-round :
      (h : ℕ) (r s : Rx)
      → Heads h r s
      → head_present s ≡ true
      → Heads h r (release_next k s)
        × (occupied (release_next k s).tid.reorder_buf < occupied s.tid.reorder_buf)
  Heads-round h r s p e =
      let v = p.0.valid in
      let one =
        release-Passed k laws h s v (omega (arith, p.1, v.counted, release_shrinks s v e)) in
      let fewer = release_shrinks s v e in
      (
        (
          Passed-trans p.0 one,
          omega (
            arith,
            fewer,
            v.counted,
            one.valid.counted,
            p.1,
            head-release k laws s,
            v.head_small,
          ),
        ),
        omega (arith, fewer),
      )

  -- mt76_rx_aggr_release_head ends with no frame at the head.
  pub release_head_lem :
      (h : ℕ) (r : Rx)
      → Inv r.tid
      → ahead h r.tid.head + r.tid.nframes < 4096
      → Passed h r (release_head k r) × (head_present (release_head k r) ≡ false)
  unfolding release_head
  release_head_lem h r v b =
      let done =
        while_inv (Heads h r) (λ s. occupied s.tid.reorder_buf) head_present (release_next k)
          (Heads-round h r) (length r.tid.reorder_buf + 1) r
          (omega (arith, occupied-le-length r.tid.reorder_buf)) (Passed-refl h r v, b) in
      (done.0.0, done.1)

  -- and changes nothing if there was none.
  pub release_head_idle :
      (r : Rx) → slot r.tid.reorder_buf (head_idx r.tid) ≡ none → release_head k r ≡ r
  unfolding release_head
  release_head_idle r e =
      rw add-one
        (while-false head_present (release_next k) (length r.tid.reorder_buf) r (ground arith))

pub not_present : (r : Rx) → head_present r ≡ false → slot r.tid.reorder_buf (head_idx r.tid) ≡ none
not_present r e = ground arith
