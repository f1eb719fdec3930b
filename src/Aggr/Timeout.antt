-- ===== src/Aggr/Timeout.antt =====
-- mt76_rx_aggr_check_release, the work that passes on what has waited too long.
use native.Mathlib.Nat.{mod-lt, mod-eq_of_lt, mod_self, mod-add-mod}
use native.Mathlib.Decide.{dec_lt}
use mt.Common.{
  ℕ, ◌+◌, ◌-◌, ◌%◌, ◌≤◌, ◌<◌, ◌≡◌, ◌≢◌, refl, ap, arith, true, false, ltb, Option, none, some, ◌==◌,
  if◌then◌else◌, Bool-cases, inl, inr, while_inv,
}
use mt.Common.Slots.{slot, occupied-le-length}
use mt.Kernel.Seq.{SeqOps, IsSeqArith, ahead}
use mt.Aggr.{
  Skb, Rx, Scan, head_idx, tid_to_timeo, release_frames, release_head, scan_more, scan_slot,
  scan_round, scan_loop, scan_from, check_release, bar_locked,
}
use mt.Aggr.Inv.{Ready}
use mt.Aggr.Passed.{Passed, Passed-refl, Passed-trans}
use mt.Aggr.Release.{
  release_frames_from, release_head_lem, release_head_idle, release_frames_idle, release_frames_lem,
  before_lt, not_present,
}

-- The rounds left until the index comes back to where the scan began.
abbrev rounds_left : ℕ → ℕ → ℕ → ℕ
rounds_left size start idx = if ltb start idx then start + size - idx else start - idx

rounds-step :
    (size start idx : ℕ)
    → start < size
    → idx < size
    → idx ≢ start
    → rounds_left size start ((idx + 1) % size) < rounds_left size start idx
rounds-step size start idx hs hi ne = elim (dec_lt (idx + 1) size) [
  | yes p ↦ rw (mod-eq_of_lt p) (ground arith)
  | no p ↦ let e : idx + 1 ≡ size = omega arith in rw (e, mod_self) (ground arith)
]

rounds_first :
    (size head : ℕ) → 2 ≤ size → rounds_left size (head % size) ((head + 1) % size) < size
rounds_first size head h =
    let start = head % size in
    let small : start < size = mod-lt head (omega arith) in
    rw (← mod-add-mod head size 1) (elim (dec_lt (start + 1) size) [
      | yes p ↦ rw (mod-eq_of_lt p) (ground arith)
      | no p ↦ let e : start + 1 ≡ size = omega arith in rw (e, mod_self) (ground arith)
    ])

module _ (k : SeqOps) (laws : IsSeqArith k) (jiffies : ℕ) where
  -- What holds in each round of the scan, begun at the ready session of `r`.
  record Scanning (r : Rx) (s : Scan) : Type 0 where
    pass : Passed r.tid.head r s.rx
    near : ahead r.tid.head s.rx.tid.head < r.tid.size
    idx_in : s.idx < r.tid.size

  slot_pass :
      (r : Rx) (s : Scan) (o : Option Skb)
      → Ready r.tid
      → Scanning r s
      → slot s.rx.tid.reorder_buf s.idx ≡ o
      → Passed r.tid.head r (scan_slot k jiffies s o).rx
        × (ahead r.tid.head (scan_slot k jiffies s o).rx.tid.head < r.tid.size)
        × ((scan_slot k jiffies s o).idx ≡ (s.idx + 1) % r.tid.size)
  unfolding scan_slot
  slot_pass r s none v p e = (p.pass, p.near, rw p.pass.size_lem)
  slot_pass r s (some f) v p e =
      let before = v.inv.placed s.idx f (p.pass.kept s.idx f e) in
      let now = p.pass.valid.placed s.idx f e in
      let z = v.inv.size_ok in
      let moved =
        release_frames_from k laws r.tid.head s.rx f.seqno p.pass.valid now.small
          (omega (arith, now.in_window, p.pass.size_lem, z.at_most))
          (omega (arith, now.in_window, p.pass.size_lem, z.at_most, p.near)) in
      elim (Bool-cases (k.time_after32 jiffies (f.reorder_time + tid_to_timeo k s.rx.tid.num))) [
        | inl late ↦ rw late (
          Passed-trans p.pass moved.0,
          omega (arith, ap (ahead r.tid.head) moved.1, before.in_window),
          rw p.pass.size_lem,
        )
        | inr early ↦ rw early (p.pass, p.near, rw p.pass.size_lem)
      ]

  more_ne : (start : ℕ) (s : Scan) → scan_more start s ≡ true → s.idx ≢ start
  more_ne start s h = ground arith

  scan_step :
      (r : Rx) (s : Scan)
      → Ready r.tid
      → Scanning r s
      → scan_more (head_idx r.tid) s ≡ true
      → Scanning r (scan_round k jiffies s)
        × (rounds_left r.tid.size (head_idx r.tid) (scan_round k jiffies s).idx
            < rounds_left r.tid.size (head_idx r.tid) s.idx)
  unfolding scan_round
  scan_step r s v p more =
      let z = v.inv.size_ok in
      let one = slot_pass r s (slot s.rx.tid.reorder_buf s.idx) v p refl in
      let pos : 0 < r.tid.size = omega (arith, z.more_than_one) in
      (
        record { pass = one.0; near = one.1; idx_in = rw one.2 (mod-lt (s.idx + 1) pos) },
        rw one.2 (
            rounds-step r.tid.size (head_idx r.tid) s.idx (mod-lt r.tid.head pos) p.idx_in
              (more_ne (head_idx r.tid) s more)),
      )

  -- The scan of `size` rounds ends by its own test.
  scan_from_lem :
      (r : Rx)
      → Ready r.tid
      → Scanning r (scan_from k jiffies r)
        × (scan_more (head_idx r.tid) (scan_from k jiffies r) ≡ false)
  unfolding scan_from scan_loop
  scan_from_lem r v =
      let pos : 0 < r.tid.size = omega (arith, v.inv.size_ok.more_than_one) in
      let idx = (r.tid.head + 1) % r.tid.size in
      while_inv (Scanning r) (λ s. rounds_left r.tid.size (head_idx r.tid) s.idx)
        (scan_more (head_idx r.tid)) (scan_round k jiffies) (λ s p more. scan_step r s v p more)
        r.tid.size (record { rx = r; idx = idx; left = r.tid.nframes })
        (rounds_first r.tid.size r.tid.head v.inv.size_ok.more_than_one)
        (record {
          pass = Passed-refl r.tid.head r v.inv;
          near = omega (arith, pos);
          idx_in = mod-lt (r.tid.head + 1) pos;
        })

  release_after_scan :
      (r : Rx)
      → Ready r.tid
      → let r' = release_head k (scan_from k jiffies r).rx in Passed r.tid.head r r' × Ready r'.tid
  release_after_scan r v =
      let p = (scan_from_lem r v).0 in
      let scanned = (scan_from k jiffies r).rx in
      let q = p.pass.valid in
      let done = release_head_lem k laws r.tid.head scanned q (
        omega (
          arith,
          p.near,
          v.inv.size_ok.at_most,
          q.counted,
          q.room,
          q.size_ok.at_most,
          occupied-le-length scanned.tid.reorder_buf,
        )) in
      (
        Passed-trans p.pass done.0,
        record { inv = done.0.valid; no_head = not_present (release_head k scanned) done.1 },
      )

  -- mt76_rx_aggr_check_release passes frames up in ascending order, loses none, and leaves the
  -- session ready.
  pub check_release_lem :
      (r : Rx)
      → Ready r.tid
      → Passed r.tid.head r (check_release k jiffies r) × Ready (check_release k jiffies r).tid
  unfolding check_release
  check_release_lem r v = elim (Bool-cases (r.tid.nframes == 0)) [
    | inl none_held ↦ rw none_held (Passed-refl r.tid.head r v.inv, v)
    | inr some_held ↦ rw (some_held, release_head_idle k laws r v.no_head) (release_after_scan r v)
  ]

-- A block-ack request: the window moves to its sequence number, if that is ahead of the head.
module _ (k : SeqOps) (laws : IsSeqArith k) where
  pub bar_locked_lem :
      (r : Rx) (seqno : ℕ)
      → Ready r.tid
      → seqno < 4096
      → Passed r.tid.head r (bar_locked k r seqno) × Ready (bar_locked k r seqno).tid
  unfolding bar_locked
  bar_locked_lem r seqno v hs = elim (Bool-cases r.tid.stopped) [
    | inl off ↦ simp off (Passed-refl r.tid.head r v.inv, v)
    | inr on ↦ simp on (elim (Bool-cases (k.sn_less r.tid.head seqno)) [
      | inl forward ↦
          let moved = release_frames_lem k laws r seqno v.inv hs forward in
          let at = release_frames k r seqno in
          let q = moved.0.valid in
          let done = release_head_lem k laws r.tid.head at q (
            omega (
              arith,
              moved.1,
              before_lt k laws r.tid.head seqno forward,
              v.inv.head_small,
              q.counted,
              q.room,
              q.size_ok.at_most,
              occupied-le-length at.tid.reorder_buf,
            )) in
          (
            Passed-trans moved.0 done.0,
            record { inv = done.0.valid; no_head = not_present (release_head k at) done.1 },
          )
      | inr back ↦
          rw (release_frames_idle k laws r seqno back, release_head_idle k laws r v.no_head)
            (Passed-refl r.tid.head r v.inv, v)
    ])
  ]
