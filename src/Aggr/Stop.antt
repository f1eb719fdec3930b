-- ===== src/Aggr/Stop.antt =====
-- mt76_rx_aggr_shutdown frees what a session still holds; a new session is ready.
use mt.Common.{
  ℕ, ◌+◌, ◌-◌, ◌%◌, ◌≤◌, ◌<◌, ◌≡◌, refl, sym, ◌∙◌, ap, arith, true, false, ltb, Option, none, some,
  ◌==◌, length, length-set, length-replicate, replicate, Bool-cases, inl, inr, [], ◌∷◌, while,
  while_inv, ==→eq,
}
use mt.Common.Slots.{
  slot, is_set, weight, total, occupied, occupied-le-length, occupied-set, get_or-set, total-set,
  sum_of, sum_of-append, occupied_of_none, slot_of_occupied-zero, slot_out_of_bounds,
  slot-replicate, total_of_occupied-zero,
}
use mt.Aggr.{Skb, Tid, Drain, drain_more, drain_slot, drain_round, shutdown, new_tid}
use mt.Aggr.Inv.{Inv, IsSize, Ready}
use mt.Aggr.Passed.{is_frame}

-- What holds of the loop in each round, begun at the session `t`.
record Draining (t : Tid) (d : Drain) : Type 0 where
  room : length d.tid.reorder_buf ≡ t.size
  small : t.size ≤ 2048
  same_size : d.tid.size ≡ t.size
  counted : d.tid.nframes ≡ occupied d.tid.reorder_buf
  is_stopped : d.tid.stopped ≡ true
  cleared : (j : ℕ) → j < d.i → slot d.tid.reorder_buf j ≡ none
  kept :
      (i : ℕ)
      → sum_of (is_frame i) d.freed + total (is_frame i) d.tid.reorder_buf
        ≡ total (is_frame i) t.reorder_buf

slot_step :
    (t : Tid) (d : Drain) (o : Option Skb)
    → Draining t d
    → d.i < t.size
    → slot d.tid.reorder_buf d.i ≡ o
    → Draining t (drain_slot d o)
unfolding drain_slot
slot_step t d none p h e = record {
  room = p.room;
  small = p.small;
  same_size = p.same_size;
  counted = p.counted;
  is_stopped = p.is_stopped;
  cleared = λ j l. ground (arith, p.cleared j);
  kept = p.kept;
}
slot_step t d (some skb) p h e = record {
  room = length-set d.tid.reorder_buf d.i none ∙ p.room;
  small = p.small;
  same_size = p.same_size;
  counted = omega (
    arith,
    p.counted,
    p.small,
    p.room,
    occupied-le-length d.tid.reorder_buf,
    ap is_set e,
    occupied-set d.tid.reorder_buf d.i none (omega (arith, p.room)),
  );
  is_stopped = p.is_stopped;
  cleared = λ j l. ground (
    arith,
    p.cleared j,
    p.room,
    get_or-set d.tid.reorder_buf d.i j none none (omega (arith, p.room)),
  );
  kept = λ i. omega (
    arith,
    p.kept i,
    ap (weight (is_frame i)) e,
    sum_of-append (is_frame i) d.freed (skb ∷ []),
    total-set (is_frame i) d.tid.reorder_buf d.i none (omega (arith, p.room)),
  );
}

i-drain_slot : (d : Drain) (o : Option Skb) → (drain_slot d o).i ≡ d.i + 1
unfolding drain_slot
i-drain_slot d none = refl
i-drain_slot d (some skb) = refl

more_lt : (d : Drain) → drain_more d ≡ true → d.i < d.tid.size
more_lt d h = ground arith

round_step :
    (t : Tid) (d : Drain)
    → Draining t d
    → drain_more d ≡ true
    → Draining t (drain_round d) × (t.size - (drain_round d).i < t.size - d.i)
unfolding drain_round
round_step t d p h =
    let o = slot d.tid.reorder_buf d.i in
    (
      slot_step t d o p (omega (arith, more_lt d h, p.same_size)) refl,
      omega (arith, i-drain_slot d o, more_lt d h, p.same_size),
    )

-- When the loop ends no slot is set: it has gone through all, or the count says that none is left.
none_left :
    (t : Tid) (d : Drain) → Draining t d → drain_more d ≡ false → occupied d.tid.reorder_buf ≡ 0
none_left t d p h = elim (Bool-cases (d.tid.nframes == 0)) [
  | inl z ↦ omega (arith, p.counted, ==→eq d.tid.nframes 0 z)
  | inr nz ↦ occupied_of_none d.tid.reorder_buf (λ i. elim (Bool-cases (ltb i t.size)) [
    | inl l ↦ p.cleared i (ground (arith, p.same_size))
    | inr g ↦ slot_out_of_bounds d.tid.reorder_buf i (ground (arith, p.room))
  ])
]

-- mt76_rx_aggr_shutdown stops the session, leaves every slot empty, and frees each frame that was
-- buffered, once.
pub shutdown_frees_all :
    (t : Tid)
    → Inv t
    → let d = shutdown t in
      (d.tid.stopped ≡ true)
      × (d.tid.nframes ≡ 0)
      × ((i : ℕ) → slot d.tid.reorder_buf i ≡ none)
      × ((i : ℕ) → sum_of (is_frame i) d.freed ≡ total (is_frame i) t.reorder_buf)
unfolding shutdown
shutdown_frees_all t v =
    let start : Drain = record { tid = record t { stopped = true }; freed = []; i = 0 } in
    let done =
      while_inv (Draining t) (λ d. t.size - d.i) drain_more drain_round (round_step t) (t.size + 1)
        start (omega arith)
        (record {
          room = v.room;
          small = v.size_ok.at_most;
          same_size = refl;
          counted = v.counted;
          is_stopped = refl;
          cleared = λ j l. absurd (omega arith);
          kept = λ i. omega arith;
        }) in
    let last = while (t.size + 1) drain_more drain_round start in
    let empty = none_left t last done.0 done.1 in
    (
      done.0.is_stopped,
      done.0.counted ∙ empty,
      λ i. slot_of_occupied-zero last.tid.reorder_buf i empty,
      λ i.
          omega
            (arith, done.0.kept i, total_of_occupied-zero (is_frame i) last.tid.reorder_buf empty),
    )

-- A new session of a window size that divides 4096 is ready.
pub new_tid-Ready : (tidno ssn size : ℕ) → IsSize size → ssn < 4096 → Ready (new_tid tidno ssn size)
unfolding new_tid
new_tid-Ready tidno ssn size z h = record {
  inv = record {
    size_ok = z;
    room = length-replicate size none;
    head_small = h;
    counted = sym (occupied_of_none (replicate size none) (λ i. slot-replicate size i));
    placed = λ i f e. absurd (let o = slot-replicate {A = Skb} size i in cc);
  };
  no_head = slot-replicate size (ssn % size);
}
