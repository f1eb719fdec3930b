-- ===== src/Aggr/Reorder.antt =====
-- mt76_rx_aggr_reorder under the session's lock: what becomes of a frame that arrives.
use native.Mathlib.Decide.{ℕ_discrete}
use mt.Common.{
  ℕ, ◌+◌, ◌%◌, ◌≤◌, ◌<◌, ◌≡◌, ◌≢◌, refl, sym, ◌∙◌, ap, subst, arith, true, false, none, some, ◌==◌,
  Bool-cases, Option-cases, ==→eq, inl, inr, ◌⊎◌, List, [], ◌∷◌, ◌++◌, append_assoc, append-nil,
}
use mt.Common.Slots.{
  slot, occupied-le-length, slot_of_occupied-zero, total-set, weight, sum_of, sum_of-append,
}
use mt.Kernel.Seq.{SeqOps, IsSeqArith, ahead}
use mt.Aggr.{
  head_idx, release_head, Skb, Tid, Rx, Out, untouched, unlink, release_head, store_frame,
  make_room, buffer_frame, in_sequence, reorder_locked,
}
use mt.Aggr.Inv.{Inv, IsPlaced, Ready, IsPlaced-step}
use mt.Aggr.Room.{stored_tid, slot_room, make_room_lem, make_room_used, stored-Inv}
use mt.Aggr.Passed.{Passed, InOrder, InOrder-weaken, InOrder-append, is_frame, held}
use mt.Aggr.Release.{release_head_lem, not_present}

-- What is left of a frame and of the session that it was given to, with nothing lost: `before` is
-- the list without the frame.
pub record Reordered (before : List Skb) (r : Rx) (o : Out) : Type 0 where
  pub out : List Skb
  pub frames_lem : o.rx.frames ≡ before ++ out
  pub order : InOrder r.tid.head 0 (ahead r.tid.head o.rx.tid.head) out
  pub held_lem : (i : ℕ) → held i o.rx + sum_of (is_frame i) o.freed ≡ held i r
  pub ready : Ready o.rx.tid

-- What the store of a frame in its slot leaves: `skb` is held besides what was held before.
pub record Stored (h : ℕ) (r : Rx) (skb : Skb) (o : Out) : Type 0 where
  out : List Skb
  frames_lem : o.rx.frames ≡ r.frames ++ out
  order : InOrder h (ahead h r.tid.head) (ahead h o.rx.tid.head) out
  held_lem : (i : ℕ) → held i o.rx + sum_of (is_frame i) o.freed ≡ held i r + is_frame i skb
  ready : Ready o.rx.tid

Passed-Stored :
    {h : ℕ} {r s : Rx} {skb : Skb} {o : Out} → Passed h r s → Stored h s skb o → Stored h r skb o
Passed-Stored {h} {r} {s} {skb} {o} p q = record {
  out = p.out ++ q.out;
  frames_lem = cc (p.frames_lem, q.frames_lem, append_assoc r.frames p.out q.out);
  order =
      InOrder-append h (ahead h r.tid.head) (ahead h s.tid.head) (ahead h o.rx.tid.head) p.out q.out
        p.order q.order;
  held_lem = λ i. omega (arith, p.held_lem i, q.held_lem i);
  ready = q.ready;
}

-- A frame whose slot is in use is freed.
store_used :
    (k : SeqOps) (jiffies h : ℕ) (r : Rx) (skb old : Skb)
    → Ready r.tid
    → Stored h r skb (store_frame k jiffies r skb (some old))
unfolding store_frame
store_used k jiffies h r skb old v = record {
  out = [];
  frames_lem = sym (append-nil r.frames);
  order = omega arith;
  held_lem = λ i. omega arith;
  ready = v;
}

module _ (k : SeqOps) (laws : IsSeqArith k) where
  store_empty :
      (jiffies h : ℕ) (r : Rx) (skb : Skb)
      → Inv r.tid
      → IsPlaced r.tid.head r.tid.size (skb.seqno % r.tid.size) skb
      → slot r.tid.reorder_buf (skb.seqno % r.tid.size) ≡ none
      → ahead h r.tid.head + r.tid.size ≤ 2049
      → Stored h r skb (store_frame k jiffies r skb none)
  unfolding store_frame
  store_empty jiffies h r skb v p e b =
      let t' = stored_tid jiffies r.tid skb in
      let r' : Rx = record r { tid = t' } in
      let v' = stored-Inv k laws jiffies r.tid skb v p e in
      let done = release_head_lem k laws h r' v' (
        omega
          (arith, v'.counted, v'.room, occupied-le-length t'.reorder_buf, b, v.size_ok.at_most)) in
      record {
        out = done.0.out;
        frames_lem = done.0.frames_lem;
        order = done.0.order;
        held_lem = λ i. omega (
          arith,
          done.0.held_lem i,
          ap (weight (is_frame i)) e,
          total-set (is_frame i) r.tid.reorder_buf (skb.seqno % r.tid.size)
              (some (record skb { reorder_time = jiffies % 4294967296 })) (slot_room v skb.seqno),
        );
        ready = record { inv = done.0.valid; no_head = not_present (release_head k r') done.1 };
      }

  buffer_lem :
      (jiffies : ℕ) (r : Rx) (skb : Skb)
      → Ready r.tid
      → skb.seqno < 4096
      → skb.seqno ≢ r.tid.head
      → k.sn_less skb.seqno r.tid.head ≡ false
      → Stored r.tid.head r skb (buffer_frame k jiffies r skb)
  unfolding buffer_frame
  buffer_lem jiffies r skb v hs ne nb =
      let room = make_room_lem k laws r skb.seqno v.inv hs ne nb in
      let r' = make_room k r skb.seqno in
      elim (Option-cases (slot r'.tid.reorder_buf (skb.seqno % r'.tid.size))) [
        | inl free ↦ rw free (
            Passed-Stored room.0 (
              store_empty jiffies r.tid.head r' skb room.0.valid
                (record {
                  small = hs;
                  at_slot = refl;
                  in_window = omega (arith, room.1, room.0.size_lem);
                })
                free (omega (arith, room.2, room.0.size_lem))))
        | inr (old, used) ↦
            let same = make_room_used k laws r skb.seqno old v hs ne nb used in
            rw used (
              Passed-Stored room.0 (
                store_used k jiffies r.tid.head r' skb old (subst (λ x. Ready x.tid) (sym same) v)))
      ]

  -- The list without the frame that was put at its end.
  unlink_last :
      (fs : List Skb) (skb : Skb)
      → sum_of (is_frame skb.id) fs ≡ 0
      → unlink skb.id (fs ++ (skb ∷ [])) ≡ fs
  unlink_last [] skb h = ground arith
  unlink_last (f ∷ fs) skb h = ground (arith, unlink_last fs skb)

  -- The head moves past its empty slot.
  head_moved : (t : Tid) → Ready t → Inv (record t { head = k.sn_inc t.head })
  head_moved t v = record {
    size_ok = v.inv.size_ok;
    room = v.inv.room;
    head_small = omega (arith, laws.inc_lem t.head);
    counted = v.inv.counted;
    placed = λ i f e. rw (laws.inc_lem t.head) (
        IsPlaced-step t.head t.size i f v.inv.size_ok v.inv.head_small (λ q. cc (v.no_head))
          (v.inv.placed i f e));
  }

  -- The session once the head has moved past the frame that it waited for.
  abbrev next_tid : Tid → Tid
  next_tid t = record t { head = k.sn_inc t.head }

  only_frame :
      (before : List Skb) (t : Tid) (skb : Skb)
      → Ready t
      → skb.seqno ≡ t.head
      → t.nframes ≡ 0
      → Reordered before
          (record { tid = t; frames = before ++ (skb ∷ []) })
          (untouched (record { tid = next_tid t; frames = before ++ (skb ∷ []) }))
  only_frame before t skb v e z = record {
    out = skb ∷ [];
    frames_lem = refl;
    order = omega (arith, ap (ahead t.head) e, laws.inc_lem t.head, v.inv.head_small);
    held_lem = λ i. omega arith;
    ready = record {
      inv = head_moved t v;
      no_head =
          slot_of_occupied-zero t.reorder_buf (head_idx (next_tid t))
            (omega (arith, z, v.inv.counted));
    };
  }

  frame_and_more :
      (before : List Skb) (t : Tid) (skb : Skb)
      → Ready t
      → skb.seqno ≡ t.head
      → Reordered before
          (record { tid = t; frames = before ++ (skb ∷ []) })
          (untouched (release_head k (record { tid = next_tid t; frames = before ++ (skb ∷ []) })))
  frame_and_more before t skb v e =
      let r' : Rx = record { tid = next_tid t; frames = before ++ (skb ∷ []) } in
      let one : ahead t.head (k.sn_inc t.head) ≡ 1 =
        omega (arith, laws.inc_lem t.head, v.inv.head_small) in
      let done = release_head_lem k laws t.head r' (head_moved t v) (
        omega (
          arith,
          one,
          v.inv.counted,
          v.inv.room,
          occupied-le-length t.reorder_buf,
          v.inv.size_ok.at_most,
        )) in
      let last = release_head k r' in
      record {
        out = skb ∷ done.0.out;
        frames_lem = done.0.frames_lem ∙ append_assoc before (skb ∷ []) done.0.out;
        order = (
          omega arith,
          InOrder-weaken t.head (ahead t.head skb.seqno + 1) (ahead t.head (k.sn_inc t.head))
              (ahead t.head last.tid.head) done.0.out
              (omega (arith, one, ap (ahead t.head) e, v.inv.head_small)) done.0.order,
        );
        held_lem = λ i. omega (arith, done.0.held_lem i);
        ready = record { inv = done.0.valid; no_head = not_present last done.1 };
      }

  in_sequence_lem :
      (before : List Skb) (t : Tid) (skb : Skb)
      → Ready t
      → skb.seqno ≡ t.head
      → let r : Rx = record { tid = t; frames = before ++ (skb ∷ []) } in
        Reordered before r (untouched (in_sequence k r))
  unfolding in_sequence
  in_sequence_lem before t skb v e = elim (Bool-cases (t.nframes == 0)) [
    | inl z ↦ rw z (only_frame before t skb v e (==→eq t.nframes 0 z))
    | inr more ↦ rw more (frame_and_more before t skb v e)
  ]

  -- The session that has begun.
  abbrev begun : Tid → Tid
  begun t = record t { started = true }

  begun-Ready : (t : Tid) → Ready t → Ready (begun t)
  begun-Ready t v = record {
    inv = record {
      size_ok = v.inv.size_ok;
      room = v.inv.room;
      head_small = v.inv.head_small;
      counted = v.inv.counted;
      placed = v.inv.placed;
    };
    no_head = v.no_head;
  }

  Reordered-begun :
      (before frames : List Skb) (t : Tid) (o : Out)
      → Reordered before (record { tid = begun t; frames = frames }) o
      → Reordered before (record { tid = t; frames = frames }) o
  Reordered-begun before frames t o p = record {
    out = p.out;
    frames_lem = p.frames_lem;
    order = p.order;
    held_lem = p.held_lem;
    ready = p.ready;
  }

  -- A frame that is stored or freed has been taken off the list first.
  Stored-Reordered :
      (before : List Skb) (t : Tid) (skb : Skb) (o : Out)
      → Stored t.head (record { tid = t; frames = before }) skb o
      → Reordered before (record { tid = t; frames = before ++ (skb ∷ []) }) o
  Stored-Reordered before t skb o p = record {
    out = p.out;
    frames_lem = p.frames_lem;
    order =
        InOrder-weaken t.head 0 (ahead t.head t.head) (ahead t.head o.rx.tid.head) p.out
          (omega arith) p.order;
    held_lem = λ i. omega (arith, p.held_lem i, sum_of-append (is_frame i) before (skb ∷ []));
    ready = p.ready;
  }

  behind_lem :
      (before : List Skb) (t : Tid) (skb : Skb)
      → Ready t
      → Stored t.head
          (record { tid = t; frames = before })
          skb
          (record { rx = record { tid = t; frames = before }; freed = skb ∷ []; work = none })
  behind_lem before t skb v = record {
    out = [];
    frames_lem = sym (append-nil before);
    order = omega arith;
    held_lem = λ i. omega arith;
    ready = v;
  }

  module _ (jiffies : ℕ) (before : List Skb) (t : Tid) (skb : Skb) where
    abbrev arriving : Rx
    arriving = record { tid = t; frames = before ++ (skb ∷ []) }

    abbrev Admitted : Type 0
    Admitted = (t.stopped ≡ false) × ((t.started ≡ true) ⊎ (k.sn_less skb.seqno t.head ≡ false))

    locked_behind :
        sum_of (is_frame skb.id) before ≡ 0
        → Admitted
        → k.sn_less skb.seqno t.head ≡ true
        → reorder_locked k jiffies arriving skb
          ≡ record { rx = record { tid = begun t; frames = before }; freed = skb ∷ []; work = none }
    unfolding reorder_locked
    locked_behind fresh run b = ground (arith, unlink_last before skb)

    locked_in_sequence :
        Admitted
        → k.sn_less skb.seqno t.head ≡ false
        → skb.seqno ≡ t.head
        → reorder_locked k jiffies arriving skb
          ≡ untouched (in_sequence k (record { tid = begun t; frames = before ++ (skb ∷ []) }))
    unfolding reorder_locked
    locked_in_sequence run b e = ground arith

    locked_buffered :
        sum_of (is_frame skb.id) before ≡ 0
        → Admitted
        → k.sn_less skb.seqno t.head ≡ false
        → skb.seqno ≢ t.head
        → reorder_locked k jiffies arriving skb
          ≡ buffer_frame k jiffies (record { tid = begun t; frames = before }) skb
    unfolding reorder_locked
    locked_buffered fresh run b e = ground (arith, unlink_last before skb)

    begun_lem :
        Ready t
        → skb.seqno < 4096
        → sum_of (is_frame skb.id) before ≡ 0
        → Admitted
        → Reordered before
            (record { tid = begun t; frames = before ++ (skb ∷ []) })
            (reorder_locked k jiffies arriving skb)
    begun_lem v hs fresh run = elim (Bool-cases (k.sn_less skb.seqno t.head)) [
      | inl b ↦ rw (locked_behind fresh run b) (
          Stored-Reordered before (begun t) skb _
            (behind_lem before (begun t) skb (begun-Ready t v)))
      | inr b ↦ elim (ℕ_discrete skb.seqno t.head) [
        | yes e ↦
            rw (locked_in_sequence run b e)
              (in_sequence_lem before (begun t) skb (begun-Ready t v) e)
        | no ne ↦ rw (locked_buffered fresh run b ne) (
            Stored-Reordered before (begun t) skb _ (
              buffer_lem jiffies (record { tid = begun t; frames = before }) skb (begun-Ready t v)
                hs ne b))
      ]
    ]

    -- A frame of a session that runs (and, if it is the first, is not behind the head) is passed up,
    -- buffered or freed: nothing is lost or doubled, what goes up is appended in ascending order of
    -- sequence number from the old head to before the new one, and the session is ready for the next.
    pub reorder_locked-Reordered :
        Ready t
        → skb.seqno < 4096
        → sum_of (is_frame skb.id) before ≡ 0
        → t.stopped ≡ false
        → (t.started ≡ true) ⊎ (k.sn_less skb.seqno t.head ≡ false)
        → Reordered before arriving (reorder_locked k jiffies arriving skb)
    reorder_locked-Reordered v hs fresh run first =
        Reordered-begun before (before ++ (skb ∷ [])) t (reorder_locked k jiffies arriving skb)
          (begun_lem v hs fresh (run, first))
