-- ===== src/Aggr/Tests.antt =====
-- Runs and examples of the reorder code.
use mt.Common.{
  ℕ, zero, suc, ◌≡◌, refl, arith, true, false, none, some, List, [], ◌∷◌, inl, while, map,
}
use mt.Common.Slots.{slot, total, sum_of}
use mt.Kernel.Linux.{seq_ops, seq_ops-IsSeqArith}
use mt.Aggr.{
  Skb, Tid, Rx, reorder_locked, in_sequence, release, take_slot, release_frames, release_head,
  check_release, shutdown,
}
use mt.Aggr.Inv.{Inv, IsSize, IsPlaced, Ready}
use mt.Aggr.Passed.{Passed, is_frame}
use mt.Aggr.Reorder.{Reordered, reorder_locked-Reordered}
use mt.Aggr.Release.{release_frames_lem}
use mt.Aggr.Timeout.{check_release_lem}
use mt.Aggr.Stop.{shutdown_frees_all}

abbrev frame : ℕ → ℕ → Skb
frame id sn = record {
  id = id;
  wcid = some 1;
  reorder_time = 0;
  aggr = true;
  qos_ctl = 0;
  seqno = sn;
  is_8023 = true;
  dup_validated = false;
  frame_control = 0;
  bar_control = 0;
  bar_start_seq = 0;
}

-- A session of window 4 that waits for frame 10 and holds frames 12 and 13.
abbrev waiting : Tid
waiting = record {
  head = 10;
  size = 4;
  nframes = 2;
  num = 0;
  started = true;
  stopped = false;
  reorder_buf = some (frame 2 12) ∷ some (frame 3 13) ∷ none ∷ none ∷ [];
}

waiting-IsPlaced : (i : ℕ) (f : Skb) → slot waiting.reorder_buf i ≡ some f → IsPlaced 10 4 i f
waiting-IsPlaced zero f e = ground arith
waiting-IsPlaced (suc zero) f e = ground arith
waiting-IsPlaced (suc (suc zero)) f e = absurd (cc)
waiting-IsPlaced (suc (suc (suc zero))) f e = absurd (cc)
waiting-IsPlaced (suc (suc (suc (suc i)))) f e = absurd (cc)

four-IsSize : IsSize 4
four-IsSize = omega arith

waiting-Inv : Inv waiting
waiting-Inv = record {
  size_ok = four-IsSize;
  room = refl;
  head_small = omega arith;
  counted = refl;
  placed = waiting-IsPlaced;
}

waiting-Ready : Ready waiting
waiting-Ready = record { inv = waiting-Inv; no_head = refl }

abbrev held_back : Rx
held_back = record { tid = waiting; frames = [] }

abbrev numbers : Rx → List ℕ
numbers r = map (λ f. f.seqno) r.frames

-- The frame that fills the gap lets the others go.
gap_filled :
    numbers
      (reorder_locked seq_ops 5
        (record { tid = record waiting { head = 11 }; frames = frame 1 11 ∷ [] })
        (frame 1 11)).rx
    ≡ 11 ∷ 12 ∷ 13 ∷ []
unfolding reorder_locked in_sequence release_head while release take_slot
gap_filled = refl

reorder_locked-Reordered_example :
    Reordered []
      (record { tid = waiting; frames = frame 1 16 ∷ [] })
      (reorder_locked seq_ops 5 (record { tid = waiting; frames = frame 1 16 ∷ [] }) (frame 1 16))
reorder_locked-Reordered_example =
    reorder_locked-Reordered seq_ops seq_ops-IsSeqArith 5 [] waiting (frame 1 16) waiting-Ready
      (omega arith) refl refl (inl refl)

release_frames_lem_example :
    Passed 10 held_back (release_frames seq_ops held_back 13)
    × ((release_frames seq_ops held_back 13).tid.head ≡ 13)
release_frames_lem_example =
    release_frames_lem seq_ops seq_ops-IsSeqArith held_back 13 waiting-Inv (omega arith) refl

check_release_lem_example :
    Passed 10 held_back (check_release seq_ops 100 held_back)
    × Ready (check_release seq_ops 100 held_back).tid
check_release_lem_example = check_release_lem seq_ops seq_ops-IsSeqArith 100 held_back waiting-Ready

shutdown_frees_all_example :
    let d = shutdown waiting in
    (d.tid.stopped ≡ true)
    × (d.tid.nframes ≡ 0)
    × ((i : ℕ) → slot d.tid.reorder_buf i ≡ none)
    × ((i : ℕ) → sum_of (is_frame i) d.freed ≡ total (is_frame i) waiting.reorder_buf)
shutdown_frees_all_example = shutdown_frees_all waiting waiting-Inv
