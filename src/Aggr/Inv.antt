-- ===== src/Aggr/Inv.antt =====
-- The invariant of a reorder session.
use native.Mathlib.Nat.{mod-lt}
use mt.Common.{ℕ, ◌+◌, ◌%◌, ◌≤◌, ◌<◌, ◌≡◌, ◌≢◌, sym, ◌∙◌, ap, arith, none, some, length, length-set}
use mt.Common.Slots.{slot, occupied, get_or-set, occupied-set, occupied-le-length}
use mt.Kernel.Seq.{SeqOps, IsSeqArith, ahead}
use mt.Aggr.{Skb, Tid, Rx, release, head_idx}
use mt.Aggr.Circle.{same_slot, ahead-step}

-- A buffered frame lies in the slot of its sequence number and inside the window.
pub record IsPlaced (head size i : ℕ) (f : Skb) : Type 0 where
  pub small : f.seqno < 4096
  pub at_slot : f.seqno % size ≡ i
  pub in_window : ahead head f.seqno < size

-- The window size divides the number of sequence numbers, as those that are negotiated do.
pub record IsSize (size : ℕ) : Type 0 where
  pub more_than_one : 2 ≤ size
  pub at_most : size ≤ 2048
  pub divides : 4096 % size ≡ 0

pub record Inv (t : Tid) : Type 0 where
  pub size_ok : IsSize t.size
  pub room : length t.reorder_buf ≡ t.size
  pub head_small : t.head < 4096
  pub counted : t.nframes ≡ occupied t.reorder_buf
  pub placed : (i : ℕ) (f : Skb) → slot t.reorder_buf i ≡ some f → IsPlaced t.head t.size i f

-- Between two calls no frame waits at the head.
pub record Ready (t : Tid) : Type 0 where
  pub inv : Inv t
  pub no_head : slot t.reorder_buf (head_idx t) ≡ none

-- The head's slot lies in the buffer.
pub head_idx_in_bounds : {t : Tid} → Inv t → head_idx t < length t.reorder_buf
head_idx_in_bounds {t} v = omega (
  arith,
  v.size_ok.more_than_one,
  v.room,
  mod-lt t.head {m = t.size} (omega (arith, v.size_ok.more_than_one)),
)

-- A frame in another slot than the head's is still in the window when the head has moved.
pub IsPlaced-step :
    (h size i : ℕ) (f : Skb)
    → IsSize size
    → h < 4096
    → i ≢ h % size
    → IsPlaced h size i f
    → IsPlaced ((h + 1) % 4096) size i f
IsPlaced-step h size i f z hh ne p = record {
  small = p.small;
  at_slot = p.at_slot;
  in_window = omega (
    arith,
    p.in_window,
    ahead-step h f.seqno hh p.small (λ e. ne (sym p.at_slot ∙ ap (λ x. x % size) e)),
  );
}

-- A frame in the head's slot is the one that the head waits for.
pub head_frame :
    {t : Tid} (f : Skb) → Inv t → slot t.reorder_buf (head_idx t) ≡ some f → f.seqno ≡ t.head
head_frame {t} f v e =
    let p : IsPlaced t.head t.size (head_idx t) f = v.placed (head_idx t) f e in
    same_slot t.size t.head f.seqno v.size_ok.divides (omega (arith, v.size_ok.more_than_one))
      v.head_small p.small p.in_window p.at_slot

module _ (k : SeqOps) (laws : IsSeqArith k) where
  pub release_placed :
      (r : Rx)
      → Inv r.tid
      → (i : ℕ) (f : Skb) → slot (release k r (head_idx r.tid)).tid.reorder_buf i ≡ some f
      → (slot r.tid.reorder_buf i ≡ some f) × (i ≢ head_idx r.tid)
  unfolding release
  release_placed r v i f e =
      ground
        (arith, get_or-set r.tid.reorder_buf (head_idx r.tid) i none none (head_idx_in_bounds v))

  pub release-Inv : (r : Rx) → Inv r.tid → Inv (release k r (head_idx r.tid)).tid
  unfolding release
  release-Inv r v = record {
    size_ok = ground (arith, v);
    room = ground (arith, v.room, length-set r.tid.reorder_buf (head_idx r.tid) none);
    head_small = ground (arith, laws.inc_lem r.tid.head);
    counted = ground (
      arith,
      v.counted,
      v.room,
      v.size_ok.at_most,
      occupied-le-length r.tid.reorder_buf,
      occupied-set r.tid.reorder_buf (head_idx r.tid) none (head_idx_in_bounds v),
    );
    placed = λ i f e.
        let (old, ne) = release_placed r v i f e in
        ground (
          arith,
          laws.inc_lem r.tid.head,
          IsPlaced-step r.tid.head r.tid.size i f v.size_ok v.head_small ne (v.placed i f old),
        );
  }
