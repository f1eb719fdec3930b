-- ===== src/Aggr/Passed.antt =====
-- What a run of the reorder code passes up the stack: which frames, in which order, and that none
-- is lost.
use mt.Common.{
  ℕ, ◌+◌, ◌%◌, ◌≤◌, ◌<◌, ◌≡◌, refl, sym, ◌∙◌, ap, arith, Option, none, some, ◌==◌, if◌then◌else◌,
  List, [], ◌∷◌, ◌++◌, append-nil, append_assoc,
}
use mt.Common.Slots.{slot, total, total-set, sum_of, sum_of-append}
use mt.Kernel.Seq.{SeqOps, IsSeqArith, ahead}
use mt.Aggr.{Skb, Tid, Rx, release, head_idx}
use mt.Aggr.Inv.{Inv, head_frame, release-Inv, release_placed, head_idx_in_bounds}

-- The frames lie, with their sequence numbers strictly ascending, from `lo` to before `hi` ahead of
-- the base `h`.
abbrev pub InOrder : ℕ → ℕ → ℕ → List Skb → Type 0
InOrder h lo hi [] = lo ≤ hi
InOrder h lo hi (f ∷ fs) = (lo ≤ ahead h f.seqno) × InOrder h (ahead h f.seqno + 1) hi fs

pub InOrder-weaken :
    (h lo mid hi : ℕ) (fs : List Skb) → lo ≤ mid → InOrder h mid hi fs → InOrder h lo hi fs
InOrder-weaken h lo mid hi [] p o = omega arith
InOrder-weaken h lo mid hi (f ∷ fs) p o = (omega arith, o.1)

pub InOrder-append :
    (h lo mid hi : ℕ) (fs gs : List Skb)
    → InOrder h lo mid fs
    → InOrder h mid hi gs
    → InOrder h lo hi (fs ++ gs)
InOrder-append h lo mid hi [] gs p q = InOrder-weaken h lo mid hi gs p q
InOrder-append h lo mid hi (f ∷ fs) gs p q =
    (p.0, InOrder-append h (ahead h f.seqno + 1) mid hi fs gs p.1 q)

-- How often the frame `i` is held: on the way up or in a slot.
abbrev pub is_frame : ℕ → Skb → ℕ
is_frame i f = if f.id == i then 1 else 0

abbrev pub held : ℕ → Rx → ℕ
held i r = sum_of (is_frame i) r.frames + total (is_frame i) r.tid.reorder_buf

-- `r'` comes from `r` by passing the frames `out` up, in order from the one head to the other as
-- they lie ahead of `h`, and keeps every frame that it does not pass up.
pub record Passed (h : ℕ) (r r' : Rx) : Type 0 where
  pub out : List Skb
  pub frames_lem : r'.frames ≡ r.frames ++ out
  pub order : InOrder h (ahead h r.tid.head) (ahead h r'.tid.head) out
  pub held_lem : (i : ℕ) → held i r' ≡ held i r
  pub valid : Inv r'.tid
  pub kept :
      (i : ℕ) (f : Skb) → slot r'.tid.reorder_buf i ≡ some f → slot r.tid.reorder_buf i ≡ some f
  pub size_lem : r'.tid.size ≡ r.tid.size
  pub same_num : r'.tid.num ≡ r.tid.num
  pub same_started : r'.tid.started ≡ r.tid.started
  pub same_stopped : r'.tid.stopped ≡ r.tid.stopped

pub Passed-refl : (h : ℕ) (r : Rx) → Inv r.tid → Passed h r r
Passed-refl h r v = record {
  out = [];
  frames_lem = sym (append-nil r.frames);
  order = omega arith;
  held_lem = λ i. refl;
  valid = v;
  kept = λ i f e. e;
  size_lem = refl;
  same_num = refl;
  same_started = refl;
  same_stopped = refl;
}

pub Passed-trans : {h : ℕ} {r s t : Rx} → Passed h r s → Passed h s t → Passed h r t
Passed-trans {h} {r} {s} {t} p q = record {
  out = p.out ++ q.out;
  frames_lem = cc (p.frames_lem, q.frames_lem, append_assoc r.frames p.out q.out);
  order =
      InOrder-append h (ahead h r.tid.head) (ahead h s.tid.head) (ahead h t.tid.head) p.out q.out
        p.order q.order;
  held_lem = λ i. q.held_lem i ∙ p.held_lem i;
  valid = q.valid;
  kept = λ i f e. p.kept i f (q.kept i f e);
  size_lem = q.size_lem ∙ p.size_lem;
  same_num = q.same_num ∙ p.same_num;
  same_started = q.same_started ∙ p.same_started;
  same_stopped = q.same_stopped ∙ p.same_stopped;
}

-- What one release passes up.
abbrev released : Option Skb → List Skb
released none = []
released (some f) = f ∷ []

module _ (k : SeqOps) (laws : IsSeqArith k) where
  frames-release :
      (r : Rx)
      → (release k r (head_idx r.tid)).frames
        ≡ r.frames ++ released (slot r.tid.reorder_buf (head_idx r.tid))
  unfolding release
  frames-release r = ground (arith, append-nil r.frames)

  pub head-release : (r : Rx) → (release k r (head_idx r.tid)).tid.head ≡ (r.tid.head + 1) % 4096
  unfolding release
  head-release r = ground (arith, laws.inc_lem r.tid.head)

  released_order :
      (h : ℕ) (t : Tid) (o : Option Skb)
      → Inv t
      → slot t.reorder_buf (head_idx t) ≡ o
      → ahead h t.head < 4095
      → InOrder h (ahead h t.head) (ahead h ((t.head + 1) % 4096)) (released o)
  released_order h t none v e b = omega (arith, v.head_small)
  released_order h t (some f) v e b = omega (arith, v.head_small, ap (ahead h) (head_frame f v e))

  held-release : (r : Rx) (i : ℕ) → Inv r.tid → held i (release k r (head_idx r.tid)) ≡ held i r
  unfolding release
  held-release r i v = ground (
    arith,
    sum_of-append (is_frame i) r.frames (released (slot r.tid.reorder_buf (head_idx r.tid))),
    total-set (is_frame i) r.tid.reorder_buf (head_idx r.tid) none (head_idx_in_bounds v),
  )

  release_keeps :
      (r : Rx)
      → let t = (release k r (head_idx r.tid)).tid in
        (t.size ≡ r.tid.size)
        × (t.num ≡ r.tid.num)
        × (t.started ≡ r.tid.started)
        × (t.stopped ≡ r.tid.stopped)
  unfolding release
  release_keeps r = ground arith

  pub release-Passed :
      (h : ℕ) (r : Rx)
      → Inv r.tid
      → ahead h r.tid.head < 4095
      → Passed h r (release k r (head_idx r.tid))
  release-Passed h r v b = record {
    out = released (slot r.tid.reorder_buf (head_idx r.tid));
    frames_lem = frames-release r;
    order =
        rw (head-release r)
          (released_order h r.tid (slot r.tid.reorder_buf (head_idx r.tid)) v refl b);
    held_lem = λ i. held-release r i v;
    valid = release-Inv k laws r v;
    kept = λ i f e. (release_placed k laws r v i f e).0;
    size_lem = (release_keeps r).0;
    same_num = (release_keeps r).1;
    same_started = (release_keeps r).2;
    same_stopped = (release_keeps r).3;
  }
