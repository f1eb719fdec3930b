-- ===== src/Status/Account.antt =====
-- Frames are queued, given back by the DMA ring, reported by the firmware and given up in any order.
use mt.Common.{
  ℕ, ◌+◌, ◌≡◌, refl, sym, ◌∙◌, ap, ap₂, Bool, true, false, not, ◌||◌, Option, none, some, List, [],
  ◌++◌, append-nil, if◌then◌else◌, arith, ltb,
}
use mt.Common.Ring.{update}
use mt.Kernel.Idr.{IdrOps, IsIdr}
use mt.Status.{
  Dev, Request, skb_add, add_for, with_id, cleared, complete_skb, add_txs, status_check, skb_get,
  unlock, first_id,
}
use mt.Status.Inv.{one, holds, times, waits, owned, IsSound}
use mt.Status.End.{none-some}
use mt.Status.Sweep.{Good, add_txs-Good, status_check-Good, all-Good, unlock-Good}
use mt.Status.Give.{complete_skb-Good}
use mt.Status.Add.{skb_add-Good}

-- The device, which frames are in a DMA ring, and how often each was queued.
pub record System (S : Type 0) : Type 0 where
  pub dev : Dev S
  pub hw : ℕ → Bool
  pub added : ℕ → ℕ

true-false : true ≡ false → ⊥
true-false h = ground arith

module _ {S : Type 0} (k : IdrOps S) (ignore_failed : Bool) where
  -- mac80211 hands over a frame that the driver does not own; the ring gives back what it holds; a
  -- status report comes for any station and id; the ids are looked through, all of them or for what
  -- is late, as on the removal of a station.
  pub data Step : System S → System S → Type 0 where
    queues :
        (s : System S) (w : Option ℕ) (x : ℕ) (r : Request)
        → s.hw x ≡ false
        → waits k s.dev x ≡ false
        → Step s (record {
          dev = (skb_add k ignore_failed s.dev w x r).0;
          hw = update s.hw x true;
          added = update s.added x (s.added x + 1);
        })
    gives_back :
        (s : System S) (now x : ℕ)
        → s.hw x ≡ true
        → Step s (record {
          dev = complete_skb k ignore_failed now s.dev x;
          hw = update s.hw x false;
          added = s.added;
        })
    reports :
        (s : System S) (late : ℕ → Bool) (w i : ℕ) (is_ack : Bool)
        → Step s (record s { dev = add_txs k ignore_failed late s.dev w i is_ack })
    checks :
        (s : System S) (late : ℕ → Bool) (flush : Bool)
        → Step s (record s { dev = status_check k ignore_failed late flush s.dev })
    leaves :
        (s : System S) (late : ℕ → Bool) (w : ℕ)
        → Step s (record s {
          dev = unlock k ignore_failed (skb_get k ignore_failed late s.dev w none).0;
        })

  pub record IsFresh (s : System S) : Type 0 where
    pub no_ids : (w i : ℕ) → k.find (s.dev.ids w) i ≡ none
    pub no_lists : (s.dev.reported ≡ []) × (s.dev.ended ≡ [])
    pub no_frames : (x : ℕ) → (s.hw x ≡ false) × (s.added x ≡ 0)

  pub data Reachable : System S → Type 0 where
    starts : (s : System S) → IsFresh s → Reachable s
    steps : (s t : System S) → Reachable s → Step s t → Reachable t

  module _ (law : IsIdr S k) where
    abbrev Kept : System S → Type 0
    Kept s = Good k ignore_failed law s.hw s.added s.dev

    Step-Kept : (s t : System S) → Step s t → Kept s → Kept t
    Step-Kept _ _ (queues s w x r idle free) g =
        skb_add-Good k ignore_failed law s.dev s.hw s.added x g idle free w r
    Step-Kept _ _ (gives_back s now x flies) g =
        complete_skb-Good k ignore_failed law now s.dev s.hw s.added x g flies
    Step-Kept _ _ (reports s late w i is_ack) g =
        add_txs-Good k ignore_failed law s.hw s.added late s.dev w i is_ack g
    Step-Kept _ _ (checks s late flush) g =
        status_check-Good k ignore_failed law s.hw s.added late flush s.dev g
    Step-Kept _ _ (leaves s late w) g =
        unlock-Good k ignore_failed law s.hw s.added _
          (all-Good k ignore_failed law s.hw s.added late s.dev w g)

    fresh-Kept : (s : System S) → IsFresh s → Kept s
    fresh-Kept s f = (
      record {
        entry = λ w i x h. absurd (none-some x (sym (f.no_ids w i) ∙ h));
        flying = λ x h ge. absurd (true-false (sym h ∙ (f.no_frames x).0));
      },
      λ x.
          let t = ap₂ (λ a b. times x (a ++ b)) f.no_lists.0 f.no_lists.1 in
          let o =
            ap₂ (λ a b. one (a || b)) (f.no_frames x).0
              (ap (holds x) (f.no_ids (s.dev.cb x).wcid (s.dev.cb x).pktid)) in
          let z = (f.no_frames x).1 in omega (arith, t, o, z),
    )

    pair_if :
        (b : Bool) (p q : Dev S × ℕ) (l : List ℕ)
        → p.0.ended ≡ l
        → q.0.ended ≡ l
        → (if b then p else q).0.ended ≡ l
    pair_if true p q l f g = f
    pair_if false p q l f g = g

    with_id-ended :
        (d : Dev S) (w x : ℕ) (t : S × Option ℕ)
        → (with_id k ignore_failed d w x t).0.ended ≡ d.ended
    unfolding with_id
    with_id-ended d w x (t, none) = refl
    with_id-ended d w x (t, some i) = refl

    skb_add-ended :
        (d : Dev S) (w : Option ℕ) (x : ℕ) (r : Request)
        → (skb_add k ignore_failed d w x r).0.ended ≡ d.ended
    unfolding skb_add add_for cleared
    skb_add-ended d none x r = refl
    skb_add-ended d (some w) x r =
        pair_if (not (d.known w) || r.wants_no_ack) _ _ d.ended refl
          (pair_if (not r.wants_status) _ _ d.ended refl (with_id-ended _ w x _))

    dev_if :
        (b : Bool) (p q : Dev S) → p.ended ≡ [] → q.ended ≡ [] → (if b then p else q).ended ≡ []
    dev_if true p q f g = f
    dev_if false p q f g = g

    -- No frame is left on a local list.
    Step-ended : (s t : System S) → Step s t → s.dev.ended ≡ [] → t.dev.ended ≡ []
    unfolding complete_skb unlock add_txs status_check
    Step-ended _ _ (queues s w x r idle free) e = skb_add-ended s.dev w x r ∙ e
    Step-ended _ _ (gives_back s now x flies) e =
        dev_if (ltb (s.dev.cb x).pktid first_id) _ _ e refl
    Step-ended _ _ (reports s late w i is_ack) e = refl
    Step-ended _ _ (checks s late flush) e = refl
    Step-ended _ _ (leaves s late w) e = refl

    pub Reachable-Kept : (s : System S) → Reachable s → Kept s × (s.dev.ended ≡ [])
    Reachable-Kept _ (starts s f) = (fresh-Kept s f, f.no_lists.1)
    Reachable-Kept _ (steps s t r m) =
        let (g, e) = Reachable-Kept s r in (Step-Kept s t m g, Step-ended s t m e)

-- From a fresh device, after any order of frames queued that the driver does not own, frames given
-- back by the ring, status reports for any station and id, looks for late frames, flushes and
-- removals of stations: how often a frame was reported to mac80211, and once more where the driver
-- still owns it, in the ring or under a packet id, is how often it was queued; and what stands under
-- an id has that id, is unreported, and is marked as given back exactly when it is not in the ring.
pub each_frame_once :
    {S : Type 0} (k : IdrOps S) (ignore_failed : Bool) (s : System S)
    → IsIdr S k
    → Reachable k ignore_failed s
    → ((x : ℕ) → times x s.dev.reported + one (owned k s.dev s.hw x) ≡ s.added x)
      × IsSound k s.dev s.hw
each_frame_once k ignore_failed s law r =
    let (g, e) = Reachable-Kept k ignore_failed law s r in
    (
      λ x.
          ap (λ l. times x l + one (owned k s.dev s.hw x))
            (sym (append-nil _) ∙ ap (λ l. s.dev.reported ++ l) (sym e))
          ∙ g.1 x,
      g.0,
    )
