-- ===== src/Status/Ends.antt =====
-- After a flush every frame that the DMA rings have given back was reported (tx.c).
use mt.Common.{
  ℕ, ◌≡◌, refl, sym, ◌∙◌, ap, ap₂, arith, Bool, true, false, not, ◌||◌, Option, none, some, List,
  [], ◌∷◌, ◌++◌, if◌then◌else◌, ◌==◌, ==→eq, Bool-cases, inl, inr, ltb,
}
use mt.Common.Ring.{update}
use mt.Kernel.Idr.{IdrOps, IsIdr}
use mt.Status.{
  Dev, Request, dma, has, skb_get, unlock, check_each, status_check, with_id, add_for, cleared,
  skb_add, complete_skb, first_id, id_mask,
}
use mt.Status.Inv.{one, times, waits, waits_where}
use mt.Status.End.{none-some}
use mt.Status.Sweep.{Good, all-Good, zero_free, missing-Good}
use mt.Status.Flush.{flushes}
use mt.Status.Listed.{
  Listed, skb_done-Listed, add_txs-Listed, all-Listed, missing-Listed, has-last, has_last,
}
use mt.Status.Account.{
  System, Step, queues, gives_back, reports, checks, leaves, Reachable, starts, steps,
  Reachable-Kept, each_frame_once,
}

module _ {S : Type 0} (k : IdrOps S) (ignore_failed : Bool) (law : IsIdr S k) where
  module _ (hw : ℕ → Bool) (added : ℕ → ℕ) where
    abbrev Fine : Dev S → Type 0
    Fine d = Good k ignore_failed law hw added d

    get_zero-Listed :
        (late : ℕ → Bool) (d : Dev S) (w : ℕ)
        → Fine d
        → Listed k d
        → Listed k (skb_get k ignore_failed late d w (some 0)).0
    unfolding skb_get
    get_zero-Listed late d w g h =
        let free = zero_free k ignore_failed law hw added d w g in
        missing-Listed k ignore_failed law hw added late d w 0 _ free
          ((law.remove_lem (d.ids w) 0).0 ∙ free) g h

    check_each-Listed :
        (late : ℕ → Bool) (flush : Bool) (d : Dev S) (ws : List ℕ)
        → Fine d
        → Listed k d
        → Listed k (check_each k ignore_failed late flush d ws)
    unfolding check_each
    check_each-Listed late flush d [] g h = h
    check_each-Listed late true d (w ∷ ws) g h =
        check_each-Listed late true (skb_get k ignore_failed late d w none).0 ws
          (all-Good k ignore_failed law hw added late d w g)
          (all-Listed k ignore_failed law hw added late d w g h)
    check_each-Listed late false d (w ∷ ws) g h =
        check_each-Listed late false (skb_get k ignore_failed late d w (some 0)).0 ws
          (missing-Good k ignore_failed law hw added late d w 0
            (zero_free k ignore_failed law hw added d w g) g)
          (get_zero-Listed late d w g h)

  -- A new entry is put under a free id, with its station on the list.
  with_id-Listed :
      (d : Dev S) (w x : ℕ) (t : Option ℕ)
      → (k.alloc (d.ids w) x first_id id_mask).1 ≡ t
      → Listed k d
      → Listed k (with_id k ignore_failed d w x ((k.alloc (d.ids w) x first_id id_mask).0, t)).0
  unfolding with_id
  with_id-Listed d w x none e h v j y = elim (Bool-cases (v == w)) [
    | inl q ↦
        rw (q, ==→eq v w q) (λ f. h w j y (sym (law.full_lem (d.ids w) x first_id id_mask e j) ∙ f))
    | inr q ↦ rw q (h v j y)
  ]
  with_id-Listed d w x (some i) e h v j y = elim (Bool-cases (v == w)) [
    | inl q ↦ λ f.
        ap (has (if has d.wcid_list w then d.wcid_list else d.wcid_list ++ (w ∷ []))) (==→eq v w q)
        ∙ is_there d.wcid_list
    | inr q ↦ rw q (λ f. still d.wcid_list (h v j y f))
  ]
    where
      is_there : (l : List ℕ) → has (if has l w then l else l ++ (w ∷ [])) w ≡ true
      is_there l = elim (Bool-cases (has l w)) [
        | inl q ↦ rw (q, q) refl
        | inr q ↦ rw q (has_last l w)
      ]

      still : (l : List ℕ) → has l v ≡ true → has (if has l w then l else l ++ (w ∷ [])) v ≡ true
      still l f = elim (has l w) as (λ b. has (if b then l else l ++ (w ∷ [])) v ≡ true) [
        | true ↦ f
        | false ↦ has-last l v w f
      ]

  pair-Listed :
      (b : Bool) (p q : Dev S × ℕ) → Listed k p.0 → Listed k q.0 → Listed k (if b then p else q).0
  pair-Listed true p q f g = f
  pair-Listed false p q f g = g

  skb_add-Listed :
      (d : Dev S) (w : Option ℕ) (x : ℕ) (r : Request)
      → Listed k d
      → Listed k (skb_add k ignore_failed d w x r).0
  unfolding skb_add add_for cleared
  skb_add-Listed d none x r h = h
  skb_add-Listed d (some w) x r h =
      pair-Listed (not (d.known w) || r.wants_no_ack) _ _ h
        (pair-Listed (not r.wants_status) _ _ h (with_id-Listed _ w x _ refl h))

  complete_skb-Listed :
      (now : ℕ) (d : Dev S) (x : ℕ) → Listed k d → Listed k (complete_skb k ignore_failed now d x)
  unfolding complete_skb unlock
  complete_skb-Listed now d x h = elim (Bool-cases (ltb (d.cb x).pktid first_id)) [
    | inl e ↦ rw e h
    | inr e ↦ rw e (
        skb_done-Listed k ignore_failed law (λ y. false) (λ y. 0)
          (record d { cb = update d.cb x (record (d.cb x) { jiffies = now }) }) x dma h)
  ]

  Step-Listed :
      (s t : System S)
      → Step k ignore_failed s t
      → Good k ignore_failed law s.hw s.added s.dev
      → Listed k s.dev
      → Listed k t.dev
  unfolding unlock status_check
  Step-Listed _ _ (queues s w x r idle free) g h = skb_add-Listed s.dev w x r h
  Step-Listed _ _ (gives_back s now x flies) g h = complete_skb-Listed now s.dev x h
  Step-Listed _ _ (reports s late w i is_ack) g h =
      add_txs-Listed k ignore_failed law s.hw s.added late s.dev w i is_ack g h
  Step-Listed _ _ (checks s late flush) g h =
      check_each-Listed s.hw s.added late flush s.dev s.dev.wcid_list g h
  Step-Listed _ _ (leaves s late w) g h =
      all-Listed k ignore_failed law s.hw s.added late s.dev w g h

  Reachable-Listed : (s : System S) → Reachable k ignore_failed s → Listed k s.dev
  Reachable-Listed _ (starts s f) = λ v j y h. absurd (none-some y (sym (f.no_ids v j) ∙ h))
  Reachable-Listed _ (steps s t r m) =
      Step-Listed s t m (Reachable-Kept k ignore_failed law s r).0 (Reachable-Listed s r)

  nothing_left :
      (late : ℕ → Bool) (s : System S)
      → Reachable k ignore_failed s
      → (v j y : ℕ) → k.find ((status_check k ignore_failed late true s.dev).ids v) j ≡ some y
      → ⊥
  unfolding status_check unlock
  nothing_left late s r v j y h =
      let g = (Reachable-Kept k ignore_failed law s r).0 in
      let (f, gone) = flushes k ignore_failed law s.hw s.added late s.dev s.dev.wcid_list g in
      none-some y (sym (gone v j (Reachable-Listed s r v j y (f v j y h))) ∙ h)

-- In every state that a fresh device can come to, a flush (mt76_tx_status_check with `flush` set)
-- leaves no frame waiting: each frame that is not in a ring has then been reported to mac80211 as
-- often as it was queued.
pub flush_reports_all :
    {S : Type 0} (k : IdrOps S) (ignore_failed : Bool) (late : ℕ → Bool) (s : System S) (x : ℕ)
    → IsIdr S k
    → Reachable k ignore_failed s
    → s.hw x ≡ false
    → times x (status_check k ignore_failed late true s.dev).reported ≡ s.added x
flush_reports_all {S = S} k ignore_failed late s x law r idle =
    let t : System S = record s { dev = status_check k ignore_failed late true s.dev } in
    let a = (each_frame_once k ignore_failed t law (steps s t r (checks s late true))).0 x in
    let w : waits k t.dev x ≡ false = elim (Bool-cases (waits k t.dev x)) [
      | inl h ↦ absurd (nothing_left k ignore_failed law late s r _ _ x (waits_where k t.dev x h))
      | inr h ↦ h
    ] in
    let o = ap₂ (λ b c. one (b || c)) idle w in omega (arith, a, o)
