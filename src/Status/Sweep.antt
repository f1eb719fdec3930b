-- ===== src/Status/Sweep.antt =====
-- mt76_tx_status_skb_get and its callers keep account of the frames (tx.c, mt76_connac_mac.c).
use mt.Common.{
  ℕ, zero, suc, ◌+◌, ◌≡◌, refl, sym, ◌∙◌, ap, ap₂, arith, Bool, true, false, ◌&&◌, ◌||◌, Option,
  none, some, List, [], ◌∷◌, ◌++◌, append-nil, if◌then◌else◌, ◌==◌, ==→eq, ==→ne, Bool-cases,
  Option-cases, inl, inr,
}
use mt.Common.Ring.{update}
use mt.Kernel.Idr.{IdrOps, IsIdr}
use mt.Status.{
  Dev, txs, timeout, give_up, stale_with, stale, unlist, any_id, without, get_with, skb_get,
  report_with, add_txs, unlock, check_each, status_check, id_mask,
}
use mt.Status.Inv.{one, holds, times, IsSound, Accounted}
use mt.Status.End.{IsEnd, end-IsSound, end-Accounted}
use mt.Status.Done.{skb_done_lem, finished}

module _ {S : Type 0} (k : IdrOps S) (ignore_failed : Bool) where
  module _ (law : IsIdr S k) (hw : ℕ → Bool) (added : ℕ → ℕ) where
    abbrev pub Good : Dev S → Type 0
    Good d = IsSound k d hw × Accounted k d hw added

    pub end-Good :
        (d e : Dev S) (w i x : ℕ)
        → Good d
        → k.find (d.ids w) i ≡ some x
        → IsEnd k d e w i x
        → Good e
    end-Good d e w i x (s, a) at m = (
      end-IsSound k law d e hw added w i x s at m,
      end-Accounted k law d e hw added w i x s at m a,
    )

    pub give_up-IsEnd :
        (d : Dev S) (w i x : ℕ)
        → IsSound k d hw
        → k.find (d.ids w) i ≡ some x
        → IsEnd k d (give_up k ignore_failed d w x) w i x
    unfolding give_up
    give_up-IsEnd d w i x s at =
        let (a, id, r1, r2, r3, r4) = s.entry w i x at in
        let f = record d { ids = update d.ids w (k.remove (d.ids w) (d.cb x).pktid).0 } in
        finished k ignore_failed d f w i x _
          (λ v. ap (λ j. update d.ids w (k.remove (d.ids w) j).0 v) id) refl refl refl _ refl refl
          (skb_done_lem k ignore_failed f x timeout)

    pub stale_with-Good :
        (late : ℕ → Bool) (all : Bool) (d : Dev S) (w i : ℕ)
        → Good d
        → (o : Option ℕ) → k.find (d.ids w) i ≡ o
        → Good (stale_with k ignore_failed late all d w o)
    unfolding stale_with
    stale_with-Good late all d w i g none h = g
    stale_with-Good late all d w i g (some x) h =
        elim (all || ((d.cb x).dma_done && late (d.cb x).jiffies))
          as (λ b. Good (if b then give_up k ignore_failed d w x else d)) [
            | true ↦ end-Good d _ w i x g h (give_up-IsEnd d w i x g.0 h)
            | false ↦ g
          ]

    pub stale-Good :
        (late : ℕ → Bool) (all : Bool) (d : Dev S) (w n i : ℕ)
        → Good d
        → Good (stale k ignore_failed late all d w n i)
    unfolding stale
    stale-Good late all d w zero i g = g
    stale-Good late all d w (suc n) i g =
        stale-Good late all (stale_with k ignore_failed late all d w (k.find (d.ids w) i)) w n
          (i + 1) (stale_with-Good late all d w i g _ refl)

    -- What does not matter to the account.
    pub same-Good :
        (d : Dev S) (ids : ℕ → S) (list ended reported : List ℕ) (acked : ℕ → Bool)
        → ((v j : ℕ) → k.find (ids v) j ≡ k.find (d.ids v) j)
        → ((reported ++ ended) ≡ (d.reported ++ d.ended))
        → Good d
        → Good (record d {
          ids = ids;
          wcid_list = list;
          ended = ended;
          reported = reported;
          acked = acked;
        })
    same-Good d ids list ended reported acked same all (s, a) = (
      record {
        entry = λ w i x h. s.entry w i x (sym (same w i) ∙ h);
        flying = λ x h ge.
            let (b, c) = s.flying x h ge in
            (b, elim c [ inl t ↦ inl t | inr t ↦ inr (ap (holds x) (same _ _) ∙ t) ]);
      },
      λ x. ap₂ (λ l b. times x l + one (hw x || b)) all (ap (holds x) (same _ _)) ∙ a x,
    )

    pub unlist-Good : (d : Dev S) (w : ℕ) → Good d → Good (unlist k ignore_failed d w)
    unfolding unlist
    unlist-Good d w g =
        elim (any_id k (d.ids w) id_mask 0)
          as (λ b. Good (if b then d else record d { wcid_list = without d.wcid_list w })) [
            | true ↦ g
            | false ↦ same-Good d d.ids _ d.ended d.reported d.acked (λ v j. refl) refl g
          ]

    pub unlock-Good : (d : Dev S) → Good d → Good (unlock k ignore_failed d)
    unfolding unlock
    unlock-Good d g = same-Good d d.ids d.wcid_list [] _ d.acked (λ v j. refl) (append-nil _) g

    -- Removing nothing changes nothing.
    pub none_removed :
        (d : Dev S) (w i : ℕ)
        → k.find (d.ids w) i ≡ none
        → (v j : ℕ) → k.find (update d.ids w (k.remove (d.ids w) i).0 v) j ≡ k.find (d.ids v) j
    none_removed d w i h v j = elim (Bool-cases (v == w)) [
      | inl e ↦ rw (e, ==→eq v w e) in_table
      | inr e ↦ rw e refl
    ]
      where
        in_table : k.find (k.remove (d.ids w) i).0 j ≡ k.find (d.ids w) j
        in_table = elim (Bool-cases (j == i)) [
          | inl e ↦ rw (==→eq j i e) ((law.remove_lem (d.ids w) i).1 ∙ sym h)
          | inr e ↦ (law.remove_lem (d.ids w) i).2 j (==→ne j i e)
        ]

    -- A station's ids are looked through, for a negative id and for one that is not there.
    pub all-Good :
        (late : ℕ → Bool) (d : Dev S) (w : ℕ)
        → Good d
        → Good (skb_get k ignore_failed late d w none).0
    unfolding skb_get get_with
    all-Good late d w g = unlist-Good _ w (
        stale-Good late true (record d { ids = update d.ids w (d.ids w) }) w id_mask 0
          (same-Good d _ d.wcid_list d.ended d.reported d.acked same refl g))
      where
        same : (v j : ℕ) → k.find (update d.ids w (d.ids w) v) j ≡ k.find (d.ids v) j
        same v j = elim (Bool-cases (v == w)) [
          | inl e ↦ rw (e, ==→eq v w e) refl
          | inr e ↦ rw e refl
        ]

    get_with-Good :
        (late : ℕ → Bool) (d : Dev S) (w i : ℕ) (o : Option ℕ)
        → Good d
        → k.find (d.ids w) i ≡ none
        → o ≡ none
        → Good (get_with k ignore_failed late false d w ((k.remove (d.ids w) i).0, o)).0
    unfolding get_with
    get_with-Good late d w i (some x) g h e = absurd cc
    get_with-Good late d w i none g h e = unlist-Good _ w (
        stale-Good late false (record d { ids = update d.ids w (k.remove (d.ids w) i).0 }) w id_mask
          0 (same-Good d _ d.wcid_list d.ended d.reported d.acked (none_removed d w i h) refl g))

    pub missing-Good :
        (late : ℕ → Bool) (d : Dev S) (w i : ℕ)
        → k.find (d.ids w) i ≡ none
        → Good d
        → Good (skb_get k ignore_failed late d w (some i)).0
    unfolding skb_get
    missing-Good late d w i h g =
        get_with-Good late d w i (k.remove (d.ids w) i).1 g h ((law.remove_lem (d.ids w) i).0 ∙ h)

    pub unlisted :
        (d : Dev S) (w : ℕ)
        → ((unlist k ignore_failed d w).ids ≡ d.ids)
          × ((unlist k ignore_failed d w).cb ≡ d.cb)
          × ((unlist k ignore_failed d w).reported ≡ d.reported)
          × ((unlist k ignore_failed d w).ended ≡ d.ended)
    unfolding unlist
    unlisted d w = elim (Bool-cases (any_id k (d.ids w) id_mask 0)) [
      | inl e ↦ rw e (refl, refl, refl, refl)
      | inr e ↦ rw e (refl, refl, refl, refl)
    ]

    report-Good :
        (late : ℕ → Bool) (d : Dev S) (w i : ℕ) (is_ack : Bool) (o : Option ℕ)
        → Good d
        → k.find (d.ids w) i ≡ o
        → (k.remove (d.ids w) i).1 ≡ o
        → Good (
            report_with k ignore_failed is_ack
              (get_with k ignore_failed late false d w ((k.remove (d.ids w) i).0, o)))
    unfolding report_with get_with
    report-Good late d w i is_ack none g h e = get_with-Good late d w i none g h refl
    report-Good late d w i is_ack (some x) g h e =
        let f =
          unlist k ignore_failed (record d { ids = update d.ids w (k.remove (d.ids w) i).0 }) w in
        let (a, b, c, r) =
          unlisted (record d { ids = update d.ids w (k.remove (d.ids w) i).0 }) w in
        let e = record f { acked = if is_ack then update f.acked x true else f.acked } in
        end-Good d _ w i x g h (
          finished k ignore_failed d e w i x _ (λ v. ap (λ t. t v) a) b c r _
            (ap (λ t. (t x).dma_done) b) refl (skb_done_lem k ignore_failed e x txs))

    pub add_txs-Good :
        (late : ℕ → Bool) (d : Dev S) (w i : ℕ) (is_ack : Bool)
        → Good d
        → Good (add_txs k ignore_failed late d w i is_ack)
    unfolding add_txs skb_get
    add_txs-Good late d w i is_ack g = unlock-Good _ (
        report-Good late d w i is_ack (k.remove (d.ids w) i).1 g
          (sym (law.remove_lem (d.ids w) i).0) refl)

    -- No frame stands under id 0.
    pub zero_free : (d : Dev S) (w : ℕ) → Good d → k.find (d.ids w) 0 ≡ none
    zero_free d w g = elim (Option-cases (k.find (d.ids w) 0)) [
      | inl e ↦ e
      | inr (x, e) ↦ let h = (g.0.entry w 0 x e).2 in absurd (omega (arith, h))
    ]

    pub check_each-Good :
        (late : ℕ → Bool) (flush : Bool) (d : Dev S) (ws : List ℕ)
        → Good d
        → Good (check_each k ignore_failed late flush d ws)
    unfolding check_each
    check_each-Good late flush d [] g = g
    check_each-Good late true d (w ∷ ws) g =
        check_each-Good late true (skb_get k ignore_failed late d w none).0 ws (all-Good late d w g)
    check_each-Good late false d (w ∷ ws) g =
        check_each-Good late false (skb_get k ignore_failed late d w (some 0)).0 ws
          (missing-Good late d w 0 (zero_free d w g) g)

    pub status_check-Good :
        (late : ℕ → Bool) (flush : Bool) (d : Dev S)
        → Good d
        → Good (status_check k ignore_failed late flush d)
    unfolding status_check
    status_check-Good late flush d g = unlock-Good _ (check_each-Good late flush d d.wcid_list g)
