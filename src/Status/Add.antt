-- ===== src/Status/Add.antt =====
-- A frame is added (mt76_tx_status_skb_add).
use mt.Common.{
  ℕ, ◌+◌, ◌≤◌, ◌<◌, ◌≡◌, ◌≢◌, refl, sym, ◌∙◌, ap, ap₂, subst, arith, Bool, true, false, not, ◌||◌,
  Option, none, some, some_inj, ◌++◌, if◌then◌else◌, ◌==◌, ==→eq, ==→ne, ==_refl, Bool-cases, inl,
  inr, ◌⊎◌,
}
use mt.Common.Ring.{update, update-ne, update_self}
use mt.Kernel.Idr.{IdrOps, IsIdr}
use mt.Status.{
  Dev, Cb, no_cb, Request, no_skb, for_wed, with_id, add_for, cleared, skb_add, first_id, id_mask,
}
use mt.Status.Inv.{
  one, holds, times, waits, Accounted, IsLocal, where_waits, local-Accounted, local-IsSound,
}
use mt.Status.End.{none-some}
use mt.Status.Sweep.{Good}
use mt.Status.Give.{false-true}

module _ {S : Type 0} (k : IdrOps S) (ignore_failed : Bool) (law : IsIdr S k) where
  module _ (d : Dev S) (hw : ℕ → Bool) (added : ℕ → ℕ) (x : ℕ)
      (g : Good k ignore_failed law hw added d) (idle : hw x ≡ false)
      (free : waits k d x ≡ false) where
    no_entry : (v j : ℕ) → k.find (d.ids v) j ≡ some x → ⊥
    no_entry v j h = false-true (sym free ∙ where_waits k d hw v j x g.0 h)

    abbrev one_more : ℕ → ℕ
    one_more = update added x (added x + 1)

    new-IsLocal :
        (e : Dev S)
        → ((y : ℕ) → y ≢ x → e.cb y ≡ d.cb y)
        → ((v j y : ℕ) → y ≢ x → k.find (d.ids v) j ≡ some y → k.find (e.ids v) j ≡ some y)
        → ((v j y : ℕ) → y ≢ x → k.find (e.ids v) j ≡ some y → k.find (d.ids v) j ≡ some y)
        → e.reported ≡ d.reported
        → e.ended ≡ d.ended
        → IsLocal k d e hw (update hw x true) x
    new-IsLocal e cbs to from rep end = record {
      same_cb = cbs;
      same_hw = λ y ne. update-ne hw x y true ne;
      kept = to;
      was = from;
      same_times = λ y ne. ap₂ (λ a b. times y (a ++ b)) rep end;
    }

    new-Accounted :
        (e : Dev S)
        → IsLocal k d e hw (update hw x true) x
        → e.reported ≡ d.reported
        → e.ended ≡ d.ended
        → Accounted k e (update hw x true) one_more
    new-Accounted e l rep end =
        local-Accounted k d e hw (update hw x true) x l added one_more g.1
          (λ y ne. update-ne added x y _ ne)
          (let t = ap₂ (λ a b. times x (a ++ b)) rep end in
            let o = ap (λ b. one (b || waits k e x)) (update_self hw x true) in
            let q = g.1 x in
            let f = ap₂ (λ a b. one (a || b)) idle free in
            let m = update_self added x (added x + 1) in omega (arith, t, o, q, f, m))

    -- A frame without an id.
    plain-Good :
        (e : Dev S)
        → e.cb ≡ update d.cb x no_cb
        → ((v j : ℕ) → k.find (e.ids v) j ≡ k.find (d.ids v) j)
        → e.reported ≡ d.reported
        → e.ended ≡ d.ended
        → Good k ignore_failed law (update hw x true) one_more e
    plain-Good e cbs same rep end =
        let cb_x = ap (λ t. (t x).pktid) cbs ∙ ap (λ c. c.pktid) (update_self d.cb x no_cb) in
        let l =
          new-IsLocal e (λ y ne. ap (λ t. t y) cbs ∙ update-ne d.cb x y no_cb ne)
            (λ v j y ne h. same v j ∙ h) (λ v j y ne h. sym (same v j) ∙ h) rep end in
        (
          local-IsSound k d e hw (update hw x true) x l g.0
              (λ w i h. absurd (no_entry w i (sym (same w i) ∙ h)))
              (λ h ge. absurd (omega (arith, cb_x, ge))),
          new-Accounted e l rep end,
        )

    -- A frame that stands under the id `i`, which was free.
    placed-Good :
        (e : Dev S) (w i : ℕ)
        → first_id ≤ i
        → i < id_mask
        → k.find (d.ids w) i ≡ none
        → k.find (e.ids w) i ≡ some x
        → ((j : ℕ) → j ≢ i → k.find (e.ids w) j ≡ k.find (d.ids w) j)
        → ((v : ℕ) → v ≢ w → e.ids v ≡ d.ids v)
        → ((y : ℕ) → y ≢ x → e.cb y ≡ d.cb y)
        → e.cb x ≡ record no_cb { wcid = w; pktid = i }
        → e.reported ≡ d.reported
        → e.ended ≡ d.ended
        → Good k ignore_failed law (update hw x true) one_more e
    placed-Good e w i lo hi vacant put others stations cbs cb_x rep end =
        let l = new-IsLocal e cbs to from rep end in
        (
          local-IsSound k d e hw (update hw x true) x l g.0
              (λ v j h.
                let (v_is, j_is) = where_x v j h in
                (
                  ap (λ z. z.wcid) cb_x ∙ sym v_is,
                  ap (λ z. z.pktid) cb_x ∙ sym j_is,
                  subst (λ n. first_id ≤ n) (sym j_is) lo,
                  subst (λ n. n < id_mask) (sym j_is) hi,
                  ap (λ z. z.txs_done) cb_x,
                  ap (λ z. z.dma_done) cb_x ∙ ap not (sym (update_self hw x true)),
                ))
              (λ h ge. (
                ap (λ z. z.dma_done) cb_x,
                inr (
                    ap (λ (z : Cb). holds x (k.find (e.ids z.wcid) z.pktid)) cb_x
                    ∙ (ap (holds x) put ∙ ==_refl x)),
              )),
          new-Accounted e l rep end,
        )
      where
        spot : (v j : ℕ) → ((v ≡ w) × (j ≡ i)) ⊎ (k.find (e.ids v) j ≡ k.find (d.ids v) j)
        spot v j = elim (Bool-cases (v == w)) [
          | inl a ↦ elim (Bool-cases (j == i)) [
            | inl b ↦ inl (==→eq v w a, ==→eq j i b)
            | inr b ↦ inr (
                subst (λ u. k.find (e.ids u) j ≡ k.find (d.ids u) j) (sym (==→eq v w a))
                  (others j (==→ne j i b)))
          ]
          | inr a ↦ inr (ap (λ t. k.find t j) (stations v (==→ne v w a)))
        ]

        where_x : (v j : ℕ) → k.find (e.ids v) j ≡ some x → (v ≡ w) × (j ≡ i)
        where_x v j h = elim (spot v j) [ inl q ↦ q | inr q ↦ absurd (no_entry v j (sym q ∙ h)) ]

        to : (v j y : ℕ) → y ≢ x → k.find (d.ids v) j ≡ some y → k.find (e.ids v) j ≡ some y
        to v j y ne h = elim (spot v j) [
          | inl (a, b) ↦
              absurd (none-some y (sym (ap₂ (λ u t. k.find (d.ids u) t) a b ∙ vacant) ∙ h))
          | inr q ↦ q ∙ h
        ]

        from : (v j y : ℕ) → y ≢ x → k.find (e.ids v) j ≡ some y → k.find (d.ids v) j ≡ some y
        from v j y ne h = elim (spot v j) [
          | inl (a, b) ↦
              absurd (ne (some_inj (sym h ∙ (ap₂ (λ u t. k.find (e.ids u) t) a b ∙ put))))
          | inr q ↦ sym q ∙ h
        ]

    untaken :
        (w : ℕ)
        → (k.alloc (d.ids w) x first_id id_mask).1 ≡ none
        → (v j : ℕ)
        → k.find (update d.ids w (k.alloc (d.ids w) x first_id id_mask).0 v) j ≡ k.find (d.ids v) j
    untaken w h v j = elim (Bool-cases (v == w)) [
      | inl e ↦ rw (e, ==→eq v w e) (law.full_lem (d.ids w) x first_id id_mask h j)
      | inr e ↦ rw e refl
    ]

    with_id-Good :
        (w : ℕ) (t : Option ℕ)
        → (k.alloc (d.ids w) x first_id id_mask).1 ≡ t
        → Good k ignore_failed law
            (update hw x true)
            one_more
            (with_id k ignore_failed
              (cleared k ignore_failed d x)
              w
              x
              ((k.alloc (d.ids w) x first_id id_mask).0, t)).0
    unfolding with_id cleared
    with_id-Good w none h = plain-Good _ refl (untaken w h) refl refl
    with_id-Good w (some i) h =
        let (lo, hi, vacant, put, others) =
          law.alloc_lem (d.ids w) x first_id id_mask i (omega arith) h in
        placed-Good _ w i lo hi vacant (ap (λ t. k.find t i) (update_self d.ids w _) ∙ put)
          (λ j ne. ap (λ t. k.find t j) (update_self d.ids w _) ∙ others j ne)
          (λ v ne. update-ne d.ids w v _ ne)
          (λ y ne. update-ne (update d.cb x no_cb) x y _ ne ∙ update-ne d.cb x y no_cb ne)
          (update_self (update d.cb x no_cb) x _
            ∙ ap (λ (b : Cb). record b { wcid = w; pktid = i }) (update_self d.cb x no_cb))
          refl refl

    pub skb_add-Good :
        (w : Option ℕ) (r : Request)
        → Good k ignore_failed law (update hw x true) one_more (skb_add k ignore_failed d w x r).0
    unfolding skb_add add_for cleared
    skb_add-Good none r = plain-Good _ refl (λ v j. refl) refl refl
    skb_add-Good (some w) r = for_station (not (d.known w) || r.wants_no_ack) refl
      where
        plain : Good k ignore_failed law (update hw x true) one_more (cleared k ignore_failed d x)
        plain = plain-Good _ refl (λ v j. refl) refl refl

        for_status :
            (b : Bool)
            → r.wants_status ≡ b
            → Good k ignore_failed law
                (update hw x true)
                one_more
                (if not b
                  then (cleared k ignore_failed d x, if r.is_wed then for_wed else no_skb)
                  else with_id k ignore_failed
                      (cleared k ignore_failed d x)
                      w
                      x
                      (k.alloc (d.ids w) x first_id id_mask)).0
        for_status true h = with_id-Good w _ refl
        for_status false h = plain

        for_station :
            (b : Bool)
            → (not (d.known w) || r.wants_no_ack) ≡ b
            → Good k ignore_failed law
                (update hw x true)
                one_more
                (add_for k ignore_failed (cleared k ignore_failed d x) w x r).0
        for_station true h = rw h plain
        for_station false h = rw h (for_status r.wants_status refl)
