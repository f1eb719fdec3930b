-- ===== src/Status/Give.antt =====
-- The DMA ring gives a frame back (__mt76_tx_complete_skb).
use mt.Common.{
  ℕ, ◌+◌, ◌≤◌, ◌<◌, ◌≡◌, refl, sym, ◌∙◌, ap, ap₂, subst, arith, Bool, true, false, not, ◌&&◌, ◌||◌,
  some, List, [], ◌∷◌, ◌++◌, if◌then◌else◌, ◌==◌, ==_refl, Bool-cases, inl, inr, ◌⊎◌, ltb, ltb→lt,
}
use mt.Common.Ring.{update, update-ne, update_self}
use mt.Kernel.Idr.{IdrOps, IsIdr}
use mt.Status.{Dev, Cb, dma, flagged, skb_done, complete_skb, first_id}
use mt.Status.Inv.{
  one, holds, times, times-append, times-last, waits, IsSound, Accounted, IsLocal, waits_where,
  local-Accounted, local-IsSound,
}
use mt.Status.End.{times_last, one-ne}
use mt.Status.Done.{IsDone, skb_done_lem}
use mt.Status.Sweep.{Good, unlock-Good}

pub false-true : false ≡ true → ⊥
false-true h = ground arith

below_first : {n : ℕ} → first_id ≤ n → n < first_id → ⊥
below_first a b = omega arith

times_mid :
    (y x : ℕ) (xs ys : List ℕ)
    → times y ((xs ++ (x ∷ [])) ++ ys) ≡ times y (xs ++ ys) + one (x == y)
times_mid y x xs ys =
    let f = times-append y (xs ++ (x ∷ [])) ys in
    let g = times-last y x xs in let h = times-append y xs ys in omega (arith, f, g, h)

either_way :
    (t w : Bool)
    → ((t ≡ true) ⊎ (w ≡ true))
    → (w ≡ true → t ≡ false)
    → one (t && true) + one (false || w) ≡ 1
either_way true true o f = absurd (false-true (sym (f refl)))
either_way true false o f = refl
either_way false true o f = refl
either_way false false o f = absurd (elim o [ inl h ↦ false-true h | inr h ↦ false-true h ])

module _ {S : Type 0} (k : IdrOps S) (ignore_failed : Bool) (law : IsIdr S k) where
  module _ (now : ℕ) (d : Dev S) (hw : ℕ → Bool) (added : ℕ → ℕ) (x : ℕ)
      (g : Good k ignore_failed law hw added d) (flies : hw x ≡ true) where
    abbrev stamped : Dev S
    stamped = record d { cb = update d.cb x (record (d.cb x) { jiffies = now }) }

    abbrev back : Dev S
    back = skb_done k ignore_failed stamped x dma

    done : IsDone k ignore_failed stamped back x (flagged (stamped.cb x) dma)
    done = skb_done_lem k ignore_failed stamped x dma

    cb_is : back.cb x ≡ flagged (record (d.cb x) { jiffies = now }) dma
    cb_is =
        ap (λ t. t x) done.done_cb
        ∙ (update_self stamped.cb x _ ∙ ap (λ c. flagged c dma) (update_self d.cb x _))

    ended_is : back.ended ≡ (if (d.cb x).txs_done then d.ended ++ (x ∷ []) else d.ended)
    ended_is =
        done.done_ended
        ∙ ap (λ (c : Cb). if c.txs_done then d.ended ++ (x ∷ []) else d.ended)
            (update_self d.cb x _)

    back-IsLocal : IsLocal k d back hw (update hw x false) x
    back-IsLocal = record {
      same_cb = λ y ne.
          ap (λ t. t y) done.done_cb ∙ (update-ne stamped.cb x y _ ne ∙ update-ne d.cb x y _ ne);
      same_hw = λ y ne. update-ne hw x y false ne;
      kept = λ w i y ne h. ap (λ t. k.find (t w) i) done.done_ids ∙ h;
      was = λ w i y ne h. ap (λ t. k.find (t w) i) (sym done.done_ids) ∙ h;
      same_times = λ y ne.
          ap₂ (λ a b. times y (a ++ b)) done.done_reported ended_is
          ∙ (times_last y x d.reported d.ended (d.cb x).txs_done
              ∙ (let z = one-ne x y (d.cb x).txs_done ne in omega (arith, z)));
    }

    landed : update hw x false x ≡ false
    landed = update_self hw x false

    back-IsSound : IsSound k back (update hw x false)
    back-IsSound =
        local-IsSound k d back hw (update hw x false) x back-IsLocal g.0
          (λ w i h.
            let (a, b, c, f, t, u) =
              g.0.entry w i x (ap (λ t. k.find (t w) i) (sym done.done_ids) ∙ h) in
            (
              ap (λ z. z.wcid) cb_is ∙ a,
              ap (λ z. z.pktid) cb_is ∙ b,
              c,
              f,
              ap (λ z. z.txs_done) cb_is ∙ t,
              ap (λ z. z.dma_done) cb_is ∙ ap not (sym landed),
            ))
          (λ h ge. absurd (false-true (sym landed ∙ h)))

    still : waits k back x ≡ waits k d x
    still = ap₂ (λ (t : ℕ → S) (c : Cb). holds x (k.find (t c.wcid) c.pktid)) done.done_ids cb_is

    back-Accounted : first_id ≤ (d.cb x).pktid → Accounted k back (update hw x false) added
    back-Accounted ge =
        local-Accounted k d back hw (update hw x false) x back-IsLocal added added g.1
          (λ y ne. refl)
          (let t =
              ap₂ (λ a b. times x (a ++ b)) done.done_reported ended_is
              ∙ times_last x x d.reported d.ended (d.cb x).txs_done in
            let e = ap (λ b. one ((d.cb x).txs_done && b)) (==_refl x) in
            let v = ap₂ (λ a b. one (a || b)) landed still in
            let c = ap (λ a. one (a || waits k d x)) flies in
            let q = g.1 x in
            let b : one ((d.cb x).txs_done && true) + one (false || waits k d x) ≡ 1 =
              either_way _ _ (g.0.flying x flies ge).1
                (λ h. (g.0.entry _ _ x (waits_where k d x h)).4) in
            omega (arith, t, e, v, c, q, b))

    -- A frame without an id is reported at once.
    abbrev told : Dev S
    told = record d { reported = d.reported ++ (x ∷ []) }

    told-IsLocal : IsLocal k d told hw (update hw x false) x
    told-IsLocal = record {
      same_cb = λ y ne. refl;
      same_hw = λ y ne. update-ne hw x y false ne;
      kept = λ w i y ne h. h;
      was = λ w i y ne h. h;
      same_times = λ y ne.
          times_mid y x d.reported d.ended ∙ (let z = one-ne x y true ne in omega (arith, z));
    }

    short-Good : (d.cb x).pktid < first_id → Good k ignore_failed law (update hw x false) added told
    short-Good lt =
        let no = λ (v j : ℕ) (h : k.find (d.ids v) j ≡ some x).
          let (a, b, c, r1, r2, r3) = g.0.entry v j x h in
          below_first (subst (λ n. first_id ≤ n) (sym b) c) lt in
        let w : waits k d x ≡ false = elim (Bool-cases (waits k d x)) [
          | inl h ↦ absurd (no _ _ (waits_where k d x h))
          | inr h ↦ h
        ] in
        (
          local-IsSound k d told hw (update hw x false) x told-IsLocal g.0
              (λ v j h. absurd (no v j h)) (λ h ge. absurd (false-true (sym landed ∙ h))),
          local-Accounted k d told hw (update hw x false) x told-IsLocal added added g.1
              (λ y ne. refl)
              (let t = times_mid x x d.reported d.ended in
                let e = ap one (==_refl x) in
                let v = ap₂ (λ a b. one (a || b)) landed w in
                let c = ap (λ a. one (a || waits k d x)) flies in
                let q = g.1 x in omega (arith, t, e, v, c, q)),
        )

    pub complete_skb-Good :
        Good k ignore_failed law (update hw x false) added (complete_skb k ignore_failed now d x)
    unfolding complete_skb
    complete_skb-Good = elim (Bool-cases (ltb (d.cb x).pktid first_id)) [
      | inl h ↦ rw h (short-Good (ltb→lt _ _ h))
      | inr h ↦ rw h (
          unlock-Good k ignore_failed law (update hw x false) added back
            (back-IsSound, back-Accounted (ground arith)))
    ]
