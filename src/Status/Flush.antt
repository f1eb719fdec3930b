-- ===== src/Status/Flush.antt =====
-- A flush (mt76_tx_status_check) ends every frame that the DMA rings have given back.
use mt.Common.{
  ℕ, zero, suc, ◌+◌, ◌≤◌, ◌<◌, ◌≡◌, refl, sym, ◌∙◌, ap, arith, Bool, true, ◌||◌, Option, none, some,
  List, [], ◌∷◌, ◌==◌, ==→eq, ==→ne, Bool-cases, Option-cases, inl, inr,
}
use mt.Common.Ring.{update, update_self}
use mt.Kernel.Idr.{IdrOps, IsIdr}
use mt.Status.{Dev, give_up, stale_with, stale, unlist, has, get_with, skb_get, check_each, id_mask}
use mt.Status.End.{left, none-some}
use mt.Status.Sweep.{Good, give_up-IsEnd, stale_with-Good, same-Good, all-Good, unlisted}
use mt.Status.Give.{false-true}

pub same :
    {S : Type 0} (k : IdrOps S) (d : Dev S) (w v j : ℕ)
    → k.find (update d.ids w (d.ids w) v) j ≡ k.find (d.ids v) j
same k d w v j = elim (Bool-cases (v == w)) [ inl e ↦ rw (e, ==→eq v w e) refl | inr e ↦ rw e refl ]

module _ {S : Type 0} (k : IdrOps S) (ignore_failed : Bool) (law : IsIdr S k) (hw : ℕ → Bool)
    (added : ℕ → ℕ) where
  -- The table of `e` has no entry that `d` has not.
  abbrev pub Fewer : Dev S → Dev S → Type 0
  Fewer d e = (v j y : ℕ) → k.find (e.ids v) j ≡ some y → k.find (d.ids v) j ≡ some y

  -- One entry of the walk of a flush: it is gone, and none is new.
  stale_with-Fewer :
      (late : ℕ → Bool) (d : Dev S) (w i : ℕ)
      → Good k ignore_failed law hw added d
      → (o : Option ℕ) → k.find (d.ids w) i ≡ o
      → let e = stale_with k ignore_failed late true d w o in
        Fewer d e × (k.find (e.ids w) i ≡ none)
  unfolding stale_with
  stale_with-Fewer late d w i g none h = (λ v j y e. e, h)
  stale_with-Fewer late d w i g (some x) h =
      let m = give_up-IsEnd k ignore_failed law hw added d w i x g.0 h in
      (
        λ v j y e.
            (left k law d (give_up k ignore_failed d w x) hw added w i x g.0 h m v j y
              (ap (λ t. k.find t j) (sym (m.new_ids v)) ∙ e)).0,
        ap (λ t. k.find t i) (m.new_ids w)
            ∙ (ap (λ t. k.find t i) (update_self d.ids w _) ∙ (law.remove_lem (d.ids w) i).1),
      )

  vanishes :
      (d e : Dev S) (w i : ℕ) → Fewer d e → k.find (d.ids w) i ≡ none → k.find (e.ids w) i ≡ none
  vanishes d e w i f h = elim (Option-cases (k.find (e.ids w) i)) [
    | inl g ↦ g
    | inr (y, g) ↦ absurd (none-some y (sym h ∙ f w i y g))
  ]

  stale-Fewer :
      (late : ℕ → Bool) (d : Dev S) (w n i : ℕ)
      → Good k ignore_failed law hw added d
      → let e = stale k ignore_failed late true d w n i in
        Fewer d e × ((j : ℕ) → i ≤ j → j < i + n → k.find (e.ids w) j ≡ none)
  unfolding stale
  stale-Fewer late d w zero i g = (λ v j y e. e, λ j a b. absurd (omega arith))
  stale-Fewer late d w (suc n) i g =
      let b = stale_with k ignore_failed late true d w (k.find (d.ids w) i) in
      let (f, gone) = stale_with-Fewer late d w i g _ refl in
      let good = stale_with-Good k ignore_failed law hw added late true d w i g _ refl in
      let (f2, gone2) = stale-Fewer late b w n (i + 1) good in
      (
        λ v j y e. f v j y (f2 v j y e),
        λ j lo hi. elim (Bool-cases (j == i)) [
          | inl q ↦
              ap (λ a. k.find ((stale k ignore_failed late true b w n (i + 1)).ids w) a)
                (==→eq j i q)
              ∙ vanishes b (stale k ignore_failed late true b w n (i + 1)) w i f2 gone
          | inr q ↦ let ne = ==→ne j i q in gone2 j (omega (arith, lo, ne)) (omega arith)
        ],
      )

  -- A flush of one station leaves no entry of it.
  clears :
      (late : ℕ → Bool) (d : Dev S) (w : ℕ)
      → Good k ignore_failed law hw added d
      → let e = (skb_get k ignore_failed late d w none).0 in
        Fewer d e × ((j : ℕ) → k.find (e.ids w) j ≡ none)
  unfolding skb_get get_with
  clears late d w g =
      let b = record d { ids = update d.ids w (d.ids w) } in
      let e = stale k ignore_failed late true b w id_mask 0 in
      let gb =
        same-Good k ignore_failed law hw added d (update d.ids w (d.ids w)) d.wcid_list d.ended
          d.reported d.acked (same k d w) refl g in
      let (f, gone) = stale-Fewer late b w id_mask 0 gb in
      let ids = (unlisted k ignore_failed law hw added e w).0 in
      let ge = all-Good k ignore_failed law hw added late d w g in
      let fewer : Fewer d (skb_get k ignore_failed late d w none).0 =
        λ v j y h. sym (same k d w v j) ∙ f v j y (ap (λ t. k.find (t v) j) (sym ids) ∙ h) in
      (
        fewer,
        λ j. elim (Option-cases (k.find ((unlist k ignore_failed e w).ids w) j)) [
          | inl q ↦ q
          | inr (y, q) ↦
              let (r0, r1, r2, hi, r4, r5) = ge.0.entry w j y q in
              absurd (
                none-some y (
                  sym (gone j (omega arith) (omega (arith, hi)))
                  ∙ (ap (λ t. k.find (t w) j) (sym ids) ∙ q)))
        ],
      )

  pub flushes :
      (late : ℕ → Bool) (d : Dev S) (ws : List ℕ)
      → Good k ignore_failed law hw added d
      → let e = check_each k ignore_failed late true d ws in
        Fewer d e × ((v j : ℕ) → has ws v ≡ true → k.find (e.ids v) j ≡ none)
  unfolding check_each
  flushes late d [] g = (λ v j y e. e, λ v j h. absurd (false-true h))
  flushes late d (w ∷ ws) g =
      let b = (skb_get k ignore_failed late d w none).0 in
      let (f, gone) = clears late d w g in
      let (f2, gone2) = flushes late b ws (all-Good k ignore_failed law hw added late d w g) in
      (
        λ v j y e. f v j y (f2 v j y e),
        λ v j h. elim (Bool-cases (w == v)) [
          | inl q ↦
              ap (λ a. k.find ((check_each k ignore_failed late true b ws).ids a) j)
                (sym (==→eq w v q))
              ∙ vanishes b (check_each k ignore_failed late true b ws) w j f2 (gone j)
          | inr q ↦ gone2 v j (sym (ap (λ c. c || has ws v) q) ∙ h)
        ],
      )
