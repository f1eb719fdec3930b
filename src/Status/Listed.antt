-- ===== src/Status/Listed.antt =====
-- A station that has packet ids in use is on dev->wcid_list (tx.c).
use mt.Common.{
  ℕ, zero, suc, ◌+◌, ◌≤◌, ◌<◌, ◌≡◌, ◌≢◌, refl, sym, ◌∙◌, ap, arith, Bool, true, false, ◌&&◌, ◌||◌,
  Option, none, some, List, [], ◌∷◌, ◌++◌, if◌then◌else◌, ◌==◌, ==→eq, ==→ne, ==_refl, Bool-cases,
  inl, inr,
}
use mt.Common.Ring.{update}
use mt.Kernel.Idr.{IdrOps, IsIdr}
use mt.Status.{
  Dev, timeout, txs, skb_done, give_up, stale_with, stale, unlist, any_id, present, has, without,
  get_with, skb_get, report_with, add_txs, unlock, id_mask,
}
use mt.Status.End.{none-some}
use mt.Status.Done.{skb_done_lem}
use mt.Status.Sweep.{Good, stale-Good, same-Good, none_removed}
use mt.Status.Give.{false-true}
use mt.Status.Flush.{same}

pub has-last : (l : List ℕ) (v w : ℕ) → has l v ≡ true → has (l ++ (w ∷ [])) v ≡ true
has-last [] v w h = absurd (false-true h)
has-last (u ∷ l) v w h = elim (Bool-cases (u == v)) [
  | inl e ↦ rw e refl
  | inr e ↦ rw e (has-last l v w (sym (ap (λ c. c || has l v) e) ∙ h))
]

pub has_last : (l : List ℕ) (w : ℕ) → has (l ++ (w ∷ [])) w ≡ true
has_last [] w = rw (==_refl w) refl
has_last (u ∷ l) w = elim (Bool-cases (u == w)) [ inl e ↦ rw e refl | inr e ↦ rw e (has_last l w) ]

has-without : (l : List ℕ) (w v : ℕ) → v ≢ w → has l v ≡ true → has (without l w) v ≡ true
has-without [] w v ne h = h
has-without (u ∷ l) w v ne h = elim (Bool-cases (u == w)) [
  | inl e ↦ rw e (
      has-without l w v ne (elim (Bool-cases (u == v)) [
        | inl q ↦ absurd (ne (sym (==→eq u v q) ∙ ==→eq u w e))
        | inr q ↦ sym (ap (λ c. c || has l v) q) ∙ h
      ]))
  | inr e ↦ rw e (elim (Bool-cases (u == v)) [
    | inl q ↦ rw q refl
    | inr q ↦ rw q (has-without l w v ne (sym (ap (λ c. c || has l v) q) ∙ h))
  ])
]

or_right : (a b : Bool) → (a || b) ≡ false → b ≡ false
or_right true b h = absurd (false-true (sym h))
or_right false b h = h

module _ {S : Type 0} (k : IdrOps S) where
  abbrev pub Listed : Dev S → Type 0
  Listed d = (v j y : ℕ) → k.find (d.ids v) j ≡ some y → has d.wcid_list v ≡ true

  -- Where no id is in use, any_id is false; here the other way round.
  any_id-false :
      (s : S) (n i j y : ℕ) → any_id k s n i ≡ false → i ≤ j → j < i + n → k.find s j ≡ some y → ⊥
  any_id-false s zero i j y h lo hi e = omega arith
  any_id-false s (suc n) i j y h lo hi e = elim (Bool-cases (j == i)) [
    | inl q ↦
        let here : present (k.find s i) ≡ true =
          ap (λ a. present (k.find s a)) (sym (==→eq j i q)) ∙ ap present e in
        false-true (sym h ∙ ap (λ c. c || any_id k s n (i + 1)) here)
    | inr q ↦
        let ne = ==→ne j i q in
        any_id-false s n (i + 1) j y (or_right _ _ h) (omega (arith, lo, ne)) (omega arith) e
  ]

  pub fewer-Listed :
      (d e : Dev S)
      → ((v j y : ℕ) → k.find (e.ids v) j ≡ some y → k.find (d.ids v) j ≡ some y)
      → e.wcid_list ≡ d.wcid_list
      → Listed d
      → Listed e
  fewer-Listed d e f l h v j y q = ap (λ t. has t v) l ∙ h v j y (f v j y q)

  module _ (ignore_failed : Bool) (law : IsIdr S k) (hw : ℕ → Bool) (added : ℕ → ℕ) where
    pub skb_done-Listed :
        (d : Dev S) (x : ℕ) (r : _) → Listed d → Listed (skb_done k ignore_failed d x r)
    skb_done-Listed d x r h =
        let m = skb_done_lem k ignore_failed d x r in
        fewer-Listed d (skb_done k ignore_failed d x r)
          (λ v j y q. ap (λ t. k.find (t v) j) (sym m.done_ids) ∙ q) m.done_list h

    abbrev removed : Dev S → ℕ → ℕ → Dev S
    removed d w i = record d { ids = update d.ids w (k.remove (d.ids w) i).0 }

    removed-fewer :
        (d : Dev S) (w i v j y : ℕ)
        → k.find ((removed d w i).ids v) j ≡ some y
        → k.find (d.ids v) j ≡ some y
    removed-fewer d w i v j y = elim (Bool-cases (v == w)) [
      | inl e ↦
          rw (e, ==→eq v w e)
            (λ q. elim (Bool-cases (j == i)) [
              | inl g ↦
                  let gone =
                    ap (k.find (k.remove (d.ids w) i).0) (==→eq j i g)
                    ∙ (law.remove_lem (d.ids w) i).1 in
                  absurd (none-some y (sym gone ∙ q))
              | inr g ↦ sym ((law.remove_lem (d.ids w) i).2 j (==→ne j i g)) ∙ q
            ])
      | inr e ↦ rw e (λ q. q)
    ]

    removed-Listed : (d : Dev S) (w i : ℕ) → Listed d → Listed (removed d w i)
    removed-Listed d w i h = fewer-Listed d (removed d w i) (removed-fewer d w i) refl h

    stale_with-Listed :
        (late : ℕ → Bool) (all : Bool) (d : Dev S) (w : ℕ) (o : Option ℕ)
        → Listed d
        → Listed (stale_with k ignore_failed late all d w o)
    unfolding stale_with give_up
    stale_with-Listed late all d w none h = h
    stale_with-Listed late all d w (some x) h =
        elim (all || ((d.cb x).dma_done && late (d.cb x).jiffies))
          as (λ b. Listed (if b then give_up k ignore_failed d w x else d)) [
            | true ↦
                skb_done-Listed (removed d w (d.cb x).pktid) x timeout
                  (removed-Listed d w (d.cb x).pktid h)
            | false ↦ h
          ]

    stale-Listed :
        (late : ℕ → Bool) (all : Bool) (d : Dev S) (w n i : ℕ)
        → Listed d
        → Listed (stale k ignore_failed late all d w n i)
    unfolding stale
    stale-Listed late all d w zero i h = h
    stale-Listed late all d w (suc n) i h =
        stale-Listed late all (stale_with k ignore_failed late all d w (k.find (d.ids w) i)) w n
          (i + 1) (stale_with-Listed late all d w _ h)

    unlist-Listed :
        (d : Dev S) (w : ℕ)
        → ((j y : ℕ) → k.find (d.ids w) j ≡ some y → j < id_mask)
        → Listed d
        → Listed (unlist k ignore_failed d w)
    unfolding unlist
    unlist-Listed d w low h = elim (Bool-cases (any_id k (d.ids w) id_mask 0)) [
      | inl e ↦ rw e h
      | inr e ↦ rw e (λ v j y q. has-without d.wcid_list w v (other e v j y q) (h v j y q))
    ]
      where
        other :
            any_id k (d.ids w) id_mask 0 ≡ false → (v j y : ℕ) → k.find (d.ids v) j ≡ some y → v ≢ w
        other e v j y q eq =
            let at : k.find (d.ids w) j ≡ some y = ap (λ a. k.find (d.ids a) j) (sym eq) ∙ q in
            let hi = low j y at in
            any_id-false (d.ids w) id_mask 0 j y e (omega arith) (omega (arith, hi)) at

    abbrev Fine : Dev S → Type 0
    Fine d = Good k ignore_failed law hw added d

    low : (d : Dev S) (w : ℕ) → Fine d → (j y : ℕ) → k.find (d.ids w) j ≡ some y → j < id_mask
    low d w g j y q = (g.0.entry w j y q).3

    -- The walk over the ids of a station, from a table `b` that differs from `d` in nothing.
    walked-Listed :
        (late : ℕ → Bool) (all : Bool) (b : Dev S) (w : ℕ)
        → Fine b
        → Listed b
        → Listed (unlist k ignore_failed (stale k ignore_failed late all b w id_mask 0) w)
    walked-Listed late all b w g h =
        let e = stale k ignore_failed late all b w id_mask 0 in
        unlist-Listed e w
          (low e w (stale-Good k ignore_failed law hw added late all b w id_mask 0 g))
          (stale-Listed late all b w id_mask 0 h)

    pub all-Listed :
        (late : ℕ → Bool) (d : Dev S) (w : ℕ)
        → Fine d
        → Listed d
        → Listed (skb_get k ignore_failed late d w none).0
    unfolding skb_get get_with
    all-Listed late d w g h =
        let b = record d { ids = update d.ids w (d.ids w) } in
        walked-Listed late true b w
          (same-Good k ignore_failed law hw added d b.ids d.wcid_list d.ended d.reported d.acked
            (same k d w) refl g)
          (fewer-Listed d b (λ v j y q. sym (same k d w v j) ∙ q) refl h)

    pub missing-Listed :
        (late : ℕ → Bool) (d : Dev S) (w i : ℕ) (o : Option ℕ)
        → k.find (d.ids w) i ≡ none
        → o ≡ none
        → Fine d
        → Listed d
        → Listed (get_with k ignore_failed late false d w ((k.remove (d.ids w) i).0, o)).0
    unfolding get_with
    missing-Listed late d w i (some x) free e g h = absurd cc
    missing-Listed late d w i none free e g h =
        let b = removed d w i in
        walked-Listed late false b w
          (same-Good k ignore_failed law hw added d b.ids d.wcid_list d.ended d.reported d.acked
            (none_removed k ignore_failed law hw added d w i free) refl g)
          (removed-Listed d w i h)

    report-Listed :
        (late : ℕ → Bool) (d : Dev S) (w i : ℕ) (is_ack : Bool) (o : Option ℕ)
        → Fine d
        → Listed d
        → k.find (d.ids w) i ≡ o
        → Listed (
            report_with k ignore_failed is_ack
              (get_with k ignore_failed late false d w ((k.remove (d.ids w) i).0, o)))
    unfolding report_with get_with
    report-Listed late d w i is_ack none g h e = missing-Listed late d w i none e refl g h
    report-Listed late d w i is_ack (some x) g h e =
        let b = removed d w i in
        let f = unlist k ignore_failed b w in
        skb_done-Listed (record f { acked = if is_ack then update f.acked x true else f.acked }) x
          txs
          (unlist-Listed b w (λ j y q. low d w g j y (removed-fewer d w i w j y q))
            (removed-Listed d w i h))

    pub add_txs-Listed :
        (late : ℕ → Bool) (d : Dev S) (w i : ℕ) (is_ack : Bool)
        → Fine d
        → Listed d
        → Listed (add_txs k ignore_failed late d w i is_ack)
    unfolding add_txs skb_get unlock
    add_txs-Listed late d w i is_ack g h =
        report-Listed late d w i is_ack _ g h (sym (law.remove_lem (d.ids w) i).0)
