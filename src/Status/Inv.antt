-- ===== src/Status/Inv.antt =====
-- What holds of the frames that wait for their status (tx.c), and how a change of one frame keeps it.
use mt.Common.{
  ℕ, ◌+◌, ◌≤◌, ◌<◌, ◌≡◌, ◌≢◌, refl, sym, ◌∙◌, ap, ap₂, subst, arith, Bool, true, false, not, ◌||◌,
  Option, none, some, List, [], ◌∷◌, ◌++◌, ◌==◌, ==→eq, ==→ne, ==_refl, Bool-cases, inl, inr, ◌⊎◌,
}
use mt.Kernel.Idr.{IdrOps}
use mt.Status.{Dev, Cb, first_id, id_mask}

-- How often `x` is in a list.
abbrev pub one : Bool → ℕ
one true = 1
one false = 0

abbrev pub times : ℕ → List ℕ → ℕ
times x [] = 0
times x (y ∷ ys) = one (y == x) + times x ys

pub times-append : (x : ℕ) (xs ys : List ℕ) → times x (xs ++ ys) ≡ times x xs + times x ys
times-append x [] ys = omega arith
times-append x (y ∷ xs) ys = let h = times-append x xs ys in omega (arith, h)

pub times-last : (x y : ℕ) (xs : List ℕ) → times x (xs ++ (y ∷ [])) ≡ times x xs + one (y == x)
times-last x y xs = let h = times-append x xs (y ∷ []) in omega (arith, h)

abbrev pub holds : ℕ → Option ℕ → Bool
holds x none = false
holds x (some y) = y == x

pub holds_iff : (x : ℕ) (o : Option ℕ) → (holds x o ≡ true) → o ≡ some x
holds_iff x none h = ground arith
holds_iff x (some y) h = ap some (==→eq y x h)

module _ {S : Type 0} (k : IdrOps S) where
  -- A frame that stands under its packet id waits for its status.
  abbrev pub waits : Dev S → ℕ → Bool
  waits d x = holds x (k.find (d.ids (d.cb x).wcid) (d.cb x).pktid)

  -- `hw` says which frames are in a DMA ring.
  abbrev pub owned : Dev S → (ℕ → Bool) → ℕ → Bool
  owned d hw x = hw x || waits d x

  -- What stands under an id has that id and waits; what is in the ring and has an id has either had
  -- its status or stands under the id.
  pub record IsSound (d : Dev S) (hw : ℕ → Bool) : Type 0 where
    pub entry :
        (w i x : ℕ)
        → k.find (d.ids w) i ≡ some x
        → ((d.cb x).wcid ≡ w)
          × ((d.cb x).pktid ≡ i)
          × (first_id ≤ i)
          × (i < id_mask)
          × ((d.cb x).txs_done ≡ false)
          × ((d.cb x).dma_done ≡ not (hw x))
    pub flying :
        (x : ℕ)
        → hw x ≡ true
        → first_id ≤ (d.cb x).pktid
        → ((d.cb x).dma_done ≡ false) × (((d.cb x).txs_done ≡ true) ⊎ (waits d x ≡ true))

  -- Each frame that was added is still owned or was reported, once each time.
  abbrev pub Accounted : Dev S → (ℕ → Bool) → (ℕ → ℕ) → Type 0
  Accounted d hw added = (x : ℕ) → times x (d.reported ++ d.ended) + one (owned d hw x) ≡ added x

  -- `d` becomes `e`, which changes nothing of any frame but `x`.
  pub record IsLocal (d e : Dev S) (hw hw' : ℕ → Bool) (x : ℕ) : Type 0 where
    pub same_cb : (y : ℕ) → y ≢ x → e.cb y ≡ d.cb y
    pub same_hw : (y : ℕ) → y ≢ x → hw' y ≡ hw y
    pub kept : (w i y : ℕ) → y ≢ x → k.find (d.ids w) i ≡ some y → k.find (e.ids w) i ≡ some y
    pub was : (w i y : ℕ) → y ≢ x → k.find (e.ids w) i ≡ some y → k.find (d.ids w) i ≡ some y
    pub same_times :
        (y : ℕ) → y ≢ x → times y (e.reported ++ e.ended) ≡ times y (d.reported ++ d.ended)

  pub waits_where :
      (d : Dev S) (x : ℕ) → waits d x ≡ true → k.find (d.ids (d.cb x).wcid) (d.cb x).pktid ≡ some x
  waits_where d x h = holds_iff x _ h

  pub where_waits :
      (d : Dev S) (hw : ℕ → Bool) (w i x : ℕ)
      → IsSound d hw
      → k.find (d.ids w) i ≡ some x
      → waits d x ≡ true
  where_waits d hw w i x s h =
      let (at, id, r1, r2, r3, r4) = s.entry w i x h in
      ap (λ a. holds x (k.find (d.ids a) (d.cb x).pktid)) at
      ∙ (ap (λ a. holds x (k.find (d.ids w) a)) id ∙ (ap (holds x) h ∙ ==_refl x))

  bool_eq : (a b : Bool) → (a ≡ true → b ≡ true) → (b ≡ true → a ≡ true) → a ≡ b
  bool_eq true b f g = sym (f refl)
  bool_eq false true f g = g refl
  bool_eq false false f g = refl

  module _ (d e : Dev S) (hw hw' : ℕ → Bool) (x : ℕ) (l : IsLocal d e hw hw' x) where
    pub local-waits : (y : ℕ) → y ≢ x → waits e y ≡ waits d y
    local-waits y ne =
        bool_eq _ _
          (λ h.
            ap (holds y) (
              subst (λ (c : Cb). k.find (d.ids c.wcid) c.pktid ≡ some y) (l.same_cb y ne)
                (l.was _ _ y ne (waits_where e y h)))
            ∙ ==_refl y)
          (λ h.
            ap (holds y) (
              subst (λ (c : Cb). k.find (e.ids c.wcid) c.pktid ≡ some y) (sym (l.same_cb y ne))
                (l.kept _ _ y ne (waits_where d y h)))
            ∙ ==_refl y)

    -- It is enough to look at `x`.
    pub local-Accounted :
        (added added' : ℕ → ℕ)
        → Accounted d hw added
        → ((y : ℕ) → y ≢ x → added' y ≡ added y)
        → times x (e.reported ++ e.ended) + one (owned e hw' x) ≡ added' x
        → Accounted e hw' added'
    local-Accounted added added' a same at y = elim (Bool-cases (y == x)) [
      | inl h ↦
          subst (λ z. times z (e.reported ++ e.ended) + one (hw' z || waits e z) ≡ added' z)
            (sym (==→eq y x h)) at
      | inr h ↦
          let ne = ==→ne y x h in
          ap₂ ◌+◌ (l.same_times y ne)
            (ap₂ (λ b c. one (b || c)) (l.same_hw y ne) (local-waits y ne))
          ∙ (a y ∙ sym (same y ne))
    ]

    pub local-IsSound :
        IsSound d hw
        → ((w i : ℕ)
            → k.find (e.ids w) i ≡ some x
            → ((e.cb x).wcid ≡ w)
              × ((e.cb x).pktid ≡ i)
              × (first_id ≤ i)
              × (i < id_mask)
              × ((e.cb x).txs_done ≡ false)
              × ((e.cb x).dma_done ≡ not (hw' x)))
        → (hw' x ≡ true
            → first_id ≤ (e.cb x).pktid
            → ((e.cb x).dma_done ≡ false) × (((e.cb x).txs_done ≡ true) ⊎ (waits e x ≡ true)))
        → IsSound e hw'
    local-IsSound s at fly = record {
      entry = λ w i y h. elim (Bool-cases (y == x)) [
        | inl g ↦
            let eq = ==→eq y x g in
            subst
              (λ z.
                ((e.cb z).wcid ≡ w)
                × ((e.cb z).pktid ≡ i)
                × (first_id ≤ i)
                × (i < id_mask)
                × ((e.cb z).txs_done ≡ false)
                × ((e.cb z).dma_done ≡ not (hw' z)))
              (sym eq) (at w i (h ∙ ap some eq))
        | inr g ↦
            let ne = ==→ne y x g in
            let (a, b, c, f, t, u) = s.entry w i y (l.was w i y ne h) in
            let q = l.same_cb y ne in
            (
              ap (λ z. z.wcid) q ∙ a,
              ap (λ z. z.pktid) q ∙ b,
              c,
              f,
              ap (λ z. z.txs_done) q ∙ t,
              ap (λ z. z.dma_done) q ∙ (u ∙ ap not (sym (l.same_hw y ne))),
            )
      ];
      flying = λ y. elim (Bool-cases (y == x)) [
        | inl g ↦
            subst
              (λ z.
                hw' z ≡ true
                → first_id ≤ (e.cb z).pktid
                → ((e.cb z).dma_done ≡ false) × (((e.cb z).txs_done ≡ true) ⊎ (waits e z ≡ true)))
              (sym (==→eq y x g)) fly
        | inr g ↦
            let ne = ==→ne y x g in
            λ h ge.
              let q = l.same_cb y ne in
              let (a, b) =
                s.flying y (sym (l.same_hw y ne) ∙ h) (subst (λ c. first_id ≤ c.pktid) q ge) in
              (
                ap (λ z. z.dma_done) q ∙ a,
                elim b [
                  | inl t ↦ inl (ap (λ z. z.txs_done) q ∙ t)
                  | inr t ↦ inr (local-waits y ne ∙ t)
                ],
              )
      ];
    }
