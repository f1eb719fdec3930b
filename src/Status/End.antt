-- ===== src/Status/End.antt =====
-- A frame's status comes or is given up, the DMA ring gives it back, or it is added (tx.c).
use mt.Common.{
  ℕ, ◌+◌, ◌≡◌, ◌≢◌, refl, sym, ◌∙◌, ap, ap₂, arith, Bool, true, false, not, ◌&&◌, ◌||◌, none, some,
  some_inj, List, [], ◌∷◌, ◌++◌, if◌then◌else◌, ◌==◌, ==→eq, ==→ne, ==_refl, Bool-cases, inl, inr,
}
use mt.Common.Ring.{update}
use mt.Kernel.Idr.{IdrOps, IsIdr}
use mt.Status.{Dev}
use mt.Status.Inv.{
  one, times, times-append, times-last, waits, IsSound, Accounted, IsLocal, waits_where,
  where_waits, local-Accounted, local-IsSound,
}

-- The entry `x` of station `w` is removed, and its control block becomes `c`.
pub record IsEnd {S : Type 0} (k : IdrOps S) (d e : Dev S) (w i x : ℕ) : Type 0 where
  pub new_ids : (v : ℕ) → e.ids v ≡ update d.ids w (k.remove (d.ids w) i).0 v
  pub other_cb : (y : ℕ) → y ≢ x → e.cb y ≡ d.cb y
  pub new_txs : (e.cb x).txs_done ≡ true
  pub new_dma : (e.cb x).dma_done ≡ (d.cb x).dma_done
  pub new_reported : e.reported ≡ d.reported
  pub new_ended : e.ended ≡ (if (d.cb x).dma_done then d.ended ++ (x ∷ []) else d.ended)

pub times_last :
    (y x : ℕ) (xs ys : List ℕ) (b : Bool)
    → times y (xs ++ (if b then ys ++ (x ∷ []) else ys)) ≡ times y (xs ++ ys) + one (b && (x == y))
times_last y x xs ys true =
    let f = times-append y xs (ys ++ (x ∷ [])) in
    let g = times-last y x ys in let h = times-append y xs ys in omega (arith, f, g, h)
times_last y x xs ys false = omega arith

pub one-ne : (x y : ℕ) (b : Bool) → y ≢ x → one (b && (x == y)) ≡ 0
one-ne x y b ne = elim (Bool-cases (x == y)) [
  | inl e ↦ absurd (ne (sym (==→eq x y e)))
  | inr e ↦ rw e (none_and b)
]
  where
    none_and : (b : Bool) → one (b && false) ≡ 0
    none_and true = refl
    none_and false = refl

balance : (b : Bool) → one (not b && true) + one (b || false) ≡ one (b || true)
balance true = refl
balance false = refl

pub none-some : (y : ℕ) → none ≡ some y → ⊥
none-some y h = ground arith

module _ {S : Type 0} (k : IdrOps S) (law : IsIdr S k) where
  module _ (d e : Dev S) (hw : ℕ → Bool) (added : ℕ → ℕ) (w i x : ℕ) (s : IsSound k d hw)
      (at : k.find (d.ids w) i ≡ some x) (m : IsEnd k d e w i x) where
    abbrev rest : S
    rest = (k.remove (d.ids w) i).0

    -- What is left in the table, of `x` nothing.
    pub left :
        (v j y : ℕ)
        → k.find (update d.ids w rest v) j ≡ some y
        → (k.find (d.ids v) j ≡ some y) × (y ≢ x)
    left v j y = elim (Bool-cases (v == w)) [
      | inl g ↦ rw g (in_table (==→eq v w g))
      | inr g ↦ rw g (λ h. (
        h,
        λ eq.
            ==→ne v w g
              (sym (s.entry v j y h).0 ∙ (ap (λ z. (d.cb z).wcid) eq ∙ (s.entry w i x at).0)),
      ))
    ]
      where
        in_table : v ≡ w → k.find rest j ≡ some y → (k.find (d.ids v) j ≡ some y) × (y ≢ x)
        in_table eq h = elim (Bool-cases (j == i)) [
          | inl g ↦ absurd (
              none-some y
                (sym (ap (k.find rest) (==→eq j i g) ∙ (law.remove_lem (d.ids w) i).1) ∙ h))
          | inr g ↦
              let old : k.find (d.ids w) j ≡ some y =
                sym ((law.remove_lem (d.ids w) i).2 j (==→ne j i g)) ∙ h in
              (
                ap (λ a. k.find (d.ids a) j) eq ∙ old,
                λ q. ==→ne j i g (
                    sym (s.entry w j y old).1
                    ∙ (ap (λ z. (d.cb z).pktid) q ∙ (s.entry w i x at).1)),
              )
        ]

    pub right :
        (v j y : ℕ)
        → y ≢ x
        → k.find (d.ids v) j ≡ some y
        → k.find (update d.ids w rest v) j ≡ some y
    right v j y ne h = elim (Bool-cases (v == w)) [
      | inl g ↦ rw g (
          (law.remove_lem (d.ids w) i).2 j (other (==→eq v w g))
          ∙ (ap (λ a. k.find (d.ids a) j) (sym (==→eq v w g)) ∙ h))
      | inr g ↦ rw g h
    ]
      where
        other : v ≡ w → j ≢ i
        other eq q = ne (some_inj (sym h ∙ (ap₂ (λ a b. k.find (d.ids a) b) eq q ∙ at)))

    pub end-IsLocal : IsLocal k d e hw hw x
    end-IsLocal = record {
      same_cb = m.other_cb;
      same_hw = λ y ne. refl;
      kept = λ v j y ne h. ap (λ t. k.find t j) (m.new_ids v) ∙ right v j y ne h;
      was = λ v j y ne h. (left v j y (ap (λ t. k.find t j) (sym (m.new_ids v)) ∙ h)).0;
      same_times = λ y ne.
          ap₂ (λ a b. times y (a ++ b)) m.new_reported m.new_ended
          ∙ (times_last y x d.reported d.ended (d.cb x).dma_done
              ∙ (let z = one-ne x y (d.cb x).dma_done ne in omega (arith, z)));
    }

    no_more : (v j : ℕ) → k.find (e.ids v) j ≡ some x → ⊥
    no_more v j h = (left v j x (ap (λ t. k.find t j) (sym (m.new_ids v)) ∙ h)).1 refl

    pub end-IsSound : IsSound k e hw
    end-IsSound =
        local-IsSound k d e hw hw x end-IsLocal s (λ v j h. absurd (no_more v j h))
          (λ h ge. (m.new_dma ∙ ((s.entry w i x at).5 ∙ ap not h), inl m.new_txs))

    not_waiting : waits k e x ≡ false
    not_waiting = elim (Bool-cases (waits k e x)) [
      | inl h ↦ absurd (no_more _ _ (waits_where k e x h))
      | inr h ↦ h
    ]

    pub end-Accounted : Accounted k d hw added → Accounted k e hw added
    end-Accounted a =
        local-Accounted k d e hw hw x end-IsLocal added added a (λ y ne. refl)
          (let t =
              ap₂ (λ a b. times x (a ++ b)) m.new_reported m.new_ended
              ∙ times_last x x d.reported d.ended (d.cb x).dma_done in
            let u = ap₂ (λ b c. one (b && c)) (s.entry w i x at).5 (==_refl x) in
            let v = ap (λ b. one (hw x || b)) not_waiting in
            let c = ap (λ b. one (hw x || b)) (where_waits k d hw w i x s at) in
            let b = balance (hw x) in let q = a x in omega (arith, t, u, v, c, b, q))
