-- ===== src/Recv/Complete.antt =====
-- What mt76_rx_complete makes of a list of A-MSDUs.
use mt.Common.{
  ℕ, ◌≡◌, refl, sym, ◌∙◌, ap, true, not, ◌||◌, Option, none, some, List, [], ◌∷◌, ◌++◌,
  if◌then◌else◌, ltb, Bool-cases, inl, inr,
}
use mt.Recv.{
  Frame, Amsdu, Keys, compare_pn, check_with, check_ccmp_pn, is_later_frag, security_idx, memcmp_gt,
  rx_complete,
}
use mt.Recv.Pn.{IsPn, number}
use mt.Recv.Replay.{subject, max_of, IsKeyed, row, check_ccmp_pn-IsChecked}

module _ (w i : ℕ) where
  -- The frames `hs` are the first frames of a list, judged by a highest number that starts at `n`: one
  -- that is compared with the row is marked exactly when its number is not above the highest.
  abbrev pub Judged : ℕ → List Amsdu → List Frame → Type 0
  Judged n [] [] = Unit {0}
  Judged n [] (h ∷ hs) = ⊥
  Judged n (a ∷ rest) [] = ⊥
  Judged n (a ∷ rest) (h ∷ hs) =
      (subject w i a.first ≡ true → h.only_monitor ≡ not (ltb n (number a.first.iv)))
      × Judged (if subject w i a.first then max_of n (number a.first.iv) else n) rest hs

  -- The highest number after the frames.
  abbrev pub highest : ℕ → List Amsdu → ℕ
  highest n [] = n
  highest n (a ∷ rest) =
      highest (if subject w i a.first then max_of n (number a.first.iv) else n) rest

-- The frames that mt76_rx_complete hands over: each first frame, then the frames behind it as they came.
pub handed : List Amsdu → List Frame → List Frame
handed [] hs = []
handed (a ∷ rest) [] = []
handed (a ∷ rest) (h ∷ hs) = h ∷ (a.frags ++ handed rest hs)

abbrev pub AllPn : List Amsdu → Type 0
AllPn [] = Unit {0}
AllPn (a ∷ rest) = IsPn a.first.iv × AllPn rest

heads : (ℕ → Keys) → List Amsdu → List Frame
heads s [] = []
heads s (a ∷ rest) = (check_ccmp_pn s a.first).1 ∷ heads (check_ccmp_pn s a.first).0 rest

rx_complete-handed : (s : ℕ → Keys) (l : List Amsdu) → (rx_complete s l).1 ≡ handed l (heads s l)
unfolding rx_complete handed heads
rx_complete-handed s [] = refl
rx_complete-handed s (a ∷ rest) =
    ap (λ t. (check_ccmp_pn s a.first).1 ∷ (a.frags ++ t))
      (rx_complete-handed (check_ccmp_pn s a.first).0 rest)

-- A frame that was looked at is the frame that came, but for the two flags.
abbrev pub IsMarked : Frame → Frame → Type 0
IsMarked f h = h ≡ record f { only_monitor = h.only_monitor; pn_validated = h.pn_validated }

abbrev pub AllMarked : List Amsdu → List Frame → Type 0
AllMarked [] [] = Unit {0}
AllMarked [] (h ∷ hs) = ⊥
AllMarked (a ∷ rest) [] = ⊥
AllMarked (a ∷ rest) (h ∷ hs) = IsMarked a.first h × AllMarked rest hs

check_ccmp_pn-IsMarked : (s : ℕ → Keys) (f : Frame) → IsMarked f (check_ccmp_pn s f).1
unfolding check_ccmp_pn check_with compare_pn
check_ccmp_pn-IsMarked s f = elim (Bool-cases (not f.decrypted || f.only_monitor)) [
  | inl h ↦ simp h refl
  | inr h ↦ simp h (with_wcid f.wcid)
]
  where
    with_wcid : (o : Option ℕ) → IsMarked f (check_with s f o).1
    with_wcid none = refl
    with_wcid (some v) = elim (Bool-cases (not (s v).rx_check_pn || is_later_frag f)) [
      | inl h ↦ simp h refl
      | inr h ↦ simp h (elim (Bool-cases (memcmp_gt f.iv ((s v).rx_key_pn (security_idx f)))) [
        | inl g ↦ simp g refl
        | inr g ↦ simp g refl
      ])
    ]

heads-AllMarked : (s : ℕ → Keys) (l : List Amsdu) → AllMarked l (heads s l)
unfolding heads
heads-AllMarked s [] = tt
heads-AllMarked s (a ∷ rest) =
    (check_ccmp_pn-IsMarked s a.first, heads-AllMarked (check_ccmp_pn s a.first).0 rest)

module _ (w i : ℕ) where
  heads-Judged :
      (s : ℕ → Keys) (l : List Amsdu) (n : ℕ)
      → n ≡ row w i s
      → IsKeyed s w
      → AllPn l
      → Judged w i n l (heads s l) × (row w i (rx_complete s l).0 ≡ highest w i n l)
  unfolding heads rx_complete
  heads-Judged s [] n e k p = (tt, sym e)
  heads-Judged s (a ∷ rest) n e k p =
      let c = check_ccmp_pn-IsChecked w i s a.first k p.0 in
      let m = if subject w i a.first then max_of n (number a.first.iv) else n in
      let q : m ≡ row w i (check_ccmp_pn s a.first).0 =
        ap (λ x. if subject w i a.first then max_of x (number a.first.iv) else x) e
        ∙ sym c.row_is in
      let (j, r) = heads-Judged (check_ccmp_pn s a.first).0 rest m q c.keyed p.1 in
      ((λ h. c.mark_is h ∙ ap (λ x. not (ltb x (number a.first.iv))) (sym e), j), r)

-- For a station whose packet numbers are checked, and any row of its numbers: of the frames handed to
-- mac80211, each first frame of an A-MSDU that is compared with the row is marked for monitors only
-- exactly when its number, of six bytes, is not above the row's at the start and all numbers compared
-- before it; the row ends as the highest of these. A first frame changes in nothing but that mark and
-- the flag of a validated number, and the frames behind it are handed over as they came, also those
-- behind one that was marked.
pub rx_complete_lem :
    (w i : ℕ) (s : ℕ → Keys) (l : List Amsdu)
    → IsKeyed s w
    → AllPn l
    → (hs : List Frame) × ((rx_complete s l).1 ≡ handed l hs)
      × Judged w i (number ((s w).rx_key_pn i)) l hs
      × (number (((rx_complete s l).0 w).rx_key_pn i) ≡ highest w i (number ((s w).rx_key_pn i)) l)
      × AllMarked l hs
rx_complete_lem w i s l k p =
    let (j, r) = heads-Judged w i s l (number ((s w).rx_key_pn i)) refl k p in
    (heads s l, rx_complete-handed s l, j, r, heads-AllMarked s l)
