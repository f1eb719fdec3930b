-- ===== src/Recv/Replay.antt =====
-- mt76_rx_complete marks replays: frames whose packet number is not above all that went before.
use mt.Common.{
  ℕ, ◌≡◌, refl, sym, ◌∙◌, ap, ap₂, arith, Bool, true, false, not, ◌&&◌, ◌||◌, Option, none, some,
  List, if◌then◌else◌, ◌==◌, ==→eq, ==_refl, ltb, Bool-cases, inl, inr,
}
use mt.Common.Ring.{update_keeps, update}
use mt.Recv.{
  Frame, Keys, set_pn, compare_pn, check_with, check_ccmp_pn, is_later_frag, security_idx,
  memcmp_gt,
}
use mt.Recv.Pn.{IsPn, number, memcmp_number}

abbrev pub is_wcid : ℕ → Option ℕ → Bool
is_wcid w none = false
is_wcid w (some v) = v == w

-- Whether the frame's number is compared with row `i` of station `w`.
pub subject : ℕ → ℕ → Frame → Bool
subject w i f =
    f.decrypted
    && (not f.only_monitor
        && (is_wcid w f.wcid && (not (is_later_frag f) && (security_idx f == i))))

abbrev pub max_of : ℕ → ℕ → ℕ
max_of n m = if ltb n m then m else n

-- The stations that check, whose rows and frames hold packet numbers.
pub record IsKeyed (s : ℕ → Keys) (w : ℕ) : Type 0 where
  pub checks : (s w).rx_check_pn ≡ true
  pub rows : (v i : ℕ) → IsPn ((s v).rx_key_pn i)

false-true : false ≡ true → ⊥
false-true h = ground arith

or_right : (a b : Bool) → (not a || b) ≡ false → b ≡ false
or_right a b h = ground arith

or_left : (a b : Bool) → (not a || b) ≡ true → b ≡ false → a ≡ false
or_left a b h g = ground arith

flip : (a b : ℕ) → (a == b) ≡ false → (b == a) ≡ false
flip a b h = ground arith

both : (a b c d : ℕ) → ((a == b) && (c == d)) ≡ true → (a ≡ b) × (c ≡ d)
both a b c d h = ground arith

module _ (w i : ℕ) where
  abbrev pub row : (ℕ → Keys) → ℕ
  row s = number ((s w).rx_key_pn i)

  -- What checking one frame does.
  pub record IsChecked (s t : ℕ → Keys) (f h : Frame) : Type 0 where
    pub keyed : IsKeyed t w
    pub row_is : row t ≡ (if subject w i f then max_of (row s) (number f.iv) else row s)
    pub mark_is : subject w i f ≡ true → h.only_monitor ≡ not (ltb (row s) (number f.iv))

  unchecked : (s : ℕ → Keys) (f : Frame) → IsKeyed s w → subject w i f ≡ false → IsChecked s s f f
  unchecked s f k e = record {
    keyed = k;
    row_is = rw e refl;
    mark_is = λ h. absurd (false-true (sym e ∙ h));
  }

  set_pn-IsKeyed :
      (s : ℕ → Keys) (v j : ℕ) (pn : List ℕ) → IsKeyed s w → IsPn pn → IsKeyed (set_pn s v j pn) w
  set_pn-IsKeyed s v j pn k p = record {
    checks =
        update_keeps (λ x. x.rx_check_pn) s v
          (record (s v) { rx_key_pn = update (s v).rx_key_pn j pn }) refl w
        ∙ k.checks;
    rows = λ u n. elim (Bool-cases (u == v)) [
      | inl e ↦ rw e (elim (Bool-cases (n == j)) [ inl g ↦ rw g p | inr g ↦ rw g (k.rows v n) ])
      | inr e ↦ rw e (k.rows u n)
    ];
  }

  row-set_pn :
      (s : ℕ → Keys) (v j : ℕ) (pn : List ℕ)
      → row (set_pn s v j pn) ≡ (if (v == w) && (j == i) then number pn else row s)
  row-set_pn s v j pn = elim (Bool-cases (v == w)) [
    | inl e ↦
        rw (e, ==→eq v w e, ==_refl w)
          (elim (Bool-cases (j == i)) [
            | inl g ↦ rw (g, ==→eq j i g, ==_refl i) refl
            | inr g ↦ rw (g, flip j i g) refl
          ])
    | inr e ↦ rw (e, flip v w e) refl
  ]

  live : (f : Frame) → subject w i f ≡ true → f.only_monitor ≡ false
  unfolding subject
  live f h = ground arith

  compare_pn-IsChecked :
      (s : ℕ → Keys) (f : Frame) (v : ℕ)
      → IsKeyed s w
      → IsPn f.iv
      → subject w i f ≡ ((v == w) && (security_idx f == i))
      → IsChecked s (compare_pn s f v).0 f (compare_pn s f v).1
  unfolding compare_pn
  compare_pn-IsChecked s f v k p e =
      elim (Bool-cases (memcmp_gt f.iv ((s v).rx_key_pn (security_idx f)))) [
        | inl g ↦ rw g (record {
          keyed = set_pn-IsKeyed s v (security_idx f) f.iv k p;
          row_is = row-set_pn s v (security_idx f) f.iv ∙ taken g;
          mark_is = λ h. live f h ∙ ap not (sym (above h g));
        })
        | inr g ↦
            rw g
              (record { keyed = k; row_is = left_out g; mark_is = λ h. ap not (sym (above h g)) })
      ]
    where
      above :
          {b : Bool}
          → subject w i f ≡ true
          → memcmp_gt f.iv ((s v).rx_key_pn (security_idx f)) ≡ b
          → ltb (row s) (number f.iv) ≡ b
      above h g =
          let (a, b) = both v w (security_idx f) i (sym e ∙ h) in
          ap₂ (λ x y. ltb (number ((s x).rx_key_pn y)) (number f.iv)) (sym a) (sym b)
          ∙ (sym (
                memcmp_number f.iv ((s v).rx_key_pn (security_idx f)) p (k.rows v (security_idx f)))
              ∙ g)

      taken :
          memcmp_gt f.iv ((s v).rx_key_pn (security_idx f)) ≡ true
          → (if (v == w) && (security_idx f == i) then number f.iv else row s)
            ≡ (if subject w i f then max_of (row s) (number f.iv) else row s)
      taken g = elim (Bool-cases (subject w i f)) [
        | inl h ↦ rw (sym e ∙ h, h, above h g) refl
        | inr h ↦ rw (sym e ∙ h, h) refl
      ]

      left_out :
          memcmp_gt f.iv ((s v).rx_key_pn (security_idx f)) ≡ false
          → row s ≡ (if subject w i f then max_of (row s) (number f.iv) else row s)
      left_out g = elim (Bool-cases (subject w i f)) [
        | inl h ↦ rw (h, above h g) refl
        | inr h ↦ rw h refl
      ]

  -- Where the frame is not looked at, it is no subject of the row.
  not_subject :
      (f : Frame) (o : Option ℕ) → f.wcid ≡ o → is_wcid w o ≡ false → subject w i f ≡ false
  unfolding subject
  not_subject f o e h = let g = ap (is_wcid w) e ∙ h in ground (arith, g)

  not_looked : (f : Frame) → (not f.decrypted || f.only_monitor) ≡ true → subject w i f ≡ false
  unfolding subject
  not_looked f h = ground arith

  not_later : (f : Frame) → is_later_frag f ≡ true → subject w i f ≡ false
  unfolding subject
  not_later f h = ground arith

  is_subject :
      (f : Frame) (v : ℕ)
      → f.wcid ≡ some v
      → (not f.decrypted || f.only_monitor) ≡ false
      → is_later_frag f ≡ false
      → subject w i f ≡ ((v == w) && (security_idx f == i))
  unfolding subject
  is_subject f v e h g = let q = ap (is_wcid w) e in ground (arith, q)

  check_with-IsChecked :
      (s : ℕ → Keys) (f : Frame) (o : Option ℕ)
      → f.wcid ≡ o
      → (not f.decrypted || f.only_monitor) ≡ false
      → IsKeyed s w
      → IsPn f.iv
      → IsChecked s (check_with s f o).0 f (check_with s f o).1
  unfolding check_with
  check_with-IsChecked s f none e h k p = unchecked s f k (not_subject f none e refl)
  check_with-IsChecked s f (some v) e h k p =
      elim (Bool-cases (not (s v).rx_check_pn || is_later_frag f)) [
        | inl g ↦ rw g (unchecked s f k (passed_over g))
        | inr g ↦ rw g (compare_pn-IsChecked s f v k p (is_subject f v e h (or_right _ _ g)))
      ]
    where
      passed_over : (not (s v).rx_check_pn || is_later_frag f) ≡ true → subject w i f ≡ false
      passed_over g = elim (Bool-cases (is_later_frag f)) [
        | inl q ↦ not_later f q
        | inr q ↦ elim (Bool-cases (v == w)) [
          | inl a ↦ absurd (
              false-true
                (sym (or_left _ _ g q) ∙ (ap (λ x. (s x).rx_check_pn) (==→eq v w a) ∙ k.checks)))
          | inr a ↦ not_subject f (some v) e a
        ]
      ]

  pub check_ccmp_pn-IsChecked :
      (s : ℕ → Keys) (f : Frame)
      → IsKeyed s w
      → IsPn f.iv
      → IsChecked s (check_ccmp_pn s f).0 f (check_ccmp_pn s f).1
  unfolding check_ccmp_pn
  check_ccmp_pn-IsChecked s f k p = elim (Bool-cases (not f.decrypted || f.only_monitor)) [
    | inl h ↦ rw h (unchecked s f k (not_looked f h))
    | inr h ↦ rw h (check_with-IsChecked s f f.wcid refl h k p)
  ]
