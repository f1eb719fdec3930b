-- ===== src/Power/Rows.antt =====
-- The limits of several rows: counted records, read as the list of rows they stand for.
use mt.Common.{
  Option, ℕ, zero, suc, ◌+◌, ◌-◌, ◌≤◌, ◌≡◌, refl, sym, ◌∙◌, ap, arith, Bool, true, false, some,
  List, [], ◌∷◌, ◌++◌, map, if◌then◌else◌, ◌==◌, ltb, length, take, drop, replicate, get_or,
  length-drop, Bool-cases, if_true, if_false, inl, inr,
}
use mt.Common.Signed.{min8, max8, add8}
use mt.Power.Rates.{and_then, apply_array, apply_array_limit, count_of, first_of, apply_rows}

-- A record is a count and a row of `n` limits, which stands for as many rows as the count says, and
-- for one at least. What is too short for a record stands for nothing. `k` bounds the records.
abbrev pub times : ℕ → ℕ
times cur = if ltb 1 cur then cur else 1

abbrev pub expand : ℕ → ℕ → List ℕ → List (List ℕ)
expand n zero ds = []
expand n (suc k) ds =
    let rest = expand n k (drop (n + 1) ds) in
    if ltb (length ds) (n + 1)
    then []
    else replicate (times (if ltb (get_or ds 0 0) 128 then get_or ds 0 0 else 0))
        (take n (drop 1 ds))
      ++ rest

abbrev pub AllOf : ℕ → List (List ℕ) → Type 0
AllOf n [] = Unit {0}
AllOf n (p ∷ ps) = (length p ≡ n) × AllOf n ps

if_long : (a n : ℕ) → ltb a (n + 1) ≡ false → n + 1 ≤ a
if_long a n e = ground arith

times-suc : (cur : ℕ) → ltb 0 (cur - 1) ≡ true → times cur ≡ suc (times (cur - 1))
times-suc cur g = ground (arith, g)

times-one : (cur : ℕ) → ltb 0 (cur - 1) ≡ false → times cur ≡ 1
times-one cur g = ground (arith, g)

module _ (target delta : ℕ) where
  abbrev pub limit : ℕ → ℕ
  limit d = min8 target (add8 d delta)

  -- The rows `xs`, limited, in place of the first of `ps`.
  abbrev pub overlay : List (List ℕ) → List (List ℕ) → List (List ℕ)
  overlay [] xs = []
  overlay (p ∷ ps) [] = p ∷ ps
  overlay (p ∷ ps) (x ∷ xs) = map limit x ∷ overlay ps xs

  overlay_nil : (ps : List (List ℕ)) → overlay ps [] ≡ ps
  overlay_nil [] = refl
  overlay_nil (p ∷ ps) = refl

  abbrev pub greatest : ℕ → List ℕ → ℕ
  greatest m [] = m
  greatest m (d ∷ ds) = greatest (max8 m (limit d)) ds

  pub apply_array_lem :
      (ps ds : List ℕ) (m : ℕ)
      → length ps ≤ length ds
      → apply_array target delta ps ds m
        ≡ some (map limit (take (length ps) ds), greatest m (take (length ps) ds))
  unfolding apply_array
  apply_array_lem [] ds m h = refl
  apply_array_lem (p ∷ ps) [] m h = ground arith
  apply_array_lem (p ∷ ps) (d ∷ ds) m h =
      ap (λ o. and_then o (λ r. some (limit d ∷ r.0, r.1)))
        (apply_array_lem ps ds (max8 m (limit d)) (omega (arith, h)))

  -- The rows still to come when `cur` is left of the count of the record at hand.
  abbrev pub ahead : ℕ → ℕ → ℕ → List ℕ → List (List ℕ)
  ahead n k cur ds =
      if ltb (length ds) (n + 1)
      then []
      else replicate (times cur) (take n (drop 1 ds)) ++ expand n k (drop (n + 1) ds)

  -- What is ahead once a row is taken.
  behind : ℕ → ℕ → ℕ → List ℕ → Bool → List (List ℕ)
  behind n k cur ds true = ahead n k (cur - 1) ds
  behind n k cur ds false = expand n k (drop (n + 1) ds)

  ahead_cons :
      (n k cur : ℕ) (ds : List ℕ) (c : Bool)
      → ltb 0 (cur - 1) ≡ c
      → ltb (length ds) (n + 1) ≡ false
      → ahead n k cur ds ≡ take n (drop 1 ds) ∷ behind n k cur ds c
  unfolding behind
  ahead_cons n k cur ds true g e =
      if_false (ltb (length ds) (n + 1)) _ _ e
      ∙ (ap (λ t. replicate t (take n (drop 1 ds)) ++ expand n k (drop (n + 1) ds))
            (times-suc cur g)
          ∙ ap (λ r. take n (drop 1 ds) ∷ r) (sym (if_false (ltb (length ds) (n + 1)) _ _ e)))
  ahead_cons n k cur ds false g e =
      if_false (ltb (length ds) (n + 1)) _ _ e
      ∙ ap (λ t. replicate t (take n (drop 1 ds)) ++ expand n k (drop (n + 1) ds)) (times-one cur g)

  first_of_lem :
      {A : Type 0} (ds : List ℕ) (k : ℕ → Option A)
      → (length ds == 0) ≡ false
      → first_of ds k ≡ k (get_or ds 0 0)
  first_of_lem [] k e = ground (arith, e)
  first_of_lem (d ∷ ds) k e = refl

  -- The next record.
  next_lem :
      (n : ℕ) (ps : List (List ℕ)) (k cur : ℕ) (ds : List ℕ) (m : ℕ) (c : Bool)
      → ((k cur : ℕ) (ds : List ℕ) (m : ℕ)
          → length ds ≤ k + (n + 1)
          → apply_rows target delta n ps cur ds m ≡ some (overlay ps (ahead n k cur ds)))
      → length ds ≤ k + (n + 1)
      → (let left = drop (n + 1) ds in
          if c
          then apply_rows target delta n ps (cur - 1) ds m
          else if length left == 0
          then some ps
          else first_of left (λ d. apply_rows target delta n ps (count_of d) left m))
        ≡ some (overlay ps (behind n k cur ds c))
  unfolding behind
  next_lem n ps k cur ds m true ih l = ih k (cur - 1) ds m l
  next_lem n ps zero cur ds m false ih l =
      let q = length-drop (n + 1) ds in
      if_true (length (drop (n + 1) ds) == 0) _ _ (ground (arith, q, l))
      ∙ ap some (sym (overlay_nil ps))
  next_lem n ps (suc k) cur ds m false ih l =
      let d = drop (n + 1) ds in
      let q = length-drop (n + 1) ds in
      elim (Bool-cases (length d == 0)) [
        | inl e ↦
            if_true (length d == 0) _ _ e
            ∙ ap some (
                sym (
                  ap (overlay ps) (if_true (ltb (length d) (n + 1)) _ _ (ground (arith, e)))
                  ∙ overlay_nil ps))
        | inr e ↦
            if_false (length d == 0) _ _ e
            ∙ (first_of_lem d _ e ∙ ih k (count_of (get_or d 0 0)) d m (omega (arith, q, l)))
      ]

  pub apply_rows_lem :
      (n : ℕ) (ps : List (List ℕ)) (k cur : ℕ) (ds : List ℕ) (m : ℕ)
      → AllOf n ps
      → length ds ≤ k + (n + 1)
      → apply_rows target delta n ps cur ds m ≡ some (overlay ps (ahead n k cur ds))
  unfolding apply_rows apply_array_limit
  apply_rows_lem n [] k cur ds m h l = refl
  apply_rows_lem n (p ∷ ps) k cur ds m h l = elim (Bool-cases (ltb (length ds) (n + 1))) [
    | inl e ↦
        if_true (ltb (length ds) (n + 1)) _ _ e
        ∙ ap some (sym (ap (overlay (p ∷ ps)) (if_true (ltb (length ds) (n + 1)) _ _ e)))
    | inr e ↦
        if_false (ltb (length ds) (n + 1)) _ _ e
        ∙ rw
            (apply_array_lem p (drop 1 ds) m
              (omega (arith, length-drop 1 ds, h.0, if_long (length ds) n e)))
            (ap (λ o. and_then o (λ qs. some (map limit (take (length p) (drop 1 ds)) ∷ qs)))
                (next_lem n ps k cur ds _ (ltb 0 (cur - 1))
                  (λ k cur ds m l. apply_rows_lem n ps k cur ds m h.1 l) l)
              ∙ ap some (
                  ap
                    (λ j.
                      map limit (take j (drop 1 ds))
                      ∷ overlay ps (behind n k cur ds (ltb 0 (cur - 1))))
                    h.0
                  ∙ sym (ap (overlay (p ∷ ps)) (ahead_cons n k cur ds (ltb 0 (cur - 1)) refl e))))
  ]
