-- ===== src/Recv/Pn.antt =====
-- Packet numbers of six bytes, and what comparing them by memcmp says.
use mt.Common.{
  ℕ, ◌+◌, ◌*◌, ◌<◌, ◌≡◌, sym, arith, false, List, [], ◌∷◌, ◌==◌, ==→eq, ltb, ltb→lt, lt→ltb,
  Bool-cases, inl, inr,
}
use mt.Recv.{memcmp_gt}

-- The number that bytes stand for, the first the most significant, behind the number `a`.
pub value : ℕ → List ℕ → ℕ
value a [] = a
value a (x ∷ xs) = value (a * 256 + x) xs

abbrev pub AllBytes : List ℕ → Type 0
AllBytes [] = Unit {0}
AllBytes (x ∷ xs) = (x < 256) × AllBytes xs

abbrev pub SameLength : List ℕ → List ℕ → Type 0
SameLength [] [] = Unit {0}
SameLength [] (y ∷ ys) = ⊥
SameLength (x ∷ xs) [] = ⊥
SameLength (x ∷ xs) (y ∷ ys) = SameLength xs ys

value-lt :
    (xs ys : List ℕ) (a b : ℕ) → SameLength xs ys → AllBytes xs → a < b → value a xs < value b ys
unfolding value
value-lt [] [] a b s h lt = lt
value-lt [] (y ∷ ys) a b s h lt = absurd s
value-lt (x ∷ xs) [] a b s h lt = absurd s
value-lt (x ∷ xs) (y ∷ ys) a b s h lt =
    value-lt xs ys (a * 256 + x) (b * 256 + y) s h.1 (omega (arith, h.0))

swapped : (xs ys : List ℕ) → SameLength xs ys → SameLength ys xs
swapped [] [] s = tt
swapped [] (y ∷ ys) s = absurd s
swapped (x ∷ xs) [] s = absurd s
swapped (x ∷ xs) (y ∷ ys) s = swapped xs ys s

not_ltb : (a b : ℕ) → a < b → ltb b a ≡ false
not_ltb a b h = ground arith

less : (x y : ℕ) → (x == y) ≡ false → ltb y x ≡ false → x < y
less x y e q = ground arith

-- memcmp is the order of the numbers.
pub memcmp_lt :
    (xs ys : List ℕ) (a : ℕ)
    → SameLength xs ys
    → AllBytes xs
    → AllBytes ys
    → memcmp_gt xs ys ≡ ltb (value a ys) (value a xs)
unfolding memcmp_gt value
memcmp_lt [] [] a s h g = ground arith
memcmp_lt [] (y ∷ ys) a s h g = absurd s
memcmp_lt (x ∷ xs) [] a s h g = absurd s
memcmp_lt (x ∷ xs) (y ∷ ys) a s h g = elim (Bool-cases (x == y)) [
  | inl e ↦ rw (e, ==→eq x y e) (memcmp_lt xs ys (a * 256 + y) s h.1 g.1)
  | inr e ↦ elim (Bool-cases (ltb y x)) [
    | inl q ↦
        rw (e, q)
          (sym (
            lt→ltb _ _ (
              value-lt ys xs (a * 256 + y) (a * 256 + x) (swapped xs ys s) g.1
                (omega (arith, ltb→lt y x q, g.0)))))
    | inr q ↦
        rw (e, q)
          (sym (
            not_ltb _ _ (
              value-lt xs ys (a * 256 + x) (a * 256 + y) s h.1 (omega (arith, less x y e q, h.0)))))
  ]
]

-- The length of `iv` in struct mt76_rx_status, and of a row of rx_key_pn.
abbrev pub IsPn : List ℕ → Type 0
IsPn xs = SameLength xs (0 ∷ 0 ∷ 0 ∷ 0 ∷ 0 ∷ 0 ∷ []) × AllBytes xs

joined : (xs ys zs : List ℕ) → SameLength xs zs → SameLength ys zs → SameLength xs ys
joined [] [] zs s t = tt
joined [] (y ∷ ys) [] s t = absurd t
joined [] (y ∷ ys) (z ∷ zs) s t = absurd s
joined (x ∷ xs) ys [] s t = absurd s
joined (x ∷ xs) [] (z ∷ zs) s t = absurd t
joined (x ∷ xs) (y ∷ ys) (z ∷ zs) s t = joined xs ys zs s t

abbrev pub number : List ℕ → ℕ
number xs = value 0 xs

pub memcmp_number :
    (xs ys : List ℕ) → IsPn xs → IsPn ys → memcmp_gt xs ys ≡ ltb (number ys) (number xs)
memcmp_number xs ys h g =
    memcmp_lt xs ys 0 (joined xs ys (0 ∷ 0 ∷ 0 ∷ 0 ∷ 0 ∷ 0 ∷ []) h.0 g.0) h.1 g.1
