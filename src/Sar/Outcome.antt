-- ===== src/Sar/Outcome.antt =====
-- What is known of the results of reading tables.
use mt.Common.{
  ℕ, zero, suc, ◌≤◌, ◌<◌, ◌≡◌, refl, arith, Bool, true, false, Option, none, some, List, [], ◌∷◌,
  if◌then◌else◌, length, get_elem?, get_or,
}
use mt.Sar.{Res, ok, err, outside, byte, then_with, or_null}

-- A result with `P` of its value, where a read beyond a table entails `Q`.
abbrev pub Outcome : {A : Type 0} → (A → Type 0) → Type 0 → Res A → Type 0
Outcome P Q (ok x) = P x
Outcome P Q (err e) = Unit {0}
Outcome P Q outside = Q

-- A result, where a read beyond a table entails `Q`: not an error.
abbrev pub Reads : {A : Type 0} → (A → Type 0) → Type 0 → Res A → Type 0
Reads P Q (ok x) = P x
Reads P Q (err e) = ⊥
Reads P Q outside = Q

-- A value, with `P` of it: neither an error nor a read beyond a table.
abbrev pub Yields : {A : Type 0} → (A → Type 0) → Res A → Type 0
Yields P r = Reads P ⊥ r

pub map-Reads :
    {A : Type 0} (P R : A → Type 0) (Q S : Type 0) (r : Res A)
    → ((x : A) → P x → R x)
    → (Q → S)
    → Reads P Q r
    → Reads R S r
map-Reads P R Q S (ok x) f g h = f x h
map-Reads P R Q S (err e) f g h = h
map-Reads P R Q S outside f g h = g h

abbrev pub AllBytes : List ℕ → Type 0
AllBytes [] = Unit {0}
AllBytes (b ∷ bs) = (b < 256) × AllBytes bs

module _ {A B : Type 0} (P : A → Type 0) (R : B → Type 0) (Q : Type 0) where
  pub then-Outcome :
      (r : Res A) (k : A → Res B)
      → Outcome P Q r
      → ((x : A) → P x → Outcome R Q (k x))
      → Outcome R Q (then_with r k)
  then-Outcome (ok x) k h f = f x h
  then-Outcome (err e) k h f = tt
  then-Outcome outside k h f = h

module _ {A : Type 0} (P : A → Type 0) (Q : Type 0) where
  pub with_equation : (r : Res A) → Outcome P Q r → Outcome (λ x. P x × (r ≡ ok x)) Q r
  with_equation (ok x) h = (h, refl)
  with_equation (err e) h = tt
  with_equation outside h = h

  abbrev pub OrNull : Option A → Type 0
  OrNull none = Unit {0}
  OrNull (some x) = P x

  pub null-Outcome : (r : Res A) → Outcome P Q r → Outcome OrNull Q (or_null r)
  null-Outcome (ok x) h = h
  null-Outcome (err e) h = tt
  null-Outcome outside h = h

  pub if-Outcome :
      (c : Bool) (x y : Res A)
      → (c ≡ true → Outcome P Q x)
      → (c ≡ false → Outcome P Q y)
      → Outcome P Q (if c then x else y)
  if-Outcome true x y f g = f refl
  if-Outcome false x y f g = g refl

  pub byte-Outcome :
      (t : List ℕ) (i : ℕ) (k : ℕ → Res A)
      → (length t ≤ i → Q)
      → ((b : ℕ) → get_elem? t i ≡ some b → Outcome P Q (k b))
      → Outcome P Q (byte t i k)
  byte-Outcome [] i k q f = q (omega arith)
  byte-Outcome (x ∷ t) zero k q f = f x refl
  byte-Outcome (x ∷ t) (suc i) k q f = byte-Outcome t i k (λ h. q (omega arith)) f

pub null_then :
    {A B : Type 0} (Q : Type 0) (P : A → Type 0) (R : B → Type 0) (r : Res A) (k : Option A → Res B)
    → Outcome P Q r
    → ((o : Option A) → OrNull P Q o → Outcome R Q (k o))
    → Outcome R Q (then_with (or_null r) k)
null_then Q P R r k h f = then-Outcome (OrNull P Q) R Q (or_null r) k (null-Outcome P Q r h) f

pub lift : {A : Type 0} (P : A → Type 0) (Q : Type 0) (r : Res A) → Outcome P ⊥ r → Outcome P Q r
lift P Q (ok x) h = h
lift P Q (err e) h = tt
lift P Q outside h = absurd h

pub weaken :
    {A : Type 0} (P R : A → Type 0) (r : Res A)
    → ((x : A) → P x → R x)
    → Outcome P ⊥ r
    → Outcome R ⊥ r
weaken P R (ok x) f h = f x h
weaken P R (err e) f h = tt
weaken P R outside f h = h

-- A byte inside the table.
pub byte-Reads :
    {B : Type 0} (P : B → Type 0) (Q : Type 0) (t : List ℕ) (i : ℕ) (k : ℕ → Res B)
    → i < length t
    → Reads P Q (k (get_or t i 0))
    → Reads P Q (byte t i k)
byte-Reads P Q [] i k h o = elim h [ ]
byte-Reads P Q (x ∷ t) zero k h o = o
byte-Reads P Q (x ∷ t) (suc i) k h o = byte-Reads P Q t i k (omega (arith, h)) o
