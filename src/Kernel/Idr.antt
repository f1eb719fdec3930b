-- ===== src/Kernel/Idr.antt =====
-- linux/idr.h as tx.c uses it: a map from small integers to pointers.
use mt.Common.{ℕ, ◌≤◌, ◌<◌, ◌≡◌, ◌≢◌, Option, none, some}

-- idr_alloc (`none` for a negative result), idr_remove and idr_find (`none` for NULL).
pub record IdrOps (S : Type 0) : Type 0 where
  pub alloc : S → ℕ → ℕ → ℕ → S × Option ℕ
  pub remove : S → ℕ → S × Option ℕ
  pub find : S → ℕ → Option ℕ

-- What changes at no other id.
abbrev pub Elsewhere : {S : Type 0} → IdrOps S → S → S → ℕ → Type 0
Elsewhere k s s' t = (i : ℕ) → i ≢ t → k.find s' i ≡ k.find s i

-- idr_alloc gives an unused id of the range [start, end) or changes nothing; idr_remove gives what
-- the id held and frees it.
pub record IsIdr (S : Type 0) (k : IdrOps S) : Type 0 where
  pub alloc_lem :
      (s : S) (p start end t : ℕ)
      → start < end
      → (k.alloc s p start end).1 ≡ some t
      → (start ≤ t)
        × (t < end)
        × (k.find s t ≡ none)
        × (k.find (k.alloc s p start end).0 t ≡ some p)
        × Elsewhere k s (k.alloc s p start end).0 t
  pub full_lem :
      (s : S) (p start end : ℕ)
      → (k.alloc s p start end).1 ≡ none
      → (i : ℕ) → k.find (k.alloc s p start end).0 i ≡ k.find s i
  pub remove_lem :
      (s : S) (t : ℕ)
      → ((k.remove s t).1 ≡ k.find s t)
        × (k.find (k.remove s t).0 t ≡ none)
        × Elsewhere k s (k.remove s t).0 t
