-- ===== src/Kernel/Table.antt =====
-- One map that meets the laws of linux/idr.h: a function from ids, searched upwards.
use mt.Common.{
  ℕ, zero, suc, ◌+◌, ◌-◌, ◌≤◌, ◌<◌, ◌≡◌, refl, sym, ◌∙◌, ap, subst, arith, Option, none, some,
  some_inj, Option-cases, inl, inr,
}
use mt.Common.Ring.{update, update-ne, update_self}
use mt.Kernel.Idr.{IdrOps, IsIdr}

abbrev pub Table : Type 0
Table = ℕ → Option ℕ

-- The first free id of `n` from `start` on.
abbrev or_next : Option ℕ → ℕ → Option ℕ → Option ℕ
or_next none t later = some t
or_next (some p) t later = later

abbrev first_free : Table → ℕ → ℕ → Option ℕ
first_free f start zero = none
first_free f start (suc n) = or_next (f start) start (first_free f (start + 1) n)

first_free_lem :
    (f : Table) (start n t : ℕ)
    → first_free f start n ≡ some t
    → (start ≤ t) × (t < start + n) × (f t ≡ none)
first_free_lem f start zero t h = absurd cc
first_free_lem f start (suc n) t h = elim (Option-cases (f start)) [
  | inl e ↦
      let at : start ≡ t = some_inj (sym (simp e refl) ∙ h) in
      (omega arith, omega arith, subst (λ x. f x ≡ none) at e)
  | inr (p, e) ↦
      let (lo, hi, free) = first_free_lem f (start + 1) n t (sym (simp e refl) ∙ h) in
      (omega arith, omega arith, free)
]

abbrev put : Table → ℕ → Option ℕ → Table × Option ℕ
put f p none = (f, none)
put f p (some t) = (update f t (some p), some t)

abbrev pub idr_ops : IdrOps Table
idr_ops = record {
  alloc = λ f p start end. put f p (first_free f start (end - start));
  remove = λ f t. (update f t none, f t);
  find = λ f t. f t;
}

put_some :
    (f : Table) (p t : ℕ) (o : Option ℕ)
    → (put f p o).1 ≡ some t
    → (o ≡ some t) × ((put f p o).0 ≡ update f t (some p))
put_some f p t none h = absurd cc
put_some f p t (some u) h = (h, ap (λ x. update f x (some p)) (some_inj h))

put_none : (f : Table) (p : ℕ) (o : Option ℕ) → (put f p o).1 ≡ none → (put f p o).0 ≡ f
put_none f p none h = refl
put_none f p (some u) h = absurd cc

pub idr_ops-IsIdr : IsIdr Table idr_ops
idr_ops-IsIdr = record {
  alloc_lem = λ f p start end t ord h.
      let (found, table) = put_some f p t (first_free f start (end - start)) h in
      let (lo, hi, free) = first_free_lem f start (end - start) t found in
      (
        lo,
        omega (arith, hi, ord),
        free,
        ap (λ (g : Table). g t) table ∙ update_self f t (some p),
        λ i ne. ap (λ (g : Table). g i) table ∙ update-ne f t i (some p) ne,
      );
  full_lem = λ f p start end h i.
      ap (λ (g : Table). g i) (put_none f p (first_free f start (end - start)) h);
  remove_lem = λ f t. (refl, update_self f t none, λ i ne. update-ne f t i none ne);
}
