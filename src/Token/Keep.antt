-- ===== src/Token/Keep.antt =====
-- What mt76_token_consume and mt76_token_release keep to: the count is the number of tokens in use.
use native.Mathlib.Nat.{mod-eq_of_lt, add-mod_right}
use mt.Common.{
  ℕ, ◌+◌, ◌-◌, ◌%◌, ◌^◌, ◌≤◌, ◌<◌, ◌≡◌, refl, sym, ◌∙◌, ap, arith, Bool, true, Option, none, some,
  Bool-cases, Option-cases, inl, inr, leb, ◌==◌, ==→eq, ==→ne,
}
use native.Mathlib.Decide.{dec_lt}
use mt.Common.Slots.{is_set}
use mt.Kernel.Idr.{IdrOps, IsIdr, Elsewhere}
use mt.Token.{
  Tokens, set_tx_blocked, same_bool, count_up, count_down, block_if_few, consume, release, free_thr,
}
use mt.Token.Count.{in_use, in_use-same, in_use_change, in_use-le}

-- The fields that blocking leaves alone.
pub record Kept {S : Type 0} (d e : Tokens S) : Type 0 where
  pub token_lem : e.token ≡ d.token
  pub count_lem : e.token_count ≡ d.token_count
  pub start_lem : e.token_start ≡ d.token_start
  pub size_lem : e.token_size ≡ d.token_size

module _ {S : Type 0} where
  pub set-Kept : (d : Tokens S) (b : Bool) → Kept d (set_tx_blocked d b)
  unfolding set_tx_blocked
  set-Kept d b = elim (Bool-cases (same_bool b d.blocked)) [
    | inl e ↦
        rw e (record { token_lem = refl; count_lem = refl; start_lem = refl; size_lem = refl })
    | inr e ↦
        rw e (record { token_lem = refl; count_lem = refl; start_lem = refl; size_lem = refl })
  ]

  pub block-Kept : (d : Tokens S) → Kept d (block_if_few d)
  unfolding block_if_few
  block-Kept d = elim (Bool-cases (leb d.token_size (d.token_count + free_thr))) [
    | inl e ↦ rw e (set-Kept d true)
    | inr e ↦
        rw e (record { token_lem = refl; count_lem = refl; start_lem = refl; size_lem = refl })
  ]

module _ (S : Type 0) (k : IdrOps S) where
  -- The count is right, every token is of the configured range, and a u16 can hold the count.
  pub record Counts (s : S) (count start size : ℕ) : Type 0 where
    pub counted : count ≡ in_use (k.find s) (start + size)
    pub below : (i : ℕ) → i < start → k.find s i ≡ none
    pub above : (i : ℕ) → start + size ≤ i → k.find s i ≡ none
    pub fits : size < 2 ^ 16
    pub not_empty : 0 < size

  abbrev pub TokenInv : Tokens S → Type 0
  TokenInv d = Counts d.token d.token_count d.token_start d.token_size

  pub count-le-size : (d : Tokens S) → TokenInv d → d.token_count ≤ d.token_size
  count-le-size d v =
      omega (arith, v.counted, in_use-le (k.find d.token) d.token_start d.token_size v.below)

  pub Kept-TokenInv : (d e : Tokens S) → Kept d e → TokenInv d → TokenInv e
  Kept-TokenInv d e q v = simp (q.token_lem, q.count_lem, q.start_lem, q.size_lem) v

  -- What a consumed token is.
  pub record Consumed (d : Tokens S) (txwi : ℕ) (r : Tokens S × Option ℕ) : Type 0 where
    pub valid : TokenInv r.0
    pub refused :
        r.1 ≡ none
        → ((i : ℕ) → k.find r.0.token i ≡ k.find d.token i) × (r.0.token_count ≡ d.token_count)
    pub taken :
        (t : ℕ)
        → r.1 ≡ some t
        → (d.token_start ≤ t)
          × (t < d.token_start + d.token_size)
          × (k.find d.token t ≡ none)
          × (k.find r.0.token t ≡ some txwi)
          × Elsewhere k d.token r.0.token t
          × (r.0.token_count ≡ d.token_count + 1)

  -- What a released token is.
  pub record Released (d : Tokens S) (t : ℕ) (r : Tokens S × (Option ℕ × Bool)) : Type 0 where
    pub valid : TokenInv r.0
    pub returned : r.1.0 ≡ k.find d.token t
    pub freed : k.find r.0.token t ≡ none
    pub rest : Elsewhere k d.token r.0.token t
    pub count : r.0.token_count + is_set (k.find d.token t) ≡ d.token_count

module _ (S : Type 0) (k : IdrOps S) (law : IsIdr S k) where
  allocated :
      (d : Tokens S) (txwi t : ℕ)
      → TokenInv S k d
      → let r = k.alloc d.token txwi d.token_start (d.token_start + d.token_size) in
        r.1 ≡ some t
        → Counts S k r.0 ((d.token_count + 1) % 2 ^ 16) d.token_start d.token_size
          × ((d.token_count + 1) % 2 ^ 16 ≡ d.token_count + 1)
  allocated d txwi t v e =
      let (lo, hi, free, here, rest) =
        law.alloc_lem d.token txwi d.token_start (d.token_start + d.token_size) t
          (omega (arith, v.not_empty)) e in
      let s = (k.alloc d.token txwi d.token_start (d.token_start + d.token_size)).0 in
      let change =
        in_use_change (k.find d.token) (k.find s) t (d.token_start + d.token_size) hi rest in
      let below : (i : ℕ) → i < d.token_start → k.find s i ≡ none =
        λ i l. rest i (omega (arith, lo, l)) ∙ v.below i l in
      let more : in_use (k.find s) (d.token_start + d.token_size) ≡ d.token_count + 1 =
        omega (arith, v.counted, change, ap is_set free, ap is_set here) in
      let small = in_use-le (k.find s) d.token_start d.token_size below in
      let exact : (d.token_count + 1) % 2 ^ 16 ≡ d.token_count + 1 =
        mod-eq_of_lt (omega (arith, more, small, v.fits)) in
      (
        record {
          counted = exact ∙ sym more;
          below = below;
          above = λ i l. rest i (omega (arith, hi, l)) ∙ v.above i l;
          fits = v.fits;
          not_empty = v.not_empty;
        },
        exact,
      )

  not_allocated :
      (d : Tokens S) (txwi : ℕ)
      → TokenInv S k d
      → let r = k.alloc d.token txwi d.token_start (d.token_start + d.token_size) in
        r.1 ≡ none → Counts S k r.0 d.token_count d.token_start d.token_size
  not_allocated d txwi v e =
      let end = d.token_start + d.token_size in
      let same = law.full_lem d.token txwi d.token_start end e in
      let s = (k.alloc d.token txwi d.token_start end).0 in
      record {
        counted = v.counted ∙ sym (in_use-same (k.find d.token) (k.find s) end (λ i l. same i));
        below = λ i l. same i ∙ v.below i l;
        above = λ i l. same i ∙ v.above i l;
        fits = v.fits;
        not_empty = v.not_empty;
      }

  -- mt76_token_consume gives a token of the range that was free and now stands for the frame, the
  -- other tokens are as they were and the count is one more, without wrapping; or no token changes.
  -- The count is still the number of tokens in use.
  pub consume_lem :
      (d : Tokens S) (txwi : ℕ) → TokenInv S k d → Consumed S k d txwi (consume k d txwi)
  unfolding consume count_up
  consume_lem d txwi v =
      let end = d.token_start + d.token_size in
      let s = (k.alloc d.token txwi d.token_start end).0 in
      elim (Option-cases (k.alloc d.token txwi d.token_start end).1) [
        | inl e ↦
            let q = block-Kept (record d { token = s }) in
            rw e (record {
              valid = Kept-TokenInv S k (record d { token = s }) _ q (not_allocated d txwi v e);
              refused = λ h. (
                λ i.
                    ap (λ x. k.find x i) q.token_lem
                    ∙ law.full_lem d.token txwi d.token_start end e i,
                q.count_lem,
              );
              taken = λ t h. cc;
            })
        | inr (t, e) ↦
            let d' : Tokens S = record d {
              token = s;
              token_count = (d.token_count + 1) % 2 ^ 16;
            } in
            let q = block-Kept d' in
            let (good, exact) = allocated d txwi t v e in
            rw e (record {
              valid = Kept-TokenInv S k d' _ q good;
              refused = λ h. cc;
              taken = λ t' h.
                  let (lo, hi, free, here, rest) =
                    law.alloc_lem d.token txwi d.token_start end t' (omega (arith, v.not_empty))
                      (e ∙ h) in
                  (
                    lo,
                    hi,
                    free,
                    ap (λ x. k.find x t') q.token_lem ∙ here,
                    λ i ne. ap (λ x. k.find x i) q.token_lem ∙ rest i ne,
                    q.count_lem ∙ exact,
                  );
            })
      ]

  removed :
      (d : Tokens S) (t : ℕ)
      → TokenInv S k d
      → let s = (k.remove d.token t).0 in
        (in_use (k.find s) (d.token_start + d.token_size) + is_set (k.find d.token t)
          ≡ d.token_count)
        × ((i : ℕ) → k.find d.token i ≡ none → k.find s i ≡ none)
  removed d t v =
      let (given, gone, rest) = law.remove_lem d.token t in
      let s = (k.remove d.token t).0 in
      (
        elim (dec_lt t (d.token_start + d.token_size)) [
          | yes p ↦ omega (
            arith,
            v.counted,
            in_use_change (k.find d.token) (k.find s) t (d.token_start + d.token_size) p rest,
            ap is_set gone,
          )
          | no p ↦ omega (
            arith,
            v.counted,
            in_use-same (k.find d.token) (k.find s) (d.token_start + d.token_size)
                (λ i l. rest i (omega arith)),
            ap is_set (v.above t (omega arith)),
          )
        ],
        λ i h. elim (Bool-cases (i == t)) [
          | inl e ↦ ap (k.find s) (==→eq i t e) ∙ gone
          | inr e ↦ rest i (==→ne i t e) ∙ h
        ],
      )

  Counts-removed :
      (d : Tokens S) (t n : ℕ)
      → TokenInv S k d
      → n + is_set (k.find d.token t) ≡ d.token_count
      → Counts S k (k.remove d.token t).0 n d.token_start d.token_size
  Counts-removed d t n v c =
      let (count, still) = removed d t v in
      record {
        counted = omega (arith, c, count);
        below = λ i l. still i (v.below i l);
        above = λ i l. still i (v.above i l);
        fits = v.fits;
        not_empty = v.not_empty;
      }

  -- mt76_token_release gives what the token stood for, frees the token and no other, and lowers the
  -- count by one if it was in use, without wrapping; the count is still the number of tokens in use.
  pub release_lem :
      (d : Tokens S) (t : ℕ) (wake : Bool) → TokenInv S k d → Released S k d t (release k d t wake)
  unfolding release count_down
  release_lem d t wake v =
      let (given, gone, rest) = law.remove_lem d.token t in
      elim (Option-cases (k.remove d.token t).1) [
        | inl e ↦
            let count : d.token_count + is_set (k.find d.token t) ≡ d.token_count =
              omega (arith, ap is_set (sym given ∙ e)) in
            rw e (record {
              valid = Counts-removed d t d.token_count v count;
              returned = sym e ∙ given;
              freed = gone;
              rest = rest;
              count = count;
            })
        | inr (p, e) ↦
            let used = ap is_set (sym given ∙ e) in
            let some_used : 0 < d.token_count = omega (arith, (removed d t v).0, used) in
            let small = count-le-size S k d v in
            let down : (d.token_count + 2 ^ 16 - 1) % 2 ^ 16 ≡ d.token_count - 1 =
              ap (λ x. x % 2 ^ 16) (omega arith)
              ∙ (add-mod_right (d.token_count - 1) (2 ^ 16)
                  ∙ mod-eq_of_lt (omega (arith, small, v.fits))) in
            let count : (d.token_count + 2 ^ 16 - 1) % 2 ^ 16 + is_set (k.find d.token t)
                ≡ d.token_count =
              omega (arith, down, used, some_used) in
            rw e (record {
              valid = Counts-removed d t ((d.token_count + 2 ^ 16 - 1) % 2 ^ 16) v count;
              returned = sym e ∙ given;
              freed = gone;
              rest = rest;
              count = count;
            })
      ]
