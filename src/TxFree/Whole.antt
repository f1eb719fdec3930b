-- ===== src/TxFree/Whole.antt =====
-- mt7921_mac_tx_free as a whole.
use mt.Common.{
  ℕ, suc, Bool, ◌+◌, ◌-◌, ◌%◌, ◌<◌, ◌≡◌, refl, sym, ◌∙◌, ap, subst, arith, true, false, ◌⊎◌, inl,
  inr, Option, none, some, List, ◌++◌, ltb, length, Bool-cases, if_true, if_false,
}
use native.Mathlib.Nat.{mod-lt}
use mt.Kernel.Idr.{IdrOps, IsIdr}
use mt.Token.{Tokens, wake_up}
use mt.Token.Keep.{set-Kept}
use mt.Token.Flow.{System, here, next, reported, Flowing, Reach-Flowing}
use mt.TxFree.{Dev, Res, ok, outside, loop, finish, finished, cleaned, begin, msdu_cnt, tx_free}
use mt.TxFree.Walk.{msdus, pairs, part, handle_all, walked, loop_lem, IsPart, part-IsPart}
use mt.TxFree.Flow.{flow}
use mt.TxFree.Frees.{AllGiven, all-given, all-Flowing}

module _ {S : Type 0} (k : IdrOps S) where
  abbrev pub start : Tokens S → System S
  start d = record { dev = d; wake = false }

  -- The report was worked through up to the end of `ps`: the state is that of its words, one after
  -- the other, the tokens of its frames are free, and no wake-up is lost.
  abbrev pub Worked : Dev S → List ℕ → Res (Dev S) → Type 0
  Worked d ps r =
      let e = finish (handle_all k (begin d) ps) in
      (r ≡ ok e) × AllGiven (k.find e.tokens.token) ps × Flowing S k (start e.tokens)

  -- What becomes of a report for `n` frames.
  abbrev pub Outcome : Dev S → ℕ → List ℕ → Res (Dev S) → Type 0
  Outcome d n ws r =
      (length ws < n) × (r ≡ ok (cleaned d))
      ⊎ ((msdus ws < n) × (r ≡ outside)
          ⊎ ((ps rest : List ℕ) × (ws ≡ ps ++ rest)
              × ((msdus ps ≡ n) ⊎ (pairs ps + n ≡ 256))
              × Worked d ps r))

  module _ (law : IsIdr S k) where
    finish-Worked :
        (d : Dev S) (ps : List ℕ)
        → Flowing S k (start d.tokens)
        → Worked d ps (ok (finish (handle_all k (begin d) ps)))
    unfolding finish wake_up
    finish-Worked d ps v =
        let s = handle_all k (begin d) ps in
        let f = all-Flowing k law ps (begin d) v in
        (
          refl,
          subst (λ t. AllGiven (k.find t) ps) (sym (woken s.dev.tokens s.wake))
              (all-given k law ps (begin d)),
          Reach-Flowing S k law (flow s) _ f (next here reported),
        )
      where
        woken : (t : Tokens S) (b : Bool) → (wake_up t b).token ≡ t.token
        woken t true = (set-Kept t false).token_lem
        woken t false = refl

    of_part :
        (d : Dev S) (n : ℕ) (ws : List ℕ) (o : Option (List ℕ))
        → Flowing S k (start d.tokens)
        → n < 256
        → IsPart n (255 - n) ws o
        → Outcome d n ws (finished (walked k (begin d) o))
    of_part d n ws none v l h = inr (inl (h, refl))
    of_part d n ws (some ps) v l ((rest, e), h) =
        inr (inr (ps, rest, e, ends h, finish-Worked d ps v))
      where
        ends : (msdus ps ≡ n) ⊎ (pairs ps ≡ suc (255 - n)) → (msdus ps ≡ n) ⊎ (pairs ps + n ≡ 256)
        ends (inl m) = inl m
        ends (inr m) = inr (omega (arith, m, l))

    -- For any report of the firmware, from a state whose token count and flow control are in order:
    -- a report with fewer words than it counts frames, in eight of the count's ten bits, is left
    -- alone but for the cleaning of the queues. Else a word beyond the report is read only if its
    -- words stand for fewer frames than it counts. And if none is, the loop ends by its own test,
    -- and has handled the words one after the other up to the last of the frames or to the pair at
    -- which its counter wraps; then the tokens of the frames it came by are free, token count and
    -- flow control are in order, and no wake-up of the queues is lost.
    pub tx_free_lem :
        (d : Dev S) (ctrl : ℕ) (ws : List ℕ)
        → Flowing S k (start d.tokens)
        → Outcome d (msdu_cnt ctrl) ws (tx_free k d ctrl ws)
    unfolding tx_free
    tx_free_lem d ctrl ws v =
        let n = msdu_cnt ctrl in
        let small : n < 256 = mod-lt (ctrl % 1024) (omega arith) in
        elim (Bool-cases (ltb (length ws) n)) [
          | inl e ↦ inl (ground (arith, e), if_true (ltb (length ws) n) _ _ e)
          | inr e ↦
              subst (Outcome d n ws)
                (sym (
                  if_false (ltb (length ws) n) _ _ e
                  ∙ ap finished (
                      ap (λ j. loop k 256 0 j ws (begin d)) (omega arith)
                      ∙ loop_lem k 256 n (255 - n) 0 ws (begin d) (omega (arith, small))
                          (omega (arith, small)))))
                (of_part d n ws (part n (255 - n) ws) v small (part-IsPart ws n (255 - n)))
        ]
