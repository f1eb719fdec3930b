-- ===== src/Util/Poll.antt =====
-- A poll finds the first read that matches, if one comes in time.
use mt.Common.{
  ℕ, zero, suc, ◌+◌, ◌-◌, ◌/◌, ◌≤◌, ◌<◌, ◌≡◌, refl, ◌∙◌, ap, arith, false, Bool-cases, inl, inr,
}
use mt.Util.{Polled, matches, poll_loop, poll, poll_msec}
use native.Mathlib.Decide.{dec_lt}

module _ (rr : ℕ → ℕ) (mask val : ℕ) where
  -- A poll of at most `limit` reads from the n-th on.
  pub record Found (n limit : ℕ) (p : Polled) : Type 0 where
    pub some_read : n < p.reads
    pub in_time : p.reads ≤ n + limit
    pub earlier : (i : ℕ) → n ≤ i → i + 1 < p.reads → matches rr mask val i ≡ false
    pub last_read : matches rr mask val (p.reads - 1) ≡ p.found
    pub gave_up : p.found ≡ false → p.reads ≡ n + limit

  poll_loop_lem : (timeout n : ℕ) → Found n (timeout + 1) (poll_loop rr mask val timeout n)
  unfolding poll_loop
  poll_loop_lem zero n = elim (Bool-cases (matches rr mask val n)) [
    | inl e ↦ rw e (record {
      some_read = omega arith;
      in_time = omega arith;
      earlier = λ i l u. absurd (omega arith);
      last_read = ap (matches rr mask val) (omega arith) ∙ e;
      gave_up = λ h. refl;
    })
    | inr e ↦ rw e (record {
      some_read = omega arith;
      in_time = omega arith;
      earlier = λ i l u. absurd (omega arith);
      last_read = ap (matches rr mask val) (omega arith) ∙ e;
      gave_up = λ h. refl;
    })
  ]
  poll_loop_lem (suc timeout) n = elim (Bool-cases (matches rr mask val n)) [
    | inl e ↦ rw e (record {
      some_read = omega arith;
      in_time = omega arith;
      earlier = λ i l u. absurd (omega arith);
      last_read = ap (matches rr mask val) (omega arith) ∙ e;
      gave_up = λ h. cc;
    })
    | inr e ↦
        let r = poll_loop_lem timeout (n + 1) in
        rw e (record {
          some_read = omega (arith, r.some_read);
          in_time = omega (arith, r.in_time);
          earlier = λ i l u. elim (dec_lt n i) [
            | yes p ↦ r.earlier i (omega arith) u
            | no p ↦ ap (matches rr mask val) (omega arith) ∙ e
          ];
          last_read = r.last_read;
          gave_up = λ h. omega (arith, r.gave_up h);
        })
  ]

  -- __mt76_poll reads the register at least once and at most timeout / 10 + 1 times; it stops at the
  -- first read that matches and then returns true, and returns false only after all of its reads.
  pub poll_lem : (timeout : ℕ) → Found 0 (timeout / 10 + 1) (poll rr mask val timeout)
  unfolding poll
  poll_lem timeout = poll_loop_lem (timeout / 10) 0

  -- ____mt76_poll_msec does the same with at most timeout / tick + 1 reads.
  pub poll_msec_lem :
      (timeout tick : ℕ)
      → 0 < tick
      → Found 0 (timeout / tick + 1) (poll_msec rr mask val timeout tick)
  unfolding poll_msec
  poll_msec_lem timeout tick h = poll_loop_lem (timeout / tick) 0
