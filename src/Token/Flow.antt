-- ===== src/Token/Flow.antt =====
-- The flow control of tx.c and mt7902/mac.c: frames take tokens and the firmware's reports give them
-- back, in any order, and between two tokens of a report other frames may take some.
use mt.Common.{
  ℕ, ◌+◌, ◌≤◌, ◌<◌, ◌≡◌, refl, sym, ◌∙◌, arith, Bool, true, false, Option, none, some, Bool-cases,
  Option-cases, inl, inr, leb, ltb,
}
use mt.Kernel.Idr.{IdrOps, IsIdr}
use mt.Token.{
  Tokens, opt_set, same_bool, set_tx_blocked, wants_wake, wake_up, count_up, count_down,
  block_if_few, consume, release, free_thr,
}
use mt.Token.Keep.{block-Kept, set-Kept, Kept-TokenInv, TokenInv, consume_lem, release_lem}

-- `wake` is the variable of mt7921_mac_tx_free.
pub record System (S : Type 0) : Type 0 where
  pub dev : Tokens S
  pub wake : Bool

-- `taken` is a frame that asks for a token; `given` a token of a report; `reported` the end of one.
pub data Step (S : Type 0) (k : IdrOps S) (s : System S) : System S → Type 0 where
  taken : (txwi : ℕ) → Step S k s (record s { dev = (consume k s.dev txwi).0 })
  given :
      (t : ℕ)
      → Step S k s
          (record s { dev = (release k s.dev t s.wake).0; wake = (release k s.dev t s.wake).1.1 })
  reported : Step S k s (record s { dev = wake_up s.dev s.wake; wake = false })

pub data Reach (S : Type 0) (k : IdrOps S) (s : System S) : System S → Type 0 where
  here : Reach S k s s
  next : {u t : System S} → Reach S k s u → Step S k u t → Reach S k s t

-- Few tokens are left.
abbrev pub IsLow : {S : Type 0} → Tokens S → Type 0
IsLow d = d.token_size ≤ d.token_count + free_thr

-- All first queues are alike.
pub record Alike {S : Type 0} (d : Tokens S) : Type 0 where
  pub same1 : d.blocked1 ≡ opt_set d.blocked1 d.blocked
  pub same2 : d.blocked2 ≡ opt_set d.blocked2 d.blocked

pub record Flowing (S : Type 0) (k : IdrOps S) (s : System S) : Type 0 where
  pub valid : TokenInv S k s.dev
  pub alike : Alike s.dev
  pub will_wake :
      s.dev.blocked ≡ true → s.dev.token_count + free_thr < s.dev.token_size → s.wake ≡ true

opt_set-opt_set : (o : Option Bool) (b : Bool) → opt_set o b ≡ opt_set (opt_set o b) b
opt_set-opt_set none b = refl
opt_set-opt_set (some x) b = refl

same_bool→eq : (a b : Bool) → same_bool a b ≡ true → b ≡ a
same_bool→eq true b h = h
same_bool→eq false true h = cc
same_bool→eq false false h = refl

module _ {S : Type 0} where
  pub set_lem :
      (d : Tokens S) (b : Bool)
      → Alike d
      → Alike (set_tx_blocked d b) × ((set_tx_blocked d b).blocked ≡ b)
  unfolding set_tx_blocked
  set_lem d b a = elim (Bool-cases (same_bool b d.blocked)) [
    | inl e ↦ rw e (a, same_bool→eq b d.blocked e)
    | inr e ↦ rw e (
      record { same1 = opt_set-opt_set d.blocked1 b; same2 = opt_set-opt_set d.blocked2 b },
      refl,
    )
  ]

  pub block_lem :
      (d : Tokens S)
      → Alike d
      → Alike (block_if_few d)
        × (IsLow d → (block_if_few d).blocked ≡ true)
        × (d.token_count + free_thr < d.token_size → (block_if_few d).blocked ≡ d.blocked)
  unfolding block_if_few
  block_lem d a = elim (Bool-cases (leb d.token_size (d.token_count + free_thr))) [
    | inl e ↦ rw e (let r = set_lem d true a in (r.0, λ l. r.1, λ u. absurd (ground (arith, e, u))))
    | inr e ↦ rw e (a, λ l. absurd (ground (arith, e, l)), λ u. refl)
  ]

  counted-Alike :
      (d : Tokens S) (s : S) (t : Option ℕ)
      → Alike d
      → Alike (count_up (record d { token = s }) t)
        × ((count_up (record d { token = s }) t).blocked ≡ d.blocked)
        × ((count_up (record d { token = s }) t).token_size ≡ d.token_size)
  unfolding count_up
  counted-Alike d s none a = (record { same1 = a.same1; same2 = a.same2 }, refl, refl)
  counted-Alike d s (some t) a = (record { same1 = a.same1; same2 = a.same2 }, refl, refl)

  uncounted-Alike :
      (d : Tokens S) (s : S) (p : Option ℕ)
      → Alike d
      → Alike (count_down (record d { token = s }) p)
  unfolding count_down
  uncounted-Alike d s none a = record { same1 = a.same1; same2 = a.same2 }
  uncounted-Alike d s (some p) a = record { same1 = a.same1; same2 = a.same2 }

module _ (S : Type 0) (k : IdrOps S) where
  -- mt76_token_consume leaves all first queues alike; they are stopped if few tokens are left, and
  -- are else as they were.
  pub consume_blocks :
      (d : Tokens S) (txwi : ℕ)
      → Alike d
      → let e = (consume k d txwi).0 in
        Alike e
        × (IsLow e → e.blocked ≡ true)
        × (e.token_count + free_thr < e.token_size → e.blocked ≡ d.blocked)
        × (e.token_size ≡ d.token_size)
  unfolding consume
  consume_blocks d txwi a =
      let (s, t) = k.alloc d.token txwi d.token_start (d.token_start + d.token_size) in
      let (like, same, size) = counted-Alike d s t a in
      let c = count_up (record d { token = s }) t in
      let (all, stop, keep) = block_lem c like in
      let q = block-Kept c in
      (
        all,
        λ l. stop (omega (arith, l, q.count_lem, q.size_lem)),
        λ u. keep (omega (arith, u, q.count_lem, q.size_lem)) ∙ same,
        q.size_lem ∙ size,
      )

  module _ (law : IsIdr S k) where
    count_grows :
        (d : Tokens S) (txwi : ℕ)
        → TokenInv S k d
        → d.token_count ≤ (consume k d txwi).0.token_count
    count_grows d txwi v =
        let r = consume_lem S k law d txwi v in
        elim (Option-cases (consume k d txwi).1) [
          | inl e ↦ omega (arith, (r.refused e).1)
          | inr (t, e) ↦ let (lo, hi, free, held, rest, count) = r.taken t e in omega (arith, count)
        ]

    release_wakes :
        (d : Tokens S) (t : ℕ) (wake : Bool)
        → let (e, (p, w)) = release k d t wake in
          e.blocked ≡ true → e.token_count + free_thr < e.token_size → w ≡ true
    unfolding release wants_wake
    release_wakes d t wake b room =
        let e = (release k d t wake).0 in
        let low : ltb (e.token_count + free_thr) e.token_size ≡ true = ground (arith, room) in
        simp (low, b) refl

    reported_lem :
        (d : Tokens S) (wake : Bool)
        → Flowing S k (record { dev = d; wake = wake })
        → Flowing S k (record { dev = wake_up d wake; wake = false })
    unfolding wake_up
    reported_lem d true v =
        let (like, off) = set_lem d false v.alike in
        record {
          valid = Kept-TokenInv S k d (set_tx_blocked d false) (set-Kept d false) v.valid;
          alike = like;
          will_wake = λ b room. cc;
        }
    reported_lem d false v = v

    Step-Flowing : {s t : System S} → Flowing S k s → Step S k s t → Flowing S k t
    unfolding release wake_up
    Step-Flowing {s} v (taken txwi) =
        let (all, stop, keep, size) = consume_blocks s.dev txwi v.alike in
        record {
          valid = (consume_lem S k law s.dev txwi v.valid).valid;
          alike = all;
          will_wake = λ b room.
              v.will_wake (sym (keep room) ∙ b)
                (omega (arith, room, size, count_grows s.dev txwi v.valid));
        }
    Step-Flowing {s} v (given t) = record {
      valid = (release_lem S k law s.dev t s.wake v.valid).valid;
      alike = uncounted-Alike s.dev (k.remove s.dev.token t).0 (k.remove s.dev.token t).1 v.alike;
      will_wake = release_wakes s.dev t s.wake;
    }
    Step-Flowing {s} v reported =
        reported_lem s.dev s.wake
          (record { valid = v.valid; alike = v.alike; will_wake = v.will_wake })

    -- From a state where the count is right, the queues are alike and a stopped queue with tokens to
    -- spare has its wake-up noted, in every order of frames and reports: the count stays the number of
    -- tokens in use, the first queues of the phys stay alike, and no wake-up is lost.
    pub Reach-Flowing : (s t : System S) → Flowing S k s → Reach S k s t → Flowing S k t
    Reach-Flowing s t v here = v
    Reach-Flowing s t v (next {u} r st) = Step-Flowing (Reach-Flowing s u v r) st
