-- ===== src/Dma/Rx/Take.antt =====
-- What a round of mt76_dma_rx_process does with a page: mt76_add_fragment and the checks before it.
use mt.Common.{
  ℕ, ◌+◌, ◌≤◌, ◌<◌, ◌≡◌, refl, ap, arith, Bool, true, false, not, ◌&&◌, Option, none, some, List,
  [], ◌∷◌, ◌++◌, ltb, length, length-append, Bool-cases, inl, inr, ltb→lt,
}
use mt.Dma.{Desc}
use mt.Dma.Rx.{
  RxSkb, RxQueue, Rx, Env, bit, get_field, should_drop_buf, opt_free, grown, add_fragment, put_page,
  first_page, page_space, on_head, take_page,
}
use mt.Dma.Rx.Pages.{Holds, uses, uses-append, skb_uses, skb_uses-append, outside}

abbrev pub AllWithin : ℕ → List RxSkb → Type 0
AllWithin m [] = Unit {0}
AllWithin m (s ∷ ss) = (length s.frags ≤ m) × AllWithin m ss

AllWithin-snoc :
    (m : ℕ) (ss : List RxSkb) (s : RxSkb)
    → AllWithin m ss
    → length s.frags ≤ m
    → AllWithin m (ss ++ (s ∷ []))
AllWithin-snoc m [] s h l = (l, tt)
AllWithin-snoc m (x ∷ ss) s h l = (h.0, AllWithin-snoc m ss s h.1 l)

-- No sk_buff has more fragments than it has room for.
pub record Bounded (m : ℕ) (s : Rx) : Type 0 where
  pub head_within : AllWithin m (opt_free s.q.rx_head)
  pub passed_within : AllWithin m s.passed

with_head :
    (q : RxQueue) (h : Option RxSkb) (ps : List ℕ)
    → Holds q ps
    → Holds (record q { rx_head = h }) ps
with_head q h ps v = record {
  tail_in = v.tail_in;
  count_lem = v.count_lem;
  head_lem = v.head_lem;
  fits = v.fits;
  index_fits = v.index_fits;
  cells = v.cells;
}

-- What a page `d` comes to: the ring's pages are as they were, and this page and those of the frame
-- that it ends are somewhere else, each once.
pub record Took (m : ℕ) (s : Rx) (d : ℕ) (t : Rx) : Type 0 where
  pub holds : (ps : List ℕ) → Holds s.q ps → Holds t.q ps
  pub moved : (a : ℕ) → outside a t ≡ outside a s + uses a (d ∷ [])
  pub same_got : t.got ≡ s.got
  pub bounded : Bounded m s → Bounded m t

module _ (env : Env) where
  put_page_lem : (s : Rx) (d : ℕ) → Took env.max_frags s d (put_page env s d)
  put_page_lem s d = record {
    holds = λ ps v. v;
    moved = λ a. omega (arith, uses-append a s.put (d ∷ []));
    same_got = refl;
    bounded = λ b. record { head_within = b.head_within; passed_within = b.passed_within };
  }

  grown_within :
      (skb : RxSkb) (d : ℕ)
      → length skb.frags < env.max_frags
      → length (grown env skb d).frags ≤ env.max_frags
  unfolding grown
  grown_within skb d h = omega (arith, length-append skb.frags (d ∷ []))

  add_fragment_lem :
      (s : Rx) (skb : RxSkb) (d : ℕ) (more : Bool)
      → s.q.rx_head ≡ some skb
      → Took env.max_frags s d (add_fragment env s skb d more)
  unfolding add_fragment grown
  add_fragment_lem s skb d true h =
      let now = λ (a : ℕ). ap (λ o. skb_uses a (opt_free o)) h in
      elim (Bool-cases (ltb (length skb.frags) env.max_frags)) [
        | inl e ↦ rw e (record {
          holds = with_head s.q (some (grown env skb d));
          moved = λ a. omega (arith, now a, uses-append a skb.frags (d ∷ []));
          same_got = refl;
          bounded = λ b. record {
            head_within = (grown_within skb d (ltb→lt _ _ e), tt);
            passed_within = b.passed_within;
          };
        })
        | inr e ↦ rw e (put_page_lem s d)
      ]
  add_fragment_lem s skb d false h =
      let now = λ (a : ℕ). ap (λ o. skb_uses a (opt_free o)) h in
      elim (Bool-cases (ltb (length skb.frags) env.max_frags)) [
        | inl e ↦ rw e (record {
          holds = with_head s.q none;
          moved = λ a. omega (
            arith,
            now a,
            uses-append a skb.frags (d ∷ []),
            skb_uses-append a s.passed (grown env skb d ∷ []),
          );
          same_got = refl;
          bounded = λ b. record {
            head_within = tt;
            passed_within =
                AllWithin-snoc env.max_frags s.passed (grown env skb d) b.passed_within
                  (grown_within skb d (ltb→lt _ _ e));
          };
        })
        | inr e ↦ rw e (record {
          holds = with_head s.q none;
          moved = λ a.
              omega
                (arith, now a, uses-append a s.put (d ∷ []), skb_uses-append a s.freed (skb ∷ []));
          same_got = refl;
          bounded = λ b. record { head_within = tt; passed_within = b.passed_within };
        })
      ]

  first_page_lem :
      (s : Rx) (d len : ℕ) (more : Bool)
      → s.q.rx_head ≡ none
      → Took env.max_frags s d (first_page env s d len more).0
  unfolding first_page
  first_page_lem s d len more h =
      let now = λ (a : ℕ). ap (λ o. skb_uses a (opt_free o)) h in
      let skb : RxSkb = record { first = d; frags = [] } in
      elim (Bool-cases (not more && not (env.rx_check d len))) [
        | inl e ↦ rw e (put_page_lem s d)
        | inr e ↦ elim (Bool-cases (not (env.builds d))) [
          | inl f ↦ rw (e, f) (put_page_lem s d)
          | inr f ↦ elim (Bool-cases more) [
            | inl g ↦
                rw (e, f, g)
                  (record {
                    holds = with_head s.q (some skb);
                    moved = λ a. omega (arith, now a);
                    same_got = refl;
                    bounded = λ b. record {
                      head_within = (omega arith, tt);
                      passed_within = b.passed_within;
                    };
                  })
            | inr g ↦
                rw (e, f, g)
                  (record {
                    holds = λ ps v. v;
                    moved = λ a. omega (arith, skb_uses-append a s.passed (skb ∷ []));
                    same_got = refl;
                    bounded = λ b. record {
                      head_within = b.head_within;
                      passed_within =
                          AllWithin-snoc env.max_frags s.passed skb b.passed_within (omega arith);
                    };
                  })
          ]
        ]
      ]

  on_head_lem :
      (s : Rx) (o : Option RxSkb) (d len : ℕ) (more : Bool)
      → s.q.rx_head ≡ o
      → Took env.max_frags s d (on_head env s o d len more).0
  unfolding on_head
  on_head_lem s none d len more h = first_page_lem s d len more h
  on_head_lem s (some skb) d len more h = add_fragment_lem s skb d more h

  pub take_page_lem : (s : Rx) (d : ℕ) (x : Desc) → Took env.max_frags s d (take_page env s d x).0
  unfolding take_page
  take_page_lem s d x = elim (Bool-cases (should_drop_buf x.ctrl x.buf1 x.info)) [
    | inl e ↦ rw e (put_page_lem s d)
    | inr e ↦
        elim (Bool-cases (ltb (page_space env s.q) (get_field x.ctrl 16 14 + s.q.buf_offset))) [
          | inl f ↦
              rw (e, f)
                (record {
                  holds = with_head s.q none;
                  moved = λ a. omega (
                    arith,
                    uses-append a s.put (d ∷ []),
                    skb_uses-append a s.freed (opt_free s.q.rx_head),
                  );
                  same_got = refl;
                  bounded = λ b. record { head_within = tt; passed_within = b.passed_within };
                })
          | inr f ↦
              rw (e, f)
                (on_head_lem s s.q.rx_head d (get_field x.ctrl 16 14) (not (bit x.ctrl 30)) refl)
        ]
  ]
