-- ===== src/Dma/Rx/Pages.antt =====
-- A receive ring as a queue of pages, and where pages are.
use native.Mathlib.Nat.{mod-lt, mod-eq_of_lt, mod-add-mod}
use mt.Common.{
  ℕ, suc, ◌+◌, ◌%◌, ◌^◌, ◌≤◌, ◌<◌, ◌≡◌, refl, sym, ◌∙◌, ap, ap₂, arith, Option, none, some, List,
  [], ◌∷◌, ◌++◌, map, if◌then◌else◌, ◌==◌, length, length-append,
}
use mt.Common.Ring.{at, at-ne, at-step, at-zero, update, update_self, span, span-suc, span-update}
use mt.Dma.Rx.{RxSkb, RxQueue, Rx, Env, next_idx, add_rx_buf, popped, opt_free}

-- The ring holds the pages `ps`, oldest first.
pub record Holds (q : RxQueue) (ps : List ℕ) : Type 0 where
  pub tail_in : q.tail < q.ndesc
  pub count_lem : q.queued ≡ length ps
  pub head_lem : q.head ≡ at q.ndesc q.tail (length ps)
  pub fits : length ps ≤ q.ndesc
  pub index_fits : q.ndesc ≤ 2 ^ 16
  pub cells : span q.page q.ndesc q.tail (length ps) ≡ map some ps

next_idx_lem :
    (q : RxQueue) (i : ℕ) → 0 < q.ndesc → q.ndesc ≤ 2 ^ 16 → next_idx q i ≡ (i + 1) % q.ndesc
next_idx_lem q i h small = mod-eq_of_lt (omega (arith, mod-lt (i + 1) h))

map-snoc : (ps : List ℕ) (d : ℕ) → map some ps ++ (some d ∷ []) ≡ map some (ps ++ (d ∷ []))
map-snoc [] d = refl
map-snoc (p ∷ ps) d = ap (λ l. some p ∷ l) (map-snoc ps d)

-- A write at the head extends a stretch.
push_span :
    (f : ℕ → Option ℕ) (n t k h : ℕ) (v : Option ℕ)
    → t < n
    → k < n
    → h ≡ at n t k
    → span (update f h v) n t (suc k) ≡ span f n t k ++ (v ∷ [])
push_span f n t k h v ht hk e =
    span-suc (update f h v) n t k ht
    ∙ ap₂ (λ xs x. xs ++ (x ∷ []))
        (span-update f n t k h v
          (λ i l eq. at-ne n t i k ht (omega arith) hk (omega arith) (eq ∙ e)) ht)
        (ap (update f h v) (sym e) ∙ update_self f h v)

module _ (env : Env) where
  pub add_rx_buf_lem :
      (q : RxQueue) (ps : List ℕ) (addr len d : ℕ)
      → Holds q ps
      → length ps < q.ndesc
      → Holds (add_rx_buf env q addr len d) (ps ++ (d ∷ []))
  unfolding add_rx_buf
  add_rx_buf_lem q ps addr len d v room =
      let more : length (ps ++ (d ∷ [])) ≡ suc (length ps) =
        omega (arith, length-append ps (d ∷ [])) in
      record {
        tail_in = v.tail_in;
        count_lem = omega (arith, v.count_lem, more);
        head_lem =
            next_idx_lem q q.head (omega (arith, v.tail_in)) v.index_fits
            ∙ (ap (λ x. (x + 1) % q.ndesc) v.head_lem
                ∙ (mod-add-mod (q.tail + length ps) q.ndesc 1
                    ∙ ap (λ x. x % q.ndesc) (omega (arith, more))));
        fits = omega (arith, more, room);
        index_fits = v.index_fits;
        cells =
            ap (span (update q.page q.head (some d)) q.ndesc q.tail) more
            ∙ (push_span q.page q.ndesc q.tail (length ps) q.head (some d) v.tail_in room v.head_lem
                ∙ (ap (λ l. l ++ (some d ∷ [])) v.cells ∙ map-snoc ps d));
      }

  pub popped_lem :
      (q : RxQueue) (d : ℕ) (ps : List ℕ)
      → Holds q (d ∷ ps)
      → (q.page q.tail ≡ some d) × Holds (popped env q) ps
  popped_lem q d ps v =
      let next = next_idx_lem q q.tail (omega (arith, v.tail_in)) v.index_fits in
      let rest : span q.page q.ndesc ((q.tail + 1) % q.ndesc) (length ps) ≡ map some ps =
        cc (v.cells) in
      (
        cc (v.cells),
        record {
          tail_in = rw next (mod-lt (q.tail + 1) (omega (arith, v.tail_in)));
          count_lem = omega (arith, v.count_lem);
          head_lem =
              v.head_lem
              ∙ (ap (at q.ndesc q.tail) (omega arith)
                  ∙ (sym (at-step q.ndesc q.tail (length ps))
                      ∙ ap (λ x. at q.ndesc x (length ps)) (sym next)));
          fits = omega (arith, v.fits);
          index_fits = v.index_fits;
          cells =
              ap (λ x. span (update q.page q.tail none) q.ndesc x (length ps)) next
              ∙ (span-update q.page q.ndesc ((q.tail + 1) % q.ndesc) (length ps) q.tail none
                    (λ i l eq.
                      at-ne q.ndesc q.tail (i + 1) 0 v.tail_in (omega (arith, v.fits))
                        (omega (arith, v.tail_in)) (omega arith)
                        (sym (at-step q.ndesc q.tail i)
                          ∙ (eq ∙ sym (at-zero q.ndesc q.tail v.tail_in))))
                    (mod-lt (q.tail + 1) (omega (arith, v.tail_in)))
                  ∙ rest);
        },
      )

-- How often the page `p` is among `pages`.
abbrev pub uses : (p : ℕ) → (pages : List ℕ) → ℕ
uses p [] = 0
uses p (page ∷ pages) = uses p pages + (if p == page then 1 else 0)

pub uses-append :
    (p : ℕ) (front back : List ℕ) → uses p (front ++ back) ≡ uses p front + uses p back
uses-append p [] back = omega arith
uses-append p (page ∷ front) back = omega (arith, uses-append p front back)

abbrev pub skb_uses : ℕ → List RxSkb → ℕ
skb_uses a [] = 0
skb_uses a (s ∷ ss) = uses a (s.first ∷ s.frags) + skb_uses a ss

pub skb_uses-append :
    (a : ℕ) (xs ys : List RxSkb) → skb_uses a (xs ++ ys) ≡ skb_uses a xs + skb_uses a ys
skb_uses-append a [] ys = omega arith
skb_uses-append a (x ∷ xs) ys = omega (arith, skb_uses-append a xs ys)

-- How often a page is in an sk_buff or has been put back.
abbrev pub outside : ℕ → Rx → ℕ
outside a s =
    skb_uses a (opt_free s.q.rx_head) + (skb_uses a s.passed + (skb_uses a s.freed + uses a s.put))
