-- ===== src/TxFree/Flow.antt =====
-- What each part of mt7921_mac_tx_free does to the tokens.
use mt.Common.{
  ℕ, ◌≡◌, refl, ◌∙◌, ap, Bool, true, false, not, ◌||◌, Option, none, some, [], ◌∷◌, ◌++◌,
  if◌then◌else◌,
}
use mt.Kernel.Idr.{IdrOps}
use mt.Token.{release}
use mt.Token.Flow.{System}
use mt.Common.Ring.{update}
use mt.TxFree.{
  check_aggr, complete, unmap, Wcid, Dev, State, msdu_id, wlan_id, wcid_to_sta, act, add_poll_with,
  wcid_add_poll, complete_for, free_unnamed, free_skb, txwi_free, count_stats, freed, poll_if,
  new_pair, one_msdu,
}

module _ {S : Type 0} where
  add_poll-tokens : (d : Dev S) (w : ℕ) (o : Option Wcid) → (add_poll_with d w o).tokens ≡ d.tokens
  unfolding add_poll_with
  add_poll-tokens d w none = refl
  add_poll-tokens d w (some x) =
      elim (d.mcu_reset || not x.sta)
        as (λ b.
          (if b then d else if x.polled then d else record d {
            wcid = update d.wcid w (some (record x { polled = true }));
            sta_poll_list = d.sta_poll_list ++ (w ∷ []);
          }).tokens
          ≡ d.tokens) [
            | true ↦ refl
            | false ↦
                elim x.polled
                  as (λ b.
                    (if b then d else record d {
                      wcid = update d.wcid w (some (record x { polled = true }));
                      sta_poll_list = d.sta_poll_list ++ (w ∷ []);
                    }).tokens
                    ≡ d.tokens) [ true ↦ refl | false ↦ refl ]
          ]

  complete-tokens :
      (d : Dev S) (t skb idx : ℕ) (o : Option ℕ) → (complete_for d t skb idx o).tokens ≡ d.tokens
  unfolding complete_for
  complete-tokens d t skb idx none = refl
  complete-tokens d t skb idx (some w) = by (d.txwi t).is_pae
    where
      by :
          (b : Bool)
          → (if not b
              then act (act d (check_aggr w t)) (complete idx skb)
              else act d (complete idx skb)).tokens
            ≡ d.tokens
      by true = refl
      by false = refl

  unnamed-tokens :
      (d : Dev S) (t skb idx : ℕ) (o : Option Wcid) → (free_unnamed d t skb idx o).tokens ≡ d.tokens
  unfolding free_unnamed wcid_add_poll
  unnamed-tokens d t skb idx none = complete-tokens d t skb idx none
  unnamed-tokens d t skb idx (some x) = by x.sta
    where
      by :
          (b : Bool)
          → (if b
              then complete_for (add_poll_with d idx (d.wcid idx)) t skb idx (some idx)
              else complete_for d t skb idx none).tokens
            ≡ d.tokens
      by true =
          complete-tokens (add_poll_with d idx (d.wcid idx)) t skb idx (some idx)
          ∙ add_poll-tokens d idx (d.wcid idx)
      by false = complete-tokens d t skb idx none

  skb-tokens : (d : Dev S) (t : ℕ) (o sta : Option ℕ) → (free_skb d t o sta).tokens ≡ d.tokens
  unfolding free_skb
  skb-tokens d t none sta = refl
  skb-tokens d t (some skb) (some w) = complete-tokens d t skb w (some w)
  skb-tokens d t (some skb) none =
      unnamed-tokens d t skb (d.txwi t).wlan_idx (d.wcid (d.txwi t).wlan_idx)

  freed-tokens : (d : Dev S) (p sta : Option ℕ) → (freed d p sta).tokens ≡ d.tokens
  unfolding freed txwi_free
  freed-tokens d none sta = refl
  freed-tokens d (some t) sta = skb-tokens (act d (unmap t)) t (d.txwi t).skb sta

  count-tokens : (d : Dev S) (o : Option ℕ) (w : ℕ) → (count_stats d o w).tokens ≡ d.tokens
  unfolding count_stats
  count-tokens d none w = refl
  count-tokens d (some x) w = refl

  poll-tokens : (d : Dev S) (idx : ℕ) (o : Option ℕ) → (poll_if d idx o).tokens ≡ d.tokens
  unfolding wcid_add_poll
  poll-tokens d idx none = refl
  poll-tokens d idx (some w) = add_poll-tokens d idx (d.wcid idx)

  -- The tokens as the loop has them.
  abbrev pub flow : State S → System S
  flow s = record { dev = s.dev.tokens; wake = s.wake }

  abbrev pub gave : IdrOps S → System S → ℕ → System S
  gave k s t = record { dev = (release k s.dev t s.wake).0; wake = (release k s.dev t s.wake).1.1 }

  pub pair-flow : (s : State S) (w : ℕ) → flow (new_pair s w) ≡ flow s
  unfolding new_pair
  pair-flow s w =
      ap (λ d. record { dev = d; wake = s.wake })
        (poll-tokens s.dev (wlan_id w) (wcid_to_sta (s.dev.wcid (wlan_id w)) (wlan_id w)))

  pub msdu-flow :
      (k : IdrOps S) (s : State S) (w : ℕ) → flow (one_msdu k s w) ≡ gave k (flow s) (msdu_id w)
  unfolding one_msdu
  msdu-flow k s w =
      let d = count_stats s.dev s.wcid w in
      let r = release k d.tokens (msdu_id w) s.wake in
      ap (λ e. record { dev = e; wake = r.1.1 })
        (freed-tokens (record d { tokens = r.0 }) r.1.0 s.sta)
      ∙ ap (λ e. gave k (record { dev = e; wake = s.wake }) (msdu_id w))
          (count-tokens s.dev s.wcid w)
