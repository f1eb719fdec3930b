-- ===== src/Chan/Ended.antt =====
-- What mt76_roc_complete makes of a phy that remains on a channel.
use mt.Common.{
  ℕ, ◌+◌, ◌≡◌, ◌≢◌, refl, sym, ◌∙◌, ap, Bool, true, false, List, [], ◌∷◌, ◌++◌, Option, none, some,
  if◌then◌else◌, ◌==◌, Bool-cases, inl, inr, ==→eq, ==→ne, ==_refl,
}
use mt.Common.Ring.{update_self}
use mt.Chan.{
  Vif, Action, Dev, Env, act, set_phy, set_vif, set_channel, put_vif_phy_link, to_main,
  clear_roc_phy, link_at, no_roc, roc_complete, roc_complete_with, roc_expired,
}
use mt.Chan.Taken.{IsTaken, IsPut}
use mt.Chan.Near.{Near, set_vif-Near, set_phy-Near, put_vif_phy_link-Near}

-- The device of before: `c` has the links, interfaces, phys, contexts and scan of `d`, and phy `p`,
-- which is free, keeps its main channel and its context.
pub record Restored (d c : Dev) (p : ℕ) : Type 0 where
  pub restored_link : (i : ℕ) → c.link i ≡ d.link i
  pub restored_vif : (i : ℕ) → c.vif i ≡ d.vif i
  pub restored_other : (q : ℕ) → q ≢ p → c.phy q ≡ d.phy q
  pub restored_main : (c.phy p).main_chan ≡ (d.phy p).main_chan
  pub restored_chanctx : (c.phy p).chanctx ≡ (d.phy p).chanctx
  pub restored_radar : (c.phy p).radar_enabled ≡ (d.phy p).radar_enabled
  pub is_free : ((c.phy p).roc_vif ≡ none) × ((c.phy p).roc_link ≡ none)
  pub restored_ctx : (i : ℕ) → c.ctx_phy i ≡ d.ctx_phy i
  pub restored_reset : c.mcu_reset ≡ d.mcu_reset
  pub restored_scan :
      (c.scan_phy ≡ d.scan_phy) × (c.scan_vif ≡ d.scan_vif) × (c.scan_link ≡ d.scan_link)

vif_eq :
    (x y : Vif)
    → x.links ≡ y.links
    → x.offchannel_link ≡ y.offchannel_link
    → x.roc_phy ≡ y.roc_phy
    → x ≡ y
vif_eq x y l o r =
    ap (λ t. record x { links = t }) l
    ∙ (ap (λ t. record x { links = y.links; offchannel_link = t }) o
        ∙ ap (λ t. record y { roc_phy = t }) r)

module _ (d c : Dev) (p v : ℕ) (idle : (d.vif v).roc_phy ≡ none) where
  roc_everywhere :
      Near d d c p v → (c.vif v).roc_phy ≡ none → (i : ℕ) → (c.vif i).roc_phy ≡ (d.vif i).roc_phy
  roc_everywhere n h i = elim (Bool-cases (i == v)) [
    | inl e ↦ rw (==→eq i v e) (h ∙ sym idle)
    | inr e ↦ n.near_roc i (==→ne i v e)
  ]

  pub Near-Restored :
      Near d d c p v
      → (c.vif v).roc_phy ≡ none
      → (c.phy p).roc_vif ≡ none
      → (c.phy p).roc_link ≡ none
      → Restored d c p
  Near-Restored n h f g = record {
    restored_link = n.near_link;
    restored_vif =
        λ i. vif_eq (c.vif i) (d.vif i) (n.near_links i) (n.near_off i) (roc_everywhere n h i);
    restored_other = n.near_other;
    restored_main = n.near_main;
    restored_chanctx = n.near_chanctx;
    restored_radar = n.near_radar;
    is_free = (f, g);
    restored_ctx = n.near_ctx;
    restored_reset = n.near_reset;
    restored_scan = n.near_scan;
  }

module _ (env : Env) (d a : Dev) (p v l : ℕ) (t : IsTaken d a p v l) where
  to_main-Near :
      (b : Dev) (o : Option ℕ)
      → o ≡ (b.phy p).main_chan
      → Near d a b p v
      → Near d a (to_main env b p o) p v
  unfolding to_main set_channel
  to_main-Near b none e n = n
  to_main-Near b (some c) e n =
      elim b.mcu_reset as (λ r. Near d a (if r then b else (set_channel env b p c false).0) p v) [
        | true ↦ n
        | false ↦ set_phy-Near d a p v b (b.asked + 1) b.actions _ e refl refl n
      ]

  to_main-vif : (b : Dev) (o : Option ℕ) → (to_main env b p o).vif ≡ b.vif
  unfolding to_main set_channel
  to_main-vif b none = refl
  to_main-vif b (some c) =
      elim b.mcu_reset as (λ r. (if r then b else (set_channel env b p c false).0).vif ≡ b.vif) [
        | true ↦ refl
        | false ↦ refl
      ]

  cleared :
      (b : Dev)
      → Near d a b p v
      → clear_roc_phy b (link_at b (some l)) ≡ set_vif b v (record (b.vif v) { roc_phy = none })
  unfolding clear_roc_phy link_at
  cleared b n = let (x, there, own) = t.owner_is in rw (n.near_link l, there) (rw own refl)

  to_main-chan :
      (b : Dev) (c : ℕ)
      → b.mcu_reset ≡ false
      → (((to_main env b p (some c)).phy p).chan ≡ some c)
        × (((to_main env b p (some c)).phy p).offchannel ≡ false)
  unfolding to_main set_channel
  to_main-chan b c h = rw (h, ==_refl p) (refl, refl)

  -- What mt76_roc_complete does to a phy that remains on a channel for `v`.
  abbrev main_again : Dev → Dev
  main_again e =
      to_main env (set_vif e v (record (e.vif v) { roc_phy = none })) p (e.phy p).main_chan

  abbrev ended : Dev → Dev
  ended e = let g = put_vif_phy_link (main_again e) p (some l) in set_phy g p (no_roc (g.phy p))

  pub main-Near : (e : Dev) → Near d a e p v → Near d a (main_again e) p v
  main-Near e n = to_main-Near _ (e.phy p).main_chan refl (set_vif-Near d a p v e none n)

  pub main-IsPut :
      (e : Dev)
      → Near d a e p v
      → IsPut d (main_again e) (put_vif_phy_link (main_again e) p (some l))
  main-IsPut e n = let m = main-Near e n in t.put_back _ m.near_link m.near_off

  ended-Restored :
      (e : Dev) (acts : List Action)
      → (d.vif v).roc_phy ≡ none
      → Near d a e p v
      → Restored d (record (ended e) { actions = acts }) p
  ended-Restored e acts idle n =
      let g = put_vif_phy_link (main_again e) p (some l) in
      let roc =
        ap (λ f. (f v).roc_phy) (to_main-vif _ (e.phy p).main_chan)
        ∙ ap (λ x. x.roc_phy) (update_self e.vif v _) in
      Near-Restored d _ p v idle
        (set_phy-Near d d p v g g.asked acts _ refl refl refl
          (put_vif_phy_link-Near d a p v _ l t (main-Near e n)))
        ((main-IsPut e n).put_roc v ∙ roc) (ap (λ x. x.roc_vif) (update_self g.phy p _))
        (ap (λ x. x.roc_link) (update_self g.phy p _))

  -- The phy is tuned to its main channel again.
  abbrev pub IsTuned : Dev → Type 0
  IsTuned f =
      (c : ℕ)
      → (d.phy p).main_chan ≡ some c
      → d.mcu_reset ≡ false
      → ((f.phy p).chan ≡ some c) × ((f.phy p).offchannel ≡ false)

  ended-IsTuned :
      (e : Dev) (acts : List Action)
      → Near d a e p v
      → IsTuned (record (ended e) { actions = acts })
  ended-IsTuned e acts n c main r =
      let b = set_vif e v (record (e.vif v) { roc_phy = none }) in
      let g = put_vif_phy_link (main_again e) p (some l) in
      let x : (g.phy p) ≡ ((to_main env b p (some c)).phy p) =
        (main-IsPut e n).put_phy p ∙ ap (λ o. (to_main env b p o).phy p) (n.near_main ∙ main) in
      let (f, h) = to_main-chan b c (n.near_reset ∙ r) in
      let y = update_self g.phy p (no_roc (g.phy p)) in
      (
        ap (λ z. z.chan) y ∙ (ap (λ z. z.chan) x ∙ f),
        ap (λ z. z.offchannel) y ∙ (ap (λ z. z.offchannel) x ∙ h),
      )

  abbrev told : Dev → Bool → Dev
  told f r = if r then f else act f (roc_expired p)

  either :
      (e : Dev) (r : Bool)
      → (d.vif v).roc_phy ≡ none
      → Near d a e p v
      → Restored d (told (ended e) r) p × IsTuned (told (ended e) r)
  either e true idle n = (ended-Restored e _ idle n, ended-IsTuned e (ended e).actions n)
  either e false idle n =
      (ended-Restored e _ idle n, ended-IsTuned e ((ended e).actions ++ (roc_expired p ∷ [])) n)

  pub roc_complete-Restored :
      (e : Dev)
      → (d.vif v).roc_phy ≡ none
      → (e.phy p).roc_vif ≡ some v
      → (e.phy p).roc_link ≡ some l
      → Near d a e p v
      → Restored d (roc_complete env e p) p × IsTuned (roc_complete env e p)
  unfolding roc_complete roc_complete_with
  roc_complete-Restored e idle has_vif has_link n =
      rw (has_vif, has_link, cleared e n) (either e (ended e).mcu_reset idle n)
