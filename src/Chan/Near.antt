-- ===== src/Chan/Near.antt =====
-- What stays the same while a link is taken (mt76_remain_on_channel, mt76_roc_complete).
use mt.Common.{ℕ, ◌≡◌, ◌≢◌, refl, ◌∙◌, ap, List, Option, some}
use mt.Common.Ring.{update_keeps, update-ne}
use mt.Chan.{Phy, Action, Dev, set_phy, set_vif, put_vif_phy_link}
use mt.Chan.Taken.{IsTaken}

-- `b` differs from `d` in the links and off-channel links, which are those of `a`, in what interface
-- `v` has in roc_phy, and in phy `p`, which keeps its main channel and its context.
pub record Near (d a b : Dev) (p v : ℕ) : Type 0 where
  pub near_link : (i : ℕ) → b.link i ≡ a.link i
  pub near_off : (i : ℕ) → (b.vif i).offchannel_link ≡ (a.vif i).offchannel_link
  pub near_links : (i : ℕ) → (b.vif i).links ≡ (d.vif i).links
  pub near_roc : (i : ℕ) → i ≢ v → (b.vif i).roc_phy ≡ (d.vif i).roc_phy
  pub near_main : (b.phy p).main_chan ≡ (d.phy p).main_chan
  pub near_chanctx : (b.phy p).chanctx ≡ (d.phy p).chanctx
  pub near_radar : (b.phy p).radar_enabled ≡ (d.phy p).radar_enabled
  pub near_other : (q : ℕ) → q ≢ p → b.phy q ≡ d.phy q
  pub near_ctx : (i : ℕ) → b.ctx_phy i ≡ d.ctx_phy i
  pub near_reset : b.mcu_reset ≡ d.mcu_reset
  pub near_scan :
      (b.scan_phy ≡ d.scan_phy) × (b.scan_vif ≡ d.scan_vif) × (b.scan_link ≡ d.scan_link)

module _ (d a : Dev) (p v : ℕ) where
  pub taken-Near : (l : ℕ) → IsTaken d a p v l → Near d a a p v
  taken-Near l t = record {
    near_link = λ i. refl;
    near_off = λ i. refl;
    near_links = λ i. (t.taken_vif i).0;
    near_roc = λ i ne. (t.taken_vif i).1;
    near_main = ap (λ x. x.main_chan) (t.taken_phy p);
    near_chanctx = ap (λ x. x.chanctx) (t.taken_phy p);
    near_radar = ap (λ x. x.radar_enabled) (t.taken_phy p);
    near_other = λ q ne. t.taken_phy q;
    near_ctx = t.taken_ctx;
    near_reset = t.taken_reset;
    near_scan = t.taken_scan;
  }

  pub set_vif-Near :
      (b : Dev) (o : Option ℕ)
      → Near d a b p v
      → Near d a (set_vif b v (record (b.vif v) { roc_phy = o })) p v
  set_vif-Near b o n = record {
    near_link = n.near_link;
    near_off = λ i. update_keeps (λ x. x.offchannel_link) b.vif v _ refl i ∙ n.near_off i;
    near_links = λ i. update_keeps (λ x. x.links) b.vif v _ refl i ∙ n.near_links i;
    near_roc = λ i ne. ap (λ x. x.roc_phy) (update-ne b.vif v i _ ne) ∙ n.near_roc i ne;
    near_main = n.near_main;
    near_chanctx = n.near_chanctx;
    near_radar = n.near_radar;
    near_other = n.near_other;
    near_ctx = n.near_ctx;
    near_reset = n.near_reset;
    near_scan = n.near_scan;
  }

  pub set_phy-Near :
      (b : Dev) (k : ℕ) (acts : List Action) (x : Phy)
      → x.main_chan ≡ (b.phy p).main_chan
      → x.chanctx ≡ (b.phy p).chanctx
      → x.radar_enabled ≡ (b.phy p).radar_enabled
      → Near d a b p v
      → Near d a (set_phy (record b { asked = k; actions = acts }) p x) p v
  set_phy-Near b k acts x main ctx radar n = record {
    near_link = n.near_link;
    near_off = n.near_off;
    near_links = n.near_links;
    near_roc = n.near_roc;
    near_main = update_keeps (λ y. y.main_chan) b.phy p x main p ∙ n.near_main;
    near_chanctx = update_keeps (λ y. y.chanctx) b.phy p x ctx p ∙ n.near_chanctx;
    near_radar = update_keeps (λ y. y.radar_enabled) b.phy p x radar p ∙ n.near_radar;
    near_other = λ q ne. update-ne b.phy p q x ne ∙ n.near_other q ne;
    near_ctx = n.near_ctx;
    near_reset = n.near_reset;
    near_scan = n.near_scan;
  }

  pub put_vif_phy_link-Near :
      (b : Dev) (l : ℕ)
      → IsTaken d a p v l
      → Near d a b p v
      → Near d d (put_vif_phy_link b p (some l)) p v
  put_vif_phy_link-Near b l t n =
      let put = t.put_back b n.near_link n.near_off in
      record {
        near_link = put.put_link;
        near_off = put.put_off;
        near_links = λ i. put.put_links i ∙ n.near_links i;
        near_roc = λ i ne. put.put_roc i ∙ n.near_roc i ne;
        near_main = ap (λ x. x.main_chan) (put.put_phy p) ∙ n.near_main;
        near_chanctx = ap (λ x. x.chanctx) (put.put_phy p) ∙ n.near_chanctx;
        near_radar = ap (λ x. x.radar_enabled) (put.put_phy p) ∙ n.near_radar;
        near_other = λ q ne. put.put_phy q ∙ n.near_other q ne;
        near_ctx = λ i. put.put_ctx i ∙ n.near_ctx i;
        near_reset = put.put_reset ∙ n.near_reset;
        near_scan = (
          put.put_scan.0 ∙ n.near_scan.0,
          put.put_scan.1 ∙ n.near_scan.1,
          put.put_scan.2 ∙ n.near_scan.2,
        );
      }
