-- ===== src/Chan/Taken.antt =====
-- That a link which mt76_get_vif_phy_link gives can be put back.
use mt.Common.{
  ℕ, ◌≡◌, refl, sym, ◌∙◌, false, Option, none, some, ◌==◌, ==→eq, ==_refl, Bool-cases, inl, inr,
}
use mt.Common.Ring.{update_keeps, update, update_self}
use mt.Chan.{
  Link, Dev, Env, Error, Result, ok, err, get_vif_phy_link, put_found, put_vif_phy_link, owner_of,
}
use mt.Chan.Links.{Same, IsReady, new_link, made, Got, found, created, failed, got}

-- The link that `b` held is put back: `c` has the links and the off-channel links of `d`.
pub record IsPut (d b c : Dev) : Type 0 where
  pub put_link : (i : ℕ) → c.link i ≡ d.link i
  pub put_off : (i : ℕ) → (c.vif i).offchannel_link ≡ (d.vif i).offchannel_link
  pub put_links : (i : ℕ) → (c.vif i).links ≡ (b.vif i).links
  pub put_roc : (i : ℕ) → (c.vif i).roc_phy ≡ (b.vif i).roc_phy
  pub put_phy : (i : ℕ) → c.phy i ≡ b.phy i
  pub put_ctx : (i : ℕ) → c.ctx_phy i ≡ b.ctx_phy i
  pub put_reset : c.mcu_reset ≡ b.mcu_reset
  pub put_scan : (c.scan_phy ≡ b.scan_phy) × (c.scan_vif ≡ b.scan_vif) × (c.scan_link ≡ b.scan_link)

-- A link `l` was taken for interface `v`: nothing but links and interfaces changed, and putting it
-- back gives the links and the interfaces' links of before.
pub record IsTaken (d a : Dev) (p v l : ℕ) : Type 0 where
  pub owner_is : (x : Link) × (a.link l ≡ some x) × (x.mvif ≡ v)
  pub taken_phy : (i : ℕ) → a.phy i ≡ d.phy i
  pub taken_ctx : (i : ℕ) → a.ctx_phy i ≡ d.ctx_phy i
  pub taken_reset : a.mcu_reset ≡ d.mcu_reset
  pub taken_scan :
      (a.scan_phy ≡ d.scan_phy) × (a.scan_vif ≡ d.scan_vif) × (a.scan_link ≡ d.scan_link)
  pub taken_vif :
      (i : ℕ) → ((a.vif i).links ≡ (d.vif i).links) × ((a.vif i).roc_phy ≡ (d.vif i).roc_phy)
  pub put_back :
      (b : Dev)
      → ((i : ℕ) → b.link i ≡ a.link i)
      → ((i : ℕ) → (b.vif i).offchannel_link ≡ (a.vif i).offchannel_link)
      → IsPut d b (put_vif_phy_link b p (some l))

module _ (d : Dev) (p v : ℕ) where
  -- A link of the interface itself stays as it is.
  pub found-IsTaken :
      (l : ℕ) (x : Link) → d.link l ≡ some x → x.mvif ≡ v → x.offchannel ≡ false → IsTaken d d p v l
  unfolding put_vif_phy_link put_found owner_of
  found-IsTaken l x there own on = record {
    owner_is = (x, there, own);
    taken_phy = λ i. refl;
    taken_ctx = λ i. refl;
    taken_reset = refl;
    taken_scan = (refl, refl, refl);
    taken_vif = λ i. (refl, refl);
    put_back = λ b links offs.
        rw (links l, there)
          (rw on (record {
            put_link = links;
            put_off = offs;
            put_links = λ i. refl;
            put_roc = λ i. refl;
            put_phy = λ i. refl;
            put_ctx = λ i. refl;
            put_reset = refl;
            put_scan = (refl, refl, refl);
          }));
  }

  module _ (none_off : (d.vif v).offchannel_link ≡ none) (l : ℕ) (fresh : d.link l ≡ none) where
    made_back :
        (b : Dev) (i : ℕ)
        → (b.vif i).offchannel_link ≡ ((made d p v l).vif i).offchannel_link
        → (update b.vif v (record (b.vif v) { offchannel_link = none }) i).offchannel_link
          ≡ (d.vif i).offchannel_link
    made_back b i h = elim (Bool-cases (i == v)) [
      | inl e ↦ rw (e, ==→eq i v e) (sym none_off)
      | inr e ↦ rw e (h ∙ rw e refl)
    ]

    gone :
        (f : ℕ → Option Link) (i : ℕ)
        → f i ≡ update d.link l (some (new_link v)) i
        → update f l none i ≡ d.link i
    gone f i h = elim (Bool-cases (i == l)) [
      | inl e ↦ rw (e, ==→eq i l e) (sym fresh)
      | inr e ↦ rw e (h ∙ rw e refl)
    ]

    -- A new link goes away again.
    pub made-IsTaken : IsTaken d (made d p v l) p v l
    unfolding put_vif_phy_link put_found owner_of
    made-IsTaken = record {
      owner_is = (new_link v, update_self d.link l _, refl);
      taken_phy = λ i. refl;
      taken_ctx = λ i. refl;
      taken_reset = refl;
      taken_scan = (refl, refl, refl);
      taken_vif = λ i. (
        update_keeps (λ x. x.links) d.vif v _ refl i,
        update_keeps (λ x. x.roc_phy) d.vif v _ refl i,
      );
      put_back = λ b links offs.
          rw (links l, ==_refl l)
            (record {
              put_link = λ i. gone b.link i (links i);
              put_off = λ i. made_back b i (offs i);
              put_links = update_keeps (λ x. x.links) b.vif v _ refl;
              put_roc = update_keeps (λ x. x.roc_phy) b.vif v _ refl;
              put_phy = λ i. refl;
              put_ctx = λ i. refl;
              put_reset = refl;
              put_scan = (refl, refl, refl);
            });
    }

-- Whatever link mt76_get_vif_phy_link gives is taken, and an error changes no link.
pub data Borrowed (d : Dev) (p v : ℕ) (r : Dev × Result) : Type 0 where
  taken : (a : Dev) (l : ℕ) → r ≡ (a, ok l) → IsTaken d a p v l → Borrowed d p v r
  refused :
      (a : Dev) (x : Error)
      → r ≡ (a, err x)
      → Same d a
      → a.mcu_reset ≡ d.mcu_reset
      → Borrowed d p v r

module _ (env : Env) (d : Dev) (p v : ℕ) (ready : IsReady env d p v) where
  Got-Borrowed : (r : Dev × Result) → Got d p v r → Borrowed d p v r
  Got-Borrowed r (found l x e there own on) = taken d l e (found-IsTaken d p v l x there own on)
  Got-Borrowed r (created l e fresh) = taken _ l e (made-IsTaken d p v ready.no_offchannel l fresh)
  Got-Borrowed r (failed a x e same reset) = refused a x e same reset

  pub get_vif_phy_link_lem : Borrowed d p v (get_vif_phy_link env d p v)
  get_vif_phy_link_lem = Got-Borrowed _ (got env d p v ready)
