-- ===== src/Chan/RoundTrip.antt =====
-- Remaining on a channel (mt76_remain_on_channel) and its end (mt76_roc_complete) undo each other.
use mt.Common.{
  ℕ, ◌≡◌, refl, ◌∙◌, ap, true, false, ◌||◌, List, none, some, Bool-cases, ◌⊎◌, inl, inr,
}
use mt.Common.Ring.{update_self}
use mt.Chan.{
  Action, Dev, Env, Error, ebusy, driver_error, Result, ok, err, set_phy, set_vif, set_channel,
  put_vif_phy_link, is_phy, is_some, owner_of, no_roc, on_roc, roc_complete, start_roc, roc_with,
  roc_on, remain_on_channel,
}
use mt.Chan.Links.{Same, Same-refl, IsReady}
use mt.Chan.Taken.{IsTaken, Borrowed, taken, refused, get_vif_phy_link_lem}
use mt.Chan.Near.{Near, taken-Near, set_vif-Near, set_phy-Near, put_vif_phy_link-Near}
use mt.Chan.Ended.{Restored, Near-Restored, roc_complete-Restored}

-- Phy `p` remains on channel `chan` for interface `v`, and its end restores the device.
pub record IsRemaining (env : Env) (d e : Dev) (p v chan : ℕ) : Type 0 where
  pub for_vif : (e.phy p).roc_vif ≡ some v
  pub by_phy : (e.vif v).roc_phy ≡ some p
  pub on_chan : ((e.phy p).chan ≡ some chan) × ((e.phy p).offchannel ≡ true)
  pub at_end : Restored d (roc_complete env e p) p
  pub tuned_at_end :
      (c : ℕ)
      → (d.phy p).main_chan ≡ some c
      → d.mcu_reset ≡ false
      → (((roc_complete env e p).phy p).chan ≡ some c)
        × (((roc_complete env e p).phy p).offchannel ≡ false)

-- A phy that was left on `chan`, as off-channel, though it does not remain there for anyone.
pub record IsStranded (e : Dev) (p chan : ℕ) : Type 0 where
  pub left_on : (e.phy p).chan ≡ some chan
  pub left_off : (e.phy p).offchannel ≡ true

pub data Outcome (env : Env) (d : Dev) (p v chan : ℕ) (r : Dev × Result) : Type 0 where
  remains : (e : Dev) → r ≡ (e, ok 0) → IsRemaining env d e p v chan → Outcome env d p v chan r
  fails :
      (e : Dev) (x : Error)
      → r ≡ (e, err x)
      → Restored d e p
      → (e.phy p ≡ d.phy p) ⊎ ((x ≡ driver_error) × IsStranded e p chan)
      → Outcome env d p v chan r

module _ (env : Env) (d a : Dev) (p v l chan : ℕ) (t : IsTaken d a p v l) where
  abbrev claimed : Dev
  claimed =
      let b = set_vif a v (record (a.vif v) { roc_phy = some p }) in
      set_phy b p (on_roc (b.phy p) v l)

  abbrev moved : List Action → Dev
  moved acts = record ((set_channel env claimed p chan true).0) { actions = acts }

  moved-Near : (acts : List Action) → Near d a (moved acts) p v
  unfolding set_channel
  moved-Near acts =
      let b = set_vif a v (record (a.vif v) { roc_phy = some p }) in
      set_phy-Near d a p v claimed _ acts _ refl refl refl (
        set_phy-Near d a p v b a.asked a.actions _ refl refl refl
          (set_vif-Near d a p v a (some p) (taken-Near d a p v l t)))

  moved-roc :
      (acts : List Action)
      → (((moved acts).phy p).roc_vif ≡ some v)
        × (((moved acts).phy p).roc_link ≡ some l)
        × (((moved acts).phy p).chan ≡ some chan)
        × (((moved acts).phy p).offchannel ≡ true)
  unfolding set_channel
  moved-roc acts =
      let x = update_self claimed.phy p _ in
      let y = update_self a.phy p _ in
      (
        ap (λ z. z.roc_vif) x ∙ ap (λ z. z.roc_vif) y,
        ap (λ z. z.roc_link) x ∙ ap (λ z. z.roc_link) y,
        ap (λ z. z.chan) x,
        ap (λ z. z.offchannel) x,
      )

  moved-IsRemaining :
      (acts : List Action) → (d.vif v).roc_phy ≡ none → IsRemaining env d (moved acts) p v chan
  unfolding set_channel
  moved-IsRemaining acts idle =
      let (vif, link, on, off) = moved-roc acts in
      let (back, tuned) =
        roc_complete-Restored env d a p v l t (moved acts) idle vif link (moved-Near acts) in
      record {
        for_vif = vif;
        by_phy = ap (λ x. x.roc_phy) (update_self a.vif v _);
        on_chan = (on, off);
        at_end = back;
        tuned_at_end = tuned;
      }

  -- What a failure of the driver leaves.
  abbrev let_go : Dev
  let_go =
      let c = (set_channel env claimed p chan true).0 in
      let e = set_vif c v (record (c.vif v) { roc_phy = none }) in set_phy e p (no_roc (e.phy p))

  let_go-Near : Near d a let_go p v
  unfolding set_channel
  let_go-Near =
      let c = (set_channel env claimed p chan true).0 in
      set_phy-Near d a p v _ c.asked c.actions _ refl refl refl
        (set_vif-Near d a p v c none (moved-Near c.actions))

  let_go-Restored : (d.vif v).roc_phy ≡ none → Restored d (put_vif_phy_link let_go p (some l)) p
  unfolding set_channel
  let_go-Restored idle =
      let c = (set_channel env claimed p chan true).0 in
      let put = t.put_back _ let_go-Near.near_link let_go-Near.near_off in
      let x = put.put_phy p ∙ update_self c.phy p _ in
      Near-Restored d _ p v idle (put_vif_phy_link-Near d a p v _ l t let_go-Near)
        (put.put_roc v ∙ ap (λ z. z.roc_phy) (update_self c.vif v _)) (ap (λ z. z.roc_vif) x)
        (ap (λ z. z.roc_link) x)

  let_go-IsStranded : IsStranded (put_vif_phy_link let_go p (some l)) p chan
  unfolding set_channel
  let_go-IsStranded =
      let c = (set_channel env claimed p chan true).0 in
      let put = t.put_back _ let_go-Near.near_link let_go-Near.near_off in
      let x = put.put_phy p ∙ update_self c.phy p _ in
      let (vif, link, on, off) = moved-roc c.actions in
      record { left_on = ap (λ z. z.chan) x ∙ on; left_off = ap (λ z. z.offchannel) x ∙ off }

  start_roc-Outcome :
      (duration : ℕ)
      → (d.vif v).roc_phy ≡ none
      → Outcome env d p v chan (start_roc env a p v chan duration l v)
  unfolding start_roc set_channel
  start_roc-Outcome duration idle = elim (Bool-cases (env.sets a.asked)) [
    | inl h ↦ simp h (remains _ refl (moved-IsRemaining _ idle))
    | inr h ↦
        simp h (fails _ driver_error refl (let_go-Restored idle) (inr (refl, let_go-IsStranded)))
  ]

module _ (env : Env) (d : Dev) (p v chan : ℕ) where
  Same-Restored :
      (e : Dev)
      → (d.phy p).roc_vif ≡ none
      → (d.phy p).roc_link ≡ none
      → Same d e
      → e.mcu_reset ≡ d.mcu_reset
      → Restored d e p
  Same-Restored e no_vif no_link s r = record {
    restored_link = s.same_link;
    restored_vif = s.same_vif;
    restored_other = λ q ne. s.same_phy q;
    restored_main = ap (λ x. x.main_chan) (s.same_phy p);
    restored_chanctx = ap (λ x. x.chanctx) (s.same_phy p);
    restored_radar = ap (λ x. x.radar_enabled) (s.same_phy p);
    is_free = (
      ap (λ x. x.roc_vif) (s.same_phy p) ∙ no_vif,
      ap (λ x. x.roc_link) (s.same_phy p) ∙ no_link,
    );
    restored_ctx = s.same_ctx;
    restored_reset = r;
    restored_scan = s.same_scan;
  }

  roc_with-Outcome :
      (r : Dev × Result) (duration : ℕ)
      → (d.vif v).roc_phy ≡ none
      → (d.phy p).roc_vif ≡ none
      → (d.phy p).roc_link ≡ none
      → Borrowed d p v r
      → Outcome env d p v chan (roc_with env r p v chan duration)
  unfolding roc_with owner_of
  roc_with-Outcome r duration idle no_vif no_link (taken a l e t) =
      let (x, there, own) = t.owner_is in
      rw (e, there, own) (start_roc-Outcome env d a p v l chan t duration idle)
  roc_with-Outcome r duration idle no_vif no_link (refused a x e s reset) =
      rw e (fails a x refl (Same-Restored a no_vif no_link s reset) (inl (s.same_phy p)))

-- For an interface without an off-channel link, whose links belong to it and which does not remain on
-- a channel, with memory for a link that is not in use, and a phy that is free: either the phy remains
-- on the channel for the interface, and mt76_roc_complete gives back the links, interfaces and
-- contexts, the other phys, and this phy's main channel, to which it is tuned unless the firmware is
-- being reset; or an error is returned and all these are as they were before the call. After an error
-- the phy itself is as before too, except that it is left on the channel, as off-channel, where the
-- driver refused the channel.
pub remain_on_channel-roc_complete :
    (env : Env) (d : Dev) (p v band chan duration : ℕ)
    → env.band_phys band ≡ some p
    → IsReady env d p v
    → (d.vif v).roc_phy ≡ none
    → (d.phy p).roc_vif ≡ none
    → (d.phy p).roc_link ≡ none
    → Outcome env d p v chan (remain_on_channel env d v band chan duration)
unfolding remain_on_channel roc_on
remain_on_channel-roc_complete env d p v band chan duration band_is prepared idle no_vif no_link =
    rw band_is
      (elim (Bool-cases (is_some (d.phy p).roc_vif || (is_phy p d.scan_phy || d.mcu_reset))) [
        | inl h ↦ rw h (
            fails d ebusy refl (Same-Restored env d p v chan d no_vif no_link (Same-refl d) refl)
              (inl refl))
        | inr h ↦ rw h (
            roc_with-Outcome env d p v chan _ duration idle no_vif no_link
              (get_vif_phy_link_lem env d p v prepared))
      ])
