-- ===== src/Chan/Calm.antt =====
-- What taking and giving back a link and setting a channel leave as it is (channel.c, mac80211.c).
use mt.Common.{
  ℕ, ◌≡◌, refl, ◌∙◌, Bool, true, false, Option, none, some, if◌then◌else◌, Bool-cases, inl, inr,
}
use mt.Common.Ring.{update_keeps}
use mt.Chan.{
  Link, link_remove, Dev, Env, act, set_vif, set_link, set_channel, add_offchannel, get_with,
  find_link, get_vif_phy_link, put_found, put_vif_phy_link, to_main, clear_roc_phy,
}

-- The scan, and what each phy remains on a channel for, are the same.
pub record Calm (d e : Dev) : Type 0 where
  pub calm_phy :
      (p : ℕ) → ((e.phy p).roc_vif ≡ (d.phy p).roc_vif) × ((e.phy p).roc_link ≡ (d.phy p).roc_link)
  pub calm_scan :
      (e.scan_phy ≡ d.scan_phy) × (e.scan_vif ≡ d.scan_vif) × (e.scan_link ≡ d.scan_link)

pub Calm-refl : (d : Dev) → Calm d d
Calm-refl d = record { calm_phy = λ p. (refl, refl); calm_scan = (refl, refl, refl) }

pub Calm-trans : (d e f : Dev) → Calm d e → Calm e f → Calm d f
Calm-trans d e f a b = record {
  calm_phy = λ p. ((b.calm_phy p).0 ∙ (a.calm_phy p).0, (b.calm_phy p).1 ∙ (a.calm_phy p).1);
  calm_scan =
      (b.calm_scan.0 ∙ a.calm_scan.0, b.calm_scan.1 ∙ a.calm_scan.1, b.calm_scan.2 ∙ a.calm_scan.2);
}

pub put-Calm : (d : Dev) (p : ℕ) (o : Option ℕ) → Calm d (put_vif_phy_link d p o)
unfolding put_vif_phy_link put_found
put-Calm d p none = Calm-refl d
put-Calm d p (some l) = put_found-Calm (d.link l)
  where
    put_found-Calm : (o : Option Link) → Calm d (put_found d p l o)
    put_found-Calm none = Calm-refl d
    put_found-Calm (some x) =
        elim x.offchannel
          as (λ b. Calm d (
            if b
            then act
                (set_link (set_vif d x.mvif (record (d.vif x.mvif) { offchannel_link = none })) l
                  none)
                (link_remove p l)
            else d)) [
              | true ↦ record { calm_phy = λ q. (refl, refl); calm_scan = (refl, refl, refl) }
              | false ↦ Calm-refl d
            ]

pub clear-Calm : (d : Dev) (o : Option Link) → Calm d (clear_roc_phy d o)
unfolding clear_roc_phy
clear-Calm d none = Calm-refl d
clear-Calm d (some x) = record { calm_phy = λ p. (refl, refl); calm_scan = (refl, refl, refl) }

module _ (env : Env) where
  add-Calm : (d : Dev) (p v : ℕ) (o : Option ℕ) → Calm d (add_offchannel env d p v o).0
  unfolding add_offchannel
  add-Calm d p v none = record { calm_phy = λ q. (refl, refl); calm_scan = (refl, refl, refl) }
  add-Calm d p v (some l) = elim (Bool-cases (env.adds d.asked)) [
    | inl h ↦ simp h (record { calm_phy = λ q. (refl, refl); calm_scan = (refl, refl, refl) })
    | inr h ↦ simp h (record { calm_phy = λ q. (refl, refl); calm_scan = (refl, refl, refl) })
  ]

  pub get-Calm : (d : Dev) (p v : ℕ) → Calm d (get_vif_phy_link env d p v).0
  unfolding get_vif_phy_link get_with add_offchannel
  get-Calm d p v = with_found (find_link d p (d.vif v).links)
    where
      with_found : (o : Option ℕ) → Calm d (get_with env d p v o).0
      with_found (some l) = Calm-refl d
      with_found none = elim (Bool-cases env.has_link_add) [
        | inl h ↦ simp h (add-Calm d p v (env.alloc d.asked))
        | inr h ↦ simp h (Calm-refl d)
      ]

  pub set_channel-Calm : (d : Dev) (p c : ℕ) (off : Bool) → Calm d (set_channel env d p c off).0
  unfolding set_channel
  set_channel-Calm d p c off = record {
    calm_phy = λ q. (
      update_keeps (λ x. x.roc_vif) d.phy p _ refl q,
      update_keeps (λ x. x.roc_link) d.phy p _ refl q,
    );
    calm_scan = (refl, refl, refl);
  }

  pub to_main-Calm : (d : Dev) (p : ℕ) (o : Option ℕ) → Calm d (to_main env d p o)
  unfolding to_main
  to_main-Calm d p none = Calm-refl d
  to_main-Calm d p (some c) =
      elim d.mcu_reset as (λ r. Calm d (if r then d else (set_channel env d p c false).0)) [
        | true ↦ Calm-refl d
        | false ↦ set_channel-Calm d p c false
      ]
