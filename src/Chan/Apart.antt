-- ===== src/Chan/Apart.antt =====
-- That each operation of channel.c and scan.c keeps scans and remaining on a channel apart.
use mt.Common.{
  ℕ, ◌≡◌, ◌≢◌, refl, sym, ◌∙◌, ap, Bool, true, false, ◌||◌, List, [], ◌∷◌, ◌++◌, Option, none, some,
  if◌then◌else◌, ◌==◌, Bool-cases, inl, inr, ==→eq, ==_refl, arith,
}
use mt.Chan.{
  Action, roc_expired, Dev, Env, Result, ok, err, act, set_phy, set_vif, set_channel,
  get_vif_phy_link, put_vif_phy_link, is_phy, is_some, owner_of, no_roc, on_roc, to_main,
  clear_roc_phy, link_at, roc_complete, roc_complete_with, start_roc, roc_with, roc_on,
  remain_on_channel, cancel_with, cancel_remain_on_channel, scan_with, begin_scan, end_with,
  end_scan,
}
use mt.Chan.Calm.{Calm, put-Calm, clear-Calm, get-Calm, set_channel-Calm, to_main-Calm}

-- No phy scans and remains on a channel; what is free holds no link.
pub record IsApart (d : Dev) : Type 0 where
  pub is_apart : (p : ℕ) → d.scan_phy ≡ some p → (d.phy p).roc_vif ≡ none
  pub roc_whole : (p : ℕ) → (d.phy p).roc_vif ≡ none → (d.phy p).roc_link ≡ none
  pub scan_whole : d.scan_phy ≡ none → (d.scan_vif ≡ none) × (d.scan_link ≡ none)

Calm-IsApart : (d e : Dev) → Calm d e → IsApart d → IsApart e
Calm-IsApart d e c a = record {
  is_apart = λ p h. (c.calm_phy p).0 ∙ a.is_apart p (sym c.calm_scan.0 ∙ h);
  roc_whole = λ p h. (c.calm_phy p).1 ∙ a.roc_whole p (sym (c.calm_phy p).0 ∙ h);
  scan_whole = λ h.
      let (v, l) = a.scan_whole (sym c.calm_scan.0 ∙ h) in (c.calm_scan.1 ∙ v, c.calm_scan.2 ∙ l);
}

-- A phy that no longer remains on a channel.
free-IsApart :
    (d : Dev) (p : ℕ) (acts : List Action)
    → IsApart d
    → IsApart (record (set_phy d p (no_roc (d.phy p))) { actions = acts })
free-IsApart d p acts a = record {
  is_apart =
      λ q h. elim (Bool-cases (q == p)) [ inl e ↦ rw e refl | inr e ↦ rw e (a.is_apart q h) ];
  roc_whole =
      λ q. elim (Bool-cases (q == p)) [ inl e ↦ rw e (λ h. refl) | inr e ↦ rw e (a.roc_whole q) ];
  scan_whole = a.scan_whole;
}

-- A phy that does not scan starts to remain on a channel.
claim-IsApart :
    (d : Dev) (p v l : ℕ)
    → d.scan_phy ≢ some p
    → IsApart d
    → IsApart (set_phy d p (on_roc (d.phy p) v l))
claim-IsApart d p v l ne a = record {
  is_apart = λ q h. elim (Bool-cases (q == p)) [
    | inl e ↦ absurd (ne (h ∙ ap some (==→eq q p e)))
    | inr e ↦ rw e (a.is_apart q h)
  ];
  roc_whole = λ q. elim (Bool-cases (q == p)) [
    | inl e ↦ rw e (λ h. ground arith)
    | inr e ↦ rw e (a.roc_whole q)
  ];
  scan_whole = a.scan_whole;
}

module _ (env : Env) where
  pub expire-IsApart : (d : Dev) (p : ℕ) → IsApart d → IsApart (roc_complete env d p)
  unfolding roc_complete roc_complete_with
  expire-IsApart d p a = with_vif (d.phy p).roc_vif
    where
      with_vif : (o : Option ℕ) → IsApart (roc_complete_with env d p o)
      with_vif none = a
      with_vif (some v) =
          let l = (d.phy p).roc_link in
          let e = clear_roc_phy d (link_at d l) in
          let f = to_main env e p (e.phy p).main_chan in
          let g = put_vif_phy_link f p l in
          let b : IsApart g = Calm-IsApart f g (put-Calm f p l) (
            Calm-IsApart e f (to_main-Calm env e p _)
              (Calm-IsApart d e (clear-Calm d (link_at d l)) a)) in
          let h = set_phy g p (no_roc (g.phy p)) in
          elim h.mcu_reset as (λ r. IsApart (if r then h else act h (roc_expired p))) [
            | true ↦ free-IsApart g p g.actions b
            | false ↦ free-IsApart g p (g.actions ++ (roc_expired p ∷ [])) b
          ]

  -- The device while the driver is asked for the channel, and when it refuses.
  abbrev asking : Dev → ℕ → ℕ → ℕ → ℕ → ℕ → Dev
  asking d p v chan l owner =
      let a = set_vif d owner (record (d.vif owner) { roc_phy = some p }) in
      let b = set_phy a p (on_roc (a.phy p) v l) in (set_channel env b p chan true).0

  asking-IsApart :
      (d : Dev) (p v chan l owner : ℕ)
      → d.scan_phy ≢ some p
      → IsApart d
      → IsApart (asking d p v chan l owner)
  asking-IsApart d p v chan l owner ne a =
      let e = set_vif d owner (record (d.vif owner) { roc_phy = some p }) in
      let b = set_phy e p (on_roc (e.phy p) v l) in
      Calm-IsApart b (asking d p v chan l owner) (set_channel-Calm env b p chan true) (
        claim-IsApart e p v l ne (
          Calm-IsApart d e (record { calm_phy = λ q. (refl, refl); calm_scan = (refl, refl, refl) })
            a))

  start-IsApart :
      (d : Dev) (p v chan duration l owner : ℕ)
      → d.scan_phy ≢ some p
      → IsApart d
      → IsApart (start_roc env d p v chan duration l owner).0
  unfolding start_roc set_channel
  start-IsApart d p v chan duration l owner ne a =
      let b = asking-IsApart d p v chan l owner ne a in
      let c = asking d p v chan l owner in
      let e = set_vif c owner (record (c.vif owner) { roc_phy = none }) in
      let f =
        Calm-IsApart c e (record { calm_phy = λ q. (refl, refl); calm_scan = (refl, refl, refl) })
          b in
      elim (Bool-cases (env.sets d.asked)) [
        | inl h ↦ simp h (
            Calm-IsApart c _
              (record { calm_phy = λ q. (refl, refl); calm_scan = (refl, refl, refl) }) b)
        | inr h ↦ simp h (Calm-IsApart _ _ (put-Calm _ p (some l)) (free-IsApart e p e.actions f))
      ]

  roc_with-IsApart :
      (r : Dev × Result) (p v chan duration : ℕ)
      → r.0.scan_phy ≢ some p
      → IsApart r.0
      → IsApart (roc_with env r p v chan duration).0
  unfolding roc_with
  roc_with-IsApart (d, err e) p v chan duration ne a = a
  roc_with-IsApart (d, ok l) p v chan duration ne a =
      start-IsApart d p v chan duration l (owner_of (d.link l) v) ne a

  not_scanning : (d : Dev) (p : ℕ) → is_phy p d.scan_phy ≡ false → d.scan_phy ≢ some p
  not_scanning d p h e =
      let x = ==_refl p in let y = ap (is_phy p) (sym e) ∙ h in ground (arith, x, y)

  first_false : (a b c : Bool) → a || (b || c) ≡ false → (a ≡ false) × (b ≡ false)
  first_false a b c h = ground arith

  is_none : (o : Option ℕ) → is_some o ≡ false → o ≡ none
  is_none none h = refl
  is_none (some x) h = ground arith

  pub remain-IsApart :
      (d : Dev) (v band chan duration : ℕ)
      → IsApart d
      → IsApart (remain_on_channel env d v band chan duration).0
  unfolding remain_on_channel roc_on
  remain-IsApart d v band chan duration a = on_band (env.band_phys band)
    where
      on_band : (o : Option ℕ) → IsApart (roc_on env d o v chan duration).0
      on_band none = a
      on_band (some p) =
          elim (Bool-cases (is_some (d.phy p).roc_vif || (is_phy p d.scan_phy || d.mcu_reset))) [
            | inl h ↦ simp h a
            | inr h ↦
                let c = get-Calm env d p v in
                simp h (
                  roc_with-IsApart (get_vif_phy_link env d p v) p v chan duration
                    (λ e. not_scanning d p (first_false _ _ _ h).1 (sym c.calm_scan.0 ∙ e))
                    (Calm-IsApart d _ c a))
          ]

  some_eq : (p q : ℕ) → some p ≡ some q → p ≡ q
  some_eq p q h = ground arith

  pub cancel-IsApart : (d : Dev) (v : ℕ) → IsApart d → IsApart (cancel_remain_on_channel env d v)
  unfolding cancel_remain_on_channel cancel_with
  cancel-IsApart d v a = on_phy (d.vif v).roc_phy
    where
      on_phy : (o : Option ℕ) → IsApart (cancel_with env d o)
      on_phy none = a
      on_phy (some p) = expire-IsApart d p a

  scan_with-IsApart :
      (r : Dev × Result) (p v : ℕ)
      → (r.0.phy p).roc_vif ≡ none
      → IsApart r.0
      → IsApart (scan_with env r p v).0
  unfolding scan_with
  scan_with-IsApart (d, err e) p v free a = a
  scan_with-IsApart (d, ok l) p v free a = record {
    is_apart = λ q h. ap (λ x. (d.phy x).roc_vif) (sym (some_eq p q h)) ∙ free;
    roc_whole = a.roc_whole;
    scan_whole = λ h. ground arith;
  }

  pub begin_scan-IsApart : (d : Dev) (p v : ℕ) → IsApart d → IsApart (begin_scan env d p v).0
  unfolding begin_scan
  begin_scan-IsApart d p v a =
      elim (Bool-cases (is_some d.scan_phy || (is_some (d.phy p).roc_vif || d.mcu_reset))) [
        | inl h ↦ simp h a
        | inr h ↦
            let c = get-Calm env d p v in
            simp h (
              scan_with-IsApart (get_vif_phy_link env d p v) p v
                ((c.calm_phy p).0 ∙ is_none _ (first_false _ _ _ h).1) (Calm-IsApart d _ c a))
      ]

  pub end_scan-IsApart : (d : Dev) (has_chan : Bool) → IsApart d → IsApart (end_scan env d has_chan)
  unfolding end_scan end_with
  end_scan-IsApart d has_chan a = with_phy d.scan_phy
    where
      with_phy : (o : Option ℕ) → IsApart (end_with env d has_chan o)
      with_phy none = a
      with_phy (some p) =
          let e = if has_chan then to_main env d p (d.phy p).main_chan else d in
          let b : IsApart e =
            elim has_chan as (λ h. IsApart (if h then to_main env d p (d.phy p).main_chan else d)) [
              | true ↦ Calm-IsApart d _ (to_main-Calm env d p _) a
              | false ↦ a
            ] in
          let f = Calm-IsApart e _ (put-Calm e p e.scan_link) b in
          record {
            is_apart = λ q h. ground arith;
            roc_whole = f.roc_whole;
            scan_whole = λ h. (refl, refl);
          }
