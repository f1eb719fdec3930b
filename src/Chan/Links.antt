-- ===== src/Chan/Links.antt =====
-- What mt76_get_vif_phy_link gives, and that mt76_put_vif_phy_link gives it back.
use mt.Common.{
  ℕ, ◌+◌, ◌≡◌, refl, sym, ◌∙◌, ap, true, false, Option, none, some, ◌==◌, ==→eq, Bool-cases, inl,
  inr,
}
use mt.Common.Ring.{update}
use mt.Chan.{
  Link, link_add, Dev, Env, Error, einval, enomem, driver_error, Result, ok, err, act, set_vif,
  set_link, find_link, add_offchannel, get_with, get_vif_phy_link,
}

-- The same links, interfaces, phys, contexts and scan.
pub record Same (d e : Dev) : Type 0 where
  pub same_link : (i : ℕ) → e.link i ≡ d.link i
  pub same_vif : (i : ℕ) → e.vif i ≡ d.vif i
  pub same_phy : (i : ℕ) → e.phy i ≡ d.phy i
  pub same_ctx : (i : ℕ) → e.ctx_phy i ≡ d.ctx_phy i
  pub same_scan :
      (e.scan_phy ≡ d.scan_phy) × (e.scan_vif ≡ d.scan_vif) × (e.scan_link ≡ d.scan_link)

pub Same-refl : (d : Dev) → Same d d
Same-refl d = record {
  same_link = λ i. refl;
  same_vif = λ i. refl;
  same_phy = λ i. refl;
  same_ctx = λ i. refl;
  same_scan = (refl, refl, refl);
}

module _ {ℓ} {A : Type ℓ} where
  -- A cell that is written and written back.
  pub update_back :
      (f : ℕ → A) (i : ℕ) (x y : A) → y ≡ f i → (j : ℕ) → update (update f i x) i y j ≡ f j
  update_back f i x y h j = elim (Bool-cases (j == i)) [
    | inl e ↦ rw e (h ∙ ap f (sym (==→eq j i e)))
    | inr e ↦ rw e refl
  ]

-- An interface without an off-channel link, whose links belong to it, and new memory that is not yet
-- in use.
pub record IsReady (env : Env) (d : Dev) (p v : ℕ) : Type 0 where
  pub no_offchannel : (d.vif v).offchannel_link ≡ none
  pub own_links :
      (l : ℕ)
      → find_link d p (d.vif v).links ≡ some l
      → (x : Link) × (d.link l ≡ some x) × (x.mvif ≡ v) × (x.offchannel ≡ false)
  pub new_memory : (n l : ℕ) → env.alloc n ≡ some l → d.link l ≡ none

abbrev pub new_link : ℕ → Link
new_link v = record { mvif = v; ctx = none; offchannel = true }

-- The device with a new off-channel link.
abbrev pub made : Dev → ℕ → ℕ → ℕ → Dev
made d p v l =
    let e : Dev =
      act (set_link (record d { asked = d.asked + 1 }) l (some (new_link v))) (link_add p l) in
    set_vif e v (record (e.vif v) { offchannel_link = some l })

-- A link that is there, a new one, or an error that changes nothing.
pub data Got (d : Dev) (p v : ℕ) (r : Dev × Result) : Type 0 where
  found :
      (l : ℕ) (x : Link)
      → r ≡ (d, ok l)
      → d.link l ≡ some x
      → x.mvif ≡ v
      → x.offchannel ≡ false
      → Got d p v r
  created : (l : ℕ) → r ≡ (made d p v l, ok l) → d.link l ≡ none → Got d p v r
  failed :
      (e : Dev) (x : Error) → r ≡ (e, err x) → Same d e → e.mcu_reset ≡ d.mcu_reset → Got d p v r

module _ (env : Env) (d : Dev) (p v : ℕ) (ready : IsReady env d p v) where
  added :
      (o : Option ℕ)
      → ((l : ℕ) → o ≡ some l → d.link l ≡ none)
      → Got d p v (add_offchannel env d p v o)
  unfolding add_offchannel
  added none h =
      failed (record d { asked = d.asked + 1 }) enomem refl
        (record {
          same_link = λ i. refl;
          same_vif = λ i. refl;
          same_phy = λ i. refl;
          same_ctx = λ i. refl;
          same_scan = (refl, refl, refl);
        })
        refl
  added (some l) h = elim (Bool-cases (env.adds d.asked)) [
    | inl e ↦ rw e (created l refl (h l refl))
    | inr e ↦ rw e (
        failed _ driver_error refl
          (record {
            same_link = update_back d.link l (some (new_link v)) none (sym (h l refl));
            same_vif = λ i. refl;
            same_phy = λ i. refl;
            same_ctx = λ i. refl;
            same_scan = (refl, refl, refl);
          })
          refl)
  ]

  got_with : (o : Option ℕ) → find_link d p (d.vif v).links ≡ o → Got d p v (get_with env d p v o)
  unfolding get_with add_offchannel
  got_with (some l) e = let (x, there, own, on) = ready.own_links l e in found l x refl there own on
  got_with none e = elim (Bool-cases env.has_link_add) [
    | inl h ↦ simp h (added (env.alloc d.asked) (ready.new_memory d.asked))
    | inr h ↦ rw h (failed d einval refl (Same-refl d) refl)
  ]

  pub got : Got d p v (get_vif_phy_link env d p v)
  unfolding get_vif_phy_link
  got = got_with (find_link d p (d.vif v).links) refl
