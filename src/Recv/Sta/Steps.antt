-- ===== src/Recv/Sta/Steps.antt =====
-- What each part of mt76_check_sta leaves of a station's power-save state.
use mt.Common.{
  ℕ, ◌≡◌, refl, sym, ◌∙◌, ap, Bool, true, false, ◌&&◌, ◌||◌, List, [], if◌then◌else◌, ◌==◌, ◌%◌,
}
use mt.Common.Ring.{update, update_self}
use mt.Recv.Sta.{
  Sta, Heard, uapsd_trigger, sta_ps, ps_transition, Dev, act, put_sta, same, told, change, trigger,
}
use mt.Recv.Sta.Doze.{is_for, IsStep, no_step, step_on, act_step, put_step}

module _ (w : ℕ) where
  -- A branch.
  pub step_if :
      (c : Bool) (d x y : Dev) (p : Bool) (ts : List Bool)
      → (c ≡ true → IsStep w d x p ts)
      → (c ≡ false → IsStep w d y p ts)
      → IsStep w d (if c then x else y) p ts
  step_if true d x y p ts f g = f refl
  step_if false d x y p ts f g = g refl

  pub as_step :
      (d e : Dev) (p q : Bool) (ts us : List Bool)
      → p ≡ q
      → ts ≡ us
      → IsStep w d e p ts
      → IsStep w d e q us
  as_step d e p q ts us a b s = record {
    new = s.new;
    log = s.log;
    told_is = s.told_is ∙ b;
    ps_is = s.ps_is ∙ a;
    on = s.on;
    sta_is = s.sta_is;
    check_is = s.check_is;
  }

  if_ps : (c : Bool) (x y : Sta) → (if c then x else y).ps ≡ (if c then x.ps else y.ps)
  if_ps true x y = refl
  if_ps false x y = refl

  if_same : (c b : Bool) → (if c then b else b) ≡ b
  if_same true b = refl
  if_same false b = refl

  if_twice : (c a b : Bool) → (if c then a else if c then a else b) ≡ (if c then a else b)
  if_twice true a b = refl
  if_twice false a b = refl

  pub trigger_step : (d : Dev) (v : ℕ) (f : Heard) → IsStep w d (trigger d v f) (d.wcid w).ps []
  unfolding trigger
  trigger_step d v f =
      step_if (f.has_pm && (f.is_data_qos || f.is_qos_nullfunc)) d _ _ _ _
        (λ e. act_step w d (uapsd_trigger v (f.qos_ctl % 16)) tt) (λ e. no_step w d)

  -- The flag is set before the driver is told, and cleared after.
  told_step :
      (h : Bool) (d : Dev) (v : ℕ) (b : Bool)
      → (d.wcid v).ps ≡ true
      → IsStep w d (told h d v b) (d.wcid w).ps []
  unfolding told
  told_step h d v b e = step_if h d _ _ _ _ (λ g. act_step w d (sta_ps v b _) e) (λ g. no_step w d)

  a_ps :
      (d : Dev) (v : ℕ) (b : Bool)
      → (update d.wcid v (record (d.wcid v) { ps = b }) w).ps
        ≡ (if w == v then b else (d.wcid w).ps)
  a_ps d v b = if_ps (w == v) (record (d.wcid v) { ps = b }) (d.wcid w)

  keep_step :
      (d : Dev) (v : ℕ) (b : Bool)
      → IsStep w d
          (put_sta d v (record (d.wcid v) { ps = b }))
          (if w == v then b else (d.wcid w).ps)
          []
  keep_step d v b =
      as_step d _ _ _ _ _ (a_ps d v b) refl
        (put_step w d v (record (d.wcid v) { ps = b }) refl refl)

  not_off : (b : Bool) → same b false ≡ false → b ≡ true
  not_off true e = refl
  not_off false e = sym e

  change_step :
      (h : Bool) (d : Dev) (v : ℕ) (b : Bool)
      → same (d.wcid v).ps b ≡ false
      → IsStep w d (change h d v b) (if w == v then b else (d.wcid w).ps) (is_for w v b)
  unfolding change
  change_step h d v true e =
      let a = put_sta d v (record (d.wcid v) { ps = true }) in
      let t = told h a v true in
      let s = told_step h a v true (ap (λ x. x.ps) (update_self d.wcid v _)) in
      let p = if w == v then true else (d.wcid w).ps in
      let ends : IsStep w d t p [] =
        step_on w d a t _ p [] [] (keep_step d v true)
          (as_step a t _ p [] [] (a_ps d v true) refl s) in
      step_on w d t (act t (ps_transition v true)) p p [] (is_for w v true) ends
        (as_step t _ _ p _ _ ends.ps_is refl (act_step w t (ps_transition v true) tt))
  change_step h d v false e =
      let t = told h d v false in
      let s = told_step h d v false (not_off _ e) in
      let c = put_sta t v (record (t.wcid v) { ps = false }) in
      let p = if w == v then false else (d.wcid w).ps in
      let ends : IsStep w d c p [] = step_on w d t c _ p [] [] s (
        as_step t c _ p [] [] (ap (λ b. if w == v then false else b) s.ps_is) refl
          (keep_step t v false)) in
      step_on w d c (act c (ps_transition v false)) p p [] (is_for w v false) ends
        (as_step c _ _ p _ _ ends.ps_is refl (act_step w c (ps_transition v false) tt))

  trigger-wcid : (d : Dev) (v : ℕ) (f : Heard) → (trigger d v f).wcid ≡ d.wcid
  unfolding trigger
  trigger-wcid d v f =
      elim (f.has_pm && (f.is_data_qos || f.is_qos_nullfunc))
        as (λ b. (if b then act d (uapsd_trigger v (f.qos_ctl % 16)) else d).wcid ≡ d.wcid) [
          | true ↦ refl
          | false ↦ refl
        ]

  pub turn_step :
      (h : Bool) (d : Dev) (v : ℕ) (f : Heard)
      → same (d.wcid v).ps f.has_pm ≡ false
      → IsStep w d
          (change h (trigger d v f) v f.has_pm)
          (if w == v then f.has_pm else (d.wcid w).ps)
          (is_for w v f.has_pm)
  turn_step h d v f e =
      let t = trigger d v f in
      let s = trigger_step d v f in
      step_on w d t _ _ _ [] _ s (
        as_step t _ _ _ _ _ (ap (λ b. if w == v then f.has_pm else b) s.ps_is) refl
          (change_step h t v f.has_pm (ap (λ g. same (g v).ps f.has_pm) (trigger-wcid d v f) ∙ e)))
