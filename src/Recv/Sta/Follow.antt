-- ===== src/Recv/Sta/Follow.antt =====
-- What the frames of mt76_check_sta leave of a station's power-save state.
use mt.Common.{
  ℕ, ◌≡◌, refl, sym, ◌∙◌, ap, subst, Bool, true, false, not, ◌&&◌, ◌||◌, Option, none, some, List,
  [], ◌∷◌, ◌++◌, if◌then◌else◌, ◌==◌, ==_refl, ==→eq, Bool-cases, inl, inr, arith,
}
use mt.Common.Ring.{update_keeps}
use mt.Recv.Sta.{
  Heard, Action, pspoll, Dev, put_sta, same, station, seen, trigger, check_ps, check_with,
  check_sta, check_all,
}
use mt.Recv.Sta.Doze.{
  transitions, AllOn, watched, of_doze, Alternate, next_ps, news, follow, changes, IsStep, no_step,
  step_on, act_step, put_step,
}
use mt.Recv.Sta.Steps.{step_if, as_step, trigger_step, turn_step}

module _ (w : ℕ) where
  -- A frame of another station.
  other_step :
      (h : Bool) (d : Dev) (v : ℕ) (f : Heard)
      → (w == v) ≡ false
      → IsStep w d (check_ps h d v f) (d.wcid w).ps []
  unfolding check_ps
  other_step h d v f ne =
      step_if w (f.is_8023 || not (d.wcid v).check_ps) d _ _ _ _ (λ e. no_step w d)
        (λ e.
          step_if w f.is_pspoll d _ _ _ _ (λ g. act_step w d (pspoll v) tt)
            (λ g.
              step_if w (f.has_morefrags || not (f.is_mgmt || f.is_data)) d _ _ _ _
                (λ i. no_step w d)
                (λ i.
                  step_if w (same (d.wcid v).ps f.has_pm) d _ _ _ _ (λ j. trigger_step w d v f)
                    (λ j.
                      as_step w d _ _ _ _ _ (ap (λ b. if b then f.has_pm else (d.wcid w).ps) ne)
                        (ap (λ b. if b then f.has_pm ∷ [] else []) ne) (turn_step w h d v f j)))))

  same_self : (b : Bool) → same b b ≡ true
  same_self true = refl
  same_self false = refl

  same_eq : (b c : Bool) → same b c ≡ true → b ≡ c
  same_eq true c e = sym e
  same_eq false true e = e
  same_eq false false e = refl

  -- A frame that says nothing of the station.
  quiet :
      (d e : Dev) (c : Bool) (b : Bool)
      → c ≡ false
      → IsStep w d e (d.wcid w).ps []
      → IsStep w d e
          (if c then b else (d.wcid w).ps)
          (news (d.wcid w).ps (if c then b else (d.wcid w).ps))
  quiet d e c b g s =
      as_step w d e _ _ _ _ (sym (ap (λ x. if x then b else (d.wcid w).ps) g))
        (sym (
          ap (news (d.wcid w).ps) (ap (λ x. if x then b else (d.wcid w).ps) g)
          ∙ ap (λ x. if x then [] else ((d.wcid w).ps ∷ [])) (same_self (d.wcid w).ps)))
        s

  either : (c : Bool) {a b : Bool} → b ≡ a → (if c then a else b) ≡ b
  either true e = sym e
  either false e = refl

  self : {A : Type 0} (a b : A) → (if w == w then a else b) ≡ a
  self a b = ap (λ c. if c then a else b) (==_refl w)

  when : (c a b : Bool) → c ≡ true → (if c then a else b) ≡ a
  when c a b e = ap (λ x. if x then a else b) e

  turned : (c a b : Bool) → c ≡ true → same b a ≡ false → news b (if c then a else b) ≡ a ∷ []
  turned c a b e g = ap (news b) (when c a b e) ∙ ap (λ x. if x then [] else a ∷ []) g

  own_step :
      (h : Bool) (d : Dev) (f : Heard) (c : Bool)
      → ((d.wcid w).check_ps && of_doze f) ≡ c
      → IsStep w d
          (check_ps h d w f)
          (if c then f.has_pm else (d.wcid w).ps)
          (news (d.wcid w).ps (if c then f.has_pm else (d.wcid w).ps))
  unfolding check_ps
  own_step h d f c k =
      step_if w (f.is_8023 || not (d.wcid w).check_ps) d _ _ _ _
        (λ e. quiet d d c f.has_pm (ground arith) (no_step w d))
        (λ e.
          step_if w f.is_pspoll d _ _ _ _
            (λ g. quiet d _ c f.has_pm (ground arith) (act_step w d (pspoll w) tt))
            (λ g.
              step_if w (f.has_morefrags || not (f.is_mgmt || f.is_data)) d _ _ _ _
                (λ i. quiet d d c f.has_pm (ground arith) (no_step w d))
                (λ i.
                  step_if w (same (d.wcid w).ps f.has_pm) d _ _ _ _
                    (λ j.
                      subst (λ b. IsStep w d (trigger d w f) b (news (d.wcid w).ps b))
                        (sym (either c (same_eq _ _ j)))
                        (quiet d _ false true refl (trigger_step w d w f)))
                    (λ j.
                      as_step w d _ _ _ _ _
                        (self f.has_pm (d.wcid w).ps ∙ sym (when c _ _ (ground arith)))
                        (self (f.has_pm ∷ []) [] ∙ sym (turned c _ _ (ground arith) j))
                        (turn_step w h d w f j)))))

  seen_step :
      (d : Dev) (v : ℕ) (f : Heard) → IsStep w d (put_sta d v (seen (d.wcid v) f)) (d.wcid w).ps []
  unfolding seen
  seen_step d v f =
      as_step w d _ _ _ _ _ (update_keeps (λ y. y.ps) d.wcid v (seen (d.wcid v) f) refl w) refl
        (put_step w d v (seen (d.wcid v) f) refl refl)

  of_self : (a b c d : Bool) → not a ≡ false → d ≡ b → (d && c) ≡ ((w == w) && ((a && b) && c))
  of_self true b c d g e = ap (λ x. x && c) e ∙ sym (ap (λ x. x && (b && c)) (==_refl w))
  of_self false b c d g e = ground arith

  not_of : (a b c t : Bool) → not a ≡ true → (t && ((a && b) && c)) ≡ false
  not_of true b c t e = ground arith
  not_of false b c true e = refl
  not_of false b c false e = refl

  own_heard :
      (h : Bool) (d : Dev) (f : Heard)
      → not (d.wcid w).sta ≡ false
      → IsStep w d
          (check_ps h (put_sta d w (seen (d.wcid w) f)) w f)
          (next_ps (watched d w) w (d.wcid w).ps f (some w))
          (news (d.wcid w).ps (next_ps (watched d w) w (d.wcid w).ps f (some w)))
  own_heard h d f a =
      let e = put_sta d w (seen (d.wcid w) f) in
      let s = seen_step d w f in
      let c = (w == w) && (watched d w && of_doze f) in
      step_on w d e (check_ps h e w f) _ _ [] _ s (
        subst
          (λ b.
            IsStep w e (check_ps h e w f) (if c then f.has_pm else b)
              (news b (if c then f.has_pm else b)))
          s.ps_is (own_step h e f c (of_self _ _ (of_doze f) _ a s.check_is)))

  heard_step :
      (h : Bool) (d : Dev) (v : ℕ) (f : Heard)
      → not (d.wcid v).sta ≡ false
      → IsStep w d
          (check_ps h (put_sta d v (seen (d.wcid v) f)) v f)
          (next_ps (watched d w) w (d.wcid w).ps f (some v))
          (news (d.wcid w).ps (next_ps (watched d w) w (d.wcid w).ps f (some v)))
  heard_step h d v f a =
      let e = put_sta d v (seen (d.wcid v) f) in
      let s = seen_step d v f in
      elim (Bool-cases (w == v)) [
        | inl g ↦
            subst
              (λ v.
                IsStep w d (check_ps h (put_sta d v (seen (d.wcid v) f)) v f)
                  (next_ps (watched d w) w (d.wcid w).ps f (some v))
                  (news (d.wcid w).ps (next_ps (watched d w) w (d.wcid w).ps f (some v))))
              (==→eq w v g)
              (own_heard h d f (subst (λ u. not (d.wcid u).sta ≡ false) (sym (==→eq w v g)) a))
        | inr g ↦ quiet d _ _ f.has_pm (ap (λ x. x && (watched d w && of_doze f)) g) (
            step_on w d e _ _ _ [] [] s (as_step w e _ _ _ _ _ s.ps_is refl (other_step h e v f g)))
      ]

  not_sta :
      (d : Dev) (v : ℕ) (f : Heard)
      → not (d.wcid v).sta ≡ true
      → ((w == v) && (watched d w && of_doze f)) ≡ false
  not_sta d v f a = elim (Bool-cases (w == v)) [
    | inl g ↦
        not_of (d.wcid w).sta (d.wcid w).check_ps (of_doze f) (w == v)
          (subst (λ u. not (d.wcid u).sta ≡ true) (sym (==→eq w v g)) a)
    | inr g ↦ ap (λ x. x && (watched d w && of_doze f)) g
  ]

  with_step :
      (h : Bool) (d : Dev) (f : Heard) (o : Option ℕ)
      → IsStep w d
          (check_with h d f o)
          (next_ps (watched d w) w (d.wcid w).ps f o)
          (news (d.wcid w).ps (next_ps (watched d w) w (d.wcid w).ps f o))
  unfolding check_with
  with_step h d f none = quiet d d false true refl (no_step w d)
  with_step h d f (some v) =
      let e = put_sta d v (seen (d.wcid v) f) in
      step_if w (not (d.wcid v).sta) d _ _ _ _
        (λ a. quiet d d _ f.has_pm (not_sta d v f a) (no_step w d)) (λ a. heard_step h d v f a)

  -- Frames one after the other.
  pub all_step :
      (h : Bool) (d : Dev) (fs : List Heard)
      → IsStep w d
          (check_all h d fs)
          (follow (watched d w) w (d.wcid w).ps fs)
          (changes (watched d w) w (d.wcid w).ps fs)
  unfolding check_all check_sta
  all_step h d [] = no_step w d
  all_step h d (f ∷ fs) =
      let e = check_sta h d f in
      let s = with_step h d f (station f) in
      let k =
        ap (λ x. x && (e.wcid w).check_ps) s.sta_is ∙ ap (λ x. (d.wcid w).sta && x) s.check_is in
      step_on w d e (check_all h e fs) _ _ _ _ s (
        subst
          (λ b.
            IsStep w e (check_all h e fs) (follow (watched d w) w b fs)
              (changes (watched d w) w b fs))
          s.ps_is
          (subst
            (λ k.
              IsStep w e (check_all h e fs) (follow k w (e.wcid w).ps fs)
                (changes k w (e.wcid w).ps fs))
            k (all_step h e fs)))

news-Alternate : (b c : Bool) (cs : List Bool) → Alternate c cs → Alternate b (news b c ++ cs)
news-Alternate true true cs a = a
news-Alternate true false cs a = (refl, a)
news-Alternate false true cs a = (refl, a)
news-Alternate false false cs a = a

changes-Alternate : (k : Bool) (w : ℕ) (b : Bool) (fs : List Heard) → Alternate b (changes k w b fs)
changes-Alternate k w b [] = tt
changes-Alternate k w b (f ∷ fs) =
    news-Alternate b _ _ (changes-Alternate k w (next_ps k w b f (station f)) fs)

-- For any frames and any station, the doze flag ends as the last frame that speaks for the station
-- says, and stays as it was if none does; such a frame is of that station, which is a peer whose
-- frames are checked, is not in 802.3 form, no PS-Poll and no fragment with more to come, and
-- is data or management. mac80211 is told exactly the changes on the way, each once and in order, so
-- that two changes told one after the other differ; and whenever the driver is told of a change, of
-- any station, the flag of that station is set.
pub check_all_lem :
    (w : ℕ) (h : Bool) (d : Dev) (fs : List Heard)
    → (((check_all h d fs).wcid w).ps ≡ follow (watched d w) w (d.wcid w).ps fs)
      × (new : List Action) × ((check_all h d fs).actions ≡ d.actions ++ new)
      × (transitions w new ≡ changes (watched d w) w (d.wcid w).ps fs)
      × Alternate (d.wcid w).ps (transitions w new)
      × AllOn new
check_all_lem w h d fs =
    let s = all_step w h d fs in
    (
      s.ps_is,
      s.new,
      s.log,
      s.told_is,
      subst (Alternate (d.wcid w).ps) (sym s.told_is) (changes-Alternate _ w _ fs),
      s.on,
    )
