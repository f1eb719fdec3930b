-- ===== src/Recv/Sta/Doze.antt =====
-- The power-save state of a station follows its frames, and each change is told once.
use mt.Common.{
  ℕ, ◌≡◌, refl, sym, ◌∙◌, ap, ap₂, Bool, true, false, not, ◌&&◌, ◌||◌, Option, none, some, List, [],
  ◌∷◌, ◌++◌, append-nil, append_assoc, if◌then◌else◌, ◌==◌,
}
use mt.Common.Ring.{update, update_keeps}
use mt.Recv.Sta.{
  Sta, Heard, Action, pspoll, uapsd_trigger, sta_ps, ps_transition, Dev, act, put_sta, same,
  station,
}

-- The power-save changes of station `w` that mac80211 is told.
abbrev pub is_for : ℕ → ℕ → Bool → List Bool
is_for w v b = if w == v then b ∷ [] else []

abbrev pub told_of : ℕ → Action → List Bool
told_of w (pspoll v) = []
told_of w (uapsd_trigger v t) = []
told_of w (sta_ps v b c) = []
told_of w (ps_transition v b) = is_for w v b

unfoldable pub transitions : ℕ → List Action → List Bool
transitions w [] = []
transitions w (a ∷ rest) = told_of w a ++ transitions w rest

-- While the driver is told of a change, MT_WCID_FLAG_PS is set.
abbrev pub IsOn : Action → Type 0
IsOn (pspoll v) = Unit {0}
IsOn (uapsd_trigger v t) = Unit {0}
IsOn (sta_ps v b c) = c ≡ true
IsOn (ps_transition v b) = Unit {0}

abbrev pub AllOn : List Action → Type 0
AllOn [] = Unit {0}
AllOn (a ∷ rest) = IsOn a × AllOn rest

-- Each change is told when it is one.
abbrev pub Alternate : Bool → List Bool → Type 0
Alternate b [] = Unit {0}
Alternate b (c ∷ cs) = (c ≡ not b) × Alternate c cs

-- A frame of station `w` that says whether the station dozes; `k` says whether `w` is watched.
abbrev pub is_from : ℕ → Option ℕ → Bool
is_from w none = false
is_from w (some v) = w == v

abbrev pub watched : Dev → ℕ → Bool
watched d w = (d.wcid w).sta && (d.wcid w).check_ps

abbrev pub of_doze : Heard → Bool
of_doze f = not f.is_8023 && (not f.is_pspoll && (not f.has_morefrags && (f.is_mgmt || f.is_data)))

abbrev pub next_ps : Bool → ℕ → Bool → Heard → Option ℕ → Bool
next_ps k w b f o = if is_from w o && (k && of_doze f) then f.has_pm else b

-- The state after the frames, and the changes on the way.
abbrev pub news : Bool → Bool → List Bool
news b c = if same b c then [] else c ∷ []

abbrev pub follow : Bool → ℕ → Bool → List Heard → Bool
follow k w b [] = b
follow k w b (f ∷ fs) = follow k w (next_ps k w b f (station f)) fs

abbrev pub changes : Bool → ℕ → Bool → List Heard → List Bool
changes k w b [] = []
changes k w b (f ∷ fs) =
    news b (next_ps k w b f (station f)) ++ changes k w (next_ps k w b f (station f)) fs

pub transitions-append :
    (w : ℕ) (xs ys : List Action) → transitions w (xs ++ ys) ≡ transitions w xs ++ transitions w ys
unfolding transitions
transitions-append w [] ys = refl
transitions-append w (a ∷ rest) ys =
    ap (λ t. told_of w a ++ t) (transitions-append w rest ys)
    ∙ sym (append_assoc (told_of w a) (transitions w rest) (transitions w ys))

pub AllOn-append : (xs ys : List Action) → AllOn xs → AllOn ys → AllOn (xs ++ ys)
AllOn-append [] ys a b = b
AllOn-append (x ∷ xs) ys a b = (a.0, AllOn-append xs ys a.1 b)

module _ (w : ℕ) where
  -- What the frames of one call leave: `p` is the station's state after them, `ts` what was told.
  pub record IsStep (d e : Dev) (p : Bool) (ts : List Bool) : Type 0 where
    pub new : List Action
    pub log : e.actions ≡ d.actions ++ new
    pub told_is : transitions w new ≡ ts
    pub ps_is : (e.wcid w).ps ≡ p
    pub on : AllOn new
    pub sta_is : (e.wcid w).sta ≡ (d.wcid w).sta
    pub check_is : (e.wcid w).check_ps ≡ (d.wcid w).check_ps

  pub no_step : (d : Dev) → IsStep d d (d.wcid w).ps []
  unfolding transitions
  no_step d = record {
    new = [];
    log = sym (append-nil _);
    told_is = refl;
    ps_is = refl;
    on = tt;
    sta_is = refl;
    check_is = refl;
  }

  pub step_on :
      (d e f : Dev) (p q : Bool) (ts us : List Bool)
      → IsStep d e p ts
      → IsStep e f q us
      → IsStep d f q (ts ++ us)
  step_on d e f p q ts us a b = record {
    new = a.new ++ b.new;
    log = b.log ∙ (ap (λ t. t ++ b.new) a.log ∙ append_assoc d.actions a.new b.new);
    told_is = transitions-append w a.new b.new ∙ ap₂ ◌++◌ a.told_is b.told_is;
    ps_is = b.ps_is;
    on = AllOn-append a.new b.new a.on b.on;
    sta_is = b.sta_is ∙ a.sta_is;
    check_is = b.check_is ∙ a.check_is;
  }

  pub act_step : (d : Dev) (a : Action) → IsOn a → IsStep d (act d a) (d.wcid w).ps (told_of w a)
  unfolding transitions
  act_step d a h = record {
    new = a ∷ [];
    log = refl;
    told_is = append-nil _;
    ps_is = refl;
    on = (h, tt);
    sta_is = refl;
    check_is = refl;
  }

  -- A station that keeps `sta` and `check_ps`.
  pub put_step :
      (d : Dev) (v : ℕ) (x : Sta)
      → x.sta ≡ (d.wcid v).sta
      → x.check_ps ≡ (d.wcid v).check_ps
      → IsStep d (put_sta d v x) (update d.wcid v x w).ps []
  unfolding transitions
  put_step d v x a b = record {
    new = [];
    log = sym (append-nil _);
    told_is = refl;
    ps_is = refl;
    on = tt;
    sta_is = update_keeps (λ y. y.sta) d.wcid v x a w;
    check_is = update_keeps (λ y. y.check_ps) d.wcid v x b w;
  }
