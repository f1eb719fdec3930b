-- ===== src/Recv/Burst.antt =====
-- How mt76_rx puts the MSDUs of an A-MSDU together.
use mt.Common.{
  ℕ, ◌≡◌, refl, sym, ◌∙◌, ap, subst, arith, Bool, true, false, not, ◌&&◌, ◌||◌, Option, none, some,
  List, [], ◌∷◌, ◌++◌, append-nil, append_assoc, if◌then◌else◌, ◌==◌, ==→eq, Bool-cases, inl, inr,
}
use mt.Recv.{Frame, Amsdu, Queue, release_with, release_amsdu, hold_with, hold, release_burst}
use mt.Recv.Parted.{
  msdus, flat, held, passed, spoofed, Follow, GoesOn, IsOpen, HeldWhole, HeldOpen, Parted,
  release_with-Parted, last_of, is_open, goes_on, AllApart, following, closed-AllApart,
}

Follow-last :
    (s : ℕ) (fs : List Frame) (f : Frame)
    → Follow s fs
    → f.amsdu ≡ true
    → f.first_amsdu ≡ false
    → f.seqno ≡ s
    → Follow s (fs ++ (f ∷ []))
Follow-last s [] f h a b c = (a, b, c, tt)
Follow-last s (g ∷ fs) f h a b c = (h.0, h.1, h.2, Follow-last s fs f h.3 a b c)

GoesOn-last :
    (g : Frame) (fs : List Frame) (f : Frame)
    → GoesOn g fs
    → IsOpen g fs
    → GoesOn g (fs ++ (f ∷ []))
GoesOn-last g [] f h o = (o.0, o.1, tt)
GoesOn-last g (x ∷ fs) f h o = (h.0, h.1, GoesOn-last x fs f h.2 o)

IsOpen-last :
    (g : Frame) (fs : List Frame) (f : Frame)
    → f.amsdu ≡ true
    → f.last_amsdu ≡ false
    → IsOpen g (fs ++ (f ∷ []))
IsOpen-last g [] f a b = (a, b)
IsOpen-last g (x ∷ fs) f a b = IsOpen-last x fs f a b

-- What is asked of a frame that is put behind what is held.
abbrev Fits : Queue → Frame → Option Amsdu → Type 0
Fits q f none = Unit {0}
Fits q f (some a) = (f.amsdu ≡ true) × (f.first_amsdu ≡ false) × (f.seqno ≡ q.seqno)

-- The frame is the last of what is held.
abbrev pub EndsWith : Frame → Option Amsdu → Type 0
EndsWith f none = ⊥
EndsWith f (some a) = last_of a.first a.frags ≡ f

last_of-last : (g : Frame) (fs : List Frame) (f : Frame) → last_of g (fs ++ (f ∷ [])) ≡ f
last_of-last g [] f = refl
last_of-last g (x ∷ fs) f = last_of-last x fs f

hold_with-Parted :
    (fs : List Frame) (q : Queue) (f : Frame) (o : Option Amsdu)
    → q.head ≡ o
    → Parted (some f) fs q
    → HeldOpen o
    → Fits q f o
    → Parted none (fs ++ (f ∷ [])) (hold_with q f o)
      × (f.amsdu ≡ true → f.last_amsdu ≡ false → HeldOpen (hold_with q f o).head)
      × EndsWith f (hold_with q f o).head
unfolding hold_with
hold_with-Parted fs q f none e p waits fits = (
  record {
    gs = p.gs;
    in_order =
        ap (λ t. t ++ (f ∷ []))
          (sym (append-nil _) ∙ (ap (λ o. flat p.gs ++ held o) (sym e) ∙ p.in_order));
    went_on = p.went_on;
    went_away = p.went_away;
    all_whole = p.all_whole;
    all_apart = subst (λ h. AllApart p.gs (following h (some f))) e p.all_apart;
    held_whole = ((tt, tt), refl);
  },
  λ a b. (a, b),
  refl,
)
hold_with-Parted fs q f (some a) e p waits fits =
    let (w, s) = subst (HeldWhole q) e p.held_whole in
    (
      record {
        gs = p.gs;
        in_order =
            sym (append_assoc (flat p.gs) (msdus a) (f ∷ []))
            ∙ ap (λ t. t ++ (f ∷ [])) (ap (λ o. flat p.gs ++ held o) (sym e) ∙ p.in_order);
        went_on = p.went_on;
        went_away = p.went_away;
        all_whole = p.all_whole;
        all_apart = subst (λ h. AllApart p.gs (following h (some f))) e p.all_apart;
        held_whole = (
          (
            Follow-last a.first.seqno a.frags f w.0 fits.0 fits.1 (fits.2 ∙ s),
            GoesOn-last a.first a.frags f w.1 waits,
          ),
          s,
        );
      },
      λ b c. IsOpen-last a.first a.frags f b c,
      last_of-last a.first a.frags f,
    )

abbrev pub Ready : List Frame → Queue → Type 0
Ready fs q = Parted none fs q × HeldOpen q.head

or_split : (a b c : Bool) → (not a || (b || not c)) ≡ false → (a ≡ true) × (b ≡ false) × (c ≡ true)
or_split a b c h = ground arith

and_split : (o a b c : Bool) → (not a || (b || not c)) ≡ true → (o && (a && (not b && c))) ≡ false
and_split o a b c h = ground arith

or_two : (a b : Bool) → (not a || b) ≡ false → (a ≡ true) × (b ≡ false)
or_two a b h = ground arith

hold-Parted :
    (fs : List Frame) (q : Queue) (f : Frame)
    → Parted (some f) fs q
    → HeldOpen q.head
    → ((o : Option Amsdu) → q.head ≡ o → Fits q f o)
    → Parted none (fs ++ (f ∷ [])) (hold q f)
      × (f.amsdu ≡ true → f.last_amsdu ≡ false → HeldOpen (hold q f).head)
      × EndsWith f (hold q f).head
unfolding hold
hold-Parted fs q f p waits fits = hold_with-Parted fs q f q.head refl p waits (fits q.head refl)

closed :
    (a : Amsdu)
    → (not (last_of a.first a.frags).amsdu || (last_of a.first a.frags).last_amsdu) ≡ true
    → is_open a ≡ false
closed a e = ground (arith, e)

end-Ready :
    (fs : List Frame) (h : Queue) (f : Frame)
    → Parted none fs h
    → (f.amsdu ≡ true → f.last_amsdu ≡ false → HeldOpen h.head)
    → EndsWith f h.head
    → Ready fs (if not f.amsdu || f.last_amsdu then release_amsdu h else h)
unfolding release_amsdu
end-Ready fs h f p waits last = elim (Bool-cases (not f.amsdu || f.last_amsdu)) [
  | inl e ↦
      let (r, none_held) =
        release_with-Parted none fs h h.head refl p (λ n. absurd (subst (EndsWith f) n last))
          (λ a o.
            closed a
              (ap (λ (g : Frame). not g.amsdu || g.last_amsdu) (subst (EndsWith f) o last) ∙ e)) in
      rw e (r, subst HeldOpen (sym none_held) tt)
  | inr e ↦ let (a, b) = or_two _ _ e in rw e (p, waits a b)
]

no_fit : (q : Queue) (f : Frame) → q.head ≡ none → (o : Option Amsdu) → q.head ≡ o → Fits q f o
no_fit q f e none h = tt
no_fit q f e (some a) h = absurd (none-some (sym e ∙ h))
  where
    none-some : none ≡ some a → ⊥
    none-some h = ground arith

pub release_burst-Ready :
    (fs : List Frame) (q : Queue) (f : Frame)
    → Ready fs q
    → Ready (fs ++ (f ∷ [])) (release_burst q f)
unfolding release_burst release_amsdu
release_burst-Ready fs q f (p, waits) =
    elim (Bool-cases (not f.amsdu || (f.first_amsdu || not (f.seqno == q.seqno)))) [
      | inl e ↦
          let (r, none_held) =
            release_with-Parted (some f) fs q q.head refl p
              (λ n.
                closed-AllApart p.gs f
                  (subst (λ h. AllApart p.gs (following h none)) n p.all_apart))
              (λ a o. not_on a (subst (HeldWhole q) o p.held_whole).1 e) in
          let (h, w, l) =
            hold-Parted fs (release_with q q.head) f r (subst HeldOpen (sym none_held) tt)
              (no_fit (release_with q q.head) f none_held) in
          rw e (end-Ready (fs ++ (f ∷ [])) (hold (release_with q q.head) f) f h w l)
      | inr e ↦
          let (a, b, c) = or_split _ _ _ e in
          let (h, w, l) = hold-Parted fs q f (coming p) waits (always a b (==→eq _ _ c)) in
          rw e (end-Ready (fs ++ (f ∷ [])) (hold q f) f h w l)
    ]
  where
    not_on :
        (a : Amsdu)
        → q.seqno ≡ a.first.seqno
        → (not f.amsdu || (f.first_amsdu || not (f.seqno == q.seqno))) ≡ true
        → goes_on a f ≡ false
    not_on a same e =
        and_split (is_open a) f.amsdu f.first_amsdu (f.seqno == a.first.seqno)
          (ap (λ n. not f.amsdu || (f.first_amsdu || not (f.seqno == n))) (sym same) ∙ e)

    coming : Parted none fs q → Parted (some f) fs q
    coming p = record {
      gs = p.gs;
      in_order = p.in_order;
      went_on = p.went_on;
      went_away = p.went_away;
      all_whole = p.all_whole;
      all_apart = known q.head p.all_apart;
      held_whole = p.held_whole;
    }
      where
        known :
            (h : Option Amsdu)
            → AllApart p.gs (following h none)
            → AllApart p.gs (following h (some f))
        known none a = closed-AllApart p.gs f a
        known (some x) a = a

    always :
        f.amsdu ≡ true
        → f.first_amsdu ≡ false
        → f.seqno ≡ q.seqno
        → (o : Option Amsdu) → q.head ≡ o
        → Fits q f o
    always a b c none h = tt
    always a b c (some x) h = (a, b, c)

abbrev pub no_frames : Queue
no_frames = record { head = none; seqno = 0; rx_skb = []; dropped = []; freed = [] }

pub empty-Ready : Ready [] no_frames
unfolding flat passed spoofed
empty-Ready = (
  record {
    gs = [];
    in_order = refl;
    went_on = refl;
    went_away = refl;
    all_whole = tt;
    all_apart = tt;
    held_whole = tt;
  },
  tt,
)
