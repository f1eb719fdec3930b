-- ===== src/Recv/Parted.antt =====
-- The frames of mt76_rx parted into A-MSDUs, and what a release does to them.
use mt.Common.{
  ℕ, ◌≡◌, refl, sym, ◌∙◌, ap, subst, Bool, true, false, not, ◌&&◌, ◌==◌, Option, none, some, List,
  [], ◌∷◌, ◌++◌, append-nil, append_assoc, if◌then◌else◌, Bool-cases, inl, inr,
}
use mt.Recv.{Frame, Amsdu, Queue, is_spoofed, release_with}

abbrev pub msdus : Amsdu → List Frame
msdus a = a.first ∷ a.frags

unfoldable pub flat : List Amsdu → List Frame
flat [] = []
flat (g ∷ gs) = msdus g ++ flat gs

abbrev pub held : Option Amsdu → List Frame
held none = []
held (some a) = msdus a

-- What is passed on and what is freed of the A-MSDUs that were put together.
unfoldable pub passed : List Amsdu → List Amsdu
passed [] = []
passed (g ∷ gs) = if is_spoofed g then passed gs else g ∷ passed gs

unfoldable pub spoofed : List Amsdu → List Amsdu
spoofed [] = []
spoofed (g ∷ gs) = if is_spoofed g then g ∷ spoofed gs else spoofed gs

-- The MSDUs behind the first belong to it, and only the last ends the A-MSDU.
abbrev pub Follow : ℕ → List Frame → Type 0
Follow s [] = Unit {0}
Follow s (f ∷ fs) = (f.amsdu ≡ true) × (f.first_amsdu ≡ false) × (f.seqno ≡ s) × Follow s fs

abbrev pub GoesOn : Frame → List Frame → Type 0
GoesOn f [] = Unit {0}
GoesOn f (g ∷ gs) = (f.amsdu ≡ true) × (f.last_amsdu ≡ false) × GoesOn g gs

abbrev pub IsWhole : Amsdu → Type 0
IsWhole a = Follow a.first.seqno a.frags × GoesOn a.first a.frags

abbrev pub AllWhole : List Amsdu → Type 0
AllWhole [] = Unit {0}
AllWhole (g ∷ gs) = IsWhole g × AllWhole gs

-- The last frame of what is held waits for another.
abbrev pub IsOpen : Frame → List Frame → Type 0
IsOpen f [] = (f.amsdu ≡ true) × (f.last_amsdu ≡ false)
IsOpen f (g ∷ gs) = IsOpen g gs

abbrev pub HeldWhole : Queue → Option Amsdu → Type 0
HeldWhole q none = Unit {0}
HeldWhole q (some a) = IsWhole a × (q.seqno ≡ a.first.seqno)

abbrev pub HeldOpen : Option Amsdu → Type 0
HeldOpen none = Unit {0}
HeldOpen (some a) = IsOpen a.first a.frags

-- An A-MSDU is parted from what follows it only where it must: its last frame ends it, or the frame
-- that comes next, if any, does not go on with it.
abbrev pub last_of : Frame → List Frame → Frame
last_of f [] = f
last_of f (g ∷ gs) = last_of g gs

abbrev pub is_open : Amsdu → Bool
is_open a = let f = last_of a.first a.frags in f.amsdu && not f.last_amsdu

abbrev pub goes_on : Amsdu → Frame → Bool
goes_on a f = is_open a && (f.amsdu && (not f.first_amsdu && (f.seqno == a.first.seqno)))

abbrev pub Apart : Amsdu → Option Frame → Type 0
Apart a none = is_open a ≡ false
Apart a (some f) = goes_on a f ≡ false

abbrev pub next_of : List Amsdu → Option Frame → Option Frame
next_of [] next = next
next_of (g ∷ gs) next = some g.first

abbrev pub AllApart : List Amsdu → Option Frame → Type 0
AllApart [] next = Unit {0}
AllApart (g ∷ gs) next = Apart g (next_of gs next) × AllApart gs next

-- What follows the A-MSDUs that were released: the first frame held, or `next` behind them.
abbrev pub following : Option Amsdu → Option Frame → Option Frame
following none next = next
following (some a) next = some a.first

AllApart-last :
    (gs : List Amsdu) (a : Amsdu) (next : Option Frame)
    → AllApart gs (some a.first)
    → Apart a next
    → AllApart (gs ++ (a ∷ [])) next
AllApart-last [] a next h e = (e, tt)
AllApart-last (g ∷ []) a next h e = (h.0, (e, tt))
AllApart-last (g ∷ i ∷ gs) a next h e = (h.0, AllApart-last (i ∷ gs) a next h.1 e)

closed-Apart : (a : Amsdu) (f : Frame) → is_open a ≡ false → goes_on a f ≡ false
closed-Apart a f e = rw e refl

-- Those that have all ended stay parted whatever comes.
pub closed-AllApart : (gs : List Amsdu) (f : Frame) → AllApart gs none → AllApart gs (some f)
closed-AllApart [] f h = tt
closed-AllApart (g ∷ []) f h = (closed-Apart g f h.0, tt)
closed-AllApart (g ∷ i ∷ gs) f h = (h.0, closed-AllApart (i ∷ gs) f h.1)

-- The frames `fs` were parted into the A-MSDUs `gs`, in their order, and what is held; `next` is the
-- frame that comes next, if it is known.
pub record Parted (next : Option Frame) (fs : List Frame) (q : Queue) : Type 0 where
  pub gs : List Amsdu
  pub in_order : flat gs ++ held q.head ≡ fs
  pub went_on : q.rx_skb ≡ passed gs
  pub went_away : q.freed ≡ spoofed gs
  pub all_whole : AllWhole gs
  pub all_apart : AllApart gs (following q.head next)
  pub held_whole : HeldWhole q q.head

flat-last : (gs : List Amsdu) (a : Amsdu) → flat (gs ++ (a ∷ [])) ≡ flat gs ++ msdus a
unfolding flat
flat-last [] a = append-nil (msdus a)
flat-last (g ∷ gs) a =
    ap (λ t. msdus g ++ t) (flat-last gs a) ∙ sym (append_assoc (msdus g) (flat gs) (msdus a))

passed-last :
    (gs : List Amsdu) (a : Amsdu)
    → passed (gs ++ (a ∷ [])) ≡ (if is_spoofed a then passed gs else passed gs ++ (a ∷ []))
unfolding passed
passed-last [] a = refl
passed-last (g ∷ gs) a = elim (Bool-cases (is_spoofed g)) [
  | inl e ↦ rw e (passed-last gs a)
  | inr e ↦ elim (Bool-cases (is_spoofed a)) [
    | inl h ↦ let r = passed-last gs a in rw (e, h) (ap (λ t. g ∷ t) (r ∙ rw h refl))
    | inr h ↦ let r = passed-last gs a in rw (e, h) (ap (λ t. g ∷ t) (r ∙ rw h refl))
  ]
]

spoofed-last :
    (gs : List Amsdu) (a : Amsdu)
    → spoofed (gs ++ (a ∷ [])) ≡ (if is_spoofed a then spoofed gs ++ (a ∷ []) else spoofed gs)
unfolding spoofed
spoofed-last [] a = refl
spoofed-last (g ∷ gs) a = elim (Bool-cases (is_spoofed g)) [
  | inr e ↦ rw e (spoofed-last gs a)
  | inl e ↦ elim (Bool-cases (is_spoofed a)) [
    | inl h ↦ let r = spoofed-last gs a in rw (e, h) (ap (λ t. g ∷ t) (r ∙ rw h refl))
    | inr h ↦ let r = spoofed-last gs a in rw (e, h) (ap (λ t. g ∷ t) (r ∙ rw h refl))
  ]
]

AllWhole-last : (gs : List Amsdu) (a : Amsdu) → AllWhole gs → IsWhole a → AllWhole (gs ++ (a ∷ []))
AllWhole-last [] a h w = (w, tt)
AllWhole-last (g ∷ gs) a h w = (h.0, AllWhole-last gs a h.1 w)

-- What is held is passed on or freed.
pub release_with-Parted :
    {x : Option Frame} (next : Option Frame) (fs : List Frame) (q : Queue) (o : Option Amsdu)
    → q.head ≡ o
    → (p : Parted x fs q) → (o ≡ none → AllApart p.gs next)
    → ((a : Amsdu) → o ≡ some a → Apart a next)
    → Parted next fs (release_with q o) × ((release_with q o).head ≡ none)
unfolding release_with
release_with-Parted next fs q none e p w v = (
  record {
    gs = p.gs;
    in_order = p.in_order;
    went_on = p.went_on;
    went_away = p.went_away;
    all_whole = p.all_whole;
    all_apart = subst (λ h. AllApart p.gs (following h next)) (sym e) (w refl);
    held_whole = p.held_whole;
  },
  e,
)
release_with-Parted {x = x} next fs q (some a) e p w v = by_test (is_spoofed a) refl
  where
    order : flat (p.gs ++ (a ∷ [])) ++ [] ≡ fs
    order = append-nil _ ∙ (flat-last p.gs a ∙ (ap (λ o. flat p.gs ++ held o) (sym e) ∙ p.in_order))

    whole : AllWhole (p.gs ++ (a ∷ []))
    whole = AllWhole-last p.gs a p.all_whole (subst (HeldWhole q) e p.held_whole).0

    apart : AllApart (p.gs ++ (a ∷ [])) next
    apart =
        AllApart-last p.gs a next (subst (λ h. AllApart p.gs (following h x)) e p.all_apart)
          (v a refl)

    on :
        (b : Bool)
        → is_spoofed a ≡ b
        → passed (p.gs ++ (a ∷ [])) ≡ (if b then passed p.gs else passed p.gs ++ (a ∷ []))
    on b h = passed-last p.gs a ∙ ap (λ c. if c then passed p.gs else passed p.gs ++ (a ∷ [])) h

    away :
        (b : Bool)
        → is_spoofed a ≡ b
        → spoofed (p.gs ++ (a ∷ [])) ≡ (if b then spoofed p.gs ++ (a ∷ []) else spoofed p.gs)
    away b h =
        spoofed-last p.gs a ∙ ap (λ c. if c then spoofed p.gs ++ (a ∷ []) else spoofed p.gs) h

    by_test :
        (b : Bool)
        → is_spoofed a ≡ b
        → Parted next fs (
            if is_spoofed a
            then record q { head = none; freed = q.freed ++ (a ∷ []) }
            else record q { head = none; rx_skb = q.rx_skb ++ (a ∷ []) })
          × ((if is_spoofed a
                then record q { head = none; freed = q.freed ++ (a ∷ []) }
                else record q { head = none; rx_skb = q.rx_skb ++ (a ∷ []) }).head
              ≡ none)
    by_test true h = rw h (
      record {
        gs = p.gs ++ (a ∷ []);
        in_order = order;
        went_on = p.went_on ∙ sym (on true h);
        went_away = ap (λ t. t ++ (a ∷ [])) p.went_away ∙ sym (away true h);
        all_whole = whole;
        all_apart = apart;
        held_whole = tt;
      },
      refl,
    )
    by_test false h = rw h (
      record {
        gs = p.gs ++ (a ∷ []);
        in_order = order;
        went_on = ap (λ t. t ++ (a ∷ [])) p.went_on ∙ sym (on false h);
        went_away = p.went_away ∙ sym (away false h);
        all_whole = whole;
        all_apart = apart;
        held_whole = tt;
      },
      refl,
    )
