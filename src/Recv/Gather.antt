-- ===== src/Recv/Gather.antt =====
-- Calls of mt76_rx in any order part the frames into whole A-MSDUs.
use mt.Common.{
  ◌≡◌, refl, sym, ◌∙◌, ap, subst, Bool, true, false, not, ◌||◌, Option, none, some, List, [], ◌∷◌,
  ◌++◌, append-nil, append_assoc, if◌then◌else◌, ◌==◌, Bool-cases, inl, inr,
}
use mt.Recv.{
  Frame, Amsdu, Queue, is_spoofed, release_with, release_amsdu, hold_with, hold, release_burst, rx,
}
use mt.Recv.Burst.{Ready, release_burst-Ready, no_frames, empty-Ready}
use mt.Recv.Parted.{flat, held, passed, spoofed, AllWhole, HeldWhole, HeldOpen, AllApart, following}

-- Calls of mt76_rx, each with whether the device runs.
unfoldable pub rx_all : Queue → List (Bool × Frame) → Queue
rx_all q [] = q
rx_all q ((running, f) ∷ cs) = rx_all (rx running q f) cs

-- The frames of the calls that find the device running, and the others.
pub taken : List (Bool × Frame) → List Frame
taken [] = []
taken ((running, f) ∷ cs) = if running then f ∷ taken cs else taken cs

pub refused : List (Bool × Frame) → List Frame
refused [] = []
refused ((running, f) ∷ cs) = if running then refused cs else f ∷ refused cs

release_with-dropped : (q : Queue) (o : Option Amsdu) → (release_with q o).dropped ≡ q.dropped
unfolding release_with
release_with-dropped q none = refl
release_with-dropped q (some a) = elim (Bool-cases (is_spoofed a)) [
  | inl e ↦ rw e refl
  | inr e ↦ rw e refl
]

hold-dropped : (q : Queue) (f : Frame) → (hold q f).dropped ≡ q.dropped
unfolding hold hold_with
hold-dropped q f = held_one q.head
  where
    held_one : (o : Option Amsdu) → (hold_with q f o).dropped ≡ q.dropped
    held_one none = refl
    held_one (some a) = refl

either_dropped :
    (b : Bool) (q r : Queue) (l : List Frame)
    → q.dropped ≡ l
    → r.dropped ≡ l
    → (if b then q else r).dropped ≡ l
either_dropped true q r l e f = e
either_dropped false q r l e f = f

release_burst-dropped : (q : Queue) (f : Frame) → (release_burst q f).dropped ≡ q.dropped
unfolding release_burst release_amsdu
release_burst-dropped q f =
    let r =
      if not f.amsdu || (f.first_amsdu || not (f.seqno == q.seqno)) then release_amsdu q else q in
    let e =
      hold-dropped r f
      ∙ either_dropped _ (release_with q q.head) q q.dropped (release_with-dropped q q.head) refl in
    either_dropped (not f.amsdu || f.last_amsdu) (release_amsdu (hold r f)) (hold r f) q.dropped
      (release_with-dropped (hold r f) (hold r f).head ∙ e) e

rx_all-Ready :
    (fs : List Frame) (q : Queue) (cs : List (Bool × Frame))
    → Ready fs q
    → Ready (fs ++ taken cs) (rx_all q cs) × ((rx_all q cs).dropped ≡ q.dropped ++ refused cs)
unfolding rx_all taken refused rx
rx_all-Ready fs q [] r = (subst (λ l. Ready l q) (sym (append-nil fs)) r, sym (append-nil _))
rx_all-Ready fs q ((true, f) ∷ cs) r =
    let (a, d) =
      rx_all-Ready (fs ++ (f ∷ [])) (release_burst q f) cs (release_burst-Ready fs q f r) in
    (
      subst (λ l. Ready l (rx_all (release_burst q f) cs)) (append_assoc fs (f ∷ []) (taken cs)) a,
      d ∙ ap (λ l. l ++ refused cs) (release_burst-dropped q f),
    )
rx_all-Ready fs q ((false, f) ∷ cs) r =
    let b = record q { dropped = q.dropped ++ (f ∷ []) } in
    let (a, d) = rx_all-Ready fs b cs (
      record {
        gs = r.0.gs;
        in_order = r.0.in_order;
        went_on = r.0.went_on;
        went_away = r.0.went_away;
        all_whole = r.0.all_whole;
        all_apart = r.0.all_apart;
        held_whole = r.0.held_whole;
      },
      r.1,
    ) in
    (a, d ∙ append_assoc q.dropped (f ∷ []) (refused cs))

-- What any sequence of calls leaves in a queue that was empty: the frames that came while the device
-- ran, in their order, are those of the A-MSDUs `gs`, in their order, and of what is still held. Of
-- `gs`, those that are not spoofed were passed on in order, and the spoofed were freed. In each of them
-- the frames behind the first carry its sequence number and are no first MSDU, and only the last may
-- end it. And none is shorter than it must be: either its last frame is its last MSDU or no part of an
-- A-MSDU, or the next frame is no part of one, a first MSDU, or has another sequence number. What is
-- held is such an A-MSDU whose last MSDU has not come. The other frames were freed.
pub rx_lem :
    (cs : List (Bool × Frame))
    → let q = rx_all no_frames cs in
      ((gs : List Amsdu) × (flat gs ++ held q.head ≡ taken cs)
        × (q.rx_skb ≡ passed gs)
        × (q.freed ≡ spoofed gs)
        × AllWhole gs
        × AllApart gs (following q.head none)
        × HeldWhole q q.head
        × HeldOpen q.head)
      × (q.dropped ≡ refused cs)
rx_lem cs =
    let ((p, waits), d) = rx_all-Ready [] no_frames cs empty-Ready in
    ((p.gs, p.in_order, p.went_on, p.went_away, p.all_whole, p.all_apart, p.held_whole, waits), d)
