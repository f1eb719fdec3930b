-- ===== src/Tx/Waiting.antt =====
-- What mt76_txq_schedule_pending does with the frames that wait.
use mt.Common.{
  ℕ, ◌+◌, ◌≡◌, refl, ◌∙◌, ap, Bool, true, false, not, ◌&&◌, List, [], ◌∷◌, ◌++◌, Bool-cases, inl,
  inr,
}
use mt.Tx.{
  Frame, Drained, Station, Served, is_empty, queue_of, pending_wcid, if_going, serve_pending,
  requeued, schedule_pending,
}

abbrev pub frames : List (ℕ × Frame) → List Frame
frames [] = []
frames ((q, f) ∷ xs) = f ∷ frames xs

frames-append : (xs ys : List (ℕ × Frame)) → frames (xs ++ ys) ≡ frames xs ++ frames ys
frames-append [] ys = refl
frames-append ((q, f) ∷ xs) ys = ap (λ l. f ∷ l) (frames-append xs ys)

and_false : (b : Bool) → (b && false) ≡ false
and_false true = refl
and_false false = refl

-- What is queued of a list is its front, and what is left its rest.
pub record Split (before : List Frame) (d : Drained) : Type 0 where
  pub in_order : frames d.sent ++ d.left ≡ before
  pub all_sent : d.ok ≡ true → d.left ≡ []

-- A station before and after.
pub record Conserved (s : Station) (r : Served) : Type 0 where
  pub off_sent : List Frame
  pub pending_sent : List Frame
  pub off_lem : off_sent ++ r.station.tx_offchannel ≡ s.tx_offchannel
  pub pending_lem : pending_sent ++ r.station.tx_pending ≡ s.tx_pending
  pub sent_lem : frames r.sent ≡ off_sent ++ pending_sent
  pub listed_lem :
      r.station.listed
      ≡ not (is_empty r.station.tx_pending) && not (is_empty r.station.tx_offchannel)

pub data Pairs (R : Station → Served → Type 0) : List Station → List Served → Type 0 where
  none_left : Pairs R [] []
  one_more :
      {s : Station} {r : Served} {ss : List Station} {rs : List Served}
      → R s r
      → Pairs R ss rs
      → Pairs R (s ∷ ss) (r ∷ rs)

module _ (mgmt : Bool) (stopped : ℕ → ℕ → Bool) where
  pending_wcid_lem :
      (off : Bool) (n : ℕ) (fs : List Frame) → Split fs (pending_wcid mgmt stopped off n fs)
  unfolding pending_wcid
  pending_wcid_lem off n [] = record { in_order = refl; all_sent = λ h. refl }
  pending_wcid_lem off n (f ∷ fs) =
      let rest = pending_wcid_lem off (n + 1) fs in
      elim (Bool-cases (stopped n (queue_of mgmt off f))) [
        | inl e ↦ rw e (record { in_order = refl; all_sent = λ h. cc })
        | inr e ↦
            rw e (record { in_order = ap (λ l. f ∷ l) rest.in_order; all_sent = rest.all_sent })
      ]

  if_going_lem :
      (go off : Bool) (n : ℕ) (fs : List Frame)
      → frames (if_going mgmt stopped go off n fs).sent ++ (if_going mgmt stopped go off n fs).left
        ≡ fs
  unfolding if_going
  if_going_lem true off n fs = (pending_wcid_lem off n fs).in_order
  if_going_lem false off n fs = refl

  serve_pending_lem :
      (offchannel ok : Bool) (n : ℕ) (fs : List Frame)
      → frames (serve_pending mgmt stopped offchannel ok n fs).sent
          ++ (serve_pending mgmt stopped offchannel ok n fs).left
        ≡ fs
  unfolding serve_pending
  serve_pending_lem true ok n fs = refl
  serve_pending_lem false ok n fs = if_going_lem ok false n fs

  -- Whatever queues stop: of each station on the list, a front of tx_offchannel and then a front of
  -- tx_pending are queued in order and the rest waits, so no frame is lost or doubled; the station is
  -- on the list again exactly if frames wait in both of its lists.
  pub schedule_pending_lem :
      (offchannel ok : Bool) (n : ℕ) (ss : List Station)
      → Pairs Conserved ss (schedule_pending mgmt stopped offchannel ok n ss)
  unfolding schedule_pending requeued
  schedule_pending_lem offchannel ok n [] = none_left
  schedule_pending_lem offchannel ok n (s ∷ ss) =
      let a = if_going mgmt stopped ok true n s.tx_offchannel in
      let b = serve_pending mgmt stopped offchannel a.ok a.tests s.tx_pending in
      one_more
        (record {
          off_sent = frames a.sent;
          pending_sent = frames b.sent;
          off_lem = if_going_lem ok true n s.tx_offchannel;
          pending_lem = serve_pending_lem offchannel a.ok a.tests s.tx_pending;
          sent_lem = frames-append a.sent b.sent;
          listed_lem = refl;
        })
        (schedule_pending_lem offchannel b.ok b.tests ss)

  module _ (free : (n q : ℕ) → stopped n q ≡ false) where
    all_sent :
        (off : Bool) (n : ℕ) (fs : List Frame)
        → ((pending_wcid mgmt stopped off n fs).ok ≡ true)
          × ((pending_wcid mgmt stopped off n fs).left ≡ [])
    unfolding pending_wcid
    all_sent off n [] = (refl, refl)
    all_sent off n (f ∷ fs) = rw (free n (queue_of mgmt off f)) (all_sent off (n + 1) fs)

    going_lem :
        (go off : Bool) (n : ℕ) (fs : List Frame)
        → go ≡ true
        → ((if_going mgmt stopped go off n fs).ok ≡ true)
          × ((if_going mgmt stopped go off n fs).left ≡ [])
    unfolding if_going
    going_lem true off n fs h = all_sent off n fs
    going_lem false off n fs h = absurd cc

    -- If no queue stops, the phy is on its channel and `ret` is not negative at first, no frame waits
    -- at a station of the list any more.
    pub schedule_pending_drains :
        (ok : Bool) (n : ℕ) (ss : List Station)
        → ok ≡ true
        → Pairs
            (λ s r. (r.station.tx_offchannel ≡ []) × (r.station.tx_pending ≡ []))
            ss
            (schedule_pending mgmt stopped false ok n ss)
    unfolding schedule_pending serve_pending
    schedule_pending_drains ok n [] h = none_left
    schedule_pending_drains ok n (s ∷ ss) h =
        let a = if_going mgmt stopped ok true n s.tx_offchannel in
        let (on, off_empty) = going_lem ok true n s.tx_offchannel h in
        let b = if_going mgmt stopped a.ok false a.tests s.tx_pending in
        let (on', pending_empty) = going_lem a.ok false a.tests s.tx_pending on in
        one_more (off_empty, pending_empty) (schedule_pending_drains b.ok b.tests ss on')

    -- If no queue stops, the phy is off its channel and `ret` is not negative at first, the frames of
    -- tx_pending wait and no station is put on the list again, not even one with such frames.
    pub schedule_pending_strands :
        (ok : Bool) (n : ℕ) (ss : List Station)
        → ok ≡ true
        → Pairs
            (λ s r. (r.station.tx_pending ≡ s.tx_pending) × (r.station.listed ≡ false))
            ss
            (schedule_pending mgmt stopped true ok n ss)
    unfolding schedule_pending serve_pending requeued
    schedule_pending_strands ok n [] h = none_left
    schedule_pending_strands ok n (s ∷ ss) h =
        let a = if_going mgmt stopped ok true n s.tx_offchannel in
        let (on, off_empty) = going_lem ok true n s.tx_offchannel h in
        one_more
          (
            refl,
            ap (λ l. not (is_empty s.tx_pending) && not (is_empty l)) off_empty
                ∙ and_false (not (is_empty s.tx_pending)),
          )
          (schedule_pending_strands a.ok a.tests ss on)
