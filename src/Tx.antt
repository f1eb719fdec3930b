-- ===== src/Tx.antt =====
-- tx.c: the frames that wait at a station until the hardware queues take them.
pub mod Waiting
mod Tests
use mt.Common.{ℕ, ◌+◌, Bool, true, false, not, ◌&&◌, ◌||◌, List, [], ◌∷◌, ◌++◌, if◌then◌else◌}

-- What mt76_txq_schedule_pending_wcid reads of an sk_buff: its queue mapping,
-- IEEE80211_TX_CTL_HW_80211_ENCAP, and what kind of frame it is.
pub record Frame : Type 0 where
  pub id : ℕ
  pub mapping : ℕ
  pub encap : Bool
  pub is_data : Bool
  pub is_bufferable : Bool
  pub is_deauth : Bool

-- MT_TXQ_PSD
abbrev pub txq_psd : ℕ
txq_psd = 4

-- The hardware queue of a frame; `mgmt` is MT_DRV_HW_MGMT_TXQ, `off` whether the frame waits in
-- tx_offchannel.
pub queue_of : Bool → Bool → Frame → ℕ
queue_of mgmt off f =
    if mgmt && (not f.encap && (not f.is_data && (not f.is_bufferable || (f.is_deauth || off))))
    then txq_psd
    else f.mapping

-- A list of frames after a round: whether it went on to its end, what is left, what was queued and
-- how often a queue was tested.
pub record Drained : Type 0 where
  pub ok : Bool
  pub left : List Frame
  pub sent : List (ℕ × Frame)
  pub tests : ℕ

-- A station with the two lists; `listed`: it is on phy->tx_list.
pub record Station : Type 0 where
  pub tx_offchannel : List Frame
  pub tx_pending : List Frame
  pub listed : Bool

pub record Served : Type 0 where
  pub station : Station
  pub sent : List (ℕ × Frame)

abbrev pub is_empty : List Frame → Bool
is_empty [] = true
is_empty _ = false

pub requeued : Station → Bool
requeued s = not (is_empty s.tx_pending) && not (is_empty s.tx_offchannel)

-- `stopped n q`: what the n-th test finds of queue q (mt76_txq_stopped, or MT76_RESET).
module _ (mgmt : Bool) (stopped : ℕ → ℕ → Bool) where
  -- mt76_txq_schedule_pending_wcid
  pub pending_wcid : Bool → ℕ → List Frame → Drained
  pending_wcid off n [] = record { ok = true; left = []; sent = []; tests = n }
  pending_wcid off n (f ∷ fs) =
      let rest = pending_wcid off (n + 1) fs in
      let q = queue_of mgmt off f in
      if stopped n q
      then record { ok = false; left = f ∷ fs; sent = []; tests = n + 1 }
      else record rest { sent = (q, f) ∷ rest.sent }

  -- A list that is served only if `go`.
  pub if_going : Bool → Bool → ℕ → List Frame → Drained
  if_going true off n fs = pending_wcid off n fs
  if_going false off n fs = record { ok = false; left = fs; sent = []; tests = n }

  -- The second list, which is left alone during off-channel operation of the phy.
  pub serve_pending : Bool → Bool → ℕ → List Frame → Drained
  serve_pending true ok n fs = record { ok = ok; left = fs; sent = []; tests = n }
  serve_pending false ok n fs = if_going ok false n fs

  -- mt76_txq_schedule_pending on the stations that are spliced off phy->tx_list; `offchannel` is the
  -- phy's and `ok` says that `ret` is not negative, as it is at first. Each station comes back with what was queued for it.
  pub schedule_pending : Bool → Bool → ℕ → List Station → List Served
  schedule_pending offchannel ok n [] = []
  schedule_pending offchannel ok n (s ∷ ss) =
      let a = if_going ok true n s.tx_offchannel in
      let b = serve_pending offchannel a.ok a.tests s.tx_pending in
      let after : Station = record {
        tx_offchannel = a.left;
        tx_pending = b.left;
        listed = false;
      } in
      record { station = record after { listed = requeued after }; sent = a.sent ++ b.sent }
      ∷ schedule_pending offchannel b.ok b.tests ss
