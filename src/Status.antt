-- ===== src/Status.antt =====
-- tx.c: the frames whose transmit status is reported to mac80211, which end once the DMA ring has
-- given them back and the firmware's status report (or its timeout) has come, in either order.
pub mod Inv
pub mod End
pub mod Flush
pub mod Give
pub mod Listed
pub mod Ends
pub mod Sweep
pub mod Account
pub mod Add
pub mod Done
mod Tests
use mt.Common.{
  ℕ, zero, suc, ◌+◌, Bool, true, false, not, ◌&&◌, ◌||◌, Option, none, some, List, [], ◌∷◌, ◌++◌,
  if◌then◌else◌, ◌==◌, ltb,
}
use mt.Common.Ring.{update}
use mt.Kernel.Idr.{IdrOps}

-- MT_PACKET_ID_NO_ACK, MT_PACKET_ID_NO_SKB, MT_PACKET_ID_WED, MT_PACKET_ID_FIRST, MT_PACKET_ID_MASK
abbrev pub no_ack : ℕ
no_ack = 0

abbrev pub no_skb : ℕ
no_skb = 1

abbrev pub for_wed : ℕ
for_wed = 2

abbrev pub first_id : ℕ
first_id = 3

abbrev pub id_mask : ℕ
id_mask = 127

-- struct mt76_tx_cb, its flags as Booleans.
pub record Cb : Type 0 where
  pub jiffies : ℕ
  pub wcid : ℕ
  pub pktid : ℕ
  pub dma_done : Bool
  pub txs_done : Bool
  pub txs_failed : Bool

abbrev pub no_cb : Cb
no_cb = record {
  jiffies = 0;
  wcid = 0;
  pktid = 0;
  dma_done = false;
  txs_done = false;
  txs_failed = false;
}

-- The device: the frames' control blocks, whether a frame is marked as acknowledged, which stations
-- are in dev->wcid, each station's ids, dev->wcid_list, the frames of the local list, and those that
-- were passed to mac80211.
pub record Dev (S : Type 0) : Type 0 where
  pub cb : ℕ → Cb
  pub acked : ℕ → Bool
  pub known : ℕ → Bool
  pub ids : ℕ → S
  pub wcid_list : List ℕ
  pub ended : List ℕ
  pub reported : List ℕ

-- What mac80211 asks for in a frame's flags, and whether it is a frame for WED.
pub record Request : Type 0 where
  pub wants_no_ack : Bool
  pub wants_status : Bool
  pub is_wed : Bool

-- The DMA ring has given the frame back, its status has come, or it is given up.
pub data Reason : Type 0 where
  dma txs timeout : Reason

abbrev pub flagged : Cb → Reason → Cb
flagged c dma = record c { dma_done = true }
flagged c txs = record c { txs_done = true }
flagged c timeout = record c { txs_failed = true; txs_done = true }

abbrev pub has : List ℕ → ℕ → Bool
has [] w = false
has (v ∷ vs) w = (v == w) || has vs w

abbrev pub without : List ℕ → ℕ → List ℕ
without [] w = []
without (v ∷ vs) w = if v == w then without vs w else v ∷ without vs w

abbrev pub present : Option ℕ → Bool
present none = false
present (some x) = true

abbrev pub any_id : {S : Type 0} → IdrOps S → S → ℕ → ℕ → Bool
any_id k s zero i = false
any_id k s (suc n) i = present (k.find s i) || any_id k s n (i + 1)

module _ {S : Type 0} (k : IdrOps S) (ignore_failed : Bool) where
  -- __mt76_tx_status_skb_done
  pub skb_done : Dev S → ℕ → Reason → Dev S
  skb_done d x r =
      let c = flagged (d.cb x) r in
      let e = record d { cb = update d.cb x c } in
      if not (c.dma_done && c.txs_done) then e else record e {
        acked = if c.txs_failed && ignore_failed then update e.acked x true else e.acked;
        ended = e.ended ++ (x ∷ []);
      }

  -- mt76_tx_status_skb_add, `w` none for a NULL pointer: the device and the packet id.
  pub with_id : Dev S → ℕ → ℕ → S × Option ℕ → Dev S × ℕ
  with_id d w x (s, none) = (record d { ids = update d.ids w s }, no_skb)
  with_id d w x (s, some i) = (
    record d {
      ids = update d.ids w s;
      cb = update d.cb x (record (d.cb x) { wcid = w; pktid = i });
      wcid_list = if has d.wcid_list w then d.wcid_list else d.wcid_list ++ (w ∷ []);
    },
    i,
  )

  pub add_for : Dev S → ℕ → ℕ → Request → Dev S × ℕ
  add_for d w x r =
      if not (d.known w) || r.wants_no_ack
      then (d, no_ack)
      else (if not r.wants_status
          then (d, if r.is_wed then for_wed else no_skb)
          else with_id d w x (k.alloc (d.ids w) x first_id id_mask))

  pub cleared : Dev S → ℕ → Dev S
  cleared d x = record d { cb = update d.cb x no_cb }

  pub skb_add : Dev S → Option ℕ → ℕ → Request → Dev S × ℕ
  skb_add d none x r = (cleared d x, no_ack)
  skb_add d (some w) x r = add_for (cleared d x) w x r

  -- One entry of the loop of mt76_tx_status_skb_get; `late` says for a control block's time whether
  -- MT_TX_STATUS_SKB_TIMEOUT has passed, and `all` whether the packet id is negative.
  pub give_up : Dev S → ℕ → ℕ → Dev S
  give_up d w x =
      let s = (k.remove (d.ids w) (d.cb x).pktid).0 in
      skb_done (record d { ids = update d.ids w s }) x timeout

  pub stale_with : (ℕ → Bool) → Bool → Dev S → ℕ → Option ℕ → Dev S
  stale_with late all d w none = d
  stale_with late all d w (some x) =
      if all || ((d.cb x).dma_done && late (d.cb x).jiffies) then give_up d w x else d

  pub stale : (ℕ → Bool) → Bool → Dev S → ℕ → ℕ → ℕ → Dev S
  stale late all d w zero i = d
  stale late all d w (suc n) i =
      stale late all (stale_with late all d w (k.find (d.ids w) i)) w n (i + 1)

  pub unlist : Dev S → ℕ → Dev S
  unlist d w =
      if any_id k (d.ids w) id_mask 0 then d else record d { wcid_list = without d.wcid_list w }

  -- mt76_tx_status_skb_get: the packet id is none where it is negative.
  pub get_with : (ℕ → Bool) → Bool → Dev S → ℕ → S × Option ℕ → Dev S × Option ℕ
  get_with late all d w (s, some x) = (unlist (record d { ids = update d.ids w s }) w, some x)
  get_with late all d w (s, none) =
      (unlist (stale late all (record d { ids = update d.ids w s }) w id_mask 0) w, none)

  pub skb_get : (ℕ → Bool) → Dev S → ℕ → Option ℕ → Dev S × Option ℕ
  skb_get late d w none = get_with late true d w (d.ids w, none)
  skb_get late d w (some i) = get_with late false d w (k.remove (d.ids w) i)

  -- mt76_tx_status_unlock
  pub unlock : Dev S → Dev S
  unlock d = record d { ended = []; reported = d.reported ++ d.ended }

  -- mt76_tx_status_check
  pub check_each : (ℕ → Bool) → Bool → Dev S → List ℕ → Dev S
  check_each late flush d [] = d
  check_each late flush d (w ∷ ws) =
      check_each late flush (skb_get late d w (if flush then none else some 0)).0 ws

  pub status_check : (ℕ → Bool) → Bool → Dev S → Dev S
  status_check late flush d = unlock (check_each late flush d d.wcid_list)

  -- mt76_connac2_mac_add_txs_skb; `is_ack` is what the report says.
  pub report_with : Bool → Dev S × Option ℕ → Dev S
  report_with is_ack (d, none) = d
  report_with is_ack (d, some x) =
      skb_done (record d { acked = if is_ack then update d.acked x true else d.acked }) x txs

  pub add_txs : (ℕ → Bool) → Dev S → ℕ → ℕ → Bool → Dev S
  add_txs late d w i is_ack = unlock (report_with is_ack (skb_get late d w (some i)))

  -- __mt76_tx_complete_skb, at time `now`
  pub complete_skb : ℕ → Dev S → ℕ → Dev S
  complete_skb now d x =
      if ltb (d.cb x).pktid first_id
      then record d { reported = d.reported ++ (x ∷ []) }
      else unlock
          (skb_done (record d { cb = update d.cb x (record (d.cb x) { jiffies = now }) }) x dma)
