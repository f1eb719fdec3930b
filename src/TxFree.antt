-- ===== src/TxFree.antt =====
-- mt7902/mac.c, mt7921_mac_tx_free: a report of the firmware on frames it is done with, and what the
-- driver does for each of them.
pub mod Flow
pub mod Frees
pub mod Walk
pub mod Whole
mod Tests
use mt.Common.{
  ℕ, zero, suc, ◌+◌, ◌-◌, ◌*◌, ◌/◌, ◌%◌, Bool, true, false, not, ◌&&◌, ◌||◌, Option, none, some,
  List, [], ◌∷◌, ◌++◌, if◌then◌else◌, ◌==◌, ltb, length, get_elem?,
}
use mt.Common.Ring.{update}
use mt.Kernel.Idr.{IdrOps}
use mt.Token.{Tokens, release, wake_up}

-- struct mt76_wcid as a report uses it; `def_wcid` is the entry of the station's default link, and
-- `polled` says that the entry is on sta_poll_list. The counters are u32.
pub record Wcid : Type 0 where
  pub sta : Bool
  pub def_wcid : Option ℕ
  pub polled : Bool
  pub tx_retries : ℕ
  pub tx_failed : ℕ

-- struct mt76_txwi_cache, with the station's index in its descriptor, and whether its frame is of
-- the protocol ETH_P_PAE.
pub record Txwi : Type 0 where
  pub skb : Option ℕ
  pub wlan_idx : ℕ
  pub is_pae : Bool

-- What is asked of the rest of the driver. Stations are known by the index of their entry.
pub data Action : Type 0 where
  clean_psd : Action
  clean_be : Action
  unmap : ℕ → Action
  check_aggr : ℕ → ℕ → Action
  complete : ℕ → ℕ → Action
  put_txwi : ℕ → Action
  consume_free_list : Action
  sta_poll : Action
  schedule : Action

-- dev->wcid is a function of the index, which a report and a descriptor give in ten bits, fewer than
-- the array has; none is NULL.
pub record Dev (S : Type 0) : Type 0 where
  pub tokens : Tokens S
  pub wcid : ℕ → Option Wcid
  pub sta_poll_list : List ℕ
  pub mcu_reset : Bool
  pub txwi : ℕ → Txwi
  pub actions : List Action

-- `outside` is a read beyond the report; `unfinished` a loop that its fuel did not suffice for.
pub data Res (A : Type 0) : Type 0 where
  ok : A → Res A
  outside : Res A
  unfinished : Res A

-- The fields of a word of the report.
abbrev pub is_pair : ℕ → Bool
is_pair info = info / 2147483648 % 2 == 1

abbrev pub wlan_id : ℕ → ℕ
wlan_id info = info / 16384 % 1024

abbrev pub msdu_id : ℕ → ℕ
msdu_id info = info / 65536 % 32768

abbrev pub status : ℕ → ℕ
status info = info / 8192 % 4

abbrev pub tx_count : ℕ → ℕ
tx_count info = info % 8192

-- mt76_wcid_ptr, and wcid_to_sta of what it gives
abbrev pub wcid_ptr : Option Wcid → ℕ → Option ℕ
wcid_ptr none idx = none
wcid_ptr (some x) idx = some idx

abbrev pub get_or_self : Option ℕ → ℕ → ℕ
get_or_self none idx = idx
get_or_self (some w) idx = w

abbrev pub wcid_to_sta : Option Wcid → ℕ → Option ℕ
wcid_to_sta none idx = none
wcid_to_sta (some x) idx = if not x.sta then none else some (get_or_self x.def_wcid idx)

-- wcid->stats of the entry that the last pair gave
abbrev pub counted : Option Wcid → ℕ → Option Wcid
counted none info = none
counted (some x) info = some (record x {
  tx_retries = (x.tx_retries + (tx_count info + 4294967295) % 4294967296) % 4294967296;
  tx_failed = (x.tx_failed + (if status info == 0 then 0 else 1)) % 4294967296;
})

module _ {S : Type 0} where
  abbrev pub act : Dev S → Action → Dev S
  act d a = record d { actions = d.actions ++ (a ∷ []) }

  -- mt76_wcid_add_poll
  pub add_poll_with : Dev S → ℕ → Option Wcid → Dev S
  add_poll_with d w none = d
  add_poll_with d w (some x) =
      if d.mcu_reset || not x.sta then d else if x.polled then d else record d {
        wcid = update d.wcid w (some (record x { polled = true }));
        sta_poll_list = d.sta_poll_list ++ (w ∷ []);
      }

  pub wcid_add_poll : Dev S → ℕ → Dev S
  wcid_add_poll d w = add_poll_with d w (d.wcid w)

  -- mt76_connac2_txwi_free of an entry with frame `skb`: the station that the report named, if any;
  -- else that of the descriptor.
  pub complete_for : Dev S → ℕ → ℕ → ℕ → Option ℕ → Dev S
  complete_for d t skb idx none = act d (complete idx skb)
  complete_for d t skb idx (some w) =
      if not (d.txwi t).is_pae
      then act (act d (check_aggr w t)) (complete idx skb)
      else act d (complete idx skb)

  pub free_unnamed : Dev S → ℕ → ℕ → ℕ → Option Wcid → Dev S
  free_unnamed d t skb idx none = complete_for d t skb idx none
  free_unnamed d t skb idx (some x) =
      if x.sta
      then complete_for (wcid_add_poll d idx) t skb idx (some idx)
      else complete_for d t skb idx none

  pub free_skb : Dev S → ℕ → Option ℕ → Option ℕ → Dev S
  free_skb d t none sta = d
  free_skb d t (some skb) (some w) = complete_for d t skb w (some w)
  free_skb d t (some skb) none =
      let idx = (d.txwi t).wlan_idx in free_unnamed d t skb idx (d.wcid idx)

  pub txwi_free : Dev S → ℕ → Option ℕ → Dev S
  txwi_free d t sta =
      let e = free_skb (act d (unmap t)) t (d.txwi t).skb sta in
      act (record e { txwi = update e.txwi t (record (e.txwi t) { skb = none }) }) (put_txwi t)

  pub count_stats : Dev S → Option ℕ → ℕ → Dev S
  count_stats d none info = d
  count_stats d (some w) info = record d { wcid = update d.wcid w (counted (d.wcid w) info) }

  pub freed : Dev S → Option ℕ → Option ℕ → Dev S
  freed d none sta = d
  freed d (some t) sta = txwi_free d t sta

-- The variables of the loop but for its counters.
pub record State (S : Type 0) : Type 0 where
  pub dev : Dev S
  pub wcid : Option ℕ
  pub sta : Option ℕ
  pub wake : Bool

module _ {S : Type 0} where
  abbrev pub poll_if : Dev S → ℕ → Option ℕ → Dev S
  poll_if d idx none = d
  poll_if d idx (some w) = wcid_add_poll d idx

  pub new_pair : State S → ℕ → State S
  new_pair s info =
      let idx = wlan_id info in
      let sta = wcid_to_sta (s.dev.wcid idx) idx in
      record s { dev = poll_if s.dev idx sta; wcid = wcid_ptr (s.dev.wcid idx) idx; sta = sta }

-- MT_TX_FREE_MSDU_CNT, of ten bits, in a u8.
abbrev pub msdu_cnt : ℕ → ℕ
msdu_cnt ctrl = ctrl % 1024 % 256

module _ {S : Type 0} where
  abbrev pub at_word : Option ℕ → (ℕ → Res (State S)) → Res (State S)
  at_word none go = outside
  at_word (some info) go = go info

  -- The end of mt7921_mac_tx_free.
  pub finish : State S → Dev S
  finish s =
      let d = s.dev in
      act (act (act (record d { tokens = wake_up d.tokens s.wake }) consume_free_list) sta_poll)
        schedule

  abbrev pub finished : Res (State S) → Res (Dev S)
  finished (ok s) = ok (finish s)
  finished outside = outside
  finished unfinished = unfinished

  abbrev pub cleaned : Dev S → Dev S
  cleaned d = act (act d clean_psd) clean_be

  abbrev pub begin : Dev S → State S
  begin d = record { dev = cleaned d; wcid = none; sta = none; wake = false }

module _ {S : Type 0} (k : IdrOps S) where
  pub one_msdu : State S → ℕ → State S
  one_msdu s info =
      let d = count_stats s.dev s.wcid info in
      let (e, (p, wake)) = release k d.tokens (msdu_id info) s.wake in
      record s { dev = freed (record d { tokens = e }) p s.sta; wake = wake }

  pub handle : State S → ℕ → State S
  handle s info = if is_pair info then new_pair s info else one_msdu s info

  -- The loop; `i` and `count` are u8, and a pair raises `count`.
  pub loop : ℕ → ℕ → ℕ → List ℕ → State S → Res (State S)
  loop zero i count tx_info s = unfinished
  loop (suc fuel) i count tx_info s =
      if ltb i count
      then at_word (get_elem? tx_info i) (λ info.
        loop fuel ((i + 1) % 256) (if is_pair info then (count + 1) % 256 else count) tx_info
          (handle s info))
      else ok s

  -- mt7921_mac_tx_free: `tx_info` are the words of the message that lie in it whole, behind its head.
  pub tx_free : Dev S → ℕ → List ℕ → Res (Dev S)
  tx_free d ctrl tx_info =
      if ltb (length tx_info) (msdu_cnt ctrl)
      then ok (cleaned d)
      else finished (loop 256 0 (msdu_cnt ctrl) tx_info (begin d))
