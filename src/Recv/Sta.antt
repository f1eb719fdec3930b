-- ===== src/Recv/Sta.antt =====
-- mac80211.c, mt76_check_sta: what a received frame says of its station, and its power-save state.
pub mod Doze
pub mod Follow
pub mod Steps
mod Tests
use mt.Common.{
  ℕ, ◌+◌, ◌-◌, ◌%◌, Bool, true, false, not, ◌&&◌, ◌||◌, Option, none, some, List, [], ◌∷◌, ◌++◌,
  if◌then◌else◌, ◌==◌, leb,
}
use mt.Common.Ring.{update}

-- struct mt76_wcid as mt76_check_sta uses it: MT_WCID_FLAG_CHECK_PS and MT_WCID_FLAG_PS, and the
-- samples that went to the average of the signal.
pub record Sta : Type 0 where
  pub sta : Bool
  pub check_ps : Bool
  pub ps : Bool
  pub inactive_count : ℕ
  pub rssi : List ℕ

-- A frame: its station, what the kernel's helpers say of the header, and `signal`, the bits of an s8.
-- `found` is what ieee80211_find_sta_by_ifaddr gives for its sender.
pub record Heard : Type 0 where
  pub wcid : Option ℕ
  pub found : Option ℕ
  pub qos_ctl : ℕ
  pub signal : ℕ
  pub is_8023 : Bool
  pub is_pspoll : Bool
  pub has_morefrags : Bool
  pub is_mgmt : Bool
  pub is_data : Bool
  pub has_pm : Bool
  pub is_data_qos : Bool
  pub is_qos_nullfunc : Bool

-- What is told to mac80211 and to the driver; sta_ps is noted with MT_WCID_FLAG_PS as it is then.
pub data Action : Type 0 where
  pspoll : ℕ → Action
  uapsd_trigger : ℕ → ℕ → Action
  sta_ps : ℕ → Bool → Bool → Action
  ps_transition : ℕ → Bool → Action

pub record Dev : Type 0 where
  pub wcid : ℕ → Sta
  pub actions : List Action

abbrev pub act : Dev → Action → Dev
act d a = record d { actions = d.actions ++ (a ∷ []) }

abbrev pub put_sta : Dev → ℕ → Sta → Dev
put_sta d w x = record d { wcid = update d.wcid w x }

abbrev pub same : Bool → Bool → Bool
same true b = b
same false b = not b

-- The station of the frame: that of a PS-Poll is looked up.
unfoldable pub station : Heard → Option ℕ
station f = look f.wcid
  where
    look : Option ℕ → Option ℕ
    look none = if f.is_pspoll && not f.is_8023 then f.found else none
    look (some w) = some w

-- `signal <= 0` and `-signal`
abbrev pub not_positive : ℕ → Bool
not_positive s = s == 0 || leb 128 s

unfoldable pub seen : Sta → Heard → Sta
seen x f = record x {
  rssi = if not_positive f.signal then x.rssi ++ (((256 - f.signal) % 256) ∷ []) else x.rssi;
  inactive_count = 0;
}

unfoldable pub trigger : Dev → ℕ → Heard → Dev
trigger d w f =
    if f.has_pm && (f.is_data_qos || f.is_qos_nullfunc)
    then act d (uapsd_trigger w (f.qos_ctl % 16))
    else d

-- `has_sta_ps` says whether the driver has sta_ps.
module _ (has_sta_ps : Bool) where
  unfoldable pub told : Dev → ℕ → Bool → Dev
  told d w ps = if has_sta_ps then act d (sta_ps w ps (d.wcid w).ps) else d

  -- The change of the power-save state.
  unfoldable pub change : Dev → ℕ → Bool → Dev
  change d w ps =
      let a = if ps then put_sta d w (record (d.wcid w) { ps = true }) else d in
      let b = told a w ps in
      let c = if ps then b else put_sta b w (record (b.wcid w) { ps = false }) in
      act c (ps_transition w ps)

  unfoldable pub check_ps : Dev → ℕ → Heard → Dev
  check_ps d w f =
      if f.is_8023 || not (d.wcid w).check_ps
      then d
      else if f.is_pspoll
      then act d (pspoll w)
      else if f.has_morefrags || not (f.is_mgmt || f.is_data)
      then d
      else if same (d.wcid w).ps f.has_pm
      then trigger d w f
      else change (trigger d w f) w f.has_pm

  unfoldable pub check_with : Dev → Heard → Option ℕ → Dev
  check_with d f none = d
  check_with d f (some w) =
      if not (d.wcid w).sta then d else check_ps (put_sta d w (seen (d.wcid w) f)) w f

  -- mt76_check_sta, without the airtime
  unfoldable pub check_sta : Dev → Heard → Dev
  check_sta d f = check_with d f (station f)

  -- Frames one after the other.
  unfoldable pub check_all : Dev → List Heard → Dev
  check_all d [] = d
  check_all d (f ∷ fs) = check_all (check_sta d f) fs
