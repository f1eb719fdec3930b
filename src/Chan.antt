-- ===== src/Chan.antt =====
-- channel.c: links of an interface to a phy, remaining on a channel, and channel contexts; with the
-- part of scan.c that takes and gives back a link.
pub mod Apart
pub mod Calm
pub mod Ended
pub mod Links
pub mod Near
pub mod Taken
pub mod RoundTrip
pub mod Exclusive
mod Tests
use mt.Common.{
  ℕ, zero, suc, ◌+◌, Bool, true, false, not, ◌&&◌, ◌||◌, Option, none, some, List, [], ◌∷◌, ◌++◌,
  if◌then◌else◌, ◌==◌,
}
use mt.Common.Ring.{update}

-- struct mt76_vif_link: the interface whose data it belongs to, its channel context.
pub record Link : Type 0 where
  pub mvif : ℕ
  pub ctx : Option ℕ
  pub offchannel : Bool

-- struct mt76_vif_data; `links` is the array of links, by link id.
pub record Vif : Type 0 where
  pub links : List (Option ℕ)
  pub offchannel_link : Option ℕ
  pub roc_phy : Option ℕ

-- struct mt76_phy: the channels are main_chandef.chan and chandef.chan.
pub record Phy : Type 0 where
  pub main_chan : Option ℕ
  pub chan : Option ℕ
  pub offchannel : Bool
  pub radar_enabled : Bool
  pub chanctx : Option ℕ
  pub roc_vif : Option ℕ
  pub roc_link : Option ℕ

-- What is asked of the driver and of mac80211.
pub data Action : Type 0 where
  link_add link_remove : ℕ → ℕ → Action
  roc_expired ready : ℕ → Action
  queue_roc : ℕ → ℕ → Action

-- The device: phys, interfaces, the heap of links, the phy of each channel context, the scan's phy,
-- interface and link, MT76_MCU_RESET, how often something that may fail was asked, and the actions.
pub record Dev : Type 0 where
  pub phy : ℕ → Phy
  pub vif : ℕ → Vif
  pub link : ℕ → Option Link
  pub ctx_phy : ℕ → Option ℕ
  pub scan_phy : Option ℕ
  pub scan_vif : Option ℕ
  pub scan_link : Option ℕ
  pub mcu_reset : Bool
  pub asked : ℕ
  pub actions : List Action

-- Whether the driver has vif_link_add, what the n-th allocation, vif_link_add and set_channel give,
-- and the phy of each band.
pub record Env : Type 0 where
  pub has_link_add : Bool
  pub alloc : ℕ → Option ℕ
  pub adds : ℕ → Bool
  pub sets : ℕ → Bool
  pub band_phys : ℕ → Option ℕ

pub data Error : Type 0 where
  einval enomem ebusy driver_error : Error

pub data Result : Type 0 where
  ok : ℕ → Result
  err : Error → Result

abbrev pub is_some {ℓ} : {A : Type ℓ} → Option A → Bool
is_some none = false
is_some (some x) = true

abbrev pub is_phy : ℕ → Option ℕ → Bool
is_phy p none = false
is_phy p (some q) = q == p

abbrev pub act : Dev → Action → Dev
act d a = record d { actions = d.actions ++ (a ∷ []) }

abbrev pub set_phy : Dev → ℕ → Phy → Dev
set_phy d p x = record d { phy = update d.phy p x }

abbrev pub set_vif : Dev → ℕ → Vif → Dev
set_vif d v x = record d { vif = update d.vif v x }

abbrev pub set_link : Dev → ℕ → Option Link → Dev
set_link d l x = record d { link = update d.link l x }

-- mt76_vif_link_phy
pub ctx_phy_of : Dev → Option ℕ → Option ℕ
ctx_phy_of d none = none
ctx_phy_of d (some c) = d.ctx_phy c

pub link_phy_of : Dev → Option Link → Option ℕ
unfolding ctx_phy_of
link_phy_of d none = none
link_phy_of d (some x) = ctx_phy_of d x.ctx

-- The loop of mt76_get_vif_phy_link over the interface's links.
pub find_with : Dev → ℕ → Option ℕ → Option ℕ → Option ℕ
unfolding link_phy_of
find_with d p none rest = rest
find_with d p (some l) rest = if is_phy p (link_phy_of d (d.link l)) then some l else rest

pub find_link : Dev → ℕ → List (Option ℕ) → Option ℕ
find_link d p [] = none
find_link d p (o ∷ os) = find_with d p o (find_link d p os)

module _ (env : Env) where
  -- mt76_alloc_mlink and vif_link_add for an off-channel link
  pub add_offchannel : Dev → ℕ → ℕ → Option ℕ → Dev × Result
  add_offchannel d p v none = (record d { asked = d.asked + 1 }, err enomem)
  add_offchannel d p v (some l) =
      let x : Link = record { mvif = v; ctx = none; offchannel = true } in
      let e : Dev = act (set_link (record d { asked = d.asked + 1 }) l (some x)) (link_add p l) in
      if env.adds d.asked
      then (set_vif e v (record (e.vif v) { offchannel_link = some l }), ok l)
      else (set_link e l none, err driver_error)

  -- mt76_get_vif_phy_link
  pub get_with : Dev → ℕ → ℕ → Option ℕ → Dev × Result
  get_with d p v (some l) = (d, ok l)
  get_with d p v none =
      if env.has_link_add then add_offchannel d p v (env.alloc d.asked) else (d, err einval)

  pub get_vif_phy_link : Dev → ℕ → ℕ → Dev × Result
  get_vif_phy_link d p v = get_with d p v (find_link d p (d.vif v).links)

  -- __mt76_set_channel: the phy's fields and the driver's answer.
  pub set_channel : Dev → ℕ → ℕ → Bool → Dev × Bool
  set_channel d p c off =
      let x = d.phy p in
      (
        set_phy (record d { asked = d.asked + 1 }) p
            (record x {
              chan = some c;
              offchannel = off;
              main_chan = if off then x.main_chan else some c;
            }),
        env.sets d.asked,
      )

-- mt76_put_vif_phy_link
pub put_found : Dev → ℕ → ℕ → Option Link → Dev
put_found d p l none = d
put_found d p l (some x) =
    if x.offchannel
    then act (set_link (set_vif d x.mvif (record (d.vif x.mvif) { offchannel_link = none })) l none)
        (link_remove p l)
    else d

pub put_vif_phy_link : Dev → ℕ → Option ℕ → Dev
put_vif_phy_link d p none = d
put_vif_phy_link d p (some l) = put_found d p l (d.link l)

-- The interface that a link belongs to no longer remains on a channel.
pub clear_roc_phy : Dev → Option Link → Dev
clear_roc_phy d none = d
clear_roc_phy d (some x) = set_vif d x.mvif (record (d.vif x.mvif) { roc_phy = none })

pub link_at : Dev → Option ℕ → Option Link
link_at d none = none
link_at d (some l) = d.link l

abbrev pub no_roc : Phy → Phy
no_roc x = record x { roc_vif = none; roc_link = none }

abbrev pub on_roc : Phy → ℕ → ℕ → Phy
on_roc x v l = record x { roc_vif = some v; roc_link = some l }

pub owner_of : Option Link → ℕ → ℕ
owner_of none v = v
owner_of (some x) v = x.mvif

module _ (env : Env) where
  pub to_main : Dev → ℕ → Option ℕ → Dev
  to_main d p none = d
  to_main d p (some c) = if d.mcu_reset then d else (set_channel env d p c false).0

  -- mt76_roc_complete
  pub roc_complete_with : Dev → ℕ → Option ℕ → Dev
  roc_complete_with d p none = d
  roc_complete_with d p (some v) =
      let l = (d.phy p).roc_link in
      let e = clear_roc_phy d (link_at d l) in
      let f = to_main e p (e.phy p).main_chan in
      let g = put_vif_phy_link f p l in
      let h = set_phy g p (no_roc (g.phy p)) in if h.mcu_reset then h else act h (roc_expired p)

  pub roc_complete : Dev → ℕ → Dev
  roc_complete d p = roc_complete_with d p (d.phy p).roc_vif

  -- mt76_remain_on_channel, on the phy of the channel's band, once there is a link
  pub start_roc : Dev → ℕ → ℕ → ℕ → ℕ → ℕ → ℕ → Dev × Result
  start_roc d p v chan duration l owner =
      let a = set_vif d owner (record (d.vif owner) { roc_phy = some p }) in
      let b = set_phy a p (on_roc (a.phy p) v l) in
      let (c, is_ok) = set_channel env b p chan true in
      let e = set_vif c owner (record (c.vif owner) { roc_phy = none }) in
      let f = put_vif_phy_link (set_phy e p (no_roc (e.phy p))) p (some l) in
      if is_ok then (act (act c (ready p)) (queue_roc p duration), ok 0) else (f, err driver_error)

  pub roc_with : Dev × Result → ℕ → ℕ → ℕ → ℕ → Dev × Result
  roc_with (d, err e) p v chan duration = (d, err e)
  roc_with (d, ok l) p v chan duration = start_roc d p v chan duration l (owner_of (d.link l) v)

  pub roc_on : Dev → Option ℕ → ℕ → ℕ → ℕ → Dev × Result
  roc_on d none v chan duration = (d, err einval)
  roc_on d (some p) v chan duration =
      if is_some (d.phy p).roc_vif || (is_phy p d.scan_phy || d.mcu_reset)
      then (d, err ebusy)
      else roc_with (get_vif_phy_link env d p v) p v chan duration

  pub remain_on_channel : Dev → ℕ → ℕ → ℕ → ℕ → Dev × Result
  remain_on_channel d v band chan duration = roc_on d (env.band_phys band) v chan duration

  -- mt76_abort_roc and mt76_cancel_remain_on_channel, once the delayed work is cancelled
  pub cancel_with : Dev → Option ℕ → Dev
  cancel_with d none = d
  cancel_with d (some p) = roc_complete d p

  pub cancel_remain_on_channel : Dev → ℕ → Dev
  cancel_remain_on_channel d v = cancel_with d (d.vif v).roc_phy

  -- mt76_hw_scan and mt76_scan_complete, as far as they use links: `p` is the phy that scans.
  pub scan_with : Dev × Result → ℕ → ℕ → Dev × Bool
  scan_with (d, err e) p v = (d, false)
  scan_with (d, ok l) p v =
      (record d { scan_phy = some p; scan_vif = some v; scan_link = some l }, true)

  pub begin_scan : Dev → ℕ → ℕ → Dev × Bool
  begin_scan d p v =
      if is_some d.scan_phy || (is_some (d.phy p).roc_vif || d.mcu_reset)
      then (d, false)
      else scan_with (get_vif_phy_link env d p v) p v

  pub end_with : Dev → Bool → Option ℕ → Dev
  end_with d has_chan none = d
  end_with d has_chan (some p) =
      let e = if has_chan then to_main d p (d.phy p).main_chan else d in
      let f = put_vif_phy_link e p e.scan_link in
      record f { scan_phy = none; scan_vif = none; scan_link = none }

  -- `has_chan` says whether the scan has reached a channel.
  pub end_scan : Dev → Bool → Dev
  end_scan d has_chan = end_with d has_chan d.scan_phy
