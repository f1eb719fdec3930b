-- ===== src/Scan.antt =====
-- scan.c: a scan in software, one channel for each run of the delayed work.
pub mod Order
pub mod Begin
mod Tests
use mt.Common.{
  ℕ, zero, suc, ◌+◌, ◌/◌, ◌*◌, ◌^◌, max, Bool, true, false, not, ◌&&◌, ◌||◌, Option, none, some,
  List, [], ◌∷◌, ◌++◌, if◌then◌else◌, ◌==◌, length, while,
}

-- A channel of a request; `passive`: IEEE80211_CHAN_NO_IR or IEEE80211_CHAN_RADAR.
pub record Channel : Type 0 where
  pub center : ℕ
  pub passive : Bool

-- struct cfg80211_scan_request
pub record Request : Type 0 where
  pub channels : List Channel
  pub ssids : List ℕ
  pub duration : ℕ

-- What the functions ask of the rest of the driver and of mac80211.
pub data Action : Type 0 where
  set_main put_link : Action
  set_channel : Channel → Action
  probe : Channel → ℕ → Action
  queue_work : ℕ → Action
  completed : Bool → Action

-- dev->scan and what the functions read beside it: whether the phy has a main channel, MT76_MCU_RESET, a remain-on-channel, MT76_SCANNING; `works` counts the runs of the work.
pub record Scan : Type 0 where
  pub req : Option Request
  pub chan : Option Channel
  pub chan_idx : ℕ
  pub main_chan : Bool
  pub mcu_reset : Bool
  pub roc : Bool
  pub scanning : Bool
  pub works : ℕ
  pub actions : List Action

abbrev pub nth : List Channel → ℕ → Option Channel
nth [] i = none
nth (c ∷ cs) zero = some c
nth (c ∷ cs) (suc i) = nth cs i

abbrev pub is_set : Option Channel → Bool
is_set none = false
is_set (some _) = true

-- mt76_scan_complete; memset clears dev->scan.
pub complete_with : Scan → Bool → Option Request → Scan
complete_with s abort none = s
complete_with s abort (some r) = record s {
  req = none;
  chan = none;
  chan_idx = 0;
  scanning = false;
  actions =
      s.actions
      ++ ((if is_set s.chan && (s.main_chan && not s.mcu_reset) then set_main ∷ [] else [])
          ++ (put_link ∷ (if s.mcu_reset then [] else completed abort ∷ [])));
}

pub scan_complete : Scan → Bool → Scan
scan_complete s abort = complete_with s abort s.req

abbrev pub probes : Channel → List ℕ → List Action
probes c [] = []
probes c (x ∷ xs) = probe c x ∷ probes c xs

abbrev pub has_ssids : List ℕ → Bool
has_ssids [] = false
has_ssids _ = true

-- `busy n`: the phy has stations at the n-th run; `jiffies` is msecs_to_jiffies; `hz` is HZ.
module _ (hz : ℕ) (jiffies : ℕ → ℕ) (busy : ℕ → Bool) where
  abbrev pub dwell : Request → ℕ → ℕ
  dwell r d = max d (jiffies (r.duration + r.duration / 2 ^ 5))

  -- The next channel of the request.
  pub visit : Scan → Request → Channel → Scan
  visit s r c =
      let active = has_ssids r.ssids && not c.passive in
      record s {
        chan = some c;
        chan_idx = s.chan_idx + 1;
        works = s.works + 1;
        actions =
            s.actions
            ++ (set_channel c
                ∷ ((if active then probes c r.ssids else [])
                    ++ (queue_work (dwell r (if active then hz / 16 else hz / 9)) ∷ [])));
      }

  -- Between two channels the phy goes back to its stations.
  pub back_to_main : Scan → Scan
  back_to_main s = record s {
    chan = none;
    works = s.works + 1;
    actions = s.actions ++ (set_main ∷ queue_work (hz / 9) ∷ []);
  }

  pub work_on : Scan → Request → Option Channel → Scan
  work_on s r none = scan_complete (record s { works = s.works + 1 }) false
  work_on s r (some c) = if is_set s.chan && busy s.works then back_to_main s else visit s r c

  -- mt76_scan_work
  pub work_with : Scan → Option Request → Scan
  work_with s none = s
  work_with s (some r) = work_on s r (nth r.channels s.chan_idx)

  pub scan_work : Scan → Scan
  scan_work s = work_with s s.req

-- mt76_abort_scan, once the work is cancelled
pub abort_scan : Scan → Scan
abort_scan s = scan_complete s true

abbrev pub has_req : Option Request → Bool
has_req none = false
has_req (some _) = true

-- mt76_hw_scan on a device with one radio; `link` says whether mt76_get_vif_phy_link gives a link. The
-- result is false for an error.
pub hw_scan : Scan → Request → Bool → Scan × Bool
hw_scan s r link =
    if has_req s.req || (s.roc || s.mcu_reset)
    then (s, false)
    else if link
    then (
      record s {
        req = some r;
        chan = none;
        chan_idx = 0;
        actions = s.actions ++ (queue_work 0 ∷ []);
      },
      true,
    )
    else (s, false)
