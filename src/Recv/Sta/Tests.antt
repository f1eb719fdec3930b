-- ===== src/Recv/Sta/Tests.antt =====
-- A station that dozes and wakes.
use mt.Common.{◌≡◌, refl, Bool, true, false, none, some, List, [], ◌∷◌, ◌++◌}
use mt.Recv.Sta.{
  Heard, Action, uapsd_trigger, sta_ps, ps_transition, Dev, station, seen, told, change, trigger,
  check_ps, check_with, check_sta, check_all,
}
use mt.Recv.Sta.Doze.{transitions, AllOn, Alternate, watched, follow, changes}
use mt.Recv.Sta.Follow.{check_all_lem}

abbrev sta_data : Bool → Bool → Heard
sta_data pm qos = record {
  wcid = some 3;
  found = none;
  qos_ctl = 6;
  signal = 206;
  is_8023 = false;
  is_pspoll = false;
  has_morefrags = false;
  is_mgmt = false;
  is_data = true;
  has_pm = pm;
  is_data_qos = qos;
  is_qos_nullfunc = false;
}

abbrev peers : Dev
peers = record {
  wcid = λ w. record { sta = true; check_ps = true; ps = false; inactive_count = 4; rssi = [] };
  actions = [];
}

abbrev dozing : List Heard
dozing = sta_data false true ∷ sta_data true true ∷ sta_data true false ∷ sta_data false true ∷ []

wakes :
    (check_all true peers dozing).actions
    ≡ uapsd_trigger 3 6
      ∷ sta_ps 3 true true
      ∷ ps_transition 3 true
      ∷ sta_ps 3 false true
      ∷ ps_transition 3 false
      ∷ []
unfolding check_all check_sta check_with check_ps trigger change told station seen
wakes = refl

check_all_lem_example :
    (((check_all true peers dozing).wcid 3).ps ≡ follow (watched peers 3) 3 false dozing)
    × (new : List Action) × ((check_all true peers dozing).actions ≡ [] ++ new)
    × (transitions 3 new ≡ changes (watched peers 3) 3 false dozing)
    × Alternate false (transitions 3 new)
    × AllOn new
check_all_lem_example = check_all_lem 3 true peers dozing
