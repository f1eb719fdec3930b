-- ===== src/Scan/Tests.antt =====
-- Runs and examples of a scan.
use mt.Common.{ℕ, ◌+◌, ◌*◌, ◌≡◌, refl, Bool, true, false, none, some, [], ◌∷◌, length, while}
use mt.Scan.{
  hw_scan, Request, Scan, has_req, scan_work, work_with, work_on, visit, back_to_main,
  scan_complete, complete_with,
}
use mt.Scan.Begin.{Begun, hw_scan_lem}
use mt.Scan.Order.{Over, visits, scan_visits_all}

abbrev request : Request
request = record {
  channels =
      record { center = 2412; passive = false }
      ∷ record { center = 5500; passive = true }
      ∷ record { center = 2437; passive = false }
      ∷ [];
  ssids = 1 ∷ [];
  duration = 20;
}

abbrev begun : Scan
begun = record {
  req = some request;
  chan = none;
  chan_idx = 0;
  main_chan = true;
  mcu_reset = false;
  roc = false;
  scanning = true;
  works = 0;
  actions = [];
}

abbrev all_busy : ℕ → Bool
all_busy n = true

visits_three :
    visits (while 8 (λ x. has_req x.req) (scan_work 250 (λ m. m) all_busy) begun).actions
    ≡ request.channels
unfolding while scan_work work_with work_on visit back_to_main scan_complete complete_with
visits_three = refl

scan_visits_all_example : Over request [] (
    while
      (length request.channels * 2 + 2)
      (λ x. has_req x.req)
      (scan_work 250 (λ m. m) all_busy)
      begun)
scan_visits_all_example = scan_visits_all 250 (λ m. m) all_busy request begun refl refl refl refl

hw_scan_lem_example :
    Begun (record begun { req = none }) request (hw_scan (record begun { req = none }) request true)
hw_scan_lem_example = hw_scan_lem (record begun { req = none }) request true
