-- ===== src/Tx/Tests.antt =====
-- Runs and examples of the frames that wait.
use mt.Common.{ℕ, ◌≡◌, refl, Bool, true, false, List, [], ◌∷◌, ltb}
use mt.Tx.{
  Frame, Station, Served, pending_wcid, if_going, serve_pending, requeued, queue_of,
  schedule_pending,
}
use mt.Tx.Waiting.{
  Pairs, Conserved, schedule_pending_lem, schedule_pending_drains, schedule_pending_strands,
}

abbrev data_frame : ℕ → Frame
data_frame i = record {
  id = i;
  mapping = 2;
  encap = false;
  is_data = true;
  is_bufferable = false;
  is_deauth = false;
}

abbrev stations : List Station
stations =
    record {
      tx_offchannel = data_frame 1 ∷ [];
      tx_pending = data_frame 2 ∷ data_frame 3 ∷ [];
      listed = false;
    }
    ∷ record { tx_offchannel = []; tx_pending = data_frame 4 ∷ []; listed = false }
    ∷ []

-- The third test finds the queue stopped: the station with frames in one list is not on the list.
abbrev third_stops : ℕ → ℕ → Bool
third_stops n q = ltb 1 n

abbrev listed : List Served → List Bool
listed [] = []
listed (r ∷ rs) = r.station.listed ∷ listed rs

off_the_list : listed (schedule_pending true third_stops false true 0 stations) ≡ false ∷ false ∷ []
unfolding schedule_pending if_going serve_pending pending_wcid requeued queue_of
off_the_list = refl

schedule_pending_lem_example :
    Pairs Conserved stations (schedule_pending true third_stops false true 0 stations)
schedule_pending_lem_example = schedule_pending_lem true third_stops false true 0 stations

abbrev never : ℕ → ℕ → Bool
never n q = false

schedule_pending_drains_example :
    Pairs
      (λ s r. (r.station.tx_offchannel ≡ []) × (r.station.tx_pending ≡ []))
      stations
      (schedule_pending true never false true 0 stations)
schedule_pending_drains_example =
    schedule_pending_drains true never (λ n q. refl) true 0 stations refl

schedule_pending_strands_example :
    Pairs
      (λ s r. (r.station.tx_pending ≡ s.tx_pending) × (r.station.listed ≡ false))
      stations
      (schedule_pending true never true true 0 stations)
schedule_pending_strands_example =
    schedule_pending_strands true never (λ n q. refl) true 0 stations refl
