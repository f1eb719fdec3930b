-- ===== src/Status/Tests.antt =====
-- Runs and examples of frames whose status is reported.
use mt.Common.{ℕ, ◌+◌, ◌≡◌, refl, Bool, true, false, none, some, [], ◌∷◌}
use mt.Common.Ring.{update}
use mt.Kernel.Table.{Table, idr_ops, idr_ops-IsIdr}
use mt.Status.{
  Dev, no_cb, Request, skb_add, add_for, with_id, cleared, complete_skb, skb_done, add_txs,
  report_with, skb_get, get_with, unlist, unlock, status_check, check_each, stale, stale_with,
  give_up,
}
use mt.Status.Inv.{one, times, owned, IsSound}
use mt.Status.Ends.{flush_reports_all}
use mt.Status.Account.{
  System, Reachable, starts, steps, queues, gives_back, reports, each_frame_once,
}

abbrev no_table : Table
no_table i = none

abbrev device : Dev Table
device = record {
  cb = λ x. no_cb;
  acked = λ x. false;
  known = λ w. true;
  ids = λ w. no_table;
  wcid_list = [];
  ended = [];
  reported = [];
}

abbrev system : System Table
system = record { dev = device; hw = λ x. false; added = λ x. 0 }

abbrev request : Request
request = record { wants_no_ack = false; wants_status = true; is_wed = false }

abbrev never : ℕ → Bool
never t = false

abbrev queued : Dev Table
queued = (skb_add idr_ops false device (some 1) 7 request).0

-- The frame ends with the second of the two, in either order.
status_last :
    (add_txs idr_ops false never (complete_skb idr_ops false 100 queued 7) 1 3 true).reported
    ≡ 7 ∷ []
unfolding skb_add add_for with_id cleared complete_skb skb_done add_txs report_with skb_get get_with
    unlist unlock
status_last = refl

ring_last :
    (complete_skb idr_ops false 100 (add_txs idr_ops false never queued 1 3 true) 7).reported
    ≡ 7 ∷ []
unfolding skb_add add_for with_id cleared complete_skb skb_done add_txs report_with skb_get get_with
    unlist unlock
ring_last = refl

not_yet : (add_txs idr_ops false never queued 1 3 true).reported ≡ []
unfolding skb_add add_for with_id cleared skb_done add_txs report_with skb_get get_with unlist
    unlock
not_yet = refl

flushed :
    (status_check idr_ops false never true (complete_skb idr_ops false 100 queued 7)).reported
    ≡ 7 ∷ []
unfolding skb_add add_for with_id cleared complete_skb skb_done status_check check_each stale
    stale_with give_up skb_get get_with unlist unlock
flushed = refl

abbrev after_queue : System Table
after_queue = record { dev = queued; hw = update (λ x. false) 7 true; added = update (λ x. 0) 7 1 }

queued-Reachable : Reachable idr_ops false after_queue
queued-Reachable =
    steps system after_queue
      (starts system
        (record { no_ids = λ w i. refl; no_lists = (refl, refl); no_frames = λ x. (refl, refl) }))
      (queues system (some 1) 7 request refl refl)

abbrev given_back : System Table
given_back = record {
  dev = complete_skb idr_ops false 100 queued 7;
  hw = update after_queue.hw 7 false;
  added = after_queue.added;
}

given_back-Reachable : Reachable idr_ops false given_back
given_back-Reachable =
    steps after_queue given_back queued-Reachable (gives_back after_queue 100 7 refl)

abbrev all_done : System Table
all_done = record given_back { dev = add_txs idr_ops false never given_back.dev 1 3 true }

each_frame_once_example :
    ((x : ℕ)
      → times x all_done.dev.reported + one (owned idr_ops all_done.dev all_done.hw x)
        ≡ all_done.added x)
    × IsSound idr_ops all_done.dev all_done.hw
each_frame_once_example =
    each_frame_once idr_ops false all_done idr_ops-IsIdr
      (steps given_back all_done given_back-Reachable (reports given_back never 1 3 true))

flush_reports_all_example :
    times 7 (status_check idr_ops false never true given_back.dev).reported ≡ 1
flush_reports_all_example =
    flush_reports_all idr_ops false never given_back 7 idr_ops-IsIdr given_back-Reachable refl
