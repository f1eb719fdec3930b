-- ===== src/Aggr/Dev/Tests.antt =====
-- Examples of the reorder code on a table of stations.
use mt.Common.{◌≡◌, refl, arith, true, false, none, some, [], if◌then◌else◌}
use mt.Kernel.Linux.{seq_ops, seq_ops-IsSeqArith}
use mt.Aggr.{Skb, new_tid}
use mt.Aggr.Inv.{IsSize}
use mt.Aggr.Stop.{new_tid-Ready}
use mt.Aggr.Dev.{Wcids, reorder, start}
use mt.Aggr.Dev.Sessions.{AllReady, reorder-AllReady, start-AllReady}

eight-IsSize : IsSize 8
eight-IsSize = omega arith

-- One station with sessions for all its traffic.
abbrev stations : Wcids
stations w = record { sta = true; def_wcid = none; aggr = λ tidno. some (new_tid 0 100 8) }

stations-AllReady : AllReady stations
stations-AllReady w tidno t e = ground (arith, new_tid-Ready 0 100 8 eight-IsSize)

abbrev late : Skb
late = record {
  id = 7;
  wcid = some 1;
  reorder_time = 0;
  aggr = true;
  qos_ctl = 2;
  seqno = 103;
  is_8023 = true;
  dup_validated = false;
  frame_control = 0;
  bar_control = 0;
  bar_start_seq = 0;
}

reorder-AllReady_example : AllReady (reorder seq_ops 9 stations late []).wcids
reorder-AllReady_example =
    reorder-AllReady seq_ops seq_ops-IsSeqArith 9 stations late [] stations-AllReady (omega arith)
      (omega arith) refl

start-AllReady_example :
    AllReady (start true stations 1 2 200 8).1
    × (((start true stations 1 2 200 8).1 1).aggr 2
        ≡ (if true then some (new_tid 2 200 8) else none))
start-AllReady_example =
    start-AllReady true stations 1 2 200 8 stations-AllReady eight-IsSize (omega arith)
