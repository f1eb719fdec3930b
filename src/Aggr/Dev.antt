-- ===== src/Aggr/Dev.antt =====
-- agg-rx.c from the outside: which session a frame belongs to, and how sessions start and stop.
pub mod Sessions
mod Tests
use mt.Common.{
  ℕ, ◌/◌, Bool, true, not, Option, none, some, List, [], ◌∷◌, ◌++◌, if◌then◌else◌, ◌==◌,
}
use mt.Kernel.Seq.{SeqOps}
use mt.Aggr.{Skb, Tid, Out, untouched, modify, reorder_locked, bar_locked, shutdown, new_tid}

-- struct mt76_wcid as agg-rx.c uses it: whether it stands for a station (wcid_to_sta), the link that
-- holds its sessions, and the sessions themselves.
pub record Wcid : Type 0 where
  pub sta : Bool
  pub def_wcid : Option ℕ
  pub aggr : ℕ → Option Tid

abbrev pub Wcids : Type 0
Wcids = ℕ → Wcid

-- rcu_assign_pointer(wcid->aggr[tidno], tid)
abbrev pub assign : Wcids → ℕ → ℕ → Option Tid → Wcids
assign ws w tidno t x =
    if x == w then record (ws x) { aggr = λ n. if n == tidno then t else (ws x).aggr n } else ws x

-- What a call leaves: the stations, the frames that go up, those freed and the work queued.
pub record Done : Type 0 where
  pub wcids : Wcids
  pub frames : List Skb
  pub freed : List Skb
  pub work : Option ℕ

abbrev pub passed_up : Wcids → List Skb → Done
passed_up ws frames = record { wcids = ws; frames = frames; freed = []; work = none }

-- The session is written back behind its pointer.
abbrev pub write_back : Wcids → ℕ → ℕ → Out → Done
write_back ws w tidno o = record {
  wcids = assign ws w tidno (some o.rx.tid);
  frames = o.rx.frames;
  freed = o.freed;
  work = o.work;
}

abbrev pub get_or_self : Option ℕ → ℕ → ℕ
get_or_self none w = w
get_or_self (some d) w = d

module _ (k : SeqOps) where
  pub bar_session : Wcids → ℕ → ℕ → ℕ → List Skb → Option Tid → Done
  bar_session ws w tidno seqno frames none = passed_up ws frames
  bar_session ws w tidno seqno frames (some t) =
      write_back ws w tidno (untouched (bar_locked k (record { tid = t; frames = frames }) seqno))

  -- mt76_rx_aggr_check_ctl: a block-ack request moves the window of its session.
  pub check_ctl : Wcids → ℕ → Skb → List Skb → Done
  unfolding bar_session
  check_ctl ws w skb frames =
      if not (k.is_ctl skb.frame_control)
      then passed_up ws frames
      else if not (k.is_back_req skb.frame_control)
      then passed_up ws frames
      else bar_session ws w tidno (k.seq_to_sn skb.bar_start_seq)
          (modify skb.id (λ x. record x { qos_ctl = tidno }) frames) ((ws w).aggr tidno)
    where
      tidno : ℕ
      tidno = skb.bar_control / 4096

  -- The frame of a session: RX_FLAG_DUP_VALIDATED is set, and the session takes it.
  pub session_frame : ℕ → Wcids → ℕ → Skb → List Skb → Option Tid → Done
  session_frame jiffies ws w skb frames none = passed_up ws frames
  session_frame jiffies ws w skb frames (some t) =
      let valid = λ (x : Skb). record x { dup_validated = true } in
      write_back ws w (k.qos_tid skb.qos_ctl) (
        reorder_locked k jiffies (record { tid = t; frames = modify skb.id valid frames })
          (valid skb))

  pub from_sta : ℕ → Wcids → ℕ → Skb → List Skb → Done
  unfolding session_frame
  from_sta jiffies ws w skb frames =
      if not skb.aggr
      then (if not skb.is_8023 then check_ctl ws w skb frames else passed_up ws frames)
      else if k.is_noack skb.qos_ctl
      then passed_up ws frames
      else session_frame jiffies ws (get_or_self (ws w).def_wcid w) skb frames
          ((ws (get_or_self (ws w).def_wcid w)).aggr (k.qos_tid skb.qos_ctl))

  pub on_wcid : ℕ → Wcids → Skb → List Skb → Option ℕ → Done
  unfolding from_sta
  on_wcid jiffies ws skb frames none = passed_up ws frames
  on_wcid jiffies ws skb frames (some w) =
      if not (ws w).sta then passed_up ws frames else from_sta jiffies ws w skb frames

  -- mt76_rx_aggr_reorder
  pub reorder : ℕ → Wcids → Skb → List Skb → Done
  unfolding on_wcid
  reorder jiffies ws skb frames = on_wcid jiffies ws skb (frames ++ (skb ∷ [])) skb.wcid

-- mt76_rx_aggr_stop, with the frames that the session's end frees
pub stop_session : Wcids → ℕ → ℕ → Option Tid → Wcids × List Skb
stop_session ws w tidno none = (assign ws w tidno none, [])
stop_session ws w tidno (some t) = (assign ws w tidno none, (shutdown t).freed)

pub stop : Wcids → ℕ → ℕ → Wcids × List Skb
unfolding stop_session
stop ws w tidno = stop_session ws w tidno ((ws w).aggr tidno)

-- mt76_rx_aggr_start; `memory` says whether kzalloc succeeds, and the result is 0 or -ENOMEM.
pub data StartResult : Type 0 where
  started_ok enomem : StartResult

pub start : Bool → Wcids → ℕ → ℕ → ℕ → ℕ → StartResult × Wcids × List Skb
unfolding stop
start memory ws w tidno ssn size =
    let (ws', freed) = stop ws w tidno in
    if memory
    then (started_ok, assign ws' w tidno (some (new_tid tidno ssn size)), freed)
    else (enomem, ws', freed)
