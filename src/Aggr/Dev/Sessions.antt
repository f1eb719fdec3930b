-- ===== src/Aggr/Dev/Sessions.antt =====
-- Every session of every station stays ready, whatever agg-rx.c is called with.
use mt.Common.{
  ℕ, ◌/◌, ◌<◌, ◌≡◌, refl, arith, Bool, true, false, not, ◌&&◌, ◌||◌, Option, none, some, List, [],
  ◌∷◌, ◌++◌, if◌then◌else◌, ◌==◌, Bool-cases, inl, inr, subst,
}
use mt.Common.Slots.{sum_of}
use mt.Kernel.Seq.{SeqOps, IsSeqArith}
use mt.Aggr.{new_tid, Skb, Tid, Rx, modify, untouched, reorder_locked}
use mt.Aggr.Inv.{Ready, IsSize}
use mt.Aggr.Passed.{is_frame}
use mt.Aggr.Reorder.{reorder_locked-Reordered}
use mt.Aggr.Timeout.{bar_locked_lem}
use mt.Aggr.Stop.{new_tid-Ready}
use mt.Aggr.Dev.{
  Wcids, assign, bar_session, check_ctl, session_frame, from_sta, on_wcid, reorder, stop, start,
  stop_session, get_or_self,
}

abbrev pub AllReady : Wcids → Type 0
AllReady ws = (w tidno : ℕ) (t : Tid) → (ws w).aggr tidno ≡ some t → Ready t

assign-AllReady :
    (ws : Wcids) (w tidno : ℕ) (t : Tid)
    → AllReady ws
    → Ready t
    → AllReady (assign ws w tidno (some t))
assign-AllReady ws w tidno t all v w' n u e = elim (Bool-cases (w' == w && n == tidno)) [
  | inl here ↦ let same : t ≡ u = ground arith in subst Ready same v
  | inr else_ ↦ all w' n u (ground arith)
]

clear-AllReady : (ws : Wcids) (w tidno : ℕ) → AllReady ws → AllReady (assign ws w tidno none)
clear-AllReady ws w tidno all w' n u e = all w' n u (ground arith)

modify_last :
    (f : Skb → Skb) (before : List Skb) (skb : Skb)
    → sum_of (is_frame skb.id) before ≡ 0
    → modify skb.id f (before ++ (skb ∷ [])) ≡ before ++ (f skb ∷ [])
modify_last f [] skb h = ground arith
modify_last f (x ∷ xs) skb h = ground (arith, modify_last f xs skb)

module _ (k : SeqOps) (laws : IsSeqArith k) where
  -- A session that is stopped, or has not begun and is ahead of the frame, passes it up.
  module _ (jiffies : ℕ) (t : Tid) (r : Rx) (skb : Skb) where
    locked_out :
        (t ≡ r.tid)
        → (t.stopped || (not t.started && k.sn_less skb.seqno t.head)) ≡ true
        → reorder_locked k jiffies r skb ≡ untouched r
    unfolding reorder_locked
    locked_out e h = ground arith

  pub reorder_locked-Ready :
      (jiffies : ℕ) (before : List Skb) (t : Tid) (skb : Skb)
      → Ready t
      → skb.seqno < 4096
      → sum_of (is_frame skb.id) before ≡ 0
      → Ready
          (reorder_locked k jiffies (record { tid = t; frames = before ++ (skb ∷ []) }) skb).rx.tid
  reorder_locked-Ready jiffies before t skb v hs fresh =
      elim (Bool-cases (t.stopped || (not t.started && k.sn_less skb.seqno t.head))) [
        | inl out ↦
            rw
              (locked_out jiffies t (record { tid = t; frames = before ++ (skb ∷ []) }) skb refl
                out)
              v
        | inr takes ↦
            (reorder_locked-Reordered k laws jiffies before t skb v hs fresh (ground arith)
              (ground arith)).ready
      ]

  bar_session-AllReady :
      (ws : Wcids) (w tidno seqno : ℕ) (frames : List Skb) (o : Option Tid)
      → AllReady ws
      → seqno < 4096
      → (ws w).aggr tidno ≡ o
      → AllReady (bar_session k ws w tidno seqno frames o).wcids
  unfolding bar_session
  bar_session-AllReady ws w tidno seqno frames none all hs e = all
  bar_session-AllReady ws w tidno seqno frames (some t) all hs e =
      assign-AllReady ws w tidno _ all
        (bar_locked_lem k laws (record { tid = t; frames = frames }) seqno (all w tidno t e) hs).1

  check_ctl-AllReady :
      (ws : Wcids) (w : ℕ) (skb : Skb) (frames : List Skb)
      → AllReady ws
      → k.seq_to_sn skb.bar_start_seq < 4096
      → AllReady (check_ctl k ws w skb frames).wcids
  unfolding check_ctl
  check_ctl-AllReady ws w skb frames all hs = elim (Bool-cases (k.is_ctl skb.frame_control)) [
    | inl ctl ↦ rw ctl (elim (Bool-cases (k.is_back_req skb.frame_control)) [
      | inl bar ↦ rw bar (
          bar_session-AllReady ws w (skb.bar_control / 4096) (k.seq_to_sn skb.bar_start_seq)
            (modify skb.id (λ x. record x { qos_ctl = skb.bar_control / 4096 }) frames)
            ((ws w).aggr (skb.bar_control / 4096)) all hs refl)
      | inr no_bar ↦ rw no_bar all
    ])
    | inr no_ctl ↦ rw no_ctl all
  ]

  session_frame-AllReady :
      (jiffies : ℕ) (ws : Wcids) (w : ℕ) (skb : Skb) (before : List Skb) (o : Option Tid)
      → AllReady ws
      → skb.seqno < 4096
      → sum_of (is_frame skb.id) before ≡ 0
      → (ws w).aggr (k.qos_tid skb.qos_ctl) ≡ o
      → AllReady (session_frame k jiffies ws w skb (before ++ (skb ∷ [])) o).wcids
  unfolding session_frame
  session_frame-AllReady jiffies ws w skb before none all hs fresh e = all
  session_frame-AllReady jiffies ws w skb before (some t) all hs fresh e =
      rw (modify_last (λ x. record x { dup_validated = true }) before skb fresh) (
        assign-AllReady ws w (k.qos_tid skb.qos_ctl) _ all (
          reorder_locked-Ready jiffies before t (record skb { dup_validated = true })
            (all w (k.qos_tid skb.qos_ctl) t e) hs fresh))

  from_sta-AllReady :
      (jiffies : ℕ) (ws : Wcids) (w : ℕ) (skb : Skb) (before : List Skb)
      → AllReady ws
      → skb.seqno < 4096
      → k.seq_to_sn skb.bar_start_seq < 4096
      → sum_of (is_frame skb.id) before ≡ 0
      → AllReady (from_sta k jiffies ws w skb (before ++ (skb ∷ []))).wcids
  unfolding from_sta
  from_sta-AllReady jiffies ws w skb before all hs hb fresh = elim (Bool-cases skb.aggr) [
    | inl part ↦ simp part (elim (Bool-cases (k.is_noack skb.qos_ctl)) [
      | inl noack ↦ rw noack all
      | inr ack ↦ rw ack (
          session_frame-AllReady jiffies ws (get_or_self (ws w).def_wcid w) skb before
            ((ws (get_or_self (ws w).def_wcid w)).aggr (k.qos_tid skb.qos_ctl)) all hs fresh refl)
    ])
    | inr alone ↦ simp alone (elim (Bool-cases skb.is_8023) [
      | inl eth ↦ simp eth all
      | inr wifi ↦ simp wifi (check_ctl-AllReady ws w skb (before ++ (skb ∷ [])) all hb)
    ])
  ]

  on_wcid-AllReady :
      (jiffies : ℕ) (ws : Wcids) (skb : Skb) (before : List Skb) (o : Option ℕ)
      → AllReady ws
      → skb.seqno < 4096
      → k.seq_to_sn skb.bar_start_seq < 4096
      → sum_of (is_frame skb.id) before ≡ 0
      → AllReady (on_wcid k jiffies ws skb (before ++ (skb ∷ [])) o).wcids
  unfolding on_wcid
  on_wcid-AllReady jiffies ws skb before none all hs hb fresh = all
  on_wcid-AllReady jiffies ws skb before (some w) all hs hb fresh = elim (Bool-cases (ws w).sta) [
    | inl sta ↦ rw sta (from_sta-AllReady jiffies ws w skb before all hs hb fresh)
    | inr no_sta ↦ rw no_sta all
  ]

  -- Whatever frame arrives, every session of every station stays ready.
  pub reorder-AllReady :
      (jiffies : ℕ) (ws : Wcids) (skb : Skb) (before : List Skb)
      → AllReady ws
      → skb.seqno < 4096
      → k.seq_to_sn skb.bar_start_seq < 4096
      → sum_of (is_frame skb.id) before ≡ 0
      → AllReady (reorder k jiffies ws skb before).wcids
  unfolding reorder
  reorder-AllReady jiffies ws skb before all hs hb fresh =
      on_wcid-AllReady jiffies ws skb before skb.wcid all hs hb fresh

stop_session-AllReady :
    (ws : Wcids) (w tidno : ℕ) (o : Option Tid)
    → AllReady ws
    → AllReady (stop_session ws w tidno o).0
unfolding stop_session
stop_session-AllReady ws w tidno none all = clear-AllReady ws w tidno all
stop_session-AllReady ws w tidno (some t) all = clear-AllReady ws w tidno all

assign_self : (ws : Wcids) (w tidno : ℕ) (o : Option Tid) → ((assign ws w tidno o) w).aggr tidno ≡ o
assign_self ws w tidno o = ground arith

stop_session_clears :
    (ws : Wcids) (w tidno : ℕ) (o : Option Tid)
    → ((stop_session ws w tidno o).0 w).aggr tidno ≡ none
unfolding stop_session
stop_session_clears ws w tidno none = assign_self ws w tidno none
stop_session_clears ws w tidno (some t) = assign_self ws w tidno none

-- mt76_rx_aggr_start keeps every session ready, and leaves the new one in its place, or none if there
-- is no memory.
pub start-AllReady :
    (memory : Bool) (ws : Wcids) (w tidno ssn size : ℕ)
    → AllReady ws
    → IsSize size
    → ssn < 4096
    → AllReady (start memory ws w tidno ssn size).1
      × (((start memory ws w tidno ssn size).1 w).aggr tidno
          ≡ (if memory then some (new_tid tidno ssn size) else none))
unfolding start stop
start-AllReady true ws w tidno ssn size all z hs =
    let cleared = stop_session-AllReady ws w tidno ((ws w).aggr tidno) all in
    (
      assign-AllReady (stop_session ws w tidno ((ws w).aggr tidno)).0 w tidno
          (new_tid tidno ssn size) cleared (new_tid-Ready tidno ssn size z hs),
      assign_self (stop_session ws w tidno ((ws w).aggr tidno)).0 w tidno
          (some (new_tid tidno ssn size)),
    )
start-AllReady false ws w tidno ssn size all z hs = (
  stop_session-AllReady ws w tidno ((ws w).aggr tidno) all,
  stop_session_clears ws w tidno ((ws w).aggr tidno),
)
