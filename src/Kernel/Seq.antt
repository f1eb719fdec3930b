-- ===== src/Kernel/Seq.antt =====
-- linux/ieee80211.h as agg-rx.c uses it: sequence-number arithmetic, the frame-control tests,
-- the fields of a QoS control word and of a block-ack request; and the kernel's clock.
use mt.Common.{ℕ, ◌+◌, ◌-◌, ◌%◌, ◌≡◌, Bool, ltb}

pub record SeqOps : Type 0 where
  -- ieee80211_sn_less, ieee80211_sn_inc, ieee80211_sn_sub
  pub sn_less : ℕ → ℕ → Bool
  pub sn_inc : ℕ → ℕ
  pub sn_sub : ℕ → ℕ → ℕ
  -- IEEE80211_SEQ_TO_SN
  pub seq_to_sn : ℕ → ℕ
  -- ieee80211_is_ctl, ieee80211_is_back_req
  pub is_ctl : ℕ → Bool
  pub is_back_req : ℕ → Bool
  -- IEEE80211_QOS_CTL_TID_MASK, and whether the ack policy is IEEE80211_QOS_CTL_ACK_POLICY_NOACK
  pub qos_tid : ℕ → ℕ
  pub is_noack : ℕ → Bool
  -- HZ and time_after32
  pub hz : ℕ
  pub time_after32 : ℕ → ℕ → Bool

-- How far `b` is ahead of `a` on the circle of 4096 sequence numbers.
abbrev pub ahead : ℕ → ℕ → ℕ
ahead a b = (b % 4096 + 4096 - a % 4096) % 4096

-- Sequence numbers are counted modulo 4096 (IEEE80211_SN_MODULO), and one is less than another if
-- the second is less than half the circle ahead of it.
pub record IsSeqArith (k : SeqOps) : Type 0 where
  pub less_lem : (a b : ℕ) → k.sn_less a b ≡ ltb 2048 (ahead b a)
  pub inc_lem : (a : ℕ) → k.sn_inc a ≡ (a + 1) % 4096
  pub sub_lem : (a b : ℕ) → k.sn_sub a b ≡ ahead b a
