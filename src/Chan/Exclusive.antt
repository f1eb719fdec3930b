-- ===== src/Chan/Exclusive.antt =====
-- A phy does not scan and remain on a channel at the same time.
use mt.Common.{ℕ, ◌≡◌, Bool, none}
use mt.Chan.{
  Dev, Env, roc_complete, remain_on_channel, cancel_remain_on_channel, begin_scan, end_scan,
}
use mt.Chan.Apart.{
  IsApart, expire-IsApart, remain-IsApart, cancel-IsApart, begin_scan-IsApart, end_scan-IsApart,
}

-- What may happen to the device, each under its mutex; the firmware may be reset and come back.
pub data Step (env : Env) : Dev → Dev → Type 0 where
  remains :
      (d : Dev) (v band chan duration : ℕ)
      → Step env d (remain_on_channel env d v band chan duration).0
  expires : (d : Dev) (p : ℕ) → Step env d (roc_complete env d p)
  cancels : (d : Dev) (v : ℕ) → Step env d (cancel_remain_on_channel env d v)
  scans : (d : Dev) (p v : ℕ) → Step env d (begin_scan env d p v).0
  finishes : (d : Dev) (has_chan : Bool) → Step env d (end_scan env d has_chan)
  resets : (d : Dev) (r : Bool) → Step env d (record d { mcu_reset = r })

-- No scan, and no phy that remains on a channel.
pub record IsIdle (d : Dev) : Type 0 where
  pub no_scan : (d.scan_phy ≡ none) × (d.scan_vif ≡ none) × (d.scan_link ≡ none)
  pub no_roc_on : (p : ℕ) → ((d.phy p).roc_vif ≡ none) × ((d.phy p).roc_link ≡ none)

pub data Reachable (env : Env) : Dev → Type 0 where
  starts : (d : Dev) → IsIdle d → Reachable env d
  steps : (d e : Dev) → Reachable env d → Step env d e → Reachable env e

Step-IsApart : (env : Env) (d e : Dev) → Step env d e → IsApart d → IsApart e
Step-IsApart env _ _ (remains d v band chan duration) a =
    remain-IsApart env d v band chan duration a
Step-IsApart env _ _ (expires d p) a = expire-IsApart env d p a
Step-IsApart env _ _ (cancels d v) a = cancel-IsApart env d v a
Step-IsApart env _ _ (scans d p v) a = begin_scan-IsApart env d p v a
Step-IsApart env _ _ (finishes d has_chan) a = end_scan-IsApart env d has_chan a
Step-IsApart env _ _ (resets d r) a = record {
  is_apart = a.is_apart;
  roc_whole = a.roc_whole;
  scan_whole = a.scan_whole;
}

-- In every state that scans and remain-on-channel requests lead to from an idle one, with their ends,
-- cancellations, errors and resets of the firmware in any order, the phy that scans does not remain on
-- a channel, a phy that does not remain on a channel holds no link for it, and without a scan there is
-- neither a scan's interface nor its link.
pub scan_or_roc : (env : Env) (d : Dev) → Reachable env d → IsApart d
scan_or_roc env _ (starts d i) = record {
  is_apart = λ p h. (i.no_roc_on p).0;
  roc_whole = λ p h. (i.no_roc_on p).1;
  scan_whole = λ h. (i.no_scan.1, i.no_scan.2);
}
scan_or_roc env _ (steps e d r s) = Step-IsApart env e d s (scan_or_roc env e r)
