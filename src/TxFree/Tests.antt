-- ===== src/TxFree/Tests.antt =====
-- Runs and examples of a report of sent frames.
use mt.Common.{
  ℕ, ◌+◌, ◌-◌, ◌*◌, ◌≡◌, refl, arith, Bool, true, false, none, some, List, [], ◌∷◌, if◌then◌else◌,
  ◌==◌,
}
use mt.Kernel.Table.{Table, idr_ops, idr_ops-IsIdr}
use mt.Token.{Tokens, release, count_down, wants_wake, wake_up, set_tx_blocked}
use mt.Token.Flow.{Flowing}
use mt.TxFree.{
  Dev, Action, clean_psd, clean_be, unmap, check_aggr, complete, put_txwi, consume_free_list,
  sta_poll, schedule, Res, ok, outside, unfinished, add_poll_with, wcid_add_poll, complete_for,
  free_unnamed, free_skb, txwi_free, count_stats, freed, new_pair, one_msdu, handle, loop, finish,
  tx_free,
}
use mt.TxFree.Whole.{Outcome, tx_free_lem}

-- Token 4 stands for entry 90, with frame 30, and token 5 for entry 91, with frame 31.
abbrev held : Tokens Table
held = record {
  token = λ i. if i == 4 then some 90 else if i == 5 then some 91 else none;
  token_count = 2;
  token_start = 0;
  token_size = 100;
  blocked = false;
  blocked1 = none;
  blocked2 = none;
  scheduled = 0;
}

abbrev device : Dev Table
device = record {
  tokens = held;
  wcid = λ i.
      if i == 7
      then some
          (record { sta = true; def_wcid = none; polled = false; tx_retries = 0; tx_failed = 0 })
      else none;
  sta_poll_list = [];
  mcu_reset = false;
  txwi = λ t. record { skb = some (t - 60); wlan_idx = 7; is_pae = false };
  actions = [];
}

-- A pair for station 7, and frames that were sent once.
abbrev pair_word : ℕ → ℕ
pair_word idx = 2147483648 + idx * 16384

abbrev msdu_word : ℕ → ℕ
msdu_word t = t * 65536 + 1

abbrev report : List ℕ
report = pair_word 7 ∷ msdu_word 4 ∷ msdu_word 5 ∷ []

abbrev actions_of : Res (Dev Table) → List Action
actions_of (ok d) = d.actions
actions_of outside = []
actions_of unfinished = []

both_completed :
    actions_of (tx_free idr_ops device 2 report)
    ≡ clean_psd
      ∷ clean_be
      ∷ unmap 90
      ∷ check_aggr 7 90
      ∷ complete 7 30
      ∷ put_txwi 90
      ∷ unmap 91
      ∷ check_aggr 7 91
      ∷ complete 7 31
      ∷ put_txwi 91
      ∷ consume_free_list
      ∷ sta_poll
      ∷ schedule
      ∷ []
unfolding tx_free loop handle new_pair one_msdu count_stats freed txwi_free free_skb free_unnamed
    complete_for add_poll_with wcid_add_poll finish release count_down wants_wake wake_up
    set_tx_blocked
both_completed = refl

-- The count of the frames is not above the words, yet the loop reads beyond them.
abbrev is_outside : Res (Dev Table) → Bool
is_outside (ok d) = false
is_outside outside = true
is_outside unfinished = false

reads_beyond : is_outside (tx_free idr_ops device 2 (pair_word 7 ∷ msdu_word 4 ∷ [])) ≡ true
unfolding tx_free loop handle new_pair one_msdu count_stats freed txwi_free free_skb free_unnamed
    complete_for add_poll_with wcid_add_poll finish release count_down wants_wake wake_up
    set_tx_blocked
reads_beyond = refl

held-Flowing : Flowing Table idr_ops (record { dev = held; wake = false })
held-Flowing = record {
  valid = record {
    counted = refl;
    below = λ i l. ground arith;
    above = λ i l. ground (arith, l);
    fits = omega arith;
    not_empty = omega arith;
  };
  alike = record { same1 = refl; same2 = refl };
  will_wake = λ b room. ground (arith, b);
}

tx_free_lem_example : Outcome idr_ops device 2 report (tx_free idr_ops device 2 report)
tx_free_lem_example = tx_free_lem idr_ops idr_ops-IsIdr device 2 report held-Flowing
