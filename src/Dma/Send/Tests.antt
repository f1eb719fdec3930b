-- ===== src/Dma/Send/Tests.antt =====
-- Runs and examples of sending a frame.
use mt.Common.{◌+◌, ◌≡◌, ◌⊎◌, refl, arith, true, false, none, some, [], ◌∷◌, ◌==◌, if◌then◌else◌}
use mt.Dma.{Queue, clear}
use mt.Dma.Pending.{QInv}
use mt.Dma.Send.{
  Outgoing, SendEnv, walk_frags, walk_with, undo, after_walk, after_head, with_txwi, unmap_bufs,
  tx_queue_skb,
}
use mt.Dma.Send.Undo.{Undone, Queued, Prepares, txwi_list, tx_queue_skb_lem}

abbrev ring : Queue
ring = record {
  head = 6;
  tail = 6;
  ndesc = 8;
  queued = 0;
  cpu_idx = 6;
  entry = λ i. clear;
  desc = λ i. record { buf0 = 0; ctrl = 0; buf1 = 0; info = 0 };
}

ring-QInv : QInv ring
ring-QInv = record {
  tail_in = omega arith;
  head_lem = refl;
  fits = omega arith;
  index_fits = omega arith;
  free = λ i l u. refl;
}

-- The third fragment cannot be mapped.
abbrev env : SendEnv
env = record {
  dma64 = false;
  reset = false;
  txwi = some (5, 4096);
  map_single = λ n. if n == 3 then none else some (1000 + n);
  txwi_size = 64;
  prepare = λ bs. record { is_ok = true; bufs = bs; info = 0; skb = none };
}

env-Prepares : Prepares env.prepare
env-Prepares = record { some_left = λ bs e h. (h, omega arith); kept = λ bs e. refl }

abbrev frame : Outgoing
frame = record { skb = 7; headlen = 100; frags = 200 ∷ 300 ∷ 400 ∷ [] }

undone_in_reverse :
    (tx_queue_skb env ring frame).unmapped ≡ (1002, 300) ∷ (1001, 200) ∷ (1000, 100) ∷ []
unfolding tx_queue_skb with_txwi after_head walk_frags walk_with after_walk undo unmap_bufs
undone_in_reverse = refl

tx_queue_skb_lem_example :
    Undone ring (txwi_list (some (5, 4096))) (tx_queue_skb env ring frame)
    ⊎ Queued env ring frame (tx_queue_skb env ring frame)
tx_queue_skb_lem_example =
    tx_queue_skb_lem env env-Prepares ring frame ring-QInv (omega arith) (omega arith)
