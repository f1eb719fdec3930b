-- ===== src/Dma/Enqueue.antt =====
-- mt76_dma_tx_queue_skb_raw: a frame goes onto the ring or is freed.
use mt.Common.{ℕ, ◌+◌, ◌≡◌, refl, true, false, [], ◌∷◌, ◌++◌}
use mt.Dma.{Queue, Raw}
use mt.Dma.Pending.{pending, QInv}
use mt.Dma.Cleanup.{skbs}

-- The frame is on the ring and the hardware is told, or it is freed and the ring is as it was.
pub record Queued (q : Queue) (skb : ℕ) (r : Raw) : Type 0 where
  pub valid : QInv r.q
  pub no_loss : skbs (pending r.q) ++ r.freed ≡ skbs (pending q) ++ (skb ∷ [])
  pub unchanged : r.queued_ok ≡ false → r.q ≡ q
  pub told : r.queued_ok ≡ true → (r.q.cpu_idx ≡ r.q.head) × (r.q.queued ≡ q.queued + 1)

refused :
    (q : Queue) (skb : ℕ)
    → QInv q
    → Queued q skb (record { q = q; queued_ok = false; freed = skb ∷ [] })
refused q skb v = record { valid = v; no_loss = refl; unchanged = λ e. refl; told = λ e. cc }
