-- ===== src/Dma/Send.antt =====
-- mt76_dma_tx_queue_skb: a frame of several buffers is mapped, prepared by the driver and put on the
-- ring, or all of it is undone.
pub mod Undo
mod Tests
use mt.Common.{
  ℕ, zero, suc, ◌+◌, ◌-◌, ◌/◌, ◌%◌, ◌^◌, Bool, true, false, Option, none, some, List, [], ◌∷◌, ◌++◌,
  if◌then◌else◌, leb, ◌==◌, length,
}
use mt.Dma.{QBuf, Queue, Unmap, cache, add_buf}

-- ARRAY_SIZE(tx_info.buf)
abbrev pub max_bufs : ℕ
max_bufs = 32

-- What tx_prepare_skb leaves in struct mt76_tx_info, and whether it succeeds.
pub record Prepared : Type 0 where
  pub is_ok : Bool
  pub bufs : List QBuf
  pub info : ℕ
  pub skb : Option ℕ

-- The frame: its sk_buff, the length of its head and of its fragments.
pub record Outgoing : Type 0 where
  pub skb : ℕ
  pub headlen : ℕ
  pub frags : List ℕ

-- What is asked: the phy's MT76_RESET, mt76_get_txwi (an entry and its DMA address), the n-th
-- dma_map_single, txwi_size and tx_prepare_skb.
pub record SendEnv : Type 0 where
  pub dma64 : Bool
  pub reset : Bool
  pub txwi : Option (ℕ × ℕ)
  pub map_single : ℕ → Option ℕ
  pub txwi_size : ℕ
  pub prepare : List QBuf → Prepared

-- The ring, the index that is returned (`none` for an error), what was mapped and unmapped, the txwi
-- entries put back, and the frames whose status is reported.
pub record Sent : Type 0 where
  pub q : Queue
  pub idx : Option ℕ
  pub mapped : List Unmap
  pub unmapped : List Unmap
  pub put : List ℕ
  pub reported : List (Option ℕ)

abbrev pub buf_of : ℕ → ℕ → QBuf
buf_of addr len = record { addr = addr; len = len % 2 ^ 15; skip_unmap = false }

-- The buffers but the first, in reverse.
pub unmap_bufs : List QBuf → List Unmap
unmap_bufs [] = []
unmap_bufs (b ∷ bs) = unmap_bufs bs ++ ((b.addr, b.len) ∷ [])

abbrev pub behind : List QBuf → List QBuf
behind [] = []
behind (b ∷ bs) = bs

-- A frame with its buffers so far, and what has been mapped.
pub record Walk : Type 0 where
  pub bufs : List QBuf
  pub mapped : List Unmap
  pub is_ok : Bool

module _ (env : SendEnv) where
  -- skb_walk_frags; `n` counts the calls of dma_map_single.
  pub walk_with : (Walk → Walk) → Walk → ℕ → Option ℕ → Walk
  walk_with rest w len none = record w { is_ok = false }
  walk_with rest w len (some addr) = rest (record w {
    bufs = w.bufs ++ (buf_of addr len ∷ []);
    mapped = w.mapped ++ ((addr, len) ∷ []);
  })

  pub walk_frags : ℕ → List ℕ → Walk → Walk
  walk_frags n [] w = w
  walk_frags n (len ∷ lens) w =
      if length w.bufs == max_bufs
      then record w { is_ok = false }
      else walk_with (walk_frags (n + 1) lens) w len (env.map_single n)

  -- The labels `unmap` and `free`.
  pub undo : Queue → ℕ → Walk → Option ℕ → Sent
  undo q t w skb = record {
    q = q;
    idx = none;
    mapped = w.mapped;
    unmapped = unmap_bufs (behind w.bufs);
    put = t ∷ [];
    reported = skb ∷ [];
  }

  pub send_prepared : Queue → ℕ → Walk → Prepared → Sent
  send_prepared q t w p =
      let r = add_buf env.dma64 q p.bufs p.info p.skb (cache t) in
      record { q = r.0; idx = r.1; mapped = w.mapped; unmapped = []; put = []; reported = [] }

  pub after_prepare : Queue → ℕ → Walk → Prepared → Sent
  after_prepare q t w p =
      if p.is_ok then send_prepared q t w p else undo q t (record w { bufs = p.bufs }) p.skb

  pub after_walk : Queue → ℕ → ℕ → Walk → Sent
  after_walk q t skb w =
      if w.is_ok
      then if leb q.ndesc (q.queued + (length w.bufs + 1) / 2 + 1)
        then undo q t w (some skb)
        else after_prepare q t w (env.prepare w.bufs)
      else undo q t w (some skb)

  pub after_head : Queue → Outgoing → ℕ → ℕ → Option ℕ → Sent
  after_head q f t txwi_addr none =
      undo q t (record { bufs = []; mapped = []; is_ok = false }) (some f.skb)
  after_head q f t txwi_addr (some addr) = after_walk q t f.skb (
      walk_frags 1 f.frags (record {
        bufs = buf_of txwi_addr env.txwi_size ∷ buf_of addr f.headlen ∷ [];
        mapped = (addr, f.headlen) ∷ [];
        is_ok = true;
      }))

  pub with_txwi : Queue → Outgoing → Option (ℕ × ℕ) → Sent
  with_txwi q f none = record {
    q = q;
    idx = none;
    mapped = [];
    unmapped = [];
    put = [];
    reported = some f.skb ∷ [];
  }
  with_txwi q f (some (t, addr)) = after_head q f t addr (env.map_single 0)

  pub tx_queue_skb : Queue → Outgoing → Sent
  tx_queue_skb q f = with_txwi q f (if env.reset then none else env.txwi)
