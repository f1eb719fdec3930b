-- ===== src/Status/Done.antt =====
-- What __mt76_tx_status_skb_done changes (tx.c).
use mt.Common.{ℕ, ◌≡◌, refl, ◌∙◌, ap, ap₂, Bool, true, false, ◌&&◌, [], ◌∷◌, ◌++◌, if◌then◌else◌}
use mt.Common.Ring.{update, update-ne, update_self}
use mt.Kernel.Idr.{IdrOps}
use mt.Status.{Dev, Cb, Reason, flagged, skb_done}
use mt.Status.End.{IsEnd}

module _ {S : Type 0} (k : IdrOps S) (ignore_failed : Bool) where
  pub record IsDone (d e : Dev S) (x : ℕ) (c : Cb) : Type 0 where
    pub done_ids : e.ids ≡ d.ids
    pub done_cb : e.cb ≡ update d.cb x c
    pub done_reported : e.reported ≡ d.reported
    pub done_ended : e.ended ≡ (if c.dma_done && c.txs_done then d.ended ++ (x ∷ []) else d.ended)
    pub done_list : e.wcid_list ≡ d.wcid_list

  pub skb_done_lem :
      (d : Dev S) (x : ℕ) (r : Reason)
      → IsDone d (skb_done k ignore_failed d x r) x (flagged (d.cb x) r)
  unfolding skb_done
  skb_done_lem d x r =
      with_test ((flagged (d.cb x) r).dma_done && (flagged (d.cb x) r).txs_done) refl
    where
      with_test :
          (b : Bool)
          → ((flagged (d.cb x) r).dma_done && (flagged (d.cb x) r).txs_done) ≡ b
          → IsDone d (skb_done k ignore_failed d x r) x (flagged (d.cb x) r)
      with_test true h = record {
        done_ids = rw h refl;
        done_cb = rw h refl;
        done_reported = rw h refl;
        done_ended = rw h refl;
        done_list = rw h refl;
      }
      with_test false h = record {
        done_ids = rw h refl;
        done_cb = rw h refl;
        done_reported = rw h refl;
        done_ended = rw h refl;
        done_list = rw h refl;
      }

  -- The status of the entry `x` has come or is given up.
  pub finished :
      (d e : Dev S) (w i x : ℕ) (c : Cb)
      → ((v : ℕ) → e.ids v ≡ update d.ids w (k.remove (d.ids w) i).0 v)
      → e.cb ≡ d.cb
      → e.reported ≡ d.reported
      → e.ended ≡ d.ended
      → (f : Dev S) → c.dma_done ≡ (d.cb x).dma_done
      → c.txs_done ≡ true
      → IsDone e f x c
      → IsEnd k d f w i x
  finished d e w i x c ids cbs rep end f dma_same txs_set m = record {
    new_ids = λ v. ap (λ t. t v) m.done_ids ∙ ids v;
    other_cb = λ y ne. ap (λ t. t y) m.done_cb ∙ (update-ne e.cb x y c ne ∙ ap (λ t. t y) cbs);
    new_txs =
        ap (λ t. (t x).txs_done) m.done_cb
        ∙ (ap (λ t. t.txs_done) (update_self e.cb x c) ∙ txs_set);
    new_dma =
        ap (λ t. (t x).dma_done) m.done_cb
        ∙ (ap (λ t. t.dma_done) (update_self e.cb x c) ∙ dma_same);
    new_reported = m.done_reported ∙ rep;
    new_ended =
        m.done_ended
        ∙ (ap₂ (λ b l. if b then l ++ (x ∷ []) else l)
            (ap₂ ◌&&◌ dma_same txs_set ∙ and_true (d.cb x).dma_done) end);
  }
    where
      and_true : (b : Bool) → (b && true) ≡ b
      and_true true = refl
      and_true false = refl
