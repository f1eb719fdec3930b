-- ===== src/Dma/Add.antt =====
-- mt76_dma_add_buf appends to what the ring holds.
use mt.Common.{
  ℕ, suc, ◌+◌, ◌-◌, ◌≤◌, ◌<◌, ◌≡◌, refl, ◌∙◌, ap, arith, Bool, true, false, Option, none, some,
  List, [], ◌∷◌, ◌++◌, append_assoc, some_inj, length, length-append,
}
use mt.Common.Ring.{at, update, update_self}
use mt.Dma.{
  QBuf, Txwi, null, dummy, cache, Entry, clear, Queue, fill_entry, place, place_all, mark_first,
  finish_entry, set_last, add_buf,
}
use mt.Dma.Pending.{
  advance_lem, pending, QInv, on_last, on_last-append, length-on_last, HasRoom, room_of,
  pending-update, free-update, next_head, pending_step, updated-QInv, updated-pending,
}

-- How many descriptors a list of buffers takes, and what their entries are, the first one made from
-- `e`.
abbrev pub descs : List QBuf → ℕ
descs [] = 0
descs (b ∷ []) = 1
descs (b ∷ c ∷ bs) = suc (descs bs)

descs-pos : (b : QBuf) (bs : List QBuf) → 0 < descs (b ∷ bs)
descs-pos b [] = omega arith
descs-pos b (c ∷ bs) = omega arith

abbrev pub entries : Entry → List QBuf → List Entry
entries e [] = []
entries e (b ∷ []) = fill_entry e b none ∷ []
entries e (b ∷ c ∷ bs) = fill_entry e b (some c) ∷ entries clear bs

abbrev pub first_entry : Txwi → Entry
first_entry null = clear
first_entry _ = record clear { txwi = dummy; skip_buf0 = true }

marked :
    (q : Queue)
    → HasRoom q clear
    → let e : Entry = record (q.entry q.head) { txwi = dummy; skip_buf0 = true } in
      let q' : Queue = record q { entry = update q.entry q.head e } in
      HasRoom q' (record clear { txwi = dummy; skip_buf0 = true })
      × (pending q' ≡ pending q)
      × (q'.queued ≡ q.queued)
      × (q'.ndesc ≡ q.ndesc)
      × (q'.tail ≡ q.tail)
marked q v =
    let e : Entry = record (q.entry q.head) { txwi = dummy; skip_buf0 = true } in
    (
      record {
        tail_in = v.tail_in;
        head_lem = v.head_lem;
        fits = v.fits;
        index_fits = v.index_fits;
        at_head =
            update_self q.entry q.head e
            ∙ ap (λ (x : Entry). record x { txwi = dummy; skip_buf0 = true }) v.at_head;
        free = free-update q clear e v;
      },
      pending-update q clear e v,
      refl,
      refl,
      refl,
    )

length-entries : (e : Entry) (bufs : List QBuf) → length (entries e bufs) ≡ descs bufs
length-entries e [] = refl
length-entries e (b ∷ []) = refl
length-entries e (b ∷ c ∷ bs) = ap suc (length-entries clear bs)

module _ (dma64 : Bool) where
  -- What the ring is after descriptors for `es` have been put on it.
  record Appended (q : Queue) (es : List Entry) (r : Queue × Option ℕ) : Type 0 where
    valid : QInv r.0
    pending_lem : pending r.0 ≡ pending q ++ es
    same_tail : r.0.tail ≡ q.tail
    same_ndesc : r.0.ndesc ≡ q.ndesc
    counted : r.0.queued ≡ q.queued + length es
    some_queued : 0 < r.0.queued
    last_idx : r.1 ≡ some (at r.0.ndesc r.0.tail (r.0.queued - 1))

  place_lem :
      (q : Queue) (e : Entry) (info : ℕ) (b : QBuf) (c : Option QBuf) (more : Bool)
      → HasRoom q e
      → Appended q (fill_entry e b c ∷ []) (place dma64 q info b c more, some q.head)
  unfolding place
  place_lem q e info b c more v = record {
    valid = record {
      tail_in = v.tail_in;
      head_lem =
          advance_lem q q.head (omega (arith, v.tail_in)) v.index_fits ∙ next_head q v.head_lem;
      fits = omega (arith, v.fits);
      index_fits = v.index_fits;
      free = λ i l u. free-update q e (fill_entry (q.entry q.head) b c) v i (omega arith) u;
    };
    pending_lem =
        pending_step q e (fill_entry (q.entry q.head) b c) v
        ∙ ap (λ x. pending q ++ (fill_entry x b c ∷ [])) v.at_head;
    same_tail = refl;
    same_ndesc = refl;
    counted = omega arith;
    some_queued = omega arith;
    last_idx = ap some (v.head_lem ∙ ap (at q.ndesc q.tail) (omega arith));
  }

  Appended-trans :
      {q s : Queue} {es fs : List Entry} {i : Option ℕ} {r : Queue × Option ℕ}
      → Appended q es (s, i)
      → Appended s fs r
      → Appended q (es ++ fs) r
  Appended-trans {q} {s} {es} {fs} {i} {r} a b = record {
    valid = b.valid;
    pending_lem =
        b.pending_lem ∙ (ap (λ x. x ++ fs) a.pending_lem ∙ append_assoc (pending q) es fs);
    same_tail = b.same_tail ∙ a.same_tail;
    same_ndesc = b.same_ndesc ∙ a.same_ndesc;
    counted = omega (arith, a.counted, b.counted, length-append es fs);
    some_queued = b.some_queued;
    last_idx = b.last_idx;
  }

  place_all_lem :
      (bufs : List QBuf) (q : Queue) (e : Entry) (info : ℕ) (idx : Option ℕ)
      → HasRoom q e
      → 0 < descs bufs
      → q.queued + descs bufs ≤ q.ndesc
      → Appended q (entries e bufs) (place_all dma64 q info bufs idx)
  unfolding place_all
  place_all_lem [] q e info idx v h r = absurd (omega arith)
  place_all_lem (b ∷ []) q e info idx v h r = place_lem q e info b none false v
  place_all_lem (b ∷ c ∷ []) q e info idx v h r = place_lem q e info b (some c) false v
  place_all_lem (b ∷ c ∷ d ∷ ds) q e info idx v h r =
      let one = place_lem q e info b (some c) true v in
      let q' = place dma64 q info b (some c) true in
      Appended-trans one (
        place_all_lem (d ∷ ds) q' clear _ (some q.head)
          (room_of one.valid (omega (arith, one.counted, one.same_ndesc, descs-pos d ds, r)))
          (descs-pos d ds) (omega (arith, one.counted, one.same_ndesc, r)))

  mark_first_lem :
      (q : Queue) (txwi : Txwi)
      → HasRoom q clear
      → HasRoom (mark_first q txwi) (first_entry txwi)
        × (pending (mark_first q txwi) ≡ pending q)
        × ((mark_first q txwi).queued ≡ q.queued)
        × ((mark_first q txwi).ndesc ≡ q.ndesc)
        × ((mark_first q txwi).tail ≡ q.tail)
  unfolding mark_first
  mark_first_lem q null v = (v, refl, refl, refl, refl)
  mark_first_lem q dummy v = marked q v
  mark_first_lem q (cache t) v = marked q v

  -- The last entry is completed in place.
  set_last_lem :
      (q : Queue) (es : List Entry) (q' : Queue) (i : Option ℕ) (skb : Option ℕ) (txwi : Txwi)
      → Appended q es (q', i)
      → 0 < length es
      → Appended q (on_last (finish_entry skb txwi) es) (set_last (q', i) skb txwi)
  unfolding set_last
  set_last_lem q es q' none skb txwi a h = absurd (let e = a.last_idx in cc)
  set_last_lem q [] q' (some idx) skb txwi a h = absurd (omega arith)
  set_last_lem q (y ∷ ys) q' (some idx) skb txwi a h =
      let f = finish_entry skb txwi in
      let here = some_inj a.last_idx in
      record {
        valid = updated-QInv q' idx (f (q'.entry idx)) a.valid a.some_queued here;
        pending_lem =
            updated-pending q' idx f a.valid a.some_queued here
            ∙ (ap (on_last f) a.pending_lem ∙ on_last-append f (pending q) y ys);
        same_tail = a.same_tail;
        same_ndesc = a.same_ndesc;
        counted = omega (arith, a.counted, length-on_last f (y ∷ ys));
        some_queued = a.some_queued;
        last_idx = a.last_idx;
      }

  -- mt76_dma_add_buf, where the ring has room for the descriptors: what the ring holds is followed by
  -- the entries of the frame, two buffers to an entry, the last one with the frame and its txwi; the
  -- index of that one is returned, and the ring keeps its invariant.
  pub add_buf_lem :
      (q : Queue) (bufs : List QBuf) (info : ℕ) (skb : Option ℕ) (txwi : Txwi)
      → QInv q
      → 0 < descs bufs
      → q.queued + descs bufs ≤ q.ndesc
      → let r = add_buf dma64 q bufs info skb txwi in
        QInv r.0
        × (pending r.0
            ≡ pending q ++ on_last (finish_entry skb txwi) (entries (first_entry txwi) bufs))
        × (r.0.queued ≡ q.queued + descs bufs)
        × (r.1 ≡ some (at r.0.ndesc r.0.tail (r.0.queued - 1)))
  unfolding add_buf
  add_buf_lem q bufs info skb txwi v h fit =
      let (room, same, count, cells, tail) =
        mark_first_lem q txwi (room_of v (omega (arith, fit, h))) in
      let es = entries (first_entry txwi) bufs in
      let placed =
        place_all_lem bufs (mark_first q txwi) (first_entry txwi) info none room h
          (omega (arith, fit, count, cells)) in
      let done =
        set_last_lem (mark_first q txwi) es (place_all dma64 (mark_first q txwi) info bufs none).0
          (place_all dma64 (mark_first q txwi) info bufs none).1 skb txwi placed
          (omega (arith, length-entries (first_entry txwi) bufs, h)) in
      (
        done.valid,
        done.pending_lem ∙ ap (λ x. x ++ on_last (finish_entry skb txwi) es) same,
        omega (
          arith,
          done.counted,
          count,
          length-on_last (finish_entry skb txwi) es,
          length-entries (first_entry txwi) bufs,
        ),
        done.last_idx,
      )
