-- ===== src/Dma/Send/Undo.antt =====
-- What mt76_dma_tx_queue_skb leaves, whatever fails.
use mt.Common.{
  ℕ, ◌+◌, ◌/◌, ◌%◌, ◌^◌, ◌≤◌, ◌<◌, ◌≡◌, ◌≢◌, refl, sym, ◌∙◌, ap, arith, true, false, Option, none,
  Bool, some, List, [], ◌∷◌, ◌++◌, append-nil, append_assoc, if◌then◌else◌, leb, ◌==◌, length,
  length-append, Bool-cases, Option-cases, inl, inr, ◌⊎◌,
}
use mt.Dma.{QBuf, Queue, Unmap, cache, finish_entry}
use mt.Dma.Pending.{pending, QInv, on_last}
use mt.Dma.Add.{descs, entries, first_entry, add_buf_lem}
use mt.Dma.Send.{
  max_bufs, Prepared, Outgoing, SendEnv, Sent, buf_of, unmap_bufs, behind, Walk, walk_with,
  walk_frags, undo, send_prepared, after_prepare, after_walk, after_head, with_txwi, tx_queue_skb,
}

abbrev pub reverse_maps : List Unmap → List Unmap
reverse_maps [] = []
reverse_maps (x ∷ xs) = reverse_maps xs ++ (x ∷ [])

-- Lengths that fit the fifteen bits of a buffer's length.
abbrev pub AllShort : List ℕ → Type 0
AllShort [] = Unit {0}
AllShort (l ∷ ls) = (l < 2 ^ 15) × AllShort ls

unmap_bufs-snoc :
    (bs : List QBuf) (b : QBuf) → unmap_bufs (bs ++ (b ∷ [])) ≡ (b.addr, b.len) ∷ unmap_bufs bs
unfolding unmap_bufs
unmap_bufs-snoc [] b = refl
unmap_bufs-snoc (c ∷ bs) b = ap (λ l. l ++ ((c.addr, c.len) ∷ [])) (unmap_bufs-snoc bs b)

reverse_maps-snoc :
    (xs : List Unmap) (x : Unmap) → reverse_maps (xs ++ (x ∷ [])) ≡ x ∷ reverse_maps xs
reverse_maps-snoc [] x = refl
reverse_maps-snoc (y ∷ xs) x = ap (λ l. l ++ (y ∷ [])) (reverse_maps-snoc xs x)

descs_lem : (bs : List QBuf) → descs bs ≡ (length bs + 1) / 2
descs_lem [] = refl
descs_lem (b ∷ []) = refl
descs_lem (b ∷ c ∷ bs) = omega (arith, descs_lem bs)

behind-snoc :
    (bs : List QBuf) (b : QBuf) → 0 < length bs → behind (bs ++ (b ∷ [])) ≡ behind bs ++ (b ∷ [])
behind-snoc [] b h = absurd (omega arith)
behind-snoc (c ∷ bs) b h = refl

-- The buffers behind the txwi are what has been mapped.
record Walked (w : Walk) : Type 0 where
  has_txwi : 1 < length w.bufs
  undoes : unmap_bufs (behind w.bufs) ≡ reverse_maps w.mapped

-- What a driver keeps to in tx_prepare_skb: on success it leaves at least one buffer and no more than
-- there were, on failure the buffers are as they were.
pub record Prepares (prepare : List QBuf → Prepared) : Type 0 where
  pub some_left :
      (bs : List QBuf)
      → (prepare bs).is_ok ≡ true
      → 0 < length bs
      → (0 < length (prepare bs).bufs) × (length (prepare bs).bufs ≤ length bs)
  pub kept : (bs : List QBuf) → (prepare bs).is_ok ≡ false → (prepare bs).bufs ≡ bs

-- The txwi entry that the call has taken.
abbrev pub txwi_list : Option (ℕ × ℕ) → List ℕ
txwi_list none = []
txwi_list (some (t, addr)) = t ∷ []

-- An error undoes everything: the ring is as it was, what was mapped is unmapped in reverse, the txwi
-- entries `txwis` are put back, and one status is reported.
pub record Undone (q : Queue) (txwis : List ℕ) (r : Sent) : Type 0 where
  pub failed : r.idx ≡ none
  pub same_ring : r.q ≡ q
  pub all_unmapped : r.unmapped ≡ reverse_maps r.mapped
  pub put_back : r.put ≡ txwis
  pub one_status : length r.reported ≡ 1

-- The addresses that the calls of dma_map_single give to the lengths, from the `n`-th call on; none if
-- one of them fails.
abbrev with_address : ℕ → Option ℕ → Option (List Unmap) → Option (List Unmap)
with_address len none o = none
with_address len (some addr) none = none
with_address len (some addr) (some xs) = some ((addr, len) ∷ xs)

unfoldable pub mappings : (ℕ → Option ℕ) → ℕ → List ℕ → Option (List Unmap)
mappings map_single n [] = some []
mappings map_single n (len ∷ lens) =
    with_address len (map_single n) (mappings map_single (n + 1) lens)

abbrev pub bufs_of : List Unmap → List QBuf
bufs_of [] = []
bufs_of ((addr, len) ∷ xs) = buf_of addr len ∷ bufs_of xs

-- A success appends the frame to the ring, and undoes nothing: the head and the fragments are mapped,
-- and what the driver makes of their buffers, behind that of the txwi, stands on the ring with the
-- sk_buff that the driver leaves and the txwi that was taken.
pub record Queued (env : SendEnv) (q : Queue) (f : Outgoing) (r : Sent) : Type 0 where
  pub txwi : ℕ
  pub txwi_addr : ℕ
  pub maps : List Unmap
  pub not_reset : env.reset ≡ false
  pub taken : env.txwi ≡ some (txwi, txwi_addr)
  pub all_mapped : mappings env.map_single 0 (f.headlen ∷ f.frags) ≡ some maps
  pub mapped : r.mapped ≡ maps
  pub succeeded : r.idx ≢ none
  pub valid : QInv r.q
  pub appended :
      let p = env.prepare (buf_of txwi_addr env.txwi_size ∷ bufs_of maps) in
      pending r.q
      ≡ pending q
        ++ on_last (finish_entry p.skb (cache txwi)) (entries (first_entry (cache txwi)) p.bufs)
  pub room_kept : r.q.queued + 1 < q.ndesc
  pub none_unmapped : r.unmapped ≡ []
  pub none_put : r.put ≡ []
  pub no_status : r.reported ≡ []

module _ (env : SendEnv) where
  walk_step :
      (w : Walk) (addr len : ℕ)
      → Walked w
      → len < 2 ^ 15
      → Walked (record w {
        bufs = w.bufs ++ (buf_of addr len ∷ []);
        mapped = w.mapped ++ ((addr, len) ∷ []);
      })
  walk_step w addr len v h =
      let short : len % 2 ^ 15 ≡ len = omega arith in
      record {
        has_txwi = omega (arith, v.has_txwi, length-append w.bufs (buf_of addr len ∷ []));
        undoes =
            ap unmap_bufs (behind-snoc w.bufs (buf_of addr len) (omega (arith, v.has_txwi)))
            ∙ (unmap_bufs-snoc (behind w.bufs) (buf_of addr len)
                ∙ (ap (λ x. (addr, x) ∷ unmap_bufs (behind w.bufs)) short
                    ∙ (ap (λ l. (addr, len) ∷ l) v.undoes
                        ∙ sym (reverse_maps-snoc w.mapped (addr, len)))));
      }

  walk_frags_lem :
      (lens : List ℕ) (n : ℕ) (w : Walk)
      → Walked w
      → AllShort lens
      → Walked (walk_frags env n lens w)
  unfolding walk_frags walk_with
  walk_frags_lem [] n w v h = v
  walk_frags_lem (len ∷ lens) n w v h = elim (Bool-cases (length w.bufs == max_bufs)) [
    | inl e ↦ rw e (record { has_txwi = v.has_txwi; undoes = v.undoes })
    | inr e ↦ elim (Option-cases (env.map_single n)) [
      | inl f ↦ rw (e, f) (record { has_txwi = v.has_txwi; undoes = v.undoes })
      | inr (addr, f) ↦ rw (e, f) (walk_frags_lem lens (n + 1) _ (walk_step w addr len v h.0) h.1)
    ]
  ]

  -- A walk that succeeds has mapped all fragments.
  record Reached (n : ℕ) (lens : List ℕ) (w w' : Walk) : Type 0 where
    xs : List Unmap
    all : mappings env.map_single n lens ≡ some xs
    more_bufs : w'.bufs ≡ w.bufs ++ bufs_of xs
    more_mapped : w'.mapped ≡ w.mapped ++ xs

  walk_frags-Reached :
      (lens : List ℕ) (n : ℕ) (w : Walk)
      → (walk_frags env n lens w).is_ok ≡ true
      → Reached n lens w (walk_frags env n lens w)
  unfolding walk_frags walk_with mappings
  walk_frags-Reached [] n w h = record {
    xs = [];
    all = refl;
    more_bufs = sym (append-nil w.bufs);
    more_mapped = sym (append-nil w.mapped);
  }
  walk_frags-Reached (len ∷ lens) n w h =
      by (length w.bufs == max_bufs) (env.map_single n) refl
        (λ w' g. walk_frags-Reached lens (n + 1) w' g) h
    where
      tail : Walk → Walk
      tail = walk_frags env (n + 1) lens

      step : Bool → Option ℕ → Walk
      step b o = if b then record w { is_ok = false } else walk_with env tail w len o

      by :
          (b : Bool) (o : Option ℕ)
          → env.map_single n ≡ o
          → ((w' : Walk) → (tail w').is_ok ≡ true → Reached (n + 1) lens w' (tail w'))
          → (step b o).is_ok ≡ true
          → Reached n (len ∷ lens) w (step b o)
      by true o e ih g = ground (arith, g)
      by false none e ih g = ground (arith, g)
      by false (some addr) e ih g =
          let w' : Walk = record w {
            bufs = w.bufs ++ (buf_of addr len ∷ []);
            mapped = w.mapped ++ ((addr, len) ∷ []);
          } in
          let r = ih w' g in
          record {
            xs = (addr, len) ∷ r.xs;
            all = rw (e, r.all) refl;
            more_bufs = r.more_bufs ∙ append_assoc w.bufs (buf_of addr len ∷ []) (bufs_of r.xs);
            more_mapped = r.more_mapped ∙ append_assoc w.mapped ((addr, len) ∷ []) r.xs;
          }

  undo_lem :
      (q : Queue) (t : ℕ) (w : Walk) (skb : Option ℕ)
      → Walked w
      → Undone q (t ∷ []) (undo env q t w skb)
  unfolding undo
  undo_lem q t w skb v = record {
    failed = refl;
    same_ring = refl;
    all_unmapped = v.undoes;
    put_back = refl;
    one_status = refl;
  }

  module _ (driver : Prepares env.prepare) where
    -- What a walk that succeeds has come to.
    record Sending (f : Outgoing) (t : ℕ) (w : Walk) : Type 0 where
      txwi_addr : ℕ
      maps : List Unmap
      not_reset : env.reset ≡ false
      taken : env.txwi ≡ some (t, txwi_addr)
      all_mapped : mappings env.map_single 0 (f.headlen ∷ f.frags) ≡ some maps
      mapped : w.mapped ≡ maps
      bufs : w.bufs ≡ buf_of txwi_addr env.txwi_size ∷ bufs_of maps

    send_prepared_lem :
        (q : Queue) (f : Outgoing) (t : ℕ) (w : Walk)
        → QInv q
        → Walked w
        → q.queued + (length w.bufs + 1) / 2 + 1 < q.ndesc
        → (env.prepare w.bufs).is_ok ≡ true
        → Sending f t w
        → Queued env q f (send_prepared env q t w (env.prepare w.bufs))
    unfolding send_prepared
    send_prepared_lem q f t w v k room e sd =
        let p = env.prepare w.bufs in
        let (some_bufs, fewer) = driver.some_left w.bufs e (omega (arith, k.has_txwi)) in
        let d = descs_lem p.bufs in
        let (valid, more, count, idx) =
          add_buf_lem env.dma64 q p.bufs p.info p.skb (cache t) v (omega (arith, d, some_bufs))
            (omega (arith, d, fewer, room)) in
        record {
          txwi = t;
          txwi_addr = sd.txwi_addr;
          maps = sd.maps;
          not_reset = sd.not_reset;
          taken = sd.taken;
          all_mapped = sd.all_mapped;
          mapped = sd.mapped;
          succeeded = λ f. let g = sym f ∙ idx in cc;
          valid = valid;
          appended =
              more
              ∙ ap
                  (λ bs.
                    let p = env.prepare bs in
                    pending q
                    ++ on_last (finish_entry p.skb (cache t))
                        (entries (first_entry (cache t)) p.bufs))
                  sd.bufs;
          room_kept = omega (arith, count, d, fewer, room);
          none_unmapped = refl;
          none_put = refl;
          no_status = refl;
        }

    after_walk_lem :
        (q : Queue) (f : Outgoing) (t skb : ℕ) (w : Walk)
        → QInv q
        → Walked w
        → (w.is_ok ≡ true → Sending f t w)
        → Undone q (t ∷ []) (after_walk env q t skb w) ⊎ Queued env q f (after_walk env q t skb w)
    unfolding after_walk after_prepare undo send_prepared
    after_walk_lem q o t skb w v k sd = elim (Bool-cases w.is_ok) [
      | inr e ↦ rw e (inl (undo_lem q t w (some skb) k))
      | inl e ↦ elim (Bool-cases (leb q.ndesc (q.queued + (length w.bufs + 1) / 2 + 1))) [
        | inl f ↦ rw (e, f) (inl (undo_lem q t w (some skb) k))
        | inr f ↦
            let p = env.prepare w.bufs in
            elim (Bool-cases p.is_ok) [
              | inl g ↦
                  rw (e, f, g) (inr (send_prepared_lem q o t w v k (ground (arith, f)) g (sd e)))
              | inr g ↦
                  let same = driver.kept w.bufs g in
                  rw (e, f, g)
                    (inl (
                      undo_lem q t (record w { bufs = p.bufs }) p.skb
                        (record {
                          has_txwi = omega (arith, k.has_txwi, ap length same);
                          undoes = ap (λ l. unmap_bufs (behind l)) same ∙ k.undoes;
                        })))
            ]
      ]
    ]

    not_resetting :
        (t addr : ℕ)
        → (if env.reset then none else env.txwi) ≡ some (t, addr)
        → (env.reset ≡ false) × (env.txwi ≡ some (t, addr))
    not_resetting t addr eq = by env.reset refl eq
      where
        by :
            (b : Bool)
            → env.reset ≡ b
            → (if b then none else env.txwi) ≡ some (t, addr)
            → (env.reset ≡ false) × (env.txwi ≡ some (t, addr))
        by true e h = ground (arith, h)
        by false e h = (e, h)

    walk-Sending :
        (q : Queue) (f : Outgoing) (t addr a : ℕ)
        → (if env.reset then none else env.txwi) ≡ some (t, addr)
        → env.map_single 0 ≡ some a
        → let w : Walk = record {
          bufs = buf_of addr env.txwi_size ∷ buf_of a f.headlen ∷ [];
          mapped = (a, f.headlen) ∷ [];
          is_ok = true;
        } in
          (walk_frags env 1 f.frags w).is_ok ≡ true → Sending f t (walk_frags env 1 f.frags w)
    unfolding mappings
    walk-Sending q f t addr a eq e h =
        let r = walk_frags-Reached f.frags 1 _ h in
        let (awake, taken) = not_resetting t addr eq in
        record {
          txwi_addr = addr;
          maps = (a, f.headlen) ∷ r.xs;
          not_reset = awake;
          taken = taken;
          all_mapped = rw (e, r.all) refl;
          mapped = r.more_mapped;
          bufs = r.more_bufs;
        }

    with_lem :
        (q : Queue) (f : Outgoing) (o : Option (ℕ × ℕ))
        → QInv q
        → f.headlen < 2 ^ 15
        → AllShort f.frags
        → (if env.reset then none else env.txwi) ≡ o
        → Undone q (txwi_list o) (with_txwi env q f o) ⊎ Queued env q f (with_txwi env q f o)
    unfolding with_txwi after_head undo unmap_bufs
    with_lem q f none v h hs eq = inl (record {
      failed = refl;
      same_ring = refl;
      all_unmapped = refl;
      put_back = refl;
      one_status = refl;
    })
    with_lem q f (some (t, addr)) v h hs eq = elim (Option-cases (env.map_single 0)) [
      | inl e ↦ rw e (
          inl (record {
            failed = refl;
            same_ring = refl;
            all_unmapped = refl;
            put_back = refl;
            one_status = refl;
          }))
      | inr (a, e) ↦
          let short : f.headlen % 2 ^ 15 ≡ f.headlen = omega arith in
          rw e (
            after_walk_lem q f t f.skb _ v
              (walk_frags_lem f.frags 1 _
                (record { has_txwi = omega arith; undoes = ap (λ x. (a, x) ∷ []) short }) hs)
              (walk-Sending q f t addr a eq e))
    ]

    -- mt76_dma_tx_queue_skb, for lengths below 2 ^ 15 and a driver that keeps to the above, either
    -- fails and undoes everything, or appends the frame to the ring and undoes nothing. In the first
    -- case the ring is unchanged. In the second the device was not being reset, the head and all
    -- fragments were mapped, and behind what the ring held stand the buffers that tx_prepare_skb makes
    -- of those of the txwi, the head and the fragments, the last entry with the txwi that was taken
    -- and the sk_buff that tx_prepare_skb leaves; the ring keeps its invariant and two free cells.
    pub tx_queue_skb_lem :
        (q : Queue) (f : Outgoing)
        → QInv q
        → f.headlen < 2 ^ 15
        → AllShort f.frags
        → Undone q (txwi_list (if env.reset then none else env.txwi)) (tx_queue_skb env q f)
          ⊎ Queued env q f (tx_queue_skb env q f)
    unfolding tx_queue_skb
    tx_queue_skb_lem q f v h hs = with_lem q f (if env.reset then none else env.txwi) v h hs refl
