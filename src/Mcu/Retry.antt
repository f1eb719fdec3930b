-- ===== src/Mcu/Retry.antt =====
-- A message is sent a bounded number of times, and every reply is accounted for.
use mt.Common.{
  some_inj, Option-cases, ◌⊎◌, subst, ℕ, zero, suc, ◌+◌, ◌≤◌, ◌≡◌, ◌≢◌, refl, sym, ◌∙◌, ap, arith,
  Bool, true, false, ◌&&◌, Option, none, some, List, [], ◌∷◌, ◌++◌, append_assoc, append-nil,
  if◌then◌else◌, ltb, replicate, Bool-cases, inl, inr,
}
use mt.Mcu.{
  Ret, ok0, eagain, error, Wait, Sent, McuOps, to_list, may_retry, parsed, sending, receive, unsent,
  send_and_get, after_first,
}

-- The replies that a list of waits brings.
abbrev pub replies : List Wait → List ℕ
replies [] = []
replies (w ∷ ws) = to_list w.reply ++ replies ws

-- A wait that brings nothing, though the device is not reset.
abbrev pub quiet : Wait
quiet = record { reply = none; reset = false }

module _ (ops : McuOps) where
  -- What a run that is not yet at its end has kept to; `seen` are the replies so far.
  record Pending (seen : List ℕ) (s : Sent) : Type 0 where
    by_retry : s.sends ≤ s.retry + 1
    by_max : s.sends ≤ ops.max_retry + 1
    none_handed : s.handed ≡ none
    all_freed : s.freed ≡ seen

  -- What holds at its end: `before` are the waits that the run has made, as it comes to the same
  -- result on them alone; the replies that they brought are freed or, the last, handed over.
  pub record Accounted (run : List Wait → Option Sent) (seen : List ℕ) (ws : List Wait) (s : Sent)
      : Type 0 where
    pub bounded : s.sends ≤ ops.max_retry + 1
    pub before : List Wait
    pub unread : List Wait
    pub split : before ++ unread ≡ ws
    pub enough : run before ≡ some s
    pub accounted : s.freed ++ to_list s.handed ≡ seen ++ replies before

  module _ (s : Sent) (w : Wait) (ws : List Wait) where
    abbrev retries : Bool
    retries = may_retry ops w && ltb s.retry ops.max_retry

    abbrev counted : Sent
    counted = if may_retry ops w then record s { retry = s.retry + 1 } else s

    abbrev retried : Option ℕ → Sent
    retried o = sending ops (record s { retry = s.retry + 1 }) o

    receive_retry :
        retries ≡ true
        → ops.send_fails s.sends ≡ none
        → receive ops s (w ∷ ws) ≡ receive ops (retried none) ws
    unfolding receive
    receive_retry t e = ground arith

    receive_retry_fails :
        (x : ℕ)
        → retries ≡ true
        → ops.send_fails s.sends ≡ some x
        → receive ops s (w ∷ ws) ≡ some (retried (some x))
    unfolding receive
    receive_retry_fails x t e = ground arith

    receive_again :
        retries ≡ false
        → ops.parse w.reply ≡ eagain
        → receive ops s (w ∷ ws) ≡ receive ops (parsed ops counted w.reply eagain) ws
    unfolding receive
    receive_again t e = ground arith

    receive_done :
        retries ≡ false
        → ops.parse w.reply ≢ eagain
        → receive ops s (w ∷ ws) ≡ some (parsed ops counted w.reply (ops.parse w.reply))
    unfolding receive
    receive_done t e = ground arith

  retried-Pending :
      (seen : List ℕ) (s : Sent) (w : Wait) (ws : List Wait)
      → Pending seen s
      → retries s w ws ≡ true
      → Pending seen (retried s w ws none)
  retried-Pending seen s w ws p t = ground arith

  retry_null :
      (s : Sent) (w : Wait) (ws : List Wait) → retries s w ws ≡ true → replies (w ∷ ws) ≡ replies ws
  retry_null s w ws t = ground arith

  counted-Pending :
      (seen : List ℕ) (s : Sent) (w : Wait) (ws : List Wait)
      → Pending seen s
      → Pending (seen ++ to_list w.reply) (parsed ops (counted s w ws) w.reply eagain)
  counted-Pending seen s w ws p = ground (arith, p)

  -- The reply that ends the run, handed over or freed.
  parsed-Accounted :
      (seen : List ℕ) (s : Sent) (w : Wait) (ws : List Wait) (r : Ret)
      → Pending seen s
      → receive ops s (w ∷ []) ≡ some (parsed ops (counted s w ws) w.reply r)
      → Accounted (receive ops s) seen (w ∷ ws) (parsed ops (counted s w ws) w.reply r)
  parsed-Accounted seen s w ws r p e = record {
    bounded = bound r;
    before = w ∷ [];
    unread = ws;
    split = refl;
    enough = e;
    accounted = kept r ∙ ap (λ x. seen ++ x) (sym (append-nil (to_list w.reply)));
  }
    where
      bound : (r : Ret) → (parsed ops (counted s w ws) w.reply r).sends ≤ ops.max_retry + 1
      bound ok0 = ground (arith, p)
      bound eagain = ground (arith, p)
      bound (error x) = ground (arith, p)

      kept :
          (r : Ret)
          → let d = parsed ops (counted s w ws) w.reply r in
            d.freed ++ to_list d.handed ≡ seen ++ to_list w.reply
      kept ok0 = ground (arith, p, append-nil s.freed, append-nil (s.freed ++ to_list w.reply))
      kept eagain = ground (arith, p, append-nil (s.freed ++ to_list w.reply))
      kept (error x) = ground (arith, p, append-nil (s.freed ++ to_list w.reply))

  failed-Accounted :
      (seen : List ℕ) (s : Sent) (w : Wait) (ws : List Wait) (x : ℕ)
      → Pending seen s
      → retries s w ws ≡ true
      → ops.send_fails s.sends ≡ some x
      → Accounted (receive ops s) seen (w ∷ ws) (retried s w ws (some x))
  failed-Accounted seen s w ws x p t e = record {
    bounded = ground arith;
    before = w ∷ [];
    unread = ws;
    split = refl;
    enough = receive_retry_fails s w [] x t e;
    accounted = all_in ∙ (sym (append-nil seen) ∙ ap (λ l. seen ++ l) (sym (retry_null s w [] t)));
  }
    where
      all_in : (retried s w ws (some x)).freed ++ to_list (retried s w ws (some x)).handed ≡ seen
      all_in = ground (arith, append-nil s.freed)

  retried-Accounted :
      (seen : List ℕ) (s : Sent) (w : Wait) (ws : List Wait) {s' : Sent}
      → retries s w ws ≡ true
      → ops.send_fails s.sends ≡ none
      → Accounted (receive ops (retried s w ws none)) seen ws s'
      → Accounted (receive ops s) seen (w ∷ ws) s'
  retried-Accounted seen s w ws t e a = record {
    bounded = a.bounded;
    before = w ∷ a.before;
    unread = a.unread;
    split = ap (λ l. w ∷ l) a.split;
    enough = receive_retry s w a.before t e ∙ a.enough;
    accounted = a.accounted ∙ ap (λ l. seen ++ l) (sym (retry_null s w a.before t));
  }

  again-Accounted :
      (seen : List ℕ) (s : Sent) (w : Wait) (ws : List Wait) {s' : Sent}
      → retries s w ws ≡ false
      → ops.parse w.reply ≡ eagain
      → Accounted
          (receive ops (parsed ops (counted s w ws) w.reply eagain))
          (seen ++ to_list w.reply)
          ws
          s'
      → Accounted (receive ops s) seen (w ∷ ws) s'
  again-Accounted seen s w ws f e a = record {
    bounded = a.bounded;
    before = w ∷ a.before;
    unread = a.unread;
    split = ap (λ l. w ∷ l) a.split;
    enough = receive_again s w a.before f e ∙ a.enough;
    accounted = a.accounted ∙ append_assoc seen (to_list w.reply) (replies a.before);
  }

  Ret-cases : (r : Ret) → (r ≡ eagain) ⊎ (r ≢ eagain)
  Ret-cases ok0 = inr (λ e. cc)
  Ret-cases eagain = inl refl
  Ret-cases (error x) = inr (λ e. cc)

  receive_lem :
      (ws : List Wait) (seen : List ℕ) (s : Sent) {s' : Sent}
      → Pending seen s
      → receive ops s ws ≡ some s'
      → Accounted (receive ops s) seen ws s'
  unfolding receive
  receive_lem [] seen s p h = absurd (ground arith)
  receive_lem (w ∷ ws) seen s {s'} p h = elim (Bool-cases (retries s w ws)) [
    | inl t ↦ elim (Option-cases (ops.send_fails s.sends)) [
      | inl e ↦ retried-Accounted seen s w ws t e (
          receive_lem ws seen (retried s w ws none) (retried-Pending seen s w ws p t)
            (sym (receive_retry s w ws t e) ∙ h))
      | inr (x, e) ↦
          subst (Accounted (receive ops s) seen (w ∷ ws))
            (some_inj (sym (receive_retry_fails s w ws x t e) ∙ h))
            (failed-Accounted seen s w ws x p t e)
    ]
    | inr f ↦ elim (Ret-cases (ops.parse w.reply)) [
      | inl e ↦ again-Accounted seen s w ws f e (
          receive_lem ws (seen ++ to_list w.reply) (parsed ops (counted s w ws) w.reply eagain)
            (counted-Pending seen s w ws p) (sym (receive_again s w ws f e) ∙ h))
      | inr ne ↦
          subst (Accounted (receive ops s) seen (w ∷ ws))
            (some_inj (sym (receive_done s w ws f ne) ∙ h))
            (parsed-Accounted seen s w ws (ops.parse w.reply) p (receive_done s w [] f ne))
    ]
  ]

  -- A run that makes no wait.
  at_once :
      (run : List Wait → Option Sent) (ws : List Wait) {s s' : Sent}
      → s.sends ≤ ops.max_retry + 1
      → s.freed ≡ []
      → s.handed ≡ none
      → run [] ≡ some s
      → some s ≡ some s'
      → Accounted run [] ws s'
  at_once run ws b f n e h = subst (Accounted run [] ws) (some_inj h) (record {
    bounded = b;
    before = [];
    unread = ws;
    split = refl;
    enough = e;
    accounted = rw (f, n) refl;
  })

  first_lem :
      (o : Option ℕ) (wait_resp : Bool) (ws : List Wait) {s : Sent}
      → after_first ops wait_resp (sending ops unsent o) ws (sending ops unsent o).ret ≡ some s
      → Accounted
          (λ us. after_first ops wait_resp (sending ops unsent o) us (sending ops unsent o).ret)
          []
          ws
          s
  unfolding after_first
  first_lem (some e) wait_resp ws h = at_once _ ws (omega arith) refl refl refl h
  first_lem none false ws h = at_once _ ws (omega arith) refl refl refl h
  first_lem none true ws h =
      receive_lem ws [] (sending ops unsent none)
        (record {
          by_retry = omega arith;
          by_max = omega arith;
          none_handed = refl;
          all_freed = refl;
        })
        h

  -- mt76_mcu_skb_send_and_get_msg sends a message at most max_retry + 1 times. Where it returns, there
  -- are waits `before` on which alone it comes to the same result, and the replies that they brought,
  -- in order, are all freed or, the last one, handed to the caller.
  pub send_and_get_accounts :
      (hung : Bool) (prepare : Option ℕ) (wait_resp : Bool) (ws : List Wait) {s : Sent}
      → send_and_get ops hung prepare wait_resp ws ≡ some s
      → Accounted (send_and_get ops hung prepare wait_resp) [] ws s
  unfolding send_and_get
  send_and_get_accounts true prepare wait_resp ws h = at_once _ ws (omega arith) refl refl refl h
  send_and_get_accounts false (some e) wait_resp ws h = at_once _ ws (omega arith) refl refl refl h
  send_and_get_accounts false none wait_resp ws h = first_lem (ops.send_fails 0) wait_resp ws h

  abbrev GivesUp : ℕ → List Wait → Sent → Type 0
  GivesUp e ws s =
      (s' : Sent) × (receive ops s ws ≡ some s')
      × (s'.sends ≡ ops.max_retry + 1)
      × (s'.ret ≡ error e)

  quiet_lem :
      (e n : ℕ) (ws : List Wait) (s : Sent)
      → ops.has_orig ≡ true
      → ((n : ℕ) → ops.send_fails n ≡ none)
      → ops.parse none ≡ error e
      → s.retry + n ≡ ops.max_retry
      → s.sends ≡ s.retry + 1
      → GivesUp e (replicate n quiet ++ (quiet ∷ ws)) s
  quiet_lem e zero ws s ho sf pn hn hs = (
    parsed ops (counted s quiet ws) none (ops.parse none),
    receive_done s quiet ws (ground (arith, hn)) (λ q. cc (pn)),
    ground (arith, pn),
    ground (arith, pn),
  )
  quiet_lem e (suc n) ws s ho sf pn hn hs =
      let rest = replicate n quiet ++ (quiet ∷ ws) in
      let (s', h, c, r) =
        quiet_lem e n ws (retried s quiet rest none) ho sf pn (omega arith) (omega arith) in
      (s', receive_retry s quiet rest (ground arith) (sf s.sends) ∙ h, c, r)

  -- A driver that does not prepare messages gives up with the first wait that brings nothing.
  single_lem :
      (e : ℕ) (ws : List Wait) (s : Sent)
      → ops.has_orig ≡ false
      → ops.parse none ≡ error e
      → s.sends ≡ 1
      → (s' : Sent) × (receive ops s (quiet ∷ ws) ≡ some s') × (s'.sends ≡ 1) × (s'.ret ≡ error e)
  single_lem e ws s ho pn hs = (
    parsed ops (counted s quiet ws) none (ops.parse none),
    receive_done s quiet ws (ground (arith, ho)) (λ q. cc (pn)),
    ground (arith, pn),
    ground (arith, pn),
  )

  quiet_front :
      (n : ℕ) (ws : List Wait) → (us : List Wait) × (replicate n quiet ++ (quiet ∷ ws) ≡ quiet ∷ us)
  quiet_front zero ws = (ws, refl)
  quiet_front (suc n) ws = (replicate n quiet ++ (quiet ∷ ws), refl)

  -- If no reply ever comes, the device is not reset and every sending succeeds, a driver that prepares
  -- messages sends max_retry + 1 times and one that does not, as those of the repository, once; then
  -- the error is returned that mcu_parse_response makes of no reply.
  pub send_and_get_times_out :
      (e : ℕ) (ws : List Wait)
      → ((n : ℕ) → ops.send_fails n ≡ none)
      → ops.parse none ≡ error e
      → (s : Sent) × (send_and_get ops false none true
            (replicate ops.max_retry quiet ++ (quiet ∷ ws))
          ≡ some s)
        × (s.sends ≡ (if ops.has_orig then ops.max_retry + 1 else 1))
        × (s.ret ≡ error e)
  unfolding send_and_get
  send_and_get_times_out e ws sf pn = elim (Bool-cases ops.has_orig) [
    | inl ho ↦
        let (s, h, c, r) =
          quiet_lem e ops.max_retry ws (sending ops unsent none) ho sf pn (omega arith)
            (omega arith) in
        (s, rw (sf 0) h, ground (arith, c, ho), r)
    | inr ho ↦
        let (us, q) = quiet_front ops.max_retry ws in
        let (s, h, c, r) = single_lem e us (sending ops unsent none) ho pn refl in
        (s, rw (sf 0, q) h, ground (arith, c, ho), r)
  ]
