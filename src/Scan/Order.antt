-- ===== src/Scan/Order.antt =====
-- A scan that is not disturbed comes to each of its channels once, in order, and ends.
use mt.Common.{
  ℕ, zero, suc, ◌+◌, ◌*◌, ◌/◌, ◌<◌, ◌≡◌, ◌≢◌, refl, sym, ◌∙◌, ap, arith, Bool, true, false, ◌&&◌,
  not, ◌⊎◌, inl, inr, Option, none, some, List, [], ◌∷◌, ◌++◌, append-nil, append_assoc,
  if◌then◌else◌, length, while, while_inv, Bool-cases, Option-cases, some_inj,
}
use mt.Scan.{
  dwell, Channel, Request, Action, set_main, put_link, set_channel, probe, queue_work, completed,
  Scan, nth, is_set, complete_with, scan_complete, probes, has_ssids, visit, back_to_main, work_on,
  work_with, scan_work, has_req,
}

abbrev pub visits : List Action → List Channel
visits [] = []
visits (set_channel c ∷ xs) = c ∷ visits xs
visits (_ ∷ xs) = visits xs

abbrev pub results : List Action → List Bool
results [] = []
results (completed b ∷ xs) = b ∷ results xs
results (_ ∷ xs) = results xs

abbrev drop : ℕ → List Channel → List Channel
drop n [] = []
drop zero (c ∷ cs) = c ∷ cs
drop (suc n) (c ∷ cs) = drop n cs

drop-nth :
    (cs : List Channel) (i : ℕ) (c : Channel) → nth cs i ≡ some c → drop i cs ≡ c ∷ drop (i + 1) cs
drop-nth [] i c h = absurd cc
drop-nth (d ∷ []) zero c h = ap (λ x. x ∷ []) (some_inj h)
drop-nth (d ∷ e ∷ cs) zero c h = ap (λ x. x ∷ e ∷ cs) (some_inj h)
drop-nth (d ∷ cs) (suc i) c h =
    let next : suc (i + 1) ≡ suc i + 1 = omega arith in
    drop-nth cs i c h ∙ ap (λ n. c ∷ drop n (d ∷ cs)) next

drop-none : (cs : List Channel) (i : ℕ) → nth cs i ≡ none → drop i cs ≡ []
drop-none [] i h = refl
drop-none (d ∷ cs) zero h = absurd cc
drop-none (d ∷ cs) (suc i) h = drop-none cs i h

drop_zero : (cs : List Channel) → drop 0 cs ≡ cs
drop_zero [] = refl
drop_zero (c ∷ cs) = refl

visits-append : (xs ys : List Action) → visits (xs ++ ys) ≡ visits xs ++ visits ys
visits-append [] ys = refl
visits-append (set_main ∷ xs) ys = visits-append xs ys
visits-append (put_link ∷ xs) ys = visits-append xs ys
visits-append (set_channel c ∷ xs) ys = ap (λ l. c ∷ l) (visits-append xs ys)
visits-append (probe c x ∷ xs) ys = visits-append xs ys
visits-append (queue_work x ∷ xs) ys = visits-append xs ys
visits-append (completed x ∷ xs) ys = visits-append xs ys

results-append : (xs ys : List Action) → results (xs ++ ys) ≡ results xs ++ results ys
results-append [] ys = refl
results-append (set_main ∷ xs) ys = results-append xs ys
results-append (put_link ∷ xs) ys = results-append xs ys
results-append (set_channel c ∷ xs) ys = results-append xs ys
results-append (probe c x ∷ xs) ys = results-append xs ys
results-append (queue_work x ∷ xs) ys = results-append xs ys
results-append (completed b ∷ xs) ys = ap (λ l. b ∷ l) (results-append xs ys)

probes_lem :
    (b : Bool) (c : Channel) (xs : List ℕ) (d : ℕ)
    → (visits ((if b then probes c xs else []) ++ (queue_work d ∷ [])) ≡ [])
      × (results ((if b then probes c xs else []) ++ (queue_work d ∷ [])) ≡ [])
probes_lem false c xs d = (refl, refl)
probes_lem true c [] d = (refl, refl)
probes_lem true c (x ∷ xs) d = probes_lem true c xs d

-- A scan of `r` that began after `before` is under way, or is over and was not aborted.
pub record Going (r : Request) (before : List Action) (s : Scan) : Type 0 where
  pub running : s.req ≡ some r
  pub no_reset : s.mcu_reset ≡ false
  pub to_come : visits s.actions ++ drop s.chan_idx r.channels ≡ visits before ++ r.channels
  pub no_result : results s.actions ≡ results before

pub record Over (r : Request) (before : List Action) (s : Scan) : Type 0 where
  pub ended : s.req ≡ none
  pub in_order : visits s.actions ≡ visits before ++ r.channels
  pub one_result : results s.actions ≡ results before ++ (false ∷ [])

abbrev flag : Option Channel → ℕ
flag none = 0
flag (some c) = 1

abbrev size_of : Scan → Option Request → ℕ
size_of s none = 0
size_of s (some r) = length (drop s.chan_idx r.channels) * 2 + (flag s.chan + 1)

abbrev size : Scan → ℕ
size s = size_of s s.req

flag_set : (o : Option Channel) → is_set o ≡ true → flag o ≡ 1
flag_set none h = absurd cc
flag_set (some c) h = refl

done_lem :
    (b abort : Bool)
    → (visits ((if b then set_main ∷ [] else []) ++ (put_link ∷ completed abort ∷ [])) ≡ [])
      × (results ((if b then set_main ∷ [] else []) ++ (put_link ∷ completed abort ∷ []))
          ≡ abort ∷ [])
done_lem true abort = (refl, refl)
done_lem false abort = (refl, refl)

first_true : (a b : Bool) → (a && b) ≡ true → a ≡ true
first_true true b h = refl
first_true false b h = h

over :
    (r : Request) (before : List Action) (s : Scan)
    → Going r before s ⊎ Over r before s
    → has_req s.req ≡ false
    → Over r before s
over r before s (inl g) h = absurd (let e = sym (ap has_req g.running) ∙ h in cc)
over r before s (inr o) h = o

module _ (hz : ℕ) (jiffies : ℕ → ℕ) (busy : ℕ → Bool) where
  visit_lem :
      (r : Request) (before : List Action) (s : Scan) (c : Channel)
      → Going r before s
      → nth r.channels s.chan_idx ≡ some c
      → Going r before (visit hz jiffies busy s r c)
        × (size (visit hz jiffies busy s r c) < size_of s (some r))
  unfolding visit
  visit_lem r before s c g h =
      let active = has_ssids r.ssids && not c.passive in
      let d = dwell hz jiffies busy r (if active then hz / 16 else hz / 9) in
      let more = drop-nth r.channels s.chan_idx c h in
      let (quiet, silent) = probes_lem active c r.ssids d in
      (
        record {
          running = g.running;
          no_reset = g.no_reset;
          to_come =
              ap (λ l. l ++ drop (s.chan_idx + 1) r.channels)
                (visits-append s.actions _ ∙ ap (λ l. visits s.actions ++ (c ∷ l)) quiet)
              ∙ (append_assoc (visits s.actions) (c ∷ []) (drop (s.chan_idx + 1) r.channels)
                  ∙ (ap (λ l. visits s.actions ++ l) (sym more) ∙ g.to_come));
          no_result =
              results-append s.actions _
              ∙ (ap (λ l. results s.actions ++ l) silent
                  ∙ (append-nil (results s.actions) ∙ g.no_result));
        },
        simp g.running (omega (arith, ap length more)),
      )

  main_lem :
      (r : Request) (before : List Action) (s : Scan)
      → Going r before s
      → is_set s.chan ≡ true
      → Going r before (back_to_main hz jiffies busy s)
        × (size (back_to_main hz jiffies busy s) < size_of s (some r))
  unfolding back_to_main
  main_lem r before s g h =
      let back = set_main ∷ queue_work (hz / 9) ∷ [] in
      (
        record {
          running = g.running;
          no_reset = g.no_reset;
          to_come =
              ap (λ l. l ++ drop s.chan_idx r.channels)
                (visits-append s.actions back ∙ append-nil (visits s.actions))
              ∙ g.to_come;
          no_result =
              results-append s.actions back ∙ (append-nil (results s.actions) ∙ g.no_result);
        },
        simp g.running (omega (arith, flag_set s.chan h)),
      )

  complete_lem :
      (r : Request) (before : List Action) (s : Scan)
      → Going r before s
      → nth r.channels s.chan_idx ≡ none
      → Over r before (scan_complete s false)
  unfolding scan_complete complete_with
  complete_lem r before s g h =
      let b = is_set s.chan && (s.main_chan && true) in
      let none_left = drop-none r.channels s.chan_idx h in
      simp (g.running, g.no_reset)
        (record {
          ended = refl;
          in_order =
              visits-append s.actions _
              ∙ (ap (λ l. visits s.actions ++ l) (done_lem b false).0
                  ∙ (sym (ap (λ l. visits s.actions ++ l) none_left) ∙ g.to_come));
          one_result =
              results-append s.actions _
              ∙ (ap (λ l. results s.actions ++ l) (done_lem b false).1
                  ∙ ap (λ l. l ++ (false ∷ [])) g.no_result);
        })

  abbrev State : Request → List Action → Scan → Type 0
  State r before s = Going r before s ⊎ Over r before s

  still_some : (o : Option Request) → has_req o ≡ true → o ≢ none
  still_some none h e = cc
  still_some (some r) h e = cc

  work_lem :
      (r : Request) (before : List Action) (s : Scan)
      → Going r before s
      → State r before (scan_work hz jiffies busy s) × (size (scan_work hz jiffies busy s) < size s)
  unfolding scan_work work_with work_on
  work_lem r before s g = simp g.running (elim (Option-cases (nth r.channels s.chan_idx)) [
    | inl e ↦
        let s' : Scan = record s { works = s.works + 1 } in
        let done =
          complete_lem r before s'
            (record {
              running = g.running;
              no_reset = g.no_reset;
              to_come = g.to_come;
              no_result = g.no_result;
            })
            e in
        simp e (inr done, simp done.ended (omega arith))
    | inr (c, e) ↦ simp e (elim (Bool-cases (is_set s.chan && busy s.works)) [
      | inl b ↦
          let (g', less) = main_lem r before s g (first_true (is_set s.chan) (busy s.works) b) in
          rw b (inl g', less)
      | inr b ↦ let (g', less) = visit_lem r before s c g e in rw b (inl g', less)
    ])
  ])

  round_lem :
      (r : Request) (before : List Action) (s : Scan)
      → State r before s
      → has_req s.req ≡ true
      → State r before (scan_work hz jiffies busy s) × (size (scan_work hz jiffies busy s) < size s)
  round_lem r before s (inl g) h = work_lem r before s g
  round_lem r before s (inr o) h = absurd (still_some s.req h o.ended)

  -- A scan that has just begun, on a device that is not reset, with whatever stations are there at
  -- each run of its work: the work runs until the scan ends, which it does within two runs for each
  -- channel and two more; the channels of the request have then been visited once each, in order, and
  -- the one result that is reported says that the scan was not aborted.
  pub scan_visits_all :
      (r : Request) (s : Scan)
      → s.req ≡ some r
      → s.chan ≡ none
      → s.chan_idx ≡ 0
      → s.mcu_reset ≡ false
      → Over r s.actions
          (while (length r.channels * 2 + 2) (λ x. has_req x.req) (scan_work hz jiffies busy) s)
  scan_visits_all r s a b c d =
      let start : Going r s.actions s = record {
        running = a;
        no_reset = d;
        to_come =
            ap (λ n. visits s.actions ++ drop n r.channels) c
            ∙ ap (λ l. visits s.actions ++ l) (drop_zero r.channels);
        no_result = refl;
      } in
      let small : size s < length r.channels * 2 + 2 = omega (
        arith,
        ap (size_of s) a,
        ap (λ n. length (drop n r.channels)) c,
        ap length (drop_zero r.channels),
        ap flag b,
      ) in
      let (state, stopped) =
        while_inv (State r s.actions) size (λ x. has_req x.req) (scan_work hz jiffies busy)
          (λ x. round_lem r s.actions x) (length r.channels * 2 + 2) s small (inl start) in
      over r s.actions _ state stopped
