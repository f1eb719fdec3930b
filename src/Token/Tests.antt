-- ===== src/Token/Tests.antt =====
-- Runs and examples of the tokens.
use mt.Common.{ℕ, ◌+◌, ◌<◌, ◌≡◌, refl, arith, true, false, none, some}
use mt.Kernel.Table.{Table, idr_ops, idr_ops-IsIdr}
use mt.Token.{
  Tokens, consume, release, free_thr, wants_wake, set_tx_blocked, block_if_few, count_up,
  count_down,
}
use mt.Token.Keep.{TokenInv, Consumed, Released, consume_lem, release_lem}
use mt.Token.Flow.{
  System, here, next, taken, given, Alike, IsLow, Flowing, Reach-Flowing, consume_blocks,
}

-- So many tokens, all free.
abbrev fresh : ℕ → Tokens Table
fresh size = record {
  token = λ i. none;
  token_count = 0;
  token_start = 0;
  token_size = size;
  blocked = false;
  blocked1 = some false;
  blocked2 = none;
  scheduled = 0;
}

fresh-TokenInv : TokenInv Table idr_ops (fresh 65)
fresh-TokenInv = record {
  counted = refl;
  below = λ i l. refl;
  above = λ i l. refl;
  fits = omega arith;
  not_empty = omega arith;
}

third_refused :
    let d = (consume idr_ops (consume idr_ops (fresh 2) 70).0 71).0 in
    (consume idr_ops d 72).1 ≡ none
unfolding consume block_if_few count_up set_tx_blocked
third_refused = refl

consume_lem_example : Consumed Table idr_ops (fresh 65) 70 (consume idr_ops (fresh 65) 70)
consume_lem_example = consume_lem Table idr_ops idr_ops-IsIdr (fresh 65) 70 fresh-TokenInv

one_used : TokenInv Table idr_ops (consume idr_ops (fresh 65) 70).0
one_used = (consume_lem Table idr_ops idr_ops-IsIdr (fresh 65) 70 fresh-TokenInv).valid

release_lem_example :
    let d = (consume idr_ops (fresh 65) 70).0 in
    Released Table idr_ops d 0 (release idr_ops d 0 false)
release_lem_example =
    release_lem Table idr_ops idr_ops-IsIdr (consume idr_ops (fresh 65) 70).0 0 false one_used

consume_blocks_example :
    let e = (consume idr_ops (fresh 65) 70).0 in
    Alike e
    × (IsLow e → e.blocked ≡ true)
    × (e.token_count + free_thr < e.token_size → e.blocked ≡ false)
    × (e.token_size ≡ 65)
consume_blocks_example =
    consume_blocks Table idr_ops (fresh 65) 70 (record { same1 = refl; same2 = refl })

abbrev begin : System Table
begin = record { dev = fresh 65; wake = false }

-- Taking one of 65 tokens stops the queues; its return asks for a wake-up, which starts them.
abbrev after_release : System Table
after_release =
    let d = (consume idr_ops (fresh 65) 70).0 in
    record { dev = (release idr_ops d 0 false).0; wake = (release idr_ops d 0 false).1.1 }

wake_noted : after_release.wake ≡ true
unfolding consume release wants_wake block_if_few count_up count_down set_tx_blocked
wake_noted = refl

Reach-Flowing_example : Flowing Table idr_ops after_release
Reach-Flowing_example =
    Reach-Flowing Table idr_ops idr_ops-IsIdr begin after_release
      (record {
        valid = fresh-TokenInv;
        alike = record { same1 = refl; same2 = refl };
        will_wake = λ b l. cc;
      })
      (next (next here (taken 70)) (given 0))
