-- ===== src/Util/Tests.antt =====
-- Runs and examples of a poll.
use mt.Common.{ℕ, ◌+◌, ◌/◌, ◌≡◌, refl, arith, leb, if◌then◌else◌}
use mt.Util.{poll, poll_msec, poll_loop}
use mt.Util.Poll.{Found, poll_lem, poll_msec_lem}

-- A bit that is set from the third read on.
abbrev third_read : ℕ → ℕ
third_read n = if leb 2 n then 5 else 4

three_reads : (poll third_read 1 1 100).reads ≡ 3
unfolding poll poll_loop
three_reads = refl

poll_lem_example : Found third_read 1 1 0 (100 / 10 + 1) (poll third_read 1 1 100)
poll_lem_example = poll_lem third_read 1 1 100

poll_msec_lem_example : Found third_read 1 1 0 (100 / 20 + 1) (poll_msec third_read 1 1 100 20)
poll_msec_lem_example = poll_msec_lem third_read 1 1 100 20 (omega arith)
