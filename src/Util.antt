-- ===== src/Util.antt =====
-- util.c: waiting for a register to take a value.
pub mod Poll
mod Tests
use Prim.Native.Nat.{bit_and}
use mt.Common.{ℕ, zero, suc, ◌+◌, ◌/◌, Bool, true, false, if◌then◌else◌, ◌==◌}

-- What a poll gives: its result and how often the register has been read.
pub record Polled : Type 0 where
  pub found : Bool
  pub reads : ℕ

-- `rr n` is what the n-th __mt76_rr reads.
module _ (rr : ℕ → ℕ) (mask val : ℕ) where
  abbrev pub matches : ℕ → Bool
  matches n = bit_and (rr n) mask == val

  -- The do loop, with `timeout` rounds to go after this one.
  pub poll_loop : ℕ → ℕ → Polled
  poll_loop zero n =
      if matches n
      then record { found = true; reads = n + 1 }
      else record { found = false; reads = n + 1 }
  poll_loop (suc timeout) n =
      let rest = poll_loop timeout (n + 1) in
      if matches n then record { found = true; reads = n + 1 } else rest

  -- __mt76_poll, and ____mt76_poll_msec with its tick
  pub poll : ℕ → Polled
  poll timeout = poll_loop (timeout / 10) 0

  pub poll_msec : ℕ → ℕ → Polled
  poll_msec timeout tick = poll_loop (timeout / tick) 0
