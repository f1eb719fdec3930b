-- ===== src/Kernel/Linux.antt =====
-- Concrete kernel operations, on which the tests and examples run: one choice that meets the laws.
use Prim.Native.Nat.{bit_and}
use mt.Common.{◌+◌, ◌-◌, ◌/◌, ◌%◌, refl, ltb, ◌==◌}
use mt.Kernel.Seq.{SeqOps, IsSeqArith, ahead}

abbrev pub seq_ops : SeqOps
seq_ops = record {
  sn_less = λ a b. ltb 2048 (ahead b a);
  sn_inc = λ a. (a + 1) % 4096;
  sn_sub = λ a b. ahead b a;
  seq_to_sn = λ x. x / 16 % 4096;
  is_ctl = λ fc. bit_and fc 0x000c == 0x0004;
  is_back_req = λ fc. bit_and fc 0x00fc == 0x0084;
  qos_tid = λ q. bit_and q 0x000f;
  is_noack = λ q. bit_and q 0x0060 == 0x0020;
  hz = 250;
  time_after32 = λ a b. ltb 2147483648 ((b + 4294967296 - a) % 4294967296);
}

pub seq_ops-IsSeqArith : IsSeqArith seq_ops
seq_ops-IsSeqArith = record { less_lem = λ a b. refl; inc_lem = λ a. refl; sub_lem = λ a b. refl }
