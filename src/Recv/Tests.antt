-- ===== src/Recv/Tests.antt =====
-- Runs and examples of received frames.
use mt.Common.{
  none, ℕ, ◌≡◌, refl, arith, Bool, true, false, some, List, [], ◌∷◌, ◌++◌, if◌then◌else◌,
}
use mt.Recv.{
  Frame, Amsdu, Keys, is_spoofed, offset, release_with, release_amsdu, hold_with, hold,
  release_burst, rx, memcmp_gt, is_later_frag, security_idx, compare_pn, check_with, check_ccmp_pn,
  rx_complete,
}
use mt.Recv.Burst.{no_frames}
use mt.Recv.Parted.{HeldWhole, HeldOpen, AllApart, following, flat, held, passed, spoofed, AllWhole}
use mt.Recv.Gather.{rx_all, taken, refused, rx_lem}
use mt.Recv.Pn.{number}
use mt.Recv.Replay.{IsKeyed}
use mt.Recv.Complete.{Judged, highest, handed, AllMarked, rx_complete_lem}

-- Frame `i`, an MSDU of an A-MSDU if `amsdu` says so.
abbrev frame : ℕ → Bool → Bool → Bool → ℕ → Frame
frame i amsdu first last pn = record {
  id = i;
  bytes = 0xaa ∷ 0xaa ∷ 0x03 ∷ 0 ∷ 0 ∷ 0 ∷ i ∷ [];
  hdrlen = if amsdu then 1 else 0;
  wcid = some 2;
  iv = 0 ∷ 0 ∷ 0 ∷ 0 ∷ 0 ∷ pn ∷ [];
  qos_ctl = 5;
  seqno = 77;
  amsdu = amsdu;
  first_amsdu = first;
  last_amsdu = last;
  decrypted = true;
  iv_stripped = true;
  only_monitor = false;
  pn_validated = false;
  is_8023 = false;
  is_frag = false;
  is_first_frag = false;
  is_mgmt = false;
  has_tods = true;
}

-- An A-MSDU of three, a frame while the device does not run, and a single frame.
abbrev calls : List (Bool × Frame)
calls =
    (true, frame 1 true true false 9)
    ∷ (true, frame 2 true false false 9)
    ∷ (false, frame 3 false false false 9)
    ∷ (true, frame 4 true false true 9)
    ∷ (true, frame 5 false false false 10)
    ∷ []

abbrev ids : List Frame → List ℕ
ids [] = []
ids (f ∷ fs) = f.id ∷ ids fs

abbrev groups : List Amsdu → List (List ℕ)
groups [] = []
groups (a ∷ rest) = (a.first.id ∷ ids a.frags) ∷ groups rest

two_groups : groups (rx_all no_frames calls).rx_skb ≡ (1 ∷ 2 ∷ 4 ∷ []) ∷ (5 ∷ []) ∷ []
unfolding rx_all rx release_burst release_amsdu release_with hold hold_with is_spoofed offset
two_groups = refl

rx_lem_example :
    let q = rx_all no_frames calls in
    ((gs : List Amsdu) × (flat gs ++ held q.head ≡ taken calls)
      × (q.rx_skb ≡ passed gs)
      × (q.freed ≡ spoofed gs)
      × AllWhole gs
      × AllApart gs (following q.head none)
      × HeldWhole q q.head
      × HeldOpen q.head)
    × (q.dropped ≡ refused calls)
rx_lem_example = rx_lem calls

abbrev keys : ℕ → Keys
keys w = record { rx_check_pn = true; rx_key_pn = λ i. 0 ∷ 0 ∷ 0 ∷ 0 ∷ 0 ∷ 9 ∷ [] }

-- A replay with a frame behind it, and a new frame.
abbrev arrived : List Amsdu
arrived =
    record { first = frame 1 true true false 9; frags = frame 2 true false true 9 ∷ [] }
    ∷ record { first = frame 5 false false false 10; frags = [] }
    ∷ []

abbrev marks : List Frame → List Bool
marks [] = []
marks (f ∷ fs) = f.only_monitor ∷ marks fs

-- Of the replay, only the first frame is marked.
first_marked : marks (rx_complete keys arrived).1 ≡ true ∷ false ∷ false ∷ []
unfolding rx_complete check_ccmp_pn check_with compare_pn memcmp_gt is_later_frag security_idx
first_marked = refl

keys-IsKeyed : IsKeyed keys 2
keys-IsKeyed = record { checks = refl; rows = λ v i. omega arith }

rx_complete_lem_example :
    (hs : List Frame) × ((rx_complete keys arrived).1 ≡ handed arrived hs)
    × Judged 2 5 (number ((keys 2).rx_key_pn 5)) arrived hs
    × (number (((rx_complete keys arrived).0 2).rx_key_pn 5)
        ≡ highest 2 5 (number ((keys 2).rx_key_pn 5)) arrived)
    × AllMarked arrived hs
rx_complete_lem_example = rx_complete_lem 2 5 keys arrived keys-IsKeyed (omega arith)
