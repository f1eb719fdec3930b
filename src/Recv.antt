-- ===== src/Recv.antt =====
-- mac80211.c: the way of a received frame from the driver's queue to mac80211: the MSDUs of an
-- A-MSDU are put together, replays are found by their packet number, and the frames are handed over.
pub mod Burst
pub mod Complete
pub mod Gather
pub mod Parted
pub mod Pn
pub mod Replay
pub mod Sta
mod Tests
use mt.Common.{
  ℕ, zero, suc, ◌+◌, ◌%◌, Bool, true, false, not, ◌&&◌, ◌||◌, Option, none, some, List, [], ◌∷◌,
  ◌++◌, map, if◌then◌else◌, ◌==◌, ltb, take, drop,
}
use mt.Common.Ring.{update}

-- An sk_buff: its bytes, what these functions read of struct mt76_rx_status and of the header. Flags
-- of `flag` are Booleans; `hdrlen` and the tests of the header are what the kernel's helpers say.
pub record Frame : Type 0 where
  pub id : ℕ
  pub bytes : List ℕ
  pub hdrlen : ℕ
  pub wcid : Option ℕ
  pub iv : List ℕ
  pub qos_ctl : ℕ
  pub seqno : ℕ
  pub amsdu : Bool
  pub first_amsdu : Bool
  pub last_amsdu : Bool
  pub decrypted : Bool
  pub iv_stripped : Bool
  pub only_monitor : Bool
  pub pn_validated : Bool
  pub is_8023 : Bool
  pub is_frag : Bool
  pub is_first_frag : Bool
  pub is_mgmt : Bool
  pub has_tods : Bool

-- An sk_buff with its frag_list.
pub record Amsdu : Type 0 where
  pub first : Frame
  pub frags : List Frame

-- phy->rx_amsdu[q] and dev->rx_skb[q], and the frames that were freed: those of a device that does
-- not run, and whole A-MSDUs.
pub record Queue : Type 0 where
  pub head : Option Amsdu
  pub seqno : ℕ
  pub rx_skb : List Amsdu
  pub dropped : List Frame
  pub freed : List Amsdu

abbrev pub bytes_eq : List ℕ → List ℕ → Bool
bytes_eq [] [] = true
bytes_eq [] (y ∷ ys) = false
bytes_eq (x ∷ xs) [] = false
bytes_eq (x ∷ xs) (y ∷ ys) = (x == y) && bytes_eq xs ys

-- rfc1042_header
abbrev pub rfc1042_header : List ℕ
rfc1042_header = 0xaa ∷ 0xaa ∷ 0x03 ∷ 0 ∷ 0 ∷ 0 ∷ []

abbrev pub has_frags : Amsdu → Bool
has_frags a = is_cons a.frags
  where
    is_cons : List Frame → Bool
    is_cons [] = false
    is_cons (f ∷ fs) = true

-- The offset at which mt76_rx_release_amsdu looks for the first subframe's destination.
pub offset : Frame → ℕ
offset f = if f.is_8023 then 0 else f.hdrlen + (if f.decrypted && not f.iv_stripped then 8 else 0)

pub is_spoofed : Amsdu → Bool
unfolding offset
is_spoofed a = has_frags a && bytes_eq (take 6 (drop (offset a.first) a.first.bytes)) rfc1042_header

-- mt76_rx_release_amsdu
pub release_with : Queue → Option Amsdu → Queue
release_with q none = q
release_with q (some a) =
    if is_spoofed a
    then record q { head = none; freed = q.freed ++ (a ∷ []) }
    else record q { head = none; rx_skb = q.rx_skb ++ (a ∷ []) }

pub release_amsdu : Queue → Queue
release_amsdu q = release_with q q.head

-- Putting a frame at the tail of what is held, or at its head.
pub hold_with : Queue → Frame → Option Amsdu → Queue
hold_with q f none = record q { head = some (record { first = f; frags = [] }); seqno = f.seqno }
hold_with q f (some a) = record q { head = some (record a { frags = a.frags ++ (f ∷ []) }) }

pub hold : Queue → Frame → Queue
hold q f = hold_with q f q.head

-- mt76_rx_release_burst
pub release_burst : Queue → Frame → Queue
release_burst q f =
    let r =
      if not f.amsdu || (f.first_amsdu || not (f.seqno == q.seqno)) then release_amsdu q else q in
    let h = hold r f in if not f.amsdu || f.last_amsdu then release_amsdu h else h

-- mt76_rx; `running` is MT76_STATE_RUNNING.
pub rx : Bool → Queue → Frame → Queue
rx running q f = if running then release_burst q f else record q { dropped = q.dropped ++ (f ∷ []) }

-- What the check of packet numbers uses of struct mt76_wcid: rx_key_pn has a row for each TID, and
-- one more.
pub record Keys : Type 0 where
  pub rx_check_pn : Bool
  pub rx_key_pn : ℕ → List ℕ

-- IEEE80211_NUM_TIDS
abbrev pub num_tids : ℕ
num_tids = 16

-- memcmp(iv, pn, 6) > 0
pub memcmp_gt : List ℕ → List ℕ → Bool
memcmp_gt [] ys = false
memcmp_gt (x ∷ xs) [] = false
memcmp_gt (x ∷ xs) (y ∷ ys) = if x == y then memcmp_gt xs ys else ltb y x

-- Whether mt76_check_ccmp_pn compares the frame of a station at all, and by which row.
pub is_later_frag : Frame → Bool
is_later_frag f = not f.is_8023 && (not f.iv_stripped && (f.is_frag && not f.is_first_frag))

pub security_idx : Frame → ℕ
security_idx f = if not f.is_8023 && (f.is_mgmt && not f.has_tods) then num_tids else f.qos_ctl % 16

abbrev pub set_pn : (ℕ → Keys) → ℕ → ℕ → List ℕ → ℕ → Keys
set_pn s w i pn = update s w (record (s w) { rx_key_pn = update (s w).rx_key_pn i pn })

pub compare_pn : (ℕ → Keys) → Frame → ℕ → (ℕ → Keys) × Frame
compare_pn s f w =
    let i = security_idx f in
    if memcmp_gt f.iv ((s w).rx_key_pn i)
    then (set_pn s w i f.iv, record f { pn_validated = f.iv_stripped || f.pn_validated })
    else (s, record f { only_monitor = true })

pub check_with : (ℕ → Keys) → Frame → Option ℕ → (ℕ → Keys) × Frame
check_with s f none = (s, f)
check_with s f (some w) =
    if not (s w).rx_check_pn || is_later_frag f then (s, f) else compare_pn s f w

-- mt76_check_ccmp_pn
pub check_ccmp_pn : (ℕ → Keys) → Frame → (ℕ → Keys) × Frame
check_ccmp_pn s f = if not f.decrypted || f.only_monitor then (s, f) else check_with s f f.wcid

-- mt76_wcid_key_setup: `seq` is what ieee80211_get_key_rx_seq gives for a CCMP key, with row
-- num_tids for the TID -1; none stands for no key or another cipher.
pub key_setup : (ℕ → Keys) → ℕ → Option (ℕ → List ℕ) → ℕ → Keys
key_setup s w none = update s w (record (s w) { rx_check_pn = false })
key_setup s w (some seq) = update s w (record {
  rx_check_pn = true;
  rx_key_pn = λ i. if ltb i (num_tids + 1) then seq i else (s w).rx_key_pn i;
})

-- mt76_rx_complete up to the kernel's lists: the frames in the order they are handed to mac80211.
pub rx_complete : (ℕ → Keys) → List Amsdu → (ℕ → Keys) × List Frame
rx_complete s [] = (s, [])
rx_complete s (a ∷ rest) =
    let (t, f) = check_ccmp_pn s a.first in
    let (u, fs) = rx_complete t rest in (u, f ∷ (a.frags ++ fs))
