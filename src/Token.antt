-- ===== src/Token.antt =====
-- tx.c: the tokens that stand for frames which the firmware holds, and the flag that stops the
-- transmit queues while few tokens are left; and the driver's use of them in mt7902/mac.c.
pub mod Count
pub mod Keep
pub mod Flow
mod Tests
use mt.Common.{
  ℕ, ◌+◌, ◌-◌, ◌^◌, ◌%◌, Bool, true, false, ◌&&◌, Option, none, some, if◌then◌else◌, ltb, leb,
}
use mt.Kernel.Idr.{IdrOps}

-- MT76_TOKEN_FREE_THR
abbrev pub free_thr : ℕ
free_thr = 64

-- The part of struct mt76_dev that the tokens use: the first queue's `blocked` of the main phy and
-- of the phys of the other bands, where there are such, and how often the worker was scheduled.
pub record Tokens (S : Type 0) : Type 0 where
  pub token : S
  pub token_count : ℕ
  pub token_start : ℕ
  pub token_size : ℕ
  pub blocked : Bool
  pub blocked1 : Option Bool
  pub blocked2 : Option Bool
  pub scheduled : ℕ

abbrev pub opt_set : Option Bool → Bool → Option Bool
opt_set none b = none
opt_set (some _) b = some b

abbrev pub same_bool : Bool → Bool → Bool
same_bool true b = b
same_bool false true = false
same_bool false false = true

module _ {S : Type 0} where
  -- __mt76_set_tx_blocked
  unfoldable pub set_tx_blocked : Tokens S → Bool → Tokens S
  set_tx_blocked d b = if same_bool b d.blocked then d else record d {
    blocked = b;
    blocked1 = opt_set d.blocked1 b;
    blocked2 = opt_set d.blocked2 b;
    scheduled = if b then d.scheduled else d.scheduled + 1;
  }

  -- The count of mt76_token_consume, a u16, and its test; and the count of mt76_token_release.
  pub count_up : Tokens S → Option ℕ → Tokens S
  count_up d none = d
  count_up d (some t) = record d { token_count = (d.token_count + 1) % 2 ^ 16 }

  unfoldable pub count_down : Tokens S → Option ℕ → Tokens S
  count_down d none = d
  count_down d (some p) = record d { token_count = (d.token_count + 2 ^ 16 - 1) % 2 ^ 16 }

  pub block_if_few : Tokens S → Tokens S
  block_if_few d = if leb d.token_size (d.token_count + free_thr) then set_tx_blocked d true else d

  -- Whether mt76_token_release asks for a wake-up.
  unfoldable pub wants_wake : Tokens S → Bool
  wants_wake d = ltb (d.token_count + free_thr) d.token_size && d.blocked

  -- mt76_set_tx_blocked(dev, false), where mt7921_mac_tx_free found `wake` set
  unfoldable pub wake_up : Tokens S → Bool → Tokens S
  wake_up d wake = if wake then set_tx_blocked d false else d

  module _ (k : IdrOps S) where
    -- mt76_token_consume, with the token it returns (`none` for an error)
    pub consume : Tokens S → ℕ → Tokens S × Option ℕ
    consume d txwi =
        let (s, t) = k.alloc d.token txwi d.token_start (d.token_start + d.token_size) in
        (block_if_few (count_up (record d { token = s }) t), t)

    -- mt76_token_release: the state, the cache entry that it returns, and `wake`
    unfoldable pub release : Tokens S → ℕ → Bool → Tokens S × (Option ℕ × Bool)
    release d t wake =
        let (s, p) = k.remove d.token t in
        let e = count_down (record d { token = s }) p in
        (e, (p, if wants_wake e then true else wake))
