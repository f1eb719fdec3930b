-- ===== src/Mcu.antt =====
-- mcu.c: messages to the firmware, with their replies and retries, and the firmware download.
pub mod Firmware
pub mod Retry
mod Tests
use mt.Common.{
  ℕ, zero, suc, ◌+◌, ◌-◌, Bool, true, false, not, ◌&&◌, Option, none, some, List, [], ◌∷◌, ◌++◌,
  if◌then◌else◌, ltb, leb, ◌==◌, length, take, while, drop, min, max,
}

-- A return value: 0, -EAGAIN, or another error.
pub data Ret : Type 0 where
  ok0 eagain : Ret
  error : ℕ → Ret

-- What __mt76_mcu_send_firmware has done: the messages sent, what is left of the image, how often
-- tx_cleanup was called, and the result.
pub record Download : Type 0 where
  pub sent : List (List ℕ)
  pub rest : List ℕ
  pub cleanups : ℕ
  pub ret : Ret

-- The next message: `cur_len` bytes of what is left.
abbrev pub chunk_of : ℕ → List ℕ → List ℕ
chunk_of max_len rest = take (min max_len (length rest)) rest

abbrev pub rest_of : ℕ → List ℕ → List ℕ
rest_of max_len rest = drop (min max_len (length rest)) rest

abbrev pub is_ok : Ret → Bool
is_ok ok0 = true
is_ok _ = false

abbrev pub download_more : Download → Bool
download_more d = ltb 0 (length d.rest) && is_ok d.ret

-- mt76_mcu_send_msg is the driver's: `send n chunk` is its result for the n-th message.
module _ (send : ℕ → List ℕ → Ret) (has_cleanup : Bool) (max_len : ℕ) where
  abbrev pub after_send : Download → Ret → Download
  after_send d ok0 = record {
    sent = d.sent ++ (chunk_of max_len d.rest ∷ []);
    rest = rest_of max_len d.rest;
    cleanups = if has_cleanup then d.cleanups + 1 else d.cleanups;
    ret = ok0;
  }
  after_send d e = record d { ret = e }

  abbrev pub download_round : Download → Download
  download_round d = after_send d (send (length d.sent) (chunk_of max_len d.rest))

  -- __mt76_mcu_send_firmware. A message takes at least one byte if max_len is not 0, so the image's
  -- length is fuel enough.
  unfoldable pub send_firmware : List ℕ → Download
  unfolding while
  send_firmware image =
      while (length image + 2) download_more download_round
        (record { sent = []; rest = image; cleanups = 0; ret = ok0 })

abbrev pub eio : ℕ
eio = 5

-- One wait for a reply (mt76_mcu_get_response): the reply, or NULL, and whether MT76_MCU_RESET is set.
pub record Wait : Type 0 where
  pub reply : Option ℕ
  pub reset : Bool

-- What mt76_mcu_skb_send_and_get_msg has done when it returns: how often the message was sent, the
-- reply handed to the caller, the replies freed, and the result.
pub record Sent : Type 0 where
  pub sends : ℕ
  pub retry : ℕ
  pub handed : Option ℕ
  pub freed : List ℕ
  pub ret : Ret

abbrev pub unsent : Sent
unsent = record { sends = 0; retry = 0; handed = none; freed = []; ret = ok0 }

abbrev pub to_list : Option ℕ → List ℕ
to_list none = []
to_list (some x) = x ∷ []

-- The driver's part: `send_fails n` is the error of mcu_skb_send_msg at the n-th sending, `parse` is
-- mcu_parse_response. `has_orig` is whether the driver prepares messages (and so can send them
-- again), `wants` whether the caller passes ret_skb.
pub record McuOps : Type 0 where
  pub max_retry : ℕ
  pub has_orig : Bool
  pub wants : Bool
  pub send_fails : ℕ → Option ℕ
  pub parse : Option ℕ → Ret

module _ (ops : McuOps) where
  abbrev pub is_null : Option ℕ → Bool
  is_null none = true
  is_null (some _) = false

  -- The condition under which the message is sent once more.
  abbrev pub may_retry : Wait → Bool
  may_retry w = is_null w.reply && not w.reset && ops.has_orig

  -- A reply that is not retried is parsed; then it is handed over or freed.
  abbrev pub parsed : Sent → Option ℕ → Ret → Sent
  parsed s reply ok0 =
      if ops.wants
      then record s { handed = reply; ret = ok0 }
      else record s { freed = s.freed ++ to_list reply; ret = ok0 }
  parsed s reply e = record s { freed = s.freed ++ to_list reply; ret = e }

  -- The message is sent; `none` is success.
  abbrev pub sending : Sent → Option ℕ → Sent
  sending s none = record s { sends = s.sends + 1; ret = ok0 }
  sending s (some e) = record s { sends = s.sends + 1; ret = error e }

  -- The retry label and the loop below it, on what the waits give. `none`: there were more waits.
  unfoldable pub receive : Sent → List Wait → Option Sent
  receive s [] = none
  receive s (w ∷ ws) =
      let counted = (if may_retry w then record s { retry = s.retry + 1 } else s) in
      let again = sending counted (ops.send_fails counted.sends) in
      let done = parsed counted w.reply (ops.parse w.reply) in
      elim (may_retry w && ltb s.retry ops.max_retry) [
        | true ↦ elim again.ret [ ok0 ↦ receive again ws | _ ↦ some again ]
        | false ↦ elim done.ret [ eagain ↦ receive done ws | _ ↦ some done ]
      ]

  -- mt76_mcu_skb_send_and_get_msg; `prepare` is the error of mcu_skb_prepare_msg, if it is called.
  after_first : Bool → Sent → List Wait → Ret → Option Sent
  unfolding receive
  after_first wait_resp s ws ok0 = if wait_resp then receive s ws else some s
  after_first wait_resp s ws e = some s

  -- `hung`: the bus is SDIO, is being reset, and hangs.
  unfoldable pub send_and_get : Bool → Option ℕ → Bool → List Wait → Option Sent
  unfolding after_first
  send_and_get true prepare wait_resp ws = some (record unsent { ret = error eio })
  send_and_get false (some e) wait_resp ws = some (record unsent { ret = error e })
  send_and_get false none wait_resp ws =
      let first = sending unsent (ops.send_fails 0) in after_first wait_resp first ws first.ret
