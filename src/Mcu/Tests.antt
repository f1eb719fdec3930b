-- ===== src/Mcu/Tests.antt =====
-- Runs and examples of the messages to the firmware.
use mt.Common.{ℕ, zero, ◌≡◌, refl, true, false, none, some, List, [], ◌∷◌, ◌++◌, while, replicate}
use mt.Mcu.{Ret, ok0, eagain, error, Wait, Sent, McuOps, send_firmware, send_and_get, receive}
use mt.Mcu.Retry.{Accounted, quiet, send_and_get_accounts, send_and_get_times_out}

abbrev image : List ℕ
image = 1 ∷ 2 ∷ 3 ∷ 4 ∷ 5 ∷ []

abbrev always : ℕ → List ℕ → Ret
always n c = ok0

download_runs :
    (send_firmware always true 2 image).sent ≡ (1 ∷ 2 ∷ []) ∷ (3 ∷ 4 ∷ []) ∷ (5 ∷ []) ∷ []
unfolding send_firmware while
download_runs = refl

abbrev driver : McuOps
driver = record {
  max_retry = 2;
  has_orig = true;
  wants = true;
  send_fails = λ n. none;
  parse = λ o. elim o [ none ↦ error 110 | some r ↦ elim r [ zero ↦ eagain | _ ↦ ok0 ] ];
}

abbrev waits : List Wait
waits =
    record { reply = none; reset = false }
    ∷ record { reply = some 0; reset = false }
    ∷ record { reply = some 9; reset = false }
    ∷ []

abbrev outcome : Sent
outcome = record { sends = 2; retry = 1; handed = some 9; freed = 0 ∷ []; ret = ok0 }

send_and_get_accounts_example :
    Accounted driver (send_and_get driver false none true) [] waits outcome
unfolding send_and_get receive
send_and_get_accounts_example = send_and_get_accounts driver false none true waits refl

-- mt7921_mcu_ops of mt7902/pci_mcu.c has no mcu_skb_prepare_msg.
abbrev unprepared : McuOps
unprepared = record driver { has_orig = false }

send_and_get_times_out_example :
    (s : Sent) × (send_and_get unprepared false none true (replicate 2 quiet ++ (quiet ∷ []))
      ≡ some s)
    × (s.sends ≡ 1)
    × (s.ret ≡ error 110)
send_and_get_times_out_example = send_and_get_times_out unprepared 110 [] (λ n. refl) refl
