-- ===== src/Mcu/Firmware.antt =====
-- The firmware image arrives whole and in order, in messages of bounded length.
use mt.Common.{ℕ, ◌+◌, ◌≤◌, ◌<◌, ◌≡◌, Bool, List, [], ◌∷◌, ◌++◌, if◌then◌else◌, length, ◌⊎◌}
use mt.Mcu.{Ret, ok0, Download, chunk_of, is_ok}

-- The bytes of a list of messages.
abbrev pub joined : List (List ℕ) → List ℕ
joined [] = []
joined (c ∷ cs) = c ++ joined cs

-- Every message has a byte at least and `n` at most.
abbrev pub AllSized : ℕ → List (List ℕ) → Type 0
AllSized n [] = Unit {0}
AllSized n (c ∷ cs) = (0 < length c) × (length c ≤ n) × AllSized n cs

abbrev work_left : Download → ℕ
work_left d = length d.rest + (if is_ok d.ret then 1 else 0)

module _ (send : ℕ → List ℕ → Ret) (has_cleanup : Bool) (max_len : ℕ) (image : List ℕ) where
  -- What is sent and what is left make up the image; an error is that of the message that failed.
  pub record Sending (d : Download) : Type 0 where
    pub whole : joined d.sent ++ d.rest ≡ image
    pub sized : AllSized max_len d.sent
    pub cleaned : d.cleanups ≡ (if has_cleanup then length d.sent else 0)
    pub failed : (d.ret ≡ ok0) ⊎ (send (length d.sent) (chunk_of max_len d.rest) ≡ d.ret)
