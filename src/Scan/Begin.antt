-- ===== src/Scan/Begin.antt =====
-- mt76_hw_scan begins a scan only where none runs.
use mt.Common.{◌≡◌, refl, Bool, true, false, ◌||◌, Option, none, some, Bool-cases, inl, inr}
use mt.Scan.{Request, Scan, has_req, hw_scan}

none_begun : (o : Option Request) → has_req o ≡ false → o ≡ none
none_begun none h = refl
none_begun (some r) h = absurd cc

none_true : (a b c : Bool) → (a || (b || c)) ≡ false → (a ≡ false) × (b ≡ false) × (c ≡ false)
none_true false false c h = (refl, refl, h)
none_true false true c h = absurd cc
none_true true b c h = absurd cc

-- What a call leaves: nothing changed, or a scan at its beginning, which no scan, no
-- remain-on-channel and no reset was in the way of.
pub record Begun (s : Scan) (r : Request) (out : Scan × Bool) : Type 0 where
  pub refused : out.1 ≡ false → out.0 ≡ s
  pub request : out.1 ≡ true → out.0.req ≡ some r
  pub at_start : out.1 ≡ true → (out.0.chan ≡ none) × (out.0.chan_idx ≡ 0)
  pub alone : out.1 ≡ true → (s.req ≡ none) × (s.roc ≡ false) × (out.0.mcu_reset ≡ false)

-- mt76_hw_scan fails and changes nothing, or begins the scan of the request at its first channel; it
-- begins only if no scan and no remain-on-channel runs and the device is not reset.
pub hw_scan_lem : (s : Scan) (r : Request) (link : Bool) → Begun s r (hw_scan s r link)
unfolding hw_scan
hw_scan_lem s r link = elim (Bool-cases (has_req s.req || (s.roc || s.mcu_reset))) [
  | inl e ↦
      rw e (record { refused = λ h. refl; request = λ h. cc; at_start = λ h. cc; alone = λ h. cc })
  | inr e ↦ elim (Bool-cases link) [
    | inl l ↦
        let (a, b, c) = none_true (has_req s.req) s.roc s.mcu_reset e in
        rw (e, l)
          (record {
            refused = λ h. cc;
            request = λ h. refl;
            at_start = λ h. (refl, refl);
            alone = λ h. (none_begun s.req a, b, c);
          })
    | inr l ↦
        rw (e, l)
          (record { refused = λ h. refl; request = λ h. cc; at_start = λ h. cc; alone = λ h. cc })
  ]
]
