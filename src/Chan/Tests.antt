-- ===== src/Chan/Tests.antt =====
-- Runs and examples of links and of remaining on a channel.
use mt.Common.{ℕ, zero, suc, ◌+◌, ◌≡◌, ◌≤◌, refl, arith, true, false, Option, none, some, [], ◌∷◌}
use mt.Chan.{
  Link, Dev, Env, ok, find_link, find_with, link_phy_of, ctx_phy_of, add_offchannel, get_with,
  get_vif_phy_link, set_channel, roc_complete, start_roc, roc_with, roc_on, remain_on_channel,
  begin_scan,
}
use mt.Chan.Links.{IsReady}
use mt.Chan.RoundTrip.{Outcome, remain_on_channel-roc_complete}
use mt.Chan.Apart.{IsApart}
use mt.Chan.Exclusive.{scan_or_roc, starts, steps, remains, expires, scans}

abbrev env : Env
env = record {
  has_link_add = true;
  alloc = λ n. some (n + 10);
  adds = λ n. true;
  sets = λ n. true;
  band_phys = λ b. some b;
}

abbrev link_table : ℕ → Option Link
link_table zero = none
link_table (suc zero) = none
link_table (suc (suc zero)) = some (record { mvif = 3; ctx = some 6; offchannel = false })
link_table (suc (suc (suc n))) = none

-- Phy 0 is on channel 36 and context 5; interface 3 has a link on phy 1 only.
abbrev device : Dev
device = record {
  phy = λ p. record {
    main_chan = some 36;
    chan = some 36;
    offchannel = false;
    radar_enabled = false;
    chanctx = some 5;
    roc_vif = none;
    roc_link = none;
  };
  vif = λ v. record { links = some 2 ∷ none ∷ []; offchannel_link = none; roc_phy = none };
  link = link_table;
  ctx_phy = λ c. some 1;
  scan_phy = none;
  scan_vif = none;
  scan_link = none;
  mcu_reset = false;
  asked = 0;
  actions = [];
}

high : (l : ℕ) → 3 ≤ l → link_table l ≡ none
high zero h = refl
high (suc zero) h = refl
high (suc (suc zero)) h = absurd (omega (arith, h))
high (suc (suc (suc n))) h = refl

grew : (n l : ℕ) → env.alloc n ≡ some l → 3 ≤ l
grew n l h = ground arith

device-IsReady : IsReady env device 0 3
unfolding find_link find_with link_phy_of ctx_phy_of
device-IsReady = record {
  no_offchannel = refl;
  own_links = λ l h. ground arith;
  new_memory = λ n l h. high l (grew n l h);
}

on_44 : (remain_on_channel env device 3 0 44 100).1 ≡ ok 0
unfolding remain_on_channel roc_on roc_with get_vif_phy_link get_with find_link find_with
    link_phy_of ctx_phy_of add_offchannel start_roc set_channel
on_44 = refl

remain_on_channel-roc_complete_example :
    Outcome env device 0 3 44 (remain_on_channel env device 3 0 44 100)
remain_on_channel-roc_complete_example =
    remain_on_channel-roc_complete env device 0 3 0 44 100 refl device-IsReady refl refl refl

abbrev after_roc : Dev
after_roc = (remain_on_channel env device 3 0 44 100).0

scan_or_roc_example : IsApart (begin_scan env (roc_complete env after_roc 0) 0 3).0
scan_or_roc_example = scan_or_roc env (begin_scan env (roc_complete env after_roc 0) 0 3).0 (
    steps _ _
      (steps _ _
        (steps _ _
          (starts device (record { no_scan = (refl, refl, refl); no_roc_on = λ p. (refl, refl) }))
          (remains device 3 0 44 100))
        (expires after_roc 0))
      (scans (roc_complete env after_roc 0) 0 3))

-- A scan is refused while the phy remains on a channel.
no_scan_meanwhile : (begin_scan env after_roc 0 3).1 ≡ false
unfolding begin_scan remain_on_channel roc_on roc_with get_vif_phy_link get_with find_link find_with
    link_phy_of ctx_phy_of add_offchannel start_roc set_channel
no_scan_meanwhile = refl
