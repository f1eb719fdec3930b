-- ===== src/Power/Tests.antt =====
-- Runs and examples of the limits of a channel.
use mt.Common.{
  ℕ, ◌≡◌, refl, arith, Bool, true, false, Option, none, some, List, [], ◌∷◌, ◌++◌, ◌==◌, replicate,
}
use mt.Power.{
  Node, Country, ghz5, any_string, string_prop_find, find_country, find_power_limits_node,
  get_of_array, get_of_array_s8, find_channel_node, txs_delta_at, get_txs_delta,
}
use mt.Power.Rates.{
  PowerLimits, node_of, apply_array, apply_array_limit, apply_rows, apply_multi_array_limit,
  limits_of, rate_power_limits, get_rate_power_limits,
}
use mt.Power.Below.{reading, RatesBelow, get_rate_power_limits_lem}

-- Channels 36 to 48: a row of mcs limits for two streams, one for one, and no more.
abbrev low_channels : Node
low_channels = record {
  channels = some (0 ∷ 0 ∷ 0 ∷ 36 ∷ 0 ∷ 0 ∷ 0 ∷ 48 ∷ []);
  txs_delta = some (0 ∷ 0 ∷ 0 ∷ 0 ∷ 255 ∷ 255 ∷ 255 ∷ 250 ∷ []);
  rates_cck = none;
  rates_ofdm = some (40 ∷ 40 ∷ 40 ∷ 40 ∷ 38 ∷ 36 ∷ 34 ∷ 32 ∷ []);
  rates_mcs = some (2 ∷ replicate 10 40 ++ (0 ∷ replicate 10 30));
  rates_ru = none;
  paths_cck = none;
  paths_ofdm = none;
  paths_ofdm_bf = none;
  paths_ru = none;
  paths_ru_bf = none;
}

abbrev europe : Country
europe = record {
  country = some ((68 ∷ 69 ∷ []) ∷ (70 ∷ 82 ∷ []) ∷ []);
  regdomain = none;
  txpower_2g = none;
  txpower_5g = some (low_channels ∷ []);
  txpower_6g = none;
}

-- strcasecmp on strings in capitals.
abbrev alike : List ℕ → List ℕ → Bool
alike [] [] = true
alike [] (y ∷ ys) = false
alike (x ∷ xs) [] = false
alike (x ∷ xs) (y ∷ ys) = elim (x == y) [ true ↦ alike xs ys | false ↦ false ]

abbrev limits : Option (PowerLimits × ℕ)
limits = get_rate_power_limits alike (70 ∷ 82 ∷ []) none (some (europe ∷ [])) ghz5 40 2 0 36

abbrev mcs_of : Option (PowerLimits × ℕ) → List (List ℕ)
mcs_of none = []
mcs_of (some l) = l.0.mcs

abbrev power_of : Option (PowerLimits × ℕ) → ℕ
power_of none = 0
power_of (some l) = l.1

-- 40 - 6 twice, 30 - 6 once, and the target.
rows_of_streams :
    mcs_of limits ≡ replicate 10 34 ∷ replicate 10 34 ∷ replicate 10 24 ∷ replicate 10 36 ∷ []
unfolding get_rate_power_limits rate_power_limits limits_of apply_multi_array_limit apply_rows
    apply_array_limit apply_array get_txs_delta txs_delta_at get_of_array get_of_array_s8
    find_power_limits_node find_country string_prop_find any_string find_channel_node
rows_of_streams = refl

-- The greatest limit is that of ofdm, though mcs rates without a limit may use the target.
power_of_ofdm : power_of limits ≡ 34
unfolding get_rate_power_limits rate_power_limits limits_of apply_multi_array_limit apply_rows
    apply_array_limit apply_array get_txs_delta txs_delta_at get_of_array get_of_array_s8
    find_power_limits_node find_country string_prop_find any_string find_channel_node
power_of_ofdm = refl

get_rate_power_limits_lem_example :
    let o = node_of alike (70 ∷ 82 ∷ []) none (some (europe ∷ [])) ghz5 40 in
    (limits ≡ some (reading 36 2 0 o)) × RatesBelow 36 (reading 36 2 0 o).0
get_rate_power_limits_lem_example =
    get_rate_power_limits_lem alike (70 ∷ 82 ∷ []) none (some (europe ∷ [])) ghz5 40 2 0 36
      (omega arith)
