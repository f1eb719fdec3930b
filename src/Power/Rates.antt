-- ===== src/Power/Rates.antt =====
-- eeprom.c: how the limits of a node are applied (mt76_get_rate_power_limits). none as a result is a
-- read outside a property's value.
use mt.Common.{
  ℕ, ◌+◌, ◌-◌, ◌%◌, Bool, Option, none, some, List, [], ◌∷◌, if◌then◌else◌, ◌==◌, ltb, length, drop,
  replicate, get_or,
}
use mt.Common.Signed.{min8, max8, add8}
use mt.Power.{
  Node, Country, Band, ghz2, ghz5, ghz6, other_band, find_power_limits_node, find_channel_node,
  get_of_array_s8, get_txs_delta,
}

-- struct mt76_power_limits
pub record PathLimits : Type 0 where
  pub cck : List ℕ
  pub ofdm : List ℕ
  pub ofdm_bf : List ℕ
  pub ru : List (List ℕ)
  pub ru_bf : List (List ℕ)

pub record PowerLimits : Type 0 where
  pub cck : List ℕ
  pub ofdm : List ℕ
  pub mcs : List (List ℕ)
  pub ru : List (List ℕ)
  pub eht : List (List ℕ)
  pub path : PathLimits

-- The two calls of memset: every limit of a rate is the target, and of a path zero.
abbrev pub table : ℕ → ℕ → ℕ → List (List ℕ)
table n m x = replicate n (replicate m x)

abbrev pub no_limits : ℕ → PowerLimits
no_limits target = record {
  cck = replicate 4 target;
  ofdm = replicate 8 target;
  mcs = table 4 10 target;
  ru = table 7 12 target;
  eht = table 16 16 target;
  path = record {
    cck = replicate 4 0;
    ofdm = replicate 4 0;
    ofdm_bf = replicate 4 0;
    ru = table 7 10 0;
    ru_bf = table 7 10 0;
  };
}

abbrev pub and_then : {A B : Type 0} → Option A → (A → Option B) → Option B
and_then none k = none
and_then (some x) k = k x

-- `cur`, an int that comes from an s8; what is not above zero counts like zero.
abbrev pub count_of : ℕ → ℕ
count_of x = if ltb x 128 then x else 0

-- data[0], with no result beyond the property.
abbrev pub first_of : {A : Type 0} → List ℕ → (ℕ → Option A) → Option A
first_of [] k = none
first_of (d ∷ ds) k = k d

module _ (target delta : ℕ) where
  -- The loop of mt76_apply_array_limit: the limits and the greatest of them.
  unfoldable pub apply_array : List ℕ → List ℕ → ℕ → Option (List ℕ × ℕ)
  apply_array [] ds m = some ([], m)
  apply_array (p ∷ ps) [] m = none
  apply_array (p ∷ ps) (d ∷ ds) m =
      let x = min8 target (add8 d delta) in
      and_then (apply_array ps ds (max8 m x)) (λ r. some (x ∷ r.0, r.1))

  -- mt76_apply_array_limit
  unfoldable pub apply_array_limit : List ℕ → Option (List ℕ) → ℕ → Option (List ℕ × ℕ)
  apply_array_limit pwr none m = some (pwr, m)
  apply_array_limit pwr (some ds) m = apply_array pwr ds m

  -- The loop of mt76_apply_multi_array_limit over the rows of `pwr`, which have `pwr_len` each;
  -- `ds` is what `data` and `len` show of the property.
  unfoldable pub apply_rows : ℕ → List (List ℕ) → ℕ → List ℕ → ℕ → Option (List (List ℕ))
  apply_rows pwr_len [] cur ds m = some []
  apply_rows pwr_len (p ∷ ps) cur ds m =
      if ltb (length ds) (pwr_len + 1)
      then some (p ∷ ps)
      else and_then (apply_array_limit p (some (drop 1 ds)) m) (λ r.
        let rest = λ (c : ℕ) (left : List ℕ). apply_rows pwr_len ps c left r.1 in
        let left = drop (pwr_len + 1) ds in
        let rows =
          if ltb 0 (cur - 1)
          then rest (cur - 1) ds
          else if length left == 0
          then some ps
          else first_of left (λ d. rest (count_of d) left) in
        and_then rows (λ qs. some (r.0 ∷ qs)))

  -- mt76_apply_multi_array_limit
  unfoldable pub apply_multi_array_limit :
      ℕ → List (List ℕ) → Option (List ℕ) → Option (List (List ℕ))
  apply_multi_array_limit pwr_len pwr none = some pwr
  apply_multi_array_limit pwr_len pwr (some []) = none
  apply_multi_array_limit pwr_len pwr (some (d ∷ ds)) =
      apply_rows pwr_len pwr (count_of d) (d ∷ ds) 128

-- The arrays of a node, from a channel on; the greatest limit is that of cck and ofdm alone, as the
-- one of mt76_apply_multi_array_limit is its own, and the one of the paths goes unused.
unfoldable pub limits_of : ℕ → ℕ → ℕ → ℕ → Node → PowerLimits → Option (PowerLimits × ℕ)
limits_of target combined delta mcs_rates np dest =
    and_then (apply_array_limit target delta dest.cck (get_of_array_s8 np.rates_cck 4) 0) (λ cck.
      and_then (apply_array_limit target delta dest.ofdm (get_of_array_s8 np.rates_ofdm 8) cck.1)
        (λ ofdm.
          and_then
            (apply_multi_array_limit target delta 10 dest.mcs
              (get_of_array_s8 np.rates_mcs (mcs_rates + 1)))
            (λ mcs.
              and_then
                (apply_multi_array_limit target delta 12 dest.ru (get_of_array_s8 np.rates_ru 13))
                (λ ru.
                  and_then
                    (apply_array_limit combined delta dest.path.cck (get_of_array_s8 np.paths_cck 4)
                      ofdm.1)
                    (λ path_cck.
                      and_then
                        (apply_array_limit combined delta dest.path.ofdm
                          (get_of_array_s8 np.paths_ofdm 4) path_cck.1)
                        (λ path_ofdm.
                          and_then
                            (apply_array_limit combined delta dest.path.ofdm_bf
                              (get_of_array_s8 np.paths_ofdm_bf 4) path_ofdm.1)
                            (λ path_ofdm_bf.
                              and_then
                                (apply_multi_array_limit combined delta 10 dest.path.ru
                                  (get_of_array_s8 np.paths_ru 11))
                                (λ path_ru.
                                  and_then
                                    (apply_multi_array_limit combined delta 10 dest.path.ru_bf
                                      (get_of_array_s8 np.paths_ru_bf 11))
                                    (λ path_ru_bf. some (
                                      record {
                                        cck = cck.0;
                                        ofdm = ofdm.0;
                                        mcs = mcs;
                                        ru = ru;
                                        eht = dest.eht;
                                        path = record {
                                          cck = path_cck.0;
                                          ofdm = path_ofdm.0;
                                          ofdm_bf = path_ofdm_bf.0;
                                          ru = path_ru;
                                          ru_bf = path_ru_bf;
                                        };
                                      },
                                      ofdm.1,
                                    ))))))))))

abbrev pub nodes_of : Band → Country → Option (List Node)
nodes_of ghz2 c = c.txpower_2g
nodes_of ghz5 c = c.txpower_5g
nodes_of ghz6 c = c.txpower_6g
nodes_of other_band c = none

-- mt76_tx_power_path_delta; `path` is a u8.
abbrev pub path_delta : ℕ → ℕ
path_delta path = get_or (0 ∷ 6 ∷ 9 ∷ 12 ∷ 14 ∷ []) ((path + 255) % 256) 0

-- The node of the channel, where every step finds one.
abbrev pub node_of :
    (List ℕ → List ℕ → Bool)
    → List ℕ
    → Option (List ℕ)
    → Option (List Country)
    → Band
    → ℕ
    → Option Node
node_of same alpha2 region tree band hw =
    and_then (find_power_limits_node same alpha2 region tree)
      (λ c. and_then (nodes_of band c) (λ nodes. find_channel_node hw nodes))

-- mt76_get_rate_power_limits with CONFIG_OF: `mcs_rates` is dev->drv->mcs_rates, `n_chains` the
-- number of bits of the chain mask.
unfoldable pub rate_power_limits : ℕ → ℕ → ℕ → Option Node → Option (PowerLimits × ℕ)
rate_power_limits target n_chains mcs_rates none = some (no_limits target, target)
rate_power_limits target n_chains mcs_rates (some np) =
    and_then (get_txs_delta np n_chains) (λ delta.
      limits_of target (add8 target (path_delta n_chains)) delta
        (if mcs_rates == 0 then 10 else mcs_rates) np (no_limits target))

unfoldable pub get_rate_power_limits :
    (List ℕ → List ℕ → Bool)
    → List ℕ
    → Option (List ℕ)
    → Option (List Country)
    → Band
    → ℕ
    → ℕ
    → ℕ
    → ℕ
    → Option (PowerLimits × ℕ)
get_rate_power_limits same alpha2 region tree band hw n_chains mcs_rates target =
    rate_power_limits target n_chains mcs_rates (node_of same alpha2 region tree band hw)
