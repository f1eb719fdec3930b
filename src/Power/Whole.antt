-- ===== src/Power/Whole.antt =====
-- mt76_get_rate_power_limits against a reading of the whole node.
use mt.Common.{
  ℕ, zero, suc, ◌+◌, ◌-◌, ◌*◌, ◌≤◌, ◌<◌, ◌≡◌, refl, ◌∙◌, ap, arith, Bool, true, false, Option, none,
  some, List, [], ◌∷◌, map, if◌then◌else◌, ltb, length, length-replicate, take, get_or, get_elem?,
}
use mt.Common.Signed.{add8}
use mt.Power.{Node, get_of_array, get_of_array_s8, txs_delta_at, get_txs_delta}
use mt.Power.Rates.{
  PowerLimits, no_limits, table, apply_array_limit, count_of, apply_multi_array_limit, limits_of,
  path_delta,
}
use mt.Power.Rows.{expand, AllOf, limit, overlay, greatest, apply_array_lem, apply_rows_lem}

-- A value of `n` bytes at least, if there is one.
abbrev pub IsLong : ℕ → Option (List ℕ) → Type 0
IsLong n none = Unit {0}
IsLong n (some v) = n ≤ length v

s8-IsLong : (o : Option (List ℕ)) (min : ℕ) → IsLong min (get_of_array_s8 o min)
unfolding get_of_array_s8
s8-IsLong none min = tt
s8-IsLong (some v) min = by (ltb (length v) min) refl
  where
    by : (c : Bool) → ltb (length v) min ≡ c → IsLong min (if c then none else some v)
    by true e = tt
    by false e = ground (arith, e)

IsLong-le : (o : Option (List ℕ)) (a b : ℕ) → a ≤ b → IsLong b o → IsLong a o
IsLong-le none a b h l = tt
IsLong-le (some v) a b h l = omega (arith, h, l)

-- One row, and several, of a property that is long enough.
module _ (target delta : ℕ) where
  abbrev pub row : List ℕ → Option (List ℕ) → List ℕ
  row pwr none = pwr
  row pwr (some ds) = map (limit target delta) (take (length pwr) ds)

  abbrev pub row_greatest : ℕ → List ℕ → Option (List ℕ) → ℕ
  row_greatest m pwr none = m
  row_greatest m pwr (some ds) = greatest target delta m (take (length pwr) ds)

  abbrev pub rows : ℕ → List (List ℕ) → Option (List ℕ) → List (List ℕ)
  rows n pwr none = pwr
  rows n pwr (some ds) = overlay target delta pwr (expand n (length ds) ds)

  array-row :
      (pwr : List ℕ) (o : Option (List ℕ)) (m : ℕ)
      → IsLong (length pwr) o
      → apply_array_limit target delta pwr o m ≡ some (row pwr o, row_greatest m pwr o)
  unfolding apply_array_limit
  array-row pwr none m h = refl
  array-row pwr (some ds) m h = apply_array_lem target delta pwr ds m h

  multi-rows :
      (n : ℕ) (pwr : List (List ℕ)) (o : Option (List ℕ))
      → AllOf n pwr
      → IsLong 1 o
      → apply_multi_array_limit target delta n pwr o ≡ some (rows n pwr o)
  unfolding apply_multi_array_limit
  multi-rows n pwr none h l = refl
  multi-rows n pwr (some []) h l = ground arith
  multi-rows n pwr (some (d ∷ ds)) h l =
      apply_rows_lem target delta n pwr (length ds) (count_of d) (d ∷ ds) 128 h (omega arith)

s8-IsLong_1 : (o : Option (List ℕ)) (min : ℕ) → 1 ≤ min → IsLong 1 (get_of_array_s8 o min)
s8-IsLong_1 o min h = IsLong-le (get_of_array_s8 o min) 1 min h (s8-IsLong o min)

table-AllOf : (n m x : ℕ) → AllOf m (table n m x)
table-AllOf zero m x = tt
table-AllOf (suc n) m x = (length-replicate m x, table-AllOf n m x)

-- The delta of the antennas' number: the last byte of its cell, and zero if there is no such cell.
abbrev pub delta_of : Option (List ℕ) → ℕ → ℕ
delta_of none n = 0
delta_of (some val) n = if ltb (length val) (n * 4) then 0 else get_or val (n * 4 - 1) 0

get_elem?-get_or : (v : List ℕ) (i : ℕ) → i < length v → get_elem? v i ≡ some (get_or v i 0)
get_elem?-get_or [] i h = elim h [ ]
get_elem?-get_or (x ∷ v) zero h = refl
get_elem?-get_or (x ∷ v) (suc i) h = get_elem?-get_or v i (omega (arith, h))

pub get_txs_delta_lem :
    (np : Node) (n : ℕ) → 1 ≤ n → get_txs_delta np n ≡ some (delta_of np.txs_delta n)
unfolding get_txs_delta txs_delta_at get_of_array
get_txs_delta_lem np n h = by np.txs_delta n h
  where
    by :
        (o : Option (List ℕ)) (n : ℕ)
        → 1 ≤ n
        → txs_delta_at (get_of_array o n) n ≡ some (delta_of o n)
    by none n h = refl
    by (some v) zero h = ground (arith, h)
    by (some v) (suc i) h = cell (ltb (length v) (suc i * 4)) refl
      where
        cell :
            (c : Bool)
            → ltb (length v) (suc i * 4) ≡ c
            → txs_delta_at (if c then none else some v) (suc i)
              ≡ some (if c then 0 else get_or v (suc i * 4 - 1) 0)
        cell true e = refl
        cell false e =
            get_elem?-get_or v (i * 4 + 3) (ground (arith, e))
            ∙ ap (λ j. some (get_or v j 0)) (omega arith)

-- What the node says of all limits: `n` is the number of antennas, `m` that of rates per stream.
abbrev pub whole : ℕ → ℕ → ℕ → Node → PowerLimits
whole target n m np =
    let delta = delta_of np.txs_delta n in
    let combined = add8 target (path_delta n) in
    let z = no_limits target in
    record {
      cck = row target delta z.cck (get_of_array_s8 np.rates_cck 4);
      ofdm = row target delta z.ofdm (get_of_array_s8 np.rates_ofdm 8);
      mcs = rows target delta 10 z.mcs (get_of_array_s8 np.rates_mcs (m + 1));
      ru = rows target delta 12 z.ru (get_of_array_s8 np.rates_ru 13);
      eht = z.eht;
      path = record {
        cck = row combined delta z.path.cck (get_of_array_s8 np.paths_cck 4);
        ofdm = row combined delta z.path.ofdm (get_of_array_s8 np.paths_ofdm 4);
        ofdm_bf = row combined delta z.path.ofdm_bf (get_of_array_s8 np.paths_ofdm_bf 4);
        ru = rows combined delta 10 z.path.ru (get_of_array_s8 np.paths_ru 11);
        ru_bf = rows combined delta 10 z.path.ru_bf (get_of_array_s8 np.paths_ru_bf 11);
      };
    }

-- The greatest limit of a rate without streams, and zero at least.
abbrev pub greatest_of : ℕ → ℕ → Node → ℕ
greatest_of target n np =
    let delta = delta_of np.txs_delta n in
    let z = no_limits target in
    row_greatest target delta (row_greatest target delta 0 z.cck (get_of_array_s8 np.rates_cck 4))
      z.ofdm (get_of_array_s8 np.rates_ofdm 8)

pub limits_of-whole :
    (target n m : ℕ) (np : Node)
    → limits_of target
        (add8 target (path_delta n))
        (delta_of np.txs_delta n)
        m
        np
        (no_limits target)
      ≡ some (whole target n m np, greatest_of target n np)
unfolding limits_of
limits_of-whole target n m np =
    let delta = delta_of np.txs_delta n in
    let combined = add8 target (path_delta n) in
    let z = no_limits target in
    let g = row_greatest target delta 0 z.cck (get_of_array_s8 np.rates_cck 4) in
    let k =
      row_greatest combined delta (greatest_of target n np) z.path.cck
        (get_of_array_s8 np.paths_cck 4) in
    let l = row_greatest combined delta k z.path.ofdm (get_of_array_s8 np.paths_ofdm 4) in
    rw
      (
        array-row target delta z.cck _ 0 (s8-IsLong np.rates_cck 4),
        array-row target delta z.ofdm _ g (s8-IsLong np.rates_ofdm 8),
        multi-rows target delta 10 z.mcs _ (table-AllOf 4 10 target)
            (s8-IsLong_1 np.rates_mcs (m + 1) (omega arith)),
        multi-rows target delta 12 z.ru _ (table-AllOf 7 12 target)
            (s8-IsLong_1 np.rates_ru 13 (omega arith)),
        array-row combined delta z.path.cck _ (greatest_of target n np) (s8-IsLong np.paths_cck 4),
        array-row combined delta z.path.ofdm _ k (s8-IsLong np.paths_ofdm 4),
        array-row combined delta z.path.ofdm_bf _ l (s8-IsLong np.paths_ofdm_bf 4),
        multi-rows combined delta 10 z.path.ru (get_of_array_s8 np.paths_ru 11) (table-AllOf 7 10 0)
            (s8-IsLong_1 np.paths_ru 11 (omega arith)),
        multi-rows combined delta 10 z.path.ru_bf (get_of_array_s8 np.paths_ru_bf 11)
            (table-AllOf 7 10 0) (s8-IsLong_1 np.paths_ru_bf 11 (omega arith)),
      )
      refl
