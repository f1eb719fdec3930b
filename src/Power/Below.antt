-- ===== src/Power/Below.antt =====
-- mt76_get_rate_power_limits as a whole, and that no limit is above the target.
use mt.Common.{
  ℕ, zero, suc, ◌+◌, ◌≤◌, ◌≡◌, refl, arith, Bool, Option, none, some, List, [], ◌∷◌, map,
  if◌then◌else◌, ◌==◌, length, take, replicate,
}
use mt.Common.Signed.{rank8}
use mt.Power.{Node, Country, Band, get_of_array_s8}
use mt.Power.Rates.{
  PowerLimits, no_limits, table, node_of, rate_power_limits, get_rate_power_limits,
}
use mt.Power.Rows.{expand, limit, overlay}
use mt.Power.Whole.{row, rows, delta_of, whole, greatest_of, limits_of-whole, get_txs_delta_lem}

-- No limit of a rate is above the target.
abbrev pub AllBelow : ℕ → List ℕ → Type 0
AllBelow t [] = Unit {0}
AllBelow t (x ∷ xs) = (rank8 x ≤ rank8 t) × AllBelow t xs

abbrev pub RowsBelow : ℕ → List (List ℕ) → Type 0
RowsBelow t [] = Unit {0}
RowsBelow t (p ∷ ps) = AllBelow t p × RowsBelow t ps

abbrev pub RatesBelow : ℕ → PowerLimits → Type 0
RatesBelow t l =
    AllBelow t l.cck × AllBelow t l.ofdm × RowsBelow t l.mcs × RowsBelow t l.ru × RowsBelow t l.eht

replicate-AllBelow : (t n : ℕ) → AllBelow t (replicate n t)
replicate-AllBelow t zero = tt
replicate-AllBelow t (suc n) = (omega arith, replicate-AllBelow t n)

table-RowsBelow : (t n m : ℕ) → RowsBelow t (table n m t)
table-RowsBelow t zero m = tt
table-RowsBelow t (suc n) m = (replicate-AllBelow t m, table-RowsBelow t n m)

module _ (target delta : ℕ) where
  limited-AllBelow : (ds : List ℕ) → AllBelow target (map (limit target delta) ds)
  limited-AllBelow [] = tt
  limited-AllBelow (d ∷ ds) = (ground arith, limited-AllBelow ds)

  row-AllBelow :
      (p : List ℕ) (o : Option (List ℕ))
      → AllBelow target p
      → AllBelow target (row target delta p o)
  row-AllBelow p none h = h
  row-AllBelow p (some ds) h = limited-AllBelow (take (length p) ds)

  overlay-RowsBelow :
      (ps xs : List (List ℕ)) → RowsBelow target ps → RowsBelow target (overlay target delta ps xs)
  overlay-RowsBelow [] xs h = tt
  overlay-RowsBelow (p ∷ ps) [] h = h
  overlay-RowsBelow (p ∷ ps) (x ∷ xs) h = (limited-AllBelow x, overlay-RowsBelow ps xs h.1)

  rows-RowsBelow :
      (n : ℕ) (ps : List (List ℕ)) (o : Option (List ℕ))
      → RowsBelow target ps
      → RowsBelow target (rows target delta n ps o)
  rows-RowsBelow n ps none h = h
  rows-RowsBelow n ps (some ds) h = overlay-RowsBelow ps (expand n (length ds) ds) h

whole-RatesBelow : (target n m : ℕ) (np : Node) → RatesBelow target (whole target n m np)
whole-RatesBelow target n m np =
    let delta = delta_of np.txs_delta n in
    (
      row-AllBelow target delta (replicate 4 target) (get_of_array_s8 np.rates_cck 4)
          (replicate-AllBelow target 4),
      row-AllBelow target delta (replicate 8 target) (get_of_array_s8 np.rates_ofdm 8)
          (replicate-AllBelow target 8),
      rows-RowsBelow target delta 10 (table 4 10 target) (get_of_array_s8 np.rates_mcs (m + 1))
          (table-RowsBelow target 4 10),
      rows-RowsBelow target delta 12 (table 7 12 target) (get_of_array_s8 np.rates_ru 13)
          (table-RowsBelow target 7 12),
      table-RowsBelow target 16 16,
    )

abbrev pub reading : ℕ → ℕ → ℕ → Option Node → PowerLimits × ℕ
reading target n m none = (no_limits target, target)
reading target n m (some np) =
    (whole target n (if m == 0 then 10 else m) np, greatest_of target n np)

reading-RatesBelow : (target n m : ℕ) (o : Option Node) → RatesBelow target (reading target n m o).0
reading-RatesBelow target n m none = (
  replicate-AllBelow target 4,
  replicate-AllBelow target 8,
  table-RowsBelow target 4 10,
  table-RowsBelow target 7 12,
  table-RowsBelow target 16 16,
)
reading-RatesBelow target n m (some np) = whole-RatesBelow target n (if m == 0 then 10 else m) np

rate_power_limits-reading :
    (target n m : ℕ) (o : Option Node)
    → 1 ≤ n
    → rate_power_limits target n m o ≡ some (reading target n m o)
unfolding rate_power_limits
rate_power_limits-reading target n m none h = refl
rate_power_limits-reading target n m (some np) h =
    rw (get_txs_delta_lem np n h) (limits_of-whole target n (if m == 0 then 10 else m) np)

-- For any device tree, channel and target and at least one antenna, the limits are read without going
-- beyond a property's value, and they are those of the node as a whole: a property that is long
-- enough gives each limit the lesser, as s8, of the target and of its value with the delta of the
-- antennas added in eight bits, where for the limits of paths the target is the one with the delta of
-- the paths added in eight bits, and where for several rows its records stand for as many rows as
-- their counts say, for one at least, and rows beyond the records are left at their start; a
-- property that is missing or too short gives nothing. The power returned is the greatest limit of
-- the cck and ofdm properties, zero if that is negative or neither is there, and the target where
-- the tree has no node for the channel. No limit of a rate, those of paths aside, is above the target.
pub get_rate_power_limits_lem :
    (same : List ℕ → List ℕ → Bool) (alpha2 : List ℕ) (region : Option (List ℕ))
    (tree : Option (List Country)) (band : Band) (hw n m target : ℕ)
    → 1 ≤ n
    → (get_rate_power_limits same alpha2 region tree band hw n m target
        ≡ some (reading target n m (node_of same alpha2 region tree band hw)))
      × RatesBelow target (reading target n m (node_of same alpha2 region tree band hw)).0
unfolding get_rate_power_limits
get_rate_power_limits_lem same alpha2 region tree band hw n m target h =
    let o = node_of same alpha2 region tree band hw in
    (rate_power_limits-reading target n m o h, reading-RatesBelow target n m o)
