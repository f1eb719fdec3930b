-- ===== src/Power.antt =====
-- eeprom.c: the limits of power for each rate, as the device tree gives them for a channel.
pub mod Below
pub mod Rates
pub mod Rows
mod Tests
pub mod Whole
use mt.Common.{
  ℕ, zero, suc, ◌+◌, ◌-◌, ◌*◌, ◌%◌, Bool, true, false, not, ◌&&◌, ◌||◌, Option, none, some, List,
  [], ◌∷◌, if◌then◌else◌, ◌==◌, ltb, leb, length, get_elem?, drop, replicate,
}
use mt.Common.Signed.{min8, max8, add8}

-- The node of a stretch of channels: the bytes of its properties, none where there is no value.
pub record Node : Type 0 where
  pub channels : Option (List ℕ)
  pub txs_delta : Option (List ℕ)
  pub rates_cck : Option (List ℕ)
  pub rates_ofdm : Option (List ℕ)
  pub rates_mcs : Option (List ℕ)
  pub rates_ru : Option (List ℕ)
  pub paths_cck : Option (List ℕ)
  pub paths_ofdm : Option (List ℕ)
  pub paths_ofdm_bf : Option (List ℕ)
  pub paths_ru : Option (List ℕ)
  pub paths_ru_bf : Option (List ℕ)

-- A child of power-limits: its lists of strings, and the nodes of txpower-2g, -5g and -6g.
pub record Country : Type 0 where
  pub country : Option (List (List ℕ))
  pub regdomain : Option (List (List ℕ))
  pub txpower_2g : Option (List Node)
  pub txpower_5g : Option (List Node)
  pub txpower_6g : Option (List Node)

pub data Band : Type 0 where
  ghz2 : Band
  ghz5 : Band
  ghz6 : Band
  other_band : Band

-- mt76_string_prop_find; `same` is strcasecmp's answer that two strings are alike.
unfoldable pub any_string : (List ℕ → List ℕ → Bool) → List (List ℕ) → List ℕ → Bool
any_string same [] str = false
any_string same (cp ∷ cps) str = if same cp str then true else any_string same cps str

unfoldable pub string_prop_find :
    (List ℕ → List ℕ → Bool) → Option (List (List ℕ)) → Option (List ℕ) → Bool
string_prop_find same none str = false
string_prop_find same (some cps) none = false
string_prop_find same (some cps) (some []) = false
string_prop_find same (some cps) (some (c ∷ cs)) = any_string same cps (c ∷ cs)

abbrev pub is_null : {A : Type 0} → Option A → Bool
is_null none = true
is_null (some x) = false

-- mt76_find_power_limits_node, from a child on; `alpha2` and `region` are dev->alpha2 and the name of
-- dev->region.
unfoldable pub find_country :
    (List ℕ → List ℕ → Bool)
    → List ℕ
    → Option (List ℕ)
    → List Country
    → Option Country
    → Option Country
find_country same alpha2 region [] fallback = fallback
find_country same alpha2 region (cur ∷ rest) fallback =
    if is_null cur.country && is_null cur.regdomain
    then find_country same alpha2 region rest (some cur)
    else if string_prop_find same cur.country (some alpha2)
        || string_prop_find same cur.regdomain region
    then some cur
    else find_country same alpha2 region rest fallback

unfoldable pub find_power_limits_node :
    (List ℕ → List ℕ → Bool) → List ℕ → Option (List ℕ) → Option (List Country) → Option Country
find_power_limits_node same alpha2 region none = none
find_power_limits_node same alpha2 region (some cs) = find_country same alpha2 region cs none

-- mt76_get_of_array, of cells, and mt76_get_of_array_s8: a property of at least `min`.
unfoldable pub get_of_array : Option (List ℕ) → ℕ → Option (List ℕ)
get_of_array none min = none
get_of_array (some value) min = if ltb (length value) (min * 4) then none else some value

unfoldable pub get_of_array_s8 : Option (List ℕ) → ℕ → Option (List ℕ)
get_of_array_s8 none min = none
get_of_array_s8 (some value) min = if ltb (length value) min then none else some value

abbrev pub be32 : ℕ → ℕ → ℕ → ℕ → ℕ
be32 a b c d = ((a * 256 + b) * 256 + c) * 256 + d

-- The loop of mt76_find_channel_node over the pairs of cells.
abbrev pub has_channel : ℕ → List ℕ → Bool
has_channel hw (a ∷ b ∷ c ∷ d ∷ e ∷ f ∷ g ∷ h ∷ rest) =
    if leb (be32 a b c d) hw && leb hw (be32 e f g h) then true else has_channel hw rest
has_channel hw _ = false

abbrev pub is_of_channel : ℕ → Option (List ℕ) → Bool
is_of_channel hw none = false
is_of_channel hw (some value) = has_channel hw value

unfoldable pub find_channel_node : ℕ → List Node → Option Node
find_channel_node hw [] = none
find_channel_node hw (cur ∷ rest) =
    if is_of_channel hw (get_of_array cur.channels 2) then some cur else find_channel_node hw rest

-- mt76_get_txs_delta: an s8 of the last byte of cell `nss - 1`; none is a read outside the value.
unfoldable pub txs_delta_at : Option (List ℕ) → ℕ → Option ℕ
txs_delta_at none nss = some 0
txs_delta_at (some val) zero = none
txs_delta_at (some val) (suc i) = get_elem? val (i * 4 + 3)

unfoldable pub get_txs_delta : Node → ℕ → Option ℕ
get_txs_delta np nss = txs_delta_at (get_of_array np.txs_delta nss) nss
