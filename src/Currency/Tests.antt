-- ===== src/Currency/Tests.antt =====
-- Runs of src/engine/base/currency.c.
use Prim.Native.String.{String}
use text.Mathlib.Text.{◌==◌ as str_eq}
use ats.Base.{ℕ, List, [], ◌∷◌, Option, none, some, if◌then◌else◌, ◌≡◌, refl, inl}
use ats.Currency.Table.{currency_def}
use ats.Currency.{StringMap, currency_from_name, currency_to_name}
use ats.Currency.Names.{IsReady, names_lem}

-- A map as a list of pairs, the last one first
abbrev get : List (String × ℕ) → String → Option ℕ
get [] name = none
get ((key, val) ∷ l) name = if str_eq key name then some val else get l name

instance abbrev pairs_map : StringMap (List (String × ℕ))
pairs_map = record {
  kh_init = [];
  kh_put = λ m key val. (key, val) ∷ m;
  kh_get = get;
  get-init = λ name. refl;
  get-put = λ m key val name. refl;
}

-- Before the first call
abbrev unmade : Option (List (String × ℕ))
unmade = none

names_lem_example :
    (let (currency, currency_map) = currency_from_name unmade "CNY" in
      (currency_to_name currency ≡ "CNY") × IsReady currency_map)
    × ((currency_from_name unmade (currency_to_name 156)).0 ≡ 156)
unfolding currency_def
names_lem_example = names_lem unmade "CNY" 156 (inl refl)
