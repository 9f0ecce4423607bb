-- ===== src/Currency.antt =====
-- src/engine/base/currency.c: the names and the numbers of currencies. The map from names, which is
-- one of khash, is a parameter.
pub mod Table
pub mod Names
mod Tests
use Prim.Native.String.{String}
use text.Mathlib.Text.{◌==◌ as str_eq}
use ats.Base.{ℕ, List, [], ◌∷◌, Option, none, some, ◌==◌, if◌then◌else◌, ◌≡◌}
use ats.Currency.Table.{currency_def}

-- What is relied on in a khash map from strings: putting a key in sets its value and leaves the
-- other keys alone.
pub record StringMap (M : Type 0) : Type 0 where
  pub kh_init : M
  pub kh_put : M → String → ℕ → M
  pub kh_get : M → String → Option ℕ
  pub get-init : (name : String) → kh_get kh_init name ≡ none
  pub get-put :
      (m : M) (key : String) (val : ℕ) (name : String)
      → kh_get (kh_put m key val) name ≡ (if str_eq key name then some val else kh_get m name)

-- `CURRENCY_NONE`
abbrev pub currency_none : ℕ
currency_none = 0

module _ {M : Type 0} ⦃map : StringMap M⦄ where
  -- The calls of `put_key` that `CURRENCY_DEF` expands to
  abbrev pub put_keys : M → List (String × ℕ) → M
  put_keys m [] = m
  put_keys m ((key, val) ∷ l) = put_keys (map.kh_put m key val) l

  unfoldable pub init_hash_table : M
  init_hash_table = put_keys map.kh_init currency_def

  -- `currency_map` is `none` until `uv_once` has called `init_hash_table`.
  abbrev pub once : Option M → M
  once none = init_hash_table
  once (some m) = m

  unfoldable pub currency_from_name : Option M → String → ℕ × Option M
  currency_from_name currency_map name =
      let m = once currency_map in
      (elim (map.kh_get m name) [ none ↦ currency_none | some val ↦ val ], some m)

-- The cases of the `switch`, in their order
abbrev pub name_of : List (String × ℕ) → ℕ → String
name_of [] currency = "NONE"
name_of ((name, code) ∷ l) currency = if code == currency then name else name_of l currency

unfoldable pub currency_to_name : ℕ → String
currency_to_name currency = name_of currency_def currency
