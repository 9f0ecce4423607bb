-- ===== src/Currency/Names.antt =====
-- src/engine/base/currency.c: currency_from_name and currency_to_name.
use Prim.Native.String.{String}
use text.Mathlib.Text.{◌==◌ as str_eq}
use text.Mathlib.TextEquality.{eq_iff}
use ats.Base.{
  ℕ, List, [], ◌∷◌, Option, none, some, ◌==◌, if◌then◌else◌, ◌≡◌, ◌∙◌, refl, sym, ap, subst, Bool,
  Bool-cases, true, false, not, ◌&&◌, ◌||◌, ◌⊎◌, inl, inr, arith,
}
use ats.Currency.Table.{currency_def}
use ats.Currency.{
  StringMap, put_keys, init_hash_table, once, currency_from_name, name_of, currency_to_name,
  currency_none,
}

-- The table has the name; the table has the number.
abbrev pub has_name : List (String × ℕ) → String → Bool
has_name [] name = false
has_name ((key, val) ∷ l) name = str_eq key name || has_name l name

abbrev pub has_code : List (String × ℕ) → ℕ → Bool
has_code [] code = false
has_code ((key, val) ∷ l) code = val == code || has_code l code

-- No name and no number is there twice.
abbrev unique : List (String × ℕ) → Bool
unique [] = true
unique ((key, val) ∷ l) = not (has_name l key) && not (has_code l val) && unique l

currency_def-unique : unique currency_def ≡ true
unfolding currency_def
currency_def-unique = refl

none_first : name_of currency_def currency_none ≡ "NONE"
unfolding currency_def
none_first = refl

-- The number of a name
abbrev code_of : List (String × ℕ) → String → ℕ
code_of [] name = currency_none
code_of ((key, val) ∷ l) name = if str_eq key name then val else code_of l name

none_code : code_of currency_def "NONE" ≡ currency_none
unfolding currency_def
none_code = refl

has_code-code_of :
    (l : List (String × ℕ)) (name : String)
    → has_name l name ≡ true
    → has_code l (code_of l name) ≡ true
has_code-code_of [] name h = absurd (ground arith)
has_code-code_of ((key, val) ∷ l) name h = elim (Bool-cases (str_eq key name)) [
  | inl same ↦ rw same (ground arith)
  | inr other ↦ rw other (ground (arith, has_code-code_of l name (ground arith)))
]

has_name-name_of :
    (l : List (String × ℕ)) (code : ℕ) → has_code l code ≡ true → has_name l (name_of l code) ≡ true
has_name-name_of [] code h = absurd (ground arith)
has_name-name_of ((key, val) ∷ l) code h = elim (Bool-cases (val == code)) [
  | inl same ↦ rw same (rw ((eq_iff key key).1 refl) refl)
  | inr other ↦ rw other (ground (arith, has_name-name_of l code (ground arith)))
]

other_code :
    (l : List (String × ℕ)) (val code : ℕ)
    → has_code l val ≡ false
    → has_code l code ≡ true
    → (val == code) ≡ false
other_code l val code out known = elim (Bool-cases (val == code)) [
  | inr other ↦ other
  | inl same ↦
      let e : val ≡ code = ground arith in
      absurd (ground (arith, subst (λ c. has_code l c ≡ true) (sym e) known))
]

other_name :
    (l : List (String × ℕ)) (key name : String)
    → has_name l key ≡ false
    → has_name l name ≡ true
    → str_eq key name ≡ false
other_name l key name out known = elim (Bool-cases (str_eq key name)) [
  | inr other ↦ other
  | inl same ↦
      absurd
        (ground (arith, subst (λ n. has_name l n ≡ true) (sym ((eq_iff key name).0 same)) known))
]

-- The name of the number of a name in the table is that name.
name_of-code_of :
    (l : List (String × ℕ)) (name : String)
    → unique l ≡ true
    → has_name l name ≡ true
    → name_of l (code_of l name) ≡ name
name_of-code_of [] name u h = absurd (ground arith)
name_of-code_of ((key, val) ∷ l) name u h = elim (Bool-cases (str_eq key name)) [
  | inl same ↦ rw same (ground (arith, (eq_iff key name).0 same))
  | inr other ↦
      let there : has_name l name ≡ true = ground arith in
      let known = has_code-code_of l name there in
      let differ = other_code l val (code_of l name) (ground arith) known in
      rw (other, differ) (name_of-code_of l name (ground arith) there)
]

-- The number of the name of a number in the table is that number.
code_of-name_of :
    (l : List (String × ℕ)) (code : ℕ)
    → unique l ≡ true
    → has_code l code ≡ true
    → code_of l (name_of l code) ≡ code
code_of-name_of [] code u h = absurd (ground arith)
code_of-name_of ((key, val) ∷ l) code u h = elim (Bool-cases (val == code)) [
  | inl same ↦ rw same (rw ((eq_iff key key).1 refl) (ground arith))
  | inr other ↦
      let there : has_code l code ≡ true = ground arith in
      let known = has_name-name_of l code there in
      let differ = other_name l key (name_of l code) (ground arith) known in
      rw (other, differ) (code_of-name_of l code (ground arith) there)
]

name_of-missing :
    (l : List (String × ℕ)) (code : ℕ) → has_code l code ≡ false → name_of l code ≡ "NONE"
name_of-missing [] code h = refl
name_of-missing ((key, val) ∷ l) code h = ground (arith, name_of-missing l code (ground arith))

-- A name that is not in the table has the number of "NONE".
code_of-missing :
    (l : List (String × ℕ)) (name : String)
    → has_name l name ≡ false
    → code_of l name ≡ currency_none
code_of-missing [] name h = refl
code_of-missing ((key, val) ∷ l) name h = ground (arith, code_of-missing l name (ground arith))

module _ {M : Type 0} ⦃map : StringMap M⦄ where
  -- The map holds the table and what it held before.
  kh_get-put_keys :
      (l : List (String × ℕ)) (m : M) (name : String)
      → unique l ≡ true
      → map.kh_get (put_keys m l) name
        ≡ (if has_name l name then some (code_of l name) else map.kh_get m name)
  kh_get-put_keys [] m name u = refl
  kh_get-put_keys ((key, val) ∷ l) m name u =
      kh_get-put_keys l (map.kh_put m key val) name (ground arith)
      ∙ rw (map.get-put m key val name) (elim (Bool-cases (str_eq key name)) [
        | inl same ↦
            let out : has_name l name ≡ false =
              subst (λ n. has_name l n ≡ false) ((eq_iff key name).0 same) (ground arith) in
            rw (same, out) refl
        | inr other ↦ rw other refl
      ])

  -- The map is not made yet, or is the one that the first call makes.
  abbrev pub IsReady : Option M → Type 0
  IsReady currency_map = (currency_map ≡ none) ⊎ (currency_map ≡ some init_hash_table)

  once-ready :
      (currency_map : Option M)
      → IsReady currency_map
      → once currency_map ≡ put_keys map.kh_init currency_def
  unfolding init_hash_table
  once-ready currency_map (inl e) = ap once e
  once-ready currency_map (inr e) = ap once e

  from_name-code_of :
      (currency_map : Option M) (name : String)
      → IsReady currency_map
      → ((currency_from_name currency_map name).0 ≡ code_of currency_def name)
        × IsReady (currency_from_name currency_map name).1
  unfolding currency_from_name init_hash_table
  from_name-code_of currency_map name ready =
      let found = kh_get-put_keys currency_def map.kh_init name currency_def-unique in
      let same = once-ready currency_map ready in
      (
        rw (same, found)
            (elim (Bool-cases (has_name currency_def name)) [
              | inl there ↦ rw there refl
              | inr missing ↦
                  rw (missing, map.get-init name) (sym (code_of-missing currency_def name missing))
            ]),
        inr (ap some same),
      )

  -- `currency_to_name` gives the name again from which `currency_from_name` has found a number, and
  -- "NONE" if the table does not have the name.
  currency_to_name-from_name :
      (currency_map : Option M) (name : String)
      → IsReady currency_map
      → let (currency, currency_map') = currency_from_name currency_map name in
        (currency_to_name currency ≡ (if has_name currency_def name then name else "NONE"))
        × IsReady currency_map'
  unfolding currency_to_name
  currency_to_name-from_name currency_map name ready =
      let (found, ready') = from_name-code_of currency_map name ready in
      (
        rw found (elim (Bool-cases (has_name currency_def name)) [
          | inl there ↦ rw there (name_of-code_of currency_def name currency_def-unique there)
          | inr missing ↦ rw (missing, code_of-missing currency_def name missing) none_first
        ]),
        ready',
      )

  -- `currency_from_name` finds the number again whose name `currency_to_name` gives, and CURRENCY_NONE
  -- if no currency has the number.
  currency_from_name-to_name :
      (currency_map : Option M) (currency : ℕ)
      → IsReady currency_map
      → (currency_from_name currency_map (currency_to_name currency)).0
        ≡ (if has_code currency_def currency then currency else currency_none)
  unfolding currency_to_name
  currency_from_name-to_name currency_map currency ready =
      let found = (from_name-code_of currency_map (currency_to_name currency) ready).0 in
      rw found (elim (Bool-cases (has_code currency_def currency)) [
        | inl there ↦ rw there (code_of-name_of currency_def currency currency_def-unique there)
        | inr missing ↦ rw (missing, name_of-missing currency_def currency missing) none_code
      ])

  -- The name from which `currency_from_name` has found a number is found again by `currency_to_name`,
  -- which gives "NONE" if the table does not have the name, and the map is ready afterwards. The
  -- number whose name `currency_to_name` gives is found again by `currency_from_name`, which answers
  -- CURRENCY_NONE if no currency has the number. (The map has not been made, or holds the table.)
  pub names_lem :
      (currency_map : Option M) (name : String) (number : ℕ)
      → IsReady currency_map
      → (let (currency, currency_map') = currency_from_name currency_map name in
          (currency_to_name currency ≡ (if has_name currency_def name then name else "NONE"))
          × IsReady currency_map')
        × ((currency_from_name currency_map (currency_to_name number)).0
            ≡ (if has_code currency_def number then number else currency_none))
  names_lem currency_map name number ready = (
    currency_to_name-from_name currency_map name ready,
    currency_from_name-to_name currency_map number ready,
  )
