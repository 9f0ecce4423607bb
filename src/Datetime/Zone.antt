-- ===== src/Datetime/Zone.antt =====
-- src/engine/base/datetime.c: the zone of a text of datetime_format, read by datetime_from_iso8601.
use ats.Base.{
  Bool-cases, ℕ, suc, ◌+◌, ◌-◌, ◌*◌, ◌/◌, ◌%◌, ◌^◌, ◌<◌, ◌≤◌, ◌≡◌, ◌⊎◌, inl, inr, ◌∙◌, refl, ap,
  subst, List, [], ◌∷◌, get_or, some, arith, u32, u64, if◌then◌else◌, leb, ◌==◌,
}
use ats.Datetime.{ticks_per_second}
use ats.Datetime.Ascii.{digit, letter_z, plus, dash, colon}
use ats.Datetime.Format.{zone_text}
use ats.Datetime.Parse.{parse_2d, parse_zone}
use ats.Datetime.Scan.{Holds, Holds-get_or, parse_2d-digits}

-- A zone of less than a day, as the bit pattern of an `int32_t`
abbrev pub IsZone : ℕ → Type 0
IsZone z = (z ≤ 1439) ⊎ ((2 ^ 32 - 1439 ≤ z) × (z < 2 ^ 32))

-- The length of the text of a zone
abbrev pub zone_length : ℕ → ℕ
zone_length z = if z == 0 then 1 else 6

abbrev signed_text : ℕ → ℕ → List ℕ
signed_text sign v =
    sign
    ∷ digit (v / 10 / 6 / 10 % 10)
    ∷ digit (v / 10 / 6 % 10)
    ∷ colon
    ∷ digit (v / 10 % 6)
    ∷ digit (v % 10)
    ∷ 0
    ∷ []

zone_ticks : (v : ℕ) → (v / 60 * 60 + v % 60) * 60 * ticks_per_second ≡ v * 60000000
zone_ticks v = omega arith

parse_zone-signed :
    (str : ℕ → ℕ) (at sign v : ℕ)
    → v ≤ 1439
    → (sign ≡ plus) ⊎ (sign ≡ dash)
    → Holds str at (signed_text sign v)
    → parse_zone str (at + 6) at
      ≡ some (if sign == dash then u64 (2 ^ 64 - v * 60000000) else v * 60000000, at + 6)
unfolding parse_zone
parse_zone-signed str at sign v small kind h =
    let l = signed_text sign v in
    let byte : (j : ℕ) → suc j < 7 → str (at + 1 + j) ≡ get_or l (suc j) 0 = λ j b.
      let next : at + 1 + j ≡ at + suc j = omega arith in
      ap str next ∙ Holds-get_or str at l (suc j) h b in
    let p : ℕ → ℕ = λ i. str (at + 1 + i) in
    let hour : parse_2d p 0 ≡ some (v / 60) =
      parse_2d-digits p 0 _ _ (byte 0 (omega arith)) (byte 1 (omega arith)) (omega arith)
        (omega arith)
      ∙ ap some (omega arith) in
    let min : parse_2d p 3 ≡ some (v % 60) =
      parse_2d-digits p 3 _ _ (byte 3 (omega arith)) (byte 4 (omega arith)) (omega arith)
        (omega arith)
      ∙ ap some (omega arith) in
    let separator : p 2 ≡ colon = byte 2 (omega arith) in
    let first : str at ≡ sign = h.0 in rw (first, separator, hour, min, zone_ticks v) (ground arith)

-- What is taken off a time with the zone `z`, as the bit pattern of an `int64_t`
abbrev pub zone_offset : ℕ → ℕ
zone_offset z = if leb (2 ^ 31) z then u64 (2 ^ 64 - u32 (2 ^ 32 - z) * 60000000) else z * 60000000

pub parse_zone-text :
    (str : ℕ → ℕ) (at z : ℕ)
    → IsZone z
    → Holds str at (zone_text z)
    → parse_zone str (at + zone_length z) at ≡ some (zone_offset z, at + zone_length z)
unfolding zone_text
parse_zone-text str at z range h = elim (Bool-cases (z == 0)) [
  | inl none ↦
      let utc : zone_text z ≡ letter_z ∷ 0 ∷ [] = ground arith in
      let first : str at ≡ letter_z = (subst (Holds str at) utc h).0 in
      unfold parse_zone in rw first (ground arith)
  | inr some_zone ↦ elim range [
    | inl east ↦
        let text : zone_text z ≡ signed_text plus z = ground arith in
        let long : zone_length z ≡ 6 = ground arith in
        rw long (
          parse_zone-signed str at plus z east (inl refl) (subst (Holds str at) text h)
          ∙ ap (λ n. some (n, at + 6)) (ground arith))
    | inr west ↦
        let text : zone_text z ≡ signed_text dash (u32 (2 ^ 32 - z)) = ground arith in
        let long : zone_length z ≡ 6 = ground arith in
        rw long (
          parse_zone-signed str at dash (u32 (2 ^ 32 - z)) (omega arith) (inr refl)
            (subst (Holds str at) text h)
          ∙ ap (λ n. some (n, at + 6)) (ground arith))
  ]
]
