-- ===== src/Datetime/Inside.antt =====
-- src/engine/base/datetime.c: the bytes on which the result of datetime_from_iso8601 depends.
use ats.Base.{
  Bool-cases, ℕ, zero, suc, ◌+◌, ◌-◌, ◌*◌, ◌/◌, ◌^◌, ◌<◌, ◌≤◌, ◌≡◌, ◌≢◌, inl, inr, ◌∙◌, refl, sym,
  ap, subst, Option, some, none, arith, u32, u64, if◌then◌else◌, ltb, leb, true, false, ◌==◌,
  require, ◌>>=◌,
}
use ats.Datetime.{Date, DayTime, datetime_from_ymd, datetime_from_hmsu}
use ats.Datetime.Ascii.{digit_of, is_z}
use ats.Datetime.Parse.{
  parse_2d, parse_4d, is_framed, parse_parts, scan_digits, parse_fraction, parse_zone,
  datetime_from_iso8601,
}

-- The two memories agree on the first `len` bytes.
abbrev pub Agree : (ℕ → ℕ) → (ℕ → ℕ) → ℕ → Type 0
Agree s s' len = (i : ℕ) → i < len → s i ≡ s' i

parse_2d-same :
    (s s' : ℕ → ℕ) (i : ℕ) → s i ≡ s' i → s (i + 1) ≡ s' (i + 1) → parse_2d s i ≡ parse_2d s' i
unfolding parse_2d
parse_2d-same s s' i e f = rw (e, f) refl

parse_4d-same : (s s' : ℕ → ℕ) (len : ℕ) → Agree s s' len → 4 ≤ len → parse_4d s 0 ≡ parse_4d s' 0
unfolding parse_4d
parse_4d-same s s' len same long =
    rw (same 0 (omega arith), same 1 (omega arith), same 2 (omega arith), same 3 (omega arith)) refl

is_framed-same : (s s' : ℕ → ℕ) (len : ℕ) → Agree s s' len → is_framed s len ≡ is_framed s' len
is_framed-same s s' len same = elim (Bool-cases (ltb len 20)) [
  | inl short ↦ rw short refl
  | inr long ↦
      let at : (i : ℕ) → i < 20 → s i ≡ s' i = λ i h. same i (ground arith) in
      rw
        (
          at 4 (omega arith),
          at 7 (omega arith),
          at 10 (omega arith),
          at 13 (omega arith),
          at 16 (omega arith),
        )
        refl
]

parse_parts-same :
    (s s' : ℕ → ℕ) (len : ℕ) → Agree s s' len → 20 ≤ len → parse_parts s ≡ parse_parts s'
unfolding parse_parts
parse_parts-same s s' len same long =
    let two : (i : ℕ) → i < 19 → parse_2d s i ≡ parse_2d s' i =
      λ i h. parse_2d-same s s' i (same i (omega arith)) (same (i + 1) (omega arith)) in
    rw
      (
        parse_4d-same s s' len same (omega arith),
        two 5 (omega arith),
        two 8 (omega arith),
        two 11 (omega arith),
        two 14 (omega arith),
        two 17 (omega arith),
      )
      refl

scan_digits-same :
    (s s' : ℕ → ℕ) (len left cur nsec : ℕ)
    → Agree s s' len
    → cur + left ≤ len
    → (scan_digits s left cur nsec ≡ scan_digits s' left cur nsec)
      × ((scan_digits s left cur nsec).1 ≤ cur + left)
unfolding scan_digits
scan_digits-same s s' len zero cur nsec same room = (refl, omega arith)
scan_digits-same s s' len (suc left) cur nsec same room =
    let d = digit_of (s' cur) in
    let (rest, end) =
      scan_digits-same s s' len left (cur + 1) (u32 (nsec * 10 + d)) same (omega arith) in
    rw (same cur (omega arith))
      (ap (λ r. if ltb 9 d then (nsec, cur) else r) rest, ground (arith, end))

parse_fraction-same :
    (s s' : ℕ → ℕ) (len : ℕ)
    → Agree s s' len
    → 20 ≤ len
    → parse_fraction s len ≡ parse_fraction s' len
unfolding parse_fraction
parse_fraction-same s s' len same long =
    rw ((scan_digits-same s s' len (len - 20) 20 0 same (omega arith)).0, same 19 (omega arith))
      refl

parse_fraction-inside :
    (s : ℕ → ℕ) (len nsec at : ℕ) → 20 ≤ len → parse_fraction s len ≡ some (nsec, at) → at < len
unfolding parse_fraction
parse_fraction-inside s len nsec at long e =
    let (_, end) = scan_digits-same s s len (len - 20) 20 0 (λ i h. refl) (omega arith) in
    ground (arith, end, e)

parse_zone-end :
    (s : ℕ → ℕ) (len at : ℕ) (zone : ℕ × ℕ)
    → is_z (s at) ≡ false
    → parse_zone s len at ≡ some zone
    → zone.1 ≡ at + 6
unfolding parse_zone
parse_zone-end s len at zone other e = ground (arith, e)

parse_zone-same :
    (s s' : ℕ → ℕ) (len at : ℕ)
    → Agree s s' len
    → at + 6 ≤ len
    → parse_zone s len at ≡ parse_zone s' len at
unfolding parse_zone parse_2d
parse_zone-same s s' len at same room =
    let byte : (i : ℕ) → i < 5 → s (at + 1 + i) ≡ s' (at + 1 + i) =
      λ i h. same (at + 1 + i) (omega arith) in
    rw
      (
        same at (omega arith),
        byte 0 (omega arith),
        byte 1 (omega arith),
        byte 2 (omega arith),
        byte 3 (omega arith),
        byte 4 (omega arith),
      )
      refl

-- What follows the zone fails unless the zone ends with the text.
module _ (len : ℕ) (next : ℕ × ℕ → Option ℕ) (ends : (z : ℕ × ℕ) → z.1 ≢ len → next z ≡ none) where
  past_end :
      (s : ℕ → ℕ) (at : ℕ)
      → len < at + 6
      → is_z (s at) ≡ false
      → (parse_zone s len at >>= next) ≡ none
  past_end s at short other =
      let go : (r : Option (ℕ × ℕ)) → parse_zone s len at ≡ r → (r >>= next) ≡ none = λ r e.
        elim r as (λ r. parse_zone s len at ≡ r → (r >>= next) ≡ none) [
          | none ↦ λ e. refl
          | some z ↦ λ e. ends z (λ p. omega (arith, p, parse_zone-end s len at z other e))
        ]
          e in
      go (parse_zone s len at) refl

  zone-same :
      (s s' : ℕ → ℕ) (at : ℕ)
      → Agree s s' len
      → at < len
      → (parse_zone s len at >>= next) ≡ (parse_zone s' len at >>= next)
  zone-same s s' at same inside = elim (Bool-cases (leb (at + 6) len)) [
    | inl room ↦ ap (λ r. r >>= next) (parse_zone-same s s' len at same (ground arith))
    | inr short ↦ elim (Bool-cases (is_z (s at))) [
      | inl utc ↦ unfold parse_zone in rw (← same at inside, utc) refl
      | inr other ↦
          past_end s at (ground arith) other
          ∙ sym (past_end s' at (ground arith) (subst (λ c. is_z c ≡ false) (same at inside) other))
    ]
  ]

not_equal : (a b : ℕ) → a ≢ b → (a == b) ≡ false
not_equal a b h = ground arith

framed-long : (s : ℕ → ℕ) (len : ℕ) → is_framed s len ≡ true → 20 ≤ len
framed-long s len h = ground (arith, h)

bind-same :
    {A B : Type 0}
    → (m : Option A) (f g : A → Option B) → ((a : A) → m ≡ some a → f a ≡ g a)
    → (m >>= f) ≡ (m >>= g)
bind-same none f g h = refl
bind-same (some a) f g h = h a refl

-- The fraction and the zone, then what follows.
fraction-same :
    (s s' : ℕ → ℕ) (len : ℕ) (next : ℕ × ℕ → ℕ × ℕ → Option ℕ)
    → ((f z : ℕ × ℕ) → z.1 ≢ len → next f z ≡ none)
    → Agree s s' len
    → 20 ≤ len
    → (parse_fraction s len >>= λ f. parse_zone s len f.1 >>= next f)
      ≡ (parse_fraction s' len >>= λ f. parse_zone s' len f.1 >>= next f)
fraction-same s s' len next ends same long =
    ap (λ m. m >>= λ f. parse_zone s len f.1 >>= next f) (parse_fraction-same s s' len same long)
    ∙ bind-same (parse_fraction s' len) (λ f. parse_zone s len f.1 >>= next f)
        (λ f. parse_zone s' len f.1 >>= next f)
        (λ f e.
          zone-same len (next f) (ends f) s s' f.1 same
            (parse_fraction-inside s' len f.0 f.1 long e))

-- What `datetime_from_iso8601` answers depends on no byte from the position `len` on, although it may
-- look at some.
pub datetime_from_iso8601-Agree :
    (s s' : ℕ → ℕ) (len : ℕ)
    → Agree s s' len
    → datetime_from_iso8601 s len ≡ datetime_from_iso8601 s' len
unfolding datetime_from_iso8601
datetime_from_iso8601-Agree s s' len same =
    let next : Date × DayTime → ℕ × ℕ → ℕ × ℕ → Option ℕ = λ p f z.
      let date = datetime_from_ymd p.0.year p.0.month p.0.day in
      let time = datetime_from_hmsu p.1.hour p.1.minute p.1.second (f.0 / 1000) in
      require (z.1 == len) (some (u64 (u64 (date + time) + 2 ^ 64 - z.0))) in
    let ends : (p : Date × DayTime) (f z : ℕ × ℕ) → z.1 ≢ len → next p f z ≡ none =
      λ p f z ne. rw (not_equal z.1 len ne) refl in
    elim (Bool-cases (is_framed s' len)) [
      | inr bad ↦ rw (is_framed-same s s' len same, bad) refl
      | inl good ↦
          let long = framed-long s' len good in
          rw (is_framed-same s s' len same, good, parse_parts-same s s' len same long)
            (bind-same (parse_parts s') _ _
              (λ p e. fraction-same s s' len (next p) (ends p) same long))
    ]
