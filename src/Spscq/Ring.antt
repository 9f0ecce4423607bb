-- ===== src/Spscq/Ring.antt =====
-- The representation of a ring: which positions hold the queued pointers, and in which order.
use ats.Base.{
  ℕ, zero, suc, ◌+◌, ◌-◌, ◌^◌, ◌≤◌, ◌<◌, ◌≡◌, ◌≢◌, refl, sym, ap, ap₂, List, [], ◌∷◌, ◌++◌, ltb,
  if◌then◌else◌, arith, null, length, get_or, set, get_or-set_self, get_or-set_ne,
}
use ats.Spscq.{Spscq, next_record}

-- What holds of every queue that `init` sets up with a size from 2 to the largest `unsigned int`.
pub record IsValid (q : Spscq) : Type 0 where
  pub two : 2 ≤ q.capacity
  pub word : q.capacity < 2 ^ 32
  pub storage : q.capacity ≤ length q.records
  pub read_in : q.read_pos < q.capacity
  pub write_in : q.write_pos < q.capacity

-- The number of queued pointers.
abbrev pub used : ℕ → ℕ → ℕ → ℕ
used cap r w = if ltb w r then w + cap - r else w - r

-- The `n` pointers from position `r` on.
abbrev pub window : List ℕ → ℕ → ℕ → ℕ → List ℕ
window recs cap r zero = []
window recs cap r (suc n) = get_or recs r null ∷ window recs cap (next_record cap r) n

-- The queued pointers, the oldest first.
abbrev pub contents : Spscq → List ℕ
contents q = window q.records q.capacity q.read_pos (used q.capacity q.read_pos q.write_pos)

pub length-window : (recs : List ℕ) (cap r n : ℕ) → length (window recs cap r n) ≡ n
length-window recs cap r zero = refl
length-window recs cap r (suc n) = ap suc (length-window recs cap (next_record cap r) n)

pub next_record-lt : (cap r : ℕ) → 2 ≤ cap → cap < 2 ^ 32 → r < cap → next_record cap r < cap
next_record-lt cap r h w l = ground arith

pub next_record_inj :
    (cap a b : ℕ) → cap < 2 ^ 32 → a < cap → b < cap → next_record cap a ≡ next_record cap b → a ≡ b
next_record_inj cap a b w ha hb e = ground arith

-- One step of the reader takes one pointer off the count, one of the writer adds one.
pub used-next_read :
    (cap r w : ℕ)
    → cap < 2 ^ 32
    → r < cap
    → w < cap
    → r ≢ w
    → used cap r w ≡ suc (used cap (next_record cap r) w)
used-next_read cap r w h hr hw ne = ground arith

pub used-next_write :
    (cap r w : ℕ)
    → cap < 2 ^ 32
    → r < cap
    → w < cap
    → next_record cap w ≢ r
    → used cap r (next_record cap w) ≡ suc (used cap r w)
used-next_write cap r w h hr hw ne = ground arith

-- Writing at the write position, which lies just past the window, adds the pointer at the end.
pub window-set :
    (recs : List ℕ) (cap r w e n : ℕ)
    → cap < 2 ^ 32
    → cap ≤ length recs
    → r < cap
    → w < cap
    → next_record cap w ≢ r
    → n ≡ used cap r w
    → window (set recs w e) cap r (suc n) ≡ window recs cap r n ++ (e ∷ [])
window-set recs cap r w e zero h hs hr hw ne k =
    let same : r ≡ w = ground arith in
    ap (λ x. x ∷ []) (rw same (get_or-set_self recs w e null (omega arith)))
window-set recs cap r w e (suc n) h hs hr hw ne k =
    let apart : r ≢ w = λ p. ground arith in
    ap₂ ◌∷◌ (get_or-set_ne recs w r e null (λ p. apart (sym p))) (
      window-set recs cap (next_record cap r) w e n h hs (next_record-lt cap r (omega arith) h hr)
        hw (λ p. apart (sym (next_record_inj cap w r h hw hr p)))
        (omega (arith, used-next_read cap r w h hr hw apart)))

-- A write outside the window leaves it alone.
pub window-set_ne :
    (recs : List ℕ) (cap r w e n : ℕ)
    → cap < 2 ^ 32
    → r < cap
    → w < cap
    → n ≤ used cap r w
    → window (set recs w e) cap r n ≡ window recs cap r n
window-set_ne recs cap r w e zero h hr hw k = refl
window-set_ne recs cap r w e (suc n) h hr hw k =
    let apart : r ≢ w = λ p. ground arith in
    ap₂ ◌∷◌ (get_or-set_ne recs w r e null (λ p. apart (sym p))) (
      window-set_ne recs cap (next_record cap r) w e n h (next_record-lt cap r (omega arith) h hr)
        hw (omega (arith, used-next_read cap r w h hr hw apart)))

-- What one publication of each thread does to the queued pointers.
module _ (q : Spscq) (v : IsValid q) where
  open q use {capacity, records, read_pos, write_pos}

  pub contents-nil : read_pos ≡ write_pos → contents q ≡ []
  contents-nil e = let nothing : used capacity read_pos write_pos ≡ 0 = ground arith in rw nothing

  pub contents-cons :
      read_pos ≢ write_pos
      → contents q
        ≡ get_or records read_pos null
          ∷ contents (record q { read_pos = next_record capacity read_pos })
  contents-cons ne = rw (used-next_read capacity read_pos write_pos v.word v.read_in v.write_in ne)

  pub contents-snoc :
      (e : ℕ)
      → next_record capacity write_pos ≢ read_pos
      → contents (record q {
        records = set records write_pos e;
        write_pos = next_record capacity write_pos;
      })
        ≡ contents q ++ (e ∷ [])
  contents-snoc e ne =
      rw (used-next_write capacity read_pos write_pos v.word v.read_in v.write_in ne) (
        window-set records capacity read_pos write_pos e _ v.word v.storage v.read_in v.write_in ne
          refl)
