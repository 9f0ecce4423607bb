-- ===== src/Mem/Copies.antt =====
-- src/engine/base/mem.c: what the copies of strings hold.
use ats.Base.{
  ℕ, zero, suc, ◌+◌, ◌^◌, ◌≤◌, ◌<◌, ◌≡◌, ◌≢◌, refl, sym, ap, ◌∙◌, some, false, Bool-cases, inl, inr,
  ltb, ◌==◌, if◌then◌else◌, update_ne, arith, null, u64, min,
}
use ats.Mem.{Memory, Calls, strlen, memcpy, memset, ats_malloc, ats_strdup, ats_strndup}

-- A string of `n` bytes, which a 0 ends.
pub record IsText (text : ℕ → ℕ) (n : ℕ) : Type 0 where
  pub inside : (i : ℕ) → i < n → text i ≢ 0
  pub end : text n ≡ 0

strlen_lem :
    (fuel : ℕ) (text : ℕ → ℕ) (n i : ℕ)
    → IsText text n
    → i ≤ n
    → n < fuel + i
    → strlen fuel text i ≡ some n
unfolding strlen
strlen_lem zero text n i t le enough = absurd (omega arith)
strlen_lem (suc fuel) text n i t le enough = elim (Bool-cases (i == n)) [
  | inl h ↦
      let here : i ≡ n = ground arith in
      let stop : text i ≡ 0 = ap text here ∙ t.end in rw stop (ground arith)
  | inr h ↦
      let more = strlen_lem fuel text n (i + 1) t (ground arith) (omega arith) in
      ground (arith, t.inside i, more)
]

module _ {S : Type 0} ⦃calls : Calls S⦄ where
  -- A call of the allocator gives a block that is not the one at `s`, and leaves that one alone.
  pub record Gives (m : Memory S) (size s : ℕ) (p : ℕ) (m' : Memory S) : Type 0 where
    pub answer : calls.malloc m.allocator.local_malloc size m ≡ (p, m')
    pub not_null : p ≢ null
    pub new : p ≢ s
    pub kept : m'.cells s ≡ m.cells s

  -- A copy of the first `n` bytes of a string
  pub record IsCopy (m : Memory S) (s n : ℕ) (p : ℕ) (m' : Memory S) : Type 0 where
    pub text : IsText (m'.cells p) n
    pub same : (i : ℕ) → i < n → m'.cells p i ≡ m.cells s i
    pub original : m'.cells s ≡ m.cells s

  malloc_lem :
      (m : Memory S) (size s p : ℕ) (m' : Memory S)
      → 0 < size
      → Gives m size s p m'
      → ats_malloc m size ≡ some (p, m')
  unfolding ats_malloc
  malloc_lem m size s p m' some_bytes g =
      let nn : (p == null) ≡ false = ground (arith, g.not_null) in
      rw g.answer (rw nn (ground arith))

  copied :
      (m m1 m2 : Memory S) (size s n p : ℕ)
      → Gives m size s p m1
      → ((i : ℕ) → i < n → m.cells s i ≢ 0)
      → ((i : ℕ) → i < n → m2.cells p i ≡ m1.cells s i)
      → m2.cells p n ≡ 0
      → m2.cells s ≡ m1.cells s
      → IsCopy m s n p m2
  copied m m1 m2 size s n p g inside same end kept =
      let bytes : (i : ℕ) → i < n → m2.cells p i ≡ m.cells s i =
        λ i lt. same i lt ∙ ap (λ f. f i) g.kept in
      record {
        text = record { inside = λ i lt z. inside i lt (sym (bytes i lt) ∙ z); end = end };
        same = bytes;
        original = kept ∙ g.kept;
      }

  strdup_lem :
      (fuel : ℕ) (m : Memory S) (s n p : ℕ) (m1 : Memory S)
      → s ≢ null
      → IsText (m.cells s) n
      → n < fuel
      → n + 1 < 2 ^ 64
      → Gives m (n + 1) s p m1
      → (m' : Memory S) × (ats_strdup fuel m s ≡ some (p, m')) × IsCopy m s n p m'
  unfolding ats_strdup memcpy
  strdup_lem fuel m s n p m1 nn t enough small g =
      let m2 = memcpy m1 p s (n + 1) in
      let counted = strlen_lem fuel (m.cells s) n 0 t (omega arith) (omega arith) in
      let size : u64 (n + 1) ≡ n + 1 = omega arith in
      let given = malloc_lem m (n + 1) s p m1 (omega arith) g in
      let is_block : (p == null) ≡ false = ground (arith, g.not_null) in
      let is_text : (s == null) ≡ false = ground (arith, nn) in
      (
        m2,
        rw is_text (rw (counted, size) (rw given (rw is_block refl))),
        copied m m1 m2 (n + 1) s n p g t.inside (λ i lt. ground arith)
            (ground (arith, ap (λ f. f n) g.kept, t.end)) (update_ne m1.cells p s _ g.new),
      )

  strndup_lem :
      (fuel : ℕ) (m : Memory S) (s n k p : ℕ) (m1 : Memory S)
      → s ≢ null
      → IsText (m.cells s) n
      → n < fuel
      → n + 1 < 2 ^ 64
      → Gives m (min k n + 1) s p m1
      → (m' : Memory S) × (ats_strndup fuel m s k ≡ some (p, m')) × IsCopy m s (min k n) p m'
  unfolding ats_strndup memcpy memset
  strndup_lem fuel m s n k p m1 nn t enough small g =
      let len = min k n in
      let shorter : (if ltb k n then k else n) ≡ len = ground arith in
      let m2 = memcpy (memset m1 p len (len + 1)) p s len in
      let counted = strlen_lem fuel (m.cells s) n 0 t (omega arith) (omega arith) in
      let size : u64 (len + 1) ≡ len + 1 = omega arith in
      let given = malloc_lem m (len + 1) s p m1 (omega arith) g in
      let is_block : (p == null) ≡ false = ground (arith, g.not_null) in
      let is_text : (s == null) ≡ false = ground (arith, nn) in
      (
        m2,
        rw is_text (rw (counted, shorter, size) (rw given (rw is_block refl))),
        copied m m1 m2 (len + 1) s len p g (λ i lt. t.inside i (omega (arith, lt)))
            (λ i lt. ground (arith, g.new)) (ground arith)
            (update_ne (memset m1 p len (len + 1)).cells p s _ g.new
              ∙ update_ne m1.cells p s _ g.new),
      )

  -- `ats_strdup` answers a new block with the whole string, `ats_strndup` one with its first `k`
  -- bytes or with all of a shorter string; both end the copy with a 0 and leave the original alone.
  -- (The string is not at NULL and its size fits into 64 bits, the fuel is more than its length, and
  -- the allocator gives blocks of the sizes asked for.)
  pub ats_strdup-strndup :
      (fuel : ℕ) (m : Memory S) (s n k p q : ℕ) (m1 m2 : Memory S)
      → s ≢ null
      → IsText (m.cells s) n
      → n < fuel
      → n + 1 < 2 ^ 64
      → Gives m (n + 1) s p m1
      → Gives m (min k n + 1) s q m2
      → ((m' : Memory S) × (ats_strdup fuel m s ≡ some (p, m')) × IsCopy m s n p m')
        × ((m' : Memory S) × (ats_strndup fuel m s k ≡ some (q, m')) × IsCopy m s (min k n) q m')
  ats_strdup-strndup fuel m s n k p q m1 m2 nn t enough small g h = (
    strdup_lem fuel m s n p m1 nn t enough small g,
    strndup_lem fuel m s n k q m2 nn t enough small h,
  )
