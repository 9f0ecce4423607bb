-- ===== src/Bus/Attached.antt =====
-- src/engine/core/event_bus.c: the list of the attached queues of a bus.
use ats.Base.{
  ℕ, zero, suc, ◌+◌, ◌-◌, ◌≤◌, ◌<◌, ◌≡◌, ◌≢◌, refl, sym, ap, ap₂, ◌∙◌, Bool, false, Bool-cases, inl,
  inr, ◌&&◌, leb, ltb, ◌==◌, if◌then◌else◌, arith, null, List, [], ◌∷◌, length, get_or, set,
  get_or-set_self, get_or-set_ne, length-set,
}
use ats.World.{World, EventQueue}
use ats.Bus.Attach.{shift_down}

-- `f i`, `f (i + 1)` and so on, `n` of them
abbrev pub range_of : (ℕ → ℕ) → ℕ → ℕ → List ℕ
range_of f i zero = []
range_of f i (suc n) = f i ∷ range_of f (i + 1) n

-- A removal passes over the entry behind the one that is removed.
abbrev pub kept : (ℕ → Bool) → List ℕ → List ℕ
kept leaves [] = []
kept leaves (q ∷ []) = if leaves q then [] else q ∷ []
kept leaves (q ∷ r ∷ l) = if leaves q then r ∷ kept leaves l else q ∷ kept leaves (r ∷ l)

pub range_of_agree :
    (f g : ℕ → ℕ) (i j n : ℕ)
    → ((k : ℕ) → k < n → f (i + k) ≡ g (j + k))
    → range_of f i n ≡ range_of g j n
range_of_agree f g i j zero same = refl
range_of_agree f g i j (suc n) same =
    let here : i ≡ i + 0 = omega arith in
    let there : j + 0 ≡ j = omega arith in
    let first : f i ≡ g j = ap f here ∙ same 0 (omega arith) ∙ ap g there in
    ap₂ (λ x l. x ∷ l) first
      (range_of_agree f g (i + 1) (j + 1) n (λ k lt.
        let left : (i + 1) + k ≡ i + suc k = omega arith in
        let right : j + suc k ≡ (j + 1) + k = omega arith in
        ap f left ∙ same (suc k) (omega arith) ∙ ap g right))

pub length-shift_down : (left j : ℕ) (l : List ℕ) → length (shift_down left j l) ≡ length l
unfolding shift_down
length-shift_down zero j l = refl
length-shift_down (suc left) j l =
    length-shift_down left (j + 1) (set l j (get_or l (j + 1) null))
    ∙ length-set l j (get_or l (j + 1) null)

pub get_or-shift_down :
    (left j : ℕ) (l : List ℕ) (k : ℕ)
    → j + left < length l
    → get_or (shift_down left j l) k null
      ≡ (if leb j k && ltb k (j + left) then get_or l (k + 1) null else get_or l k null)
unfolding shift_down
get_or-shift_down zero j l k room = ground arith
get_or-shift_down (suc left) j l k room =
    let l' = set l j (get_or l (j + 1) null) in
    let rest =
      get_or-shift_down left (j + 1) l' k (omega (arith, length-set l j (get_or l (j + 1) null))) in
    let here : get_or l' j null ≡ get_or l (j + 1) null =
      get_or-set_self l j (get_or l (j + 1) null) null (omega arith) in
    let there : (a : ℕ) → j ≢ a → get_or l' a null ≡ get_or l a null =
      λ a ne. get_or-set_ne l j a (get_or l (j + 1) null) null ne in
    elim (Bool-cases (j == k)) [
      | inl h ↦
          let e : j ≡ k = ground arith in
          let moved : get_or l' k null ≡ get_or l (k + 1) null =
            ap (λ a. get_or l' a null) (sym e) ∙ here ∙ ap (λ a. get_or l (a + 1) null) e in
          ground (arith, rest, moved)
      | inr h ↦
          let ne : j ≢ k = λ e. ground arith in ground (arith, rest, there k ne, there (k + 1))
    ]

pub kept-stays :
    (leaves : ℕ → Bool) (q : ℕ) (l : List ℕ)
    → leaves q ≡ false
    → kept leaves (q ∷ l) ≡ q ∷ kept leaves l
kept-stays leaves q [] h = rw h refl
kept-stays leaves q (r ∷ l) h = rw h refl

pub range_of-first :
    (f : ℕ → ℕ) (i n : ℕ) → i < n → range_of f i (n - i) ≡ f i ∷ range_of f (i + 1) (n - (i + 1))
range_of-first f i n lt =
    let split : n - i ≡ suc (n - (i + 1)) = omega arith in ap (λ k. range_of f i k) split

abbrev pub by_ctx : (ℕ → EventQueue) → ℕ → ℕ → Bool
by_ctx queues dst q = (queues q).ctx == dst

module _ {H P : Type 0} where
  -- The attached queue at the index
  abbrev pub entry : World H P → ℕ → ℕ → ℕ
  entry w src i = get_or (w.contexts src).attached i null

  abbrev pub count : World H P → ℕ → ℕ
  count w src = (w.contexts src).attached_count

  -- The queues that the bus has attached
  abbrev pub attached_queues : World H P → ℕ → List ℕ
  attached_queues w src = range_of (entry w src) 0 (count w src)

  -- A queue of the bus `dst`
  abbrev pub leads_to : World H P → ℕ → ℕ → Bool
  leads_to w dst = by_ctx w.queues dst

  -- The array holds the queues that are counted, and none of them is NULL.
  pub record HasRoom (w : World H P) (src : ℕ) : Type 0 where
    pub room : count w src ≤ length (w.contexts src).attached
    pub not_null : (i : ℕ) → i < count w src → entry w src i ≢ null
