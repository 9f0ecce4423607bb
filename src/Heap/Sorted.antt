-- ===== src/Heap/Sorted.antt =====
-- A heap that meets the contract of `ats.Heap`: a sorted list. It stands in for the binary heap in
-- tests and examples.
use ats.Base.{
  ℕ, suc, ◌+◌, ◌<◌, ◌≡◌, ◌≢◌, refl, Bool, true, false, List, [], ◌∷◌, arith, null, ◌==◌,
  if◌then◌else◌, length, sym, ◌∙◌, ==_refl,
}
use ats.Heap.{MinHeap, IsOrder}

unfoldable pub insert : List ℕ → ℕ → (ℕ → ℕ → Bool) → List ℕ
insert [] n lt = n ∷ []
insert (x ∷ xs) n lt = let rest = insert xs n lt in if lt n x then n ∷ x ∷ xs else x ∷ rest

unfoldable pub remove : List ℕ → ℕ → (ℕ → ℕ → Bool) → List ℕ
remove [] n lt = []
remove (x ∷ xs) n lt = let rest = remove xs n lt in if x == n then xs else x ∷ rest

unfoldable pub min : List ℕ → ℕ
min [] = null
min (x ∷ xs) = x

unfoldable pub count : List ℕ → ℕ → ℕ
count [] n = 0
count (x ∷ xs) n = (if x == n then 1 else 0) + count xs n

-- No node of the list is less than `x`.
abbrev pub IsLeast : (ℕ → ℕ → Bool) → ℕ → List ℕ → Type 0
IsLeast lt x [] = Unit {0}
IsLeast lt x (y ∷ ys) = (lt y x ≡ false) × IsLeast lt x ys

abbrev pub IsSorted : (ℕ → ℕ → Bool) → List ℕ → Type 0
IsSorted lt [] = Unit {0}
IsSorted lt (x ∷ xs) = IsLeast lt x xs × IsSorted lt xs

IsLeast-mem :
    (lt : ℕ → ℕ → Bool) (x n : ℕ) (l : List ℕ) → IsLeast lt x l → 0 < count l n → lt n x ≡ false
unfolding count
IsLeast-mem lt x n [] h m = absurd (omega arith)
IsLeast-mem lt x n (y ∷ ys) h m = ground (arith, IsLeast-mem lt x n ys h.1)

module _ (lt : ℕ → ℕ → Bool) where
  IsLeast-insert :
      (x n : ℕ) (l : List ℕ) → lt n x ≡ false → IsLeast lt x l → IsLeast lt x (insert l n lt)
  unfolding insert
  IsLeast-insert x n [] e h = (e, tt)
  IsLeast-insert x n (y ∷ ys) e h = ground (arith, IsLeast-insert x n ys e h.1)

  IsLeast-remove : (x n : ℕ) (l : List ℕ) → IsLeast lt x l → IsLeast lt x (remove l n lt)
  unfolding remove
  IsLeast-remove x n [] h = tt
  IsLeast-remove x n (y ∷ ys) h = ground (arith, IsLeast-remove x n ys h.1)

  IsLeast-below :
      (o : IsOrder lt) (x n : ℕ) (l : List ℕ) → lt n x ≡ true → IsLeast lt x l → IsLeast lt n l
  IsLeast-below o x n [] e h = tt
  IsLeast-below o x n (y ∷ ys) e h = (ground (arith, o.trans y n x), IsLeast-below o x n ys e h.1)

  pub insert-IsSorted :
      (l : List ℕ) (n : ℕ) → IsOrder lt → IsSorted lt l → IsSorted lt (insert l n lt)
  unfolding insert
  insert-IsSorted [] n o h = (tt, tt)
  insert-IsSorted (x ∷ xs) n o h = ground (
    arith,
    insert-IsSorted xs n o h.1,
    IsLeast-insert x n xs,
    IsLeast-below o x n xs,
    o.trans x n x,
    o.trans n x n,
    o.irrefl x,
    o.irrefl n,
  )

  pub remove-IsSorted : (l : List ℕ) (n : ℕ) → IsSorted lt l → IsSorted lt (remove l n lt)
  unfolding remove
  remove-IsSorted [] n h = tt
  remove-IsSorted (x ∷ xs) n h = ground (arith, remove-IsSorted xs n h.1, IsLeast-remove x n xs h.0)

  pub count-insert :
      (l : List ℕ) (n a : ℕ) → count (insert l n lt) a ≡ (if n == a then 1 else 0) + count l a
  unfolding insert count
  count-insert [] n a = ground arith
  count-insert (x ∷ xs) n a = ground (arith, count-insert xs n a)

  pub length-insert : (l : List ℕ) (n : ℕ) → length (insert l n lt) ≡ suc (length l)
  unfolding insert
  length-insert [] n = refl
  length-insert (x ∷ xs) n = ground (arith, length-insert xs n)

  pub count-remove :
      (l : List ℕ) (n a : ℕ)
      → 0 < count l n
      → count l a ≡ (if n == a then 1 else 0) + count (remove l n lt) a
  unfolding remove count
  count-remove [] n a h = absurd (omega arith)
  count-remove (x ∷ xs) n a h = ground (arith, count-remove xs n a)

  pub length-remove : (l : List ℕ) (n : ℕ) → 0 < count l n → length l ≡ suc (length (remove l n lt))
  unfolding remove count
  length-remove [] n h = absurd (omega arith)
  length-remove (x ∷ xs) n h = ground (arith, length-remove xs n)

pub count_of_length : (l : List ℕ) (n : ℕ) → length l ≡ 0 → count l n ≡ 0
unfolding count
count_of_length [] n h = refl
count_of_length (x ∷ xs) n h = absurd (omega arith)

pub min_null : (l : List ℕ) → length l ≡ 0 → min l ≡ null
unfolding min
min_null [] h = refl
min_null (x ∷ xs) h = absurd (omega arith)

pub min_mem : (l : List ℕ) → length l ≢ 0 → 0 < count l (min l)
unfolding min count
min_mem [] h = absurd (h refl)
min_mem (x ∷ xs) h = ground (arith, ==_refl x)

pub min_least :
    (lt : ℕ → ℕ → Bool) (l : List ℕ) (n : ℕ)
    → IsOrder lt
    → IsSorted lt l
    → 0 < count l n
    → lt n (min l) ≡ false
unfolding min count
min_least lt [] n o s h = absurd (omega arith)
min_least lt (x ∷ xs) n o s h = ground (arith, o.irrefl x, IsLeast-mem lt x n xs s.0)

IsLeast-agree :
    (lt lt' : ℕ → ℕ → Bool) (x : ℕ) (l : List ℕ)
    → IsLeast lt x l
    → ((a : ℕ) → 0 < count l a → lt a x ≡ lt' a x)
    → IsLeast lt' x l
unfolding count
IsLeast-agree lt lt' x [] h f = tt
IsLeast-agree lt lt' x (y ∷ ys) h f = (
  sym (f y (ground (arith, ==_refl y))) ∙ h.0,
  IsLeast-agree lt lt' x ys h.1 (λ a m. f a (omega (arith, m))),
)

pub IsSorted-agree :
    (lt lt' : ℕ → ℕ → Bool) (l : List ℕ)
    → IsSorted lt l
    → ((a b : ℕ) → 0 < count l a → 0 < count l b → lt a b ≡ lt' a b)
    → IsSorted lt' l
unfolding count
IsSorted-agree lt lt' [] h f = tt
IsSorted-agree lt lt' (x ∷ xs) h f = (
  IsLeast-agree lt lt' x xs h.0 (λ a m. f a x (omega (arith, m)) (ground (arith, ==_refl x))),
  IsSorted-agree lt lt' xs h.1 (λ a b m n. f a b (omega (arith, m)) (omega (arith, n))),
)

pub count-nil : (n : ℕ) → count [] n ≡ 0
unfolding count
count-nil n = refl

instance abbrev pub sorted_heap : MinHeap (List ℕ)
sorted_heap = record {
  init = [];
  min = min;
  insert = insert;
  remove = remove;
  nelts = length;
  count = count;
  IsHeap = IsSorted;
  count-init = count-nil;
  nelts-init = refl;
  init-IsHeap = λ lt. tt;
  count_of_nelts = count_of_length;
  min_null = min_null;
  min_mem = min_mem;
  min_least = min_least;
  count-insert = λ lt h n a _ _. count-insert lt h n a;
  nelts-insert = λ lt h n _ _. length-insert lt h n;
  insert-IsHeap = λ lt h n o s _. insert-IsSorted lt h n o s;
  count-remove = λ lt h n a _ m. count-remove lt h n a m;
  nelts-remove = λ lt h n _ m. length-remove lt h n m;
  remove-IsHeap = λ lt h n _ s _. remove-IsSorted lt h n s;
  IsHeap_agree = IsSorted-agree;
}
