-- ===== src/Variant/Equal.antt =====
-- src/engine/base/variant.c: variant_equal and equality of values.
use ats.Base.{
  ℕ, ◌≡◌, ◌↔◌, refl, ap, ap₂, subst, Bool, true, false, ◌&&◌, List, [], ◌∷◌, ◌==◌, arith, length,
  ==_refl,
}
use ats.Variant.{
  Variant, Variants, Pairs, nil, boolean, positive_integer, negative_integer, float32, float64, str,
  bin, array, map, ext, unknown, end, item, last, pair, bytes_equal, variant_equal, array_equal,
  map_equal, array_size, map_size,
}

-- No floating-point number and no value of an unknown type is part of the value.
abbrev mutual
  pub IsPlain : Variant → Type 0
  IsPlain (float32 n) = ⊥
  IsPlain (float64 n) = ⊥
  IsPlain (unknown t n) = ⊥
  IsPlain (array xs) = ArePlain xs
  IsPlain (map ps) = ArePlainPairs ps
  IsPlain _ = Unit

  pub ArePlain : Variants → Type 0
  ArePlain end = Unit
  ArePlain (item x xs) = IsPlain x × ArePlain xs

  pub ArePlainPairs : Pairs → Type 0
  ArePlainPairs last = Unit
  ArePlainPairs (pair k v ps) = IsPlain k × IsPlain v × ArePlainPairs ps

bytes_equal_refl : (xs : List ℕ) → bytes_equal xs xs ≡ true
unfolding bytes_equal
bytes_equal_refl [] = refl
bytes_equal_refl (x ∷ xs) = ground (arith, bytes_equal_refl xs)

bytes_equal_eq : (xs ys : List ℕ) → length xs ≡ length ys → bytes_equal xs ys ≡ true → xs ≡ ys
unfolding bytes_equal
bytes_equal_eq [] [] n h = refl
bytes_equal_eq [] (y ∷ ys) n h = absurd (omega arith)
bytes_equal_eq (x ∷ xs) [] n h = absurd (omega arith)
bytes_equal_eq (x ∷ xs) (y ∷ ys) n h = ground (arith, bytes_equal_eq xs ys)

and_true : (a b : Bool) → a ≡ true → b ≡ true → (a && b) ≡ true
and_true a b p q = rw (p, q) refl

mutual
  unfolding variant_equal

  equal_refl : (f : ℕ → ℕ → Bool) (x : Variant) → IsPlain x → variant_equal f x x ≡ true
  equal_refl f nil p = refl
  equal_refl f (boolean true) p = refl
  equal_refl f (boolean false) p = refl
  equal_refl f (positive_integer n) p = ==_refl n
  equal_refl f (negative_integer n) p = ==_refl n
  equal_refl f (float32 n) p = absurd p
  equal_refl f (float64 n) p = absurd p
  equal_refl f (str xs) p = and_true _ _ (==_refl (length xs)) (bytes_equal_refl xs)
  equal_refl f (bin xs) p = and_true _ _ (==_refl (length xs)) (bytes_equal_refl xs)
  equal_refl f (array xs) p = and_true _ _ (==_refl (array_size xs)) (array_refl f xs p)
  equal_refl f (map ps) p = and_true _ _ (==_refl (map_size ps)) (map_refl f ps p)
  equal_refl f (ext t xs) p =
      and_true _ _ (==_refl (length xs)) (and_true _ _ (==_refl t) (bytes_equal_refl xs))
  equal_refl f (unknown t n) p = absurd p

  array_refl : (f : ℕ → ℕ → Bool) (xs : Variants) → ArePlain xs → array_equal f xs xs ≡ true
  array_refl f end p = refl
  array_refl f (item x xs) p = and_true _ _ (equal_refl f x p.0) (array_refl f xs p.1)

  map_refl : (f : ℕ → ℕ → Bool) (ps : Pairs) → ArePlainPairs ps → map_equal f ps ps ≡ true
  map_refl f last p = refl
  map_refl f (pair k v ps) p =
      and_true _ _ (and_true _ _ (equal_refl f k p.0) (equal_refl f v p.1)) (map_refl f ps p.2)

both : (a b : Bool) → (a && b) ≡ true → (a ≡ true) × (b ≡ true)
both a b h = ground arith

same : (m n : ℕ) → (m == n) ≡ true → m ≡ n
same m n h = ground arith

mutual
  unfolding variant_equal

  equal_eq : (f : ℕ → ℕ → Bool) (x y : Variant) → IsPlain x → variant_equal f x y ≡ true → x ≡ y
  equal_eq f nil nil p h = refl
  equal_eq f (boolean true) (boolean true) p h = refl
  equal_eq f (boolean true) (boolean false) p h = absurd (ground arith)
  equal_eq f (boolean false) (boolean true) p h = absurd (ground arith)
  equal_eq f (boolean false) (boolean false) p h = refl
  equal_eq f (positive_integer m) (positive_integer n) p h = ap positive_integer (same m n h)
  equal_eq f (negative_integer m) (negative_integer n) p h = ap negative_integer (same m n h)
  equal_eq f (float32 m) y p h = absurd p
  equal_eq f (float64 m) y p h = absurd p
  equal_eq f (unknown t n) y p h = absurd p
  equal_eq f (str xs) (str ys) p h =
      let (n, e) = both _ _ h in ap str (bytes_equal_eq xs ys (same _ _ n) e)
  equal_eq f (bin xs) (bin ys) p h =
      let (n, e) = both _ _ h in ap bin (bytes_equal_eq xs ys (same _ _ n) e)
  equal_eq f (ext s xs) (ext t ys) p h =
      let (n, te) = both _ _ h in
      let (q, e) = both _ _ te in ap₂ ext (same s t q) (bytes_equal_eq xs ys (same _ _ n) e)
  equal_eq f (array xs) (array ys) p h =
      let (n, e) = both _ _ h in ap array (array_eq f xs ys p (same _ _ n) e)
  equal_eq f (map ps) (map qs) p h =
      let (n, e) = both _ _ h in ap map (map_eq f ps qs p (same _ _ n) e)
  equal_eq f _ _ p h = absurd (ground arith)

  array_eq :
      (f : ℕ → ℕ → Bool) (xs ys : Variants)
      → ArePlain xs
      → array_size xs ≡ array_size ys
      → array_equal f xs ys ≡ true
      → xs ≡ ys
  array_eq f end end p n h = refl
  array_eq f end (item y ys) p n h = absurd (omega arith)
  array_eq f (item x xs) end p n h = absurd (omega arith)
  array_eq f (item x xs) (item y ys) p n h =
      let (a, b) = both _ _ h in
      ap₂ item (equal_eq f x y p.0 a) (array_eq f xs ys p.1 (omega arith) b)

  map_eq :
      (f : ℕ → ℕ → Bool) (ps qs : Pairs)
      → ArePlainPairs ps
      → map_size ps ≡ map_size qs
      → map_equal f ps qs ≡ true
      → ps ≡ qs
  map_eq f last last p n h = refl
  map_eq f last (pair k v qs) p n h = absurd (omega arith)
  map_eq f (pair k v ps) last p n h = absurd (omega arith)
  map_eq f (pair k v ps) (pair l u qs) p n h =
      let (kv, r) = both _ _ h in
      let (a, b) = both _ _ kv in
      rw (equal_eq f k l p.0 a, equal_eq f v u p.1 b, map_eq f ps qs p.2 (omega arith) r) refl

-- `variant_equal` answers true just for equal values, if no floating-point number and no value of
-- an unknown type is part of the first, whatever `==` on `double`s is.
pub variant_equal_iff :
    (f : ℕ → ℕ → Bool) (x y : Variant) → IsPlain x → (variant_equal f x y ≡ true) ↔ (x ≡ y)
variant_equal_iff f x y p =
    (equal_eq f x y p, λ e. subst (λ z. variant_equal f x z ≡ true) e (equal_refl f x p))
