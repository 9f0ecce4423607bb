-- ===== src/Heap.antt =====
-- The intrusive binary min heap of libuv (src/engine/base/heap-inl.h), which the bus calls and which
-- is not translated here: its operations and what its documentation promises of them. A node is a
-- pointer. A heap is used within its contract when a node is inserted that it does not hold, or one
-- is removed that it holds, and `less_than` has not changed between the nodes in it.
pub mod Sorted
use ats.Base.{ℕ, suc, ◌+◌, ◌<◌, ◌≡◌, ◌≢◌, Bool, true, false, null, ◌==◌, if◌then◌else◌}

-- What the heap asks of `less_than`: a strict order in which neither of two nodes being less is
-- again an equivalence.
pub record IsOrder (less_than : ℕ → ℕ → Bool) : Type 0 where
  pub irrefl : (a : ℕ) → less_than a a ≡ false
  pub trans : (a b c : ℕ) → less_than a b ≡ true → less_than b c ≡ true → less_than a c ≡ true
  pub cotrans : (a b c : ℕ) → less_than a b ≡ false → less_than b c ≡ false → less_than a c ≡ false

pub record MinHeap (H : Type 0) : Type 1 where
  pub init : H
  pub min : H → ℕ
  pub insert : H → ℕ → (ℕ → ℕ → Bool) → H
  pub remove : H → ℕ → (ℕ → ℕ → Bool) → H
  pub nelts : H → ℕ
  -- how often a node is in the heap
  pub count : H → ℕ → ℕ
  -- the heap is well formed and in order
  pub IsHeap : (ℕ → ℕ → Bool) → H → Type 0
  pub count-init : (n : ℕ) → count init n ≡ 0
  pub nelts-init : nelts init ≡ 0
  pub init-IsHeap : (lt : ℕ → ℕ → Bool) → IsHeap lt init
  pub count_of_nelts : (h : H) (n : ℕ) → nelts h ≡ 0 → count h n ≡ 0
  pub min_null : (h : H) → nelts h ≡ 0 → min h ≡ null
  pub min_mem : (h : H) → nelts h ≢ 0 → 0 < count h (min h)
  pub min_least :
      (lt : ℕ → ℕ → Bool) (h : H) (n : ℕ)
      → IsOrder lt
      → IsHeap lt h
      → 0 < count h n
      → lt n (min h) ≡ false
  pub count-insert :
      (lt : ℕ → ℕ → Bool) (h : H) (n a : ℕ)
      → IsHeap lt h
      → count h n ≡ 0
      → count (insert h n lt) a ≡ (if n == a then 1 else 0) + count h a
  pub nelts-insert :
      (lt : ℕ → ℕ → Bool) (h : H) (n : ℕ)
      → IsHeap lt h
      → count h n ≡ 0
      → nelts (insert h n lt) ≡ suc (nelts h)
  pub insert-IsHeap :
      (lt : ℕ → ℕ → Bool) (h : H) (n : ℕ)
      → IsOrder lt
      → IsHeap lt h
      → count h n ≡ 0
      → IsHeap lt (insert h n lt)
  pub count-remove :
      (lt : ℕ → ℕ → Bool) (h : H) (n a : ℕ)
      → IsHeap lt h
      → 0 < count h n
      → count h a ≡ (if n == a then 1 else 0) + count (remove h n lt) a
  pub nelts-remove :
      (lt : ℕ → ℕ → Bool) (h : H) (n : ℕ)
      → IsHeap lt h
      → 0 < count h n
      → nelts h ≡ suc (nelts (remove h n lt))
  pub remove-IsHeap :
      (lt : ℕ → ℕ → Bool) (h : H) (n : ℕ)
      → IsOrder lt
      → IsHeap lt h
      → 0 < count h n
      → IsHeap lt (remove h n lt)
  -- only the order among the nodes in the heap matters
  pub IsHeap_agree :
      (lt lt' : ℕ → ℕ → Bool) (h : H)
      → IsHeap lt h
      → ((a b : ℕ) → 0 < count h a → 0 < count h b → lt a b ≡ lt' a b)
      → IsHeap lt' h
