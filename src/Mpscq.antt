-- ===== src/Mpscq.antt =====
-- The multiple-producer queue of gRPC (src/engine/base/mpscq.c), which the bus and the context call
-- and which is not translated here: its operations, and what is relied on between whole calls. A
-- pop that finds a push half done returns NULL, as it does on an empty queue; with no push under
-- way it returns the oldest node.
use ats.Base.{ℕ, ◌≡◌, List, [], ◌∷◌, ◌++◌, null, refl}

pub record Mpscq (P : Type 0) : Type 1 where
  pub init : P
  pub push : P → ℕ → P
  pub pop : P → ℕ × P
  -- the nodes in the queue, the oldest first
  pub nodes : P → List ℕ
  pub nodes-init : nodes init ≡ []
  pub nodes-push : (p : P) (n : ℕ) → nodes (push p n) ≡ nodes p ++ (n ∷ [])
  pub pop-nil : (p : P) → nodes p ≡ [] → ((pop p).0 ≡ null) × (nodes (pop p).1 ≡ [])
  pub pop-cons :
      (p : P) (n : ℕ) (l : List ℕ) → nodes p ≡ n ∷ l → ((pop p).0 ≡ n) × (nodes (pop p).1 ≡ l)

unfoldable pub pop_list : List ℕ → ℕ × List ℕ
pop_list [] = (null, [])
pop_list (n ∷ l) = (n, l)

pub pop_list-nil : (p : List ℕ) → p ≡ [] → ((pop_list p).0 ≡ null) × ((pop_list p).1 ≡ [])
unfolding pop_list
pop_list-nil p e = rw e (refl, refl)

pub pop_list-cons :
    (p : List ℕ) (n : ℕ) (l : List ℕ) → p ≡ n ∷ l → ((pop_list p).0 ≡ n) × ((pop_list p).1 ≡ l)
unfolding pop_list
pop_list-cons p n l e = rw e (refl, refl)

-- A plain list meets the contract. It stands in for the queue in tests and examples.
instance abbrev pub list_queue : Mpscq (List ℕ)
list_queue = record {
  init = [];
  push = λ p n. p ++ (n ∷ []);
  pop = pop_list;
  nodes = λ p. p;
  nodes-init = refl;
  nodes-push = λ p n. refl;
  pop-nil = pop_list-nil;
  pop-cons = pop_list-cons;
}
