-- ===== src/Hash.antt =====
-- src/engine/base/hash.c: tables from numbers or strings, over the hash tables of khash, which are a
-- parameter. `none` is a failed ASSERT.
use ats.Base.{
  Bool, ◌&&◌, ◌^◌, ℕ, List, [], Option, none, some, ltb, ◌==◌, if◌then◌else◌, null, require,
}

-- An iterator is the number of a bucket, and `kh_end` is none of them. `kh_put` answers an iterator
-- and the `ret` that it stores, an `int` as its bit pattern.
pub record Khash (M K V : Type 0) : Type 0 where
  pub kh_get : M → K → ℕ
  pub kh_end : M → ℕ
  pub kh_put : M → K → ℕ × ℕ × M
  pub kh_value : M → ℕ → V
  pub set_value : M → ℕ → V → M

-- `ret > 0`
abbrev pub is_positive : ℕ → Bool
is_positive ret = ltb 0 ret && ltb ret (2 ^ 31)

module _ {M K : Type 0} ⦃khash : Khash M K ℕ⦄ where
  -- `int_hash_get` and `str_hash_get`
  unfoldable pub hash_get : M → K → ℕ
  hash_get hash key =
      let iter = khash.kh_get hash key in
      if iter == khash.kh_end hash then null else khash.kh_value hash iter

  -- `int_hash_set` and `str_hash_set`
  unfoldable pub hash_set : M → K → ℕ → Option M
  hash_set hash key val =
      let (iter, ret, hash') = khash.kh_put hash key in
      require (is_positive ret) (some (khash.set_value hash' iter val))

-- A pointer to the list in a bucket is the iterator of the bucket, or `none` for NULL.
module _ {M K : Type 0} ⦃khash : Khash M K (List ℕ)⦄ where
  -- `int_hash_get_list` and `str_hash_get_list`
  unfoldable pub hash_get_list : M → K → Option ℕ
  hash_get_list hash key =
      let iter = khash.kh_get hash key in if iter == khash.kh_end hash then none else some iter

  -- `int_hash_get_or_create_list` and `str_hash_get_or_create_list`; QUEUE_INIT makes a list empty.
  unfoldable pub hash_get_or_create_list : M → K → Option (ℕ × M)
  hash_get_or_create_list hash key =
      let iter = khash.kh_get hash key in
      let (iter', ret, hash') = khash.kh_put hash key in
      if iter == khash.kh_end hash
      then require (is_positive ret) (some (iter', khash.set_value hash' iter' []))
      else some (iter, hash)
