-- ===== src/Pair.antt =====
-- A key, a value buffer, and the layout of a pair on the device: the length byte, the key, the rest.
-- `copy_key_to_value` and `keycmp_k_v` stand in src/hopscotch.c and, word for word, in
-- src/bigkv_index.c; the structures in include/request.h.
pub mod Compare
use Prim.Native.Nat.{compare, Ordering}
use udepot_hopscotch.Base.{
  ℕ, zero, suc, List, [], ◌∷◌, ◌==◌, if◌then◌else◌, get_or, take, drop, splice,
}

-- `struct key_struct`; `key` is the `char` array as bytes.
pub record KeyStruct : Type 0 where
  pub key : List ℕ
  pub len : ℕ
  pub hash_low : ℕ
  pub hash_high : ℕ

-- `struct val_struct`; `value` is the buffer as bytes.
pub record ValStruct : Type 0 where
  pub value : List ℕ
  pub len : ℕ

-- The two calls of `memcpy`: the length byte first, then `len` bytes of the key behind it.
unfoldable pub copy_key_to_value : KeyStruct → List ℕ → List ℕ
copy_key_to_value k value = splice (splice value 0 (k.len ∷ [])) 1 (take k.len k.key)

-- C's `strncmp`: at most `n` bytes, up to the first difference or a common NUL.
-- A read past the end of a list is a NUL.
unfoldable pub strncmp : ℕ → List ℕ → List ℕ → Ordering
strncmp zero a b = Ordering.eq
strncmp (suc n) a b =
    let rest = strncmp n (drop 1 a) (drop 1 b) in
    elim (compare (get_or a 0 0) (get_or b 0 0)) [
      | Ordering.lt ↦ Ordering.lt
      | Ordering.gt ↦ Ordering.gt
      | Ordering.eq ↦ if get_or a 0 0 == 0 then Ordering.eq else rest
    ]

-- The sign of the `int` that `keycmp_k_v` returns.
unfoldable pub keycmp_k_v : KeyStruct → List ℕ → Ordering
keycmp_k_v k value =
    if k.len == get_or value 0 0
    then strncmp k.len k.key (drop 1 value)
    else compare k.len (get_or value 0 0)
