-- ===== src/Pair/Compare.antt =====
-- What `keycmp_k_v` decides, and that it recognises the pairs that `copy_key_to_value` lays out.
use Prim.Native.Nat.{Ordering}
use udepot_hopscotch.Base.{
  ℕ, zero, suc, ◌+◌, ◌≤◌, ◌<◌, ◌≡◌, ◌≢◌, ◌↔◌, refl, sym, ◌∙◌, List, [], ◌∷◌, arith, length, get_or,
  take, drop, splice, splice-nil, get_or-splice, get_or-take, length-take, get_or-drop_one,
}
use udepot_hopscotch.Pair.{KeyStruct, copy_key_to_value, strncmp, keycmp_k_v}

-- Every one of the first `n` bytes of `a` that has no NUL before it is the byte of `b` there:
-- what C calls equal strings.
abbrev pub SameText : ℕ → List ℕ → List ℕ → Type 0
SameText n a b =
    (i : ℕ) → i < n → ((j : ℕ) → j < i → get_or a j 0 ≢ 0) → get_or a i 0 ≡ get_or b i 0

strncmp-SameText : (n : ℕ) (a b : List ℕ) → strncmp n a b ≡ Ordering.eq → SameText n a b
unfolding strncmp
strncmp-SameText zero a b e i lt nul = absurd (omega arith)
strncmp-SameText (suc n) a b e zero lt nul = ground arith
strncmp-SameText (suc n) a b e (suc i) lt nul =
    rw (← get_or-drop_one a i 0, ← get_or-drop_one b i 0)
      (strncmp-SameText n (drop 1 a) (drop 1 b) (ground (arith, nul 0 (omega arith))) i
        (omega arith) (λ j h. rw get_or-drop_one (nul (suc j) (omega arith))))

SameText-strncmp : (n : ℕ) (a b : List ℕ) → SameText n a b → strncmp n a b ≡ Ordering.eq
unfolding strncmp
SameText-strncmp zero a b h = refl
SameText-strncmp (suc n) a b h = ground (
  arith,
  h 0 (omega arith) (λ j lt. absurd (omega arith)),
  λ (ne : get_or a 0 0 ≢ 0). SameText-strncmp n (drop 1 a) (drop 1 b) (tail ne),
)
  where
    before :
        get_or a 0 0 ≢ 0
        → (i : ℕ) → ((j : ℕ) → j < i → get_or (drop 1 a) j 0 ≢ 0)
        → (j : ℕ) → j < suc i
        → get_or a j 0 ≢ 0
    before ne i nul zero lt = ne
    before ne i nul (suc j) lt = rw (← get_or-drop_one a j 0) (nul j (omega arith))

    tail : get_or a 0 0 ≢ 0 → SameText n (drop 1 a) (drop 1 b)
    tail ne i lt nul =
        rw (get_or-drop_one a i 0, get_or-drop_one b i 0)
          (h (suc i) (omega arith) (before ne i nul))

-- A key that fits its array and, with its length byte, the buffer.
pub record Fits (k : KeyStruct) (value : List ℕ) : Type 0 where
  pub in_array : k.len ≤ length k.key
  pub in_buffer : k.len + 1 ≤ length value

copy_bytes :
    (k : KeyStruct) (value : List ℕ)
    → Fits k value
    → (get_or (copy_key_to_value k value) 0 0 ≡ k.len)
      × ((i : ℕ) → i < k.len → get_or (drop 1 (copy_key_to_value k value)) i 0 ≡ get_or k.key i 0)
unfolding copy_key_to_value
copy_bytes k [] f = absurd (omega arith)
copy_bytes k (x ∷ xs) f = (
  refl,
  λ i lt. rw splice-nil (
      get_or-splice xs (take k.len k.key) i 0 (omega (arith, length-take k.len k.key f.in_array))
        (omega (arith, length-take k.len k.key f.in_array))
      ∙ get_or-take k.len k.key i 0 lt),
)

-- `keycmp_k_v` on any buffer: the length byte, then the bytes behind it.
pub keycmp_k_v_iff :
    (q : KeyStruct) (v : List ℕ)
    → (keycmp_k_v q v ≡ Ordering.eq) ↔ ((q.len ≡ get_or v 0 0) × SameText q.len q.key (drop 1 v))
unfolding keycmp_k_v
keycmp_k_v_iff q v = (
  λ e. (ground arith, strncmp-SameText q.len q.key (drop 1 v) (ground arith)),
  λ h. ground (arith, h.0, SameText-strncmp q.len q.key (drop 1 v) h.1),
)

-- `keycmp_k_v` reports equality of the key `q` with the pair laid out for `k` exactly when the
-- lengths agree and C's string comparison cannot tell the keys apart.
pub keycmp_k_v-copy_key_to_value :
    (q k : KeyStruct) (value : List ℕ)
    → Fits k value
    → (keycmp_k_v q (copy_key_to_value k value) ≡ Ordering.eq)
      ↔ ((q.len ≡ k.len) × SameText k.len q.key k.key)
keycmp_k_v-copy_key_to_value q k value f = (
  λ e.
      let (same_len, same) = (keycmp_k_v_iff q stored).0 e in
      (
        same_len ∙ len_byte,
        λ i lt nul. same i (omega (arith, same_len, len_byte)) nul ∙ bytes i lt,
      ),
  λ h. (keycmp_k_v_iff q stored).1 (
    h.0 ∙ sym len_byte,
    λ i lt nul. let lt' : i < k.len = omega (arith, h.0) in h.1 i lt' nul ∙ sym (bytes i lt'),
  ),
)
  where
    stored : List ℕ
    stored = copy_key_to_value k value

    len_byte : get_or stored 0 0 ≡ k.len
    len_byte = (copy_bytes k value f).0

    bytes : (i : ℕ) → i < k.len → get_or (drop 1 stored) i 0 ≡ get_or k.key i 0
    bytes = (copy_bytes k value f).1

-- Only the bytes that are compared matter.
strncmp_ext :
    (n : ℕ) (a b b' : List ℕ)
    → ((i : ℕ) → i < n → get_or b i 0 ≡ get_or b' i 0)
    → strncmp n a b ≡ strncmp n a b'
unfolding strncmp
strncmp_ext zero a b b' h = refl
strncmp_ext (suc n) a b b' h =
    ground (arith, h 0 (omega arith), strncmp_ext n (drop 1 a) (drop 1 b) (drop 1 b') tail)
  where
    tail : (i : ℕ) → i < n → get_or (drop 1 b) i 0 ≡ get_or (drop 1 b') i 0
    tail i lt = rw (get_or-drop_one b i 0, get_or-drop_one b' i 0) (h (suc i) (omega arith))

-- A pair read to the front of a buffer that it fits compares as the pair does.
pub keycmp_k_v-splice :
    (k : KeyStruct) (buf bytes : List ℕ)
    → k.len < length bytes
    → length bytes ≤ length buf
    → keycmp_k_v k (splice buf 0 bytes) ≡ keycmp_k_v k bytes
unfolding keycmp_k_v
keycmp_k_v-splice k buf bytes long fits = rw (
  same 0 (omega arith),
  strncmp_ext k.len k.key (drop 1 (splice buf 0 bytes)) (drop 1 bytes) (λ i lt.
      rw (get_or-drop_one (splice buf 0 bytes) i 0, get_or-drop_one bytes i 0)
        (same (suc i) (omega arith))),
)
  where
    same : (i : ℕ) → i < length bytes → get_or (splice buf 0 bytes) i 0 ≡ get_or bytes i 0
    same i lt = get_or-splice buf bytes i 0 fits lt

-- Nothing behind the key matters.
pub keycmp_k_v_ext :
    (k : KeyStruct) (a b : List ℕ)
    → ((i : ℕ) → i < k.len + 1 → get_or a i 0 ≡ get_or b i 0)
    → keycmp_k_v k a ≡ keycmp_k_v k b
unfolding keycmp_k_v
keycmp_k_v_ext k a b same = rw (
  same 0 (omega arith),
  strncmp_ext k.len k.key (drop 1 a) (drop 1 b)
      (λ i lt. rw (get_or-drop_one a i 0, get_or-drop_one b i 0) (same (suc i) (omega arith))),
)
