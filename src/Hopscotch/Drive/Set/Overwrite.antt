-- ===== src/Hopscotch/Drive/Set/Overwrite.antt =====
-- What a request to set writes where the key is in the table already.
use Prim.Native.Nat.{Ordering}
use udepot_hopscotch.Base.{
  [], ◌∷◌, true, if◌then◌else◌, ℕ, suc, ◌≡◌, refl, none, some, List, arith, ◌∙◌, ap, length, splice,
  update,
}
use udepot_hopscotch.Pair.{keycmp_k_v, copy_key_to_value}
use udepot_hopscotch.Request.{ReqType, HopStep}
use udepot_hopscotch.Hopscotch.Table.{Table, slot, find_matching_tag}
use udepot_hopscotch.Hopscotch.Ops.{HopRequest, idx_of, tag_of}
use udepot_hopscotch.Hopscotch.Drive.{stored, run_set}
use udepot_hopscotch.Hopscotch.Drive.Set.{
  insert_start, after, new_entry, run_set-match, run_set-read,
}
use udepot_hopscotch.Hopscotch.Drive.Get.{pair_at, is_eq}

splice_all : (dst src : List ℕ) → length src ≡ length dst → splice dst 0 src ≡ src
splice_all [] [] e = refl
splice_all [] (b ∷ bs) e = absurd (omega arith)
splice_all (x ∷ xs) [] e = absurd (omega arith)
splice_all (x ∷ xs) (b ∷ bs) e = ap (λ t. b ∷ t) (splice_all xs bs (omega arith))

-- Where the first entry with the tag has the key, a new request to set it overwrites that entry, and
-- writes the pair that it read back: the read for the comparison goes to the buffer of the request's
-- own value, so that a value as long as the old pair is lost.
pub run_set-overwrite :
    {S : Type 0} (get_next_pba : S → ℕ → ℕ × S) (fetch : ℕ → ℕ → List ℕ) (ht : Table) (dev : S)
    (req : HopRequest) (o fuel : ℕ)
    → req.type ≡ ReqType.set
    → req.params ≡ none
    → find_matching_tag ht (idx_of req.key) 0 (tag_of req.key) ≡ some o
    → keycmp_k_v req.key (pair_at fetch ht req.key o) ≡ Ordering.eq
    → length (pair_at fetch ht req.key o) ≡ length req.value.value
    → run_set fetch get_next_pba (suc (suc fuel)) ht dev req
      ≡ stored
          (update ht (slot (idx_of req.key) o) (new_entry get_next_pba dev req.key req.value.len o))
          (get_next_pba dev req.value.len).1
          (new_entry get_next_pba dev req.key req.value.len o).pba
          (new_entry get_next_pba dev req.key req.value.len o).kv_size
          (copy_key_to_value req.key (pair_at fetch ht req.key o))
unfolding is_eq
run_set-overwrite get_next_pba fetch ht dev req o fuel set new tag key fits =
    run_set-read get_next_pba fetch ht dev (suc fuel) req (λ c. ground (arith, new)) o set
      (ap (λ (lo : ℕ). find_matching_tag ht (idx_of req.key) lo (tag_of req.key)) start ∙ tag)
    ∙ ap
        (λ b.
          if b
          then run_set fetch get_next_pba (suc fuel) ht dev (after fetch ht req o HopStep.key_match)
          else run_set fetch get_next_pba (suc fuel) ht dev
              (after fetch ht req o HopStep.key_mismatch))
        hit
    ∙ run_set-match get_next_pba fetch ht dev fuel (after fetch ht req o HopStep.key_match) refl
    ∙ ap
        (λ v.
          stored
            (update ht (slot (idx_of req.key) o)
              (new_entry get_next_pba dev req.key req.value.len o))
            (get_next_pba dev req.value.len).1
            (new_entry get_next_pba dev req.key req.value.len o).pba
            (new_entry get_next_pba dev req.key req.value.len o).kv_size
            (copy_key_to_value req.key v))
        buffer
  where
    start : insert_start req ≡ 0
    start = rw new

    buffer : splice req.value.value 0 (pair_at fetch ht req.key o) ≡ pair_at fetch ht req.key o
    buffer = splice_all req.value.value (pair_at fetch ht req.key o) fits

    hit : is_eq (keycmp_k_v req.key (splice req.value.value 0 (pair_at fetch ht req.key o))) ≡ true
    hit = rw (buffer, key)
