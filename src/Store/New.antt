-- ===== src/Store/New.antt =====
-- What a request to set a key that the table does not have, of src/hopscotch.c over src/device.c, leaves.
use mathlib.Core.Path.{subst}
use udepot_hopscotch.Base.{ℕ, ◌+◌, ◌/◌, ◌<◌, ◌≡◌, inl, inr, List, arith, ◌∙◌, sym, ap}
use udepot_hopscotch.Pair.{KeyStruct, keycmp_k_v}
use udepot_hopscotch.Hopscotch.Table.{Table, Entry, slot, max_hop}
use udepot_hopscotch.Hopscotch.Table.Free.{FindsFree, find_free_entry-FindsFree}
use udepot_hopscotch.Hopscotch.Table.Place.{Holds, fill_in_range, update_self}
use udepot_hopscotch.Hopscotch.Ops.{HopRequest, idx_of, tag_of}
use udepot_hopscotch.Hopscotch.Drive.{stored, run_set}
use udepot_hopscotch.Hopscotch.Drive.Set.{SetsFirst, new_entry}
use udepot_hopscotch.Hopscotch.Drive.Set.Every.{stored_all}
use udepot_hopscotch.Hopscotch.Drive.SetGet.{Hits}
use udepot_hopscotch.Device.{Dev, grain_unit, get_next_pba}
use udepot_hopscotch.Store.{fetch, write}
use udepot_hopscotch.Store.Sound.{
  IsSound, Reads, IsSetRequest, sets, wrote, dev_after, reads_key, new_at, keeps, below, at, grains,
}
use udepot_hopscotch.Store.Other.{HasPair}

module _ (dev : Dev) (ht ht' : Table) (req : HopRequest) (n : ℕ) (sound : IsSound dev ht)
    (more : dev.staged_seg_idx + 1 < dev.nr_segment) (r : IsSetRequest req n)
    (reads : (i : ℕ) → Reads req.key n (ht i)) (dev' : Dev) (pba size : ℕ) (value : List ℕ)
    (run : run_set (fetch dev) get_next_pba (max_hop + 2) ht dev req
      ≡ stored ht' dev' pba size value)
    (fresh : (i : ℕ) → Hits (fetch dev) req.key (ht i) → ⊥) where
  abbrev k : KeyStruct
  k = req.key

  abbrev later : Dev
  later = dev_after dev ht ht' req n sound more r reads dev' pba size value run

  abbrev new : ℕ → Entry
  new o = new_entry get_next_pba dev k req.value.len o

  new_is :
      (o : ℕ)
      → o < max_hop
      → new o ≡ record { neigh_off = o; key_fp_tag = tag_of k; kv_size = size; pba = pba }
  new_is o near =
      let low = below dev ht ht' req n sound more r reads dev' pba size value run in
      fill_in_range o (tag_of k) (req.value.len / grain_unit) (get_next_pba dev req.value.len).0
        near (omega arith) (omega (arith, r.small)) (omega (arith, low))
      ∙ sym (λ i. record {
        neigh_off = o;
        key_fp_tag = tag_of k;
        kv_size = grains dev ht ht' req n sound more r reads dev' pba size value run i;
        pba = at dev ht ht' req n sound more r reads dev' pba size value run i;
      })

  new-Holds :
      SetsFirst get_next_pba (fetch dev) ht dev req 0 (stored ht' dev' pba size value)
      → Holds ht' (idx_of k) (tag_of k) size pba
  new-Holds (inl (o, first, w)) = absurd (fresh (slot (idx_of k) o) (first.2))
  new-Holds (inr (no_match, (free, base, e, w))) =
      let near : free < max_hop =
        (subst (FindsFree ht (idx_of k)) e
          (find_free_entry-FindsFree ht (idx_of k) sound.ranges)).0 in
      (
        free,
        (
          near,
          ap (λ (t : Table). t (slot (idx_of k) free)) w.table
              ∙ update_self base (slot (idx_of k) free) (new free)
              ∙ new_is free near,
        ),
      )

  only_new : (i : ℕ) → Hits (fetch later) k (ht' i) → ((ht' i).pba ≡ pba) × ((ht' i).kv_size ≡ size)
  only_new =
      stored_all (λ e. Hits (fetch later) k e → (e.pba ≡ pba) × (e.kv_size ≡ size)) ht sound.ranges
        old (λ i d near. old i) get_next_pba (fetch dev) dev req
        (λ o h. new_at dev ht ht' req n sound more r reads dev' pba size value run o)
        (sets dev ht ht' req n sound more r reads dev' pba size value run)
    where
      old : (i : ℕ) → Hits (fetch later) k (ht i) → ((ht i).pba ≡ pba) × ((ht i).kv_size ≡ size)
      old i (tag, e) = absurd (
          fresh i (
            tag,
            ap (keycmp_k_v k)
                  (sym (keeps dev ht ht' req n sound more r reads dev' pba size value run i))
                ∙ e,
          ))

  pub new-HasPair : HasPair later ht' k pba size
  new-HasPair = record {
    holds = new-Holds (sets dev ht ht' req n sound more r reads dev' pba size value run);
    live = omega (
      arith,
      below dev ht ht' req n sound more r reads dev' pba size value run,
      at dev ht ht' req n sound more r reads dev' pba size value run,
    );
    same_key = reads_key dev ht ht' req n sound more r reads dev' pba size value run;
    only = only_new;
  }

-- A request to set a key that no entry of the table is for leaves one pair of that key, once it is written.
pub run_set-HasPair :
    (dev : Dev) (ht : Table) (req : HopRequest) (n : ℕ)
    → IsSound dev ht
    → dev.staged_seg_idx + 1 < dev.nr_segment
    → IsSetRequest req n
    → ((i : ℕ) → Reads req.key n (ht i))
    → (ht' : Table) (dev' : Dev) (pba size : ℕ) (value : List ℕ)
    → run_set (fetch dev) get_next_pba (max_hop + 2) ht dev req ≡ stored ht' dev' pba size value
    → ((i : ℕ) → Hits (fetch dev) req.key (ht i) → ⊥)
    → HasPair (write dev' pba size value) ht' req.key pba size
run_set-HasPair dev ht req n sound more r reads ht' dev' pba size value run fresh =
    subst (λ d. HasPair d ht' req.key pba size)
      (wrote dev ht ht' req n sound more r reads dev' pba size value run)
      (new-HasPair dev ht ht' req n sound more r reads dev' pba size value run fresh)
