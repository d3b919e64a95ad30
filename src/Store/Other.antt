-- ===== src/Store/Other.antt =====
-- What a request to set, of src/hopscotch.c over src/device.c, leaves of the pairs of other keys.
use Prim.Native.Nat.{Ordering}
use mathlib.Core.Path.{subst}
use udepot_hopscotch.Base.{
  ℕ, ◌+◌, ◌*◌, ◌/◌, ◌≤◌, ◌<◌, ◌≡◌, ◌≢◌, refl, inl, inr, none, List, arith, ◌∙◌, sym, ap, length,
  get_or,
}
use udepot_hopscotch.Pair.{KeyStruct, keycmp_k_v}
use udepot_hopscotch.Request.{ReqType}
use udepot_hopscotch.Hopscotch.Table.{Table, Entry, slot, fill_entry, max_hop, pba_invalid}
use udepot_hopscotch.Hopscotch.Table.Free.{FindsFree, find_free_entry-FindsFree}
use udepot_hopscotch.Hopscotch.Table.Place.{Holds, find_free_entry-Holds, update_ne}
use udepot_hopscotch.Hopscotch.Ops.{HopRequest, params_of, idx_of, tag_of}
use udepot_hopscotch.Hopscotch.Drive.{GetEnd, found, missing, stored, run_get, run_set}
use udepot_hopscotch.Hopscotch.Drive.Get.{pair_at, GetsFirst, run_get_total}
use udepot_hopscotch.Hopscotch.Drive.Set.{SetsFirst, new_entry}
use udepot_hopscotch.Hopscotch.Drive.Set.Every.{stored_all}
use udepot_hopscotch.Hopscotch.Drive.SetGet.{Hits}
use udepot_hopscotch.Device.{Dev, grain_unit, get_next_pba}
use udepot_hopscotch.Store.{fetch, write}
use udepot_hopscotch.Store.Sound.{
  IsSound, Reads, Reads-Delivers, IsSetRequest, sets, wrote, dev_after, reads_key, new_at,
  set-IsSound, keeps, grains,
}

-- The table has the pair of a key within the hop of the key, at its distance, and every entry whose tag and
-- pair are those of the key is for that pair.
pub record HasPair (dev : Dev) (ht : Table) (k : KeyStruct) (pba size : ℕ) : Type 0 where
  pub holds : Holds ht (idx_of k) (tag_of k) size pba
  pub live : pba ≢ pba_invalid
  pub same_key : keycmp_k_v k (fetch dev pba size) ≡ Ordering.eq
  pub only : (i : ℕ) → Hits (fetch dev) k (ht i) → ((ht i).pba ≡ pba) × ((ht i).kv_size ≡ size)

-- Where a request to get a key with one pair ends.
pub get-HasPair :
    (dev : Dev) (ht : Table) (got : HopRequest) (n pba size : ℕ)
    → IsSound dev ht
    → ((i : ℕ) → Reads got.key n (ht i))
    → HasPair dev ht got.key pba size
    → got.type ≡ ReqType.get
    → got.params ≡ none
    → n ≤ length got.value.value
    → (q : HopRequest) × (run_get (fetch dev) (max_hop + 1) ht got ≡ found q)
      × ((i : ℕ)
          → i < length (fetch dev pba size)
          → get_or q.value.value i 0 ≡ get_or (fetch dev pba size) i 0)
get-HasPair dev ht got n pba size sound reads has get new room =
    choose (run_get (fetch dev) (max_hop + 1) ht got) (
      run_get_total (fetch dev) ht got get new
        (Reads-Delivers dev ht got n sound.ranges room reads))
  where
    choose :
        (end : GetEnd)
        → GetsFirst (fetch dev) ht got.key 0 end
        → (q : HopRequest) × (end ≡ found q)
          × ((i : ℕ)
              → i < length (fetch dev pba size)
              → get_or q.value.value i 0 ≡ get_or (fetch dev pba size) i 0)
    choose (found q) (first, front) =
        let there = slot (idx_of got.key) (params_of q).offset in
        let (p, s) = has.only there (first.2) in
        (
          q,
          refl,
          subst (λ bytes. (i : ℕ) → i < length bytes → get_or q.value.value i 0 ≡ get_or bytes i 0)
              (λ j. fetch dev (p j) (s j)) front,
        )
    choose (missing q) none_there =
        let (o, (near, e)) = has.holds in
        let there = slot (idx_of got.key) o in
        absurd (
          none_there o (omega arith) near (
            ap (λ (x : Entry). x.key_fp_tag) e,
            ap (λ (x : Entry). keycmp_k_v got.key (fetch dev x.pba x.kv_size)) e ∙ has.same_key,
          ))
    choose GetEnd.unfinished h = absurd h

-- An entry that a request to set writes, at an offset of its hop.
new_off :
    (dev : Dev) (k : KeyStruct) (len o : ℕ)
    → o < max_hop
    → (new_entry get_next_pba dev k len o).neigh_off ≡ o
unfolding fill_entry
new_off dev k len o near = omega arith

module _ (dev : Dev) (ht ht' : Table) (req : HopRequest) (n : ℕ) (sound : IsSound dev ht)
    (more : dev.staged_seg_idx + 1 < dev.nr_segment) (r : IsSetRequest req n)
    (reads : (i : ℕ) → Reads req.key n (ht i)) (dev' : Dev) (pba size : ℕ) (value : List ℕ)
    (run : run_set (fetch dev) get_next_pba (max_hop + 2) ht dev req
      ≡ stored ht' dev' pba size value)
    (k : KeyStruct) (pba_k size_k : ℕ)
    (apart : (bytes : List ℕ)
      → keycmp_k_v req.key bytes ≡ Ordering.eq
      → keycmp_k_v k bytes ≡ Ordering.eq
      → ⊥)
    (has : HasPair dev ht k pba_k size_k) where
  abbrev pub later : Dev
  later = dev_after dev ht ht' req n sound more r reads dev' pba size value run

  pub same_pair : fetch later pba_k size_k ≡ fetch dev pba_k size_k
  same_pair =
      let (o, (near, e)) = has.holds in
      sym (ap (λ (x : Entry). fetch later x.pba x.kv_size) e)
      ∙ keeps dev ht ht' req n sound more r reads dev' pba size value run (slot (idx_of k) o)
      ∙ ap (λ (x : Entry). fetch dev x.pba x.kv_size) e

  still-Holds :
      SetsFirst get_next_pba (fetch dev) ht dev req 0 (stored ht' dev' pba size value)
      → Holds ht' (idx_of k) (tag_of k) size_k pba_k
  still-Holds (inl (o, first, w)) =
      let (o', (near, e)) = has.holds in
      let there = slot (idx_of k) o' in
      let ne : there ≢ slot (idx_of req.key) o = λ q.
        apart (pair_at (fetch dev) ht req.key o) (first.2).1 (
          ap (λ j. keycmp_k_v k (fetch dev (ht j).pba (ht j).kv_size)) (sym q)
          ∙ ap (λ (x : Entry). keycmp_k_v k (fetch dev x.pba x.kv_size)) e
          ∙ has.same_key) in
      (o', (near, ap (λ (t : Table). t there) w.table ∙ update_ne ht _ there _ ne ∙ e))
  still-Holds (inr (no_match, (free, base, e, w))) =
      let near : free < max_hop =
        (subst (FindsFree ht (idx_of req.key)) e
          (find_free_entry-FindsFree ht (idx_of req.key) sound.ranges)).0 in
      subst (λ (t : Table). Holds t (idx_of k) (tag_of k) size_k pba_k) (sym w.table)
        ((find_free_entry-Holds ht (idx_of req.key) free base
            (new_entry get_next_pba dev req.key req.value.len free) sound.ranges (omega arith) e
            (new_off dev req.key req.value.len free near) (idx_of k) (tag_of k) size_k pba_k
            (omega arith) has.live).1
          (inr has.holds))

  -- An entry that is a hit afterwards is for the pair of before.
  abbrev OnlyAfter : Entry → Type 0
  OnlyAfter e = Hits (fetch later) k e → (e.pba ≡ pba_k) × (e.kv_size ≡ size_k)

  only_after : (i : ℕ) → OnlyAfter (ht' i)
  only_after =
      stored_all OnlyAfter ht sound.ranges old (λ i d near. old i) get_next_pba (fetch dev) dev req
        (λ o h. absurd (
          apart (fetch later pba size)
            (reads_key dev ht ht' req n sound more r reads dev' pba size value run)
            (let (p, g) = new_at dev ht ht' req n sound more r reads dev' pba size value run o in
              sym (
                ap
                  (λ a.
                    keycmp_k_v k
                      (fetch later a (new_entry get_next_pba dev req.key req.value.len o).kv_size))
                  p
                ∙ ap (λ b. keycmp_k_v k (fetch later pba b)) g)
              ∙ h.1)))
        (sets dev ht ht' req n sound more r reads dev' pba size value run)
    where
      old : (i : ℕ) → OnlyAfter (ht i)
      old i (tag, e) = has.only i (
        tag,
        ap (keycmp_k_v k)
              (sym (keeps dev ht ht' req n sound more r reads dev' pba size value run i))
            ∙ e,
      )

  pub later-HasPair : HasPair later ht' k pba_k size_k
  later-HasPair = record {
    holds = still-Holds (sets dev ht ht' req n sound more r reads dev' pba size value run);
    live = has.live;
    same_key = ap (keycmp_k_v k) same_pair ∙ has.same_key;
    only = only_after;
  }

-- Let every read of the device succeed and see the writes that were submitted before it. Let the
-- device be valid, of less than 2 ^ 47 bytes and with a segment left; let the entries of the
-- table be in the ranges of their bits, and each have no grains, or a pair that lies below the
-- head of the log and not across the start of the staged segment. Let the table hold one pair of
-- a key, and let a new request to set store a pair of another key, one that no bytes have in
-- common with it: a key that fits its array and the whole grains of its pair, which is shorter
-- than 2 ^ 18 bytes. Let every entry with the tag of either key stand for a pair that is longer
-- than that key and no longer than the buffer of the request for it, and the whole grains of the
-- new pair be longer than the first key and fit the buffer of the request to get. Once the new
-- pair is written, the table holds the pair of the first key as before, and a new request to get
-- it ends with the bytes that the pair had.
pub set_then_get-other :
    (dev : Dev) (ht : Table) (req got : HopRequest) (n m : ℕ)
    → IsSound dev ht
    → dev.staged_seg_idx + 1 < dev.nr_segment
    → IsSetRequest req n
    → ((i : ℕ) → Reads req.key n (ht i))
    → ((i : ℕ) → Reads got.key m (ht i))
    → got.key.len < req.value.len / grain_unit * grain_unit
    → req.value.len / grain_unit * grain_unit ≤ m
    → (ht' : Table) (dev' : Dev) (pba size : ℕ) (value : List ℕ)
    → run_set (fetch dev) get_next_pba (max_hop + 2) ht dev req ≡ stored ht' dev' pba size value
    → ((bytes : List ℕ)
        → keycmp_k_v req.key bytes ≡ Ordering.eq
        → keycmp_k_v got.key bytes ≡ Ordering.eq
        → ⊥)
    → (pba_k size_k : ℕ) → HasPair dev ht got.key pba_k size_k
    → got.type ≡ ReqType.get
    → got.params ≡ none
    → m ≤ length got.value.value
    → HasPair (write dev' pba size value) ht' got.key pba_k size_k
      × ((q : HopRequest) × (run_get (fetch (write dev' pba size value)) (max_hop + 1) ht' got
            ≡ found q)
          × ((i : ℕ)
              → i < length (fetch dev pba_k size_k)
              → get_or q.value.value i 0 ≡ get_or (fetch dev pba_k size_k) i 0))
set_then_get-other dev ht req got n m sound more r reads reads_k long whole ht' dev' pba size value
      run apart pba_k size_k has get new room =
    let as_written = wrote dev ht ht' req n sound more r reads dev' pba size value run in
    let has' =
      subst (λ d. HasPair d ht' got.key pba_k size_k) as_written
        (later-HasPair dev ht ht' req n sound more r reads dev' pba size value run got.key pba_k
          size_k apart has) in
    let (q, end, front) =
      get-HasPair (write dev' pba size value) ht' got m pba_k size_k
        (set-IsSound dev ht ht' req n sound more r reads dev' pba size value run)
        (stored_all (Reads got.key m) ht sound.ranges reads_k (λ i d near. reads_k i) get_next_pba
          (fetch dev) dev req
          (λ o tag.
            let g = (new_at dev ht ht' req n sound more r reads dev' pba size value run o).1 in
            let s = grains dev ht ht' req n sound more r reads dev' pba size value run in
            (omega (arith, g, s, long), omega (arith, g, s, whole)))
          (sets dev ht ht' req n sound more r reads dev' pba size value run))
        has' get new room in
    (
      has',
      (
        q,
        end,
        subst (λ bytes. (i : ℕ) → i < length bytes → get_or q.value.value i 0 ≡ get_or bytes i 0)
            (ap (λ d. fetch d pba_k size_k) (sym as_written)
              ∙ same_pair dev ht ht' req n sound more r reads dev' pba size value run got.key pba_k
                  size_k apart has)
            front,
      ),
    )
