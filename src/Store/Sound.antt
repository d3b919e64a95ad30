-- ===== src/Store/Sound.antt =====
-- A request to set of src/hopscotch.c over the log of src/device.c: what the table and the device are after it.
use Prim.Native.Nat.{Ordering}
use mathlib.Core.Path.{subst}
use udepot_hopscotch.Base.{
  ℕ, ◌+◌, ◌*◌, ◌/◌, ◌%◌, ◌^◌, ◌≤◌, ◌<◌, ◌≡◌, refl, inl, inr, none, List, arith, ◌∙◌, sym, ap,
  length, get_or,
}
use udepot_hopscotch.Pair.{KeyStruct, keycmp_k_v}
use udepot_hopscotch.Pair.Compare.{keycmp_k_v_ext}
use udepot_hopscotch.Request.{ReqType}
use udepot_hopscotch.Hopscotch.Table.{Table, Entry, fill_entry, max_hop, pba_invalid}
use udepot_hopscotch.Hopscotch.Table.Free.{InRange}
use udepot_hopscotch.Hopscotch.Ops.{HopRequest, tag_of, idx_of}
use udepot_hopscotch.Hopscotch.Drive.{stored, run_set}
use udepot_hopscotch.Hopscotch.Drive.Get.{Delivers}
use udepot_hopscotch.Hopscotch.Drive.Set.{Writes, SetsFirst, new_entry}
use udepot_hopscotch.Hopscotch.Drive.Set.Total.{run_set_total}
use udepot_hopscotch.Hopscotch.Drive.Set.Every.{stored_all}
use udepot_hopscotch.Device.{Dev, segment_size, grain_unit, get_next_pba, dev_abs_write}
use udepot_hopscotch.Device.Alloc.{IsValid, get_next_pba-ascends}
use udepot_hopscotch.Store.{fetch, write, IsKept}
use udepot_hopscotch.Store.Fetch.{get_or-bytes_from, length-fetch}
use udepot_hopscotch.Store.Write.{
  after, after-IsValid, after-IsKept, grain_lt, fetch-after, fetch-new, new-Lies,
}

-- A valid device of less than 2 ^ 47 bytes, whose grains an entry can name, and a table whose entries have
-- their pairs in its log.
pub record IsSound (dev : Dev) (ht : Table) : Type 0 where
  pub valid : IsValid dev
  pub few : dev.nr_segment < 2 ^ 26
  pub ranges : (i : ℕ) → InRange (ht i)
  pub kept : (i : ℕ) → IsKept dev (ht i)

-- A pair read for the tag of the key holds a key as long, and fits a buffer of `n` bytes.
abbrev pub Reads : KeyStruct → ℕ → Entry → Type 0
Reads k n e =
    e.key_fp_tag ≡ tag_of k → (k.len < e.kv_size * grain_unit) × (e.kv_size * grain_unit ≤ n)

-- A new request to set a value of `len` bytes, in a buffer of `n` bytes or more: the key fits its array and
-- the whole grains of the pair, and the pair fits the bits of the size.
pub record IsSetRequest (req : HopRequest) (n : ℕ) : Type 0 where
  pub set : req.type ≡ ReqType.set
  pub new : req.params ≡ none
  pub in_array : req.key.len ≤ length req.key.key
  pub small : req.value.len < 2 ^ 18
  pub holds_key : req.key.len < req.value.len / grain_unit * grain_unit
  pub whole : req.value.len / grain_unit * grain_unit ≤ n
  pub buffer : n ≤ length req.value.value

pub Reads-Delivers :
    (dev : Dev) (ht : Table) (req : HopRequest) (n : ℕ)
    → ((i : ℕ) → InRange (ht i))
    → n ≤ length req.value.value
    → ((i : ℕ) → Reads req.key n (ht i))
    → Delivers (fetch dev) ht req
Reads-Delivers dev ht req n ranges fits reads o near tag =
    let e = ht ((idx_of req.key + o) % 2 ^ 27) in
    let r = reads ((idx_of req.key + o) % 2 ^ 27) tag in
    let long = length-fetch dev e.pba e.kv_size in
    let few = (ranges ((idx_of req.key + o) % 2 ^ 27)).kv_size in
    (omega (arith, long, few, r.0), omega (arith, long, few, r.1, fits))

-- The writes of a request that stored its pair.
abbrev pub Stores : Dev → HopRequest → Table → Dev → ℕ → ℕ → List ℕ → Type 0
Stores dev req ht' dev' pba size value =
    (base : Table) × (o : ℕ) × Writes get_next_pba dev req.key req.value.len base o ht' dev' pba
      size value

SetsFirst-Stores :
    (dev : Dev) (ht : Table) (req : HopRequest) {ht' : Table} {dev' : Dev} {pba size : ℕ}
    {value : List ℕ}
    → SetsFirst get_next_pba (fetch dev) ht dev req 0 (stored ht' dev' pba size value)
    → Stores dev req ht' dev' pba size value
SetsFirst-Stores dev ht req (inl (o, first, w)) = (ht, o, w)
SetsFirst-Stores dev ht req (inr (no_match, (free, base, e, w))) = (base, free, w)

module _ (dev : Dev) (ht ht' : Table) (req : HopRequest) (n : ℕ) (sound : IsSound dev ht)
    (more : dev.staged_seg_idx + 1 < dev.nr_segment) (r : IsSetRequest req n)
    (reads : (i : ℕ) → Reads req.key n (ht i)) (dev' : Dev) (pba size : ℕ) (value : List ℕ)
    (run : run_set (fetch dev) get_next_pba (max_hop + 2) ht dev req
      ≡ stored ht' dev' pba size value) where
  abbrev pub len : ℕ
  len = req.value.len

  pub sets : SetsFirst get_next_pba (fetch dev) ht dev req 0 (stored ht' dev' pba size value)
  sets = subst (SetsFirst get_next_pba (fetch dev) ht dev req 0) run (
      run_set_total get_next_pba (fetch dev) ht dev req r.set r.new r.in_array
        (omega (arith, r.holds_key, r.whole, r.buffer))
        (Reads-Delivers dev ht req n sound.ranges r.buffer reads))

  pub stores : Stores dev req ht' dev' pba size value
  stores = SetsFirst-Stores dev ht req sets

  pub small : len ≤ segment_size
  small = omega (arith, r.small)

  pub below : (get_next_pba dev len).0 < pba_invalid
  below =
      grain_lt dev len (get_next_pba dev len).0 (len / grain_unit) value sound.valid small more refl
        (omega arith) sound.few

  -- What the new entry says of the pair.
  pub at : pba ≡ (get_next_pba dev len).0
  unfolding fill_entry
  at = omega (arith, stores.2.at, below)

  pub grains : size ≡ len / grain_unit
  unfolding fill_entry
  grains = omega (arith, stores.2.grains, r.small)

  pub fits : size * grain_unit ≤ len
  fits = omega (arith, grains)

  pub pos : 0 < size
  pos = omega (arith, grains, r.holds_key)

  abbrev pub dev_after : Dev
  dev_after = after dev len pba size value sound.valid small more at fits

  pub wrote : dev_after ≡ write dev' pba size value
  wrote = ap (λ d. write d pba size value) (sym stores.2.allocated)

  new_InRange : (o : ℕ) → InRange (new_entry get_next_pba dev req.key len o)
  unfolding fill_entry
  new_InRange o = record {
    neigh_off = omega arith;
    key_fp_tag = omega arith;
    kv_size = omega arith;
    pba = omega arith;
  }

  -- The new entry has the grain and the size of the pair.
  pub new_at :
      (o : ℕ)
      → ((new_entry get_next_pba dev req.key len o).pba ≡ pba)
        × ((new_entry get_next_pba dev req.key len o).kv_size ≡ size)
  unfolding fill_entry
  new_at o = (sym stores.2.at, sym stores.2.grains)

  pub set-IsSound : IsSound (write dev' pba size value) ht'
  unfolding dev_abs_write
  set-IsSound =
      subst (λ d. IsSound d ht') wrote
        (record {
          valid = after-IsValid dev len pba size value sound.valid small more at fits;
          few = omega (arith, (get_next_pba-ascends dev len sound.valid small more).2, sound.few);
          ranges =
              stored_all InRange ht sound.ranges sound.ranges
                (λ i d near.
                  let e = sound.ranges i in
                  record {
                    neigh_off = near;
                    key_fp_tag = e.key_fp_tag;
                    kv_size = e.kv_size;
                    pba = e.pba;
                  })
                get_next_pba (fetch dev) dev req new_InRange sets;
          kept =
              stored_all (IsKept dev_after) ht sound.ranges old
                (λ i d near. elim (old i) [
                  | inl nothing ↦ inl nothing
                  | inr l ↦ inr (record { in_log = l.in_log; one_segment = l.one_segment })
                ])
                get_next_pba (fetch dev) dev req
                (λ o. inr (
                  new-Lies dev len pba size value sound.valid small more at fits _ (new_at o).0
                    (new_at o).1))
                sets;
        })
    where
      old : (i : ℕ) → IsKept dev_after (ht i)
      old i =
          after-IsKept dev len pba size value sound.valid small more at fits (ht i) (sound.kept i)

  pub set-Reads : (i : ℕ) → Reads req.key n (ht' i)
  set-Reads =
      stored_all (Reads req.key n) ht sound.ranges reads (λ i d near. reads i) get_next_pba
        (fetch dev) dev req
        (λ o tag. (
          omega (arith, (new_at o).1, grains, r.holds_key),
          omega (arith, (new_at o).1, grains, r.whole),
        ))
        sets

  -- The pair that is read back is the one that was written.
  pub back :
      (i : ℕ) → i < size * grain_unit → get_or (fetch dev_after pba size) i 0 ≡ get_or value i 0
  back i near =
      ap (λ (l : List ℕ). get_or l i 0)
        (fetch-new dev len pba size value sound.valid small more at fits pos)
      ∙ get_or-bytes_from (λ j. get_or value j 0) 0 (size * grain_unit) i near
      ∙ ap (λ j. get_or value j 0) (omega arith)

  pub reads_key : keycmp_k_v req.key (fetch dev_after pba size) ≡ Ordering.eq
  reads_key =
      keycmp_k_v_ext req.key (fetch dev_after pba size) value
        (λ i near. back i (omega (arith, grains, r.holds_key)))
      ∙ stores.2.has_key

  pub new-length : length (fetch dev_after pba size) ≡ len / grain_unit * grain_unit
  new-length = omega (arith, length-fetch dev_after pba size, grains, r.small)

  -- The pairs of the other entries are read as they were.
  pub keeps :
      (i : ℕ) → fetch dev_after (ht i).pba (ht i).kv_size ≡ fetch dev (ht i).pba (ht i).kv_size
  keeps i =
      fetch-after dev len pba size value sound.valid small more at fits (ht i)
        (sound.ranges i).kv_size (sound.kept i)

-- Let every read of the device succeed and see the writes that were submitted before it. Let the
-- device be valid, of less than 2 ^ 47 bytes and with a segment left, let the entries of the
-- table be in the ranges of their bits and have their pairs in its log, and let the pairs that
-- are read for the tag of the key hold a key as long and fit the buffer. After a new request to
-- set, whose key fits its array and its pair, and whose pair is shorter than 2 ^ 18 bytes, has
-- stored its pair and the pair is written, all that but the segment left is so again.
pub run_set-IsSound :
    (dev : Dev) (ht : Table) (req : HopRequest) (n : ℕ)
    → IsSound dev ht
    → dev.staged_seg_idx + 1 < dev.nr_segment
    → IsSetRequest req n
    → ((i : ℕ) → Reads req.key n (ht i))
    → (ht' : Table) (dev' : Dev) (pba size : ℕ) (value : List ℕ)
    → run_set (fetch dev) get_next_pba (max_hop + 2) ht dev req ≡ stored ht' dev' pba size value
    → IsSound (write dev' pba size value) ht' × ((i : ℕ) → Reads req.key n (ht' i))
run_set-IsSound dev ht req n sound more r reads ht' dev' pba size value run = (
  set-IsSound dev ht ht' req n sound more r reads dev' pba size value run,
  set-Reads dev ht ht' req n sound more r reads dev' pba size value run,
)
