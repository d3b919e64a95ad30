-- ===== src/Store/SetGet.antt =====
-- A request to set and then one to get, of src/hopscotch.c, over the log of src/device.c.
use mathlib.Core.Path.{subst}
use udepot_hopscotch.Base.{
  ℕ, ◌+◌, ◌*◌, ◌/◌, ◌≤◌, ◌<◌, ◌≡◌, none, List, arith, ◌∙◌, sym, length, get_or,
}
use udepot_hopscotch.Request.{ReqType}
use udepot_hopscotch.Hopscotch.Table.{Table, max_hop}
use udepot_hopscotch.Hopscotch.Ops.{HopRequest}
use udepot_hopscotch.Hopscotch.Drive.{found, stored, run_get, run_set}
use udepot_hopscotch.Hopscotch.Drive.SetGet.{set_then_get}
use udepot_hopscotch.Device.{Dev, grain_unit, get_next_pba}
use udepot_hopscotch.Store.{fetch, write}
use udepot_hopscotch.Store.Sound.{
  IsSound, Reads, Reads-Delivers, IsSetRequest, dev_after, wrote, keeps, reads_key, set-IsSound,
  set-Reads, new-length, back, grains,
}

module _ (dev : Dev) (ht ht' : Table) (req : HopRequest) (n : ℕ) (sound : IsSound dev ht)
    (more : dev.staged_seg_idx + 1 < dev.nr_segment) (r : IsSetRequest req n)
    (reads : (i : ℕ) → Reads req.key n (ht i)) (dev' : Dev) (pba size : ℕ) (value : List ℕ)
    (run : run_set (fetch dev) get_next_pba (max_hop + 2) ht dev req
      ≡ stored ht' dev' pba size value) where
  finds :
      (got : HopRequest)
      → got.key ≡ req.key
      → got.type ≡ ReqType.get
      → got.params ≡ none
      → n ≤ length got.value.value
      → (q : HopRequest) × (run_get
            (fetch (dev_after dev ht ht' req n sound more r reads dev' pba size value run))
            (max_hop + 1)
            ht'
            got
          ≡ found q)
        × ((i : ℕ)
            → i < req.value.len / grain_unit * grain_unit
            → get_or q.value.value i 0 ≡ get_or value i 0)
  finds got key get new fits' =
      let (q, end, front) =
        set_then_get get_next_pba (fetch dev)
          (fetch (dev_after dev ht ht' req n sound more r reads dev' pba size value run)) ht ht' dev
          dev' req got pba size value r.set r.new r.in_array
          (omega (arith, r.holds_key, r.whole, r.buffer))
          (Reads-Delivers dev ht req n sound.ranges r.buffer reads) sound.ranges run
          (keeps dev ht ht' req n sound more r reads dev' pba size value run)
          (reads_key dev ht ht' req n sound more r reads dev' pba size value run) key get new
          (Reads-Delivers (dev_after dev ht ht' req n sound more r reads dev' pba size value run)
            ht' got n
            (subst (λ d. IsSound d ht')
              (sym (wrote dev ht ht' req n sound more r reads dev' pba size value run))
              (set-IsSound dev ht ht' req n sound more r reads dev' pba size value run)).ranges
            fits'
            (subst (λ k. (i : ℕ) → Reads k n (ht' i)) (sym key)
              (set-Reads dev ht ht' req n sound more r reads dev' pba size value run))) in
      (
        q,
        end,
        λ i near.
            front i (
              omega (
                arith,
                new-length dev ht ht' req n sound more r reads dev' pba size value run,
                near,
              ))
            ∙ back dev ht ht' req n sound more r reads dev' pba size value run i (
                omega (
                  arith,
                  grains dev ht ht' req n sound more r reads dev' pba size value run,
                  near,
                )),
      )

-- Let every read of the device succeed and see the writes that were submitted before it. Let the
-- device be valid, of less than 2 ^ 47 bytes and with a segment left, let the entries of the
-- table be in the ranges of their bits and have their pairs in its log, and let the pairs that
-- are read for the tag of the key hold a key as long and fit the buffers. After a new request to
-- set, whose key fits its array and its pair, and whose pair is shorter than 2 ^ 18 bytes, has
-- stored its pair and the pair is written, a new request to get the same key ends with a pair,
-- and the front of its buffer, as long as the whole grains of the pair, holds the bytes that were
-- written.
pub set_then_get-write :
    (dev : Dev) (ht : Table) (req got : HopRequest) (n : ℕ)
    → IsSound dev ht
    → dev.staged_seg_idx + 1 < dev.nr_segment
    → IsSetRequest req n
    → ((i : ℕ) → Reads req.key n (ht i))
    → (ht' : Table) (dev' : Dev) (pba size : ℕ) (value : List ℕ)
    → run_set (fetch dev) get_next_pba (max_hop + 2) ht dev req ≡ stored ht' dev' pba size value
    → got.key ≡ req.key
    → got.type ≡ ReqType.get
    → got.params ≡ none
    → n ≤ length got.value.value
    → (q : HopRequest) × (run_get (fetch (write dev' pba size value)) (max_hop + 1) ht' got
        ≡ found q)
      × ((i : ℕ)
          → i < req.value.len / grain_unit * grain_unit
          → get_or q.value.value i 0 ≡ get_or value i 0)
set_then_get-write dev ht req got n sound more r reads ht' dev' pba size value run key get new
      fits =
    let (q, end, front) =
      finds dev ht ht' req n sound more r reads dev' pba size value run got key get new fits in
    (
      q,
      subst (λ d. run_get (fetch d) (max_hop + 1) ht' got ≡ found q)
          (wrote dev ht ht' req n sound more r reads dev' pba size value run) end,
      front,
    )
