-- ===== src/Store/Run.antt =====
-- Any number of requests to set, of src/hopscotch.c over src/device.c, each written before the next one, and
-- what requests to get find after them.
use Prim.Native.Nat.{Ordering}
use mathlib.Core.Path.{subst}
use udepot_hopscotch.Base.{
  ℕ, ◌+◌, ◌*◌, ◌≤◌, ◌<◌, ◌≡◌, none, List, [], ◌∷◌, ◌++◌, arith, ◌∙◌, sym, ap, length, get_or,
}
use udepot_hopscotch.Pair.{KeyStruct, keycmp_k_v}
use udepot_hopscotch.Request.{ReqType}
use udepot_hopscotch.Hopscotch.Table.{Table, Entry, init_table, slot, max_hop}
use udepot_hopscotch.Hopscotch.Ops.{HopRequest, idx_of}
use udepot_hopscotch.Hopscotch.Drive.{found, stored, run_get, run_set}
use udepot_hopscotch.Hopscotch.Drive.SetGet.{Hits}
use udepot_hopscotch.Device.{Dev, grain_unit, get_next_pba}
use udepot_hopscotch.Store.{fetch, write}
use udepot_hopscotch.Store.Fetch.{length-fetch}
use udepot_hopscotch.Store.Sound.{
  IsSound, Reads, IsSetRequest, run_set-IsSound, dev_after, wrote, back,
}
use udepot_hopscotch.Store.Other.{HasPair, get-HasPair, same_pair, later-HasPair}
use udepot_hopscotch.Store.New.{run_set-HasPair}

-- A pair that was stored: its key, where it is, and its bytes.
pub record StoredPair : Type 0 where
  pub key : KeyStruct
  pub pba : ℕ
  pub size : ℕ
  pub value : List ℕ

-- No bytes have both keys, as C compares them.
abbrev pub AreApart : KeyStruct → KeyStruct → Type 0
AreApart k l =
    (bytes : List ℕ) → keycmp_k_v k bytes ≡ Ordering.eq → keycmp_k_v l bytes ≡ Ordering.eq → ⊥

abbrev pub AllApart : KeyStruct → List StoredPair → Type 0
AllApart k [] = Unit
AllApart k (p ∷ ps) = AreApart k p.key × AllApart k ps

-- The states that requests to set new keys lead to, with the pairs that they stored, the last one first.
pub data Run : Dev → Table → List StoredPair → Type 0 where
  empty : (dev : Dev) → IsSound dev init_table → Run dev init_table []
  set :
      (dev : Dev) (ht : Table) (ps : List StoredPair) (req : HopRequest) (n : ℕ) (ht' : Table)
      (dev' : Dev) (pba size : ℕ) (value : List ℕ)
      → Run dev ht ps
      → dev.staged_seg_idx + 1 < dev.nr_segment
      → IsSetRequest req n
      → ((i : ℕ) → Reads req.key n (ht i))
      → ((i : ℕ) → Hits (fetch dev) req.key (ht i) → ⊥)
      → AllApart req.key ps
      → run_set (fetch dev) get_next_pba (max_hop + 2) ht dev req ≡ stored ht' dev' pba size value
      → Run
          (write dev' pba size value)
          ht'
          (record { key = req.key; pba = pba; size = size; value = value } ∷ ps)

-- The table has the pair, and the device has its bytes.
record IsHeld (dev : Dev) (ht : Table) (p : StoredPair) : Type 0 where
  has : HasPair dev ht p.key p.pba p.size
  bytes :
      (i : ℕ) → i < p.size * grain_unit → get_or (fetch dev p.pba p.size) i 0 ≡ get_or p.value i 0

abbrev AllHeld : Dev → Table → List StoredPair → Type 0
AllHeld dev ht [] = Unit
AllHeld dev ht (p ∷ ps) = IsHeld dev ht p × AllHeld dev ht ps

module _ (dev : Dev) (ht ht' : Table) (req : HopRequest) (n : ℕ) (sound : IsSound dev ht)
    (more : dev.staged_seg_idx + 1 < dev.nr_segment) (r : IsSetRequest req n)
    (reads : (i : ℕ) → Reads req.key n (ht i)) (dev' : Dev) (pba size : ℕ) (value : List ℕ)
    (run : run_set (fetch dev) get_next_pba (max_hop + 2) ht dev req
      ≡ stored ht' dev' pba size value) where
  as_written :
      dev_after dev ht ht' req n sound more r reads dev' pba size value run
      ≡ write dev' pba size value
  as_written = wrote dev ht ht' req n sound more r reads dev' pba size value run

  keep-IsHeld :
      (p : StoredPair)
      → AreApart req.key p.key
      → IsHeld dev ht p
      → IsHeld (write dev' pba size value) ht' p
  keep-IsHeld p apart h =
      subst (λ d. IsHeld d ht' p) as_written
        (record {
          has =
              later-HasPair dev ht ht' req n sound more r reads dev' pba size value run p.key p.pba
                p.size apart h.has;
          bytes = λ i lt.
              ap (λ (l : List ℕ). get_or l i 0)
                (same_pair dev ht ht' req n sound more r reads dev' pba size value run p.key p.pba
                  p.size apart h.has)
              ∙ h.bytes i lt;
        })

  keep-AllHeld :
      (ps : List StoredPair)
      → AllApart req.key ps
      → AllHeld dev ht ps
      → AllHeld (write dev' pba size value) ht' ps
  keep-AllHeld [] apart h = tt
  keep-AllHeld (p ∷ ps) (a, apart) (h, hs) = (keep-IsHeld p a h, keep-AllHeld ps apart hs)

  new-IsHeld :
      ((i : ℕ) → Hits (fetch dev) req.key (ht i) → ⊥)
      → IsHeld
          (write dev' pba size value)
          ht'
          (record { key = req.key; pba = pba; size = size; value = value })
  new-IsHeld fresh = record {
    has = run_set-HasPair dev ht req n sound more r reads ht' dev' pba size value run fresh;
    bytes =
        subst
          (λ d. (i : ℕ) → i < size * grain_unit → get_or (fetch d pba size) i 0 ≡ get_or value i 0)
          as_written (back dev ht ht' req n sound more r reads dev' pba size value run);
  }

Run-AllHeld :
    {dev : Dev} {ht : Table} {ps : List StoredPair}
    → Run dev ht ps
    → IsSound dev ht × AllHeld dev ht ps
Run-AllHeld (empty dev sound) = (sound, tt)
Run-AllHeld (set dev ht ps req n ht' dev' pba size value before more r reads fresh apart run) =
    let (sound, held) = Run-AllHeld before in
    (
      (run_set-IsSound dev ht req n sound more r reads ht' dev' pba size value run).0,
      (
        new-IsHeld dev ht ht' req n sound more r reads dev' pba size value run fresh,
        keep-AllHeld dev ht ht' req n sound more r reads dev' pba size value run ps apart held,
      ),
    )

one_of :
    (dev : Dev) (ht : Table) (p : StoredPair) (xs ys : List StoredPair)
    → AllHeld dev ht (xs ++ p ∷ ys)
    → IsHeld dev ht p
one_of dev ht p [] ys (h, hs) = h
one_of dev ht p (x ∷ xs) ys (h, hs) = one_of dev ht p xs ys hs

-- Let every read of the device succeed and see the writes that were submitted before it. Begin
-- with an empty table and a valid device of less than 2 ^ 47 bytes, and let any number of new
-- requests to set each store a pair, with a segment left each time. Each time let the key fit its
-- array and the whole grains of its pair, and the pair be shorter than 2 ^ 18 bytes; let the key
-- be one that no bytes have in common with a key stored before, and that no entry matches by its
-- tag and its pair; and let every entry with the tag of the key stand for a pair that is longer
-- than the key and no longer than the buffer, which leaves out the keys of tag 0, the tag of
-- empty entries. Once these pairs are written, a new request to get any of the keys, with a
-- buffer that the pairs of the entries with its tag fit, ends with a pair, and the front of its
-- buffer, as long as the grains of the pair, holds the bytes that were stored for that key.
pub Run-get :
    (dev : Dev) (ht : Table) (xs ys : List StoredPair) (p : StoredPair) (got : HopRequest) (m : ℕ)
    → Run dev ht (xs ++ p ∷ ys)
    → got.key ≡ p.key
    → got.type ≡ ReqType.get
    → got.params ≡ none
    → ((i : ℕ) → Reads got.key m (ht i))
    → m ≤ length got.value.value
    → (q : HopRequest) × (run_get (fetch dev) (max_hop + 1) ht got ≡ found q)
      × ((i : ℕ) → i < p.size * grain_unit → get_or q.value.value i 0 ≡ get_or p.value i 0)
Run-get dev ht xs ys p got m run key get new reads room =
    let (sound, held) = Run-AllHeld run in
    let h = one_of dev ht p xs ys held in
    let (o, (near, e)) = (h.has).holds in
    let few = (sound.ranges (slot (idx_of p.key) o)).kv_size in
    let size : (ht (slot (idx_of p.key) o)).kv_size ≡ p.size = ap (λ (x : Entry). x.kv_size) e in
    let long : length (fetch dev p.pba p.size) ≡ p.size * grain_unit =
      omega (arith, length-fetch dev p.pba p.size, few, size) in
    let (q, end, front) =
      get-HasPair dev ht got m p.pba p.size sound reads
        (subst (λ k. HasPair dev ht k p.pba p.size) (sym key) h.has) get new room in
    (q, end, λ i lt. front i (omega (arith, long, lt)) ∙ h.bytes i lt)
