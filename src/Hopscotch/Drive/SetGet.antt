-- ===== src/Hopscotch/Drive/SetGet.antt =====
-- What a request to get finds after a request to set of the same key.
use Prim.Native.Nat.{Ordering}
use mathlib.Core.Path.{subst}
use native.Mathlib.Decide.{ℕ_discrete}
use udepot_hopscotch.Base.{
  ℕ, ◌+◌, ◌≤◌, ◌<◌, ◌≡◌, refl, ◌⊎◌, inl, inr, none, some, List, arith, ◌∙◌, sym, ap, length, ◌≢◌,
  update, get_or,
}
use udepot_hopscotch.Base.First.{IsFirst, IsFirst-unique}
use udepot_hopscotch.Pair.{KeyStruct, keycmp_k_v}
use udepot_hopscotch.Request.{ReqType}
use udepot_hopscotch.Hopscotch.Table.{Table, Entry, slot, find_free_entry, fill_entry, max_hop}
use udepot_hopscotch.Hopscotch.Table.Free.{
  InRange, away, moved, FindsFree, find_free_entry-FindsFree,
}
use udepot_hopscotch.Hopscotch.Table.Place.{fill_in_range, update_self, update_ne}
use udepot_hopscotch.Hopscotch.Ops.{HopRequest, params_of, idx_of, tag_of}
use udepot_hopscotch.Hopscotch.Drive.{GetEnd, found, missing, stored, run_get, run_set}
use udepot_hopscotch.Hopscotch.Drive.Get.{Matches, pair_at, Delivers, GetsFirst, run_get_total}
use udepot_hopscotch.Hopscotch.Drive.Set.{Writes, SetsFirst, new_entry}
use udepot_hopscotch.Hopscotch.Drive.Set.Total.{run_set_total}

-- Two offsets of one hop are two slots.
slot_ne : (idx i o : ℕ) → i < o → o < max_hop → slot idx i ≢ slot idx o
slot_ne idx i o lt near e = omega arith

-- The entry has the tag, and the pair that is read for it has the key.
abbrev pub Hits : (ℕ → ℕ → List ℕ) → KeyStruct → Entry → Type 0
Hits fetch k e = (e.key_fp_tag ≡ tag_of k) × (keycmp_k_v k (fetch e.pba e.kv_size) ≡ Ordering.eq)

module _ {S : Type 0} (get_next_pba : S → ℕ → ℕ × S) (fetch fetch' : ℕ → ℕ → List ℕ) (ht : Table)
    (dev : S) (req : HopRequest) (pba size : ℕ)
    (same : (i : ℕ) → fetch' (ht i).pba (ht i).kv_size ≡ fetch (ht i).pba (ht i).kv_size)
    (reads : keycmp_k_v req.key (fetch' pba size) ≡ Ordering.eq) where
  abbrev k : KeyStruct
  k = req.key

  abbrev len : ℕ
  len = req.value.len

  -- An entry that stood in the table before is a hit after as it was.
  old_hit : (i : ℕ) → Hits fetch' k (ht i) → Hits fetch k (ht i)
  old_hit i (t, e) = (t, ap (keycmp_k_v k) (sym (same i)) ∙ e)

  -- The entry at an offset stands for the new pair.
  abbrev IsAt : Table → ℕ → Type 0
  IsAt ht' o = ((ht' (slot (idx_of k) o)).pba ≡ pba) × ((ht' (slot (idx_of k) o)).kv_size ≡ size)

  -- The new entry is a hit.
  new_hit :
      (base : Table) (o : ℕ) {ht' : Table} {dev' : S} {value : List ℕ}
      → Writes get_next_pba dev k len base o ht' dev' pba size value
      → (Hits fetch' k (ht' (slot (idx_of k) o))) × IsAt ht' o
  unfolding fill_entry
  new_hit base o {ht' = ht'} w =
      let here =
        ap (λ (t : Table). t (slot (idx_of k) o)) w.table
        ∙ update_self base (slot (idx_of k) o) (new_entry get_next_pba dev k len o) in
      let at = ap (λ (e : Entry). e.pba) here ∙ sym w.at in
      let grains = ap (λ (e : Entry). e.kv_size) here ∙ sym w.grains in
      (
        (
          ap (λ (e : Entry). e.key_fp_tag) here ∙ omega arith,
          ap (λ p. keycmp_k_v k (fetch' p (ht' (slot (idx_of k) o)).kv_size)) at
              ∙ ap (λ s. keycmp_k_v k (fetch' pba s)) grains
              ∙ reads,
        ),
        (at, grains),
      )

  abbrev pub HitsAfter : (ℕ → Entry) → ℕ → Type 0
  HitsAfter t i = Hits fetch' k (t (slot (idx_of k) i))

  -- The first entry of the hop that is a hit afterwards is the one that was written.
  abbrev pub FirstAfter : Table → Type 0
  FirstAfter ht' = (o : ℕ) × IsFirst (HitsAfter ht') 0 max_hop (some o) × IsAt ht' o

  -- It is so if no entry before it is a hit in the table that it was written into.
  FirstAfter-Writes :
      (base : Table) (o : ℕ) {ht' : Table} {dev' : S} {value : List ℕ}
      → o < max_hop
      → ((i : ℕ) → i < o → Hits fetch' k (base (slot (idx_of k) i)) → ⊥)
      → Writes get_next_pba dev k len base o ht' dev' pba size value
      → FirstAfter ht'
  FirstAfter-Writes base o {ht' = ht'} near before w =
      let (hit, at) = new_hit base o w in
      (
        o,
        (
          omega arith,
          near,
          hit,
          λ i a lt q. before i lt (
              subst (Hits fetch' k)
                (ap (λ (t : Table). t (slot (idx_of k) i)) w.table
                  ∙ update_ne base _ _ _ (slot_ne (idx_of k) i o lt near))
                q),
        ),
        at,
      )

  -- A hit in the table that `find_free_entry` leaves was a hit, there or in the slot that it empties.
  base_hit :
      (free : ℕ) (base : Table) (i : ℕ)
      → ((i : ℕ) → InRange (ht i))
      → find_free_entry ht (idx_of k) ≡ some (free, base)
      → Hits fetch' k (base i)
      → (Hits fetch k (ht i)) ⊎ ((free < max_hop) × Hits fetch k (ht (slot (idx_of k) free)))
  base_hit free base i ranges e hit = elim found'.1 [
    | inl (was, same_table) ↦
        inl (old_hit i (subst (λ (t : Table). Hits fetch' k (t i)) same_table hit))
    | inr (full, (dis, m)) ↦ elim (ℕ_discrete i (away ht c dis)) [
      | yes q ↦
          let e' =
            ap (λ (t : Table). t i) m.table
            ∙ ap (update ht (away ht c dis) (moved ht c dis)) q
            ∙ update_self ht (away ht c dis) (moved ht c dis)
            ∙ fill_in_range dis _ _ _ m.near (ranges c).key_fp_tag (ranges c).kv_size
                (ranges c).pba in
          inr (found'.0, old_hit c (subst (Hits fetch' k) e' hit))
      | no ne ↦ inl (
          old_hit i
            (subst (Hits fetch' k) (ap (λ (t : Table). t i) m.table ∙ update_ne ht _ _ _ ne) hit))
    ]
  ]
    where
      c : ℕ
      c = slot (idx_of k) free

      found' : FindsFree ht (idx_of k) (some (free, base))
      found' = subst (FindsFree ht (idx_of k)) e (find_free_entry-FindsFree ht (idx_of k) ranges)

  first_after :
      {ht' : Table} {dev' : S} {value : List ℕ}
      → ((i : ℕ) → InRange (ht i))
      → SetsFirst get_next_pba fetch ht dev req 0 (stored ht' dev' pba size value)
      → FirstAfter ht'
  first_after ranges (inl (o, (a, b, m, before), w)) =
      FirstAfter-Writes ht o b (λ i lt q. before i (omega arith) lt (old_hit (slot (idx_of k) i) q))
        w
  first_after ranges (inr (no_match, (free, base, e, w))) =
      FirstAfter-Writes base free near
        (λ i lt q. elim (base_hit free base (slot (idx_of k) i) ranges e q) [
          | inl h ↦ no_match i (omega arith) (omega (arith, near)) h
          | inr (near', h) ↦ no_match free (omega arith) near' h
        ])
        w
    where
      near : free < max_hop
      near = (subst (FindsFree ht (idx_of k)) e (find_free_entry-FindsFree ht (idx_of k) ranges)).0

-- How a request to get ends where the first hit of the hop is at a known offset.
found_of_first :
    (fetch : ℕ → ℕ → List ℕ) (ht : Table) (k : KeyStruct) (o : ℕ) (end : GetEnd)
    → IsFirst (Matches fetch ht k) 0 max_hop (some o)
    → GetsFirst fetch ht k 0 end
    → (r : HopRequest) × (end ≡ found r)
      × ((i : ℕ)
          → i < length (pair_at fetch ht k o)
          → get_or r.value.value i 0 ≡ get_or (pair_at fetch ht k o) i 0)
found_of_first fetch ht k o (found r) first (h, front) =
    let same = IsFirst-unique (Matches fetch ht k) 0 max_hop (params_of r).offset o h first in
    (
      r,
      refl,
      subst
          (λ j.
            (i : ℕ)
            → i < length (pair_at fetch ht k j)
            → get_or r.value.value i 0 ≡ get_or (pair_at fetch ht k j) i 0)
          same front,
    )
found_of_first fetch ht k o (missing r) (a, b, m, before) h = absurd (h o (omega arith) b m)
found_of_first fetch ht k o GetEnd.unfinished first h = absurd h

-- Let the entries of the table be in the ranges of their bits, let the key fit its array and,
-- with its length, the buffer, and let every entry of the hop that has the tag of the key deliver
-- a pair that is longer than the key and no longer than the buffer of the request, in the table
-- before for the request to set and in the table after it for the one to get. After a new request
-- to set has stored a pair, a new request to get the same key finds that pair, with its bytes at
-- the front of its buffer: `fetch'` is the device after the write, which reads back the key of
-- the new pair and leaves the pairs of the entries as they were.
pub set_then_get :
    {S : Type 0} (get_next_pba : S → ℕ → ℕ × S) (fetch fetch' : ℕ → ℕ → List ℕ) (ht ht' : Table)
    (dev dev' : S) (req got : HopRequest) (pba size : ℕ) (value : List ℕ)
    → req.type ≡ ReqType.set
    → req.params ≡ none
    → req.key.len ≤ length req.key.key
    → req.key.len + 1 ≤ length req.value.value
    → Delivers fetch ht req
    → ((i : ℕ) → InRange (ht i))
    → run_set fetch get_next_pba (max_hop + 2) ht dev req ≡ stored ht' dev' pba size value
    → ((i : ℕ) → fetch' (ht i).pba (ht i).kv_size ≡ fetch (ht i).pba (ht i).kv_size)
    → keycmp_k_v req.key (fetch' pba size) ≡ Ordering.eq
    → got.key ≡ req.key
    → got.type ≡ ReqType.get
    → got.params ≡ none
    → Delivers fetch' ht' got
    → (r : HopRequest) × (run_get fetch' (max_hop + 1) ht' got ≡ found r)
      × ((i : ℕ)
          → i < length (fetch' pba size)
          → get_or r.value.value i 0 ≡ get_or (fetch' pba size) i 0)
set_then_get get_next_pba fetch fetch' ht ht' dev dev' req got pba size value set new in_array roomy
      ok ranges run same reads key get new' ok' =
    let (o, first, (at, grains)) =
      first_after get_next_pba fetch fetch' ht dev req pba size same reads ranges (
        subst (SetsFirst get_next_pba fetch ht dev req 0) run
          (run_set_total get_next_pba fetch ht dev req set new in_array roomy ok)) in
    let (r, e, front) =
      found_of_first fetch' ht' req.key o (run_get fetch' (max_hop + 1) ht' got) first (
        subst (λ k. GetsFirst fetch' ht' k 0 (run_get fetch' (max_hop + 1) ht' got)) key
          (run_get_total fetch' ht' got get new' ok')) in
    (
      r,
      e,
      subst (λ bytes. (i : ℕ) → i < length bytes → get_or r.value.value i 0 ≡ get_or bytes i 0)
          (λ j. fetch' (at j) (grains j)) front,
    )
