-- ===== src/Device/Log.antt =====
-- A run of allocations of src/device.c: until the log comes round, no two pairs share a byte.
use mathlib.Core.Path.{subst}
use udepot_hopscotch.Base.{ℕ, ◌+◌, ◌*◌, ◌≤◌, ◌<◌, sym, List, [], ◌∷◌, arith, length}
use udepot_hopscotch.Device.{Dev, segment_size, grain_unit, staged_seg, round_up, get_next_pba}
use udepot_hopscotch.Device.Alloc.{IsValid, get_next_pba-Extent, get_next_pba-ascends}

-- The byte address and the rounded size that each call of `get_next_pba` in a row hands out.
pub alloc_all : Dev → List ℕ → List (ℕ × ℕ)
alloc_all dev [] = []
alloc_all dev (size ∷ sizes) =
    let r = get_next_pba dev size in (r.0 * grain_unit, round_up size) ∷ alloc_all r.1 sizes

-- Each stretch begins at or past the end of the one before.
abbrev pub Ascending : ℕ → List (ℕ × ℕ) → Type 0
Ascending lo [] = Unit {0}
Ascending lo ((addr, size) ∷ rest) = (lo ≤ addr) × Ascending (addr + size) rest

abbrev pub AllSmall : List ℕ → Type 0
AllSmall [] = Unit {0}
AllSmall (size ∷ sizes) = (size ≤ segment_size) × AllSmall sizes

-- On a valid device with a segment left for each pair, where no pair is larger than a segment,
-- the pairs lie one behind the other from the offset of the staged segment on, so that no two of
-- them share a byte.
pub alloc_all-Ascending :
    (sizes : List ℕ) (dev : Dev)
    → IsValid dev
    → AllSmall sizes
    → dev.staged_seg_idx + length sizes < dev.nr_segment
    → Ascending (staged_seg dev).offset (alloc_all dev sizes)
unfolding alloc_all
alloc_all-Ascending [] dev v small room = tt
alloc_all-Ascending (size ∷ sizes) dev v small room =
    let x = get_next_pba-Extent dev size v small.0 in
    let up = get_next_pba-ascends dev size v small.0 (omega arith) in
    (
      up.0,
      subst (λ lo. Ascending lo (alloc_all (get_next_pba dev size).1 sizes)) (sym x.until)
          (alloc_all-Ascending sizes (get_next_pba dev size).1 x.valid small.1
            (omega (arith, up.1, up.2))),
    )
