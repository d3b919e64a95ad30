-- ===== src/Tests/Device.antt =====
-- Runs of src/device.c on a device of two segments, and uses of its theorems there.
use udepot_hopscotch.Base.{take, ℕ, ◌+◌, ◌*◌, ◌%◌, ◌^◌, ◌<◌, ◌≡◌, refl, inl, [], ◌∷◌, arith}
use udepot_hopscotch.Device.{
  Dev, segment_size, grain_unit, staged_seg, dev_abs_init, get_next_pba, flush_segment, bump,
  round_up, stage_next_segment, copied, aio_read, dev_abs_read, dev_abs_write,
}
use udepot_hopscotch.Device.Alloc.{
  IsValid, Extent, dev_abs_init-IsValid, get_next_pba-Extent, get_next_pba-wraps,
}
use udepot_hopscotch.Device.Log.{alloc_all, Ascending, alloc_all-Ascending}
use udepot_hopscotch.Device.Race.{dev_abs_read-flush_segment}
use udepot_hopscotch.Device.Data.{dev_abs_read-write, log_byte, get_next_pba-log_byte, drain}

abbrev blank : ℕ → ℕ
blank i = 0

-- Four segments of 4096 blocks.
abbrev four : Dev
four = dev_abs_init (4 * 4096) 512 blank

four-IsValid : IsValid four
four-IsValid = dev_abs_init-IsValid (4 * 4096) 512 blank (omega arith)

-- The first two pairs, of 1000 bytes each, lie at grains 0 and 8.
two_pairs :
    ((get_next_pba four 1000).0 ≡ 0) × ((get_next_pba (get_next_pba four 1000).1 1000).0 ≡ 8)
unfolding get_next_pba dev_abs_init bump round_up
two_pairs = (refl, refl)

get_next_pba-Extent_example : Extent 1000 (get_next_pba four 1000)
get_next_pba-Extent_example = get_next_pba-Extent four 1000 four-IsValid (omega arith)

more : four.staged_seg_idx + 1 < four.nr_segment
unfolding dev_abs_init
more = omega arith

room : four.staged_seg_idx + 2 < four.nr_segment
unfolding dev_abs_init
room = omega arith

alloc_all-Ascending_example : Ascending (staged_seg four).offset (alloc_all four (1000 ∷ 128 ∷ []))
alloc_all-Ascending_example =
    alloc_all-Ascending (1000 ∷ 128 ∷ []) four four-IsValid (omega arith, (omega arith, tt)) room

-- One segment, full.
abbrev one : Dev
one = (get_next_pba (dev_abs_init 4096 512 blank) segment_size).1

one-IsValid : IsValid one
one-IsValid =
    (get_next_pba-Extent (dev_abs_init 4096 512 blank) segment_size
      (dev_abs_init-IsValid 4096 512 blank (omega arith)) (omega arith)).valid

one_full :
    (one.staged_seg_idx + 1 ≡ one.nr_segment)
    × ((staged_seg one).end_addr < (staged_seg one).offset + 1)
unfolding get_next_pba dev_abs_init bump round_up
one_full = (refl, omega arith)

get_next_pba-wraps_example : (get_next_pba one 1).0 ≡ 0
get_next_pba-wraps_example =
    get_next_pba-wraps one 1 one-IsValid (omega arith) one_full.0 one_full.1

abbrev after : Dev
after = (get_next_pba four 1000).1

abbrev bytes : ℕ → ℕ
bytes i = i % 2 ^ 8

after-IsValid : IsValid after
after-IsValid = (get_next_pba-Extent four 1000 four-IsValid (omega arith)).valid

after_at :
    ((staged_seg after).start_addr ≡ 0)
    × ((staged_seg after).offset ≡ 1024)
    × ((staged_seg after).end_addr ≡ 2 ^ 21)
    × (after.staged_seg_idx + 1 < after.nr_segment)
unfolding get_next_pba dev_abs_init bump round_up
after_at = (refl, refl, refl, omega arith)

dev_abs_read-write_example :
    (f : ℕ → ℕ) × (dev_abs_read (dev_abs_write after 0 8 bytes) 0 8 ≡ copied f)
    × ((i : ℕ) → i < 8 * grain_unit → f i ≡ bytes i)
dev_abs_read-write_example =
    dev_abs_read-write after 0 8 bytes after-IsValid (omega arith) (omega arith)
      (omega (arith, after_at.0)) (omega (arith, after_at.1))

before_next : 5 < (staged_seg (flush_segment after)).start_addr
unfolding flush_segment stage_next_segment get_next_pba dev_abs_init bump round_up
before_next = omega arith

get_next_pba-log_byte_example : log_byte (get_next_pba after 1000).1 5 ≡ log_byte after 5
get_next_pba-log_byte_example =
    get_next_pba-log_byte after 1000 5 after-IsValid (omega arith)
      (inl (omega (arith, after_at.1)), inl before_next)

dev_abs_read-flush_segment_example :
    let d = flush_segment (dev_abs_write after 3 1 bytes) in
    let a = 3 * grain_unit + 5 in
    (dev_abs_read d 3 1 ≡ aio_read (3 * grain_unit) (1 * grain_unit))
    × (drain d.submitted d.disk a ≡ bytes 5)
    × (drain (take 0 d.submitted) d.disk a ≡ drain (take 0 after.submitted) after.disk a)
dev_abs_read-flush_segment_example =
    dev_abs_read-flush_segment after 3 1 bytes 0 5 after-IsValid after_at.3
      (omega (arith, after_at.0)) (omega (arith, after_at.1)) (omega arith) (omega arith)
