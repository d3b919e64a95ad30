-- ===== src/Device.antt =====
-- The log-structured device of src/device.c with include/device.h: segments, the staged one in
-- memory, and the addresses that `get_next_pba` hands out.
pub mod Alloc
pub mod Log
pub mod Data
pub mod Race
use Prim.Native.Nat.{Ordering}
use udepot_hopscotch.Base.{
  ℕ, ◌+◌, ◌-◌, ◌*◌, ◌/◌, ◌%◌, ◌^◌, List, [], ◌∷◌, ◌++◌, ltb, leb, ◌==◌, ◌&&◌, if◌then◌else◌, update,
}

-- `SEGMENT_SIZE` and `GRAIN_UNIT` of include/config.h, which `dev->segment_size` and
-- `dev->grain_unit` hold from `dev_abs_init` on.
abbrev pub segment_size : ℕ
segment_size = 2 ^ 21

abbrev pub grain_unit : ℕ
grain_unit = 128

-- `enum seg_state_t`
pub data SegState : Type 0 where
  free staged used : SegState

-- `struct segment`, less the index that it stands at
pub record Segment : Type 0 where
  pub state : SegState
  pub start_addr : ℕ
  pub end_addr : ℕ
  pub offset : ℕ

-- A write that `aio_write` has submitted: its address, its size and the buffer.
pub record AioWrite : Type 0 where
  pub addr_in_byte : ℕ
  pub size : ℕ
  pub buf : ℕ → ℕ

-- `struct dev_abs`. `staged_seg` always points into `seg_array` at `staged_seg_idx`; a buffer is the
-- function of its bytes. `disk` is what the device holds, and `submitted` what is on its way there.
pub record Dev : Type 0 where
  pub nr_segment : ℕ
  pub seg_array : ℕ → Segment
  pub staged_seg_idx : ℕ
  pub staged_seg_buf : ℕ → ℕ
  pub disk : ℕ → ℕ
  pub submitted : List AioWrite

abbrev pub staged_seg : Dev → Segment
staged_seg dev = dev.seg_array dev.staged_seg_idx

-- A buffer from `alloc_seg_buffer`: an anonymous mapping is all zeros.
abbrev pub alloc_seg_buffer : ℕ → ℕ
alloc_seg_buffer i = 0

-- `dev_abs_init`, from what `BLKGETSIZE` and `BLKSSZGET` report and what the device holds.
unfoldable pub dev_abs_init : ℕ → ℕ → (ℕ → ℕ) → Dev
dev_abs_init nr_logical_block logical_block_size disk = record {
  nr_segment = nr_logical_block * logical_block_size / segment_size % 2 ^ 32;
  seg_array = λ i. record {
    state = if i == 0 then staged else free;
    start_addr = i * segment_size;
    end_addr = (i + 1) * segment_size;
    offset = i * segment_size;
  };
  staged_seg_idx = 0;
  staged_seg_buf = alloc_seg_buffer;
  disk = disk;
  submitted = [];
}

-- The signs -1, 0 and 1 of the source.
unfoldable pub is_staged : Dev → ℕ → Ordering
is_staged dev pba =
    let addr_in_byte = pba * grain_unit % 2 ^ 64 in
    if ltb addr_in_byte (staged_seg dev).start_addr
    then Ordering.lt
    else if leb (staged_seg dev).offset addr_in_byte
    then Ordering.gt
    else Ordering.eq

-- `dev_abs_read` copies bytes from the staged buffer and runs the callback, or submits a read.
pub data ReadEnd : Type 0 where
  copied : (ℕ → ℕ) → ReadEnd
  aio_read : ℕ → ℕ → ReadEnd

unfoldable pub dev_abs_read : Dev → ℕ → ℕ → ReadEnd
unfolding is_staged
dev_abs_read dev pba size_in_grain =
    let addr_in_byte = pba * grain_unit % 2 ^ 64 in
    elim (is_staged dev pba) [
      | Ordering.eq ↦
          copied (λ i. dev.staged_seg_buf (addr_in_byte - (staged_seg dev).start_addr + i))
      | _ ↦ aio_read addr_in_byte (size_in_grain * grain_unit % 2 ^ 32)
    ]

-- `memcpy(dst + offset, src, size)`
abbrev pub memcpy : (ℕ → ℕ) → ℕ → (ℕ → ℕ) → ℕ → ℕ → ℕ
memcpy dst offset src size i =
    if leb offset i && ltb i (offset + size) then src (i - offset) else dst i

-- `dev_abs_write`: always into the staged buffer, at an offset that wraps in 64 bits.
unfoldable pub dev_abs_write : Dev → ℕ → ℕ → (ℕ → ℕ) → Dev
dev_abs_write dev pba size_in_grain buf =
    let size = size_in_grain * grain_unit % 2 ^ 32 in
    let offset = (pba * grain_unit % 2 ^ 64 + 2 ^ 64 - (staged_seg dev).start_addr) % 2 ^ 64 in
    record dev { staged_seg_buf = memcpy dev.staged_seg_buf offset buf size }

unfoldable pub stage_next_segment : Dev → Dev
stage_next_segment dev =
    let idx = (dev.staged_seg_idx + 1) % dev.nr_segment in
    let seg = dev.seg_array idx in
    record dev {
      staged_seg_idx = idx;
      seg_array = update dev.seg_array idx (record seg { state = staged; offset = seg.start_addr });
      staged_seg_buf = alloc_seg_buffer;
    }

-- The branch of `get_next_pba` where the staged segment has no room: it is flushed, and the next one
-- is staged, whatever it held.
unfoldable pub flush_segment : Dev → Dev
unfolding stage_next_segment
flush_segment dev =
    let ss = staged_seg dev in
    stage_next_segment (record dev {
      seg_array = update dev.seg_array dev.staged_seg_idx (record ss { state = used });
      submitted =
          dev.submitted
          ++ (record { addr_in_byte = ss.start_addr; size = segment_size; buf = dev.staged_seg_buf }
              ∷ []);
    })

-- `size` rounded up to the grain, in 32 bits
unfoldable pub round_up : ℕ → ℕ
round_up size =
    if size % grain_unit == 0 then size else (size + (grain_unit - size % grain_unit)) % 2 ^ 32

-- The rest of `get_next_pba`: the address is the offset, which moves on.
unfoldable pub bump : Dev → ℕ → ℕ × Dev
unfolding round_up
bump dev size =
    let ss = staged_seg dev in
    (
      ss.offset / grain_unit,
      record dev {
        seg_array =
            update dev.seg_array dev.staged_seg_idx
              (record ss { offset = ss.offset + round_up size });
      },
    )

unfoldable pub get_next_pba : Dev → ℕ → ℕ × Dev
unfolding flush_segment bump
get_next_pba dev size =
    let ss = staged_seg dev in
    bump (if ltb ss.end_addr (ss.offset + size) then flush_segment dev else dev) size
