-- ===== src/Store.antt =====
-- The hopscotch index of src/hopscotch.c on the device of src/device.c: what a read of a pair delivers.
pub mod Fetch
pub mod Sound
pub mod SetGet
pub mod Other
pub mod New
pub mod Run
pub mod Write
use Prim.Native.Nat.{Ordering}
use udepot_hopscotch.Base.{ℕ, zero, suc, ◌+◌, ◌*◌, ◌%◌, ◌^◌, ◌≤◌, ◌≡◌, ◌⊎◌, List, [], ◌∷◌, get_or}
use udepot_hopscotch.Device.{
  Dev, grain_unit, staged_seg, copied, aio_read, dev_abs_read, dev_abs_write, get_next_pba,
}
use udepot_hopscotch.Device.Data.{drain}
use udepot_hopscotch.Hopscotch.Table.{Entry}

-- `n` bytes of a store from an address on.
unfoldable pub bytes_from : (ℕ → ℕ) → ℕ → ℕ → List ℕ
bytes_from f a zero = []
bytes_from f a (suc n) = f a ∷ bytes_from f (a + 1) n

-- The bytes that `dev_abs_read` puts in the buffer: at once, or from a device that has done the
-- writes that were submitted before the read. The source does not wait for them (Device.Race), nor
-- does it align the reads to the blocks that O_DIRECT wants.
unfoldable pub fetch : Dev → ℕ → ℕ → List ℕ
unfolding dev_abs_read drain bytes_from
fetch dev pba grains = elim (dev_abs_read dev pba grains) [
  | copied f ↦ bytes_from f 0 (grains * grain_unit % 2 ^ 32)
  | aio_read a n ↦ bytes_from (drain dev.submitted dev.disk) a n
]

-- `hlr->write` of a buffer that is a list of bytes.
abbrev pub write : Dev → ℕ → ℕ → List ℕ → Dev
write dev pba grains value = dev_abs_write dev pba grains (λ i. get_or value i 0)

-- The pair of an entry lies below the head of the log, and not across the start of the staged segment.
pub record Lies (dev : Dev) (e : Entry) : Type 0 where
  pub in_log : e.pba * grain_unit + e.kv_size * grain_unit ≤ (staged_seg dev).offset
  pub one_segment :
      (e.pba * grain_unit + e.kv_size * grain_unit ≤ (staged_seg dev).start_addr)
      ⊎ ((staged_seg dev).start_addr ≤ e.pba * grain_unit)

-- An entry with no grains, as every one of the empty table is, or with a pair in the log.
abbrev pub IsKept : Dev → Entry → Type 0
IsKept dev e = (e.kv_size ≡ 0) ⊎ Lies dev e
