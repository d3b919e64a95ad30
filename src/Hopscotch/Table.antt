-- ===== src/Hopscotch/Table.antt =====
-- The hash table of src/hopscotch.c: entries, the search for a tag and the search for a free slot.
-- The array `ht->entry` is a function of the index, read and written below `nr_entry` only.
pub mod Search
pub mod Free
pub mod Place
use udepot_hopscotch.Base.{
  ℕ, zero, suc, ◌+◌, ◌-◌, ◌%◌, ◌^◌, Option, none, some, ◌==◌, if◌then◌else◌, update,
}

-- The constants of include/hopscotch.h.
abbrev pub nr_entry : ℕ
nr_entry = 2 ^ 27

abbrev pub max_hop : ℕ
max_hop = 32

abbrev pub pba_invalid : ℕ
pba_invalid = 0xffffffffff

-- `struct hash_entry`: the bit fields of 5, 8, 11 and 40 bits.
pub record Entry : Type 0 where
  pub neigh_off : ℕ
  pub key_fp_tag : ℕ
  pub kv_size : ℕ
  pub pba : ℕ

abbrev pub Table : Type 0
Table = ℕ → Entry

-- An entry of the table that `hopscotch_init` makes: `calloc`, then `pba = PBA_INVALID`.
abbrev pub empty_entry : Entry
empty_entry = record { neigh_off = 0; key_fp_tag = 0; kv_size = 0; pba = pba_invalid }

abbrev pub init_table : Table
init_table i = empty_entry

-- `(idx + offset) % NR_ENTRY`
abbrev pub slot : ℕ → ℕ → ℕ
slot idx offset = (idx + offset) % nr_entry

-- The loop of `find_matching_tag`, with the rounds left before `offset` reaches `MAX_HOP`.
unfoldable pub scan_tag : ℕ → Table → ℕ → ℕ → ℕ → Option ℕ
scan_tag zero ht idx offset tag = none
scan_tag (suc n) ht idx offset tag =
    let rest = scan_tag n ht idx (offset + 1) tag in
    if (ht (slot idx offset)).key_fp_tag == tag then some offset else rest

-- `none` is the source's -1.
unfoldable pub find_matching_tag : Table → ℕ → ℕ → ℕ → Option ℕ
find_matching_tag ht idx offset tag = scan_tag (max_hop - offset) ht idx offset tag

-- The arguments are narrowed to uint8_t, uint8_t, uint16_t, and then to the bit fields;
-- `pba & PBA_INVALID` keeps the low 40 bits.
unfoldable pub fill_entry : ℕ → ℕ → ℕ → ℕ → Entry
fill_entry offset tag size pba = record {
  neigh_off = offset % 2 ^ 8 % 2 ^ 5;
  key_fp_tag = tag % 2 ^ 8;
  kv_size = size % 2 ^ 16 % 2 ^ 11;
  pba = pba % 2 ^ 40;
}

-- The first loop of `find_free_entry`: `n` rounds from `offset`.
unfoldable pub scan_free : ℕ → Table → ℕ → ℕ → Option ℕ
scan_free zero ht idx offset = none
scan_free (suc n) ht idx offset =
    let rest = scan_free n ht idx (offset + 1) in
    if (ht (slot idx offset)).pba == pba_invalid then some offset else rest

-- `(NR_ENTRY + current_idx - entry->neigh_off) % NR_ENTRY`: the home index of the entry there.
unfoldable pub home_of : Table → ℕ → ℕ
home_of ht current_idx = (nr_entry + current_idx - (ht current_idx).neigh_off) % nr_entry

-- The innermost loop is the first one, from the entry's next offset on, over its own home.
-- `make_free n` runs `offset` from `n - 1` down to 0.
unfoldable pub make_free : ℕ → Table → ℕ → Option (ℕ × Table)
make_free zero ht idx = none
make_free (suc offset) ht idx =
    let rest = make_free offset ht idx in
    let current_idx = slot idx offset in
    let entry = ht current_idx in
    let ori_idx = home_of ht current_idx in
    elim (scan_free (max_hop - (entry.neigh_off + 1)) ht ori_idx (entry.neigh_off + 1)) [
      | some dis_off ↦ some (
        offset,
        update ht (slot ori_idx dis_off)
            (fill_entry dis_off entry.key_fp_tag entry.kv_size entry.pba),
      )
      | none ↦ rest
    ]

-- The offset of a slot that may be overwritten, and the table with the entry moved out of it.
unfoldable pub find_free_entry : Table → ℕ → Option (ℕ × Table)
find_free_entry ht idx = elim (scan_free max_hop ht idx 0) [
  | some offset ↦ some (offset, ht)
  | none ↦ make_free max_hop ht idx
]
