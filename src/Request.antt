-- ===== src/Request.antt =====
-- include/request.h, include/type.h and the parameter blocks that the two indexes hang on a request.
use udepot_hopscotch.Base.{ℕ}
use udepot_hopscotch.Pair.{KeyStruct, ValStruct}

-- `enum req_type_t`
pub data ReqType : Type 0 where
  padding set get delete range iterator : ReqType

-- The steps of include/hopscotch.h.
pub data HopStep : Type 0 where
  init key_match key_mismatch : HopStep

-- `struct hop_params`
pub record HopParams : Type 0 where
  pub offset : ℕ
  pub lookup_step : HopStep
  pub insert_step : HopStep

abbrev pub make_hop_params : HopParams
make_hop_params = record { offset = 0; lookup_step = init; insert_step = init }

-- The steps of include/bigkv_index.h.
pub data BiStep : Type 0 where
  init key_mismatch update_table write_ptable write_kv : BiStep

-- `struct bi_params`
pub record BiParams : Type 0 where
  pub read_step : BiStep
  pub write_step : BiStep

abbrev pub make_bi_params : BiParams
make_bi_params = record { read_step = BiStep.init; write_step = BiStep.init }

-- `struct request` over the block that `params` points to, a `P`. The stopwatch, the end function,
-- which is always `net_end_req`, and the handler, which owns the state that the operations take,
-- are left out.
pub record Request (P : Type 0) : Type 0 where
  pub type : ReqType
  pub seq_num : ℕ
  pub key : KeyStruct
  pub value : ValStruct
  pub params : P
