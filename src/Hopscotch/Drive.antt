-- ===== src/Hopscotch/Drive.antt =====
-- A request of src/hopscotch.c from its first call to its end, with no other request between: each
-- read delivers a pair, `cb_keycmp` runs on it, and `retry_req_to_hlr` brings the operation back.
pub mod Get
pub mod Set
pub mod SetGet
use udepot_hopscotch.Base.{ℕ, zero, suc, ◌+◌, Option, none, some, List, splice}
use udepot_hopscotch.Request.{HopStep}
use udepot_hopscotch.Hopscotch.Table.{Table}
use udepot_hopscotch.Hopscotch.Ops.{
  HopRequest, params_of, Io, hopscotch_set, hopscotch_get, CbEnd, cb_keycmp,
}

-- The buffer after `hlr->read` has copied the bytes of a pair to its front.
abbrev pub deliver : HopRequest → List ℕ → HopRequest
deliver req bytes = record req {
  value = record (req.value) { value = splice req.value.value 0 bytes };
}

pub data GetEnd : Type 0 where
  found : HopRequest → GetEnd
  missing : HopRequest → GetEnd
  unfinished : GetEnd

pub data SetEnd (S : Type 0) : Type 0 where
  stored : Table → S → ℕ → ℕ → List ℕ → SetEnd S
  aborted : SetEnd S
  unfinished : SetEnd S

-- After `cb_keycmp`: the end of a request to get, or the next call.
unfoldable pub get_called_back : (HopRequest → GetEnd) → HopRequest × CbEnd → GetEnd
get_called_back again (req, CbEnd.ended) = found req
get_called_back again (req, CbEnd.retried) = again req

-- A request to set is never ended by `cb_keycmp`.
unfoldable pub set_called_back :
    {S : Type 0} → (HopRequest → SetEnd S) → HopRequest × CbEnd → SetEnd S
set_called_back again (req, CbEnd.ended) = SetEnd.unfinished
set_called_back again (req, CbEnd.retried) = again req

-- `fetch pba size` is what the device delivers.
module _ (fetch : ℕ → ℕ → List ℕ) where
  unfoldable pub after_get : (HopRequest → GetEnd) → HopRequest × Io → GetEnd
  after_get again (req, Io.not_existing) = missing req
  after_get again (req, Io.read pba size) =
      get_called_back again (cb_keycmp (deliver req (fetch pba size)))
  after_get again _ = GetEnd.unfinished

  unfoldable pub run_get : ℕ → Table → HopRequest → GetEnd
  unfolding after_get get_called_back
  run_get zero ht req = GetEnd.unfinished
  run_get (suc fuel) ht req = after_get (run_get fuel ht) (hopscotch_get ht req)

  unfoldable pub after_set :
      {S : Type 0} → (Table → S → HopRequest → SetEnd S) → Table × S × HopRequest × Io → SetEnd S
  after_set again (ht, dev, req, Io.abort) = aborted
  after_set again (ht, dev, req, Io.write pba size value) = stored ht dev pba size value
  after_set again (ht, dev, req, Io.read pba size) =
      set_called_back (again ht dev) (cb_keycmp (deliver req (fetch pba size)))
  after_set again _ = SetEnd.unfinished

  unfoldable pub run_set : {S : Type 0} → (S → ℕ → ℕ × S) → ℕ → Table → S → HopRequest → SetEnd S
  unfolding after_set set_called_back
  run_set get_next_pba zero ht dev req = SetEnd.unfinished
  run_set get_next_pba (suc fuel) ht dev req =
      after_set (run_set get_next_pba fuel) (hopscotch_set get_next_pba ht dev req)
