-- ===== src/Requests/State.antt =====
-- include/handle-data.h: the data of a request. A callback is a name, and a call of one is an entry of
-- a log; what callbacks do to the data is not modelled.
use otf_cpt.Common.{ℕ, Bool, true, false, Option, none, some, List, [], ◌∷◌}
use otf_cpt.Common.Int.{ℤ, negsuc}

pub data Kind : Type 0 where
  isend irecv imrecv mprobe icoll ireduce iallreduce ibcast : Kind
  psend precv pcoll preduce pallreduce pbcast : Kind

-- Without the piggybacked values, which no operation of this file touches. An MPI request is a
-- number.
pub record RequestData : Type 0 where
  pub handle : ℕ
  pub persistent : Bool
  pub start_callback : Option ℕ
  pub cancel_callback : Option ℕ
  pub completion_callback : Option ℕ
  pub freed : Bool
  pub cancelled : Bool
  pub kind : Kind
  pub pb_reqs : ℕ × ℕ
  pub remote : ℤ
  pub tag : ℤ
  pub root : ℤ

pub data Event : Type 0 where
  started : ℕ → ℕ → Event
  was_cancelled : ℕ → ℕ → Event
  completed : ℕ → ℕ → ℕ → Event

-- `MPI_REQUEST_NULL` is a constant of the MPI library.
module _ (null : ℕ) where
  -- `RequestData()`
  unfoldable pub new_data : RequestData
  new_data = record {
    handle = null;
    persistent = false;
    start_callback = none;
    cancel_callback = none;
    completion_callback = none;
    freed = true;
    cancelled = false;
    kind = isend;
    pb_reqs = (null, null);
    remote = negsuc 41;
    tag = negsuc 41;
    root = negsuc 41;
  }

  -- `fini()`
  unfoldable pub fini : RequestData → RequestData
  fini d = record d {
    handle = null;
    pb_reqs = (null, null);
    completion_callback = none;
    start_callback = none;
    cancel_callback = none;
    remote = negsuc 41;
    tag = negsuc 41;
    root = negsuc 41;
    kind = isend;
    freed = true;
    cancelled = false;
  }

-- `init(request, persistent)`
unfoldable pub init : ℕ → Bool → RequestData → RequestData
init request persistent d = record d {
  persistent = persistent;
  handle = request;
  freed = false;
  cancelled = false;
}

-- The calls that `start()`, `cancel()` and `complete(status)` make on the data at `i`.
unfoldable pub start_calls : ℕ → RequestData → List Event
start_calls i d = elim d.start_callback [ none ↦ [] | some c ↦ started i c ∷ [] ]

unfoldable pub cancel_calls : ℕ → RequestData → List Event
cancel_calls i d = elim d.cancel_callback [ none ↦ [] | some c ↦ was_cancelled i c ∷ [] ]

unfoldable pub complete_calls : ℕ → ℕ → RequestData → List Event
complete_calls i status d = elim d.completion_callback [
  | none ↦ []
  | some c ↦ completed i c status ∷ []
]

-- `setStartCallback`, `setCancelCallback` and `setCompletionCallback`
unfoldable pub set_start_callback : ℕ → RequestData → RequestData
set_start_callback c d = record d { persistent = true; start_callback = some c }

unfoldable pub set_cancel_callback : ℕ → RequestData → RequestData
set_cancel_callback c d = record d { cancel_callback = some c }

unfoldable pub set_completion_callback : ℕ → RequestData → RequestData
set_completion_callback c d = record d { completion_callback = some c }
