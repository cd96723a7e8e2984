-- ===== src/Requests/Factory.antt =====
-- include/tracking.h: `DataPool` and `RequestFactoryInst<int>`. An object is its number, counted in
-- the order of construction, and its contents stand in the store `requests`. The vectors `dataPointer`
-- and `availableHandles` are lists with the back first. The locks make each operation atomic. The
-- result `none` is undefined behaviour: an access to the table out of bounds, or to a null pointer.
use otf_cpt.Common.{
  ℕ, zero, suc, ◌+◌, Bool, true, false, Option, none, some, List, [], ◌∷◌, ◌++◌, length, get_elem?,
  set, replicate, update, if◌then◌else◌, ◌==◌,
}
use otf_cpt.Requests.State.{
  RequestData, Event, new_data, fini, init, start_calls, cancel_calls, complete_calls,
}

pub record Factory : Type 0 where
  pub requests : ℕ → RequestData
  pub created : ℕ
  pub pool : List ℕ
  pub table : List (Option ℕ)
  pub available : List ℕ
  pub log : List Event

-- `push_back` of the `n` numbers from `i` on.
unfoldable pub push_range : ℕ → ℕ → List ℕ → List ℕ
push_range i zero stack = stack
push_range i (suc n) stack = push_range (suc i) n (i ∷ stack)

unfoldable pub table_at : List (Option ℕ) → ℕ → Option ℕ
table_at table h = elim (get_elem? table h) [ none ↦ none | some p ↦ p ]

-- `null` is MPI_REQUEST_NULL, and `page` the number of objects in a block of 4096 bytes.
module _ (null page : ℕ) where
  unfoldable pub initial : Factory
  unfolding new_data
  initial = record {
    requests = λ i. new_data null;
    created = 0;
    pool = [];
    table = [];
    available = [];
    log = [];
  }

  unfoldable pub new_datas : Factory → Factory
  unfolding push_range
  new_datas s = record s { created = s.created + page; pool = push_range s.created page s.pool }

  -- `newAH`
  unfoldable pub new_handles : Factory → Factory
  unfolding push_range
  new_handles s = record s {
    table = s.table ++ replicate 64 none;
    available = push_range (length s.table) 64 s.available;
  }

  unfoldable pub is_empty : List ℕ → Bool
  is_empty [] = true
  is_empty (_ ∷ _) = false

  -- `back()` and `pop_back()` of the pool.
  unfoldable pub pop_data : Factory → Option (ℕ × Factory)
  pop_data s = elim s.pool [ [] ↦ none | i ∷ pool ↦ some (i, record s { pool = pool }) ]

  unfoldable pub get_data : Factory → Option (ℕ × Factory)
  unfolding new_datas is_empty pop_data
  get_data s = pop_data (if is_empty s.pool then new_datas s else s)

  unfoldable pub return_data : ℕ → Factory → Factory
  return_data i s = record s { pool = i ∷ s.pool }

  -- `back()` and `pop_back()` of the handles, and the entry in the table.
  unfoldable pub pop_handle : ℕ → Factory → Option (ℕ × Factory)
  pop_handle i s = elim s.available [
    | [] ↦ none
    | h ∷ available ↦ some (h, record s { available = available; table = set s.table h (some i) })
  ]

  -- The locked block of `_newRequest`.
  unfoldable pub enter_table : ℕ → Factory → Option (ℕ × Factory)
  unfolding new_handles is_empty pop_handle
  enter_table i s = pop_handle i (if is_empty s.available then new_handles s else s)

  unfoldable pub write_data : ℕ → (RequestData → RequestData) → Factory → Factory
  write_data i f s = record s { requests = update s.requests i (f (s.requests i)) }

  -- `newRequest(req, data, persistent)`, where object `i` is the data.
  unfoldable pub new_request_for : ℕ → ℕ → Bool → Factory → Option (ℕ × Factory)
  unfolding enter_table init write_data
  new_request_for req i persistent s =
      if req == null then some (null, s) else enter_table i (write_data i (init req persistent) s)

  -- What a wrapper of an MPI function does with the factory: `newData()`, what it writes to the data, as
  -- its callbacks, and `newRequest` with the MPI request that it got. No other thread calls the
  -- factory in between.
  unfoldable pub post_request :
      (RequestData → RequestData) → ℕ → Bool → Factory → Option (ℕ × Factory)
  unfolding get_data new_request_for write_data
  post_request set req persistent s = elim (get_data s) [
    | none ↦ none
    | some (i, s₁) ↦ new_request_for req i persistent (write_data i set s₁)
  ]

  -- `newRequest(req, persistent)`
  unfoldable pub new_request : ℕ → Bool → Factory → Option (ℕ × Factory)
  unfolding get_data enter_table init
  new_request req persistent s = if req == null then some (null, s) else elim (get_data s) [
    | none ↦ none
    | some (i, s₁) ↦ elim (enter_table i s₁) [
      | none ↦ none
      | some (h, s₂) ↦
          some
            (h, record s₂ { requests = update s₂.requests i (init req persistent (s₂.requests i)) })
    ]
  ]

  -- The end of `completeRequest` of a request that is not persistent.
  unfoldable pub finish : ℕ → ℕ → ℕ → Factory → Factory
  unfolding fini complete_calls return_data
  finish h i status s = return_data i (record s {
    available = h ∷ s.available;
    log = complete_calls i status (s.requests i) ++ s.log;
    requests = update s.requests i (fini null (s.requests i));
  })

  -- `completeRequest(req, status)`: what is left of the request, and the new state.
  unfoldable pub complete_request : ℕ → ℕ → Factory → Option (ℕ × Factory)
  unfolding table_at finish complete_calls
  complete_request h status s = if h == null then some (null, s) else elim (table_at s.table h) [
    | none ↦ none
    | some i ↦
        if (s.requests i).persistent
        then some (h, record s { log = complete_calls i status (s.requests i) ++ s.log })
        else some (null, finish h i status s)
  ]

  -- `startRequest(req)`: returns the MPI request.
  unfoldable pub start_request : ℕ → Factory → Option (ℕ × Factory)
  unfolding table_at start_calls
  start_request h s = if h == null then some (null, s) else elim (table_at s.table h) [
    | none ↦ none
    | some i ↦
        some ((s.requests i).handle, record s { log = start_calls i (s.requests i) ++ s.log })
  ]

  -- `cancelRequest(req)`
  unfoldable pub cancel_request : ℕ → Factory → Option (ℕ × Factory)
  unfolding table_at cancel_calls
  cancel_request h s = if h == null then some (null, s) else elim (table_at s.table h) [
    | none ↦ none
    | some i ↦ some (
      h,
      record s {
        requests = update s.requests i (record (s.requests i) { cancelled = true });
        log = cancel_calls i (s.requests i) ++ s.log;
      },
    )
  ]

  -- `getHandle(handle)`: the MPI request behind a handle.
  unfoldable pub get_handle : ℕ → Factory → Option ℕ
  unfolding table_at
  get_handle h s =
      if h == null
      then some null
      else elim (table_at s.table h) [ none ↦ none | some i ↦ some (s.requests i).handle ]
