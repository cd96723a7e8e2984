-- ===== src/Requests/View.antt =====
-- include/tracking.h: the data that a handle leads to.
use otf_cpt.Common.{ℕ, ◌≡◌, ◌≢◌, Option, none, some, Bool, false, arith, if◌then◌else◌, update}
use otf_cpt.Requests.State.{RequestData}
use otf_cpt.Requests.Factory.{Factory, table_at}

-- The data behind a handle.
unfoldable pub request : ℕ → Factory → Option RequestData
unfolding table_at
request h s = elim (table_at s.table h) [ none ↦ none | some i ↦ some (s.requests i) ]

pub request-eq :
    (h i : ℕ) (s : Factory) → table_at s.table h ≡ some i → request h s ≡ some (s.requests i)
unfolding request
request-eq h i s e = rw (e, request)

pub update_same : (f : ℕ → RequestData) (i : ℕ) (d : RequestData) → update f i d i ≡ d
update_same f i d = ground arith

pub update_other : (f : ℕ → RequestData) (i j : ℕ) (d : RequestData) → i ≢ j → update f i d j ≡ f j
update_other f i j d n = ground (arith, n)

pub if_false : {A : Type 0} (b : Bool) (x y : Option A) → b ≡ false → (if b then x else y) ≡ y
if_false b x y e = rw e
