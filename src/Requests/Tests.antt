-- ===== src/Requests/Tests.antt =====
-- Requests at concrete numbers: MPI_REQUEST_NULL is 1000, and a page has 8 objects.
use otf_cpt.Common.{◌≡◌, refl, subst, some, none, [], arith, true, false}
use otf_cpt.Requests.State.{RequestData, init, new_data, set_completion_callback}
use otf_cpt.Requests.Factory.{
  Factory, initial, new_request, post_request, complete_request, get_handle,
}
use otf_cpt.Requests.Distinct.{Distinct-push_range}
use otf_cpt.Requests.Valid.{Live, IsFactory}
use otf_cpt.Requests.View.{request}
use otf_cpt.Requests.Create.{Creates, new_request-Creates}
use otf_cpt.Requests.Post.{post_request-Creates}
use otf_cpt.Requests.Complete.{Completes, complete_request-Completes}
use otf_cpt.Requests.Session.{posted, same_state, here, and_then}
use otf_cpt.Requests.Held.{post_request-Steps}

initial-IsFactory : IsFactory (initial 1000 8)
unfolding initial
initial-IsFactory = record {
  pool_distinct = tt;
  pool_below = tt;
  available_distinct = tt;
  available_below = tt;
  live = λ h l. absurd (omega (arith, l.0));
  apart = λ h k i l m p q. absurd (omega (arith, l.0));
}

-- A broadcast that calls back function 4 at its completion.
post_request-Creates_example :
    Creates
      (λ d. init 7 false (set_completion_callback 4 d))
      (initial 1000 8)
      (post_request 1000 8 (set_completion_callback 4) 7 false (initial 1000 8))
post_request-Creates_example =
    post_request-Creates 1000 8 (set_completion_callback 4) 7 false (initial 1000 8) (omega arith)
      (λ e. omega (arith, e)) initial-IsFactory

-- The factory after one request that is not persistent.
abbrev one_request : Factory
one_request = elim (new_request 1000 8 7 false (initial 1000 8)) [
  | some p ↦ p.1
  | none ↦ initial 1000 8
]

-- Its handle is 63, the last of the new ones.
one_request_returned : new_request 1000 8 7 false (initial 1000 8) ≡ some (63, one_request)
unfolding new_request initial
one_request_returned = refl

one_request-IsFactory : IsFactory one_request
one_request-IsFactory =
    let c =
      new_request-Creates 1000 8 7 false (initial 1000 8) (omega arith) (λ e. omega (arith, e))
        initial-IsFactory in
    subst IsFactory (same_state c.returned one_request_returned) c.valid

one_request-Live : Live 63 one_request
unfolding new_request initial
one_request-Live = (omega arith, (Distinct-push_range 0 64 [] tt tt).0)

abbrev its_data : RequestData
its_data = init 7 false (new_data 1000)

its_data_behind : request 63 one_request ≡ some its_data
unfolding request new_request initial
its_data_behind = refl

complete_request-Completes_example :
    Completes 1000 63 5 its_data one_request (complete_request 1000 8 63 5 one_request)
complete_request-Completes_example =
    complete_request-Completes 1000 8 63 5 one_request one_request-IsFactory one_request-Live
      (λ e. omega (arith, e)) its_data its_data_behind

-- Two requests; the first handle still leads to its own.
abbrev two_requests : Factory
two_requests = elim (new_request 1000 8 9 true one_request) [ some p ↦ p.1 | none ↦ one_request ]

-- The same with data that the wrappers take and fill in.
abbrev posted_first : Factory
posted_first = elim (post_request 1000 8 (set_completion_callback 4) 7 false (initial 1000 8)) [
  | some p ↦ p.1
  | none ↦ initial 1000 8
]

abbrev posted_second : Factory
posted_second = elim (post_request 1000 8 (set_completion_callback 5) 9 true posted_first) [
  | some p ↦ p.1
  | none ↦ posted_first
]

first_posted :
    post_request 1000 8 (set_completion_callback 4) 7 false (initial 1000 8)
    ≡ some (63, posted_first)
unfolding post_request initial
first_posted = refl

second_posted :
    post_request 1000 8 (set_completion_callback 5) 9 true posted_first ≡ some (62, posted_second)
unfolding post_request initial
second_posted = refl

post_request-Steps_example : get_handle 1000 8 63 posted_second ≡ some 7
post_request-Steps_example =
    post_request-Steps 1000 8 (set_completion_callback 4) 7 false (initial 1000 8) posted_first
      posted_second 63 (omega arith) (λ e. omega (arith, e)) (λ e. omega (arith, e))
      initial-IsFactory first_posted
      (and_then here
        (posted (set_completion_callback 5) 9 true 62 (λ e. omega (arith, e)) second_posted) tt)
