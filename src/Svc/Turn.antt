-- ===== src/Svc/Turn.antt =====
-- The order of the SVC's requests: a version request, a hello, and then any other.
use greybus.Base.{ℕ, ◌≡◌, false, List, ◌==◌, if◌then◌else◌, arith, ◌∙◌}
use greybus.Errno.{Errno, einval}
use greybus.Svc.{
  SvcState, reset, protocol_version, svc_hello, Peer, Host, type_version, type_hello, is_expected,
  request_recv,
}
use greybus.Svc.Order.{Holds, Holds-mono, next, request_recv-next}

-- How many of the two first requests were accepted.
abbrev pub rank : SvcState → ℕ
rank reset = 0
rank protocol_version = 1
rank svc_hello = 2

-- How many must have been accepted before a request of a type.
abbrev pub turn : ℕ → ℕ
turn type = if type == type_version then 0 else if type == type_hello then 1 else 2

is_expected_lem : (type : ℕ) (s : SvcState) → is_expected type s ≡ (rank s == turn type)
unfolding is_expected
is_expected_lem type reset = ground arith
is_expected_lem type protocol_version = ground arith
is_expected_lem type svc_hello = ground arith

abbrev pub InOrder : ℕ → Host → Errno → Host → Type 0
InOrder type hd ret hd' =
    (hd'.state ≡ next type ret hd.state)
    × ((rank hd.state == turn type) ≡ false → (ret ≡ einval) × (hd' ≡ hd))

-- After a request that does not fault, the state is the next one if it was a version request or a
-- hello and its result is success, and as before if not. A version request when one was accepted
-- before, a hello unless a version request and no hello was accepted, and any other request before
-- the hello are -EINVAL and change nothing.
pub request_recv-InOrder :
    (peer : Peer) (type : ℕ) (payload : List ℕ) (hd : Host)
    → Holds
        (λ ((ret, hd') : Errno × Host). InOrder type hd ret hd')
        (request_recv peer type payload hd)
request_recv-InOrder peer type payload hd =
    Holds-mono _ _ (request_recv peer type payload hd) (request_recv-next peer type payload hd)
      λ (ret, hd') (e, k). (e, λ late. k (is_expected_lem type hd.state ∙ late))
