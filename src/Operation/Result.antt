-- ===== src/Operation/Result.antt =====
-- The life of an operation's result: gb_operation_result_set.
use greybus.Base.{◌≡◌, refl, Bool, false, List, [], ◌∷◌, arith, if◌then◌else◌, All}
use greybus.Errno.{Errno, ebadr, eilseq, is_ebadr, is_einprogress}
use greybus.Operation.State.{next_errno}

-- The results of a list of callers, set one after another: the final `errno`, and what each was told.
pub set_all : Errno → List Errno → Errno × List Bool
set_all e [] = (e, [])
set_all e (r ∷ rs) =
    let (e', told) = next_errno e r in let (last, rest) = set_all e' rs in (last, told ∷ rest)

abbrev pub all_false : List Errno → List Bool
all_false [] = []
all_false (r ∷ rs) = false ∷ all_false rs

-- What is recorded for a result: -EBADR is replaced.
abbrev pub recorded : Errno → Errno
recorded r = if is_ebadr r then eilseq else r

abbrev pub IsFinal : Errno → Type 0
IsFinal e = (is_einprogress e ≡ false)

stuck :
    (e : Errno) (rs : List Errno) → IsFinal e → All IsFinal rs → set_all e rs ≡ (e, all_false rs)
unfolding set_all next_errno
stuck e [] h k = refl
stuck e (r ∷ rs) h k = ground (arith, stuck e rs h k.1)

-- Before the request is sent no result but -EINPROGRESS is recorded: the initial one stays, and each
-- caller is told so.
pub result_before_send :
    (rs : List Errno) → All IsFinal rs → set_all ebadr rs ≡ (ebadr, all_false rs)
result_before_send rs k = stuck ebadr rs refl k
