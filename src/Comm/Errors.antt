-- ===== src/Comm/Errors.antt =====
-- src/core/comm.h: `vcclComm::noteError`; src/core/comm.cc: `vcclCommAbort`, `vcclCommGetAsyncError`,
-- `vcclGetLastError`; src/core/collectives.cc: `checkComm`. A communicator's error state; the text
-- of the failing thread's last error (src/util/log.cc) is an argument.
use Prim.Native.String.{String}
use vkccl.Prelude.{
  Bool, true, false, ◌≡◌, ◌||◌, refl, ◌∙◌, List, [], ◌∷◌, Option, none, some, arith, if◌then◌else◌,
}
use vkccl.Types.{
  Result, success, unhandled_error, system_error, internal_error, invalid_argument, invalid_usage,
  remote_error,
}

pub record ErrorState : Type 0 where
  pub async_error : Result
  pub aborted : Bool
  pub last_error : String

abbrev pub fresh : ErrorState
fresh = record { async_error = success; aborted = false; last_error = "" }

-- The results after which the communicator is dead.
abbrev pub is_fatal : Result → Bool
is_fatal system_error = true
is_fatal remote_error = true
is_fatal internal_error = true
is_fatal unhandled_error = true
is_fatal _ = false

abbrev is_empty : String → Bool
is_empty String.[] = true
is_empty (String.◌∷◌ c s) = false

abbrev pub copy_text : String → String → String
copy_text msg old = if is_empty msg then old else msg

abbrev pub latch_first : Result → Result → Result
latch_first success res = res
latch_first old res = old

-- `noteError(res)` on a thread whose last error text is `msg`.
pub note_error : Result → String → ErrorState → ErrorState
note_error success msg e = e
note_error res msg e = record {
  async_error = latch_first e.async_error res;
  aborted = is_fatal res || e.aborted;
  last_error = copy_text msg e.last_error;
}

-- `checkComm`; `none` is a null communicator.
unfoldable pub check_comm : Option ErrorState → Result
check_comm none = invalid_argument
check_comm (some e) = if e.aborted then invalid_usage else success

-- `vcclCommAbort` on the error state, without the transport's own `abort`.
pub comm_abort : String → Option ErrorState → Result × Option ErrorState
comm_abort msg none = (invalid_argument, none)
comm_abort msg (some e) =
    (success, some (note_error unhandled_error msg (record e { aborted = true })))

-- `vcclCommGetAsyncError` with a result pointer that is not null.
pub get_async_error : Option ErrorState → Result × Option Result
get_async_error none = (invalid_argument, none)
get_async_error (some e) = (success, some e.async_error)

-- `vcclGetLastError`: the communicator's own text, or else that of the calling thread.
abbrev pub get_last_error : String → Option ErrorState → String
get_last_error msg none = msg
get_last_error msg (some e) = copy_text e.last_error msg

-- The results of the operations of a communicator, noted in order.
pub note_all : List (Result × String) → ErrorState → ErrorState
note_all [] e = e
note_all ((res, msg) ∷ rest) e = note_all rest (note_error res msg e)

-- The first failure of a run of operations.
pub first_failure : List (Result × String) → Result
first_failure [] = success
first_failure ((success, msg) ∷ rest) = first_failure rest
first_failure ((res, msg) ∷ rest) = res

pub any_fatal : List (Result × String) → Bool
any_fatal [] = false
any_fatal ((res, msg) ∷ rest) = is_fatal res || any_fatal rest

abbrev first_of_two : Result → Result → Result
first_of_two success b = b
first_of_two a b = a

latch-latch :
    (a b c : Result) → first_of_two (latch_first a b) c ≡ first_of_two a (first_of_two b c)
latch-latch success b c = refl
latch-latch _ b c = refl

async_error-note_all :
    (rs : List (Result × String)) (e : ErrorState)
    → (note_all rs e).async_error ≡ first_of_two e.async_error (first_failure rs)
unfolding note_all first_failure note_error
async_error-note_all [] e = ground arith
async_error-note_all ((success, msg) ∷ rest) e = async_error-note_all rest e
async_error-note_all ((res, msg) ∷ rest) e =
    async_error-note_all rest (note_error res msg e)
    ∙ latch-latch e.async_error res (first_failure rest)

aborted-note_all :
    (rs : List (Result × String)) (e : ErrorState)
    → (note_all rs e).aborted ≡ (e.aborted || any_fatal rs)
unfolding note_all any_fatal note_error
aborted-note_all [] e = ground arith
aborted-note_all ((res, msg) ∷ rest) e =
    ground (arith, aborted-note_all rest (note_error res msg e))

-- However many operations of a new communicator fail: `vcclCommGetAsyncError` reports the first
-- failure, and the checks of later calls refuse the communicator exactly when some result was
-- one of the four fatal codes.
pub note_all_lem :
    (rs : List (Result × String))
    → (get_async_error (some (note_all rs fresh)) ≡ (success, some (first_failure rs)))
      × (check_comm (some (note_all rs fresh)) ≡ (if any_fatal rs then invalid_usage else success))
unfolding get_async_error check_comm
note_all_lem rs = ground (arith, async_error-note_all rs fresh, aborted-note_all rs fresh)

-- After `vcclCommAbort` every check refuses the communicator, whatever is noted later, and an
-- error noted before the abort is still the one reported.
comm_abort_lem :
    (msg : String) (e : ErrorState) (rs : List (Result × String))
    → (e' : ErrorState) × (comm_abort msg (some e) ≡ (success, some e'))
      × (check_comm (some (note_all rs e')) ≡ invalid_usage)
      × ((note_all rs e').async_error ≡ first_of_two e.async_error unhandled_error)
unfolding comm_abort check_comm note_error
comm_abort_lem msg e rs =
    let e' : ErrorState = note_error unhandled_error msg (record e { aborted = true }) in
    (e', refl, ground (arith, aborted-note_all rs e'), ground (arith, async_error-note_all rs e'))
