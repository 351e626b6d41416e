-- ===== src/Messaging.antt =====
-- shared/nats_client.py: the attempts to reach NATS, to ensure a stream and to subscribe. What the
-- server answers to a call of an attempt is an argument: no error, or the lower-case text of one.
pub mod Attempts
pub mod Endings
pub mod Subscribing
mod Tests
use geocoder_fwd.Prelude.{
  ℕ, zero, suc, ◌+◌, ◌-◌, ◌*◌, ◌^◌, min, Bool, true, false, ◌&&◌, ◌||◌, Option, none, some, List,
  [], ◌∷◌, String, codes, ◌==◌, ltb, if◌then◌else◌, any,
}

abbrev pub Error : Type 0
Error = List ℕ

abbrev starts : List ℕ → List ℕ → Bool
starts [] text = true
starts (c ∷ word) [] = false
starts (c ∷ word) (d ∷ text) = (c == d) && starts word text

-- `keyword in error_str`
abbrev within : List ℕ → List ℕ → Bool
within word [] = starts word []
within word (d ∷ text) = starts word (d ∷ text) || within word text

unfoldable pub is_transient_error : Error → Bool
is_transient_error err =
    any (λ keyword. within (codes keyword) err)
      ("serviceunavailable" ∷ "timeout" ∷ "connection" ∷ "disconnect" ∷ [])

unfoldable pub is_connection_error : Error → Bool
is_connection_error err =
    any (λ keyword. within (codes keyword) err)
      ("serviceunavailable" ∷ "connection" ∷ "disconnect" ∷ "closed" ∷ "broken" ∷ [])

-- How a function ends.
pub data Outcome : Type 0 where
  returned : Outcome
  raised : Error → Outcome
  -- The `RuntimeError` of `subscribe_to` itself.
  not_created : Outcome

-- One round of a loop: it leaves the function, or sleeps for some seconds and goes on.
pub data Round : Type 0 where
  stop : Outcome → Round
  again : ℕ → Round

abbrev pub after : ℕ → Option Outcome × ℕ → Option Outcome × ℕ
after seconds (outcome, slept) = (outcome, seconds + slept)

abbrev pub proceed : Round → Option Outcome × ℕ → Option Outcome × ℕ
proceed (stop outcome) rest = (some outcome, 0)
proceed (again seconds) rest = after seconds rest

-- `for attempt in range(...)`: how it ends, `none` where it runs out, and the seconds slept.
unfoldable pub attempts : (ℕ → Round) → ℕ → ℕ → Option Outcome × ℕ
attempts round attempt zero = (none, 0)
attempts round attempt (suc n) = proceed (round attempt) (attempts round (suc attempt) n)

-- The call of one attempt.
abbrev pub Calls : Type 0
Calls = ℕ → Option Error

abbrev pub stream_retries : ℕ
stream_retries = 5

-- The stream does not exist, so it is created; a second failure that is final is passed over.
abbrev pub create_round : ℕ → Option Error → Round
create_round attempt none = stop returned
create_round attempt (some e) =
    if (is_transient_error e || within (codes "already exists") e)
      && ltb attempt (stream_retries - 1)
    then again (attempt + 1)
    else if ltb attempt (stream_retries - 1)
    then again 0
    else stop (raised e)

abbrev pub find_round : ℕ → Option Error → Option Error → Round
find_round attempt none added = stop returned
find_round attempt (some e) added =
    if is_transient_error e && ltb attempt (stream_retries - 1)
    then again (attempt + 1)
    else create_round attempt added

abbrev pub stream_round : Calls → Calls → ℕ → Round
stream_round find add attempt = find_round attempt (find attempt) (add attempt)

-- By the answers to `find_stream_name_by_subject` and `add_stream`; those to `update_stream` are
-- ignored.
unfoldable pub ensure_stream : Calls → Calls → Option Outcome × ℕ
unfolding attempts
ensure_stream find add = attempts (stream_round find add) 0 stream_retries

abbrev pub max_retries : ℕ
max_retries = 10

abbrev pub connect_answer : ℕ → Option Error → Round
connect_answer attempt none = stop returned
connect_answer attempt (some e) =
    if ltb attempt (max_retries - 1)
    then again (min (if is_transient_error e then 2 * 2 ^ attempt else 2) 30)
    else stop (raised e)

abbrev pub connect_round : Calls → ℕ → Round
connect_round dial attempt = connect_answer attempt (dial attempt)

-- The loop of `connect`, by the answers to `nats.connect`.
unfoldable pub open_connection : Calls → Option Outcome × ℕ
unfolding attempts
open_connection dial = attempts (connect_round dial) 0 max_retries

-- What `connect` does after its loop.
abbrev pub then_ensure : Option Outcome × ℕ → Option Outcome × ℕ → Option Outcome × ℕ
then_ensure (some returned, slept) ensured = after slept ensured
then_ensure (outcome, slept) ensured = (outcome, slept)

unfoldable pub connect : Calls → Calls → Calls → Option Outcome × ℕ
unfolding open_connection
connect dial find add = then_ensure (open_connection dial) (ensure_stream find add)

abbrev pub subscribe_retries : ℕ
subscribe_retries = 5

abbrev pub verify_round : ℕ → Option Error → Round
verify_round attempt none = stop returned
verify_round attempt (some e) =
    if ltb attempt (subscribe_retries - 1) then again (2 * (attempt + 1)) else stop not_created

abbrev pub simple_round : ℕ → Error → Option Error → Option Error → Round
simple_round attempt e none verified = verify_round attempt verified
simple_round attempt e (some e2) verified =
    if (is_transient_error e || is_transient_error e2) && ltb attempt (subscribe_retries - 1)
    then again (2 * (attempt + 1))
    else stop (raised e2)

abbrev pub attach_round : ℕ → Option Error → Option Error → Option Error → Round
attach_round attempt none simple verified = verify_round attempt verified
attach_round attempt (some e) simple verified = simple_round attempt e simple verified

abbrev pub subscribe_round : Calls → Calls → Calls → ℕ → Round
subscribe_round attach simple verify attempt =
    attach_round attempt (attach attempt) (simple attempt) (verify attempt)

-- By the answers to `pull_subscribe` with the configuration and without it, and to `consumer_info`.
unfoldable pub subscribe_to : Calls → Calls → Calls → Option Outcome × ℕ
unfolding attempts
subscribe_to attach simple verify =
    attempts (subscribe_round attach simple verify) 0 subscribe_retries
