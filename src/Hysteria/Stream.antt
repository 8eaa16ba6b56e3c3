-- ===== src/Hysteria/Stream.antt =====
-- serverConn of service.go: the answer to a TCP request, which stands before the data of the stream.
use hy_panel.Base.{
  ℕ, String, ◌≡◌, refl, Bool, true, false, Option, none, some, List, [], ◌∷◌, ◌++◌, length,
  if◌then◌else◌,
}

-- What is handed to the stream: an answer (good or bad, its message and its payload), or data.
pub data Frame : Type 0 where
  answer : Bool → String → List ℕ → Frame
  payload : List ℕ → Frame

pub data StreamError : Type 0 where
  err_invalid : StreamError
  write_failed : StreamError

-- serverConn, with the frames that were handed to its stream, the oldest first.
pub record ServerConn : Type 0 where
  pub response_written : Bool
  pub sent : List Frame

-- The environment's answer to a write on the stream: the bytes written, and whether it failed.
pub record WriteResult : Type 0 where
  pub count : ℕ
  pub failed : Bool

wrap_error : Bool → Option StreamError
wrap_error true = some write_failed
wrap_error false = none

-- HandshakeFailure
pub handshake_failure : String → WriteResult → ServerConn → ServerConn × Option StreamError
unfolding wrap_error
handshake_failure message w c = if c.response_written then (c, some err_invalid) else (
  record { response_written = true; sent = c.sent ++ answer false message [] ∷ [] },
  wrap_error w.failed,
)

-- HandshakeSuccess
pub handshake_success : WriteResult → ServerConn → ServerConn × Option StreamError
unfolding wrap_error
handshake_success w c = if c.response_written then (c, none) else (
  record { response_written = true; sent = c.sent ++ answer true "" [] ∷ [] },
  wrap_error w.failed,
)

-- Write
pub write : List ℕ → WriteResult → ServerConn → ServerConn × ℕ × Option StreamError
unfolding wrap_error
write bytes w c =
    if c.response_written
    then (record c { sent = c.sent ++ payload bytes ∷ [] }, w.count, wrap_error w.failed)
    else (
      record { response_written = true; sent = c.sent ++ answer true "" bytes ∷ [] },
      (if w.failed then 0 else length bytes),
      wrap_error w.failed,
    )

pub data Call : Type 0 where
  fail : String → Call
  succeed : Call
  send : List ℕ → Call

pub step : ServerConn → Call × WriteResult → ServerConn
unfolding handshake_failure handshake_success write
step c (fail message, w) = (handshake_failure message w c).0
step c (succeed, w) = (handshake_success w c).0
step c (send bytes, w) = (write bytes w c).0

pub run : ServerConn → List (Call × WriteResult) → ServerConn
run c [] = c
run c (e ∷ es) = run (step c e) es

abbrev pub accepted : ServerConn
accepted = record { response_written = false; sent = [] }

abbrev pub AllPayload : List Frame → Type 0
AllPayload [] = Unit
AllPayload (answer b m d ∷ fs) = ⊥
AllPayload (payload d ∷ fs) = AllPayload fs

-- Nothing was sent and no answer is noted, or one answer was sent first and only data behind it.
abbrev pub AnsweredOnce : ServerConn → List Frame → Type 0
AnsweredOnce c [] = c.response_written ≡ false
AnsweredOnce c (answer b m d ∷ fs) = (c.response_written ≡ true) × AllPayload fs
AnsweredOnce c (payload d ∷ fs) = ⊥

AllPayload-append :
    (fs : List Frame) (d : List ℕ) → AllPayload fs → AllPayload (fs ++ payload d ∷ [])
AllPayload-append [] d h = tt
AllPayload-append (answer b m e ∷ fs) d h = h
AllPayload-append (payload e ∷ fs) d h = AllPayload-append fs d h

step-AnsweredOnce :
    (b : Bool) (fs : List Frame) (e : Call × WriteResult)
    → AnsweredOnce (record { response_written = b; sent = fs }) fs
    → AnsweredOnce
        (step (record { response_written = b; sent = fs }) e)
        (step (record { response_written = b; sent = fs }) e).sent
unfolding step
step-AnsweredOnce true [] e h = cc
step-AnsweredOnce false [] (fail m, w) h = (refl, tt)
step-AnsweredOnce false [] (succeed, w) h = (refl, tt)
step-AnsweredOnce false [] (send d, w) h = (refl, tt)
step-AnsweredOnce b (payload d ∷ fs) e h = absurd h
step-AnsweredOnce false (answer a m d ∷ fs) e h = cc h.0
step-AnsweredOnce true (answer a m d ∷ fs) (fail m', w) h = h
step-AnsweredOnce true (answer a m d ∷ fs) (succeed, w) h = h
step-AnsweredOnce true (answer a m d ∷ fs) (send d', w) h = (refl, AllPayload-append fs d' h.1)

run_keeps :
    (c : ServerConn) (es : List (Call × WriteResult))
    → AnsweredOnce c c.sent
    → AnsweredOnce (run c es) (run c es).sent
unfolding run
run_keeps c [] h = h
run_keeps c (e ∷ es) h = run_keeps (step c e) es (step-AnsweredOnce c.response_written c.sent e h)

-- Whatever is called on an accepted stream, in whatever order and whichever writes fail: either
-- nothing was handed to the stream and no answer is noted, or its first frame is an answer, an
-- answer is noted, and every later frame is data.
pub run-AnsweredOnce :
    (es : List (Call × WriteResult)) → AnsweredOnce (run accepted es) (run accepted es).sent
run-AnsweredOnce es = run_keeps accepted es refl
