-- ===== src/Output.antt =====
-- src/output.h, output.c and output_tools.c: the output handler, the write of a message that is
-- left off and taken up, and the loop that delivers a message with connects, waits and retries.
-- The kernel's answers are the fields of `Env`, an argument, each by the number of calls made
-- before it. The bytes that write() took are logged in the world. `connect` and `disconnect` are the
-- handler's function pointers, a `Driver`.
pub mod Contract
pub mod Command
pub mod Write
pub mod Health
pub mod Text
pub mod Stall
pub mod Prompt
pub mod Deliver
pub mod Drivers
pub mod Tests
use genbuf.Prelude.{
  ℕ, zero, suc, ◌+◌, ◌-◌, ◌≡◌, Bool, true, false, ◌||◌, not, Option, none, some, List, [], ◌∷◌,
  ◌++◌, ◌==◌, if◌then◌else◌, ltb, length, take, drop,
}
use genbuf.Sys.{Errno, success, eagain}
use genbuf.InputBuffer.{newline}
use Command.{World, Run, ok, aborted, out_of_fuel, Cmd, pure, ◌>>=◌, ◌>>◌, tick, require}

pub data OsState : Type 0 where
  os_disconnected os_connecting os_ready os_sending os_error : OsState

-- The descriptor -1 is `none`.
pub record OutputHandler : Type 0 where
  pub state : OsState
  pub fd : Option ℕ
  pub err : Errno
  pub retry : ℕ

pub data WriteResult : Type 0 where
  wrote : ℕ → WriteResult
  write_failed : Errno → WriteResult

-- -1, 0, and the descriptors that are ready
pub data SelectResult : Type 0 where
  select_failed : SelectResult
  timed_out : SelectResult
  active : List ℕ → SelectResult

-- The first argument is the number of calls made before. `write` is given how many bytes to write,
-- and `select` the descriptors to wait for.
pub record Env : Type 0 where
  pub write : ℕ → ℕ → WriteResult
  pub select : ℕ → List ℕ → SelectResult

pub record Driver : Type 0 where
  pub connect : OutputHandler → Cmd OutputHandler
  pub disconnect : OutputHandler → Cmd OutputHandler

abbrev pub can_write : OsState → Bool
can_write os_ready = true
can_write os_sending = true
can_write _ = false

-- output_handler_common_init
unfoldable pub init : Option ℕ → OutputHandler
init fd = record { state = os_disconnected; fd = fd; err = success; retry = 3 }

-- output_handler_common_do_nothing, the member `timeout` of every output but TCP
unfoldable pub do_nothing : OutputHandler → Bool
do_nothing h = true

-- What strlen() and write() make of the bytes behind a pointer: those before the first NUL.
unfoldable pub text : List ℕ → List ℕ
text [] = []
text (x ∷ xs) = let rest = text xs in if x == 0 then [] else x ∷ rest

-- str[strlen - 1] == '\n'; a text of no bytes, where the source reads before it, is refused too
unfoldable pub ends_line : List ℕ → Bool
ends_line [] = false
ends_line (c ∷ []) = c == newline
ends_line (c ∷ d ∷ cs) = ends_line (d ∷ cs)

-- what a write comes to: the result, the handler, and the bytes still to do
pub record Written : Type 0 where
  pub done : Bool
  pub handler : OutputHandler
  pub todo : ℕ

abbrev written : Bool → OutputHandler → ℕ → Written
written done h todo = record { done = done; handler = h; todo = todo }

-- the switch over errno behind the loop
pub check_errno : OutputHandler → ℕ → Errno → Written
check_errno h todo success = written false (record h { err = success; state = os_sending }) todo
check_errno h todo eagain = written false (record h { err = eagain; state = os_sending }) todo
check_errno h todo e = written false (record h { err = e; state = os_error }) todo

-- the bytes from `str + (strlen - todo)` on, `k` of them
pub chunk : List ℕ → (todo k : ℕ) → List ℕ
chunk msg todo k = take k (drop (length msg - todo) msg)

abbrev log : List ℕ → World → World
log xs w = record w { sent = w.sent ++ xs }

-- A write() and the body of the loop behind it; one round for each write().
pub write_loop : Env → ℕ → OutputHandler → List ℕ → ℕ → Cmd Written
write_loop env zero h msg todo w = out_of_fuel
write_loop env (suc rounds) h msg todo w = elim (env.write w.clock todo) [
  | write_failed e ↦ ok (check_errno h todo e) (tick w)
  | wrote zero ↦ ok (check_errno h todo success) (tick w)
  | wrote (suc k) ↦
      if ltb todo (suc k)
      then aborted
      else if (todo - suc k) == 0
      then ok (written true (record h { state = os_ready }) 0)
          (log (chunk msg todo (suc k)) (tick w))
      else write_loop env rounds (record h { state = os_sending }) msg (todo - suc k)
          (log (chunk msg todo (suc k)) (tick w))
]

-- Each write() takes a byte or ends the loop, so that `todo + 1` rounds are enough.
pub common_write : Env → OutputHandler → List ℕ → ℕ → Cmd Written
unfolding write_loop check_errno
common_write env h msg todo = do
  require (can_write h.state)
  require (ends_line msg)
  write_loop env (suc todo) h msg todo

pub common_cleanup : Driver → OutputHandler → Cmd OutputHandler
common_cleanup drv h = elim h.state [ os_disconnected ↦ pure h | _ ↦ drv.disconnect h ]

-- the variables of deliver_message
pub record Delivery : Type 0 where
  pub handler : OutputHandler
  pub todo : ℕ
  pub retry : ℕ
  pub fds : List ℕ

pub data Round : Type 0 where
  finished : Bool → OutputHandler → Round
  again : Delivery → Round

abbrev fd_isset : Option ℕ → List ℕ → Bool
fd_isset none fds = false
fd_isset (some fd) [] = false
fd_isset (some fd) (x ∷ fds) = x == fd || fd_isset (some fd) fds

abbrev fd_set : Option ℕ → List ℕ → List ℕ
fd_set none fds = fds
fd_set (some fd) fds = fd ∷ fds

select : Env → List ℕ → Cmd SelectResult
select env fds w = ok (env.select w.clock fds) (tick w)

-- the end of a round
pub reset_error : Driver → Delivery → Cmd Round
reset_error drv d = elim d.handler.state [
  | os_error ↦ do
    h ← drv.disconnect d.handler
    pure (again (record d { handler = h; retry = d.retry - 1 }))
  | _ ↦ pure (again d)
]

pub try_write : Env → Driver → List ℕ → Delivery → Cmd Round
try_write env drv msg d =
    if fd_isset d.handler.fd d.fds
    then (do
      r ← common_write env d.handler msg d.todo
      if r.done
          then pure (finished true r.handler)
          else reset_error drv (record d { handler = r.handler; todo = r.todo; retry = 3 }))
    else reset_error drv (record d { retry = 3 })

try_connect : Driver → Delivery → Cmd Round
try_connect drv d = do h ← drv.connect d.handler; reset_error drv (record d { handler = h })

-- the switch over the state, where select() says that there is activity
pub act : Env → Driver → List ℕ → Delivery → Cmd Round
act env drv msg d = elim d.handler.state [
  | os_disconnected ↦ try_connect drv d
  | os_connecting ↦ try_connect drv d
  | os_ready ↦ try_write env drv msg d
  | os_sending ↦ try_write env drv msg d
  | os_error ↦ reset_error drv d
]

on_select : Env → Driver → List ℕ → Delivery → SelectResult → Cmd Round
on_select env drv msg d select_failed = pure (finished false d.handler)
on_select env drv msg d timed_out = reset_error drv (record d { retry = d.retry - 1 })
on_select env drv msg d (active ready) = act env drv msg d

-- The set of descriptors behind select(), which is given the set or NULL.
pub after_select : Bool → List ℕ → SelectResult → List ℕ
after_select true fds timed_out = []
after_select true fds (active ready) = ready
after_select _ fds _ = fds

pub connect_first : Driver → OutputHandler → Cmd OutputHandler
connect_first drv h = elim h.state [ os_disconnected ↦ drv.connect h | _ ↦ pure h ]

-- One round of the loop. Where the handler cannot write, select() waits for no descriptor.
pub round : Env → Driver → List ℕ → Delivery → Cmd Round
unfolding connect_first on_select select after_select
round env drv msg d = do
  h ← connect_first drv d.handler
  let fds = fd_set h.fd d.fds
  s ← select env (if can_write h.state then fds else [])
  on_select env drv msg (record d { handler = h; fds = after_select (can_write h.state) fds s }) s

-- the loop, with as many rounds as it may take
pub deliver_loop : Env → Driver → List ℕ → ℕ → Delivery → Cmd (Bool × OutputHandler)
deliver_loop env drv msg zero d w = out_of_fuel
deliver_loop env drv msg (suc rounds) d w =
    if d.retry == 0 then ok (false, d.handler) w else elim (round env drv msg d w) [
      | aborted ↦ aborted
      | out_of_fuel ↦ out_of_fuel
      | ok (finished done h) w' ↦ ok (done, h) w'
      | ok (again d') w' ↦ deliver_loop env drv msg rounds d' w'
    ]

-- `msg` is a text: its length is its strlen().
abbrev pub first_delivery : OutputHandler → List ℕ → Delivery
first_delivery h msg = record { handler = h; todo = length msg; retry = h.retry; fds = [] }

pub deliver_message : Env → Driver → ℕ → OutputHandler → List ℕ → Cmd (Bool × OutputHandler)
unfolding deliver_loop
deliver_message env drv rounds h msg = deliver_loop env drv msg rounds (first_delivery h msg)
