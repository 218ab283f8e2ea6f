-- ===== src/Net/Lifecycle.antt =====
-- The life of a `ConnectionImpl` (net/connectionImpl.cpp) under the event loop: the loop may call
-- any handler at any time with any error code, and run any posted task.
use lobbysvr.Base.{
  ℕ, suc, ◌+◌, ◌≤◌, ◌≡◌, ap, inl, inr, Bool, true, List, [], ◌∷◌, ◌++◌, some, arith, Bool-cases,
  ◌==◌,
}
use lobbysvr.Net.Memory.{Memory}
use lobbysvr.Net.Buffer.{MessageBuffer, ok, write_count, new_with_manip}
use lobbysvr.Net.Parser.{Finish}
use lobbysvr.Net.Connection.{
  Connection, is_open, Task, dispatch_message, retry_read, close_socket, Report, on_close,
  on_expired_session, filled, read_handler, read_failed, write_handler, on_expire_time,
  on_close_reserve_time, close_reserve, close, start_closing, renew_expire_time, cancel_timers,
  dec_read_handler_pending_count, inc_read_handler_pending_count,
}
use lobbysvr.Net.Dispatch.{result, dispatch}

abbrev pub closes : List Report → ℕ
closes [] = 0
closes (on_close ∷ rs) = suc (closes rs)
closes (on_expired_session ∷ rs) = closes rs

abbrev pub close_tasks : List Task → ℕ
close_tasks [] = 0
close_tasks (close_socket ∷ ts) = suc (close_tasks ts)
close_tasks (dispatch_message m ∷ ts) = close_tasks ts
close_tasks (retry_read ec n ∷ ts) = close_tasks ts

closes-append : (xs ys : List Report) → closes (xs ++ ys) ≡ closes xs + closes ys
closes-append [] ys = omega arith
closes-append (on_close ∷ xs) ys = omega (arith, closes-append xs ys)
closes-append (on_expired_session ∷ xs) ys = closes-append xs ys

close_tasks-append : (xs ys : List Task) → close_tasks (xs ++ ys) ≡ close_tasks xs + close_tasks ys
close_tasks-append [] ys = omega arith
close_tasks-append (close_socket ∷ xs) ys = omega (arith, close_tasks-append xs ys)
close_tasks-append (dispatch_message m ∷ xs) ys = close_tasks-append xs ys
close_tasks-append (retry_read ec n ∷ xs) ys = close_tasks-append xs ys

-- A close that was reported, or is posted, is the only one, and the connection is no longer open.
pub record IsOrderly (c : Connection) : Type 0 where
  pub single : closes c.reports + close_tasks c.posted ≤ 1
  pub unclosed : is_open c.status ≡ true → closes c.reports + close_tasks c.posted ≡ 0

-- The handlers that a parser calls may set a timer, send, or change the users, and leave these alone.
pub record Keeps (parser : MessageBuffer → Connection → Finish Connection) : Type 0 where
  pub keeps_status : (m : MessageBuffer) (c : Connection) → (parser m c).state.status ≡ c.status
  pub keeps_posted : (m : MessageBuffer) (c : Connection) → (parser m c).state.posted ≡ c.posted
  pub keeps_reports : (m : MessageBuffer) (c : Connection) → (parser m c).state.reports ≡ c.reports

-- One turn of the event loop.
module _ (eof : ℕ) (parser : MessageBuffer → Connection → Finish Connection) where
  pub data Turn : Connection → Connection → Type 0 where
    reads :
        {c c' : Connection} (m : Memory) (bytes : List ℕ) (ec n : ℕ) (shut : Bool)
        → read_handler eof m ec n shut (filled bytes c) ≡ ok c'
        → Turn c c'
    writes : {c : Connection} (ec : ℕ) (shut : Bool) → Turn c (write_handler ec shut c)
    keep_fires : {c : Connection} (ec : ℕ) → Turn c (on_expire_time ec c)
    reserve_fires :
        {c : Connection} (ec : ℕ) (shut : Bool) → Turn c (on_close_reserve_time ec shut c)
    reserves : {c : Connection} (ms : ℕ) → Turn c (close_reserve ms c)
    runs_close :
        {c : Connection} (before after : List Task) (shut : Bool)
        → c.posted ≡ before ++ close_socket ∷ after
        → Turn c (close shut (record c { posted = before ++ after }))
    runs_retry :
        {c : Connection} (before after : List Task) (ec n : ℕ) (shut : Bool)
        → c.posted ≡ before ++ retry_read ec n ∷ after
        → Turn c (read_failed eof ec n shut (record c { posted = before ++ after }))
    runs_dispatch :
        {c c' : Connection} (before after : List Task) (msg : MessageBuffer) (b : Bool)
        → c.posted ≡ before ++ dispatch_message msg ∷ after
        → dispatch (some parser) msg (record c { posted = before ++ after }) ≡ result b c'
        → Turn c c'

  pub data Turns (c : Connection) : Connection → Type 0 where
    here : Turns c c
    next : {c' c'' : Connection} → Turns c c' → Turn c' c'' → Turns c c''

start_closing-IsOrderly :
    (shut : Bool) (c : Connection) → IsOrderly c → IsOrderly (start_closing shut c)
unfolding start_closing cancel_timers
start_closing-IsOrderly shut c o = ground (arith, close_tasks-append c.posted (close_socket ∷ []))

close-IsOrderly :
    (shut : Bool) (c : Connection)
    → closes c.reports + close_tasks c.posted ≡ 0
    → IsOrderly (close shut c)
unfolding close cancel_timers
close-IsOrderly shut c h = ground (arith, closes-append c.reports (on_close ∷ []))

read_failed-IsOrderly :
    (eof ec n : ℕ) (shut : Bool) (c : Connection)
    → IsOrderly c
    → IsOrderly (read_failed eof ec n shut c)
unfolding read_failed
read_failed-IsOrderly eof ec n shut c o = ground (
  arith,
  close_tasks-append c.posted (retry_read ec n ∷ []),
  start_closing-IsOrderly shut c o,
  start_closing-IsOrderly shut (record c { post_retry_count = c.post_retry_count + 1 }),
)

received-IsOrderly :
    (eof ec n : ℕ) (m : Memory) (shut : Bool) (c : Connection) {c' : Connection}
    → IsOrderly c
    → (ec == 0) ≡ true
    → read_handler eof m ec n shut c ≡ ok c'
    → IsOrderly c'
unfolding read_handler write_count new_with_manip renew_expire_time inc_read_handler_pending_count
received-IsOrderly eof ec n m shut c o h e = ground (
  arith,
  close_tasks-append c.posted
      (dispatch_message (record c.msg { write_pos = c.msg.write_pos + n }) ∷ []),
)

read_handler-IsOrderly :
    (eof ec n : ℕ) (m : Memory) (shut : Bool) (c : Connection) {c' : Connection}
    → IsOrderly c
    → read_handler eof m ec n shut c ≡ ok c'
    → IsOrderly c'
unfolding read_handler
read_handler-IsOrderly eof ec n m shut c {c'} o e = elim (Bool-cases (ec == 0)) [
  | inl zero_code ↦ received-IsOrderly eof ec n m shut c o zero_code e
  | inr failure ↦ ground (arith, read_failed-IsOrderly eof ec n shut c o)
]

module _ (eof : ℕ) (parser : MessageBuffer → Connection → Finish Connection)
    (k : Keeps parser) where
  close_tasks-taken :
      (before after : List Task) (task : Task)
      → close_tasks (before ++ task ∷ after)
        ≡ close_tasks (task ∷ []) + close_tasks (before ++ after)
  close_tasks-taken before after task = omega (
    arith,
    close_tasks-append before (task ∷ after),
    close_tasks-append before after,
    close_tasks-append (task ∷ []) after,
  )

  dispatch-IsOrderly :
      (msg : MessageBuffer) (b : Bool) (c : Connection) {c' : Connection}
      → IsOrderly c
      → dispatch (some parser) msg c ≡ result b c'
      → IsOrderly c'
  unfolding dispatch dec_read_handler_pending_count
  dispatch-IsOrderly msg b c o e =
      ground (arith, k.keeps_status msg c, k.keeps_posted msg c, k.keeps_reports msg c)

  Turn-IsOrderly : {c c' : Connection} → Turn eof parser c c' → IsOrderly c → IsOrderly c'
  unfolding write_handler on_expire_time on_close_reserve_time close_reserve renew_expire_time
  Turn-IsOrderly (reads m bytes ec n shut e) o =
      read_handler-IsOrderly eof ec n m shut _ (record { single = o.single; unclosed = o.unclosed })
        e
  Turn-IsOrderly {c} (writes ec shut) o = ground (arith, start_closing-IsOrderly shut c o)
  Turn-IsOrderly {c} (keep_fires ec) o =
      ground (arith, closes-append c.reports (on_expired_session ∷ []))
  Turn-IsOrderly {c} (reserve_fires ec shut) o = ground (arith, close-IsOrderly shut c)
  Turn-IsOrderly (reserves ms) o = ground arith
  Turn-IsOrderly {c} (runs_close before after shut e) o =
      close-IsOrderly shut (record c { posted = before ++ after })
        (omega (arith, ap close_tasks e, close_tasks-taken before after close_socket, o.single))
  Turn-IsOrderly {c} (runs_retry before after ec n shut e) o =
      read_failed-IsOrderly eof ec n shut (record c { posted = before ++ after })
        (record {
          single =
              omega (
                arith,
                ap close_tasks e,
                close_tasks-taken before after (retry_read ec n),
                o.single,
              );
          unclosed = λ h. omega (
            arith,
            ap close_tasks e,
            close_tasks-taken before after (retry_read ec n),
            o.unclosed h,
          );
        })
  Turn-IsOrderly {c} (runs_dispatch before after msg b e e') o =
      dispatch-IsOrderly msg b (record c { posted = before ++ after })
        (record {
          single = omega (
            arith,
            ap close_tasks e,
            close_tasks-taken before after (dispatch_message msg),
            o.single,
          );
          unclosed = λ h. omega (
            arith,
            ap close_tasks e,
            close_tasks-taken before after (dispatch_message msg),
            o.unclosed h,
          );
        })
        e'

  Turns-IsOrderly : {c c' : Connection} → Turns eof parser c c' → IsOrderly c → IsOrderly c'
  Turns-IsOrderly here o = o
  Turns-IsOrderly (next ts t) o = Turn-IsOrderly t (Turns-IsOrderly ts o)

  -- Whatever handlers the event loop calls, in whatever order and with whatever error codes, a
  -- connection that starts with no close posted or reported reports `onClose` at most once, if the
  -- parser leaves its status, its posted tasks and its reports alone.
  pub Turns-closes_once :
      {c c' : Connection}
      → closes c.reports + close_tasks c.posted ≡ 0
      → Turns eof parser c c'
      → closes c'.reports ≤ 1
  Turns-closes_once h ts =
      omega
        (arith, (Turns-IsOrderly ts (record { single = omega arith; unclosed = λ _. h })).single)
