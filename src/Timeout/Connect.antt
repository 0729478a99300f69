-- ===== src/Timeout/Connect.antt =====
-- `signal` and `connect_timeo` of 14chp/connect_timeo.c, with the state of the process that they
-- change: the handler of SIGALRM, the seconds left of the alarm, and the sockets that were closed.
use unpvol.Common.{ℕ, Bool, true, false, Option, none, some, List, ◌∷◌}
use unpvol.Stream.Kernel.{Errno, eintr}

-- The handler of a signal; `earlier` stands for those that other code has installed.
pub data Handler : Type 0 where
  earlier : ℕ → Handler
  connect_alarm : Handler

-- `sa_flags`, on a system that defines both.
pub data Flag : Type 0 where
  sa_interrupt : Flag
  sa_restart : Flag

unfoldable pub flag_for : Bool → Flag
flag_for true = sa_interrupt
flag_for false = sa_restart

pub record Process : Type 0 where
  pub handler : Handler
  pub flag : Flag
  pub alarm : ℕ
  pub closed : List ℕ

-- `Signal(SIGALRM, func)`: none is `err_sys`, where `sigaction` fails; otherwise the old handler.
pub record Installed : Type 0 where
  pub process : Process
  pub old : Handler

unfoldable pub signal : Bool → Handler → Process → Option Installed
signal false func p = none
signal true func p =
    some (record { process = record p { handler = func; flag = flag_for true }; old = p.handler })

-- What `connect` answers: it succeeds, or fails at once, or a signal interrupts it.
pub data Connected : Type 0 where
  success : Connected
  failure : Errno → Connected

-- The value of `errno` that the caller finds.
pub data Error : Type 0 where
  etimedout : Error
  errno : Errno → Error

pub data Value : Type 0 where
  zero_returned : Value
  minus_one : Error → Value

pub record Returned : Type 0 where
  pub process : Process
  pub value : Value

-- `connect`, and what follows its failure: the socket is closed, and an interruption is a timeout.
unfoldable pub attempt : ℕ → Connected → Process → Returned
attempt sockfd success p = record { process = p; value = zero_returned }
attempt sockfd (failure eintr) p = record {
  process = record p { closed = sockfd ∷ p.closed };
  value = minus_one etimedout;
}
attempt sockfd (failure e) p = record {
  process = record p { closed = sockfd ∷ p.closed };
  value = minus_one (errno e);
}

-- `alarm(0)`, and the old handler again.
unfoldable pub restore : Option Installed → Value → Option Returned
restore none v = none
restore (some i) v = some (record { process = i.process; value = v })

abbrev pub with_alarm : ℕ → Process → Process
with_alarm nsec p = record p { alarm = nsec }

unfoldable pub after_signal : ℕ → ℕ → Bool → Connected → Option Installed → Option Returned
after_signal sockfd nsec restored c none = none
after_signal sockfd nsec restored c (some i) =
    let r = attempt sockfd c (with_alarm nsec i.process) in
    restore (signal restored i.old (with_alarm 0 r.process)) r.value

-- `connect_timeo(sockfd, saptr, salen, nsec)`, with the answers to the two `sigaction` and to
-- `connect`; none is `err_sys`.
unfoldable pub connect_timeo : ℕ → ℕ → Bool → Bool → Connected → Process → Option Returned
connect_timeo sockfd nsec installed restored c p =
    after_signal sockfd nsec restored c (signal installed connect_alarm p)

-- `Connect_timeo`; none is `err_sys`.
unfoldable pub or_die : Option Returned → Option Process
or_die none = none
or_die (some r) = elim r.value [ zero_returned ↦ some r.process | minus_one e ↦ none ]
