-- ===== src/Epoll/Tests.antt =====
-- Runs of the epoll servers on small inputs.
use unpvol.Common.{ℕ, ◌≡◌, refl, true, false, List, [], ◌∷◌, arith}
use unpvol.Stream.Kernel.{Errno, eagain, chunk, broken}
use unpvol.Epoll.Calls.{Event, connfd, refused, prints, left, ends, Script, AcceptStep, ReadStep}
use unpvol.Epoll.Burst.{for_good, for_now, IsFinal, printed, pauses, gives}
use unpvol.Epoll.Drain.{IsInput, handle-drains, handle-settles, finish, settle, stop_of}
use unpvol.Epoll.Taking.{IsIncoming}
use unpvol.Epoll.Edge
use unpvol.Epoll.Example
use unpvol.Epoll.Oneshot

abbrev event_on : ℕ → Event
event_on fd = record { epollerr = false; epollhup = false; epollin = true; fd = fd }

abbrev gave : List ℕ → ReadStep
gave s = record { arrival = chunk s; wrote_out = true }

abbrev not_now : ReadStep
not_now = record { arrival = broken eagain; wrote_out = true }

abbrev took : ℕ → AcceptStep
took c = record { accepted = connfd c; unblocked = true; added = true }

abbrev gave_up : Errno → AcceptStep
gave_up e = record { accepted = refused e; unblocked = true; added = true }

abbrev hello : Script
hello = record { accepts = []; reads = gave (104 ∷ 105 ∷ []) ∷ gave (33 ∷ []) ∷ gave [] ∷ [] }

abbrev hello_more : Script
hello_more = record { accepts = []; reads = gave (104 ∷ 105 ∷ []) ∷ not_now ∷ [] }

abbrev two_callers : Errno → Script
two_callers e = record { accepts = took 8 ∷ took 9 ∷ gave_up e ∷ []; reads = [] }

event_on-IsInput : IsInput 3 (event_on 7)
unfolding IsInput
event_on-IsInput = (refl, refl, refl, λ e. omega arith)

event_on-IsIncoming : IsIncoming 3 (event_on 3)
unfolding IsIncoming
event_on-IsIncoming = (refl, refl, refl, refl)

end-IsFinal : IsFinal (chunk []) for_good
unfolding IsFinal
end-IsFinal = tt

eagain-IsFinal : IsFinal (broken eagain) for_now
unfolding IsFinal
eagain-IsFinal = tt

handle-drains_example :
    (Edge.handle 3 (event_on 7) hello
      ≡ ends (prints (104 ∷ 105 ∷ []) ∷ prints (33 ∷ []) ∷ finish 7 for_good) left)
    × (Example.handle 3 (event_on 7) hello
        ≡ ends (prints (104 ∷ 105 ∷ []) ∷ prints (33 ∷ []) ∷ finish 7 for_good) left)
unfolding printed stop_of
handle-drains_example =
    handle-drains 3 (event_on 7) hello ((104 ∷ 105 ∷ []) ∷ (33 ∷ []) ∷ []) for_good event_on-IsInput
      (gives (gives (pauses end-IsFinal)))

handle-settles_example :
    Oneshot.handle 3 (event_on 7) hello_more
    ≡ ends (prints (104 ∷ 105 ∷ []) ∷ settle 7 for_now) left
unfolding printed stop_of
handle-settles_example =
    handle-settles 3 (event_on 7) hello_more ((104 ∷ 105 ∷ []) ∷ []) for_now event_on-IsInput
      (gives (pauses eagain-IsFinal))
