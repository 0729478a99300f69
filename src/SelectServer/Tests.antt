-- ===== src/SelectServer/Tests.antt =====
-- A first client of the `select` server, and a turn in which two of three clients are ready.
use unpvol.Common.{arith, ℕ, ◌≡◌, refl, Bool, false, none, some, [], ◌∷◌, ◌==◌, ◌||◌, replicate}
use unpvol.Stream.Kernel.{Arrival, chunk}
use unpvol.SelectServer.Table.{Turned, Answers, goes_on, turn, start, with_client, after_save, save}
use unpvol.SelectServer.Early.{ready}
use unpvol.SelectServer.Watch.{IsValid}
use unpvol.SelectServer.Reach.{begun, turned, Reach-IsValid}

abbrev asks : ℕ → Bool
asks fd = (fd == 4) || (fd == 6)

abbrev says : ℕ → Arrival
says fd = chunk (fd ∷ [])

three_ready : ready asks says 3 (some 4 ∷ some 5 ∷ some 6 ∷ none ∷ []) ≡ 2
unfolding ready
three_ready = refl

-- The listening socket is 3 and the first connection 4.
abbrev knock : Answers
knock = record { nready = 1; rset = λ fd. fd == 3; connfd = 4; reads = says }

abbrev one_client : Turned
one_client = record {
  table = with_client 4 (start 3) (record { at = 0; slots = some 4 ∷ replicate 1023 none });
  done = [];
}

start_free : (start 3).allset 4 ≡ false
unfolding start
start_free = refl

turn-knock : turn 3 knock (start 3) ≡ goes_on one_client
unfolding turn after_save save start
turn-knock = refl

Reach-IsValid_example : IsValid 3 one_client.table
Reach-IsValid_example =
    Reach-IsValid 3 one_client.table (omega arith) (turned knock begun start_free turn-knock)
