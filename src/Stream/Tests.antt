-- ===== src/Stream/Tests.antt =====
-- Runs of the stream routines, and the theorems at concrete inputs.
use unpvol.Common.{
  ℕ, zero, suc, ◌<◌, ◌≡◌, ◌≢◌, refl, inl, inr, none, some, [], ◌∷◌, arith, ltb, if◌then◌else◌,
}
use unpvol.Stream.Kernel.{eintr, other, Reply, wrote, failed, Arrival, chunk, broken, returned}
use unpvol.Stream.Memory.{Memory, slice}
use unpvol.Stream.Writen.{writen, writen_loop, writen_signed}
use unpvol.Stream.Delivery.{Takes, Interrupted, delivered, writen_delivers, writen_signed_delivers}
use unpvol.Stream.Errors.{backwards, writen_runs_back}
use unpvol.Stream.Readn.{readn, readn_signed}
use unpvol.Stream.Gather.{Gives, Reads, readn-Reads}
use unpvol.Stream.Readline.{
  Reader, left, Line, my_read, my_read_cnt, again, serve, readline, readline_loop, c_string,
  str_cli,
}
use unpvol.Stream.ByteStream.{stream, until_eof, Ready}
use unpvol.Stream.LineCut.{Cuts, readline-Cuts}
use unpvol.Stream.Copy.{str_cli-copies}

-- A kernel that takes two bytes of an offer at most.
abbrev two_at_most : ℕ → ℕ → Reply
two_at_most i c = wrote (if ltb c 2 then c else 2)

two_at_most-Takes : Takes two_at_most
two_at_most-Takes i c h = ((if ltb c 2 then c else 2), refl, ground arith, ground arith)

-- The same, with its first call interrupted.
abbrev interrupted_once : ℕ → ℕ → Reply
interrupted_once zero c = failed eintr
interrupted_once (suc i) c = two_at_most i c

interrupted_once-Interrupted : Interrupted 1 interrupted_once
interrupted_once-Interrupted zero c h = inl (omega arith, refl)
interrupted_once-Interrupted (suc i) c h =
    inr ((if ltb c 2 then c else 2), refl, ground arith, ground arith)

abbrev count_up : Memory
count_up p = p

abbrev always_fails : ℕ → ℕ → Reply
always_fails i c = failed eintr

writen_three : writen two_at_most 4 100 3 ≡ record {
  calls =
      record { addr = 100; count = 3; reply = wrote 2 }
      ∷ record { addr = 102; count = 1; reply = wrote 1 }
      ∷ [];
  result = some (returned 3);
}
unfolding writen writen_loop
writen_three = refl

-- The interrupted call is not made again: the next one starts in front of the buffer.
writen_interrupted : writen interrupted_once 2 100 3 ≡ record {
  calls =
      record { addr = 100; count = 3; reply = failed eintr }
      ∷ record { addr = 99; count = 4; reply = wrote 2 }
      ∷ [];
  result = none;
}
unfolding writen writen_loop
writen_interrupted = refl

writen_delivers_example :
    (delivered count_up (writen two_at_most 4 100 3).calls ≡ slice count_up 100 3)
    × ((writen two_at_most 4 100 3).result ≡ some (returned 3))
writen_delivers_example =
    writen_delivers count_up two_at_most 4 100 3 two_at_most-Takes (omega arith) (omega arith)

writen_signed_delivers_example :
    (delivered count_up (writen_signed interrupted_once 5 100 3).calls ≡ slice count_up 100 3)
    × ((writen_signed interrupted_once 5 100 3).result ≡ some (returned 3))
writen_signed_delivers_example =
    writen_signed_delivers count_up interrupted_once 1 5 100 3 interrupted_once-Interrupted
      (omega arith) (omega arith)

writen_runs_back_example :
    writen always_fails 7 100 3 ≡ record { calls = backwards eintr 100 3 7; result = none }
writen_runs_back_example =
    writen_runs_back always_fails eintr (λ i c. refl) 7 100 3 (omega arith) (omega arith)
      (omega arith)

hard_error : ◌≢◌ {A = Reply} (failed other) (failed eintr)
hard_error h = cc

no_bytes : (k : ℕ) → 0 < k → failed other ≢ wrote k
no_bytes k pos h = cc

-- A stream of 7s that ends after its third call.
abbrev three_sevens : ℕ → ℕ → Arrival
three_sevens i c = if ltb i 3 then (if ltb 0 c then chunk (7 ∷ []) else chunk []) else chunk []

three_sevens-Gives : Gives three_sevens
three_sevens-Gives i c h = ((if ltb i 3 then 7 ∷ [] else []), ground arith, ground arith)

readn-Reads_example :
    Reads count_up 100 5 (readn three_sevens 6 100 5)
    × Reads count_up 100 5 (readn_signed three_sevens 6 100 5)
readn-Reads_example =
    readn-Reads three_sevens count_up 6 100 5 three_sevens-Gives (omega arith) (omega arith)

-- "ab\nc" in three pieces, with an interruption.
abbrev abc : Reader
abc = record {
  read_cnt = left 0;
  read_ptr = 0;
  read_buf = [];
  coming =
      chunk (b'a' ∷ [])
      ∷ broken eintr
      ∷ chunk (b'b' ∷ 10 ∷ [])
      ∷ chunk (b'c' ∷ [])
      ∷ chunk []
      ∷ chunk []
      ∷ [];
}

abc-Ready : Ready 1 abc
abc-Ready = record { in_buffer = tt; closes = tt }

str_cli-abc : str_cli 5 abc ≡ some (b'a' ∷ b'b' ∷ 10 ∷ b'c' ∷ [])
unfolding str_cli readline readline_loop my_read my_read_cnt again serve c_string
str_cli-abc = refl

readline-Cuts_example : (l : Line) × (readline abc 1024 ≡ some l) × Cuts 0 1023 1 (stream abc) l
readline-Cuts_example = readline-Cuts 0 1024 abc abc-Ready

str_cli-copies_example : str_cli 5 abc ≡ some (stream abc)
unfolding until_eof
str_cli-copies_example = str_cli-copies 5 abc (omega arith) abc-Ready (omega arith)
