-- ===== src/ThreadPool/Queue.antt =====
-- The array `clifd[MAXNCLI]` with its indices `iget` and `iput`, as 30chp/serv08.c moves them.
-- A descriptor is the 32-bit pattern of an int, so that the -1 of a failed `accept` is one too.
use unpvol.Common.{ℕ, ◌+◌, Option, none, some, List, ◌==◌, if◌then◌else◌, get_or, set, replicate}

abbrev pub max_ncli : ℕ
max_ncli = 32

pub record Clifd : Type 0 where
  pub clifd : List ℕ
  pub iget : ℕ
  pub iput : ℕ

-- Static storage, and `iget = iput = 0` in `main`.
abbrev pub empty : Clifd
empty = record { clifd = replicate max_ncli 0; iget = 0; iput = 0 }

-- `if (++i == MAXNCLI) i = 0;`
abbrev pub advance : ℕ → ℕ
advance i = if i + 1 == max_ncli then 0 else i + 1

-- What `main` does under the mutex: it stores and goes on, or it exits.
pub data Put : Type 0 where
  stored : Clifd → Put
  exited : Clifd → Put

unfoldable pub put : Clifd → ℕ → Put
put q connfd =
    let j = advance q.iput in
    let q' = record q { clifd = set q.clifd q.iput connfd; iput = j } in
    if j == q.iget then exited q' else stored q'

-- What a thread does under the mutex: `none` where it waits on the condition.
unfoldable pub take_conn : Clifd → Option (ℕ × Clifd)
take_conn q =
    if q.iget == q.iput
    then none
    else some (get_or q.clifd q.iget 0, record q { iget = advance q.iget })
