-- ===== src/ThreadPool/Refine.antt =====
-- The ring of 30chp/serv08.c is a bounded FIFO.
use unpvol.Common.{
  ℕ, zero, suc, ◌+◌, ◌-◌, ◌≤◌, ◌<◌, ◌≡◌, ◌≢◌, refl, ap, ◌⊎◌, Option, none, some, List, [], ◌∷◌,
  ◌++◌, arith, leb, if◌then◌else◌, length, get_or, set, length-set, get_or-set_self, get_or-set_ne,
  length-append,
}
use unpvol.ThreadPool.Fifo
use unpvol.ThreadPool.Queue.{max_ncli, Clifd, advance, Put, stored, exited, put, take_conn, empty}

pub record IsValid (q : Clifd) : Type 0 where
  pub room : length q.clifd ≡ max_ncli
  pub get_in : q.iget < max_ncli
  pub put_in : q.iput < max_ncli

-- The `n` entries from index `i` on, round the array.
unfoldable pub segment : List ℕ → ℕ → ℕ → List ℕ
segment buf i zero = []
segment buf i (suc n) = get_or buf i 0 ∷ segment buf (advance i) n

-- How many connections wait.
abbrev pub pending : Clifd → ℕ
pending q = if leb q.iget q.iput then q.iput - q.iget else q.iput + max_ncli - q.iget

unfoldable pub contents : Clifd → List ℕ
contents q = segment q.clifd q.iget (pending q)

pub length-segment : (buf : List ℕ) (i n : ℕ) → length (segment buf i n) ≡ n
unfolding segment
length-segment buf i zero = refl
length-segment buf i (suc n) = ap suc (length-segment buf (advance i) n)

-- `segment` matches on `suc`, the code compares the indices.
pub segment_of_ne_zero :
    (buf : List ℕ) (i n : ℕ)
    → n ≢ 0
    → segment buf i n ≡ get_or buf i 0 ∷ segment buf (advance i) (n - 1)
unfolding segment
segment_of_ne_zero buf i zero h = absurd (h refl)
segment_of_ne_zero buf i (suc n) h = ap (λ k. segment buf i (suc k)) (omega arith)

-- A write at an index that the segment does not reach leaves it alone: `k` more steps from `i`
-- lead to `j`.
abbrev Ahead : ℕ → ℕ → ℕ → Type 0
Ahead i j k = (i + k ≡ j) ⊎ (i + k ≡ j + max_ncli)

segment-set :
    (buf : List ℕ) (i j n v k : ℕ)
    → i < max_ncli
    → j < max_ncli
    → Ahead i j k
    → n ≤ k
    → k < max_ncli
    → segment (set buf j v) i n ≡ segment buf i n
unfolding segment
segment-set buf i j zero v k hi hj a h lt = refl
segment-set buf i j (suc n) v k hi hj a h lt =
    ground (arith, get_or-set_ne buf {i = j} {j = i} v 0, segment-set buf (advance i) j n v (k - 1))

segment-snoc :
    (buf : List ℕ) (i j n v : ℕ)
    → length buf ≡ max_ncli
    → i < max_ncli
    → j < max_ncli
    → Ahead i j n
    → n < max_ncli
    → segment (set buf j v) i (suc n) ≡ segment buf i n ++ (v ∷ [])
unfolding segment
segment-snoc buf i j zero v len hi hj a lt = ground (arith, get_or-set_self buf j v 0)
segment-snoc buf i j (suc n) v len hi hj a lt =
    ground (arith, get_or-set_ne buf {i = j} {j = i} v 0, segment-snoc buf (advance i) j n v)

pub empty-IsValid : IsValid empty
empty-IsValid = omega arith

pub length-contents : (q : Clifd) → length (contents q) ≡ pending q
unfolding contents
length-contents q = length-segment q.clifd q.iget (pending q)

-- What a client sees of a `put`.
abbrev pub view : Put → Option (List ℕ)
view (stored q) = some (contents q)
view (exited q) = none

abbrev pub view_take : Option (ℕ × Clifd) → Option (ℕ × List ℕ)
view_take none = none
view_take (some (x, q)) = some (x, contents q)

abbrev pub after_put : Put → Clifd
after_put (stored q) = q
after_put (exited q) = q

pub put-IsValid : (q : Clifd) (v : ℕ) → IsValid q → IsValid (after_put (put q v))
unfolding put
put-IsValid q v h = ground (arith, length-set q.clifd q.iput v)

pub take_conn-IsValid : (q q' : Clifd) (x : ℕ) → IsValid q → take_conn q ≡ some (x, q') → IsValid q'
unfolding take_conn
take_conn-IsValid q q' x h e = ground arith

-- `main` puts a connection into a valid ring as into the FIFO of the connections that the ring
-- holds, and ends the program exactly where the FIFO has no room.
pub put_refines : (q : Clifd) (v : ℕ) → IsValid q → view (put q v) ≡ Fifo.put (contents q) v
unfolding put Fifo.put contents
put_refines q v h = ground (
  arith,
  length-segment q.clifd q.iget (pending q),
  segment-snoc q.clifd q.iget q.iput (pending q) v,
)

-- A thread takes from a valid ring the connection that stands first in the FIFO, leaves the rest
-- in order, and waits exactly where the FIFO is empty.
pub take_conn_refines :
    (q : Clifd) → IsValid q → view_take (take_conn q) ≡ Fifo.take_conn (contents q)
unfolding take_conn Fifo.take_conn contents segment
take_conn_refines q h = ground (arith, segment_of_ne_zero q.clifd q.iget (pending q))

-- The same, read from an outcome.
pub take_conn-some :
    (q : Clifd) {x : ℕ} {q' : Clifd}
    → IsValid q
    → take_conn q ≡ some (x, q')
    → (contents q ≡ x ∷ contents q') × (pending q ≡ pending q' + 1)
unfolding Fifo.take_conn
take_conn-some q {x} {q'} h e =
    ground (arith, take_conn_refines q h, length-contents q, length-contents q')

pub take_conn-none : (q : Clifd) → IsValid q → take_conn q ≡ none → pending q ≡ 0
unfolding take_conn
take_conn-none q h e = ground arith

pub put_stored :
    (q : Clifd) (v : ℕ) {q' : Clifd}
    → IsValid q
    → put q v ≡ stored q'
    → (contents q' ≡ contents q ++ (v ∷ [])) × (pending q' ≡ pending q + 1)
unfolding Fifo.put
put_stored q v {q'} h e = ground (
  arith,
  put_refines q v h,
  length-contents q,
  length-contents q',
  length-append (contents q) (v ∷ []),
)

pub put_stored-IsValid :
    (q : Clifd) (v : ℕ) {q' : Clifd} → IsValid q → put q v ≡ stored q' → IsValid q'
put_stored-IsValid q v h e = rw e at (put-IsValid q v h)

pub put_exited-IsValid :
    (q : Clifd) (v : ℕ) {q' : Clifd} → IsValid q → put q v ≡ exited q' → IsValid q'
put_exited-IsValid q v h e = rw e at (put-IsValid q v h)
