-- ===== src/GroupChat/Loop.antt =====
-- The loop of the chat server ends its sweeps, and keeps its tables valid.
use unpvol.Common.{
  ℕ, zero, suc, ◌+◌, ◌≤◌, ◌<◌, ◌≡◌, refl, inl, inr, false, Option, none, some, List, [], ◌∷◌, arith,
  ltb, Bool-cases,
}
use unpvol.GroupChat.Server.{Server, Effect, Env, Handled, also, sweep, polled, turn, start, Mask}
use unpvol.GroupChat.Invariant.{
  IsValid, IsFresh, Branch, accepts, skips, leaves, reads, writes, handle-Branch, on_accept-IsValid,
  drop_client-IsValid, on_input-IsValid, on_output-IsValid,
}
use unpvol.GroupChat.Budget.{budget, Branch-Shrinks}

-- An entry that is not at 0 is a client's; the one at 0 is not.
Branch-IsValid :
    (listenfd : ℕ) (s : Server) (i : ℕ) (env : Env) {h : Handled}
    → Branch listenfd s i env h
    → IsValid listenfd s
    → i ≤ s.current_client_num
    → IsFresh s env.accepted
    → IsValid listenfd h.server
Branch-IsValid listenfd s i env (accepts e) v le f = on_accept-IsValid listenfd s v i env.accepted f
Branch-IsValid listenfd s i env skips v le f = v
Branch-IsValid listenfd s i env (leaves e) v le f =
    drop_client-IsValid listenfd s v i (ground (arith, v.listens)) le
Branch-IsValid listenfd s i env (reads e) v le f =
    on_input-IsValid listenfd s v i env.incoming (ground (arith, v.listening)) le
Branch-IsValid listenfd s i env writes v le f = on_output-IsValid listenfd s v i le

-- The sweep has ended, in a valid state.
abbrev pub EndsValid : ℕ → Option (Server × List Effect) → Type 0
EndsValid listenfd none = ⊥
EndsValid listenfd (some (s, es)) = IsValid listenfd s

also-EndsValid :
    (listenfd : ℕ) (es : List Effect) (o : Option (Server × List Effect))
    → EndsValid listenfd o
    → EndsValid listenfd (also es o)
also-EndsValid listenfd es none h = h
also-EndsValid listenfd es (some (s, fs)) h = h

sweep-EndsValid :
    (listenfd fuel i : ℕ) (env : ℕ → Server → Env) (s : Server)
    → ((k : ℕ) (t : Server) → IsFresh t (env k t).accepted)
    → IsValid listenfd s
    → budget s.current_client_num i < fuel
    → EndsValid listenfd (sweep listenfd fuel i env s)
unfolding sweep
sweep-EndsValid listenfd zero i env s fresh v lt = elim lt [ ]
sweep-EndsValid listenfd (suc fuel) i env s fresh v lt =
    elim (Bool-cases (ltb i (s.current_client_num + 1))) [
      | inr done ↦ rw (done, EndsValid) v
      | inl more ↦
          rw (more, EndsValid)
            (let le : i ≤ s.current_client_num = ground arith in
              let b = handle-Branch listenfd s i (env 0 s) in
              also-EndsValid listenfd _ _ (
                sweep-EndsValid listenfd fuel _ (λ k. env (k + 1)) _ (λ k. fresh (k + 1))
                  (Branch-IsValid listenfd s i (env 0 s) b v le (fresh 0 s))
                  (omega (arith, Branch-Shrinks listenfd s i (env 0 s) b v le))))
    ]

polled-IsValid :
    (listenfd : ℕ) (ready : ℕ → Mask) (s : Server)
    → (ready 0).pollrdhup ≡ false
    → IsValid listenfd s
    → IsValid listenfd (polled ready s)
unfolding polled
polled-IsValid listenfd ready s quiet v = record {
  few = v.few;
  listening = ground (arith, v.listening);
  listens = ground (arith, v.listens);
  distinct = λ i j hi hj e. ground (arith, v.distinct i j);
  one_way = λ i pos le. ground (arith, v.one_way i);
  has_text = λ i pos le e. ground (arith, v.has_text i);
}

budget-polled :
    (ready : ℕ → Mask) (s : Server)
    → budget (polled ready s).current_client_num 0 < s.current_client_num + s.current_client_num + 5
unfolding polled
budget-polled ready s = omega arith

-- One turn of the server's loop, from valid tables, ends and leaves valid tables, whatever `poll`
-- reports and whatever `accept` and `recv` answer, provided that `poll` reports no POLLRDHUP for
-- the listening socket and that `accept` gives no descriptor that is in use.
pub turn-EndsValid :
    (listenfd : ℕ) (ready : ℕ → Mask) (env : ℕ → Server → Env) (s : Server)
    → (ready 0).pollrdhup ≡ false
    → ((k : ℕ) (t : Server) → IsFresh t (env k t).accepted)
    → IsValid listenfd s
    → EndsValid listenfd (turn listenfd ready env s)
unfolding turn
turn-EndsValid listenfd ready env s quiet fresh v =
    sweep-EndsValid listenfd _ 0 env (polled ready s) fresh
      (polled-IsValid listenfd ready s quiet v) (budget-polled ready s)

-- What the environment puts into one turn.
pub record Turn : Type 0 where
  pub ready : ℕ → Mask
  pub env : ℕ → Server → Env

abbrev pub Fair : Turn → Type 0
Fair t = ((t.ready 0).pollrdhup ≡ false) × ((k : ℕ) (s : Server) → IsFresh s (t.env k s).accepted)

abbrev pub AllFair : List Turn → Type 0
AllFair [] = Unit
AllFair (t ∷ ts) = Fair t × AllFair ts

abbrev pub then_run :
    (Server → Option (Server × List Effect))
    → Option (Server × List Effect)
    → Option (Server × List Effect)
then_run next none = none
then_run next (some (s, es)) = also es (next s)

-- As many turns of `while (1)` as there are inputs.
unfoldable pub run : ℕ → List Turn → Server → Option (Server × List Effect)
run listenfd [] s = some (s, [])
run listenfd (t ∷ ts) s = then_run (run listenfd ts) (turn listenfd t.ready t.env s)

start-IsValid : (listenfd : ℕ) → IsValid listenfd (start listenfd)
start-IsValid listenfd = record {
  few = omega arith;
  listening = refl;
  listens = refl;
  distinct = λ i j hi hj e. omega arith;
  one_way = λ i pos le. absurd (omega arith);
  has_text = λ i pos le e. absurd (omega arith);
}

then_run-EndsValid :
    (listenfd : ℕ) (next : Server → Option (Server × List Effect))
    → ((s : Server) → IsValid listenfd s → EndsValid listenfd (next s))
    → (o : Option (Server × List Effect)) → EndsValid listenfd o
    → EndsValid listenfd (then_run next o)
then_run-EndsValid listenfd next keeps none h = h
then_run-EndsValid listenfd next keeps (some (s, es)) h =
    also-EndsValid listenfd es (next s) (keeps s h)

run-EndsValid_from :
    (listenfd : ℕ) (ts : List Turn) (s : Server)
    → AllFair ts
    → IsValid listenfd s
    → EndsValid listenfd (run listenfd ts s)
unfolding run
run-EndsValid_from listenfd [] s fair v = v
run-EndsValid_from listenfd (t ∷ ts) s fair v =
    then_run-EndsValid listenfd (run listenfd ts)
      (λ s' v'. run-EndsValid_from listenfd ts s' fair.1 v') (turn listenfd t.ready t.env s)
      (turn-EndsValid listenfd t.ready t.env s fair.0.0 fair.0.1 v)

-- Any number of turns of the chat server, from its start, ends and leaves valid tables: at most 128
-- clients, their descriptors pairwise different and different from the listening one, each client
-- either read from or written to, and one that is written to having a message. It is supposed that
-- `poll` reports no POLLRDHUP for the listening socket, and that `accept` gives no descriptor that
-- is in use.
pub run-EndsValid :
    (listenfd : ℕ) (ts : List Turn)
    → AllFair ts
    → EndsValid listenfd (run listenfd ts (start listenfd))
run-EndsValid listenfd ts fair = run-EndsValid_from listenfd ts _ fair (start-IsValid listenfd)
