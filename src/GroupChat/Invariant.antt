-- ===== src/GroupChat/Invariant.antt =====
-- What the loop of the chat server keeps true.
use unpvol.Common.{
  ℕ, zero, suc, ◌+◌, ◌≤◌, ◌<◌, ◌≡◌, ◌≢◌, refl, inl, inr, Bool, true, false, not, Option, none, some,
  List, [], ◌∷◌, arith, leb, ◌==◌, if◌then◌else◌, update, Bool-cases, ==_iff,
}
use unpvol.Stream.Kernel.{eintr, eagain, other, Arrival, chunk, broken}
use unpvol.GroupChat.Server.{
  max_client_num, Server, Env, Handled, skip, on_accept, drop_client, notify, broadcast, on_input,
  message, on_output, on_output_to, told, handle,
}

abbrev pub has_message : Option ℕ → Bool
has_message none = false
has_message (some _) = true

-- The tables of a server with the listening descriptor `listenfd`.
pub record IsValid (listenfd : ℕ) (s : Server) : Type 0 where
  pub few : s.current_client_num ≤ max_client_num
  pub listening : (s.pfd 0).fd ≡ listenfd
  -- `poll` reports POLLRDHUP only where it is asked for.
  pub listens : (s.pfd 0).revents.pollrdhup ≡ false
  pub distinct :
      (i j : ℕ)
      → i ≤ s.current_client_num
      → j ≤ s.current_client_num
      → (s.pfd i).fd ≡ (s.pfd j).fd
      → i ≡ j
  -- A client is read from or written to, never both.
  pub one_way :
      (i : ℕ)
      → 0 < i
      → i ≤ s.current_client_num
      → (s.pfd i).events.pollin ≡ not ((s.pfd i).events.pollout)
  -- A client that is written to has a message.
  pub has_text :
      (i : ℕ)
      → 0 < i
      → i ≤ s.current_client_num
      → (s.pfd i).events.pollout ≡ true
      → has_message (s.clients (s.pfd i).fd).wb ≡ true

-- A descriptor that `accept` gives is none of those that are open.
abbrev pub IsFresh : Server → Option (ℕ × ℕ) → Type 0
IsFresh s none = Unit
IsFresh s (some (connfd, a)) = (j : ℕ) → j ≤ s.current_client_num → (s.pfd j).fd ≢ connfd

pub notify_num :
    (connfd j : ℕ) (s : Server) → (notify connfd j s).current_client_num ≡ s.current_client_num
unfolding notify
notify_num connfd j s = ground arith

module _ (listenfd : ℕ) (s : Server) (v : IsValid listenfd s) where
  pub on_accept-IsValid :
      (i : ℕ) (a : Option (ℕ × ℕ)) → IsFresh s a → IsValid listenfd (on_accept s i a).server
  unfolding on_accept
  on_accept-IsValid i none f = v
  on_accept-IsValid i (some (connfd, a)) f =
      elim (Bool-cases (leb max_client_num s.current_client_num)) [
        | inl full ↦ rw full v
        | inr room ↦ rw room record {
          few = ground arith;
          listening = ground (arith, v.listening);
          listens = ground (arith, v.listens);
          distinct = λ j k hj hk e. ground (arith, v.distinct j k, f j, f k);
          one_way = λ j pos le. ground (arith, v.one_way j);
          has_text = λ j pos le e. ground (arith, v.has_text j, f j);
        }
      ]

  pub drop_client-IsValid :
      (i : ℕ) → 0 < i → i ≤ s.current_client_num → IsValid listenfd (drop_client s i).server
  unfolding drop_client
  drop_client-IsValid i pos le = record {
    few = omega (arith, v.few);
    listening = ground (arith, v.listening);
    listens = ground (arith, v.listens);
    distinct = λ j k hj hk e. ground (
      arith,
      v.distinct j k,
      v.distinct s.current_client_num k,
      v.distinct j s.current_client_num,
    );
    one_way = λ j p h. ground (arith, v.one_way j, v.one_way s.current_client_num);
    has_text = λ j p h e. ground (
      arith,
      v.has_text j,
      v.has_text s.current_client_num,
      v.distinct i j,
      v.distinct i s.current_client_num,
    );
  }

  notify-IsValid :
      (connfd j : ℕ) → 0 < j → j ≤ s.current_client_num → IsValid listenfd (notify connfd j s)
  unfolding notify
  notify-IsValid connfd j pos le = elim (Bool-cases ((s.pfd j).fd == connfd)) [
    | inl own ↦ rw own v
    | inr others ↦ rw others record {
      few = v.few;
      listening = ground (arith, v.listening);
      listens = ground (arith, v.listens);
      distinct = λ k l hk hl e. ground (arith, v.distinct k l);
      one_way = λ k p h. ground (arith, v.one_way k);
      has_text = λ k p h e. ground (arith, v.has_text k, v.distinct j k);
    }
  ]

  pub on_output-IsValid :
      (i : ℕ) → i ≤ s.current_client_num → IsValid listenfd (on_output s i).server
  unfolding on_output
  on_output-IsValid i le = by_message (message s (s.pfd i).fd)
    where
      by_message : (m : Option (List ℕ)) → IsValid listenfd (on_output_to s i m).server
      by_message none = v
      by_message (some bytes) = record {
        few = v.few;
        listening = ground (arith, v.listening);
        listens = ground (arith, v.listens);
        distinct = λ j k hj hk e. ground (arith, v.distinct j k);
        one_way = λ j p h. ground (arith, v.one_way j);
        has_text = λ j p h e. ground (arith, v.has_text j, v.distinct i j);
      }

  fill-IsValid :
      (connfd : ℕ) (xs : List ℕ)
      → IsValid listenfd
          (record s { clients = update s.clients connfd (record (s.clients connfd) { rb = xs }) })
  fill-IsValid connfd xs = record {
    few = v.few;
    listening = v.listening;
    listens = v.listens;
    distinct = v.distinct;
    one_way = v.one_way;
    has_text = λ j p h e. ground (arith, v.has_text j p h e);
  }

broadcast-IsValid :
    (listenfd connfd rounds j : ℕ) (s : Server)
    → IsValid listenfd s
    → 0 < j
    → j + rounds ≤ s.current_client_num + 1
    → IsValid listenfd (broadcast connfd rounds j s)
unfolding broadcast
broadcast-IsValid listenfd connfd zero j s v pos h = v
broadcast-IsValid listenfd connfd (suc rounds) j s v pos h =
    broadcast-IsValid listenfd connfd rounds (j + 1) (notify connfd j s)
      (notify-IsValid listenfd s v connfd j pos (omega arith)) (omega arith)
      (omega (arith, notify_num connfd j s))

module _ (listenfd : ℕ) (s : Server) (v : IsValid listenfd s) where
  pub on_input-IsValid :
      (i : ℕ) (a : Arrival)
      → 0 < i
      → i ≤ s.current_client_num
      → IsValid listenfd (on_input s i a).server
  unfolding on_input told
  on_input-IsValid i (broken eagain) pos le = v
  on_input-IsValid i (broken eintr) pos le = drop_client-IsValid listenfd s v i pos le
  on_input-IsValid i (broken other) pos le = drop_client-IsValid listenfd s v i pos le
  on_input-IsValid i (chunk []) pos le = v
  on_input-IsValid i (chunk (x ∷ xs)) pos le =
      broadcast-IsValid listenfd (s.pfd i).fd s.current_client_num 1 _
        (fill-IsValid listenfd s v (s.pfd i).fd _) (omega arith) (omega arith)

-- Which branch the body of the loop takes.
pub data Branch (listenfd : ℕ) (s : Server) (i : ℕ) (env : Env) : Handled → Type 0 where
  accepts : (s.pfd i).fd ≡ listenfd → Branch listenfd s i env (on_accept s i env.accepted)
  skips : Branch listenfd s i env (skip s i)
  leaves : (s.pfd i).revents.pollrdhup ≡ true → Branch listenfd s i env (drop_client s i)
  reads : (s.pfd i).fd ≢ listenfd → Branch listenfd s i env (on_input s i env.incoming)
  writes : Branch listenfd s i env (on_output s i)

pub handle-Branch :
    (listenfd : ℕ) (s : Server) (i : ℕ) (env : Env)
    → Branch listenfd s i env (handle listenfd s i env)
unfolding handle
handle-Branch listenfd s i env =
    by_test ((s.pfd i).fd == listenfd) (s.pfd i).revents.pollin refl refl
  where
    later :
        (readable : Bool)
        → (readable ≡ true → (s.pfd i).fd ≢ listenfd)
        → Branch listenfd s i env (
            if (s.pfd i).revents.pollerr
            then skip s i
            else if (s.pfd i).revents.pollrdhup
            then drop_client s i
            else if readable
            then on_input s i env.incoming
            else if (s.pfd i).revents.pollout
            then on_output s i
            else skip s i)
    later readable other_fd = elim (Bool-cases (s.pfd i).revents.pollerr) [
      | inl e ↦ rw e skips
      | inr e ↦ rw e (elim (Bool-cases (s.pfd i).revents.pollrdhup) [
        | inl h ↦ rw h (leaves h)
        | inr h ↦ rw h (elim (Bool-cases readable) [
          | inl r ↦ rw r (reads (other_fd r))
          | inr r ↦ rw r (elim (Bool-cases (s.pfd i).revents.pollout) [
            | inl w ↦ rw w writes
            | inr w ↦ rw w skips
          ])
        ])
      ])
    ]

    by_test :
        (is_listener readable : Bool)
        → ((s.pfd i).fd == listenfd) ≡ is_listener
        → (s.pfd i).revents.pollin ≡ readable
        → Branch listenfd s i env (handle listenfd s i env)
    by_test true true t r = rw (t, r) (accepts ((==_iff _ _).0 t))
    by_test true false t r = rw (t, r) (later false (λ q. cc))
    by_test false readable t r = rw (t, r) (later readable (λ q e. ground arith))
