-- ===== src/GroupChat/Budget.antt =====
-- How much a sweep of the chat server's loop over its entries has left to do.
use unpvol.Common.{
  ℕ, zero, suc, ◌+◌, ◌-◌, ◌*◌, ◌≤◌, ◌<◌, ◌≡◌, refl, Option, none, some, List, [], ◌∷◌, arith, ◌∙◌,
  ◌==◌, if◌then◌else◌,
}
use unpvol.Stream.Kernel.{eintr, eagain, other, Arrival, chunk, broken}
use unpvol.GroupChat.Server.{
  Server, Env, Handled, skip, on_accept, drop_client, on_input, on_output, notify, broadcast,
  message, on_output_to, told,
}
use unpvol.GroupChat.Invariant.{notify_num, IsValid, Branch, accepts, skips, leaves, reads, writes}

-- What is left of a sweep at index `i`: an accepted client is added to it, but only from index 0.
abbrev pub budget : ℕ → ℕ → ℕ
budget num i = (num + 1 - i) * 2 + (if i == 0 then 1 else 0)

-- A body leaves the sweep with less to do, or moves an entry up to be done next.
abbrev pub Shrinks : Server → ℕ → Handled → Type 0
Shrinks s i h = budget h.server.current_client_num h.next < budget s.current_client_num i

broadcast_num :
    (connfd rounds j : ℕ) (s : Server)
    → (broadcast connfd rounds j s).current_client_num ≡ s.current_client_num
unfolding broadcast
broadcast_num connfd zero j s = refl
broadcast_num connfd (suc rounds) j s =
    broadcast_num connfd rounds (j + 1) (notify connfd j s) ∙ notify_num connfd j s

drop_client-Shrinks :
    (s : Server) (i : ℕ) → 0 < i → i ≤ s.current_client_num → Shrinks s i (drop_client s i)
unfolding drop_client
drop_client-Shrinks s i pos le = ground arith

on_accept-Shrinks : (s : Server) (a : Option (ℕ × ℕ)) → Shrinks s 0 (on_accept s 0 a)
unfolding on_accept
on_accept-Shrinks s none = ground arith
on_accept-Shrinks s (some (connfd, a)) = ground arith

on_output-Shrinks : (s : Server) (i : ℕ) → i ≤ s.current_client_num → Shrinks s i (on_output s i)
unfolding on_output
on_output-Shrinks s i le = by_message (message s (s.pfd i).fd)
  where
    by_message : (m : Option (List ℕ)) → Shrinks s i (on_output_to s i m)
    by_message none = ground arith
    by_message (some bytes) = ground arith

told_num :
    (s : Server) (i : ℕ) (xs : List ℕ) → (told s i xs).current_client_num ≡ s.current_client_num
unfolding told
told_num s i xs = broadcast_num (s.pfd i).fd s.current_client_num 1 _

skip-Shrinks :
    (s t : Server) (i : ℕ)
    → t.current_client_num ≡ s.current_client_num
    → i ≤ s.current_client_num
    → Shrinks s i (skip t i)
skip-Shrinks s t i e le = ground arith

on_input-Shrinks :
    (s : Server) (i : ℕ) (a : Arrival)
    → 0 < i
    → i ≤ s.current_client_num
    → Shrinks s i (on_input s i a)
unfolding on_input
on_input-Shrinks s i (broken eagain) pos le = ground arith
on_input-Shrinks s i (broken eintr) pos le = drop_client-Shrinks s i pos le
on_input-Shrinks s i (broken other) pos le = drop_client-Shrinks s i pos le
on_input-Shrinks s i (chunk []) pos le = ground arith
on_input-Shrinks s i (chunk (x ∷ xs)) pos le =
    skip-Shrinks s (told s i (x ∷ xs)) i (told_num s i (x ∷ xs)) le

pub Branch-Shrinks :
    (listenfd : ℕ) (s : Server) (i : ℕ) (env : Env) {h : Handled}
    → Branch listenfd s i env h
    → IsValid listenfd s
    → i ≤ s.current_client_num
    → Shrinks s i h
Branch-Shrinks listenfd s i env (accepts e) v le =
    let at_0 : i ≡ 0 = v.distinct i 0 le (omega arith) (ground (arith, v.listening)) in
    rw at_0 (on_accept-Shrinks s env.accepted)
Branch-Shrinks listenfd s i env skips v le = ground arith
Branch-Shrinks listenfd s i env (leaves e) v le =
    drop_client-Shrinks s i (ground (arith, v.listens)) le
Branch-Shrinks listenfd s i env (reads e) v le =
    on_input-Shrinks s i env.incoming (ground (arith, v.listening)) le
Branch-Shrinks listenfd s i env writes v le = on_output-Shrinks s i le
