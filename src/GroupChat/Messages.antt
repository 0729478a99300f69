-- ===== src/GroupChat/Messages.antt =====
-- Who hears what in the chat server, and what a client that leaves takes along.
use unpvol.Common.{
  ℕ, zero, suc, ◌+◌, ◌≤◌, ◌<◌, ◌≡◌, ◌≢◌, refl, ◌⊎◌, inl, inr, ◌↔◌, true, ap, ◌∙◌, some, List, [],
  ◌∷◌, ◌++◌, arith, ◌==◌, length, update, update_self, ℕ_discrete, Bool-cases, ==_iff, drop, set,
}
use unpvol.Stream.Readline.{c_string}
use unpvol.Stream.Copy.{NoZero}
use unpvol.GroupChat.Server.{
  Server, closed, ClientInfo, drop_client, notify, broadcast, told, fill, message,
}
use unpvol.GroupChat.Invariant.{IsValid}

c_string-set :
    (xs ys : List ℕ) → 0 < length ys → NoZero xs → c_string (set (xs ++ ys) (length xs) 0) ≡ xs
unfolding c_string
c_string-set [] [] h nz = elim h [ ]
c_string-set [] (y ∷ ys) h nz = refl
c_string-set (zero ∷ xs) ys h nz = absurd (nz.0 refl)
c_string-set (suc x ∷ xs) ys h nz = ap (λ r. suc x ∷ r) (c_string-set xs ys h nz.1)

length-drop_pos : (n : ℕ) (xs : List ℕ) → n < length xs → 0 < length (drop n xs)
length-drop_pos zero xs h = h
length-drop_pos (suc n) [] h = elim h [ ]
length-drop_pos (suc n) (x ∷ xs) h = length-drop_pos n xs (omega arith)

pub message_lem :
    (t : Server) (fd slot : ℕ)
    → (t.clients fd).wb ≡ some slot
    → message t fd ≡ some (c_string (t.clients slot).rb)
unfolding message
message_lem t fd slot e = rw (e, message)

-- What a notification leaves alone, and what it does to its entry.
module _ (connfd j : ℕ) (s : Server) where
  notify-fd : (k : ℕ) → ((notify connfd j s).pfd k).fd ≡ (s.pfd k).fd
  unfolding notify
  notify-fd k = ground arith

  notify-rb : (k : ℕ) → ((notify connfd j s).clients k).rb ≡ (s.clients k).rb
  unfolding notify
  notify-rb k = ground arith

  notify-own : (k : ℕ) → (s.pfd k).fd ≡ connfd → (notify connfd j s).pfd k ≡ s.pfd k
  unfolding notify
  notify-own k e = ground arith

  notify-keeps :
      (k : ℕ)
      → (s.clients (s.pfd k).fd).wb ≡ some connfd
      → (s.pfd k).events.pollout ≡ true
      → (((notify connfd j s).clients (s.pfd k).fd).wb ≡ some connfd)
        × (((notify connfd j s).pfd k).events.pollout ≡ true)
  unfolding notify
  notify-keeps k w o = ground arith

  notify-sets :
      (k : ℕ)
      → j ≡ k
      → (s.pfd k).fd ≢ connfd
      → (((notify connfd j s).clients (s.pfd k).fd).wb ≡ some connfd)
        × (((notify connfd j s).pfd k).events.pollout ≡ true)
  unfolding notify
  notify-sets k e ne = ground arith

broadcast-fd :
    (connfd rounds j : ℕ) (s : Server) (k : ℕ)
    → ((broadcast connfd rounds j s).pfd k).fd ≡ (s.pfd k).fd
unfolding broadcast
broadcast-fd connfd zero j s k = refl
broadcast-fd connfd (suc rounds) j s k =
    broadcast-fd connfd rounds (j + 1) (notify connfd j s) k ∙ notify-fd connfd j s k

broadcast-rb :
    (connfd rounds j : ℕ) (s : Server) (k : ℕ)
    → ((broadcast connfd rounds j s).clients k).rb ≡ (s.clients k).rb
unfolding broadcast
broadcast-rb connfd zero j s k = refl
broadcast-rb connfd (suc rounds) j s k =
    broadcast-rb connfd rounds (j + 1) (notify connfd j s) k ∙ notify-rb connfd j s k

broadcast-own :
    (connfd rounds j : ℕ) (s : Server) (k : ℕ)
    → (s.pfd k).fd ≡ connfd
    → (broadcast connfd rounds j s).pfd k ≡ s.pfd k
unfolding broadcast
broadcast-own connfd zero j s k e = refl
broadcast-own connfd (suc rounds) j s k e =
    broadcast-own connfd rounds (j + 1) (notify connfd j s) k (notify-fd connfd j s k ∙ e)
    ∙ notify-own connfd j s k e

-- The client of entry `k` is to be told what the client `connfd` said.
abbrev Told : ℕ → ℕ → Server → Type 0
Told connfd k s = ((s.clients (s.pfd k).fd).wb ≡ some connfd) × ((s.pfd k).events.pollout ≡ true)

notify-Told :
    (connfd j : ℕ) (s : Server) (k : ℕ)
    → (Told connfd k s → Told connfd k (notify connfd j s))
      × (j ≡ k → (s.pfd k).fd ≢ connfd → Told connfd k (notify connfd j s))
notify-Told connfd j s k = (
  λ h. rw (notify-fd connfd j s k) (notify-keeps connfd j s k h.0 h.1),
  λ e ne. rw (notify-fd connfd j s k) (notify-sets connfd j s k e ne),
)

broadcast-Told :
    (connfd rounds j : ℕ) (s : Server) (k : ℕ)
    → (s.pfd k).fd ≢ connfd
    → (j ≤ k) × (k < j + rounds) ⊎ Told connfd k s
    → Told connfd k (broadcast connfd rounds j s)
unfolding broadcast
broadcast-Told connfd zero j s k ne (inl h) = absurd (omega arith)
broadcast-Told connfd zero j s k ne (inr h) = h
broadcast-Told connfd (suc rounds) j s k ne (inr h) =
    broadcast-Told connfd rounds (j + 1) (notify connfd j s) k (rw (notify-fd connfd j s k) ne)
      (inr ((notify-Told connfd j s k).0 h))
broadcast-Told connfd (suc rounds) j s k ne (inl h) =
    broadcast-Told connfd rounds (j + 1) (notify connfd j s) k (rw (notify-fd connfd j s k) ne)
      (elim (Bool-cases (j == k)) [
        | inl e ↦ inr ((notify-Told connfd j s k).1 ((==_iff j k).0 e) ne)
        | inr e ↦ inl (ground arith, omega arith)
      ])

-- After a client of valid tables has said `xs` (not empty, with no null byte, and shorter than its
-- buffer), every other client is to be written to, and its message is `xs`; the entry of the
-- client that spoke is as before, and no descriptor has moved.
pub told_lem :
    (listenfd : ℕ) (s : Server) (i : ℕ) (xs : List ℕ)
    → IsValid listenfd s
    → 0 < i
    → i ≤ s.current_client_num
    → NoZero xs
    → length xs < length (s.clients (s.pfd i).fd).rb
    → ((told s i xs).pfd i ≡ s.pfd i)
      × ((k : ℕ)
          → 0 < k
          → k ≤ s.current_client_num
          → k ≢ i
          → (((told s i xs).pfd k).fd ≡ (s.pfd k).fd)
            × (((told s i xs).pfd k).events.pollout ≡ true)
            × (message (told s i xs) (s.pfd k).fd ≡ some xs))
unfolding told
told_lem listenfd s i xs v pos le nz short =
    (broadcast-own connfd s.current_client_num 1 filled i refl, others)
  where
    connfd : ℕ
    connfd = (s.pfd i).fd

    filled : Server
    filled = record s {
      clients =
          update s.clients connfd
            (record (s.clients connfd) { rb = fill xs (s.clients connfd).rb });
    }

    after : Server
    after = broadcast connfd s.current_client_num 1 filled

    buffer : c_string (after.clients connfd).rb ≡ xs
    buffer =
        rw (broadcast-rb connfd s.current_client_num 1 filled connfd, update_self s.clients connfd)
          (c_string-set xs _ (length-drop_pos (length xs) (s.clients connfd).rb short) nz)

    others :
        (k : ℕ)
        → 0 < k
        → k ≤ s.current_client_num
        → k ≢ i
        → ((after.pfd k).fd ≡ (s.pfd k).fd)
          × ((after.pfd k).events.pollout ≡ true)
          × (message after (s.pfd k).fd ≡ some xs)
    others k p h ne =
        let kept = broadcast-fd connfd s.current_client_num 1 filled k in
        let is_told =
          broadcast-Told connfd s.current_client_num 1 filled k (λ e. ne (v.distinct k i h le e))
            (inl (omega arith, omega arith)) in
        (
          kept,
          is_told.1,
          message_lem after (s.pfd k).fd connfd (rw kept at is_told.0) ∙ ap some buffer,
        )

-- Some entry in use has the descriptor `fd`.
abbrev pub InUse : Server → ℕ → Type 0
InUse s fd = (j : ℕ) × (j ≤ s.current_client_num) × ((s.pfd j).fd ≡ fd)

-- When the client of entry `i` leaves, its descriptor is closed and no longer in use, and every
-- other descriptor stays in use.
pub drop_client-InUse :
    (listenfd : ℕ) (s : Server) (i : ℕ)
    → IsValid listenfd s
    → 0 < i
    → i ≤ s.current_client_num
    → ((drop_client s i).effects ≡ closed (s.pfd i).fd ∷ [])
      × ((fd : ℕ) → InUse (drop_client s i).server fd ↔ (InUse s fd × (fd ≢ (s.pfd i).fd)))
unfolding drop_client
drop_client-InUse listenfd s i v pos le = (
  refl,
  λ fd. (
    λ (j, h, e). elim (ℕ_discrete i j) [
      | yes at_i ↦ (
        (s.current_client_num, ground arith, ground arith),
        λ same. ground (arith, v.distinct s.current_client_num i),
      )
      | no other ↦ ((j, ground arith, ground arith), λ same. ground (arith, v.distinct j i))
    ],
    λ ((j, h, e), ne). elim (ℕ_discrete s.current_client_num j) [
      | yes is_last ↦ (i, ground arith, ground arith)
      | no other ↦ (j, ground arith, ground arith)
    ],
  ),
)

-- A client that leaves takes its last words along: a message of it that another client has still
-- to be sent is replaced by what stands in the buffer of the client of the last entry.
pub drop_client-message :
    (listenfd : ℕ) (s : Server) (i k : ℕ)
    → IsValid listenfd s
    → 0 < i
    → i ≤ s.current_client_num
    → 0 < k
    → k ≤ s.current_client_num
    → k ≢ i
    → (s.clients (s.pfd k).fd).wb ≡ some (s.pfd i).fd
    → message (drop_client s i).server (s.pfd k).fd
      ≡ some (c_string (s.clients (s.pfd s.current_client_num).fd).rb)
unfolding drop_client
drop_client-message listenfd s i k v pos le p h ne w =
    message_lem (drop_client s i).server (s.pfd k).fd (s.pfd i).fd (ground (arith, v.distinct k i))
    ∙ ap (λ (c : ClientInfo). some (c_string c.rb)) (update_self s.clients (s.pfd i).fd _)
