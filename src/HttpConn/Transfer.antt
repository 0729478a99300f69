-- ===== src/HttpConn/Transfer.antt =====
-- `read` and `write` leave `m_sockfd` alone.
use unpvol.Common.{
  ℕ, ◌+◌, ◌-◌, ◌≡◌, refl, inl, inr, Bool-cases, List, [], ◌∷◌, leb, ◌==◌, take, length,
}
use unpvol.Stream.Kernel.{Errno, eintr, eagain, other, Reply, wrote, failed, Arrival, chunk, broken}
use unpvol.HttpConn.{Conn, init, read_buffer_size}
use unpvol.HttpConn.Send.{
  Heard, recv_failed, unless_empty, stored, recv_loop, read, all_sent, writev_failed, write_loop,
  write,
}

recv_failed-sockfd : (e : Errno) (c : Conn) → (recv_failed e c).conn.sockfd ≡ c.sockfd
unfolding recv_failed
recv_failed-sockfd eintr c = refl
recv_failed-sockfd eagain c = refl
recv_failed-sockfd other c = refl

unless_empty-sockfd :
    (ys : List ℕ) (c : Conn) (r : Heard)
    → r.conn.sockfd ≡ c.sockfd
    → (unless_empty ys c r).conn.sockfd ≡ c.sockfd
unfolding unless_empty
unless_empty-sockfd [] c r h = refl
unless_empty-sockfd (y ∷ ys) c r h = h

recv_loop-sockfd :
    (arrivals : List Arrival) (c : Conn) → (recv_loop arrivals c).conn.sockfd ≡ c.sockfd
unfolding recv_loop
recv_loop-sockfd [] c = refl
recv_loop-sockfd (broken e ∷ rest) c = recv_failed-sockfd e c
recv_loop-sockfd (chunk xs ∷ rest) c =
    let ys = take (read_buffer_size - c.read_idx) xs in
    unless_empty-sockfd ys c (recv_loop rest (stored ys c)) (recv_loop-sockfd rest (stored ys c))

pub read-sockfd : (arrivals : List Arrival) (c : Conn) → (read arrivals c).conn.sockfd ≡ c.sockfd
unfolding read
read-sockfd arrivals c = elim (Bool-cases (leb read_buffer_size c.read_idx)) [
  | inl t ↦ rw t refl
  | inr f ↦ rw f (recv_loop-sockfd arrivals c)
]

writev_failed-sockfd : (e : Errno) (c : Conn) → (writev_failed e c).conn.sockfd ≡ c.sockfd
unfolding writev_failed
writev_failed-sockfd eintr c = refl
writev_failed-sockfd eagain c = refl
writev_failed-sockfd other c = refl

all_sent-sockfd : (c : Conn) → (all_sent c).conn.sockfd ≡ c.sockfd
unfolding all_sent init
all_sent-sockfd c = elim (Bool-cases c.linger) [ inl t ↦ rw t refl | inr f ↦ rw f refl ]

write_loop-sockfd :
    (replies : List Reply) (sent : ℕ) (c : Conn)
    → (write_loop replies sent c).conn.sockfd ≡ c.sockfd
unfolding write_loop
write_loop-sockfd [] sent c = writev_failed-sockfd eagain c
write_loop-sockfd (failed e ∷ rest) sent c = writev_failed-sockfd e c
write_loop-sockfd (wrote k ∷ rest) sent c =
    elim (Bool-cases (leb (length c.write_buf) (sent + k + (sent + k)))) [
      | inl t ↦ rw t (all_sent-sockfd c)
      | inr f ↦ rw f (write_loop-sockfd rest (sent + k) c)
    ]

pub write-sockfd : (replies : List Reply) (c : Conn) → (write replies c).conn.sockfd ≡ c.sockfd
unfolding write init
write-sockfd replies c = elim (Bool-cases (length c.write_buf == 0)) [
  | inl t ↦ rw t refl
  | inr f ↦ rw f (write_loop-sockfd replies 0 c)
]
