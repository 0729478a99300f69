-- ===== src/HttpConn/Halfway.antt =====
-- When `write` stops.
use unpvol.Common.{
  ℕ, ◌+◌, ◌*◌, ◌≤◌, ◌<◌, ◌≡◌, refl, ap, true, false, List, [], ◌∷◌, ◌++◌, map, leb, ◌==◌, arith,
  length,
}
use unpvol.Stream.Kernel.{Reply, wrote}
use unpvol.HttpConn.{Conn}
use unpvol.HttpConn.Send.{Sent, all_sent, counted, write_loop, write}

unfoldable pub total : List ℕ → ℕ
total [] = 0
total (k ∷ ks) = k + total ks

unfoldable pub counted_all : List ℕ → Sent → Sent
counted_all [] s = s
counted_all (k ∷ ks) s = counted k (counted_all ks s)

write_loop-stops :
    (ks : List ℕ) (k : ℕ) (rest : List Reply) (sent : ℕ) (c : Conn)
    → 2 * (sent + total ks) < length c.write_buf
    → length c.write_buf ≤ 2 * (sent + total ks + k)
    → write_loop (map wrote ks ++ wrote k ∷ rest) sent c ≡ counted_all ks (counted k (all_sent c))
unfolding write_loop total counted_all
write_loop-stops [] k rest sent c h g =
    let t : leb (length c.write_buf) (sent + k + (sent + k)) ≡ true = ground (arith, g) in rw t refl
write_loop-stops (j ∷ ks) k rest sent c h g =
    let f : leb (length c.write_buf) (sent + j + (sent + j)) ≡ false = ground (arith, h) in
    rw f (
      ap (counted j)
        (write_loop-stops ks k rest (sent + j) c (omega (arith, h)) (omega (arith, g))))

-- `write` takes the whole answer for sent as soon as the calls of `writev` have taken half as many
-- bytes as the write buffer holds, whatever is left of it and of the file.
pub write-half :
    (ks : List ℕ) (k : ℕ) (rest : List Reply) (c : Conn)
    → 2 * total ks < length c.write_buf
    → length c.write_buf ≤ 2 * (total ks + k)
    → write (map wrote ks ++ wrote k ∷ rest) c ≡ counted_all ks (counted k (all_sent c))
unfolding write
write-half ks k rest c h g =
    let some_text : (length c.write_buf == 0) ≡ false = ground (arith, h) in
    rw some_text (write_loop-stops ks k rest 0 c (omega (arith, h)) (omega (arith, g)))
