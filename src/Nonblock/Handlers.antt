-- ===== src/Nonblock/Handlers.antt =====
-- Each step of a turn moves bytes within one direction and keeps its account.
use unpvol.Common.{
  ℕ, zero, suc, ◌+◌, ◌≤◌, ◌<◌, ◌≡◌, refl, sym, ap, ◌∙◌, Bool, true, false, ◌&&◌, List, [], ◌∷◌,
  ◌++◌, ◌==◌, if◌then◌else◌, arith, length, take, append_assoc,
}
use unpvol.Stream.Memory.{slice}
use unpvol.Nonblock.Buffer.{
  Buffer, maxline, fill, drain, pending, IsSound, pending-fill, pending-drain, fill-IsSound,
  drain-IsSound,
}
use unpvol.Nonblock.Client.{
  State, Flow, goes, returns, dies, got_typed, got_heard, put_shown, put_sent,
}

-- What came in is what went out, then what the buffer still holds.
pub record Carries (b : Buffer) (came went : List ℕ) : Type 0 where
  pub sound : IsSound b
  pub conserved : went ++ pending b ≡ came

pub record IsValid (s : State) : Type 0 where
  pub to_server : Carries s.to s.typed s.sent
  pub to_terminal : Carries s.fr s.heard s.shown
  pub fin : s.fins ≡ (if s.stdineof && (s.to.optr == s.to.iptr) then 1 else 0)

-- The state in which the loop goes on or ends.
unfoldable pub state_of : Flow → State
state_of (goes s) = s
state_of (returns s) = s
state_of (dies s) = s

pub length-take_le : (n : ℕ) (xs : List ℕ) → length (take n xs) ≤ n
length-take_le zero xs = omega arith
length-take_le (suc n) [] = omega arith
length-take_le (suc n) (x ∷ xs) = omega (arith, length-take_le n xs)

Carries-fill :
    (b : Buffer) (came went xs : List ℕ)
    → Carries b came went
    → b.iptr + length xs ≤ maxline
    → Carries (fill b xs) (came ++ xs) went
Carries-fill b came went xs c h = record {
  sound = fill-IsSound b xs c.sound h;
  conserved =
      rw (pending-fill b xs c.sound.ordered, sym c.conserved)
        (sym (append_assoc went (pending b) xs));
}

Carries-drain :
    (b : Buffer) (came went : List ℕ) (k : ℕ)
    → Carries b came went
    → b.optr + k ≤ b.iptr
    → Carries (drain b k) came (went ++ slice b.bytes b.optr k)
Carries-drain b came went k c h = record {
  sound = drain-IsSound b k c.sound h;
  conserved =
      append_assoc went (slice b.bytes b.optr k) (pending (drain b k))
      ∙ ap (λ t. went ++ t) (pending-drain b k h)
      ∙ c.conserved;
}

pub got_typed-IsValid :
    (s : State) (xs : List ℕ)
    → IsValid s
    → s.stdineof ≡ false
    → s.to.iptr + length xs ≤ maxline
    → IsValid (got_typed s xs)
unfolding got_typed
got_typed-IsValid s [] v e h = record {
  to_server = v.to_server;
  to_terminal = v.to_terminal;
  fin = ground (arith, e, v.fin);
}
got_typed-IsValid s (x ∷ xs) v e h = record {
  to_server = Carries-fill s.to s.typed s.sent (x ∷ xs) v.to_server h;
  to_terminal = v.to_terminal;
  fin = rw (v.fin, e) refl;
}

end-IsValid :
    (b : Bool) (s : State) → IsValid s → IsValid (state_of (if b then returns s else dies s))
unfolding state_of
end-IsValid true s v = v
end-IsValid false s v = v

pub got_heard-IsValid :
    (s : State) (xs : List ℕ)
    → IsValid s
    → s.fr.iptr + length xs ≤ maxline
    → IsValid (state_of (got_heard s xs))
unfolding got_heard state_of
got_heard-IsValid s [] v h = end-IsValid s.stdineof s v
got_heard-IsValid s (x ∷ xs) v h = record {
  to_server = v.to_server;
  to_terminal = Carries-fill s.fr s.heard s.shown (x ∷ xs) v.to_terminal h;
  fin = v.fin;
}

pub put_shown-IsValid :
    (s : State) (k : ℕ) → IsValid s → s.fr.optr + k ≤ s.fr.iptr → IsValid (put_shown s k)
unfolding put_shown
put_shown-IsValid s k v h = record {
  to_server = v.to_server;
  to_terminal = Carries-drain s.fr s.heard s.shown k v.to_terminal h;
  fin = v.fin;
}

drain-fin :
    (b : Buffer) (k n : ℕ) (eof : Bool)
    → b.optr < b.iptr
    → b.optr + k ≤ b.iptr
    → n ≡ (if eof && (b.optr == b.iptr) then 1 else 0)
    → (if (b.optr + k == b.iptr) && eof then n + 1 else n)
      ≡ (if eof && ((drain b k).optr == (drain b k).iptr) then 1 else 0)
unfolding drain
drain-fin b k n true g h e = ground arith
drain-fin b k n false g h e = ground arith

pub put_sent-IsValid :
    (s : State) (k : ℕ)
    → IsValid s
    → s.to.optr < s.to.iptr
    → s.to.optr + k ≤ s.to.iptr
    → IsValid (put_sent s k)
unfolding put_sent
put_sent-IsValid s k v g h = record {
  to_server = Carries-drain s.to s.typed s.sent k v.to_server h;
  to_terminal = v.to_terminal;
  fin = drain-fin s.to k s.fins s.stdineof g h v.fin;
}
