-- ===== src/Nonblock/Buffer.antt =====
-- One of the two buffers of `str_cli`, with its two pointers: `iptr` is where input goes next, and
-- `optr` is where output is taken from.
use unpvol.Common.{
  ℕ, zero, suc, ◌+◌, ◌-◌, ◌≤◌, ◌≡◌, refl, sym, ap, ◌∙◌, List, ◌++◌, ◌==◌, if◌then◌else◌, arith,
  length, append-nil, inl, inr, Bool-cases, ==_iff,
}
use unpvol.Stream.Memory.{Memory, slice, store, slice-add, slice-store, store_outside}

-- MAXLINE of `unp.h`.
abbrev pub maxline : ℕ
maxline = 4096

pub record Buffer : Type 0 where
  pub bytes : Memory
  pub iptr : ℕ
  pub optr : ℕ

abbrev pub fresh : Buffer
fresh = record { bytes = λ i. 0; iptr = 0; optr = 0 }

-- What `read` puts at `iptr`.
unfoldable pub fill : Buffer → List ℕ → Buffer
fill b xs = record b { bytes = store b.bytes b.iptr xs; iptr = b.iptr + length xs }

-- What follows a `write` of `k` bytes from `optr`.
unfoldable pub drain : Buffer → ℕ → Buffer
drain b k =
    if b.optr + k == b.iptr then record b { iptr = 0; optr = 0 } else record b { optr = b.optr + k }

-- The bytes that were read and not yet written.
unfoldable pub pending : Buffer → List ℕ
pending b = slice b.bytes b.optr (b.iptr - b.optr)

-- The pointers are in order and inside the buffer, and an empty buffer has been rewound.
pub record IsSound (b : Buffer) : Type 0 where
  pub ordered : b.optr ≤ b.iptr
  pub inside : b.iptr ≤ maxline
  pub rewound : b.optr ≡ b.iptr → b.iptr ≡ 0

slice-store_before :
    (mem : Memory) (p : ℕ) (xs : List ℕ) (q n : ℕ)
    → q + n ≤ p
    → slice (store mem p xs) q n ≡ slice mem q n
unfolding slice
slice-store_before mem p xs q zero h = refl
slice-store_before mem p xs q (suc n) h =
    rw
      (
        store_outside mem p xs q (inl (omega arith)),
        slice-store_before mem p xs (q + 1) n (omega arith),
      )
      refl

pub pending-fill :
    (b : Buffer) (xs : List ℕ) → b.optr ≤ b.iptr → pending (fill b xs) ≡ pending b ++ xs
unfolding pending fill
pending-fill b xs h =
    let e : b.iptr + length xs - b.optr ≡ b.iptr - b.optr + length xs = omega arith in
    let f : b.optr + (b.iptr - b.optr) ≡ b.iptr = omega arith in
    rw
      (
        e,
        slice-add (store b.bytes b.iptr xs) b.optr (b.iptr - b.optr) (length xs),
        f,
        slice-store b.bytes b.iptr xs,
        slice-store_before b.bytes b.iptr xs b.optr (b.iptr - b.optr) (omega arith),
      )
      refl

pub pending-drain :
    (b : Buffer) (k : ℕ)
    → b.optr + k ≤ b.iptr
    → slice b.bytes b.optr k ++ pending (drain b k) ≡ pending b
unfolding pending drain slice
pending-drain b k h =
    let whole : slice b.bytes b.optr k ++ slice b.bytes (b.optr + k) (b.iptr - (b.optr + k))
        ≡ slice b.bytes b.optr (b.iptr - b.optr) =
      let e : k + (b.iptr - (b.optr + k)) ≡ b.iptr - b.optr = omega arith in
      sym (slice-add b.bytes b.optr k (b.iptr - (b.optr + k))) ∙ ap (slice b.bytes b.optr) e in
    elim (Bool-cases (b.optr + k == b.iptr)) [
      | inl t ↦
          let e : k ≡ b.iptr - b.optr = omega (arith, (==_iff (b.optr + k) b.iptr).0 t) in
          rw t (append-nil (slice b.bytes b.optr k) ∙ ap (slice b.bytes b.optr) e)
      | inr f ↦ rw f whole
    ]

pub fill-IsSound :
    (b : Buffer) (xs : List ℕ) → IsSound b → b.iptr + length xs ≤ maxline → IsSound (fill b xs)
unfolding fill
fill-IsSound b xs s h = record {
  ordered = omega (arith, s.ordered);
  inside = h;
  rewound = λ e.
      let f : b.optr ≡ b.iptr = omega (arith, e, s.ordered) in omega (arith, e, f, s.rewound f);
}

pub drain-IsSound : (b : Buffer) (k : ℕ) → IsSound b → b.optr + k ≤ b.iptr → IsSound (drain b k)
unfolding drain
drain-IsSound b k s h = elim (Bool-cases (b.optr + k == b.iptr)) [
  | inl t ↦ rw t record { ordered = omega arith; inside = omega arith; rewound = λ e. refl }
  | inr f ↦
      rw f record { ordered = h; inside = s.inside; rewound = λ e. absurd (ground (arith, e, f)) }
]
