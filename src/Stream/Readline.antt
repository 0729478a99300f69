-- ===== src/Stream/Readline.antt =====
-- `my_read`, `readline` and `str_cli` of 26chp/v1/tcpcli01.c (the file in 26chp/v2
-- is the same). The static variables of `my_read` are a record that is passed along; with it goes
-- what the socket will still deliver, one `Arrival` for each `read`.
use unpvol.Common.{
  ℕ, zero, suc, ◌+◌, ◌-◌, Option, none, some, List, [], ◌∷◌, ◌++◌, ◌==◌, if◌then◌else◌, length,
  get_or, drop,
}
use unpvol.Stream.Kernel.{eintr, Arrival, chunk, broken, Result, returned, minus_one}

abbrev pub newline : ℕ
newline = 10

abbrev pub maxline : ℕ
maxline = 1024

-- `read_cnt`, an int that is -1 after an error.
pub data ReadCnt : Type 0 where
  minus_one_left : ReadCnt
  left : ℕ → ReadCnt

-- `read_cnt`, `read_ptr` as an index into `read_buf`, and the answers to come.
pub record Reader : Type 0 where
  pub read_cnt : ReadCnt
  pub read_ptr : ℕ
  pub read_buf : List ℕ
  pub coming : List Arrival

-- What `my_read` returns: 1 with a byte, 0, or -1.
pub data Got : Type 0 where
  char : ℕ → Got
  eof : Got
  error : Got

-- `read_cnt--; *ptr = *read_ptr++; return(1);` with `k` bytes left after it.
unfoldable pub serve : ℕ → ℕ → List ℕ → List Arrival → Got × Reader
serve k ptr buf coming = (
  char (get_or buf ptr 0),
  record { read_cnt = left k; read_ptr = ptr + 1; read_buf = buf; coming = coming },
)

-- The label `again`. `none`: the call blocks for good.
unfoldable pub again : ℕ → List ℕ → List Arrival → Option (Got × Reader)
again ptr buf [] = none
again ptr buf (broken eintr ∷ coming) = again ptr buf coming
again ptr buf (broken e ∷ coming) =
    some
      (error, record { read_cnt = minus_one_left; read_ptr = ptr; read_buf = buf; coming = coming })
again ptr buf (chunk [] ∷ coming) =
    some (eof, record { read_cnt = left 0; read_ptr = ptr; read_buf = buf; coming = coming })
again ptr buf (chunk (x ∷ xs) ∷ coming) =
    some (serve (length xs) 0 ((x ∷ xs) ++ drop (suc (length xs)) buf) coming)

-- The branches of `my_read` on `read_cnt`.
unfoldable pub my_read_cnt : ReadCnt → Reader → Option (Got × Reader)
my_read_cnt minus_one_left rd = again rd.read_ptr rd.read_buf rd.coming
my_read_cnt (left zero) rd = again rd.read_ptr rd.read_buf rd.coming
my_read_cnt (left (suc k)) rd = some (serve k rd.read_ptr rd.read_buf rd.coming)

unfoldable pub my_read : Reader → Option (Got × Reader)
unfolding my_read_cnt
my_read rd = my_read_cnt rd.read_cnt rd

-- The bytes that `readline` stored in front of the null byte, its result, and the reader after it.
pub record Line : Type 0 where
  pub stored : List ℕ
  pub value : Result
  pub reader : Reader

abbrev pub put_front : ℕ → Option Line → Option Line
put_front c none = none
put_front c (some l) = some (record l { stored = c ∷ l.stored })

abbrev pub on_char : ℕ → ℕ → Reader → Option Line → Option Line
on_char c n rd rest =
    if c == newline
    then some (record { stored = c ∷ []; value = returned n; reader = rd })
    else put_front c rest

-- One round, `next` being the rounds after it.
abbrev pub on_read : ℕ → (Reader → Option Line) → Option (Got × Reader) → Option Line
on_read n next none = none
on_read n next (some (char c, rd)) = let rest = next rd in on_char c n rd rest
on_read n next (some (eof, rd)) =
    some (record { stored = []; value = returned (n - 1); reader = rd })
on_read n next (some (error, rd)) = some (record { stored = []; value = minus_one; reader = rd })

-- `for (n = 1; n < maxlen; n++)`, with `maxlen - n` rounds left.
unfoldable pub readline_loop : ℕ → ℕ → Reader → Option Line
readline_loop zero n rd = some (record { stored = []; value = returned n; reader = rd })
readline_loop (suc rounds) n rd = on_read n (readline_loop rounds (n + 1)) (my_read rd)

unfoldable pub readline : Reader → ℕ → Option Line
readline rd maxlen = readline_loop (maxlen - 1) 1 rd

-- The bytes of a string in front of its null byte, which `fputs` prints.
unfoldable pub c_string : List ℕ → List ℕ
c_string [] = []
c_string (zero ∷ xs) = []
c_string (suc c ∷ xs) = suc c ∷ c_string xs

-- `while (readline(sockfd, recvline, MAXLINE) > 0) fputs(recvline, stdout);`: what goes to the
-- standard output, if the loop ends within the fuel.
unfoldable pub str_cli : ℕ → Reader → Option (List ℕ)
str_cli zero rd = none
str_cli (suc fuel) rd = elim (readline rd maxline) [
  | none ↦ none
  | some l ↦ elim l.value [
    | minus_one ↦ some []
    | returned n ↦ elim n [
      | zero ↦ some []
      | suc _ ↦ elim (str_cli fuel l.reader) [
        | none ↦ none
        | some out ↦ some (c_string l.stored ++ out)
      ]
    ]
  ]
]
