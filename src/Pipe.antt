-- ===== src/Pipe.antt =====
-- user/pipe.c: the ring buffer of a pipe, and the loops of `piperead` and `pipewrite` as steps that
-- the scheduler may interleave. One process reads and one writes; `past_reads` and `past_writes` are
-- the bytes of the calls that have returned.
mod Tests
pub mod Counts
pub mod Takes
pub mod Gives
pub mod Order
pub mod Closed
use buaa_mips_os.Base.{
  false, ◌≡◌, true, ℕ, zero, suc, ◌+◌, ◌%◌, Bool, List, [], ◌∷◌, ◌++◌, ◌==◌, ltb, leb, ◌&&◌,
  if◌then◌else◌, length, update,
}
use buaa_mips_os.Base.Words.{u32, sub32}

abbrev pub by2pipe : ℕ
by2pipe = 32

-- struct Pipe
pub record Pipe : Type 0 where
  pub p_rpos : ℕ
  pub p_wpos : ℕ
  pub p_buf : ℕ → ℕ

-- Where the reader stands: in the loop that waits for bytes; at the head of the copying loop; behind
-- the store to `rbuf[i]`; behind `return i`; or behind `return 0` on a closed or unasked read. `rbuf`
-- holds the bytes `rbuf[0..i)`.
pub data Reader : Type 0 where
  waiting : (n : ℕ) → Reader
  copying : (n : ℕ) (rbuf : List ℕ) → Reader
  stored : (n : ℕ) (rbuf : List ℕ) (b : ℕ) → Reader
  returned : (n : ℕ) (rbuf : List ℕ) → Reader
  ended : Reader

-- Where the writer stands: in the loop that waits for room; at the head of the copying loop; behind
-- the store to `p_buf`; in the inner loop that waits for room; behind `return i`; or behind `return 0`.
pub data Writer : Type 0 where
  waiting : (n : ℕ) (wbuf : ℕ → ℕ) → Writer
  writing : (n : ℕ) (wbuf : ℕ → ℕ) (i : ℕ) → Writer
  put : (n : ℕ) (wbuf : ℕ → ℕ) (i : ℕ) → Writer
  pausing : (n : ℕ) (wbuf : ℕ → ℕ) (i : ℕ) → Writer
  returned : (n : ℕ) (wbuf : ℕ → ℕ) (i : ℕ) → Writer
  ended : Writer

pub record System : Type 0 where
  pub pipe : Pipe
  pub reader : Reader
  pub writer : Writer
  pub past_reads : List ℕ
  pub past_writes : List ℕ

abbrev pub is_empty : Pipe → Bool
is_empty p = leb p.p_wpos p.p_rpos

abbrev pub is_full : Pipe → Bool
is_full p = leb by2pipe (sub32 p.p_wpos p.p_rpos)

-- One step of `piperead`. `closed` is what `_pipeisclosed` answers, if the step asks it.
pub read_step : Bool → Pipe → Reader → Pipe × Reader
read_step closed p (waiting n) =
    if is_empty p then if closed then (p, ended) else (p, waiting n) else (p, copying n [])
read_step closed p (copying n rbuf) =
    if ltb (length rbuf) n && ltb p.p_rpos p.p_wpos
    then (p, stored n rbuf (p.p_buf (p.p_rpos % by2pipe)))
    else (p, returned n rbuf)
read_step closed p (stored n rbuf b) =
    (record p { p_rpos = u32 (p.p_rpos + 1) }, copying n (rbuf ++ b ∷ []))
read_step closed p (returned n rbuf) = (p, returned n rbuf)
read_step closed p ended = (p, ended)

-- One step of `pipewrite`.
pub write_step : Bool → Pipe → Writer → Pipe × Writer
write_step closed p (waiting n wbuf) =
    if is_full p then if closed then (p, ended) else (p, waiting n wbuf) else (p, writing n wbuf 0)
write_step closed p (writing n wbuf i) =
    if ltb i n
    then (record p { p_buf = update p.p_buf (p.p_wpos % by2pipe) (wbuf i) }, put n wbuf i)
    else (p, returned n wbuf i)
write_step closed p (put n wbuf i) =
    (record p { p_wpos = u32 (p.p_wpos + 1) }, pausing n wbuf (suc i))
write_step closed p (pausing n wbuf i) =
    if ltb i n && is_full p then (p, pausing n wbuf i) else (p, writing n wbuf i)
write_step closed p (returned n wbuf i) = (p, returned n wbuf i)
write_step closed p ended = (p, ended)

-- The calls `piperead(fd, rbuf, n)` and `pipewrite(fd, wbuf, n)` up to their first loop.
pub piperead : ℕ → Reader
piperead n = if n == 0 then ended else waiting n

pub pipewrite : ℕ → (ℕ → ℕ) → Writer
pipewrite n wbuf = if n == 0 then ended else waiting n wbuf

-- `wbuf[0]`, ..., `wbuf[n-1]`.
abbrev pub bytes : (ℕ → ℕ) → ℕ → List ℕ
bytes wbuf zero = []
bytes wbuf (suc n) = bytes wbuf n ++ wbuf n ∷ []

-- What the calls in progress have taken out of the pipe, and put into it.
abbrev pub taken : Reader → List ℕ
taken (waiting n) = []
taken (copying n rbuf) = rbuf
taken (stored n rbuf b) = rbuf
taken (returned n rbuf) = rbuf
taken ended = []

abbrev pub given : Writer → List ℕ
given (waiting n wbuf) = []
given (writing n wbuf i) = bytes wbuf i
given (put n wbuf i) = bytes wbuf i
given (pausing n wbuf i) = bytes wbuf i
given (returned n wbuf i) = bytes wbuf i
given ended = []

-- All bytes taken out of the pipe so far, and all bytes put into it.
abbrev pub got : System → List ℕ
got s = s.past_reads ++ taken s.reader

abbrev pub sent : System → List ℕ
sent s = s.past_writes ++ given s.writer

abbrev pub reads : Bool → System → System
reads closed s = let r = read_step closed s.pipe s.reader in record s { pipe = r.0; reader = r.1 }

abbrev pub writes : Bool → System → System
writes closed s = let w = write_step closed s.pipe s.writer in record s { pipe = w.0; writer = w.1 }

-- A new call: only a call that has returned is followed by another.
abbrev pub reader_is_done : Reader → Bool
reader_is_done (returned n rbuf) = true
reader_is_done ended = true
reader_is_done _ = false

abbrev pub writer_is_done : Writer → Bool
writer_is_done (returned n wbuf i) = true
writer_is_done ended = true
writer_is_done _ = false

abbrev pub calls_read : ℕ → System → System
calls_read n s = record s { reader = piperead n; past_reads = got s }

abbrev pub calls_write : ℕ → (ℕ → ℕ) → System → System
calls_write n wbuf s = record s { writer = pipewrite n wbuf; past_writes = sent s }

pub data Step (s : System) : System → Type 0 where
  reader_runs : (closed : Bool) → Step s (reads closed s)
  writer_runs : (closed : Bool) → Step s (writes closed s)
  reader_calls : (n : ℕ) → reader_is_done s.reader ≡ true → Step s (calls_read n s)
  writer_calls :
      (n : ℕ) (wbuf : ℕ → ℕ) → writer_is_done s.writer ≡ true → Step s (calls_write n wbuf s)

-- The pipe's page is cleared when it is allocated.
abbrev pub new_pipe : System
new_pipe = record {
  pipe = record { p_rpos = 0; p_wpos = 0; p_buf = λ _. 0 };
  reader = ended;
  writer = ended;
  past_reads = [];
  past_writes = [];
}

pub data Reach : System → Type 0 where
  start : Reach new_pipe
  next : {s t : System} → Reach s → Step s t → Reach t
