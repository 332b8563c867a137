-- ===== src/Pipe/Order.antt =====
-- user/pipe.c: in whatever order the reader and the writer run, a pipe passes on the bytes that were
-- written, each once and in their order.
use buaa_mips_os.Base.{
  true, refl, inr, inl, Bool-cases, zero, suc, ◌∙◌, length-append, ap, sym, ◌-◌, ◌==◌, arith,
  length, ◌∷◌, ◌++◌, ◌<◌, ◌≡◌, [], ◌≤◌, ◌+◌, List, Bool, suc, ℕ,
}
use mathlib.Core.Path.{subst}
use mathlib.Core.List.{append-nil}
use buaa_mips_os.Pipe.{
  by2pipe, Pipe, Reader, Writer, waiting, returned, ended, writing, put, pausing, System, is_empty,
  write_step, piperead, pipewrite, bytes, taken, given, got, sent, Step, reader_runs, writer_runs,
  reader_calls, writer_calls, Reach, start, next,
}
use buaa_mips_os.Pipe.Counts.{window, ReaderFits, WriterFits, Counts}
use buaa_mips_os.Pipe.Takes.{reader_stays, read_step_sound}
use buaa_mips_os.Pipe.Gives.{writer_stays, write_step_sound}

abbrev pub IsSound : System → Type 0
IsSound s = Counts s.pipe s.reader s.writer (got s) (sent s)

taken-piperead : (n : ℕ) → taken (piperead n) ≡ []
unfolding piperead
taken-piperead n = ground arith

given-pipewrite : (n : ℕ) (wbuf : ℕ → ℕ) → given (pipewrite n wbuf) ≡ []
unfolding pipewrite
given-pipewrite n wbuf = ground arith

piperead_fits : (p : Pipe) (R W n : ℕ) → ReaderFits p R W (piperead n)
unfolding piperead
piperead_fits p R W n = elim (Bool-cases (n == 0)) [ inl e ↦ rw e tt | inr e ↦ rw e tt ]

pipewrite_fits : (p : Pipe) (R W n : ℕ) (wbuf : ℕ → ℕ) → WriterFits p R W (pipewrite n wbuf)
unfolding pipewrite
pipewrite_fits p R W n wbuf = elim (Bool-cases (n == 0)) [
  | inl e ↦ rw e tt
  | inr e ↦ rw e (ground (arith, e))
]

reader_starts :
    (p : Pipe) (rd : Reader) (wr : Writer) (xs ys : List ℕ) (n : ℕ)
    → Counts p rd wr xs ys
    → Counts p (piperead n) wr (xs ++ taken (piperead n)) ys
reader_starts p rd wr xs ys n h =
    rw (taken-piperead n, append-nil xs)
      (reader_stays p rd (piperead n) wr xs ys (piperead_fits p (length xs) (length ys) n) h)

writer_starts :
    (p : Pipe) (rd : Reader) (wr : Writer) (xs ys : List ℕ) (n : ℕ) (wbuf : ℕ → ℕ)
    → Counts p rd wr xs ys
    → Counts p rd (pipewrite n wbuf) xs (ys ++ given (pipewrite n wbuf))
writer_starts p rd wr xs ys n wbuf h =
    rw (given-pipewrite n wbuf, append-nil ys)
      (writer_stays p rd wr (pipewrite n wbuf) xs ys
        (pipewrite_fits p (length xs) (length ys) n wbuf) h)

Step-IsSound :
    {s t : System} → Step s t → length (sent s) + 1 < 0x1_0000_0000 → IsSound s → IsSound t
Step-IsSound {s} (reader_runs closed) small h =
    read_step_sound closed s.pipe s.reader s.writer s.past_reads (sent s) (omega arith) h
Step-IsSound {s} (writer_runs closed) small h =
    write_step_sound closed s.pipe s.reader s.writer s.past_writes (got s) small h
Step-IsSound {s} (reader_calls n fresh) small h =
    reader_starts s.pipe s.reader s.writer (got s) (sent s) n h
Step-IsSound {s} (writer_calls n wbuf fresh) small h =
    writer_starts s.pipe s.reader s.writer (got s) (sent s) n wbuf h

given-write_step :
    (closed : Bool) (p : Pipe) (wr : Writer)
    → length (given wr) ≤ length (given (write_step closed p wr).1)
unfolding write_step
given-write_step closed p (waiting n wbuf) = omega arith
given-write_step closed p (writing n wbuf i) = ground arith
given-write_step closed p (put n wbuf i) = omega (arith, length-append (bytes wbuf i) (wbuf i ∷ []))
given-write_step closed p (pausing n wbuf i) = ground arith
given-write_step closed p (returned n wbuf i) = omega arith
given-write_step closed p ended = omega arith

-- A step takes no byte back.
sent-Step : {s t : System} → Step s t → length (sent s) ≤ length (sent t)
sent-Step (reader_runs closed) = omega arith
sent-Step {s} (writer_runs closed) = omega (
  arith,
  length-append s.past_writes (given s.writer),
  length-append s.past_writes (given (write_step closed s.pipe s.writer).1),
  given-write_step closed s.pipe s.writer,
)
sent-Step (reader_calls n fresh) = omega arith
sent-Step {s} (writer_calls n wbuf fresh) =
    omega (arith, length-append (sent s) (given (pipewrite n wbuf)))

Reach-IsSound : {s : System} → Reach s → length (sent s) + 1 < 0x1_0000_0000 → IsSound s
Reach-IsSound start small = record {
  rpos = refl;
  wpos = refl;
  ordered = omega arith;
  room = omega arith;
  fifo = refl;
  reader_fits = tt;
  writer_fits = tt;
}
Reach-IsSound (next path st) small =
    Step-IsSound st (omega (arith, sent-Step st)) (Reach-IsSound path (omega (arith, sent-Step st)))

length-window : (buf : ℕ → ℕ) (r m : ℕ) → length (window buf r m) ≡ m
length-window buf r zero = refl
length-window buf r (suc m) = ap suc (length-window buf (suc r) m)

-- In every state that the reader and the writer can reach, with fewer than 2^32 - 1 bytes written in
-- all, the bytes read are a prefix of the bytes written, and at most 32 bytes are on the way.
pub pipe_fifo :
    {s : System}
    → Reach s
    → length (sent s) + 1 < 0x1_0000_0000
    → (rest : List ℕ) × (sent s ≡ got s ++ rest) × (length rest ≤ by2pipe)
pipe_fifo {s} path small =
    let h = Reach-IsSound path small in
    let m : ℕ = length (sent s) - length (got s) in
    (
      window s.pipe.p_buf (length (got s)) (length (sent s) - length (got s)),
      h.fifo,
      omega (
        arith,
        h.room,
        length-window s.pipe.p_buf (length (got s)) (length (sent s) - length (got s)),
      ),
    )

-- When the pipe tests as empty, every byte written has been read.
pipe_drained :
    {s : System}
    → Reach s
    → length (sent s) + 1 < 0x1_0000_0000
    → is_empty s.pipe ≡ true
    → sent s ≡ got s
pipe_drained {s} path small empty =
    let h = Reach-IsSound path small in
    let none_left : length (sent s) - length (got s) ≡ 0 = ground (arith, h.rpos, h.wpos, empty) in
    h.fifo
    ∙ ap (λ m. got s ++ window s.pipe.p_buf (length (got s)) m) none_left
    ∙ append-nil (got s)

returned_all :
    (p : Pipe) (rd : Reader) (wr : Writer) (xs ys : List ℕ) {n i : ℕ} {wbuf : ℕ → ℕ}
    → wr ≡ returned n wbuf i
    → Counts p rd wr xs ys
    → i ≡ n
returned_all p rd wr xs ys e h = subst (λ w. WriterFits p (length xs) (length ys) w) e h.writer_fits

-- The bytes of the pipe's buffer from `p_rpos` up to `p_wpos`, in their order.
abbrev pub in_pipe : Pipe → List ℕ
in_pipe p = window p.p_buf p.p_rpos (p.p_wpos - p.p_rpos)

-- A call of `pipewrite` that returns from its copying loop, with fewer than 2^32 - 1 bytes written in all, has
-- written all its `n` bytes: the bytes that the reader has got so far, and behind them those that stand in
-- the pipe's buffer from `p_rpos` up to `p_wpos`, are the bytes of the calls before it and then its own
-- `n` bytes, in their order, whatever the reader did meanwhile.
pub pipewrite_all :
    {s : System} {n i : ℕ} {wbuf : ℕ → ℕ}
    → Reach s
    → length (sent s) + 1 < 0x1_0000_0000
    → s.writer ≡ returned n wbuf i
    → (i ≡ n) × (got s ++ in_pipe s.pipe ≡ s.past_writes ++ bytes wbuf n)
pipewrite_all {s} {n} {i} {wbuf} path small e =
    let h = Reach-IsSound path small in
    let all : i ≡ n = returned_all s.pipe s.reader s.writer (got s) (sent s) e h in
    let few : length (got s) < 0x1_0000_0000 = omega (arith, h.ordered, small) in
    let from : s.pipe.p_rpos ≡ length (got s) = omega (arith, h.rpos, few) in
    let to : s.pipe.p_wpos ≡ length (sent s) = omega (arith, h.wpos, small) in
    (
      all,
      rw (from, to) (sym h.fifo)
          ∙ ap (λ w. s.past_writes ++ given w) e
          ∙ ap (λ k. s.past_writes ++ bytes wbuf k) all,
    )
