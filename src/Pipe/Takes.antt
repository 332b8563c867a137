-- ===== src/Pipe/Takes.antt =====
-- user/pipe.c: each step of `piperead` keeps the counts of the ring.
use buaa_mips_os.Base.{
  sym, ◌&&◌, ltb, inr, inl, sym, Bool-cases, zero, suc, length-append, ap, ◌-◌, arith, length, ◌∷◌,
  ◌++◌, ◌%◌, ◌<◌, ◌≡◌, [], ◌≤◌, ◌+◌, List, Bool, suc, ℕ,
}
use mathlib.Core.Path.{subst}
use mathlib.Core.List.{append_assoc}
use buaa_mips_os.Pipe.{
  u32, by2pipe, Pipe, Reader, Writer, waiting, copying, stored, returned, ended, writing, put,
  pausing, is_empty, read_step, taken,
}
use buaa_mips_os.Pipe.Counts.{window, ReaderFits, WriterFits, Counts}

-- A step of the reader that moves no position keeps the counts.
pub reader_stays :
    (p : Pipe) (rd rd' : Reader) (wr : Writer) (xs ys : List ℕ)
    → ReaderFits p (length xs) (length ys) rd'
    → Counts p rd wr xs ys
    → Counts p rd' wr xs ys
reader_stays p rd rd' wr xs ys f h = record {
  rpos = h.rpos;
  wpos = h.wpos;
  ordered = h.ordered;
  room = h.room;
  fifo = h.fifo;
  reader_fits = f;
  writer_fits = h.writer_fits;
}

fifo_take :
    (buf : ℕ → ℕ) (xs ys : List ℕ) (r m b : ℕ)
    → ys ≡ xs ++ window buf r m
    → 0 < m
    → b ≡ buf (r % by2pipe)
    → ys ≡ (xs ++ b ∷ []) ++ window buf (r + 1) (m - 1)
fifo_take buf xs ys r zero b h k e = absurd (omega arith)
fifo_take buf xs ys r (suc m) b h k e =
    let k' : suc r ≡ r + 1 = omega arith in
    let m' : suc m - 1 ≡ m = omega arith in
    rw (m', h, sym k', e) (sym (append_assoc xs (buf (r % by2pipe) ∷ []) (window buf (suc r) m)))

-- More bytes taken leave the writer more room.
WriterFits-later :
    (p : Pipe) (v R R' W : ℕ) (wr : Writer)
    → R ≤ R'
    → WriterFits p R W wr
    → WriterFits (record p { p_rpos = v }) R' W wr
WriterFits-later p v R R' W (waiting n wbuf) k h = h
WriterFits-later p v R R' W (writing n wbuf i) k h = (h.0, λ l. omega (arith, h.1 l))
WriterFits-later p v R R' W (put n wbuf i) k h = (h.0, omega (arith, h.1), h.2)
WriterFits-later p v R R' W (pausing n wbuf i) k h = h
WriterFits-later p v R R' W (returned n wbuf i) k h = h
WriterFits-later p v R R' W ended k h = h

-- `p_rpos++` behind the store.
take_byte :
    (p : Pipe) (n : ℕ) (rbuf : List ℕ) (b : ℕ) (wr : Writer) (xs ys : List ℕ)
    → length ys < 0x1_0000_0000
    → Counts p (stored n rbuf b) wr xs ys
    → Counts
        (record p { p_rpos = u32 (p.p_rpos + 1) })
        (copying n (rbuf ++ b ∷ []))
        wr
        (xs ++ b ∷ [])
        ys
take_byte p n rbuf b wr xs ys small h = record {
  rpos = omega (arith, h.rpos, fits.1, longer);
  wpos = h.wpos;
  ordered = omega (arith, fits.1, longer);
  room = omega (arith, h.room, longer);
  fifo =
      rw (longer, minus)
        (fifo_take p.p_buf xs ys (length xs) (length ys - length xs) b h.fifo
          (omega (arith, fits.1)) fits.2);
  reader_fits = omega (arith, fits.0, length-append rbuf (b ∷ []));
  writer_fits =
      WriterFits-later p (u32 (p.p_rpos + 1)) (length xs) (length (xs ++ b ∷ [])) (length ys) wr
        (omega (arith, longer)) h.writer_fits;
}
  where
    fits : ReaderFits p (length xs) (length ys) (stored n rbuf b)
    fits = h.reader_fits

    longer : length (xs ++ b ∷ []) ≡ length xs + 1
    longer = length-append xs (b ∷ [])

    minus : length ys - (length xs + 1) ≡ length ys - length xs - 1
    minus = omega arith

-- A step of `piperead`.
pub read_step_sound :
    (closed : Bool) (p : Pipe) (rd : Reader) (wr : Writer) (past ys : List ℕ)
    → length ys < 0x1_0000_0000
    → Counts p rd wr (past ++ taken rd) ys
    → Counts
        (read_step closed p rd).0
        (read_step closed p rd).1
        wr
        (past ++ taken (read_step closed p rd).1)
        ys
unfolding read_step
read_step_sound closed p (waiting n) wr past ys small h = elim (Bool-cases (is_empty p)) [
  | inl empty ↦ elim (Bool-cases closed) [
    | inl gone ↦ rw (empty, gone) (reader_stays p (waiting n) ended wr (past ++ []) ys tt h)
    | inr open_end ↦ rw (empty, open_end) h
  ]
  | inr some_byte ↦
      rw some_byte (reader_stays p (waiting n) (copying n []) wr (past ++ []) ys (omega arith) h)
]
read_step_sound closed p (copying n rbuf) wr past ys small h =
    elim (Bool-cases (ltb (length rbuf) n && ltb p.p_rpos p.p_wpos)) [
      | inl more ↦ rw more (
          reader_stays p (copying n rbuf) (stored n rbuf (p.p_buf (p.p_rpos % by2pipe))) wr
            (past ++ rbuf) ys
            (
              ground (arith, more),
              ground (arith, more, h.rpos, h.wpos),
              ap (λ r. p.p_buf (r % by2pipe)) h.rpos,
            )
            h)
      | inr last ↦
          rw last
            (reader_stays p (copying n rbuf) (returned n rbuf) wr (past ++ rbuf) ys h.reader_fits h)
    ]
read_step_sound closed p (stored n rbuf b) wr past ys small h =
    subst
      (λ xs.
        Counts (record p { p_rpos = u32 (p.p_rpos + 1) }) (copying n (rbuf ++ b ∷ [])) wr xs ys)
      (append_assoc past rbuf (b ∷ [])) (take_byte p n rbuf b wr (past ++ rbuf) ys small h)
read_step_sound closed p (returned n rbuf) wr past ys small h = h
read_step_sound closed p ended wr past ys small h = h
