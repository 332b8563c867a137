-- ===== src/Pipe/Gives.antt =====
-- user/pipe.c: each step of `pipewrite` keeps the counts of the ring.
use buaa_mips_os.Base.{
  refl, ◌&&◌, ltb, inr, inl, Bool-cases, suc, ◌∙◌, false, length-append, ap, ◌-◌, ◌==◌, arith,
  length, update, ◌∷◌, ◌++◌, ◌%◌, ◌<◌, ◌≡◌, [], ◌≤◌, ◌+◌, List, Bool, suc, ℕ,
}
use mathlib.Core.Path.{subst}
use mathlib.Core.List.{append_assoc}
use buaa_mips_os.Pipe.{
  u32, by2pipe, Pipe, Reader, Writer, waiting, copying, stored, returned, ended, writing, put,
  pausing, is_full, write_step, bytes, given,
}
use buaa_mips_os.Pipe.Counts.{window, window-snoc, window-update, ReaderFits, WriterFits, Counts}

-- A step of the writer that moves no position keeps the counts.
pub writer_stays :
    (p : Pipe) (rd : Reader) (wr wr' : Writer) (xs ys : List ℕ)
    → WriterFits p (length xs) (length ys) wr'
    → Counts p rd wr xs ys
    → Counts p rd wr' xs ys
writer_stays p rd wr wr' xs ys f h = record {
  rpos = h.rpos;
  wpos = h.wpos;
  ordered = h.ordered;
  room = h.room;
  fifo = h.fifo;
  reader_fits = h.reader_fits;
  writer_fits = f;
}

-- A store to a free byte of the ring leaves the byte that the reader holds.
ReaderFits-store :
    (p : Pipe) (R W b : ℕ) (rd : Reader)
    → W < R + by2pipe
    → ReaderFits p R W rd
    → ReaderFits (record p { p_buf = update p.p_buf (W % by2pipe) b }) R W rd
ReaderFits-store p R W b (waiting n) k h = tt
ReaderFits-store p R W b (copying n rbuf) k h = h
ReaderFits-store p R W b (stored n rbuf c) k h =
    let other : (R % by2pipe == W % by2pipe) ≡ false = ground (arith, h.1) in
    (h.0, h.1, rw other h.2)
ReaderFits-store p R W b (returned n rbuf) k h = h
ReaderFits-store p R W b ended k h = tt

ReaderFits-later :
    (p : Pipe) (v R W W' : ℕ) (rd : Reader)
    → W ≤ W'
    → ReaderFits p R W rd
    → ReaderFits (record p { p_wpos = v }) R W' rd
ReaderFits-later p v R W W' (waiting n) k h = tt
ReaderFits-later p v R W W' (copying n rbuf) k h = h
ReaderFits-later p v R W W' (stored n rbuf c) k h = (h.0, omega (arith, h.1), h.2)
ReaderFits-later p v R W W' (returned n rbuf) k h = h
ReaderFits-later p v R W W' ended k h = tt

-- The store of `wbuf[i]` behind the window.
put_byte :
    (p : Pipe) (n : ℕ) (wbuf : ℕ → ℕ) (i : ℕ) (rd : Reader) (xs ys : List ℕ)
    → i < n
    → Counts p rd (writing n wbuf i) xs ys
    → Counts
        (record p { p_buf = update p.p_buf (p.p_wpos % by2pipe) (wbuf i) })
        rd
        (put n wbuf i)
        xs
        ys
put_byte p n wbuf i rd xs ys more h = rw h.wpos record {
  rpos = h.rpos;
  wpos = refl;
  ordered = h.ordered;
  room = h.room;
  fifo =
      rw
        (window-update p.p_buf (length xs) (length ys - length xs) (length ys) (wbuf i)
          (omega (arith, h.ordered)) free)
        h.fifo;
  reader_fits = ReaderFits-store p (length xs) (length ys) (wbuf i) rd free h.reader_fits;
  writer_fits = (more, free, ground arith);
}
  where
    fits : WriterFits p (length xs) (length ys) (writing n wbuf i)
    fits = h.writer_fits

    free : length ys < length xs + by2pipe
    free = fits.1 more

fifo_put :
    (buf : ℕ → ℕ) (xs ys : List ℕ) (b : ℕ)
    → length xs ≤ length ys
    → ys ≡ xs ++ window buf (length xs) (length ys - length xs)
    → buf (length ys % by2pipe) ≡ b
    → ys ++ b ∷ [] ≡ xs ++ window buf (length xs) (suc (length ys - length xs))
fifo_put buf xs ys b k h e =
    let m : ℕ = length ys - length xs in
    let at : length xs + (length ys - length xs) ≡ length ys = omega arith in
    rw (window-snoc buf (length xs) (length ys - length xs), at, e)
      (ap (λ l. l ++ b ∷ []) h
        ∙ append_assoc xs (window buf (length xs) (length ys - length xs)) (b ∷ []))

-- `p_wpos++` behind the store.
give_byte :
    (p : Pipe) (n : ℕ) (wbuf : ℕ → ℕ) (i : ℕ) (rd : Reader) (xs ys : List ℕ)
    → length ys + 1 < 0x1_0000_0000
    → Counts p rd (put n wbuf i) xs ys
    → Counts
        (record p { p_wpos = u32 (p.p_wpos + 1) })
        rd
        (pausing n wbuf (suc i))
        xs
        (ys ++ wbuf i ∷ [])
give_byte p n wbuf i rd xs ys small h = record {
  rpos = h.rpos;
  wpos = omega (arith, h.wpos, longer);
  ordered = omega (arith, h.ordered, longer);
  room = omega (arith, fits.1, longer);
  fifo = rw (longer, plus) (fifo_put p.p_buf xs ys (wbuf i) h.ordered h.fifo fits.2);
  reader_fits =
      ReaderFits-later p (u32 (p.p_wpos + 1)) (length xs) (length ys) (length (ys ++ wbuf i ∷ []))
        rd (omega (arith, longer)) h.reader_fits;
  writer_fits = omega (arith, fits.0);
}
  where
    fits : WriterFits p (length xs) (length ys) (put n wbuf i)
    fits = h.writer_fits

    longer : length (ys ++ wbuf i ∷ []) ≡ length ys + 1
    longer = length-append ys (wbuf i ∷ [])

    plus : length ys + 1 - length xs ≡ suc (length ys - length xs)
    plus = omega (arith, h.ordered)

-- `p_wpos - p_rpos` counts the bytes in the ring.
is_full-Counts :
    (p : Pipe) (rd : Reader) (wr : Writer) (xs ys : List ℕ)
    → length ys < 0x1_0000_0000
    → Counts p rd wr xs ys
    → is_full p ≡ false
    → length ys < length xs + by2pipe
is_full-Counts p rd wr xs ys small h free = ground (arith, h.rpos, h.wpos, h.ordered, free)

-- A step of `pipewrite`.
pub write_step_sound :
    (closed : Bool) (p : Pipe) (rd : Reader) (wr : Writer) (past xs : List ℕ)
    → length (past ++ given wr) + 1 < 0x1_0000_0000
    → Counts p rd wr xs (past ++ given wr)
    → Counts
        (write_step closed p wr).0
        rd
        (write_step closed p wr).1
        xs
        (past ++ given (write_step closed p wr).1)
unfolding write_step
write_step_sound closed p rd (waiting n wbuf) past xs small h = elim (Bool-cases (is_full p)) [
  | inl full ↦ elim (Bool-cases closed) [
    | inl gone ↦ rw (full, gone) (writer_stays p rd (waiting n wbuf) ended xs (past ++ []) tt h)
    | inr open_end ↦ rw (full, open_end) h
  ]
  | inr free ↦ rw free (
      writer_stays p rd (waiting n wbuf) (writing n wbuf 0) xs (past ++ [])
        (
          omega arith,
          λ _. is_full-Counts p rd (waiting n wbuf) xs (past ++ []) (omega arith) h free,
        )
        h)
]
write_step_sound closed p rd (writing n wbuf i) past xs small h = elim (Bool-cases (ltb i n)) [
  | inl more ↦ rw more (put_byte p n wbuf i rd xs (past ++ bytes wbuf i) (ground (arith, more)) h)
  | inr last ↦ rw last (
      writer_stays p rd (writing n wbuf i) (returned n wbuf i) xs (past ++ bytes wbuf i)
        (ground (arith, last, h.writer_fits)) h)
]
write_step_sound closed p rd (put n wbuf i) past xs small h =
    subst
      (λ ys. Counts (record p { p_wpos = u32 (p.p_wpos + 1) }) rd (pausing n wbuf (suc i)) xs ys)
      (append_assoc past (bytes wbuf i) (wbuf i ∷ []))
      (give_byte p n wbuf i rd xs (past ++ bytes wbuf i) small h)
write_step_sound closed p rd (pausing n wbuf i) past xs small h =
    elim (Bool-cases (ltb i n && is_full p)) [
      | inl wait ↦ rw wait h
      | inr free ↦ rw free (
          writer_stays p rd (pausing n wbuf i) (writing n wbuf i) xs (past ++ bytes wbuf i)
            (
              h.writer_fits,
              λ l.
                  is_full-Counts p rd (pausing n wbuf i) xs (past ++ bytes wbuf i) (omega arith) h
                    (ground arith),
            )
            h)
    ]
write_step_sound closed p rd (returned n wbuf i) past xs small h = h
write_step_sound closed p rd ended past xs small h = h
