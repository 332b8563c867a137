-- ===== src/Pipe/Counts.antt =====
-- user/pipe.c: how the positions of the ring, the bytes in it and the calls in progress fit together.
use buaa_mips_os.Base.{
  refl, zero, suc, ◌∙◌, false, ap, ◌-◌, ◌==◌, arith, length, update, ◌∷◌, ◌++◌, ◌%◌, ◌<◌, ◌≡◌, [],
  ◌≤◌, ◌+◌, List, suc, ℕ,
}
use buaa_mips_os.Pipe.{
  by2pipe, Pipe, Reader, Writer, waiting, copying, stored, returned, ended, writing, put, pausing,
}

-- The `m` bytes of the ring from position `r` on.
abbrev pub window : (ℕ → ℕ) → ℕ → ℕ → List ℕ
window buf r zero = []
window buf r (suc m) = buf (r % by2pipe) ∷ window buf (suc r) m

pub window-snoc :
    (buf : ℕ → ℕ) (r m : ℕ) → window buf r (suc m) ≡ window buf r m ++ buf ((r + m) % by2pipe) ∷ []
window-snoc buf r zero = ground arith
window-snoc buf r (suc m) =
    let e : suc r + m ≡ r + suc m = omega arith in
    ap (λ t. buf (r % by2pipe) ∷ t)
      (window-snoc buf (suc r) m ∙ ap (λ k. window buf (suc r) m ++ buf (k % by2pipe) ∷ []) e)

-- A store behind the window, and less than a turn ahead of it, leaves it alone.
pub window-update :
    (buf : ℕ → ℕ) (r m x b : ℕ)
    → r + m ≤ x
    → x < r + by2pipe
    → window (update buf (x % by2pipe) b) r m ≡ window buf r m
window-update buf r zero x b h k = refl
window-update buf r (suc m) x b h k =
    let other : (r % by2pipe == x % by2pipe) ≡ false = ground arith in
    rw (other, window-update buf (suc r) m x b (omega arith) (omega arith)) refl

-- `R` bytes were taken and `W` put.
abbrev pub ReaderFits : Pipe → ℕ → ℕ → Reader → Type 0
ReaderFits p R W (waiting n) = Unit {0}
ReaderFits p R W (copying n rbuf) = length rbuf ≤ n
ReaderFits p R W (stored n rbuf b) = (length rbuf < n) × (R < W) × (b ≡ p.p_buf (R % by2pipe))
ReaderFits p R W (returned n rbuf) = length rbuf ≤ n
ReaderFits p R W ended = Unit {0}

abbrev pub WriterFits : Pipe → ℕ → ℕ → Writer → Type 0
WriterFits p R W (waiting n wbuf) = 0 < n
WriterFits p R W (writing n wbuf i) = (i ≤ n) × (i < n → W < R + by2pipe)
WriterFits p R W (put n wbuf i) = (i < n) × (W < R + by2pipe) × (p.p_buf (W % by2pipe) ≡ wbuf i)
WriterFits p R W (pausing n wbuf i) = i ≤ n
WriterFits p R W (returned n wbuf i) = i ≡ n
WriterFits p R W ended = Unit {0}

pub record Counts (p : Pipe) (rd : Reader) (wr : Writer) (xs ys : List ℕ) : Type 0 where
  pub rpos : p.p_rpos ≡ length xs
  pub wpos : p.p_wpos ≡ length ys
  pub ordered : length xs ≤ length ys
  pub room : length ys ≤ length xs + by2pipe
  pub fifo : ys ≡ xs ++ window p.p_buf (length xs) (length ys - length xs)
  pub reader_fits : ReaderFits p (length xs) (length ys) rd
  pub writer_fits : WriterFits p (length xs) (length ys) wr
