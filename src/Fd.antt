-- ===== src/Fd.antt =====
-- user/fd.c: the file descriptors of a process. A descriptor's Fd page stands at a fixed place of the
-- descriptor table; processes share Fd pages, so the table names a page and the page holds the `struct Fd`.
-- Descriptor numbers are the non-negative ones. What is not modelled: `dup`, which Pipe/Closed.antt has
-- as two steps, and `fstat`. Of the devices, user/file.c is in Fd/Devfile, over user/fsipc.c in Fd/Fsipc.
pub mod Alloc
pub mod Access
pub mod Readn
pub mod Fsipc
pub mod Devfile
mod Tests
use buaa_mips_os.Base.{
  ℕ, zero, suc, ◌+◌, ◌-◌, ◌%◌, ◌<◌, ◌≤◌, ◌≡◌, Bool, true, false, not, ◌&&◌, Option, none, some,
  List, [], ◌∷◌, ◌==◌, ltb, leb, if◌then◌else◌, update,
}
use buaa_mips_os.Base.Words.{u32}
use buaa_mips_os.Fs.{Code, ok, fail, e_inval}

-- struct Fd
pub record Fd : Type 0 where
  pub fd_dev_id : ℕ
  pub fd_offset : ℕ
  pub fd_omode : ℕ

-- `vpd` is whether the page directory has an entry for the table; `page` is the table. `mem` is the
-- memory that buffers stand in, and `world` all that devices keep.
pub record Process (W : Type 0) : Type 0 where
  pub vpd : Bool
  pub page : ℕ → Option ℕ
  pub fds : ℕ → Fd
  pub mem : ℕ → ℕ
  pub world : W

-- `none` is a fault.
abbrev pub P : Type 0 → Type 0 → Type 0
P W A = Process W → Option (A × Process W)

abbrev pub done : {W A : Type 0} → A → P W A
done a s = some (a, s)

abbrev pub fault : {W A : Type 0} → P W A
fault s = none

infixl 5 ◌>>=◌ ◌>>◌
abbrev pub ◌>>=◌ : {W A B : Type 0} → P W A → (A → P W B) → P W B
◌>>=◌ m f s = elim (m s) [ none ↦ none | some (a, s') ↦ f a s' ]

abbrev pub ◌>>◌ : {W B : Type 0} → P W (Unit {0}) → P W B → P W B
m >> n = m >>= λ _. n

abbrev pub state : {W : Type 0} → P W (Process W)
state s = some (s, s)

abbrev pub set : {W : Type 0} → (Process W → Process W) → P W (Unit {0})
set f s = some (tt, f s)

-- struct Dev: the descriptor's number, the buffer, the number of bytes, and the offset.
pub record Dev (W : Type 0) : Type 0 where
  pub dev_id : ℕ
  pub dev_read : ℕ → ℕ → ℕ → ℕ → P W Code
  pub dev_write : ℕ → ℕ → ℕ → ℕ → P W Code
  pub dev_close : ℕ → P W Code

abbrev pub maxfd : ℕ
maxfd = 32

abbrev pub e_max_open : ℕ
e_max_open = 8

-- O_RDONLY, O_WRONLY and O_ACCMODE.
abbrev pub o_rdonly : ℕ
o_rdonly = 0

abbrev pub o_wronly : ℕ
o_wronly = 1

abbrev pub accmode : ℕ → ℕ
accmode omode = omode % 4

module _ {W : Type 0} where
  -- Whether `(* vpt)[va/BY2PG] & PTE_V`; without the directory's entry the read is a fault.
  abbrev pub is_mapped : Process W → ℕ → Bool
  is_mapped s fdno = elim (s.page fdno) [ none ↦ false | some p ↦ true ]

  pub dev_lookup : List (Dev W) → ℕ → Option (Dev W)
  dev_lookup [] id = none
  dev_lookup (d ∷ devtab) id =
      let rest : Option (Dev W) = dev_lookup devtab id in if d.dev_id == id then some d else rest

  -- `n` rounds of the loop of `fd_alloc`, from `fdno` on.
  pub fd_alloc_from : ℕ → ℕ → Process W → Code
  fd_alloc_from zero fdno s = fail e_max_open
  fd_alloc_from (suc n) fdno s =
      let rest : Code = fd_alloc_from n (fdno + 1) s in
      if not s.vpd then ok fdno else if not (is_mapped s fdno) then ok fdno else rest

  pub fd_alloc : Process W → Code
  fd_alloc s = fd_alloc_from (maxfd - 1) 0 s

  -- syscall_mem_unmap of the Fd page.
  pub fd_close : ℕ → P W (Unit {0})
  fd_close fdnum = set λ s. record s { page = update s.page fdnum none }

  -- The Fd page.
  pub fd_lookup : ℕ → P W Code
  fd_lookup fdnum s =
      if leb maxfd fdnum
      then some (fail e_inval, s)
      else if not s.vpd
      then none
      else elim (s.page fdnum) [ none ↦ some (fail e_inval, s) | some p ↦ some (ok p, s) ]

  module _ (devtab : List (Dev W)) where
    -- The two lookups that most functions begin with; `use` gets the Fd page and the device.
    pub with_dev : ℕ → (ℕ → Dev W → P W Code) → P W Code
    with_dev fdnum run = do
      r ← fd_lookup fdnum
      elim r [
        | fail e ↦ done (fail e)
        | ok p ↦ do
          s ← state
          elim (dev_lookup devtab (s.fds p).fd_dev_id) [
            | none ↦ done (fail e_inval)
            | some d ↦ run p d
          ]
      ]

    pub close_at : ℕ → ℕ → Dev W → P W Code
    close_at fdnum p d = do r ← d.dev_close fdnum; fd_close fdnum; done r

    pub close : ℕ → P W Code
    close fdnum = with_dev fdnum (close_at fdnum)

    -- `n` rounds of the loop of `close_all`, from `i` on.
    pub close_from : ℕ → ℕ → P W (Unit {0})
    close_from zero i = done tt
    close_from (suc n) i = do r ← close i; close_from n (i + 1)

    pub close_all : P W (Unit {0})
    close_all = close_from maxfd 0

    -- Behind the device's read: the offset, and the NUL behind the bytes.
    pub after_read : ℕ → ℕ → Code → P W Code
    after_read p buf (fail e) = done (fail e)
    after_read p buf (ok r) = do
      set λ s. record s {
        fds = update s.fds p (record (s.fds p) { fd_offset = u32 ((s.fds p).fd_offset + r) });
        mem = update s.mem (buf + r) 0;
      }
      done (ok r)

    -- `read` and `write` behind the two lookups.
    pub read_at : ℕ → ℕ → ℕ → ℕ → Dev W → P W Code
    read_at fdnum buf n p d = do
      s ← state
      if accmode (s.fds p).fd_omode == o_wronly
          then done (fail e_inval)
          else do r ← d.dev_read fdnum buf n (s.fds p).fd_offset; after_read p buf r

    pub read : ℕ → ℕ → ℕ → P W Code
    read fdnum buf n = with_dev fdnum (read_at fdnum buf n)

    -- The loop of `readn`; `none` if `fuel` rounds do not end it.
    pub readn_from : ℕ → ℕ → ℕ → ℕ → ℕ → P W Code
    readn_from fuel fdnum buf tot zero = done (ok tot)
    readn_from zero fdnum buf tot (suc left) = fault
    readn_from (suc fuel) fdnum buf tot (suc left) = do
      r ← read fdnum (buf + tot) (suc left)
      elim r [
        | fail e ↦ done (fail e)
        | ok m ↦
            if m == 0 then done (ok tot) else readn_from fuel fdnum buf (tot + m) (suc left - m)
      ]

    pub readn : ℕ → ℕ → ℕ → P W Code
    readn fdnum buf n = readn_from n fdnum buf 0 n

    -- The offset behind the device's write.
    pub after_write : ℕ → Code → P W Code
    after_write p (fail e) = done (fail e)
    after_write p (ok r) = do
      set λ s. record s {
        fds = update s.fds p (record (s.fds p) { fd_offset = u32 ((s.fds p).fd_offset + r) });
      }
      done (ok r)

    pub write_at : ℕ → ℕ → ℕ → ℕ → Dev W → P W Code
    write_at fdnum buf n p d = do
      s ← state
      if accmode (s.fds p).fd_omode == o_rdonly
          then done (fail e_inval)
          else do r ← d.dev_write fdnum buf n (s.fds p).fd_offset; after_write p r

    pub write : ℕ → ℕ → ℕ → P W Code
    write fdnum buf n = with_dev fdnum (write_at fdnum buf n)

  pub seek : ℕ → ℕ → P W Code
  seek fdnum offset = do
    r ← fd_lookup fdnum
    elim r [
      | fail e ↦ done (fail e)
      | ok p ↦ do
        set λ s. record s { fds = update s.fds p (record (s.fds p) { fd_offset = offset }) }
        done (ok 0)
    ]
