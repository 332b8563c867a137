-- ===== src/Pipe/Closed.antt =====
-- user/pipe.c, user/pageref.c: the reference counts of a pipe's pages, and `_pipeisclosed`, which
-- compares them. The processes that share the pipe open and close their ends one page at a time.
mod Tests
use buaa_mips_os.Base.{
  refl, ◌*◌, inr, inl, ◌↔◌, Bool-cases, ◌≤◌, ℕ, zero, suc, ◌+◌, ◌-◌, ◌<◌, ◌≡◌, Bool, true, false,
  Option, none, some, ◌==◌, if◌then◌else◌, arith,
}

pub data End : Type 0 where
  reading : End
  writing : End

-- `pp_ref` of the pages: the Fd page of either end, and the page of the `struct Pipe`.
pub record Refs : Type 0 where
  pub fd_read : ℕ
  pub fd_write : ℕ
  pub shared : ℕ

-- pageref(fd), pageref(p)
abbrev pub pageref_fd : End → Refs → ℕ
pageref_fd reading r = r.fd_read
pageref_fd writing r = r.fd_write

-- The pages, how many processes have unmapped an Fd page and not yet the pipe (`pipeclose`), and how
-- many have mapped an Fd page of either end and not yet the pipe (`dup`).
pub record Ends : Type 0 where
  pub refs : Refs
  pub closing : ℕ
  pub opening_read : ℕ
  pub opening_write : ℕ

abbrev pub opening : End → Ends → ℕ
opening reading s = s.opening_read
opening writing s = s.opening_write

abbrev pub set_opening : End → ℕ → Ends → Ends
set_opening reading n s = record s { opening_read = n }
set_opening writing n s = record s { opening_write = n }

abbrev pub set_fd : End → ℕ → Refs → Refs
set_fd reading n r = record r { fd_read = n }
set_fd writing n r = record r { fd_write = n }

-- pipeclose: syscall_mem_unmap of the Fd page, then of the pipe's page.
pub close_fd : End → Ends → Ends
close_fd e s = record s {
  refs = set_fd e (pageref_fd e s.refs - 1) s.refs;
  closing = s.closing + 1;
}

pub close_data : Ends → Ends
close_data s = record s {
  refs = record (s.refs) { shared = s.refs.shared - 1 };
  closing = s.closing - 1;
}

-- dup: syscall_mem_map of the Fd page, then of the pipe's page.
pub dup_fd : End → Ends → Ends
dup_fd e s =
    set_opening e (opening e s + 1) (record s { refs = set_fd e (pageref_fd e s.refs + 1) s.refs })

pub dup_data : End → Ends → Ends
dup_data e s =
    set_opening e (opening e s - 1)
      (record s { refs = record (s.refs) { shared = s.refs.shared + 1 } })

-- A process that is opening an end does not close it meanwhile.
pub data Move (s : Ends) : Ends → Type 0 where
  closes_fd : (e : End) → opening e s < pageref_fd e s.refs → Move s (close_fd e s)
  closes_data : 0 < s.closing → Move s (close_data s)
  dups_fd : (e : End) → 0 < pageref_fd e s.refs → Move s (dup_fd e s)
  dups_data : (e : End) → 0 < opening e s → Move s (dup_data e s)

-- Behind `pipe()`: each Fd page is mapped once, and the pipe's page at both.
abbrev pub fresh_pipe : Ends
fresh_pipe = record {
  refs = record { fd_read = 1; fd_write = 1; shared = 2 };
  closing = 0;
  opening_read = 0;
  opening_write = 0;
}

pub data Moves : Ends → Type 0 where
  start : Moves fresh_pipe
  next : {s t : Ends} → Moves s → Move s t → Moves t

-- What the process sees when it reads a count or `env->env_runs`.
pub record Moment : Type 0 where
  pub refs : Refs
  pub env_runs : ℕ

-- _pipeisclosed on the moments of its successive reads from `t` on, four to a round; none if `fuel`
-- rounds do not end the loop.
pub pipe_is_closed : ℕ → End → (ℕ → Moment) → ℕ → Option Bool
pipe_is_closed zero e at t = none
pipe_is_closed (suc fuel) e at t =
    let pfd = pageref_fd e (at t).refs in
    let runs = (at (t + 1)).env_runs in
    let pfp = (at (t + 2)).refs.shared in
    let again = pipe_is_closed fuel e at (t + 4) in
    if runs == (at (t + 3)).env_runs then some (pfd == pfp) else again

abbrev pub other_end : End → End
other_end reading = writing
other_end writing = reading

-- The counts add up, but for the pages that are on the way.
record Conserved (s : Ends) : Type 0 where
  sum :
      s.refs.shared + s.opening_read + s.opening_write
      ≡ s.refs.fd_read + s.refs.fd_write + s.closing
  read_open : s.opening_read ≤ s.refs.fd_read
  write_open : s.opening_write ≤ s.refs.fd_write

Move-Conserved : {s t : Ends} → Move s t → Conserved s → Conserved t
unfolding close_fd close_data dup_fd dup_data
Move-Conserved (closes_fd reading h) c = record {
  sum = omega arith;
  read_open = omega arith;
  write_open = c.write_open;
}
Move-Conserved (closes_fd writing h) c = record {
  sum = omega arith;
  read_open = c.read_open;
  write_open = omega arith;
}
Move-Conserved (closes_data h) c = record {
  sum = omega arith;
  read_open = c.read_open;
  write_open = c.write_open;
}
Move-Conserved (dups_fd reading h) c = record {
  sum = omega arith;
  read_open = omega arith;
  write_open = c.write_open;
}
Move-Conserved (dups_fd writing h) c = record {
  sum = omega arith;
  read_open = c.read_open;
  write_open = omega arith;
}
Move-Conserved (dups_data reading h) c = record {
  sum = omega arith;
  read_open = omega arith;
  write_open = c.write_open;
}
Move-Conserved (dups_data writing h) c = record {
  sum = omega arith;
  read_open = c.read_open;
  write_open = omega arith;
}

Moves-Conserved : {s : Ends} → Moves s → Conserved s
Moves-Conserved start = record {
  sum = omega arith;
  read_open = omega arith;
  write_open = omega arith;
}
Moves-Conserved (next path mv) = Move-Conserved mv (Moves-Conserved path)

-- No process is between the two mappings of `dup`.
abbrev pub NoneOpening : Ends → Type 0
NoneOpening s = (s.opening_read ≡ 0) × (s.opening_write ≡ 0)

-- The other end is closed, and no process is between the two unmappings of `pipeclose`.
abbrev pub OthersGone : End → Ends → Type 0
OthersGone e s = pageref_fd (other_end e) s.refs + s.closing ≡ 0

-- Each moment `t` shows the counts of the state `now t`, which is reachable, and in which no `dup` is
-- halfway.
abbrev pub IsHistory : (ℕ → Ends) → (ℕ → Moment) → Type 0
IsHistory now at = (t : ℕ) → Moves (now t) × NoneOpening (now t) × ((at t).refs ≡ (now t).refs)

-- A process that has not been switched between its second and its fourth read sees the same counts at
-- its third read as at its first.
abbrev pub IsUndisturbed : (ℕ → Moment) → Type 0
IsUndisturbed at =
    (t : ℕ) → (at (t + 1)).env_runs ≡ (at (t + 3)).env_runs → (at t).refs ≡ (at (t + 2)).refs

-- The answer tells whether the other end was closed at one of the `n` moments from `t` on.
abbrev pub TellsTruth : End → (ℕ → Ends) → ℕ → ℕ → Bool → Type 0
TellsTruth e now t n b = (u : ℕ) × (t ≤ u) × (u < t + n) × ((b ≡ true) ↔ OthersGone e (now u))

-- A process that is not switched from its `k`-th round on has its answer within `k + 1` rounds.
pipe_is_closed_ends :
    (k : ℕ) (e : End) (at : ℕ → Moment) (t : ℕ)
    → ((u : ℕ) → t + 4 * k ≤ u → (at (u + 1)).env_runs ≡ (at (u + 3)).env_runs)
    → (b : Bool) × (pipe_is_closed (suc k) e at t ≡ some b)
unfolding pipe_is_closed
pipe_is_closed_ends zero e at t calm = (
  pageref_fd e (at t).refs == (at (t + 2)).refs.shared,
  let same : ((at (t + 1)).env_runs == (at (t + 3)).env_runs) ≡ true = ground (arith, calm t) in
      rw same refl,
)
pipe_is_closed_ends (suc k) e at t calm =
    elim (Bool-cases ((at (t + 1)).env_runs == (at (t + 3)).env_runs)) [
      | inl same ↦ (pageref_fd e (at t).refs == (at (t + 2)).refs.shared, rw same refl)
      | inr switched ↦
          let (b, p) = pipe_is_closed_ends k e at (t + 4) (λ u l. calm u (omega arith)) in
          (b, rw switched p)
    ]

-- While one process is between the two mappings of `dup`, and one Fd page of the other end is mapped,
-- the counts are equal: another process would take the open pipe for closed.
dup_fd-misleads :
    (e : End) {s : Ends}
    → Moves s
    → NoneOpening s
    → s.closing ≡ 0
    → pageref_fd (other_end e) s.refs ≡ 1
    → (pageref_fd e (dup_fd e s).refs == (dup_fd e s).refs.shared) ≡ true
unfolding dup_fd
dup_fd-misleads reading path quiet none_closing one_left =
    let c = Moves-Conserved path in ground (arith, c.sum)
dup_fd-misleads writing path quiet none_closing one_left =
    let c = Moves-Conserved path in ground (arith, c.sum)
