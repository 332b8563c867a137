-- ===== src/Pipe/Closed/Tests.antt =====
-- Runs of `_pipeisclosed`, and instances of what is proved of it.
use buaa_mips_os.Base.{ℕ, ◌≡◌, refl, true, some, leb, if◌then◌else◌}
use buaa_mips_os.Pipe.Closed.{
  reading, writing, Ends, Moment, close_fd, close_data, fresh_pipe, pipe_is_closed,
}

-- The writer has closed its end; the reader looks, is switched once, and looks again.
abbrev one_end : Ends
one_end = close_data (close_fd writing fresh_pipe)

abbrev looks : ℕ → Moment
looks t = record { refs = one_end.refs; env_runs = if leb t 2 then 7 else 8 }

answer : pipe_is_closed 2 reading looks 0 ≡ some true
unfolding pipe_is_closed close_fd close_data
answer = refl
