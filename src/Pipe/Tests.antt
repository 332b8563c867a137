-- ===== src/Pipe/Tests.antt =====
-- Runs of a pipe, and instances of what is proved of it.
use buaa_mips_os.Base.{length, ℕ, ◌+◌, ◌≤◌, ◌≡◌, refl, false, List, [], ◌∷◌, ◌++◌, arith}
use buaa_mips_os.Pipe.{
  System, Reach, reader_runs, writer_runs, reader_calls, writer_calls, reads, writes, calls_read,
  calls_write, read_step, write_step, piperead, pipewrite, new_pipe, got, sent, bytes, by2pipe,
}
use buaa_mips_os.Pipe.Order.{in_pipe, pipe_fifo, pipewrite_all}

-- `pipewrite` of two bytes, run to its return; `piperead` of at most 5 takes both.
abbrev two_bytes : ℕ → ℕ
two_bytes i = 65 + i

abbrev w : System → System
w s = writes false s

abbrev r : System → System
r s = reads false s

abbrev wrote : System
wrote = w (w (w (w (w (w (w (w (calls_write 2 two_bytes new_pipe))))))))

wrote_path : Reach wrote
wrote_path =
    Reach.next
      (Reach.next
        (Reach.next
          (Reach.next
            (Reach.next
              (Reach.next
                (Reach.next
                  (Reach.next (Reach.next Reach.start (writer_calls 2 two_bytes refl))
                    (writer_runs false))
                  (writer_runs false))
                (writer_runs false))
              (writer_runs false))
            (writer_runs false))
          (writer_runs false))
        (writer_runs false))
      (writer_runs false)

-- One byte has been taken out.
abbrev took : System
took = r (r (r (calls_read 5 wrote)))

took_path : Reach took
took_path =
    Reach.next
      (Reach.next (Reach.next (Reach.next wrote_path (reader_calls 5 refl)) (reader_runs false))
        (reader_runs false))
      (reader_runs false)

pipe_fifo_example : (rest : List ℕ) × (sent took ≡ got took ++ rest) × (length rest ≤ by2pipe)
pipe_fifo_example =
    unfold read_step write_step piperead pipewrite in pipe_fifo took_path (omega arith)

pipewrite_all_example :
    (◌≡◌ {A = ℕ} 2 2) × (got wrote ++ in_pipe wrote.pipe ≡ wrote.past_writes ++ bytes two_bytes 2)
unfolding write_step pipewrite
pipewrite_all_example = pipewrite_all {i = 2} wrote_path (omega arith) refl

got-took : got took ≡ 65 ∷ []
unfolding read_step write_step piperead pipewrite
got-took = refl
