-- ===== src/Fd/Tests.antt =====
-- Runs of the descriptor operations, and instances of what is proved of them.
use buaa_mips_os.Base.{
  ℕ, ◌+◌, ◌≡◌, refl, true, none, some, [], ◌∷◌, ◌==◌, ltb, if◌then◌else◌, arith, update,
}
use buaa_mips_os.Fs.{Code, ok}
use buaa_mips_os.Fd.{dev_lookup, Process, Dev, fd_alloc, readn}
use buaa_mips_os.Fd.Alloc.{AllocSays, fd_alloc_lem}
use buaa_mips_os.Fd.Readn.{IsReader, IsOpen, ReadnSays, readn_lem}

-- A device whose every read gives two bytes, or one where one is asked.
abbrev two_at_most : ℕ → ℕ
two_at_most n = if ltb n 2 then n else 2

abbrev feed : Dev ℕ
feed = record {
  dev_id = b'f';
  dev_read = λ fdnum buf n offset s. some (ok (two_at_most n), record s { world = s.world + 1 });
  dev_write = λ fdnum buf n offset s. some (ok n, s);
  dev_close = λ fdnum s. some (ok 0, record s { page = update s.page fdnum none });
}

-- Descriptor 0 is open for reading, at offset 10, and 1 for writing.
abbrev process : Process ℕ
process = record {
  vpd = true;
  page = λ i. if i == 0 then some 100 else if i == 1 then some 101 else none;
  fds = λ p.
      if p == 100
      then record { fd_dev_id = b'f'; fd_offset = 10; fd_omode = 0 }
      else record { fd_dev_id = b'f'; fd_offset = 0; fd_omode = 1 };
  mem = λ a. 0;
  world = 0;
}

feed-IsReader : IsReader feed
feed-IsReader fdnum p buf n offset s h =
    (ok (two_at_most n), record s { world = s.world + 1 }, refl, (refl, refl, refl), ground arith)

process-IsOpen : IsOpen (feed ∷ []) 0 100 feed process 10
process-IsOpen = record {
  range = refl;
  dir = refl;
  page = refl;
  device = unfold dev_lookup in refl;
  readable = refl;
  at = refl;
}

readn_lem_example :
    (r : Code) × (s' : Process ℕ) × (readn (feed ∷ []) 0 0x400 5 process ≡ some (r, s'))
    × ReadnSays (feed ∷ []) 0 100 feed 10 5 r s'
readn_lem_example =
    readn_lem (feed ∷ []) 0 100 feed process 10 0x400 5 (omega arith) feed-IsReader process-IsOpen

fd_alloc_lem_example : AllocSays process 0 31 (fd_alloc process)
fd_alloc_lem_example = fd_alloc_lem process
