-- ===== src/Fd/Fsipc/Samples.antt =====
-- A process with an open file, and a request of it.
use buaa_mips_os.Base.{◌≡◌, ◌%◌, refl, true, none, some, ◌==◌, if◌then◌else◌}
use buaa_mips_os.Fs.{Server, ok}
use buaa_mips_os.Fs.Serv.Requests.{devfile_id}
use buaa_mips_os.Fs.Serv.Requests.Samples.{one_open, grows}
use buaa_mips_os.Fd.{Process, ◌>>=◌}
use buaa_mips_os.Fd.Fsipc.{Files, received, answer, fsipc, fsipc_code, fsipc_set_size}

-- Descriptor 0 has the file of entry 0 open; each byte of the memory is the low byte of its address.
abbrev pub one_file : Process Files
one_file = record {
  vpd = true;
  page = λ i. if i == 0 then some 0 else none;
  fds = λ p. record { fd_dev_id = devfile_id; fd_offset = 10; fd_omode = 2 };
  mem = λ a. a % 256;
  world = record {
    env_id = 2049;
    server = one_open;
    window = λ v. if v == 0x60000 then some 20 else none;
  };
}

-- The same behind a request that has changed the file.
abbrev pub behind : Server → Process Files
behind fs = record one_file {
  world = record (one_file.world) { server = record one_open { fs = fs } };
}

pub grows_file : (fs : Server) × (fsipc_set_size 1024 3900 one_file ≡ some (ok 0, behind fs))
unfolding fsipc_set_size fsipc_code fsipc answer received
grows_file = let (fs, run) = grows in (fs, rw (◌>>=◌, run) refl)
