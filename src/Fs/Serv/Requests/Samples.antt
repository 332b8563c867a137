-- ===== src/Fs/Serv/Requests/Samples.antt =====
-- A file server with an open file, and a request that it answers.
use buaa_mips_os.Base.{◌≡◌, refl, true, none, some, [], ◌∷◌, ◌==◌, if◌then◌else◌}
use buaa_mips_os.Fs.{Server, ok}
use buaa_mips_os.Fs.Dir.{entry, updates_file}
use buaa_mips_os.Fs.Dir.Samples.{small_disk}
use buaa_mips_os.Fs.File.{file_set_size}
use buaa_mips_os.Fs.Dir.Path.{flush_dir}
use buaa_mips_os.Fs.Serv.{Serve, nothing, on_fs, ipc_send, open_lookup}
use buaa_mips_os.Fs.Serv.Requests.{
  devfile_id, resize, with_file, with_open, set_size, serve_set_size, dispatch, serve_one,
}

-- Entry 0 has the file "hi" open for environment 2049; it has 3000 bytes.
abbrev pub one_open : Serve
one_open = record {
  fs = record small_disk {
    mem =
        λ b i. if b == 9 then if i == 32 then 3000 else small_disk.mem b i else small_disk.mem b i;
  };
  o_file = λ i. if i == 0 then some (entry 9 0) else none;
  o_fileid = λ i. if i == 0 then 1024 else i;
  o_mode = λ i. 2;
  o_ff = λ i. record {
    fd_dev_id = devfile_id;
    fd_omode = 2;
    f_fileid = 1024;
    f_file = record { f_size = 3000; f_direct = λ j. 0; f_indirect = 0 };
  };
  pageref = λ i. if i == 0 then 2 else 0;
  replies = [];
}

-- It becomes 3900 bytes long.
pub grows :
    (fs : Server) × (serve_one 2049 true (resize 1024 3900) one_open
      ≡ some (
        tt,
        record one_open {
          fs = fs;
          replies = record { whom = 2049; value = ok 0; page = nothing } ∷ [];
        },
      ))
unfolding serve_one dispatch serve_set_size with_open open_lookup with_file set_size on_fs ipc_send
    file_set_size flush_dir updates_file
grows = (_, refl)
