-- ===== src/Fs/Serv/Requests/Tests.antt =====
-- Runs of the server's requests, and instances of what is proved of them.
use buaa_mips_os.Base.{◌≡◌, ◌&&◌, refl, true, false, none, some, []}
use buaa_mips_os.Fs.{ok}
use buaa_mips_os.Fs.Dir.Samples.{small_disk}
use buaa_mips_os.Fs.Serv.{
  Serve, zero_ff, init_from, serve_init, take_entry, new_entry, alloc_from, open_alloc, open_lookup,
  ipc_send,
}
use buaa_mips_os.Fs.Serv.Requests.{with_open, serve_close, close, dispatch, serve_one}
use buaa_mips_os.Fs.Serv.Ids.{IsFresh, open_alloc-IsFresh, serve_init-IsTable}
use buaa_mips_os.Fs.Serv.Requests.Replies.{OneReply, is_known, serve_one-replies}

-- The table before `serve_init`: no Filefd page is allocated.
abbrev booted : Serve
booted = record {
  fs = small_disk;
  o_file = λ i. none;
  o_fileid = λ i. 0;
  o_mode = λ i. 0;
  o_ff = λ i. zero_ff;
  pageref = λ i. 0;
  replies = [];
}

abbrev ready : Serve
ready = serve_init booted

abbrev after_alloc : Serve
after_alloc = elim (open_alloc ready) [ none ↦ ready | some (r, s) ↦ s ]

gives_1024 : open_alloc ready ≡ some (ok 1024, after_alloc)
unfolding init_from serve_init take_entry new_entry alloc_from open_alloc
gives_1024 = refl

open_alloc-IsFresh_example : IsFresh ready 1024 after_alloc
open_alloc-IsFresh_example =
    open_alloc-IsFresh ready after_alloc 1024 (serve_init-IsTable booted) gives_1024

-- A client asks for an id that entry 5 does not have.
abbrev refused : Serve
refused = elim (serve_one 7 true (close 1029) ready) [ none ↦ ready | some (r, s) ↦ s ]

refuses : serve_one 7 true (close 1029) ready ≡ some (tt, refused)
unfolding init_from serve_init serve_one dispatch serve_close with_open open_lookup ipc_send
refuses = refl

serve_one-replies_example :
    ((true && is_known (close 1029)) ≡ true → OneReply 7 ready refused)
    × ((true && is_known (close 1029)) ≡ false → refused ≡ ready)
serve_one-replies_example = serve_one-replies 7 true (close 1029) ready refused refuses
