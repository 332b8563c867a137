-- ===== src/Fs/Serv/Requests/Filefd.antt =====
-- fs/serv.c: which requests write to the Filefd pages that clients map.
use buaa_mips_os.Base.{ℕ, ◌/◌, ◌≡◌, refl, Bool, true, false, Option, none, some}
use buaa_mips_os.Base.Keeps.{
  Keeps, in_turn, Keeps-bind, Keeps-set, Keeps-state, Keeps-done, Keeps-fault,
}
use buaa_mips_os.Fs.{F, Code, ok, fail}
use buaa_mips_os.Fs.Dir.{FilePtr, on_file, updates_file}
use buaa_mips_os.Fs.Serv.{
  Filefd, Shared, block, Serve, S, on_fs, ipc_send, open_lookup, state, file_get_block,
  file_set_size, file_close, file_remove, flush_dir, fs_sync,
}
use buaa_mips_os.Fs.Serv.Keeps.{Keeps-on_fs}
use buaa_mips_os.Fs.Serv.Requests.{
  take, with_file, with_open, serve_map, set_size, serve_set_size, serve_close, serve_remove,
  serve_dirty, serve_sync, Request, open_file, map, resize, close, dirty, remove, sync, unknown,
  dispatch, serve_one,
}

-- Code that writes to no Filefd page.
abbrev pub filefds : Serve → ℕ → Filefd
filefds s = s.o_ff

abbrev KeepsFilefds : {A : Type 0} → S A → Type 0
KeepsFilefds m = Keeps filefds m

sends : (whom : ℕ) (r : Code) (page : Shared) → KeepsFilefds (ipc_send whom r page)
unfolding ipc_send
sends whom r page = Keeps-set _ (λ s. refl)

calls : {A : Type 0} (m : F A) → KeepsFilefds (on_fs m)
calls m = Keeps-on_fs m (λ s fs. refl)

KeepsFilefds-with_open :
    (whom fileid : ℕ) (run : FilePtr → S (Unit {0}))
    → ((f : FilePtr) → KeepsFilefds (run f))
    → KeepsFilefds (with_open whom fileid run)
unfolding with_open
KeepsFilefds-with_open whom fileid run h =
    Keeps-bind state _ Keeps-state (λ s. on_code s (open_lookup fileid s))
  where
    on_file_of : (o : Option FilePtr) → KeepsFilefds (with_file o run)
    on_file_of none = unfold with_file in Keeps-fault
    on_file_of (some f) = unfold with_file in h f

    on_code :
        (s : Serve) (r : Code)
        → KeepsFilefds (elim r [
          | fail e ↦ ipc_send whom (fail e) Shared.nothing
          | ok i ↦ with_file (s.o_file i) run
        ])
    on_code s (fail e) = sends whom (fail e) Shared.nothing
    on_code s (ok i) = on_file_of (s.o_file i)

block_reply :
    (whom : ℕ) (page : ℕ → Shared) (r : Code)
    → KeepsFilefds (elim r [
      | fail e ↦ ipc_send whom (fail e) Shared.nothing
      | ok b ↦ ipc_send whom (ok 0) (page b)
    ])
block_reply whom page (fail e) = sends whom (fail e) Shared.nothing
block_reply whom page (ok b) = sends whom (ok 0) (page b)

calls_then :
    {A : Type 0} (m : F A) (f : A → S (Unit {0}))
    → ((a : A) → KeepsFilefds (f a))
    → KeepsFilefds (in_turn (on_fs m) f)
calls_then m f h = Keeps-bind (on_fs m) f (calls m) h

set_size-keeps : (f : FilePtr) (size : ℕ) → KeepsFilefds (set_size f size)
unfolding set_size
set_size-keeps f size =
    calls_then (updates_file f (λ x. file_set_size x size)) _ (λ u. calls (flush_dir f))

abbrev pub is_open : Request → Bool
is_open (open_file path omode) = true
is_open _ = false

-- A request other than one to open a file writes to no Filefd page.
dispatch-filefds :
    (whom : ℕ) (req : Request) → is_open req ≡ false → Keeps filefds (dispatch whom req)
unfolding dispatch serve_map serve_set_size serve_close serve_remove serve_dirty serve_sync
dispatch-filefds whom (open_file path omode) h = absurd (cc)
dispatch-filefds whom (map fileid offset) h =
    KeepsFilefds-with_open whom fileid _ (λ f.
      calls_then (on_file f (λ x. file_get_block x (offset / 4096))) _ (block_reply whom block))
dispatch-filefds whom (resize fileid size) h = KeepsFilefds-with_open whom fileid _ (λ f.
    Keeps-bind (set_size f size) _ (set_size-keeps f size) (λ u. sends whom (ok 0) Shared.nothing))
dispatch-filefds whom (close fileid) h =
    KeepsFilefds-with_open whom fileid _
      (λ f. calls_then (file_close f) _ (λ u. sends whom (ok 0) Shared.nothing))
dispatch-filefds whom (dirty fileid offset) h = KeepsFilefds-with_open whom fileid _ (λ f.
    calls_then (on_file f (λ x. file_get_block x (offset / 4096))) _
      (block_reply whom (λ b. Shared.nothing)))
dispatch-filefds whom (remove path) h =
    calls_then (file_remove (take 1023 path)) _ (λ r. sends whom r Shared.nothing)
dispatch-filefds whom sync h = calls_then fs_sync _ (λ u. sends whom (ok 0) Shared.nothing)
dispatch-filefds whom (unknown code) h = Keeps-done tt

pub serve_one-filefds :
    (whom : ℕ) (has_page : Bool) (req : Request)
    → is_open req ≡ false
    → Keeps filefds (serve_one whom has_page req)
unfolding serve_one
serve_one-filefds whom false req h = Keeps-done tt
serve_one-filefds whom true req h = dispatch-filefds whom req h
