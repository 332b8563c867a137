-- ===== src/Fs/Serv/Requests/Replies.antt =====
-- fs/serv.c: every request with an argument page is answered once.
use buaa_mips_os.Base.{
  ◌&&◌, ℕ, zero, suc, ◌+◌, ◌/◌, ◌%◌, ◌≡◌, refl, sym, ap, ◌∙◌, Bool, true, false, Option, none, some,
  List, ◌∷◌, ◌==◌, leb, if◌then◌else◌, arith, Bool-cases, inl, inr,
}
use buaa_mips_os.Fs.{F, Code, ok, fail}
use buaa_mips_os.Fs.Dir.{updates_file, on_file, FilePtr, Found, found, missing}
use buaa_mips_os.Fs.Serv.{
  flush_dir, file_set_size, fs_sync, file_remove, file_close, block, file_get_block, filefd,
  file_open, Serve, Reply, Shared, S, user_panic, ◌>>=◌, ◌>>◌, state, set, on_fs, ipc_send, maxopen,
  taken, granted, take_entry, new_entry, alloc_from, open_alloc, open_lookup,
}
use buaa_mips_os.Base.Keeps.{Keeps, split_bind, Keeps-bind, Keeps-set, Keeps-state, Keeps-done}
use buaa_mips_os.Fs.Serv.Keeps.{Keeps-on_fs}
use buaa_mips_os.Fs.Serv.Requests.{
  take, filled, serve_open, with_file, with_open, serve_map, set_size, serve_set_size, serve_close,
  serve_remove, serve_dirty, serve_sync, Request, open_file, map, resize, close, dirty, remove,
  sync, unknown, dispatch, serve_one,
}

-- Code that sends no message.
abbrev replies_of : Serve → List Reply
replies_of s = s.replies

abbrev KeepsReplies : {A : Type 0} → S A → Type 0
KeepsReplies m = Keeps replies_of m

KeepsReplies-on_fs : {A : Type 0} (m : F A) → KeepsReplies (on_fs m)
KeepsReplies-on_fs m = Keeps-on_fs m (λ s fs. refl)

-- One message more than before, to `whom`.
abbrev pub OneReply : ℕ → Serve → Serve → Type 0
OneReply whom s s' = (r : Reply) × (s'.replies ≡ r ∷ s.replies) × (r.whom ≡ whom)

Answers : ℕ → S (Unit {0}) → Type 0
Answers whom m = (s s' : Serve) → m s ≡ some (tt, s') → OneReply whom s s'

Answers-bind :
    {A : Type 0} (whom : ℕ) (m : S A) (f : A → S (Unit {0}))
    → KeepsReplies m
    → ((a : A) → Answers whom (f a))
    → Answers whom (m >>= f)
unfolding Answers
Answers-bind whom m f h k s s' run =
    let (a, s1, first, second) = split_bind (m s) f tt s' run in
    let (r, sent, to) = k a s1 s' second in (r, sent ∙ ap (λ l. r ∷ l) (h.keeps s a s1 first), to)

Answers-panic : (whom : ℕ) → Answers whom user_panic
unfolding Answers
Answers-panic whom s s' run = absurd (cc)

Answers-send : (whom : ℕ) (r : Code) (page : Shared) → Answers whom (ipc_send whom r page)
unfolding Answers ipc_send
Answers-send whom r page s s' run = (
  record { whom = whom; value = r; page = page },
  (let e : record s { replies = record { whom = whom; value = r; page = page } ∷ s.replies } ≡ s' =
        cc in
      ap (λ t. t.replies) (sym e)),
  refl,
)

Keeps-take_entry : (i : ℕ) → KeepsReplies (take_entry i)
unfolding take_entry
Keeps-take_entry i =
    Keeps-bind (set (taken i)) _ (Keeps-set (taken i) (λ s. refl))
      (λ u. Keeps-bind state _ Keeps-state (λ s. Keeps-done (ok (s.o_fileid i))))

Keeps-new_entry : (i : ℕ) → KeepsReplies (new_entry i)
unfolding new_entry
Keeps-new_entry i = record {
  keeps = λ s a s' run. elim (Bool-cases (s.fs.room == 0)) [
    | inl e ↦ let same : s ≡ s' = ground (arith, e, run) in ap replies_of (sym same)
    | inr e ↦ (Keeps-take_entry i).keeps (granted i s) a s' (rw e at run)
  ];
}

Keeps-alloc_from : (n i : ℕ) → KeepsReplies (alloc_from n i)
unfolding alloc_from
Keeps-alloc_from zero i = record {
  keeps = λ s a s' run. let e : s ≡ s' = cc in ap replies_of (sym e);
}
Keeps-alloc_from (suc n) i = record {
  keeps = λ s a s' run. elim (Bool-cases (s.pageref i == 0)) [
    | inl e ↦ (Keeps-new_entry i).keeps s a s' (rw e at run)
    | inr e ↦ elim (Bool-cases (s.pageref i == 1)) [
      | inl f ↦ (Keeps-take_entry i).keeps s a s' (rw (e, f) at run)
      | inr f ↦ (Keeps-alloc_from n (i + 1)).keeps s a s' (rw (e, f) at run)
    ]
  ];
}

-- A request whose file id is refused is answered with the error.
Answers-with_open :
    (whom fileid : ℕ) (run : FilePtr → S (Unit {0}))
    → ((f : FilePtr) → Answers whom (run f))
    → Answers whom (with_open whom fileid run)
unfolding with_open
Answers-with_open whom fileid run h =
    Answers-bind whom state _ Keeps-state (λ s. on_code s (open_lookup fileid s))
  where
    on_file_of : (o : Option FilePtr) → Answers whom (with_file o run)
    on_file_of none = unfold with_file in Answers-panic whom
    on_file_of (some f) = unfold with_file in h f

    on_code :
        (s : Serve) (r : Code)
        → Answers whom (elim r [
          | fail e ↦ ipc_send whom (fail e) Shared.nothing
          | ok i ↦ with_file (s.o_file i) run
        ])
    on_code s (fail e) = Answers-send whom (fail e) Shared.nothing
    on_code s (ok i) = on_file_of (s.o_file i)

-- `serve_open` behind each of its calls.
Answers-opened :
    (whom id omode : ℕ) (o : Found)
    → Answers whom (elim o [
      | missing e ↦ user_panic
      | found f ↦ do
        set (filled (id % maxopen) f omode)
        ipc_send whom (ok 0) (filefd (id % maxopen))
    ])
Answers-opened whom id omode (missing e) = Answers-panic whom
Answers-opened whom id omode (found f) =
    Answers-bind whom (set (filled (id % maxopen) f omode)) _
      (Keeps-set (filled (id % maxopen) f omode) (λ s. refl))
      (λ u. Answers-send whom (ok 0) (filefd (id % maxopen)))

Answers-open : (whom : ℕ) (path : List ℕ) (omode : ℕ) → Answers whom (serve_open whom path omode)
unfolding serve_open open_alloc
Answers-open whom path omode =
    Answers-bind whom (alloc_from maxopen 0) _ (Keeps-alloc_from maxopen 0) on_code
  where
    on_code :
        (r : Code)
        → Answers whom (elim r [
          | fail e ↦ user_panic
          | ok id ↦ if leb 0x8000_0000 id then user_panic else do
            o ← on_fs (file_open (take 1023 path))
            elim o [
              | missing e ↦ user_panic
              | found f ↦ do
                set (filled (id % maxopen) f omode)
                ipc_send whom (ok 0) (filefd (id % maxopen))
            ]
        ])
    on_code (fail e) = Answers-panic whom
    on_code (ok id) = elim (Bool-cases (leb 0x8000_0000 id)) [
      | inl e ↦ rw e (Answers-panic whom)
      | inr e ↦ rw e (
          Answers-bind whom (on_fs (file_open (take 1023 path))) _
            (KeepsReplies-on_fs (file_open (take 1023 path))) (Answers-opened whom id omode))
    ]

-- The reply to a block that was looked for.
Answers-block :
    (whom : ℕ) (page : ℕ → Shared) (r : Code)
    → Answers whom (elim r [
      | fail e ↦ ipc_send whom (fail e) Shared.nothing
      | ok b ↦ ipc_send whom (ok 0) (page b)
    ])
Answers-block whom page (fail e) = Answers-send whom (fail e) Shared.nothing
Answers-block whom page (ok b) = Answers-send whom (ok 0) (page b)

Answers-done_on_fs :
    {A : Type 0} (whom : ℕ) (m : F A)
    → Answers whom (do a ← on_fs m; ipc_send whom (ok 0) Shared.nothing)
Answers-done_on_fs whom m =
    Answers-bind whom (on_fs m) _ (KeepsReplies-on_fs m)
      (λ a. Answers-send whom (ok 0) Shared.nothing)

-- The requests that the server knows.
abbrev pub is_known : Request → Bool
is_known (unknown code) = false
is_known _ = true

Keeps-set_size : (f : FilePtr) (size : ℕ) → KeepsReplies (set_size f size)
unfolding set_size
Keeps-set_size f size =
    Keeps-bind (on_fs (updates_file f (λ x. file_set_size x size))) _
      (KeepsReplies-on_fs (updates_file f (λ x. file_set_size x size)))
      (λ u. KeepsReplies-on_fs (flush_dir f))

Answers-dispatch :
    (whom : ℕ) (req : Request) → is_known req ≡ true → Answers whom (dispatch whom req)
unfolding dispatch serve_map serve_set_size serve_close serve_remove serve_dirty serve_sync
Answers-dispatch whom (open_file path omode) h = Answers-open whom path omode
Answers-dispatch whom (map fileid offset) h = Answers-with_open whom fileid _ (λ f.
    Answers-bind whom (on_fs (on_file f (λ x. file_get_block x (offset / 4096)))) _
      (KeepsReplies-on_fs (on_file f (λ x. file_get_block x (offset / 4096))))
      (Answers-block whom block))
Answers-dispatch whom (resize fileid size) h = Answers-with_open whom fileid _ (λ f.
    Answers-bind whom (set_size f size) _ (Keeps-set_size f size)
      (λ u. Answers-send whom (ok 0) Shared.nothing))
Answers-dispatch whom (close fileid) h =
    Answers-with_open whom fileid _ (λ f. Answers-done_on_fs whom (file_close f))
Answers-dispatch whom (dirty fileid offset) h = Answers-with_open whom fileid _ (λ f.
    Answers-bind whom (on_fs (on_file f (λ x. file_get_block x (offset / 4096)))) _
      (KeepsReplies-on_fs (on_file f (λ x. file_get_block x (offset / 4096))))
      (Answers-block whom (λ b. Shared.nothing)))
Answers-dispatch whom (remove path) h =
    Answers-bind whom (on_fs (file_remove (take 1023 path))) _
      (KeepsReplies-on_fs (file_remove (take 1023 path))) (λ r. Answers-send whom r Shared.nothing)
Answers-dispatch whom sync h = Answers-done_on_fs whom fs_sync
Answers-dispatch whom (unknown code) h = absurd (cc)

unknown_silent :
    (whom : ℕ) (req : Request) (s s' : Serve)
    → is_known req ≡ false
    → dispatch whom req s ≡ some (tt, s')
    → s' ≡ s
unfolding dispatch
unknown_silent whom (open_file path omode) s s' h run = absurd (cc)
unknown_silent whom (map fileid offset) s s' h run = absurd (cc)
unknown_silent whom (resize fileid size) s s' h run = absurd (cc)
unknown_silent whom (close fileid) s s' h run = absurd (cc)
unknown_silent whom (dirty fileid offset) s s' h run = absurd (cc)
unknown_silent whom (remove path) s s' h run = absurd (cc)
unknown_silent whom sync s s' h run = absurd (cc)
unknown_silent whom (unknown code) s s' h run = cc

-- A round of the server that does not panic sends exactly one message for a request that it knows, to the
-- environment that asked; it sends none for a request without an argument page, and none for an unknown
-- request, whose environment is left waiting.
pub serve_one-replies :
    (whom : ℕ) (has_page : Bool) (req : Request) (s s' : Serve)
    → serve_one whom has_page req s ≡ some (tt, s')
    → ((has_page && is_known req) ≡ true → OneReply whom s s')
      × ((has_page && is_known req) ≡ false → s' ≡ s)
unfolding serve_one Answers
serve_one-replies whom false req s s' run = (λ k. absurd (cc), λ k. cc)
serve_one-replies whom true req s s' run =
    (λ k. Answers-dispatch whom req k s s' run, λ k. unknown_silent whom req s s' k run)
