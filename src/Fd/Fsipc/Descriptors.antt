-- ===== src/Fd/Fsipc/Descriptors.antt =====
-- user/fsipc.c: requests to map and to resize leave the descriptors alone.
use buaa_mips_os.Base.{
  ℕ, ◌≡◌, refl, sym, ap, ◌∙◌, Bool, true, false, Option, none, some, List, [], ◌∷◌,
}
use buaa_mips_os.Base.Keeps.{Keeps, Keeps-bind, Keeps-set, Keeps-done, Keeps-fault}
use buaa_mips_os.Fs.{Code, ok, fail}
use buaa_mips_os.Fs.Serv.{Serve, Filefd, Shared, nothing, filefd, block, Reply}
use buaa_mips_os.Fs.Serv.Requests.{Request, map, resize, serve_one}
use buaa_mips_os.Fs.Serv.Requests.Filefd.{is_open, serve_one-filefds}
use buaa_mips_os.Fd.{Fd, Process, P}
use buaa_mips_os.Fd.Fsipc.{
  Files, received, answer, fsipc, map_page, accept_block, fsipc_map, fsipc_code, fsipc_set_size,
}

-- What a process sees of its descriptors.
abbrev pub Descriptors : Type 0
Descriptors = Bool × (ℕ → Option ℕ) × (ℕ → Fd) × (ℕ → Filefd)

abbrev pub descriptors : Process Files → Descriptors
descriptors s = (s.vpd, s.page, s.fds, s.world.server.o_ff)

abbrev pub KeepsDescriptors : {A : Type 0} → P Files A → Type 0
KeepsDescriptors m = Keeps descriptors m

same_filefds :
    (s : Process Files) {o : ℕ → Filefd}
    → o ≡ s.world.server.o_ff
    → (let d : Descriptors = (s.vpd, s.page, s.fds, o) in d) ≡ descriptors s
same_filefds s e = ap (λ o. let d : Descriptors = (s.vpd, s.page, s.fds, o) in d) e

received-descriptors :
    (l : List Reply) (sv : Serve) (s : Process Files) (a : Code × Shared) (s' : Process Files)
    → sv.o_ff ≡ s.world.server.o_ff
    → received l sv s ≡ some (a, s')
    → descriptors s' ≡ descriptors s
unfolding received
received-descriptors [] sv s a s' e run = absurd (cc)
received-descriptors (r ∷ rest) sv s a s' e run =
    let same : record s { world = record (s.world) { server = record sv { replies = [] } } } ≡ s' =
      cc in
    ap descriptors (sym same) ∙ same_filefds s e

answer-descriptors :
    (o : Option (Unit {0} × Serve)) (s : Process Files) (a : Code × Shared) (s' : Process Files)
    → ((sv : Serve) → o ≡ some (tt, sv) → sv.o_ff ≡ s.world.server.o_ff)
    → answer o s ≡ some (a, s')
    → descriptors s' ≡ descriptors s
unfolding answer
answer-descriptors none s a s' h run = absurd (cc)
answer-descriptors (some (tt, sv)) s a s' h run =
    received-descriptors sv.replies sv s a s' (h sv refl) run

fsipc-descriptors : (req : Request) → is_open req ≡ false → KeepsDescriptors (fsipc req)
unfolding fsipc
fsipc-descriptors req h = record {
  keeps = λ s a s' run.
      answer-descriptors
        (serve_one s.world.env_id true req (record (s.world.server) { replies = [] })) s a s'
        (λ sv.
          (serve_one-filefds s.world.env_id true req h).keeps
            (record (s.world.server) { replies = [] }) tt sv)
        run;
}

code-descriptors : (req : Request) → is_open req ≡ false → KeepsDescriptors (fsipc_code req)
unfolding fsipc_code
code-descriptors req h = Keeps-bind (fsipc req) _ (fsipc-descriptors req h) (λ r. Keeps-done r.0)

accept-descriptors : (va : ℕ) (r : Code) (page : Shared) → KeepsDescriptors (accept_block va r page)
unfolding accept_block
accept-descriptors va (fail e) page = Keeps-done (fail e)
accept-descriptors va (ok n) (block b) =
    Keeps-bind _ _ (Keeps-set (map_page va b) (λ s. refl)) (λ u. Keeps-done (ok 0))
accept-descriptors va (ok n) nothing = Keeps-fault
accept-descriptors va (ok n) (filefd k) = Keeps-fault

pub map-descriptors : (fileid offset va : ℕ) → KeepsDescriptors (fsipc_map fileid offset va)
unfolding fsipc_map
map-descriptors fileid offset va =
    Keeps-bind (fsipc (map fileid offset)) _ (fsipc-descriptors (map fileid offset) refl)
      (λ r. accept-descriptors va r.0 r.1)

pub size-descriptors : (fileid size : ℕ) → KeepsDescriptors (fsipc_set_size fileid size)
unfolding fsipc_set_size
size-descriptors fileid size = code-descriptors (resize fileid size) refl
