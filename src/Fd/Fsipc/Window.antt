-- ===== src/Fd/Fsipc/Window.antt =====
-- user/fsipc.c: what the requests change of the pages that a process maps.
use mathlib.Core.Path.{subst}
use buaa_mips_os.Base.{ℕ, ◌/◌, ◌≡◌, sym, ap, ◌∙◌, true, Option, none, some, List, [], ◌∷◌, update}
use buaa_mips_os.Base.Keeps.{Keeps, Keeps-bind, Keeps-done, split_bind}
use buaa_mips_os.Fs.{Code, ok, fail}
use buaa_mips_os.Fs.Serv.{Serve, Shared, nothing, filefd, block, Reply}
use buaa_mips_os.Fs.Serv.Requests.{Request, map, resize, serve_one}
use buaa_mips_os.Fd.{Process}
use buaa_mips_os.Fd.Fsipc.{
  Files, received, answer, fsipc, map_page, accept_block, fsipc_map, fsipc_code, fsipc_set_size,
}

abbrev pub window_of : Process Files → ℕ → Option ℕ
window_of s = s.world.window

received-window :
    (l : List Reply) (sv : Serve) (s : Process Files) (a : Code × Shared) (s' : Process Files)
    → received l sv s ≡ some (a, s')
    → window_of s' ≡ window_of s
unfolding received
received-window [] sv s a s' run = absurd (cc)
received-window (r ∷ rest) sv s a s' run =
    let same : record s { world = record (s.world) { server = record sv { replies = [] } } } ≡ s' =
      cc in
    ap window_of (sym same)

answer-window :
    (o : Option (Unit {0} × Serve)) (s : Process Files) (a : Code × Shared) (s' : Process Files)
    → answer o s ≡ some (a, s')
    → window_of s' ≡ window_of s
unfolding answer
answer-window none s a s' run = absurd (cc)
answer-window (some (u, sv)) s a s' run = received-window sv.replies sv s a s' run

fsipc-window : (req : Request) → Keeps window_of (fsipc req)
unfolding fsipc
fsipc-window req = record {
  keeps = λ s.
      answer-window (serve_one s.world.env_id true req (record (s.world.server) { replies = [] }))
        s;
}

pub size-window : (fileid size : ℕ) → Keeps window_of (fsipc_set_size fileid size)
unfolding fsipc_set_size fsipc_code
size-window fileid size =
    Keeps-bind (fsipc (resize fileid size)) _ (fsipc-window (resize fileid size))
      (λ r. Keeps-done r.0)

-- The server answers a request for the block at an offset of the file with block `b`.
abbrev pub Answers : ℕ → ℕ → Process Files → ℕ → Type 0
Answers fileid offset s b =
    (m : ℕ) × (s1 : Process Files) × (fsipc (map fileid offset) s ≡ some ((ok m, block b), s1))

-- A page that was mapped to the block that the server answered with, or an error.
abbrev pub MapsPage : ℕ → ℕ → ℕ → Process Files → Code → Process Files → Type 0
MapsPage fileid offset va s (ok n) s' =
    (b : ℕ) × Answers fileid offset s b × (window_of s' ≡ update (window_of s) (va / 4096) (some b))
MapsPage fileid offset va s (fail e) s' = window_of s' ≡ window_of s

accept_block-window :
    (fileid offset va : ℕ) (s s1 : Process Files) (q : Code) (page : Shared) (r : Code)
    (s' : Process Files)
    → fsipc (map fileid offset) s ≡ some ((q, page), s1)
    → window_of s1 ≡ window_of s
    → accept_block va q page s1 ≡ some (r, s')
    → MapsPage fileid offset va s r s'
unfolding accept_block
accept_block-window fileid offset va s s1 (fail e) page r s' sent same run =
    let code : fail e ≡ r = cc in
    let end : s1 ≡ s' = cc in
    subst (λ c. MapsPage fileid offset va s c s') code (ap window_of (sym end) ∙ same)
accept_block-window fileid offset va s s1 (ok n) (block b) r s' sent same run =
    let code : ok 0 ≡ r = cc in
    let end : map_page va b s1 ≡ s' = cc in
    subst (λ c. MapsPage fileid offset va s c s') code
      (b, (n, s1, sent), ap window_of (sym end) ∙ ap (λ w. update w (va / 4096) (some b)) same)
accept_block-window fileid offset va s s1 (ok n) nothing r s' sent same run = absurd (cc)
accept_block-window fileid offset va s s1 (ok n) (filefd k) r s' sent same run = absurd (cc)

pub fsipc_map-window :
    (fileid offset va : ℕ) (s : Process Files) (r : Code) (s' : Process Files)
    → fsipc_map fileid offset va s ≡ some (r, s')
    → MapsPage fileid offset va s r s'
unfolding fsipc_map
fsipc_map-window fileid offset va s r s' run =
    let (q, s1, sent, taken) =
      split_bind (fsipc (map fileid offset) s) (λ q. accept_block va q.0 q.1) r s' run in
    accept_block-window fileid offset va s s1 q.0 q.1 r s' sent
      ((fsipc-window (map fileid offset)).keeps s q s1 sent) taken
