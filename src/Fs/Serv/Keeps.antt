-- ===== src/Fs/Serv/Keeps.antt =====
-- fs/serv.c: what a call of fs/fs.c leaves alone.
use buaa_mips_os.Base.Keeps.{Keeps}
use buaa_mips_os.Base.{◌≡◌, sym, ap, ◌∙◌, Option, none, some}
use buaa_mips_os.Fs.{Server, F}
use buaa_mips_os.Fs.Serv.{Serve, on_fs}

-- Behind a call of the code of fs/fs.c.
kept :
    {X A : Type 0} (view : Serve → X) (o : Option (A × Server)) (s : Serve) (a : A) (s' : Serve)
    → ((fs : Server) → view (record s { fs = fs }) ≡ view s)
    → elim o as (λ _. Option (A × Serve)) [
      | none ↦ none
      | some (a, fs) ↦ some (a, record s { fs = fs })
    ]
      ≡ some (a, s')
    → view s' ≡ view s
kept view none s a s' h run = absurd (cc)
kept view (some (b, fs)) s a s' h run =
    let e : record s { fs = fs } ≡ s' = cc in ap view (sym e) ∙ h fs

module _ {X : Type 0} {view : Serve → X} where
  pub Keeps-on_fs :
      {A : Type 0} (m : F A)
      → ((s : Serve) (fs : Server) → view (record s { fs = fs }) ≡ view s)
      → Keeps view (on_fs m)
  unfolding on_fs
  Keeps-on_fs m h = record { keeps = λ s a s' run. kept view (m s.fs) s a s' (h s) run }
