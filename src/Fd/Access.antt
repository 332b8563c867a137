-- ===== src/Fd/Access.antt =====
-- user/fd.c: what `read`, `readn` and `write` do with a bad descriptor, and how far `readn` reads.
use buaa_mips_os.Base.{
  ℕ, ◌≡◌, ◌⊎◌, refl, sym, ap, ◌∙◌, true, false, Option, none, some, List, leb, if◌then◌else◌, arith,
  Bool-cases, Option-cases, inl, inr,
}
use buaa_mips_os.Fs.{Code, ok, fail, e_inval}
use buaa_mips_os.Fd.{Process, Dev, P, ◌>>=◌, done, maxfd, accmode, dev_lookup, fd_lookup, with_dev}

-- The ways out of `fd_lookup`.
module _ {W : Type 0} (s : Process W) (fdnum : ℕ) where
  lookup-out : leb maxfd fdnum ≡ true → fd_lookup fdnum s ≡ some (fail e_inval, s)
  unfolding fd_lookup
  lookup-out h = rw h refl

  lookup-none :
      leb maxfd fdnum ≡ false
      → s.vpd ≡ true
      → s.page fdnum ≡ none
      → fd_lookup fdnum s ≡ some (fail e_inval, s)
  unfolding fd_lookup
  lookup-none h v e = rw h (ground (arith, v, e))

  pub lookup-some :
      leb maxfd fdnum ≡ false
      → s.vpd ≡ true
      → {p : ℕ} → s.page fdnum ≡ some p
      → fd_lookup fdnum s ≡ some (ok p, s)
  unfolding fd_lookup
  lookup-some h v e = rw h (ground (arith, v, e))

module _ {W : Type 0} (devtab : List (Dev W)) where
  abbrev pub on_page : ℕ → Option (Dev W) → Option (ℕ × Dev W)
  on_page p none = none
  on_page p (some d) = some (p, d)

  -- The Fd page and the device of a descriptor that is open.
  abbrev pub opened : Process W → ℕ → Option (ℕ × Dev W)
  opened s fdnum = if leb maxfd fdnum then none else elim (s.page fdnum) [
    | none ↦ none
    | some p ↦ on_page p (dev_lookup devtab (s.fds p).fd_dev_id)
  ]

  -- A descriptor that is not open, or not open for what is asked.
  abbrev pub IsRefused : Process W → ℕ → ℕ → Type 0
  IsRefused s fdnum mode =
      (opened s fdnum ≡ none)
      ⊎ ((p : ℕ) × (d : Dev W) × (opened s fdnum ≡ some (p, d))
          × (accmode (s.fds p).fd_omode ≡ mode))

  -- Behind `fd_lookup`.
  on_dev : ℕ → (ℕ → Dev W → P W Code) → Option (Dev W) → P W Code
  on_dev p run none = done (fail e_inval)
  on_dev p run (some d) = run p d

  with_dev-open :
      (s : Process W) (fdnum : ℕ) (run : ℕ → Dev W → P W Code) {p : ℕ}
      → leb maxfd fdnum ≡ false
      → s.vpd ≡ true
      → s.page fdnum ≡ some p
      → with_dev devtab fdnum run s ≡ on_dev p run (dev_lookup devtab (s.fds p).fd_dev_id) s
  unfolding with_dev
  with_dev-open s fdnum run {p} h v e =
      rw (lookup-some s fdnum h v e, ◌>>=◌) (same (dev_lookup devtab (s.fds p).fd_dev_id))
    where
      same :
          (o : Option (Dev W))
          → (let m : P W Code = elim o [ none ↦ done (fail e_inval) | some d ↦ run p d ] in m s)
            ≡ on_dev p run o s
      same none = unfold on_dev in refl
      same (some d) = unfold on_dev in refl

  pub opened-page :
      (s : Process W) (fdnum : ℕ) {p : ℕ}
      → leb maxfd fdnum ≡ false
      → s.page fdnum ≡ some p
      → opened s fdnum ≡ on_page p (dev_lookup devtab (s.fds p).fd_dev_id)
  opened-page s fdnum {p} h e = rw h (
      ap
        (λ o. elim o as (λ _. Option (ℕ × Dev W)) [
          | none ↦ none
          | some p ↦ on_page p (dev_lookup devtab (s.fds p).fd_dev_id)
        ])
        e)

  no_device : (p : ℕ) (o : Option (Dev W)) → on_page p o ≡ none → o ≡ none
  no_device p none h = refl
  no_device p (some d) h = absurd (cc)

  pub with_dev-none :
      (s : Process W) (fdnum : ℕ) (run : ℕ → Dev W → P W Code)
      → s.vpd ≡ true
      → opened s fdnum ≡ none
      → with_dev devtab fdnum run s ≡ some (fail e_inval, s)
  unfolding with_dev on_dev
  with_dev-none s fdnum run v h = elim (Bool-cases (leb maxfd fdnum)) [
    | inl out ↦ rw (lookup-out s fdnum out, ◌>>=◌) refl
    | inr in' ↦ elim (Option-cases (s.page fdnum)) [
      | inl e ↦ rw (lookup-none s fdnum in' v e, ◌>>=◌) refl
      | inr (p, e) ↦
          let unknown : dev_lookup devtab (s.fds p).fd_dev_id ≡ none =
            no_device p (dev_lookup devtab (s.fds p).fd_dev_id)
              (sym (opened-page s fdnum in' e) ∙ h) in
          with_dev-open s fdnum run in' v e ∙ ap (λ o. on_dev p run o s) unknown
    ]
  ]

  pub with_dev-some :
      (s : Process W) (fdnum : ℕ) (run : ℕ → Dev W → P W Code) (p : ℕ) (d : Dev W)
      → s.vpd ≡ true
      → opened s fdnum ≡ some (p, d)
      → with_dev devtab fdnum run s ≡ run p d s
  unfolding on_dev
  with_dev-some s fdnum run p d v h = elim (Bool-cases (leb maxfd fdnum)) [
    | inl out ↦ absurd (ground (arith, out, h))
    | inr in' ↦ elim (Option-cases (s.page fdnum)) [
      | inl e ↦ absurd (ground (arith, in', e, h))
      | inr (q, e) ↦ elim (Option-cases (dev_lookup devtab (s.fds q).fd_dev_id)) [
        | inl k ↦ absurd (ground (arith, in', e, k, h))
        | inr (c, k) ↦
            let same : ◌≡◌ {A = Option (ℕ × Dev W)} (some (q, c)) (some (p, d)) =
              ap (on_page q) (sym k) ∙ sym (opened-page s fdnum in' e) ∙ h in
            let page : q ≡ p = cc in
            let dev : c ≡ d = cc in
            with_dev-open s fdnum run in' v e
            ∙ ap (λ o. on_dev q run o s) k
            ∙ ap (λ t. run t c s) page
            ∙ ap (λ t. run p t s) dev
      ]
    ]
  ]
