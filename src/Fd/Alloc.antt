-- ===== src/Fd/Alloc.antt =====
-- user/fd.c: `fd_alloc`.
use buaa_mips_os.Base.{
  ℕ, zero, suc, ◌+◌, ◌-◌, ◌≤◌, ◌<◌, ◌≡◌, ◌⊎◌, refl, sym, ap, ◌∙◌, true, false, not, ◌==◌,
  if◌then◌else◌, arith, Bool-cases, inl, inr,
}
use mathlib.Core.Path.{subst}
use buaa_mips_os.Fs.{Code, ok, fail}
use buaa_mips_os.Fd.{Process, maxfd, e_max_open, is_mapped, fd_alloc_from, fd_alloc}

module _ {W : Type 0} where
  -- The descriptors from `lo` to `hi` are in use.
  abbrev pub AllUsed : Process W → ℕ → ℕ → Type 0
  AllUsed s lo hi = (i : ℕ) → lo ≤ i → i < hi → is_mapped s i ≡ true

  abbrev pub AllocSays : Process W → ℕ → ℕ → Code → Type 0
  AllocSays s lo hi (ok i) =
      (lo ≤ i) × (i < hi) × ((s.vpd ≡ false) ⊎ (is_mapped s i ≡ false)) × AllUsed s lo i
  AllocSays s lo hi (fail e) = (e ≡ e_max_open) × (lo < hi → s.vpd ≡ true) × AllUsed s lo hi

  AllUsed-cons :
      (s : Process W) (lo hi : ℕ) → is_mapped s lo ≡ true → AllUsed s (lo + 1) hi → AllUsed s lo hi
  AllUsed-cons s lo hi h more i l m = elim (Bool-cases (i == lo)) [
    | inl e ↦ ap (is_mapped s) (ground (arith, e)) ∙ h
    | inr e ↦ more i (ground (arith, e)) m
  ]

  AllocSays-suc :
      (s : Process W) (lo hi : ℕ) (r : Code)
      → s.vpd ≡ true
      → is_mapped s lo ≡ true
      → AllocSays s (lo + 1) hi r
      → AllocSays s lo hi r
  AllocSays-suc s lo hi (ok i) v h (l, m, free, used) =
      (omega arith, m, free, AllUsed-cons s lo i h used)
  AllocSays-suc s lo hi (fail e) v h (code, dir, used) = (code, λ l. v, AllUsed-cons s lo hi h used)

  fd_alloc_from_lem : (n lo : ℕ) (s : Process W) → AllocSays s lo (lo + n) (fd_alloc_from n lo s)
  unfolding fd_alloc_from
  fd_alloc_from_lem zero lo s = (refl, λ l. absurd (omega arith), λ i l m. absurd (omega arith))
  fd_alloc_from_lem (suc n) lo s = elim (Bool-cases s.vpd) [
    | inr v ↦
        subst
          (λ b. AllocSays s lo (lo + suc n) (
            if not b
            then ok lo
            else if not (is_mapped s lo)
            then ok lo
            else fd_alloc_from n (lo + 1) s))
          (sym v) (omega arith, omega arith, inl v, λ i l m. absurd (omega arith))
    | inl v ↦
        subst
          (λ b. AllocSays s lo (lo + suc n) (
            if not b
            then ok lo
            else if not (is_mapped s lo)
            then ok lo
            else fd_alloc_from n (lo + 1) s))
          (sym v)
          (elim (Bool-cases (is_mapped s lo)) [
            | inr m ↦
                subst
                  (λ b.
                    AllocSays s lo (lo + suc n)
                      (if not b then ok lo else fd_alloc_from n (lo + 1) s))
                  (sym m) (omega arith, omega arith, inr m, λ i l k. absurd (omega arith))
            | inl m ↦
                subst
                  (λ b.
                    AllocSays s lo (lo + suc n)
                      (if not b then ok lo else fd_alloc_from n (lo + 1) s))
                  (sym m)
                  (AllocSays-suc s lo (lo + suc n) (fd_alloc_from n (lo + 1) s) v m (
                    subst (λ hi. AllocSays s (lo + 1) hi (fd_alloc_from n (lo + 1) s)) (omega arith)
                      (fd_alloc_from_lem n (lo + 1) s)))
          ])
  ]

  -- `fd_alloc` gives the lowest descriptor that is not in use, of those below 31; it returns E_MAX_OPEN
  -- exactly when these are all in use.
  pub fd_alloc_lem : (s : Process W) → AllocSays s 0 (maxfd - 1) (fd_alloc s)
  unfolding fd_alloc
  fd_alloc_lem s = fd_alloc_from_lem 31 0 s
