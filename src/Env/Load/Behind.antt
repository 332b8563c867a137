-- ===== src/Env/Load/Behind.antt =====
-- Pages that are filled, and more pages behind them.
use buaa_mips_os.Base.{
  ℕ, ◌+◌, ◌-◌, ◌*◌, ◌/◌, ◌%◌, ◌≤◌, ◌<◌, ◌≡◌, ◌⊎◌, refl, true, false, ◌&&◌, some, leb, ltb,
  Bool-cases, inl, inr, arith, ap, ◌∙◌, sym,
}
use buaa_mips_os.Kernel.{Kern}
use buaa_mips_os.Pmap.Vm.Entry.{entry_at}
use buaa_mips_os.Pmap.Vm.Loop.{covers}
use buaa_mips_os.Env.Load.Space.{word_of, word_of-none}
use buaa_mips_os.Env.Load.Loop.{Fills, Ready}

-- Pages, and more pages behind them.
covers-split :
    (va n m x : ℕ)
    → va % 4096 ≡ 0
    → ((covers va n x ≡ true)
        × (covers (va + n * 4096) m x ≡ false)
        × (covers va (n + m) x ≡ true)
        × (x - va / 4096 < n))
      ⊎ ((covers va n x ≡ false)
          × (covers va (n + m) x ≡ covers (va + n * 4096) m x)
          × (covers (va + n * 4096) m x ≡ true → n ≤ x - va / 4096))
covers-split va n m x whole =
    let next : (va + n * 4096) / 4096 ≡ va / 4096 + n = omega (arith, whole) in
    rw next (elim (Bool-cases (covers va n x)) [
      | inl e ↦ inl (e, ground (arith, e), ground (arith, e), ground (arith, e))
      | inr e ↦ inr (
        e,
        elim (Bool-cases (leb (va / 4096 + n) x && ltb x (va / 4096 + n + m))) [
          | inl f ↦ let c : covers va (n + m) x ≡ true = ground (arith, f) in c ∙ sym f
          | inr f ↦ let c : covers va (n + m) x ≡ false = ground (arith, e, f) in c ∙ sym f
        ],
        λ h. ground (arith, h),
      )
    ])

pub Ready-front :
    (k : Kern) (e pgdir va n m : ℕ) → Ready k e pgdir va (n + m) → Ready k e pgdir va n
Ready-front k e pgdir va n m o = record {
  dir = o.dir;
  user = o.user;
  whole = o.whole;
  fits = omega (arith, o.fits);
  unmapped = λ d t dlt tlt c. o.unmapped d t dlt tlt (ground (arith, c));
}

module _ (k k1 : Kern) (e pgdir va n m : ℕ) (g : ℕ → ℕ → ℕ) (o : Ready k e pgdir va (n + m))
    (x : Fills k pgdir va n g k1) where
  pub Ready-behind : Ready k1 e pgdir (va + n * 4096) m
  Ready-behind = record {
    dir = rw x.envs o.dir;
    user = x.user;
    whole = omega (arith, o.whole);
    fits = omega (arith, o.fits);
    unmapped = λ d t dlt tlt c. word_of-none k1 (entry_at k1 pgdir d t) 0 (
        x.words d t 0 dlt tlt (omega arith) ∙ elim (covers-split va n m (d * 1024 + t) o.whole) [
          | inl (_, out, _, _) ↦ absurd (cc)
          | inr (out, same, _) ↦
              rw out (ap (λ y. word_of k y 0) (o.unmapped d t dlt tlt (same ∙ c)))
        ]);
  }

  -- What both loops fill, where the words of the second are those that the whole has there.
  pub Fills-both :
      (z : ℕ → ℕ → ℕ) (k2 : Kern)
      → ((j i : ℕ) → n ≤ j → g j i ≡ z (j - n) i)
      → Fills k1 pgdir (va + n * 4096) m z k2
      → Fills k pgdir va (n + m) g k2
  Fills-both z k2 behind y = record {
    user = y.user;
    spares = λ p out.
        let (out1, same1) = x.spares p out in
        let (out2, same2) = y.spares p out1 in (out2, λ i lt. same2 i lt ∙ same1 i lt);
    words = λ d t i dlt tlt ilt.
        y.words d t i dlt tlt ilt ∙ elim (covers-split va n m (d * 1024 + t) o.whole) [
          | inl (here, out, whole, _) ↦ rw (out, whole) (x.words d t i dlt tlt ilt ∙ rw here refl)
          | inr (out, same, far) ↦
              rw same (elim (Bool-cases (covers (va + n * 4096) m (d * 1024 + t))) [
                | inl c ↦
                    let at : d * 1024 + t - (va + n * 4096) / 4096 ≡ d * 1024 + t - va / 4096 - n =
                      omega (arith, o.whole) in
                    rw (c, at) (ap some (sym (behind (d * 1024 + t - va / 4096) i (far c))))
                | inr c ↦ rw c (x.words d t i dlt tlt ilt ∙ rw out refl)
              ])
        ];
    envs = y.envs ∙ x.envs;
  }
