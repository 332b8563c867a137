-- ===== src/Env/Sched.antt =====
-- The round robin of lib/sched.c, and the switch of `env_run`.
use buaa_mips_os.Base.{
  ℕ, zero, suc, ◌+◌, ◌-◌, ◌%◌, ◌<◌, ◌≡◌, ◌≢◌, ◌⊎◌, refl, false, Option, none, some, ◌==◌, ltb,
  if◌then◌else◌, arith, Bool-cases, inl, inr, sym, ap, ◌∙◌,
}
use mathlib.Core.Path.{subst}
use buaa_mips_os.Base.Words.{u32}
use buaa_mips_os.Kernel.{Kern, ◌>>=◌, env_runnable, nenv, set_env}
use buaa_mips_os.Pmap.{ppn}
use buaa_mips_os.Pmap.Returns.{Returns}
use buaa_mips_os.Pmap.Free.{kaddr-ok}
use buaa_mips_os.Env.{save_frame, env_run, sched_loop, sched_yield}

abbrev pub Runnable : Kern → ℕ → Type 0
Runnable k e = (k.envs e).env_status ≡ env_runnable

-- The `d`-th environment behind the position, going round.
abbrev pub behind : ℕ → ℕ → ℕ
behind pos d = (pos + 1 + d) % nenv

-- The position after one turn, and what is behind it.
behind-zero : (pos : ℕ) → (pos + 1) % nenv ≡ behind pos 0
behind-zero pos = omega arith

behind-suc : (pos d : ℕ) → behind ((pos + 1) % nenv) d ≡ behind pos (suc d)
behind-suc pos d = omega arith

abbrev pub at : Kern → ℕ → Kern
at k p = record k { pos = p }

sched_loop-first :
    (n d : ℕ) (k : Kern)
    → d < n
    → Runnable k (behind k.pos d)
    → ((j : ℕ) → j < d → (k.envs (behind k.pos j)).env_status ≢ env_runnable)
    → sched_loop n k ≡ env_run (behind k.pos d) (at k (behind k.pos d))
unfolding sched_loop
sched_loop-first zero d k lt h skip = absurd (omega arith)
sched_loop-first (suc n) zero k lt h skip =
    let e = behind-zero k.pos in
    subst
      (λ t.
        (if (k.envs t).env_status == env_runnable
          then env_run t (at k t)
          else sched_loop n (at k t))
        ≡ env_run (behind k.pos 0) (at k (behind k.pos 0)))
      (sym e) (rw h)
sched_loop-first (suc n) (suc d) k lt h skip =
    let k' : Kern = at k ((k.pos + 1) % nenv) in
    let e = behind-suc k.pos in
    let no : ((k.envs ((k.pos + 1) % nenv)).env_status == env_runnable) ≡ false =
      ground (arith, skip 0 (omega arith), behind-zero k.pos) in
    rw no (
      sched_loop-first n d k' (omega arith) (rw e h) (λ j l. rw e (skip (suc j) (omega arith)))
      ∙ ap (λ t. env_run t (at k t)) (e d))

-- `sched_yield` runs the first runnable environment behind the position, going round, and the
-- position moves there.
sched_yield_lem :
    (k : Kern) (d : ℕ)
    → d < nenv
    → Runnable k (behind k.pos d)
    → ((j : ℕ) → j < d → (k.envs (behind k.pos j)).env_status ≢ env_runnable)
    → sched_yield k ≡ env_run (behind k.pos d) (record k { pos = behind k.pos d })
unfolding sched_yield
sched_yield_lem k d = sched_loop-first nenv d k

-- What saving the registers changes, and what it does not.
save_frame-envs :
    (o : Option ℕ) (k : Kern) (j : ℕ)
    → (((save_frame o k).envs j).env_status ≡ (k.envs j).env_status)
      × (((save_frame o k).envs j).env_cr3 ≡ (k.envs j).env_cr3)
      × (((save_frame o k).envs j).env_runs ≡ (k.envs j).env_runs)
unfolding save_frame
save_frame-envs none k j = (refl, refl, refl)
save_frame-envs (some c) k j = (ground arith, ground arith, ground arith)

save_frame-rest :
    (o : Option ℕ) (k : Kern)
    → ((save_frame o k).npage ≡ k.npage)
      × ((save_frame o k).pos ≡ k.pos)
      × ((c : ℕ) → o ≡ some c → ((save_frame o k).envs c).env_tf.pc ≡ k.timestack.cp0_epc)
unfolding save_frame
save_frame-rest none k = (refl, refl, λ c h. absurd (cc))
save_frame-rest (some c) k = (refl, refl, λ c' h. ground arith)

-- The state in which `env_run` enters environment `e`.
abbrev pub switched : Kern → ℕ → Kern
switched k e =
    let s : Kern = save_frame k.curenv k in
    set_env e (record (s.envs e) { env_runs = u32 ((s.envs e).env_runs + 1) })
      (record s { curenv = some e })

env_run-eq :
    (k : Kern) (e : ℕ) → ppn (k.envs e).env_cr3 < k.npage → env_run e k ≡ some (tt, switched k e)
unfolding env_run
env_run-eq k e lt =
    let cr3 : ((switched k e).envs e).env_cr3 ≡ (k.envs e).env_cr3 =
      ground (arith, save_frame-envs k.curenv k e) in
    rw (
      kaddr-ok (switched k e) ((switched k e).envs e).env_cr3
          (rw (cr3, (save_frame-rest k.curenv k).0) lt),
      ◌>>=◌,
    )

-- What `env_run` promises of the state in which it enters `e`.
abbrev pub Runs : Kern → ℕ → Kern → Type 0
Runs k e k' =
    (k'.curenv ≡ some e)
    × (k'.pos ≡ k.pos)
    × ((j : ℕ) → (k'.envs j).env_status ≡ (k.envs j).env_status)
    × ((k'.envs e).env_runs ≡ u32 ((k.envs e).env_runs + 1))
    × ((c : ℕ) → k.curenv ≡ some c → (k'.envs c).env_tf.pc ≡ k.timestack.cp0_epc)

-- `env_run` does not panic if the directory of the environment is in memory. It saves the program
-- counter of the exception for the environment that ran before, counts the run, and makes the
-- environment current; no status changes.
env_run_lem :
    (k : Kern) (e : ℕ)
    → ppn (k.envs e).env_cr3 < k.npage
    → Returns (λ _ k'. Runs k e k') (env_run e k)
env_run_lem k e lt = rw (env_run-eq k e lt) (
  refl,
  (save_frame-rest k.curenv k).1,
  λ j. ground (arith, save_frame-envs k.curenv k j),
  ground (arith, save_frame-envs k.curenv k e),
  λ c h. ground (arith, (save_frame-rest k.curenv k).2 c h),
)

-- How many environments stand before `e` in the next turn.
abbrev pub wait : Kern → ℕ → ℕ
wait k e = (e + 2047 - k.pos) % nenv

-- One turn: the position is at `e`, or closer to it.
turn :
    (pos e : ℕ)
    → e < nenv
    → pos < nenv
    → e ≢ (pos + 1) % nenv
    → (e + 2047 - (pos + 1) % nenv) % nenv < (e + 2047 - pos) % nenv
turn pos e lt lp ne = elim (Bool-cases (ltb e (pos + 1))) [
  | inl less ↦ ground arith
  | inr more ↦ ground arith
]

near :
    (k : Kern) (e : ℕ)
    → (e ≢ (k.pos + 1) % nenv → wait (at k ((k.pos + 1) % nenv)) e < wait k e)
    → ((k.pos + 1) % nenv ≡ e) ⊎ (wait (at k ((k.pos + 1) % nenv)) e < wait k e)
near k e closer = elim (Bool-cases (e == (k.pos + 1) % nenv)) [
  | inl here ↦ inl (ground arith)
  | inr there ↦ inr (closer (ground arith))
]

-- The environment that the loop runs, if `e` could run.
sched_loop-finds :
    (n : ℕ) (k : Kern) (e : ℕ)
    → e < nenv
    → k.pos < nenv
    → Runnable k e
    → wait k e < n
    → (t : ℕ) × Runnable k t
      × (t < nenv)
      × ((t ≡ e) ⊎ (wait (at k t) e < wait k e))
      × (sched_loop n k ≡ env_run t (at k t))
unfolding sched_loop
sched_loop-finds zero k e lt pos h w = absurd (omega arith)
sched_loop-finds (suc n) k e lt pos h w =
    let next : ℕ = (k.pos + 1) % nenv in
    let k' : Kern = at k next in
    let closer = turn k.pos e lt pos in
    elim (Bool-cases ((k.envs next).env_status == env_runnable)) [
      | inl yes' ↦ (next, ground arith, omega arith, near k e closer, rw yes')
      | inr no' ↦
          let (t, run, lt', close, eq) =
            sched_loop-finds n k' e lt (omega arith) h (omega (arith, closer (ground arith))) in
          (
            t,
            run,
            lt',
            elim close [
              | inl here ↦ inl here
              | inr less ↦ inr (omega (arith, closer (ground arith)))
            ],
            rw no' eq,
          )
    ]

-- If `e` can run, `sched_yield` ends by entering an environment that can run.
pub sched_yield-enters :
    (k : Kern) (e : ℕ)
    → e < nenv
    → k.pos < nenv
    → Runnable k e
    → ((j : ℕ) → ppn (k.envs j).env_cr3 < k.npage)
    → (t : ℕ) × Runnable k t
      × (t < nenv)
      × ((t ≡ e) ⊎ (wait (at k t) e < wait k e))
      × (sched_yield k ≡ some (tt, switched (at k t) t))
unfolding sched_yield
sched_yield-enters k e lt pos h mem =
    let (t, run, lt', close, eq) = sched_loop-finds nenv k e lt pos h (omega arith) in
    (t, run, lt', close, eq ∙ env_run-eq (at k t) t (mem t))

-- No environment starves: while it is runnable, each `sched_yield` ends, and enters it or moves
-- the position closer to it.
pub sched_yield-fair :
    (k : Kern) (e : ℕ)
    → e < nenv
    → k.pos < nenv
    → Runnable k e
    → ((j : ℕ) → ppn (k.envs j).env_cr3 < k.npage)
    → Returns
        (λ _ k'. (k'.pos < nenv) × ((k'.curenv ≡ some e) ⊎ (wait k' e < wait k e)))
        (sched_yield k)
sched_yield-fair k e lt pos h mem =
    let (t, run, lt', close, eq) = sched_yield-enters k e lt pos h mem in
    rw eq (
      rw (save_frame-rest k.curenv (at k t)).1 lt',
      elim close [
        | inl here ↦ inl (ap some here)
        | inr less ↦ inr (rw (save_frame-rest k.curenv (at k t)).1 less)
      ],
    )

-- The environment that a switch leaves: its registers are saved, and nothing else changes.
pub switched-left :
    (k : Kern) (e c : ℕ)
    → c ≢ e
    → k.curenv ≡ some c
    → (switched k e).envs c
      ≡ record (k.envs c) { env_tf = record k.timestack { pc = k.timestack.cp0_epc } }
unfolding save_frame
switched-left k e c ne h = rw h (ground arith)
