-- ===== src/Env/Tests.antt =====
-- Runs of the functions on environments, and instances of what is proved of them.
use buaa_mips_os.Base.{◌≡◌, ◌⊎◌, ◌<◌, refl, true, some, arith}
use buaa_mips_os.Kernel.{nenv}
use buaa_mips_os.Kernel.Samples.{sample}
use buaa_mips_os.Pmap.Returns.{Returns}
use buaa_mips_os.Env.{mkenvid, envid2env, env_alloc, sched_yield}
use buaa_mips_os.Env.Ids.{NextId, Resolves, mkenvid_lem, envid2env_sound}
use buaa_mips_os.Env.Alloc.{AllocOk, AllocatesEnv, env_alloc_lem}
use buaa_mips_os.Env.Sched.{wait, sched_yield-fair}

envid2env-child : envid2env 4097 true sample ≡ some ((0, some 1), sample)
unfolding envid2env
envid2env-child = refl

envid2env_sound_example : Resolves sample 4097 true 0 (some 1) sample
envid2env_sound_example = envid2env_sound sample 4097 true (omega arith) envid2env-child

mkenvid_lem_example : Returns (NextId sample 2) (mkenvid 2 sample)
mkenvid_lem_example = mkenvid_lem sample 2 (omega arith) (omega arith)

sample-AllocOk : AllocOk sample
sample-AllocOk = record {
  pages = record {
    distinct = refl;
    below = λ p m. ground arith;
    unref = λ p m. ground arith;
    small = omega arith;
    short = λ p. ground arith;
  };
  environments = record {
    distinct = refl;
    below = λ e m. ground arith;
    marked = λ e m. ground arith;
  };
  room = omega arith;
  boot_used = refl;
}

-- Environment 2 gets page 5 for its directory.
env_alloc_lem_example : Returns (AllocatesEnv sample 2048) (env_alloc 2048 sample)
env_alloc_lem_example = env_alloc_lem sample 2048 sample-AllocOk (λ h. absurd (cc))

sched_yield-fair_example :
    Returns
      (λ _ k'. (k'.pos < nenv) × ((k'.curenv ≡ some 0) ⊎ (wait k' 0 < wait sample 0)))
      (sched_yield sample)
sched_yield-fair_example =
    sched_yield-fair sample 0 (omega arith) (omega arith) refl (λ j. ground arith)
