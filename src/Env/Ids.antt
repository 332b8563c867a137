-- ===== src/Env/Ids.antt =====
-- Identifiers of environments: what `mkenvid` makes, and what `envid2env` accepts.
use buaa_mips_os.Base.{
  inr, inl, ◌==◌, Bool-cases, ℕ, ◌+◌, ◌*◌, ◌/◌, ◌<◌, ◌≡◌, ◌≢◌, ◌⊎◌, refl, Bool, true, false, Option,
  none, some, arith,
}
use buaa_mips_os.Base.Bits.{bit_or_env}
use buaa_mips_os.Base.Words.{u32}
use buaa_mips_os.Kernel.{Kern, e_bad_env, env_free_status, nenv, envx, get_env_asid}
use buaa_mips_os.Pmap.Returns.{Returns}
use buaa_mips_os.Env.{current, mkenvid, envid2env}

pub mkenvid_sum :
    (k : Kern) (e : ℕ)
    → e < nenv
    → k.next_env_id + 1 < 0x20_0000
    → mkenvid e k
      ≡ some ((k.next_env_id + 1) * 2048 + e, record k { next_env_id = k.next_env_id + 1 })
unfolding mkenvid
mkenvid_sum k e lt room =
    let n : u32 (k.next_env_id + 1) ≡ k.next_env_id + 1 = omega arith in
    let m : u32 ((k.next_env_id + 1) * 2048) ≡ (k.next_env_id + 1) * 2048 = omega arith in
    rw (n, m, bit_or_env (k.next_env_id + 1) e (omega arith))

-- What `mkenvid` promises of the identifier, and of the state behind it.
abbrev pub NextId : Kern → ℕ → ℕ → Kern → Type 0
NextId k e id k' =
    (envx id ≡ e)
    × (id / 2048 ≡ k.next_env_id + 1)
    × (id ≢ 0)
    × (get_env_asid id ≡ (k.next_env_id + 1) * 64)
    × (k' ≡ record k { next_env_id = k.next_env_id + 1 })

-- While fewer than 2^21 identifiers have been made, the next one holds the environment's index in
-- its low bits and the counter above them. So it is not 0, and no identifier that an earlier value
-- of the counter gave equals it.
pub mkenvid_lem :
    (k : Kern) (e : ℕ)
    → e < nenv
    → k.next_env_id + 1 < 0x20_0000
    → Returns (NextId k e) (mkenvid e k)
mkenvid_lem k e lt room =
    rw (mkenvid_sum k e lt room) (omega arith, omega arith, omega arith, omega arith, refl)

-- What `envid2env` promises of its return code and of `*penv`.
abbrev pub Resolves : Kern → ℕ → Bool → ℕ → Option ℕ → Kern → Type 0
Resolves k envid checkperm r o k' =
    (k' ≡ k)
    × (((r ≡ e_bad_env) × (o ≡ none))
        ⊎ ((r ≡ 0)
            × (o ≡ some (envx envid))
            × ((k.envs (envx envid)).env_id ≡ envid)
            × ((k.envs (envx envid)).env_status ≢ env_free_status)
            × (checkperm ≡ true
                → (c : ℕ) × (k.curenv ≡ some c)
                  × ((envx envid ≡ c)
                      ⊎ ((k.envs (envx envid)).env_parent_id ≡ (k.envs c).env_id)))))

-- When `envid2env` finds an environment by a nonzero identifier, that environment has exactly this
-- identifier, is not free, and is at the identifier's index; with `checkperm` it is also the
-- current environment or a child of it. The state never changes, and the error is E_BAD_ENV.
pub envid2env_sound :
    (k : Kern) (envid : ℕ) (checkperm : Bool) {r : ℕ} {o : Option ℕ} {k' : Kern}
    → envid ≢ 0
    → envid2env envid checkperm k ≡ some ((r, o), k')
    → Resolves k envid checkperm r o k'
unfolding envid2env
envid2env_sound k envid checkperm ne h = ground arith

-- An environment that is in use is found by its identifier.
pub envid2env-found :
    (k : Kern) (envid : ℕ)
    → envid ≢ 0
    → (k.envs (envx envid)).env_id ≡ envid
    → (k.envs (envx envid)).env_status ≢ env_free_status
    → envid2env envid false k ≡ some ((0, some (envx envid)), k)
unfolding envid2env
envid2env-found k envid ne i st = ground arith

-- The environment that `envid` names is in use.
abbrev pub Known : Kern → ℕ → Type 0
Known k envid =
    ((k.envs (envx envid)).env_id ≡ envid) × ((k.envs (envx envid)).env_status ≢ env_free_status)

pub envid2env-cases :
    (k : Kern) (envid : ℕ)
    → envid ≢ 0
    → (Known k envid × (envid2env envid false k ≡ some ((0, some (envx envid)), k)))
      ⊎ ((Known k envid → ⊥) × (envid2env envid false k ≡ some ((e_bad_env, none), k)))
unfolding envid2env
envid2env-cases k envid ne = elim (Bool-cases ((k.envs (envx envid)).env_id == envid)) [
  | inl i ↦ elim (Bool-cases ((k.envs (envx envid)).env_status == env_free_status)) [
    | inl free ↦ inr (λ h. ground (arith, h.1), ground arith)
    | inr used ↦ inl ((ground arith, ground arith), ground arith)
  ]
  | inr i ↦ inr (λ h. ground (arith, h.0), ground arith)
]

pub current-some : (k : Kern) (c : ℕ) → k.curenv ≡ some c → current k ≡ some (c, k)
unfolding current
current-some k c h = rw h

-- The environment that `envid` names is neither the current one nor a child of it.
abbrev pub Foreign : Kern → ℕ → Type 0
Foreign k envid =
    (envid ≢ 0)
    × ((c : ℕ) × (k.curenv ≡ some c)
        × (envx envid ≢ c)
        × ((k.envs (envx envid)).env_parent_id ≢ (k.envs c).env_id))

pub envid2env-Foreign :
    (k : Kern) (envid : ℕ) → Foreign k envid → envid2env envid true k ≡ some ((e_bad_env, none), k)
unfolding envid2env
envid2env-Foreign k envid (ne, (c, cur, other, parent)) = ground arith
