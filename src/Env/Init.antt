-- ===== src/Env/Init.antt =====
-- `env_init`: the free list of environments at the start.
use buaa_mips_os.Base.{
  ℕ, zero, suc, ◌+◌, ◌≤◌, ◌<◌, ◌≡◌, ◌⊎◌, refl, true, some, [], ◌==◌, ltb, arith, contains, nodup,
  length, get_elem?, Bool-cases, inl, inr, ap, ◌∙◌,
}
use buaa_mips_os.Kernel.{Kern, env_free_status, nenv}
use buaa_mips_os.Pmap.Returns.{Returns}
use buaa_mips_os.Env.{init_step, init_loop, env_init}

-- No environment is on the free list twice, and those on it exist and are marked free.
pub record EnvOk (k : Kern) : Type 0 where
  pub distinct : nodup k.env_free_list ≡ true
  pub below : (e : ℕ) → contains k.env_free_list e ≡ true → e < nenv
  pub marked : (e : ℕ) → contains k.env_free_list e ≡ true → (k.envs e).env_status ≡ env_free_status

init_loop-behind :
    (n : ℕ) (k : Kern) (j : ℕ)
    → get_elem? (init_loop n k).env_free_list (n + j) ≡ get_elem? k.env_free_list j
unfolding init_loop
init_loop-behind zero k j = ap (get_elem? k.env_free_list) (omega arith)
init_loop-behind (suc n) k j =
    let e : suc n + j ≡ n + suc j = omega arith in rw e (init_loop-behind n (init_step n k) (suc j))

init_loop-elem :
    (n : ℕ) (k : Kern) (i : ℕ) → i < n → get_elem? (init_loop n k).env_free_list i ≡ some i
unfolding init_loop
init_loop-elem zero k i lt = absurd (omega arith)
init_loop-elem (suc n) k i lt = elim (Bool-cases (ltb i n)) [
  | inl less ↦ init_loop-elem n (init_step n k) i (ground arith)
  | inr last ↦
      let e : i ≡ n + 0 = ground arith in
      rw e (init_loop-behind n (init_step n k) 0 ∙ ap some (omega arith))
]

init_loop-EnvOk :
    (n : ℕ) (k : Kern)
    → nodup k.env_free_list ≡ true
    → ((e : ℕ)
        → contains k.env_free_list e ≡ true
        → (n ≤ e) × (e < nenv) × ((k.envs e).env_status ≡ env_free_status))
    → n ≤ nenv
    → EnvOk (init_loop n k)
unfolding init_loop
init_loop-EnvOk zero k d h lt = record {
  distinct = d;
  below = λ e m. (h e m).1;
  marked = λ e m. (h e m).2;
}
init_loop-EnvOk (suc n) k d h lt =
    init_loop-EnvOk n (init_step n k) (ground (arith, h n)) (λ e m. ground (arith, h e))
      (omega arith)

init_loop-marked :
    (n : ℕ) (k : Kern) (i : ℕ)
    → (i < n) ⊎ ((k.envs i).env_status ≡ env_free_status)
    → ((init_loop n k).envs i).env_status ≡ env_free_status
unfolding init_loop
init_loop-marked zero k i h = ground arith
init_loop-marked (suc n) k i h = init_loop-marked n (init_step n k) i (elim (Bool-cases (i == n)) [
  | inl here ↦ inr (ground arith)
  | inr other ↦ elim h [ inl less ↦ inl (ground arith) | inr m ↦ inr (ground arith) ]
])

init_loop-length :
    (n : ℕ) (k : Kern) → length (init_loop n k).env_free_list ≡ n + length k.env_free_list
unfolding init_loop
init_loop-length zero k = omega arith
init_loop-length (suc n) k = omega (arith, init_loop-length n (init_step n k))

-- After `env_init` the free list is `envs[0]` to `envs[NENV - 1]`, in this order, and each of them
-- is marked free.
env_init_lem :
    (k : Kern)
    → Returns
        (λ _ k'.
          EnvOk k'
          × (length k'.env_free_list ≡ nenv)
          × ((i : ℕ) → i < nenv → get_elem? k'.env_free_list i ≡ some i)
          × ((i : ℕ) → i < nenv → (k'.envs i).env_status ≡ env_free_status))
        (env_init k)
unfolding env_init
env_init_lem k =
    let k0 : Kern = record k { env_free_list = [] } in
    (
      init_loop-EnvOk nenv k0 refl (λ e m. absurd (ground arith)) (omega arith),
      omega (arith, init_loop-length nenv k0),
      init_loop-elem nenv k0,
      λ i lt. init_loop-marked nenv k0 i (inl lt),
    )
