-- ===== src/Syscall/Ipc.antt =====
-- Messages between environments: `sys_ipc_can_send` and `sys_ipc_recv`.
use buaa_mips_os.Base.{
  not, false, [], ℕ, ◌≤◌, ◌<◌, ◌≡◌, ◌≢◌, ◌⊎◌, refl, true, some, ◌==◌, leb, if◌then◌else◌, arith,
  bit_or, Bool-cases, inl, inr,
}
use buaa_mips_os.Kernel.{pure, Kern, ◌>>=◌, e_inval, e_ipc_not_recv, env_runnable, envx}
use buaa_mips_os.Pmap.{pte_v, pte_r, ppn, page2pa, va2pa, page_insert}
use buaa_mips_os.Pmap.Returns.{mono, Returns, bind}
use buaa_mips_os.Pmap.Free.{FreeOk}
use buaa_mips_os.Pmap.Walk.{has_table, va2pa-frame, pte}
use buaa_mips_os.Pmap.Remove.{flushed, SpaceOk, mapped, page_lookup-mapped, page_lookup-unmapped}
use buaa_mips_os.Pmap.Entry.{PageOk, Inserted}
use buaa_mips_os.Pmap.Insert.{page_insert_lem}
use buaa_mips_os.Env.Ids.{current-some, envid2env-cases, Known}
use buaa_mips_os.Syscall.Memory.{pgdir_of-some}
use buaa_mips_os.Syscall.{transfer, change, utop, deref, deliver, sys_ipc_can_send}

-- The message `value` of environment `c` has arrived at `e`, which can run again and waits no more.
pub record Delivered (k : Kern) (e c value perm : ℕ) (k' : Kern) : Type 0 where
  pub status : (k'.envs e).env_status ≡ env_runnable
  pub recving : (k'.envs e).env_ipc_recving ≡ 0
  pub value_set : (k'.envs e).env_ipc_value ≡ value
  pub from : (k'.envs e).env_ipc_from ≡ (k.envs c).env_id
  pub perm_set : (k'.envs e).env_ipc_perm ≡ bit_or (bit_or perm pte_v) pte_r
  pub named : (k'.envs e).env_id ≡ (k.envs e).env_id
  pub others : (j : ℕ) → j ≢ e → k'.envs j ≡ k.envs j

deliver_lem :
    (k : Kern) (e c value perm : ℕ)
    → Returns
        (λ r k'. (r ≡ 0) × Delivered k e c value perm k' × (k'.mem ≡ k.mem) × (k'.npage ≡ k.npage))
        (deliver e c value perm k)
unfolding deliver change
deliver_lem k e c value perm = (
  refl,
  record {
    status = ground arith;
    recving = ground arith;
    value_set = ground arith;
    from = ground arith;
    perm_set = ground arith;
    named = ground arith;
    others = λ j ne. ground arith;
  },
  refl,
  refl,
)

-- What the sender `c`, with directory `dir`, and the receiver `e`, with directory `rdir`, must be
-- like: both address spaces are well-formed, and a page that is sent can be mapped once more.
pub record SendOk (k : Kern) (e c dir rdir srcva perm : ℕ) : Type 0 where
  pub free : FreeOk k
  pub sender : k.curenv ≡ some c
  pub dir_of : (k.envs c).env_pgdir ≡ some dir
  pub space : SpaceOk k dir srcva
  pub rdir_of : (k.envs e).env_pgdir ≡ some rdir
  pub rspace : SpaceOk k rdir (k.envs e).env_ipc_dstva
  pub page : mapped k dir srcva ≡ true → PageOk k (ppn (pte k dir srcva)) perm

-- What a send to a receiver promises. An error changes nothing but the TLB.
abbrev pub Sent : Kern → (e c dir rdir value srcva perm r : ℕ) → Kern → Type 0
Sent k e c dir rdir value srcva perm r k' =
    ((r ≡ 0)
      × Delivered k e c value perm k'
      × (mapped k dir srcva ≡ true
          → va2pa rdir (k.envs e).env_ipc_dstva k' ≡ some (page2pa (ppn (pte k dir srcva)), k')))
    ⊎ ((r ≡ e_inval)
        × (mapped k dir srcva ≡ true)
        × (has_table k rdir (k.envs e).env_ipc_dstva ≡ false)
        × (k.page_free_list ≡ [])
        × (k' ≡ flushed k (k.envs e).env_ipc_dstva))

delivers :
    (k k1 : Kern) (e c dir rdir value srcva perm : ℕ)
    → k1.envs ≡ k.envs
    → (mapped k dir srcva ≡ true
        → va2pa rdir (k.envs e).env_ipc_dstva k1 ≡ some (page2pa (ppn (pte k dir srcva)), k1))
    → Returns (Sent k e c dir rdir value srcva perm) (deliver e c value perm k1)
delivers k k1 e c dir rdir value srcva perm same at =
    mono (deliver e c value perm k1) (deliver_lem k1 e c value perm) λ r k' (z, d, m, n). inl (
      z,
      record {
        status = d.status;
        recving = d.recving;
        value_set = d.value_set;
        from = ground (arith, d.from);
        perm_set = d.perm_set;
        named = ground (arith, d.named);
        others = λ j ne. ground (arith, d.others j ne);
      },
      λ h.
          va2pa-frame k1 k' rdir (k.envs e).env_ipc_dstva (page2pa (ppn (pte k dir srcva))) m n
            (at h),
    )

finish :
    (k : Kern) (e c dir rdir value srcva perm : ℕ)
    → mapped k dir srcva ≡ true
    → (r : ℕ) (k1 : Kern)
    → Inserted k rdir (ppn (pte k dir srcva)) (k.envs e).env_ipc_dstva perm r k1
    → Returns
        (Sent k e c dir rdir value srcva perm)
        ((if not (r == 0) then pure e_inval else deliver e c value perm) k1)
finish k e c dir rdir value srcva perm m r k1 (f, n, inl (z, at, _, _)) =
    rw z (delivers k k1 e c dir rdir value srcva perm n.envs (λ _. at))
finish k e c dir rdir value srcva perm m r k1 (f, n, inr (z, t, l, same)) =
    rw z (inr (refl, m, t, l, same))

-- The page at `srcva` is mapped for the receiver, and the message follows if that succeeds.
send_page :
    (k : Kern) (e c dir rdir value srcva perm : ℕ)
    → SendOk k e c dir rdir srcva perm
    → mapped k dir srcva ≡ true
    → Returns (Sent k e c dir rdir value srcva perm) (transfer e c value srcva perm k)
unfolding transfer
send_page k e c dir rdir value srcva perm s m =
    let dstva : ℕ = (k.envs e).env_ipc_dstva in
    let page : ℕ = ppn (pte k dir srcva) in
    rw (pgdir_of-some k c dir s.dir_of, ◌>>=◌)
      (rw (page_lookup-mapped k dir srcva s.space m, ◌>>=◌)
        (rw (pgdir_of-some k e rdir s.rdir_of, ◌>>=◌)
          (bind (Sent k e c dir rdir value srcva perm) (page_insert rdir page dstva perm k)
            (λ r. if not (r == 0) then pure e_inval else deliver e c value perm)
            (page_insert_lem k rdir page dstva perm s.free s.rspace (s.page m))
            (finish k e c dir rdir value srcva perm m))))

-- Behind the guards: the page that goes with the message, and the message.
send :
    (k : Kern) (e c dir rdir value srcva perm : ℕ)
    → SendOk k e c dir rdir srcva perm
    → Returns (Sent k e c dir rdir value srcva perm) (transfer e c value srcva perm k)
unfolding transfer
send k e c dir rdir value srcva perm s = elim (Bool-cases (mapped k dir srcva)) [
  | inl m ↦ send_page k e c dir rdir value srcva perm s m
  | inr m ↦
      rw (pgdir_of-some k c dir s.dir_of, ◌>>=◌)
        (rw (page_lookup-unmapped k dir srcva s.space m, ◌>>=◌)
          (delivers k k e c dir rdir value srcva perm refl (λ h. absurd (ground arith))))
]

-- What `sys_ipc_can_send` promises.
abbrev pub Sends : Kern → (c dir rdir envid value srcva perm r : ℕ) → Kern → Type 0
Sends k c dir rdir envid value srcva perm r k' =
    (((utop ≤ srcva) ⊎ (Known k envid → ⊥)) × (r ≡ e_inval) × (k' ≡ k))
    ⊎ ((srcva < utop)
        × Known k envid
        × ((k.envs (envx envid)).env_ipc_recving ≡ 0)
        × (r ≡ e_ipc_not_recv)
        × (k' ≡ k))
    ⊎ ((srcva < utop)
        × Known k envid
        × ((k.envs (envx envid)).env_ipc_recving ≢ 0)
        × Sent k (envx envid) c dir rdir value srcva perm r k')

-- `sys_ipc_can_send` to a nonzero identifier, with well-formed spaces of sender and receiver, does not
-- panic. An address from UTOP on or an unknown identifier is E_INVAL, and an environment that does not
-- wait is E_IPC_NOT_RECV: then nothing changes. Below UTOP, to a known environment that waits, the
-- message arrives: the receiver can run, waits no more, and has the value, the sender's identifier and
-- the permissions; no other environment changes, and a page that is mapped at `srcva` for the sender
-- is mapped at the address that the receiver asked for. The one other outcome is E_INVAL where a page
-- is sent and no page is free for the receiver's missing page table: then nothing but the TLB changes.
pub sys_ipc_can_send_lem :
    (k : Kern) (c dir rdir envid value srcva perm : ℕ)
    → envid ≢ 0
    → SendOk k (envx envid) c dir rdir srcva perm
    → Returns
        (Sends k c dir rdir envid value srcva perm)
        (sys_ipc_can_send envid value srcva perm k)
unfolding sys_ipc_can_send deref
sys_ipc_can_send_lem k c dir rdir envid value srcva perm ne s = elim (Bool-cases (leb utop srcva)) [
  | inl high ↦ rw high (inl (inl (ground arith), refl, refl))
  | inr low ↦ elim (envid2env-cases k envid ne) [
    | inr (no', eq) ↦ rw (low, eq, ◌>>=◌) (inl (inr no', refl, refl))
    | inl (yes', eq) ↦ elim (Bool-cases ((k.envs (envx envid)).env_ipc_recving == 0)) [
      | inl idle ↦
          rw (low, eq, ◌>>=◌, idle)
            (inr (inl (ground (arith, low), yes', ground arith, refl, refl)))
      | inr waits ↦
          rw (low, eq, ◌>>=◌, waits, current-some k c s.sender)
            (mono (transfer (envx envid) c value srcva perm k)
              (send k (envx envid) c dir rdir value srcva perm s)
              (λ r k' h. inr (inr (ground (arith, low), yes', ground arith, h))))
    ]
  ]
]
