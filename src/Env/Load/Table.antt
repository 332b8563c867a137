-- ===== src/Env/Load/Table.antt =====
-- A page is mapped at an address whose table is there.
use buaa_mips_os.Base.{
  ℕ, ◌<◌, ◌≡◌, refl, true, false, ◌&&◌, none, some, ◌==◌, if◌then◌else◌, Bool-cases, inl, inr,
  arith,
}
use buaa_mips_os.Kernel.{Kern}
use buaa_mips_os.Pmap.{pdx, ptx, ppn, pte_v, is_set}
use buaa_mips_os.Pmap.Walk.{has_table}
use buaa_mips_os.Pmap.Remove.{SpaceOk, mapped}
use buaa_mips_os.Pmap.Entry.{entry, entry_fields, PageOk, entered, entered-Inserted}
use buaa_mips_os.Pmap.Vm.Entry.{entry_at}
use buaa_mips_os.Env.{pdx_utop}
use buaa_mips_os.Env.Load.Space.{TablesOk, Outside, UserOk, Spares, entry_at-mapped, UserOk-SpaceOk}

-- One more page is mapped.
pub record Maps (k : Kern) (pgdir d t w : ℕ) (k' : Kern) : Type 0 where
  pub tables : TablesOk k' pgdir
  pub spares : Spares k pgdir k'
  pub entries :
      (d' t' : ℕ)
      → d' < pdx_utop
      → t' < 1024
      → entry_at k' pgdir d' t'
        ≡ (if (d' == d) && (t' == t) then some w else entry_at k pgdir d' t')
  pub envs : k'.envs ≡ k.envs
  pub size : k'.npage ≡ k.npage

module _ (k : Kern) (pgdir pp va perm : ℕ) (u : UserOk k pgdir) (out : Outside k pgdir pp)
    (g : PageOk k pp perm) (lt : pdx va < pdx_utop)
    (none_there : entry_at k pgdir (pdx va) (ptx va) ≡ none) where
  pub free_here : mapped k pgdir va ≡ false
  free_here = entry_at-mapped k pgdir va none_there

  pub space : SpaceOk k pgdir va
  space = UserOk-SpaceOk k pgdir va u.tables lt free_here

  pub e_v : is_set (entry pp perm) pte_v ≡ true
  e_v = (entry_fields pp perm (omega (arith, g.exists, u.tables.free.small)) g.flags).0

  -- The table is there.
  module _ (here : has_table k pgdir va ≡ true) where
    abbrev k1 : Kern
    k1 = entered k pgdir pp va perm space

    entered-dir : (i : ℕ) → k1.mem pgdir i ≡ k.mem pgdir i
    entered-dir i = ground (arith, u.tables.other (pdx va) lt here)

    entered-entries :
        (d t : ℕ)
        → d < pdx_utop
        → t < 1024
        → entry_at k1 pgdir d t
          ≡ (if (d == pdx va) && (t == ptx va) then some (entry pp perm) else entry_at k pgdir d t)
    entered-entries d t dlt tlt =
        rw (entered-dir d) (elim (Bool-cases (is_set (k.mem pgdir d) pte_v)) [
          | inl set ↦ elim (Bool-cases (d == pdx va)) [
            | inl e ↦ let same : d ≡ pdx va = ground (arith, e) in ground (arith, same, here, e_v)
            | inr e ↦
                let far : (ppn (k.mem pgdir d) == ppn (k.mem pgdir (pdx va))) ≡ false =
                  ground (arith, e, u.tables.apart d (pdx va) dlt lt set here) in
                ground (arith, far, e, set)
          ]
          | inr unset ↦
              let e : (d == pdx va) ≡ false = ground (arith, unset, here) in
              ground (arith, unset, e)
        ])

    pub entered-Maps : Maps k pgdir (pdx va) (ptx va) (entry pp perm) k1
    entered-Maps =
        let o = u.tables in
        record {
          tables = record {
            free = (entered-Inserted k pgdir pp va perm o.free space g free_here here).0;
            dir_used = o.dir_used;
            named = λ d dlt. rw (entered-dir d) (o.named d dlt);
            other = λ d dlt. rw (entered-dir d) (o.other d dlt);
            used = λ d dlt. rw (entered-dir d) (o.used d dlt);
            apart = λ d d' dlt dlt'. rw (entered-dir d, entered-dir d') (o.apart d d' dlt dlt');
          };
          spares = λ p q. (
            record {
              not_dir = q.not_dir;
              not_free = q.not_free;
              not_table = λ d dlt. rw (entered-dir d) (q.not_table d dlt);
            },
            λ i ilt. ground (arith, q.not_table (pdx va) lt here),
          );
          entries = entered-entries;
          envs = refl;
          size = refl;
        }
