-- ===== src/Fd/Readn.antt =====
-- user/fd.c: `readn` on a device that keeps to the number of bytes asked.
use buaa_mips_os.Base.{
  ℕ, zero, suc, ◌+◌, ◌-◌, ◌≤◌, ◌<◌, ◌≡◌, refl, ap, ◌∙◌, true, false, some, List, ◌==◌, leb,
  if◌then◌else◌, arith, update, Bool-cases, inl, inr,
}
use mathlib.Core.Path.{subst}
use buaa_mips_os.Base.Words.{u32}
use buaa_mips_os.Fs.{Code, ok, fail}
use buaa_mips_os.Fd.{
  Process, Dev, P, ◌>>=◌, done, maxfd, accmode, o_wronly, dev_lookup, read, read_at, readn,
  readn_from, after_read,
}
use buaa_mips_os.Fd.Access.{on_page, opened, opened-page, with_dev-some}

abbrev pub AtMost : ℕ → Code → Type 0
AtMost n (ok m) = m ≤ n
AtMost n (fail e) = Unit {0}

module _ {W : Type 0} where
  abbrev pub KeepsTable : Process W → Process W → Type 0
  KeepsTable s s' = (s'.vpd ≡ s.vpd) × (s'.page ≡ s.page) × (s'.fds ≡ s.fds)

  -- A device whose read of a descriptor with an Fd page returns, gives at most the bytes asked, and keeps
  -- the descriptors.
  abbrev pub IsReader : Dev W → Type 0
  IsReader d =
      (fdnum p buf n offset : ℕ) (s : Process W)
      → s.page fdnum ≡ some p
      → (r : Code) × (s' : Process W) × (d.dev_read fdnum buf n offset s ≡ some (r, s'))
        × KeepsTable s s'
        × AtMost n r

  module _ (devtab : List (Dev W)) (fdnum p : ℕ) (d : Dev W) where
    -- The descriptor is open for reading, at an offset.
    pub record IsOpen (s : Process W) (offset : ℕ) : Type 0 where
      pub range : leb maxfd fdnum ≡ false
      pub dir : s.vpd ≡ true
      pub page : s.page fdnum ≡ some p
      pub device : dev_lookup devtab (s.fds p).fd_dev_id ≡ some d
      pub readable : (accmode (s.fds p).fd_omode == o_wronly) ≡ false
      pub at : (s.fds p).fd_offset ≡ offset

    is_opened : (s : Process W) (offset : ℕ) → IsOpen s offset → opened devtab s fdnum ≡ some (p, d)
    is_opened s offset h =
        opened-page devtab s fdnum h.range h.page ∙ ap (on_page devtab p) h.device

    -- What a read that gives `r` leaves of a descriptor that stood at an offset.
    abbrev pub Advances : Process W → ℕ → Code → Type 0
    Advances s offset (ok m) = IsOpen s (u32 (offset + m))
    Advances s offset (fail e) = Unit {0}

    IsOpen-keeps :
        (s s' : Process W) (offset : ℕ) → KeepsTable s s' → IsOpen s offset → IsOpen s' offset
    IsOpen-keeps s s' offset (v, g, f) h = record {
      range = h.range;
      dir = v ∙ h.dir;
      page = ap (λ t. t fdnum) g ∙ h.page;
      device = ap (λ t. dev_lookup devtab (t p).fd_dev_id) f ∙ h.device;
      readable = ap (λ t. accmode (t p).fd_omode == o_wronly) f ∙ h.readable;
      at = ap (λ t. (t p).fd_offset) f ∙ h.at;
    }

    -- The state behind the update of the offset.
    abbrev advanced : Process W → ℕ → ℕ → Process W
    advanced s buf m = record s {
      fds = update s.fds p (record (s.fds p) { fd_offset = u32 ((s.fds p).fd_offset + m) });
      mem = update s.mem (buf + m) 0;
    }

    IsOpen-advanced :
        (s : Process W) (offset buf m : ℕ)
        → IsOpen s offset
        → IsOpen (advanced s buf m) (u32 (offset + m))
    IsOpen-advanced s offset buf m h =
        let same : (p == p) ≡ true = ground arith in
        record {
          range = h.range;
          dir = h.dir;
          page = h.page;
          device = rw same h.device;
          readable = rw same h.readable;
          at = rw same (ap (λ o. u32 (o + m)) h.at);
        }

    -- Behind the device's read.
    after_read_lem :
        (s : Process W) (offset buf n : ℕ) (r : Code)
        → IsOpen s offset
        → AtMost n r
        → (s' : Process W) × (after_read devtab p buf r s ≡ some (r, s')) × Advances s' offset r
    unfolding after_read
    after_read_lem s offset buf n (fail e) h most = (s, refl, tt)
    after_read_lem s offset buf n (ok m) h most =
        (advanced s buf m, refl, IsOpen-advanced s offset buf m h)

    read_at-ran :
        (s s1 : Process W) (offset buf n : ℕ) (r : Code)
        → IsOpen s offset
        → d.dev_read fdnum buf n (s.fds p).fd_offset s ≡ some (r, s1)
        → read_at devtab fdnum buf n p d s ≡ after_read devtab p buf r s1
    unfolding read_at
    read_at-ran s s1 offset buf n r h ran = rw (h.readable, ◌>>=◌, ran) refl

    read_lem :
        (s : Process W) (offset buf n : ℕ)
        → IsReader d
        → IsOpen s offset
        → (r : Code) × (s' : Process W) × (read devtab fdnum buf n s ≡ some (r, s'))
          × Advances s' offset r
          × AtMost n r
    unfolding read
    read_lem s offset buf n reader h =
        let (r, s1, ran, keeps, most) = reader fdnum p buf n (s.fds p).fd_offset s h.page in
        let (s', after, adv) =
          after_read_lem s1 offset buf n r (IsOpen-keeps s s1 offset keeps h) most in
        (
          r,
          s',
          with_dev-some devtab s fdnum (read_at devtab fdnum buf n) p d h.dir (is_opened s offset h)
              ∙ read_at-ran s s1 offset buf n r h ran
              ∙ after,
          adv,
          most,
        )

    -- What `readn` says when it began at an offset, of `n` bytes.
    abbrev pub ReadnSays : ℕ → ℕ → Code → Process W → Type 0
    ReadnSays offset n (ok m) s' = (m ≤ n) × IsOpen s' (u32 (offset + m))
    ReadnSays offset n (fail e) s' = Unit {0}

    -- One round of `readn`, with the rest of the loop given.
    after_round :
        (fuel : ℕ) (s : Process W) (offset buf tot left : ℕ) (r : Code)
        → ((m : ℕ)
            → suc left - m ≤ fuel
            → IsReader d
            → IsOpen s (u32 (offset + (tot + m)))
            → (r' : Code) × (s' : Process W) × (readn_from devtab fuel fdnum buf
                  (tot + m)
                  (suc left - m)
                  s
                ≡ some (r', s'))
              × ReadnSays offset (tot + m + (suc left - m)) r' s')
        → suc left ≤ suc fuel
        → IsReader d
        → Advances s (u32 (offset + tot)) r
        → AtMost (suc left) r
        → (r' : Code) × (s' : Process W) × ((let m : P W Code = elim r [
          | fail e ↦ done (fail e)
          | ok m ↦
              if m == 0
              then done (ok tot)
              else readn_from devtab fuel fdnum buf (tot + m) (suc left - m)
        ] in
              m s)
            ≡ some (r', s'))
          × ReadnSays offset (tot + suc left) r' s'
    after_round fuel s offset buf tot left (fail e) rest k reader adv most = (fail e, s, refl, tt)
    after_round fuel s offset buf tot left (ok m) rest k reader adv most =
        elim (Bool-cases (m == 0)) [
          | inl e ↦
              (ok tot, s, rw e refl, (omega arith, subst (λ o. IsOpen s o) (ground (arith, e)) adv))
          | inr e ↦
              let (r', s', ran, says) =
                rest m (ground (arith, e, k)) reader (subst (λ o. IsOpen s o) (omega arith) adv) in
              (r', s', rw e ran, subst (λ t. ReadnSays offset t r' s') (omega (arith, most)) says)
        ]

    readn_from_lem :
        (fuel : ℕ) (s : Process W) (offset buf tot left : ℕ)
        → left ≤ fuel
        → IsReader d
        → IsOpen s (u32 (offset + tot))
        → (r : Code) × (s' : Process W) × (readn_from devtab fuel fdnum buf tot left s
            ≡ some (r, s'))
          × ReadnSays offset (tot + left) r s'
    unfolding readn_from
    readn_from_lem fuel s offset buf tot zero k reader h = (ok tot, s, refl, (omega arith, h))
    readn_from_lem zero s offset buf tot (suc left) k reader h = absurd (omega arith)
    readn_from_lem (suc fuel) s offset buf tot (suc left) k reader h =
        let (r, s1, ran, adv, most) =
          read_lem s (u32 (offset + tot)) (buf + tot) (suc left) reader h in
        let (r', s', next, says) =
          after_round fuel s1 offset buf tot left r
            (λ m. readn_from_lem fuel s1 offset buf (tot + m) (suc left - m)) k reader adv most in
        (r', s', rw (ran, ◌>>=◌) next, says)

    -- On a device that gives at most what is asked, `readn` of an open descriptor always returns. Unless
    -- the device reports an error, it has read at most `n` bytes, and the offset has moved by as many.
    pub readn_lem :
        (s : Process W) (offset buf n : ℕ)
        → offset < 0x1_0000_0000
        → IsReader d
        → IsOpen s offset
        → (r : Code) × (s' : Process W) × (readn devtab fdnum buf n s ≡ some (r, s'))
          × ReadnSays offset n r s'
    unfolding readn
    readn_lem s offset buf n small reader h =
        let (r, s', ran, says) =
          readn_from_lem n s offset buf 0 n (omega arith) reader
            (subst (λ o. IsOpen s o) (omega arith) h) in
        (r, s', ran, subst (λ k. ReadnSays offset k r s') (omega arith) says)
