-- ===== src/Pmap/Returns.antt =====
-- Total correctness of kernel code: it does not panic, and its result and state meet a predicate.
use buaa_mips_os.Base.{Option, none, some}
use buaa_mips_os.Kernel.{Kern, M}

abbrev pub Returns : {A : Type 0} → (A → Kern → Type 0) → Option (A × Kern) → Type 0
Returns P none = ⊥
Returns P (some (a, k)) = P a k

pub mono :
    {A : Type 0} {P Q : A → Kern → Type 0} (r : Option (A × Kern))
    → Returns P r
    → ((a : A) (k : Kern) → P a k → Q a k)
    → Returns Q r
mono none h weaken = h
mono (some (a, k)) h weaken = weaken a k h

-- Code in sequence.
pub bind :
    {A B : Type 0} {P : A → Kern → Type 0} (Q : B → Kern → Type 0) (r : Option (A × Kern))
    (f : A → M B)
    → Returns P r
    → ((a : A) (k : Kern) → P a k → Returns Q (f a k))
    → Returns Q (elim r [ none ↦ none | some (a, k) ↦ f a k ])
bind Q none f h next = h
bind Q (some (a, k)) f h next = next a k h
