-- ===== src/Base/Keeps.antt =====
-- Code on a state, with `none` for a fault: what it leaves alone, as a property of its parts.
use mathlib.Core.Path.{◌≡◌, refl, sym, ap, ◌∙◌}
use mathlib.Core.Option.{Option, none, some}

-- Code that does not change what a view shows of the state.
pub record Keeps {St X A : Type 0} (view : St → X) (m : St → Option (A × St)) : Type 0 where
  pub keeps : (s : St) (a : A) (s' : St) → m s ≡ some (a, s') → view s' ≡ view s

-- The first code, and then the second.
abbrev pub in_turn :
    {St A B : Type 0} → (St → Option (A × St)) → (A → St → Option (B × St)) → St → Option (B × St)
in_turn m f s = elim (m s) [ none ↦ none | some (a, s') ↦ f a s' ]

-- A run of a sequence is a run of its first part and then of its second.
pub split_bind :
    {St A B : Type 0} (o : Option (A × St)) (f : A → St → Option (B × St)) (b : B) (s' : St)
    → elim o as (λ _. Option (B × St)) [ none ↦ none | some (a, s1) ↦ f a s1 ] ≡ some (b, s')
    → (a : A) × (s1 : St) × (o ≡ some (a, s1)) × (f a s1 ≡ some (b, s'))
split_bind none f b s' h = absurd (cc)
split_bind (some (a, s1)) f b s' h = (a, s1, refl, h)

module _ {St X : Type 0} {view : St → X} where
  pub Keeps-bind :
      {A B : Type 0} (m : St → Option (A × St)) (f : A → St → Option (B × St))
      → Keeps view m
      → ((a : A) → Keeps view (f a))
      → Keeps view (in_turn m f)
  Keeps-bind m f h k = record {
    keeps = λ s b s' run.
        let (a, s1, first, second) = split_bind (m s) f b s' run in
        (k a).keeps s1 b s' second ∙ h.keeps s a s1 first;
  }

  pub Keeps-set :
      (f : St → St)
      → ((s : St) → view (f s) ≡ view s)
      → Keeps {A = Unit {0}} view (λ s. some (tt, f s))
  Keeps-set f h = record { keeps = λ s a s' run. let e : f s ≡ s' = cc in ap view (sym e) ∙ h s }

  pub Keeps-state : Keeps view (λ s. some (s, s))
  Keeps-state = record { keeps = λ s a s' run. let e : s ≡ s' = cc in ap view (sym e) }

  pub Keeps-done : {A : Type 0} (a : A) → Keeps view (λ s. some (a, s))
  Keeps-done a = record { keeps = λ s b s' run. let e : s ≡ s' = cc in ap view (sym e) }

  pub Keeps-fault : {A : Type 0} → Keeps {A = A} view (λ s. none)
  Keeps-fault = record { keeps = λ s a s' run. absurd (cc) }
