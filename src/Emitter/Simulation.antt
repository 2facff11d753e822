-- ===== src/Emitter/Simulation.antt =====
-- Runs that do the same up to a change of their results, and records of other identifiers.
use goreplay.Base.{
  ◌≡◌, ◌≢◌, refl, sym, subst, false, Bytes, Outcome, done, panic, timeout, ◌>>=◌, List, ◌∷◌,
  Bool-cases, inl, inr, equal, equal_iff,
}
use goreplay.Protocol.{payload_meta}

abbrev pub over {ℓ} : {A : Type ℓ} → (A → A) → Outcome A → Outcome A
over f m = m >>= λ a. done (f a)

abbrev pub Keeps : {A : Type 0} → (A → Type 0) → Outcome A → Type 0
Keeps K (done a) = K a
Keeps K panic = Unit
Keeps K timeout = Unit

-- A run that does the same up to a change of its result, and a property of that result.
abbrev pub Sim : {A : Type 0} → (A → A) → (A → Type 0) → Outcome A → Outcome A → Type 0
Sim f K m' m = (m' ≡ over f m) × Keeps K m

pub bind-Sim :
    {A B : Type 0} (f : B → B) (K : B → Type 0) (m : Outcome A) (g' g : A → Outcome B)
    → ((a : A) → Sim f K (g' a) (g a))
    → Sim f K (m >>= g') (m >>= g)
bind-Sim f K (done a) g' g h = h a
bind-Sim f K panic g' g h = (refl, tt)
bind-Sim f K timeout g' g h = (refl, tt)

pub Sim-bind :
    {A B : Type 0} (f : A → A) (K : A → Type 0) (f' : B → B) (K' : B → Type 0) (m' m : Outcome A)
    (g' g : A → Outcome B)
    → Sim f K m' m
    → ((a : A) → K a → Sim f' K' (g' (f a)) (g a))
    → Sim f' K' (m' >>= g') (m >>= g)
Sim-bind f K f' K' m' m g' g (e, k) h = subst (λ u. Sim f' K' (u >>= g') (m >>= g)) (sym e) (go m k)
  where
    go : (o : Outcome _) → Keeps K o → Sim f' K' (over f o >>= g') (o >>= g)
    go (done a) j = h a j
    go panic j = (refl, tt)
    go timeout j = (refl, tt)

-- Records of another identifier.
abbrev pub IsOther : Bytes → Bytes → Type 0
IsOther uuid payload =
    (a id b : Bytes) (more : List Bytes) → payload_meta payload ≡ a ∷ (id ∷ (b ∷ more)) → id ≢ uuid

pub equal-false : (a b : Bytes) → a ≢ b → equal a b ≡ false
equal-false a b ne = elim (Bool-cases (equal a b)) [
  | inl h ↦ absurd (ne ((equal_iff a b).0 h))
  | inr h ↦ h
]
