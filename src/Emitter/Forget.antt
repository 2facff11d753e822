-- ===== src/Emitter/Forget.antt =====
-- The map of dropped requests without one identifier.
use mathlib.Core.Option.{some-injective}
use goreplay.Base.{
  ℕ, ◌-◌, ◌≡◌, refl, ap, ◌∙◌, false, Bytes, some, [], ◌∷◌, ltb, Bool-cases, inl, inr, equal,
  equal_iff,
}
use goreplay.Tcp.Store.{Map, lookup, delete, store}
use goreplay.Emitter.{minute, forget_old}

pub lookup-delete_other :
    (m : Map) (a b : Bytes) → equal a b ≡ false → lookup (delete m a) b ≡ lookup m b
unfolding lookup delete
lookup-delete_other [] a b ne = refl
lookup-delete_other ((k, v) ∷ m) a b ne = elim (Bool-cases (equal k a)) [
  | inl h ↦
      (let same : equal k b ≡ false = ap (λ u. equal u b) ((equal_iff k a).0 h) ∙ ne in
        rw (h, same) (lookup-delete_other m a b ne))
  | inr h ↦ rw h (elim (Bool-cases (equal k b)) [
    | inl h' ↦ rw h' refl
    | inr h' ↦ rw h' (lookup-delete_other m a b ne)
  ])
]

pub delete-delete : (m : Map) (a b : Bytes) → delete (delete m a) b ≡ delete (delete m b) a
unfolding delete
delete-delete [] a b = refl
delete-delete ((k, v) ∷ m) a b = elim (Bool-cases (equal k a)) [
  | inl h ↦ elim (Bool-cases (equal k b)) [
    | inl h' ↦ simp (h, h') (delete-delete m a b)
    | inr h' ↦ simp (h, h') (delete-delete m a b)
  ]
  | inr h ↦ elim (Bool-cases (equal k b)) [
    | inl h' ↦ simp (h, h') (delete-delete m a b)
    | inr h' ↦ simp (h, h') (ap (◌∷◌ (k, v)) (delete-delete m a b))
  ]
]

pub forget_old-delete :
    (now : ℕ) (m : Map) (k : Bytes) → forget_old now (delete m k) ≡ delete (forget_old now m) k
unfolding forget_old delete
forget_old-delete now [] k = refl
forget_old-delete now ((a, time) ∷ m) k = elim (Bool-cases (equal a k)) [
  | inl h ↦ elim (Bool-cases (ltb minute (now - time))) [
    | inl old ↦ simp (h, old) (forget_old-delete now m k)
    | inr young ↦ simp (h, young) (forget_old-delete now m k)
  ]
  | inr h ↦ elim (Bool-cases (ltb minute (now - time))) [
    | inl old ↦ simp (h, old) (forget_old-delete now m k)
    | inr young ↦ simp (h, young) (ap (◌∷◌ (a, time)) (forget_old-delete now m k))
  ]
]

pub lookup-forget_old :
    (now t : ℕ) (m : Map) (k : Bytes)
    → ltb minute (now - t) ≡ false
    → lookup m k ≡ some t
    → lookup (forget_old now m) k ≡ some t
unfolding forget_old lookup
lookup-forget_old now t [] k young e = cc
lookup-forget_old now t ((a, time) ∷ m) k young e = elim (Bool-cases (equal a k)) [
  | inl h ↦
      (let found : some time ≡ some t = rw h at e in
        let same : time ≡ t = some-injective time t found in
        let fresh : ltb minute (now - time) ≡ false = ap (λ u. ltb minute (now - u)) same ∙ young in
        rw fresh (rw h found))
  | inr h ↦ elim (Bool-cases (ltb minute (now - time))) [
    | inl old ↦ rw old (lookup-forget_old now t m k young (rw h at e))
    | inr stays ↦ rw stays (rw h (lookup-forget_old now t m k young (rw h at e)))
  ]
]

pub store-delete :
    (m : Map) (id uuid : Bytes) (now : ℕ)
    → equal id uuid ≡ false
    → store (delete m uuid) id now ≡ delete (store m id now) uuid
unfolding store delete
store-delete m id uuid now ne = rw ne (ap (◌∷◌ (id, now)) (delete-delete m uuid id))

pub lookup-store_other :
    (m : Map) (id uuid : Bytes) (now : ℕ)
    → equal id uuid ≡ false
    → lookup (store m id now) uuid ≡ lookup m uuid
unfolding store lookup
lookup-store_other m id uuid now ne = rw ne (lookup-delete_other m id uuid ne)
