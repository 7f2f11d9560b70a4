-- ===== src/Memoria/Tabla/Sondeo.antt =====
-- The walk `sondear` over the page table: what it finds, that it misses nothing in one round, and
-- when a change of a row leaves it alone.
use native.Mathlib.Decide.{dec_lt, ℕ_discrete}
use native.Mathlib.Nat.{mod-eq_of_lt, add-mod_left}
use so_commons.Base.{
  ℕ, zero, suc, ◌+◌, ◌-◌, ◌%◌, ◌≤◌, ◌<◌, ◌≡◌, refl, ◌≢◌, ap, ◌∙◌, ==_iff, inl, inr, Bool, true,
  false, none, some, List, arith, ◌==◌, Bool-cases, Option-cases, if◌then◌else◌, get_elem?, set,
  length, get_elem?_lt, get_elem?-some, get_elem?-set_self, get_elem?-set_ne,
}
use so_commons.Memoria.{RegistroMarcoPagina}
use so_commons.Memoria.Tabla.{sondear}

-- Where the round goes on: past the last frame comes frame 0.
abbrev vuelta : ℕ → ℕ → ℕ
vuelta marcos k = if k == marcos then 0 else k

vuelta-lt : (marcos k : ℕ) → 0 < marcos → k ≤ marcos → vuelta marcos k < marcos
vuelta-lt marcos k p h = ground arith

vuelta-mod : (marcos k j : ℕ) → 0 < marcos → (vuelta marcos k + j) % marcos ≡ (k + j) % marcos
vuelta-mod marcos k j p = elim (Bool-cases (k == marcos)) [
  | inl e ↦ rw (e, (==_iff k marcos).0 e, add-mod_left) (ap (λ t. t % marcos) (omega arith))
  | inr e ↦ rw e
]

module _ (prueba : RegistroMarcoPagina → Bool) where
  -- What is found passes the test.
  pub sondear-some :
      (tabla : List RegistroMarcoPagina) (marcos rondas k : ℕ) {f : ℕ}
      → sondear prueba tabla marcos rondas k ≡ some (some f)
      → (r : RegistroMarcoPagina) × (get_elem? tabla f ≡ some r) × (prueba r ≡ true)
  unfolding sondear
  sondear-some tabla marcos zero k h = ground arith
  sondear-some tabla marcos (suc n) k {f} h =
      let i = if k == marcos then 0 else k in
      elim (Option-cases (get_elem? tabla i)) [
        | inl e ↦ absurd (ground arith)
        | inr (r, e) ↦ elim (Bool-cases (prueba r)) [
          | inl t ↦ (r, ground arith, t)
          | inr t ↦ sondear-some tabla marcos n (suc i) (ground arith)
        ]
      ]

  -- The walk stays inside the table.
  pub sondear-ne-none :
      (tabla : List RegistroMarcoPagina) (marcos rondas k : ℕ)
      → 0 < marcos
      → marcos ≤ length tabla
      → k ≤ marcos
      → sondear prueba tabla marcos rondas k ≢ none
  unfolding sondear
  sondear-ne-none tabla marcos zero k p l h = λ e. ground arith
  sondear-ne-none tabla marcos (suc n) k p l h =
      let i = if k == marcos then 0 else k in
      let x = get_elem?-some tabla i (ground arith) in
      λ e. ground (arith, x.1, sondear-ne-none tabla marcos n (suc i))

  -- Where `rondas` rounds from `k` find nothing, the rows at `k`, `k + 1`, … fail the test.
  sondear-fails :
      (tabla : List RegistroMarcoPagina) (marcos rondas k j : ℕ) {r : RegistroMarcoPagina}
      → 0 < marcos
      → k ≤ marcos
      → sondear prueba tabla marcos rondas k ≡ some none
      → j < rondas
      → get_elem? tabla ((k + j) % marcos) ≡ some r
      → prueba r ≡ false
  unfolding sondear
  sondear-fails tabla marcos zero k j p h e l g = absurd (omega arith)
  sondear-fails tabla marcos (suc n) k zero {r} p h e l g =
      let i = vuelta marcos k in
      ground
        (arith, vuelta-lt marcos k, vuelta-mod marcos k 0, mod-eq_of_lt {n = i + 0} {m = marcos})
  sondear-fails tabla marcos (suc n) k (suc j) {r} p h e l g =
      let i = vuelta marcos k in
      let same : (suc i + j) % marcos ≡ (k + suc j) % marcos =
        ap (λ t. t % marcos) (omega arith) ∙ vuelta-mod marcos k (suc j) p in
      sondear-fails tabla marcos n (suc i) j p (vuelta-lt marcos k p h) (ground arith) (omega arith)
        (rw same g)

  -- A whole round that finds nothing has seen every row.
  pub sondear_complete :
      (tabla : List RegistroMarcoPagina) (marcos k f : ℕ) {r : RegistroMarcoPagina}
      → k < marcos
      → f < marcos
      → sondear prueba tabla marcos marcos k ≡ some none
      → get_elem? tabla f ≡ some r
      → prueba r ≡ false
  sondear_complete tabla marcos k f hk hf e g = elim (dec_lt f k) [
    | yes l ↦
        let same : (k + (f + marcos - k)) % marcos ≡ f =
          ap (λ t. t % marcos) (omega arith) ∙ add-mod_left marcos f ∙ mod-eq_of_lt hf in
        sondear-fails tabla marcos marcos k (f + marcos - k) (omega arith) (omega arith) e
          (omega arith) (rw same g)
    | no l ↦
        let same : (k + (f - k)) % marcos ≡ f =
          ap (λ t. t % marcos) (omega arith) ∙ mod-eq_of_lt hf in
        sondear-fails tabla marcos marcos k (f - k) (omega arith) (omega arith) e (omega arith)
          (rw same g)
  ]

  -- A change of a row that fails the test before and after it changes no search.
  pub sondear-set :
      (tabla : List RegistroMarcoPagina) (marcos rondas k i : ℕ) (v : RegistroMarcoPagina)
      {r : RegistroMarcoPagina}
      → get_elem? tabla i ≡ some r
      → prueba r ≡ false
      → prueba v ≡ false
      → sondear prueba (set tabla i v) marcos rondas k ≡ sondear prueba tabla marcos rondas k
  unfolding sondear
  sondear-set tabla marcos zero k i v g o n = refl
  sondear-set tabla marcos (suc m) k i v g o n =
      let d = vuelta marcos k in
      let rest = sondear-set tabla marcos m (suc d) i v g o n in
      elim (ℕ_discrete i d) [
        | yes e ↦ ground (arith, rest, get_elem?-set_self tabla i v (get_elem?_lt tabla i g))
        | no e ↦ ground (arith, rest, get_elem?-set_ne tabla i d v e)
      ]
