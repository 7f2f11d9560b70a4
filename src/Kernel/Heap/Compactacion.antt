-- ===== src/Kernel/Heap/Compactacion.antt =====
-- `compactar` keeps the tiling of a page and the blocks in use, whatever memory answers.
use so_commons.Base.{
  ℕ, zero, suc, ◌+◌, ◌≤◌, ◌≡◌, refl, ◌∙◌, ◌⊎◌, inl, inr, false, ◌&&◌, not, none, some, List, [],
  ◌∷◌, arith, Bool-cases, subst, length, ◌>>=◌, filter,
}
use so_commons.Memoria.{Respuesta, escritura_satisfactoria, error_en_escritura}
use so_commons.Kernel.Heap.{Bloque, metadata_bloque_size, unir, unir_primeros, unir_libres}
use so_commons.Kernel.Heap.Bloques.{Cubre}

-- The blocks in use.
abbrev pub en_uso : List Bloque → List Bloque
en_uso bs = filter (λ b. b.is_used) bs

-- No two free blocks in a row.
abbrev pub SinVecinosLibres : List Bloque → Type 0
SinVecinosLibres [] = Unit
SinVecinosLibres (b ∷ []) = Unit
SinVecinosLibres (b ∷ c ∷ bs) =
    ((not b.is_used && not c.is_used) ≡ false) × SinVecinosLibres (c ∷ bs)

-- One round: nothing to join, or two blocks are joined.
unir_primeros_cases :
    (d fin : ℕ) (bs : List Bloque)
    → Cubre d fin bs
    → ((unir_primeros bs ≡ none) × SinVecinosLibres bs)
      ⊎ ((bs' : List Bloque) × (unir_primeros bs ≡ some bs')
          × Cubre d fin bs'
          × (en_uso bs' ≡ en_uso bs)
          × (length bs ≡ suc (length bs')))
unfolding unir_primeros
unir_primeros_cases d fin [] c = inl (refl, tt)
unir_primeros_cases d fin (b ∷ []) c = inl (refl, tt)
unir_primeros_cases d fin (b ∷ e ∷ bs) c = elim (Bool-cases (not b.is_used && not e.is_used)) [
  | inl t ↦
      let libre1 : b.is_used ≡ false = ground arith in
      let libre2 : e.is_used ≡ false = ground arith in
      inr (
        unir b e ∷ bs,
        rw t refl,
        (c.0, subst (λ z. Cubre z fin bs) (omega arith) c.1.1),
        rw (libre1, libre2) refl,
        refl,
      )
  | inr t ↦ elim (unir_primeros_cases (d + b.size + metadata_bloque_size) fin (e ∷ bs) c.1) [
    | inl (q, s) ↦ inl (ground (arith, q, t), (t, s))
    | inr (xs, q, k, u, l) ↦
        inr (b ∷ xs, ground (arith, q, t), (c.0, k), ground (arith, u), omega (arith, l))
  ]
]

-- What the joins leave of blocks that tile a stretch: they tile it still, with the same blocks in
-- use, and one less for each join.
abbrev pub Compactado : ℕ → ℕ → List Bloque → ℕ → List Bloque → Type 0
Compactado d fin bs n bs' =
    Cubre d fin bs' × (en_uso bs' ≡ en_uso bs) × (length bs ≡ n + length bs')

-- The answers that say that a write went well.
abbrev pub escrituras_buenas : ℕ → List Respuesta
escrituras_buenas zero = []
escrituras_buenas (suc n) = escritura_satisfactoria ∷ escrituras_buenas n

abbrev pub ResultadoUnir : ℕ → ℕ → List Respuesta → List Bloque → Type 0
ResultadoUnir d fin rs bs =
    (unir_libres rs bs ≡ none)
    ⊎ ((n : ℕ) × (bs' : List Bloque) × (sobran : List Respuesta) × (unir_libres rs bs
          ≡ some (n, bs', sobran))
        × Compactado d fin bs n bs')

module _ (r : Respuesta) (rs : List Respuesta) (d fin : ℕ) (bs xs : List Bloque)
    (q : unir_primeros bs ≡ some xs) (i : ResultadoUnir d fin rs bs) where
  unir_libres-igual : unir_libres (r ∷ rs) bs ≡ unir_libres rs bs → ResultadoUnir d fin (r ∷ rs) bs
  unir_libres-igual e = elim i [
    | inl z ↦ inl (e ∙ z)
    | inr (n, zs, sobran, z, k) ↦ inr (n, zs, sobran, e ∙ z, k)
  ]

  unir_libres-unido :
      unir_libres (r ∷ rs) bs
        ≡ (unir_libres rs xs >>= λ (n, fin', sobran). some (suc n, fin', sobran))
      → en_uso xs ≡ en_uso bs
      → length bs ≡ suc (length xs)
      → ResultadoUnir d fin rs xs
      → ResultadoUnir d fin (r ∷ rs) bs
  unir_libres-unido e u l j = elim j [
    | inl z ↦ inl (e ∙ rw z refl)
    | inr (n, zs, sobran, z, (k1, u1, l1)) ↦
        inr (suc n, zs, sobran, e ∙ rw z refl, (k1, u1 ∙ u, omega (arith, l, l1)))
  ]

segun_respuesta :
    (r : Respuesta) (rs : List Respuesta) (d fin : ℕ) (bs xs : List Bloque)
    → unir_primeros bs ≡ some xs
    → Cubre d fin bs
    → en_uso xs ≡ en_uso bs
    → length bs ≡ suc (length xs)
    → ResultadoUnir d fin rs bs
    → ResultadoUnir d fin rs xs
    → ResultadoUnir d fin (r ∷ rs) bs
unfolding unir_libres
segun_respuesta error_en_escritura rs d fin bs xs q c u l i j =
    inr (0, bs, rs, rw (q, unir_libres) refl, (c, refl, omega arith))
segun_respuesta escritura_satisfactoria rs d fin bs xs q c u l i j =
    unir_libres-unido escritura_satisfactoria rs d fin bs xs q i (rw (q, unir_libres) refl) u l j
segun_respuesta r rs d fin bs xs q c u l i j =
    unir_libres-igual r rs d fin bs xs q i (rw (q, unir_libres) refl)

-- Whatever memory answers to the writes of `compactar` (refusals, answers that are neither yes nor no),
-- when it ends the blocks tile the same bytes as before, the blocks in use are the same, and each
-- join that it counts made two blocks one. Otherwise it waits for an answer that does not come.
pub unir_libres-Compactado :
    (rs : List Respuesta) (d fin : ℕ) (bs : List Bloque)
    → Cubre d fin bs
    → ResultadoUnir d fin rs bs
unfolding unir_libres
unir_libres-Compactado [] d fin bs c = elim (unir_primeros_cases d fin bs c) [
  | inl (q, s) ↦ inr (0, bs, [], rw (q, unir_libres) refl, (c, refl, omega arith))
  | inr (xs, q, k, u, l) ↦ inl (rw (q, unir_libres) refl)
]
unir_libres-Compactado (r ∷ rs) d fin bs c = elim (unir_primeros_cases d fin bs c) [
  | inl (q, s) ↦ inr (0, bs, r ∷ rs, rw (q, unir_libres) refl, (c, refl, omega arith))
  | inr (xs, q, k, u, l) ↦
      segun_respuesta r rs d fin bs xs q c u l (unir_libres-Compactado rs d fin bs c)
        (unir_libres-Compactado rs d fin xs k)
]

-- With as many good answers as there are blocks, `compactar` ends with no two free blocks in a row, on
-- blocks that tile the same bytes and with the same blocks in use.
pub unir_libres-SinVecinosLibres :
    (m d fin : ℕ) (bs : List Bloque)
    → Cubre d fin bs
    → length bs ≤ m
    → (n : ℕ) × (bs' : List Bloque) × (sobran : List Respuesta) × (unir_libres
          (escrituras_buenas m)
          bs
        ≡ some (n, bs', sobran))
      × Compactado d fin bs n bs'
      × SinVecinosLibres bs'
unfolding unir_libres
unir_libres-SinVecinosLibres zero d fin bs c h = elim (unir_primeros_cases d fin bs c) [
  | inl (q, s) ↦ (0, bs, [], rw (q, unir_libres) refl, (c, refl, omega arith), s)
  | inr (xs, q, k, u, l) ↦ absurd (omega (arith, l, h))
]
unir_libres-SinVecinosLibres (suc m) d fin bs c h = elim (unir_primeros_cases d fin bs c) [
  | inl (q, s) ↦
      (0, bs, escrituras_buenas (suc m), rw (q, unir_libres) refl, (c, refl, omega arith), s)
  | inr (xs, q, k, u, l) ↦
      let i = unir_libres-SinVecinosLibres m d fin xs k (omega (arith, l, h)) in
      (
        suc i.0,
        i.1,
        i.2,
        rw (q, unir_libres, i.3) refl,
        (i.4.0, i.4.1 ∙ u, omega (arith, i.4.2, l)),
        i.5,
      )
]
