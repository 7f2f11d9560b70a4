-- ===== src/Memoria/Paginas/Heap.antt =====
-- `asignarPaginasDeHeap` gives all the pages asked for, or none.
use native.Mathlib.Decide.{ℕ_discrete}
use so_commons.Base.{
  ℕ, zero, suc, ◌+◌, ◌<◌, ◌≡◌, refl, subst, ◌⊎◌, inl, inr, some, arith, ◌==◌, if◌then◌else◌,
}
use so_commons.Memoria.{EstructurasMemoria, memoria_insuficiente, paginas_asignadas, heap}
use so_commons.Memoria.Tabla.{obtener_paginas_asignadas_por_proceso, ocupar, vaciar_marco}
use so_commons.Memoria.Tabla.Asignacion.{
  TablaValida, Presente, asignar_en_tabla_de_frame_cases, vaciar_en_tabla_de_frame_cases,
  TablaValida-ocupar, TablaValida-vaciar_marco, obtener-ocupar, obtener-vaciar_marco,
  Presente-ocupar, Presente-ocupar_self, Presente-vaciar_marco,
}
use so_commons.Memoria.Paginas.{deshacer, segun, asignar_desde, asignar_paginas_de_heap}

-- How many frames each process holds, from those it held in `m`: `n` more for `pid`.
abbrev pub Cuenta : EstructurasMemoria → EstructurasMemoria → ℕ → ℕ → Type 0
Cuenta m m' pid n =
    (q : ℕ)
    → obtener_paginas_asignadas_por_proceso m' q
      ≡ (if pid == q then n else 0) + obtener_paginas_asignadas_por_proceso m q

-- Undoing gives back the pages that are there.
deshacer_lem :
    (m : EstructurasMemoria) (pid y n : ℕ)
    → TablaValida m
    → ((j : ℕ) → j < n → Presente m pid (y + j))
    → (m' : EstructurasMemoria) × (deshacer m pid y n ≡ some m')
      × TablaValida m'
      × Cuenta m' m pid n
unfolding deshacer
deshacer_lem m pid y zero v p = (m, refl, v, λ q. ground arith)
deshacer_lem m pid y (suc n) v p = elim (vaciar_en_tabla_de_frame_cases m pid y v) [
  | inl (e, nadie) ↦ let x = p 0 (omega arith) in absurd (ground (arith, nadie x.0 x.1))
  | inr (f, r, e, g, c) ↦
      let m1 = vaciar_marco m f y in
      let otras = λ (j : ℕ) (l : j < n).
        Presente-vaciar_marco m f pid y g pid (suc y + j) c (omega arith)
          (subst (Presente m pid) (omega arith) (p (suc j) (omega arith))) in
      let resto = deshacer_lem m1 pid (suc y) n (TablaValida-vaciar_marco m f y v) otras in
      (
        resto.0,
        rw (e) (resto.1),
        resto.2,
        λ q. ground (arith, resto.3 q, obtener-vaciar_marco m f pid y g q c),
      )
]

-- The loop, from a state where the first `i` pages are given: what it answers and leaves.
abbrev Asigna : EstructurasMemoria → EstructurasMemoria → ℕ → ℕ → ℕ → ℕ → Type 0
Asigna m0 m pid base i n =
    (m' : EstructurasMemoria) × TablaValida m'
    × (((asignar_desde m pid base i n ≡ some (paginas_asignadas, m')) × Cuenta m0 m' pid (i + n))
        ⊎ ((asignar_desde m pid base i n ≡ some (memoria_insuficiente, m')) × Cuenta m0 m' pid 0))

asignar_desde_lem :
    (m0 m : EstructurasMemoria) (pid base i n : ℕ)
    → TablaValida m
    → ((j : ℕ) → j < i → Presente m pid (base + j))
    → Cuenta m0 m pid i
    → Asigna m0 m pid base i n
unfolding asignar_desde
asignar_desde_lem m0 m pid base i zero v p c = (m, v, inl (refl, λ q. ground (arith, c q)))
asignar_desde_lem m0 m pid base i (suc n) v p c =
    elim (asignar_en_tabla_de_frame_cases m pid (base + i) heap v) [
      | inl (e, lleno) ↦
          let d = deshacer_lem m pid base i v p in
          (d.0, d.2, inr (rw (e, segun, d.1), λ q. ground (arith, c q, d.3 q)))
      | inr (f, r, e, g, t) ↦
          let m1 = ocupar m f pid (base + i) heap in
          let p1 : (j : ℕ) → j < suc i → Presente m1 pid (base + j) = λ j l. elim (ℕ_discrete j i) [
            | yes s ↦ rw s (Presente-ocupar_self m f pid (base + i) g heap)
            | no s ↦ Presente-ocupar m f pid (base + i) g heap pid (base + j) t (p j (omega arith))
          ] in
          let r1 =
            asignar_desde_lem m0 m1 pid base (suc i) n
              (TablaValida-ocupar m f pid (base + i) heap v) p1
              (λ q. ground (arith, c q, obtener-ocupar m f pid (base + i) g heap q t)) in
          (
            r1.0,
            r1.1,
            elim r1.2 [
              | inl (e1, c1) ↦ inl (rw (e, segun) e1, λ q. ground (arith, c1 q))
              | inr (e1, c1) ↦ inr (rw (e, segun) e1, c1)
            ],
          )
    ]

-- On a table of `marcos` rows, a request for `n` pages of heap always returns. Either the answer is
-- PAGINAS_ASIGNADAS and the process has `n` more frames, or it is MEMORIA_INSUFICIENTE and the
-- process has as many frames as before; every other process keeps its number of frames.
pub asignar_paginas_de_heap_cases :
    (m : EstructurasMemoria) (pid n : ℕ)
    → TablaValida m
    → (m' : EstructurasMemoria) × TablaValida m'
      × (((asignar_paginas_de_heap m pid n ≡ some (paginas_asignadas, m')) × Cuenta m m' pid n)
          ⊎ ((asignar_paginas_de_heap m pid n ≡ some (memoria_insuficiente, m'))
              × Cuenta m m' pid 0))
unfolding asignar_paginas_de_heap
asignar_paginas_de_heap_cases m pid n v =
    let base = obtener_paginas_asignadas_por_proceso m pid in
    let r =
      asignar_desde_lem m m pid base 0 n v (λ j l. absurd (omega arith)) (λ q. ground arith) in
    (
      r.0,
      r.1,
      elim r.2 [ inl (e, c) ↦ inl (e, λ q. ground (arith, c q)) | inr (e, c) ↦ inr (e, c) ],
    )
