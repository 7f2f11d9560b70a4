-- ===== src/Kernel/Heap/PaginaNueva.antt =====
-- The page that a request with no room gets: its number and its blocks.
use so_commons.Base.{
  ℕ, ◌+◌, ◌*◌, ◌≤◌, ◌≡◌, refl, inl, inr, false, [], ◌∷◌, ◌++◌, arith, All, ℤ, pos, negsuc,
  Bool-cases,
}
use so_commons.Memoria.{Respuesta, paginas_asignadas}
use so_commons.Kernel.Heap.{NodoTablaHeap, metadata_bloque_size, crear_nuevo_bloque}
use so_commons.Kernel.Heap.Bloques.{PaginaCubierta, SoloUltimoEspecial}
use so_commons.Kernel.Heap.Tablas.{
  Tabla, igual_a, es_la_pagina, siguiente, calcular_numero_nuevapagina, asignar_en_pagina_nueva,
  bloques_de_pagina_nueva,
}

-- After a page, the number is at least what it was, and more than that of the page if it is of the
-- process.
siguiente_lem :
    (max : ℕ) (p : NodoTablaHeap) (pid : ℕ)
    → (max ≤ siguiente max p pid)
      × ((k : ℕ) → siguiente max p pid ≤ k → es_la_pagina k pid p ≡ false)
siguiente_lem max p pid = go p.numero_pagina refl
  where
    go :
        (z : ℤ)
        → p.numero_pagina ≡ z
        → (max ≤ siguiente max p pid)
          × ((k : ℕ) → siguiente max p pid ≤ k → es_la_pagina k pid p ≡ false)
    go (negsuc n) e = (rw e (omega arith), λ k h. rw e refl)
    go (pos n) e = elim (Bool-cases (igual_a p.pid pid)) [
      | inl t ↦ (ground (arith, e, t), λ k h. ground (arith, e, t, h))
      | inr t ↦ (ground (arith, e, t), λ k h. ground (arith, e, t))
    ]

calcular-le : (max : ℕ) (tabla : Tabla) (pid : ℕ) → max ≤ calcular_numero_nuevapagina max tabla pid
unfolding calcular_numero_nuevapagina
calcular-le max [] pid = omega arith
calcular-le max (p ∷ ps) pid =
    omega (arith, (siguiente_lem max p pid).0, calcular-le (siguiente max p pid) ps pid)

-- The number of a new page is at least the pages of code and stack of the process, and no page of heap
-- of the process has it.
pub calcular_numero_nuevapagina-es_la_pagina :
    (max : ℕ) (tabla : Tabla) (pid : ℕ)
    → (max ≤ calcular_numero_nuevapagina max tabla pid)
      × All (λ p. es_la_pagina (calcular_numero_nuevapagina max tabla pid) pid p ≡ false) tabla
unfolding calcular_numero_nuevapagina
calcular_numero_nuevapagina-es_la_pagina max [] pid = (omega arith, tt)
calcular_numero_nuevapagina-es_la_pagina max (p ∷ ps) pid = (
  calcular-le max (p ∷ ps) pid,
  (
    (siguiente_lem max p pid).1 _ (calcular-le (siguiente max p pid) ps pid),
    (calcular_numero_nuevapagina-es_la_pagina (siguiente max p pid) ps pid).1,
  ),
)

-- Every page is tiled by its blocks, and none but the last is special.
abbrev pub Cubiertas : ℕ → Tabla → Type 0
Cubiertas page_size =
    All (λ p. PaginaCubierta page_size p.lista_de_bloques × SoloUltimoEspecial p.lista_de_bloques)

Cubiertas-append :
    (page_size : ℕ) (xs ys : Tabla)
    → Cubiertas page_size xs
    → Cubiertas page_size ys
    → Cubiertas page_size (xs ++ ys)
Cubiertas-append page_size [] ys a b = b
Cubiertas-append page_size (x ∷ xs) ys a b = (a.0, Cubiertas-append page_size xs ys a.1 b)

bloques_de_pagina_nueva-PaginaCubierta :
    (page_size bytes : ℕ)
    → bytes + metadata_bloque_size * 2 ≤ page_size
    → PaginaCubierta page_size (bloques_de_pagina_nueva page_size bytes)
      × SoloUltimoEspecial (bloques_de_pagina_nueva page_size bytes)
unfolding crear_nuevo_bloque
bloques_de_pagina_nueva-PaginaCubierta page_size bytes h =
    ((refl, (omega arith, omega arith)), (refl, tt))

-- A request that fits in a page with the metadata of two blocks, served with a new page or refused, keeps
-- every page of the heap tiled by its blocks, whatever memory answers.
pub asignar_en_pagina_nueva-Cubiertas :
    (tabla : Tabla) (page_size paginas_totales pid bytes : ℕ) (pedido r especial : Respuesta)
    → Cubiertas page_size tabla
    → bytes + metadata_bloque_size * 2 ≤ page_size
    → Cubiertas page_size
        (asignar_en_pagina_nueva tabla page_size paginas_totales pid bytes pedido r especial).1
unfolding asignar_en_pagina_nueva
asignar_en_pagina_nueva-Cubiertas tabla page_size paginas_totales pid bytes paginas_asignadas r
      especial c h =
    Cubiertas-append page_size tabla _ c
      (bloques_de_pagina_nueva-PaginaCubierta page_size bytes h, tt)
asignar_en_pagina_nueva-Cubiertas tabla page_size paginas_totales pid bytes pedido r especial c h =
    c
