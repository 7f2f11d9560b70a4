-- ===== src/Kernel/Heap/Marcas.antt =====
-- `liberar_bloque_heap`: marking a block as free, and the whole free.
use so_commons.Base.{
  ℕ, ◌+◌, ◌/◌, ◌%◌, ◌≡◌, refl, ◌∙◌, inl, inr, false, some, List, [], ◌∷◌, arith, Bool-cases,
  Option-cases, subst, ◌==◌,
}
use so_commons.Memoria.{Respuesta, escritura_satisfactoria, error_en_escritura}
use so_commons.Kernel.Heap.{Bloque, metadata_bloque_size, es_especial}
use so_commons.Kernel.Heap.Bloques.{Cubre, SoloUltimoEspecial}
use so_commons.Kernel.Heap.PaginaNueva.{Cubiertas}
use so_commons.Kernel.Heap.Tablas.{Tabla, AlCpu, es_la_pagina}
use so_commons.Kernel.Heap.Liberacion.{
  EntradaInfoProceso, EstadoHeap, contabilizar_free, marcar_libre, marcar_en_tabla, con_bloque,
  compactar, liberar_bloque_heap,
}
use so_commons.Kernel.Heap.Vuelta.{compactar-Cubiertas}

-- The same places, sizes and numbers.
abbrev MismosLugares : List Bloque → List Bloque → Type 0
MismosLugares [] [] = Unit
MismosLugares [] (y ∷ ys) = ⊥
MismosLugares (x ∷ xs) [] = ⊥
MismosLugares (x ∷ xs) (y ∷ ys) =
    (x.offset ≡ y.offset)
    × (x.size ≡ y.size)
    × (es_especial x ≡ es_especial y)
    × MismosLugares xs ys

MismosLugares-refl : (xs : List Bloque) → MismosLugares xs xs
MismosLugares-refl [] = tt
MismosLugares-refl (x ∷ xs) = (refl, refl, refl, MismosLugares-refl xs)

MismosLugares-Cubre :
    (d fin : ℕ) (xs ys : List Bloque) → MismosLugares xs ys → Cubre d fin ys → Cubre d fin xs
MismosLugares-Cubre d fin [] [] m c = c
MismosLugares-Cubre d fin [] (y ∷ ys) m c = absurd m
MismosLugares-Cubre d fin (x ∷ xs) [] m c = absurd m
MismosLugares-Cubre d fin (x ∷ xs) (y ∷ ys) m c =
    (m.0 ∙ c.0, rw m.1 (MismosLugares-Cubre (d + y.size + metadata_bloque_size) fin xs ys m.3 c.1))

MismosLugares-SoloUltimoEspecial :
    (xs ys : List Bloque) → MismosLugares xs ys → SoloUltimoEspecial ys → SoloUltimoEspecial xs
MismosLugares-SoloUltimoEspecial [] ys m s = tt
MismosLugares-SoloUltimoEspecial (x ∷ []) ys m s = tt
MismosLugares-SoloUltimoEspecial (x ∷ z ∷ xs) [] m s = absurd m
MismosLugares-SoloUltimoEspecial (x ∷ z ∷ xs) (y ∷ []) m s = absurd m.3
MismosLugares-SoloUltimoEspecial (x ∷ z ∷ xs) (y ∷ w ∷ ys) m s =
    (m.2 ∙ s.0, MismosLugares-SoloUltimoEspecial (z ∷ xs) (w ∷ ys) m.3 s.1)

-- Marking changes no place.
marcar_libre-MismosLugares :
    (pid offset : ℕ) (info : List EntradaInfoProceso) (bs : List Bloque) {k : ℕ} {x : Bloque}
    {xs : List Bloque}
    → (marcar_libre pid offset info bs).0 ≡ some (k, x, xs)
    → MismosLugares xs bs
unfolding marcar_libre
marcar_libre-MismosLugares pid offset info [] h = absurd (ground arith)
marcar_libre-MismosLugares pid offset info (b ∷ bs) {k} {x} {xs} h =
    let info' = contabilizar_free info pid b.size in
    elim (Bool-cases (b.offset == offset)) [
      | inl t ↦
          let igual : record b { is_used = false } ∷ bs ≡ xs = ground arith in
          subst (λ z. MismosLugares z (b ∷ bs)) igual (refl, refl, refl, MismosLugares-refl bs)
      | inr t ↦ elim (Option-cases (marcar_libre pid offset info' bs).0) [
        | inl e ↦ absurd (ground (arith, h, e, t))
        | inr ((j, y, ys), e) ↦
            let igual : b ∷ ys ≡ xs = ground (arith, h, e, t) in
            subst (λ z. MismosLugares z (b ∷ bs)) igual
              (refl, refl, refl, marcar_libre-MismosLugares pid offset info' bs e)
      ]
    ]

-- Marking in the table keeps every page tiled.
marcar_en_tabla-Cubiertas :
    (page_size pagina pid offset : ℕ) (info : List EntradaInfoProceso) (tabla : Tabla) {i : ℕ}
    {b : Bloque} {tabla' : Tabla}
    → (marcar_en_tabla pagina pid offset info tabla).0 ≡ some (i, b, tabla')
    → Cubiertas page_size tabla
    → Cubiertas page_size tabla'
unfolding marcar_en_tabla
marcar_en_tabla-Cubiertas page_size pagina pid offset info [] h a = absurd (ground arith)
marcar_en_tabla-Cubiertas page_size pagina pid offset info (p ∷ ps) {tabla' = tabla'} h a =
    elim (Bool-cases (es_la_pagina pagina pid p)) [
      | inl t ↦ elim (Option-cases (marcar_libre pid offset info p.lista_de_bloques).0) [
        | inl e ↦ absurd (ground (arith, h, e, t))
        | inr ((k, x, xs), e) ↦
            let igual : record p { lista_de_bloques = xs } ∷ ps ≡ tabla' =
              ground (arith, h, e, t) in
            let m = marcar_libre-MismosLugares pid offset info p.lista_de_bloques e in
            subst (Cubiertas page_size) igual (
              (
                MismosLugares-Cubre metadata_bloque_size page_size xs p.lista_de_bloques m a.0.0,
                MismosLugares-SoloUltimoEspecial xs p.lista_de_bloques m a.0.1,
              ),
              a.1,
            )
      ]
      | inr t ↦ elim (Option-cases (marcar_en_tabla pagina pid offset info ps).0) [
        | inl e ↦ absurd (ground (arith, h, e, t))
        | inr ((j, y, qs), e) ↦
            let igual : p ∷ qs ≡ tabla' = ground (arith, h, e, t) in
            subst (Cubiertas page_size) igual
              (a.0, marcar_en_tabla-Cubiertas page_size pagina pid offset info ps e a.1)
      ]
    ]

con_bloque-Cubiertas :
    (page_size : ℕ) (e : EstadoHeap) (i pagina pid : ℕ) (rs : List Respuesta) {r : AlCpu}
    {e' : EstadoHeap}
    → con_bloque e i pagina pid rs ≡ some (r, e')
    → Cubiertas page_size e.tabla_heap
    → Cubiertas page_size e'.tabla_heap
con_bloque-Cubiertas page_size e i pagina pid [] h a = absurd (ground arith)
con_bloque-Cubiertas page_size e i pagina pid (error_en_escritura ∷ rs) {e' = e'} h a =
    let igual : e ≡ e' = ground arith in subst (λ z. Cubiertas page_size z.tabla_heap) igual a
con_bloque-Cubiertas page_size e i pagina pid (escritura_satisfactoria ∷ rs) {e' = e'} h a =
    elim (Option-cases (compactar e.tabla_heap i pagina pid rs)) [
      | inl f ↦ absurd (ground arith)
      | inr (tabla, f) ↦
          let igual : tabla ≡ e'.tabla_heap = ground arith in
          subst (Cubiertas page_size) igual
            (compactar-Cubiertas page_size e.tabla_heap i pagina pid rs tabla a f)
    ]
con_bloque-Cubiertas page_size e i pagina pid (r ∷ rs) {e' = e'} h a =
    let igual : e ≡ e' = ground arith in subst (λ z. Cubiertas page_size z.tabla_heap) igual a

-- A free of any pointer, valid or not, and whatever memory answers, keeps every page of the heap tiled by
-- its blocks, of which none but the last is special, when it ends.
pub liberar_bloque_heap-Cubiertas :
    (e : EstadoHeap) (page_size puntero pid : ℕ) (rs : List Respuesta) (r : AlCpu) (e' : EstadoHeap)
    → Cubiertas page_size e.tabla_heap
    → liberar_bloque_heap e page_size puntero pid rs ≡ some (r, e')
    → Cubiertas page_size e'.tabla_heap
unfolding liberar_bloque_heap
liberar_bloque_heap-Cubiertas e page_size puntero pid rs r e' a h =
    let pagina = puntero / page_size in
    let marcada =
      marcar_en_tabla pagina pid (puntero % page_size) e.lista_info_procesos e.tabla_heap in
    elim (Option-cases marcada.0) [
      | inl f ↦
          let igual : e.tabla_heap ≡ e'.tabla_heap = ground (arith, h, f) in
          subst (Cubiertas page_size) igual a
      | inr ((i, b, tabla), f) ↦
          let e1 : EstadoHeap = record { tabla_heap = tabla; lista_info_procesos = marcada.1 } in
          let sigue : con_bloque e1 i pagina pid rs ≡ some (r, e') =
            rw (f, liberar_bloque_heap) at h in
          con_bloque-Cubiertas page_size e1 i pagina pid rs sigue (
            marcar_en_tabla-Cubiertas page_size pagina pid (puntero % page_size)
              e.lista_info_procesos e.tabla_heap f a)
    ]
