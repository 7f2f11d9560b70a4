-- ===== src/Kernel/Heap/Vuelta.antt =====
-- `compactar` on the table of pages, and `liberar_bloque_heap`: every page stays tiled by its blocks.
use so_commons.Base.{
  All-set, All-get_elem?, ℕ, ◌≡◌, inl, inr, ◌&&◌, not, some, List, [], ◌∷◌, arith, Bool-cases,
  Option-cases, subst, All, set, get_elem?,
}
use so_commons.Memoria.{Respuesta, escritura_satisfactoria, error_en_escritura}
use so_commons.Kernel.Heap.{
  Bloque, NodoTablaHeap, metadata_bloque_size, unir, unir_primeros, unir_libres,
}
use so_commons.Kernel.Heap.Bloques.{
  Cubre, PaginaCubierta, SoloUltimoEspecial, SoloUltimoEspecial-cons, cola,
}
use so_commons.Kernel.Heap.Compactacion.{unir_libres-Compactado}
use so_commons.Kernel.Heap.PaginaNueva.{Cubiertas}
use so_commons.Kernel.Heap.Tablas.{Tabla, es_la_pagina}
use so_commons.Kernel.Heap.Liberacion.{
  compactar, chekear_paginas_libres, borrar_pagina_en_kernel, marcar_especial, fue_liberada,
}

-- A join of two blocks leaves none but the last special.
unir_primeros-SoloUltimoEspecial :
    (bs : List Bloque) {xs : List Bloque}
    → unir_primeros bs ≡ some xs
    → SoloUltimoEspecial bs
    → SoloUltimoEspecial xs
unfolding unir_primeros
unir_primeros-SoloUltimoEspecial [] h s = absurd (ground arith)
unir_primeros-SoloUltimoEspecial (b ∷ []) h s = absurd (ground arith)
unir_primeros-SoloUltimoEspecial (b ∷ c ∷ bs) {xs} h s =
    elim (Bool-cases (not b.is_used && not c.is_used)) [
      | inl t ↦
          let igual : unir b c ∷ bs ≡ xs = ground arith in
          subst SoloUltimoEspecial igual (SoloUltimoEspecial-cons (unir b c) bs s.0 (cola c bs s.1))
      | inr t ↦ elim (Option-cases (unir_primeros (c ∷ bs))) [
        | inl e ↦ absurd (ground arith)
        | inr (ys, e) ↦
            let igual : b ∷ ys ≡ xs = ground arith in
            subst SoloUltimoEspecial igual
              (SoloUltimoEspecial-cons b ys s.0 (unir_primeros-SoloUltimoEspecial (c ∷ bs) e s.1))
      ]
    ]

unir_libres-SoloUltimoEspecial :
    (rs : List Respuesta) (bs : List Bloque) {n : ℕ} {xs : List Bloque} {sobran : List Respuesta}
    → unir_libres rs bs ≡ some (n, xs, sobran)
    → SoloUltimoEspecial bs
    → SoloUltimoEspecial xs
unfolding unir_libres
unir_libres-SoloUltimoEspecial [] bs {xs = xs} h s = elim (Option-cases (unir_primeros bs)) [
  | inl e ↦ let igual : bs ≡ xs = ground arith in subst SoloUltimoEspecial igual s
  | inr (ys, e) ↦ absurd (ground arith)
]
unir_libres-SoloUltimoEspecial (error_en_escritura ∷ rs) bs {xs = xs} h s =
    elim (Option-cases (unir_primeros bs)) [
      | inl e ↦ let igual : bs ≡ xs = ground arith in subst SoloUltimoEspecial igual s
      | inr (ys, e) ↦ let igual : bs ≡ xs = ground arith in subst SoloUltimoEspecial igual s
    ]
unir_libres-SoloUltimoEspecial (escritura_satisfactoria ∷ rs) bs {xs = xs} h s =
    elim (Option-cases (unir_primeros bs)) [
      | inl e ↦ let igual : bs ≡ xs = ground arith in subst SoloUltimoEspecial igual s
      | inr (ys, e) ↦ elim (Option-cases (unir_libres rs ys)) [
        | inl f ↦ absurd (ground arith)
        | inr ((m, zs, resto), f) ↦
            let igual : zs ≡ xs = ground arith in
            subst SoloUltimoEspecial igual
              (unir_libres-SoloUltimoEspecial rs ys f (unir_primeros-SoloUltimoEspecial bs e s))
      ]
    ]
unir_libres-SoloUltimoEspecial (r ∷ rs) bs {n} {xs} {sobran} h s =
    elim (Option-cases (unir_primeros bs)) [
      | inl e ↦ let igual : bs ≡ xs = ground arith in subst SoloUltimoEspecial igual s
      | inr (ys, e) ↦
          let igual : unir_libres rs bs ≡ some (n, xs, sobran) = ground arith in
          unir_libres-SoloUltimoEspecial rs bs igual s
    ]

unir_libres-Cubre :
    (rs : List Respuesta) (d fin : ℕ) (bs : List Bloque) {n : ℕ} {xs : List Bloque}
    {sobran : List Respuesta}
    → unir_libres rs bs ≡ some (n, xs, sobran)
    → Cubre d fin bs
    → Cubre d fin xs
unir_libres-Cubre rs d fin bs {xs = xs} h c = elim (unir_libres-Compactado rs d fin bs c) [
  | inl e ↦ absurd (ground arith)
  | inr (m, ys, resto, e, k) ↦ let igual : ys ≡ xs = ground arith in subst (Cubre d fin) igual k.0
]

borrar-All {κ} :
    (P : NodoTablaHeap → Type κ) (tabla : Tabla) (pagina pid : ℕ)
    → All P tabla
    → All P (borrar_pagina_en_kernel tabla pagina pid)
unfolding borrar_pagina_en_kernel
borrar-All P [] pagina pid a = tt
borrar-All P (p ∷ ps) pagina pid a = elim (Bool-cases (es_la_pagina pagina pid p)) [
  | inl t ↦ rw t a.1
  | inr t ↦ rw t (a.0, borrar-All P ps pagina pid a.1)
]

chekear-All {κ} :
    (P : NodoTablaHeap → Type κ) (tabla : Tabla) (pagina pid : ℕ) (rs : List Respuesta)
    {tabla' : Tabla}
    → chekear_paginas_libres tabla pagina pid rs ≡ some tabla'
    → All P tabla
    → All P tabla'
unfolding chekear_paginas_libres
chekear-All P tabla pagina pid [] h a = absurd (ground arith)
chekear-All P tabla pagina pid (r ∷ rs) {tabla'} h a = elim (Bool-cases (fue_liberada r)) [
  | inl t ↦
      let igual : borrar_pagina_en_kernel tabla pagina pid ≡ tabla' = ground arith in
      subst (All P) igual (borrar-All P tabla pagina pid a)
  | inr t ↦ let igual : tabla ≡ tabla' = ground arith in subst (All P) igual a
]

-- The blocks that `compactar` leaves in a page.
compactar_bloques-Cubiertas :
    (page_size : ℕ) (tabla : Tabla) (i pagina pid : ℕ) (p : NodoTablaHeap) (bs : List Bloque)
    (rs sobran : List Respuesta) {n : ℕ} {tabla' : Tabla}
    → get_elem? tabla i ≡ some p
    → unir_libres rs p.lista_de_bloques ≡ some (n, bs, sobran)
    → PaginaCubierta page_size bs
    → SoloUltimoEspecial bs
    → compactar tabla i pagina pid rs ≡ some tabla'
    → Cubiertas page_size tabla
    → Cubiertas page_size tabla'
unfolding compactar
compactar_bloques-Cubiertas page_size tabla i pagina pid p [] rs sobran g u c s h a =
    absurd (ground arith)
compactar_bloques-Cubiertas page_size tabla i pagina pid p (b ∷ []) rs sobran {tabla' = tabla'} g u
      c s h a =
    let q : NodoTablaHeap = record p { lista_de_bloques = marcar_especial b ∷ [] } in
    let vuelve : chekear_paginas_libres (set tabla i q) pagina pid sobran ≡ some tabla' =
      ground arith in
    chekear-All _ (set tabla i q) pagina pid sobran vuelve (All-set _ tabla i q a (c, tt))
compactar_bloques-Cubiertas page_size tabla i pagina pid p (b ∷ d ∷ bs) rs sobran {tabla' = tabla'}
      g u c s h a =
    let q : NodoTablaHeap = record p { lista_de_bloques = b ∷ d ∷ bs } in
    let igual : set tabla i q ≡ tabla' = ground arith in
    subst (Cubiertas page_size) igual (All-set _ tabla i q a (c, s))

-- Whatever memory answers, when `compactar` ends every page of the heap is tiled by its blocks, with
-- the special block of a page at its end, if they all were before.
pub compactar-Cubiertas :
    (page_size : ℕ) (tabla : Tabla) (i pagina pid : ℕ) (rs : List Respuesta) (tabla' : Tabla)
    → Cubiertas page_size tabla
    → compactar tabla i pagina pid rs ≡ some tabla'
    → Cubiertas page_size tabla'
unfolding compactar
compactar-Cubiertas page_size tabla i pagina pid rs tabla' a h =
    elim (Option-cases (get_elem? tabla i)) [
      | inl e ↦ absurd (ground arith)
      | inr (p, e) ↦ elim (Option-cases (unir_libres rs p.lista_de_bloques)) [
        | inl f ↦ absurd (ground arith)
        | inr ((n, bs, sobran), f) ↦
            let cp = All-get_elem? _ tabla i a e in
            compactar_bloques-Cubiertas page_size tabla i pagina pid p bs rs sobran e f
              (unir_libres-Cubre rs metadata_bloque_size page_size p.lista_de_bloques f cp.0)
              (unir_libres-SoloUltimoEspecial rs p.lista_de_bloques f cp.1) h a
      ]
    ]
