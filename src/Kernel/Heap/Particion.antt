-- ===== src/Kernel/Heap/Particion.antt =====
-- The cut of a block larger than the request: `asignar_paginas_heap` of
-- Segundo tp/kernel/src/manejo_heap.c.
use so_commons.Base.{
  ℕ, zero, suc, ◌+◌, ◌<◌, ◌≡◌, refl, subst, some, List, [], ◌∷◌, arith, get_elem?, set, ◌≤◌, ap,
  ◌∙◌, true, false, ◌==◌, ltb, length, get_elem?-set_self, get_elem?_lt,
}
use so_commons.Kernel.Heap.{
  Bloque, NodoTablaHeap, metadata_bloque_size, bloque_particionado, bloque_recortado,
}
use so_commons.Kernel.Heap.Bloques.{Cubre}
use so_commons.Kernel.Heap.Tablas.{
  Tabla, buscar_pagina, indice_de_offset, buscar_indice_bloque, cambiar_bloques, particionar,
  insertar,
}

-- The blocks of a page after the cut of block `b` at place `k`.
abbrev cortar : ℕ → Bloque → ℕ → List Bloque → List Bloque
cortar k b bytes bs =
    insertar (suc k) (bloque_particionado b bytes) (set bs k (bloque_recortado b bytes))

insertar-Cubre :
    (d fin k bytes : ℕ) (bs : List Bloque) (b : Bloque)
    → Cubre d fin bs
    → get_elem? bs k ≡ some b
    → bytes + metadata_bloque_size < b.size
    → Cubre d fin (cortar k b bytes bs)
      × (get_elem? (cortar k b bytes bs) k ≡ some (bloque_recortado b bytes))
unfolding insertar
insertar-Cubre d fin k bytes [] b c e h = absurd (ground arith)
insertar-Cubre d fin zero bytes (x ∷ bs) b c e h =
    let igual : x ≡ b = ground arith in
    let tam : x.size ≡ b.size = ground (arith, igual) in
    let off : x.offset ≡ b.offset = ground (arith, igual) in
    (
      (
        omega (arith, c.0, off),
        (omega (arith, c.0, off), subst (λ z. Cubre z fin bs) (omega (arith, tam, h)) c.1),
      ),
      refl,
    )
insertar-Cubre d fin (suc k) bytes (x ∷ bs) b c e h =
    let r = insertar-Cubre (d + x.size + metadata_bloque_size) fin k bytes bs b c.1 e h in
    ((c.0, r.0), r.1)

get_elem?-insertar :
    (k : ℕ) (bs : List Bloque) (b nuevo : Bloque)
    → k < length bs
    → get_elem? (insertar (suc k) nuevo (set bs k b)) (suc k) ≡ some nuevo
unfolding insertar
get_elem?-insertar k [] b nuevo h = absurd (omega arith)
get_elem?-insertar zero (x ∷ bs) b nuevo h = refl
get_elem?-insertar (suc k) (x ∷ bs) b nuevo h = get_elem?-insertar k bs b nuevo (omega arith)

Cubre-offset :
    (d fin k : ℕ) (bs : List Bloque) (b : Bloque)
    → Cubre d fin bs
    → get_elem? bs k ≡ some b
    → d ≤ b.offset
Cubre-offset d fin k [] b c h = absurd (ground arith)
Cubre-offset d fin zero (x ∷ bs) b c h =
    let igual : x ≡ b = ground arith in
    let off : x.offset ≡ b.offset = ground (arith, igual) in omega (arith, c.0, off)
Cubre-offset d fin (suc k) (x ∷ bs) b c h =
    omega (arith, Cubre-offset (d + x.size + metadata_bloque_size) fin k bs b c.1 h)

-- The offset of a block finds its place.
indice_de_offset-Cubre :
    (j d fin k : ℕ) (bs : List Bloque) (b : Bloque)
    → Cubre d fin bs
    → get_elem? bs k ≡ some b
    → indice_de_offset j b.offset bs ≡ some (j + k)
unfolding indice_de_offset
indice_de_offset-Cubre j d fin k [] b c h = absurd (ground arith)
indice_de_offset-Cubre j d fin zero (x ∷ bs) b c h =
    let igual : x ≡ b = ground arith in
    let off : x.offset ≡ b.offset = ground (arith, igual) in
    let es : (x.offset == b.offset) ≡ true = ground arith in rw es (ap some (omega arith))
indice_de_offset-Cubre j d fin (suc k) (x ∷ bs) b c h =
    let despues = Cubre-offset (d + x.size + metadata_bloque_size) fin k bs b c.1 h in
    let primero = c.0 in
    let no : (x.offset == b.offset) ≡ false = ground arith in
    rw no (
      indice_de_offset-Cubre (suc j) (d + x.size + metadata_bloque_size) fin k bs b c.1 h
      ∙ ap some (omega arith))

set-set : (ps : Tabla) (i : ℕ) (p q : NodoTablaHeap) → set (set ps i p) i q ≡ set ps i q
set-set [] i p q = refl
set-set (x ∷ ps) zero p q = refl
set-set (x ∷ ps) (suc i) p q = ap (x ∷◌) (set-set ps i p q)

cambiar_bloques-una :
    (tabla : Tabla) (i : ℕ) (p : NodoTablaHeap) (f : List Bloque → List Bloque)
    → get_elem? tabla i ≡ some p
    → cambiar_bloques tabla i f ≡ set tabla i (record p { lista_de_bloques = f p.lista_de_bloques })
cambiar_bloques-una tabla i p f h = rw (cambiar_bloques, h) refl

cambiar_bloques-dos :
    (tabla : Tabla) (i : ℕ) (p : NodoTablaHeap) (f g : List Bloque → List Bloque)
    → get_elem? tabla i ≡ some p
    → cambiar_bloques (cambiar_bloques tabla i f) i g
      ≡ set tabla i (record p { lista_de_bloques = g (f p.lista_de_bloques) })
cambiar_bloques-dos tabla i p f g h =
    let medio = record p { lista_de_bloques = f p.lista_de_bloques } in
    ap (λ t. cambiar_bloques t i g) (cambiar_bloques-una tabla i p f h)
    ∙ cambiar_bloques-una (set tabla i medio) i medio g
        (get_elem?-set_self tabla i medio (get_elem?_lt tabla i h))
    ∙ set-set tabla i medio (record p { lista_de_bloques = g (f p.lista_de_bloques) })

buscar_indice_bloque-Cubre :
    (tabla : Tabla) (d fin pagina pid i k : ℕ) (p : NodoTablaHeap) (b : Bloque)
    → buscar_pagina tabla pagina pid ≡ some i
    → get_elem? tabla i ≡ some p
    → get_elem? p.lista_de_bloques k ≡ some b
    → Cubre d fin p.lista_de_bloques
    → buscar_indice_bloque tabla pagina b.offset pid ≡ some (some k)
unfolding buscar_indice_bloque
buscar_indice_bloque-Cubre tabla d fin pagina pid i k p b busca esta bloque c =
    rw (buscar_indice_bloque, busca)
      (rw esta (
        ap some
          (indice_de_offset-Cubre 0 d fin k p.lista_de_bloques b c bloque ∙ ap some (omega arith))))

-- The cut of the block `b` at place `k` of the page of the process, whose blocks tile a stretch, when the block is
-- larger than the request by more than its metadata: memory is asked to write, the block has the
-- size of the request, what is left is the block after it, the blocks tile the same stretch, and no other page
-- changes.
pub particionar-Cubre :
    (tabla : Tabla) (d fin pagina pid bytes i k : ℕ) (p : NodoTablaHeap) (b : Bloque)
    → buscar_pagina tabla pagina pid ≡ some i
    → get_elem? tabla i ≡ some p
    → get_elem? p.lista_de_bloques k ≡ some b
    → Cubre d fin p.lista_de_bloques
    → bytes + metadata_bloque_size < b.size
    → (bs : List Bloque) × (particionar tabla pagina pid bytes i k
        ≡ some (true, set tabla i (record p { lista_de_bloques = bs })))
      × Cubre d fin bs
      × (get_elem? bs k ≡ some (bloque_recortado b bytes))
      × (get_elem? bs (suc k) ≡ some (bloque_particionado b bytes))
unfolding particionar
particionar-Cubre tabla d fin pagina pid bytes i k p b busca esta bloque c h =
    let cortados = insertar-Cubre d fin k bytes p.lista_de_bloques b c bloque h in
    let indice = buscar_indice_bloque-Cubre tabla d fin pagina pid i k p b busca esta bloque c in
    let cabe : ltb (bytes + metadata_bloque_size) b.size ≡ true = ground arith in
    let cambia =
      cambiar_bloques-dos tabla i p (λ bs. set bs k (bloque_recortado b bytes))
        (insertar (suc k) (bloque_particionado b bytes)) esta in
    (
      cortar k b bytes p.lista_de_bloques,
      rw (particionar, esta)
          (rw bloque (rw cabe (rw indice (rw busca (ap (λ t. some (true, t)) cambia))))),
      cortados.0,
      cortados.1,
      get_elem?-insertar k p.lista_de_bloques (bloque_recortado b bytes)
          (bloque_particionado b bytes) (get_elem?_lt p.lista_de_bloques k bloque),
    )
