-- ===== src/Kernel/Heap/Direcciones.antt =====
-- The pointers that the kernel sends: Segundo tp/rocketLibrary/structs/structs.c, and the new pages of
-- Segundo tp/kernel/src/manejo_heap.c.
use native.Mathlib.Nat.{mul-add-div_right}
use so_commons.Base.{
  ℕ, ◌+◌, ◌*◌, ◌/◌, ◌%◌, ◌^◌, ◌≤◌, ◌<◌, ◌≡◌, refl, ap, sym, ◌∙◌, ◌&&◌, true, List, [], ◌∷◌, ◌++◌,
  arith, pos, Bool-cases, inl, inr,
}
use so_commons.Memoria.{Respuesta, paginas_asignadas}
use so_commons.Kernel.Heap.{
  Bloque, NodoTablaHeap, metadata_bloque_size, bloque_inicial, crear_nuevo_bloque,
}
use so_commons.Kernel.Heap.Tablas.{
  Tabla, direccion_enviada, fue_error, fue_bien, calcular_numero_nuevapagina, nueva_pagina,
  respuesta_pagina_nueva, posicion_memoria_a_puntero, puntero_a_posicion_memoria,
  asignar_en_pagina_nueva, bloques_de_pagina_nueva,
}

-- The pointer of a position inside a page gives the position back, below 2 ^ 31.
puntero-posicion_memoria :
    (pid pagina_id offset tamanio_pagina : ℕ)
    → offset < tamanio_pagina
    → pagina_id * tamanio_pagina + offset < 2 ^ 31
    → puntero_a_posicion_memoria
        (posicion_memoria_a_puntero pagina_id offset tamanio_pagina)
        tamanio_pagina
        pid
      ≡ record { pid = pid; pagina_id = pagina_id; offset = pos offset; tamanio = 4 }
unfolding posicion_memoria_a_puntero puntero_a_posicion_memoria
puntero-posicion_memoria pid pagina_id offset tamanio_pagina h cabe =
    let entero : (pagina_id * tamanio_pagina + offset) % 2 ^ 32
        ≡ pagina_id * tamanio_pagina + offset =
      grind arith in
    let cociente : (pagina_id * tamanio_pagina + offset) / tamanio_pagina ≡ pagina_id =
      grind (arith, mul-add-div_right {m = tamanio_pagina} (omega arith) pagina_id offset) in
    let resto : (pagina_id * tamanio_pagina + offset) % tamanio_pagina ≡ offset = grind arith in
    rw entero (rw (cociente, resto) refl)

respuesta_pagina_nueva-enviada :
    (r especial : Respuesta) (mio puntero : ℕ)
    → respuesta_pagina_nueva r especial mio ≡ direccion_enviada puntero
    → mio ≡ puntero
respuesta_pagina_nueva-enviada r especial mio puntero h =
    elim (Bool-cases (fue_error r && fue_error especial)) [
      | inl mal ↦ absurd (ground (arith, mal))
      | inr seguir ↦ elim (Bool-cases (fue_bien r && fue_bien especial)) [
        | inl bien ↦ ground (arith, seguir, bien)
        | inr nada ↦ absurd (ground (arith, seguir, nada))
      ]
    ]

-- When the request of a process is served with a new page and a pointer is sent, the pointer is that of the block
-- of the request: the last page of the table is of the process and starts with a used block of the bytes
-- asked for, and `puntero_a_posicionMemoria` takes the pointer to the number of that page and the offset of
-- that block. The request fits in a page with the metadata of two blocks, and the position is below 2 ^ 31.
pub asignar_en_pagina_nueva-puntero :
    (tabla : Tabla) (page_size paginas_totales pid bytes : ℕ) (pedido r especial : Respuesta)
    (puntero : ℕ) (tabla' : Tabla)
    → bytes + metadata_bloque_size * 2 ≤ page_size
    → calcular_numero_nuevapagina paginas_totales tabla pid * page_size + metadata_bloque_size
      < 2 ^ 31
    → asignar_en_pagina_nueva tabla page_size paginas_totales pid bytes pedido r especial
      ≡ (direccion_enviada puntero, tabla')
    → (p : NodoTablaHeap) × (b : Bloque) × (bs : List Bloque) × (tabla' ≡ tabla ++ (p ∷ []))
      × (p.lista_de_bloques ≡ b ∷ bs)
      × (p.pid ≡ pos pid)
      × (b.is_used ≡ true)
      × (b.size ≡ bytes)
      × (p.numero_pagina ≡ pos (puntero_a_posicion_memoria puntero page_size pid).pagina_id)
      × ((puntero_a_posicion_memoria puntero page_size pid).offset ≡ pos b.offset)
unfolding asignar_en_pagina_nueva crear_nuevo_bloque
asignar_en_pagina_nueva-puntero tabla page_size paginas_totales pid bytes paginas_asignadas r
      especial puntero tabla' entra cabe h =
    let pagina = calcular_numero_nuevapagina paginas_totales tabla pid in
    let mismo =
      respuesta_pagina_nueva-enviada r especial (posicion_memoria_a_puntero pagina 5 page_size)
        puntero (ap (λ x. x.0) h) in
    let lugar =
      ap (λ q. puntero_a_posicion_memoria q page_size pid) (sym mismo)
      ∙ puntero-posicion_memoria pid pagina 5 page_size (omega arith) cabe in
    (
      record (nueva_pagina page_size pid pagina) {
        lista_de_bloques = bloques_de_pagina_nueva page_size bytes;
      },
      crear_nuevo_bloque bytes (bloque_inicial page_size) (bloque_inicial page_size ∷ []),
      _,
      sym (ap (λ x. x.1) h),
      refl,
      refl,
      refl,
      refl,
      ap pos (sym (ap (λ d. d.pagina_id) lugar)),
      ap (λ d. d.offset) lugar,
    )
asignar_en_pagina_nueva-puntero tabla page_size paginas_totales pid bytes pedido r especial puntero
      tabla' entra cabe h =
    absurd (ground (arith, h))
