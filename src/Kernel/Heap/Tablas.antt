-- ===== src/Kernel/Heap/Tablas.antt =====
-- The table of heap pages: the rest of Segundo tp/kernel/src/manejo_heap.c, with the requests for
-- memory of a process. What memory answers is an argument, in the order in which it is read.
use so_commons.Base.{
  ℕ, zero, suc, ◌+◌, ◌-◌, ◌*◌, ◌/◌, ◌%◌, ◌^◌, Bool, true, false, ◌&&◌, Option, none, some, List, [],
  ◌∷◌, ◌++◌, ◌==◌, leb, ltb, if◌then◌else◌, ◌>>=◌, ℤ, pos, negsuc, get_elem?, set,
}
use so_commons.Memoria.{Respuesta, escritura_satisfactoria, error_en_escritura, paginas_asignadas}
use so_commons.Memoria.Datos.{DireccionLogica}
use so_commons.Kernel.Heap.{
  Bloque, NodoTablaHeap, metadata_bloque_size, bloque_inicial, alcanza, alcanza_especial,
  tomar_bloque, bloque_particionado, bloque_recortado, crear_nuevo_bloque, recalcular_offset_final,
}

abbrev pub Tabla : Type 0
Tabla = List NodoTablaHeap

-- A number of a page against one of a request.
abbrev pub igual_a : ℤ → ℕ → Bool
igual_a (pos m) n = m == n
igual_a (negsuc m) n = false

abbrev pub es_la_pagina : ℕ → ℕ → NodoTablaHeap → Bool
es_la_pagina pagina pid p = igual_a p.numero_pagina pagina && igual_a p.pid pid

-- Pointers of a process: `posicionMemoria_a_puntero` and `puntero_a_posicionMemoria`. The sum of int32_t is
-- returned as a t_puntero, a u_int32_t.
unfoldable pub posicion_memoria_a_puntero : ℕ → ℕ → ℕ → ℕ
posicion_memoria_a_puntero pagina_id offset tamanio_pagina =
    (pagina_id * tamanio_pagina + offset) % 2 ^ 32

unfoldable pub puntero_a_posicion_memoria : ℕ → ℕ → ℕ → DireccionLogica
puntero_a_posicion_memoria puntero tamanio_pagina pid = record {
  pid = pid;
  pagina_id = puntero / tamanio_pagina;
  offset = pos (puntero % tamanio_pagina);
  tamanio = 4;
}

abbrev pub hay_lugar : ℕ → List Bloque → Bool
hay_lugar bytes_pedidos [] = false
hay_lugar bytes_pedidos (b ∷ bs) =
    if alcanza bytes_pedidos b
    then true
    else (if alcanza_especial bytes_pedidos b then true else hay_lugar bytes_pedidos bs)

-- The number of the first page of the process with a block large enough; `none` is -1.
unfoldable pub check_existe_pagina_con_espacio : Tabla → ℕ → ℕ → Option ℤ
check_existe_pagina_con_espacio [] bytes_pedidos pid = none
check_existe_pagina_con_espacio (p ∷ ps) bytes_pedidos pid =
    if igual_a p.pid pid && hay_lugar bytes_pedidos p.lista_de_bloques
    then some p.numero_pagina
    else check_existe_pagina_con_espacio ps bytes_pedidos pid

abbrev pub mas_adelante : NodoTablaHeap → Option (ℕ × ℕ × Tabla) → Option (ℕ × ℕ × Tabla)
mas_adelante p none = none
mas_adelante p (some (i, k, ps)) = some (suc i, k, p ∷ ps)

-- The block taken: its page in the table, its place there, and the table. The owner of the page is
-- not compared. `none`: no page of that number has room, and the source returns a block it did not
-- take.
unfoldable pub buscar_primer_bloque_libre : Tabla → ℕ → ℕ → Option (ℕ × ℕ × Tabla)
unfolding tomar_bloque
buscar_primer_bloque_libre [] pagina bytes_pedidos = none
buscar_primer_bloque_libre (p ∷ ps) pagina bytes_pedidos =
    let resto = mas_adelante p (buscar_primer_bloque_libre ps pagina bytes_pedidos) in
    if igual_a p.numero_pagina pagina
    then elim (tomar_bloque bytes_pedidos p.lista_de_bloques p.lista_de_bloques) [
      | none ↦ resto
      | some (k, bs) ↦ some (0, k, record p { lista_de_bloques = bs } ∷ ps)
    ]
    else resto

-- The loop of `buscar_pagina` at index `i`: the page of the process, or the last one; `none` when there is
-- no page, and the source returns a pointer it did not set.
unfoldable pub buscar_pagina_desde : ℕ → Tabla → ℕ → ℕ → Option ℕ
buscar_pagina_desde i [] pagina pid = none
buscar_pagina_desde i (p ∷ ps) pagina pid =
    if es_la_pagina pagina pid p
    then some i
    else elim (buscar_pagina_desde (suc i) ps pagina pid) [ none ↦ some i | some j ↦ some j ]

unfoldable pub buscar_pagina : Tabla → ℕ → ℕ → Option ℕ
unfolding buscar_pagina_desde
buscar_pagina tabla pagina pid = buscar_pagina_desde 0 tabla pagina pid

unfoldable pub indice_de_offset : ℕ → ℕ → List Bloque → Option ℕ
indice_de_offset i offset [] = none
indice_de_offset i offset (b ∷ bs) =
    if b.offset == offset then some i else indice_de_offset (suc i) offset bs

-- `some none` is -1.
unfoldable pub buscar_indice_bloque : Tabla → ℕ → ℕ → ℕ → Option (Option ℕ)
unfolding buscar_pagina indice_de_offset
buscar_indice_bloque tabla pagina offset pid = buscar_pagina tabla pagina pid >>= λ q.
    get_elem? tabla q >>= λ p. some (indice_de_offset 0 offset p.lista_de_bloques)

-- `max` after one page.
abbrev pub siguiente : ℕ → NodoTablaHeap → ℕ → ℕ
siguiente max p pid = elim p.numero_pagina [
  | pos n ↦ if leb max n && igual_a p.pid pid then n + 1 else max
  | negsuc n ↦ max
]

-- The loop, from `max` = `cantidad_paginas_totales` of the process on.
unfoldable pub calcular_numero_nuevapagina : ℕ → Tabla → ℕ → ℕ
calcular_numero_nuevapagina max [] pid = max
calcular_numero_nuevapagina max (p ∷ ps) pid =
    calcular_numero_nuevapagina (siguiente max p pid) ps pid

abbrev pub nueva_pagina : ℕ → ℕ → ℕ → NodoTablaHeap
nueva_pagina page_size pid nro_pagina = record {
  pid = pos pid;
  numero_pagina = pos nro_pagina;
  lista_de_bloques = bloque_inicial page_size ∷ [];
  espacio_bloque_maximo = page_size - metadata_bloque_size;
}

unfoldable pub crear_nueva_pagina_heap : Tabla → ℕ → ℕ → ℕ → Tabla
crear_nueva_pagina_heap tabla page_size pid nro_pagina =
    tabla ++ (nueva_pagina page_size pid nro_pagina ∷ [])

-- `list_add_in_index`, at an index of the list or at its end.
unfoldable pub insertar : ℕ → Bloque → List Bloque → List Bloque
insertar zero b bs = b ∷ bs
insertar (suc n) b [] = b ∷ []
insertar (suc n) b (c ∷ bs) = c ∷ insertar n b bs

abbrev pub cambiar_bloques : Tabla → ℕ → (List Bloque → List Bloque) → Tabla
cambiar_bloques tabla i f = elim (get_elem? tabla i) [
  | none ↦ tabla
  | some p ↦ set tabla i (record p { lista_de_bloques = f p.lista_de_bloques })
]

-- The cut of a block larger than the request, at place `k` of page `i` of the table. The new block goes
-- into the page of the process. It says whether memory was asked to write.
unfoldable pub particionar : Tabla → ℕ → ℕ → ℕ → ℕ → ℕ → Option (Bool × Tabla)
unfolding buscar_indice_bloque buscar_pagina insertar
particionar tabla pagina pid bytes_pedidos i k = get_elem? tabla i >>= λ p.
    get_elem? p.lista_de_bloques k >>= λ b.
    if ltb (bytes_pedidos + metadata_bloque_size) b.size
    then (buscar_indice_bloque tabla pagina b.offset pid >>= λ indice. elim indice [
      | none ↦ some (false, tabla)
      | some n ↦ buscar_pagina tabla pagina pid >>= λ q. some (
        true,
        cambiar_bloques
            (cambiar_bloques tabla i (λ bs. set bs k (bloque_recortado b bytes_pedidos))) q
            (insertar (suc n) (bloque_particionado b bytes_pedidos)),
      )
    ])
    else some (false, tabla)

-- What the kernel sends to the CPU.
pub data AlCpu : Type 0 where
  pedido_memoria_rechazado sin_mensaje liberacion_invalida liberacion_exitosa : AlCpu
  direccion_enviada : ℕ → AlCpu

abbrev pub fue_error : Respuesta → Bool
fue_error error_en_escritura = true
fue_error _ = false

abbrev pub fue_bien : Respuesta → Bool
fue_bien escritura_satisfactoria = true
fue_bien _ = false

-- The answer to the CPU after the three writes of a request on a page that exists.
abbrev pub respuesta_pedido : Respuesta → Respuesta → Respuesta → ℕ → AlCpu
respuesta_pedido r especial particionada puntero =
    if fue_error r
    then pedido_memoria_rechazado
    else (if fue_error especial
        then pedido_memoria_rechazado
        else (if fue_error particionada
            then pedido_memoria_rechazado
            else (if fue_bien r && fue_bien especial && fue_bien particionada
                then direccion_enviada puntero
                else sin_mensaje)))

-- The branch of `asignar_paginas_heap` on a page with room. `particionada` is the answer to the write of the
-- cut block, which is asked for only after a cut.
unfoldable pub asignar_en_pagina :
    Tabla → ℕ → ℕ → ℕ → ℕ → Respuesta → Respuesta → Respuesta → Option (AlCpu × Tabla)
unfolding buscar_primer_bloque_libre particionar posicion_memoria_a_puntero
asignar_en_pagina tabla page_size pagina pid bytes_pedidos particionada r especial =
    buscar_primer_bloque_libre tabla pagina bytes_pedidos >>= λ (i, k, tabla').
    get_elem? tabla' i >>= λ p. get_elem? p.lista_de_bloques k >>= λ b.
    particionar tabla' pagina pid bytes_pedidos i k >>= λ (cortado, tabla''). some (
      respuesta_pedido r especial (if cortado then particionada else escritura_satisfactoria)
          (posicion_memoria_a_puntero pagina b.offset page_size),
      tabla'',
    )

-- The answer to the CPU on a new page: it is refused only if both writes fail.
abbrev pub respuesta_pagina_nueva : Respuesta → Respuesta → ℕ → AlCpu
respuesta_pagina_nueva r especial puntero =
    if fue_error r && fue_error especial
    then pedido_memoria_rechazado
    else (if fue_bien r && fue_bien especial then direccion_enviada puntero else sin_mensaje)

-- The blocks of a new page after its first request. `pedido_bloque_memoria` has checked that the request
-- fits with the metadata of two blocks.
abbrev pub bloques_de_pagina_nueva : ℕ → ℕ → List Bloque
bloques_de_pagina_nueva page_size bytes_pedidos =
    let especial = bloque_inicial page_size in
    let nuevo = crear_nuevo_bloque bytes_pedidos especial (especial ∷ []) in
    nuevo ∷ recalcular_offset_final especial nuevo ∷ []

-- The branch with no room: a page is asked for. `paginas_totales` is `cantidad_paginas_totales` of
-- the process. A refused page ends the program.
unfoldable pub asignar_en_pagina_nueva :
    Tabla → ℕ → ℕ → ℕ → ℕ → Respuesta → Respuesta → Respuesta → AlCpu × Tabla
unfolding calcular_numero_nuevapagina posicion_memoria_a_puntero crear_nuevo_bloque
asignar_en_pagina_nueva tabla page_size paginas_totales pid bytes_pedidos pedido r especial =
    let pagina = calcular_numero_nuevapagina paginas_totales tabla pid in
    elim pedido [
      | paginas_asignadas ↦ (
        respuesta_pagina_nueva r especial (posicion_memoria_a_puntero pagina 5 page_size),
        tabla
            ++ (record (nueva_pagina page_size pid pagina) {
              lista_de_bloques = bloques_de_pagina_nueva page_size bytes_pedidos;
            }
                ∷ []),
      )
      | _ ↦ (pedido_memoria_rechazado, tabla)
    ]

-- The answers that one request reads.
pub record RespuestasPedido : Type 0 where
  pub pedido_de_pagina : Respuesta
  pub particionada : Respuesta
  pub del_bloque : Respuesta
  pub del_especial : Respuesta

-- `contabilizarAlloc`, which comes first, is in `pedido_bloque_memoria`.
unfoldable pub asignar_paginas_heap :
    Tabla → ℕ → ℕ → ℕ → ℕ → RespuestasPedido → Option (AlCpu × Tabla)
unfolding check_existe_pagina_con_espacio asignar_en_pagina asignar_en_pagina_nueva
asignar_paginas_heap tabla page_size paginas_totales pid bytes_pedidos rs =
    let nueva : Option (AlCpu × Tabla) = some (
      asignar_en_pagina_nueva tabla page_size paginas_totales pid bytes_pedidos rs.pedido_de_pagina
        rs.del_bloque rs.del_especial) in
    elim (check_existe_pagina_con_espacio tabla bytes_pedidos pid) [
      | none ↦ nueva
      | some (pos pagina) ↦
          asignar_en_pagina tabla page_size pagina pid bytes_pedidos rs.particionada rs.del_bloque
            rs.del_especial
      | some (negsuc n) ↦ nueva
    ]
