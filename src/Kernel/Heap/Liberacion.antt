-- ===== src/Kernel/Heap/Liberacion.antt =====
-- Giving blocks and pages back, the statistics of a process, and the request of the CPU: the rest of
-- Segundo tp/kernel/src/manejo_heap.c, and `pedido_bloque_memoria` and `liberar_bloque` of
-- Segundo tp/kernel/src/capaMemoria.c.
use so_commons.Base.{
  ℕ, suc, ◌+◌, ◌*◌, ◌/◌, ◌%◌, Bool, true, false, Option, none, some, List, [], ◌∷◌, ◌==◌, ltb,
  if◌then◌else◌, ◌>>=◌, negsuc, get_elem?, set, map,
}
use so_commons.Memoria.{Respuesta, escritura_satisfactoria, error_en_escritura, pagina_liberada}
use so_commons.Kernel.Heap.{
  Bloque, NodoTablaHeap, metadata_bloque_size, bloque_inicial, unir_libres,
}
use so_commons.Kernel.Heap.Tablas.{
  Tabla, es_la_pagina, igual_a, AlCpu, pedido_memoria_rechazado, sin_mensaje, liberacion_invalida,
  liberacion_exitosa, RespuestasPedido, asignar_paginas_heap,
}

-- `entrada_info_proceso`, less the semaphore, the bursts and the system calls.
pub record EntradaInfoProceso : Type 0 where
  pub pid : ℕ
  pub cantidad_allocs : ℕ
  pub total_allocado : ℕ
  pub total_liberado : ℕ
  pub cantidad_liberaciones : ℕ

unfoldable pub contabilizar_alloc : List EntradaInfoProceso → ℕ → ℕ → List EntradaInfoProceso
contabilizar_alloc [] pid bytes_pedidos = []
contabilizar_alloc (e ∷ es) pid bytes_pedidos =
    if e.pid == pid
    then record e {
      cantidad_allocs = e.cantidad_allocs + 1;
      total_allocado = e.total_allocado + bytes_pedidos;
    }
      ∷ es
    else e ∷ contabilizar_alloc es pid bytes_pedidos

unfoldable pub contabilizar_free : List EntradaInfoProceso → ℕ → ℕ → List EntradaInfoProceso
contabilizar_free [] pid bytes_liberados = []
contabilizar_free (e ∷ es) pid bytes_liberados =
    if e.pid == pid
    then record e {
      cantidad_liberaciones = e.cantidad_liberaciones + 1;
      total_liberado = e.total_liberado + bytes_liberados;
    }
      ∷ es
    else e ∷ contabilizar_free es pid bytes_liberados

abbrev pub una_mas :
    Bloque
    → Option (ℕ × Bloque × List Bloque) × List EntradaInfoProceso
    → Option (ℕ × Bloque × List Bloque) × List EntradaInfoProceso
una_mas b (none, info) = (none, info)
una_mas b (some (k, x, bs), info) = (some (suc k, x, b ∷ bs), info)

-- The inner loop of `liberar_bloque_heap` over blocks: each block it passes counts as freed, and the one at
-- the offset is marked.
unfoldable pub marcar_libre :
    ℕ
    → ℕ
    → List EntradaInfoProceso
    → List Bloque
    → Option (ℕ × Bloque × List Bloque) × List EntradaInfoProceso
unfolding contabilizar_free
marcar_libre pid offset info [] = (none, info)
marcar_libre pid offset info (b ∷ bs) =
    let info' = contabilizar_free info pid b.size in
    let resto = una_mas b (marcar_libre pid offset info' bs) in
    if b.offset == offset
    then (some (0, record b { is_used = false }, record b { is_used = false } ∷ bs), info')
    else resto

-- `borrar_pagina_en_kernel`: the first page with the numbers of the one at hand goes.
unfoldable pub borrar_pagina_en_kernel : Tabla → ℕ → ℕ → Tabla
borrar_pagina_en_kernel [] pagina pid = []
borrar_pagina_en_kernel (p ∷ ps) pagina pid =
    if es_la_pagina pagina pid p then ps else p ∷ borrar_pagina_en_kernel ps pagina pid

abbrev pub fue_liberada : Respuesta → Bool
fue_liberada pagina_liberada = true
fue_liberada _ = false

-- `chekear_paginas_libres` on a page with one block: memory is asked to free it.
unfoldable pub chekear_paginas_libres : Tabla → ℕ → ℕ → List Respuesta → Option Tabla
unfolding borrar_pagina_en_kernel
chekear_paginas_libres tabla pagina pid [] = none
chekear_paginas_libres tabla pagina pid (r ∷ rs) =
    if fue_liberada r then some (borrar_pagina_en_kernel tabla pagina pid) else some tabla

-- `nro_bloque = -1` on the only block left.
abbrev pub marcar_especial : Bloque → Bloque
marcar_especial b = record b { nro_bloque = negsuc 0 }

-- `compactar` on page `i` of the table: the joins, and with one block left the page goes back. With no
-- block it dereferences the NULL of `list_get`.
unfoldable pub compactar : Tabla → ℕ → ℕ → ℕ → List Respuesta → Option Tabla
unfolding unir_libres chekear_paginas_libres
compactar tabla i pagina pid rs = get_elem? tabla i >>= λ p.
    unir_libres rs p.lista_de_bloques >>= λ (n, bs, sobran). elim bs [
      | [] ↦ none
      | b ∷ [] ↦
          chekear_paginas_libres
            (set tabla i (record p { lista_de_bloques = marcar_especial b ∷ [] })) pagina pid sobran
      | b ∷ c ∷ cs ↦ some (set tabla i (record p { lista_de_bloques = b ∷ c ∷ cs }))
    ]

abbrev pub despues_de :
    NodoTablaHeap
    → Option (ℕ × Bloque × Tabla) × List EntradaInfoProceso
    → Option (ℕ × Bloque × Tabla) × List EntradaInfoProceso
despues_de p (none, info) = (none, info)
despues_de p (some (i, b, ps), info) = (some (suc i, b, p ∷ ps), info)

-- The outer loop of `liberar_bloque_heap`. The source does not reset `j` for a second page of the same numbers:
-- the table has at most one page of each.
unfoldable pub marcar_en_tabla :
    ℕ
    → ℕ
    → ℕ
    → List EntradaInfoProceso
    → Tabla
    → Option (ℕ × Bloque × Tabla) × List EntradaInfoProceso
unfolding marcar_libre
marcar_en_tabla pagina pid offset info [] = (none, info)
marcar_en_tabla pagina pid offset info (p ∷ ps) =
    let resto = despues_de p (marcar_en_tabla pagina pid offset info ps) in
    if es_la_pagina pagina pid p
    then (let (hallado, info') = marcar_libre pid offset info p.lista_de_bloques in
        elim hallado [
          | none ↦ (none, info')
          | some (k, b, bs) ↦ (some (0, b, record p { lista_de_bloques = bs } ∷ ps), info')
        ])
    else resto

-- The tables of the heap.
pub record EstadoHeap : Type 0 where
  pub tabla_heap : Tabla
  pub lista_info_procesos : List EntradaInfoProceso

-- After the block was found: the answer to the write of its metadata is the first of `rs`.
abbrev pub con_bloque : EstadoHeap → ℕ → ℕ → ℕ → List Respuesta → Option (AlCpu × EstadoHeap)
con_bloque e i pagina pid [] = none
con_bloque e i pagina pid (error_en_escritura ∷ rs) = some (liberacion_invalida, e)
con_bloque e i pagina pid (escritura_satisfactoria ∷ rs) =
    compactar e.tabla_heap i pagina pid rs >>= λ tabla.
    some (liberacion_exitosa, record e { tabla_heap = tabla })
con_bloque e i pagina pid (_ ∷ rs) = some (sin_mensaje, e)

-- The count of system calls (`agregarSyscallAPcb`) is left out.
unfoldable pub liberar_bloque_heap :
    EstadoHeap → ℕ → ℕ → ℕ → List Respuesta → Option (AlCpu × EstadoHeap)
unfolding marcar_en_tabla compactar
liberar_bloque_heap e page_size puntero pid rs =
    let pagina = puntero / page_size in
    let (hallado, info) =
      marcar_en_tabla pagina pid (puntero % page_size) e.lista_info_procesos e.tabla_heap in
    elim hallado [
      | none ↦ some (liberacion_invalida, record e { lista_info_procesos = info })
      | some (i, b, tabla) ↦
          con_bloque (record { tabla_heap = tabla; lista_info_procesos = info }) i pagina pid rs
    ]

-- `liberar_paginas`: the pages of the process lose their numbers and have one free block. They stay in
-- the table.
abbrev pub pagina_sin_duenio : ℕ → NodoTablaHeap → NodoTablaHeap
pagina_sin_duenio page_size p = record p {
  pid = negsuc 0;
  numero_pagina = negsuc 0;
  lista_de_bloques = bloque_inicial page_size ∷ [];
}

unfoldable pub liberar_paginas : Tabla → ℕ → ℕ → Tabla
liberar_paginas tabla page_size pid =
    map (λ p. if igual_a p.pid pid then pagina_sin_duenio page_size p else p) tabla

-- The request of the CPU: larger than a page it is refused, and the caller ends the program.
unfoldable pub pedido_bloque_memoria :
    EstadoHeap → ℕ → ℕ → ℕ → ℕ → RespuestasPedido → Option (AlCpu × EstadoHeap)
unfolding contabilizar_alloc asignar_paginas_heap
pedido_bloque_memoria e page_size paginas_totales pid bytes_pedidos rs =
    let info = contabilizar_alloc e.lista_info_procesos pid bytes_pedidos in
    let asignado : Option (AlCpu × EstadoHeap) =
      asignar_paginas_heap e.tabla_heap page_size paginas_totales pid bytes_pedidos rs
      >>= λ (r, tabla). some (r, record { tabla_heap = tabla; lista_info_procesos = info }) in
    if ltb page_size (bytes_pedidos + metadata_bloque_size * 2)
    then some (pedido_memoria_rechazado, e)
    else asignado
