-- ===== src/Memoria/Paginas.antt =====
-- The requests for pages: `asignarPaginasDeHeap`, `crearPaginasIniciales`,
-- `finalizarProgramaEnMemoria` and `liberarPagina` of Segundo tp/memoria/src/gestionDeMemoria.c, and
-- `crearEstructuras` of Segundo tp/memoria/src/memoria.c.
pub mod Heap
pub mod Iniciales
pub mod Inicio
use so_commons.Base.{
  ℕ, zero, suc, ◌+◌, ◌-◌, ◌*◌, ◌/◌, ◌%◌, Option, none, some, List, [], ◌∷◌, ◌==◌, if◌then◌else◌,
  ◌>>=◌, ltb, negsuc, replicate,
}
use so_commons.Memoria.{
  Duenio, frame_vacio, frame_reservado, RegistroMarcoPagina, TipoDePagina, codigo, stack, heap,
  vacio, MemoriaConfig, EstructurasMemoria, Respuesta, memoria_insuficiente, paginas_asignadas,
  pagina_liberada, pagina_no_liberada,
}
use so_commons.Memoria.Tabla.{
  asignar_en_tabla_de_frame, vaciar_en_tabla_de_frame, obtener_paginas_asignadas_por_proceso,
  eliminar_paginas_de_proceso,
}
use so_commons.Memoria.Cache.{limpiar_cache_por_pid}

-- The inner loop: gives back the pages `y`, `y + 1`, …, whatever the answers.
unfoldable pub deshacer : EstructurasMemoria → ℕ → ℕ → ℕ → Option EstructurasMemoria
unfolding vaciar_en_tabla_de_frame
deshacer m pid y zero = some m
deshacer m pid y (suc faltan) =
    vaciar_en_tabla_de_frame m pid y >>= λ (_, m'). deshacer m' pid (suc y) faltan

-- `respuesta == MEMORIA_INSUFICIENTE`
abbrev pub segun {ℓ} : {A : Type ℓ} → Respuesta → A → A → A
segun memoria_insuficiente falla sigue = falla
segun _ falla sigue = sigue

-- The outer loop at round `i`, with `faltan` rounds left.
unfoldable pub asignar_desde :
    EstructurasMemoria → ℕ → ℕ → ℕ → ℕ → Option (Respuesta × EstructurasMemoria)
unfolding asignar_en_tabla_de_frame deshacer
asignar_desde m pid base i zero = some (paginas_asignadas, m)
asignar_desde m pid base i (suc faltan) =
    asignar_en_tabla_de_frame m pid (base + i) heap >>= λ (respuesta, m').
    let sigue = asignar_desde m' pid base (suc i) faltan in
    segun respuesta (deshacer m' pid base i >>= λ m''. some (memoria_insuficiente, m'')) sigue

-- The new pages are numbered from the number of frames of the process on.
unfoldable pub asignar_paginas_de_heap :
    EstructurasMemoria → ℕ → ℕ → Option (Respuesta × EstructurasMemoria)
unfolding asignar_desde obtener_paginas_asignadas_por_proceso
asignar_paginas_de_heap m pid paginas_heap =
    asignar_desde m pid (obtener_paginas_asignadas_por_proceso m pid) 0 paginas_heap

-- The loop at page `i`. The pages from `paginasFijas - stackSize` on are of the stack: that number
-- may be negative, and then none is.
unfoldable pub crear_desde :
    EstructurasMemoria → ℕ → ℕ → TipoDePagina → ℕ → ℕ → Option (Respuesta × EstructurasMemoria)
unfolding asignar_en_tabla_de_frame eliminar_paginas_de_proceso
crear_desde m pid paginas_fijas tipo i zero = some (paginas_asignadas, m)
crear_desde m pid paginas_fijas tipo i (suc faltan) =
    let tipo' = if i + m.config.stack_size == paginas_fijas then stack else tipo in
    asignar_en_tabla_de_frame m pid i tipo' >>= λ (respuesta, m').
    let sigue = crear_desde m' pid paginas_fijas tipo' (suc i) faltan in
    segun respuesta (some (memoria_insuficiente, (eliminar_paginas_de_proceso m' pid).1)) sigue

unfoldable pub crear_paginas_iniciales :
    EstructurasMemoria → ℕ → ℕ → Option (Respuesta × EstructurasMemoria)
unfolding crear_desde
crear_paginas_iniciales m pid paginas_fijas = crear_desde m pid paginas_fijas codigo 0 paginas_fijas

unfoldable pub finalizar_programa_en_memoria :
    EstructurasMemoria → ℕ → Respuesta × EstructurasMemoria
unfolding limpiar_cache_por_pid eliminar_paginas_de_proceso
finalizar_programa_en_memoria m pid = eliminar_paginas_de_proceso (limpiar_cache_por_pid m pid) pid

abbrev pub resultado_de_liberar : Respuesta → Respuesta
resultado_de_liberar paginas_asignadas = pagina_liberada
resultado_de_liberar _ = pagina_no_liberada

unfoldable pub liberar_pagina : EstructurasMemoria → ℕ → ℕ → Option (Respuesta × EstructurasMemoria)
unfolding vaciar_en_tabla_de_frame
liberar_pagina m pid pagina_id = vaciar_en_tabla_de_frame m pid pagina_id >>= λ (resultado, m').
    some (resultado_de_liberar resultado, m')

-- `sizeof(registroMarcoPagina)`, two packed `int32_t`s.
abbrev pub tamanio_de_registro : ℕ
tamanio_de_registro = 8

-- The frames that the table takes, rounded up.
unfoldable pub cantidad_paginas_necesarias : MemoriaConfig → ℕ
cantidad_paginas_necesarias c =
    let tamanio_tabla = tamanio_de_registro * c.marcos in
    if tamanio_tabla % c.marco_size == 0
    then tamanio_tabla / c.marco_size
    else tamanio_tabla / c.marco_size + 1

abbrev pub fila_vacia : RegistroMarcoPagina
fila_vacia = record { duenio = frame_vacio; pagina_id = 0 }

-- The first rows are marked as reserved; a row that is not there is dereferenced as NULL.
unfoldable pub reservar : ℕ → List RegistroMarcoPagina → Option (List RegistroMarcoPagina)
reservar zero filas = some filas
reservar (suc n) [] = none
reservar (suc n) (r ∷ rs) =
    reservar n rs >>= λ rs'. some (record { duenio = frame_reservado; pagina_id = 0 } ∷ rs')

-- `contenido` is what `malloc` returned. The page number of an empty row is not set by the source
-- and is not read before it is set: 0 stands for it.
unfoldable pub crear_estructuras : MemoriaConfig → List ℕ → Option EstructurasMemoria
unfolding cantidad_paginas_necesarias reservar
crear_estructuras c contenido =
    reservar (cantidad_paginas_necesarias c) (replicate c.marcos fila_vacia) >>= λ tabla.
    some (record {
      config = c;
      memoria = contenido;
      cache = [];
      tabla_paginas = tabla;
      frames_vacios = c.entradas_cache;
      ultima_pagina_cacheada = negsuc 0;
      contador_aux_cache = [];
      tipo_de_paginas = replicate c.marcos vacio;
      lecturas = 0;
      escrituras = 0;
      colisiones = 0;
      aciertos_de_cache = 0;
    })
