-- ===== src/Memoria/Cache.antt =====
-- The page cache of the memory server: `leerCache` to `eliminarRegistroAux` of
-- Segundo tp/memoria/src/gestionDeMemoria.c. The cache is a list, the page used last in front.
pub mod Orden
pub mod Desalojo
pub mod Cuentas
pub mod Limites
use so_commons.Base.{
  ℕ, zero, suc, ◌+◌, ◌-◌, Bool, true, false, ◌&&◌, not, Option, none, some, List, [], ◌∷◌, map,
  ◌==◌, if◌then◌else◌, ◌>>=◌, inc, filter,
}
use so_commons.Memoria.{RegistroCacheMemoria, RegistroAuxCache, EstructurasMemoria}

-- `registro->paginaId == pagina && registro->pid == pid`
abbrev pub es_pagina : ℕ → ℕ → RegistroCacheMemoria → Bool
es_pagina pid pagina r = r.pagina_id == pagina && r.pid == pid

abbrev pub al_frente :
    RegistroCacheMemoria
    → Option (RegistroCacheMemoria × List RegistroCacheMemoria)
    → Option (RegistroCacheMemoria × List RegistroCacheMemoria)
al_frente r none = none
al_frente r (some (e, resto)) = some (e, r ∷ resto)

-- The first entry of a page, and the list without it.
unfoldable pub quitar_pagina :
    ℕ → ℕ → List RegistroCacheMemoria → Option (RegistroCacheMemoria × List RegistroCacheMemoria)
quitar_pagina pid pagina [] = none
quitar_pagina pid pagina (r ∷ rs) =
    if es_pagina pid pagina r then some (r, rs) else al_frente r (quitar_pagina pid pagina rs)

-- A hit moves the entry to the front. `none` is the NULL of a miss, which changes nothing.
unfoldable pub leer_cache :
    List RegistroCacheMemoria → ℕ → ℕ → Option (RegistroCacheMemoria × List RegistroCacheMemoria)
unfolding quitar_pagina
leer_cache cache pid pagina = elim (quitar_pagina pid pagina cache) [
  | none ↦ none
  | some (elegido, resto) ↦ some (elegido, elegido ∷ resto)
]

-- `flushCache` empties the cache and frees all entries; the rows of the processes stay.
unfoldable pub flush_cache : EstructurasMemoria → EstructurasMemoria
flush_cache m = record m { cache = []; frames_vacios = m.config.entradas_cache }

abbrev pub es_fila_de : ℕ → RegistroAuxCache → Bool
es_fila_de pid r = r.pid == pid

-- Removes the first row of the process.
unfoldable pub eliminar_registro_aux : List RegistroAuxCache → ℕ → List RegistroAuxCache
eliminar_registro_aux [] pid = []
eliminar_registro_aux (r ∷ rs) pid =
    if es_fila_de pid r then rs else r ∷ eliminar_registro_aux rs pid

abbrev pub es_entrada_de : ℕ → RegistroCacheMemoria → Bool
es_entrada_de pid r = r.pid == pid

unfoldable pub limpiar_cache_por_pid : EstructurasMemoria → ℕ → EstructurasMemoria
unfolding eliminar_registro_aux
limpiar_cache_por_pid m pid = record m {
  cache = filter (λ r. not (es_entrada_de pid r)) m.cache;
  contador_aux_cache = eliminar_registro_aux m.contador_aux_cache pid;
}

-- The first row of the process.
unfoldable pub obtener_registro_aux : List RegistroAuxCache → ℕ → Option RegistroAuxCache
obtener_registro_aux [] pid = none
obtener_registro_aux (r ∷ rs) pid = if es_fila_de pid r then some r else obtener_registro_aux rs pid

-- `registroAux->cantidadPaginasCacheadas++` on the first row of the process.
unfoldable pub incrementar_aux : List RegistroAuxCache → ℕ → List RegistroAuxCache
incrementar_aux [] pid = []
incrementar_aux (r ∷ rs) pid =
    if es_fila_de pid r
    then record r { cantidad_paginas_cacheadas = r.cantidad_paginas_cacheadas + 1 } ∷ rs
    else r ∷ incrementar_aux rs pid

abbrev pub nuevo_registro_aux : ℕ → RegistroAuxCache
nuevo_registro_aux pid = record { pid = pid; cantidad_paginas_cacheadas = 1 }

-- `list_add` puts the new row at the end.
unfoldable pub crear_nuevo_registro_cache_aux : List RegistroAuxCache → ℕ → List RegistroAuxCache
crear_nuevo_registro_cache_aux [] pid = nuevo_registro_aux pid ∷ []
crear_nuevo_registro_cache_aux (r ∷ rs) pid = r ∷ crear_nuevo_registro_cache_aux rs pid

-- The last entry, and the list without it; `none` for the empty list.
unfoldable pub quitar_ultimo :
    List RegistroCacheMemoria → Option (RegistroCacheMemoria × List RegistroCacheMemoria)
quitar_ultimo [] = none
quitar_ultimo (r ∷ rs) = elim (quitar_ultimo rs) [
  | none ↦ some (r, [])
  | some (ultimo, resto) ↦ some (ultimo, r ∷ resto)
]

-- `registroAux->cantidadPaginasCacheadas--` on every row of the process.
abbrev pub descontar : ℕ → RegistroAuxCache → RegistroAuxCache
descontar pid r =
    if es_fila_de pid r
    then record r { cantidad_paginas_cacheadas = r.cantidad_paginas_cacheadas - 1 }
    else r

-- With an empty cache `list_get(cache, -1)` is NULL and is dereferenced.
unfoldable pub desalojar_globalmente : EstructurasMemoria → Option EstructurasMemoria
unfolding quitar_ultimo
desalojar_globalmente m = elim (quitar_ultimo m.cache) [
  | none ↦ none
  | some (a_eliminar, resto) ↦ some (record m {
    cache = resto;
    contador_aux_cache = map (descontar a_eliminar.pid) m.contador_aux_cache;
  })
]

abbrev pub con_frente :
    RegistroCacheMemoria → Option (List RegistroCacheMemoria) → Option (List RegistroCacheMemoria)
con_frente r none = none
con_frente r (some rs) = some (r ∷ rs)

-- The loop of `desalojarLocalmente` over `rondas` entries, then the removal at the index where it
-- stopped. Past the end of the cache it reads or destroys NULL.
unfoldable pub desalojar_desde :
    ℕ → ℕ → ℕ → ℕ → List RegistroCacheMemoria → Option (List RegistroCacheMemoria)
desalojar_desde pid max rondas contador [] = none
desalojar_desde pid max zero contador (r ∷ rs) = some rs
desalojar_desde pid max (suc rondas) contador (r ∷ rs) =
    let c = if es_entrada_de pid r then contador + 1 else contador in
    let resto = con_frente r (desalojar_desde pid max rondas c rs) in
    if c == max then some rs else resto

unfoldable pub desalojar_localmente : EstructurasMemoria → ℕ → Option EstructurasMemoria
unfolding desalojar_desde
desalojar_localmente m pid =
    elim (desalojar_desde pid m.config.cache_x_proc m.config.entradas_cache 0 m.cache) [
      | none ↦ none
      | some resto ↦ some (record m { cache = resto })
    ]

abbrev pub contar_entrada : EstructurasMemoria → ℕ → EstructurasMemoria
contar_entrada m pid = record m { contador_aux_cache = incrementar_aux m.contador_aux_cache pid }

abbrev pub crear_fila : EstructurasMemoria → ℕ → EstructurasMemoria
crear_fila m pid = record m {
  contador_aux_cache = crear_nuevo_registro_cache_aux m.contador_aux_cache pid;
}

abbrev pub usar_vacio : EstructurasMemoria → EstructurasMemoria
usar_vacio m = record m {
  frames_vacios = m.frames_vacios - 1;
  ultima_pagina_cacheada = inc m.ultima_pagina_cacheada;
}

-- The branch with an empty entry left, before its last two assignments.
unfoldable pub con_vacios :
    EstructurasMemoria → ℕ → Option RegistroAuxCache → Option EstructurasMemoria
unfolding desalojar_localmente incrementar_aux crear_nuevo_registro_cache_aux
con_vacios m pid none = some (crear_fila m pid)
con_vacios m pid (some fila) =
    if fila.cantidad_paginas_cacheadas == m.config.cache_x_proc
    then desalojar_localmente m pid
    else some (contar_entrada m pid)

unfoldable pub sin_vacios :
    EstructurasMemoria → ℕ → Option RegistroAuxCache → Option EstructurasMemoria
unfolding desalojar_localmente desalojar_globalmente incrementar_aux crear_nuevo_registro_cache_aux
sin_vacios m pid none = desalojar_globalmente (crear_fila m pid)
sin_vacios m pid (some fila) =
    if fila.cantidad_paginas_cacheadas == m.config.cache_x_proc
    then desalojar_localmente m pid
    else desalojar_globalmente (contar_entrada m pid)

unfoldable pub eliminar_registro_cache_lru : EstructurasMemoria → ℕ → Option EstructurasMemoria
unfolding con_vacios sin_vacios obtener_registro_aux
eliminar_registro_cache_lru m pid =
    let fila = obtener_registro_aux m.contador_aux_cache pid in
    if m.frames_vacios == 0
    then sin_vacios m pid fila
    else (con_vacios m pid fila >>= λ m'. some (usar_vacio m'))

-- Makes room, and puts a copy of the page in front.
unfoldable pub escribir_cache :
    EstructurasMemoria → ℕ → ℕ → List ℕ → Option (RegistroCacheMemoria × EstructurasMemoria)
unfolding eliminar_registro_cache_lru
escribir_cache m pid pagina_id pagina =
    let nuevo : RegistroCacheMemoria = record {
      pid = pid;
      pagina_id = pagina_id;
      pagina = pagina;
    } in
    eliminar_registro_cache_lru m pid >>= λ m'. some (nuevo, record m' { cache = nuevo ∷ m'.cache })
