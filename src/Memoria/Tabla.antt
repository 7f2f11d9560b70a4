-- ===== src/Memoria/Tabla.antt =====
-- The inverted page table: Segundo tp/memoria/src/estructurasAdministrativas.c and the search
-- `buscarIndiceEnPaginaDeFrames` of Segundo tp/memoria/src/gestionDeMemoria.c.
-- Both walk the frames from a hashed start, once round; `sondear` is that walk.
pub mod Sondeo
pub mod Asignacion
pub mod Filas
use so_commons.Base.{
  ℕ, zero, suc, ◌+◌, ◌-◌, ◌*◌, ◌/◌, Bool, true, false, ◌&&◌, Option, none, some, List, [], ◌∷◌,
  ◌==◌, leb, map, if◌then◌else◌, ℤ, pos, negsuc, int32, get_elem?, set, count,
}
use so_commons.Memoria.{
  Duenio, frame_vacio, frame_reservado, proceso, RegistroMarcoPagina, TipoDePagina, vacio,
  MemoriaConfig, EstructurasMemoria, Respuesta, memoria_insuficiente, paginas_asignadas,
  eliminacion_de_proceso_satisfactorio,
}

-- `registro->pid == FRAME_VACIO`
abbrev pub es_vacio : Duenio → Bool
es_vacio frame_vacio = true
es_vacio frame_reservado = false
es_vacio (proceso p) = false

-- `registro->pid == pid`
abbrev pub es_de : ℕ → Duenio → Bool
es_de pid frame_vacio = false
es_de pid frame_reservado = false
es_de pid (proceso p) = p == pid

-- `registro->paginaId==paginaId && registro->pid==pid`
abbrev pub coincide : ℕ → ℕ → RegistroMarcoPagina → Bool
coincide pid pagina r = es_de pid r.duenio && r.pagina_id == pagina

abbrev pub libre : RegistroMarcoPagina → Bool
libre r = es_vacio r.duenio

-- The value before the conversion to `int32_t`.
abbrev pub hash_exacto : MemoriaConfig → ℕ → ℕ → ℕ
hash_exacto c pid pagina = c.marcos / 100 * 4 + pid * (c.marcos / 18) + pagina

unfoldable pub funcion_hash : MemoriaConfig → ℕ → ℕ → ℤ
funcion_hash c pid pagina = int32 (hash_exacto c pid pagina)

-- At most `rondas` frames from index `k` on, going round at `marcos`: the first whose row passes the
-- test. The outer `none` is a row that `list_get` does not find.
unfoldable pub sondear :
    (RegistroMarcoPagina → Bool) → List RegistroMarcoPagina → ℕ → ℕ → ℕ → Option (Option ℕ)
sondear prueba tabla marcos zero k = some none
sondear prueba tabla marcos (suc rondas) k =
    let indice = if k == marcos then 0 else k in
    let resto = sondear prueba tabla marcos rondas (suc indice) in
    elim (get_elem? tabla indice) [
      | none ↦ none
      | some r ↦ if prueba r then some (some indice) else resto
    ]

-- A hash past the last frame starts at the last frame.
abbrev pub acotar : ℕ → ℕ → ℕ
acotar marcos n = if leb marcos n then marcos - 1 else n

-- The frame of a page, and whether the search collided. A negative hash is read as an index.
unfoldable pub buscar_indice : MemoriaConfig → List RegistroMarcoPagina → ℕ → ℕ → Option (Option ℕ)
unfolding funcion_hash sondear
buscar_indice c tabla pid pagina = elim (funcion_hash c pid pagina) [
  | pos n ↦ sondear (coincide pid pagina) tabla c.marcos c.marcos (acotar c.marcos n)
  | negsuc n ↦ if c.marcos == 0 then some none else none
]

-- `frameAprox`, where the search starts.
abbrev pub frame_aprox : MemoriaConfig → ℕ → ℕ → ℤ
frame_aprox c pid pagina = elim (funcion_hash c pid pagina) [
  | pos n ↦ pos (acotar c.marcos n)
  | negsuc n ↦ negsuc n
]

-- `i != 0` where the page was found: the walk has left its start.
abbrev pub colision : ℤ → Option ℕ → ℕ
colision aprox none = 0
colision (pos a) (some f) = if a == f then 0 else 1
colision (negsuc a) (some f) = 1

-- The index found, and the state with the collision counted. (`none` in the pair is -1.)
unfoldable pub buscar_indice_en_pagina_de_frames :
    EstructurasMemoria → ℕ → ℕ → Option (Option ℕ × EstructurasMemoria)
unfolding buscar_indice
buscar_indice_en_pagina_de_frames m pid pagina =
    elim (buscar_indice m.config m.tabla_paginas pid pagina) [
      | none ↦ none
      | some encontrado ↦ some (
        encontrado,
        record m {
          colisiones = m.colisiones + colision (frame_aprox m.config pid pagina) encontrado;
        },
      )
    ]

abbrev pub indice_inicial : MemoriaConfig → ℕ → ℕ → ℕ
indice_inicial c pid pagina = elim (funcion_hash c pid pagina) [
  | pos n ↦ acotar c.marcos n
  | negsuc n ↦ 0
]

-- The row at an index given to a process, or emptied (its page number stays), and its type.
abbrev pub ocupar : EstructurasMemoria → ℕ → ℕ → ℕ → TipoDePagina → EstructurasMemoria
ocupar m indice pid pagina tipo = record m {
  tabla_paginas = set m.tabla_paginas indice (record { duenio = proceso pid; pagina_id = pagina });
  tipo_de_paginas = set m.tipo_de_paginas indice tipo;
}

abbrev pub vaciar_marco : EstructurasMemoria → ℕ → ℕ → EstructurasMemoria
vaciar_marco m indice pagina = record m {
  tabla_paginas = set m.tabla_paginas indice (record { duenio = frame_vacio; pagina_id = pagina });
  tipo_de_paginas = set m.tipo_de_paginas indice vacio;
}

-- The do-while loop makes one round even if `marcos` is 0.
abbrev pub rondas : MemoriaConfig → ℕ
rondas c = suc (c.marcos - 1)

-- `escribirEnTablaDeFrame` with `vaciar` = 0.
unfoldable pub asignar_en_tabla_de_frame :
    EstructurasMemoria → ℕ → ℕ → TipoDePagina → Option (Respuesta × EstructurasMemoria)
unfolding sondear funcion_hash
asignar_en_tabla_de_frame m pid pagina tipo =
    elim (sondear libre m.tabla_paginas m.config.marcos (rondas m.config)
      (indice_inicial m.config pid pagina)) [
        | none ↦ none
        | some none ↦ some (memoria_insuficiente, m)
        | some (some f) ↦ some (paginas_asignadas, ocupar m f pid pagina tipo)
      ]

-- `escribirEnTablaDeFrame` with `vaciar` = 1. The row found keeps its page number, `pagina`.
unfoldable pub vaciar_en_tabla_de_frame :
    EstructurasMemoria → ℕ → ℕ → Option (Respuesta × EstructurasMemoria)
unfolding sondear funcion_hash
vaciar_en_tabla_de_frame m pid pagina =
    elim (sondear (coincide pid pagina) m.tabla_paginas m.config.marcos (rondas m.config)
      (indice_inicial m.config pid pagina)) [
        | none ↦ none
        | some none ↦ some (memoria_insuficiente, m)
        | some (some f) ↦ some (paginas_asignadas, vaciar_marco m f pagina)
      ]

abbrev pub marco_del_proceso : ℕ → RegistroMarcoPagina → Bool
marco_del_proceso pid r = es_de pid r.duenio

-- The loop runs over `marcos` rows, which are all of `tablaPaginas`.
unfoldable pub obtener_paginas_asignadas_por_proceso : EstructurasMemoria → ℕ → ℕ
obtener_paginas_asignadas_por_proceso m pid = count (marco_del_proceso pid) m.tabla_paginas

-- What the loop of `eliminarPaginasDeProceso` does to a row, and to the type at the same index.
abbrev pub desasignar : ℕ → RegistroMarcoPagina → RegistroMarcoPagina
desasignar pid r = if es_de pid r.duenio then record r { duenio = frame_vacio } else r

unfoldable pub eliminar_tipos : ℕ → List RegistroMarcoPagina → List TipoDePagina → List TipoDePagina
eliminar_tipos pid [] ts = ts
eliminar_tipos pid (r ∷ rs) [] = []
eliminar_tipos pid (r ∷ rs) (t ∷ ts) =
    (if es_de pid r.duenio then vacio else t) ∷ eliminar_tipos pid rs ts

unfoldable pub eliminar_paginas_de_proceso : EstructurasMemoria → ℕ → Respuesta × EstructurasMemoria
unfolding eliminar_tipos
eliminar_paginas_de_proceso m pid = (
  eliminacion_de_proceso_satisfactorio,
  record m {
    tabla_paginas = map (desasignar pid) m.tabla_paginas;
    tipo_de_paginas = eliminar_tipos pid m.tabla_paginas m.tipo_de_paginas;
  },
)
