-- ===== src/Memoria/Tests.antt =====
-- Concrete states of the memory server, and its theorems at them: four frames of sixteen bytes, the
-- first two reserved for the table, and page 0 of process 7 in frame 2.
use so_commons.Base.{
  ℕ, ◌≤◌, ◌≡◌, refl, ◌⊎◌, inl, true, false, none, some, [], ◌∷◌, arith, negsuc, pos, get_elem?,
  replicate, int32,
}
use so_commons.Memoria.{
  RegistroMarcoPagina, MemoriaConfig, EstructurasMemoria, codigo, char, vacio, memoria_insuficiente,
  paginas_asignadas, escritura_satisfactoria, lectura_satisfactoria,
}
use so_commons.Memoria.Tabla.{
  sondear, funcion_hash, libre, coincide, ocupar, buscar_indice, asignar_en_tabla_de_frame,
  vaciar_en_tabla_de_frame,
}
use so_commons.Memoria.{proceso, frame_vacio}
use so_commons.Memoria.Tabla.Filas.{
  FilaCambiada, asignar_en_tabla_de_frame-FilaCambiada, vaciar_en_tabla_de_frame-FilaCambiada,
}
use so_commons.Memoria.Tabla.Asignacion.{TablaValida, Ausente, buscar_indice_cases}
use so_commons.Memoria.Cache.{obtener_registro_aux}
use so_commons.Memoria.Cache.Limites.{Limites, Cacheada, escribir_cache-Limites}
use so_commons.Memoria.Datos.{leer_bytes, leer_dato_interna, escribir_dato_interna}
use so_commons.Memoria.Datos.Coherencia.{Coherente}
use so_commons.Memoria.Datos.Coherencia.Escritura.{Escrita, escribir_dato_interna-Coherente}
use so_commons.Memoria.Datos.Coherencia.Lectura.{
  Leida, leer_dato_interna-Coherente, leer-escribir_dato_interna,
}
use so_commons.Memoria.Servidor.{
  escribir_a_memoria, leer_de_memoria, respuesta, respuesta_con_dato, atender_kernel, atender_cpu,
}
use so_commons.Memoria.Servidor.Mensajes.{atender_cpu-atender_kernel}
use so_commons.Memoria.Datos.{DireccionLogica}
use so_commons.Memoria.Paginas.{
  asignar_paginas_de_heap, crear_paginas_iniciales, crear_estructuras, fila_vacia,
  cantidad_paginas_necesarias,
}
use so_commons.Memoria.Paginas.Heap.{Cuenta, asignar_paginas_de_heap_cases}
use so_commons.Memoria.Paginas.Iniciales.{SinPaginas, crear_paginas_iniciales_cases}
use so_commons.Memoria.Paginas.Inicio.{Inicial, reservada, crear_estructuras-Inicial}

abbrev config : MemoriaConfig
config = record {
  marcos = 4;
  marco_size = 16;
  entradas_cache = 2;
  cache_x_proc = 1;
  stack_size = 1;
}

abbrev inicial : EstructurasMemoria
inicial = record {
  config = config;
  memoria = replicate 64 0;
  cache = [];
  tabla_paginas = reservada ∷ reservada ∷ fila_vacia ∷ fila_vacia ∷ [];
  frames_vacios = 2;
  ultima_pagina_cacheada = negsuc 0;
  contador_aux_cache = [];
  tipo_de_paginas = replicate 4 vacio;
  lecturas = 0;
  escrituras = 0;
  colisiones = 0;
  aciertos_de_cache = 0;
}

abbrev con_pagina : EstructurasMemoria
con_pagina = ocupar inicial 2 7 0 codigo

inicial-TablaValida : TablaValida inicial
inicial-TablaValida = record { positiva = omega arith; filas = refl; tipos = refl }

con_pagina-TablaValida : TablaValida con_pagina
con_pagina-TablaValida = record { positiva = omega arith; filas = refl; tipos = refl }

con_pagina-Coherente : Coherente con_pagina
con_pagina-Coherente = record {
  tabla = con_pagina-TablaValida;
  bytes = refl;
  paginas = tt;
  unicas = tt;
}

con_pagina-Limites : Limites con_pagina
unfolding obtener_registro_aux
con_pagina-Limites = record {
  entradas = omega arith;
  por_proceso = omega arith;
  contadas = λ q. refl;
  acotadas = λ q. omega arith;
  lugar = omega arith;
  usada = inl refl;
}

en_marco_2 : buscar_indice config con_pagina.tabla_paginas 7 0 ≡ some (some 2)
unfolding buscar_indice sondear funcion_hash int32
en_marco_2 = refl

tres_bytes : leer_bytes (1 ∷ 2 ∷ 3 ∷ []) 0 3 ≡ some (1 ∷ 2 ∷ 3 ∷ [])
unfolding leer_bytes
tres_bytes = refl

leer-escribir_dato_interna_example :
    (m' m'' : EstructurasMemoria) × (escribir_dato_interna con_pagina 7 0 4 3 (1 ∷ 2 ∷ 3 ∷ []) char
      ≡ some (escritura_satisfactoria, m'))
    × (leer_dato_interna m' 7 0 4 3 ≡ some (lectura_satisfactoria, 1 ∷ 2 ∷ 3 ∷ [], m''))
    × (m'.config ≡ config)
leer-escribir_dato_interna_example =
    leer-escribir_dato_interna con_pagina 7 0 2 4 3 (1 ∷ 2 ∷ 3 ∷ []) (1 ∷ 2 ∷ 3 ∷ []) char
      con_pagina-Coherente con_pagina-Limites en_marco_2 tres_bytes (omega arith)

leer_dato_interna-Coherente_example : Leida con_pagina 7 0 2 4 3
leer_dato_interna-Coherente_example =
    leer_dato_interna-Coherente con_pagina 7 0 2 4 3 con_pagina-Coherente con_pagina-Limites
      en_marco_2 (omega arith)

escribir_dato_interna-Coherente_example :
    (m' : EstructurasMemoria) × (escribir_dato_interna con_pagina 7 0 4 3 (1 ∷ 2 ∷ 3 ∷ []) char
      ≡ some (escritura_satisfactoria, m'))
    × Escrita con_pagina m' 2 4 (1 ∷ 2 ∷ 3 ∷ [])
    × Coherente m'
    × Limites m'
escribir_dato_interna-Coherente_example =
    escribir_dato_interna-Coherente con_pagina 7 0 2 4 3 (1 ∷ 2 ∷ 3 ∷ []) (1 ∷ 2 ∷ 3 ∷ []) char
      con_pagina-Coherente con_pagina-Limites en_marco_2 tres_bytes (omega arith)

escribir_cache-Limites_example : Cacheada con_pagina 7 0 (replicate 16 0)
escribir_cache-Limites_example =
    escribir_cache-Limites con_pagina 7 0 (replicate 16 0) con_pagina-Limites

asignar_en_tabla_de_frame-FilaCambiada_example :
    ((asignar_en_tabla_de_frame inicial 7 0 codigo ≡ some (memoria_insuficiente, inicial))
      × ((f : ℕ) (r : RegistroMarcoPagina)
          → get_elem? inicial.tabla_paginas f ≡ some r
          → libre r ≡ false))
    ⊎ ((f : ℕ) × (r : RegistroMarcoPagina) × (m' : EstructurasMemoria) × (asignar_en_tabla_de_frame
            inicial 7 0 codigo
          ≡ some (paginas_asignadas, m'))
        × (get_elem? inicial.tabla_paginas f ≡ some r)
        × (libre r ≡ true)
        × FilaCambiada inicial f (record { duenio = proceso 7; pagina_id = 0 }) codigo m')
asignar_en_tabla_de_frame-FilaCambiada_example =
    asignar_en_tabla_de_frame-FilaCambiada inicial 7 0 codigo inicial-TablaValida

vaciar_en_tabla_de_frame-FilaCambiada_example :
    ((vaciar_en_tabla_de_frame con_pagina 7 0 ≡ some (memoria_insuficiente, con_pagina))
      × Ausente con_pagina 7 0)
    ⊎ ((f : ℕ) × (r : RegistroMarcoPagina) × (m' : EstructurasMemoria) × (vaciar_en_tabla_de_frame
            con_pagina 7 0
          ≡ some (paginas_asignadas, m'))
        × (get_elem? con_pagina.tabla_paginas f ≡ some r)
        × (coincide 7 0 r ≡ true)
        × FilaCambiada con_pagina f (record { duenio = frame_vacio; pagina_id = 0 }) vacio m')
vaciar_en_tabla_de_frame-FilaCambiada_example =
    vaciar_en_tabla_de_frame-FilaCambiada con_pagina 7 0 con_pagina-TablaValida

buscar_indice_cases_example :
    ((buscar_indice config con_pagina.tabla_paginas 7 0 ≡ some none) × Ausente con_pagina 7 0)
    ⊎ ((f : ℕ) × (r : RegistroMarcoPagina) × (buscar_indice config con_pagina.tabla_paginas 7 0
          ≡ some (some f))
        × (get_elem? con_pagina.tabla_paginas f ≡ some r)
        × (coincide 7 0 r ≡ true))
buscar_indice_cases_example =
    buscar_indice_cases con_pagina 7 0 con_pagina-TablaValida (omega arith)

asignar_paginas_de_heap_cases_example :
    (m' : EstructurasMemoria) × TablaValida m'
    × (((asignar_paginas_de_heap con_pagina 7 2 ≡ some (paginas_asignadas, m'))
          × Cuenta con_pagina m' 7 2)
        ⊎ ((asignar_paginas_de_heap con_pagina 7 2 ≡ some (memoria_insuficiente, m'))
            × Cuenta con_pagina m' 7 0))
asignar_paginas_de_heap_cases_example =
    asignar_paginas_de_heap_cases con_pagina 7 2 con_pagina-TablaValida

crear_paginas_iniciales_cases_example :
    (m' : EstructurasMemoria) × TablaValida m'
    × (((crear_paginas_iniciales inicial 7 2 ≡ some (paginas_asignadas, m'))
          × Cuenta inicial m' 7 2)
        ⊎ ((crear_paginas_iniciales inicial 7 2 ≡ some (memoria_insuficiente, m'))
            × SinPaginas inicial m' 7))
crear_paginas_iniciales_cases_example =
    crear_paginas_iniciales_cases inicial 7 2 inicial-TablaValida

caben_las_paginas : cantidad_paginas_necesarias config ≤ 4
unfolding cantidad_paginas_necesarias
caben_las_paginas = omega arith

crear_estructuras-Inicial_example :
    (m : EstructurasMemoria) × (crear_estructuras config (replicate 64 0) ≡ some m)
    × Inicial config m
    × Coherente m
    × Limites m
crear_estructuras-Inicial_example =
    crear_estructuras-Inicial config (replicate 64 0) (omega arith) (omega arith) (omega arith)
      (omega arith) refl caben_las_paginas

abbrev direccion : DireccionLogica
direccion = record { pid = 7; pagina_id = 0; offset = pos 4; tamanio = 3 }

atender_cpu-atender_kernel_example :
    (m' m'' : EstructurasMemoria) × (atender_kernel con_pagina
        (escribir_a_memoria direccion (1 ∷ 2 ∷ 3 ∷ []))
      ≡ some (respuesta escritura_satisfactoria, m'))
    × (atender_cpu m' (leer_de_memoria direccion)
        ≡ some (respuesta_con_dato lectura_satisfactoria (1 ∷ 2 ∷ 3 ∷ []), m''))
atender_cpu-atender_kernel_example =
    atender_cpu-atender_kernel con_pagina 7 0 2 4 (1 ∷ 2 ∷ 3 ∷ []) con_pagina-Coherente
      con_pagina-Limites en_marco_2 (omega arith)
