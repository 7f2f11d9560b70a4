-- ===== src/Kernel/Tests.antt =====
-- Concrete pages of heap, and the theorems on the heap at them: pages of 32 bytes.
use so_commons.Base.{
  ℕ, ◌≤◌, ◌≡◌, refl, Bool, ◌==◌, ℤ, none, false, some, List, [], ◌∷◌, arith, All, get_elem?, pos,
  negsuc, true,
}
use so_commons.Memoria.{Respuesta, error_en_escritura, escritura_satisfactoria, paginas_asignadas}
use so_commons.Kernel.Heap.{Bloque, NodoTablaHeap, unir_libres, bloque_recortado}
use so_commons.Kernel.Heap.Bloques.{Cubre, TomaBien, tomar_bloque-Cubre}
use so_commons.Kernel.Heap.Compactacion.{
  Compactado, SinVecinosLibres, escrituras_buenas, ResultadoUnir, unir_libres-Compactado,
  unir_libres-SinVecinosLibres,
}
use so_commons.Kernel.Heap.Particion.{particionar-Cubre}
use so_commons.Kernel.Heap.Direcciones.{asignar_en_pagina_nueva-puntero}
use so_commons.Kernel.Heap.{bloque_particionado, crear_nuevo_bloque}
use so_commons.Kernel.Heap.Tablas.{buscar_pagina, particionar, direccion_enviada}
use so_commons.Base.{set, ◌++◌, ◌<◌, ◌+◌, ◌*◌, ◌^◌}
use so_commons.Kernel.Heap.PaginaNueva.{
  Cubiertas, calcular_numero_nuevapagina-es_la_pagina, asignar_en_pagina_nueva-Cubiertas,
}
use so_commons.Kernel.Heap.Tablas.{
  posicion_memoria_a_puntero, puntero_a_posicion_memoria, calcular_numero_nuevapagina, es_la_pagina,
  asignar_en_pagina_nueva,
}
use so_commons.Kernel.Heap.{unir_primeros}
use so_commons.Kernel.Heap.Liberacion.{
  EstadoHeap, contabilizar_free, marcar_libre, marcar_en_tabla, compactar, chekear_paginas_libres,
  borrar_pagina_en_kernel, liberar_bloque_heap,
}
use so_commons.Kernel.Heap.Tablas.{liberacion_exitosa}
use so_commons.Kernel.Heap.Marcas.{liberar_bloque_heap-Cubiertas}
use so_commons.Memoria.{pagina_no_liberada}
use so_commons.Kernel.Colas.{
  Pcb, Colas, listo, nuevo, pasar_proximo_proc_de_new_a_ready, pasar_pcb_de_listos_a_ejecutando,
  pasar_pcb_de_ejecutando_a_bloqueados,
}
use so_commons.Kernel.Archivos.{
  EntradaGft, EntradaPft, TablasDeArchivos, pft_de, con_pft, obtener_fd_global, agregar_a_pft,
  abrir_archivo,
}
use so_commons.Kernel.Archivos.{cerrar_archivo}
use so_commons.Kernel.Archivos.Cierre.{cerrar_archivo-EsTablas}
use so_commons.Kernel.Archivos.Cuentas.{EsTablas, cuantas, abrir_archivo-EsTablas}
use so_commons.Kernel.Compartidas.{
  VariableGlobal, CpusDelKernel, valor_compartida_asignado, enviado_valor_compartida,
  obtener_valor_compartida, asignar_valor_compartida, existe_compartida, buscar_compartida,
  tras_condicion, cpu_con_socket, buscar_cpu_by_socket, agregar_cpu_a_la_lista,
  remover_cpu_de_la_lista,
}
use so_commons.Kernel.Compartidas.Vuelta.{obtener-asignar, remover-agregar_cpu}
use so_commons.Kernel.Colas.Corridas.{
  fin, paso, admite, ejecuta, bloquea, Mantiene, Corrida-Mantiene,
}

abbrev libre_10 : Bloque
libre_10 = record { nro_bloque = pos 0; size = 10; is_used = false; offset = 5; fin = 15 }

abbrev final_12 : Bloque
final_12 = record { nro_bloque = negsuc 0; size = 12; is_used = false; offset = 20; fin = 32 }

abbrev dos_libres : List Bloque
dos_libres = libre_10 ∷ final_12 ∷ []

abbrev la_pagina : NodoTablaHeap
la_pagina = record {
  pid = pos 7;
  numero_pagina = pos 4;
  lista_de_bloques = dos_libres;
  espacio_bloque_maximo = 27;
}

abbrev una_pagina : List NodoTablaHeap
una_pagina = la_pagina ∷ []

unir_libres-Compactado_example :
    ResultadoUnir 5 32 (escritura_satisfactoria ∷ error_en_escritura ∷ []) dos_libres
unir_libres-Compactado_example =
    unir_libres-Compactado (escritura_satisfactoria ∷ error_en_escritura ∷ []) 5 32 dos_libres
      (refl, (refl, refl))

unir_libres-SinVecinosLibres_example :
    (n : ℕ) × (bs' : List Bloque) × (sobran : List Respuesta) × (unir_libres
        (escrituras_buenas 2)
        dos_libres
      ≡ some (n, bs', sobran))
    × Compactado 5 32 dos_libres n bs'
    × SinVecinosLibres bs'
unir_libres-SinVecinosLibres_example =
    unir_libres-SinVecinosLibres 2 5 32 dos_libres (refl, (refl, refl)) (omega arith)

tomar_bloque-Cubre_example : TomaBien 5 32 6 dos_libres dos_libres
tomar_bloque-Cubre_example =
    tomar_bloque-Cubre 5 32 6 dos_libres dos_libres (refl, (refl, refl)) (refl, tt)

encuentra_la_pagina : buscar_pagina una_pagina 4 7 ≡ some 0
unfolding buscar_pagina
encuentra_la_pagina = refl

particionar-Cubre_example :
    (bs : List Bloque) × (particionar una_pagina 4 7 3 0 0
      ≡ some (true, set una_pagina 0 (record la_pagina { lista_de_bloques = bs })))
    × Cubre 5 32 bs
    × (get_elem? bs 0 ≡ some (bloque_recortado libre_10 3))
    × (get_elem? bs 1 ≡ some (bloque_particionado libre_10 3))
particionar-Cubre_example =
    particionar-Cubre una_pagina 5 32 4 7 3 0 0 la_pagina libre_10 encuentra_la_pagina refl refl
      (refl, (refl, refl)) (omega arith)

abbrev bloque_de_6 : Bloque
bloque_de_6 = record { nro_bloque = pos 0; size = 6; is_used = true; offset = 5; fin = 11 }

abbrev resto_de_6 : Bloque
resto_de_6 = record { nro_bloque = negsuc 0; size = 16; is_used = false; offset = 16; fin = 32 }

abbrev pagina_de_6 : NodoTablaHeap
pagina_de_6 = record {
  pid = pos 7;
  numero_pagina = pos 5;
  lista_de_bloques = bloque_de_6 ∷ resto_de_6 ∷ [];
  espacio_bloque_maximo = 27;
}

sirve_pagina_nueva :
    asignar_en_pagina_nueva una_pagina 32 3 7 6 paginas_asignadas escritura_satisfactoria
      escritura_satisfactoria
    ≡ (direccion_enviada 165, una_pagina ++ (pagina_de_6 ∷ []))
unfolding asignar_en_pagina_nueva calcular_numero_nuevapagina posicion_memoria_a_puntero
    crear_nuevo_bloque
sirve_pagina_nueva = refl

cabe_el_puntero : calcular_numero_nuevapagina 3 una_pagina 7 * 32 + 5 < 2 ^ 31
unfolding calcular_numero_nuevapagina
cabe_el_puntero = omega arith

asignar_en_pagina_nueva-puntero_example :
    (p : NodoTablaHeap) × (b : Bloque) × (bs : List Bloque) × (una_pagina ++ (pagina_de_6 ∷ [])
      ≡ una_pagina ++ (p ∷ []))
    × (p.lista_de_bloques ≡ b ∷ bs)
    × (p.pid ≡ pos 7)
    × (b.is_used ≡ true)
    × (b.size ≡ 6)
    × (p.numero_pagina ≡ pos (puntero_a_posicion_memoria 165 32 7).pagina_id)
    × ((puntero_a_posicion_memoria 165 32 7).offset ≡ pos b.offset)
asignar_en_pagina_nueva-puntero_example =
    asignar_en_pagina_nueva-puntero una_pagina 32 3 7 6 paginas_asignadas escritura_satisfactoria
      escritura_satisfactoria 165 (una_pagina ++ (pagina_de_6 ∷ [])) (omega arith) cabe_el_puntero
      sirve_pagina_nueva

calcular_numero_nuevapagina-es_la_pagina_example :
    (3 ≤ calcular_numero_nuevapagina 3 una_pagina 7)
    × All (λ p. es_la_pagina (calcular_numero_nuevapagina 3 una_pagina 7) 7 p ≡ false) una_pagina
calcular_numero_nuevapagina-es_la_pagina_example =
    calcular_numero_nuevapagina-es_la_pagina 3 una_pagina 7

asignar_en_pagina_nueva-Cubiertas_example :
    Cubiertas 32
      (asignar_en_pagina_nueva una_pagina 32 3 7 20 paginas_asignadas escritura_satisfactoria
        escritura_satisfactoria).1
asignar_en_pagina_nueva-Cubiertas_example =
    asignar_en_pagina_nueva-Cubiertas una_pagina 32 3 7 20 paginas_asignadas escritura_satisfactoria
      escritura_satisfactoria (((refl, (refl, refl)), (refl, tt)), tt) (omega arith)

abbrev proceso_7 : Pcb
proceso_7 = record { pid = 7; estado = listo; exit_code = negsuc 19 }

abbrev en_listos : Colas
en_listos = record {
  planificacion_activada = true;
  cola_nuevos = [];
  cola_listos = proceso_7 ∷ [];
  cola_ejecutando = [];
  cola_bloqueados = [];
  cola_finalizados = [];
  cantidad_de_procesos_en_sistema = 1;
}

abbrev proceso_8 : Pcb
proceso_8 = record { pid = 8; estado = nuevo; exit_code = negsuc 19 }

abbrev con_nuevo : Colas
con_nuevo = record en_listos { cola_nuevos = proceso_8 ∷ [] }

abbrev admitido_8 : Colas
admitido_8 = pasar_proximo_proc_de_new_a_ready con_nuevo true

Corrida-Mantiene_example : Mantiene con_nuevo (
    pasar_pcb_de_ejecutando_a_bloqueados
      (pasar_pcb_de_listos_a_ejecutando admitido_8 proceso_7)
      proceso_7)
Corrida-Mantiene_example = Corrida-Mantiene (
    paso (admite con_nuevo) (
      paso (ejecuta admitido_8 proceso_7) (
        paso (bloquea (pasar_pcb_de_listos_a_ejecutando admitido_8 proceso_7) proceso_7) (
          fin (
            pasar_pcb_de_ejecutando_a_bloqueados
              (pasar_pcb_de_listos_a_ejecutando admitido_8 proceso_7) proceso_7)))))

abbrev ocupado_10 : Bloque
ocupado_10 = record libre_10 { is_used = true }

abbrev con_tabla : List Bloque → EstadoHeap
con_tabla bs = record {
  tabla_heap =
      record {
        pid = pos 7;
        numero_pagina = pos 4;
        lista_de_bloques = bs;
        espacio_bloque_maximo = 27;
      }
      ∷ [];
  lista_info_procesos = [];
}

abbrev todo_libre : Bloque
todo_libre = record { nro_bloque = negsuc 0; size = 27; is_used = false; offset = 5; fin = 15 }

libera_ocupado :
    liberar_bloque_heap
      (con_tabla (ocupado_10 ∷ final_12 ∷ []))
      32
      133
      7
      (escritura_satisfactoria ∷ escritura_satisfactoria ∷ pagina_no_liberada ∷ [])
    ≡ some (liberacion_exitosa, con_tabla (todo_libre ∷ []))
unfolding liberar_bloque_heap marcar_en_tabla marcar_libre contabilizar_free compactar unir_libres
    unir_primeros chekear_paginas_libres borrar_pagina_en_kernel
libera_ocupado = refl

liberar_bloque_heap-Cubiertas_example : Cubiertas 32 (con_tabla (todo_libre ∷ [])).tabla_heap
liberar_bloque_heap-Cubiertas_example =
    liberar_bloque_heap-Cubiertas (con_tabla (ocupado_10 ∷ final_12 ∷ [])) 32 133 7
      (escritura_satisfactoria ∷ escritura_satisfactoria ∷ pagina_no_liberada ∷ [])
      liberacion_exitosa (con_tabla (todo_libre ∷ [])) (((refl, (refl, refl)), (refl, tt)), tt)
      libera_ocupado

abbrev entrada_inicial : EntradaPft
entrada_inicial = record {
  cursor = 0;
  global_fd = 0;
  creacion = false;
  escritura = false;
  lectura = false;
}

abbrev lectora : EntradaPft
lectora = record { cursor = 0; global_fd = 0; creacion = false; escritura = false; lectura = true }

abbrev con_entradas : List EntradaGft → List EntradaPft → TablasDeArchivos
con_entradas gft es = record {
  global_file_table = gft;
  dic_pid_pft = (7, entrada_inicial ∷ entrada_inicial ∷ entrada_inicial ∷ es) ∷ [];
}

abbrev abierto_una_vez : EntradaGft
abierto_una_vez = record { nombre = 97 ∷ []; abiertos = 1 }

sin_archivos-EsTablas : EsTablas (con_entradas [] [])
unfolding cuantas
sin_archivos-EsTablas = record {
  cuentas = λ fd e h. absurd (ground arith);
  dentro = λ fd h. refl;
  iniciales = (omega arith, tt);
}

abre_primero :
    abrir_archivo (λ a b. false) (con_entradas [] []) 7 (97 ∷ []) lectora true false
    ≡ some (pos 3, con_entradas (abierto_una_vez ∷ []) (lectora ∷ []))
unfolding abrir_archivo obtener_fd_global agregar_a_pft pft_de con_pft
abre_primero = refl

abrir_archivo-EsTablas_example : EsTablas (con_entradas (abierto_una_vez ∷ []) (lectora ∷ []))
abrir_archivo-EsTablas_example =
    abrir_archivo-EsTablas (λ a b. false) (con_entradas [] []) 7 (97 ∷ []) lectora true false
      (pos 3) (con_entradas (abierto_una_vez ∷ []) (lectora ∷ [])) sin_archivos-EsTablas
      abre_primero

abbrev abierto_dos_veces : EntradaGft
abierto_dos_veces = record { nombre = 97 ∷ []; abiertos = 2 }

abre_segundo :
    abrir_archivo
      (λ a b. true)
      (con_entradas (abierto_una_vez ∷ []) (lectora ∷ []))
      7
      (97 ∷ [])
      lectora
      true
      false
    ≡ some (pos 4, con_entradas (abierto_dos_veces ∷ []) (lectora ∷ lectora ∷ []))
unfolding abrir_archivo obtener_fd_global agregar_a_pft pft_de con_pft
abre_segundo = refl

abierto_dos_veces-EsTablas :
    EsTablas (con_entradas (abierto_dos_veces ∷ []) (lectora ∷ lectora ∷ []))
abierto_dos_veces-EsTablas =
    abrir_archivo-EsTablas (λ a b. true) (con_entradas (abierto_una_vez ∷ []) (lectora ∷ [])) 7
      (97 ∷ []) lectora true false (pos 4)
      (con_entradas (abierto_dos_veces ∷ []) (lectora ∷ lectora ∷ []))
      (abrir_archivo-EsTablas (λ a b. false) (con_entradas [] []) 7 (97 ∷ []) lectora true false
        (pos 3) (con_entradas (abierto_una_vez ∷ []) (lectora ∷ [])) sin_archivos-EsTablas
        abre_primero)
      abre_segundo

tiene_sus_entradas :
    pft_de (con_entradas (abierto_dos_veces ∷ []) (lectora ∷ lectora ∷ [])).dic_pid_pft 7
    ≡ some (entrada_inicial ∷ entrada_inicial ∷ entrada_inicial ∷ lectora ∷ lectora ∷ [])
unfolding pft_de
tiene_sus_entradas = refl

cerrar_archivo-EsTablas_example :
    (t' : TablasDeArchivos) × (cerrar_archivo
        (con_entradas (abierto_dos_veces ∷ []) (lectora ∷ lectora ∷ []))
        7
        3
      ≡ some (true, t'))
    × EsTablas t'
cerrar_archivo-EsTablas_example =
    cerrar_archivo-EsTablas (con_entradas (abierto_dos_veces ∷ []) (lectora ∷ lectora ∷ [])) 7 3
      (entrada_inicial ∷ entrada_inicial ∷ entrada_inicial ∷ lectora ∷ lectora ∷ []) lectora
      abierto_dos_veces abierto_dos_veces-EsTablas tiene_sus_entradas (omega arith) refl refl
      (omega arith)

abbrev primera : List ℕ → List ℕ → Bool
primera (c ∷ a ∷ xs) (d ∷ b ∷ ys) = a == b
primera _ _ = false

abbrev compartidas_con : ℤ → List VariableGlobal
compartidas_con x =
    record { identificador = 33 ∷ 98 ∷ []; valor = pos 1 }
    ∷ record { identificador = 33 ∷ 97 ∷ []; valor = x }
    ∷ []

asigna_la_segunda :
    asignar_valor_compartida primera (compartidas_con (pos 2)) (97 ∷ []) (pos 5)
    ≡ (valor_compartida_asignado (pos 5), compartidas_con (pos 5))
unfolding asignar_valor_compartida existe_compartida buscar_compartida tras_condicion
asigna_la_segunda = refl

obtener-asignar_example :
    (pos 5 ≡ pos 5)
    × (obtener_valor_compartida primera (compartidas_con (pos 5)) (97 ∷ [])
        ≡ (enviado_valor_compartida (pos 5), compartidas_con (pos 5)))
obtener-asignar_example =
    obtener-asignar primera (compartidas_con (pos 2)) (compartidas_con (pos 5)) (97 ∷ []) (pos 5)
      (pos 5) asigna_la_segunda

abbrev dos_cpus : CpusDelKernel
dos_cpus = record {
  cpus_libres = record { socket = 4; pid_en_ejecucion = 0; quantum_acumulado = 0 } ∷ [];
  cpus_ocupadas = record { socket = 6; pid_en_ejecucion = 7; quantum_acumulado = 2 } ∷ [];
}

nadie_con_ocho : buscar_cpu_by_socket dos_cpus 8 ≡ none
unfolding buscar_cpu_by_socket cpu_con_socket
nadie_con_ocho = refl

remover-agregar_cpu_example :
    remover_cpu_de_la_lista (agregar_cpu_a_la_lista dos_cpus 8 0) 8 ≡ dos_cpus
remover-agregar_cpu_example = remover-agregar_cpu dos_cpus 8 0 nadie_con_ocho
