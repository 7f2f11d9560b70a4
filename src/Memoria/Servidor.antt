-- ===== src/Memoria/Servidor.antt =====
-- The messages that the memory server serves: the loops of `funcionKernel` and `funcionCpu` of
-- Segundo tp/memoria/src/memoria.c, one message each, and the codes of
-- Segundo tp/rocketLibrary/protocolos/protocols.h.
pub mod Mensajes
use so_commons.Base.{ℕ, Option, none, some, List, [], ◌>>=◌}
use so_commons.Memoria.{
  EstructurasMemoria, Respuesta, TipoDeDatos, char, int, paginas_asignadas, lectura_satisfactoria,
  proceso_iniciado_en_memoria, memoria_insuficiente,
}
use so_commons.Memoria.Datos.{DireccionLogica, leer_dato, escribir_dato}
use so_commons.Memoria.Paginas.{
  asignar_paginas_de_heap, crear_paginas_iniciales, finalizar_programa_en_memoria, liberar_pagina,
}

-- PROTOCOLO_KERNEL_Y_CPU_A_MEMORIA, with what follows each code.
pub data Mensaje : Type 0 where
  inicializar_programa pedido_asignar_paginas : ℕ → ℕ → Mensaje
  envio_texto_a_memoria : List ℕ → Mensaje
  escribir_a_memoria : DireccionLogica → List ℕ → Mensaje
  leer_de_memoria : DireccionLogica → Mensaje
  finalizar_programa : ℕ → Mensaje
  mensaje_liberar_pagina : ℕ → ℕ → Mensaje

-- What the server sends back.
pub data Envio : Type 0 where
  nada : Envio
  respuesta : Respuesta → Envio
  respuesta_con_dato : Respuesta → List ℕ → Envio

abbrev pub iniciado : Respuesta → Respuesta
iniciado paginas_asignadas = proceso_iniciado_en_memoria
iniciado _ = memoria_insuficiente

-- The bytes go only with LECTURA_SATISFACTORIA.
abbrev pub envio_lectura : Respuesta → List ℕ → Envio
envio_lectura lectura_satisfactoria dato = respuesta_con_dato lectura_satisfactoria dato
envio_lectura r dato = respuesta r

abbrev pub atender_lectura :
    EstructurasMemoria → DireccionLogica → Option (Envio × EstructurasMemoria)
atender_lectura m puntero = leer_dato m puntero >>= λ (r, dato, m'). some (envio_lectura r dato, m')

abbrev pub atender_escritura :
    EstructurasMemoria
    → DireccionLogica
    → List ℕ
    → TipoDeDatos
    → Option (Envio × EstructurasMemoria)
atender_escritura m puntero dato tipo =
    escribir_dato m puntero dato tipo >>= λ (r, m'). some (respuesta r, m')

-- One message of the kernel.
unfoldable pub atender_kernel : EstructurasMemoria → Mensaje → Option (Envio × EstructurasMemoria)
unfolding leer_dato escribir_dato asignar_paginas_de_heap crear_paginas_iniciales
    finalizar_programa_en_memoria liberar_pagina
atender_kernel m (inicializar_programa pid paginas_fijas) =
    crear_paginas_iniciales m pid paginas_fijas >>= λ (r, m'). some (respuesta (iniciado r), m')
atender_kernel m (pedido_asignar_paginas pid paginas_heap) =
    asignar_paginas_de_heap m pid paginas_heap >>= λ (r, m'). some (respuesta r, m')
atender_kernel m (envio_texto_a_memoria texto) = some (nada, m)
atender_kernel m (escribir_a_memoria puntero dato) = atender_escritura m puntero dato char
atender_kernel m (leer_de_memoria puntero) = atender_lectura m puntero
atender_kernel m (finalizar_programa pid) =
    let (r, m') = finalizar_programa_en_memoria m pid in some (respuesta r, m')
atender_kernel m (mensaje_liberar_pagina pid pagina_id) =
    liberar_pagina m pid pagina_id >>= λ (r, m'). some (respuesta r, m')

-- One message of a CPU, which reads and writes only. It writes every datum as INT.
unfoldable pub atender_cpu : EstructurasMemoria → Mensaje → Option (Envio × EstructurasMemoria)
unfolding leer_dato escribir_dato
atender_cpu m (escribir_a_memoria puntero dato) = atender_escritura m puntero dato int
atender_cpu m (leer_de_memoria puntero) = atender_lectura m puntero
atender_cpu m mensaje = some (nada, m)
