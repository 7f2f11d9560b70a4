-- ===== src/Cpu/Sistema.antt =====
-- The primitives that ask the kernel, the `operaciones_kernel_...` and the shared variables of
-- Segundo tp/cpu/src/primitivas.c. The answer of the kernel is an argument; after any but the
-- expected ones the program goes on as if nothing had come.
use so_commons.Base.{ℕ, Bool, true, Option, none, some, List, [], if◌then◌else◌}
use so_commons.Cpu.{
  ExitCode, PcbActual, acceso_archivo_inexistente, intento_leer_archivo_sin_permiso,
  intento_escribir_archivo_sin_permiso, excepcion_memoria, no_se_pueden_dar_mas_paginas,
  variable_compartida_inexistente, operar_semaforo_inexistente,
  espacio_insuficiente_para_crear_archivo,
}
use so_commons.Cpu.Pedidos.{Parte}
use so_commons.Cpu.Funciones.{funciones_asignar}

-- The constructors of PROTOCOLO_KERNEL_A_CPU that the primitives look at.
pub data RespuestaKernel : Type 0 where
  compartida_inexistente : RespuestaKernel
  enviado_valor_compartida : RespuestaKernel
  valor_compartida_asignado : RespuestaKernel
  semaforo_inexistente : RespuestaKernel
  semaforo_operado_correctamente : (cambiar_proceso : Bool) → RespuestaKernel
  pedido_memoria_rechazado : RespuestaKernel
  direccion_enviada : RespuestaKernel
  liberacion_invalida : RespuestaKernel
  liberacion_exitosa : RespuestaKernel
  archivo_invalido : RespuestaKernel
  espacio_insuficiente_en_fs : RespuestaKernel
  permiso_archivo_invalido : RespuestaKernel
  apertura_exitosa : RespuestaKernel
  borrado_erroneo : RespuestaKernel
  borrado_exitoso : RespuestaKernel
  cerrado_exitoso : RespuestaKernel
  mover_cursor_exitoso : RespuestaKernel
  escritura_exitosa : RespuestaKernel
  lectura_exitosa : RespuestaKernel

unfoldable pub abortar_con : PcbActual → ExitCode → PcbActual
abortar_con pcb codigo = record pcb {
  ec = codigo;
  banderas = record pcb.banderas { terminacion_anormal = true };
}

-- The guard at the start of each primitive, and the end of the process if its answer has an exit code.
unfoldable pub abortar_si : PcbActual → Option ExitCode → PcbActual
unfolding abortar_con
abortar_si pcb codigo =
    if pcb.banderas.terminacion_anormal
    then pcb
    else elim codigo [ none ↦ pcb | some c ↦ abortar_con pcb c ]

unfoldable pub funciones_obtener_valor_compartida : PcbActual → RespuestaKernel → PcbActual
unfolding abortar_si
funciones_obtener_valor_compartida pcb respuesta =
    abortar_si pcb
      (elim respuesta [ compartida_inexistente ↦ some variable_compartida_inexistente | _ ↦ none ])

unfoldable pub funciones_asignar_valor_compartida : PcbActual → RespuestaKernel → PcbActual
unfolding abortar_si
funciones_asignar_valor_compartida pcb respuesta =
    abortar_si pcb
      (elim respuesta [ compartida_inexistente ↦ some variable_compartida_inexistente | _ ↦ none ])

-- `wait` after its message: the kernel answers twice when the semaphore is there.
unfoldable pub tras_wait : PcbActual → RespuestaKernel → PcbActual
unfolding abortar_con
tras_wait pcb respuesta = elim respuesta [
  | semaforo_inexistente ↦ abortar_con pcb operar_semaforo_inexistente
  | semaforo_operado_correctamente cambiar ↦
      if cambiar
      then record pcb { banderas = record pcb.banderas { cambio_proceso = true } }
      else pcb
  | _ ↦ pcb
]

-- The flag is set before the guard.
unfoldable pub operaciones_kernel_wait : PcbActual → RespuestaKernel → PcbActual
unfolding tras_wait
operaciones_kernel_wait pcb respuesta =
    let pcb1 = record pcb { banderas = record pcb.banderas { se_llamo_a_wait = true } } in
    if pcb1.banderas.terminacion_anormal then pcb1 else tras_wait pcb1 respuesta

unfoldable pub operaciones_kernel_signal : PcbActual → RespuestaKernel → PcbActual
unfolding abortar_si
operaciones_kernel_signal pcb respuesta =
    abortar_si pcb
      (elim respuesta [ semaforo_inexistente ↦ some operar_semaforo_inexistente | _ ↦ none ])

unfoldable pub operaciones_kernel_reservar : PcbActual → RespuestaKernel → PcbActual
unfolding abortar_si
operaciones_kernel_reservar pcb respuesta =
    abortar_si pcb
      (elim respuesta [ pedido_memoria_rechazado ↦ some no_se_pueden_dar_mas_paginas | _ ↦ none ])

unfoldable pub operaciones_kernel_liberar : PcbActual → RespuestaKernel → PcbActual
unfolding abortar_si
operaciones_kernel_liberar pcb respuesta =
    abortar_si pcb (elim respuesta [ liberacion_invalida ↦ some excepcion_memoria | _ ↦ none ])

unfoldable pub operaciones_kernel_abrir : PcbActual → RespuestaKernel → PcbActual
unfolding abortar_si
operaciones_kernel_abrir pcb respuesta = abortar_si pcb (elim respuesta [
  | archivo_invalido ↦ some acceso_archivo_inexistente
  | espacio_insuficiente_en_fs ↦ some espacio_insuficiente_para_crear_archivo
  | _ ↦ none
])

unfoldable pub operaciones_kernel_borrar : PcbActual → RespuestaKernel → PcbActual
unfolding abortar_si
operaciones_kernel_borrar pcb respuesta =
    abortar_si pcb (elim respuesta [ borrado_erroneo ↦ some acceso_archivo_inexistente | _ ↦ none ])

unfoldable pub operaciones_kernel_cerrar : PcbActual → RespuestaKernel → PcbActual
unfolding abortar_si
operaciones_kernel_cerrar pcb respuesta =
    abortar_si pcb
      (elim respuesta [ archivo_invalido ↦ some acceso_archivo_inexistente | _ ↦ none ])

unfoldable pub operaciones_kernel_mover_cursor : PcbActual → RespuestaKernel → PcbActual
unfolding abortar_si
operaciones_kernel_mover_cursor pcb respuesta =
    abortar_si pcb
      (elim respuesta [ archivo_invalido ↦ some acceso_archivo_inexistente | _ ↦ none ])

unfoldable pub operaciones_kernel_escribir : PcbActual → RespuestaKernel → PcbActual
unfolding abortar_si
operaciones_kernel_escribir pcb respuesta = abortar_si pcb (elim respuesta [
  | archivo_invalido ↦ some acceso_archivo_inexistente
  | permiso_archivo_invalido ↦ some intento_escribir_archivo_sin_permiso
  | _ ↦ none
])

-- `leer` after its message: the value read is assigned at the address given.
unfoldable pub tras_leer :
    ℕ → PcbActual → ℕ → RespuestaKernel → List Bool → Option (List Parte × PcbActual)
unfolding abortar_con funciones_asignar
tras_leer tamanio_pagina pcb informacion respuesta respuestas = elim respuesta [
  | archivo_invalido ↦ some ([], abortar_con pcb acceso_archivo_inexistente)
  | permiso_archivo_invalido ↦ some ([], abortar_con pcb intento_leer_archivo_sin_permiso)
  | lectura_exitosa ↦ funciones_asignar tamanio_pagina pcb informacion respuestas
  | _ ↦ some ([], pcb)
]

unfoldable pub operaciones_kernel_leer :
    ℕ → PcbActual → ℕ → RespuestaKernel → List Bool → Option (List Parte × PcbActual)
unfolding tras_leer
operaciones_kernel_leer tamanio_pagina pcb informacion respuesta respuestas =
    if pcb.banderas.terminacion_anormal
    then some ([], pcb)
    else tras_leer tamanio_pagina pcb informacion respuesta respuestas
