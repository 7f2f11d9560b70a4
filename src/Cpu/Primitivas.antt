-- ===== src/Cpu/Primitivas.antt =====
-- The primitives as the interpreter calls them: the tables of `inicializarPrimitivas`, of
-- Segundo tp/cpu/src/primitivas.c. A call holds what the other processes answer to it.
pub mod Pila
pub mod Invariante
pub mod Llamadas
pub mod Retorno
use so_commons.Base.{ℕ, Bool, Option, some, List, ◌>>=◌, ℤ}
use so_commons.Cpu.{PcbActual}
use so_commons.Cpu.Funciones.{
  funciones_definir_variables, funciones_obtener_posicion_variable, funciones_dereferenciar,
  funciones_asignar, funciones_ir_al_label, funciones_llamar_sin_retorno,
  funciones_llamar_con_retorno, funciones_finalizar, funciones_retornar,
}
use so_commons.Cpu.Sistema.{
  RespuestaKernel, funciones_obtener_valor_compartida, funciones_asignar_valor_compartida,
  operaciones_kernel_wait, operaciones_kernel_signal, operaciones_kernel_reservar,
  operaciones_kernel_liberar, operaciones_kernel_abrir, operaciones_kernel_borrar,
  operaciones_kernel_cerrar, operaciones_kernel_mover_cursor, operaciones_kernel_escribir,
  operaciones_kernel_leer,
}

pub data Primitiva : Type 0 where
  definir_variables : (identificador : ℕ) → Primitiva
  obtener_posicion_variable : (identificador : ℕ) → Primitiva
  dereferenciar : (direccion : ℕ) (respuestas : List Bool) → Primitiva
  asignar : (direccion : ℕ) (respuestas : List Bool) → Primitiva
  obtener_valor_compartida : (respuesta : RespuestaKernel) → Primitiva
  asignar_valor_compartida : (respuesta : RespuestaKernel) → Primitiva
  ir_al_label : (destino : ℤ) → Primitiva
  llamar_sin_retorno : (destino : ℤ) → Primitiva
  llamar_con_retorno : (destino : ℤ) (donde_retornar : ℕ) → Primitiva
  finalizar : Primitiva
  retornar : (respuestas : List Bool) → Primitiva
  wait : (respuesta : RespuestaKernel) → Primitiva
  signal : (respuesta : RespuestaKernel) → Primitiva
  reservar : (respuesta : RespuestaKernel) → Primitiva
  liberar : (respuesta : RespuestaKernel) → Primitiva
  abrir : (respuesta : RespuestaKernel) → Primitiva
  borrar : (respuesta : RespuestaKernel) → Primitiva
  cerrar : (respuesta : RespuestaKernel) → Primitiva
  mover_cursor : (respuesta : RespuestaKernel) → Primitiva
  escribir : (respuesta : RespuestaKernel) → Primitiva
  leer : (informacion : ℕ) (respuesta : RespuestaKernel) (respuestas : List Bool) → Primitiva

unfoldable pub aplicar : ℕ → PcbActual → Primitiva → Option PcbActual
unfolding funciones_definir_variables funciones_obtener_posicion_variable funciones_dereferenciar
    funciones_asignar funciones_ir_al_label funciones_llamar_sin_retorno
    funciones_llamar_con_retorno funciones_finalizar funciones_retornar
    funciones_obtener_valor_compartida funciones_asignar_valor_compartida operaciones_kernel_wait
    operaciones_kernel_signal operaciones_kernel_reservar operaciones_kernel_liberar
    operaciones_kernel_abrir operaciones_kernel_borrar operaciones_kernel_cerrar
    operaciones_kernel_mover_cursor operaciones_kernel_escribir operaciones_kernel_leer
aplicar t pcb (definir_variables id) =
    funciones_definir_variables t pcb id >>= λ (puntero, pcb'). some pcb'
aplicar t pcb (obtener_posicion_variable id) =
    funciones_obtener_posicion_variable t pcb id >>= λ puntero. some pcb
aplicar t pcb (dereferenciar direccion rs) =
    funciones_dereferenciar t pcb direccion rs >>= λ (ps, pcb'). some pcb'
aplicar t pcb (asignar direccion rs) =
    funciones_asignar t pcb direccion rs >>= λ (ps, pcb'). some pcb'
aplicar t pcb (obtener_valor_compartida r) = some (funciones_obtener_valor_compartida pcb r)
aplicar t pcb (asignar_valor_compartida r) = some (funciones_asignar_valor_compartida pcb r)
aplicar t pcb (ir_al_label destino) = some (funciones_ir_al_label pcb destino)
aplicar t pcb (llamar_sin_retorno destino) = some (funciones_llamar_sin_retorno t pcb destino)
aplicar t pcb (llamar_con_retorno destino donde) =
    some (funciones_llamar_con_retorno t pcb destino donde)
aplicar t pcb finalizar = some (funciones_finalizar pcb)
aplicar t pcb (retornar rs) = funciones_retornar t pcb rs >>= λ (ps, pcb'). some pcb'
aplicar t pcb (wait r) = some (operaciones_kernel_wait pcb r)
aplicar t pcb (signal r) = some (operaciones_kernel_signal pcb r)
aplicar t pcb (reservar r) = some (operaciones_kernel_reservar pcb r)
aplicar t pcb (liberar r) = some (operaciones_kernel_liberar pcb r)
aplicar t pcb (abrir r) = some (operaciones_kernel_abrir pcb r)
aplicar t pcb (borrar r) = some (operaciones_kernel_borrar pcb r)
aplicar t pcb (cerrar r) = some (operaciones_kernel_cerrar pcb r)
aplicar t pcb (mover_cursor r) = some (operaciones_kernel_mover_cursor pcb r)
aplicar t pcb (escribir r) = some (operaciones_kernel_escribir pcb r)
aplicar t pcb (leer informacion r rs) =
    operaciones_kernel_leer t pcb informacion r rs >>= λ (ps, pcb'). some pcb'
