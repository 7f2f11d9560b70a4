-- ===== src/Cpu.antt =====
-- State of a CPU: `t_pcb` and its parts, of Segundo tp/rocketLibrary/structs/structs.h, as
-- the primitives of Segundo tp/cpu/src/primitivas.c read and set them.
pub mod Pedidos
pub mod Funciones
pub mod Sistema
pub mod Primitivas
mod Tests
use so_commons.Base.{ℕ, ◌+◌, ◌*◌, ◌/◌, ◌%◌, Bool, List, ℤ}

-- The exit codes that the CPU sets.
pub data ExitCode : Type 0 where
  finalizado_correctamente : ExitCode
  acceso_archivo_inexistente : ExitCode
  intento_leer_archivo_sin_permiso : ExitCode
  intento_escribir_archivo_sin_permiso : ExitCode
  excepcion_memoria : ExitCode
  no_se_pueden_dar_mas_paginas : ExitCode
  variable_compartida_inexistente : ExitCode
  operar_semaforo_inexistente : ExitCode
  stackoverflow : ExitCode
  espacio_insuficiente_para_crear_archivo : ExitCode
  no_definido : ExitCode

-- t_direccion_logica, of an address of the stack.
pub record Direccion : Type 0 where
  pub pid : ℕ
  pub pagina_id : ℕ
  pub offset : ℕ
  pub tamanio : ℕ

pub record Variable : Type 0 where
  pub id : ℕ
  pub posicion : Direccion

pub record RegistroStack : Type 0 where
  pub posicion : ℕ
  pub argumentos : List Direccion
  pub variables : List Variable
  pub pos_retorno : ℤ
  pub pos_var_retorno : Direccion

-- t_banderas_ejecucion, less the flags of the signal handler and of the connection.
pub record Banderas : Type 0 where
  pub termino_programa : Bool
  pub llamada_a_funcion : Bool
  pub cambio_proceso : Bool
  pub terminacion_anormal : Bool
  pub se_llamo_a_wait : Bool
  pub llamada_sin_retorno : Bool

-- pcbActual: of t_pcb, what the primitives read or set.
pub record PcbActual : Type 0 where
  pub pid : ℕ
  pub pc : ℤ
  pub cantidad_paginas_totales : ℕ
  pub ec : ExitCode
  pub cant_entradas_indice_stack : ℕ
  pub indice_stack : List RegistroStack
  pub fin_stack : Direccion
  pub banderas : Banderas

-- `posicionMemoria_a_puntero` and `puntero_a_posicionMemoria` of structs.c.
unfoldable pub posicion_a_puntero : Direccion → ℕ → ℕ
posicion_a_puntero d tamanio_pagina = d.pagina_id * tamanio_pagina + d.offset

unfoldable pub puntero_a_posicion : ℕ → ℕ → ℕ → Direccion
puntero_a_posicion puntero tamanio_pagina pid = record {
  pid = pid;
  pagina_id = puntero / tamanio_pagina;
  offset = puntero % tamanio_pagina;
  tamanio = 4;
}
