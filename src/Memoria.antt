-- ===== src/Memoria.antt =====
-- The state of the memory server: Segundo tp/rocketLibrary/structs/structs.h (the `t_memoria_config`,
-- `registro...` and `t_estructurasMemoria` types), the answers of
-- Segundo tp/rocketLibrary/protocolos/protocols.h, and `crearEstructuras` of
-- Segundo tp/memoria/src/memoria.c.
pub mod Tabla
pub mod Cache
pub mod Datos
pub mod Paginas
pub mod Servidor
mod Tests
use so_commons.Base.{ℕ, ◌*◌, ℤ, List}

-- `pid` of a row of the inverted page table: FRAME_VACIO, FRAME_RESERVADO, or a process.
pub data Duenio : Type 0 where
  frame_vacio frame_reservado : Duenio
  proceso : ℕ → Duenio

pub record RegistroMarcoPagina : Type 0 where
  pub duenio : Duenio
  pub pagina_id : ℕ

pub data TipoDePagina : Type 0 where
  codigo stack heap vacio : TipoDePagina

pub data TipoDeDatos : Type 0 where
  char int metadata : TipoDeDatos

pub record RegistroCacheMemoria : Type 0 where
  pub pid : ℕ
  pub pagina_id : ℕ
  pub pagina : List ℕ

-- The row of a process in `contadorAuxCache`; `ultimaPaginaCacheada` is never set there.
pub record RegistroAuxCache : Type 0 where
  pub pid : ℕ
  pub cantidad_paginas_cacheadas : ℕ

pub record MemoriaConfig : Type 0 where
  pub marcos : ℕ
  pub marco_size : ℕ
  pub entradas_cache : ℕ
  pub cache_x_proc : ℕ
  pub stack_size : ℕ

-- `contadorAuxCache` holds at index 0 the row of the empty cache entries, here the two fields
-- `frames_vacios` and `ultima_pagina_cacheada`, and from index 1 on one row for each process.
pub record EstructurasMemoria : Type 0 where
  pub config : MemoriaConfig
  pub memoria : List ℕ
  pub cache : List RegistroCacheMemoria
  pub tabla_paginas : List RegistroMarcoPagina
  pub frames_vacios : ℕ
  pub ultima_pagina_cacheada : ℤ
  pub contador_aux_cache : List RegistroAuxCache
  pub tipo_de_paginas : List TipoDePagina
  pub lecturas : ℕ
  pub escrituras : ℕ
  pub colisiones : ℕ
  pub aciertos_de_cache : ℕ

-- PROTOCOLO_MEMORIA_A_KERNEL_Y_CPU
pub data Respuesta : Type 0 where
  handshake_kernel_conectado handshake_cpu_conectado memoria_insuficiente : Respuesta
  proceso_iniciado_en_memoria paginas_asignadas lectura_satisfactoria error_en_lectura : Respuesta
  escritura_satisfactoria error_en_escritura eliminacion_de_proceso_satisfactorio : Respuesta
  envio_texto_a_fs pagina_liberada pagina_no_liberada : Respuesta
