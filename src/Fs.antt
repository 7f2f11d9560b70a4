-- ===== src/Fs.antt =====
-- State and messages of the filesystem server: Segundo tp/filesystem/src/headers/logicaFileSystem.h
-- and Segundo tp/rocketLibrary/protocolos/protocols.h. A byte of the bitmap is the list of its
-- eight bits, the most significant one first, as `128 >> i` numbers them.
pub mod Mapa
pub mod Datos
pub mod Archivos
mod Tests
use so_commons.Base.{ℕ, ◌+◌, ◌/◌, ◌%◌, ◌≢◌, Bool, List, All, ltb, if◌then◌else◌}

-- The answers of PROTOCOLO_FS_A_KERNEL that the server sends.
pub data RespuestaFs : Type 0 where
  existe_archivo : RespuestaFs
  no_existe_archivo : RespuestaFs
  archivo_creado_con_exito : RespuestaFs
  fallo_en_la_creacion_de_archivo : RespuestaFs
  envio_datos : RespuestaFs
  fallo_datos : RespuestaFs
  escribir_ok : RespuestaFs
  escribir_fallo : RespuestaFs
  archivo_borrado_ok : RespuestaFs
  archivo_borrado_error : RespuestaFs

-- t_filesystem_metadata, less its magic number.
pub record FilesystemMetadata : Type 0 where
  pub tamanio_bloques : ℕ
  pub cantidad_bloques : ℕ

-- t_archivo_metadata. The blocks are numbers, which the program keeps in decimal.
pub record ArchivoMetadata : Type 0 where
  pub tamanio_archivo : ℕ
  pub bloques : List ℕ

-- `redondearDivisionPaArriba` of numbers that are not negative; every caller divides by the size of
-- a block.
unfoldable pub redondear_division_pa_arriba : ℕ → ℕ → ℕ
redondear_division_pa_arriba dividendo divisor =
    if ltb 0 (dividendo % divisor) then dividendo / divisor + 1 else dividendo / divisor
