-- ===== src/Fs/Archivos/Escritura.antt =====
-- Writes and reads of the files, as the kernel asks for them: `escribirDatos` of
-- Segundo tp/filesystem/src/logicaFileSystem.c, `guardarDatos` and `obtenerDatos` of
-- Segundo tp/filesystem/src/filesystem.c.
use so_commons.Base.{
  ℕ, ◌+◌, ◌*◌, ◌≤◌, ◌<◌, ◌≡◌, ◌⊎◌, refl, ap, true, some, List, [], ◌∷◌, ◌++◌, length, get_elem?,
  All,
}
use so_commons.Fs.{ArchivoMetadata}
use so_commons.Fs.Mapa.Bits.{bits, EsMapa}
use so_commons.Fs.Datos.{Cadenas}
use so_commons.Fs.Datos.Legible.{Legible}
use so_commons.Fs.Datos.Escritura.{Distintos, EsDisco, SusBloques, Escrito}
use so_commons.Fs.Archivos.{Filesystem, guardar_archivo, direccion_por_partes}
use so_commons.Fs.Archivos.Asignacion.{Asignados}

-- The map has one bit for each block, and the disk one file.
pub record EsFilesystem (fs : Filesystem) : Type 0 where
  pub positivo : 0 < fs.filesystem_metadata.tamanio_bloques
  pub es_mapa : EsMapa fs.bit_map
  pub cantidad : fs.filesystem_metadata.cantidad_bloques ≡ length fs.bit_map * 8
  pub un_archivo_por_bloque : length fs.disco ≡ fs.filesystem_metadata.cantidad_bloques
  pub es_disco : EsDisco fs.filesystem_metadata.tamanio_bloques fs.disco

-- The blocks of a file are in use and differ, and its size is theirs.
pub record EsArchivo (fs : Filesystem) (archivo : ArchivoMetadata) : Type 0 where
  pub ocupados : All (λ b. get_elem? (bits fs.bit_map) b ≡ some true) archivo.bloques
  pub distintos : Distintos archivo.bloques
  pub tamanio :
      archivo.tamanio_archivo ≡ fs.filesystem_metadata.tamanio_bloques * length archivo.bloques

-- A write that was done: the blocks that the file was given, and the flat content that it has.
pub record ArchivoEscrito (S : Cadenas) (directorio : List ℕ) (fs : Filesystem) (path : List ℕ)
    (archivo : ArchivoMetadata) (offset : ℕ) (datos : List ℕ) (nuevos : List ℕ) (fs' : Filesystem)
    : Type 0 where
  pub asignados : Asignados fs.bit_map nuevos fs'.bit_map
  pub alcanza :
      offset + length datos
      ≤ fs.filesystem_metadata.tamanio_bloques * length (archivo.bloques ++ nuevos)
  pub escrito :
      Escrito fs.filesystem_metadata.tamanio_bloques fs.disco
        (archivo.bloques ++ nuevos)
        offset
        datos
        fs'.disco
  pub misma_metadata : fs'.filesystem_metadata ≡ fs.filesystem_metadata
  pub sus_bloques : SusBloques fs'.disco (archivo.bloques ++ nuevos)
  pub archivos :
      ((nuevos ≡ []) × (fs'.archivos ≡ fs.archivos))
      ⊎ (fs'.archivos
          ≡ guardar_archivo fs.archivos (direccion_por_partes S directorio path) (record {
            tamanio_archivo =
                fs.filesystem_metadata.tamanio_bloques * length (archivo.bloques ++ nuevos);
            bloques = archivo.bloques ++ nuevos;
          }))

pub append_vacio : (xs : List ℕ) → xs ++ [] ≡ xs
append_vacio [] = refl
append_vacio (x ∷ xs) = ap (x ∷◌) (append_vacio xs)
