-- ===== src/Fs/Archivos.antt =====
-- The files of the filesystem and the requests of the kernel: the rest of
-- Segundo tp/filesystem/src/logicaFileSystem.c, and the handlers of
-- Segundo tp/filesystem/src/filesystem.c. The metadata files are an association list from their
-- paths; the decimal text in them is not modelled.
pub mod Asignacion
pub mod Escritura
pub mod Vuelta
pub mod Borrado
pub mod Creacion
use so_commons.Base.{
  ℕ, zero, suc, ◌+◌, ◌-◌, ◌*◌, Bool, true, false, Option, none, some, List, [], ◌∷◌, ◌++◌, ◌&&◌,
  ltb, leb, ◌==◌, if◌then◌else◌, ◌>>=◌, pos, negsuc, length, get_elem?,
}
use so_commons.Fs.{
  RespuestaFs, existe_archivo, no_existe_archivo, archivo_creado_con_exito,
  fallo_en_la_creacion_de_archivo, envio_datos, fallo_datos, escribir_ok, escribir_fallo,
  archivo_borrado_ok, archivo_borrado_error, FilesystemMetadata, ArchivoMetadata,
  redondear_division_pa_arriba,
}
use so_commons.Fs.Mapa.{
  buscar_primer_bloque_libre, marcar_bloque_bit_map_libre, marcar_bloque_bit_map_usado,
  actualizar_bloques_libres,
}
use so_commons.Fs.Datos.{Cadenas, escribir_datos_en_bloques, leer_archivo_fs}

-- The bitmap, the blocks and the metadata files are on the disk; the counter of free blocks is a
-- variable of the server.
pub record Filesystem : Type 0 where
  pub filesystem_metadata : FilesystemMetadata
  pub bit_map : List (List Bool)
  pub cantidad_bloques_libres : ℕ
  pub disco : List (List ℕ)
  pub archivos : List (List ℕ × ArchivoMetadata)

-- A C character: '/'.
abbrev barra : ℕ
barra = 47

unfoldable pub mismo_texto : List ℕ → List ℕ → Bool
mismo_texto [] [] = true
mismo_texto [] (d ∷ ds) = false
mismo_texto (c ∷ cs) [] = false
mismo_texto (c ∷ cs) (d ∷ ds) = (c == d) && mismo_texto cs ds

-- `fopen` to read.
unfoldable pub archivo_de : List (List ℕ × ArchivoMetadata) → List ℕ → Option ArchivoMetadata
unfolding mismo_texto
archivo_de [] path = none
archivo_de ((p, a) ∷ resto) path =
    let siguiente = archivo_de resto path in if mismo_texto p path then some a else siguiente

-- `fopen` to write, which replaces a file that is there.
unfoldable pub guardar_archivo :
    List (List ℕ × ArchivoMetadata) → List ℕ → ArchivoMetadata → List (List ℕ × ArchivoMetadata)
unfolding mismo_texto
guardar_archivo [] path nuevo = (path, nuevo) ∷ []
guardar_archivo ((p, a) ∷ resto) path nuevo =
    let siguiente = guardar_archivo resto path nuevo in
    if mismo_texto p path then (p, nuevo) ∷ resto else (p, a) ∷ siguiente

-- `remove`.
unfoldable pub quitar_archivo :
    List (List ℕ × ArchivoMetadata) → List ℕ → List (List ℕ × ArchivoMetadata)
unfolding mismo_texto
quitar_archivo [] path = []
quitar_archivo ((p, a) ∷ resto) path =
    let siguiente = quitar_archivo resto path in
    if mismo_texto p path then resto else (p, a) ∷ siguiente

-- The loop of `asignar_nuevos_bloques`. A block -1 is a shift by a negative number: `none`.
unfoldable pub asignar_bloques : ℕ → ℕ → List (List Bool) → Option (List ℕ × List (List Bool))
unfolding buscar_primer_bloque_libre marcar_bloque_bit_map_usado
asignar_bloques cantidad_bloques zero mapa = some ([], mapa)
asignar_bloques cantidad_bloques (suc n) mapa =
    elim (buscar_primer_bloque_libre cantidad_bloques mapa) [
      | negsuc m ↦ none
      | pos bloque_libre ↦ marcar_bloque_bit_map_usado mapa bloque_libre >>= λ mapa'.
          asignar_bloques cantidad_bloques n mapa' >>= λ (bloques, mapa'').
          some (bloque_libre ∷ bloques, mapa'')
    ]

unfoldable pub marcar_libres : List (List Bool) → List ℕ → Option (List (List Bool))
unfolding marcar_bloque_bit_map_libre
marcar_libres mapa [] = some mapa
marcar_libres mapa (bloque ∷ bloques) =
    marcar_bloque_bit_map_libre mapa bloque >>= λ mapa'. marcar_libres mapa' bloques

-- The parts of a path, joined again by '/'.
unfoldable pub unir_partes : List (List ℕ) → List ℕ
unir_partes [] = []
unir_partes (parte ∷ []) = parte
unir_partes (parte ∷ otra ∷ partes) = parte ++ (barra ∷ unir_partes (otra ∷ partes))

-- `directorio` is pathDirectorioArchivos.
module _ (S : Cadenas) (directorio : List ℕ) where
  unfoldable pub obtener_direccion_global_archivo_bin : List ℕ → List ℕ
  obtener_direccion_global_archivo_bin path = elim (get_elem? (S.string_substring path 0 1) 0) [
    | none ↦ S.string_append directorio path
    | some c ↦
        if c == barra
        then S.string_append directorio (S.string_substring path 1 (length path))
        else S.string_append directorio path
  ]

  -- The path that `crearFileMetadata` and `actualizarArchivoMetadata` write to.
  unfoldable pub direccion_por_partes : List ℕ → List ℕ
  unfolding unir_partes
  direccion_por_partes path = directorio ++ unir_partes (S.string_split path (barra ∷ []))

  unfoldable pub validar_existencia_archivo : Filesystem → List ℕ → RespuestaFs
  unfolding archivo_de obtener_direccion_global_archivo_bin
  validar_existencia_archivo fs path =
      elim (archivo_de fs.archivos (obtener_direccion_global_archivo_bin path)) [
        | none ↦ no_existe_archivo
        | some a ↦ existe_archivo
      ]

  -- Both answers of `validarExistenciaArchivo` are true in C, so a file that is not there goes on to
  -- `config_create`, whose NULL faults.
  unfoldable pub leer_archivo_metadata : Filesystem → List ℕ → Option ArchivoMetadata
  unfolding archivo_de obtener_direccion_global_archivo_bin
  leer_archivo_metadata fs path = archivo_de fs.archivos (obtener_direccion_global_archivo_bin path)

  unfoldable pub actualizar_archivo_metadata : Filesystem → List ℕ → List ℕ → Filesystem
  unfolding guardar_archivo direccion_por_partes
  actualizar_archivo_metadata fs bloques path = record fs {
    archivos = guardar_archivo fs.archivos (direccion_por_partes path) (record {
      tamanio_archivo = fs.filesystem_metadata.tamanio_bloques * length bloques;
      bloques = bloques;
    });
  }

  -- The list of blocks in memory has the new ones too.
  unfoldable pub asignar_nuevos_bloques :
      Filesystem → ArchivoMetadata → ℕ → List ℕ → Option (ArchivoMetadata × Filesystem)
  unfolding asignar_bloques actualizar_archivo_metadata
  asignar_nuevos_bloques fs archivo cantidad_bloques_nuevos path =
      asignar_bloques fs.filesystem_metadata.cantidad_bloques cantidad_bloques_nuevos fs.bit_map
      >>= λ (nuevos, mapa).
          let bloques = archivo.bloques ++ nuevos in
          some (
            record archivo { bloques = bloques },
            actualizar_archivo_metadata (record fs { bit_map = mapa }) bloques path,
          )

  -- The number of new blocks is negative where the file has blocks to spare.
  unfoldable pub escribir_datos :
      Filesystem → List ℕ → ℕ → ℕ → List ℕ → Option (RespuestaFs × Filesystem)
  unfolding leer_archivo_metadata actualizar_bloques_libres asignar_nuevos_bloques
      escribir_datos_en_bloques redondear_division_pa_arriba
  escribir_datos fs path offset size buffer = leer_archivo_metadata fs path >>= λ archivo.
      let tamanio = fs.filesystem_metadata.tamanio_bloques in
      let tiene = length archivo.bloques in
      let necesita = redondear_division_pa_arriba (offset + size) tamanio in
      let fs1 = record fs { cantidad_bloques_libres = actualizar_bloques_libres fs.bit_map } in
      if ltb fs1.cantidad_bloques_libres (necesita - tiene)
      then some (escribir_fallo, fs1)
      else ((if ltb tiene necesita
            then asignar_nuevos_bloques fs1 archivo (necesita - tiene) path
            else some (archivo, fs1))
          >>= λ (archivo', fs2).
              escribir_datos_en_bloques S tamanio fs2.disco archivo' offset size buffer
              >>= λ disco'. some (escribir_ok, record fs2 { disco = disco' }))

  -- The handlers: the request received, the answer sent and the new state.
  unfoldable pub guardar_datos :
      Filesystem → List ℕ → ℕ → ℕ → List ℕ → Option (RespuestaFs × Filesystem)
  unfolding escribir_datos
  guardar_datos = escribir_datos

  unfoldable pub obtener_datos : Filesystem → List ℕ → ℕ → ℕ → Option (RespuestaFs × List ℕ)
  unfolding leer_archivo_metadata leer_archivo_fs
  obtener_datos fs path offset size = leer_archivo_metadata fs path >>= λ archivo.
      if leb (offset + size) archivo.tamanio_archivo
      then (leer_archivo_fs S fs.filesystem_metadata.tamanio_bloques fs.disco archivo offset size
          >>= λ leidos. some (envio_datos, leidos))
      else some (fallo_datos, [])

  unfoldable pub crear_file_metadata : Filesystem → ℕ → List ℕ → Option Filesystem
  unfolding guardar_archivo direccion_por_partes marcar_bloque_bit_map_usado
  crear_file_metadata fs bloque_a_asignar path =
      marcar_bloque_bit_map_usado fs.bit_map bloque_a_asignar >>= λ mapa. some (record fs {
        bit_map = mapa;
        archivos = guardar_archivo fs.archivos (direccion_por_partes path) (record {
          tamanio_archivo = fs.filesystem_metadata.tamanio_bloques;
          bloques = bloque_a_asignar ∷ [];
        });
      })

  -- The block is marked in `crear_file_metadata` and once more here.
  unfoldable pub crear_archivo : Filesystem → List ℕ → Option (RespuestaFs × Filesystem)
  unfolding validar_existencia_archivo buscar_primer_bloque_libre crear_file_metadata
      marcar_bloque_bit_map_usado
  crear_archivo fs path = elim (validar_existencia_archivo fs path) [
    | no_existe_archivo ↦
        if leb 1 fs.cantidad_bloques_libres
        then elim (buscar_primer_bloque_libre fs.filesystem_metadata.cantidad_bloques fs.bit_map) [
          | negsuc n ↦ some (fallo_en_la_creacion_de_archivo, fs)
          | pos bloque_a_asignar ↦ crear_file_metadata fs bloque_a_asignar path >>= λ fs'.
              marcar_bloque_bit_map_usado fs'.bit_map bloque_a_asignar >>= λ mapa.
              some (archivo_creado_con_exito, record fs' { bit_map = mapa })
        ]
        else some (fallo_en_la_creacion_de_archivo, fs)
    | _ ↦ some (fallo_en_la_creacion_de_archivo, fs)
  ]

  unfoldable pub marcar_bloques_como_libres : Filesystem → List ℕ → Option Filesystem
  unfolding leer_archivo_metadata marcar_libres
  marcar_bloques_como_libres fs path = leer_archivo_metadata fs path >>= λ archivo.
      marcar_libres fs.bit_map archivo.bloques >>= λ mapa. some (record fs { bit_map = mapa })

  -- `remove` does not fail: the file was read just before.
  unfoldable pub borrar_recursivo : Filesystem → List ℕ → Option Filesystem
  unfolding marcar_bloques_como_libres quitar_archivo obtener_direccion_global_archivo_bin
  borrar_recursivo fs path = marcar_bloques_como_libres fs path >>= λ fs'. some (record fs' {
    archivos = quitar_archivo fs'.archivos (obtener_direccion_global_archivo_bin path);
  })

  unfoldable pub borrar_archivo : Filesystem → List ℕ → Option (RespuestaFs × Filesystem)
  unfolding marcar_bloques_como_libres borrar_recursivo
  borrar_archivo fs path = marcar_bloques_como_libres fs path >>= λ fs'.
      borrar_recursivo fs' path >>= λ fs''. some (archivo_borrado_ok, fs'')
