-- ===== src/Fs/Archivos/Creacion.antt =====
-- New files: `crearArchivo` of Segundo tp/filesystem/src/filesystem.c, and `crearFileMetadata` of
-- Segundo tp/filesystem/src/logicaFileSystem.c.
use so_commons.Base.{
  ℕ, zero, suc, ◌≤◌, ◌<◌, ◌≡◌, refl, ap, ◌∙◌, Bool, true, false, some, List, [], ◌∷◌, arith, leb,
  pos, length, get_elem?, set, length-set, get_elem?-set_self,
}
use so_commons.Fs.{archivo_creado_con_exito, no_existe_archivo, ArchivoMetadata}
use so_commons.Fs.Mapa.{
  primer_bit_libre, marcar_bloque_bit_map_usado, buscar_primer_bloque_libre,
  actualizar_bloques_libres,
}
use so_commons.Fs.Mapa.Bits.{
  bits, length-bits, marcar-bits, buscar_primer_bloque_libre-bits, primer_bit_libre-esta_libre,
  primer_bit_libre-antes, actualizar_bloques_libres-bits,
}
use so_commons.Fs.Datos.{Cadenas}
use so_commons.Fs.Archivos.{
  Filesystem, validar_existencia_archivo, crear_archivo, crear_file_metadata, guardar_archivo,
  archivo_de, leer_archivo_metadata, direccion_por_partes, obtener_direccion_global_archivo_bin,
}
use so_commons.Fs.Archivos.Asignacion.{primer_bit_libre-count}
use so_commons.Fs.Archivos.Escritura.{EsFilesystem, EsArchivo}
use so_commons.Fs.Archivos.Vuelta.{archivo_de-guardar_archivo}

set-set : (xs : List Bool) (i : ℕ) (v : Bool) → set (set xs i v) i v ≡ set xs i v
set-set [] i v = refl
set-set (x ∷ xs) zero v = refl
set-set (x ∷ xs) (suc i) v = ap (x ∷◌) (set-set xs i v)

module _ (S : Cadenas) (directorio : List ℕ) where
  -- A file that is not there is created, when the counter of free blocks is not 0 and the map has a free
  -- block: the answer is ARCHIVO_CREADO_CON_EXITO, and its path then has a file of one block, the first that was free. No other
  -- block of the map changes. The two ways in which the program builds the path agree.
  pub crear_archivo-EsArchivo :
      (fs : Filesystem) (path : List ℕ)
      → EsFilesystem fs
      → validar_existencia_archivo S directorio fs path ≡ no_existe_archivo
      → direccion_por_partes S directorio path
        ≡ obtener_direccion_global_archivo_bin S directorio path
      → 1 ≤ fs.cantidad_bloques_libres
      → 1 ≤ actualizar_bloques_libres fs.bit_map
      → (b : ℕ) × (fs' : Filesystem) × (crear_archivo S directorio fs path
          ≡ some (archivo_creado_con_exito, fs'))
        × (get_elem? (bits fs.bit_map) b ≡ some false)
        × ((j : ℕ) → j < b → get_elem? (bits fs.bit_map) j ≡ some true)
        × (bits fs'.bit_map ≡ set (bits fs.bit_map) b true)
        × EsFilesystem fs'
        × (archivo : ArchivoMetadata) × (leer_archivo_metadata S directorio fs' path ≡ some archivo)
        × (archivo.bloques ≡ b ∷ [])
        × EsArchivo fs' archivo
  unfolding crear_archivo crear_file_metadata marcar_bloque_bit_map_usado leer_archivo_metadata
  crear_archivo-EsArchivo fs path h nueva misma contador entra =
      let p = primer_bit_libre (bits fs.bit_map) in
      let dentro : p < length (bits fs.bit_map) =
        primer_bit_libre-count (bits fs.bit_map)
          (omega (arith, actualizar_bloques_libres-bits fs.bit_map)) in
      let busca : buscar_primer_bloque_libre fs.filesystem_metadata.cantidad_bloques fs.bit_map
          ≡ pos p =
        buscar_primer_bloque_libre-bits fs.bit_map fs.filesystem_metadata.cantidad_bloques h.es_mapa
          h.cantidad
        ∙ ground arith in
      let hay : leb 1 fs.cantidad_bloques_libres ≡ true = ground arith in
      let (mapa1, marca1, h1, igual1) = marcar-bits true fs.bit_map p h.es_mapa dentro in
      let largo1 = ap length igual1 ∙ length-set (bits fs.bit_map) p true in
      let (mapa2, marca2, h2, igual2) = marcar-bits true mapa1 p h1 (omega arith) in
      let tamanio = fs.filesystem_metadata.tamanio_bloques in
      let nuevo : ArchivoMetadata = record { tamanio_archivo = tamanio; bloques = p ∷ [] } in
      let global = obtener_direccion_global_archivo_bin S directorio path in
      let igual : bits mapa2 ≡ set (bits fs.bit_map) p true =
        igual2 ∙ ap (λ xs. set xs p true) igual1 ∙ set-set (bits fs.bit_map) p true in
      let largo2 = ap length igual ∙ length-set (bits fs.bit_map) p true in
      (
        p,
        record fs {
          bit_map = mapa2;
          archivos = guardar_archivo fs.archivos (direccion_por_partes S directorio path) nuevo;
        },
        rw (nueva, hay, busca, marca1, marca2, crear_archivo) refl,
        primer_bit_libre-esta_libre (bits fs.bit_map) dentro,
        primer_bit_libre-antes (bits fs.bit_map),
        igual,
        record {
          positivo = h.positivo;
          es_mapa = h2;
          cantidad =
              omega (arith, h.cantidad, length-bits fs.bit_map h.es_mapa, length-bits mapa2 h2);
          un_archivo_por_bloque = h.un_archivo_por_bloque;
          es_disco = h.es_disco;
        },
        nuevo,
        ap (λ p. archivo_de (guardar_archivo fs.archivos p nuevo) global) misma
            ∙ archivo_de-guardar_archivo fs.archivos global nuevo,
        refl,
        record {
          ocupados = (rw igual (get_elem?-set_self (bits fs.bit_map) p true dentro), tt);
          distintos = (tt, tt);
          tamanio = omega arith;
        },
      )
