-- ===== src/Fs/Tests.antt =====
-- Concrete filesystems, and the theorems at them: a map of 8 blocks of 4 bytes.
use so_commons.Base.{
  ℕ, zero, suc, ap, ◌-◌, ◌≢◌, ◌↔◌, ltb, if◌then◌else◌, pos, negsuc, count, not, ◌≤◌, ◌<◌, ◌≡◌, refl,
  Bool, true, false, some, List, [], ◌∷◌, ◌++◌, arith, take, drop, get_elem?, length, set, All,
}
use so_commons.Fs.{ArchivoMetadata, archivo_creado_con_exito, archivo_borrado_ok, no_existe_archivo}
use so_commons.Fs.Datos.{Cadenas, Leyes, SinNul}
use so_commons.Fs.Archivos.{
  Filesystem, leer_archivo_metadata, asignar_bloques, guardar_datos, validar_existencia_archivo,
  crear_archivo, borrar_archivo, quitar_archivo, obtener_direccion_global_archivo_bin,
  direccion_por_partes,
}
use so_commons.Fs.{redondear_division_pa_arriba, escribir_fallo}
use so_commons.Fs.Mapa.{
  primer_bit_libre, buscar_primer_bloque_libre, marcar, actualizar_bloques_libres,
}
use so_commons.Fs.Mapa.Bits.{bits, EsByte, EsMapa, mapa-refina-bits}
use so_commons.Fs.Datos.Escritura.{EsDisco}
use so_commons.Base.{◌++◌, ◌≢◌, take}
use so_commons.Fs.Datos.Legible.{Legible}
use so_commons.Fs.Datos.Vuelta.{take-length}
use so_commons.Fs.Archivos.Asignacion.{Asignados, asignar_bloques-Asignados}
use so_commons.Fs.Archivos.Escritura.{EsFilesystem, EsArchivo}
use so_commons.Fs.Archivos.Vuelta.{guardar_datos_falla}
use so_commons.Fs.Archivos.Borrado.{borrar_archivo-Liberados}
use so_commons.Fs.Archivos.Creacion.{crear_archivo-EsArchivo}

-- One way to fill in the strings of the commons library.
abbrev cadenas : Cadenas
cadenas = record {
  string_substring = λ s start n. take n (drop start s);
  string_append = λ s t. s ++ t;
  string_split = λ s t. s ∷ [];
}

take-take : (n m : ℕ) (xs : List ℕ) → n ≤ m → take n (take m xs) ≡ take n xs
take-take zero m xs h = refl
take-take (suc n) zero xs h = absurd (omega arith)
take-take (suc n) (suc m) [] h = refl
take-take (suc n) (suc m) (x ∷ xs) h = ap (x ∷◌) (take-take n m xs (omega arith))

leyes : Leyes cadenas
leyes = record {
  string_substring_lem = λ s start n m h q r. take-take n m (drop start s) q;
  string_substring_entera = λ s h. take-length s;
  string_append_lem = λ s t h k. refl;
}

-- The blocks 0, 1 and 3 are in use; the file "a" has 3 and 1.
abbrev mapa_8 : List (List Bool)
mapa_8 = (true ∷ true ∷ false ∷ true ∷ false ∷ false ∷ false ∷ false ∷ []) ∷ []

abbrev archivo_a : ArchivoMetadata
archivo_a = record { tamanio_archivo = 8; bloques = 3 ∷ 1 ∷ [] }

abbrev fs_8 : Filesystem
fs_8 = record {
  filesystem_metadata = record { tamanio_bloques = 4; cantidad_bloques = 8 };
  bit_map = mapa_8;
  cantidad_bloques_libres = 5;
  disco = (9 ∷ []) ∷ (65 ∷ 66 ∷ 67 ∷ 68 ∷ []) ∷ [] ∷ (69 ∷ 70 ∷ []) ∷ [] ∷ [] ∷ [] ∷ [] ∷ [];
  archivos = ((97 ∷ []), archivo_a) ∷ [];
}

-- The path "a", the directory "d/", and the text "hola!".
abbrev ruta_a : List ℕ
ruta_a = 97 ∷ []

abbrev texto : List ℕ
texto = 104 ∷ 111 ∷ 108 ∷ 97 ∷ 33 ∷ []

texto-SinNul : SinNul texto
texto-SinNul = (ground arith, (ground arith, (ground arith, (ground arith, (ground arith, tt)))))

abbrev fs_a : Filesystem
fs_a = record fs_8 { archivos = (100 ∷ 47 ∷ ruta_a, archivo_a) ∷ [] }

abbrev directorio : List ℕ
directorio = 100 ∷ 47 ∷ []

fs_a-EsFilesystem : EsFilesystem fs_a
unfolding EsMapa EsByte EsDisco
fs_a-EsFilesystem = record {
  positivo = omega arith;
  es_mapa = (refl, tt);
  cantidad = refl;
  un_archivo_por_bloque = refl;
  es_disco = (
    omega arith,
    (
      omega arith,
      (omega arith, (omega arith, (omega arith, (omega arith, (omega arith, (omega arith, tt)))))),
    ),
  );
}

leido_a : leer_archivo_metadata cadenas directorio fs_a ruta_a ≡ some archivo_a
unfolding leer_archivo_metadata
leido_a = refl

archivo_a-EsArchivo : EsArchivo fs_a archivo_a
unfolding bits
archivo_a-EsArchivo = record {
  ocupados = (refl, (refl, tt));
  distintos = ((ground arith, tt), (tt, tt));
  tamanio = refl;
}

abbrev dos_letras : List ℕ
dos_letras = 104 ∷ 111 ∷ []

dos_libres : 2 ≤ actualizar_bloques_libres mapa_8
unfolding actualizar_bloques_libres
dos_libres = omega arith

mapa-refina-bits_example :
    ((usado : Bool)
      → (mapa' : List (List Bool)) × (marcar usado mapa_8 2 ≡ some mapa')
        × EsMapa mapa'
        × (bits mapa' ≡ set (bits mapa_8) 2 usado))
    × (buscar_primer_bloque_libre 8 mapa_8 ≡ (
        if ltb (primer_bit_libre (bits mapa_8)) (length (bits mapa_8))
        then pos (primer_bit_libre (bits mapa_8))
        else negsuc 0))
    × (actualizar_bloques_libres mapa_8 ≡ count not (bits mapa_8))
mapa-refina-bits_example =
    mapa-refina-bits mapa_8 8 2 (fs_a-EsFilesystem.es_mapa) refl (omega arith)

asignar_bloques-Asignados_example :
    (bloques : List ℕ) × (mapa' : List (List Bool)) × (asignar_bloques 8 2 mapa_8
      ≡ some (bloques, mapa'))
    × (length bloques ≡ 2)
    × Asignados mapa_8 bloques mapa'
asignar_bloques-Asignados_example =
    asignar_bloques-Asignados 8 2 mapa_8 (fs_a-EsFilesystem.es_mapa) refl dos_libres

-- Five bytes at 27 need 8 blocks; the file has 2, and 5 are free.
guardar_datos_falla_example :
    (guardar_datos cadenas directorio fs_a ruta_a 27 5 texto ≡ some (escribir_fallo, fs_a)) ↔ (
      (actualizar_bloques_libres mapa_8 < redondear_division_pa_arriba 32 4 - 2)
      × (fs_a ≡ record fs_a { cantidad_bloques_libres = actualizar_bloques_libres mapa_8 }))
guardar_datos_falla_example =
    guardar_datos_falla cadenas leyes directorio fs_a ruta_a archivo_a 27 5 texto fs_a
      fs_a-EsFilesystem leido_a archivo_a-EsArchivo texto-SinNul (omega arith)

borrar_archivo-Liberados_example :
    (fs' : Filesystem) × (borrar_archivo cadenas directorio fs_a ruta_a
      ≡ some (archivo_borrado_ok, fs'))
    × All (λ b. get_elem? (bits fs'.bit_map) b ≡ some false) (3 ∷ 1 ∷ [])
    × ((j : ℕ)
        → All (λ b. b ≢ j) (3 ∷ 1 ∷ [])
        → get_elem? (bits fs'.bit_map) j ≡ get_elem? (bits mapa_8) j)
    × (fs'.disco ≡ fs_a.disco)
    × (fs'.archivos
        ≡ quitar_archivo fs_a.archivos
            (obtener_direccion_global_archivo_bin cadenas directorio ruta_a))
borrar_archivo-Liberados_example =
    borrar_archivo-Liberados cadenas directorio fs_a ruta_a archivo_a fs_a-EsFilesystem leido_a
      archivo_a-EsArchivo

-- The path "b".
abbrev ruta_b : List ℕ
ruta_b = 98 ∷ []

nueva_b : validar_existencia_archivo cadenas directorio fs_a ruta_b ≡ no_existe_archivo
unfolding validar_existencia_archivo
nueva_b = refl

misma_ruta_b :
    direccion_por_partes cadenas directorio ruta_b
    ≡ obtener_direccion_global_archivo_bin cadenas directorio ruta_b
unfolding direccion_por_partes obtener_direccion_global_archivo_bin
misma_ruta_b = refl

un_libre : 1 ≤ actualizar_bloques_libres mapa_8
unfolding actualizar_bloques_libres
un_libre = omega arith

crear_archivo-EsArchivo_example :
    (b : ℕ) × (fs' : Filesystem) × (crear_archivo cadenas directorio fs_a ruta_b
      ≡ some (archivo_creado_con_exito, fs'))
    × (get_elem? (bits mapa_8) b ≡ some false)
    × ((j : ℕ) → j < b → get_elem? (bits mapa_8) j ≡ some true)
    × (bits fs'.bit_map ≡ set (bits mapa_8) b true)
    × EsFilesystem fs'
    × (archivo : ArchivoMetadata) × (leer_archivo_metadata cadenas directorio fs' ruta_b
        ≡ some archivo)
    × (archivo.bloques ≡ b ∷ [])
    × EsArchivo fs' archivo
crear_archivo-EsArchivo_example =
    crear_archivo-EsArchivo cadenas directorio fs_a ruta_b fs_a-EsFilesystem nueva_b misma_ruta_b
      (omega arith) un_libre
