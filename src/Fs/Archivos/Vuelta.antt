-- ===== src/Fs/Archivos/Vuelta.antt =====
-- What the kernel reads back after it wrote, and when a write is refused: `guardarDatos` and
-- `obtenerDatos` of Segundo tp/filesystem/src/filesystem.c.
use so_commons.Base.{
  ℕ, ◌+◌, ◌-◌, ◌≤◌, ◌<◌, ◌≡◌, ◌↔◌, inl, inr, refl, sym, ap, ◌∙◌, true, Option, none, some, List, [],
  ◌∷◌, arith, ltb, length, Bool-cases,
}
use so_commons.Fs.{
  RespuestaFs, escribir_ok, escribir_fallo, ArchivoMetadata, redondear_division_pa_arriba,
}
use so_commons.Fs.Mapa.{actualizar_bloques_libres}
use so_commons.Base.{◌≢◌, ◌>>=◌, Option-cases, if◌then◌else◌}
use so_commons.Fs.Datos.Legible.{Legible}
use so_commons.Fs.Datos.{Cadenas, Leyes, SinNul, escribir_datos_en_bloques}
use so_commons.Fs.Archivos.{
  Filesystem, mismo_texto, archivo_de, guardar_archivo, asignar_nuevos_bloques,
  leer_archivo_metadata, escribir_datos, guardar_datos,
}
use so_commons.Fs.Archivos.Escritura.{EsFilesystem, EsArchivo}

mismo_texto_refl : (path : List ℕ) → mismo_texto path path ≡ true
unfolding mismo_texto
mismo_texto_refl [] = refl
mismo_texto_refl (c ∷ cs) = ground (arith, mismo_texto_refl cs)

-- The file written to is the one read.
pub archivo_de-guardar_archivo :
    (archivos : List (List ℕ × ArchivoMetadata)) (path : List ℕ) (nuevo : ArchivoMetadata)
    → archivo_de (guardar_archivo archivos path nuevo) path ≡ some nuevo
unfolding archivo_de guardar_archivo
archivo_de-guardar_archivo [] path nuevo = rw (mismo_texto_refl path) refl
archivo_de-guardar_archivo ((p, a) ∷ resto) path nuevo = elim (Bool-cases (mismo_texto p path)) [
  | inl igual ↦ rw igual (rw igual refl)
  | inr otro ↦ rw otro (rw otro (archivo_de-guardar_archivo resto path nuevo))
]

abbrev estado_de : Filesystem → Option (RespuestaFs × Filesystem) → Filesystem
estado_de fs none = fs
estado_de fs (some (r, fs')) = fs'

-- The last steps of `escribirDatos`.
abbrev tras_asignar :
    Option (ArchivoMetadata × Filesystem)
    → (ArchivoMetadata → Filesystem → Option (List (List ℕ)))
    → Option (RespuestaFs × Filesystem)
tras_asignar asigna escribe = asigna >>= λ (archivo, fs).
    escribe archivo fs >>= λ disco'. some (escribir_ok, record fs { disco = disco' })

tras_asignar_nunca :
    (asigna : Option (ArchivoMetadata × Filesystem))
    (escribe : ArchivoMetadata → Filesystem → Option (List (List ℕ))) (fs' : Filesystem)
    → tras_asignar asigna escribe ≢ some (escribir_fallo, fs')
tras_asignar_nunca none escribe fs' h = absurd (ground (arith, h))
tras_asignar_nunca (some (archivo, fs)) escribe fs' h = elim (Option-cases (escribe archivo fs)) [
  | inl nada ↦ absurd (ground (arith, h, nada))
  | inr (disco', hay) ↦ absurd (ground (arith, h, hay))
]

module _ (S : Cadenas) (leyes : Leyes S) (directorio : List ℕ) where
  -- A write of a file that is there is answered ESCRIBIR_FALLO exactly when the map has fewer free blocks than
  -- the file is short of; then the map, the blocks and the files stay as they were, and only the
  -- counter of free blocks is set. The write is inside the buffer, which has no NUL.
  pub guardar_datos_falla :
      (fs : Filesystem) (path : List ℕ) (archivo : ArchivoMetadata) (offset size : ℕ)
      (buffer : List ℕ) (fs' : Filesystem)
      → EsFilesystem fs
      → leer_archivo_metadata S directorio fs path ≡ some archivo
      → EsArchivo fs archivo
      → SinNul buffer
      → size ≤ length buffer
      → let libres = actualizar_bloques_libres fs.bit_map in
        (guardar_datos S directorio fs path offset size buffer ≡ some (escribir_fallo, fs')) ↔ (
          (libres
            < redondear_division_pa_arriba (offset + size) fs.filesystem_metadata.tamanio_bloques
              - length archivo.bloques)
          × (fs' ≡ record fs { cantidad_bloques_libres = libres }))
  unfolding guardar_datos escribir_datos
  guardar_datos_falla fs path archivo offset size buffer fs' h leido e nul cabe =
      let libres = actualizar_bloques_libres fs.bit_map in
      let faltan =
        redondear_division_pa_arriba (offset + size) fs.filesystem_metadata.tamanio_bloques
        - length archivo.bloques in
      elim (Bool-cases (ltb libres faltan)) [
        | inl corto ↦
            let corre : escribir_datos S directorio fs path offset size buffer
                ≡ some (escribir_fallo, record fs { cantidad_bloques_libres = libres }) =
              rw (leido, corto) refl in
            (
              λ q. (ground arith, ap (estado_de fs) (sym q ∙ corre)),
              λ (m, igual). corre ∙ ap (λ f. some (escribir_fallo, f)) (sym igual),
            )
        | inr entra ↦
            let fs1 = record fs { cantidad_bloques_libres = libres } in
            let necesita =
              redondear_division_pa_arriba (offset + size) fs.filesystem_metadata.tamanio_bloques in
            let sigue : Option (ArchivoMetadata × Filesystem) =
              if ltb (length archivo.bloques) necesita
              then asignar_nuevos_bloques S directorio fs1 archivo faltan path
              else some (archivo, fs1) in
            let escribe : ArchivoMetadata → Filesystem → Option (List (List ℕ)) = λ a f.
              escribir_datos_en_bloques S fs.filesystem_metadata.tamanio_bloques f.disco a offset
                size buffer in
            let igual : escribir_datos S directorio fs path offset size buffer
                ≡ tras_asignar sigue escribe =
              rw (leido, entra) refl in
            (
              λ q. absurd (tras_asignar_nunca sigue escribe fs' (sym igual ∙ q)),
              λ (m, nada). absurd (ground arith),
            )
      ]
