-- ===== src/Fs/Archivos/Borrado.antt =====
-- Files that come and go: `crearArchivo` and `borrarArchivo` of
-- Segundo tp/filesystem/src/filesystem.c.
use so_commons.Base.{
  ℕ, zero, suc, ◌<◌, ◌≡◌, ◌≢◌, refl, ap, ◌∙◌, Bool, false, some, List, [], ◌∷◌, arith, length,
  get_elem?, set, length-set, get_elem?-set_self, get_elem?-set_ne, get_elem?_lt, All, All-mapa,
}
use so_commons.Fs.{archivo_borrado_ok, ArchivoMetadata}
use so_commons.Fs.Mapa.{marcar_bloque_bit_map_libre}
use so_commons.Fs.Mapa.Bits.{bits, EsMapa, marcar-bits}
use so_commons.Fs.Datos.{Cadenas}
use so_commons.Fs.Archivos.{
  Filesystem, marcar_libres, leer_archivo_metadata, borrar_archivo, marcar_bloques_como_libres,
  borrar_recursivo, quitar_archivo, obtener_direccion_global_archivo_bin,
}
use so_commons.Fs.Archivos.Escritura.{EsFilesystem, EsArchivo}

-- The map after some blocks were freed.
pub record Liberados (mapa : List (List Bool)) (bloques : List ℕ) (mapa' : List (List Bool))
    : Type 0 where
  pub es_mapa : EsMapa mapa'
  pub mismo_largo : length (bits mapa') ≡ length (bits mapa)
  pub libres : All (λ b. get_elem? (bits mapa') b ≡ some false) bloques
  pub otros :
      (j : ℕ) → All (λ b. b ≢ j) bloques → get_elem? (bits mapa') j ≡ get_elem? (bits mapa) j
  pub sin_nuevos :
      (j : ℕ) → get_elem? (bits mapa) j ≡ some false → get_elem? (bits mapa') j ≡ some false

marcar_libres-Liberados :
    (mapa : List (List Bool)) (bloques : List ℕ)
    → EsMapa mapa
    → All (λ b. b < length (bits mapa)) bloques
    → (mapa' : List (List Bool)) × (marcar_libres mapa bloques ≡ some mapa')
      × Liberados mapa bloques mapa'
unfolding marcar_libres marcar_bloque_bit_map_libre
marcar_libres-Liberados mapa [] h m = (
  mapa,
  refl,
  record {
    es_mapa = h;
    mismo_largo = refl;
    libres = tt;
    otros = λ j q. refl;
    sin_nuevos = λ j q. q;
  },
)
marcar_libres-Liberados mapa (b ∷ bs) h (m, ms) =
    let (mapa1, marca, h1, igual) = marcar-bits false mapa b h m in
    let largo : length (bits mapa1) ≡ length (bits mapa) =
      ap length igual ∙ length-set (bits mapa) b false in
    let (mapa', corre, l) =
      marcar_libres-Liberados mapa1 bs h1 (All-mapa bs (λ c q. omega arith) ms) in
    let suyo : get_elem? (bits mapa1) b ≡ some false =
      rw igual (get_elem?-set_self (bits mapa) b false m) in
    (
      mapa',
      rw marca corre,
      record {
        es_mapa = l.es_mapa;
        mismo_largo = l.mismo_largo ∙ largo;
        libres = (l.sin_nuevos b suyo, l.libres);
        otros = λ j (q, qs).
            l.otros j qs
            ∙ ap (λ xs. get_elem? xs j) igual
            ∙ get_elem?-set_ne (bits mapa) b j false q;
        sin_nuevos =
            λ j q. l.sin_nuevos j (ap (λ xs. get_elem? xs j) igual ∙ sigue_libre (bits mapa) b j q);
      },
    )
  where
    sigue_libre :
        (xs : List Bool) (b j : ℕ)
        → get_elem? xs j ≡ some false
        → get_elem? (set xs b false) j ≡ some false
    sigue_libre [] b j q = q
    sigue_libre (x ∷ xs) zero zero q = refl
    sigue_libre (x ∷ xs) zero (suc j) q = q
    sigue_libre (x ∷ xs) (suc b) zero q = q
    sigue_libre (x ∷ xs) (suc b) (suc j) q = sigue_libre xs b j q

module _ (S : Cadenas) (directorio : List ℕ) where
  -- The deletion of a file that is there is answered ARCHIVO_BORRADO_OK. All of its blocks are free
  -- after it, and every other block is as it was; the contents of the blocks stay, and
  -- of the metadata files only the one of its path goes.
  pub borrar_archivo-Liberados :
      (fs : Filesystem) (path : List ℕ) (archivo : ArchivoMetadata)
      → EsFilesystem fs
      → leer_archivo_metadata S directorio fs path ≡ some archivo
      → EsArchivo fs archivo
      → (fs' : Filesystem) × (borrar_archivo S directorio fs path ≡ some (archivo_borrado_ok, fs'))
        × All (λ b. get_elem? (bits fs'.bit_map) b ≡ some false) archivo.bloques
        × ((j : ℕ)
            → All (λ b. b ≢ j) archivo.bloques
            → get_elem? (bits fs'.bit_map) j ≡ get_elem? (bits fs.bit_map) j)
        × (fs'.disco ≡ fs.disco)
        × (fs'.archivos
            ≡ quitar_archivo fs.archivos (obtener_direccion_global_archivo_bin S directorio path))
  unfolding borrar_archivo marcar_bloques_como_libres borrar_recursivo leer_archivo_metadata
  borrar_archivo-Liberados fs path archivo h leido e =
      let dentro =
        All-mapa archivo.bloques (λ b q. get_elem?_lt (bits fs.bit_map) b q) e.ocupados in
      let (mapa1, corre1, l1) =
        marcar_libres-Liberados fs.bit_map archivo.bloques h.es_mapa dentro in
      let (mapa2, corre2, l2) =
        marcar_libres-Liberados mapa1 archivo.bloques l1.es_mapa
          (All-mapa archivo.bloques (λ b q. omega (arith, l1.mismo_largo)) dentro) in
      (
        record fs {
          bit_map = mapa2;
          archivos =
              quitar_archivo fs.archivos (obtener_direccion_global_archivo_bin S directorio path);
        },
        rw (leido, corre1, leido, corre2) refl,
        l2.libres,
        λ j q. l2.otros j q ∙ l1.otros j q,
        refl,
        refl,
      )
