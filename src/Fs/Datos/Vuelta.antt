-- ===== src/Fs/Datos/Vuelta.antt =====
-- What a file has after a write is what a read of it gives: `leerArchivoFs` and
-- `escribirDatosEnBloques` of Segundo tp/filesystem/src/logicaFileSystem.c.
use so_commons.Base.{
  ℕ, zero, suc, ◌+◌, ◌-◌, ◌*◌, ◌≤◌, ◌<◌, ◌≡◌, refl, sym, ap, ◌∙◌, subst, some, List, [], ◌∷◌, ◌++◌,
  arith, leb, length, take, drop, length-append, true,
}
use native.Mathlib.Nat.{le_of_mul-le-mul_left}
use so_commons.Memoria.Datos.Bytes.{trozo}
use so_commons.Fs.{ArchivoMetadata}
use so_commons.Fs.Datos.{Cadenas, Leyes, SinNul, completar, leer_desde, leer_archivo_fs}
use so_commons.Fs.Datos.Plano.{bloque_de, contenido, presente}
use so_commons.Fs.Datos.Escritura.{EsDisco, SusBloques}
use so_commons.Fs.Datos.Archivo.{bloque_inicial_lem, largo_completo}
use so_commons.Fs.Datos.Lectura.{Presentes, trozo-append_derecha, leer_desde-trozo}

pub length-contenido :
    (tamanio : ℕ) (disco : List (List ℕ)) (bloques : List ℕ)
    → EsDisco tamanio disco
    → length (contenido tamanio disco bloques) ≡ tamanio * length bloques
unfolding contenido
length-contenido tamanio disco [] h = omega arith
length-contenido tamanio disco (b ∷ bs) h = omega (
  arith,
  length-append (completar tamanio (bloque_de disco b)) (contenido tamanio disco bs),
  largo_completo tamanio disco b h,
  length-contenido tamanio disco bs h,
)

pub take-length : (xs : List ℕ) → take (length xs) xs ≡ xs
take-length [] = refl
take-length (x ∷ xs) = ap (x ∷◌) (take-length xs)

module _ (S : Cadenas) (leyes : Leyes S) (tamanio : ℕ) (positivo : 0 < tamanio) where
  leer_indice :
      (i : ℕ) (bloques : List ℕ) (disco : List (List ℕ)) (byte size : ℕ)
      → EsDisco tamanio disco
      → SusBloques disco bloques
      → byte ≤ tamanio
      → i ≤ length bloques
      → Presentes tamanio disco bloques (tamanio * i + byte) size
      → SinNul (trozo (contenido tamanio disco bloques) (tamanio * i + byte) size)
      → leer_desde S tamanio disco (drop i bloques) byte size []
        ≡ some (trozo (contenido tamanio disco bloques) (tamanio * i + byte) size)
  unfolding SusBloques contenido presente
  leer_indice zero bloques disco byte size h b m n p nul =
      let igual : tamanio * 0 + byte ≡ byte = omega arith in
      subst
        (λ d.
          leer_desde S tamanio disco bloques byte size []
          ≡ some (trozo (contenido tamanio disco bloques) d size))
        (sym igual)
        (leer_desde-trozo S leyes tamanio bloques disco byte size [] h b m
          (subst (λ d. Presentes tamanio disco bloques d size) igual p) tt
          (subst (λ d. SinNul (trozo (contenido tamanio disco bloques) d size)) igual nul))
  leer_indice (suc i) [] disco byte size h b m n p nul = absurd (omega arith)
  leer_indice (suc i) (b ∷ bs) disco byte size h ((q, qs), (d, ds)) m n p nul =
      let primero = completar tamanio (bloque_de disco b) in
      let resto = contenido tamanio disco bs in
      let igual : trozo (primero ++ resto) (tamanio * suc i + byte) size
          ≡ trozo resto (tamanio * i + byte) size =
        ap (λ j. trozo (primero ++ resto) j size) {x = tamanio * suc i + byte}
          {y = length primero + (tamanio * i + byte)}
          (omega (arith, largo_completo tamanio disco b h))
        ∙ trozo-append_derecha primero resto (tamanio * i + byte) size in
      leer_indice i bs disco byte size h (qs, ds) m (omega arith)
        (λ k r.
          ap (presente tamanio disco bs) {x = tamanio * i + byte + k}
            {y = tamanio * suc i + byte + k - tamanio} (omega arith)
          ∙ saltea disco b bs (tamanio * suc i + byte + k) (omega arith) (p k r))
        (subst SinNul igual nul)
      ∙ ap some (sym igual)
    where
      saltea :
          (disco : List (List ℕ)) (b : ℕ) (bs : List ℕ) (j : ℕ)
          → tamanio ≤ j
          → presente tamanio disco (b ∷ bs) j ≡ true
          → presente tamanio disco bs (j - tamanio) ≡ true
      saltea disco b bs j m p = ground arith

  -- A read within a file gives the bytes of the flat content, when they are in the files of
  -- the blocks and none of them is NUL.
  pub leer_archivo_fs-trozo :
      (disco : List (List ℕ)) (archivo : ArchivoMetadata) (offset size : ℕ)
      → EsDisco tamanio disco
      → SusBloques disco archivo.bloques
      → offset + size ≤ tamanio * length archivo.bloques
      → Presentes tamanio disco archivo.bloques offset size
      → SinNul (trozo (contenido tamanio disco archivo.bloques) offset size)
      → leer_archivo_fs S tamanio disco archivo offset size
        ≡ some (trozo (contenido tamanio disco archivo.bloques) offset size)
  unfolding leer_archivo_fs
  leer_archivo_fs-trozo disco archivo offset size h b n p nul =
      let (i, byte, inicia, suma, m) = bloque_inicial_lem tamanio offset positivo in
      let dentro : i ≤ length archivo.bloques =
        le_of_mul-le-mul_left {k = tamanio} (omega arith) positivo in
      let dentro' : leb i (length archivo.bloques) ≡ true = ground arith in
      rw (inicia, dentro')
        (subst
          (λ d.
            leer_desde S tamanio disco (drop i archivo.bloques) byte size []
            ≡ some (trozo (contenido tamanio disco archivo.bloques) d size))
          suma
          (leer_indice i archivo.bloques disco byte size h b m dentro
            (subst (λ d. Presentes tamanio disco archivo.bloques d size) (sym suma) p)
            (subst (λ d. SinNul (trozo (contenido tamanio disco archivo.bloques) d size)) (sym suma)
              nul)))
