-- ===== src/Fs/Datos/Escritura.antt =====
-- A write to a file, as a write to one flat array: `escribirDatosEnBloques` of
-- Segundo tp/filesystem/src/logicaFileSystem.c.
use so_commons.Base.{
  ℕ, zero, suc, ◌+◌, ◌-◌, ◌*◌, ◌≤◌, ◌<◌, ◌≡◌, ◌≢◌, refl, sym, ap, ap₂, ◌∙◌, some, List, [], ◌∷◌,
  ◌++◌, arith, subst, ltb, leb, ◌==◌, length, get_elem?, set, take, drop, All, All-mapa,
  length-append, length-set, get_elem?-set_self, get_elem?-set_ne, get_elem?-some, get_elem?_lt,
  Bool-cases, inl, inr, true,
}
use so_commons.Memoria.Datos.Bytes.{trozo-append, trozo, poner, length-trozo}
use so_commons.Fs.Datos.{
  Cadenas, Leyes, SinNul, completar, fwrite_en, primeros, trozo_a_escribir, escribir_desde,
}
use so_commons.Fs.Datos.Legible.{Legible, Legible-lee, Legible-sigue}
use so_commons.Fs.Datos.Plano.{
  bloque_de, contenido, presente, fwrite_en_alcanza, length-completar, length-fwrite_en,
  completar-fwrite_en, poner-append_izquierda, poner-append_sigue, contenido-set_otro,
}

abbrev pub Distintos : List ℕ → Type 0
Distintos [] = Unit
Distintos (b ∷ bs) = All (λ c. c ≢ b) bs × Distintos bs

-- No block is larger than the size of a block.
unfoldable pub EsDisco : ℕ → List (List ℕ) → Type 0
EsDisco tamanio = All λ xs. length xs ≤ tamanio

-- The blocks of a file: on the disk, and each one once.
unfoldable pub SusBloques : List (List ℕ) → List ℕ → Type 0
SusBloques disco bloques = All (λ b. b < length disco) bloques × Distintos bloques

pub EsDisco-get :
    (tamanio : ℕ) (disco : List (List ℕ)) (b : ℕ) {xs : List ℕ}
    → EsDisco tamanio disco
    → get_elem? disco b ≡ some xs
    → length xs ≤ tamanio
unfolding EsDisco
EsDisco-get tamanio [] b h igual = absurd (ground arith)
EsDisco-get tamanio (c ∷ disco) zero (h, hs) igual = ground arith
EsDisco-get tamanio (c ∷ disco) (suc b) (h, hs) igual = EsDisco-get tamanio disco b hs igual

EsDisco-set :
    (tamanio : ℕ) (disco : List (List ℕ)) (b : ℕ) (xs : List ℕ)
    → EsDisco tamanio disco
    → length xs ≤ tamanio
    → EsDisco tamanio (set disco b xs)
unfolding EsDisco
EsDisco-set tamanio [] b xs h m = tt
EsDisco-set tamanio (c ∷ disco) zero xs (h, hs) m = (m, hs)
EsDisco-set tamanio (c ∷ disco) (suc b) xs (h, hs) m = (h, EsDisco-set tamanio disco b xs hs m)

pub poner_vacio : (xs : List ℕ) (d : ℕ) → poner xs d [] ≡ xs
poner_vacio xs d = ap (λ n. take d xs ++ drop n xs) {x = d + 0} {y = d} (omega arith) ∙ go xs d
  where
    go : (xs : List ℕ) (d : ℕ) → take d xs ++ drop d xs ≡ xs
    go xs zero = refl
    go [] (suc d) = refl
    go (x ∷ xs) (suc d) = ap (x ∷◌) (go xs d)

length-take_menor : (n : ℕ) (xs : List ℕ) → length (take n xs) ≤ length xs
length-take_menor zero xs = omega arith
length-take_menor (suc n) [] = omega arith
length-take_menor (suc n) (x ∷ xs) = omega (arith, length-take_menor n xs)

pub SusBloques-length :
    (disco disco' : List (List ℕ)) (bloques : List ℕ)
    → length disco' ≡ length disco
    → All (λ b. b < length disco) bloques
    → All (λ b. b < length disco') bloques
SusBloques-length disco disco' bloques e h = All-mapa bloques (λ b m. omega arith) h

-- What a write does to the disk: its bytes are in the flat content of the file and in the files of its
-- blocks, and the other blocks are as they were.
pub record Escrito (tamanio : ℕ) (disco : List (List ℕ)) (bloques : List ℕ) (d : ℕ) (datos : List ℕ)
    (disco' : List (List ℕ)) : Type 0 where
  pub es_disco : EsDisco tamanio disco'
  pub mismos : length disco' ≡ length disco
  pub plano : contenido tamanio disco' bloques ≡ poner (contenido tamanio disco bloques) d datos
  pub presentes : (k : ℕ) → k < length datos → presente tamanio disco' bloques (d + k) ≡ true
  pub otros : (b : ℕ) → All (λ c. c ≢ b) bloques → get_elem? disco' b ≡ get_elem? disco b

Escrito-nada :
    (tamanio : ℕ) (disco : List (List ℕ)) (bloques : List ℕ) (byte : ℕ) (datos : List ℕ)
    → EsDisco tamanio disco
    → datos ≡ []
    → Escrito tamanio disco bloques byte datos disco
Escrito-nada tamanio disco bloques byte datos h igual = record {
  es_disco = h;
  mismos = refl;
  plano = sym (
      ap (poner (contenido tamanio disco bloques) byte) igual
      ∙ poner_vacio (contenido tamanio disco bloques) byte);
  presentes = λ k m. absurd (omega (arith, ap length igual));
  otros = λ b q. refl;
}

-- A write in the first block `bloque` of a file, whose content is `xs`.
module _ (tamanio : ℕ) (disco : List (List ℕ)) (bloque : ℕ) (bloques : List ℕ) (xs : List ℕ)
    (byte : ℕ) (ys : List ℕ) (h : EsDisco tamanio disco) (igual : get_elem? disco bloque ≡ some xs)
    (d : All (λ b. b ≢ bloque) bloques) where
  abbrev disco_1 : List (List ℕ)
  disco_1 = set disco bloque (fwrite_en xs byte ys)

  disco_1-EsDisco : byte + length ys ≤ tamanio → EsDisco tamanio disco_1
  disco_1-EsDisco n =
      let m = EsDisco-get tamanio disco bloque h igual in
      EsDisco-set tamanio disco bloque (fwrite_en xs byte ys) h
        (length-fwrite_en tamanio xs byte ys m n)

  largo_bloque : length (completar tamanio (bloque_de disco bloque)) ≡ tamanio
  largo_bloque =
      rw (igual, bloque_de)
        (omega (arith, length-completar tamanio xs, EsDisco-get tamanio disco bloque h igual))

  bloque_escrito :
      byte + length ys ≤ tamanio
      → completar tamanio (bloque_de disco_1 bloque)
        ≡ poner (completar tamanio (bloque_de disco bloque)) byte ys
  bloque_escrito n =
      rw
        (
          get_elem?-set_self disco bloque (fwrite_en xs byte ys) (get_elem?_lt disco bloque igual),
          igual,
          bloque_de,
        )
        (completar-fwrite_en tamanio xs byte ys (EsDisco-get tamanio disco bloque h igual) n)

  bloque_alcanza : 0 < length ys → byte + length ys ≤ length (bloque_de disco_1 bloque)
  bloque_alcanza n =
      rw
        (
          get_elem?-set_self disco bloque (fwrite_en xs byte ys) (get_elem?_lt disco bloque igual),
          bloque_de,
        )
        (fwrite_en_alcanza xs byte ys n)

  Escrito-primero :
      byte + length ys ≤ tamanio → Escrito tamanio disco (bloque ∷ bloques) byte ys disco_1
  unfolding contenido presente
  Escrito-primero n = record {
    es_disco = disco_1-EsDisco n;
    mismos = length-set disco bloque (fwrite_en xs byte ys);
    plano =
        ap₂ ◌++◌ (bloque_escrito n)
          (contenido-set_otro tamanio disco bloque (fwrite_en xs byte ys) bloques d)
        ∙ sym (
            poner-append_izquierda (completar tamanio (bloque_de disco bloque))
              (contenido tamanio disco bloques) byte ys (omega (arith, largo_bloque)));
    presentes = λ k m. ground (
      arith,
      bloque_alcanza,
      get_elem?-set_self disco bloque (fwrite_en xs byte ys) (get_elem?_lt disco bloque igual),
    );
    otros = λ b (q, qs). get_elem?-set_ne disco bloque b (fwrite_en xs byte ys) q;
  }

  Escrito-sigue :
      (ws : List ℕ) (disco' : List (List ℕ))
      → byte + length ys ≡ tamanio
      → Escrito tamanio disco_1 bloques 0 ws disco'
      → Escrito tamanio disco (bloque ∷ bloques) byte (ys ++ ws) disco'
  unfolding contenido presente
  Escrito-sigue ws disco' n e = record {
    es_disco = e.es_disco;
    mismos = e.mismos ∙ length-set disco bloque (fwrite_en xs byte ys);
    plano =
        ap₂ (λ c cs. completar tamanio c ++ cs) {x = bloque_de disco' bloque}
          {y = bloque_de disco_1 bloque} (rw (e.otros bloque d, bloque_de) refl)
          (e.plano
            ∙ ap (λ c. poner c 0 ws)
                (contenido-set_otro tamanio disco bloque (fwrite_en xs byte ys) bloques d))
        ∙ ap (λ c. c ++ poner (contenido tamanio disco bloques) 0 ws)
            {x = completar tamanio (bloque_de disco_1 bloque)}
            {y = poner (completar tamanio (bloque_de disco bloque)) byte ys}
            (bloque_escrito (omega arith))
        ∙ sym (
            poner-append_sigue (completar tamanio (bloque_de disco bloque))
              (contenido tamanio disco bloques) byte ys ws (n ∙ sym largo_bloque));
    presentes = λ k m. elim (Bool-cases (ltb (byte + k) tamanio)) [
      | inl aca ↦ rw (aca, e.otros bloque d, bloque_de) (ground (arith, bloque_alcanza))
      | inr sigue ↦ rw sigue (
          ap (presente tamanio disco' bloques) {x = byte + k - tamanio} {y = 0 + (k - length ys)}
            (ground arith)
          ∙ e.presentes (k - length ys) (ground (arith, length-append ys ws)))
    ];
    otros = λ b (q, qs). e.otros b qs ∙ get_elem?-set_ne disco bloque b (fwrite_en xs byte ys) q;
  }

module _ (S : Cadenas) (leyes : Leyes S) (tamanio : ℕ) where
  -- One `fwrite` of the loop.
  primeros-trozo :
      (buffer : List ℕ) (start n : ℕ)
      → SinNul buffer
      → start + (start + n) ≤ length buffer
      → trozo_a_escribir S tamanio buffer start n ≡ some (trozo buffer start n)
  unfolding trozo_a_escribir primeros
  primeros-trozo buffer start n h m =
      let texto = S.string_substring buffer start (start + n) in
      let igual = leyes.string_substring_lem buffer start n (start + n) h (omega arith) m in
      let entra : leb (start + (start + n)) (length buffer) ≡ true = ground arith in
      let largo : length (take n texto) ≡ n =
        ap length igual ∙ length-trozo buffer start n (omega arith) in
      let cabe : n ≤ length texto = omega (arith, length-take_menor n texto) in
      rw entra (subst (λ xs. primeros n texto ≡ some xs) igual (ground arith))

  pub escribir_desde-Escrito :
      (bloques : List ℕ) (disco : List (List ℕ)) (byte : ℕ) (buffer : List ℕ) (start restantes : ℕ)
      → EsDisco tamanio disco
      → SusBloques disco bloques
      → SinNul buffer
      → byte ≤ tamanio
      → byte + restantes ≤ tamanio * length bloques
      → Legible tamanio byte start restantes (length buffer)
      → (disco' : List (List ℕ)) × (escribir_desde S tamanio disco bloques byte buffer start
            restantes
          ≡ some disco')
        × Escrito tamanio disco bloques byte (trozo buffer start restantes) disco'
  unfolding escribir_desde SusBloques
  escribir_desde-Escrito [] disco byte buffer start zero h b nul m n l =
      (disco, refl, Escrito-nada tamanio disco [] byte [] h refl)
  escribir_desde-Escrito [] disco byte buffer start (suc restantes) h b nul m n l =
      absurd (omega arith)
  escribir_desde-Escrito (bloque ∷ bloques) disco byte buffer start restantes h ((b, bs), (d, ds))
        nul m n l =
      elim (Bool-cases (restantes == 0)) [
        | inl cero ↦
            let nada : trozo buffer start restantes ≡ [] =
              ap (trozo buffer start) {x = restantes} {y = 0} (ground arith) in
            (
              disco,
              rw cero refl,
              Escrito-nada tamanio disco (bloque ∷ bloques) byte (trozo buffer start restantes) h
                  nada,
            )
        | inr queda ↦
            let (xs, igual) = get_elem?-some disco bloque b in
            let positivo : 0 < restantes = ground arith in
            elim (Bool-cases (leb tamanio (byte + restantes))) [
              | inl lleno ↦
                  let k = tamanio - byte in
                  let lleno' : tamanio ≤ byte + restantes = ground arith in
                  let cabe =
                    Legible-lee tamanio byte start restantes k (length buffer) positivo
                      (omega arith) l in
                  let ys = trozo buffer start k in
                  let disco1 = disco_1 tamanio disco bloque bloques xs byte ys h igual d in
                  let largo : length ys ≡ k = length-trozo buffer start k (omega arith) in
                  let (disco', corre, e) =
                    escribir_desde-Escrito bloques disco1 0 buffer (start + k) (restantes - k)
                      (disco_1-EsDisco tamanio disco bloque bloques xs byte ys h igual d
                        (omega arith))
                      (
                        SusBloques-length disco disco1 bloques
                            (length-set disco bloque (fwrite_en xs byte ys)) bs,
                        ds,
                      )
                      nul (omega arith) (omega arith)
                      (Legible-sigue tamanio byte start restantes (length buffer) m lleno' l) in
                  (
                    disco',
                    rw (queda, igual, lleno, primeros-trozo buffer start k nul cabe) corre,
                    subst (λ zs. Escrito tamanio disco (bloque ∷ bloques) byte zs disco')
                        (sym (trozo-append buffer start k (restantes - k) (omega arith))
                          ∙ ap (trozo buffer start) {x = k + (restantes - k)} {y = restantes}
                              (omega arith))
                        (Escrito-sigue tamanio disco bloque bloques xs byte ys h igual d
                          (trozo buffer (start + k) (restantes - k)) disco' (omega arith) e),
                  )
              | inr entra ↦
                  let cabe =
                    Legible-lee tamanio byte start restantes restantes (length buffer) positivo
                      (omega arith) l in
                  let ys = trozo buffer start restantes in
                  let largo : length ys ≡ restantes =
                    length-trozo buffer start restantes (omega arith) in
                  (
                    disco_1 tamanio disco bloque bloques xs byte ys h igual d,
                    rw (queda, igual, entra, primeros-trozo buffer start restantes nul cabe) refl,
                    Escrito-primero tamanio disco bloque bloques xs byte ys h igual d
                        (ground arith),
                  )
            ]
      ]
