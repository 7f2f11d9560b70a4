-- ===== src/Fs/Datos/Lectura.antt =====
-- Reads of a file, as reads of one flat array: `leerArchivoFs` of
-- Segundo tp/filesystem/src/logicaFileSystem.c.
use so_commons.Base.{
  ℕ, zero, suc, ◌+◌, ◌-◌, ◌≤◌, ◌<◌, ◌≡◌, refl, sym, ap, ap₂, ◌∙◌, subst, some, List, [], ◌∷◌, ◌++◌,
  arith, ltb, ◌==◌, length, get_elem?, length-append, get_elem?-some, Bool-cases, inl, inr, true,
}
use so_commons.Memoria.Datos.Bytes.{
  trozo-append, trozo, list_ext, get_elem?-append, length-trozo, get_elem?-trozo,
}
use so_commons.Fs.Datos.{Cadenas, Leyes, SinNul, completar, fread_de, leer_desde}
use so_commons.Fs.Datos.Plano.{
  bloque_de, contenido, presente, get_elem?-completar, length-completar,
}
use so_commons.Fs.Datos.Escritura.{EsDisco, SusBloques, EsDisco-get}

-- The bytes of a file from `d` on, `n` of them, are in the files of its blocks.
abbrev pub Presentes : ℕ → List (List ℕ) → List ℕ → ℕ → ℕ → Type 0
Presentes tamanio disco bloques d n =
    (k : ℕ) → k < n → presente tamanio disco bloques (d + k) ≡ true

fread_de-trozo :
    (xs : List ℕ) (d n : ℕ) → (0 < n → d + n ≤ length xs) → fread_de xs d n ≡ some (trozo xs d n)
unfolding fread_de
fread_de-trozo xs d zero h = refl
fread_de-trozo xs d (suc n) h = let m : d + suc n ≤ length xs = h (omega arith) in ground arith

length-trozo_si : (xs : List ℕ) (d n : ℕ) → (0 < n → d + n ≤ length xs) → length (trozo xs d n) ≡ n
length-trozo_si xs d zero h = refl
length-trozo_si xs d (suc n) h = length-trozo xs d (suc n) (h (omega arith))

-- A read that ends in the first block.
trozo-primero :
    (tamanio : ℕ) (xs ys : List ℕ) (d n : ℕ)
    → (0 < n → d + n ≤ length xs)
    → trozo (completar tamanio xs ++ ys) d n ≡ trozo xs d n
trozo-primero tamanio xs ys d zero h = refl
trozo-primero tamanio xs ys d (suc n) h = list_ext _ _ λ i. ground (
  arith,
  h (omega arith),
  get_elem?-trozo (completar tamanio xs ++ ys) d (suc n) i,
  get_elem?-trozo xs d (suc n) i,
  get_elem?-append (completar tamanio xs) ys (d + i),
  get_elem?-completar tamanio xs (d + i),
  length-completar tamanio xs,
)

pub trozo-append_derecha :
    (xs ys : List ℕ) (d n : ℕ) → trozo (xs ++ ys) (length xs + d) n ≡ trozo ys d n
trozo-append_derecha xs ys d n = list_ext _ _ λ i. ground (
  arith,
  get_elem?-trozo (xs ++ ys) (length xs + d) n i,
  get_elem?-trozo ys d n i,
  get_elem?-append xs ys (length xs + d + i),
  ap (get_elem? ys) {x = length xs + d + i - length xs} {y = d + i} (omega arith),
)

-- A read that goes on in the next block.
dos_partes :
    (tamanio : ℕ) (xs ys : List ℕ) (d n : ℕ)
    → d ≤ tamanio
    → tamanio ≤ d + n
    → length (completar tamanio xs) ≡ tamanio
    → (0 < tamanio - d → d + (tamanio - d) ≤ length xs)
    → trozo (completar tamanio xs ++ ys) d n
      ≡ trozo xs d (tamanio - d) ++ trozo ys 0 (n - (tamanio - d))
dos_partes tamanio xs ys d n m q largo h =
    let k = tamanio - d in
    let todo = completar tamanio xs ++ ys in
    ap (trozo todo d) {x = n} {y = k + (n - k)} (omega arith)
    ∙ trozo-append todo d k (n - k) (omega (arith, length-append (completar tamanio xs) ys))
    ∙ ap₂ ◌++◌ (trozo-primero tamanio xs ys d k h) (
        ap (λ j. trozo todo j (n - k)) {x = d + k} {y = length (completar tamanio xs) + 0}
          (omega arith)
        ∙ trozo-append_derecha (completar tamanio xs) ys 0 (n - k))

append_assoc : (xs ys zs : List ℕ) → (xs ++ ys) ++ zs ≡ xs ++ (ys ++ zs)
append_assoc [] ys zs = refl
append_assoc (x ∷ xs) ys zs = ap (x ∷◌) (append_assoc xs ys zs)

append_vacio : (xs : List ℕ) → xs ++ [] ≡ xs
append_vacio [] = refl
append_vacio (x ∷ xs) = ap (x ∷◌) (append_vacio xs)

SinNul-append : (xs ys : List ℕ) → SinNul xs → SinNul ys → SinNul (xs ++ ys)
SinNul-append [] ys h k = k
SinNul-append (x ∷ xs) ys (h, hs) k = (h, SinNul-append xs ys hs k)

SinNul-partes : (xs ys : List ℕ) → SinNul (xs ++ ys) → SinNul xs × SinNul ys
SinNul-partes [] ys h = (tt, h)
SinNul-partes (x ∷ xs) ys (h, hs) = let (a, b) = SinNul-partes xs ys hs in ((h, a), b)

module _ (S : Cadenas) (leyes : Leyes S) (tamanio : ℕ) where
  -- The text of one `fread`, at the end of what was read before.
  lectura-append :
      (lectura xs : List ℕ) (d n : ℕ)
      → (0 < n → d + n ≤ length xs)
      → SinNul lectura
      → SinNul (trozo xs d n)
      → S.string_append lectura (S.string_substring (trozo xs d n) 0 n) ≡ lectura ++ trozo xs d n
  lectura-append lectura xs d n h nul nul' =
      let ys = trozo xs d n in
      let entera : S.string_substring ys 0 n ≡ ys =
        subst (λ k. S.string_substring ys 0 k ≡ ys) (length-trozo_si xs d n h)
          (leyes.string_substring_entera ys nul') in
      ap (S.string_append lectura) entera ∙ leyes.string_append_lem lectura ys nul nul'

  esta_en :
      (disco : List (List ℕ)) (bloque : ℕ) (bloques : List ℕ) (xs : List ℕ) (i : ℕ)
      → get_elem? disco bloque ≡ some xs
      → i < tamanio
      → presente tamanio disco (bloque ∷ bloques) i ≡ true
      → i < length xs
  unfolding presente
  esta_en disco bloque bloques xs i igual m p = ground arith

  otro_bloque :
      (disco : List (List ℕ)) (bloque : ℕ) (bloques : List ℕ) (byte j : ℕ)
      → byte ≤ tamanio
      → presente tamanio disco (bloque ∷ bloques) (byte + (tamanio - byte + j)) ≡ true
      → presente tamanio disco bloques (0 + j) ≡ true
  unfolding presente
  otro_bloque disco bloque bloques byte j m p =
      ap (presente tamanio disco bloques) {x = 0 + j} {y = byte + (tamanio - byte + j) - tamanio}
        (omega arith)
      ∙ ground arith

  pub leer_desde-trozo :
      (bloques : List ℕ) (disco : List (List ℕ)) (byte n : ℕ) (lectura : List ℕ)
      → EsDisco tamanio disco
      → SusBloques disco bloques
      → byte ≤ tamanio
      → Presentes tamanio disco bloques byte n
      → SinNul lectura
      → SinNul (trozo (contenido tamanio disco bloques) byte n)
      → leer_desde S tamanio disco bloques byte n lectura
        ≡ some (lectura ++ trozo (contenido tamanio disco bloques) byte n)
  unfolding leer_desde contenido SusBloques presente
  leer_desde-trozo [] disco byte zero lectura h b m p nul nul' =
      ap some (sym (append_vacio lectura))
  leer_desde-trozo [] disco byte (suc n) lectura h b m p nul nul' =
      absurd (ground (arith, p 0 (omega arith)))
  leer_desde-trozo (bloque ∷ bloques) disco byte n lectura h ((b, bs), (d, ds)) m p nul nul' =
      let (xs, igual) = get_elem?-some disco bloque b in
      let resto = contenido tamanio disco bloques in
      let todo = completar tamanio xs ++ resto in
      let es_todo : contenido tamanio disco (bloque ∷ bloques) ≡ todo =
        rw (igual, bloque_de) refl in
      let nul1 : SinNul (trozo todo byte n) = subst (λ c. SinNul (trozo c byte n)) es_todo nul' in
      let largo : length (completar tamanio xs) ≡ tamanio =
        omega (arith, length-completar tamanio xs, EsDisco-get tamanio disco bloque h igual) in
      let esta : (k : ℕ) → k < n → byte + k < tamanio → byte + k < length xs =
        λ k q r. esta_en disco bloque bloques xs (byte + k) igual r (p k q) in
      subst
        (λ c.
          leer_desde S tamanio disco (bloque ∷ bloques) byte n lectura
          ≡ some (lectura ++ trozo c byte n))
        (sym es_todo)
        (elim (Bool-cases (n == 0)) [
          | inl cero ↦ rw cero (
              ap some (
                sym (append_vacio lectura)
                ∙ ap (λ k. lectura ++ trozo todo byte k) {x = 0} {y = n} (ground arith)))
          | inr queda ↦ elim (Bool-cases (ltb tamanio (byte + n))) [
            | inl pasa ↦
                let k = tamanio - byte in
                let pasa' : tamanio < byte + n = ground arith in
                let cabe : 0 < k → byte + k ≤ length xs =
                  λ q. omega (arith, esta (k - 1) (omega arith) (omega arith)) in
                let ys = trozo xs byte k in
                let zs = trozo resto 0 (n - k) in
                let partes : trozo todo byte n ≡ ys ++ zs =
                  dos_partes tamanio xs resto byte n m (omega arith) largo cabe in
                let (nul2, nul3) = SinNul-partes ys zs (subst SinNul partes nul1) in
                let junta = lectura-append lectura xs byte k cabe nul nul2 in
                let sigue =
                  leer_desde-trozo bloques disco 0 (n - k) (lectura ++ ys) h (bs, ds) (omega arith)
                    (λ j q. otro_bloque disco bloque bloques byte j m (p (k + j) (omega arith)))
                    (SinNul-append lectura ys nul nul2) nul3 in
                rw (queda, igual, pasa, fread_de-trozo xs byte k cabe, junta)
                  (sigue ∙ ap some (append_assoc lectura ys zs ∙ ap (lectura ++◌) (sym partes)))
            | inr entra ↦
                let cabe : 0 < n → byte + n ≤ length xs =
                  λ q. omega (arith, esta (n - 1) (omega arith) (ground arith)) in
                rw (queda, igual, entra, fread_de-trozo xs byte n cabe)
                  (ap some (
                    lectura-append lectura xs byte n cabe nul
                      (subst SinNul (trozo-primero tamanio xs resto byte n cabe) nul1)
                    ∙ ap (lectura ++◌) (sym (trozo-primero tamanio xs resto byte n cabe))))
          ]
        ])
