-- ===== src/Cpu/Pedidos/Cobertura.antt =====
-- The requests of a CPU cover what it needs: `pedirInstruccionAMemoria` of
-- Segundo tp/cpu/src/pedidosMemoria.c.
use so_commons.Base.{
  ℕ, zero, suc, ◌+◌, ◌-◌, ◌*◌, ◌/◌, ◌≤◌, ◌<◌, ◌≡◌, ◌⊎◌, inl, inr, refl, sym, ap, ap₂, ◌∙◌, ◌&&◌,
  Bool, true, false, List, [], ◌∷◌, ◌++◌, arith, ltb, leb, length, All, Bool-cases,
}
use native.Mathlib.Nat.{mod-add-div, mod-lt}
use so_commons.Memoria.Datos.Bytes.{trozo, trozo-append}
use so_commons.Cpu.Pedidos.{Parte, bytes_a_pedir, partes, pedir_instruccion_a_memoria}

-- One after the other, the bytes that the answers to some requests bring, from the pages of a process.
abbrev pub unir : List ℕ → ℕ → List Parte → List ℕ
unir memoria t [] = []
unir memoria t (p ∷ ps) = trozo memoria (p.pagina_id * t + p.offset) p.tamanio ++ unir memoria t ps

-- A request for some bytes of one page.
abbrev pub EnPagina : ℕ → Parte → Type 0
EnPagina t p = (0 < p.tamanio) × (p.offset + p.tamanio ≤ t)

-- One turn of the loop: it asks for all that is left, or up to the end of the page.
bytes_a_pedir_lem :
    (c : Bool) (t tamanio leidos posicion : ℕ)
    → posicion < t
    → leidos < tamanio
    → (0 < leidos → posicion ≡ 0)
    → (tamanio ≤ t → c ≡ true)
    → (c ≡ true → tamanio ≤ t)
    → let n = bytes_a_pedir c t tamanio leidos posicion in
      (0 < n)
      × (posicion + n ≤ t)
      × (n ≤ tamanio - leidos)
      × ((n ≡ tamanio - leidos) ⊎ (posicion + n ≡ t))
unfolding bytes_a_pedir
bytes_a_pedir_lem c t tamanio leidos posicion m n z k l =
    elim (Bool-cases (ltb t (tamanio - leidos))) [
      | inl larga ↦
          let larga' : t < tamanio - leidos = ground arith in
          simp larga (omega arith, omega arith, omega arith, inr (omega arith))
      | inr corta ↦
          let corta' : tamanio - leidos ≤ t = ground arith in
          elim (Bool-cases (c && ltb t (tamanio + posicion))) [
            | inl cruza ↦
                let (si, pasa) = ambas c (ltb t (tamanio + posicion)) cruza in
                let pasa' : t < tamanio + posicion = ground arith in
                let cabe = l si in
                let primera : leidos ≡ 0 = de_cero leidos (λ q. no_pasa (z q) cabe pasa') in
                simp (corta, cruza) (omega arith, omega arith, omega arith, inr (omega arith))
            | inr no_cruza ↦
                let entra : posicion + (tamanio - leidos) ≤ t = elim (Bool-cases (ltb 0 leidos)) [
                  | inl despues ↦ let cero = z (ground arith) in omega arith
                  | inr antes ↦
                      let nada : leidos ≡ 0 = ground arith in
                      let si = k (omega arith) in ground arith
                ] in
                simp (corta, no_cruza) (omega arith, entra, omega arith, inl refl)
          ]
    ]
  where
    ambas : (a b : Bool) → (a && b) ≡ true → (a ≡ true) × (b ≡ true)
    ambas true b q = (refl, q)
    ambas false b q = absurd (ground arith)

    de_cero : (n : ℕ) → (0 < n → ⊥) → n ≡ 0
    de_cero zero q = refl
    de_cero (suc n) q = absurd (q (omega arith))

    no_pasa : posicion ≡ 0 → tamanio ≤ t → t < tamanio + posicion → ⊥
    no_pasa q r s = omega arith

-- Where the next turn starts, when there is one.
siguiente :
    (memoria : List ℕ) (t pagina posicion n : ℕ) {falta resto : ℕ}
    → (n ≡ falta) ⊎ (posicion + n ≡ t)
    → resto ≡ falta - n
    → n ≤ falta
    → 0 < resto
    → pagina * t + posicion + falta ≤ length memoria
    → suc pagina * t + 0 + resto ≤ length memoria
siguiente memoria t pagina posicion n corte r h q e = elim corte [
  | inl todo ↦ absurd (omega arith)
  | inr borde ↦ omega arith
]

mismo_lugar :
    (memoria : List ℕ) (t pagina posicion n : ℕ) {falta resto : ℕ}
    → (n ≡ falta) ⊎ (posicion + n ≡ t)
    → resto ≡ falta - n
    → trozo memoria (suc pagina * t + 0) resto ≡ trozo memoria (pagina * t + posicion + n) resto
mismo_lugar memoria t pagina posicion n {falta} {resto} corte r = elim corte [
  | inl todo ↦
      let cero : resto ≡ 0 = omega arith in
      ap (trozo memoria (suc pagina * t + 0)) cero
      ∙ ap (trozo memoria (pagina * t + posicion + n)) (sym cero)
  | inr borde ↦
      ap (λ j. trozo memoria j resto) {x = suc pagina * t + 0} {y = pagina * t + posicion + n}
        (omega arith)
]

pub partes-trozo :
    (memoria : List ℕ) (c : Bool) (t tamanio fuel leidos pagina posicion : ℕ)
    → posicion < t
    → tamanio - leidos ≤ fuel
    → (0 < leidos → posicion ≡ 0)
    → (tamanio ≤ t → c ≡ true)
    → (c ≡ true → tamanio ≤ t)
    → (0 < tamanio - leidos → pagina * t + posicion + (tamanio - leidos) ≤ length memoria)
    → let ps = partes c t tamanio fuel leidos pagina posicion in
      (unir memoria t ps ≡ trozo memoria (pagina * t + posicion) (tamanio - leidos))
      × All (EnPagina t) ps
unfolding partes
partes-trozo memoria c t tamanio zero leidos pagina posicion m f z k l e =
    (ap (trozo memoria (pagina * t + posicion)) {x = 0} {y = tamanio - leidos} (omega arith), tt)
partes-trozo memoria c t tamanio (suc fuel) leidos pagina posicion m f z k l e =
    elim (Bool-cases (ltb leidos tamanio)) [
      | inr fin ↦ simp fin (
        ap (trozo memoria (pagina * t + posicion)) {x = 0} {y = tamanio - leidos} (ground arith),
        tt,
      )
      | inl falta ↦
          let n = bytes_a_pedir c t tamanio leidos posicion in
          let a = pagina * t + posicion in
          let r = tamanio - (leidos + n) in
          let falta' : leidos < tamanio = ground arith in
          let (hay, entra, hasta, corte) =
            bytes_a_pedir_lem c t tamanio leidos posicion m falta' z k l in
          let toda = e (omega arith) in
          let quedan : r ≡ tamanio - leidos - n = omega arith in
          let (sigue, todas) =
            partes-trozo memoria c t tamanio fuel (leidos + n) (suc pagina) 0 (omega arith)
              (omega arith) (λ q. refl) k l
              (λ q. siguiente memoria t pagina posicion n corte quedan hasta q toda) in
          let mismo : trozo memoria (suc pagina * t + 0) r ≡ trozo memoria (a + n) r =
            mismo_lugar memoria t pagina posicion n corte quedan in
          simp falta (
            ap (trozo memoria a n ++◌) (sigue ∙ mismo)
                ∙ sym (trozo-append memoria a n r (omega arith))
                ∙ ap (trozo memoria a) {x = n + r} {y = tamanio - leidos} (omega arith),
            ((hay, entra), todas),
          )
    ]

-- The requests for an instruction, in their order: what they bring is the text of the instruction, byte by byte, each asks for at
-- least one byte, and none goes past the end of a page. The instruction lies within the pages of the process.
pub pedir_instruccion_a_memoria-trozo :
    (memoria : List ℕ) (tamanio_pagina start tamanio : ℕ)
    → 0 < tamanio_pagina
    → start + tamanio ≤ length memoria
    → let ps = pedir_instruccion_a_memoria tamanio_pagina start tamanio in
      (unir memoria tamanio_pagina ps ≡ trozo memoria start tamanio)
      × All (EnPagina tamanio_pagina) ps
unfolding pedir_instruccion_a_memoria
pedir_instruccion_a_memoria-trozo memoria t start tamanio h e =
    let pagina = start / t in
    let resto = start - pagina * t in
    let suma = mod-add-div start t in
    let lugar : pagina * t + resto ≡ start = omega arith in
    let (une, todas) =
      partes-trozo memoria (leb tamanio t) t tamanio tamanio 0 pagina resto
        (omega (arith, mod-lt start h)) (omega arith) (λ q. absurd (omega arith))
        (λ q. ground arith) (λ q. ground arith) (λ q. omega arith) in
    (une ∙ ap₂ (trozo memoria) {u = tamanio - 0} {v = tamanio} lugar (omega arith), todas)
