-- ===== src/Memoria/Datos.antt =====
-- Reads and writes of the memory server: `leerDato`, `escribirDato`, their internal versions and
-- `leerPaginaDeMemoria` of Segundo tp/memoria/src/gestionDeMemoria.c. Memory is one array of bytes;
-- `retardoMemoria` and the mutex have no part in the result.
pub mod Bytes
pub mod Coherencia
use so_commons.Base.{
  ℕ, ◌+◌, ◌*◌, Option, none, some, List, [], ◌∷◌, ◌++◌, if◌then◌else◌, ltb, leb, ◌>>=◌, ℤ, pos,
  negsuc, length, take, drop,
}
use so_commons.Memoria.{
  RegistroCacheMemoria, EstructurasMemoria, TipoDeDatos, char, int, metadata, Respuesta,
  lectura_satisfactoria, error_en_lectura, escritura_satisfactoria, error_en_escritura,
}
use so_commons.Memoria.Tabla.{buscar_indice_en_pagina_de_frames}
use so_commons.Memoria.Cache.{leer_cache, quitar_pagina, escribir_cache}

-- `memcpy` out of an array: `n` bytes from index `d`. `none` is an access past its end.
unfoldable pub leer_bytes : List ℕ → ℕ → ℕ → Option (List ℕ)
leer_bytes xs d n = if leb (d + n) (length xs) then some (take n (drop d xs)) else none

-- `memcpy` of `ys` into an array, at index `d`.
unfoldable pub escribir_bytes : List ℕ → ℕ → List ℕ → Option (List ℕ)
escribir_bytes xs d ys =
    if leb (d + length ys) (length xs)
    then some (take d xs ++ (ys ++ drop (d + length ys) xs))
    else none

pub record DireccionLogica : Type 0 where
  pub pid : ℕ
  pub pagina_id : ℕ
  pub offset : ℤ
  pub tamanio : ℕ

-- The page read is the copy of its frame; no page is the answer NULL.
unfoldable pub leer_pagina_de_memoria :
    EstructurasMemoria → ℕ → ℕ → Option (Option (List ℕ) × EstructurasMemoria)
unfolding buscar_indice_en_pagina_de_frames leer_bytes
leer_pagina_de_memoria m pid pagina_id =
    buscar_indice_en_pagina_de_frames m pid pagina_id >>= λ (indice, m'). elim indice [
      | none ↦ some (none, m')
      | some f ↦ leer_bytes m'.memoria (f * m'.config.marco_size) m'.config.marco_size >>= λ pagina.
          some (some pagina, m')
    ]

-- The branch of a cache miss.
unfoldable pub leer_sin_cache :
    EstructurasMemoria → ℕ → ℕ → ℕ → ℕ → Option (Respuesta × List ℕ × EstructurasMemoria)
unfolding leer_pagina_de_memoria escribir_cache leer_bytes
leer_sin_cache m pid pagina_id offset tamanio =
    leer_pagina_de_memoria m pid pagina_id >>= λ (leida, m'). elim leida [
      | none ↦ some (error_en_lectura, [], m')
      | some pagina ↦
          escribir_cache (record m' { lecturas = m'.lecturas + 1 }) pid pagina_id pagina
          >>= λ (registro, m''). leer_bytes registro.pagina offset tamanio >>= λ bytes.
              some (lectura_satisfactoria, bytes, m'')
    ]

unfoldable pub leer_dato_interna :
    EstructurasMemoria → ℕ → ℕ → ℕ → ℕ → Option (Respuesta × List ℕ × EstructurasMemoria)
unfolding leer_cache leer_sin_cache leer_bytes
leer_dato_interna m pid pagina_id offset tamanio = elim (leer_cache m.cache pid pagina_id) [
  | none ↦ leer_sin_cache m pid pagina_id offset tamanio
  | some (registro, cache') ↦ leer_bytes registro.pagina offset tamanio >>= λ bytes. some (
    lectura_satisfactoria,
    bytes,
    record m { cache = cache'; aciertos_de_cache = m.aciertos_de_cache + 1 },
  )
]

-- Only the offset is checked, and against the size of a frame.
unfoldable pub leer_dato :
    EstructurasMemoria → DireccionLogica → Option (Respuesta × List ℕ × EstructurasMemoria)
unfolding leer_dato_interna
leer_dato m puntero = elim puntero.offset [
  | negsuc n ↦ some (error_en_lectura, [], m)
  | pos n ↦
      if ltb m.config.marco_size n
      then some (error_en_lectura, [], m)
      else leer_dato_interna m puntero.pid puntero.pagina_id n puntero.tamanio
]

-- The bytes that a write copies: four of an `int` whatever `tamanio` says, none for METADATA.
abbrev pub bytes_a_escribir : TipoDeDatos → ℕ → List ℕ → Option (List ℕ)
bytes_a_escribir char tamanio dato = leer_bytes dato 0 tamanio
bytes_a_escribir int tamanio dato = leer_bytes dato 0 4
bytes_a_escribir metadata tamanio dato = some []

-- The write to the cached page, if the page is cached; `leerCache` has moved it to the front.
unfoldable pub escribir_en_cache :
    List RegistroCacheMemoria → ℕ → ℕ → ℕ → List ℕ → Option (List RegistroCacheMemoria)
unfolding leer_cache escribir_bytes quitar_pagina
escribir_en_cache cache pid pagina_id offset bytes = elim (quitar_pagina pid pagina_id cache) [
  | none ↦ some cache
  | some (registro, resto) ↦ escribir_bytes registro.pagina offset bytes >>= λ pagina.
      some (record registro { pagina = pagina } ∷ resto)
]

unfoldable pub escribir_dato_interna :
    EstructurasMemoria
    → ℕ
    → ℕ
    → ℕ
    → ℕ
    → List ℕ
    → TipoDeDatos
    → Option (Respuesta × EstructurasMemoria)
unfolding buscar_indice_en_pagina_de_frames escribir_bytes escribir_en_cache
escribir_dato_interna m pid pagina_id offset tamanio dato tipo =
    buscar_indice_en_pagina_de_frames m pid pagina_id >>= λ (indice, m'). elim indice [
      | none ↦ some (error_en_escritura, m')
      | some frame ↦ bytes_a_escribir tipo tamanio dato >>= λ bytes.
          escribir_bytes m'.memoria (frame * m'.config.marco_size + offset) bytes >>= λ memoria.
          escribir_en_cache m'.cache pid pagina_id offset bytes >>= λ cache. some (
            escritura_satisfactoria,
            record m' { memoria = memoria; cache = cache; escrituras = m'.escrituras + 1 },
          )
    ]

unfoldable pub escribir_dato :
    EstructurasMemoria
    → DireccionLogica
    → List ℕ
    → TipoDeDatos
    → Option (Respuesta × EstructurasMemoria)
unfolding escribir_dato_interna
escribir_dato m puntero dato tipo = elim puntero.offset [
  | negsuc n ↦ some (error_en_lectura, m)
  | pos n ↦
      if ltb m.config.marco_size n
      then some (error_en_lectura, m)
      else escribir_dato_interna m puntero.pid puntero.pagina_id n puntero.tamanio dato tipo
]
