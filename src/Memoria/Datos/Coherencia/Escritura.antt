-- ===== src/Memoria/Datos/Coherencia/Escritura.antt =====
-- `escribirDatoInterna` on a coherent state: memory and cache get the same bytes.
use native.Mathlib.Decide.{dec_lt}
use so_commons.Base.{
  ℕ, ◌+◌, ◌*◌, ◌≤◌, ◌≡◌, refl, sym, ◌∙◌, ◌≢◌, true, false, ◌⊎◌, inl, inr, some, List, [], ◌∷◌,
  arith, All, length,
}
use so_commons.Memoria.{
  RegistroCacheMemoria, EstructurasMemoria, TipoDeDatos, escritura_satisfactoria,
}
use so_commons.Memoria.Tabla.{
  buscar_indice, buscar_indice_en_pagina_de_frames, colision, frame_aprox,
}
use so_commons.Memoria.Cache.{es_pagina}
use so_commons.Memoria.Cache.Orden.{
  Entradas, All-Parte, SinPagina, Unicas, Unicas-frente, quitar_pagina_cases, Quita-es, Quita-Parte,
  Quita-All, Quita-SinPagina,
}
use so_commons.Memoria.Cache.Cuentas.{Quita-entradas, Quita-length, entradas_de}
use so_commons.Memoria.Cache.Limites.{Limites, Limites-igual}
use so_commons.Memoria.Datos.{bytes_a_escribir, escribir_en_cache, escribir_dato_interna}
use so_commons.Memoria.Datos.Bytes.{
  poner, length-trozo, length-poner, escribir_bytes-poner, trozo-poner_dentro, trozo-poner_fuera,
}
use so_commons.Memoria.Datos.Coherencia.{
  Coherente, EnMarco, buscar_indice-fila, marco-lt, marco_dentro, marcos_aparte,
}

-- The state with `bytes` at `offset` of frame `f`, and a cache.
abbrev pub Escrita : EstructurasMemoria → EstructurasMemoria → ℕ → ℕ → List ℕ → Type 0
Escrita m m' f offset bytes =
    (m'.config ≡ m.config)
    × (m'.tabla_paginas ≡ m.tabla_paginas)
    × (m'.memoria ≡ poner m.memoria (f * m.config.marco_size + offset) bytes)

module _ (m m' : EstructurasMemoria) (v : Coherente m) (pid pagina f offset : ℕ) (bytes : List ℕ)
    (b : buscar_indice m.config m.tabla_paginas pid pagina ≡ some (some f))
    (k : offset + length bytes ≤ m.config.marco_size) (w : Escrita m m' f offset bytes) where
  cabe : f * m.config.marco_size + m.config.marco_size ≤ length m.memoria
  cabe =
      omega (
        arith,
        marco_dentro f m.config.marcos m.config.marco_size (marco-lt v pid pagina b),
        v.bytes,
      )

  -- The page written: its entry gets the bytes too.
  EnMarco-escrita :
      (e : RegistroCacheMemoria)
      → es_pagina pid pagina e ≡ true
      → EnMarco m e
      → EnMarco m' (record e { pagina = poner e.pagina offset bytes })
  EnMarco-escrita e t (g, bg, pg) =
      let pidEq : e.pid ≡ pid = ground arith in
      let pagEq : e.pagina_id ≡ pagina = ground arith in
      let fg : g ≡ f = ground (arith, pidEq, pagEq) in
      (
        f,
        rw (w.0, w.1, pidEq, pagEq) b,
        rw (w.0, w.2, pg, fg)
            (sym (
              trozo-poner_dentro m.memoria (f * m.config.marco_size) m.config.marco_size offset
                bytes cabe k)),
      )

  -- Another page: its frame is another one.
  EnMarco-otra :
      (e : RegistroCacheMemoria) → es_pagina pid pagina e ≡ false → EnMarco m e → EnMarco m' e
  EnMarco-otra e t (g, bg, pg) =
      let size = m.config.marco_size in
      let x = buscar_indice-fila m.config m.tabla_paginas pid pagina b in
      let y = buscar_indice-fila m.config m.tabla_paginas e.pid e.pagina_id bg in
      let ne : g ≢ f = λ s. ground (arith, x.1, x.2, y.1, y.2) in
      let aparte : (f * size + offset + length bytes ≤ g * size)
          ⊎ (g * size + size ≤ f * size + offset) =
        elim (dec_lt f g) [
          | yes l ↦ inl (omega (arith, marcos_aparte f g size l))
          | no l ↦ inr (omega (arith, marcos_aparte g f size (omega arith)))
        ] in
      (
        g,
        rw (w.0, w.1) bg,
        rw (w.0, w.2)
            (pg
              ∙ sym (
                  trozo-poner_fuera m.memoria (g * size) size (f * size + offset) bytes
                    (omega (arith, cabe)) aparte)),
      )

  EnMarco-otras :
      (xs : Entradas) → SinPagina pid pagina xs → All (EnMarco m) xs → All (EnMarco m') xs
  EnMarco-otras [] s a = tt
  EnMarco-otras (x ∷ xs) s a = (EnMarco-otra x s.0 a.0, EnMarco-otras xs s.1 a.1)

  length-EnMarco : (e : RegistroCacheMemoria) → EnMarco m e → length e.pagina ≡ m.config.marco_size
  length-EnMarco e (g, bg, pg) =
      let l = marco-lt v e.pid e.pagina_id bg in
      rw pg (
        length-trozo m.memoria (g * m.config.marco_size) m.config.marco_size
          (omega (arith, marco_dentro g m.config.marcos m.config.marco_size l, v.bytes)))

  -- The cache after the write.
  escribir_en_cache_lem :
      (cache' : Entradas) × (escribir_en_cache m.cache pid pagina offset bytes ≡ some cache')
      × All (EnMarco m') cache'
      × Unicas cache'
      × ((q : ℕ) → entradas_de q cache' ≡ entradas_de q m.cache)
      × (length cache' ≡ length m.cache)
  unfolding escribir_en_cache
  escribir_en_cache_lem = elim (quitar_pagina_cases pid pagina m.cache) [
    | inl (q, s) ↦ (
      m.cache,
      rw (q, escribir_en_cache),
      EnMarco-otras m.cache s v.paginas,
      v.unicas,
      λ q. refl,
      refl,
    )
    | inr (e, resto, q, d) ↦
        let en = Quita-All (EnMarco m) d v.paginas in
        let put = escribir_bytes-poner e.pagina offset bytes (omega (arith, length-EnMarco e en)) in
        let nueva : RegistroCacheMemoria = record e { pagina = poner e.pagina offset bytes } in
        (
          nueva ∷ resto,
          rw (q, escribir_en_cache, put),
          (
            EnMarco-escrita e (Quita-es d) en,
            EnMarco-otras resto (Quita-SinPagina d v.unicas)
                (All-Parte (EnMarco m) (Quita-Parte d) v.paginas),
          ),
          Unicas-frente d v.unicas,
          λ q. ground (arith, Quita-entradas q d),
          omega (arith, Quita-length d),
        )
  ]

-- On a coherent state, a write of `bytes` that stays inside the frame of its page always succeeds.
-- It puts exactly those bytes at their place in memory, leaves the page table, and keeps the state
-- coherent: a cached copy of the page is the new content of the frame, and no other page changes.
-- The counters and limits of the cache stay right.
pub escribir_dato_interna-Coherente :
    (m : EstructurasMemoria) (pid pagina f offset tamanio : ℕ) (dato bytes : List ℕ)
    (tipo : TipoDeDatos)
    → Coherente m
    → Limites m
    → buscar_indice m.config m.tabla_paginas pid pagina ≡ some (some f)
    → bytes_a_escribir tipo tamanio dato ≡ some bytes
    → offset + length bytes ≤ m.config.marco_size
    → (m' : EstructurasMemoria) × (escribir_dato_interna m pid pagina offset tamanio dato tipo
        ≡ some (escritura_satisfactoria, m'))
      × Escrita m m' f offset bytes
      × Coherente m'
      × Limites m'
unfolding escribir_dato_interna buscar_indice_en_pagina_de_frames
escribir_dato_interna-Coherente m pid pagina f offset tamanio dato bytes tipo v l b t k =
    let size = m.config.marco_size in
    let lugar : f * size + offset + length bytes ≤ length m.memoria =
      omega (arith, marco_dentro f m.config.marcos size (marco-lt v pid pagina b), v.bytes) in
    let put = escribir_bytes-poner m.memoria (f * size + offset) bytes lugar in
    let m1 : EstructurasMemoria = record m {
      memoria = poner m.memoria (f * size + offset) bytes;
      escrituras = m.escrituras + 1;
      colisiones = m.colisiones + colision (frame_aprox m.config pid pagina) (some f);
    } in
    let c = escribir_en_cache_lem m m1 v pid pagina f offset bytes b k (refl, refl, refl) in
    (
      record m1 { cache = c.0 },
      rw (b, buscar_indice_en_pagina_de_frames, escribir_dato_interna, t, put, c.1),
      (refl, refl, refl),
      record {
        tabla = record {
          positiva = v.tabla.positiva;
          filas = v.tabla.filas;
          tipos = v.tabla.tipos;
        };
        bytes = length-poner m.memoria (f * size + offset) bytes lugar ∙ v.bytes;
        paginas = c.2;
        unicas = c.3;
      },
      Limites-igual (record m1 { cache = c.0 }) l refl refl refl c.4 c.5,
    )
