-- ===== src/Memoria/Datos/Coherencia/Lectura.antt =====
-- `leerDatoInterna` on a coherent state, from the cache or from memory.
use so_commons.Base.{
  ℕ, ◌+◌, ◌*◌, ◌≤◌, ◌≡◌, refl, ap, ◌∙◌, inl, inr, false, none, some, List, ◌∷◌, arith, All, length,
  Option-cases, subst,
}
use so_commons.Memoria.{
  RegistroCacheMemoria, EstructurasMemoria, TipoDeDatos, lectura_satisfactoria,
  escritura_satisfactoria,
}
use so_commons.Memoria.Tabla.{
  buscar_indice, buscar_indice_en_pagina_de_frames, colision, frame_aprox,
}
use so_commons.Memoria.Cache.{
  es_pagina, quitar_pagina, leer_cache, escribir_cache, eliminar_registro_cache_lru,
}
use so_commons.Memoria.Cache.Orden.{
  Entradas, All-Parte, SinPagina, Unicas, Unicas-frente, Unicas-Parte, Quita, quitar_pagina_cases,
  Quita-es, Quita-Parte, Quita-All,
}
use so_commons.Memoria.Cache.Cuentas.{Quita-entradas, Quita-length}
use so_commons.Memoria.Cache.Desalojo.{eliminar_registro_cache_lru-Desaloja}
use so_commons.Memoria.Cache.Limites.{Limites, Limites-igual, escribir_cache-Limites}
use so_commons.Memoria.Datos.{
  leer_bytes, leer_pagina_de_memoria, leer_sin_cache, leer_dato_interna, escribir_dato_interna,
  bytes_a_escribir,
}
use so_commons.Memoria.Datos.Bytes.{
  trozo, length-trozo, leer_bytes-trozo, trozo-trozo, trozo-poner_self,
}
use so_commons.Memoria.Datos.Coherencia.{
  Coherente, EnMarco, EnMarco-mono, marco, marco-lt, marco_dentro,
}
use so_commons.Memoria.Datos.Coherencia.Escritura.{escribir_dato_interna-Coherente}

-- What a read leaves as it was.
abbrev pub MismaMemoria : EstructurasMemoria → EstructurasMemoria → Type 0
MismaMemoria m m' =
    (m'.config ≡ m.config)
    × (m'.memoria ≡ m.memoria)
    × (m'.tabla_paginas ≡ m.tabla_paginas)
    × (m'.tipo_de_paginas ≡ m.tipo_de_paginas)

Coherente-misma :
    {m m' : EstructurasMemoria}
    → Coherente m
    → MismaMemoria m m'
    → All (EnMarco m) m'.cache
    → Unicas m'.cache
    → Coherente m'
Coherente-misma {m} {m'} v w a u = record {
  tabla = record {
    positiva = rw w.0 v.tabla.positiva;
    filas = rw (w.0, w.2) v.tabla.filas;
    tipos = rw (w.0, w.3) v.tabla.tipos;
  };
  bytes = rw (w.0, w.1) v.bytes;
  paginas = EnMarco-mono m m' w.0 w.1 w.2 m'.cache a;
  unicas = u;
}

-- The bytes that memory holds at `offset` of frame `f`.
abbrev pub en_memoria : EstructurasMemoria → ℕ → ℕ → ℕ → List ℕ
en_memoria m f offset tamanio = trozo m.memoria (f * m.config.marco_size + offset) tamanio

-- The read that goes well.
abbrev pub Leida : EstructurasMemoria → ℕ → ℕ → ℕ → ℕ → ℕ → Type 0
Leida m pid pagina f offset tamanio =
    (m' : EstructurasMemoria) × (leer_dato_interna m pid pagina offset tamanio
      ≡ some (lectura_satisfactoria, en_memoria m f offset tamanio, m'))
    × MismaMemoria m m'
    × Coherente m'
    × Limites m'

module _ (m : EstructurasMemoria) (v : Coherente m) (l : Limites m)
    (pid pagina f offset tamanio : ℕ)
    (b : buscar_indice m.config m.tabla_paginas pid pagina ≡ some (some f))
    (k : offset + tamanio ≤ m.config.marco_size) where
  dentro : f * m.config.marco_size + m.config.marco_size ≤ length m.memoria
  dentro =
      omega (
        arith,
        marco_dentro f m.config.marcos m.config.marco_size (marco-lt v pid pagina b),
        v.bytes,
      )

  leer_marco : leer_bytes (marco m f) offset tamanio ≡ some (en_memoria m f offset tamanio)
  leer_marco =
      let size = m.config.marco_size in
      leer_bytes-trozo (marco m f) offset tamanio
        (omega (arith, k, length-trozo m.memoria (f * size) size dentro))
      ∙ ap some (trozo-trozo m.memoria (f * size) size offset tamanio k)

  -- The page is cached.
  acierto :
      (e : RegistroCacheMemoria) (resto : Entradas)
      → quitar_pagina pid pagina m.cache ≡ some (e, resto)
      → Quita pid pagina m.cache e resto
      → Leida m pid pagina f offset tamanio
  unfolding leer_dato_interna leer_cache
  acierto e resto q d =
      let en = Quita-All (EnMarco m) d v.paginas in
      let pidEq : e.pid ≡ pid = ground (arith, Quita-es d) in
      let pagEq : e.pagina_id ≡ pagina = ground (arith, Quita-es d) in
      let fg : en.0 ≡ f = ground (arith, en.1, b, pidEq, pagEq) in
      let lee : leer_bytes e.pagina offset tamanio ≡ some (en_memoria m f offset tamanio) =
        rw (en.2, fg) leer_marco in
      let w : MismaMemoria m
          (record m { cache = e ∷ resto; aciertos_de_cache = m.aciertos_de_cache + 1 }) =
        (refl, refl, refl, refl) in
      (
        record m { cache = e ∷ resto; aciertos_de_cache = m.aciertos_de_cache + 1 },
        rw (q, leer_cache, leer_dato_interna, lee),
        w,
        Coherente-misma v w (en, All-Parte (EnMarco m) (Quita-Parte d) v.paginas)
            (Unicas-frente d v.unicas),
        Limites-igual (record m { cache = e ∷ resto; aciertos_de_cache = m.aciertos_de_cache + 1 })
            l refl refl refl (λ q. ground (arith, Quita-entradas q d))
            (omega (arith, Quita-length d)),
      )

  -- The page is read from its frame and cached.
  falla :
      quitar_pagina pid pagina m.cache ≡ none
      → SinPagina pid pagina m.cache
      → Leida m pid pagina f offset tamanio
  unfolding leer_dato_interna leer_cache leer_sin_cache leer_pagina_de_memoria
      buscar_indice_en_pagina_de_frames escribir_cache
  falla q s =
      let size = m.config.marco_size in
      let m1 : EstructurasMemoria = record m {
        colisiones = m.colisiones + colision (frame_aprox m.config pid pagina) (some f);
        lecturas = m.lecturas + 1;
      } in
      let lee = leer_bytes-trozo m.memoria (f * size) size dentro in
      let c =
        escribir_cache-Limites m1 pid pagina (marco m f)
          (Limites-igual m1 l refl refl refl (λ q. refl) refl) in
      elim (Option-cases (eliminar_registro_cache_lru m1 pid)) [
        | inl e ↦ absurd (ground (arith, e, c.2))
        | inr (m2, e) ↦
            let d = eliminar_registro_cache_lru-Desaloja m1 pid e in
            let nuevo : RegistroCacheMemoria = record {
              pid = pid;
              pagina_id = pagina;
              pagina = marco m f;
            } in
            let w : MismaMemoria m (record m2 { cache = nuevo ∷ m2.cache }) =
              (d.config, d.memoria, d.tabla, d.tipos) in
            let igual : c.0 ≡ record m2 { cache = nuevo ∷ m2.cache } = ground (arith, e, c.2) in
            (
              record m2 { cache = nuevo ∷ m2.cache },
              rw (
                q, leer_cache, leer_dato_interna, leer_sin_cache, b,
                buscar_indice_en_pagina_de_frames, leer_pagina_de_memoria, lee, escribir_cache, e,
                leer_marco,
              ),
              w,
              Coherente-misma v w ((f, b, refl), All-Parte (EnMarco m) d.parte v.paginas)
                  (
                    All-Parte (λ r. es_pagina pid pagina r ≡ false) d.parte s,
                    Unicas-Parte d.parte v.unicas,
                  ),
              subst Limites igual c.4,
            )
      ]

-- On a coherent state with right counters, a read that stays inside the frame of its page always
-- succeeds, cached or not, and gives the bytes that memory holds there. It leaves memory and the
-- page table, and keeps the state coherent and the counters right.
pub leer_dato_interna-Coherente :
    (m : EstructurasMemoria) (pid pagina f offset tamanio : ℕ)
    → Coherente m
    → Limites m
    → buscar_indice m.config m.tabla_paginas pid pagina ≡ some (some f)
    → offset + tamanio ≤ m.config.marco_size
    → Leida m pid pagina f offset tamanio
leer_dato_interna-Coherente m pid pagina f offset tamanio v l b k =
    elim (quitar_pagina_cases pid pagina m.cache) [
      | inl (q, s) ↦ falla m v l pid pagina f offset tamanio b k q s
      | inr (e, resto, q, d) ↦ acierto m v l pid pagina f offset tamanio b k e resto q d
    ]

-- A write of `bytes` inside the frame of a page, then a read of as many bytes at the same place,
-- give the bytes written, on a coherent state with right counters, whatever the cache holds; the
-- configuration stays.
pub leer-escribir_dato_interna :
    (m : EstructurasMemoria) (pid pagina f offset tamanio : ℕ) (dato bytes : List ℕ)
    (tipo : TipoDeDatos)
    → Coherente m
    → Limites m
    → buscar_indice m.config m.tabla_paginas pid pagina ≡ some (some f)
    → bytes_a_escribir tipo tamanio dato ≡ some bytes
    → offset + length bytes ≤ m.config.marco_size
    → (m' m'' : EstructurasMemoria) × (escribir_dato_interna m pid pagina offset tamanio dato tipo
        ≡ some (escritura_satisfactoria, m'))
      × (leer_dato_interna m' pid pagina offset (length bytes)
          ≡ some (lectura_satisfactoria, bytes, m''))
      × (m'.config ≡ m.config)
leer-escribir_dato_interna m pid pagina f offset tamanio dato bytes tipo v l b t k =
    let x =
      escribir_dato_interna-Coherente m pid pagina f offset tamanio dato bytes tipo v l b t k in
    let w = x.2 in
    let y =
      leer_dato_interna-Coherente x.0 pid pagina f offset (length bytes) x.3 x.4 (rw (w.0, w.1) b)
        (rw w.0 k) in
    let lugar : f * m.config.marco_size + offset + length bytes ≤ length m.memoria = omega (
      arith,
      marco_dentro f m.config.marcos m.config.marco_size (marco-lt v pid pagina b),
      v.bytes,
    ) in
    let leido : en_memoria x.0 f offset (length bytes) ≡ bytes =
      rw (w.0, w.2) (trozo-poner_self m.memoria (f * m.config.marco_size + offset) bytes lugar) in
    (x.0, y.0, x.1, rw leido at y.1, w.0)
