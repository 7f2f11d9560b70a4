-- ===== src/Memoria/Cache/Desalojo.antt =====
-- What an eviction leaves: entries of the cache as they were, and memory and the page table untouched.
use so_commons.Base.{
  ℕ, zero, suc, ◌+◌, ◌≡◌, refl, inl, inr, Option, none, some, [], ◌∷◌, arith, ◌==◌, if◌then◌else◌,
  Bool-cases, Option-cases, subst,
}
use so_commons.Memoria.{RegistroCacheMemoria, EstructurasMemoria, RegistroAuxCache}
use so_commons.Memoria.Cache.{
  quitar_ultimo, desalojar_desde, desalojar_globalmente, desalojar_localmente, con_vacios,
  sin_vacios, eliminar_registro_cache_lru, crear_fila, es_entrada_de, contar_entrada, usar_vacio,
  obtener_registro_aux,
}
use so_commons.Memoria.Cache.Orden.{Entradas, Parte, nada, omite, toma, Parte-refl}

Parte-nil : (xs : Entradas) → Parte [] xs
Parte-nil [] = nada
Parte-nil (x ∷ xs) = omite x (Parte-nil xs)

quitar_ultimo-Parte :
    (cache : Entradas) {u : RegistroCacheMemoria} {resto : Entradas}
    → quitar_ultimo cache ≡ some (u, resto)
    → Parte resto cache
unfolding quitar_ultimo
quitar_ultimo-Parte [] h = absurd (ground arith)
quitar_ultimo-Parte (r ∷ rs) {u} {resto} h = elim (Option-cases (quitar_ultimo rs)) [
  | inl e ↦
      let n : [] ≡ resto = ground arith in subst (λ z. Parte z (r ∷ rs)) n (omite r (Parte-nil rs))
  | inr ((x, xs), e) ↦
      let n : r ∷ xs ≡ resto = ground arith in
      subst (λ z. Parte z (r ∷ rs)) n (toma r (quitar_ultimo-Parte rs e))
]

desalojar_desde-Parte :
    (pid max rondas contador : ℕ) (cache : Entradas) {resto : Entradas}
    → desalojar_desde pid max rondas contador cache ≡ some resto
    → Parte resto cache
unfolding desalojar_desde
desalojar_desde-Parte pid max rondas contador [] h = absurd (ground arith)
desalojar_desde-Parte pid max zero contador (r ∷ rs) {resto} h =
    let n : rs ≡ resto = ground arith in subst (λ z. Parte z (r ∷ rs)) n (omite r (Parte-refl rs))
desalojar_desde-Parte pid max (suc n) contador (r ∷ rs) {resto} h =
    let c = if es_entrada_de pid r then contador + 1 else contador in
    elim (Bool-cases (c == max)) [
      | inl t ↦
          let same : rs ≡ resto = ground arith in
          subst (λ z. Parte z (r ∷ rs)) same (omite r (Parte-refl rs))
      | inr t ↦ elim (Option-cases (desalojar_desde pid max n c rs)) [
        | inl e ↦ absurd (ground arith)
        | inr (xs, e) ↦
            let same : r ∷ xs ≡ resto = ground arith in
            subst (λ z. Parte z (r ∷ rs)) same (toma r (desalojar_desde-Parte pid max n c rs e))
      ]
    ]

-- A step that leaves entries out of the cache and changes no more than its bookkeeping.
pub record Desaloja (m m' : EstructurasMemoria) : Type 0 where
  pub parte : Parte m'.cache m.cache
  pub config : m'.config ≡ m.config
  pub memoria : m'.memoria ≡ m.memoria
  pub tabla : m'.tabla_paginas ≡ m.tabla_paginas
  pub tipos : m'.tipo_de_paginas ≡ m.tipo_de_paginas

Desaloja-local :
    (m : EstructurasMemoria) (pid : ℕ) {m' : EstructurasMemoria}
    → desalojar_localmente m pid ≡ some m'
    → Desaloja m m'
unfolding desalojar_localmente
Desaloja-local m pid {m'} h =
    elim (Option-cases
      (desalojar_desde pid m.config.cache_x_proc m.config.entradas_cache 0 m.cache)) [
        | inl e ↦ absurd (ground arith)
        | inr (xs, e) ↦
            let same : record m { cache = xs } ≡ m' = ground arith in
            subst (Desaloja m) same (record {
              parte =
                  desalojar_desde-Parte pid m.config.cache_x_proc m.config.entradas_cache 0 m.cache
                    e;
              config = refl;
              memoria = refl;
              tabla = refl;
              tipos = refl;
            })
      ]

Desaloja-global :
    (m n : EstructurasMemoria) {m' : EstructurasMemoria}
    → Desaloja m n
    → n.cache ≡ m.cache
    → desalojar_globalmente n ≡ some m'
    → Desaloja m m'
unfolding desalojar_globalmente
Desaloja-global m n {m'} d s h = elim (Option-cases (quitar_ultimo n.cache)) [
  | inl e ↦ absurd (ground arith)
  | inr ((u, xs), e) ↦
      let p : Parte xs m.cache = subst (Parte xs) s (quitar_ultimo-Parte n.cache e) in
      let same : (m'.cache ≡ xs)
          × (m'.config ≡ m.config)
          × (m'.memoria ≡ m.memoria)
          × (m'.tabla_paginas ≡ m.tabla_paginas)
          × (m'.tipo_de_paginas ≡ m.tipo_de_paginas) =
        ground (arith, d) in
      record {
        parte = rw same.0 p;
        config = same.1;
        memoria = same.2;
        tabla = same.3;
        tipos = same.4;
      }
]

sin_vacios-Desaloja :
    (m : EstructurasMemoria) (pid : ℕ) (o : Option RegistroAuxCache) {m' : EstructurasMemoria}
    → sin_vacios m pid o ≡ some m'
    → Desaloja m m'
unfolding sin_vacios
sin_vacios-Desaloja m pid none h =
    Desaloja-global m (crear_fila m pid)
      (record {
        parte = Parte-refl m.cache;
        config = refl;
        memoria = refl;
        tabla = refl;
        tipos = refl;
      })
      refl h
sin_vacios-Desaloja m pid (some fila) {m'} h =
    elim (Bool-cases (fila.cantidad_paginas_cacheadas == m.config.cache_x_proc)) [
      | inl t ↦ Desaloja-local m pid (ground arith)
      | inr t ↦
          Desaloja-global m (contar_entrada m pid)
            (record {
              parte = Parte-refl m.cache;
              config = refl;
              memoria = refl;
              tabla = refl;
              tipos = refl;
            })
            refl (ground arith)
    ]

con_vacios-Desaloja :
    (m : EstructurasMemoria) (pid : ℕ) (o : Option RegistroAuxCache) {m' : EstructurasMemoria}
    → con_vacios m pid o ≡ some m'
    → Desaloja m m'
unfolding con_vacios
con_vacios-Desaloja m pid none {m'} h =
    let same : crear_fila m pid ≡ m' = ground arith in
    subst (Desaloja m) same (record {
      parte = Parte-refl m.cache;
      config = refl;
      memoria = refl;
      tabla = refl;
      tipos = refl;
    })
con_vacios-Desaloja m pid (some fila) {m'} h =
    elim (Bool-cases (fila.cantidad_paginas_cacheadas == m.config.cache_x_proc)) [
      | inl t ↦ Desaloja-local m pid (ground arith)
      | inr t ↦
          let same : contar_entrada m pid ≡ m' = ground arith in
          subst (Desaloja m) same (record {
            parte = Parte-refl m.cache;
            config = refl;
            memoria = refl;
            tabla = refl;
            tipos = refl;
          })
    ]

-- Making room leaves entries out, and changes neither memory nor the page table.
pub eliminar_registro_cache_lru-Desaloja :
    (m : EstructurasMemoria) (pid : ℕ) {m' : EstructurasMemoria}
    → eliminar_registro_cache_lru m pid ≡ some m'
    → Desaloja m m'
unfolding eliminar_registro_cache_lru
eliminar_registro_cache_lru-Desaloja m pid {m'} h =
    let fila = obtener_registro_aux m.contador_aux_cache pid in
    elim (Bool-cases (m.frames_vacios == 0)) [
      | inl t ↦ sin_vacios-Desaloja m pid fila (ground arith)
      | inr t ↦ elim (Option-cases (con_vacios m pid fila)) [
        | inl e ↦ absurd (ground arith)
        | inr (m1, e) ↦
            let d = con_vacios-Desaloja m pid fila e in
            let same : usar_vacio m1 ≡ m' = ground arith in
            subst (Desaloja m) same (record {
              parte = d.parte;
              config = d.config;
              memoria = d.memoria;
              tabla = d.tabla;
              tipos = d.tipos;
            })
      ]
    ]
