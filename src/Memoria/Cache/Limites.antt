-- ===== src/Memoria/Cache/Limites.antt =====
-- The bookkeeping of the cache: the counters of `contadorAuxCache` against the entries, and the
-- limits ENTRADAS_CACHE and CACHE_X_PROC.
use so_commons.Base.{
  ℕ, zero, suc, ◌+◌, ◌<◌, ◌≤◌, ◌≡◌, refl, sym, ◌∙◌, ◌⊎◌, inl, inr, Option, none, some, List, ◌∷◌,
  map, arith, ◌==◌, Bool-cases, length,
}
use so_commons.Memoria.{RegistroCacheMemoria, RegistroAuxCache, EstructurasMemoria}
use so_commons.Memoria.Cache.{
  obtener_registro_aux, descontar, desalojar_globalmente, desalojar_localmente, con_vacios,
  sin_vacios, eliminar_registro_cache_lru, escribir_cache, crear_fila, contar_entrada, usar_vacio,
}
use so_commons.Memoria.Cache.Orden.{Entradas}
use so_commons.Memoria.Cache.Cuentas.{
  entradas_de, contado, uno_si, contado-incrementar, contado-crear, contado-descontar,
  quitar_ultimo_lem, desalojar_desde_lem,
}

-- The counters are right, the two limits are kept, and the cache is empty only when all its entries
-- are counted as empty.
pub record Limites (m : EstructurasMemoria) : Type 0 where
  pub entradas : 0 < m.config.entradas_cache
  pub por_proceso : 0 < m.config.cache_x_proc
  pub contadas : (q : ℕ) → contado m.contador_aux_cache q ≡ entradas_de q m.cache
  pub acotadas : (q : ℕ) → entradas_de q m.cache ≤ m.config.cache_x_proc
  pub lugar : length m.cache + m.frames_vacios ≤ m.config.entradas_cache
  pub usada : (m.frames_vacios ≡ m.config.entradas_cache) ⊎ (0 < length m.cache)

-- Room for one more entry of the process, which its counter already counts.
record Hueco (m m' : EstructurasMemoria) (pid fv : ℕ) : Type 0 where
  config : m'.config ≡ m.config
  vacios : m'.frames_vacios ≡ m.frames_vacios
  contadas : (q : ℕ) → contado m'.contador_aux_cache q ≡ entradas_de q m'.cache + uno_si (pid == q)
  acotadas : (q : ℕ) → entradas_de q m'.cache + uno_si (pid == q) ≤ m.config.cache_x_proc
  lugar : length m'.cache + 1 + fv ≤ m.config.entradas_cache

module _ (m : EstructurasMemoria) (l : Limites m) (pid : ℕ) where
  local-Hueco :
      (fila : RegistroAuxCache) (fv : ℕ)
      → obtener_registro_aux m.contador_aux_cache pid ≡ some fila
      → fila.cantidad_paginas_cacheadas ≡ m.config.cache_x_proc
      → length m.cache + fv ≤ m.config.entradas_cache
      → (m' : EstructurasMemoria) × (desalojar_localmente m pid ≡ some m') × Hueco m m' pid fv
  unfolding desalojar_localmente
  local-Hueco fila fv e t h =
      let i =
        desalojar_desde_lem pid m.config.cache_x_proc m.config.entradas_cache 0 m.cache
          (omega (arith, h)) l.por_proceso (ground (arith, l.contadas pid)) in
      (
        record m { cache = i.0 },
        rw (i.1, desalojar_localmente) refl,
        record {
          config = refl;
          vacios = refl;
          contadas = λ q. l.contadas q ∙ i.3 q;
          acotadas = λ q. omega (arith, i.3 q, l.acotadas q);
          lugar = omega (arith, i.2);
        },
      )

  -- After the counter of the process went up.
  global-Hueco :
      (n : EstructurasMemoria)
      → n.cache ≡ m.cache
      → n.config ≡ m.config
      → n.frames_vacios ≡ m.frames_vacios
      → ((q : ℕ)
          → contado n.contador_aux_cache q ≡ contado m.contador_aux_cache q + uno_si (pid == q))
      → m.frames_vacios ≡ 0
      → entradas_de pid m.cache < m.config.cache_x_proc
      → (m' : EstructurasMemoria) × (desalojar_globalmente n ≡ some m') × Hueco m m' pid 0
  unfolding desalojar_globalmente
  global-Hueco n c g vs s z x =
      let llena : 0 < length m.cache = elim l.usada [
        | inl e ↦ absurd (omega (arith, l.entradas))
        | inr e ↦ e
      ] in
      let i = quitar_ultimo_lem m.cache llena in
      (
        record n { cache = i.1; contador_aux_cache = map (descontar i.0.pid) n.contador_aux_cache },
        rw (c, i.2, desalojar_globalmente) refl,
        record {
          config = g;
          vacios = vs;
          contadas = λ q.
              omega
                (arith, i.4 q, s q, l.contadas q, contado-descontar n.contador_aux_cache i.0.pid q);
          acotadas = λ q. ground (arith, i.4 q, l.acotadas q, x);
          lugar = omega (arith, i.3, l.lugar);
        },
      )

  sin_vacios-Hueco :
      (o : Option RegistroAuxCache)
      → obtener_registro_aux m.contador_aux_cache pid ≡ o
      → m.frames_vacios ≡ 0
      → (m' : EstructurasMemoria) × (sin_vacios m pid o ≡ some m') × Hueco m m' pid 0
  unfolding sin_vacios
  sin_vacios-Hueco none e z =
      global-Hueco (crear_fila m pid) refl refl refl
        (λ q. contado-crear m.contador_aux_cache pid q e) z
        (ground (arith, l.contadas pid, l.por_proceso))
  sin_vacios-Hueco (some fila) e z =
      elim (Bool-cases (fila.cantidad_paginas_cacheadas == m.config.cache_x_proc)) [
        | inl t ↦ rw t (local-Hueco fila 0 e (ground arith) (omega (arith, l.lugar)))
        | inr t ↦ rw t (
            global-Hueco (contar_entrada m pid) refl refl refl
              (λ q. contado-incrementar m.contador_aux_cache pid q e) z
              (ground (arith, l.contadas pid, l.acotadas pid)))
      ]

  con_vacios-Hueco :
      (o : Option RegistroAuxCache) (fv : ℕ)
      → obtener_registro_aux m.contador_aux_cache pid ≡ o
      → m.frames_vacios ≡ suc fv
      → (m' : EstructurasMemoria) × (con_vacios m pid o ≡ some m') × Hueco m m' pid fv
  unfolding con_vacios
  con_vacios-Hueco none fv e z = (
    crear_fila m pid,
    refl,
    record {
      config = refl;
      vacios = refl;
      contadas = λ q. omega (arith, contado-crear m.contador_aux_cache pid q e, l.contadas q);
      acotadas = λ q. ground (arith, l.contadas pid, l.por_proceso, l.acotadas q);
      lugar = omega (arith, l.lugar);
    },
  )
  con_vacios-Hueco (some fila) fv e z =
      elim (Bool-cases (fila.cantidad_paginas_cacheadas == m.config.cache_x_proc)) [
        | inl t ↦ rw t (local-Hueco fila fv e (ground arith) (omega (arith, l.lugar)))
        | inr t ↦ rw t (
          contar_entrada m pid,
          refl,
          record {
            config = refl;
            vacios = refl;
            contadas =
                λ q. omega (arith, contado-incrementar m.contador_aux_cache pid q e, l.contadas q);
            acotadas = λ q. ground (arith, l.contadas pid, l.acotadas pid, l.acotadas q);
            lugar = omega (arith, l.lugar);
          },
        )
      ]

Limites-con_entrada :
    (m m' : EstructurasMemoria) (pid fv : ℕ) (nuevo : RegistroCacheMemoria)
    → Limites m
    → Hueco m m' pid fv
    → nuevo.pid ≡ pid
    → (n : EstructurasMemoria) → n.config ≡ m'.config
    → n.contador_aux_cache ≡ m'.contador_aux_cache
    → n.cache ≡ nuevo ∷ m'.cache
    → n.frames_vacios ≡ fv
    → Limites n
Limites-con_entrada m m' pid fv nuevo l h p n c a k f = record {
  entradas = rw (c, h.config) l.entradas;
  por_proceso = rw (c, h.config) l.por_proceso;
  contadas = λ q. rw (a, k) (ground (arith, h.contadas q));
  acotadas = λ q. rw (k, c, h.config) (ground (arith, h.acotadas q));
  lugar = rw (k, c, h.config, f) (omega (arith, h.lugar));
  usada = inr (rw k (omega arith));
}

eliminar-sin_vacios :
    (m : EstructurasMemoria) (pid : ℕ) {m' : EstructurasMemoria}
    → m.frames_vacios ≡ 0
    → sin_vacios m pid (obtener_registro_aux m.contador_aux_cache pid) ≡ some m'
    → eliminar_registro_cache_lru m pid ≡ some m'
unfolding eliminar_registro_cache_lru
eliminar-sin_vacios m pid z e = ground (arith, z, e)

eliminar-con_vacios :
    (m : EstructurasMemoria) (pid fv : ℕ) {m' : EstructurasMemoria}
    → m.frames_vacios ≡ suc fv
    → con_vacios m pid (obtener_registro_aux m.contador_aux_cache pid) ≡ some m'
    → eliminar_registro_cache_lru m pid ≡ some (usar_vacio m')
unfolding eliminar_registro_cache_lru
eliminar-con_vacios m pid fv z e = ground (arith, z, e)

-- The page in front, and the limits.
abbrev pub Cacheada : EstructurasMemoria → ℕ → ℕ → List ℕ → Type 0
Cacheada m pid pagina_id pagina =
    (m' : EstructurasMemoria) × (resto : Entradas) × (escribir_cache m pid pagina_id pagina
      ≡ some (record { pid = pid; pagina_id = pagina_id; pagina = pagina }, m'))
    × (m'.cache ≡ record { pid = pid; pagina_id = pagina_id; pagina = pagina } ∷ resto)
    × Limites m'

Cacheada-of_Hueco :
    (m m' n : EstructurasMemoria) (pid pagina_id fv : ℕ) (pagina : List ℕ)
    → Limites m
    → Hueco m m' pid fv
    → eliminar_registro_cache_lru m pid ≡ some n
    → n.config ≡ m'.config
    → n.contador_aux_cache ≡ m'.contador_aux_cache
    → n.cache ≡ m'.cache
    → n.frames_vacios ≡ fv
    → Cacheada m pid pagina_id pagina
unfolding escribir_cache
Cacheada-of_Hueco m m' n pid pagina_id fv pagina l h e c a k f =
    let nuevo : RegistroCacheMemoria = record {
      pid = pid;
      pagina_id = pagina_id;
      pagina = pagina;
    } in
    (
      record n { cache = nuevo ∷ n.cache },
      n.cache,
      rw (e, escribir_cache) refl,
      refl,
      Limites-con_entrada m m' pid fv nuevo l h refl (record n { cache = nuevo ∷ n.cache }) c a
          (rw k refl) f,
    )

-- While the counters are right, caching a page never fails: the new page is in front, no process
-- passes CACHE_X_PROC, the cache does not pass ENTRADAS_CACHE, and the counters stay right.
pub escribir_cache-Limites :
    (m : EstructurasMemoria) (pid pagina_id : ℕ) (pagina : List ℕ)
    → Limites m
    → Cacheada m pid pagina_id pagina
escribir_cache-Limites m pid pagina_id pagina l = go m.frames_vacios refl
  where
    go : (fv : ℕ) → m.frames_vacios ≡ fv → Cacheada m pid pagina_id pagina
    go zero z =
        let i = sin_vacios-Hueco m l pid (obtener_registro_aux m.contador_aux_cache pid) refl z in
        Cacheada-of_Hueco m i.0 i.0 pid pagina_id 0 pagina l i.2 (eliminar-sin_vacios m pid z i.1)
          refl refl refl (i.2.vacios ∙ z)
    go (suc fv) z =
        let i =
          con_vacios-Hueco m l pid (obtener_registro_aux m.contador_aux_cache pid) fv refl z in
        Cacheada-of_Hueco m i.0 (usar_vacio i.0) pid pagina_id fv pagina l i.2
          (eliminar-con_vacios m pid fv z i.1) refl refl refl (omega (arith, i.2.vacios))

-- The limits read the configuration, the counters, and the counts of the cache.
pub Limites-igual :
    {m : EstructurasMemoria} (n : EstructurasMemoria)
    → Limites m
    → n.config ≡ m.config
    → n.contador_aux_cache ≡ m.contador_aux_cache
    → n.frames_vacios ≡ m.frames_vacios
    → ((q : ℕ) → entradas_de q n.cache ≡ entradas_de q m.cache)
    → length n.cache ≡ length m.cache
    → Limites n
Limites-igual {m} n l c a f k h = record {
  entradas = rw c l.entradas;
  por_proceso = rw c l.por_proceso;
  contadas = λ q. rw a (l.contadas q) ∙ sym (k q);
  acotadas = λ q. rw c (omega (arith, k q, l.acotadas q));
  lugar = rw (c, f, h) l.lugar;
  usada = elim l.usada [ inl e ↦ inl (rw (f, c) e) | inr e ↦ inr (omega (arith, h)) ];
}
