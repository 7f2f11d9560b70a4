-- ===== src/Memoria/Cache/Cuentas.antt =====
-- The counters of the cache and the entries of each process: what each change of one does to the other.
use so_commons.Base.{
  ℕ, zero, suc, ◌+◌, ◌-◌, ◌<◌, ◌≤◌, ◌≡◌, refl, inl, inr, Bool, Option, none, some, List, [], ◌∷◌,
  map, arith, ◌==◌, if◌then◌else◌, Bool-cases, length, count,
}
use so_commons.Memoria.{RegistroCacheMemoria, RegistroAuxCache}
use so_commons.Memoria.Cache.{
  es_fila_de, es_entrada_de, obtener_registro_aux, incrementar_aux, crear_nuevo_registro_cache_aux,
  descontar, quitar_ultimo, desalojar_desde,
}
use so_commons.Memoria.Cache.Orden.{Entradas, Quita, aqui, sigue}

-- The pages that a process has in the cache.
abbrev pub entradas_de : ℕ → Entradas → ℕ
entradas_de pid cache = count (es_entrada_de pid) cache

abbrev pub cuenta_de : Option RegistroAuxCache → ℕ
cuenta_de none = 0
cuenta_de (some fila) = fila.cantidad_paginas_cacheadas

-- The counter of a process, 0 without a row.
abbrev pub contado : List RegistroAuxCache → ℕ → ℕ
contado filas pid = cuenta_de (obtener_registro_aux filas pid)

abbrev pub uno_si : Bool → ℕ
uno_si b = if b then 1 else 0

pub contado-incrementar :
    (filas : List RegistroAuxCache) (pid q : ℕ) {fila : RegistroAuxCache}
    → obtener_registro_aux filas pid ≡ some fila
    → contado (incrementar_aux filas pid) q ≡ contado filas q + uno_si (pid == q)
unfolding obtener_registro_aux incrementar_aux
contado-incrementar [] pid q h = absurd (ground arith)
contado-incrementar (r ∷ rs) pid q {fila} h = elim (Bool-cases (es_fila_de pid r)) [
  | inl t ↦ ground arith
  | inr t ↦ ground (arith, contado-incrementar rs pid q {fila = fila} (ground arith))
]

pub contado-crear :
    (filas : List RegistroAuxCache) (pid q : ℕ)
    → obtener_registro_aux filas pid ≡ none
    → contado (crear_nuevo_registro_cache_aux filas pid) q ≡ contado filas q + uno_si (pid == q)
unfolding obtener_registro_aux crear_nuevo_registro_cache_aux
contado-crear [] pid q h = ground arith
contado-crear (r ∷ rs) pid q h = elim (Bool-cases (es_fila_de pid r)) [
  | inl t ↦ absurd (ground arith)
  | inr t ↦ ground (arith, contado-crear rs pid q (ground arith))
]

pub contado-descontar :
    (filas : List RegistroAuxCache) (pid q : ℕ)
    → contado (map (descontar pid) filas) q ≡ contado filas q - uno_si (pid == q)
unfolding obtener_registro_aux
contado-descontar [] pid q = ground arith
contado-descontar (r ∷ rs) pid q = ground (arith, contado-descontar rs pid q)

-- The last entry goes.
pub quitar_ultimo_lem :
    (cache : Entradas)
    → 0 < length cache
    → (u : RegistroCacheMemoria) × (resto : Entradas) × (quitar_ultimo cache ≡ some (u, resto))
      × (length cache ≡ length resto + 1)
      × ((q : ℕ) → entradas_de q cache ≡ entradas_de q resto + uno_si (u.pid == q))
unfolding quitar_ultimo
quitar_ultimo_lem [] h = absurd (omega arith)
quitar_ultimo_lem (r ∷ []) h = (r, [], refl, refl, λ q. ground arith)
quitar_ultimo_lem (r ∷ x ∷ xs) h =
    let i = quitar_ultimo_lem (x ∷ xs) (omega arith) in
    (i.0, r ∷ i.1, rw (i.2, quitar_ultimo) refl, omega (arith, i.3), λ q. ground (arith, i.4 q))

-- The entry of the process at which the count reaches the limit goes.
pub desalojar_desde_lem :
    (pid max rondas contador : ℕ) (cache : Entradas)
    → length cache ≤ rondas
    → contador < max
    → max ≤ contador + entradas_de pid cache
    → (resto : Entradas) × (desalojar_desde pid max rondas contador cache ≡ some resto)
      × (length cache ≡ length resto + 1)
      × ((q : ℕ) → entradas_de q cache ≡ entradas_de q resto + uno_si (pid == q))
unfolding desalojar_desde
desalojar_desde_lem pid max rondas contador [] l c h = absurd (omega arith)
desalojar_desde_lem pid max zero contador (r ∷ rs) l c h = absurd (omega arith)
desalojar_desde_lem pid max (suc n) contador (r ∷ rs) l c h =
    let d = if es_entrada_de pid r then contador + 1 else contador in
    elim (Bool-cases (d == max)) [
      | inl t ↦ (rs, rw t refl, omega arith, λ q. ground arith)
      | inr t ↦
          let i = desalojar_desde_lem pid max n d rs (omega arith) (ground arith) (ground arith) in
          (r ∷ i.0, rw (t, i.1) refl, omega (arith, i.2), λ q. ground (arith, i.3 q))
    ]

-- A move to the front, with the bytes of the page changed or not, keeps the counts.
pub Quita-entradas :
    {pid pagina : ℕ} {cache resto : Entradas} {e : RegistroCacheMemoria} (q : ℕ)
    → Quita pid pagina cache e resto
    → entradas_de q cache ≡ entradas_de q resto + uno_si (e.pid == q)
Quita-entradas q (aqui r t) = ground arith
Quita-entradas q (sigue r t d) = ground (arith, Quita-entradas q d)

pub Quita-length :
    {pid pagina : ℕ} {cache resto : Entradas} {e : RegistroCacheMemoria}
    → Quita pid pagina cache e resto
    → length cache ≡ length resto + 1
Quita-length (aqui r t) = omega arith
Quita-length (sigue r t d) = omega (arith, Quita-length d)
