-- ===== src/Memoria/Datos/Coherencia.antt =====
-- The cache is transparent: a cached page holds the bytes of its frame, reads and writes keep it so,
-- and a read gives what memory holds.
pub mod Lectura
pub mod Escritura
use so_commons.Base.{
  ℕ, ◌+◌, ◌*◌, ◌<◌, ◌≤◌, ◌≡◌, refl, ap, ◌∙◌, ◌≢◌, Bool, true, false, ◌⊎◌, inl, inr, Option, none,
  some, List, [], ◌∷◌, arith, ◌==◌, All, length, get_elem?, get_elem?_lt, pos, negsuc, ℤ,
}
use so_commons.Memoria.{
  RegistroCacheMemoria, RegistroMarcoPagina, MemoriaConfig, EstructurasMemoria,
}
use so_commons.Memoria.Tabla.{coincide, funcion_hash, acotar, sondear, buscar_indice}
use so_commons.Memoria.Tabla.Sondeo.{sondear-some}
use so_commons.Memoria.Tabla.Asignacion.{TablaValida}
use so_commons.Memoria.Cache.{es_pagina}
use so_commons.Memoria.Cache.Orden.{Entradas, Parte, All-Parte, SinPagina, Unicas}
use so_commons.Memoria.Datos.Bytes.{trozo}

-- The bytes of a frame.
abbrev pub marco : EstructurasMemoria → ℕ → List ℕ
marco m f = trozo m.memoria (f * m.config.marco_size) m.config.marco_size

-- The page of the entry has a frame, and the entry holds the bytes of that frame.
abbrev pub EnMarco : EstructurasMemoria → RegistroCacheMemoria → Type 0
EnMarco m e =
    (f : ℕ) × (buscar_indice m.config m.tabla_paginas e.pid e.pagina_id ≡ some (some f))
    × (e.pagina ≡ marco m f)

pub record Coherente (m : EstructurasMemoria) : Type 0 where
  pub tabla : TablaValida m
  pub bytes : length m.memoria ≡ m.config.marcos * m.config.marco_size
  pub paginas : All (EnMarco m) m.cache
  pub unicas : Unicas m.cache

-- The frame that the search gives holds the page.
pub buscar_indice-fila :
    (c : MemoriaConfig) (tabla : List RegistroMarcoPagina) (pid pagina : ℕ) {f : ℕ}
    → buscar_indice c tabla pid pagina ≡ some (some f)
    → (r : RegistroMarcoPagina) × (get_elem? tabla f ≡ some r) × (coincide pid pagina r ≡ true)
unfolding buscar_indice
buscar_indice-fila c tabla pid pagina {f} h = go (funcion_hash c pid pagina) refl
  where
    go :
        (z : ℤ)
        → funcion_hash c pid pagina ≡ z
        → (r : RegistroMarcoPagina) × (get_elem? tabla f ≡ some r) × (coincide pid pagina r ≡ true)
    go (pos n) e =
        sondear-some (coincide pid pagina) tabla c.marcos c.marcos (acotar c.marcos n)
          (rw (e, buscar_indice) at h)
    go (negsuc n) e = absurd (ground arith)

-- The frame lies in memory.
pub marco-lt :
    {m : EstructurasMemoria} (v : Coherente m) (pid pagina : ℕ) {f : ℕ}
    → buscar_indice m.config m.tabla_paginas pid pagina ≡ some (some f)
    → f < m.config.marcos
marco-lt {m} v pid pagina {f} h =
    let x = buscar_indice-fila m.config m.tabla_paginas pid pagina h in
    omega (arith, get_elem?_lt m.tabla_paginas f x.1, v.tabla.filas)

pub marco_dentro : (f marcos size : ℕ) → f < marcos → f * size + size ≤ marcos * size
marco_dentro f marcos size h = grind arith

-- Two frames do not overlap.
pub marcos_aparte : (f g size : ℕ) → f < g → f * size + size ≤ g * size
marcos_aparte f g size h = grind arith

-- Coherence reads the configuration, the memory and the table only.
pub EnMarco-mono :
    (m m' : EstructurasMemoria)
    → m'.config ≡ m.config
    → m'.memoria ≡ m.memoria
    → m'.tabla_paginas ≡ m.tabla_paginas
    → (xs : Entradas) → All (EnMarco m) xs
    → All (EnMarco m') xs
EnMarco-mono m m' c e t [] a = tt
EnMarco-mono m m' c e t (x ∷ xs) a =
    ((a.0.0, rw (c, t) a.0.1, rw (c, e) a.0.2), EnMarco-mono m m' c e t xs a.1)
