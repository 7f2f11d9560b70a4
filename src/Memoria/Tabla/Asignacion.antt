-- ===== src/Memoria/Tabla/Asignacion.antt =====
-- Giving a frame to a page, taking it back, and finding it: every outcome of
-- `escribirEnTablaDeFrame` and of `buscarIndiceEnPaginaDeFrames` on a table of `marcos` rows.
use so_commons.Base.{
  ℕ, ◌+◌, ◌^◌, ◌<◌, ◌≡◌, refl, ◌≢◌, ap, ◌∙◌, ◌⊎◌, inl, inr, Bool, true, false, Option, none, some,
  List, arith, ◌==◌, if◌then◌else◌, int32_fits, get_elem?, length, length-set, get_elem?_lt,
  get_elem?-set_self, get_elem?-set_ne, count-set,
}
use so_commons.Memoria.{
  frame_vacio, proceso, RegistroMarcoPagina, TipoDePagina, vacio, MemoriaConfig, EstructurasMemoria,
  memoria_insuficiente, paginas_asignadas,
}
use so_commons.Memoria.Tabla.{
  coincide, libre, hash_exacto, funcion_hash, sondear, acotar, rondas, indice_inicial,
  buscar_indice, ocupar, vaciar_marco, asignar_en_tabla_de_frame, vaciar_en_tabla_de_frame,
  marco_del_proceso, obtener_paginas_asignadas_por_proceso,
}
use so_commons.Memoria.Tabla.Sondeo.{sondear-some, sondear-ne-none, sondear_complete}

-- What `crearEstructuras` builds and every operation keeps.
pub record TablaValida (m : EstructurasMemoria) : Type 0 where
  pub positiva : 0 < m.config.marcos
  pub filas : length m.tabla_paginas ≡ m.config.marcos
  pub tipos : length m.tipo_de_paginas ≡ m.config.marcos

-- The hash of a page does not overflow.
abbrev pub CabeHash : MemoriaConfig → ℕ → ℕ → Type 0
CabeHash c pid pagina = hash_exacto c pid pagina < 2 ^ 31

-- Some frame holds the page.
abbrev pub Presente : EstructurasMemoria → ℕ → ℕ → Type 0
Presente m pid pagina =
    (f : ℕ) × (r : RegistroMarcoPagina) × (get_elem? m.tabla_paginas f ≡ some r)
    × (coincide pid pagina r ≡ true)

abbrev pub Ausente : EstructurasMemoria → ℕ → ℕ → Type 0
Ausente m pid pagina =
    (f : ℕ) (r : RegistroMarcoPagina)
    → get_elem? m.tabla_paginas f ≡ some r
    → coincide pid pagina r ≡ false

-- One walk of the whole table, from any start.
pub sondear-cases :
    (prueba : RegistroMarcoPagina → Bool) (tabla : List RegistroMarcoPagina) (marcos k : ℕ)
    → k < marcos
    → length tabla ≡ marcos
    → ((sondear prueba tabla marcos marcos k ≡ some none)
        × ((f : ℕ) (r : RegistroMarcoPagina) → get_elem? tabla f ≡ some r → prueba r ≡ false))
      ⊎ ((f : ℕ) × (r : RegistroMarcoPagina) × (sondear prueba tabla marcos marcos k
            ≡ some (some f))
          × (get_elem? tabla f ≡ some r)
          × (prueba r ≡ true))
sondear-cases prueba tabla marcos k h l = go (sondear prueba tabla marcos marcos k) refl
  where
    go :
        (o : Option (Option ℕ))
        → sondear prueba tabla marcos marcos k ≡ o
        → ((sondear prueba tabla marcos marcos k ≡ some none)
            × ((f : ℕ) (r : RegistroMarcoPagina) → get_elem? tabla f ≡ some r → prueba r ≡ false))
          ⊎ ((f : ℕ) × (r : RegistroMarcoPagina) × (sondear prueba tabla marcos marcos k
                ≡ some (some f))
              × (get_elem? tabla f ≡ some r)
              × (prueba r ≡ true))
    go none e =
        absurd
          (sondear-ne-none prueba tabla marcos marcos k (omega arith) (omega arith) (omega arith) e)
    go (some none) e = inl (
      e,
      λ f r g.
          sondear_complete prueba tabla marcos k f h (omega (arith, get_elem?_lt tabla f g)) e g,
    )
    go (some (some f)) e =
        let x = sondear-some prueba tabla marcos marcos k e in inr (f, x.0, e, x.1, x.2)

acotar-lt : (marcos n : ℕ) → 0 < marcos → acotar marcos n < marcos
acotar-lt marcos n h = ground arith

indice_inicial-lt :
    (c : MemoriaConfig) (pid pagina : ℕ) → 0 < c.marcos → indice_inicial c pid pagina < c.marcos
indice_inicial-lt c pid pagina h = ground (arith, acotar-lt c.marcos)

-- The do-while loop makes exactly one round of the table.
rondas-eq :
    (prueba : RegistroMarcoPagina → Bool) (m : EstructurasMemoria) (k : ℕ)
    → 0 < m.config.marcos
    → sondear prueba m.tabla_paginas m.config.marcos (rondas m.config) k
      ≡ sondear prueba m.tabla_paginas m.config.marcos m.config.marcos k
rondas-eq prueba m k h = ap (λ n. sondear prueba m.tabla_paginas m.config.marcos n k) (omega arith)

-- The outcomes of giving a frame to a page, by `ocupar`.
pub asignar_en_tabla_de_frame_cases :
    (m : EstructurasMemoria) (pid pagina : ℕ) (tipo : TipoDePagina)
    → TablaValida m
    → ((asignar_en_tabla_de_frame m pid pagina tipo ≡ some (memoria_insuficiente, m))
        × ((f : ℕ) (r : RegistroMarcoPagina)
            → get_elem? m.tabla_paginas f ≡ some r
            → libre r ≡ false))
      ⊎ ((f : ℕ) × (r : RegistroMarcoPagina) × (asignar_en_tabla_de_frame m pid pagina tipo
            ≡ some (paginas_asignadas, ocupar m f pid pagina tipo))
          × (get_elem? m.tabla_paginas f ≡ some r)
          × (libre r ≡ true))
unfolding asignar_en_tabla_de_frame
asignar_en_tabla_de_frame_cases m pid pagina tipo v =
    let una = rondas-eq libre m (indice_inicial m.config pid pagina) v.positiva in
    elim (sondear-cases libre m.tabla_paginas m.config.marcos (indice_inicial m.config pid pagina)
      (indice_inicial-lt m.config pid pagina v.positiva) v.filas) [
        | inl (e, nadie) ↦ inl (rw (asignar_en_tabla_de_frame, una ∙ e), nadie)
        | inr (f, r, e, g, t) ↦ inr (f, r, rw (asignar_en_tabla_de_frame, una ∙ e), g, t)
      ]

-- The outcomes of emptying the frame of a page, by `vaciar_marco`.
pub vaciar_en_tabla_de_frame_cases :
    (m : EstructurasMemoria) (pid pagina : ℕ)
    → TablaValida m
    → ((vaciar_en_tabla_de_frame m pid pagina ≡ some (memoria_insuficiente, m))
        × Ausente m pid pagina)
      ⊎ ((f : ℕ) × (r : RegistroMarcoPagina) × (vaciar_en_tabla_de_frame m pid pagina
            ≡ some (paginas_asignadas, vaciar_marco m f pagina))
          × (get_elem? m.tabla_paginas f ≡ some r)
          × (coincide pid pagina r ≡ true))
unfolding vaciar_en_tabla_de_frame
vaciar_en_tabla_de_frame_cases m pid pagina v =
    let una = rondas-eq (coincide pid pagina) m (indice_inicial m.config pid pagina) v.positiva in
    elim (sondear-cases (coincide pid pagina) m.tabla_paginas m.config.marcos
      (indice_inicial m.config pid pagina) (indice_inicial-lt m.config pid pagina v.positiva)
      v.filas) [
        | inl (e, nadie) ↦ inl (rw (vaciar_en_tabla_de_frame, una ∙ e), nadie)
        | inr (f, r, e, g, t) ↦ inr (f, r, rw (vaciar_en_tabla_de_frame, una ∙ e), g, t)
      ]

-- On a table of `marcos` rows, where the hash of the page fits an `int32_t`, the search decides
-- whether a frame holds the page: it gives such a frame, or there is none.
pub buscar_indice_cases :
    (m : EstructurasMemoria) (pid pagina : ℕ)
    → TablaValida m
    → CabeHash m.config pid pagina
    → ((buscar_indice m.config m.tabla_paginas pid pagina ≡ some none) × Ausente m pid pagina)
      ⊎ ((f : ℕ) × (r : RegistroMarcoPagina) × (buscar_indice m.config m.tabla_paginas pid pagina
            ≡ some (some f))
          × (get_elem? m.tabla_paginas f ≡ some r)
          × (coincide pid pagina r ≡ true))
unfolding buscar_indice funcion_hash
buscar_indice_cases m pid pagina v h =
    rw (buscar_indice, int32_fits (hash_exacto m.config pid pagina) h)
      (sondear-cases (coincide pid pagina) m.tabla_paginas m.config.marcos
        (acotar m.config.marcos (hash_exacto m.config pid pagina))
        (acotar-lt m.config.marcos (hash_exacto m.config pid pagina) v.positiva) v.filas)

pub TablaValida-ocupar :
    (m : EstructurasMemoria) (f pid pagina : ℕ) (tipo : TipoDePagina)
    → TablaValida m
    → TablaValida (ocupar m f pid pagina tipo)
TablaValida-ocupar m f pid pagina tipo v = ground (
  arith,
  length-set m.tabla_paginas f (record { duenio = proceso pid; pagina_id = pagina }),
  length-set m.tipo_de_paginas f tipo,
)

pub TablaValida-vaciar_marco :
    (m : EstructurasMemoria) (f pagina : ℕ) → TablaValida m → TablaValida (vaciar_marco m f pagina)
TablaValida-vaciar_marco m f pagina v = ground (
  arith,
  length-set m.tabla_paginas f (record { duenio = frame_vacio; pagina_id = pagina }),
  length-set m.tipo_de_paginas f vacio,
)

module _ (m : EstructurasMemoria) (f pid pagina : ℕ) {r : RegistroMarcoPagina}
    (g : get_elem? m.tabla_paginas f ≡ some r) where
  -- A page in a free frame: one more for its process, and as many as before for the others.
  pub obtener-ocupar :
      (tipo : TipoDePagina) (q : ℕ)
      → libre r ≡ true
      → obtener_paginas_asignadas_por_proceso (ocupar m f pid pagina tipo) q
        ≡ (if pid == q then 1 else 0) + obtener_paginas_asignadas_por_proceso m q
  unfolding obtener_paginas_asignadas_por_proceso
  obtener-ocupar tipo q t = ground (
    arith,
    count-set (marco_del_proceso q) m.tabla_paginas f
        (record { duenio = proceso pid; pagina_id = pagina }) g,
  )

  pub obtener-vaciar_marco :
      (q : ℕ)
      → coincide pid pagina r ≡ true
      → (if pid == q then 1 else 0)
          + obtener_paginas_asignadas_por_proceso (vaciar_marco m f pagina) q
        ≡ obtener_paginas_asignadas_por_proceso m q
  unfolding obtener_paginas_asignadas_por_proceso
  obtener-vaciar_marco q t = ground (
    arith,
    count-set (marco_del_proceso q) m.tabla_paginas f
        (record { duenio = frame_vacio; pagina_id = pagina }) g,
  )

  -- Other pages stay where they are.
  pub Presente-ocupar :
      (tipo : TipoDePagina) (q p : ℕ)
      → libre r ≡ true
      → Presente m q p
      → Presente (ocupar m f pid pagina tipo) q p
  Presente-ocupar tipo q p t (i, s, gs, c) = (
    i,
    s,
    ground (
      arith,
      get_elem?-set_ne m.tabla_paginas f i (record { duenio = proceso pid; pagina_id = pagina }),
    ),
    c,
  )

  pub Presente-ocupar_self :
      (tipo : TipoDePagina) → Presente (ocupar m f pid pagina tipo) pid pagina
  Presente-ocupar_self tipo = (
    f,
    record { duenio = proceso pid; pagina_id = pagina },
    get_elem?-set_self m.tabla_paginas f _ (get_elem?_lt m.tabla_paginas f g),
    ground arith,
  )

  pub Presente-vaciar_marco :
      (q p : ℕ)
      → coincide pid pagina r ≡ true
      → (p ≢ pagina)
      → Presente m q p
      → Presente (vaciar_marco m f pagina) q p
  Presente-vaciar_marco q p t ne (i, s, gs, c) = (
    i,
    s,
    ground (
      arith,
      get_elem?-set_ne m.tabla_paginas f i (record { duenio = frame_vacio; pagina_id = pagina }),
    ),
    c,
  )
