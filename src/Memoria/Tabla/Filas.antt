-- ===== src/Memoria/Tabla/Filas.antt =====
-- What `escribirEnTablaDeFrame` of Segundo tp/memoria/src/estructurasAdministrativas.c does to the rows of
-- the table of frames, and to the types of the pages.
use so_commons.Base.{
  ℕ, ◌≡◌, refl, ◌≢◌, ◌⊎◌, inl, inr, true, false, some, arith, get_elem?, set, get_elem?_lt,
  get_elem?-set_self, get_elem?-set_ne,
}
use so_commons.Memoria.{
  frame_vacio, proceso, RegistroMarcoPagina, TipoDePagina, vacio, EstructurasMemoria,
  memoria_insuficiente, paginas_asignadas,
}
use so_commons.Memoria.Tabla.{
  coincide, libre, ocupar, vaciar_marco, asignar_en_tabla_de_frame, vaciar_en_tabla_de_frame,
}
use so_commons.Memoria.Tabla.Asignacion.{
  TablaValida, Ausente, asignar_en_tabla_de_frame_cases, vaciar_en_tabla_de_frame_cases,
}

-- From `m` to `m'`, the frame `f` gets the row `r` and the type `tipo`, and all the rest stays.
pub record FilaCambiada (m : EstructurasMemoria) (f : ℕ) (r : RegistroMarcoPagina)
    (tipo : TipoDePagina) (m' : EstructurasMemoria) : Type 0 where
  pub fila : get_elem? m'.tabla_paginas f ≡ some r
  pub su_tipo : get_elem? m'.tipo_de_paginas f ≡ some tipo
  pub otras_filas : (g : ℕ) → f ≢ g → get_elem? m'.tabla_paginas g ≡ get_elem? m.tabla_paginas g
  pub otros_tipos : (g : ℕ) → f ≢ g → get_elem? m'.tipo_de_paginas g ≡ get_elem? m.tipo_de_paginas g
  pub lo_demas :
      record m' { tabla_paginas = m.tabla_paginas; tipo_de_paginas = m.tipo_de_paginas } ≡ m

set-FilaCambiada :
    (m : EstructurasMemoria) (f : ℕ) (r r' : RegistroMarcoPagina) (tipo : TipoDePagina)
    → TablaValida m
    → get_elem? m.tabla_paginas f ≡ some r
    → FilaCambiada m f r' tipo (record m {
      tabla_paginas = set m.tabla_paginas f r';
      tipo_de_paginas = set m.tipo_de_paginas f tipo;
    })
set-FilaCambiada m f r r' tipo v g =
    let dentro = get_elem?_lt m.tabla_paginas f g in
    record {
      fila = get_elem?-set_self m.tabla_paginas f r' dentro;
      su_tipo = get_elem?-set_self m.tipo_de_paginas f tipo (omega (arith, v.filas, v.tipos));
      otras_filas = λ h ne. get_elem?-set_ne m.tabla_paginas f h r' ne;
      otros_tipos = λ h ne. get_elem?-set_ne m.tipo_de_paginas f h tipo ne;
      lo_demas = refl;
    }

-- On a table of `marcos` rows, giving a frame to a page has two outcomes. Either no frame is free,
-- the answer is MEMORIA_INSUFICIENTE and the state is the old one; or the row of a frame that was free
-- is now the process and the page, with its type, and all other rows, types and fields stay.
pub asignar_en_tabla_de_frame-FilaCambiada :
    (m : EstructurasMemoria) (pid pagina : ℕ) (tipo : TipoDePagina)
    → TablaValida m
    → ((asignar_en_tabla_de_frame m pid pagina tipo ≡ some (memoria_insuficiente, m))
        × ((f : ℕ) (r : RegistroMarcoPagina)
            → get_elem? m.tabla_paginas f ≡ some r
            → libre r ≡ false))
      ⊎ ((f : ℕ) × (r : RegistroMarcoPagina) × (m' : EstructurasMemoria)
          × (asignar_en_tabla_de_frame m pid pagina tipo ≡ some (paginas_asignadas, m'))
          × (get_elem? m.tabla_paginas f ≡ some r)
          × (libre r ≡ true)
          × FilaCambiada m f (record { duenio = proceso pid; pagina_id = pagina }) tipo m')
asignar_en_tabla_de_frame-FilaCambiada m pid pagina tipo v =
    elim (asignar_en_tabla_de_frame_cases m pid pagina tipo v) [
      | inl nadie ↦ inl nadie
      | inr (f, r, e, g, t) ↦ inr (
        f,
        r,
        ocupar m f pid pagina tipo,
        e,
        g,
        t,
        set-FilaCambiada m f r (record { duenio = proceso pid; pagina_id = pagina }) tipo v g,
      )
    ]

-- Emptying the frame of a page, on a table of `marcos` rows: either no frame holds the page, the answer is
-- MEMORIA_INSUFICIENTE and the state is the old one; or the row of a frame that held it is now FRAME_VACIO with the
-- same page number and the type VACIO, and all other rows, types and fields stay.
pub vaciar_en_tabla_de_frame-FilaCambiada :
    (m : EstructurasMemoria) (pid pagina : ℕ)
    → TablaValida m
    → ((vaciar_en_tabla_de_frame m pid pagina ≡ some (memoria_insuficiente, m))
        × Ausente m pid pagina)
      ⊎ ((f : ℕ) × (r : RegistroMarcoPagina) × (m' : EstructurasMemoria) × (vaciar_en_tabla_de_frame
              m pid pagina
            ≡ some (paginas_asignadas, m'))
          × (get_elem? m.tabla_paginas f ≡ some r)
          × (coincide pid pagina r ≡ true)
          × FilaCambiada m f (record { duenio = frame_vacio; pagina_id = pagina }) vacio m')
vaciar_en_tabla_de_frame-FilaCambiada m pid pagina v =
    elim (vaciar_en_tabla_de_frame_cases m pid pagina v) [
      | inl nadie ↦ inl nadie
      | inr (f, r, e, g, t) ↦ inr (
        f,
        r,
        vaciar_marco m f pagina,
        e,
        g,
        t,
        set-FilaCambiada m f r (record { duenio = frame_vacio; pagina_id = pagina }) vacio v g,
      )
    ]
