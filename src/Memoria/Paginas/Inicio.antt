-- ===== src/Memoria/Paginas/Inicio.antt =====
-- `crearEstructuras` of Segundo tp/memoria/src/memoria.c: the first state.
use so_commons.Base.{
  ℕ, zero, suc, ◌*◌, ◌<◌, ◌≤◌, ◌≡◌, refl, ◌∙◌, inl, some, List, [], ◌∷◌, arith, length, get_elem?,
  replicate, negsuc,
}
use so_commons.Memoria.{
  frame_reservado, RegistroMarcoPagina, MemoriaConfig, EstructurasMemoria, vacio,
}
use so_commons.Memoria.Cache.{obtener_registro_aux}
use so_commons.Memoria.Cache.Limites.{Limites}
use so_commons.Memoria.Datos.Coherencia.{Coherente}
use so_commons.Memoria.Paginas.{
  cantidad_paginas_necesarias, reservar, crear_estructuras, fila_vacia, tamanio_de_registro,
}

abbrev pub reservada : RegistroMarcoPagina
reservada = record { duenio = frame_reservado; pagina_id = 0 }

-- The rows after the reservation of `n` frames.
abbrev pub Reservadas : ℕ → List RegistroMarcoPagina → Type 0
Reservadas n tabla = (f : ℕ) → f < n → get_elem? tabla f ≡ some reservada

reservar_lem :
    (n : ℕ) (filas : List RegistroMarcoPagina)
    → n ≤ length filas
    → (tabla : List RegistroMarcoPagina) × (reservar n filas ≡ some tabla)
      × (length tabla ≡ length filas)
      × Reservadas n tabla
unfolding reservar
reservar_lem zero filas h = (filas, refl, refl, λ f l. absurd (omega (arith, l)))
reservar_lem (suc n) [] h = absurd (omega arith)
reservar_lem (suc n) (r ∷ rs) h =
    let i = reservar_lem n rs (omega arith) in
    (reservada ∷ i.0, rw (i.1, reservar) refl, omega (arith, i.2), reservadas i.0 i.3)
  where
    reservadas :
        (t : List RegistroMarcoPagina) → Reservadas n t → Reservadas (suc n) (reservada ∷ t)
    reservadas t k zero l = refl
    reservadas t k (suc f) l = k f (omega arith)

length-replicate {ℓ} : {A : Type ℓ} → (n : ℕ) (a : A) → length (replicate n a) ≡ n
length-replicate zero a = refl
length-replicate (suc n) a = omega (arith, length-replicate n a)

-- The frames reserved have room for the table.
paginas_necesarias-cubren :
    (c : MemoriaConfig)
    → 0 < c.marco_size
    → tamanio_de_registro * c.marcos ≤ cantidad_paginas_necesarias c * c.marco_size
unfolding cantidad_paginas_necesarias
paginas_necesarias-cubren c h = grind arith

-- What `crearEstructuras` promises: the table fits in the first frames, all marked as reserved.
abbrev pub Inicial : MemoriaConfig → EstructurasMemoria → Type 0
Inicial c m =
    (m.config ≡ c)
    × (tamanio_de_registro * c.marcos ≤ cantidad_paginas_necesarias c * c.marco_size)
    × Reservadas (cantidad_paginas_necesarias c) m.tabla_paginas

-- With at least one frame of at least one byte, a cache of at least one entry for a process, and
-- enough frames for the page table, `crearEstructuras` succeeds. The frames it reserves have room for
-- the whole table, and the state is coherent with right cache counters.
pub crear_estructuras-Inicial :
    (c : MemoriaConfig) (contenido : List ℕ)
    → 0 < c.marcos
    → 0 < c.marco_size
    → 0 < c.entradas_cache
    → 0 < c.cache_x_proc
    → length contenido ≡ c.marcos * c.marco_size
    → cantidad_paginas_necesarias c ≤ c.marcos
    → (m : EstructurasMemoria) × (crear_estructuras c contenido ≡ some m)
      × Inicial c m
      × Coherente m
      × Limites m
unfolding crear_estructuras obtener_registro_aux
crear_estructuras-Inicial c contenido p s e x l k =
    let i =
      reservar_lem (cantidad_paginas_necesarias c) (replicate c.marcos fila_vacia)
        (omega (arith, length-replicate c.marcos fila_vacia)) in
    let m : EstructurasMemoria = record {
      config = c;
      memoria = contenido;
      cache = [];
      tabla_paginas = i.0;
      frames_vacios = c.entradas_cache;
      ultima_pagina_cacheada = negsuc 0;
      contador_aux_cache = [];
      tipo_de_paginas = replicate c.marcos vacio;
      lecturas = 0;
      escrituras = 0;
      colisiones = 0;
      aciertos_de_cache = 0;
    } in
    (
      m,
      rw (i.1, crear_estructuras) refl,
      (refl, paginas_necesarias-cubren c s, i.3),
      record {
        tabla = record {
          positiva = p;
          filas = i.2 ∙ length-replicate c.marcos fila_vacia;
          tipos = length-replicate c.marcos vacio;
        };
        bytes = l;
        paginas = tt;
        unicas = tt;
      },
      record {
        entradas = e;
        por_proceso = x;
        contadas = λ q. refl;
        acotadas = λ q. omega arith;
        lugar = omega arith;
        usada = inl refl;
      },
    )
