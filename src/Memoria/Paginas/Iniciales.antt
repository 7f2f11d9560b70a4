-- ===== src/Memoria/Paginas/Iniciales.antt =====
-- `crearPaginasIniciales` and `finalizarProgramaEnMemoria`: what they do to the frames of each
-- process.
use so_commons.Base.{
  ℕ, zero, suc, ◌+◌, ◌≡◌, refl, ap, ◌⊎◌, inl, inr, some, List, [], ◌∷◌, map, arith, ◌==◌,
  if◌then◌else◌, count, length,
}
use so_commons.Memoria.{
  EstructurasMemoria, RegistroMarcoPagina, memoria_insuficiente, paginas_asignadas, codigo, stack,
  TipoDePagina,
}
use so_commons.Memoria.Tabla.{
  desasignar, eliminar_tipos, eliminar_paginas_de_proceso, obtener_paginas_asignadas_por_proceso,
  ocupar, marco_del_proceso,
}
use so_commons.Memoria.Tabla.Asignacion.{
  TablaValida, asignar_en_tabla_de_frame_cases, TablaValida-ocupar, obtener-ocupar,
}
use so_commons.Memoria.Paginas.{segun, crear_desde, crear_paginas_iniciales}
use so_commons.Memoria.Paginas.Heap.{Cuenta}

-- The frames of `pid` are given back, and no other process loses one.
abbrev pub SinPaginas : EstructurasMemoria → EstructurasMemoria → ℕ → Type 0
SinPaginas m m' pid =
    (q : ℕ)
    → obtener_paginas_asignadas_por_proceso m' q
      ≡ (if pid == q then 0 else obtener_paginas_asignadas_por_proceso m q)

count-desasignar :
    (pid q : ℕ) (rs : List RegistroMarcoPagina)
    → count (marco_del_proceso q) (map (desasignar pid) rs)
      ≡ (if pid == q then 0 else count (marco_del_proceso q) rs)
count-desasignar pid q [] = ground arith
count-desasignar pid q (r ∷ rs) = ground (arith, count-desasignar pid q rs)

eliminar-SinPaginas :
    (m : EstructurasMemoria) (pid : ℕ) → SinPaginas m (eliminar_paginas_de_proceso m pid).1 pid
unfolding eliminar_paginas_de_proceso obtener_paginas_asignadas_por_proceso
eliminar-SinPaginas m pid q = count-desasignar pid q m.tabla_paginas

length-desasignar :
    (pid : ℕ) (rs : List RegistroMarcoPagina) → length (map (desasignar pid) rs) ≡ length rs
length-desasignar pid [] = refl
length-desasignar pid (r ∷ rs) = ap suc (length-desasignar pid rs)

length-eliminar_tipos :
    (pid : ℕ) (rs : List RegistroMarcoPagina) (ts : List TipoDePagina)
    → length (eliminar_tipos pid rs ts) ≡ length ts
unfolding eliminar_tipos
length-eliminar_tipos pid [] ts = refl
length-eliminar_tipos pid (r ∷ rs) [] = refl
length-eliminar_tipos pid (r ∷ rs) (t ∷ ts) = ap suc (length-eliminar_tipos pid rs ts)

pub TablaValida-eliminar :
    (m : EstructurasMemoria) (pid : ℕ)
    → TablaValida m
    → TablaValida (eliminar_paginas_de_proceso m pid).1
unfolding eliminar_paginas_de_proceso
TablaValida-eliminar m pid v = ground (
  arith,
  length-desasignar pid m.tabla_paginas,
  length-eliminar_tipos pid m.tabla_paginas m.tipo_de_paginas,
)

abbrev Crea : EstructurasMemoria → EstructurasMemoria → ℕ → ℕ → TipoDePagina → ℕ → ℕ → Type 0
Crea m0 m pid fijas tipo i n =
    (m' : EstructurasMemoria) × TablaValida m'
    × (((crear_desde m pid fijas tipo i n ≡ some (paginas_asignadas, m'))
          × Cuenta m0 m' pid (i + n))
        ⊎ ((crear_desde m pid fijas tipo i n ≡ some (memoria_insuficiente, m'))
            × SinPaginas m0 m' pid))

crear_desde_lem :
    (m0 m : EstructurasMemoria) (pid fijas : ℕ) (tipo : TipoDePagina) (i n : ℕ)
    → TablaValida m
    → Cuenta m0 m pid i
    → Crea m0 m pid fijas tipo i n
unfolding crear_desde
crear_desde_lem m0 m pid fijas tipo i zero v c = (m, v, inl (refl, λ q. ground (arith, c q)))
crear_desde_lem m0 m pid fijas tipo i (suc n) v c =
    let tipo' = if i + m.config.stack_size == fijas then stack else tipo in
    elim (asignar_en_tabla_de_frame_cases m pid i tipo' v) [
      | inl (e, lleno) ↦ (
        (eliminar_paginas_de_proceso m pid).1,
        TablaValida-eliminar m pid v,
        inr (rw (e, segun), λ q. ground (arith, c q, eliminar-SinPaginas m pid q)),
      )
      | inr (f, r, e, g, t) ↦
          let r1 =
            crear_desde_lem m0 (ocupar m f pid i tipo') pid fijas tipo' (suc i) n
              (TablaValida-ocupar m f pid i tipo' v)
              (λ q. ground (arith, c q, obtener-ocupar m f pid i g tipo' q t)) in
          (
            r1.0,
            r1.1,
            elim r1.2 [
              | inl (e1, c1) ↦ inl (rw (e, segun) e1, λ q. ground (arith, c1 q))
              | inr (e1, c1) ↦ inr (rw (e, segun) e1, c1)
            ],
          )
    ]

-- On a table of `marcos` rows, the request for the `n` initial pages of a process always returns.
-- Either the answer is PAGINAS_ASIGNADAS and the process has `n` more frames, the others as many
-- as before; or it is MEMORIA_INSUFICIENTE and the process has none, the others as many as before.
pub crear_paginas_iniciales_cases :
    (m : EstructurasMemoria) (pid n : ℕ)
    → TablaValida m
    → (m' : EstructurasMemoria) × TablaValida m'
      × (((crear_paginas_iniciales m pid n ≡ some (paginas_asignadas, m')) × Cuenta m m' pid n)
          ⊎ ((crear_paginas_iniciales m pid n ≡ some (memoria_insuficiente, m'))
              × SinPaginas m m' pid))
unfolding crear_paginas_iniciales
crear_paginas_iniciales_cases m pid n v =
    let r = crear_desde_lem m m pid n codigo 0 n v (λ q. ground arith) in
    (
      r.0,
      r.1,
      elim r.2 [ inl (e, c) ↦ inl (e, λ q. ground (arith, c q)) | inr (e, c) ↦ inr (e, c) ],
    )
