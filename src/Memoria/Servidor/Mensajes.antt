-- ===== src/Memoria/Servidor/Mensajes.antt =====
-- Messages of the kernel and of a CPU about the same page.
use so_commons.Base.{
  ℕ, ◌+◌, ◌≤◌, ◌≡◌, refl, ap, [], ◌∷◌, false, some, List, arith, ltb, pos, length, take,
}
use so_commons.Memoria.{EstructurasMemoria, char, lectura_satisfactoria, escritura_satisfactoria}
use so_commons.Memoria.Tabla.{buscar_indice}
use so_commons.Memoria.Cache.Limites.{Limites}
use so_commons.Memoria.Datos.{leer_bytes, leer_dato, escribir_dato}
use so_commons.Memoria.Datos.Coherencia.{Coherente}
use so_commons.Memoria.Datos.Coherencia.Lectura.{leer-escribir_dato_interna}
use so_commons.Memoria.Servidor.{
  escribir_a_memoria, leer_de_memoria, respuesta, respuesta_con_dato, atender_kernel, atender_cpu,
}

take-length : (xs : List ℕ) → take (length xs) xs ≡ xs
take-length [] = refl
take-length (x ∷ xs) = ap (◌∷◌ x) (take-length xs)

leer_bytes_todo : (dato : List ℕ) → leer_bytes dato 0 (length dato) ≡ some dato
unfolding leer_bytes
leer_bytes_todo dato = ground (arith, take-length dato)

-- What the kernel writes inside a page, a CPU that reads the same address gets: on a coherent state with
-- right counters, the answers are ESCRITURA_SATISFACTORIA, and LECTURA_SATISFACTORIA with the datum.
pub atender_cpu-atender_kernel :
    (m : EstructurasMemoria) (pid pagina f offset : ℕ) (dato : List ℕ)
    → Coherente m
    → Limites m
    → buscar_indice m.config m.tabla_paginas pid pagina ≡ some (some f)
    → offset + length dato ≤ m.config.marco_size
    → (m' m'' : EstructurasMemoria) × (atender_kernel m (
          escribir_a_memoria
            (record { pid = pid; pagina_id = pagina; offset = pos offset; tamanio = length dato })
            dato)
        ≡ some (respuesta escritura_satisfactoria, m'))
      × (atender_cpu m' (
            leer_de_memoria (record {
              pid = pid;
              pagina_id = pagina;
              offset = pos offset;
              tamanio = length dato;
            }))
          ≡ some (respuesta_con_dato lectura_satisfactoria dato, m''))
unfolding atender_kernel atender_cpu leer_dato escribir_dato
atender_cpu-atender_kernel m pid pagina f offset dato v l b k =
    let x =
      leer-escribir_dato_interna m pid pagina f offset (length dato) dato dato char v l b
        (leer_bytes_todo dato) k in
    let cabe : ltb m.config.marco_size offset ≡ false = ground arith in
    let cabe2 : ltb x.0.config.marco_size offset ≡ false = ground (arith, cabe, x.4) in
    (
      x.0,
      x.1,
      rw (cabe, escribir_dato, x.2, atender_kernel) refl,
      rw (cabe2, leer_dato, x.3, atender_cpu) refl,
    )
