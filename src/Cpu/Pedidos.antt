-- ===== src/Cpu/Pedidos.antt =====
-- The requests of a CPU to the memory server: the loops of
-- Segundo tp/cpu/src/pedidosMemoria.c, which ask for a run of bytes page by page. The answers are a list, `true` for a
-- satisfactory one; the memory server sends no third kind.
pub mod Cobertura
use so_commons.Base.{
  ℕ, zero, suc, ◌+◌, ◌-◌, ◌*◌, ◌/◌, Bool, true, false, ◌&&◌, Option, none, some, List, [], ◌∷◌, ltb,
  leb, if◌then◌else◌, ◌>>=◌,
}
use so_commons.Cpu.{Direccion, PcbActual, Banderas, excepcion_memoria}

-- The message of one request.
pub record Parte : Type 0 where
  pub pagina_id : ℕ
  pub offset : ℕ
  pub tamanio : ℕ

-- The bytes of one turn of the loop.
unfoldable pub bytes_a_pedir : (cabe_en_una : Bool) (tamanio_pagina tamanio leidos posicion : ℕ) → ℕ
bytes_a_pedir cabe_en_una tamanio_pagina tamanio leidos posicion =
    if ltb tamanio_pagina (tamanio - leidos)
    then tamanio_pagina - posicion
    else if cabe_en_una && ltb tamanio_pagina (tamanio + posicion)
    then tamanio_pagina - posicion
    else tamanio - leidos

-- Only the last turn keeps the offset in the page, and it is not read again.
unfoldable pub partes :
    (cabe_en_una : Bool) (tamanio_pagina tamanio fuel leidos pagina posicion : ℕ) → List Parte
unfolding bytes_a_pedir
partes cabe_en_una tamanio_pagina tamanio zero leidos pagina posicion = []
partes cabe_en_una tamanio_pagina tamanio (suc fuel) leidos pagina posicion =
    let n = bytes_a_pedir cabe_en_una tamanio_pagina tamanio leidos posicion in
    let resto = partes cabe_en_una tamanio_pagina tamanio fuel (leidos + n) (suc pagina) 0 in
    if ltb leidos tamanio
    then record { pagina_id = pagina; offset = posicion; tamanio = n } ∷ resto
    else []

-- `pedirInstruccionAMemoria`: the requests for the instruction of `tamanio` bytes at `start`.
unfoldable pub pedir_instruccion_a_memoria : (tamanio_pagina start tamanio : ℕ) → List Parte
unfolding partes
pedir_instruccion_a_memoria tamanio_pagina start tamanio =
    let pagina = start / tamanio_pagina in
    partes (leb tamanio tamanio_pagina) tamanio_pagina tamanio tamanio 0 pagina
      (start - pagina * tamanio_pagina)

-- A value of a variable.
unfoldable pub pedir_valor : ℕ → Direccion → List Parte
unfolding partes
pedir_valor tamanio_pagina d =
    partes (ltb d.tamanio tamanio_pagina) tamanio_pagina d.tamanio d.tamanio 0 d.pagina_id d.offset

-- The answers, one for each request until the first error: the requests sent, and the process, which an error
-- ends. `none` waits for one more answer.
unfoldable pub con_respuestas : PcbActual → List Parte → List Bool → Option (List Parte × PcbActual)
con_respuestas pcb [] respuestas = some ([], pcb)
con_respuestas pcb (p ∷ ps) [] = none
con_respuestas pcb (p ∷ ps) (true ∷ respuestas) =
    con_respuestas pcb ps respuestas >>= λ (enviadas, pcb'). some (p ∷ enviadas, pcb')
con_respuestas pcb (p ∷ ps) (false ∷ respuestas) = some (
  p ∷ [],
  record pcb {
    ec = excepcion_memoria;
    banderas = record pcb.banderas { terminacion_anormal = true };
  },
)

-- `pedido_de_lectura_a_memoria` and `pedido_de_asignacion_a_memoria` send the same requests.
unfoldable pub pedido_a_memoria :
    ℕ → PcbActual → Direccion → List Bool → Option (List Parte × PcbActual)
unfolding pedir_valor con_respuestas
pedido_a_memoria tamanio_pagina pcb d respuestas =
    if pcb.banderas.terminacion_anormal
    then some ([], pcb)
    else con_respuestas pcb (pedir_valor tamanio_pagina d) respuestas
