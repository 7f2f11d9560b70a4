-- ===== src/Cpu/Funciones.antt =====
-- The primitives on the stack of a process, the `funciones_...` of
-- Segundo tp/cpu/src/primitivas.c, and `volverAlMain` of Segundo tp/cpu/src/ejecucion.c.
use so_commons.Base.{
  ℕ, zero, suc, ◌+◌, ◌-◌, Bool, true, false, ◌&&◌, ◌||◌, Option, none, some, List, [], ◌∷◌, ◌++◌,
  leb, ◌==◌, if◌then◌else◌, ◌>>=◌, ℤ, pos, negsuc, get_elem?, set, take, drop,
}
use so_commons.Cpu.{
  Direccion, Variable, RegistroStack, PcbActual, stackoverflow, finalizado_correctamente,
  posicion_a_puntero, puntero_a_posicion,
}
use so_commons.Cpu.Pedidos.{Parte, pedido_a_memoria}

-- `isalpha` and `isdigit` in the C locale.
unfoldable pub isalpha : ℕ → Bool
isalpha c = (leb 65 c && leb c 90) || (leb 97 c && leb c 122)

unfoldable pub isdigit : ℕ → Bool
isdigit c = leb 48 c && leb c 57

-- The record of the function that runs: `none` is the NULL of `list_get`.
unfoldable pub registro_actual : PcbActual → Option RegistroStack
registro_actual pcb = elim pcb.cant_entradas_indice_stack [
  | zero ↦ none
  | suc n ↦ get_elem? pcb.indice_stack n
]

-- The change of the record of the function that runs.
unfoldable pub con_registro : PcbActual → RegistroStack → PcbActual
con_registro pcb r = record pcb {
  indice_stack = set pcb.indice_stack (pcb.cant_entradas_indice_stack - 1) r;
}

-- The last lines of `funciones_definirVariables`.
unfoldable pub avanzar_fin_stack : ℕ → Direccion → Direccion
avanzar_fin_stack tamanio_pagina d =
    if leb tamanio_pagina (d.offset + 4)
    then record d { offset = d.offset + 4 - tamanio_pagina; pagina_id = d.pagina_id + 1 }
    else record d { offset = d.offset + 4 }

-- An identifier that is no letter and no digit leaves the answer unset: `none`.
unfoldable pub anotar : ℕ → Direccion → RegistroStack → Option RegistroStack
unfolding isalpha isdigit
anotar identificador posicion r =
    if isalpha identificador
    then some (record r {
      variables = r.variables ++ (record { id = identificador; posicion = posicion } ∷ []);
    })
    else if isdigit identificador
    then some (record r { argumentos = r.argumentos ++ (posicion ∷ []) })
    else none

unfoldable pub funciones_definir_variables : ℕ → PcbActual → ℕ → Option (ℤ × PcbActual)
unfolding registro_actual con_registro avanzar_fin_stack anotar posicion_a_puntero
funciones_definir_variables tamanio_pagina pcb identificador =
    if pcb.banderas.terminacion_anormal
    then some (negsuc 0, pcb)
    else if pcb.fin_stack.pagina_id == pcb.cantidad_paginas_totales
    then some (
      negsuc 0,
      record pcb {
        ec = stackoverflow;
        banderas = record pcb.banderas { terminacion_anormal = true };
      },
    )
    else (registro_actual pcb >>= λ r. anotar identificador pcb.fin_stack r >>= λ r'. some (
      pos (posicion_a_puntero pcb.fin_stack tamanio_pagina),
      record (con_registro pcb r') { fin_stack = avanzar_fin_stack tamanio_pagina pcb.fin_stack },
    ))

-- The first variable with the identifier, or else the last of the list. No variables: the pointer is unset.
unfoldable pub variable_buscada : ℕ → List Variable → Option Variable
variable_buscada identificador [] = none
variable_buscada identificador (v ∷ []) = some v
variable_buscada identificador (v ∷ w ∷ vs) =
    let resto = variable_buscada identificador (w ∷ vs) in
    if v.id == identificador then some v else resto

unfoldable pub funciones_obtener_posicion_variable : ℕ → PcbActual → ℕ → Option ℤ
unfolding registro_actual variable_buscada posicion_a_puntero isalpha isdigit
funciones_obtener_posicion_variable tamanio_pagina pcb identificador =
    if pcb.banderas.terminacion_anormal
    then some (negsuc 0)
    else (registro_actual pcb >>= λ r.
        if isalpha identificador
        then (variable_buscada identificador r.variables >>= λ v.
            some (pos (posicion_a_puntero v.posicion tamanio_pagina)))
        else if isdigit identificador
        then (get_elem? r.argumentos (identificador - 48) >>= λ d.
            some (pos (posicion_a_puntero d tamanio_pagina)))
        else none)

-- The value that memory sends is not part of the state.
unfoldable pub funciones_dereferenciar :
    ℕ → PcbActual → ℕ → List Bool → Option (List Parte × PcbActual)
unfolding pedido_a_memoria puntero_a_posicion
funciones_dereferenciar tamanio_pagina pcb direccion_variable respuestas =
    if pcb.banderas.terminacion_anormal
    then some ([], pcb)
    else pedido_a_memoria tamanio_pagina pcb
        (puntero_a_posicion direccion_variable tamanio_pagina pcb.pid) respuestas

unfoldable pub funciones_asignar : ℕ → PcbActual → ℕ → List Bool → Option (List Parte × PcbActual)
unfolding pedido_a_memoria puntero_a_posicion
funciones_asignar tamanio_pagina pcb direccion_variable respuestas =
    if pcb.banderas.terminacion_anormal
    then some ([], pcb)
    else pedido_a_memoria tamanio_pagina pcb
        (puntero_a_posicion direccion_variable tamanio_pagina pcb.pid) respuestas

-- `destino` is what `metadata_buscar_etiqueta` of the parser answers for the label.
unfoldable pub funciones_ir_al_label : PcbActual → ℤ → PcbActual
funciones_ir_al_label pcb destino =
    if pcb.banderas.terminacion_anormal
    then pcb
    else record pcb { pc = destino; banderas = record pcb.banderas { llamada_a_funcion = true } }

-- What both calls do: a new record, with the line to come back to.
unfoldable pub apilar : ℕ → PcbActual → ℕ → PcbActual
unfolding puntero_a_posicion
apilar tamanio_pagina pcb donde_retornar =
    let cant = pcb.cant_entradas_indice_stack + 1 in
    record pcb {
      cant_entradas_indice_stack = cant;
      indice_stack =
          pcb.indice_stack
          ++ (record {
            posicion = cant;
            argumentos = [];
            variables = [];
            pos_retorno = pcb.pc;
            pos_var_retorno = puntero_a_posicion donde_retornar tamanio_pagina pcb.pid;
          }
              ∷ []);
    }

unfoldable pub funciones_llamar_sin_retorno : ℕ → PcbActual → ℤ → PcbActual
unfolding apilar funciones_ir_al_label
funciones_llamar_sin_retorno tamanio_pagina pcb destino =
    if pcb.banderas.terminacion_anormal
    then pcb
    else (let pcb' = record pcb { banderas = record pcb.banderas { llamada_sin_retorno = true } } in
        funciones_ir_al_label (apilar tamanio_pagina pcb' 0) destino)

unfoldable pub funciones_llamar_con_retorno : ℕ → PcbActual → ℤ → ℕ → PcbActual
unfolding apilar funciones_ir_al_label
funciones_llamar_con_retorno tamanio_pagina pcb destino donde_retornar =
    if pcb.banderas.terminacion_anormal
    then pcb
    else funciones_ir_al_label (apilar tamanio_pagina pcb donde_retornar) destino

unfoldable pub funciones_finalizar : PcbActual → PcbActual
funciones_finalizar pcb =
    if pcb.banderas.terminacion_anormal
    then pcb
    else if pcb.banderas.llamada_sin_retorno
    then pcb
    else record pcb {
      ec = finalizado_correctamente;
      banderas = record pcb.banderas { termino_programa = true };
    }

-- `list_remove` of a record, and the fields that follow it.
unfoldable pub quitar_en : ℕ → List RegistroStack → List RegistroStack
quitar_en i rs = take i rs ++ drop (suc i) rs

unfoldable pub desapilar : PcbActual → RegistroStack → PcbActual
unfolding quitar_en
desapilar pcb r = record pcb {
  indice_stack = quitar_en (pcb.cant_entradas_indice_stack - 1) pcb.indice_stack;
  cant_entradas_indice_stack = pcb.cant_entradas_indice_stack - 1;
  pc = r.pos_retorno;
}

-- The assignment of the value returned comes between, and touches none of those fields.
unfoldable pub funciones_retornar : ℕ → PcbActual → List Bool → Option (List Parte × PcbActual)
unfolding registro_actual funciones_asignar desapilar posicion_a_puntero
funciones_retornar tamanio_pagina pcb respuestas =
    if pcb.banderas.terminacion_anormal
    then some ([], pcb)
    else (registro_actual pcb >>= λ r.
        funciones_asignar tamanio_pagina pcb (posicion_a_puntero r.pos_var_retorno tamanio_pagina)
          respuestas
        >>= λ (enviadas, pcb'). some (enviadas, desapilar pcb' r))

-- `es_end` is whether the text of the instruction has "end".
unfoldable pub volver_al_main : PcbActual → Bool → Option PcbActual
unfolding registro_actual desapilar
volver_al_main pcb es_end =
    if es_end
    then (registro_actual pcb >>= λ r. some (
        desapilar
          (record pcb {
            banderas = record pcb.banderas {
              llamada_sin_retorno = false;
              termino_programa = false;
            };
          })
          r))
    else some pcb
