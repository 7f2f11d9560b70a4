-- ===== src/Cpu/Tests.antt =====
-- A concrete process, and the theorems on the CPU at it: pages of 16 bytes, five of them.
use so_commons.Base.{
  ℕ, ◌+◌, ◌*◌, ◌≤◌, ◌≡◌, refl, true, false, some, List, [], ◌∷◌, ◌++◌, arith, pos, All,
}
use so_commons.Cpu.{Direccion, RegistroStack, PcbActual, Banderas, no_definido, posicion_a_puntero}
use so_commons.Cpu.Pedidos.{Parte, pedir_instruccion_a_memoria}
use so_commons.Cpu.Pedidos.Cobertura.{unir, EnPagina, pedir_instruccion_a_memoria-trozo}
use so_commons.Cpu.Funciones.{
  isalpha, registro_actual, funciones_definir_variables, funciones_obtener_posicion_variable,
  funciones_llamar_con_retorno, funciones_asignar, funciones_retornar,
}
use so_commons.Cpu.Primitivas.{definir_variables, aplicar}
use so_commons.Cpu.Primitivas.Pila.{EsPila, RegistroDebajo}
use so_commons.Cpu.Primitivas.Invariante.{aplicar-EsPila}
use so_commons.Cpu.Primitivas.Llamadas.{definir_todas, obtener-definir_variables}
use so_commons.Cpu.Primitivas.Retorno.{retornar-llamar_con_retorno}

abbrev lugar : ℕ → ℕ → Direccion
lugar pagina offset = record { pid = 7; pagina_id = pagina; offset = offset; tamanio = 4 }

abbrev quieto : Banderas
quieto = record {
  termino_programa = false;
  llamada_a_funcion = false;
  cambio_proceso = false;
  terminacion_anormal = false;
  se_llamo_a_wait = false;
  llamada_sin_retorno = false;
}

-- The variables a and b.
abbrev principal : RegistroStack
principal = record {
  posicion = 1;
  argumentos = [];
  variables =
      record { id = 97; posicion = lugar 4 0 } ∷ record { id = 98; posicion = lugar 4 4 } ∷ [];
  pos_retorno = pos 0;
  pos_var_retorno = lugar 0 0;
}

abbrev proceso : PcbActual
proceso = record {
  pid = 7;
  pc = pos 3;
  cantidad_paginas_totales = 5;
  ec = no_definido;
  cant_entradas_indice_stack = 1;
  indice_stack = principal ∷ [];
  fin_stack = lugar 4 8;
  banderas = quieto;
}

abbrev abortado : PcbActual
abortado = record proceso { banderas = record quieto { terminacion_anormal = true } }

proceso-EsPila : EsPila 16 proceso
unfolding posicion_a_puntero
proceso-EsPila = record {
  entradas = refl;
  pagina_alineada = refl;
  fin_alineado = refl;
  en_pagina = omega arith;
  dentro = omega arith;
  debajo = (((omega arith, (omega arith, tt)), tt), tt);
}

en_principal : registro_actual proceso ≡ some principal
unfolding registro_actual
en_principal = refl

es_letra : isalpha 99 ≡ true
unfolding isalpha
es_letra = refl

-- The variable c.
abbrev con_c : PcbActual
con_c = record proceso {
  fin_stack = lugar 4 12;
  indice_stack =
      record principal {
        variables = principal.variables ++ (record { id = 99; posicion = lugar 4 8 } ∷ []);
      }
      ∷ [];
}

define_c : aplicar 16 proceso (definir_variables 99) ≡ some con_c
unfolding aplicar
define_c = refl

aplicar-EsPila_example : EsPila 16 con_c
aplicar-EsPila_example =
    aplicar-EsPila 16 proceso (definir_variables 99) con_c proceso-EsPila define_c

obtener-definir_variables_example :
    (pcb' : PcbActual) × (funciones_definir_variables 16 proceso 99
      ≡ some (pos (posicion_a_puntero (lugar 4 8) 16), pcb'))
    × (funciones_obtener_posicion_variable 16 pcb' 99
        ≡ some (pos (posicion_a_puntero (lugar 4 8) 16)))
    × (posicion_a_puntero (lugar 4 8) 16 + 4 ≤ 5 * 16)
    × All (RegistroDebajo 16 (posicion_a_puntero (lugar 4 8) 16)) (principal ∷ [])
obtener-definir_variables_example =
    obtener-definir_variables 16 proceso 99 principal proceso-EsPila refl (ground arith)
      en_principal es_letra (ground arith, (ground arith, tt))

-- A function at line 9 with an argument and a variable.
abbrev en_funcion : PcbActual
en_funcion = record proceso {
  pc = pos 9;
  cant_entradas_indice_stack = 2;
  indice_stack =
      principal
      ∷ record {
        posicion = 2;
        argumentos = lugar 4 8 ∷ [];
        variables = record { id = 99; posicion = lugar 4 12 } ∷ [];
        pos_retorno = pos 3;
        pos_var_retorno = lugar 4 0;
      }
      ∷ [];
  fin_stack = lugar 5 0;
  banderas = record quieto { llamada_a_funcion = true };
}

define_en_funcion :
    definir_todas 16 (funciones_llamar_con_retorno 16 proceso (pos 9) 64) (48 ∷ 99 ∷ [])
    ≡ some en_funcion
unfolding funciones_llamar_con_retorno funciones_definir_variables
define_en_funcion = refl

abbrev asignacion : List Parte
asignacion = record { pagina_id = 4; offset = 0; tamanio = 4 } ∷ []

asigna_en_funcion : funciones_asignar 16 en_funcion 64 (true ∷ []) ≡ some (asignacion, en_funcion)
unfolding funciones_asignar
asigna_en_funcion = refl

retornar-llamar_con_retorno_example :
    (pcb4 : PcbActual) × (funciones_retornar 16 en_funcion (true ∷ []) ≡ some (asignacion, pcb4))
    × (pcb4.pc ≡ pos 3)
    × (pcb4.indice_stack ≡ principal ∷ [])
    × (pcb4.cant_entradas_indice_stack ≡ 1)
retornar-llamar_con_retorno_example =
    retornar-llamar_con_retorno 16 proceso (pos 9) 64 (48 ∷ 99 ∷ []) en_funcion (true ∷ [])
      asignacion en_funcion refl refl define_en_funcion refl asigna_en_funcion

-- An instruction of five bytes on two pages of four.
abbrev codigo : List ℕ
codigo = 10 ∷ 11 ∷ 12 ∷ 13 ∷ 14 ∷ 15 ∷ 16 ∷ 17 ∷ []

pedir_instruccion_a_memoria-trozo_example :
    (unir codigo 4 (pedir_instruccion_a_memoria 4 3 5) ≡ 13 ∷ 14 ∷ 15 ∷ 16 ∷ 17 ∷ [])
    × All (EnPagina 4) (pedir_instruccion_a_memoria 4 3 5)
pedir_instruccion_a_memoria-trozo_example =
    pedir_instruccion_a_memoria-trozo codigo 4 3 5 (omega arith) (omega arith)
