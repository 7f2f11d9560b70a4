-- ===== src/Cpu/Primitivas/Retorno.antt =====
-- A call that comes back: `funciones_llamarConRetorno` and `funciones_retornar` of
-- Segundo tp/cpu/src/primitivas.c.
use so_commons.Base.{
  ℕ, ◌+◌, ◌-◌, ◌≡◌, refl, sym, ap, ◌∙◌, Bool, true, false, Option, none, some, List, [], ◌∷◌, arith,
  if◌then◌else◌, ◌>>=◌, >>=-eq-some, ℤ, length, subst,
}
use native.Mathlib.Nat.{mod-add-div}
use so_commons.Cpu.{
  Direccion, RegistroStack, PcbActual, excepcion_memoria, posicion_a_puntero, puntero_a_posicion,
}
use so_commons.Cpu.Pedidos.{Parte}
use so_commons.Cpu.Funciones.{
  registro_actual, funciones_definir_variables, apilar, funciones_ir_al_label,
  funciones_llamar_con_retorno, funciones_asignar, funciones_retornar, quitar_en, desapilar,
}
use so_commons.Cpu.Sistema.{abortar_con}
use so_commons.Cpu.Primitivas.Pila.{Tras}
use so_commons.Cpu.Primitivas.Invariante.{asignar-Tras}
use so_commons.Cpu.Primitivas.Llamadas.{
  EnFuncion, registro_actual-EnFuncion, definir-EnFuncion, definir_todas, quitar_en-append,
}

abbrev SiEnFuncion : List RegistroStack → ℤ → Direccion → Option PcbActual → Type 0
SiEnFuncion base linea lugar none = Unit
SiEnFuncion base linea lugar (some pcb) = EnFuncion base linea lugar pcb

definir_todas-EnFuncion :
    (t : ℕ) (base : List RegistroStack) (linea : ℤ) (lugar : Direccion) (pcb pcb' : PcbActual)
    (ids : List ℕ)
    → EnFuncion base linea lugar pcb
    → definir_todas t pcb ids ≡ some pcb'
    → EnFuncion base linea lugar pcb'
definir_todas-EnFuncion t base linea lugar pcb pcb' [] f igual =
    subst (SiEnFuncion base linea lugar) igual f
definir_todas-EnFuncion t base linea lugar pcb pcb' (id ∷ ids) f igual =
    let ((puntero, pcb1), define, sigue) =
      >>=-eq-some (funciones_definir_variables t pcb id) (λ (p, q). definir_todas t q ids) igual in
    definir_todas-EnFuncion t base linea lugar pcb1 pcb' ids
      (subst (Tras (EnFuncion base linea lugar)) define
        (definir-EnFuncion t base linea lugar pcb id f))
      sigue

puntero_a_posicion-posicion :
    (t pid donde : ℕ) → posicion_a_puntero (puntero_a_posicion donde t pid) t ≡ donde
unfolding posicion_a_puntero puntero_a_posicion
puntero_a_posicion-posicion t pid donde = omega (arith, mod-add-div donde t)

si_no {ℓ} : {A : Type ℓ} (b : Bool) (x y : A) → b ≡ false → (if b then x else y) ≡ y
si_no b x y h = rw h refl

-- A return, from the assignment on.
retornar_lem :
    (t : ℕ) (pcb : PcbActual) (respuestas : List Bool) (r : RegistroStack) (ps : List Parte)
    (pcb' : PcbActual)
    → pcb.banderas.terminacion_anormal ≡ false
    → registro_actual pcb ≡ some r
    → funciones_asignar t pcb (posicion_a_puntero r.pos_var_retorno t) respuestas ≡ some (ps, pcb')
    → funciones_retornar t pcb respuestas ≡ some (ps, desapilar pcb' r)
unfolding funciones_retornar
retornar_lem t pcb respuestas r ps pcb' sano actual asigna =
    si_no pcb.banderas.terminacion_anormal (some ([], pcb)) _ sano
    ∙ ap
        (λ m. m >>= λ q.
          funciones_asignar t pcb (posicion_a_puntero q.pos_var_retorno t) respuestas
          >>= λ (enviadas, p). some (enviadas, desapilar p q))
        actual
    ∙ ap (λ m. m >>= λ (enviadas, p). some (enviadas, desapilar p r)) asigna

abortada :
    (base : List RegistroStack) (linea : ℤ) (lugar : Direccion) (pcb : PcbActual)
    → EnFuncion base linea lugar pcb
    → EnFuncion base linea lugar (abortar_con pcb excepcion_memoria)
unfolding abortar_con
abortada base linea lugar pcb f = record {
  actual = f.actual;
  cuantas = f.cuantas;
  pila = f.pila;
  vuelve = f.vuelve;
  devuelve = f.devuelve;
}

llamar-EnFuncion :
    (t : ℕ) (pcb : PcbActual) (destino : ℤ) (donde : ℕ)
    → pcb.banderas.terminacion_anormal ≡ false
    → length pcb.indice_stack ≡ pcb.cant_entradas_indice_stack
    → EnFuncion pcb.indice_stack pcb.pc
        (puntero_a_posicion donde t pcb.pid)
        (funciones_llamar_con_retorno t pcb destino donde)
unfolding funciones_llamar_con_retorno apilar funciones_ir_al_label
llamar-EnFuncion t pcb destino donde sano n =
    let dentro : EnFuncion pcb.indice_stack pcb.pc (puntero_a_posicion donde t pcb.pid)
        (record (apilar t pcb donde) {
          pc = destino;
          banderas = record pcb.banderas { llamada_a_funcion = true };
        }) =
      record {
        actual = record {
          posicion = pcb.cant_entradas_indice_stack + 1;
          argumentos = [];
          variables = [];
          pos_retorno = pcb.pc;
          pos_var_retorno = puntero_a_posicion donde t pcb.pid;
        };
        cuantas = omega arith;
        pila = refl;
        vuelve = refl;
        devuelve = refl;
      } in
    subst (EnFuncion pcb.indice_stack pcb.pc (puntero_a_posicion donde t pcb.pid))
      (sym (
        si_no pcb.banderas.terminacion_anormal pcb _ sano
        ∙ si_no pcb.banderas.terminacion_anormal (apilar t pcb donde) _ sano))
      dentro

-- What the return leaves, after the assignment.
desapilar-EnFuncion :
    (base : List RegistroStack) (linea : ℤ) (lugar : Direccion) (pcb : PcbActual)
    (r : RegistroStack)
    → EnFuncion base linea lugar pcb
    → r.pos_retorno ≡ linea
    → ((desapilar pcb r).pc ≡ linea)
      × ((desapilar pcb r).indice_stack ≡ base)
      × ((desapilar pcb r).cant_entradas_indice_stack ≡ length base)
unfolding desapilar
desapilar-EnFuncion base linea lugar pcb r f vuelve = (
  vuelve,
  ap (λ i. quitar_en i pcb.indice_stack) {x = pcb.cant_entradas_indice_stack - 1} {y = length base}
        (omega (arith, f.cuantas))
      ∙ ap (quitar_en (length base)) f.pila
      ∙ quitar_en-append base f.actual,
  omega (arith, f.cuantas),
)

-- A function called with a place for its value, that defines any variables and returns: the process is
-- at the line of the call, with the stack of records that it had, and the requests to memory are those of an
-- assignment to the place given at the call. Neither the process nor the body ended abnormally before the return, and
-- memory answered all the requests.
pub retornar-llamar_con_retorno :
    (t : ℕ) (pcb : PcbActual) (destino : ℤ) (donde : ℕ) (ids : List ℕ) (pcb2 : PcbActual)
    (respuestas : List Bool) (ps : List Parte) (pcb3 : PcbActual)
    → pcb.banderas.terminacion_anormal ≡ false
    → length pcb.indice_stack ≡ pcb.cant_entradas_indice_stack
    → definir_todas t (funciones_llamar_con_retorno t pcb destino donde) ids ≡ some pcb2
    → pcb2.banderas.terminacion_anormal ≡ false
    → funciones_asignar t pcb2 donde respuestas ≡ some (ps, pcb3)
    → (pcb4 : PcbActual) × (funciones_retornar t pcb2 respuestas ≡ some (ps, pcb4))
      × (pcb4.pc ≡ pcb.pc)
      × (pcb4.indice_stack ≡ pcb.indice_stack)
      × (pcb4.cant_entradas_indice_stack ≡ pcb.cant_entradas_indice_stack)
retornar-llamar_con_retorno t pcb destino donde ids pcb2 respuestas ps pcb3 sano n define sano2
      asigna =
    let base = pcb.indice_stack in
    let lugar = puntero_a_posicion donde t pcb.pid in
    let f2 =
      definir_todas-EnFuncion t base pcb.pc lugar (funciones_llamar_con_retorno t pcb destino donde)
        pcb2 ids (llamar-EnFuncion t pcb destino donde sano n) define in
    let donde' : posicion_a_puntero f2.actual.pos_var_retorno t ≡ donde =
      ap (λ d. posicion_a_puntero d t) f2.devuelve ∙ puntero_a_posicion-posicion t pcb.pid donde in
    let f3 = subst (Tras (EnFuncion base pcb.pc lugar)) asigna (
      asignar-Tras (EnFuncion base pcb.pc lugar) t pcb2 donde respuestas f2
        (abortada base pcb.pc lugar pcb2 f2)) in
    let (linea, pila, cuantas) =
      desapilar-EnFuncion base pcb.pc lugar pcb3 f2.actual f3 f2.vuelve in
    let corre = registro_actual-EnFuncion base pcb.pc lugar pcb2 f2 in
    (
      desapilar pcb3 f2.actual,
      retornar_lem t pcb2 respuestas f2.actual ps pcb3 sano2 corre
          (ap (λ d. funciones_asignar t pcb2 d respuestas) donde' ∙ asigna),
      linea,
      pila,
      cuantas ∙ n,
    )
