-- ===== src/Cpu/Primitivas/Invariante.antt =====
-- Every primitive of Segundo tp/cpu/src/primitivas.c keeps the stack of the process well formed.
use so_commons.Base.{
  ℕ, zero, suc, ◌-◌, ◌<◌, ◌≡◌, ◌∙◌, Bool, true, false, Option, none, some, List, [], ◌∷◌, arith,
  if◌then◌else◌, ◌>>=◌, ℤ, length, get_elem?, take, drop, All-append, All-take, All-drop, subst,
  length-append, get_elem?_lt, Option-cases, inl, inr,
}
use so_commons.Cpu.{
  RegistroStack, PcbActual, ExitCode, excepcion_memoria, acceso_archivo_inexistente,
  intento_leer_archivo_sin_permiso, operar_semaforo_inexistente, finalizado_correctamente,
  posicion_a_puntero, puntero_a_posicion,
}
use so_commons.Cpu.Pedidos.{Parte, con_respuestas, pedido_a_memoria, pedir_valor}
use so_commons.Cpu.Funciones.{
  registro_actual, funciones_asignar, funciones_dereferenciar, funciones_ir_al_label, apilar,
  quitar_en, desapilar, funciones_retornar, funciones_definir_variables,
  funciones_obtener_posicion_variable,
}
use so_commons.Cpu.Sistema.{
  RespuestaKernel, semaforo_inexistente, semaforo_operado_correctamente, archivo_invalido,
  permiso_archivo_invalido, lectura_exitosa, abortar_con, abortar_si, operaciones_kernel_wait,
  tras_wait, tras_leer, operaciones_kernel_leer,
}
use so_commons.Cpu.Primitivas.{
  Primitiva, definir_variables, obtener_posicion_variable, dereferenciar, asignar,
  obtener_valor_compartida, asignar_valor_compartida, ir_al_label, llamar_sin_retorno,
  llamar_con_retorno, finalizar, retornar, wait, signal, reservar, liberar, abrir, borrar, cerrar,
  mover_cursor, escribir, leer, aplicar,
}
use so_commons.Cpu.Primitivas.Pila.{
  EsPila, Tras, RegistroDebajo, misma_pila, definir_variables-Tras,
}

-- The process that a call leaves, when it ends.
abbrev pub EsPilaSi : ℕ → Option PcbActual → Type 0
EsPilaSi t none = Unit
EsPilaSi t (some pcb) = EsPila t pcb

sin_valor {ℓ} :
    {A : Type ℓ} (t : ℕ) (m : Option (A × PcbActual))
    → Tras (EsPila t) m
    → EsPilaSi t (m >>= λ (a, pcb). some pcb)
sin_valor t none h = tt
sin_valor t (some (a, pcb)) h = h

abortar_con-EsPila :
    (t : ℕ) (pcb : PcbActual) (codigo : ExitCode) → EsPila t pcb → EsPila t (abortar_con pcb codigo)
unfolding abortar_con
abortar_con-EsPila t pcb codigo h =
    misma_pila t pcb codigo pcb.pc (record pcb.banderas { terminacion_anormal = true }) h

si_anormal :
    (t : ℕ) (b : Bool) (pcb pcb' : PcbActual)
    → EsPila t pcb
    → EsPila t pcb'
    → EsPila t (if b then pcb else pcb')
si_anormal t true pcb pcb' h k = h
si_anormal t false pcb pcb' h k = k

con_respuestas-Tras :
    (P : PcbActual → Type 0) (pcb : PcbActual) (ps : List Parte) (rs : List Bool)
    → P pcb
    → P (abortar_con pcb excepcion_memoria)
    → Tras P (con_respuestas pcb ps rs)
unfolding con_respuestas abortar_con
con_respuestas-Tras P pcb [] rs h k = h
con_respuestas-Tras P pcb (p ∷ ps) [] h k = tt
con_respuestas-Tras P pcb (p ∷ ps) (true ∷ rs) h k =
    agregar (con_respuestas pcb ps rs) (con_respuestas-Tras P pcb ps rs h k)
  where
    agregar :
        (m : Option (List Parte × PcbActual))
        → Tras P m
        → Tras P (m >>= λ (enviadas, pcb'). some (p ∷ enviadas, pcb'))
    agregar none q = tt
    agregar (some (enviadas, pcb')) q = q
con_respuestas-Tras P pcb (p ∷ ps) (false ∷ rs) h k = k

si_anormal-Tras {ℓ} :
    {A : Type ℓ} (P : PcbActual → Type 0) (b : Bool) (a : A) (pcb : PcbActual)
    (m : Option (A × PcbActual))
    → P pcb
    → Tras P m
    → Tras P (if b then some (a, pcb) else m)
si_anormal-Tras P true a pcb m h k = h
si_anormal-Tras P false a pcb m h k = k

-- An assignment changes no more than the exit code and the flag of the abnormal end.
pub asignar-Tras :
    (P : PcbActual → Type 0) (t : ℕ) (pcb : PcbActual) (direccion : ℕ) (rs : List Bool)
    → P pcb
    → P (abortar_con pcb excepcion_memoria)
    → Tras P (funciones_asignar t pcb direccion rs)
unfolding funciones_asignar pedido_a_memoria
asignar-Tras P t pcb direccion rs h k =
    let anormal = pcb.banderas.terminacion_anormal in
    let ps = pedir_valor t (puntero_a_posicion direccion t pcb.pid) in
    let m = con_respuestas pcb ps rs in
    si_anormal-Tras P anormal [] pcb (if anormal then some ([], pcb) else m) h
      (si_anormal-Tras P anormal [] pcb m h (con_respuestas-Tras P pcb ps rs h k))

asignar-EsPila :
    (t : ℕ) (pcb : PcbActual) (direccion : ℕ) (rs : List Bool)
    → EsPila t pcb
    → Tras (EsPila t) (funciones_asignar t pcb direccion rs)
asignar-EsPila t pcb direccion rs h =
    asignar-Tras (EsPila t) t pcb direccion rs h (abortar_con-EsPila t pcb excepcion_memoria h)

apilar-EsPila : (t : ℕ) (pcb : PcbActual) (donde : ℕ) → EsPila t pcb → EsPila t (apilar t pcb donde)
unfolding apilar
apilar-EsPila t pcb donde h = record {
  entradas = length-append pcb.indice_stack _ ∙ omega (arith, h.entradas);
  pagina_alineada = h.pagina_alineada;
  fin_alineado = h.fin_alineado;
  en_pagina = h.en_pagina;
  dentro = h.dentro;
  debajo =
      All-append (RegistroDebajo t (posicion_a_puntero pcb.fin_stack t)) pcb.indice_stack _ h.debajo
        ((tt, tt), tt);
}

length-quitar_en :
    (i : ℕ) (rs : List RegistroStack) → i < length rs → length (quitar_en i rs) ≡ length rs - 1
unfolding quitar_en
length-quitar_en i [] m = absurd (omega arith)
length-quitar_en zero (r ∷ rs) m = omega arith
length-quitar_en (suc i) (r ∷ rs) m = omega (arith, length-quitar_en i rs (omega arith))

registro_actual_lt :
    (pcb : PcbActual) {r : RegistroStack}
    → registro_actual pcb ≡ some r
    → (0 < pcb.cant_entradas_indice_stack)
      × (pcb.cant_entradas_indice_stack - 1 < length pcb.indice_stack)
unfolding registro_actual
registro_actual_lt pcb igual = go pcb.cant_entradas_indice_stack pcb.indice_stack igual
  where
    go :
        (cant : ℕ) (rs : List RegistroStack) {r : RegistroStack}
        → elim cant [ zero ↦ none | suc n ↦ get_elem? rs n ] ≡ some r
        → (0 < cant) × (cant - 1 < length rs)
    go zero rs igual = absurd (ground arith)
    go (suc n) rs igual = (omega arith, omega (arith, get_elem?_lt rs n igual))

desapilar-EsPila :
    (t : ℕ) (pcb : PcbActual) (r : RegistroStack)
    → EsPila t pcb
    → pcb.cant_entradas_indice_stack - 1 < length pcb.indice_stack
    → EsPila t (desapilar pcb r)
unfolding desapilar quitar_en
desapilar-EsPila t pcb r h m =
    let i = pcb.cant_entradas_indice_stack - 1 in
    let P = RegistroDebajo t (posicion_a_puntero pcb.fin_stack t) in
    record {
      entradas = length-quitar_en i pcb.indice_stack m ∙ omega (arith, h.entradas);
      pagina_alineada = h.pagina_alineada;
      fin_alineado = h.fin_alineado;
      en_pagina = h.en_pagina;
      dentro = h.dentro;
      debajo =
          All-append P (take i pcb.indice_stack) (drop (suc i) pcb.indice_stack)
            (All-take P i pcb.indice_stack h.debajo) (All-drop P (suc i) pcb.indice_stack h.debajo);
    }

retornar-EsPila :
    (t : ℕ) (pcb : PcbActual) (rs : List Bool)
    → EsPila t pcb
    → Tras (EsPila t) (funciones_retornar t pcb rs)
unfolding funciones_retornar abortar_con
retornar-EsPila t pcb rs h = elim (Option-cases (registro_actual pcb)) [
  | inl nada ↦ si_anormal-Tras (EsPila t) pcb.banderas.terminacion_anormal [] pcb _ h (rw nada tt)
  | inr (r, actual) ↦
      let (m, n) = registro_actual_lt pcb actual in
      let Sana : PcbActual → Type 0 = λ q. EsPila t q × (0 < q.cant_entradas_indice_stack) in
      let k : Sana pcb = (h, m) in
      let direccion = posicion_a_puntero r.pos_var_retorno t in
      let asignada =
        asignar-Tras Sana t pcb direccion rs k (abortar_con-EsPila t pcb excepcion_memoria h, m) in
      si_anormal-Tras (EsPila t) pcb.banderas.terminacion_anormal [] pcb _ h
        (rw actual (sacar r (funciones_asignar t pcb direccion rs) asignada))
]
  where
    sacar :
        (r : RegistroStack) (m : Option (List Parte × PcbActual))
        → Tras (λ q. EsPila t q × (0 < q.cant_entradas_indice_stack)) m
        → Tras (EsPila t) (m >>= λ (enviadas, pcb'). some (enviadas, desapilar pcb' r))
    sacar r none q = tt
    sacar r (some (enviadas, pcb')) (q, p) = desapilar-EsPila t pcb' r q (omega (arith, q.entradas))

tras_leer-EsPila :
    (t : ℕ) (pcb : PcbActual) (informacion : ℕ) (r : RespuestaKernel) (rs : List Bool)
    → EsPila t pcb
    → Tras (EsPila t) (tras_leer t pcb informacion r rs)
unfolding tras_leer
tras_leer-EsPila t pcb informacion r rs h =
    elim r as (λ k. Tras (EsPila t) (tras_leer t pcb informacion k rs)) [
      | archivo_invalido ↦ abortar_con-EsPila t pcb acceso_archivo_inexistente h
      | permiso_archivo_invalido ↦ abortar_con-EsPila t pcb intento_leer_archivo_sin_permiso h
      | lectura_exitosa ↦ asignar-EsPila t pcb informacion rs h
      | _ ↦ h
    ]

leer-EsPila :
    (t : ℕ) (pcb : PcbActual) (informacion : ℕ) (r : RespuestaKernel) (rs : List Bool)
    → EsPila t pcb
    → Tras (EsPila t) (operaciones_kernel_leer t pcb informacion r rs)
unfolding operaciones_kernel_leer
leer-EsPila t pcb informacion r rs h =
    si_anormal-Tras (EsPila t) pcb.banderas.terminacion_anormal [] pcb
      (tras_leer t pcb informacion r rs) h (tras_leer-EsPila t pcb informacion r rs h)

tras_wait-EsPila :
    (t : ℕ) (pcb : PcbActual) (r : RespuestaKernel) → EsPila t pcb → EsPila t (tras_wait pcb r)
unfolding tras_wait
tras_wait-EsPila t pcb r h = elim r as (λ k. EsPila t (tras_wait pcb k)) [
  | semaforo_inexistente ↦ abortar_con-EsPila t pcb operar_semaforo_inexistente h
  | semaforo_operado_correctamente cambiar ↦
      si_anormal t cambiar _ pcb
        (misma_pila t pcb pcb.ec pcb.pc (record pcb.banderas { cambio_proceso = true }) h) h
  | _ ↦ h
]

wait-EsPila :
    (t : ℕ) (pcb : PcbActual) (r : RespuestaKernel)
    → EsPila t pcb
    → EsPila t (operaciones_kernel_wait pcb r)
unfolding operaciones_kernel_wait
wait-EsPila t pcb r h =
    let b1 = record pcb.banderas { se_llamo_a_wait = true } in
    let pcb1 = record pcb { banderas = b1 } in
    let h1 = misma_pila t pcb pcb.ec pcb.pc b1 h in
    si_anormal t pcb1.banderas.terminacion_anormal pcb1 (tras_wait pcb1 r) h1
      (tras_wait-EsPila t pcb1 r h1)

abortar_si-EsPila :
    (t : ℕ) (pcb : PcbActual) (codigo : Option ExitCode)
    → EsPila t pcb
    → EsPila t (abortar_si pcb codigo)
unfolding abortar_si
abortar_si-EsPila t pcb none h = si_anormal t pcb.banderas.terminacion_anormal pcb pcb h h
abortar_si-EsPila t pcb (some c) h =
    si_anormal t pcb.banderas.terminacion_anormal pcb (abortar_con pcb c) h
      (abortar_con-EsPila t pcb c h)

ir_al_label-EsPila :
    (t : ℕ) (pcb : PcbActual) (d : ℤ) → EsPila t pcb → EsPila t (funciones_ir_al_label pcb d)
unfolding funciones_ir_al_label
ir_al_label-EsPila t pcb d h =
    si_anormal t pcb.banderas.terminacion_anormal pcb _ h
      (misma_pila t pcb pcb.ec d (record pcb.banderas { llamada_a_funcion = true }) h)

-- The result of each primitive.
resultado-EsPila :
    (t : ℕ) (pcb : PcbActual) (p : Primitiva) → EsPila t pcb → EsPilaSi t (aplicar t pcb p)
unfolding aplicar
resultado-EsPila t pcb (definir_variables id) h =
    sin_valor t (funciones_definir_variables t pcb id) (definir_variables-Tras t pcb id h)
resultado-EsPila t pcb (obtener_posicion_variable id) h =
    elim (Option-cases (funciones_obtener_posicion_variable t pcb id)) [
      | inl nada ↦ rw nada tt
      | inr (puntero, igual) ↦ rw igual h
    ]
resultado-EsPila t pcb (dereferenciar direccion rs) h =
    sin_valor t (funciones_dereferenciar t pcb direccion rs) (asignar-EsPila t pcb direccion rs h)
resultado-EsPila t pcb (asignar direccion rs) h =
    sin_valor t (funciones_asignar t pcb direccion rs) (asignar-EsPila t pcb direccion rs h)
resultado-EsPila t pcb (obtener_valor_compartida r) h = abortar_si-EsPila t pcb _ h
resultado-EsPila t pcb (asignar_valor_compartida r) h = abortar_si-EsPila t pcb _ h
resultado-EsPila t pcb (ir_al_label d) h = ir_al_label-EsPila t pcb d h
resultado-EsPila t pcb (llamar_sin_retorno d) h =
    let b1 = record pcb.banderas { llamada_sin_retorno = true } in
    let pcb1 = record pcb { banderas = b1 } in
    si_anormal t pcb.banderas.terminacion_anormal pcb _ h (
      ir_al_label-EsPila t (apilar t pcb1 0) d
        (apilar-EsPila t pcb1 0 (misma_pila t pcb pcb.ec pcb.pc b1 h)))
resultado-EsPila t pcb (llamar_con_retorno d donde) h =
    si_anormal t pcb.banderas.terminacion_anormal pcb _ h
      (ir_al_label-EsPila t (apilar t pcb donde) d (apilar-EsPila t pcb donde h))
resultado-EsPila t pcb finalizar h = si_anormal t pcb.banderas.terminacion_anormal pcb _ h (
    si_anormal t pcb.banderas.llamada_sin_retorno pcb _ h (
      misma_pila t pcb finalizado_correctamente pcb.pc
        (record pcb.banderas { termino_programa = true }) h))
resultado-EsPila t pcb (retornar rs) h =
    sin_valor t (funciones_retornar t pcb rs) (retornar-EsPila t pcb rs h)
resultado-EsPila t pcb (wait r) h = wait-EsPila t pcb r h
resultado-EsPila t pcb (leer informacion r rs) h =
    sin_valor t (operaciones_kernel_leer t pcb informacion r rs)
      (leer-EsPila t pcb informacion r rs h)
resultado-EsPila t pcb (signal r) h = abortar_si-EsPila t pcb _ h
resultado-EsPila t pcb (reservar r) h = abortar_si-EsPila t pcb _ h
resultado-EsPila t pcb (liberar r) h = abortar_si-EsPila t pcb _ h
resultado-EsPila t pcb (abrir r) h = abortar_si-EsPila t pcb _ h
resultado-EsPila t pcb (borrar r) h = abortar_si-EsPila t pcb _ h
resultado-EsPila t pcb (cerrar r) h = abortar_si-EsPila t pcb _ h
resultado-EsPila t pcb (mover_cursor r) h = abortar_si-EsPila t pcb _ h
resultado-EsPila t pcb (escribir r) h = abortar_si-EsPila t pcb _ h

-- Whatever primitive a process calls, and whatever is answered to it: if its stack was well formed before, it is so after
-- the call. Every variable and argument of every record lies below the end of the stack, four bytes
-- each, the end is aligned and never past the pages of the process, and the number of entries is that of the records.
pub aplicar-EsPila :
    (tamanio_pagina : ℕ) (pcb : PcbActual) (p : Primitiva) (pcb' : PcbActual)
    → EsPila tamanio_pagina pcb
    → aplicar tamanio_pagina pcb p ≡ some pcb'
    → EsPila tamanio_pagina pcb'
aplicar-EsPila t pcb p pcb' h igual = subst (EsPilaSi t) igual (resultado-EsPila t pcb p h)
