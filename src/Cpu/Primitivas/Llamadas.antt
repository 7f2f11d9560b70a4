-- ===== src/Cpu/Primitivas/Llamadas.antt =====
-- Variables found again after they are defined, and calls that come back: the `funciones_...` of
-- Segundo tp/cpu/src/primitivas.c.
use so_commons.Base.{
  ℕ, zero, suc, ◌+◌, ◌-◌, ◌*◌, ◌≤◌, ◌≡◌, ◌≢◌, refl, ap, ◌∙◌, true, false, Option, none, some, List,
  [], ◌∷◌, ◌++◌, arith, ◌==◌, ◌>>=◌, ℤ, pos, length, get_elem?, set, All, subst, get_elem?-set_self,
  get_elem?_lt, Bool-cases, Option-cases, inl, inr,
}
use so_commons.Cpu.{
  Direccion, Variable, RegistroStack, PcbActual, stackoverflow, posicion_a_puntero,
}
use so_commons.Cpu.Funciones.{
  isalpha, isdigit, registro_actual, con_registro, avanzar_fin_stack, anotar,
  funciones_definir_variables, variable_buscada, funciones_obtener_posicion_variable, quitar_en,
}
use so_commons.Cpu.Primitivas.Pila.{Tras, EsPila, RegistroDebajo, cabe_uno_mas}

variable_buscada-append :
    (id : ℕ) (vs : List Variable) (v : Variable)
    → All (λ w. w.id ≢ id) vs
    → variable_buscada id (vs ++ (v ∷ [])) ≡ some v
unfolding variable_buscada
variable_buscada-append id [] v h = refl
variable_buscada-append id (w ∷ []) v (h, hs) = ground arith
variable_buscada-append id (w ∷ x ∷ vs) v (h, hs) =
    ground (arith, variable_buscada-append id (x ∷ vs) v hs)

registro_actual-con_registro :
    (pcb : PcbActual) (r r' : RegistroStack)
    → registro_actual pcb ≡ some r
    → registro_actual (con_registro pcb r') ≡ some r'
unfolding registro_actual con_registro
registro_actual-con_registro pcb r r' actual =
    go pcb.cant_entradas_indice_stack (pcb.cant_entradas_indice_stack - 1) pcb.indice_stack refl
      actual
  where
    go :
        (cant i : ℕ) (rs : List RegistroStack)
        → i ≡ cant - 1
        → elim cant [ zero ↦ none | suc n ↦ get_elem? rs n ] ≡ some r
        → elim cant [ zero ↦ none | suc n ↦ get_elem? (set rs i r') n ] ≡ some r'
    go zero i rs j e = absurd (ground arith)
    go (suc n) i rs j e =
        ap (λ k. get_elem? (set rs k r') n) {x = i} {y = n} (omega arith)
        ∙ get_elem?-set_self rs n r' (get_elem?_lt rs n e)

encontrar :
    (t : ℕ) (pcb : PcbActual) (id : ℕ) (r : RegistroStack) (v : Variable)
    → pcb.banderas.terminacion_anormal ≡ false
    → registro_actual pcb ≡ some r
    → isalpha id ≡ true
    → variable_buscada id r.variables ≡ some v
    → funciones_obtener_posicion_variable t pcb id ≡ some (pos (posicion_a_puntero v.posicion t))
unfolding funciones_obtener_posicion_variable
encontrar t pcb id r v sano actual letra buscada = simp (sano, actual, letra, buscada) refl

-- A variable defined in a function that does not have it yet, on a stack that is not full, gets the four bytes at the end of the
-- stack: they are within the pages of the process, all that was defined before lies below them, and the
-- search for the variable gives their address.
pub obtener-definir_variables :
    (t : ℕ) (pcb : PcbActual) (id : ℕ) (r : RegistroStack)
    → EsPila t pcb
    → pcb.banderas.terminacion_anormal ≡ false
    → pcb.fin_stack.pagina_id ≢ pcb.cantidad_paginas_totales
    → registro_actual pcb ≡ some r
    → isalpha id ≡ true
    → All (λ v. v.id ≢ id) r.variables
    → let fin = posicion_a_puntero pcb.fin_stack t in
      (pcb' : PcbActual) × (funciones_definir_variables t pcb id ≡ some (pos fin, pcb'))
      × (funciones_obtener_posicion_variable t pcb' id ≡ some (pos fin))
      × (fin + 4 ≤ pcb.cantidad_paginas_totales * t)
      × All (RegistroDebajo t fin) pcb.indice_stack
unfolding funciones_definir_variables anotar con_registro
obtener-definir_variables t pcb id r h sano otra actual letra nueva =
    let v : Variable = record { id = id; posicion = pcb.fin_stack } in
    let r' = record r { variables = r.variables ++ (v ∷ []) } in
    let hay : (pcb.fin_stack.pagina_id == pcb.cantidad_paginas_totales) ≡ false = ground arith in
    let actual' = registro_actual-con_registro pcb r r' actual in
    let buscada = variable_buscada-append id r.variables v nueva in
    let pcb' = record (con_registro pcb r') { fin_stack = avanzar_fin_stack t pcb.fin_stack } in
    (
      pcb',
      simp (sano, hay, actual, letra) refl,
      encontrar t pcb' id r' v sano actual' letra buscada,
      cabe_uno_mas t pcb.cantidad_paginas_totales pcb.fin_stack h.pagina_alineada h.fin_alineado
          h.en_pagina h.dentro otra,
      h.debajo,
    )

pub quitar_en-append :
    (rs : List RegistroStack) (r : RegistroStack) → quitar_en (length rs) (rs ++ (r ∷ [])) ≡ rs
unfolding quitar_en
quitar_en-append [] r = refl
quitar_en-append (x ∷ rs) r = ap (x ∷◌) (quitar_en-append rs r)

set-append_ultimo :
    (rs : List RegistroStack) (r r' : RegistroStack)
    → set (rs ++ (r ∷ [])) (length rs) r' ≡ rs ++ (r' ∷ [])
set-append_ultimo [] r r' = refl
set-append_ultimo (x ∷ rs) r r' = ap (x ∷◌) (set-append_ultimo rs r r')

get_elem?-ultimo :
    (rs : List RegistroStack) (r : RegistroStack) → get_elem? (rs ++ (r ∷ [])) (length rs) ≡ some r
get_elem?-ultimo [] r = refl
get_elem?-ultimo (x ∷ rs) r = get_elem?-ultimo rs r

-- A process inside a function: over the records `base` there is one, which comes back to a line and returns its
-- value to an address.
pub record EnFuncion (base : List RegistroStack) (linea : ℤ) (lugar : Direccion) (pcb : PcbActual)
    : Type 0 where
  pub actual : RegistroStack
  pub cuantas : pcb.cant_entradas_indice_stack ≡ suc (length base)
  pub pila : pcb.indice_stack ≡ base ++ (actual ∷ [])
  pub vuelve : actual.pos_retorno ≡ linea
  pub devuelve : actual.pos_var_retorno ≡ lugar

pub registro_actual-EnFuncion :
    (base : List RegistroStack) (linea : ℤ) (lugar : Direccion) (pcb : PcbActual)
    (f : EnFuncion base linea lugar pcb)
    → registro_actual pcb ≡ some f.actual
unfolding registro_actual
registro_actual-EnFuncion base linea lugar pcb f =
    ap (λ n. elim n [ zero ↦ none | suc i ↦ get_elem? pcb.indice_stack i ]) f.cuantas
    ∙ ap (λ rs. get_elem? rs (length base)) f.pila
    ∙ get_elem?-ultimo base f.actual

abbrev MismoRetorno : RegistroStack → Option RegistroStack → Type 0
MismoRetorno r none = Unit
MismoRetorno r (some r') =
    (r'.pos_retorno ≡ r.pos_retorno) × (r'.pos_var_retorno ≡ r.pos_var_retorno)

anotar-MismoRetorno : (id : ℕ) (d : Direccion) (r : RegistroStack) → MismoRetorno r (anotar id d r)
unfolding anotar
anotar-MismoRetorno id d r = elim (Bool-cases (isalpha id)) [
  | inl letra ↦ rw letra (refl, refl)
  | inr no_letra ↦ elim (Bool-cases (isdigit id)) [
    | inl digito ↦ rw (no_letra, digito) (refl, refl)
    | inr ninguno ↦ rw (no_letra, ninguno) tt
  ]
]

pub definir-EnFuncion :
    (t : ℕ) (base : List RegistroStack) (linea : ℤ) (lugar : Direccion) (pcb : PcbActual) (id : ℕ)
    → EnFuncion base linea lugar pcb
    → Tras (EnFuncion base linea lugar) (funciones_definir_variables t pcb id)
unfolding funciones_definir_variables con_registro
definir-EnFuncion t base linea lugar pcb id f =
    let actual = registro_actual-EnFuncion base linea lugar pcb f in
    elim (Bool-cases pcb.banderas.terminacion_anormal) [
      | inl anormal ↦ simp anormal f
      | inr sano ↦ elim (Bool-cases (pcb.fin_stack.pagina_id == pcb.cantidad_paginas_totales)) [
        | inl llena ↦
            let caida : EnFuncion base linea lugar (record pcb {
              ec = stackoverflow;
              banderas = record pcb.banderas { terminacion_anormal = true };
            }) =
              record {
                actual = f.actual;
                cuantas = f.cuantas;
                pila = f.pila;
                vuelve = f.vuelve;
                devuelve = f.devuelve;
              } in
            simp (sano, llena) caida
        | inr hay ↦ elim (Option-cases (anotar id pcb.fin_stack f.actual)) [
          | inl mal ↦ simp (sano, hay, actual, mal) tt
          | inr (r', anotado) ↦
              let (q1, q2) =
                subst (MismoRetorno f.actual) anotado
                  (anotar-MismoRetorno id pcb.fin_stack f.actual) in
              let nueva : EnFuncion base linea lugar
                  (record (con_registro pcb r') { fin_stack = avanzar_fin_stack t pcb.fin_stack }) =
                record {
                  actual = r';
                  cuantas = f.cuantas;
                  pila =
                      ap (λ i. set pcb.indice_stack i r') {x = pcb.cant_entradas_indice_stack - 1}
                        {y = length base} (omega (arith, f.cuantas))
                      ∙ ap (λ rs. set rs (length base) r') f.pila
                      ∙ set-append_ultimo base f.actual r';
                  vuelve = q1 ∙ f.vuelve;
                  devuelve = q2 ∙ f.devuelve;
                } in
              simp (sano, hay, actual, anotado) nueva
        ]
      ]
    ]

-- The definitions of the variables of a function, one after the other.
abbrev pub definir_todas : ℕ → PcbActual → List ℕ → Option PcbActual
definir_todas t pcb [] = some pcb
definir_todas t pcb (id ∷ ids) =
    funciones_definir_variables t pcb id >>= λ (puntero, pcb'). definir_todas t pcb' ids
