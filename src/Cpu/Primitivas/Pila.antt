-- ===== src/Cpu/Primitivas/Pila.antt =====
-- The stack of a process: where its variables are. `funciones_definirVariables` and
-- `funciones_obtenerPosicionVariable` of Segundo tp/cpu/src/primitivas.c.
use so_commons.Base.{
  ℕ, zero, suc, ◌+◌, ◌-◌, ◌*◌, ◌%◌, ◌≤◌, ◌<◌, ◌≡◌, ◌≢◌, sym, ◌∙◌, true, Option, none, some, List,
  [], ◌∷◌, arith, leb, ◌==◌, ℤ, length, get_elem?, set, All, All-mapa, All-set, All-get_elem?,
  All-append, subst, length-set, Bool-cases, Option-cases, inl, inr,
}
use native.Mathlib.Nat.{mul-le-mul_right}
use so_commons.Cpu.{
  Direccion, RegistroStack, PcbActual, Banderas, posicion_a_puntero, ExitCode, stackoverflow,
}
use so_commons.Cpu.Funciones.{
  isalpha, isdigit, registro_actual, con_registro, avanzar_fin_stack, anotar,
  funciones_definir_variables,
}

-- An address of four bytes below another.
abbrev pub Debajo : ℕ → ℕ → Direccion → Type 0
Debajo tamanio_pagina fin d = posicion_a_puntero d tamanio_pagina + 4 ≤ fin

abbrev pub RegistroDebajo : ℕ → ℕ → RegistroStack → Type 0
RegistroDebajo tamanio_pagina fin r =
    All (λ v. Debajo tamanio_pagina fin v.posicion) r.variables
    × All (Debajo tamanio_pagina fin) r.argumentos

-- The stack of a process: one record for each entry, its end aligned and within the pages, and all that is
-- in the records below its end.
pub record EsPila (tamanio_pagina : ℕ) (pcb : PcbActual) : Type 0 where
  pub entradas : length pcb.indice_stack ≡ pcb.cant_entradas_indice_stack
  pub pagina_alineada : tamanio_pagina % 4 ≡ 0
  pub fin_alineado : pcb.fin_stack.offset % 4 ≡ 0
  pub en_pagina : pcb.fin_stack.offset < tamanio_pagina
  pub dentro :
      posicion_a_puntero pcb.fin_stack tamanio_pagina
      ≤ pcb.cantidad_paginas_totales * tamanio_pagina
  pub debajo :
      All
        (RegistroDebajo tamanio_pagina (posicion_a_puntero pcb.fin_stack tamanio_pagina))
        pcb.indice_stack

-- The end of the stack moves by four bytes, and stays aligned.
avanzar_fin_stack_lem :
    (t : ℕ) (d : Direccion)
    → t % 4 ≡ 0
    → d.offset % 4 ≡ 0
    → d.offset < t
    → let d' = avanzar_fin_stack t d in
      (posicion_a_puntero d' t ≡ posicion_a_puntero d t + 4) × (d'.offset % 4 ≡ 0) × (d'.offset < t)
unfolding avanzar_fin_stack posicion_a_puntero
avanzar_fin_stack_lem t d h k m = elim (Bool-cases (leb t (d.offset + 4))) [
  | inl pasa ↦
      let q : t ≤ d.offset + 4 = ground arith in rw pasa (omega arith, omega arith, omega arith)
  | inr sigue ↦
      let q : d.offset + 4 < t = ground arith in rw sigue (omega arith, omega arith, omega arith)
]

subir :
    (t fin fin' : ℕ) (rs : List RegistroStack)
    → fin ≤ fin'
    → All (RegistroDebajo t fin) rs
    → All (RegistroDebajo t fin') rs
subir t fin fin' rs m h =
    All-mapa rs
      (λ r (vs, ds). (
        All-mapa r.variables (λ v q. omega arith) vs,
        All-mapa r.argumentos (λ d q. omega arith) ds,
      ))
      h

-- What the answer of a primitive leaves of the stack.
abbrev pub Tras {ℓ} : {A : Type ℓ} → (PcbActual → Type 0) → Option (A × PcbActual) → Type 0
Tras P none = Unit
Tras P (some (a, pcb)) = P pcb

-- The rest of the process does not matter.
pub misma_pila :
    (t : ℕ) (pcb : PcbActual) (codigo : ExitCode) (linea : ℤ) (b : Banderas)
    → EsPila t pcb
    → EsPila t (record pcb { ec = codigo; pc = linea; banderas = b })
misma_pila t pcb codigo linea b h = record {
  entradas = h.entradas;
  pagina_alineada = h.pagina_alineada;
  fin_alineado = h.fin_alineado;
  en_pagina = h.en_pagina;
  dentro = h.dentro;
  debajo = h.debajo;
}

abbrev AnotadoDebajo : ℕ → ℕ → Option RegistroStack → Type 0
AnotadoDebajo t fin none = Unit
AnotadoDebajo t fin (some r) = RegistroDebajo t fin r

anotar-AnotadoDebajo :
    (t identificador : ℕ) (d : Direccion) (r : RegistroStack)
    → let fin = posicion_a_puntero d t in
      RegistroDebajo t fin r → AnotadoDebajo t (fin + 4) (anotar identificador d r)
unfolding anotar
anotar-AnotadoDebajo t identificador d r (vs, ds) =
    let fin = posicion_a_puntero d t in
    let vs' = All-mapa r.variables (λ v q. suma_4 (posicion_a_puntero v.posicion t) fin q) vs in
    let ds' = All-mapa r.argumentos (λ e q. suma_4 (posicion_a_puntero e t) fin q) ds in
    elim (Bool-cases (isalpha identificador)) [
      | inl letra ↦ rw letra (
        All-append (λ v. Debajo t (fin + 4) v.posicion) r.variables
            (record { id = identificador; posicion = d } ∷ []) vs' (omega arith, tt),
        ds',
      )
      | inr no_letra ↦ elim (Bool-cases (isdigit identificador)) [
        | inl digito ↦
            rw (no_letra, digito)
              (vs', All-append (Debajo t (fin + 4)) r.argumentos (d ∷ []) ds' (omega arith, tt))
        | inr ninguno ↦ rw (no_letra, ninguno) tt
      ]
    ]
  where
    suma_4 : (x fin : ℕ) → x + 4 ≤ fin → x + 4 ≤ fin + 4
    suma_4 x fin q = omega arith

-- A page that is not the last one ends within the pages.
pub cabe_uno_mas :
    (t total : ℕ) (d : Direccion)
    → t % 4 ≡ 0
    → d.offset % 4 ≡ 0
    → d.offset < t
    → posicion_a_puntero d t ≤ total * t
    → d.pagina_id ≢ total
    → posicion_a_puntero d t + 4 ≤ total * t
unfolding posicion_a_puntero
cabe_uno_mas t total d h k m n otra = elim (Bool-cases (leb total d.pagina_id)) [
  | inl llega ↦
      let q : total + 1 ≤ d.pagina_id = ground arith in
      absurd (omega (arith, mul-le-mul_right {m = total + 1} {n = d.pagina_id} t q))
  | inr falta ↦
      let q : d.pagina_id + 1 ≤ total = ground arith in
      let cuatro : d.offset + 4 ≤ t = omega arith in
      omega (arith, mul-le-mul_right {m = d.pagina_id + 1} {n = total} t q)
]

registro_actual-All :
    (P : RegistroStack → Type 0) (pcb : PcbActual) {r : RegistroStack}
    → All P pcb.indice_stack
    → registro_actual pcb ≡ some r
    → P r
unfolding registro_actual
registro_actual-All P pcb h igual = go pcb.cant_entradas_indice_stack pcb.indice_stack h igual
  where
    go :
        (cant : ℕ) (rs : List RegistroStack) {r : RegistroStack}
        → All P rs
        → elim cant [ zero ↦ none | suc n ↦ get_elem? rs n ] ≡ some r
        → P r
    go zero rs h igual = absurd (ground arith)
    go (suc n) rs h igual = All-get_elem? P rs n h igual

-- The process after a definition.
crecer :
    (t : ℕ) (pcb : PcbActual) (identificador : ℕ) (r r' : RegistroStack)
    → EsPila t pcb
    → pcb.fin_stack.pagina_id ≢ pcb.cantidad_paginas_totales
    → registro_actual pcb ≡ some r
    → anotar identificador pcb.fin_stack r ≡ some r'
    → EsPila t (record (con_registro pcb r') { fin_stack = avanzar_fin_stack t pcb.fin_stack })
unfolding con_registro
crecer t pcb identificador r r' h otra actual anotado =
    let fin = posicion_a_puntero pcb.fin_stack t in
    let (sube, alineado, cabe) =
      avanzar_fin_stack_lem t pcb.fin_stack h.pagina_alineada h.fin_alineado h.en_pagina in
    let suyo : RegistroDebajo t (fin + 4) r' = subst (AnotadoDebajo t (fin + 4)) anotado (
      anotar-AnotadoDebajo t identificador pcb.fin_stack r
        (registro_actual-All _ pcb h.debajo actual)) in
    let todos : All (RegistroDebajo t (fin + 4))
        (set pcb.indice_stack (pcb.cant_entradas_indice_stack - 1) r') =
      All-set (RegistroDebajo t (fin + 4)) pcb.indice_stack (pcb.cant_entradas_indice_stack - 1) r'
        (subir t fin (fin + 4) pcb.indice_stack (omega arith) h.debajo) suyo in
    record {
      entradas = length-set pcb.indice_stack (pcb.cant_entradas_indice_stack - 1) r' ∙ h.entradas;
      pagina_alineada = h.pagina_alineada;
      fin_alineado = alineado;
      en_pagina = cabe;
      dentro =
          subst (λ n. n ≤ pcb.cantidad_paginas_totales * t) (sym sube)
            (cabe_uno_mas t pcb.cantidad_paginas_totales pcb.fin_stack h.pagina_alineada
              h.fin_alineado h.en_pagina h.dentro otra);
      debajo =
          subst
            (λ n.
              All (RegistroDebajo t n)
                (set pcb.indice_stack (pcb.cant_entradas_indice_stack - 1) r'))
            (sym sube) todos;
    }

pub definir_variables-Tras :
    (t : ℕ) (pcb : PcbActual) (identificador : ℕ)
    → EsPila t pcb
    → Tras (EsPila t) (funciones_definir_variables t pcb identificador)
unfolding funciones_definir_variables registro_actual con_registro
definir_variables-Tras t pcb identificador h = elim (Bool-cases pcb.banderas.terminacion_anormal) [
  | inl anormal ↦ simp anormal h
  | inr sano ↦ elim (Bool-cases (pcb.fin_stack.pagina_id == pcb.cantidad_paginas_totales)) [
    | inl llena ↦
        let caida =
          misma_pila t pcb stackoverflow pcb.pc (record pcb.banderas { terminacion_anormal = true })
            h in
        simp (sano, llena) caida
    | inr hay ↦ elim (Option-cases (registro_actual pcb)) [
      | inl nada ↦ simp (sano, hay, nada) tt
      | inr (r, actual) ↦ elim (Option-cases (anotar identificador pcb.fin_stack r)) [
        | inl mal ↦ simp (sano, hay, actual, mal) tt
        | inr (r', anotado) ↦
            simp (sano, hay, actual, anotado)
              (crecer t pcb identificador r r' h (ground arith) actual anotado)
      ]
    ]
  ]
]
