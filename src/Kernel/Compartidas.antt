-- ===== src/Kernel/Compartidas.antt =====
-- The shared variables, the semaphores that the processes name, and the CPUs:
-- `existeCompartida`, `existeSemaforo`, `obtener_valor_compartida`, `asignar_valor_compartida` and the
-- lists of CPUs of Segundo tp/kernel/src/conexionesKernelCpu.c. `iguales` is `string_equals_ignore_case`.
pub mod Vuelta
use so_commons.Base.{
  ℕ, Bool, Option, none, some, List, [], ◌∷◌, ◌++◌, ◌==◌, if◌then◌else◌, ◌>>=◌, ℤ,
}

-- t_variable_global
pub record VariableGlobal : Type 0 where
  pub identificador : List ℕ
  pub valor : ℤ

-- `condicion`, with the value that is received after it.
pub data Condicion : Type 0 where
  pedir_valor_compartida : Condicion
  asignar_valor_compartida_a : (nuevo : ℤ) → Condicion

pub data RespuestaCompartida : Type 0 where
  enviado_valor_compartida : (leido : ℤ) → RespuestaCompartida
  valor_compartida_asignado : (escrito : ℤ) → RespuestaCompartida
  compartida_inexistente : RespuestaCompartida

unfoldable pub tras_condicion : Condicion → VariableGlobal → VariableGlobal
tras_condicion pedir_valor_compartida v = v
tras_condicion (asignar_valor_compartida_a x) v = record v { valor = x }

-- `nombre_con_admiracion` is the name that was received after a `!`.
unfoldable pub buscar_compartida :
    (List ℕ → List ℕ → Bool)
    → List VariableGlobal
    → (nombre_con_admiracion : List ℕ) → Condicion
    → Option (ℤ × List VariableGlobal)
unfolding tras_condicion
buscar_compartida iguales [] nombre condicion = none
buscar_compartida iguales (v ∷ vs) nombre condicion =
    let resto = (buscar_compartida iguales vs nombre condicion >>= λ (y, ws). some (y, v ∷ ws)) in
    let buscada = tras_condicion condicion v in
    if iguales v.identificador nombre then some (buscada.valor, buscada ∷ vs) else resto

unfoldable pub existe_compartida :
    (List ℕ → List ℕ → Bool)
    → List VariableGlobal
    → List ℕ
    → Condicion
    → Option (ℤ × List VariableGlobal)
unfolding buscar_compartida
existe_compartida iguales vs nombre condicion = buscar_compartida iguales vs (33 ∷ nombre) condicion

unfoldable pub obtener_valor_compartida :
    (List ℕ → List ℕ → Bool)
    → List VariableGlobal
    → List ℕ
    → RespuestaCompartida × List VariableGlobal
unfolding existe_compartida
obtener_valor_compartida iguales vs nombre =
    elim (existe_compartida iguales vs nombre pedir_valor_compartida) [
      | none ↦ (compartida_inexistente, vs)
      | some (x, vs') ↦ (enviado_valor_compartida x, vs')
    ]

unfoldable pub asignar_valor_compartida :
    (List ℕ → List ℕ → Bool)
    → List VariableGlobal
    → List ℕ
    → ℤ
    → RespuestaCompartida × List VariableGlobal
unfolding existe_compartida
asignar_valor_compartida iguales vs nombre x =
    elim (existe_compartida iguales vs nombre (asignar_valor_compartida_a x)) [
      | none ↦ (compartida_inexistente, vs)
      | some (y, vs') ↦ (valor_compartida_asignado y, vs')
    ]

-- t_semaforo
pub record Semaforo : Type 0 where
  pub nombre_semaforo : List ℕ
  pub valor : ℤ

unfoldable pub existe_semaforo : (List ℕ → List ℕ → Bool) → List Semaforo → List ℕ → Option Semaforo
existe_semaforo iguales [] nombre = none
existe_semaforo iguales (s ∷ ss) nombre =
    let siguiente = existe_semaforo iguales ss nombre in
    if iguales s.nombre_semaforo nombre then some s else siguiente

-- CPU
pub record CpuConectada : Type 0 where
  pub socket : ℕ
  pub pid_en_ejecucion : ℕ
  pub quantum_acumulado : ℕ

-- cpusLibres and cpusOcupadas
pub record CpusDelKernel : Type 0 where
  pub cpus_libres : List CpuConectada
  pub cpus_ocupadas : List CpuConectada

unfoldable pub cpu_con_socket : List CpuConectada → ℕ → Option CpuConectada
cpu_con_socket [] socket = none
cpu_con_socket (c ∷ cs) socket =
    let siguiente = cpu_con_socket cs socket in if c.socket == socket then some c else siguiente

unfoldable pub buscar_cpu_by_socket : CpusDelKernel → ℕ → Option CpuConectada
unfolding cpu_con_socket
buscar_cpu_by_socket k socket = elim (cpu_con_socket k.cpus_ocupadas socket) [
  | none ↦ cpu_con_socket k.cpus_libres socket
  | some c ↦ some c
]

-- `pid` is what the new memory holds where the PID is not set.
unfoldable pub agregar_cpu_a_la_lista : CpusDelKernel → (socket pid : ℕ) → CpusDelKernel
agregar_cpu_a_la_lista k s pid = record k {
  cpus_libres =
      k.cpus_libres ++ (record { socket = s; pid_en_ejecucion = pid; quantum_acumulado = 0 } ∷ []);
}

unfoldable pub sin_cpu : List CpuConectada → ℕ → Option (List CpuConectada)
sin_cpu [] socket = none
sin_cpu (c ∷ cs) socket =
    let siguiente = (sin_cpu cs socket >>= λ r. some (c ∷ r)) in
    if c.socket == socket then some cs else siguiente

unfoldable pub remover_cpu_de_la_lista : CpusDelKernel → ℕ → CpusDelKernel
unfolding sin_cpu
remover_cpu_de_la_lista k socket = elim (sin_cpu k.cpus_libres socket) [
  | some libres ↦ record k { cpus_libres = libres }
  | none ↦ elim (sin_cpu k.cpus_ocupadas socket) [
    | some ocupadas ↦ record k { cpus_ocupadas = ocupadas }
    | none ↦ k
  ]
]
