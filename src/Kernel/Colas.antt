-- ===== src/Kernel/Colas.antt =====
-- The queues of processes: the moves of Segundo tp/kernel/src/pcbOperaciones.c that touch neither
-- semaphores nor files, `buscarPcbPorPID`, and the admission of Segundo tp/kernel/src/planificacion.c.
pub mod Corridas
pub mod Pasos
use so_commons.Base.{
  ℕ, ◌+◌, Bool, true, false, Option, none, some, List, [], ◌∷◌, ◌++◌, ◌==◌, if◌then◌else◌, ℤ,
  negsuc,
}

-- ESTADO_DE_PROCESO
pub data EstadoDeProceso : Type 0 where
  ejecutando listo nuevo bloqueado terminado : EstadoDeProceso

-- The fields of `t_pcb` that the moves read or set.
pub record Pcb : Type 0 where
  pub pid : ℕ
  pub estado : EstadoDeProceso
  pub exit_code : ℤ

pub record Colas : Type 0 where
  pub planificacion_activada : Bool
  pub cola_nuevos : List Pcb
  pub cola_listos : List Pcb
  pub cola_ejecutando : List Pcb
  pub cola_bloqueados : List Pcb
  pub cola_finalizados : List Pcb
  pub cantidad_de_procesos_en_sistema : ℕ

abbrev pub tras : Pcb → Option (List Pcb) → Option (List Pcb)
tras p none = none
tras p (some ps) = some (p ∷ ps)

-- The loop of every move: the first process with the PID goes out of the queue.
unfoldable pub sacar : ℕ → List Pcb → Option (List Pcb)
sacar pid [] = none
sacar pid (p ∷ ps) = let resto = tras p (sacar pid ps) in if p.pid == pid then some ps else resto

unfoldable pub en_cola : ℕ → List Pcb → Option Pcb
en_cola pid [] = none
en_cola pid (p ∷ ps) = if p.pid == pid then some p else en_cola pid ps

abbrev pub o_si_no : Option Pcb → Option Pcb → Option Pcb
o_si_no none q = q
o_si_no (some p) q = some p

-- The processes that ended are not looked at.
unfoldable pub buscar_pcb_por_pid : Colas → ℕ → Option Pcb
unfolding en_cola
buscar_pcb_por_pid c pid = o_si_no (en_cola pid c.cola_listos) (
    o_si_no (en_cola pid c.cola_ejecutando)
      (o_si_no (en_cola pid c.cola_bloqueados) (en_cola pid c.cola_nuevos)))

-- `planificacionActivada`: a move with the planning stopped does nothing.
abbrev pub si_planifica : Colas → Colas → Colas
si_planifica c d = if c.planificacion_activada then d else c

-- The queue `colaNuevos` is not read.
unfoldable pub pasar_pcb_de_nuevo_a_listos : Colas → Pcb → Colas
pasar_pcb_de_nuevo_a_listos c p = si_planifica c (record c {
  cola_listos = c.cola_listos ++ (record p { estado = listo } ∷ []);
  cantidad_de_procesos_en_sistema = c.cantidad_de_procesos_en_sistema + 1;
})

unfoldable pub pasar_pcb_de_nuevo_a_finalizados : Colas → Pcb → ℤ → Colas
unfolding sacar
pasar_pcb_de_nuevo_a_finalizados c p code = si_planifica c (elim (sacar p.pid c.cola_nuevos) [
  | none ↦ c
  | some resto ↦ record c {
    cola_nuevos = resto;
    cola_finalizados =
        c.cola_finalizados ++ (record p { estado = terminado; exit_code = code } ∷ []);
  }
])

unfoldable pub pasar_pcb_de_listos_a_ejecutando : Colas → Pcb → Colas
unfolding sacar
pasar_pcb_de_listos_a_ejecutando c p = si_planifica c (elim (sacar p.pid c.cola_listos) [
  | none ↦ c
  | some resto ↦ record c {
    cola_listos = resto;
    cola_ejecutando = c.cola_ejecutando ++ (record p { estado = ejecutando } ∷ []);
  }
])

unfoldable pub pasar_pcb_de_ejecutando_a_listos : Colas → Pcb → Colas
unfolding sacar
pasar_pcb_de_ejecutando_a_listos c p = si_planifica c (elim (sacar p.pid c.cola_ejecutando) [
  | none ↦ c
  | some resto ↦ record c {
    cola_ejecutando = resto;
    cola_listos = c.cola_listos ++ (record p { estado = listo } ∷ []);
  }
])

unfoldable pub pasar_pcb_de_bloqueado_a_listo : Colas → Pcb → Colas
unfolding sacar
pasar_pcb_de_bloqueado_a_listo c p = si_planifica c (elim (sacar p.pid c.cola_bloqueados) [
  | none ↦ c
  | some resto ↦ record c {
    cola_bloqueados = resto;
    cola_listos = c.cola_listos ++ (record p { estado = listo } ∷ []);
  }
])

unfoldable pub pasar_pcb_de_ejecutando_a_bloqueados : Colas → Pcb → Colas
unfolding sacar
pasar_pcb_de_ejecutando_a_bloqueados c p = si_planifica c (elim (sacar p.pid c.cola_ejecutando) [
  | none ↦ c
  | some resto ↦ record c {
    cola_ejecutando = resto;
    cola_bloqueados = c.cola_bloqueados ++ (record p { estado = bloqueado } ∷ []);
  }
])

-- The end of `pasarProximoProcDeNewAReady`, for a process that is out of its queue; `asignadas` is whether memory
-- gave the initial pages. NO_SE_PUDO_ASIGNAR_RECURSO is -1.
unfoldable pub tras_pedir_paginas : Colas → Pcb → (asignadas : Bool) → Colas
unfolding pasar_pcb_de_nuevo_a_listos pasar_pcb_de_nuevo_a_finalizados
tras_pedir_paginas c p asignadas =
    if asignadas
    then pasar_pcb_de_nuevo_a_listos c p
    else pasar_pcb_de_nuevo_a_finalizados c p (negsuc 0)

-- The start takes the process out.
unfoldable pub pasar_proximo_proc_de_new_a_ready : Colas → (asignadas : Bool) → Colas
unfolding tras_pedir_paginas
pasar_proximo_proc_de_new_a_ready c asignadas = si_planifica c (elim c.cola_nuevos [
  | [] ↦ c
  | p ∷ resto ↦ tras_pedir_paginas (record c { cola_nuevos = resto }) p asignadas
])
