-- ===== src/Kernel/Colas/Corridas.antt =====
-- The moves between queues and the admission of processes as steps, and what every run of them keeps:
-- Segundo tp/kernel/src/pcbOperaciones.c and planificacion.c.
use so_commons.Base.{
  ℕ, ◌+◌, ◌≡◌, refl, ap, ◌∙◌, ◌⊎◌, inl, inr, true, List, [], ◌∷◌, ◌++◌, arith, Bool-cases, subst, ℤ,
  count, length-append,
}
use so_commons.Kernel.Colas.{
  listo, Pcb, Colas, pasar_pcb_de_nuevo_a_listos, pasar_pcb_de_nuevo_a_finalizados,
  pasar_pcb_de_listos_a_ejecutando, pasar_pcb_de_ejecutando_a_listos,
  pasar_pcb_de_bloqueado_a_listo, pasar_pcb_de_ejecutando_a_bloqueados,
  pasar_proximo_proc_de_new_a_ready, tras_pedir_paginas,
}
use so_commons.Kernel.Colas.Pasos.{
  es_pid, apariciones, en_sistema, EstadosDeColas, count-agregar, Estados-agregar, Conserva,
  rechaza-Conserva, ejecuta-Conserva, expulsa-Conserva, desbloquea-Conserva, bloquea-Conserva,
}

-- The admission of the next process with its pages, and the moves from one queue to another.
pub data Paso : Colas → Colas → Type 0 where
  admite : (c : Colas) → Paso c (pasar_proximo_proc_de_new_a_ready c true)
  rechaza : (c : Colas) (p : Pcb) (code : ℤ) → Paso c (pasar_pcb_de_nuevo_a_finalizados c p code)
  ejecuta : (c : Colas) (p : Pcb) → Paso c (pasar_pcb_de_listos_a_ejecutando c p)
  expulsa : (c : Colas) (p : Pcb) → Paso c (pasar_pcb_de_ejecutando_a_listos c p)
  desbloquea : (c : Colas) (p : Pcb) → Paso c (pasar_pcb_de_bloqueado_a_listo c p)
  bloquea : (c : Colas) (p : Pcb) → Paso c (pasar_pcb_de_ejecutando_a_bloqueados c p)

pub data Corrida : Colas → Colas → Type 0 where
  fin : (c : Colas) → Corrida c c
  paso : {c d e : Colas} → Paso c d → Corrida d e → Corrida c e

-- What a step keeps. The counter of the multiprogramming and the processes that it counts change alike.
abbrev pub Mantiene : Colas → Colas → Type 0
Mantiene c d =
    ((q : ℕ) → apariciones q d ≡ apariciones q c)
    × (d.cantidad_de_procesos_en_sistema + en_sistema c
        ≡ c.cantidad_de_procesos_en_sistema + en_sistema d)
    × (EstadosDeColas c → EstadosDeColas d)

Conserva-Mantiene : (c d : Colas) → Conserva c d → Mantiene c d
Conserva-Mantiene c d h = (h.0, omega (arith, h.1, h.2), h.3)

abbrev admitido : Colas → Pcb → List Pcb → Colas
admitido c p resto = record c {
  cola_nuevos = resto;
  cola_listos = c.cola_listos ++ (record p { estado = listo } ∷ []);
  cantidad_de_procesos_en_sistema = c.cantidad_de_procesos_en_sistema + 1;
}

admitido-Mantiene :
    (c : Colas) (p : Pcb) (resto : List Pcb)
    → c.cola_nuevos ≡ p ∷ resto
    → Mantiene c (admitido c p resto)
admitido-Mantiene c p resto h =
    let nuevo_pcb : Pcb = record p { estado = listo } in
    (
      λ q. ground (arith, ap (count (es_pid q)) h, count-agregar q c.cola_listos nuevo_pcb),
      omega (arith, length-append c.cola_listos (nuevo_pcb ∷ [])),
      λ a. (Estados-agregar listo c.cola_listos nuevo_pcb a.0 refl, a.1, a.2, a.3),
    )

nada-Mantiene : (c : Colas) → Mantiene c c
nada-Mantiene c = (λ q. refl, refl, λ a. a)

List-cases : (ps : List Pcb) → (ps ≡ []) ⊎ ((p : Pcb) × (resto : List Pcb) × (ps ≡ p ∷ resto))
List-cases [] = inl refl
List-cases (p ∷ resto) = inr (p, resto, refl)

admite-Mantiene : (c : Colas) → Mantiene c (pasar_proximo_proc_de_new_a_ready c true)
unfolding pasar_proximo_proc_de_new_a_ready tras_pedir_paginas pasar_pcb_de_nuevo_a_listos
admite-Mantiene c = elim (Bool-cases c.planificacion_activada) [
  | inl activa ↦ elim (List-cases c.cola_nuevos) [
    | inl vacia ↦
        let queda : c ≡ pasar_proximo_proc_de_new_a_ready c true = ground (arith, activa, vacia) in
        subst (Mantiene c) queda (nada-Mantiene c)
    | inr (p, resto, sigue) ↦
        let queda : admitido c p resto ≡ pasar_proximo_proc_de_new_a_ready c true =
          ground (arith, activa, sigue) in
        subst (Mantiene c) queda (admitido-Mantiene c p resto sigue)
  ]
  | inr detenida ↦
      let queda : c ≡ pasar_proximo_proc_de_new_a_ready c true = ground (arith, detenida) in
      subst (Mantiene c) queda (nada-Mantiene c)
]

Paso-Mantiene : {c d : Colas} → Paso c d → Mantiene c d
Paso-Mantiene (admite c) = admite-Mantiene c
Paso-Mantiene (rechaza c p code) =
    Conserva-Mantiene c (pasar_pcb_de_nuevo_a_finalizados c p code) (rechaza-Conserva c p code)
Paso-Mantiene (ejecuta c p) =
    Conserva-Mantiene c (pasar_pcb_de_listos_a_ejecutando c p) (ejecuta-Conserva c p)
Paso-Mantiene (expulsa c p) =
    Conserva-Mantiene c (pasar_pcb_de_ejecutando_a_listos c p) (expulsa-Conserva c p)
Paso-Mantiene (desbloquea c p) =
    Conserva-Mantiene c (pasar_pcb_de_bloqueado_a_listo c p) (desbloquea-Conserva c p)
Paso-Mantiene (bloquea c p) =
    Conserva-Mantiene c (pasar_pcb_de_ejecutando_a_bloqueados c p) (bloquea-Conserva c p)

-- Any run of admissions with their pages, of rejections out of the new queue, and of the moves between the
-- ready, running and blocked queues, with the planning on or off and of processes that are in the queue or not,
-- keeps how many times each process stands in the queues (so none is lost or doubled), and that the ready,
-- running, blocked and finished processes have the state of their queue; and it changes the counter of the
-- multiprogramming by as much as the number of ready, running and blocked processes.
pub Corrida-Mantiene : {c d : Colas} → Corrida c d → Mantiene c d
Corrida-Mantiene (fin c) = nada-Mantiene c
Corrida-Mantiene (paso s r) =
    let x = Paso-Mantiene s in
    let y = Corrida-Mantiene r in (λ q. y.0 q ∙ x.0 q, omega (arith, x.1, y.1), λ a. y.2 (x.2 a))
