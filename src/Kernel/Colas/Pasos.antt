-- ===== src/Kernel/Colas/Pasos.antt =====
-- What a move of Segundo tp/kernel/src/pcbOperaciones.c from one queue to another keeps.
use so_commons.Base.{
  ℕ, ◌+◌, ◌≡◌, refl, ap, inl, inr, Bool, true, false, Option, none, some, List, [], ◌∷◌, ◌++◌,
  arith, ◌==◌, if◌then◌else◌, Option-cases, Bool-cases, subst, ℤ, count, length, All, length-append,
}
use so_commons.Kernel.Colas.{
  EstadoDeProceso, ejecutando, listo, bloqueado, terminado, Pcb, Colas, sacar,
  pasar_pcb_de_nuevo_a_finalizados, pasar_pcb_de_listos_a_ejecutando,
  pasar_pcb_de_ejecutando_a_listos, pasar_pcb_de_bloqueado_a_listo,
  pasar_pcb_de_ejecutando_a_bloqueados,
}

abbrev pub es_pid : ℕ → Pcb → Bool
es_pid pid p = p.pid == pid

-- How many times a process stands in the queues.
abbrev pub apariciones : ℕ → Colas → ℕ
apariciones q c =
    count (es_pid q) c.cola_nuevos
    + count (es_pid q) c.cola_listos
    + count (es_pid q) c.cola_ejecutando
    + count (es_pid q) c.cola_bloqueados
    + count (es_pid q) c.cola_finalizados

-- The processes that the multiprogramming counts.
abbrev pub en_sistema : Colas → ℕ
en_sistema c = length c.cola_listos + length c.cola_ejecutando + length c.cola_bloqueados

-- A process of a queue has the state of the queue.
abbrev pub Estados : EstadoDeProceso → List Pcb → Type 0
Estados e = All (λ p. p.estado ≡ e)

abbrev pub EstadosDeColas : Colas → Type 0
EstadosDeColas c =
    Estados listo c.cola_listos
    × Estados ejecutando c.cola_ejecutando
    × Estados bloqueado c.cola_bloqueados
    × Estados terminado c.cola_finalizados

sacar_lem :
    (pid : ℕ) (ps : List Pcb) {resto : List Pcb}
    → sacar pid ps ≡ some resto
    → ((q : ℕ) → count (es_pid q) ps ≡ (if pid == q then 1 else 0) + count (es_pid q) resto)
      × (length ps ≡ length resto + 1)
      × ((e : EstadoDeProceso) → Estados e ps → Estados e resto)
unfolding sacar
sacar_lem pid [] h = absurd (ground arith)
sacar_lem pid (p ∷ ps) {resto} h = elim (Bool-cases (p.pid == pid)) [
  | inl t ↦
      let igual : ps ≡ resto = ground arith in
      (
        λ q. ground (arith, ap (count (es_pid q)) igual, t),
        omega (arith, ap length igual),
        λ e a. subst (Estados e) igual a.1,
      )
  | inr t ↦ elim (Option-cases (sacar pid ps)) [
    | inl e ↦ absurd (ground arith)
    | inr (xs, e) ↦
        let i = sacar_lem pid ps e in
        let igual : p ∷ xs ≡ resto = ground arith in
        (
          λ q. ground (arith, ap (count (es_pid q)) igual, i.0 q),
          omega (arith, ap length igual, i.1),
          λ s a. subst (Estados s) igual (a.0, i.2 s a.1),
        )
  ]
]

pub count-agregar :
    (q : ℕ) (ps : List Pcb) (p : Pcb)
    → count (es_pid q) (ps ++ (p ∷ [])) ≡ count (es_pid q) ps + (if p.pid == q then 1 else 0)
count-agregar q [] p = ground arith
count-agregar q (x ∷ ps) p = ground (arith, count-agregar q ps p)

pub Estados-agregar :
    (e : EstadoDeProceso) (ps : List Pcb) (p : Pcb)
    → Estados e ps
    → p.estado ≡ e
    → Estados e (ps ++ (p ∷ []))
Estados-agregar e [] p a h = (h, tt)
Estados-agregar e (x ∷ ps) p a h = (a.0, Estados-agregar e ps p a.1 h)

-- What a move keeps.
abbrev pub Conserva : Colas → Colas → Type 0
Conserva c d =
    ((q : ℕ) → apariciones q d ≡ apariciones q c)
    × (en_sistema d ≡ en_sistema c)
    × (d.cantidad_de_procesos_en_sistema ≡ c.cantidad_de_procesos_en_sistema)
    × (EstadosDeColas c → EstadosDeColas d)

Conserva-refl : (c : Colas) → Conserva c c
Conserva-refl c = (λ q. refl, refl, refl, λ a. a)

elegir-Conserva : (b : Bool) (c d : Colas) → Conserva c d → Conserva c (if b then d else c)
elegir-Conserva true c d h = h
elegir-Conserva false c d h = Conserva-refl c

pub rechaza-Conserva :
    (c : Colas) (p : Pcb) (code : ℤ) → Conserva c (pasar_pcb_de_nuevo_a_finalizados c p code)
unfolding pasar_pcb_de_nuevo_a_finalizados
rechaza-Conserva c p code =
    elegir-Conserva c.planificacion_activada c _ (go (sacar p.pid c.cola_nuevos) refl)
  where
    go :
        (o : Option (List Pcb))
        → sacar p.pid c.cola_nuevos ≡ o
        → Conserva c (elim o [
          | none ↦ c
          | some resto ↦ record c {
            cola_nuevos = resto;
            cola_finalizados =
                c.cola_finalizados ++ (record p { estado = terminado; exit_code = code } ∷ []);
          }
        ])
    go none e = Conserva-refl c
    go (some resto) e =
        let s = sacar_lem p.pid c.cola_nuevos e in
        let nuevo_pcb : Pcb = record p { estado = terminado; exit_code = code } in
        (
          λ q. omega (arith, s.0 q, count-agregar q c.cola_finalizados nuevo_pcb),
          refl,
          refl,
          λ a. (a.0, a.1, a.2, Estados-agregar terminado c.cola_finalizados nuevo_pcb a.3 refl),
        )

pub ejecuta-Conserva : (c : Colas) (p : Pcb) → Conserva c (pasar_pcb_de_listos_a_ejecutando c p)
unfolding pasar_pcb_de_listos_a_ejecutando
ejecuta-Conserva c p =
    elegir-Conserva c.planificacion_activada c _ (go (sacar p.pid c.cola_listos) refl)
  where
    go :
        (o : Option (List Pcb))
        → sacar p.pid c.cola_listos ≡ o
        → Conserva c (elim o [
          | none ↦ c
          | some resto ↦ record c {
            cola_listos = resto;
            cola_ejecutando = c.cola_ejecutando ++ (record p { estado = ejecutando } ∷ []);
          }
        ])
    go none e = Conserva-refl c
    go (some resto) e =
        let s = sacar_lem p.pid c.cola_listos e in
        let nuevo_pcb : Pcb = record p { estado = ejecutando } in
        (
          λ q. omega (arith, s.0 q, count-agregar q c.cola_ejecutando nuevo_pcb),
          omega (arith, s.1, length-append c.cola_ejecutando (nuevo_pcb ∷ [])),
          refl,
          λ a. (
            s.2 listo a.0,
            Estados-agregar ejecutando c.cola_ejecutando nuevo_pcb a.1 refl,
            a.2,
            a.3,
          ),
        )

pub expulsa-Conserva : (c : Colas) (p : Pcb) → Conserva c (pasar_pcb_de_ejecutando_a_listos c p)
unfolding pasar_pcb_de_ejecutando_a_listos
expulsa-Conserva c p =
    elegir-Conserva c.planificacion_activada c _ (go (sacar p.pid c.cola_ejecutando) refl)
  where
    go :
        (o : Option (List Pcb))
        → sacar p.pid c.cola_ejecutando ≡ o
        → Conserva c (elim o [
          | none ↦ c
          | some resto ↦ record c {
            cola_ejecutando = resto;
            cola_listos = c.cola_listos ++ (record p { estado = listo } ∷ []);
          }
        ])
    go none e = Conserva-refl c
    go (some resto) e =
        let s = sacar_lem p.pid c.cola_ejecutando e in
        let nuevo_pcb : Pcb = record p { estado = listo } in
        (
          λ q. omega (arith, s.0 q, count-agregar q c.cola_listos nuevo_pcb),
          omega (arith, s.1, length-append c.cola_listos (nuevo_pcb ∷ [])),
          refl,
          λ a. (
            Estados-agregar listo c.cola_listos nuevo_pcb a.0 refl,
            s.2 ejecutando a.1,
            a.2,
            a.3,
          ),
        )

pub desbloquea-Conserva : (c : Colas) (p : Pcb) → Conserva c (pasar_pcb_de_bloqueado_a_listo c p)
unfolding pasar_pcb_de_bloqueado_a_listo
desbloquea-Conserva c p =
    elegir-Conserva c.planificacion_activada c _ (go (sacar p.pid c.cola_bloqueados) refl)
  where
    go :
        (o : Option (List Pcb))
        → sacar p.pid c.cola_bloqueados ≡ o
        → Conserva c (elim o [
          | none ↦ c
          | some resto ↦ record c {
            cola_bloqueados = resto;
            cola_listos = c.cola_listos ++ (record p { estado = listo } ∷ []);
          }
        ])
    go none e = Conserva-refl c
    go (some resto) e =
        let s = sacar_lem p.pid c.cola_bloqueados e in
        let nuevo_pcb : Pcb = record p { estado = listo } in
        (
          λ q. omega (arith, s.0 q, count-agregar q c.cola_listos nuevo_pcb),
          omega (arith, s.1, length-append c.cola_listos (nuevo_pcb ∷ [])),
          refl,
          λ a.
              (Estados-agregar listo c.cola_listos nuevo_pcb a.0 refl, a.1, s.2 bloqueado a.2, a.3),
        )

pub bloquea-Conserva : (c : Colas) (p : Pcb) → Conserva c (pasar_pcb_de_ejecutando_a_bloqueados c p)
unfolding pasar_pcb_de_ejecutando_a_bloqueados
bloquea-Conserva c p =
    elegir-Conserva c.planificacion_activada c _ (go (sacar p.pid c.cola_ejecutando) refl)
  where
    go :
        (o : Option (List Pcb))
        → sacar p.pid c.cola_ejecutando ≡ o
        → Conserva c (elim o [
          | none ↦ c
          | some resto ↦ record c {
            cola_ejecutando = resto;
            cola_bloqueados = c.cola_bloqueados ++ (record p { estado = bloqueado } ∷ []);
          }
        ])
    go none e = Conserva-refl c
    go (some resto) e =
        let s = sacar_lem p.pid c.cola_ejecutando e in
        let nuevo_pcb : Pcb = record p { estado = bloqueado } in
        (
          λ q. omega (arith, s.0 q, count-agregar q c.cola_bloqueados nuevo_pcb),
          omega (arith, s.1, length-append c.cola_bloqueados (nuevo_pcb ∷ [])),
          refl,
          λ a. (
            a.0,
            s.2 ejecutando a.1,
            Estados-agregar bloqueado c.cola_bloqueados nuevo_pcb a.2 refl,
            a.3,
          ),
        )
