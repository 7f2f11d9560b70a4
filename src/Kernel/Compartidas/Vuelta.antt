-- ===== src/Kernel/Compartidas/Vuelta.antt =====
-- The values of the shared variables: Segundo tp/kernel/src/conexionesKernelCpu.c.
use so_commons.Base.{
  ℕ, ◌≡◌, refl, sym, ◌∙◌, Bool, Option, none, some, List, [], ◌∷◌, ◌++◌, arith, ◌==◌, ℤ, Bool-cases,
  Option-cases, inl, inr, subst,
}
use so_commons.Kernel.Compartidas.{
  VariableGlobal, pedir_valor_compartida, asignar_valor_compartida_a, enviado_valor_compartida,
  valor_compartida_asignado, tras_condicion, buscar_compartida, existe_compartida,
  obtener_valor_compartida, asignar_valor_compartida, CpuConectada, CpusDelKernel, cpu_con_socket,
  sin_cpu, buscar_cpu_by_socket, agregar_cpu_a_la_lista, remover_cpu_de_la_lista,
}

-- The value that a search after an assignment brings.
abbrev AsignadaTras :
    (List ℕ → List ℕ → Bool) → List ℕ → ℤ → Option (ℤ × List VariableGlobal) → Type 0
AsignadaTras iguales nombre x none = Unit
AsignadaTras iguales nombre x (some (y, vs)) =
    (y ≡ x) × (buscar_compartida iguales vs nombre pedir_valor_compartida ≡ some (x, vs))

buscar_compartida-Asignada :
    (iguales : List ℕ → List ℕ → Bool) (vs : List VariableGlobal) (nombre : List ℕ) (x : ℤ)
    → AsignadaTras iguales nombre x
        (buscar_compartida iguales vs nombre (asignar_valor_compartida_a x))
unfolding buscar_compartida tras_condicion
buscar_compartida-Asignada iguales [] nombre x = tt
buscar_compartida-Asignada iguales (v ∷ vs) nombre x =
    elim (Bool-cases (iguales v.identificador nombre)) [
      | inl es ↦ simp es (refl, refl)
      | inr otra ↦
          elim (Option-cases (buscar_compartida iguales vs nombre (asignar_valor_compartida_a x))) [
            | inl nada ↦ simp (otra, nada) tt
            | inr ((y, vs'), hay) ↦
                let (igual, leida) =
                  subst (AsignadaTras iguales nombre x) hay
                    (buscar_compartida-Asignada iguales vs nombre x) in
                simp (otra, hay) (igual, ground (arith, otra, leida))
          ]
    ]

-- A shared variable that is assigned is answered with the value, and a later request for it is answered with that
-- value and changes nothing.
pub obtener-asignar :
    (iguales : List ℕ → List ℕ → Bool) (vs vs' : List VariableGlobal) (nombre : List ℕ) (x y : ℤ)
    → asignar_valor_compartida iguales vs nombre x ≡ (valor_compartida_asignado y, vs')
    → (y ≡ x) × (obtener_valor_compartida iguales vs' nombre ≡ (enviado_valor_compartida x, vs'))
unfolding obtener_valor_compartida asignar_valor_compartida existe_compartida
obtener-asignar iguales vs vs' nombre x y h =
    elim (Option-cases
      (buscar_compartida iguales vs (33 ∷ nombre) (asignar_valor_compartida_a x))) [
        | inl nada ↦ absurd (ground (arith, nada))
        | inr ((z, ws), hay) ↦
            let (igual, leida) =
              subst (AsignadaTras iguales (33 ∷ nombre) x) hay
                (buscar_compartida-Asignada iguales vs (33 ∷ nombre) x) in
            let mismo : z ≡ y = ground (arith, hay) in
            let mismas : ws ≡ vs' = ground (arith, hay) in
            (
              sym mismo ∙ igual,
              subst
                  (λ us.
                    obtener_valor_compartida iguales us nombre ≡ (enviado_valor_compartida x, us))
                  mismas (ground (arith, leida)),
            )
      ]

sin_cpu-append :
    (cs : List CpuConectada) (c : CpuConectada)
    → cpu_con_socket cs c.socket ≡ none
    → sin_cpu (cs ++ (c ∷ [])) c.socket ≡ some cs
unfolding sin_cpu cpu_con_socket
sin_cpu-append [] c h = ground arith
sin_cpu-append (d ∷ cs) c h = elim (Bool-cases (d.socket == c.socket)) [
  | inl es ↦ absurd (ground arith)
  | inr otra ↦
      let h' : cpu_con_socket cs c.socket ≡ none = ground arith in
      ground (arith, otra, sin_cpu-append cs c h')
]

-- A CPU that connects with a socket that no CPU has and is then removed leaves both lists as they were.
pub remover-agregar_cpu :
    (k : CpusDelKernel) (socket pid : ℕ)
    → buscar_cpu_by_socket k socket ≡ none
    → remover_cpu_de_la_lista (agregar_cpu_a_la_lista k socket pid) socket ≡ k
unfolding remover_cpu_de_la_lista agregar_cpu_a_la_lista buscar_cpu_by_socket
remover-agregar_cpu k s pid h =
    let nadie : cpu_con_socket k.cpus_libres s ≡ none = ground arith in
    rw
      (
        remover_cpu_de_la_lista,
        sin_cpu-append k.cpus_libres
            (record { socket = s; pid_en_ejecucion = pid; quantum_acumulado = 0 }) nadie,
      )
      refl
