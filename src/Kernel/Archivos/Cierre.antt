-- ===== src/Kernel/Archivos/Cierre.antt =====
-- The closing of a file: `cerrarArchivo` of Segundo tp/kernel/src/capaFs.c.
use so_commons.Base.{
  ℕ, zero, suc, ◌+◌, ◌-◌, ◌≤◌, ◌<◌, ◌≡◌, ◌≢◌, refl, sym, ap, ◌∙◌, true, some, List, [], ◌∷◌, arith,
  ltb, ◌==◌, if◌then◌else◌, length, get_elem?, set, drop, count, length-set, get_elem?-set_self,
  get_elem?-set_ne, get_elem?_lt, Bool-cases, inl, inr, subst,
}
use so_commons.Kernel.Archivos.{
  EntradaGft, EntradaPft, TablasDeArchivos, pft_de, con_pft, sin_elemento, descontar,
  cerrar_archivo,
}
use so_commons.Kernel.Archivos.Cuentas.{
  es_de, cuantas, EsTablas, cuantas-con_pft, con_pft-iniciales, pft_de-iniciales, abiertos_de,
}

-- An entry that is taken out after the first `n`.
count-sin_elemento :
    (fd n d : ℕ) (es : List EntradaPft) (e : EntradaPft)
    → n ≤ d
    → get_elem? es d ≡ some e
    → count (es_de fd) (drop n es)
      ≡ count (es_de fd) (drop n (sin_elemento es d)) + (if e.global_fd == fd then 1 else 0)
unfolding sin_elemento
count-sin_elemento fd n d [] e h esta = absurd (ground arith)
count-sin_elemento fd zero zero (x ∷ es) e h esta =
    let igual : x ≡ e = ground arith in
    subst
      (λ y. count (es_de fd) (x ∷ es) ≡ count (es_de fd) es + (if y.global_fd == fd then 1 else 0))
      igual (ground arith)
count-sin_elemento fd zero (suc d) (x ∷ es) e h esta =
    ground (arith, count-sin_elemento fd 0 d es e (omega arith) esta)
count-sin_elemento fd (suc n) zero (x ∷ es) e h esta = absurd (omega arith)
count-sin_elemento fd (suc n) (suc d) (x ∷ es) e h esta =
    count-sin_elemento fd n d es e (omega arith) esta

sin_elemento-iniciales :
    (es : List EntradaPft) (d n : ℕ) → n ≤ d → n ≤ length es → n ≤ length (sin_elemento es d)
unfolding sin_elemento
sin_elemento-iniciales [] d zero m h = omega arith
sin_elemento-iniciales [] d (suc n) m h = absurd (omega arith)
sin_elemento-iniciales (x ∷ es) d zero m h = omega arith
sin_elemento-iniciales (x ∷ es) zero (suc n) m h = absurd (omega arith)
sin_elemento-iniciales (x ∷ es) (suc d) (suc n) m h =
    omega (arith, sin_elemento-iniciales es d n (omega arith) (omega arith))

descontar-varios :
    (gft : List EntradaGft) (fd : ℕ) (e : EntradaGft)
    → get_elem? gft fd ≡ some e
    → 1 < e.abiertos
    → descontar gft fd ≡ some (set gft fd (record e { abiertos = e.abiertos - 1 }))
unfolding descontar
descontar-varios gft fd e esta mas =
    let varios : ltb 1 e.abiertos ≡ true = ground arith in rw (esta, descontar) (rw varios refl)

-- With more than one opening of the file, the closing of a descriptor past the first three answers that it is done
-- and keeps the counters right.
pub cerrar_archivo-EsTablas :
    (t : TablasDeArchivos) (pid descriptor : ℕ) (pft : List EntradaPft) (entrada : EntradaPft)
    (e : EntradaGft)
    → EsTablas t
    → pft_de t.dic_pid_pft pid ≡ some pft
    → 3 ≤ descriptor
    → get_elem? pft descriptor ≡ some entrada
    → get_elem? t.global_file_table entrada.global_fd ≡ some e
    → 1 < e.abiertos
    → (t' : TablasDeArchivos) × (cerrar_archivo t pid descriptor ≡ some (true, t')) × EsTablas t'
unfolding cerrar_archivo
cerrar_archivo-EsTablas t pid descriptor pft entrada e h suya propio esta global mas =
    let menos = record e { abiertos = e.abiertos - 1 } in
    let gft = set t.global_file_table entrada.global_fd menos in
    let largo = length-set t.global_file_table entrada.global_fd menos in
    let suma : (i : ℕ)
        → cuantas i (con_pft t.dic_pid_pft pid (sin_elemento pft descriptor))
            + (if entrada.global_fd == i then 1 else 0)
          ≡ cuantas i t.dic_pid_pft =
      λ i. omega (
        arith,
        cuantas-con_pft i t.dic_pid_pft pid pft (sin_elemento pft descriptor) suya,
        count-sin_elemento i 3 descriptor pft entrada propio esta,
      ) in
    (
      record {
        global_file_table = gft;
        dic_pid_pft = con_pft t.dic_pid_pft pid (sin_elemento pft descriptor);
      },
      ground
          (arith, suya, esta, descontar-varios t.global_file_table entrada.global_fd e global mas),
      record {
        cuentas = λ i x q. elim (Bool-cases (entrada.global_fd == i)) [
          | inl misma ↦
              let es : entrada.global_fd ≡ i = ground arith in
              let q2 =
                sym (
                  get_elem?-set_self t.global_file_table entrada.global_fd menos
                    (get_elem?_lt t.global_file_table entrada.global_fd global))
                ∙ ap (get_elem? gft) es
                ∙ q in
              ap (abiertos_de 0) (sym q2)
              ∙ ground (
                arith,
                suma i,
                h.cuentas entrada.global_fd e global,
                ap (λ j. cuantas j t.dic_pid_pft) es,
              )
          | inr otra ↦
              let no_es : entrada.global_fd ≢ i = ground arith in
              ground (
                arith,
                suma i,
                h.cuentas i x (
                    sym (get_elem?-set_ne t.global_file_table entrada.global_fd i menos no_es) ∙ q),
              )
        ];
        dentro = λ i m. omega (arith, suma i, h.dentro i (omega (arith, largo)));
        iniciales = con_pft-iniciales t.dic_pid_pft pid (sin_elemento pft descriptor) h.iniciales (
            sin_elemento-iniciales pft descriptor 3 propio
              (pft_de-iniciales t.dic_pid_pft pid pft h.iniciales suya));
      },
    )
