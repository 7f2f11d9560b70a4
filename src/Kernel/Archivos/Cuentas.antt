-- ===== src/Kernel/Archivos/Cuentas.antt =====
-- The counters of the global file table: `abrirArchivo` and `cerrarArchivo` of
-- Segundo tp/kernel/src/capaFs.c.
use so_commons.Base.{
  ℕ, zero, suc, ◌+◌, ◌≤◌, ◌≡◌, ◌≢◌, ◌⊎◌, refl, sym, ap, ◌∙◌, Bool, true, false, ◌&&◌, ◌||◌, Option,
  none, some, List, [], ◌∷◌, ◌++◌, arith, ◌==◌, if◌then◌else◌, >>=-eq-some, ℤ, pos, negsuc, length,
  get_elem?, set, drop, count, All, length-append, length-set, get_elem?-set_self, get_elem?-set_ne,
  get_elem?_lt, Bool-cases, Option-cases, inl, inr, subst,
}
use so_commons.Kernel.Archivos.{
  EntradaGft, EntradaPft, TablasDeArchivos, pft_de, con_pft, obtener_fd_global, agregar_a_pft,
  abrir_archivo,
}

-- Whether an entry of a process is one for the file `fd` of the global table.
abbrev pub es_de : ℕ → EntradaPft → Bool
es_de fd e = e.global_fd == fd

-- The entries of all the processes for a file; the first three of a table are those of a new process.
unfoldable pub cuantas : ℕ → List (ℕ × List EntradaPft) → ℕ
cuantas fd [] = 0
cuantas fd ((p, es) ∷ resto) = count (es_de fd) (drop 3 es) + cuantas fd resto

abbrev pub TieneIniciales : ℕ × List EntradaPft → Type 0
TieneIniciales (p, es) = 3 ≤ length es

-- Each file of the global table counts the entries of the processes for it, and no entry is for a file past
-- the end of the table; every process has its first three entries.
pub record EsTablas (t : TablasDeArchivos) : Type 0 where
  pub cuentas :
      (fd : ℕ) (e : EntradaGft)
      → get_elem? t.global_file_table fd ≡ some e
      → e.abiertos ≡ cuantas fd t.dic_pid_pft
  pub dentro : (fd : ℕ) → length t.global_file_table ≤ fd → cuantas fd t.dic_pid_pft ≡ 0
  pub iniciales : All TieneIniciales t.dic_pid_pft

count-append :
    (fd : ℕ) (es fs : List EntradaPft)
    → count (es_de fd) (es ++ fs) ≡ count (es_de fd) es + count (es_de fd) fs
count-append fd [] fs = omega arith
count-append fd (e ∷ es) fs = ground (arith, count-append fd es fs)

count-drop-append :
    (fd n : ℕ) (es fs : List EntradaPft)
    → n ≤ length es
    → count (es_de fd) (drop n (es ++ fs)) ≡ count (es_de fd) (drop n es) + count (es_de fd) fs
count-drop-append fd zero es fs h = count-append fd es fs
count-drop-append fd (suc n) [] fs h = absurd (omega arith)
count-drop-append fd (suc n) (e ∷ es) fs h = count-drop-append fd n es fs (omega arith)

pub con_pft-iniciales :
    (dic : List (ℕ × List EntradaPft)) (pid : ℕ) (nueva : List EntradaPft)
    → All TieneIniciales dic
    → 3 ≤ length nueva
    → All TieneIniciales (con_pft dic pid nueva)
unfolding con_pft
con_pft-iniciales [] pid nueva h larga = tt
con_pft-iniciales ((p, es) ∷ resto) pid nueva (suyas, otras) larga = elim (Bool-cases (p == pid)) [
  | inl suya ↦ simp suya (larga, otras)
  | inr otra ↦ simp otra (suyas, con_pft-iniciales resto pid nueva otras larga)
]

pub pft_de-iniciales :
    (dic : List (ℕ × List EntradaPft)) (pid : ℕ) (pft : List EntradaPft)
    → All TieneIniciales dic
    → pft_de dic pid ≡ some pft
    → 3 ≤ length pft
unfolding pft_de
pft_de-iniciales [] pid pft h igual = absurd (ground arith)
pft_de-iniciales ((p, es) ∷ resto) pid pft (suyas, otras) igual = elim (Bool-cases (p == pid)) [
  | inl suya ↦ let mismas : es ≡ pft = ground arith in subst (λ xs. 3 ≤ length xs) mismas suyas
  | inr otra ↦ pft_de-iniciales resto pid pft otras (ground arith)
]

-- The change of one table of a process.
pub cuantas-con_pft :
    (fd : ℕ) (dic : List (ℕ × List EntradaPft)) (pid : ℕ) (pft nueva : List EntradaPft)
    → pft_de dic pid ≡ some pft
    → cuantas fd (con_pft dic pid nueva) + count (es_de fd) (drop 3 pft)
      ≡ cuantas fd dic + count (es_de fd) (drop 3 nueva)
unfolding cuantas con_pft pft_de
cuantas-con_pft fd [] pid pft nueva h = absurd (ground arith)
cuantas-con_pft fd ((p, es) ∷ resto) pid pft nueva h = elim (Bool-cases (p == pid)) [
  | inl suya ↦
      let igual : es ≡ pft = ground arith in
      rw suya (
        subst
          (λ xs.
            count (es_de fd) (drop 3 nueva) + cuantas fd resto + count (es_de fd) (drop 3 xs)
            ≡ count (es_de fd) (drop 3 es) + cuantas fd resto + count (es_de fd) (drop 3 nueva))
          igual (omega arith))
  | inr otra ↦
      let h' : pft_de resto pid ≡ some pft = ground arith in
      rw otra (omega (arith, cuantas-con_pft fd resto pid pft nueva h'))
]

count-uno :
    (fd : ℕ) (e : EntradaPft) → count (es_de fd) (e ∷ []) ≡ (if e.global_fd == fd then 1 else 0)
count-uno fd e = ground arith

abbrev tablas_de : TablasDeArchivos → Option (ℤ × TablasDeArchivos) → TablasDeArchivos
tablas_de t none = t
tablas_de t (some (fd, t')) = t'

-- A new entry for a file.
agregar_a_pft-cuantas :
    (t : TablasDeArchivos) (pid : ℕ) (entrada : EntradaPft) (fd : ℤ) (t' : TablasDeArchivos)
    → All TieneIniciales t.dic_pid_pft
    → agregar_a_pft t pid entrada ≡ some (fd, t')
    → (t'.global_file_table ≡ t.global_file_table)
      × (((i : ℕ)
            → cuantas i t'.dic_pid_pft
              ≡ cuantas i t.dic_pid_pft + (if entrada.global_fd == i then 1 else 0))
          × All TieneIniciales t'.dic_pid_pft)
unfolding agregar_a_pft
agregar_a_pft-cuantas t pid entrada fd t' h igual =
    let (pft, suya, hecho) =
      >>=-eq-some (pft_de t.dic_pid_pft pid)
        (λ es. some (
          pos (length es),
          record t { dic_pid_pft = con_pft t.dic_pid_pft pid (es ++ (entrada ∷ [])) },
        ))
        igual in
    let nueva : record t { dic_pid_pft = con_pft t.dic_pid_pft pid (pft ++ (entrada ∷ [])) } ≡ t' =
      ap (tablas_de t) hecho in
    let larga = pft_de-iniciales t.dic_pid_pft pid pft h suya in
    (
      sym (ap (λ u. u.global_file_table) nueva),
      (
        (λ i.
            ap (λ u. cuantas i u.dic_pid_pft) (sym nueva)
            ∙ omega (
              arith,
              cuantas-con_pft i t.dic_pid_pft pid pft (pft ++ (entrada ∷ [])) suya,
              count-drop-append i 3 pft (entrada ∷ []) larga,
              count-uno i entrada,
            )),
        subst (λ u. All TieneIniciales u.dic_pid_pft) nueva
            (con_pft-iniciales t.dic_pid_pft pid (pft ++ (entrada ∷ [])) h
              (omega (arith, larga, length-append pft (entrada ∷ [])))),
      ),
    )

get_elem?-append_uno :
    (xs : List EntradaGft) (x : EntradaGft) (i : ℕ) {e : EntradaGft}
    → get_elem? (xs ++ (x ∷ [])) i ≡ some e
    → (get_elem? xs i ≡ some e) ⊎ ((i ≡ length xs) × (x ≡ e))
get_elem?-append_uno [] x zero h = inr (refl, ground arith)
get_elem?-append_uno [] x (suc i) h = absurd (ground arith)
get_elem?-append_uno (y ∷ xs) x zero h = inl h
get_elem?-append_uno (y ∷ xs) x (suc i) h = elim (get_elem?-append_uno xs x i h) [
  | inl antes ↦ inl antes
  | inr (q, r) ↦ inr (ap suc q, r)
]

abbrev EsTablasTras : Option (ℤ × TablasDeArchivos) → Type 0
EsTablasTras none = Unit
EsTablasTras (some (fd, t)) = EsTablas t

abbrev pub abiertos_de : ℕ → Option EntradaGft → ℕ
abiertos_de n none = n
abiertos_de n (some e) = e.abiertos

-- A file that nobody had open.
abre_nueva :
    (t : TablasDeArchivos) (pid : ℕ) (nombre : List ℕ) (entrada : EntradaPft)
    → EsTablas t
    → entrada.global_fd ≡ length t.global_file_table
    → EsTablasTras (
        agregar_a_pft
          (record t {
            global_file_table =
                t.global_file_table ++ (record { nombre = nombre; abiertos = 1 } ∷ []);
          })
          pid
          entrada)
abre_nueva t pid nombre entrada h suyo =
    let nueva : EntradaGft = record { nombre = nombre; abiertos = 1 } in
    let gft = t.global_file_table ++ (nueva ∷ []) in
    let t1 = record t { global_file_table = gft } in
    elim (Option-cases (agregar_a_pft t1 pid entrada)) [
      | inl nada ↦ rw nada tt
      | inr ((fd, t'), hecho) ↦
          let (tabla, (suma, todas)) =
            agregar_a_pft-cuantas t1 pid entrada fd t' h.iniciales hecho in
          rw hecho (record {
            cuentas = λ i e q.
                elim (get_elem?-append_uno t.global_file_table nueva i
                  (ap (λ g. get_elem? g i) (sym tabla) ∙ q)) [
                    | inl antes ↦ ground (
                      arith,
                      suma i,
                      h.cuentas i e antes,
                      get_elem?_lt t.global_file_table i antes,
                    )
                    | inr (r, igual) ↦
                        ap (λ x. x.abiertos) (sym igual)
                        ∙ ground (arith, suma i, h.dentro i (omega arith))
                  ];
            iniciales = todas;
            dentro = λ i m. ground (
              arith,
              suma i,
              h.dentro i
                  (omega (arith, ap length tabla, length-append t.global_file_table (nueva ∷ []))),
              ap length tabla,
              length-append t.global_file_table (nueva ∷ []),
            );
          })
    ]

-- A file that is open.
abre_otra_vez :
    (t : TablasDeArchivos) (pid g : ℕ) (e : EntradaGft) (entrada : EntradaPft)
    → EsTablas t
    → get_elem? t.global_file_table g ≡ some e
    → entrada.global_fd ≡ g
    → EsTablasTras (
        agregar_a_pft
          (record t {
            global_file_table = set t.global_file_table g (record e { abiertos = e.abiertos + 1 });
          })
          pid
          entrada)
abre_otra_vez t pid g e entrada h esta suyo =
    let mas = record e { abiertos = e.abiertos + 1 } in
    let t1 = record t { global_file_table = set t.global_file_table g mas } in
    elim (Option-cases (agregar_a_pft t1 pid entrada)) [
      | inl nada ↦ rw nada tt
      | inr ((fd, t'), hecho) ↦
          let (tabla, (suma, todas)) =
            agregar_a_pft-cuantas t1 pid entrada fd t' h.iniciales hecho in
          let largo = ap length tabla ∙ length-set t.global_file_table g mas in
          rw hecho (record {
            cuentas = λ i x q.
                let q1 = ap (λ u. get_elem? u i) (sym tabla) ∙ q in
                elim (Bool-cases (g == i)) [
                  | inl misma ↦
                      let es : g ≡ i = ground arith in
                      let q2 : get_elem? (set t.global_file_table g mas) g ≡ some x =
                        ap (get_elem? (set t.global_file_table g mas)) es ∙ q1 in
                      let q3 =
                        sym (
                          get_elem?-set_self t.global_file_table g mas
                            (get_elem?_lt t.global_file_table g esta))
                        ∙ q2 in
                      ap (abiertos_de 0) (sym q3)
                      ∙ ground
                          (arith, suma i, h.cuentas g e esta, ap (λ j. cuantas j t.dic_pid_pft) es)
                  | inr otra ↦
                      let no_es : g ≢ i = ground arith in
                      ground (
                        arith,
                        suma i,
                        h.cuentas i x
                            (sym (get_elem?-set_ne t.global_file_table g i mas no_es) ∙ q1),
                      )
                ];
            iniciales = todas;
            dentro = λ i m. ground (
              arith,
              suma i,
              h.dentro i (omega (arith, largo)),
              get_elem?_lt t.global_file_table g esta,
              largo,
            );
          })
    ]

-- A file that is not opened.
rechazada :
    (crea : Bool) (t : TablasDeArchivos) (x y : ℤ)
    → EsTablas t
    → EsTablasTras (if crea then some (x, t) else some (y, t))
rechazada true t x y h = h
rechazada false t x y h = h

-- An opening that is answered keeps the counters right: when the file is open already, when it exists, when it is created, and
-- when it is refused.
pub abrir_archivo-EsTablas :
    (iguales : List ℕ → List ℕ → Bool) (t : TablasDeArchivos) (pid : ℕ) (archivo : List ℕ)
    (permisos : EntradaPft) (existe creado : Bool) (fd : ℤ) (t' : TablasDeArchivos)
    → EsTablas t
    → abrir_archivo iguales t pid archivo permisos existe creado ≡ some (fd, t')
    → EsTablas t'
unfolding abrir_archivo
abrir_archivo-EsTablas iguales t pid archivo permisos existe creado fd t' h igual =
    subst EsTablasTras igual
      (elim (Option-cases (obtener_fd_global iguales t.global_file_table archivo)) [
        | inl cerrado ↦ elim (Bool-cases (existe || (permisos.creacion && creado))) [
          | inl hay ↦
              simp (cerrado, hay, abrir_archivo)
                (abre_nueva t pid archivo
                  (record permisos { global_fd = length t.global_file_table; cursor = 0 }) h refl)
          | inr no_hay ↦
              simp (cerrado, no_hay, abrir_archivo)
                (rechazada permisos.creacion t (negsuc 1) (pos 0) h)
        ]
        | inr (g, abierto) ↦ elim (Option-cases (get_elem? t.global_file_table g)) [
          | inl nada ↦ simp (abierto, nada, abrir_archivo) tt
          | inr (e, esta) ↦
              simp (abierto, esta, abrir_archivo)
                (abre_otra_vez t pid g e (record permisos { global_fd = g; cursor = 0 }) h esta
                  refl)
        ]
      ])
