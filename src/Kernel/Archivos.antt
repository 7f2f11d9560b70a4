-- ===== src/Kernel/Archivos.antt =====
-- The open files of the processes: Segundo tp/kernel/src/capaFs.c, and
-- `checkSiDejoArchivosAbiertos` of planificacion.c. The answers of the
-- filesystem and of the console are arguments. Descriptors and cursors are naturals, and the counters of
-- system calls are left out. The first three entries of a process are values like the others.
pub mod Cierre
pub mod Cuentas
use so_commons.Base.{
  ℕ, zero, suc, ◌+◌, ◌-◌, Bool, true, false, ◌&&◌, ◌||◌, Option, none, some, List, [], ◌∷◌, ◌++◌,
  ltb, leb, ◌==◌, if◌then◌else◌, ◌>>=◌, ℤ, pos, negsuc, length, get_elem?, set, take, drop,
}
use so_commons.Fs.{RespuestaFs, existe_archivo, archivo_creado_con_exito}

-- entrada_gft: an entry of the global file table.
pub record EntradaGft : Type 0 where
  pub nombre : List ℕ
  pub abiertos : ℕ

-- entrada_pft: an entry of the file table of a process; its flags by letter.
pub record EntradaPft : Type 0 where
  pub cursor : ℕ
  pub global_fd : ℕ
  pub creacion : Bool
  pub escritura : Bool
  pub lectura : Bool

-- globalFileTable and dicPID_PFT.
pub record TablasDeArchivos : Type 0 where
  pub global_file_table : List EntradaGft
  pub dic_pid_pft : List (ℕ × List EntradaPft)

-- The answers to the CPU.
pub data AlCpuArchivo : Type 0 where
  archivo_invalido : AlCpuArchivo
  espacio_insuficiente_en_fs : AlCpuArchivo
  permiso_archivo_invalido : AlCpuArchivo
  apertura_exitosa : (descriptor : ℤ) → AlCpuArchivo
  borrado_exitoso : AlCpuArchivo
  borrado_erroneo : AlCpuArchivo
  cerrado_exitoso : AlCpuArchivo
  mover_cursor_exitoso : AlCpuArchivo
  escritura_exitosa : AlCpuArchivo
  lectura_exitosa : AlCpuArchivo

unfoldable pub pft_de : List (ℕ × List EntradaPft) → ℕ → Option (List EntradaPft)
pft_de [] pid = none
pft_de ((p, es) ∷ resto) pid =
    let siguiente = pft_de resto pid in if p == pid then some es else siguiente

-- The change of the table of a process, in place.
unfoldable pub con_pft :
    List (ℕ × List EntradaPft) → ℕ → List EntradaPft → List (ℕ × List EntradaPft)
con_pft [] pid nueva = []
con_pft ((p, es) ∷ resto) pid nueva =
    let siguiente = con_pft resto pid nueva in
    if p == pid then (p, nueva) ∷ resto else (p, es) ∷ siguiente

-- `list_remove`.
unfoldable pub sin_elemento {ℓ} : {A : Type ℓ} → List A → ℕ → List A
sin_elemento xs i = take i xs ++ drop (suc i) xs

-- `iguales` is `string_equals_ignore_case`.
unfoldable pub obtener_fd_global : (List ℕ → List ℕ → Bool) → List EntradaGft → List ℕ → Option ℕ
obtener_fd_global iguales [] archivo = none
obtener_fd_global iguales (e ∷ es) archivo =
    let siguiente = (obtener_fd_global iguales es archivo >>= λ i. some (suc i)) in
    if iguales archivo e.nombre then some 0 else siguiente

-- The entry of a process for a file, with the descriptor that it gets.
unfoldable pub agregar_a_pft : TablasDeArchivos → ℕ → EntradaPft → Option (ℤ × TablasDeArchivos)
unfolding pft_de con_pft
agregar_a_pft t pid entrada = pft_de t.dic_pid_pft pid >>= λ pft.
    some (
      pos (length pft),
      record t { dic_pid_pft = con_pft t.dic_pid_pft pid (pft ++ (entrada ∷ [])) },
    )

-- `existe` and `creado` are the answers of the filesystem to `existeArchivo` and `crearArchivo`. The
-- NULL of a file that cannot be opened is the descriptor 0.
unfoldable pub abrir_archivo :
    (List ℕ → List ℕ → Bool)
    → TablasDeArchivos
    → ℕ
    → List ℕ
    → (permisos : EntradaPft) → (existe creado : Bool) → Option (ℤ × TablasDeArchivos)
unfolding obtener_fd_global agregar_a_pft
abrir_archivo iguales t pid archivo permisos existe creado =
    elim (obtener_fd_global iguales t.global_file_table archivo) [
      | none ↦
          if existe || (permisos.creacion && creado)
          then agregar_a_pft
              (record t {
                global_file_table =
                    t.global_file_table ++ (record { nombre = archivo; abiertos = 1 } ∷ []);
              })
              pid (record permisos { global_fd = length t.global_file_table; cursor = 0 })
          else if permisos.creacion
          then some (negsuc 1, t)
          else some (pos 0, t)
      | some fd ↦ get_elem? t.global_file_table fd >>= λ e.
          agregar_a_pft
            (record t {
              global_file_table =
                  set t.global_file_table fd (record e { abiertos = e.abiertos + 1 });
            })
            pid (record permisos { global_fd = fd; cursor = 0 })
    ]

-- What `existeArchivo` answers after the answer of the filesystem.
unfoldable pub valida_archivo : RespuestaFs → Bool
valida_archivo existe_archivo = true
valida_archivo _ = false

-- What `crearArchivo` answers after the answer of the filesystem.
unfoldable pub crear_archivo_en_fs : RespuestaFs → Bool
crear_archivo_en_fs archivo_creado_con_exito = true
crear_archivo_en_fs _ = false

unfoldable pub pedido_abrir_archivo :
    (List ℕ → List ℕ → Bool)
    → TablasDeArchivos
    → ℕ
    → List ℕ
    → (permisos : EntradaPft) → (validacion creacion : RespuestaFs)
    → Option (AlCpuArchivo × TablasDeArchivos)
unfolding abrir_archivo valida_archivo crear_archivo_en_fs
pedido_abrir_archivo iguales t pid archivo permisos validacion creacion =
    abrir_archivo iguales t pid archivo permisos (valida_archivo validacion)
      (crear_archivo_en_fs creacion)
    >>= λ (fd, t'). some (
      elim fd [
        | pos n ↦ if n == 0 then archivo_invalido else apertura_exitosa (pos n)
        | negsuc n ↦ if n == 1 then espacio_insuficiente_en_fs else apertura_exitosa (negsuc n)
      ],
      t',
    )

-- The name of the file to delete, when one entry has it open.
unfoldable pub nombre_a_borrar : TablasDeArchivos → ℕ → ℕ → Option (Option (List ℕ))
unfolding pft_de
nombre_a_borrar t pid descriptor = elim (pft_de t.dic_pid_pft pid) [
  | none ↦ some none
  | some pft ↦ elim (get_elem? pft descriptor) [
    | none ↦ some none
    | some entrada ↦ get_elem? t.global_file_table entrada.global_fd >>= λ e.
        some (if e.abiertos == 1 then some e.nombre else none)
  ]
]

-- `borrado_ok` is the answer of the filesystem. The tables do not change.
unfoldable pub pedido_borrar_archivo :
    TablasDeArchivos → ℕ → ℕ → (borrado_ok : Bool) → Option AlCpuArchivo
unfolding nombre_a_borrar
pedido_borrar_archivo t pid descriptor borrado_ok = nombre_a_borrar t pid descriptor >>= λ nombre.
    some (elim nombre [
      | none ↦ borrado_erroneo
      | some n ↦ if borrado_ok then borrado_exitoso else borrado_erroneo
    ])

-- The count of an entry of the global table after one file less, or the table without it.
unfoldable pub descontar : List EntradaGft → ℕ → Option (List EntradaGft)
unfolding sin_elemento
descontar gft fd = get_elem? gft fd >>= λ e. some (
    if ltb 1 e.abiertos
    then set gft fd (record e { abiertos = e.abiertos - 1 })
    else sin_elemento gft fd)

unfoldable pub check_si_dejo_archivos_abiertos_desde :
    List EntradaGft → List EntradaPft → Option (List EntradaGft)
unfolding descontar
check_si_dejo_archivos_abiertos_desde gft [] = some gft
check_si_dejo_archivos_abiertos_desde gft (e ∷ es) =
    descontar gft e.global_fd >>= λ gft'. check_si_dejo_archivos_abiertos_desde gft' es

-- The table of the process stays.
unfoldable pub check_si_dejo_archivos_abiertos : TablasDeArchivos → ℕ → Option TablasDeArchivos
unfolding pft_de check_si_dejo_archivos_abiertos_desde
check_si_dejo_archivos_abiertos t pid = pft_de t.dic_pid_pft pid >>= λ pft.
    check_si_dejo_archivos_abiertos_desde t.global_file_table (drop 3 pft) >>= λ gft.
    some (record t { global_file_table = gft })

-- A process with no table faults.
unfoldable pub cerrar_archivo : TablasDeArchivos → ℕ → ℕ → Option (Bool × TablasDeArchivos)
unfolding pft_de con_pft descontar sin_elemento
cerrar_archivo t pid descriptor = pft_de t.dic_pid_pft pid >>= λ pft.
    elim (get_elem? pft descriptor) [
      | none ↦ some (false, t)
      | some entrada ↦ descontar t.global_file_table entrada.global_fd >>= λ gft. some (
        true,
        record t {
          global_file_table = gft;
          dic_pid_pft = con_pft t.dic_pid_pft pid (sin_elemento pft descriptor);
        },
      )
    ]

unfoldable pub pedido_cerrar_archivo :
    TablasDeArchivos → ℕ → ℕ → Option (AlCpuArchivo × TablasDeArchivos)
unfolding cerrar_archivo
pedido_cerrar_archivo t pid descriptor =
    if ltb descriptor 3
    then some (archivo_invalido, t)
    else (cerrar_archivo t pid descriptor >>= λ (cerrado, t').
        some (if cerrado then cerrado_exitoso else archivo_invalido, t'))

unfoldable pub obtener_entrada_pft : TablasDeArchivos → ℕ → ℕ → Option EntradaPft
unfolding pft_de
obtener_entrada_pft t pid descriptor = pft_de t.dic_pid_pft pid >>= λ pft. get_elem? pft descriptor

-- The change of the cursor of an open file.
unfoldable pub con_cursor : TablasDeArchivos → ℕ → ℕ → EntradaPft → ℕ → TablasDeArchivos
unfolding pft_de con_pft
con_cursor t pid descriptor entrada posicion = elim (pft_de t.dic_pid_pft pid) [
  | none ↦ t
  | some pft ↦ record t {
    dic_pid_pft =
        con_pft t.dic_pid_pft pid (set pft descriptor (record entrada { cursor = posicion }));
  }
]

unfoldable pub mover_cursor_archivo : TablasDeArchivos → ℕ → ℕ → ℕ → AlCpuArchivo × TablasDeArchivos
unfolding obtener_entrada_pft con_cursor
mover_cursor_archivo t pid descriptor posicion = elim (obtener_entrada_pft t pid descriptor) [
  | none ↦ (archivo_invalido, t)
  | some entrada ↦ elim (get_elem? t.global_file_table entrada.global_fd) [
    | none ↦ (archivo_invalido, t)
    | some e ↦ (mover_cursor_exitoso, con_cursor t pid descriptor entrada posicion)
  ]
]

-- `impreso` is the answer of the console, `none` when the process has none; `escribir_ok` that of the
-- filesystem, to a write at the cursor.
unfoldable pub pedido_escribir_archivo :
    TablasDeArchivos
    → (pid descriptor tamanio : ℕ) → (impreso : Option Bool) → (escribir_ok : Bool)
    → Option (AlCpuArchivo × TablasDeArchivos)
unfolding obtener_entrada_pft con_cursor
pedido_escribir_archivo t pid descriptor tamanio impreso escribir_ok =
    elim (obtener_entrada_pft t pid descriptor) [
      | none ↦ some (archivo_invalido, t)
      | some entrada ↦
          if descriptor == 1
          then elim impreso [
            | none ↦ some (escritura_exitosa, t)
            | some bien ↦ some (if bien then escritura_exitosa else archivo_invalido, t)
          ]
          else (get_elem? t.global_file_table entrada.global_fd >>= λ e. some (
              if entrada.escritura
              then (if escribir_ok
                  then (
                    escritura_exitosa,
                    con_cursor t pid descriptor entrada (entrada.cursor + tamanio),
                  )
                  else (archivo_invalido, t))
              else (permiso_archivo_invalido, t)))
    ]

-- After a read the cursor is set to `+tamanio`.
unfoldable pub pedido_leer_archivo :
    TablasDeArchivos
    → (pid descriptor tamanio : ℕ) → (envio_datos : Bool) → Option (AlCpuArchivo × TablasDeArchivos)
unfolding obtener_entrada_pft con_cursor
pedido_leer_archivo t pid descriptor tamanio envio_datos =
    elim (obtener_entrada_pft t pid descriptor) [
      | none ↦ some (archivo_invalido, t)
      | some entrada ↦ get_elem? t.global_file_table entrada.global_fd >>= λ e. some (
          if entrada.lectura
          then (if envio_datos
              then (lectura_exitosa, con_cursor t pid descriptor entrada tamanio)
              else (archivo_invalido, t))
          else (permiso_archivo_invalido, t))
    ]
