-- ===== src/Fs/Datos.antt =====
-- Reads and writes of the blocks of a file: `leerArchivoFs` and `escribirDatosEnBloques` of
-- Segundo tp/filesystem/src/logicaFileSystem.c. A block is the content of its file
-- in Bloques/: the list of the block `n` is at the index `n`.
pub mod Legible
pub mod Plano
pub mod Escritura
pub mod Archivo
pub mod Lectura
pub mod Vuelta
use so_commons.Base.{
  ℕ, zero, suc, ◌+◌, ◌-◌, ◌*◌, ◌≤◌, ◌≡◌, ◌≢◌, Option, none, some, List, [], ◌∷◌, ◌++◌, ltb, leb,
  ◌==◌, if◌then◌else◌, ◌>>=◌, length, get_elem?, set, take, drop, replicate, All,
}
use so_commons.Fs.{ArchivoMetadata, redondear_division_pa_arriba}
use so_commons.Memoria.Datos.Bytes.{trozo}

-- The strings of the commons library, as the filesystem uses them.
pub record Cadenas : Type 0 where
  pub string_substring : List ℕ → ℕ → ℕ → List ℕ
  pub string_append : List ℕ → List ℕ → List ℕ
  pub string_split : List ℕ → List ℕ → List (List ℕ)

abbrev pub SinNul : List ℕ → Type 0
SinNul = All λ c. c ≢ 0

-- What its documentation says of them: `string_substring` gives as many characters as its third argument
-- says, from `start` on, within the text.
pub record Leyes (S : Cadenas) : Type 0 where
  pub string_substring_lem :
      (s : List ℕ) (start n m : ℕ)
      → SinNul s
      → n ≤ m
      → start + m ≤ length s
      → take n (S.string_substring s start m) ≡ trozo s start n
  pub string_substring_entera : (s : List ℕ) → SinNul s → S.string_substring s 0 (length s) ≡ s
  pub string_append_lem : (s t : List ℕ) → SinNul s → SinNul t → S.string_append s t ≡ s ++ t

-- `fseek` past the end of a file leaves a gap that reads as zeros once something is written.
abbrev pub completar : ℕ → List ℕ → List ℕ
completar n xs = xs ++ replicate (n - length xs) 0

-- `fseek` to `d` and `fwrite` of `ys`, in a file with content `xs`.
unfoldable pub fwrite_en : List ℕ → ℕ → List ℕ → List ℕ
fwrite_en xs d [] = xs
fwrite_en xs d (y ∷ ys) =
    take d (completar d xs) ++ ((y ∷ ys) ++ drop (d + length (y ∷ ys)) (completar d xs))

-- `fseek` to `d` and `fread` of `n` bytes. On a short read the program goes on with bytes of its buffer that
-- nobody wrote: `none`.
unfoldable pub fread_de : List ℕ → ℕ → ℕ → Option (List ℕ)
fread_de xs d zero = some []
fread_de xs d (suc n) = if leb (d + suc n) (length xs) then some (trozo xs d (suc n)) else none

-- `fwrite` of the `n` first characters of a string.
unfoldable pub primeros : ℕ → List ℕ → Option (List ℕ)
primeros n xs = if leb n (length xs) then some (take n xs) else none

-- Where both loops start: the index of the block, and the byte in it.
unfoldable pub bloque_inicial : ℕ → ℕ → ℕ × ℕ
unfolding redondear_division_pa_arriba
bloque_inicial tamanio offset =
    let inicial = redondear_division_pa_arriba offset tamanio in
    if inicial == 0 then (0, offset) else (inicial - 1, offset - tamanio * (inicial - 1))

module _ (S : Cadenas) (tamanio : ℕ) where
  -- What one turn of the loop of `escribirDatosEnBloques` writes. `buffer` is the memory that can be read from the address of the
  -- buffer on: `none` is a read past it. The third argument of `string_substring` is a length.
  unfoldable pub trozo_a_escribir : List ℕ → ℕ → ℕ → Option (List ℕ)
  unfolding primeros
  trozo_a_escribir buffer start n =
      if leb (start + (start + n)) (length buffer)
      then primeros n (S.string_substring buffer start (start + n))
      else none

  -- The loop of `escribirDatosEnBloques`, over the blocks from the index `i` on.
  unfoldable pub escribir_desde :
      List (List ℕ) → List ℕ → ℕ → List ℕ → ℕ → ℕ → Option (List (List ℕ))
  unfolding fwrite_en trozo_a_escribir
  escribir_desde disco [] byte buffer start zero = some disco
  escribir_desde disco [] byte buffer start (suc restantes) = none
  escribir_desde disco (bloque ∷ bloques) byte buffer start restantes =
      if restantes == 0
      then some disco
      else (get_elem? disco bloque >>= λ contenido.
          if leb tamanio (byte + restantes)
          then (trozo_a_escribir buffer start (tamanio - byte) >>= λ escrito.
              escribir_desde (set disco bloque (fwrite_en contenido byte escrito)) bloques 0 buffer
                (start + (tamanio - byte)) (restantes - (tamanio - byte)))
          else (trozo_a_escribir buffer start restantes >>= λ escrito.
              some (set disco bloque (fwrite_en contenido byte escrito))))

  unfoldable pub escribir_datos_en_bloques :
      List (List ℕ) → ArchivoMetadata → ℕ → ℕ → List ℕ → Option (List (List ℕ))
  unfolding escribir_desde bloque_inicial
  escribir_datos_en_bloques disco metadata_archivo offset size buffer =
      let (i, byte) = bloque_inicial tamanio offset in
      escribir_desde disco (drop i metadata_archivo.bloques) byte buffer 0 size

  -- The loop of `leerArchivoFs`. Past the last block it reads the path of no block.
  unfoldable pub leer_desde : List (List ℕ) → List ℕ → ℕ → ℕ → List ℕ → Option (List ℕ)
  unfolding fread_de
  leer_desde disco [] byte_inicial zero lectura = some lectura
  leer_desde disco [] byte_inicial (suc real_size) lectura = none
  leer_desde disco (bloque ∷ bloques) byte_inicial real_size lectura =
      if real_size == 0
      then some lectura
      else (get_elem? disco bloque >>= λ contenido.
          if ltb tamanio (byte_inicial + real_size)
          then (fread_de contenido byte_inicial (tamanio - byte_inicial) >>= λ buffer.
              leer_desde disco bloques 0 (real_size - (tamanio - byte_inicial))
                (S.string_append lectura (S.string_substring buffer 0 (tamanio - byte_inicial))))
          else (fread_de contenido byte_inicial real_size >>= λ buffer.
              some (S.string_append lectura (S.string_substring buffer 0 real_size))))

  -- A start past the last block reads nothing.
  unfoldable pub leer_archivo_fs : List (List ℕ) → ArchivoMetadata → ℕ → ℕ → Option (List ℕ)
  unfolding leer_desde bloque_inicial
  leer_archivo_fs disco metadata_archivo offset size =
      let (i, byte_inicial) = bloque_inicial tamanio offset in
      if leb i (length metadata_archivo.bloques)
      then leer_desde disco (drop i metadata_archivo.bloques) byte_inicial size []
      else some []
